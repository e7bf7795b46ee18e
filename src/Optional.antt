-- ===== src/Optional.antt =====
-- `optional` of dynabridge/optional.h with its storage, for types that are not trivially
-- destructible: the lifetime of the object in the payload.
--
-- The constructors and assignments of the element type are parameters, which may raise.
pub mod Lifetime
pub mod View
use dynabridge.Prelude.{
  Bool, List, Option, false, if◌then◌else◌, none, some, suc, true, ℕ, ◌&&◌, [], ◌∷◌,
}
use dynabridge.Raise.{Raise, ok, raised}

-- The copy and move operations of `T`. A move gives what it leaves of its source; an assignment
-- gives what it leaves of its target, also where it raises.
pub record Element (T : Type 0) : Type 0 where
  pub copy : T → Raise T
  pub move : T → Raise T × T
  pub copy_assign : T → T → Raise (Unit {0}) × T
  pub move_assign : T → T → Raise (Unit {0}) × (T × T)

-- `optional_storage_base`: the object that lives in the payload, if any, and how many objects have
-- been constructed and destroyed in it.
pub record Storage (T : Type 0) : Type 0 where
  pub payload : Option T
  pub has_value : Bool
  pub constructed : ℕ
  pub destroyed : ℕ

-- How an operation ends, and the storages that it leaves.
pub record Done (T : Type 0) : Type 0 where
  pub result : Raise (Unit {0})
  pub this : Storage T
  pub other : Storage T

module _ {T : Type 0} where
  -- `optional_storage_base()`
  abbrev pub empty : Storage T
  empty = record { payload = none; has_value = false; constructed = 0; destroyed = 0 }

  -- `construct`, of what the constructor gives. It does not look at an object that lives there.
  unfoldable pub construct : Raise T → Storage T → Raise (Unit {0}) × Storage T
  construct (ok v) s =
      (ok tt, record s { payload = some v; has_value = true; constructed = suc s.constructed })
  construct (raised e) s = (raised e, s)

  -- `payload_.value_.~T()`; `none` is the destruction of no object.
  destroy : Option T → Storage T → Option (Storage T)
  destroy none s = none
  destroy (some v) s =
      some (record s { payload = none; has_value = false; destroyed = suc s.destroyed })

  -- `reset`, and the destructor.
  unfoldable pub reset : Storage T → Option (Storage T)
  unfolding destroy
  reset s = if s.has_value then destroy s.payload s else some s

  -- `optional(const T&)`, `optional(T&&)` and `optional(in_place, ...)`
  unfoldable pub in_place : Raise T → Raise (Unit {0}) × Storage T
  in_place made = construct made empty

  -- `emplace`
  unfoldable pub emplace : Raise T → Storage T → Option (Raise (Unit {0}) × Storage T)
  emplace made s = elim (reset s) [ none ↦ none | some s' ↦ some (construct made s') ]

module _ {T : Type 0} (element : Element T) where
  -- Each of these reads `get()`, where `none` is a read of no object.
  copy_into : Option T → Storage T → Storage T → Option (Done T)
  copy_into none this other = none
  copy_into (some v) this other =
      let (result, this') = construct (element.copy v) this in
      some (record { result = result; this = this'; other = other })

  move_into : Option T → Storage T → Storage T → Option (Done T)
  move_into none this other = none
  move_into (some v) this other =
      let (made, left) = element.move v in
      let (result, this') = construct made this in
      some (record { result = result; this = this'; other = record other { payload = some left } })

  -- The constructors from another optional; `this` is what `base_t()` makes.
  unfoldable pub copy_construct : Storage T → Option (Done T)
  unfolding copy_into
  copy_construct other =
      if other.has_value
      then copy_into other.payload empty other
      else some (record { result = ok tt; this = empty; other = other })

  unfoldable pub move_construct : Storage T → Option (Done T)
  unfolding move_into
  move_construct other =
      if other.has_value
      then move_into other.payload empty other
      else some (record { result = ok tt; this = empty; other = other })

  reset_this : Storage T → Storage T → Option (Done T)
  reset_this this other = elim (reset this) [
    | none ↦ none
    | some this' ↦ some (record { result = ok tt; this = this'; other = other })
  ]

  copy_value : Option T → Option T → Storage T → Storage T → Option (Done T)
  copy_value (some v) (some w) this other =
      let (result, v') = element.copy_assign v w in
      some (record { result = result; this = record this { payload = some v' }; other = other })
  copy_value _ _ this other = none

  move_value : Option T → Option T → Storage T → Storage T → Option (Done T)
  move_value (some v) (some w) this other =
      let (result, (v', w')) = element.move_assign v w in
      some (record {
        result = result;
        this = record this { payload = some v' };
        other = record other { payload = some w' };
      })
  move_value _ _ this other = none

  -- `operator=`, to another optional: `this != &other` holds.
  unfoldable pub copy_assign : Storage T → Storage T → Option (Done T)
  unfolding copy_into copy_value reset_this
  copy_assign this other =
      if this.has_value && other.has_value
      then copy_value this.payload other.payload this other
      else if other.has_value
      then copy_into other.payload this other
      else reset_this this other

  unfoldable pub move_assign : Storage T → Storage T → Option (Done T)
  unfolding move_into move_value reset_this
  move_assign this other =
      if this.has_value && other.has_value
      then move_value this.payload other.payload this other
      else if other.has_value
      then move_into other.payload this other
      else reset_this this other

  -- `operator=` to the optional itself.
  unfoldable pub self_assign : Storage T → Raise (Unit {0}) × Storage T
  self_assign this = (ok tt, this)
