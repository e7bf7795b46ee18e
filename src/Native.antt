-- ===== src/Native.antt =====
-- `export_native_storage` of dynabridge/traits.h: the native object behind an exported one, which
-- the storage owns or has borrowed.
pub mod Ownership
use dynabridge.Prelude.{Bool, Option, false, if◌then◌else◌, none, not, some, suc, true, ℕ, ◌&&◌}
use dynabridge.Raise.{Raise, ok, raised}

-- What `native_` points to: nothing, the object in `storage_`, or an object elsewhere, with its
-- address.
pub data Pointer : Type 0 where
  null own : Pointer
  borrowed : ℕ → Pointer

abbrev pub is_null : Pointer → Bool
is_null null = true
is_null _ = false

-- The fields, the object that lives in `storage_`, and how many objects have been constructed and
-- destroyed there.
pub record Storage (N : Type 0) : Type 0 where
  pub native : Pointer
  pub owns : Bool
  pub object : Option N
  pub constructed : ℕ
  pub destroyed : ℕ

-- How a move ends, and both storages then.
pub record Moved (N : Type 0) : Type 0 where
  pub result : Raise (Unit {0})
  pub this : Storage N
  pub other : Storage N

module _ {N : Type 0} where
  -- The fields in front of a constructor's body.
  abbrev pub blank : Storage N
  blank = record { native = null; owns = false; object = none; constructed = 0; destroyed = 0 }

  -- `export_native_storage(borrowed_ref<Native>)`
  unfoldable pub borrow : ℕ → Storage N
  borrow address = record blank { native = borrowed address }

  -- `construct`, of what the constructor of `Native` gives.
  unfoldable pub construct : Raise N → Storage N → Raise (Unit {0}) × Storage N
  construct (ok v) s = (
    ok tt,
    record s { native = own; owns = true; object = some v; constructed = suc s.constructed },
  )
  construct (raised e) s = (raised e, s)

  -- `native_->~Native()`; `none` is the destruction of an object that the storage does not hold.
  destroy : Pointer → Option N → Storage N → Option (Storage N)
  destroy own (some v) s =
      some (record s { native = null; owns = false; object = none; destroyed = suc s.destroyed })
  destroy _ _ s = none

  -- `reset`, and the destructor.
  unfoldable pub reset : Storage N → Option (Storage N)
  unfolding destroy
  reset s =
      if s.owns && not (is_null s.native)
      then destroy s.native s.object s
      else some (record s { native = null; owns = false })

  -- `other.reset()` behind the construction; a raise leaves `other` with what the move has left.
  give_up : Raise (Unit {0}) × Storage N → Storage N → Option (Moved N)
  give_up (raised e, this) other = some (record { result = raised e; this = this; other = other })
  give_up (ok u, this) other = elim (reset other) [
    | none ↦ none
    | some other' ↦ some (record { result = ok tt; this = this; other = other' })
  ]

module _ {N : Type 0} (move : N → Raise N × N) where
  -- `construct(std::move(*other.native_))`, where `none` is a read of no object.
  take_object : Pointer → Option N → Storage N → Storage N → Option (Moved N)
  unfolding give_up
  take_object own (some v) this other =
      let (made, left) = move v in
      give_up (construct made this) (record other { object = some left })
  take_object _ _ this other = none

  unfoldable pub move_from : Storage N → Storage N → Option (Moved N)
  unfolding take_object
  move_from this other =
      if other.owns
      then take_object other.native other.object this other
      else some (record {
        result = ok tt;
        this = record this { native = other.native; owns = false };
        other = record other { native = null };
      })

  -- The move constructor.
  unfoldable pub move_construct : Storage N → Option (Moved N)
  move_construct other = move_from blank other

  -- `operator=(export_native_storage&&)` from another storage.
  unfoldable pub move_assign : Storage N → Storage N → Option (Moved N)
  move_assign this other = elim (reset this) [ none ↦ none | some this' ↦ move_from this' other ]
