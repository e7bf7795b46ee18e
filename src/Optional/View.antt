-- ===== src/Optional/View.antt =====
-- An optional as a value that may be there: what its operations do, whatever happens in the
-- storage.
use dynabridge.Prelude.{Option, arith, none, some, ◌≡◌}
use dynabridge.Raise.{Raise, ok, raised}
use dynabridge.Optional.{
  Done, Element, Storage, construct, copy_assign, copy_into, copy_value, destroy, move_assign,
  move_into, move_value, reset, reset_this,
}
use dynabridge.Optional.Lifetime.{IsSound}

-- How an assignment ends, and the values of both optionals then.
pub record Views (T : Type 0) : Type 0 where
  pub result : Raise (Unit {0})
  pub this : Option T
  pub other : Option T

abbrev constructed_view : {T : Type 0} → Raise T → Option T → Views T
constructed_view (ok v) other = record { result = ok tt; this = some v; other = other }
constructed_view (raised e) other = record { result = raised e; this = none; other = other }

abbrev pub IsView : {T : Type 0} → Option (Done T) → Views T → Type 0
IsView none w = ⊥
IsView (some done) w =
    (done.result ≡ w.result) × ((done.this.payload ≡ w.this) × (done.other.payload ≡ w.other))

module _ {T : Type 0} (element : Element T) where
  -- What the assignments do to values: from one value to another the element is assigned, to no
  -- value it is constructed, and from no value it is dropped.
  abbrev pub copied : Option T → Option T → Views T
  copied (some v) (some w) =
      let (result, v') = element.copy_assign v w in
      record { result = result; this = some v'; other = some w }
  copied none (some w) = constructed_view (element.copy w) (some w)
  copied v none = record { result = ok tt; this = none; other = none }

  abbrev pub moved : Option T → Option T → Views T
  moved (some v) (some w) =
      let (result, (v', w')) = element.move_assign v w in
      record { result = result; this = some v'; other = some w' }
  moved none (some w) = constructed_view (element.move w).0 (some (element.move w).1)
  moved v none = record { result = ok tt; this = none; other = none }

  -- Between sound optionals, copy assignment, with its raises, is that of values, and leaves its
  -- source alone.
  pub copy_assign-IsView :
      (this other : Storage T)
      → IsSound this
      → IsSound other
      → IsView (copy_assign element this other) (copied this.payload other.payload)
  unfolding copy_assign copy_into copy_value reset_this reset destroy construct
  copy_assign-IsView this other h k = ground arith

  -- Between sound optionals, move assignment, with its raises, is that of values; a source that
  -- had a value keeps what the element's move leaves.
  pub move_assign-IsView :
      (this other : Storage T)
      → IsSound this
      → IsSound other
      → IsView (move_assign element this other) (moved this.payload other.payload)
  unfolding move_assign move_into move_value reset_this reset destroy construct
  move_assign-IsView this other h k = ground arith
