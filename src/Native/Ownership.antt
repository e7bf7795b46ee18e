-- ===== src/Native/Ownership.antt =====
-- A native object has one owner, and a borrowed one is never destroyed.
use dynabridge.Prelude.{Bool, Option, arith, false, none, some, true, ℕ, ◌+◌, ◌≡◌}
use dynabridge.Raise.{Raise, ok, raised}
use dynabridge.Native.{
  Moved, Pointer, Storage, construct, destroy, give_up, move_assign, move_construct, move_from,
  null, own, reset, take_object,
}

abbrev pub bit : Bool → ℕ
bit true = 1
bit false = 0

abbrev pub is_own : Pointer → Bool
is_own own = true
is_own _ = false

abbrev pub is_live : {N : Type 0} → Option N → Bool
is_live none = false
is_live (some v) = true

-- An owning storage points to its object, a storage that does not own has none, and of the objects
-- that have been constructed all others have been destroyed.
pub record IsSound {N : Type 0} (s : Storage N) : Type 0 where
  pub points : s.owns ≡ is_own s.native
  pub lives : s.owns ≡ is_live s.object
  pub balance : s.constructed ≡ s.destroyed + bit s.owns

-- Neither storage has been read or destroyed where it holds no object, and both are sound.
abbrev pub LeavesSound : {N : Type 0} → Option (Moved N) → Type 0
LeavesSound none = ⊥
LeavesSound (some moved) = IsSound moved.this × IsSound moved.other

abbrev pub IsReleased : {N : Type 0} → Option (Storage N) → Type 0
IsReleased none = ⊥
IsReleased (some s) = (s.constructed ≡ s.destroyed) × (s.native ≡ null)

-- Where the move has succeeded, `this` points to what `other` pointed to, or to an object of its
-- own in place of that of `other`, and `other` points to nothing.
abbrev pub IsTransfer : {N : Type 0} → Storage N → Option (Moved N) → Type 0
IsTransfer before none = ⊥
IsTransfer before (some moved) = elim moved.result [
  | raised e ↦ (moved.other.native ≡ before.native) × (moved.this.native ≡ null)
  | ok u ↦
      (moved.this.native ≡ before.native)
      × ((moved.this.owns ≡ before.owns) × (moved.other.native ≡ null))
]

module _ {N : Type 0} where
  -- The destructor of a sound storage destroys the object that it owns, and no borrowed one.
  pub reset-IsReleased : (s : Storage N) → IsSound s → IsReleased (reset s)
  unfolding reset destroy
  reset-IsReleased s h = ground arith

module _ {N : Type 0} (move : N → Raise N × N) where
  pub move_construct-LeavesSound :
      (other : Storage N) → IsSound other → LeavesSound (move_construct move other)
  unfolding move_construct move_from take_object give_up construct reset destroy
  move_construct-LeavesSound other h = ground arith

  -- Move assignment between sound storages reads and destroys no object that is not there or is
  -- borrowed, and leaves both sound, also where the move of the object raises.
  pub move_assign-LeavesSound :
      (this other : Storage N)
      → IsSound this
      → IsSound other
      → LeavesSound (move_assign move this other)
  unfolding move_assign move_from take_object give_up construct reset destroy
  move_assign-LeavesSound this other h k = ground arith

  -- Between sound storages, a successful move assignment hands the pointer or the ownership over
  -- and leaves the source with neither; where the move of the object raises, the source keeps its
  -- own and the target points to nothing.
  pub move_assign-IsTransfer :
      (this other : Storage N)
      → IsSound this
      → IsSound other
      → IsTransfer other (move_assign move this other)
  unfolding move_assign move_from take_object give_up construct reset destroy
  move_assign-IsTransfer this other h k = ground arith
