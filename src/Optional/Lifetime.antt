-- ===== src/Optional/Lifetime.antt =====
-- Every object in an optional is destroyed once, and none is read or destroyed that is not there.
use dynabridge.Prelude.{
  All, Bool, List, Option, arith, false, none, some, true, ℕ, ◌+◌, [], ◌∷◌, ◌≡◌,
}
use dynabridge.Raise.{Raise, ok, raised}
use dynabridge.Optional.{
  Done, Element, Storage, construct, copy_assign, copy_construct, copy_into, copy_value, destroy,
  emplace, move_assign, move_construct, move_into, move_value, reset, reset_this,
}

abbrev pub bit : Bool → ℕ
bit true = 1
bit false = 0

abbrev pub is_live : {T : Type 0} → Option T → Bool
is_live none = false
is_live (some v) = true

-- The flag says whether an object lives in the payload, and of the objects that have been
-- constructed all others have been destroyed.
pub record IsSound {T : Type 0} (s : Storage T) : Type 0 where
  pub flag : s.has_value ≡ is_live s.payload
  pub balance : s.constructed ≡ s.destroyed + bit s.has_value

-- Nothing has been read or destroyed that is not there, and both storages are left sound.
abbrev pub LeavesSound : {T : Type 0} → Option (Done T) → Type 0
LeavesSound none = ⊥
LeavesSound (some done) = IsSound done.this × IsSound done.other

abbrev pub IsSoundResult : {T : Type 0} → Option (Storage T) → Type 0
IsSoundResult none = ⊥
IsSoundResult (some s) = IsSound s

-- What a program does to an optional; the other optionals are its operands.
pub data Operation (T : Type 0) : Type 0 where
  emplaces : Raise T → Operation T
  resets : Operation T
  copies moves : Storage T → Operation T

abbrev pub HasSoundOperand : {T : Type 0} → Operation T → Type 0
HasSoundOperand (copies other) = IsSound other
HasSoundOperand (moves other) = IsSound other
HasSoundOperand _ = Unit

abbrev pub storage_of : {T : Type 0} → Option (Done T) → Option (Storage T)
storage_of none = none
storage_of (some done) = some done.this

abbrev pub emplaced : {T : Type 0} → Option (Raise (Unit {0}) × Storage T) → Option (Storage T)
emplaced none = none
emplaced (some (result, s)) = some s

abbrev pub then_run :
    {T : Type 0} → (Storage T → Option (Storage T)) → Option (Storage T) → Option (Storage T)
then_run run none = none
then_run run (some s) = run s

module _ {T : Type 0} where
  reset-IsSound : (s : Storage T) → IsSound s → IsSoundResult (reset s)
  unfolding reset destroy
  reset-IsSound s h = ground arith

  emplace-IsSound :
      (made : Raise T) (s : Storage T) → IsSound s → IsSoundResult (emplaced (emplace made s))
  unfolding emplace construct reset destroy
  emplace-IsSound (ok v) s h = ground arith
  emplace-IsSound (raised e) s h = ground arith

module _ {T : Type 0} (element : Element T) where
  pub copy_assign-LeavesSound :
      (this other : Storage T)
      → IsSound this
      → IsSound other
      → LeavesSound (copy_assign element this other)
  unfolding copy_assign copy_into copy_value reset_this reset destroy construct
  copy_assign-LeavesSound this other h k = ground arith

  pub move_assign-LeavesSound :
      (this other : Storage T)
      → IsSound this
      → IsSound other
      → LeavesSound (move_assign element this other)
  unfolding move_assign move_into move_value reset_this reset destroy construct
  move_assign-LeavesSound this other h k = ground arith

  pub copy_construct-LeavesSound :
      (other : Storage T) → IsSound other → LeavesSound (copy_construct element other)
  unfolding copy_construct copy_into construct
  copy_construct-LeavesSound other k = ground arith

  pub move_construct-LeavesSound :
      (other : Storage T) → IsSound other → LeavesSound (move_construct element other)
  unfolding move_construct move_into construct
  move_construct-LeavesSound other k = ground arith

  abbrev pub apply : Operation T → Storage T → Option (Storage T)
  apply (emplaces made) s = emplaced (emplace made s)
  apply resets s = reset s
  apply (copies other) s = storage_of (copy_assign element s other)
  apply (moves other) s = storage_of (move_assign element s other)

  -- The operations in order, and the destructor behind them.
  abbrev pub history : List (Operation T) → Storage T → Option (Storage T)
  history [] s = reset s
  history (op ∷ ops) s = then_run (history ops) (apply op s)

  storage_of-IsSound : (o : Option (Done T)) → LeavesSound o → IsSoundResult (storage_of o)
  storage_of-IsSound none h = h
  storage_of-IsSound (some done) h = h.0

  apply-IsSound :
      (op : Operation T) (s : Storage T)
      → HasSoundOperand op
      → IsSound s
      → IsSoundResult (apply op s)
  apply-IsSound (emplaces made) s k h = emplace-IsSound made s h
  apply-IsSound resets s k h = reset-IsSound s h
  apply-IsSound (copies other) s k h =
      storage_of-IsSound (copy_assign element s other) (copy_assign-LeavesSound s other h k)
  apply-IsSound (moves other) s k h =
      storage_of-IsSound (move_assign element s other) (move_assign-LeavesSound s other h k)

  -- The end of a program: every object that was constructed has been destroyed.
  abbrev pub IsBalanced : Option (Storage T) → Type 0
  IsBalanced none = ⊥
  IsBalanced (some s) = s.constructed ≡ s.destroyed

  then_run-IsBalanced :
      (run : Storage T → Option (Storage T)) (o : Option (Storage T))
      → ((s : Storage T) → IsSound s → IsBalanced (run s))
      → IsSoundResult o
      → IsBalanced (then_run run o)
  then_run-IsBalanced run none f h = h
  then_run-IsBalanced run (some s) f h = f s h

  reset-IsBalanced : (s : Storage T) → IsSound s → IsBalanced (reset s)
  unfolding reset destroy
  reset-IsBalanced s h = ground arith

  -- On a sound optional, any program of emplacements, resets and assignments from other optionals,
  -- with the destructor at its end, reads and destroys no object that is not there, also where the
  -- element's operations raise; and every object that it has constructed has been destroyed once.
  pub history-IsBalanced :
      (ops : List (Operation T)) (s : Storage T)
      → All HasSoundOperand ops
      → IsSound s
      → IsBalanced (history ops s)
  history-IsBalanced [] s k h = reset-IsBalanced s h
  history-IsBalanced (op ∷ ops) s k h =
      then_run-IsBalanced (history ops) (apply op s) (λ s' g. history-IsBalanced ops s' k.1 g)
        (apply-IsSound op s k.0 h)
