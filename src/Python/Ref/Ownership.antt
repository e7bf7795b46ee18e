-- ===== src/Python/Ref/Ownership.antt =====
-- Every reference has one owner, in whatever way two `object_ref`s are used.
use dynabridge.Prelude.{Bool, List, arith, false, none, refl, true, ℕ, ◌+◌, ◌++◌, [], ◌∷◌, ◌≡◌}
use dynabridge.Python.State.{Interpreter, Pointer, World, acquire, xdecref}
use dynabridge.Python.State.Ledger.{Ends, Owns, acquire-Ends, bind, count, ends, xdecref-Ends}
use dynabridge.Python.Ref.{
  RefPolicy, Refs, Use, apply, apply_all, assigns, borrowed, destroy, move_assign, owned, release,
  releases, reset, resets, scope,
}

-- The pointers that a use takes over.
abbrev pub taken : Use → List Pointer
taken (resets which object owned) = object ∷ []
taken _ = []

abbrev pub all_taken : List Use → List Pointer
all_taken [] = []
all_taken (u ∷ us) = taken u ++ all_taken us

-- The references of the two objects and of what was released from them.
abbrev pub count_refs : ℕ → Refs → ℕ
count_refs o r = count o (r.first ∷ r.second ∷ []) + count o r.loose

count-append : (o : ℕ) (ps qs : List Pointer) → count o (ps ++ qs) ≡ count o ps + count o qs
count-append o [] qs = omega arith
count-append o (p ∷ ps) qs = omega (arith, count-append o ps qs)

module _ (py : Interpreter) where
  reset-Ends :
      (this object : Pointer) (policy : RefPolicy) (w : World)
      → Owns (this ∷ []) w
      → Ends
          (λ p w'.
            (p ≡ object)
            × ((o : ℕ)
                → w'.held o + count o (this ∷ []) + count o (taken (resets true object policy))
                  ≡ w.held o + count o (p ∷ [])))
          (reset py this object policy w)
  unfolding reset
  reset-Ends this object borrowed w h =
      bind (xdecref py this) _ w (xdecref-Ends py this w h) λ _ w1 s.
        bind (acquire object) _ w1 (acquire-Ends object w1)
          λ _ w2 t. ends (refl, λ o. omega (arith, s.0 o, t.0 o))
  reset-Ends this object owned w h =
      bind (xdecref py this) _ w (xdecref-Ends py this w h)
        λ _ w1 s. ends (refl, λ o. omega (arith, s.0 o))

  move_assign-Ends :
      (self : Bool) (this source : Pointer) (w : World)
      → Owns (this ∷ []) w
      → Ends
          (λ x w'.
            (o : ℕ)
            → w'.held o + count o (this ∷ source ∷ []) ≡ w.held o + count o (x.0 ∷ x.1 ∷ []))
          (move_assign py self this source w)
  unfolding move_assign release
  move_assign-Ends true this source w h = ends (λ o. omega arith)
  move_assign-Ends false this source w h =
      bind (reset py this source owned) _ w (reset-Ends this source owned w h)
        λ p w1 s. ends (λ o. omega (arith, s.1 o))

  -- What the code holds apart from the two objects, from what was released and from the pointers
  -- that the uses will take over.
  abbrev Holds : (ℕ → ℕ) → List Use → Refs → World → Type 0
  Holds outside us r w = (o : ℕ) → w.held o ≡ outside o + count o (all_taken us) + count_refs o r

  apply-Ends :
      (outside : ℕ → ℕ) (u : Use) (us : List Use) (r : Refs) (w : World)
      → Holds outside (u ∷ us) r w
      → Ends (λ r' w'. Holds outside us r' w') (apply py u r w)
  unfolding apply release move_assign
  apply-Ends outside (resets true object policy) us r w h =
      bind (reset py r.first object policy) _ w
        (reset-Ends r.first object policy w (λ o. omega (arith, h o)))
        λ p w1 s. ends (λ o.
          let e = count-append o (taken (resets true object policy)) (all_taken us) in
          omega (arith, h o, s.1 o, e))
  apply-Ends outside (resets false object policy) us r w h =
      bind (reset py r.second object policy) _ w
        (reset-Ends r.second object policy w (λ o. omega (arith, h o)))
        λ p w1 s. ends (λ o.
          let e = count-append o (taken (resets false object policy)) (all_taken us) in
          omega (arith, h o, s.1 o, e))
  apply-Ends outside (assigns true true) us r w h = ends (λ o. omega (arith, h o))
  apply-Ends outside (assigns true false) us r w h =
      bind (move_assign py false r.first r.second) _ w
        (move_assign-Ends false r.first r.second w (λ o. omega (arith, h o)))
        λ x w1 s. ends (λ o. omega (arith, h o, s o))
  apply-Ends outside (assigns false true) us r w h = ends (λ o. omega (arith, h o))
  apply-Ends outside (assigns false false) us r w h =
      bind (move_assign py false r.second r.first) _ w
        (move_assign-Ends false r.second r.first w (λ o. omega (arith, h o)))
        λ x w1 s. ends (λ o. omega (arith, h o, s o))
  apply-Ends outside (releases true) us r w h = ends (λ o. omega (arith, h o))
  apply-Ends outside (releases false) us r w h = ends (λ o. omega (arith, h o))

  apply_all-Ends :
      (outside : ℕ → ℕ) (us : List Use) (r : Refs) (w : World)
      → Holds outside us r w
      → Ends (λ r' w'. Holds outside [] r' w') (apply_all py us r w)
  unfolding apply_all
  apply_all-Ends outside [] r w h = ends h
  apply_all-Ends outside (u ∷ us) r w h =
      bind (apply py u r) (apply_all py us) w (apply-Ends outside u us r w h)
        λ r' w' h'. apply_all-Ends outside us r' w' h'

  -- In whatever order two `object_ref`s are reset, assigned to one another or to themselves and
  -- released, no reference is given up that the code does not hold, and at the end of their scope
  -- it holds what it held apart from the pointers that it gave them, and the pointers that it has
  -- released from them.
  pub scope-IsBalanced :
      (us : List Use) (outside : ℕ → ℕ) (w : World)
      → ((o : ℕ) → w.held o ≡ outside o + count o (all_taken us))
      → Ends (λ loose w'. (o : ℕ) → w'.held o ≡ outside o + count o loose) (scope py us w)
  unfolding scope destroy
  scope-IsBalanced us outside w h =
      bind (apply_all py us (record { first = none; second = none; loose = [] })) _ w
        (apply_all-Ends outside us _ w (λ o. omega (arith, h o)))
        λ r w1 k.
          bind (xdecref py r.second) _ w1 (xdecref-Ends py r.second w1 (λ o. omega (arith, k o)))
            λ _ w2 s.
              bind (xdecref py r.first) _ w2
                (xdecref-Ends py r.first w2 (λ o. omega (arith, k o, s.0 o)))
                λ _ w3 t. ends (λ o. omega (arith, k o, s.0 o, t.0 o))
