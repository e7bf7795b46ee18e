-- ===== src/Python/State/Ledger.antt =====
-- Runs that do not fault, and what they leave of the references that the C++ code holds.
use dynabridge.Prelude.{
  All, List, Option, arith, false, if◌then◌else◌, none, refl, some, true, ℕ, ◌+◌, ◌==◌, ==_self, [],
  ◌∙◌, ◌∷◌, ◌≡◌, ◌≤◌,
}
use dynabridge.Python.State.{
  Error, Interpreter, M, Pointer, World, acquire, is_raised, lose, points_to, release_all, steal,
  xdecref, ◌>>=◌,
}

-- A run that does not fault, and what holds at its end.
pub data Ends {A : Type 0} (P : A → World → Type 0) : Option (A × World) → Type 0 where
  ends : {a : A} {w : World} → P a w → Ends P (some (a, w))

module _ {A : Type 0} {P Q : A → World → Type 0} where
  pub mono : {r : Option (A × World)} → Ends P r → ((a : A) (w : World) → P a w → Q a w) → Ends Q r
  mono (ends p) weaken = ends (weaken _ _ p)

module _ {A B : Type 0} {P : A → World → Type 0} {Q : B → World → Type 0} where
  pub bind :
      (m : M A) (f : A → M B) (w : World)
      → Ends P (m w)
      → ((a : A) (w' : World) → P a w' → Ends Q (f a w'))
      → Ends Q ((m >>= f) w)
  bind m f w h next = elim h as (λ r h. Ends Q (elim r [ none ↦ none | some (a, w') ↦ f a w' ])) [
    | ends p ↦ next _ _ p
  ]

-- How often a pointer of the list points to the object.
abbrev pub count : ℕ → List Pointer → ℕ
count o [] = 0
count o (p ∷ ps) = (if points_to o p then 1 else 0) + count o ps

-- The code owns the references of the list, and has given them up, or has got them in addition.
abbrev pub Owns : List Pointer → World → Type 0
Owns ps w = (o : ℕ) → count o ps ≤ w.held o

abbrev pub Spends : List Pointer → World → World → Type 0
Spends ps w w' = (o : ℕ) → w'.held o + count o ps ≡ w.held o

abbrev pub Gains : List Pointer → World → World → Type 0
Gains ps w w' = (o : ℕ) → w'.held o ≡ w.held o + count o ps

-- The indicator holds the object too, or there is none.
abbrev pub IsPinned : Pointer → Error → Type 0
IsPinned none e = Unit
IsPinned (some o) e = is_raised o e ≡ true

lose-Spends :
    (p o : ℕ) (w : World)
    → Owns (some p ∷ []) w
    → lose (some p) w.held o + count o (some p ∷ []) ≡ w.held o
lose-Spends p o w h = let k = h o in ground arith

owned : (p : ℕ) (w : World) → Owns (some p ∷ []) w → (w.held p == 0) ≡ false
owned p w h = let k = h p in ground (arith, ==_self p)

pub acquire-Ends :
    (p : Pointer) (w : World)
    → Ends (λ _ w'. Gains (p ∷ []) w w' × (w'.error ≡ w.error)) (acquire p w)
unfolding acquire
acquire-Ends p w = ends ((λ o. ground arith), refl)

pub steal-Ends :
    (p : Pointer) (w : World)
    → Owns (p ∷ []) w
    → Ends (λ _ w'. Spends (p ∷ []) w w' × (w'.error ≡ w.error)) (steal p w)
unfolding steal
steal-Ends none w h = ends ((λ o. omega arith), refl)
steal-Ends (some p) w h = rw (owned p w h) (ends ((λ o. lose-Spends p o w h), refl))

module _ (py : Interpreter) where
  -- An object that the indicator holds is not finalized.
  pub xdecref-Ends :
      (p : Pointer) (w : World)
      → Owns (p ∷ []) w
      → Ends
          (λ _ w'. Spends (p ∷ []) w w' × (IsPinned p w.error → w'.error ≡ w.error))
          (xdecref py p w)
  unfolding xdecref
  xdecref-Ends none w h = ends ((λ o. omega arith), λ _. refl)
  xdecref-Ends (some p) w h =
      rw (owned p w h) (ends ((λ o. lose-Spends p o w h), λ k. ground arith))

  pub release_all-Ends :
      (ps : List Pointer) (w : World)
      → Owns ps w
      → Ends
          (λ _ w'. Spends ps w w' × (All (λ p. IsPinned p w.error) ps → w'.error ≡ w.error))
          (release_all py ps w)
  unfolding release_all
  release_all-Ends [] w h = ends ((λ o. omega arith), λ _. refl)
  release_all-Ends (p ∷ ps) w h =
      bind (xdecref py p) (λ _. release_all py ps) w (xdecref-Ends p w (λ o. omega (arith, h o)))
        λ _ w1 s. mono (release_all-Ends ps w1 (λ o. omega (arith, h o, s.0 o))) λ _ w' q.
          ((λ o. omega (arith, s.0 o, q.0 o)), λ pins. let e = s.1 pins.0 in q.1 (rw e pins.1) ∙ e)
