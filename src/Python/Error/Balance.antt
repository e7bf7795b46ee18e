-- ===== src/Python/Error/Balance.antt =====
-- A `python_error` keeps the references it has taken, and puts back the exception as it was.
use mathlib.Core.Path.{subst}
use dynabridge.Prelude.{
  All, Bool-cases, List, arith, if◌then◌else◌, inl, inr, none, refl, some, sym, true, ℕ, ==_self,
  [], ◌∙◌, ◌≡◌,
}
use dynabridge.Python.State.{
  Error, Interpreter, M, Pointer, World, acquire, fetch, is_null, is_raised, no_error, occurred,
  pointers, pure, restore_error, runtime_error, set_string, steal, ◌>>◌,
}
use dynabridge.Python.State.Ledger.{
  Ends, Gains, IsPinned, Owns, Spends, acquire-Ends, bind, ends, mono, release_all-Ends, steal-Ends,
}
use dynabridge.Python.Error.{copy, destroy, make_error, restore}

pub acquire_error-Ends :
    (e : Error) (w : World) {A : Type 0} (k : M A) (Q : A → World → Type 0)
    → ((w' : World) → Gains (pointers e) w w' → w'.error ≡ w.error → Ends Q (k w'))
    → Ends Q ((acquire e.type_ >> (acquire e.value_ >> (acquire e.traceback_ >> k))) w)
acquire_error-Ends e w k Q next =
    bind (acquire e.type_) (λ _. acquire e.value_ >> (acquire e.traceback_ >> k)) w
      (acquire-Ends e.type_ w)
      λ _ w1 s.
        bind (acquire e.value_) (λ _. acquire e.traceback_ >> k) w1 (acquire-Ends e.value_ w1)
          λ _ w2 t.
            bind (acquire e.traceback_) (λ _. k) w2 (acquire-Ends e.traceback_ w2)
              λ _ w3 u. next w3 (λ o. omega (arith, s.0 o, t.0 o, u.0 o)) (u.1 ∙ t.1 ∙ s.1)

-- A copy has references of its own.
pub copy-Ends :
    (e : Error) (w : World)
    → Ends (λ c w'. (c ≡ e) × Gains (pointers e) w w' × (w'.error ≡ w.error)) (copy e w)
unfolding copy
copy-Ends e w = acquire_error-Ends e w (pure e) _ (λ w' g k. ends (refl, g, k))

pub restore_error-Ends :
    (e : Error) (w : World)
    → Owns (pointers e) w
    → Ends (λ _ w'. Spends (pointers e) w w' × (w'.error ≡ e)) (restore_error e w)
unfolding restore_error
restore_error-Ends e w h =
    bind (steal e.type_) _ w (steal-Ends e.type_ w (λ o. omega (arith, h o))) λ _ w1 s.
      bind (steal e.value_) _ w1 (steal-Ends e.value_ w1 (λ o. omega (arith, h o, s.0 o))) λ _ w2 t.
        bind (steal e.traceback_) _ w2
          (steal-Ends e.traceback_ w2 (λ o. omega (arith, h o, s.0 o, t.0 o)))
          λ _ w3 u. ends ((λ o. omega (arith, s.0 o, t.0 o, u.0 o)), refl)

-- The indicator holds the exception, and the object has kept its references.
pub restore-Ends :
    (e : Error) (w : World) → Ends (λ _ w'. Gains [] w w' × (w'.error ≡ e)) (restore e w)
unfolding restore
restore-Ends e w = acquire_error-Ends e w (restore_error e) _ λ w1 g k.
    mono (restore_error-Ends e w1 (λ o. omega (arith, g o)))
      λ _ w2 s. ((λ o. omega (arith, g o, s.0 o)), s.1)

pinned : (p : Pointer) (e : Error) → ((o : ℕ) → p ≡ some o → is_raised o e ≡ true) → IsPinned p e
pinned none e h = tt
pinned (some o) e h = h o refl

All-IsPinned : (e : Error) → All (λ p. IsPinned p e) (pointers e)
All-IsPinned e = (
  pinned e.type_ e (λ o h. ground (arith, ==_self o)),
  (
    pinned e.value_ e (λ o h. ground (arith, ==_self o)),
    (pinned e.traceback_ e (λ o h. ground (arith, ==_self o)), tt),
  ),
)

module _ (py : Interpreter) where
  pub destroy-Ends :
      (e : Error) (w : World)
      → Owns (pointers e) w
      → Ends (λ _ w'. Spends (pointers e) w w' × (w.error ≡ e → w'.error ≡ e)) (destroy py e w)
  unfolding destroy
  destroy-Ends e w h = mono (release_all-Ends py (pointers e) w h) λ _ w' s. (
    s.0,
    λ k. s.1 (subst (λ i. All (λ p. IsPinned p i) (pointers e)) (sym k) (All-IsPinned e)) ∙ k,
  )

  -- The exception that the constructor takes: the one that is set, or one with the message.
  abbrev pub exception_of : List ℕ → Error → Error
  exception_of message e = if is_null e.type_ then py.string_error runtime_error message else e

  pub make_error-Ends :
      (message : List ℕ) (w : World)
      → Ends
          (λ e w'.
            (e ≡ exception_of message w.error) × Gains (pointers e) w w' × (w'.error ≡ no_error))
          (make_error py message w)
  unfolding make_error fetch set_string occurred
  make_error-Ends message w = elim (Bool-cases (is_null w.error.type_)) [
    | inl o ↦ rw o (ends (refl, (λ o. ground arith), refl))
    | inr o ↦ rw o (ends (refl, (λ o. ground arith), refl))
  ]
