-- ===== src/Export/Plan/Laws.antt =====
-- The steps of a candidate: what its probes tell, and in which order it does things.
use dynabridge.Prelude.{
  All, Bool, Bool-cases, List, ap, append_assoc, arith, false, if◌then◌else◌, inl, inr, length,
  refl, suc, true, zero, ℕ, ◌&&◌, ◌++◌, [], ◌∷◌, ◌≡◌,
}
use dynabridge.Raise.{Raise, Exception, ok, raised}
use dynabridge.Export.Plan.{continue, Argument, Outcome, Event, probed, and_then, probe_scalars}

abbrev pub IsProbed : Event → Type 0
IsProbed (probed i) = Unit
IsProbed _ = ⊥

-- The probes of arguments that follow one another.
abbrev pub probes : ℕ → ℕ → List Event
probes i zero = []
probes i (suc n) = probed i ∷ probes (suc i) n

pub probes-IsProbed : (i n : ℕ) → All IsProbed (probes i n)
probes-IsProbed i zero = tt
probes-IsProbed i (suc n) = (tt, probes-IsProbed (suc i) n)

module _ {ℓ} {D N : Type ℓ} where
  -- Every probe accepts its argument, and there are as many of both.
  abbrev pub accepts : List (Argument D N) → List D → Bool
  accepts [] [] = true
  accepts [] (d ∷ ds) = false
  accepts (p ∷ ps) [] = false
  accepts (p ∷ ps) (d ∷ ds) = p.probe d && accepts ps ds

  pub accepts-length :
      (ps : List (Argument D N)) (ds : List D) → accepts ps ds ≡ true → length ds ≡ length ps
  accepts-length [] [] h = refl
  accepts-length [] (d ∷ ds) h = cc
  accepts-length (p ∷ ps) [] h = cc
  accepts-length (p ∷ ps) (d ∷ ds) h = ap suc (accepts-length ps ds (ground arith))

  pub probe-accepts :
      (i : ℕ) (ps : List (Argument D N)) (ds : List D)
      → length ds ≡ length ps
      → (probe_scalars i ps ds).0 ≡ accepts ps ds
  unfolding probe_scalars
  probe-accepts i [] [] h = refl
  probe-accepts i [] (d ∷ ds) h = absurd (omega arith)
  probe-accepts i (p ∷ ps) [] h = absurd (omega arith)
  probe-accepts i (p ∷ ps) (d ∷ ds) h = ground (arith, probe-accepts (suc i) ps ds (omega arith))

  -- How many arguments are probed: up to the first that is rejected.
  abbrev pub asked : List (Argument D N) → List D → ℕ
  asked [] ds = 0
  asked (p ∷ ps) [] = 0
  asked (p ∷ ps) (d ∷ ds) = if p.probe d then suc (asked ps ds) else 1

  pub probe-asked :
      (i : ℕ) (ps : List (Argument D N)) (ds : List D)
      → (probe_scalars i ps ds).1 ≡ probes i (asked ps ds)
  unfolding probe_scalars
  probe-asked i [] ds = refl
  probe-asked i (p ∷ ps) [] = refl
  probe-asked i (p ∷ ps) (d ∷ ds) = elim (Bool-cases (p.probe d)) [
    | inl e ↦ rw (e, probe-asked (suc i) ps ds) refl
    | inr e ↦ rw e refl
  ]

module _ {ℓ κ μ} {D : Type ℓ} {A : Type κ} {B : Type μ} where
  pub and_then_raised :
      (o : Outcome D A) (f : A → List D → Outcome D B) {e : Exception}
      → o.result ≡ raised e
      → and_then o f ≡ record { result = raised e; args = o.args; events = o.events }
  unfolding and_then
  and_then_raised o f h = rw h

  pub and_then_ok :
      (o : Outcome D A) (f : A → List D → Outcome D B) {a : A}
      → o.result ≡ ok a
      → and_then o f ≡ record {
        result = (f a o.args).result;
        args = (f a o.args).args;
        events = o.events ++ (f a o.args).events;
      }
  unfolding and_then
  and_then_ok o f h = rw h

module _ {ℓ κ μ} {D : Type ℓ} {A : Type κ} {B : Type μ} where
  continue_after :
      (before events : List Event) (args : List D) (r : Raise A) (f : A → List D → Outcome D B)
      → continue (before ++ events) args r f
        ≡ record (continue events args r f) { events = before ++ (continue events args r f).events }
  unfolding continue
  continue_after before events args (ok a) f = rw append_assoc refl
  continue_after before events args (raised e) f = refl

module _ {ℓ κ μ ν} {D : Type ℓ} {A : Type κ} {B : Type μ} {C : Type ν} where
  continue_assoc :
      (before : List Event) (args : List D) (r : Raise A) (f : A → List D → Outcome D B)
      (g : B → List D → Outcome D C)
      → and_then (continue before args r f) g
        ≡ continue before args r (λ a rest. and_then (f a rest) g)
  unfolding continue and_then
  continue_assoc before args (ok a) f g =
      continue_after before (f a args).events (f a args).args (f a args).result g
  continue_assoc before args (raised e) f g = refl

  pub and_then_assoc :
      (o : Outcome D A) (f : A → List D → Outcome D B) (g : B → List D → Outcome D C)
      → and_then (and_then o f) g ≡ and_then o (λ a rest. and_then (f a rest) g)
  unfolding and_then
  and_then_assoc o f g = continue_assoc o.events o.args o.result f g
