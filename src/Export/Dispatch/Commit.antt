-- ===== src/Export/Dispatch/Commit.antt =====
-- What a candidate does once it has been committed to.
use mathlib.Core.Path.{subst}
use mathlib.Core.Option.{some-injective}
use dynabridge.Prelude.{
  All, Bool-cases, List, Option, Option-cases, ap, arith, false, inl, inr, length, map, none, refl,
  some, suc, sym, true, ℕ, ◌++◌, [], ◌↔◌, ◌∙◌, ◌∷◌, ◌≡◌,
}
use dynabridge.Raise.{Raise, ok, raised, Raise-cases}
use dynabridge.Export.Plan.{
  Argument, Outcome, Event, converted, invoked, and_then, convert_scalars, all_optionals, values,
  accepted_export_arguments,
}
use dynabridge.Export.Plan.Laws.{accepts}
use dynabridge.Export.Dispatch.{Candidate, has_descriptor, finish_call, commit, dispatch_optional}
use dynabridge.Export.Dispatch.Select.{
  first_viable, is_viable, probes_of, Selects, select_lem, commit_some,
}

-- A conversion succeeds where the probe has accepted, as a converter's contract says.
pub record IsLawful {ℓ} {D N : Type ℓ} (p : Argument D N) : Type ℓ where
  pub scalar : p.is_descriptor ≡ false
  pub converts :
      (d : D) → p.probe d ≡ true → (n : N) × (d' : D) × (p.try_make d ≡ (ok (some n), d'))

all_made {ℓ} : {N : Type ℓ} (ns : List N) → all_optionals (map some ns) ≡ true
unfolding all_optionals
all_made [] = refl
all_made (n ∷ ns) = all_made ns

values_made {ℓ} : {N : Type ℓ} (ns : List N) → values (map some ns) ≡ ns
unfolding values
values_made [] = refl
values_made (n ∷ ns) = ap (◌∷◌ n) (values_made ns)

abbrev pub some_result {ℓ} : {D : Type ℓ} → Raise D → Raise (Option D)
some_result (ok d) = ok (some d)
some_result (raised e) = raised e

module _ {ℓ} {D N : Type ℓ} where
  -- The native arguments, and the dynamic values that the conversions leave.
  abbrev pub natives : List (Argument D N) → List D → List N
  natives [] ds = []
  natives (p ∷ ps) [] = []
  natives (p ∷ ps) (d ∷ ds) = elim (p.try_make d).0 [
    | ok (some n) ↦ n ∷ natives ps ds
    | _ ↦ natives ps ds
  ]

  abbrev pub leftovers : List (Argument D N) → List D → List D
  leftovers [] ds = ds
  leftovers (p ∷ ps) [] = []
  leftovers (p ∷ ps) (d ∷ ds) = (p.try_make d).1 ∷ leftovers ps ds

  -- Each argument is converted once, in order.
  abbrev pub conversions : ℕ → List (Argument D N) → List Event
  conversions i [] = []
  conversions i (p ∷ ps) = converted i ∷ conversions (suc i) ps

  abbrev converts_all : ℕ → List (Argument D N) → List D → Outcome D (List (Option N))
  converts_all i ps ds = record {
    result = ok (map some (natives ps ds));
    args = leftovers ps ds;
    events = conversions i ps;
  }

  convert_cons :
      (i : ℕ) (p : Argument D N) (ps : List (Argument D N)) (d : D) (ds : List D) {n : N} {d' : D}
      → p.try_make d ≡ (ok (some n), d')
      → convert_scalars (suc i) ps ds ≡ converts_all (suc i) ps ds
      → convert_scalars i (p ∷ ps) (d ∷ ds) ≡ converts_all i (p ∷ ps) (d ∷ ds)
  unfolding convert_scalars
  convert_cons i p ps d ds e ih = rw (ap (λ r. r.0) e, ih)

  convert_lem :
      (i : ℕ) (ps : List (Argument D N)) (ds : List D)
      → All IsLawful ps
      → accepts ps ds ≡ true
      → convert_scalars i ps ds ≡ converts_all i ps ds
  unfolding convert_scalars
  convert_lem i [] ds h a = refl
  convert_lem i (p ∷ ps) [] h a = cc
  convert_lem i (p ∷ ps) (d ∷ ds) h a =
      let (n, d', e) = h.0.converts d (ground arith) in
      convert_cons i p ps d ds e (convert_lem (suc i) ps ds h.1 (ground arith))

  -- The outcome of a call whose arguments all convert.
  abbrev pub called : Candidate D N → List D → Outcome D (Option D)
  called c args = record {
    result = some_result (c.callable (natives c.params args));
    args = leftovers c.params args;
    events = conversions 0 c.params ++ invoked ∷ [];
  }

  finish_lem :
      (callable : List N → Raise D) (ns : List N) (left : List D)
      → finish_call true callable (map some ns) left
        ≡ record { result = some_result (callable ns); args = left; events = invoked ∷ [] }
  unfolding finish_call accepted_export_arguments and_then
  finish_lem callable ns left = elim (Raise-cases (callable ns)) [
    | inl (d, e) ↦ rw (all_made ns, values_made ns, e) refl
    | inr (x, e) ↦ rw (all_made ns, values_made ns, e) refl
  ]

  commit-called :
      (c : Candidate D N) (args : List D)
      → All IsLawful c.params
      → accepts c.params args ≡ true
      → commit true c args ≡ called c args
  unfolding commit and_then
  commit-called c args h a =
      rw (convert_lem 0 c.params args h a)
        (rw (finish_lem c.callable (natives c.params args) (leftovers c.params args)))

  first-accepts :
      (static : Option ℕ) (cands : List (Candidate D N)) (args : List D) {c : Candidate D N}
      → first_viable static args cands ≡ some c
      → accepts c.params args ≡ true
  first-accepts static [] args h = cc
  first-accepts static (k ∷ cands) args {c} h = elim (Bool-cases (is_viable static args k)) [
    | inl e ↦
        let same : some k ≡ some c = rw e at h in
        subst (λ x. accepts x.params args ≡ true) (some-injective k c same) (ground arith)
    | inr e ↦ first-accepts static cands args (rw e at h)
  ]

  pub dispatch-called :
      (static : Option ℕ) (cands : List (Candidate D N)) (args : List D) (c : Candidate D N)
      → All (λ k. has_descriptor k.params ≡ false) cands
      → first_viable static args cands ≡ some c
      → All IsLawful c.params
      → Selects
          (probes_of static args cands)
          (dispatch_optional true static cands (length args) args)
          (called c args)
  dispatch-called static cands args c scalars first lawful =
      rw (← commit-called c args lawful (first-accepts static cands args first))
        (rw first at (select_lem static cands args scalars))

  -- With opted-in scalar arguments, the dispatch ends without a result exactly where no candidate
  -- is viable.
  pub dispatch-none :
      (static : Option ℕ) (cands : List (Candidate D N)) (args : List D)
      → All (λ k. has_descriptor k.params ≡ false) cands
      → ((dispatch_optional true static cands (length args) args).result ≡ ok none)
        ↔ (first_viable static args cands ≡ none)
  dispatch-none static cands args scalars = (
    λ h. elim (Option-cases (first_viable static args cands)) [
      | inl e ↦ e
      | inr (c, e) ↦
          absurd
            (commit_some c args (sym (rw e at (select_lem static cands args scalars)).result ∙ h))
    ],
    λ h. (rw h at (select_lem static cands args scalars)).result,
  )
