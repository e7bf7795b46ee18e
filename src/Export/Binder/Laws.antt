-- ===== src/Export/Binder/Laws.antt =====
-- A binder's call against the optional dispatch of the same candidate.
use dynabridge.Prelude.{
  Bool, Bool-cases, List, Option, ap, false, if◌then◌else◌, inl, inr, none, refl, some, sym, true,
  ℕ, [], ◌∙◌, ◌∷◌, ◌≡◌,
}
use dynabridge.Raise.{Raise, ok, raised}
use dynabridge.Export.Plan.{
  Event, Outcome, accepted_export_arguments, and_then, convert_all, convert_scalars, invoked,
  prepare_all, probe_all, probe_scalars, returns, values,
}
use dynabridge.Export.Plan.Laws.{and_then_assoc}
use dynabridge.Export.Dispatch.{
  Candidate, call_optional, call_prepared, call_scalars, commit, finish_call, has_descriptor,
  invoke,
}
use dynabridge.Export.Binder.{
  failed, finish_required, invoke_converted, invoke_prepared, invoke_scalars,
}

-- `if (!…) DYNABRIDGE_RAISE(bad_conversion(message));`
abbrev pub or_failed {ℓ} : {D : Type ℓ} → List ℕ → Option D → List D → Outcome D D
or_failed message (some d) left = returns d left
or_failed message none left = failed message left

module _ {ℓ} {D : Type ℓ} (message : List ℕ) where
  called_lem :
      (r : Raise D) (args : List D)
      → and_then
          (and_then
            (record { result = r; args = args; events = invoked ∷ [] })
            (λ d rest. returns (some d) rest))
          (or_failed message)
        ≡ record { result = r; args = args; events = invoked ∷ [] }
  unfolding and_then
  called_lem (ok d) args = refl
  called_lem (raised e) args = refl

  returned_lem :
      (rest : List D) → and_then (returns none rest) (or_failed message) ≡ failed message rest
  unfolding and_then
  returned_lem rest = refl

  probed_lem :
      (accepted : Bool) (events : List Event) (args : List D) (next : List D → Outcome D (Option D))
      (next' : List D → Outcome D D)
      → ((rest : List D) → and_then (next rest) (or_failed message) ≡ next' rest)
      → and_then
          (and_then
            (record { result = ok accepted; args = args; events = events })
            λ accepted rest. if accepted then next rest else returns none rest)
          (or_failed message)
        ≡ and_then
            (record { result = ok accepted; args = args; events = events })
            λ accepted rest. if accepted then next' rest else failed message rest
  probed_lem accepted events args next next' h =
      and_then_assoc (record { result = ok accepted; args = args; events = events })
        (λ accepted rest. if accepted then next rest else returns none rest) (or_failed message)
      ∙ ap (and_then (record { result = ok accepted; args = args; events = events }))
          (λ i accepted rest. either accepted rest i)
    where
      either :
          (accepted : Bool) (rest : List D)
          → and_then (if accepted then next rest else returns none rest) (or_failed message)
            ≡ (if accepted then next' rest else failed message rest)
      either true rest = h rest
      either false rest = returned_lem rest

module _ {ℓ} {D N : Type ℓ} (message : List ℕ) where
  accepted_lem :
      (r : Raise Bool) (callable : List N → Raise D) (converted : List (Option N)) (args : List D)
      → and_then
          (and_then
            (record { result = r; args = args; events = [] })
            λ accepted rest. if accepted then invoke callable converted rest else returns none rest)
          (or_failed message)
        ≡ and_then
            (record { result = r; args = args; events = [] })
            λ accepted rest.
              if accepted
              then record {
                result = callable (values converted);
                args = rest;
                events = invoked ∷ [];
              }
              else failed message rest
  unfolding and_then
  accepted_lem (ok true) callable converted args =
      called_lem message (callable (values converted)) args
  accepted_lem (ok false) callable converted args = refl
  accepted_lem (raised e) callable converted args = refl

  finish_lem :
      (opted : Bool) (callable : List N → Raise D) (converted : List (Option N)) (args : List D)
      → and_then (finish_call opted callable converted args) (or_failed message)
        ≡ finish_required message opted callable converted args
  unfolding finish_call
  finish_lem opted callable converted args =
      accepted_lem (accepted_export_arguments opted converted) callable converted args

  finishes_lem :
      (opted : Bool) (callable : List N → Raise D) (o : Outcome D (List (Option N)))
      → and_then (and_then o (finish_call opted callable)) (or_failed message)
        ≡ and_then o (finish_required message opted callable)
  finishes_lem opted callable o =
      and_then_assoc o (finish_call opted callable) (or_failed message)
      ∙ ap (and_then o) (λ i converted args. finish_lem opted callable converted args i)

  scalars_lem :
      (c : Candidate D N) (args : List D)
      → and_then (call_scalars c args) (or_failed message) ≡ invoke_scalars message c args
  unfolding call_scalars commit
  scalars_lem c args =
      probed_lem message (probe_scalars 0 c.params args).0 (probe_scalars 0 c.params args).1 args
        (commit true c)
        (λ rest.
          and_then (convert_scalars 0 c.params rest) (finish_required message true c.callable))
        (λ rest. finishes_lem true c.callable (convert_scalars 0 c.params rest))

  prepared_lem :
      (c : Candidate D N) (args : List D)
      → and_then (call_prepared c args) (or_failed message) ≡ invoke_prepared message c args
  unfolding call_prepared
  prepared_lem c args =
      and_then_assoc (prepare_all 0 c.params args) _ (or_failed message)
      ∙ ap (and_then (prepare_all 0 c.params args)) (λ i prepared rest.
        probed_lem message (probe_all 0 c.params prepared rest).0
          (probe_all 0 c.params prepared rest).1 rest
          (λ rest'. and_then (convert_all 0 c.params prepared rest') (finish_call true c.callable))
          (λ rest'.
            and_then (convert_all 0 c.params prepared rest')
              (finish_required message true c.callable))
          (λ rest'. finishes_lem true c.callable (convert_all 0 c.params prepared rest')) i)

  -- The call of a binder is the optional dispatch of its candidate, events included, with a raise
  -- in place of the empty result.
  pub invoke_converted_lem :
      (opted : Bool) (c : Candidate D N) (args : List D)
      → invoke_converted message opted c args
        ≡ and_then (call_optional opted c args) (or_failed message)
  unfolding invoke_converted call_optional commit
  invoke_converted_lem true c args = elim (Bool-cases (has_descriptor c.params)) [
    | inl e ↦ rw e (sym (prepared_lem c args))
    | inr e ↦ rw e (sym (scalars_lem c args))
  ]
  invoke_converted_lem false c args =
      sym (finishes_lem false c.callable (convert_scalars 0 c.params args))
