-- ===== src/Export/Dispatch/Select.antt =====
-- Which overload an opted-in dispatch of scalar arguments selects, and what it does on the way.
use mathlib.Core.Path.{ap₂}
use dynabridge.Prelude.{
  All, All-append, Bool, Bool-cases, List, Option, ap, append-nil, append_assoc, arith, false,
  if◌then◌else◌, inl, inr, length, none, not, refl, some, sym, true, ℕ, ◌&&◌, ◌++◌, ◌==◌, [], ◌∙◌,
  ◌∷◌, ◌≡◌, ◌≢◌,
}
use dynabridge.Raise.{Raise, ok, Raise-cases}
use dynabridge.Export.Plan.{
  Outcome, Event, and_then, returns, convert_scalars, accepted_export_arguments,
}
use dynabridge.Export.Plan.Laws.{
  IsProbed, accepts, accepts-length, asked, probe-accepts, probe-asked, probes, probes-IsProbed,
  and_then_ok, and_then_raised,
}
use dynabridge.Export.Dispatch.{
  Candidate, arity, has_descriptor, can_access, finish_call, commit, call_scalars, call_optional,
  skips, or_rest, dispatch_optional,
}

-- The outcome that is wanted, behind the probes and nothing else.
pub record Selects {ℓ} {D : Type ℓ} (probes : List Event) (o want : Outcome D (Option D))
    : Type ℓ where
  pub result : o.result ≡ want.result
  pub args : o.args ≡ want.args
  pub events : o.events ≡ probes ++ want.events
  pub probes_only : All IsProbed probes

module _ {ℓ} {D N : Type ℓ} where
  abbrev pub is_viable : Option ℕ → List D → Candidate D N → Bool
  is_viable static args c =
      not c.is_unmatched && (can_access static (arity c) && accepts c.params args)

  -- Whether the arguments are looked at for a candidate.
  abbrev pub is_tried : Option ℕ → List D → Candidate D N → Bool
  is_tried static args c =
      not c.is_unmatched && (can_access static (arity c) && length args == arity c)

  -- The probes of the candidates in declaration order: for each one up to the first viable one, of
  -- its parameters in order up to the first that rejects its argument.
  abbrev pub probes_of : Option ℕ → List D → List (Candidate D N) → List Event
  probes_of static args [] = []
  probes_of static args (c ∷ cs) =
      if is_tried static args c
      then (if accepts c.params args
          then probes 0 (asked c.params args)
          else probes 0 (asked c.params args) ++ probes_of static args cs)
      else probes_of static args cs

  -- The first viable candidate in declaration order.
  abbrev pub first_viable : Option ℕ → List D → List (Candidate D N) → Option (Candidate D N)
  first_viable static args [] = none
  first_viable static args (c ∷ cs) =
      if is_viable static args c then some c else first_viable static args cs

  -- What the dispatch does then: it converts the arguments of that candidate, and invokes it.
  abbrev pub chosen : Option (Candidate D N) → List D → Outcome D (Option D)
  chosen none args = returns none args
  chosen (some c) args = commit true c args

  finish_some :
      (callable : List N → Raise D) (made : List (Option N)) (args : List D)
      → (finish_call true callable made args).result ≢ ok none
  unfolding finish_call accepted_export_arguments and_then
  finish_some callable made args h = ground arith

  -- Once it has been committed to, an opted-in candidate ends with a result or raises.
  pub commit_some : (c : Candidate D N) (args : List D) → (commit true c args).result ≢ ok none
  unfolding commit
  commit_some c args h = elim (Raise-cases (convert_scalars 0 c.params args).result) [
    | inl (made, e) ↦ finish_some c.callable made (convert_scalars 0 c.params args).args (
        sym (
          ap (λ o. o.result)
            (and_then_ok (convert_scalars 0 c.params args) (finish_call true c.callable) e))
        ∙ h)
    | inr (x, e) ↦ cc (
      h,
      ap (λ o. o.result)
          (and_then_raised (convert_scalars 0 c.params args) (finish_call true c.callable) e),
    )
  ]

  skips-viable :
      (static : Option ℕ) (c : Candidate D N) (args : List D)
      → skips static (length args) c ≡ true
      → (is_viable static args c ≡ false) × (is_tried static args c ≡ false)
  unfolding skips
  skips-viable static c args h = ground (arith, accepts-length c.params args)

  stays-viable :
      (static : Option ℕ) (c : Candidate D N) (args : List D)
      → skips static (length args) c ≡ false
      → (is_viable static args c ≡ accepts c.params args)
        × (is_tried static args c ≡ true)
        × (length args ≡ arity c)
  unfolding skips
  stays-viable static c args h = ground arith

  -- What is left of a candidate whose probes have been made.
  after_probes :
      (c : Candidate D N) (args : List D)
      → has_descriptor c.params ≡ false
      → length args ≡ arity c
      → (call_optional true c args
          ≡ and_then
              (record {
                result = ok (accepts c.params args);
                args = args;
                events = probes 0 (asked c.params args);
              })
              (λ accepted left. if accepted then commit true c left else returns none left))
  unfolding call_optional call_scalars
  after_probes c args h same =
      rw (h, probe-accepts 0 c.params args same, probe-asked 0 c.params args)

  -- The candidate whose probes accept ends the dispatch.
  accepted_lem :
      (c : Candidate D N) (args : List D) (events : List Event)
      (rest : List D → Outcome D (Option D))
      → All IsProbed events
      → Selects events
          (and_then
            (and_then
              (record { result = ok true; args = args; events = events })
              (λ accepted left. if accepted then commit true c left else returns none left))
            (or_rest rest))
          (commit true c args)
  unfolding and_then or_rest
  accepted_lem c args events rest h = elim (Raise-cases (commit true c args).result) [
    | inl (some d, e) ↦
        rw (e, and_then)
          (record {
            result = refl;
            args = refl;
            events = append-nil (events ++ (commit true c args).events);
            probes_only = h;
          })
    | inl (none, e) ↦ absurd (commit_some c args e)
    | inr (x, e) ↦
        rw (e, and_then) (record { result = refl; args = refl; events = refl; probes_only = h })
  ]

  -- A candidate that a probe rejects leaves the arguments to the next.
  rejected_lem :
      (c : Candidate D N) (args : List D) (events : List Event)
      (rest : List D → Outcome D (Option D)) (want : Outcome D (Option D)) {later : List Event}
      → All IsProbed events
      → Selects later (rest args) want
      → Selects
          (events ++ later)
          (and_then
            (and_then
              (record { result = ok false; args = args; events = events })
              (λ accepted left. if accepted then commit true c left else returns none left))
            (or_rest rest))
          want
  unfolding and_then or_rest
  rejected_lem c args events rest want {later} h s = record {
    result = s.result;
    args = s.args;
    events = ap₂ ◌++◌ (append-nil events) s.events ∙ sym (append_assoc events later want.events);
    probes_only = All-append IsProbed events later h s.probes_only;
  }

  -- With opted-in scalar arguments the dispatch commits to the first viable candidate, or to none:
  -- its result, the arguments that it leaves and its events are those of that candidate's
  -- conversions and call, behind the probes of the candidates up to that one, in order, and nothing
  -- else.
  pub select_lem :
      (static : Option ℕ) (cands : List (Candidate D N)) (args : List D)
      → All (λ c. has_descriptor c.params ≡ false) cands
      → Selects
          (probes_of static args cands)
          (dispatch_optional true static cands (length args) args)
          (chosen (first_viable static args cands) args)
  unfolding dispatch_optional
  select_lem static [] args h = record {
    result = refl;
    args = refl;
    events = refl;
    probes_only = tt;
  }
  select_lem static (c ∷ cs) args h = elim (Bool-cases (skips static (length args) c)) [
    | inl skip ↦
        let e = skips-viable static c args skip in
        rw (skip, e.0, e.1) (select_lem static cs args h.1)
    | inr stay ↦
        let (viable, tried, same) = stays-viable static c args stay in
        let asked_only = probes-IsProbed 0 (asked c.params args) in
        let rest = dispatch_optional true static cs (length args) in
        elim (Bool-cases (accepts c.params args)) [
          | inl yes_lem ↦
              rw (stay, viable, tried, after_probes c args h.0 same, yes_lem)
                (accepted_lem c args _ rest asked_only)
          | inr no_lem ↦
              rw (stay, viable, tried, after_probes c args h.0 same, no_lem)
                (rejected_lem c args _ rest _ asked_only (select_lem static cs args h.1))
        ]
  ]
