-- ===== src/Export/Dispatch.antt =====
-- `export_overload_candidate`, `export_overload_dispatch` and `export_overload_required_dispatch`
-- of dynabridge/export_callable.h.
pub mod Select
pub mod Commit
use dynabridge.Prelude.{
  Bool, List, Option, false, if◌then◌else◌, leb, length, ltb, none, not, some, true, zero, ℕ, ◌&&◌,
  ◌==◌, [], ◌||◌, ◌∷◌,
}
use dynabridge.Prelude.Text.{codes}
use dynabridge.Raise.{Raise, bad_conversion, ok, raised}
use dynabridge.Export.Plan.{
  Argument, Outcome, Event, invoked, and_then, returns, probe_scalars, convert_scalars, prepare_all,
  probe_all, convert_all, values, accepted_export_arguments,
}

-- A declared overload with the callable that is bound to it. `callable` is the native function and
-- the conversion of its result (`to_export_result`, or `undefined` for a void function).
pub record Candidate {ℓ} (D N : Type ℓ) : Type ℓ where
  pub is_unmatched : Bool
  pub params : List (Argument D N)
  pub callable : List N → Raise D

-- `Accessor::static_arity`; `none` is `dynamic_arity`.
unfoldable pub can_access : Option ℕ → ℕ → Bool
can_access none n = true
can_access (some static_arity) n = leb n static_arity

-- `if (result) return result;`, and the call of the rest.
or_rest {ℓ} :
    {D : Type ℓ} → (List D → Outcome D (Option D)) → Option D → List D → Outcome D (Option D)
or_rest rest (some d) left = returns (some d) left
or_rest rest none left = rest left

required {ℓ} : {D : Type ℓ} → Option D → List D → Outcome D D
required (some d) args = returns d args
required none args = record {
  result = raised (bad_conversion (codes "dynabridge export overload has no matching signature"));
  args = args;
  events = [];
}

module _ {ℓ} {D N : Type ℓ} where
  abbrev pub arity : Candidate D N → ℕ
  arity c = length c.params

  -- `disjunction<is_bridge_descriptor<Args>...>`
  unfoldable pub has_descriptor : List (Argument D N) → Bool
  has_descriptor [] = false
  has_descriptor (p ∷ ps) = p.is_descriptor || has_descriptor ps

  abbrev pub invoke : (List N → Raise D) → List (Option N) → List D → Outcome D (Option D)
  invoke callable converted args =
      and_then (record { result = callable (values converted); args = args; events = invoked ∷ [] })
        (λ d rest. returns (some d) rest)

  -- `call_impl` behind the conversions.
  unfoldable pub finish_call :
      Bool → (List N → Raise D) → List (Option N) → List D → Outcome D (Option D)
  finish_call opted callable converted args =
      and_then
        (record { result = accepted_export_arguments opted converted; args = args; events = [] })
        λ accepted rest. if accepted then invoke callable converted rest else returns none rest

  -- `call_impl` of a candidate with scalar arguments only, whose probes have all accepted.
  unfoldable pub commit : Bool → Candidate D N → List D → Outcome D (Option D)
  unfolding finish_call
  commit opted c args = and_then (convert_scalars 0 c.params args) (finish_call opted c.callable)

  unfoldable pub call_scalars : Candidate D N → List D → Outcome D (Option D)
  call_scalars c args =
      let (accepted, events) = probe_scalars 0 c.params args in
      and_then (record { result = ok accepted; args = args; events = events })
        λ accepted rest. if accepted then commit true c rest else returns none rest

  unfoldable pub call_prepared : Candidate D N → List D → Outcome D (Option D)
  unfolding finish_call
  call_prepared c args = and_then (prepare_all 0 c.params args) λ prepared rest.
      let (accepted, events) = probe_all 0 c.params prepared rest in
      and_then (record { result = ok accepted; args = rest; events = events })
        λ accepted rest'.
          if accepted
          then and_then (convert_all 0 c.params prepared rest') (finish_call true c.callable)
          else returns none rest'

  -- `export_overload_candidate::call_optional`; `selected_export_arguments_plan` chooses the plan.
  unfoldable pub call_optional : Bool → Candidate D N → List D → Outcome D (Option D)
  call_optional opted c args =
      if opted
      then (if has_descriptor c.params then call_prepared c args else call_scalars c args)
      else commit false c args

  -- The conditions under which a candidate is passed over without a look at the arguments.
  skips : Option ℕ → ℕ → Candidate D N → Bool
  skips static argc head =
      head.is_unmatched || (not (can_access static (arity head)) || not (argc == arity head))

  -- `export_overload_dispatch::call_optional` over the candidates in declaration order.
  pub dispatch_optional : Bool → Option ℕ → List (Candidate D N) → ℕ → List D → Outcome D (Option D)
  dispatch_optional opted static [] argc args = returns none args
  dispatch_optional opted static (head ∷ tail) argc args =
      let rest = dispatch_optional opted static tail argc in
      if skips static argc head
      then rest args
      else and_then (call_optional opted head args) (or_rest rest)

  -- `export_overload_required_dispatch::call`
  pub dispatch : Bool → Option ℕ → List (Candidate D N) → ℕ → List D → Outcome D D
  unfolding required
  dispatch opted static candidates argc args =
      and_then (dispatch_optional opted static candidates argc args) required
