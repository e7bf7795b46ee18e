-- ===== src/Export/Binder.antt =====
-- `export_callable_binder` and `export_member_callable_binder` of dynabridge/export_callable.h: the
-- binder of one signature, for a free function and for a member.
pub mod Laws
use dynabridge.Prelude.{Bool, List, Option, false, if◌then◌else◌, none, some, true, ℕ, [], ◌∷◌}
use dynabridge.Prelude.Text.{codes}
use dynabridge.Raise.{Raise, bad_conversion, ok, raised, std_exception}
use dynabridge.Export.Plan.{
  Outcome, Event, accepted_export_arguments, and_then, convert_all, convert_scalars, invoked,
  prepare_all, probe_all, probe_scalars, returns, values,
}
use dynabridge.Export.Dispatch.{Candidate, dispatch_optional, has_descriptor}

abbrev pub failed {ℓ} : {D : Type ℓ} → List ℕ → List D → Outcome D D
failed message args = record { result = raised (bad_conversion message); args = args; events = [] }

abbrev pub free_message : List ℕ
free_message = codes "dynabridge export argument conversion failed"

abbrev pub member_message : List ℕ
member_message = codes "dynabridge export member argument conversion failed"

module _ {ℓ} {D N : Type ℓ} where
  -- `invoke_converted` behind the conversions; `message` is that of its two raises.
  abbrev pub finish_required :
      List ℕ → Bool → (List N → Raise D) → List (Option N) → List D → Outcome D D
  finish_required message opted callable converted args =
      and_then
        (record { result = accepted_export_arguments opted converted; args = args; events = [] })
        λ accepted rest.
          if accepted
          then record { result = callable (values converted); args = rest; events = invoked ∷ [] }
          else failed message rest

  abbrev pub invoke_scalars : List ℕ → Candidate D N → List D → Outcome D D
  invoke_scalars message c args =
      let (accepted, events) = probe_scalars 0 c.params args in
      and_then (record { result = ok accepted; args = args; events = events })
        λ accepted rest.
          if accepted
          then and_then (convert_scalars 0 c.params rest) (finish_required message true c.callable)
          else failed message rest

  abbrev pub invoke_prepared : List ℕ → Candidate D N → List D → Outcome D D
  invoke_prepared message c args = and_then (prepare_all 0 c.params args) λ prepared rest.
      let (accepted, events) = probe_all 0 c.params prepared rest in
      and_then (record { result = ok accepted; args = rest; events = events })
        λ accepted rest'.
          if accepted
          then and_then (convert_all 0 c.params prepared rest')
              (finish_required message true c.callable)
          else failed message rest'

  -- `invoke_converted`; the numbers of arguments and of parameters are the same.
  unfoldable pub invoke_converted : List ℕ → Bool → Candidate D N → List D → Outcome D D
  invoke_converted message opted c args =
      if opted
      then (if has_descriptor c.params
          then invoke_prepared message c args
          else invoke_scalars message c args)
      else and_then (convert_scalars 0 c.params args) (finish_required message false c.callable)

  -- `export_callable_binder::operator()`
  unfoldable pub call_free : Bool → Candidate D N → List D → Outcome D D
  call_free opted c args = invoke_converted free_message opted c args

  -- `export_member_callable_binder::operator()`. `bind` is `bind_export_object` with the object's
  -- `native`, where `none` is a null pointer, and `member` is the callable on a receiver.
  unfoldable pub call_member {κ} :
      {P : Type κ} → (D → Raise (Option P)) → Bool → (P → Candidate D N) → D → List D → Outcome D D
  call_member bind opted member receiver args = elim (bind receiver) [
    | raised e ↦ record { result = raised e; args = args; events = [] }
    | ok none ↦ record {
      result = raised (std_exception (codes "dynabridge export object has no proxy receiver"));
      args = args;
      events = [];
    }
    | ok (some native) ↦ invoke_converted member_message opted (member native) args
  ]
