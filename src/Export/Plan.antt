-- ===== src/Export/Plan.antt =====
-- `export_argument_plan`, `export_candidate_plan`, `selected_export_arguments_plan`,
-- `all_optionals` and `accepted_export_arguments` of dynabridge/export_callable.h. `D` is the
-- backend's `dynamic_value_t`, and `N` is the type of the converted native arguments.
pub mod Laws
use dynabridge.Prelude.{
  Bool, List, Option, false, if◌then◌else◌, none, some, suc, true, ℕ, ◌&&◌, ◌++◌, [], ◌∷◌,
}
use dynabridge.Prelude.Text.{codes}
use dynabridge.Raise.{Exception, Raise, bad_conversion, ok, raised}

-- An `export_argument`. A conversion can raise, and gives the value that it leaves in the slot.
pub record Argument {ℓ} (D N : Type ℓ) : Type ℓ where
  pub is_descriptor : Bool
  pub probe : D → Bool
  pub try_make : D → Raise (Option N) × D

-- What the dispatch does with the arguments, in order; the number is the argument's index.
pub data Event : Type 0 where
  prepared probed converted : ℕ → Event
  invoked : Event

-- How a step ended, the arguments as it left them, and what it has done.
pub record Outcome {ℓ κ} (D : Type ℓ) (A : Type κ) : Type (ℓ ⊔ κ) where
  pub result : Raise A
  pub args : List D
  pub events : List Event

module _ {ℓ κ μ} {D : Type ℓ} {A : Type κ} {B : Type μ} where
  continue : List Event → List D → Raise A → (A → List D → Outcome D B) → Outcome D B
  continue before args (ok a) f =
      let next = f a args in record next { events = before ++ next.events }
  continue before args (raised e) f = record { result = raised e; args = args; events = before }

  -- The next step, unless this one has raised.
  unfoldable pub and_then : Outcome D A → (A → List D → Outcome D B) → Outcome D B
  unfolding continue
  and_then o f = continue o.events o.args o.result f

  abbrev pub map_result : (A → B) → Outcome D A → Outcome D B
  map_result f o = record {
    result = elim o.result [ ok a ↦ ok (f a) | raised e ↦ raised e ];
    args = o.args;
    events = o.events;
  }

module _ {ℓ κ} {D : Type ℓ} {A : Type κ} where
  abbrev pub returns : A → List D → Outcome D A
  returns a args = record { result = ok a; args = args; events = [] }

  abbrev pub after : Event → Outcome D A → Outcome D A
  after event o = record o { events = event ∷ o.events }

  -- A step on the tail of the arguments, seen from the whole.
  abbrev pub behind : D → Outcome D A → Outcome D A
  behind d o = record o { args = d ∷ o.args }

-- `prepared_t`: the handle that a descriptor has made, and nothing for a scalar.
pub data Prepared {ℓ} (N : Type ℓ) : Type ℓ where
  scalar : Prepared N
  handle : Option N → Prepared N

abbrev is_made {ℓ} : {N : Type ℓ} → Option N → Bool
is_made none = false
is_made (some n) = true

module _ {ℓ} {D N : Type ℓ} where
  -- `export_candidate_plan<…, false>`: the candidate has scalar arguments only.
  unfoldable pub probe_scalars : ℕ → List (Argument D N) → List D → Bool × List Event
  probe_scalars i [] args = (true, [])
  probe_scalars i (p ∷ ps) [] = (false, [])
  probe_scalars i (p ∷ ps) (d ∷ ds) =
      let (accepted, events) = probe_scalars (suc i) ps ds in
      if p.probe d then (accepted, probed i ∷ events) else (false, probed i ∷ [])

  -- `try_make` of every argument, in a tuple.
  unfoldable pub convert_scalars : ℕ → List (Argument D N) → List D → Outcome D (List (Option N))
  convert_scalars i [] args = returns [] args
  convert_scalars i (p ∷ ps) [] = returns [] []
  convert_scalars i (p ∷ ps) (d ∷ ds) =
      let (result, d') = p.try_make d in
      let rest = convert_scalars (suc i) ps ds in
      elim result [
        | raised e ↦ record { result = raised e; args = d' ∷ ds; events = converted i ∷ [] }
        | ok value ↦ after (converted i) (behind d' (map_result (λ vs. value ∷ vs) rest))
      ]

  -- `export_candidate_plan<…, true>`: the descriptors' handles are made first, from the values as
  -- constants, and then the scalars are probed.
  unfoldable pub prepare_all : ℕ → List (Argument D N) → List D → Outcome D (List (Prepared N))
  prepare_all i [] args = returns [] args
  prepare_all i (p ∷ ps) [] = returns [] []
  prepare_all i (p ∷ ps) (d ∷ ds) =
      let rest = prepare_all (suc i) ps ds in
      if p.is_descriptor
      then (elim (p.try_make d).0 [
        | raised e ↦ record { result = raised e; args = d ∷ ds; events = prepared i ∷ [] }
        | ok h ↦ after (prepared i) (behind d (map_result (λ hs. handle h ∷ hs) rest))
      ])
      else behind d (map_result (λ hs. scalar ∷ hs) rest)

  unfoldable pub probe_all :
      ℕ → List (Argument D N) → List (Prepared N) → List D → Bool × List Event
  probe_all i [] hs args = (true, [])
  probe_all i (p ∷ ps) [] args = (false, [])
  probe_all i (p ∷ ps) (h ∷ hs) [] = (false, [])
  probe_all i (p ∷ ps) (scalar ∷ hs) (d ∷ ds) =
      let (accepted, events) = probe_all (suc i) ps hs ds in
      if p.probe d then (accepted, probed i ∷ events) else (false, probed i ∷ [])
  probe_all i (p ∷ ps) (handle h ∷ hs) (d ∷ ds) =
      let rest = probe_all (suc i) ps hs ds in if is_made h then rest else (false, [])

  unfoldable pub convert_all :
      ℕ → List (Argument D N) → List (Prepared N) → List D → Outcome D (List (Option N))
  convert_all i [] hs args = returns [] args
  convert_all i (p ∷ ps) [] args = returns [] args
  convert_all i (p ∷ ps) (h ∷ hs) [] = returns [] []
  convert_all i (p ∷ ps) (scalar ∷ hs) (d ∷ ds) =
      let (result, d') = p.try_make d in
      let rest = convert_all (suc i) ps hs ds in
      elim result [
        | raised e ↦ record { result = raised e; args = d' ∷ ds; events = converted i ∷ [] }
        | ok value ↦ after (converted i) (behind d' (map_result (λ vs. value ∷ vs) rest))
      ]
  convert_all i (p ∷ ps) (handle h ∷ hs) (d ∷ ds) =
      behind d (map_result (λ vs. h ∷ vs) (convert_all (suc i) ps hs ds))

module _ {ℓ} {N : Type ℓ} where
  unfoldable pub all_optionals : List (Option N) → Bool
  all_optionals [] = true
  all_optionals (none ∷ vs) = false
  all_optionals (some v ∷ vs) = all_optionals vs

  -- The values of a tuple without an empty optional.
  unfoldable pub values : List (Option N) → List N
  values [] = []
  values (none ∷ vs) = values vs
  values (some v ∷ vs) = v ∷ values vs

  -- `opted` is `uses_rpc_export_probe`: a rejection behind an accepted probe is terminal.
  unfoldable pub accepted_export_arguments : Bool → List (Option N) → Raise Bool
  accepted_export_arguments opted made =
      if all_optionals made
      then ok true
      else if opted
      then raised (bad_conversion (codes "dynabridge export argument rejected an accepted probe"))
      else ok false
