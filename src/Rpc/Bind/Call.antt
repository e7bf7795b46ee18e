-- ===== src/Rpc/Bind/Call.antt =====
-- A typed call from end to end: the client's converters, the wire, the router, the dispatch over
-- the candidates, and the server's converters.
use mathlib.Core.Path.{subst}
use dynabridge.Prelude.{
  All, List, ap, false, map, none, refl, some, sym, ℕ, ==_self, [], ◌∙◌, ◌∷◌, ◌≡◌,
}
use dynabridge.Raise.{Raise}
use dynabridge.Rpc.Value.{Value}
use dynabridge.Rpc.Symbol.{symbol_id}
use dynabridge.Rpc.Codec.Wire.{owned}
use dynabridge.Rpc.Convert.{Converter}
use dynabridge.Rpc.Convert.Laws.{IsConverter}
use dynabridge.Rpc.Frame.Encode.{IsCallable}
use dynabridge.Rpc.Router.{
  transactional, Route, make, invoke_binder, define, find, remote_call, invoke_impl, from_cast,
}
use dynabridge.Rpc.Router.Table.{IsTable}
use dynabridge.Rpc.Router.Define.{define_lem}
use dynabridge.Rpc.Router.Serve.{Fits, for_client, outcome, remote_call_lem}
use dynabridge.Rpc.Bind.{scalar_argument, scalar_argument-IsLawful, try_make_some}
use dynabridge.Export.Plan.{Argument}
use dynabridge.Export.Dispatch.{Candidate, has_descriptor}
use dynabridge.Export.Dispatch.Select.{first_viable}
use dynabridge.Export.Dispatch.Commit.{IsLawful, natives, some_result, dispatch-called}

-- A native argument with its type's converter, and `inject` to put it among the others.
pub record Sent (N : Type 0) : Type 1 where
  pub T : Type 0
  pub Range : T → Type 0
  pub converter : Converter T
  pub lawful : IsConverter Range converter
  pub inject : T → N
  pub value : T
  pub in_range : Range value

module _ {N : Type 0} where
  -- The declared parameters, the values that `to_cast` makes, and the native arguments.
  abbrev pub params : List (Sent N) → List (Argument Value N)
  params [] = []
  params (x ∷ xs) = scalar_argument x.converter x.inject ∷ params xs

  abbrev pub sent : List (Sent N) → List Value
  sent [] = []
  sent (x ∷ xs) = x.converter.to x.value ∷ sent xs

  abbrev pub originals : List (Sent N) → List N
  originals [] = []
  originals (x ∷ xs) = x.inject x.value ∷ originals xs

  params-IsLawful : (xs : List (Sent N)) → All IsLawful (params xs)
  params-IsLawful [] = tt
  params-IsLawful (x ∷ xs) =
      (scalar_argument-IsLawful x.Range x.converter x.lawful x.inject, params-IsLawful xs)

  natives_cons :
      (p : Argument Value N) (ps : List (Argument Value N)) (d : Value) (ds : List Value) {n : N}
      {d' : Value} {ns : List N}
      → p.try_make d ≡ (Raise.ok (some n), d')
      → natives ps ds ≡ ns
      → natives (p ∷ ps) (d ∷ ds) ≡ n ∷ ns
  natives_cons p ps d ds e ih = rw (ap (λ r. r.0) e, ih) refl

  natives-sent : (xs : List (Sent N)) → natives (params xs) (map owned (sent xs)) ≡ originals xs
  natives-sent [] = refl
  natives-sent (x ∷ xs) =
      natives_cons (scalar_argument x.converter x.inject) (params xs)
        (owned (x.converter.to x.value)) (map owned (sent xs))
        (try_make_some x.Range x.converter x.lawful x.inject _ x.value (
          x.lawful.mutable_agrees (owned (x.converter.to x.value))
          ∙ x.lawful.through x.value x.in_range))
        (natives-sent xs)

module _ {N : Type 0} (name : List ℕ) (candidates : List (Candidate Value N))
    (c : Candidate Value N) (xs : List (Sent N))
    (scalars : All (λ k. has_descriptor k.params ≡ false) candidates)
    (first : first_viable none (map owned (sent xs)) candidates ≡ some c)
    (typed : c.params ≡ params xs) where
  abbrev route : Route
  route = make (symbol_id name) name (transactional candidates)

  route_result :
      (route.invoke (map owned (sent xs))).result ≡ some_result (c.callable (originals xs))
  unfolding invoke_binder
  route_result =
      (dispatch-called none candidates (map owned (sent xs)) c scalars first
        (subst (All IsLawful) (sym typed) (params-IsLawful xs))).result
      ∙ ap (λ ns. some_result (c.callable ns))
          (ap (λ ps. natives ps (map owned (sent xs))) typed ∙ natives-sent xs)

-- A client calls `name` with native arguments on a router where `name` is bound to candidates with
-- scalar arguments, of which the first viable one declares the arguments' types: the callable of
-- that candidate gets the native arguments that the client has passed, and the client gets the
-- callable's result, or raises a `remote_error` with the message of what the callable has raised.
-- The call may be sent, and what comes back fits in a response.
pub typed_call :
    {N : Type 0} (name : List ℕ) (candidates : List (Candidate Value N)) (routes after : List Route)
    (c : Candidate Value N) (xs : List (Sent N))
    → IsTable routes
    → define name (transactional candidates) routes ≡ Raise.ok after
    → All (λ k. has_descriptor k.params ≡ false) candidates
    → first_viable none (map owned (sent xs)) candidates ≡ some c
    → c.params ≡ params xs
    → IsCallable (symbol_id name) (sent xs)
    → Fits (some_result (c.callable (originals xs)))
    → remote_call after (symbol_id name) (sent xs)
      ≡ some (for_client (some_result (c.callable (originals xs))))
typed_call name candidates routes after c xs table defined scalars first typed callable fits =
    let r = route name candidates c xs scalars first typed in
    let result = route_result name candidates c xs scalars first typed in
    let found : find after (symbol_id name) ≡ some r = rw ==_self at (
      (define_lem name (transactional candidates) routes after table defined).1 (symbol_id name)) in
    remote_call_lem after (symbol_id name) (sent xs) callable
      (rw found (subst Fits (sym result) fits))
    ∙ ap (λ o. some (outcome o (map owned (sent xs)))) found
    ∙ ap (λ x. some (for_client x)) result

invoke_ok :
    {R : Type 0} (P : R → Type 0) (k : Converter R) (lawful : IsConverter P k) (routes : List Route)
    (method : ℕ) (args : List Value) (r : R)
    → P r
    → remote_call routes method args ≡ some (Raise.ok (owned (k.to r)))
    → invoke_impl k.from routes method args ≡ some (Raise.ok r)
unfolding invoke_impl from_cast
invoke_ok P k lawful routes method args r h e = rw (e, invoke_impl, lawful.through r h, from_cast)

-- Under the same conditions, where the callable of that candidate returns `r`, which the server
-- converts for the wire, the typed call of the client returns `r`.
pub typed_call_result :
    {N R : Type 0} (P : R → Type 0) (k : Converter R) (name : List ℕ)
    (candidates : List (Candidate Value N)) (routes after : List Route) (c : Candidate Value N)
    (xs : List (Sent N)) (r : R)
    → IsConverter P k
    → IsTable routes
    → define name (transactional candidates) routes ≡ Raise.ok after
    → All (λ k. has_descriptor k.params ≡ false) candidates
    → first_viable none (map owned (sent xs)) candidates ≡ some c
    → c.params ≡ params xs
    → IsCallable (symbol_id name) (sent xs)
    → P r
    → c.callable (originals xs) ≡ Raise.ok (k.to r)
    → invoke_impl k.from after (symbol_id name) (sent xs) ≡ some (Raise.ok r)
typed_call_result P k name candidates routes after c xs r lawful table defined scalars first typed
      callable h e =
    let fits : Fits (some_result (c.callable (originals xs))) = rw e (lawful.sendable r h) in
    invoke_ok P k lawful after (symbol_id name) (sent xs) r h (
      typed_call name candidates routes after c xs table defined scalars first typed callable fits
      ∙ ap (λ x. some (for_client (some_result x))) e)
