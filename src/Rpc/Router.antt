-- ===== src/Rpc/Router.antt =====
-- `router`, `loopback_transport` and `rpc_backend::invoke_impl` of dynabridge/backends/rpc.h.
pub mod Table
pub mod Define
pub mod Serve
use dynabridge.Prelude.{
  Bool, List, Option, drop, false, get_elem?, if◌then◌else◌, length, ltb, none, not, some, suc,
  take, true, zero, ℕ, ◌&&◌, ◌++◌, ◌==◌, [], ◌∷◌,
}
use dynabridge.Prelude.Text.{codes}
use dynabridge.Raise
use dynabridge.Raise.{
  Raise, Exception, raised, raise_if, protocol_error, bad_conversion, std_exception, foreign,
}
use dynabridge.Rpc.Value.{Value}
use dynabridge.Rpc.Symbol.{symbol_id}
use dynabridge.Rpc.Frame.{Request, try_decode_request, encode_request_values}
use dynabridge.Rpc.Response.{encode_response, encode_error, decode_response}
use dynabridge.Export.Plan.{Outcome, returns}
use dynabridge.Export.Dispatch.{Candidate, dispatch_optional}

-- The binders that `route::invoke_binder` tells apart: a binder of the library with the candidates
-- that it dispatches over, and binders of another origin, which it calls with constant values.
pub data Binder (N : Type 0) : Type 0 where
  transactional : List (Candidate Value N) → Binder N
  overload : (ℕ → List Value → Raise (Option Value)) → Binder N
  typed : ℕ → (List Value → Outcome Value (Option Value)) → Binder N

-- `route::invoke_binder`; the accessors have a dynamic arity.
unfoldable pub invoke_binder : {N : Type 0} → Binder N → List Value → Outcome Value (Option Value)
invoke_binder (transactional candidates) args =
    dispatch_optional true none candidates (length args) args
invoke_binder (overload dispatch) args = record {
  result = dispatch (length args) args;
  args = args;
  events = [];
}
invoke_binder (typed arity call_optional) args =
    if not (length args == arity) then returns none args else call_optional args

-- A route; `state_` with `invoke_` is the function that they stand for.
pub record Route : Type 0 where
  pub id : ℕ
  pub name : List ℕ
  pub invoke : List Value → Outcome Value (Option Value)

-- `route::make`
abbrev pub make : {N : Type 0} → ℕ → List ℕ → Binder N → Route
make id name binder = record { id = id; name = name; invoke = invoke_binder binder }

pub equal_names : List ℕ → List ℕ → Bool
equal_names [] [] = true
equal_names [] (c ∷ ys) = false
equal_names (c ∷ xs) [] = false
equal_names (c ∷ xs) (d ∷ ys) = (c == d) && equal_names xs ys

-- The position that `std::lower_bound` finds: that of the first route whose id is not below.
unfoldable pub lower_bound : List Route → ℕ → ℕ
lower_bound [] id = 0
lower_bound (candidate ∷ routes) id = if ltb candidate.id id then suc (lower_bound routes id) else 0

-- `routes_.insert(existing, route)`, and `*existing = route`.
unfoldable pub insert : ℕ → Route → List Route → List Route
insert position route routes = take position routes ++ route ∷ drop position routes

pub replace : ℕ → Route → List Route → List Route
replace position route routes = take position routes ++ route ∷ drop (suc position) routes

abbrev pub collision : Exception
collision = protocol_error (codes "RPC symbol hash collision")

-- `if (existing->name() != name)` raises, and otherwise the route is replaced.
pub redefine : Route → Route → ℕ → List Route → Raise (List Route)
redefine existing route position routes =
    Raise.◌>>◌ (raise_if (not (equal_names existing.name route.name)) collision)
      (Raise.ok (replace position route routes))

unfoldable pub place_at : Option Route → Route → ℕ → List Route → Raise (List Route)
place_at none route position routes = Raise.ok (insert position route routes)
place_at (some existing) route position routes =
    if existing.id == route.id
    then redefine existing route position routes
    else Raise.ok (insert position route routes)

unfoldable pub add_route : Route → List Route → Raise (List Route)
add_route route routes =
    let position = lower_bound routes route.id in
    place_at (get_elem? routes position) route position routes

-- `router::define`
unfoldable pub define : {N : Type 0} → List ℕ → Binder N → List Route → Raise (List Route)
define name binder routes = add_route (make (symbol_id name) name binder) routes

unfoldable pub matching : Option Route → ℕ → Option Route
matching none id = none
matching (some candidate) id = if candidate.id == id then some candidate else none

-- The search of `router::dispatch`; `none` is `routes_.end()` or a route of another id.
unfoldable pub find : List Route → ℕ → Option Route
find routes id = matching (get_elem? routes (lower_bound routes id)) id

-- `error.what()`; `none` is a thrown object that is no `std::exception`.
pub what : Exception → List ℕ
what (protocol_error message) = message
what (Exception.remote_error message) = message
what (bad_conversion message) = message
what (std_exception message) = message
what foreign = codes "unknown RPC server failure"

-- The two `catch` clauses of `router::dispatch`.
pub guarded : Raise (List ℕ) → Raise (List ℕ)
guarded (Raise.ok bytes) = Raise.ok bytes
guarded (raised e) = encode_error (what e)

pub reply : Option Value → Raise (List ℕ)
reply none = encode_error (codes "RPC argument conversion or arity mismatch")
reply (some result) = encode_response result

pub run : Option Route → List Value → Raise (List ℕ)
run none args = encode_error (codes "unknown RPC method")
run (some candidate) args = Raise.◌>>=◌ ((candidate.invoke args).result) reply

pub serve : List Route → Bool × Request → Raise (List ℕ)
serve routes (false, request) = encode_error (codes "invalid RPC request frame")
serve routes (true, request) = run (find routes request.method) request.args

-- `router::dispatch`; `none` is a read outside the frame.
pub dispatch : List Route → List ℕ → Option (Raise (List ℕ))
dispatch routes frame = elim (try_decode_request frame (record { method = 0; args = [] })) [
  | none ↦ none
  | some answer ↦ some (guarded (serve routes answer))
]

-- `router::size`
unfoldable pub size : List Route → ℕ
size routes = length routes

received : Raise (List ℕ) → Option (Raise Value)
received (Raise.ok response) = decode_response response
received (raised e) = some (raised e)

-- `from_cast<R>`, of the converter's `from`.
unfoldable pub from_cast {ℓ} : {R : Type ℓ} → (Value → Option R) → Value → Raise R
from_cast from v = elim (from v) [
  | none ↦
      raised
        (bad_conversion (codes "dynabridge value is not convertible to the requested C++ type"))
  | some r ↦ Raise.ok r
]

-- `invoke_impl` in front of `from_cast`, with the loopback transport of a router: the reply that
-- the client decodes.
pub remote_call : List Route → ℕ → List Value → Option (Raise Value)
remote_call routes method args = elim (encode_request_values method args) [
  | raised e ↦ some (raised e)
  | Raise.ok request ↦ elim (dispatch routes request) [
    | none ↦ none
    | some response ↦ received response
  ]
]

-- `invoke_impl`: the call and the conversion of its result.
unfoldable pub invoke_impl {ℓ} :
    {R : Type ℓ} → (Value → Option R) → List Route → ℕ → List Value → Option (Raise R)
invoke_impl from routes method args = elim (remote_call routes method args) [
  | none ↦ none
  | some result ↦ some (Raise.◌>>=◌ result (from_cast from))
]
