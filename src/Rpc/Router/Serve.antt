-- ===== src/Rpc/Router/Serve.antt =====
-- `router::dispatch` on every branch, and a call through the loopback transport.
use dynabridge.Prelude.{
  List, Option, Option-cases, arith, false, inl, inr, length, map, none, refl, some, true, ℕ, [],
  ◌≡◌, ◌≤◌,
}
use dynabridge.Prelude.Text.{codes}
use dynabridge.Raise
use dynabridge.Raise.{Raise, Exception, raised, Raise-cases, >>=-ok}
use dynabridge.Rpc.Endian.{IsBytes}
use dynabridge.Rpc.Value.{Value}
use dynabridge.Rpc.Writer.{max_u32}
use dynabridge.Rpc.Codec.Wire.{IsSendable, owned}
use dynabridge.Rpc.Frame.{Request}
use dynabridge.Rpc.Frame.Grammar.{IsRequest}
use dynabridge.Rpc.Frame.Exact.{try_decode_request_exact}
use dynabridge.Rpc.Frame.Encode.{IsCallable, encode_request_roundtrip}
use dynabridge.Rpc.Response.{encode_response, encode_error, decode_response}
use dynabridge.Rpc.Response.Encode.{decode-encode_response, decode-encode_error}
use dynabridge.Rpc.Router.{
  Route, find, what, guarded, reply, run, serve, dispatch, received, remote_call,
}

-- What the router answers to a frame.
pub data Answers (routes : List Route) (frame : List ℕ) : Raise (List ℕ) → Type 0 where
  malformed :
      ((req : Request) → ¬ (IsRequest req frame))
      → Answers routes frame (guarded (encode_error (codes "invalid RPC request frame")))
  unknown :
      (req : Request)
      → IsRequest req frame
      → find routes req.method ≡ none
      → Answers routes frame (guarded (encode_error (codes "unknown RPC method")))
  mismatch :
      (req : Request) (route : Route)
      → IsRequest req frame
      → find routes req.method ≡ some route
      → (route.invoke req.args).result ≡ Raise.ok none
      → Answers routes frame
          (guarded (encode_error (codes "RPC argument conversion or arity mismatch")))
  returned :
      (req : Request) (route : Route) (v : Value)
      → IsRequest req frame
      → find routes req.method ≡ some route
      → (route.invoke req.args).result ≡ Raise.ok (some v)
      → Answers routes frame (guarded (encode_response v))
  failed :
      (req : Request) (route : Route) (e : Exception)
      → IsRequest req frame
      → find routes req.method ≡ some route
      → (route.invoke req.args).result ≡ raised e
      → Answers routes frame (encode_error (what e))

module _ (routes : List Route) (frame : List ℕ) where
  run_route :
      (req : Request) (route : Route)
      → IsRequest req frame
      → find routes req.method ≡ some route
      → Answers routes frame (guarded (run (some route) req.args))
  unfolding run reply guarded
  run_route req route h e = elim (Raise-cases (route.invoke req.args).result) [
    | inl (none, r) ↦ rw r (mismatch req route h e r)
    | inl (some v, r) ↦ rw r (returned req route v h e r)
    | inr (x, r) ↦ rw r (failed req route x h e r)
  ]

  run_found :
      (req : Request)
      → IsRequest req frame
      → Answers routes frame (guarded (run (find routes req.method) req.args))
  unfolding run
  run_found req h = elim (Option-cases (find routes req.method)) [
    | inl e ↦ rw e (unknown req h e)
    | inr (route, e) ↦ rw e (run_route req route h e)
  ]

  -- On any bytes `dispatch` reads inside the frame only and answers: with the error for a malformed
  -- frame, an unknown method or arguments that no candidate takes, with the result of the route, or
  -- with the message of what the route has raised.
  pub dispatch-Answers :
      IsBytes frame
      → (response : Raise (List ℕ)) × (dispatch routes frame ≡ some response)
        × Answers routes frame response
  unfolding dispatch serve
  dispatch-Answers bytes =
      elim (try_decode_request_exact frame (record { method = 0; args = [] }) bytes) [
        | inl (req, h, e) ↦ (guarded (serve routes (true, req)), rw (e, dispatch), run_found req h)
        | inr (e, h) ↦ (
          guarded (serve routes (false, record { method = 0; args = [] })),
          rw (e, dispatch),
          malformed h,
        )
      ]

-- What the result of a route is for the client.
abbrev pub for_client : Raise (Option Value) → Raise Value
for_client (Raise.ok none) =
    raised (Raise.remote_error (codes "RPC argument conversion or arity mismatch"))
for_client (Raise.ok (some v)) = Raise.ok (owned v)
for_client (raised e) = raised (Raise.remote_error (what e))

abbrev pub outcome : Option Route → List Value → Raise Value
outcome none args = raised (Raise.remote_error (codes "unknown RPC method"))
outcome (some route) args = for_client (route.invoke args).result

-- The result or the message of the route fits in a response.
abbrev pub Fits : Raise (Option Value) → Type 0
Fits (Raise.ok none) = Unit
Fits (Raise.ok (some v)) = IsSendable v
Fits (raised e) = length (what e) ≤ max_u32

abbrev pub FitsRoute : Option Route → List Value → Type 0
FitsRoute none args = Unit
FitsRoute (some route) args = Fits (route.invoke args).result

abbrev Delivers : Raise (List ℕ) → Raise Value → Type 0
Delivers answer result =
    (response : List ℕ) × (answer ≡ Raise.ok response) × (decode_response response ≡ some result)

error-Delivers :
    (message : List ℕ)
    → length message ≤ max_u32
    → Delivers (encode_error message) (raised (Raise.remote_error message))
error-Delivers message h = let (frame, g, e, d) = decode-encode_error message h in (frame, e, d)

guarded-Delivers :
    {answer : Raise (List ℕ)} {result : Raise Value}
    → Delivers answer result
    → Delivers (guarded answer) result
unfolding guarded
guarded-Delivers (response, e, d) = (response, rw e refl, d)

reply-Delivers :
    (result : Raise (Option Value))
    → Fits result
    → Delivers (guarded (Raise.◌>>=◌ result reply)) (for_client result)
unfolding reply guarded
reply-Delivers (Raise.ok none) h = guarded-Delivers (error-Delivers _ (omega arith))
reply-Delivers (Raise.ok (some v)) h =
    let (frame, g, e, d) = decode-encode_response v h in guarded-Delivers (frame, e, d)
reply-Delivers (raised e) h = error-Delivers (what e) h

run-Delivers :
    (route : Option Route) (args : List Value)
    → FitsRoute route args
    → Delivers (guarded (run route args)) (outcome route args)
unfolding run
run-Delivers none args h = guarded-Delivers (error-Delivers _ (omega arith))
run-Delivers (some route) args h = reply-Delivers (route.invoke args).result h

-- A call that may be sent, where the result or the message of the route fits in a response, comes
-- over the loopback transport to what the route of the method does with the arguments, borrowed
-- strings as owned ones: the client gets the result, or raises a `remote_error`
-- that says why there is none.
pub remote_call_lem :
    (routes : List Route) (method : ℕ) (args : List Value)
    → IsCallable method args
    → FitsRoute (find routes method) (map owned args)
    → remote_call routes method args ≡ some (outcome (find routes method) (map owned args))
unfolding remote_call dispatch serve received
remote_call_lem routes method args h fits =
    let (frame, e, e', d) =
      encode_request_roundtrip method args h (record { method = 0; args = [] }) in
    let (response, f, g) = run-Delivers (find routes method) (map owned args) fits in
    rw (e', remote_call, d, f) g
