-- ===== src/Rpc/Frame/Exact.antt =====
-- `try_decode_request` accepts the frames of the grammar and no others, and reads nothing else.
use mathlib.Core.Path.{subst}
use dynabridge.Prelude.{
  List, ap, append-nil, append_assoc, arith, false, inl, inr, length, le→ltb, some, suc, sym, true,
  ℕ, ◌++◌, [], ◌∙◌, ◌∷◌, ◌≡◌, ◌⊎◌,
}
use dynabridge.Prelude.Text.{codes}
use dynabridge.Raise.{protocol_error, ok, raised}
use dynabridge.Rpc.Value.{Value}
use dynabridge.Rpc.Endian.{IsBytes, le_bytes}
use dynabridge.Rpc.Reader.{reader, integer}
use dynabridge.Rpc.Reader.Laws.{>>=-some, integer-le_bytes}
use dynabridge.Rpc.Codec.{decode_value}
use dynabridge.Rpc.Codec.Decode.{decode_value-Wire}
use dynabridge.Rpc.Frame.{
  Request, request_magic, decode_args, finish_request, decode_call, decode_version, decode_frame,
  publish, try_decode_request, accepted, decode_request,
}
use dynabridge.Rpc.Frame.Grammar.{WireArgs, nil, cons, IsRequest, WireArgs-length}
use dynabridge.Rpc.Frame.Attempt.{taken, failed}
use dynabridge.Rpc.Frame.Decode.{decode_frame-Attempt}

decode_args-WireArgs :
    {args : List Value} {enc : List ℕ} (staged : List Value) (rest : List ℕ)
    → WireArgs args enc
    → decode_args (length args) staged (reader (enc ++ rest))
      ≡ some (some (staged ++ args), reader rest)
unfolding decode_args
decode_args-WireArgs staged rest nil = rw append-nil
decode_args-WireArgs staged rest (cons {v = v} {vs = vs} {enc = e} {tail = t} w ws) =
    ap (λ bs. decode_args (suc (length vs)) staged (reader bs)) (append_assoc e t rest)
    ∙ >>=-some decode_value _ _ (decode_value-Wire w (t ++ rest))
    ∙ decode_args-WireArgs (staged ++ v ∷ []) rest ws
    ∙ ap (λ all. some (some all, reader rest)) (append_assoc staged (v ∷ []) vs)

module _ (req : Request) (frame : List ℕ) (h : IsRequest req frame) where
  decode_call-IsRequest :
      decode_call (reader (le_bytes 8 req.method ++ (le_bytes 4 (length req.args) ++ h.body)))
      ≡ some (some req, reader [])
  unfolding decode_call finish_request
  decode_call-IsRequest =
      >>=-some (integer 8) _ _
        (integer-le_bytes 8 req.method (le_bytes 4 (length req.args) ++ h.body) h.method_lt)
      ∙ >>=-some (integer 4) _ _ (integer-le_bytes 4 (length req.args) h.body h.count_lt)
      ∙ rw (le→ltb (length h.body) (length req.args) (WireArgs-length h.is_body))
          (>>=-some (decode_args (length req.args) []) _ _ args_lem)
    where
      args_lem : decode_args (length req.args) [] (reader h.body) ≡ some (some req.args, reader [])
      args_lem = rw append-nil at (decode_args-WireArgs [] [] h.is_body)

  decode_frame-IsRequest : decode_frame (reader frame) ≡ some (some req, reader [])
  unfolding decode_frame decode_version
  decode_frame-IsRequest = rw h.is_frame (
      >>=-some (integer 4) _ _ (integer-le_bytes 4 request_magic _ (omega arith))
      ∙ >>=-some (integer 1) _ _ (integer-le_bytes 1 1 _ (omega arith))
      ∙ decode_call-IsRequest)

  -- A frame of the grammar is accepted, and the request that it stands for is published.
  pub try_decode_request-IsRequest :
      (result : Request) → try_decode_request frame result ≡ some (true, req)
  unfolding try_decode_request publish
  try_decode_request-IsRequest result = rw (decode_frame-IsRequest, try_decode_request)

whole : {frame enc rest : List ℕ} → frame ≡ enc ++ rest → rest ≡ [] → enc ≡ frame
whole {enc = enc} split done = sym (split ∙ ap (◌++◌ enc) done ∙ append-nil enc)

-- On any bytes: either the frame is a request of the grammar, and exactly it is published; or the
-- frame is no request, the answer is false and the caller's object is as it was. No read leaves
-- the frame.
pub try_decode_request_exact :
    (frame : List ℕ) (result : Request)
    → IsBytes frame
    → ((req : Request) × IsRequest req frame × (try_decode_request frame result ≡ some (true, req)))
      ⊎ ((try_decode_request frame result ≡ some (false, result))
          × ((req : Request) → ¬ (IsRequest req frame)))
unfolding try_decode_request publish
try_decode_request_exact frame result bytes = elim (decode_frame-Attempt frame bytes) [
  | taken req enc rest split g b e ↦
      let h : IsRequest req frame = subst (IsRequest req) (whole split g.1) g.0 in
      inl (req, h, try_decode_request-IsRequest req frame h result)
  | failed r e ↦
      inr (rw (e, try_decode_request), λ req h. cc (e, decode_frame-IsRequest req frame h))
]

-- `decode_request` returns the request of a frame of the grammar, and raises on all other bytes.
pub decode_request_exact :
    (frame : List ℕ)
    → IsBytes frame
    → ((req : Request) × IsRequest req frame × (decode_request frame ≡ some (ok req)))
      ⊎ ((decode_request frame ≡ some (raised (protocol_error (codes "invalid RPC request frame"))))
          × ((req : Request) → ¬ (IsRequest req frame)))
unfolding decode_request accepted
decode_request_exact frame bytes =
    elim (try_decode_request_exact frame (record { method = 0; args = [] }) bytes) [
      | inl (req, h, e) ↦ inl (req, h, rw (e, decode_request))
      | inr (e, h) ↦ inr (rw (e, decode_request), h)
    ]
