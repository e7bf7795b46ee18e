-- ===== src/Tests/Frames.antt =====
-- The theorems on frames of dynabridge/backends/rpc.h at concrete frames.
use dynabridge.Prelude.{
  Bool, List, arith, false, ltb, map, refl, some, true, ℕ, ◌&&◌, [], ◌∷◌, ◌≡◌, ◌⊎◌,
}
use dynabridge.Prelude.Int.{negsuc}
use dynabridge.Prelude.Text.{codes}
use dynabridge.Raise.{Raise}
use dynabridge.Rpc.Value
use dynabridge.Rpc.Value.{Value}
use dynabridge.Rpc.Endian.{IsBytes, le_bytes}
use dynabridge.Rpc.Frame.Grammar
use dynabridge.Rpc.Response.{Reply, Status, deliver, try_decode_response}
use dynabridge.Rpc.Response.Exact.{IsResponse, try_decode_response_exact}
use dynabridge.Rpc.Codec.Wire.{IsSendable, IsValue, Encodes, owned, encode_value-Encodes}
use dynabridge.Rpc.Codec.Wire
use dynabridge.Rpc.Frame.{Request, encode_request, encode_request_values, try_decode_request}
use dynabridge.Rpc.Frame.Grammar.{IsRequest}
use dynabridge.Rpc.Frame.Exact.{try_decode_request_exact}
use dynabridge.Rpc.Frame.Encode.{IsCallable, encode_request_roundtrip}

abbrev minus_three : Value
minus_three = Value.signed_integer (negsuc 2)

abbrev hello : Value
hello = Value.borrowed_string (codes "hello")

minus_three-IsSendable : IsSendable minus_three
minus_three-IsSendable = record {
  is_value = Wire.signed_integer (negsuc 2) (omega arith);
  short = omega arith;
}

hello-IsSendable : IsSendable hello
hello-IsSendable = record { is_value = Wire.borrowed_string (codes "hello"); short = omega arith }

abbrev arguments : List Value
arguments = minus_three ∷ hello ∷ []

arguments-IsCallable : IsCallable 7 arguments
arguments-IsCallable = record {
  sendable = (minus_three-IsSendable, (hello-IsSendable, tt));
  method_lt = omega arith;
  count_lt = omega arith;
  fits = omega arith;
}

-- A request of method 7 with one boolean.
abbrev frame : List ℕ
frame = 0x44 ∷ 0x52 ∷ 0x50 ∷ 0x43 ∷ 1 ∷ 7 ∷ 0 ∷ 0 ∷ 0 ∷ 0 ∷ 0 ∷ 0 ∷ 0 ∷ 1 ∷ 0 ∷ 0 ∷ 0 ∷ 4 ∷ 1 ∷ []

all_bytes : List ℕ → Bool
all_bytes [] = true
all_bytes (b ∷ bs) = ltb b 256 && all_bytes bs

all_bytes-IsBytes : (bs : List ℕ) → all_bytes bs ≡ true → IsBytes bs
unfolding all_bytes
all_bytes-IsBytes [] h = tt
all_bytes-IsBytes (b ∷ bs) h = (ground arith, all_bytes-IsBytes bs (ground arith))

frame-IsBytes : IsBytes frame
unfolding all_bytes
frame-IsBytes = all_bytes-IsBytes frame refl

abbrev nothing : Request
nothing = record { method = 0; args = [] }

try_decode_request_exact_example :
    ((req : Request) × IsRequest req frame × (try_decode_request frame nothing ≡ some (true, req)))
    ⊎ ((try_decode_request frame nothing ≡ some (false, nothing))
        × ((req : Request) → ¬ (IsRequest req frame)))
try_decode_request_exact_example = try_decode_request_exact frame nothing frame-IsBytes

encode_request_roundtrip_example :
    (bytes : List ℕ) × (encode_request 7 arguments ≡ Raise.ok bytes)
    × (encode_request_values 7 arguments ≡ Raise.ok bytes)
    × (try_decode_request bytes nothing
        ≡ some (true, record { method = 7; args = map owned arguments }))
encode_request_roundtrip_example = encode_request_roundtrip 7 arguments arguments-IsCallable nothing

-- The frame is a request: method 7, with `true`.
frame_run : IsRequest (record { method = 7; args = Value.boolean true ∷ [] }) frame
unfolding le_bytes
frame_run = record {
  body = 4 ∷ 1 ∷ [];
  is_body = Grammar.cons (Wire.boolean 1 (omega arith)) Grammar.nil;
  is_frame = refl;
  method_lt = omega arith;
  count_lt = omega arith;
}

abbrev error_frame : List ℕ
error_frame = 0x44 ∷ 0x52 ∷ 0x50 ∷ 0x52 ∷ 1 ∷ 1 ∷ 2 ∷ 0 ∷ 0 ∷ 0 ∷ 110 ∷ 111 ∷ []

error_frame-IsBytes : IsBytes error_frame
unfolding all_bytes
error_frame-IsBytes = all_bytes-IsBytes error_frame refl

try_decode_response_exact_example :
    ((reply : Reply) × IsResponse reply error_frame
      × (try_decode_response error_frame hello [] ≡ some (deliver (some reply) hello [])))
    ⊎ ((try_decode_response error_frame hello [] ≡ some (Status.malformed, hello, []))
        × ((reply : Reply) → ¬ (IsResponse reply error_frame)))
try_decode_response_exact_example =
    try_decode_response_exact error_frame hello [] error_frame-IsBytes
