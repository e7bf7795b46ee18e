-- ===== src/Rpc/Frame/Encode.antt =====
-- `encode_request` writes a frame of the grammar, of the size that it has reserved.
use dynabridge.Prelude.{
  All, List, ap, append-nil, append_assoc, arith, length, length-append, le→ltb, map, refl, some,
  suc, true, ℕ, ◌+◌, ◌++◌, ◌<◌, [], ◌^◌, ◌∙◌, ◌∷◌, ◌≡◌, ◌≤◌,
}
use dynabridge.Raise.{ok, >>=-ok}
use dynabridge.Rpc.Value.{Value}
use dynabridge.Rpc.Endian.{le_bytes}
use dynabridge.Rpc.Writer.{Writer, writer, max_u32}
use dynabridge.Rpc.Writer.Layout.{data_-integer}
use dynabridge.Rpc.Codec.{encode_value, encoded_size, checked_add, max_size}
use dynabridge.Rpc.Codec.Wire.{
  IsSendable, wire_size, owned, append, Encodes, encode_value-Encodes, checked_add_lem,
}
use dynabridge.Rpc.Frame.{
  Request, request_magic, add_sizes, encode_args, request_header, write_request, encode_request,
  encode_request_values, try_decode_request,
}
use dynabridge.Rpc.Frame.Grammar.{WireArgs, nil, cons, IsRequest}
use dynabridge.Rpc.Frame.Exact.{try_decode_request-IsRequest}

abbrev pub wire_sizes : List Value → ℕ
wire_sizes [] = 0
wire_sizes (v ∷ vs) = wire_size v + wire_sizes vs

record EncodesArgs (args : List Value) : Type 0 where
  wire : List ℕ
  is_wire : WireArgs (map owned args) wire
  encoded : (out : Writer) → encode_args args out ≡ ok (append out wire)
  total : length wire ≡ wire_sizes args

add_sizes_lem :
    (n : ℕ) (args : List Value)
    → All IsSendable args
    → n + wire_sizes args ≤ max_size
    → add_sizes n args ≡ ok (n + wire_sizes args)
unfolding add_sizes
add_sizes_lem n [] h fits = ap ok (omega arith)
add_sizes_lem n (v ∷ vs) h fits =
    let e = encode_value-Encodes v h.0 in
    let one : encoded_size v ≡ ok (wire_size v) = e.size ∙ ap ok e.total in
    >>=-ok (encoded_size v) _ one
    ∙ >>=-ok (checked_add n (wire_size v)) (λ total. add_sizes total vs)
        (checked_add_lem n (wire_size v) (omega arith))
    ∙ add_sizes_lem (n + wire_size v) vs h.1 (omega arith)
    ∙ ap ok (omega arith)

cons-EncodesArgs : (v : Value) (vs : List Value) → Encodes v → EncodesArgs vs → EncodesArgs (v ∷ vs)
unfolding encode_args
cons-EncodesArgs v vs one rest = record {
  wire = one.wire ++ rest.wire;
  is_wire = cons one.is_wire rest.is_wire;
  encoded = λ out.
      >>=-ok (encode_value v out) (encode_args vs) (one.encoded out)
      ∙ rest.encoded (append out one.wire)
      ∙ ap (λ bytes. ok (record out { data_ = bytes })) (append_assoc out.data_ one.wire rest.wire);
  total = omega (arith, length-append one.wire rest.wire, one.total, rest.total);
}

args-EncodesArgs : (args : List Value) → All IsSendable args → EncodesArgs args
unfolding encode_args
args-EncodesArgs [] h = record {
  wire = [];
  is_wire = nil;
  encoded = λ out. rw append-nil;
  total = refl;
}
args-EncodesArgs (v ∷ vs) h =
    cons-EncodesArgs v vs (encode_value-Encodes v h.0) (args-EncodesArgs vs h.1)

-- The bytes of a request, as the grammar has them.
request_bytes : ℕ → ℕ → List ℕ → List ℕ
request_bytes method argc body =
    le_bytes 4 request_magic ++ (le_bytes 1 1 ++ (le_bytes 8 method ++ (le_bytes 4 argc ++ body)))

header_lem :
    (method argc capacity : ℕ) (body : List ℕ)
    → append (request_header method argc (writer capacity)) body
      ≡ record { capacity = capacity; data_ = request_bytes method argc body }
unfolding request_header request_bytes
header_lem method argc capacity body =
    rw
      (
        data_-integer 4 request_magic,
        data_-integer 1 1,
        data_-integer 8 method,
        data_-integer 4 argc,
      )
      (simp append_assoc)

length-map : (args : List Value) → length (map owned args) ≡ length args
length-map [] = refl
length-map (v ∷ vs) = ap suc (length-map vs)

length-request_bytes :
    (method argc : ℕ) (body : List ℕ) → length (request_bytes method argc body) ≡ 17 + length body
unfolding request_bytes le_bytes
length-request_bytes method argc body = omega arith

-- A call that may be sent: sendable arguments, at most 2³² - 1 of them, and a frame whose size
-- fits in `std::size_t`.
pub record IsCallable (method : ℕ) (args : List Value) : Type 0 where
  pub sendable : All IsSendable args
  pub method_lt : method < 2 ^ 64
  pub count_lt : length args < 2 ^ 32
  pub fits : 17 + wire_sizes args ≤ max_size

module _ (method : ℕ) (args : List Value) (h : IsCallable method args) where
  body_of : EncodesArgs args
  body_of = args-EncodesArgs args h.sendable

  frame_of : List ℕ
  frame_of = request_bytes method (length args) body_of.wire

  written :
      write_request method args ≡ ok (record { capacity = 17 + wire_sizes args; data_ = frame_of })
  unfolding write_request frame_of
  written =
      >>=-ok (add_sizes 17 args) _ (add_sizes_lem 17 args h.sendable h.fits)
      ∙ body_of.encoded (request_header method (length args) (writer (17 + wire_sizes args)))
      ∙ ap ok (header_lem method (length args) (17 + wire_sizes args) body_of.wire)

  -- For a call that may be sent, the vector never grows past what `encoded_size` has reserved for
  -- it, and fills that.
  pub write_request-capacity :
      (out : Writer) × (write_request method args ≡ ok out) × (length out.data_ ≡ out.capacity)
  unfolding frame_of
  write_request-capacity = (
    record { capacity = 17 + wire_sizes args; data_ = frame_of },
    written,
    omega (arith, length-request_bytes method (length args) body_of.wire, body_of.total),
  )

  frame-IsRequest : IsRequest (record { method = method; args = map owned args }) frame_of
  unfolding frame_of request_bytes
  frame-IsRequest = record {
    body = body_of.wire;
    is_body = body_of.is_wire;
    is_frame = rw length-map;
    method_lt = h.method_lt;
    count_lt = rw length-map h.count_lt;
  }

  -- For a call that may be sent, both encoders succeed with the same frame, and
  -- `try_decode_request` gives back the method and the arguments, borrowed strings as owned ones.
  pub encode_request_roundtrip :
      (result : Request)
      → (frame : List ℕ) × (encode_request method args ≡ ok frame)
        × (encode_request_values method args ≡ ok frame)
        × (try_decode_request frame result
            ≡ some (true, record { method = method; args = map owned args }))
  unfolding encode_request encode_request_values
  encode_request_roundtrip result = (
    frame_of,
    rw (le→ltb max_u32 (length args) (omega arith)) (>>=-ok (write_request method args) _ written),
    >>=-ok (write_request method args) _ written,
    try_decode_request-IsRequest _ frame_of frame-IsRequest result,
  )
