-- ===== src/Rpc/Response/Encode.antt =====
-- What `encode_response` and `encode_error` write is read back by `decode_response`.
use dynabridge.Prelude.{
  List, ap, append_assoc, arith, length, le→ltb, refl, some, ℕ, ◌+◌, ◌++◌, ◌∙◌, ◌∷◌, ◌≡◌, ◌≤◌,
}
use dynabridge.Prelude.Text.{codes}
use dynabridge.Raise
use dynabridge.Raise.{>>=-ok}
use dynabridge.Rpc.Kind.{Kind}
use dynabridge.Rpc.Value
use dynabridge.Rpc.Value.{Value}
use dynabridge.Rpc.Endian.{le_bytes}
use dynabridge.Rpc.Writer
use dynabridge.Rpc.Writer.{Writer, writer, max_u32}
use dynabridge.Rpc.Writer.Layout.{data_-integer, data_-raw}
use dynabridge.Rpc.Codec.{encoded_size, checked_add, max_size}
use dynabridge.Rpc.Codec.Wire.{
  IsSendable, wire_size, kind_size, owned, append, Encodes, encode_value-Encodes, checked_add_lem,
}
use dynabridge.Rpc.Frame.{response_magic}
use dynabridge.Rpc.Response.{
  Reply, response_header, encode_response, encode_error, deliver, decoded, decode_response,
}
use dynabridge.Rpc.Response.Exact.{returned, failure, IsResponse, try_decode_response-IsResponse}

response_bytes : ℕ → List ℕ → List ℕ
response_bytes tag body = le_bytes 4 response_magic ++ (le_bytes 1 1 ++ (le_bytes 1 tag ++ body))

header_lem :
    (tag capacity : ℕ) (body : List ℕ)
    → append (response_header tag (writer capacity)) body
      ≡ record { capacity = capacity; data_ = response_bytes tag body }
unfolding response_header response_bytes
header_lem tag capacity body =
    rw (data_-integer 4 response_magic, data_-integer 1 1, data_-integer 1 tag) (simp append_assoc)

kind_size-le : (k : Kind) (n : ℕ) → n ≤ max_u32 → 7 + kind_size k n ≤ max_size
kind_size-le k n h = ground arith

value-IsResponse :
    (v : Value) (e : Encodes v) → IsResponse (Reply.returned (owned v)) (response_bytes 0 e.wire)
unfolding response_bytes le_bytes
value-IsResponse v e = record { body = 0 ∷ e.wire; is_reply = returned e.is_wire; is_frame = refl }

error-IsResponse :
    (message : List ℕ)
    → length message ≤ max_u32
    → IsResponse (Reply.failure message) (response_bytes 1 (le_bytes 4 (length message) ++ message))
unfolding response_bytes le_bytes
error-IsResponse message h = record {
  body = 1 ∷ (le_bytes 4 (length message) ++ message);
  is_reply = failure (refl, omega arith);
  is_frame = refl;
}

-- A sendable result makes a response frame, and the client gets the result.
pub decode-encode_response :
    (v : Value)
    → IsSendable v
    → (frame : List ℕ) × IsResponse (Reply.returned (owned v)) frame
      × (encode_response v ≡ Raise.ok frame)
      × (decode_response frame ≡ some (Raise.ok (owned v)))
unfolding encode_response decode_response deliver decoded
decode-encode_response v h =
    let e : Encodes v = encode_value-Encodes v h in
    let is_response = value-IsResponse v e in
    (
      response_bytes 0 e.wire,
      is_response,
      (>>=-ok (encoded_size v) _ (e.size ∙ ap Raise.ok e.total)
          ∙ >>=-ok (checked_add 7 (wire_size v)) _
              (checked_add_lem 7 (wire_size v) (kind_size-le v.kind _ h.short))
          ∙ >>=-ok _ _ (e.encoded (response_header 0 (writer (7 + wire_size v))))
          ∙ ap (λ out. Raise.ok (Writer.finish out)) (header_lem 0 (7 + wire_size v) e.wire)),
      rw (
        try_decode_response-IsResponse _ _ is_response Value.undefined (codes ""),
        decode_response,
      ),
    )

-- An error message of at most 2³² - 1 bytes makes a response frame, and the client raises a
-- `remote_error` of that message.
pub decode-encode_error :
    (message : List ℕ)
    → length message ≤ max_u32
    → (frame : List ℕ) × IsResponse (Reply.failure message) frame
      × (encode_error message ≡ Raise.ok frame)
      × (decode_response frame ≡ some (Raise.raised (Raise.remote_error message)))
unfolding encode_error decode_response deliver decoded
decode-encode_error message h =
    let is_response = error-IsResponse message h in
    (
      response_bytes 1 (le_bytes 4 (length message) ++ message),
      is_response,
      rw (le→ltb max_u32 (length message) h) (
          >>=-ok (checked_add 10 (length message)) _
            (checked_add_lem 10 (length message) (omega arith))
          ∙ >>=-ok _ _ (data_-raw message (response_header 1 (writer (10 + length message))) h)
          ∙ ap (λ out. Raise.ok (Writer.finish out)) (header_lem 1 (10 + length message) _)),
      rw (
        try_decode_response-IsResponse _ _ is_response Value.undefined (codes ""),
        decode_response,
      ),
    )
