-- ===== src/Rpc/Codec.antt =====
-- `encode_value`, `checked_add`, `encoded_size` and `decode_value` of dynabridge/backends/rpc.h.
pub mod Wire
pub mod Decode
use dynabridge.Prelude.{
  Bool, List, Option, false, if◌then◌else◌, length, ltb, none, not, some, true, ℕ, ◌*◌, ◌+◌, ◌-◌,
  ◌==◌, ◌^◌,
}
use dynabridge.Prelude.Text.{codes}
use dynabridge.Prelude.Int.{to_bits, of_bits}
use dynabridge.Raise
use dynabridge.Raise.{Raise, raise_if, protocol_error, ok}
use dynabridge.Rpc.Kind.{Kind, kind_byte, kind_of}
use dynabridge.Rpc.Value
use dynabridge.Rpc.Value.{
  Value, as_signed, as_unsigned, as_real, as_boolean, string_data, string_size,
}
use dynabridge.Rpc.Writer
use dynabridge.Rpc.Writer.{Writer, max_u32}
use dynabridge.Rpc.Reader
use dynabridge.Rpc.Reader.{Read, invalidate, pure, ◌>>=◌, ◌>>◌}

-- The `switch` of `encode_value`; the two `memcpy`s of a signed number are `as_signed` and
-- `to_bits`.
encode_body : Kind → Value → Writer → Raise Writer
encode_body Kind.undefined input out = ok out
encode_body Kind.signed_integer input out = ok (Writer.integer 8 (to_bits (as_signed input)) out)
encode_body Kind.unsigned_integer input out = ok (Writer.integer 8 (as_unsigned input) out)
encode_body Kind.real input out = ok (Writer.integer 8 (as_real input) out)
encode_body Kind.boolean input out = ok (Writer.integer 1 (if as_boolean input then 1 else 0) out)
encode_body Kind.string input out = Writer.raw (string_data input) out

pub encode_value : Value → Writer → Raise Writer
encode_value input out = encode_body input.kind input (Writer.integer 1 (kind_byte input.kind) out)

-- `std::numeric_limits<std::size_t>::max()`
abbrev pub max_size : ℕ
max_size = 2 ^ 64 - 1

pub checked_add : ℕ → ℕ → Raise ℕ
checked_add left right =
    Raise.◌>>◌
      (raise_if (ltb (max_size - left) right) (protocol_error (codes "RPC frame size overflow")))
      (ok (left + right))

encoded_body : Kind → Value → Raise ℕ
encoded_body Kind.undefined input = ok 1
encoded_body Kind.signed_integer input = ok 9
encoded_body Kind.unsigned_integer input = ok 9
encoded_body Kind.real input = ok 9
encoded_body Kind.boolean input = ok 2
encoded_body Kind.string input =
    Raise.◌>>◌
      (raise_if (ltb max_u32 (string_size input))
        (protocol_error (codes "RPC string is too large")))
      (checked_add 5 (string_size input))

pub encoded_size : Value → Raise ℕ
encoded_size input = encoded_body input.kind input

-- The `switch` of `decode_value`; `none` is a byte that names no kind.
decode_body : Option Kind → Read Value
decode_body (some Kind.undefined) = pure Value.undefined
decode_body (some Kind.signed_integer) = do
  bits ← Reader.integer 8
  pure (Value.signed_integer (of_bits bits))
decode_body (some Kind.unsigned_integer) = do
  number ← Reader.integer 8
  pure (Value.unsigned_integer number)
decode_body (some Kind.real) = do bits ← Reader.integer 8; pure (Value.real bits)
decode_body (some Kind.boolean) = do
  state ← Reader.integer 1
  pure (Value.boolean (not (state == 0)))
decode_body (some Kind.string) = do text ← Reader.raw; pure (Value.string text)
decode_body none = do invalidate; pure Value.undefined

pub decode_value : Read Value
decode_value = do kind ← Reader.integer 1; decode_body (kind_of kind)
