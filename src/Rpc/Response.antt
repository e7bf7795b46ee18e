-- ===== src/Rpc/Response.antt =====
-- Responses of dynabridge/backends/rpc.h: `encode_response`, `encode_error`, `try_decode_response`
-- and `decode_response`.
pub mod Exact
pub mod Encode
use dynabridge.Prelude.{
  Bool, List, Option, false, if◌then◌else◌, length, ltb, none, not, some, true, ℕ, ◌&&◌, ◌+◌, ◌==◌,
  ◌||◌,
}
use dynabridge.Prelude.Text.{codes}
use dynabridge.Raise
use dynabridge.Raise.{Raise, raise_if, protocol_error, raised}
use dynabridge.Rpc.Value
use dynabridge.Rpc.Value.{Value}
use dynabridge.Rpc.Writer
use dynabridge.Rpc.Writer.{Writer, writer, max_u32, finish}
use dynabridge.Rpc.Reader
use dynabridge.Rpc.Reader.{Read, reader, is_valid, empty, pure, ◌>>=◌}
use dynabridge.Rpc.Codec.{encode_value, encoded_size, checked_add, decode_value}
use dynabridge.Rpc.Frame.{response_magic, protocol_version}

-- The fields in front of a response's body; the tag says whether it is an error.
response_header : ℕ → Writer → Writer
response_header tag out =
    Writer.integer 1 tag (Writer.integer 1 protocol_version (Writer.integer 4 response_magic out))

pub encode_response : Value → Raise (List ℕ)
encode_response result = Raise.◌>>=◌ (encoded_size result) λ size.
    Raise.◌>>=◌ (checked_add 7 size) λ capacity.
      Raise.◌>>=◌ (encode_value result (response_header 0 (writer capacity)))
        λ out. Raise.ok (finish out)

pub encode_error : List ℕ → Raise (List ℕ)
encode_error message =
    Raise.◌>>◌
      (raise_if (ltb max_u32 (length message))
        (protocol_error (codes "RPC error message is too large")))
      (Raise.◌>>=◌ (checked_add 10 (length message)) λ capacity.
        Raise.◌>>=◌ (Writer.raw message (response_header 1 (writer capacity)))
          λ out. Raise.ok (finish out))

pub data Status : Type 0 where
  ok malformed remote_error : Status

-- What a response that is not malformed holds.
pub data Reply : Type 0 where
  returned : Value → Reply
  failure : List ℕ → Reply

-- `if (!input.valid() || !input.empty()) return malformed;`
ended : Reply → Read (Option Reply)
ended reply = do
  valid ← is_valid
  done ← empty
  if not valid || not done then pure none else pure (some reply)

-- `try_decode_response` behind the tag; `none` is its `return response_status::malformed`.
tagged : ℕ → Read (Option Reply)
tagged tag = do
  valid ← is_valid
  if not valid || ltb 1 tag
      then pure none
      else if tag == 1
      then (do message ← Reader.raw; ended (Reply.failure message))
      else (do staged ← decode_value; ended (Reply.returned staged))

decode_tag : Read (Option Reply)
decode_tag = do tag ← Reader.integer 1; tagged tag

decode_status_version : Read (Option Reply)
decode_status_version = do
  version ← Reader.integer 1
  if not (version == protocol_version) then pure none else decode_tag

pub decode_reply : Read (Option Reply)
decode_reply = do
  magic ← Reader.integer 4
  if not (magic == response_magic) then pure none else decode_status_version

-- The status, and the two objects of the caller as they are left.
pub deliver : Option Reply → Value → List ℕ → Status × Value × List ℕ
deliver none result error = (Status.malformed, result, error)
deliver (some (Reply.returned staged)) result error = (Status.ok, staged, error)
deliver (some (Reply.failure message)) result error = (Status.remote_error, result, message)

-- `none` is a read outside the frame.
pub try_decode_response : List ℕ → Value → List ℕ → Option (Status × Value × List ℕ)
try_decode_response frame result error = elim (decode_reply (reader frame)) [
  | none ↦ none
  | some (reply, input) ↦ some (deliver reply result error)
]

decoded : Status × Value × List ℕ → Raise Value
decoded (Status.ok, result, error) = Raise.ok result
decoded (Status.malformed, result, error) =
    raised (protocol_error (codes "invalid RPC response frame"))
decoded (Status.remote_error, result, error) = raised (Raise.remote_error error)

pub decode_response : List ℕ → Option (Raise Value)
decode_response frame = elim (try_decode_response frame Value.undefined (codes "")) [
  | none ↦ none
  | some answer ↦ some (decoded answer)
]
