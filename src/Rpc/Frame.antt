-- ===== src/Rpc/Frame.antt =====
-- Request and response frames of dynabridge/backends/rpc.h: `encode_request` to `decode_response`.
pub mod Grammar
pub mod Attempt
pub mod Expect
pub mod Decode
pub mod Exact
pub mod Encode
use dynabridge.Prelude.{
  Bool, List, Option, false, if◌then◌else◌, length, ltb, none, not, some, suc, true, zero, ℕ, ◌&&◌,
  ◌+◌, ◌++◌, ◌==◌, [], ◌||◌, ◌∷◌,
}
use dynabridge.Prelude.Text.{codes}
use dynabridge.Raise
use dynabridge.Raise.{Raise, raise_if, protocol_error, remote_error, ok, raised}
use dynabridge.Rpc.Value
use dynabridge.Rpc.Value.{Value}
use dynabridge.Rpc.Writer
use dynabridge.Rpc.Writer.{Writer, writer, max_u32, finish}
use dynabridge.Rpc.Reader
use dynabridge.Rpc.Reader.{Read, reader, is_valid, empty, left, pure, ◌>>=◌}
use dynabridge.Rpc.Codec.{encode_value, encoded_size, checked_add, decode_value}

abbrev pub request_magic : ℕ
request_magic = 0x43505244

abbrev pub response_magic : ℕ
response_magic = 0x52505244

abbrev pub protocol_version : ℕ
protocol_version = 1

pub record Request : Type 0 where
  pub method : ℕ
  pub args : List Value

-- The loop that adds up the sizes of the arguments.
add_sizes : ℕ → List Value → Raise ℕ
add_sizes frame_size [] = ok frame_size
add_sizes frame_size (arg ∷ args) =
    Raise.◌>>=◌ (encoded_size arg)
      λ size. Raise.◌>>=◌ (checked_add frame_size size) λ total. add_sizes total args

encode_args : List Value → Writer → Raise Writer
encode_args [] out = ok out
encode_args (arg ∷ args) out = Raise.◌>>=◌ (encode_value arg out) (encode_args args)

-- The frame's fields in front of the arguments.
request_header : ℕ → ℕ → Writer → Writer
request_header method argc out = Writer.integer 4 argc (
    Writer.integer 8 method
      (Writer.integer 1 protocol_version (Writer.integer 4 request_magic out)))

-- The statements that `encode_request` and `encode_request_values` share.
pub write_request : ℕ → List Value → Raise Writer
write_request method args =
    Raise.◌>>=◌ (add_sizes 17 args)
      λ frame_size. encode_args args (request_header method (length args) (writer frame_size))

-- The arguments are a parameter pack, whose size a `static_assert` bounds.
pub encode_request_values : ℕ → List Value → Raise (List ℕ)
encode_request_values method args = Raise.◌>>=◌ (write_request method args) λ out. ok (finish out)

pub encode_request : ℕ → List Value → Raise (List ℕ)
encode_request method args =
    Raise.◌>>◌
      (raise_if (ltb max_u32 (length args)) (protocol_error (codes "too many RPC arguments")))
      (Raise.◌>>=◌ (write_request method args) λ out. ok (finish out))

-- The loop over the arguments of `try_decode_request`; `none` is its `return false`.
decode_args : ℕ → List Value → Read (Option (List Value))
decode_args zero staged = pure (some staged)
decode_args (suc argc) staged = do
  item ← decode_value
  valid ← is_valid
  if not valid then pure none else decode_args argc (staged ++ item ∷ [])

-- The last test of `try_decode_request`.
finish_request : ℕ → Option (List Value) → Read (Option Request)
finish_request method none = pure none
finish_request method (some args) = do
  valid ← is_valid
  done ← empty
  if not valid || not done then pure none else pure (some (record { method = method; args = args }))

-- `try_decode_request` from the method on, after the magic number and the version.
decode_call : Read (Option Request)
decode_call = do
  method ← Reader.integer 8
  argc ← Reader.integer 4
  valid ← is_valid
  remaining ← left
  if not valid || ltb remaining argc
      then pure none
      else do args ← decode_args argc []; finish_request method args

decode_version : Read (Option Request)
decode_version = do
  version ← Reader.integer 1
  if not (version == protocol_version) then pure none else decode_call

pub decode_frame : Read (Option Request)
decode_frame = do
  magic ← Reader.integer 4
  if not (magic == request_magic) then pure none else decode_version

-- The result is written only where the whole frame has been accepted.
publish : Option Request → Request → Bool × Request
publish none result = (false, result)
publish (some staged) result = (true, staged)

-- `none` is a read outside the frame.
pub try_decode_request : List ℕ → Request → Option (Bool × Request)
try_decode_request frame result = elim (decode_frame (reader frame)) [
  | none ↦ none
  | some (staged, input) ↦ some (publish staged result)
]

accepted : Bool × Request → Raise Request
accepted (true, result) = ok result
accepted (false, result) = raised (protocol_error (codes "invalid RPC request frame"))

pub decode_request : List ℕ → Option (Raise Request)
decode_request frame = elim (try_decode_request frame (record { method = 0; args = [] })) [
  | none ↦ none
  | some answer ↦ some (accepted answer)
]
