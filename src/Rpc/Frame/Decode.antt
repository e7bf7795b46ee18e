-- ===== src/Rpc/Frame/Decode.antt =====
-- `try_decode_request` against the grammar of request frames.
use native.Mathlib.Decide.{dec_lt}
use dynabridge.Prelude.{
  List, Option, ap, append-nil, append_assoc, arith, if◌then◌else◌, length, le→ltb, ltb, lt→ltb,
  none, not, refl, some, suc, sym, zero, ℕ, ◌++◌, ◌<◌, [], ◌^◌, ◌||◌, ◌∙◌, ◌∷◌, ◌≡◌,
}
use dynabridge.Rpc.Value.{Value}
use dynabridge.Rpc.Endian.{IsBytes, le_bytes}
use dynabridge.Rpc.Reader.{Read, ◌>>=◌, pure, reader, is_valid, left, integer}
use dynabridge.Rpc.Reader.Laws.{>>=-some}
use dynabridge.Rpc.Reader.Grammar.{
  IsNumber, IsNumber-le_bytes, IsNumber-lt, integer-Decoded, integer-IsSticky,
}
use dynabridge.Rpc.Codec.{decode_value}
use dynabridge.Rpc.Codec.Decode.{decode_value-Decoded}
use dynabridge.Rpc.Frame.{
  Request, request_magic, decode_args, finish_request, decode_call, decode_version, decode_frame,
}
use dynabridge.Rpc.Frame.Grammar.{WireArgs, nil, cons, IsRequest}
use dynabridge.Rpc.Frame.Attempt.{Attempt, taken, failed, Fails, >>=-Fails, >>=-Attempt}
use dynabridge.Rpc.Frame.Expect.{Attempt-map, expect, expect-Fails, expect-Attempt}

-- The arguments behind those that are staged.
record IsStaged (argc : ℕ) (staged all : List Value) (enc : List ℕ) : Type 0 where
  args : List Value
  split : all ≡ staged ++ args
  count : length args ≡ argc
  is_wire : WireArgs args enc

next_arg : ℕ → List Value → Value → Read (Option (List Value))
next_arg argc staged item = do
  valid ← is_valid
  if not valid then pure none else decode_args argc (staged ++ item ∷ [])

next_arg-Fails : (argc : ℕ) (staged : List Value) (item : Value) → Fails (next_arg argc staged item)
unfolding next_arg
next_arg-Fails argc staged item r h = (r, rw h refl)

decode_args-Attempt :
    (argc : ℕ) (staged : List Value) (bs : List ℕ)
    → IsBytes bs
    → Attempt (λ all enc rest. IsStaged argc staged all enc) (decode_args argc staged) bs
unfolding decode_args next_arg
decode_args-Attempt zero staged bs h =
    taken staged [] bs refl
      (record { args = []; split = sym (append-nil staged); count = refl; is_wire = nil }) h refl
decode_args-Attempt (suc argc) staged bs h =
    >>=-Attempt decode_value (next_arg argc staged) bs (decode_value-Decoded bs h)
      (λ item enc rest w hr.
        Attempt-map (decode_args argc (staged ++ item ∷ [])) (next_arg argc staged item) rest refl
          (λ all tail left s. record {
            args = item ∷ s.args;
            split = s.split ∙ append_assoc staged (item ∷ []) s.args;
            count = ap suc s.count;
            is_wire = cons w s.is_wire;
          })
          (decode_args-Attempt argc (staged ++ item ∷ []) rest hr))
      (next_arg-Fails argc staged)

-- All bytes have been read, and they are the arguments.
record IsCall (method argc : ℕ) (req : Request) (enc rest : List ℕ) : Type 0 where
  is_method : req.method ≡ method
  count : length req.args ≡ argc
  is_wire : WireArgs req.args enc
  done : rest ≡ []

finish_end :
    (method : ℕ) (all : List Value)
    → finish_request method (some all) (reader [])
      ≡ some (some (record { method = method; args = all }), reader [])
unfolding finish_request
finish_end method all = refl

finish_more :
    (method : ℕ) (all : List Value) (b : ℕ) (bs : List ℕ)
    → finish_request method (some all) (reader (b ∷ bs)) ≡ some (none, reader (b ∷ bs))
unfolding finish_request
finish_more method all b bs = ground arith

read_args : ℕ → ℕ → Read (Option Request)
read_args method argc = decode_args argc [] >>= finish_request method

read_args-Attempt :
    (method argc : ℕ) (bs : List ℕ)
    → IsBytes bs
    → Attempt (IsCall method argc) (read_args method argc) bs
unfolding read_args
read_args-Attempt method argc bs h = elim (decode_args-Attempt argc [] bs h) [
  | failed r e ↦ failed r (
      >>=-some (decode_args argc []) (finish_request method) (reader bs) e
      ∙ unfold finish_request in refl)
  | taken all enc [] split s bytes e ↦
      taken (record { method = method; args = all }) enc [] split
        (record {
          is_method = refl;
          count = ap length s.split ∙ s.count;
          is_wire = rw s.split s.is_wire;
          done = refl;
        })
        bytes
        (>>=-some (decode_args argc []) (finish_request method) (reader bs) e
          ∙ finish_end method all)
  | taken all enc (b ∷ rest) split s bytes e ↦ failed (reader (b ∷ rest)) (
      >>=-some (decode_args argc []) (finish_request method) (reader bs) e
      ∙ finish_more method all b rest)
]

guarded_args : ℕ → ℕ → Read (Option Request)
unfolding read_args
guarded_args method argc = do
  valid ← is_valid
  remaining ← left
  if not valid || ltb remaining argc then pure none else do read_args method argc

guarded_args-Fails : (method argc : ℕ) → Fails (guarded_args method argc)
unfolding guarded_args
guarded_args-Fails method argc r h = (r, rw h refl)

guarded_args-Attempt :
    (method argc : ℕ) (bs : List ℕ)
    → IsBytes bs
    → Attempt (IsCall method argc) (guarded_args method argc) bs
unfolding guarded_args
guarded_args-Attempt method argc bs h = elim (dec_lt (length bs) argc) [
  | yes short ↦ failed (reader bs) (rw (lt→ltb (length bs) argc short) refl)
  | no long ↦
      Attempt-map (read_args method argc) (guarded_args method argc) bs
        (rw (le→ltb (length bs) argc (omega arith)) refl) (λ req enc rest g. g)
        (read_args-Attempt method argc bs h)
]

-- What `decode_call` reads behind the version.
record IsCallFrame (req : Request) (enc rest : List ℕ) : Type 0 where
  body : List ℕ
  is_body : WireArgs req.args body
  is_enc : enc ≡ le_bytes 8 req.method ++ (le_bytes 4 (length req.args) ++ body)
  method_lt : req.method < 2 ^ 64
  count_lt : length req.args < 2 ^ 32
  done : rest ≡ []

call_frame :
    (method argc : ℕ) (e8 e4 : List ℕ)
    → IsNumber 8 method e8
    → IsNumber 4 argc e4
    → (req : Request) (enc rest : List ℕ) → IsCall method argc req enc rest
    → IsCallFrame req (e8 ++ (e4 ++ enc)) rest
call_frame method argc e8 e4 h8 h4 req enc rest c = record {
  body = enc;
  is_body = c.is_wire;
  is_enc = rw (c.is_method, c.count, IsNumber-le_bytes h8, IsNumber-le_bytes h4) refl;
  method_lt = rw c.is_method (IsNumber-lt h8);
  count_lt = rw c.count (IsNumber-lt h4);
  done = c.done;
}

decode_call-Attempt : (bs : List ℕ) → IsBytes bs → Attempt IsCallFrame decode_call bs
unfolding decode_call guarded_args
decode_call-Attempt bs h =
    >>=-Attempt (integer 8) (λ method. integer 4 >>= guarded_args method) bs
      (integer-Decoded 8 bs h)
      (λ method e8 rest h8 hr.
        >>=-Attempt (integer 4) (guarded_args method) rest (integer-Decoded 4 rest hr)
          (λ argc e4 rest' h4 hr'.
            Attempt-map (guarded_args method argc) (guarded_args method argc) rest' refl
              (call_frame method argc e8 e4 h8 h4) (guarded_args-Attempt method argc rest' hr'))
          (guarded_args-Fails method))
      (λ method.
        >>=-Fails (integer 4) (guarded_args method) (integer-IsSticky 4)
          (guarded_args-Fails method))

decode_call-Fails : Fails decode_call
unfolding decode_call guarded_args
decode_call-Fails =
    >>=-Fails (integer 8) (λ method. integer 4 >>= guarded_args method) (integer-IsSticky 8)
      (λ method.
        >>=-Fails (integer 4) (guarded_args method) (integer-IsSticky 4)
          (guarded_args-Fails method))

decode_version_lem : decode_version ≡ (integer 1 >>= expect 1 decode_call)
unfolding decode_version expect
decode_version_lem = refl

decode_version-Fails : Fails decode_version
decode_version-Fails = rw decode_version_lem (
    >>=-Fails (integer 1) (expect 1 decode_call) (integer-IsSticky 1)
      (expect-Fails 1 decode_call decode_call-Fails))

-- The whole frame has been read, and it is a request.
abbrev IsWhole : Request → List ℕ → List ℕ → Type 0
IsWhole req enc rest = IsRequest req enc × (rest ≡ [])

IsWhole-frame :
    (req : Request) (enc rest : List ℕ)
    → IsCallFrame req enc rest
    → IsWhole req (le_bytes 4 request_magic ++ (le_bytes 1 1 ++ enc)) rest
IsWhole-frame req enc rest c = (
  record {
    body = c.body;
    is_body = c.is_body;
    is_frame = rw c.is_enc refl;
    method_lt = c.method_lt;
    count_lt = c.count_lt;
  },
  c.done,
)

decode_version-Attempt :
    (bs : List ℕ)
    → IsBytes bs
    → Attempt (λ req enc rest. IsWhole req (le_bytes 4 request_magic ++ enc) rest) decode_version bs
decode_version-Attempt bs h = rw decode_version_lem (
    expect-Attempt 1 1 decode_call _ bs h decode_call-Fails (λ rest hr.
      Attempt-map decode_call decode_call rest refl IsWhole-frame (decode_call-Attempt rest hr)))

decode_frame_lem : decode_frame ≡ (integer 4 >>= expect request_magic decode_version)
unfolding decode_frame expect
decode_frame_lem = refl

pub decode_frame-Attempt : (bs : List ℕ) → IsBytes bs → Attempt IsWhole decode_frame bs
decode_frame-Attempt bs h = rw decode_frame_lem (
    expect-Attempt 4 request_magic decode_version IsWhole bs h decode_version-Fails
      decode_version-Attempt)
