-- ===== src/Rpc/Codec/Decode.antt =====
-- `decode_value` against the grammar of Wire: it accepts what the grammar derives, and nothing
-- else.
use native.Mathlib.Nat.{mod-eq_of_lt}
use dynabridge.Prelude.{
  List, Option, ap, append-nil, append_assoc, arith, false, length, none, refl, some, ℕ, ◌*◌, ◌++◌,
  ◌<◌, [], ◌^◌, ◌∙◌, ◌∷◌, ◌≡◌,
}
use dynabridge.Rpc.Kind.{Kind, kind_byte, kind_of, kind_byte_of, kind_of-kind_byte, kind_byte-lt}
use dynabridge.Rpc.Value
use dynabridge.Rpc.Value.{Value}
use dynabridge.Rpc.Endian.{IsBytes, le_bytes, le_value}
use dynabridge.Rpc.Reader.{◌>>=◌, pure, reader, integer, raw, invalidate}
use dynabridge.Rpc.Reader.Laws.{>>=-some, integer-reader, integer-le_bytes, raw-reader}
use dynabridge.Rpc.Reader.Grammar.{
  Decoded, refused, IsSticky, pure-IsSticky, >>=-IsSticky, integer-IsSticky, raw-IsSticky,
  invalidate-IsSticky, >>=-Decoded, pure-Decoded, IsNumber-le_bytes, IsNumber-lt, integer-Decoded,
  raw-Decoded,
}
use dynabridge.Rpc.Codec.{decode_body, decode_value}
use dynabridge.Rpc.Codec.Wire.{
  Wire, undefined, signed_integer, unsigned_integer, real, boolean, string,
}

integer_one :
    (b : ℕ) (rest : List ℕ) → b < 256 → integer 1 (reader (b ∷ rest)) ≡ some (b, reader rest)
unfolding le_value
integer_one b rest h =
    integer-reader (b ∷ []) rest (h, tt) ∙ ap (λ (n : ℕ). some (n, reader rest)) (omega arith)

-- After the byte of its kind, the body of a value.
body_lem :
    (k : Kind) (rest : List ℕ)
    → decode_value (reader (kind_byte k ∷ rest)) ≡ decode_body (some k) (reader rest)
unfolding decode_value
body_lem k rest =
    >>=-some (integer 1) _ _ (integer_one (kind_byte k) rest (kind_byte-lt k))
    ∙ ap (λ o. decode_body o (reader rest)) (kind_of-kind_byte k)

-- Whatever the grammar derives is accepted, and gives its value.
pub decode_value-Wire :
    {v : Value} {enc : List ℕ}
    → Wire v enc
    → (rest : List ℕ) → decode_value (reader (enc ++ rest)) ≡ some (v, reader rest)
unfolding decode_body
decode_value-Wire undefined rest = body_lem Kind.undefined rest
decode_value-Wire (signed_integer bits h) rest =
    body_lem Kind.signed_integer (le_bytes 8 bits ++ rest)
    ∙ >>=-some (integer 8) _ _ (integer-le_bytes 8 bits rest h)
decode_value-Wire (unsigned_integer n h) rest =
    body_lem Kind.unsigned_integer (le_bytes 8 n ++ rest)
    ∙ >>=-some (integer 8) _ _ (integer-le_bytes 8 n rest h)
decode_value-Wire (real bits h) rest =
    body_lem Kind.real (le_bytes 8 bits ++ rest)
    ∙ >>=-some (integer 8) _ _ (integer-le_bytes 8 bits rest h)
decode_value-Wire (boolean b h) rest =
    body_lem Kind.boolean (b ∷ rest) ∙ >>=-some (integer 1) _ _ (integer_one b rest h)
decode_value-Wire (string text h) rest =
    ap (λ t. decode_value (reader (5 ∷ t))) (append_assoc (le_bytes 4 (length text)) text rest)
    ∙ body_lem Kind.string (le_bytes 4 (length text) ++ (text ++ rest))
    ∙ >>=-some raw _ _ (raw-reader text rest h)

decode_body-IsSticky : (o : Option Kind) → IsSticky (decode_body o)
unfolding decode_body
decode_body-IsSticky (some Kind.undefined) = pure-IsSticky _
decode_body-IsSticky (some Kind.signed_integer) =
    >>=-IsSticky (integer 8) _ (integer-IsSticky 8) (λ n. pure-IsSticky _)
decode_body-IsSticky (some Kind.unsigned_integer) =
    >>=-IsSticky (integer 8) _ (integer-IsSticky 8) (λ n. pure-IsSticky _)
decode_body-IsSticky (some Kind.real) =
    >>=-IsSticky (integer 8) _ (integer-IsSticky 8) (λ n. pure-IsSticky _)
decode_body-IsSticky (some Kind.boolean) =
    >>=-IsSticky (integer 1) _ (integer-IsSticky 1) (λ n. pure-IsSticky _)
decode_body-IsSticky (some Kind.string) = >>=-IsSticky raw _ raw-IsSticky (λ t. pure-IsSticky _)
decode_body-IsSticky none =
    >>=-IsSticky invalidate (λ _. pure Value.undefined) invalidate-IsSticky (λ t. pure-IsSticky _)

pub decode_value-IsSticky : IsSticky decode_value
unfolding decode_value
decode_value-IsSticky =
    >>=-IsSticky (integer 1) _ (integer-IsSticky 1) (λ b. decode_body-IsSticky (kind_of b))

-- One field of a fixed width, and the value made of it.
field :
    (width : ℕ) (make : ℕ → Value) (P : Value → List ℕ → Type 0) (bs : List ℕ)
    → IsBytes bs
    → ((n : ℕ) → n < 2 ^ (width * 8) → P (make n) (le_bytes width n))
    → Decoded P (integer width >>= λ n. pure (make n)) bs
field width make P bs bytes build =
    >>=-Decoded (integer width) (λ n. pure (make n)) bs (integer-Decoded width bs bytes)
      (λ n enc rest h b.
        pure-Decoded (make n) rest b
          (rw (append-nil, IsNumber-le_bytes h) (build n (IsNumber-lt h))))
      (λ n. pure-IsSticky _)

one_lem : (b : ℕ) → b < 256 → le_bytes 1 b ≡ b ∷ []
unfolding le_bytes
one_lem b h = rw (mod-eq_of_lt h)

body-Decoded :
    (k : Kind) (bs : List ℕ)
    → IsBytes bs
    → Decoded (λ v tail. Wire v (kind_byte k ∷ tail)) (decode_body (some k)) bs
unfolding decode_body
body-Decoded Kind.undefined bs h = pure-Decoded _ bs h undefined
body-Decoded Kind.signed_integer bs h = field 8 _ _ bs h (λ n lt. signed_integer n lt)
body-Decoded Kind.unsigned_integer bs h = field 8 _ _ bs h (λ n lt. unsigned_integer n lt)
body-Decoded Kind.real bs h = field 8 _ _ bs h (λ n lt. real n lt)
body-Decoded Kind.boolean bs h = field 1 _ _ bs h (λ n lt. rw (one_lem n lt) (boolean n lt))
body-Decoded Kind.string bs h =
    >>=-Decoded raw (λ t. pure (Value.string t)) bs (raw-Decoded bs h)
      (λ text enc rest g b. pure-Decoded _ rest b (rw (append-nil, g.0) (string text g.1)))
      (λ t. pure-IsSticky _)

option-Decoded :
    (b : ℕ) (o : Option Kind) (bs : List ℕ)
    → IsBytes bs
    → kind_of b ≡ o
    → Decoded (λ v tail. Wire v (b ∷ tail)) (decode_body o) bs
unfolding decode_body
option-Decoded b none bs h e =
    refused Value.undefined (record (reader bs) { valid = false }) refl refl
option-Decoded b (some k) bs h e = rw (kind_byte_of b e) (body-Decoded k bs h)

-- On any bytes whatever, `decode_value` accepts a prefix that the grammar derives, or ends invalid.
pub decode_value-Decoded : (bs : List ℕ) → IsBytes bs → Decoded Wire decode_value bs
unfolding decode_value
decode_value-Decoded bs h =
    >>=-Decoded (integer 1) (λ b. decode_body (kind_of b)) bs (integer-Decoded 1 bs h)
      (λ b enc rest g hr.
        rw (IsNumber-le_bytes g ∙ one_lem b (IsNumber-lt g))
          (option-Decoded b (kind_of b) rest hr refl))
      (λ b. decode_body-IsSticky (kind_of b))
