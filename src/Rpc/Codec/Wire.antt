-- ===== src/Rpc/Codec/Wire.antt =====
-- The wire form of a value as a grammar, and what `encode_value` and `encoded_size` have to do
-- with it.
use mathlib.Core.Path.{subst}
use native.Mathlib.Nat.{mod-eq_of_lt}
use dynabridge.Prelude.{
  Bool, List, ap, append_assoc, arith, false, if◌then◌else◌, length, length-append, le→ltb, ltb,
  not, refl, suc, sym, true, ℕ, ◌+◌, ◌++◌, ◌-◌, ◌<◌, ◌==◌, [], ◌^◌, ◌∙◌, ◌∷◌, ◌≡◌, ◌≤◌,
}
use dynabridge.Prelude.Int.{ℤ, of_bits, to_bits, of_bits-to_bits, to_bits-lt, IsInt64}
use dynabridge.Raise.{ok}
use dynabridge.Rpc.Kind.{Kind, kind_byte, kind_byte-lt}
use dynabridge.Rpc.Value
use dynabridge.Rpc.Value.{Value, string_data, string_size}
use dynabridge.Rpc.Endian.{le_bytes, length-le_bytes}
use dynabridge.Rpc.Writer.{Writer, max_u32}
use dynabridge.Rpc.Writer
use dynabridge.Rpc.Writer.Layout.{data_-integer, data_-raw}
use dynabridge.Rpc.Codec.{
  encode_body, encode_value, encoded_body, encoded_size, checked_add, max_size,
}

-- The values that the factory functions of the class make.
pub data IsValue : Value → Type 0 where
  undefined : IsValue Value.undefined
  signed_integer : (z : ℤ) → IsInt64 z → IsValue (Value.signed_integer z)
  unsigned_integer : (n : ℕ) → n < 2 ^ 64 → IsValue (Value.unsigned_integer n)
  real : (bits : ℕ) → bits < 2 ^ 64 → IsValue (Value.real bits)
  boolean : (state : Bool) → IsValue (Value.boolean state)
  string : (text : List ℕ) → IsValue (Value.string text)
  borrowed_string : (text : List ℕ) → IsValue (Value.borrowed_string text)

-- The grammar. A boolean is any byte: zero is false, and every other byte is true.
pub data Wire : Value → List ℕ → Type 0 where
  undefined : Wire Value.undefined (0 ∷ [])
  signed_integer :
      (bits : ℕ) → bits < 2 ^ 64 → Wire (Value.signed_integer (of_bits bits)) (1 ∷ le_bytes 8 bits)
  unsigned_integer : (n : ℕ) → n < 2 ^ 64 → Wire (Value.unsigned_integer n) (2 ∷ le_bytes 8 n)
  real : (bits : ℕ) → bits < 2 ^ 64 → Wire (Value.real bits) (3 ∷ le_bytes 8 bits)
  boolean : (b : ℕ) → b < 256 → Wire (Value.boolean (not (b == 0))) (4 ∷ b ∷ [])
  string :
      (text : List ℕ)
      → length text < 2 ^ 32
      → Wire (Value.string text) (5 ∷ (le_bytes 4 (length text) ++ text))

-- A borrowed string comes out of the wire as an owned one.
abbrev pub owned : Value → Value
owned v = if v.borrowed then Value.string v.borrowed_data else v

abbrev pub append : Writer → List ℕ → Writer
append out bytes = record out { data_ = out.data_ ++ bytes }

kind_lem :
    (k : Kind) (out : Writer) → Writer.integer 1 (kind_byte k) out ≡ append out (kind_byte k ∷ [])
unfolding le_bytes
kind_lem k out =
    data_-integer 1 (kind_byte k) out
    ∙ ap (λ (b : ℕ). append out (b ∷ [])) (mod-eq_of_lt (kind_byte-lt k))

-- A value that fits the wire: made by the factories, and no string of 4 GiB or more.
pub record IsSendable (v : Value) : Type 0 where
  pub is_value : IsValue v
  pub short : string_size v ≤ max_u32

-- The bytes that a value takes on the wire.
abbrev pub kind_size : Kind → ℕ → ℕ
kind_size Kind.undefined text = 1
kind_size Kind.signed_integer text = 9
kind_size Kind.unsigned_integer text = 9
kind_size Kind.real text = 9
kind_size Kind.boolean text = 2
kind_size Kind.string text = 5 + text

abbrev pub wire_size : Value → ℕ
wire_size v = kind_size v.kind (string_size v)

pub checked_add_lem : (a b : ℕ) → a + b ≤ max_size → checked_add a b ≡ ok (a + b)
unfolding checked_add
checked_add_lem a b h = rw (le→ltb (max_size - a) b (omega arith))

-- A value goes out in the grammar, and has the size that `encoded_size` says.
pub record Encodes (v : Value) : Type 0 where
  pub wire : List ℕ
  pub is_wire : Wire (owned v) wire
  pub encoded : (out : Writer) → encode_value v out ≡ ok (append out wire)
  pub size : encoded_size v ≡ ok (length wire)
  pub total : length wire ≡ wire_size v

eight :
    (k : Kind) (n : ℕ) (out : Writer)
    → Writer.integer 8 n (Writer.integer 1 (kind_byte k) out)
      ≡ append out (kind_byte k ∷ le_bytes 8 n)
eight k n out = rw (kind_lem k out, data_-integer 8 n) (rw append_assoc)

one_byte :
    (k : Kind) (b : ℕ) (out : Writer)
    → b < 256
    → Writer.integer 1 b (Writer.integer 1 (kind_byte k) out) ≡ append out (kind_byte k ∷ b ∷ [])
unfolding le_bytes
one_byte k b out h = rw (kind_lem k out, data_-integer 1 b) (rw (append_assoc, mod-eq_of_lt h))

text_lem :
    (text : List ℕ)
    → length text ≤ max_u32
    → (out : Writer)
    → Writer.raw text (Writer.integer 1 (kind_byte Kind.string) out)
      ≡ ok (append out (5 ∷ (le_bytes 4 (length text) ++ text)))
text_lem text h out = rw (kind_lem Kind.string out, data_-raw text _ h) (rw append_assoc)

text_total : (text : List ℕ) → length (5 ∷ (le_bytes 4 (length text) ++ text)) ≡ 5 + length text
text_total text =
    omega (arith, length-append (le_bytes 4 (length text)) text, length-le_bytes 4 (length text))

text_size :
    (text : List ℕ)
    → length text ≤ max_u32
    → encoded_body Kind.string (Value.string text)
      ≡ ok (length (5 ∷ (le_bytes 4 (length text) ++ text)))
unfolding encoded_body checked_add
text_size text h =
    let fits : ltb (max_size - 5) (length text) ≡ false =
      le→ltb (max_size - 5) (length text) (omega arith) in
    let total : 5 + length text ≡ length (5 ∷ (le_bytes 4 (length text) ++ text)) =
      omega
        (arith, length-append (le_bytes 4 (length text)) text, length-le_bytes 4 (length text)) in
    rw (le→ltb max_u32 (length text) h) (rw fits (ap ok total))

by_factory : (v : Value) → IsValue v → string_size v ≤ max_u32 → Encodes v
unfolding encode_value encode_body encoded_size encoded_body
by_factory v undefined h = record {
  wire = 0 ∷ [];
  is_wire = undefined;
  encoded = λ out. ap ok (kind_lem Kind.undefined out);
  size = refl;
  total = refl;
}
by_factory v (signed_integer z hz) h = record {
  wire = 1 ∷ le_bytes 8 (to_bits z);
  is_wire =
      subst (λ (y : ℤ). Wire (Value.signed_integer y) (1 ∷ le_bytes 8 (to_bits z)))
        (of_bits-to_bits z hz) (signed_integer (to_bits z) (to_bits-lt z hz));
  encoded = λ out. ap ok (rw (of_bits-to_bits z hz) (eight Kind.signed_integer (to_bits z) out));
  size = ap (λ (n : ℕ). ok (suc n)) (sym (length-le_bytes 8 (to_bits z)));
  total = ap suc (length-le_bytes 8 (to_bits z));
}
by_factory v (unsigned_integer n hn) h = record {
  wire = 2 ∷ le_bytes 8 n;
  is_wire = unsigned_integer n hn;
  encoded = λ out. ap ok (eight Kind.unsigned_integer n out);
  size = ap (λ (m : ℕ). ok (suc m)) (sym (length-le_bytes 8 n));
  total = ap suc (length-le_bytes 8 n);
}
by_factory v (real n hn) h = record {
  wire = 3 ∷ le_bytes 8 n;
  is_wire = real n hn;
  encoded = λ out. ap ok (eight Kind.real n out);
  size = ap (λ (m : ℕ). ok (suc m)) (sym (length-le_bytes 8 n));
  total = ap suc (length-le_bytes 8 n);
}
by_factory v (boolean true) h = record {
  wire = 4 ∷ 1 ∷ [];
  is_wire = boolean 1 (omega arith);
  encoded = λ out. ap ok (one_byte Kind.boolean 1 out (omega arith));
  size = refl;
  total = refl;
}
by_factory v (boolean false) h = record {
  wire = 4 ∷ 0 ∷ [];
  is_wire = boolean 0 (omega arith);
  encoded = λ out. ap ok (one_byte Kind.boolean 0 out (omega arith));
  size = refl;
  total = refl;
}
by_factory v (string text) h = record {
  wire = 5 ∷ (le_bytes 4 (length text) ++ text);
  is_wire = string text (omega arith);
  encoded = text_lem text h;
  size = text_size text h;
  total = text_total text;
}
by_factory v (borrowed_string text) h = record {
  wire = 5 ∷ (le_bytes 4 (length text) ++ text);
  is_wire = string text (omega arith);
  encoded = text_lem text h;
  size = text_size text h;
  total = text_total text;
}

-- A sendable value is appended in its wire form, and `encoded_size` gives the length of that.
pub encode_value-Encodes : (v : Value) → IsSendable v → Encodes v
encode_value-Encodes v h = by_factory v h.is_value h.short
