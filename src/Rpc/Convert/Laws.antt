-- ===== src/Rpc/Convert/Laws.antt =====
-- What the export and import sides rely on in a converter, and that every converter has it.
use dynabridge.Prelude.{
  Bool, List, Option, ap, arith, false, if◌then◌else◌, length, none, refl, some, suc-==_zero, true,
  ℕ, ◌<◌, ◌==◌, [], ◌^◌, ◌∷◌, ◌≡◌, ◌≤◌,
}
use dynabridge.Prelude.Int.{ℤ, pos, negsuc, IsInt64}
use dynabridge.Rpc.Value
use dynabridge.Rpc.Value.{Value, as_signed, string_data}
use dynabridge.Rpc.Writer.{max_u32}
use dynabridge.Rpc.Codec.Wire.{
  IsSendable, owned, signed_integer, unsigned_integer, real, boolean, string, borrowed_string,
}
use dynabridge.Rpc.Convert.{
  Converter, int_converter, unsigned_converter, double_converter, bool_converter, string_converter,
  string_converter_owning, unsigned_max, int_from, string_from, string_from_mutable,
}

abbrev pub is_some {ℓ} : {A : Type ℓ} → Option A → Bool
is_some none = false
is_some (some a) = true

-- `P` is the range of `T`. A probe tells whether the conversion will succeed, the two overloads of
-- `from` agree, and a value of `T` in range gets through the wire unchanged.
pub record IsConverter {ℓ} {T : Type ℓ} (P : T → Type 0) (c : Converter T) : Type ℓ where
  pub probe_exact : (v : Value) → c.probe v ≡ is_some (c.from v)
  pub mutable_agrees : (v : Value) → (c.from_mutable v).0 ≡ c.from v
  pub sendable : (x : T) → P x → IsSendable (c.to x)
  pub through : (x : T) → P x → c.from (owned (c.to x)) ≡ some x

abbrev pub IsInt32 : ℤ → Type 0
IsInt32 (pos n) = n < 2 ^ 31
IsInt32 (negsuc n) = n < 2 ^ 31

Int32-Int64 : (z : ℤ) → IsInt32 z → IsInt64 z
Int32-Int64 (pos n) h = omega arith
Int32-Int64 (negsuc n) h = omega arith

int_through : (z : ℤ) → IsInt32 z → int_from (Value.signed_integer z) ≡ some z
unfolding int_from
int_through (pos n) h = ground arith
int_through (negsuc n) h = ground arith

-- For an `int`: the probe tells whether the conversion succeeds, limits included, both overloads of
-- `from` agree, and every `int` gets through the wire unchanged.
pub int-IsConverter : IsConverter IsInt32 int_converter
unfolding int_converter
int-IsConverter = record {
  probe_exact = λ v. ground arith;
  mutable_agrees = λ v. refl;
  sendable = λ z h. record { is_value = signed_integer z (Int32-Int64 z h); short = omega arith };
  through = int_through;
}

-- For an `unsigned`: the probe tells whether the conversion succeeds, the limit included, both
-- overloads of `from` agree, and every `unsigned` gets through the wire unchanged.
pub unsigned-IsConverter : IsConverter (λ n. n ≤ unsigned_max) unsigned_converter
unfolding unsigned_converter
unsigned-IsConverter = record {
  probe_exact = λ v. ground arith;
  mutable_agrees = λ v. refl;
  sendable = λ n h. record { is_value = unsigned_integer n (omega arith); short = omega arith };
  through = λ n h. ground arith;
}

pub double-IsConverter : IsConverter (λ bits. bits < 2 ^ 64) double_converter
unfolding double_converter
double-IsConverter = record {
  probe_exact = λ v. ground arith;
  mutable_agrees = λ v. refl;
  sendable = λ n h. record { is_value = real n h; short = omega arith };
  through = λ n h. refl;
}

pub bool-IsConverter : IsConverter (λ b. Unit) bool_converter
unfolding bool_converter
bool-IsConverter = record {
  probe_exact = λ v. ground arith;
  mutable_agrees = λ v. refl;
  sendable = λ b h. record { is_value = boolean b; short = omega arith };
  through = λ b h. ground arith;
}

empty_or : (text : List ℕ) → (if length text == 0 then [] else text) ≡ text
empty_or [] = refl
empty_or (c ∷ text) = rw (suc-==_zero (length text))

-- Taking a string gives what copying it gives.
text_agrees : (v : Value) → (string_from_mutable v).0 ≡ string_from v
unfolding string_from_mutable string_from
text_agrees v = ground (arith, empty_or v.text)

-- For a string whose size fits in 32 bits: the probe tells whether the conversion succeeds, copying
-- and taking give the same, and a borrowed string gets through the wire unchanged.
pub string-IsConverter : IsConverter (λ text. length text ≤ max_u32) string_converter
unfolding string_converter
string-IsConverter = record {
  probe_exact = λ v. ground arith;
  mutable_agrees = λ v. text_agrees v;
  sendable = λ text h. record { is_value = borrowed_string text; short = h };
  through = λ text h. ap some (empty_or text);
}

pub string_owning-IsConverter : IsConverter (λ text. length text ≤ max_u32) string_converter_owning
unfolding string_converter_owning
string_owning-IsConverter = record {
  probe_exact = λ v. ground arith;
  mutable_agrees = λ v. text_agrees v;
  sendable = λ text h. record { is_value = string text; short = h };
  through = λ text h. ap some (empty_or text);
}
