-- ===== src/Napi/Number/Range.antt =====
-- Which values of JavaScript the converters accept.
use dynabridge.Prelude.{
  Bool, List, Option, ap, arith, false, if◌then◌else◌, length, ltb, none, refl, some, take, true, ℕ,
  ◌+◌, ◌-◌, ◌<◌, ◌==◌, [], ◌^◌, ◌∙◌, ◌∷◌, ◌≡◌,
}
use dynabridge.Prelude.Int.{negsuc, pos, ℤ}
use dynabridge.Raise.{ok}
use dynabridge.Napi.Number.{
  Double, Reader, between, in_range, int_from, int_max, int_min, not_finite, read_text, string_from,
  unsigned_from, unsigned_max, whole,
}

-- The integer that the value is, if it is one in the range.
abbrev pub the_integer : (ℤ → Bool) → Option Double → Option ℤ
the_integer range none = none
the_integer range (some not_finite) = none
the_integer range (some (between z)) = none
the_integer range (some (whole z)) = if range z then some z else none

-- -2 ^ 31 up to 2 ^ 31 - 1, and 0 up to 2 ^ 32 - 1.
abbrev pub is_int : ℤ → Bool
is_int (pos n) = ltb n (2 ^ 31)
is_int (negsuc n) = ltb n (2 ^ 31)

take-length : (xs : List ℕ) → take (length xs) xs ≡ xs
take-length [] = refl
take-length (x ∷ xs) = ap (◌∷◌ x) (take-length xs)

abbrev pub is_unsigned : ℤ → Bool
is_unsigned (pos n) = ltb n (2 ^ 32)
is_unsigned (negsuc n) = false

range_lem :
    (o : Option Double)
    → (elim o [ none ↦ none | some d ↦ in_range int_min int_max d ]) ≡ the_integer is_int o
unfolding in_range
range_lem none = refl
range_lem (some not_finite) = refl
range_lem (some (between z)) = refl
range_lem (some (whole (pos n))) = ground arith
range_lem (some (whole (negsuc n))) = ground arith

unsigned_range_lem :
    (o : Option Double)
    → (elim o [ none ↦ none | some d ↦ in_range (pos 0) unsigned_max d ])
      ≡ the_integer is_unsigned o
unfolding in_range
unsigned_range_lem none = refl
unsigned_range_lem (some not_finite) = refl
unsigned_range_lem (some (between z)) = refl
unsigned_range_lem (some (whole (pos n))) = ground arith
unsigned_range_lem (some (whole (negsuc n))) = ground arith

module _ {V : Type 0} (js : Reader V) where
  -- The converters of `int` and `unsigned` accept the values that are integers in the range of the
  -- type, and no other, and give the integer.
  pub from_lem :
      (value : V)
      → (int_from js value ≡ the_integer is_int (js.get_value_double value))
        × (unsigned_from js value ≡ the_integer is_unsigned (js.get_value_double value))
  unfolding int_from unsigned_from
  from_lem value =
      (range_lem (js.get_value_double value), unsigned_range_lem (js.get_value_double value))

  -- The buffer of the string converter is large enough: a string is read whole, for a function that
  -- reads as many bytes as fit in front of the zero byte.
  pub string_from_lem :
      (value : V) (text : List ℕ)
      → js.type_known value ≡ true
      → js.is_string value ≡ true
      → js.size_probe value ≡ some (length text)
      → ((size : ℕ) → js.get_value_string value size ≡ some (take (size - 1) text))
      → length text < 2 ^ 64 - 1
      → string_from js value ≡ ok (some text)
  unfolding string_from read_text
  string_from_lem value text k i p r l =
      let small : (length text == 2 ^ 64 - 1) ≡ false = ground arith in
      let one : length text + 1 - 1 ≡ length text = omega arith in
      let e : js.get_value_string value (length text + 1) ≡ some text =
        r (length text + 1) ∙ ap (λ n. some (take n text)) one ∙ ap some (take-length text) in
      rw (k, i, p, small, e) refl
