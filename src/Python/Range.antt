-- ===== src/Python/Range.antt =====
-- The converters take exactly the Python integers in range, whichever path they go.
use dynabridge.Prelude.{
  Bool, Bool-cases, Option, arith, if◌then◌else◌, inl, inr, none, not, refl, some, true, ◌-◌, ◌^◌,
  ◌||◌, ◌≡◌, ◌⊎◌,
}
use dynabridge.Prelude.Int.{ltb_ℤ, negsuc, pos, ℤ}
use dynabridge.Python.{
  Interpreter, compact_long_value, int_from, int_general, int_max, int_min, int_result,
  unsigned_compact, unsigned_from, unsigned_general, unsigned_max, unsigned_result,
}

abbrev pub is_between : ℤ → ℤ → ℤ → Bool
is_between low high z = not (ltb_ℤ z low || ltb_ℤ high z)

abbrev pub within : ℤ → ℤ → ℤ → Option ℤ
within low high z = if is_between low high z then some z else none

-- What the interpreter documents of its integers: an object of exactly the class is an integer; the
-- compact value of a compact one is its number; and the conversions to 64-bit integers give the
-- number where it fits.
pub record IsDocumented {O : Type 0} (py : Interpreter O) (number : O → ℤ) : Type 0 where
  pub exact : (o : O) → py.long_check_exact o ≡ true → py.long_check o ≡ true
  pub compact :
      (o : O)
      → py.long_check_exact o ≡ true
      → py.is_compact o ≡ true
      → py.compact_value o ≡ number o
  pub long :
      (o : O)
      → py.long_check o ≡ true
      → py.as_long o ≡ within (negsuc (2 ^ 63 - 1)) (pos (2 ^ 63 - 1)) (number o)
  pub unsigned_long :
      (o : O)
      → py.long_check o ≡ true
      → py.as_unsigned_long o ≡ within (pos 0) (pos (2 ^ 64 - 1)) (number o)

module _ {O : Type 0} (py : Interpreter O) (number : O → ℤ) (h : IsDocumented py number)
    (o : O) where
  compact_cases :
      (compact_long_value py o ≡ none)
      ⊎ ((compact_long_value py o ≡ some (number o)) × (py.long_check o ≡ true))
  unfolding compact_long_value
  compact_cases = elim (Bool-cases (py.long_check_exact o)) [
    | inl e ↦ elim (Bool-cases (py.is_compact o)) [
      | inl f ↦ inr (rw (e, f, h.compact o e f) refl, h.exact o e)
      | inr f ↦ inl (rw (e, f) refl)
    ]
    | inr e ↦ inl (rw e refl)
  ]

  -- An `int` is taken from the integers from -2³¹ to 2³¹ - 1, with their number, and from nothing
  -- else.
  pub int_from_lem :
      int_from py o ≡ (if py.long_check o then within int_min int_max (number o) else none)
  unfolding int_from int_general int_result
  int_from_lem = elim compact_cases [
    | inl e ↦
        rw (e, int_from)
          (elim (Bool-cases (py.long_check o)) [
            | inl c ↦ rw (c, h.long o c) (ground arith)
            | inr c ↦ rw c refl
          ])
    | inr (e, c) ↦ rw (e, int_from) (rw c (ground arith))
  ]

  -- An `unsigned` is taken from the integers from 0 to 2³² - 1, with their number, and from nothing
  -- else.
  pub unsigned_from_lem :
      unsigned_from py o
      ≡ (if py.long_check o then within (pos 0) unsigned_max (number o) else none)
  unfolding unsigned_from unsigned_compact unsigned_general unsigned_result
  unsigned_from_lem = elim compact_cases [
    | inl e ↦
        rw (e, unsigned_from)
          (elim (Bool-cases (py.long_check o)) [
            | inl c ↦ rw (c, h.unsigned_long o c) (ground arith)
            | inr c ↦ rw c refl
          ])
    | inr (e, c) ↦ rw (e, unsigned_from) (rw c (ground arith))
  ]
