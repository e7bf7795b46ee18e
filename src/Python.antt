-- ===== src/Python.antt =====
-- The Python backend: here the converters of `int` and `unsigned` from Python objects, of
-- dynabridge/backends/python_converters.h, on an interpreter of version 3.12 or later.
--
-- CPython is a parameter: an object is what the interpreter's functions say of it.
pub mod Instance
pub mod Constructor
pub mod Range
pub mod Convert
pub mod Define
pub mod Handle
pub mod Import
pub mod Storage
pub mod Entry
pub mod Call
pub mod Ref
pub mod Error
pub mod State
use dynabridge.Prelude.{
  Bool, Option, false, if◌then◌else◌, none, not, some, true, ◌&&◌, ◌-◌, ◌^◌, ◌||◌,
}
use dynabridge.Prelude.Int.{ltb_ℤ, negsuc, pos, ℤ}

-- The functions that the converters call. The two conversions give nothing where they overflow or
-- leave an exception set, which the converter clears.
pub record Interpreter (O : Type 0) : Type 0 where
  pub long_check : O → Bool
  pub long_check_exact : O → Bool
  pub is_compact : O → Bool
  pub compact_value : O → ℤ
  pub as_long : O → Option ℤ
  pub as_unsigned_long : O → Option ℤ

abbrev pub int_min : ℤ
int_min = negsuc (2 ^ 31 - 1)

abbrev pub int_max : ℤ
int_max = pos (2 ^ 31 - 1)

abbrev pub unsigned_max : ℤ
unsigned_max = pos (2 ^ 32 - 1)

module _ {O : Type 0} (py : Interpreter O) where
  -- `compact_long_value`
  unfoldable pub compact_long_value : O → Option ℤ
  compact_long_value value =
      if not (py.long_check_exact value)
      then none
      else if py.is_compact value
      then some (py.compact_value value)
      else none

  int_result : ℤ → Option ℤ
  int_result result = if ltb_ℤ result int_min || ltb_ℤ int_max result then none else some result

  -- `converter<int>::from` behind the compact path.
  int_general : O → Option ℤ
  unfolding int_result
  int_general value =
      if not (py.long_check value)
      then none
      else elim (py.as_long value) [ none ↦ none | some result ↦ int_result result ]

  -- `converter<int>::from`
  unfoldable pub int_from : O → Option ℤ
  unfolding int_result int_general
  int_from value = elim (compact_long_value value) [
    | some compact ↦ int_result compact
    | none ↦ int_general value
  ]

  unsigned_compact : ℤ → Option ℤ
  unsigned_compact compact =
      if ltb_ℤ compact (pos 0) || ltb_ℤ unsigned_max compact then none else some compact

  unsigned_result : ℤ → Option ℤ
  unsigned_result result = if ltb_ℤ unsigned_max result then none else some result

  unsigned_general : O → Option ℤ
  unfolding unsigned_result
  unsigned_general value =
      if not (py.long_check value)
      then none
      else elim (py.as_unsigned_long value) [ none ↦ none | some result ↦ unsigned_result result ]

  -- `converter<unsigned>::from`
  unfoldable pub unsigned_from : O → Option ℤ
  unfolding unsigned_compact unsigned_general
  unsigned_from value = elim (compact_long_value value) [
    | some compact ↦ unsigned_compact compact
    | none ↦ unsigned_general value
  ]
