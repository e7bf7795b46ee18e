-- ===== src/Napi/Number.antt =====
-- The converters of `int`, `unsigned` and `std::string` from and to values of JavaScript, in
-- dynabridge/backends/napi_converters.h.
--
-- A `double` is what the tests of the converters say of it: it is not finite, it lies between two
-- integers, of which the lower one is given, or it is an integer. Node-API is a parameter.
pub mod Range
pub mod Roundtrip
use dynabridge.Prelude.{
  Bool, List, Option, false, if◌then◌else◌, length, none, not, some, suc, take, true, ℕ, ◌+◌, ◌-◌,
  ◌==◌, ◌^◌, ◌||◌,
}
use dynabridge.Prelude.Int.{ltb_ℤ, negsuc, pos, ℤ}
use dynabridge.Prelude.Text.{codes}
use dynabridge.Raise.{Exception, Raise, ok, raised}

pub data Double : Type 0 where
  not_finite : Double
  between : ℤ → Double
  whole : ℤ → Double

abbrev pub int_min : ℤ
int_min = negsuc (2 ^ 31 - 1)

abbrev pub int_max : ℤ
int_max = pos (2 ^ 31 - 1)

abbrev pub unsigned_max : ℤ
unsigned_max = pos (2 ^ 32 - 1)

in_range : ℤ → ℤ → Double → Option ℤ
in_range low high not_finite = none
in_range low high (between z) = none
in_range low high (whole z) = if ltb_ℤ z low || ltb_ℤ high z then none else some z

-- What the functions of Node-API say of a value: its number, unless `napi_get_value_double` fails;
-- whether its type is known, and whether it is a string; and its text in UTF-8, unless reading it
-- fails.
pub record Reader (V : Type 0) : Type 0 where
  pub get_value_double : V → Option Double
  pub type_known : V → Bool
  pub is_string : V → Bool
  pub size_probe : V → Option ℕ
  pub get_value_string : V → ℕ → Option (List ℕ)

module _ {V : Type 0} (js : Reader V) where
  -- `converter<int>::from`
  unfoldable pub int_from : V → Option ℤ
  unfolding in_range
  int_from value = elim (js.get_value_double value) [
    | none ↦ none
    | some d ↦ in_range int_min int_max d
  ]

  -- `converter<unsigned>::from`
  unfoldable pub unsigned_from : V → Option ℤ
  unfolding in_range
  unsigned_from value = elim (js.get_value_double value) [
    | none ↦ none
    | some d ↦ in_range (pos 0) unsigned_max d
  ]

  -- The text that is read into a buffer of the size and one more byte.
  read_text : V → ℕ → Raise (Option (List ℕ))
  read_text value size =
      if size == 2 ^ 64 - 1
      then raised (Exception.std_exception (codes "dynabridge N-API string is too large"))
      else elim (js.get_value_string value (size + 1)) [
        | none ↦ raised (Exception.std_exception (codes "napi_get_value_string_utf8 failed"))
        | some text ↦ ok (some text)
      ]

  -- `converter<std::string>::from`
  unfoldable pub string_from : V → Raise (Option (List ℕ))
  unfolding read_text
  string_from value =
      if not (js.type_known value)
      then raised (Exception.std_exception (codes "napi_typeof failed during string conversion"))
      else if not (js.is_string value)
      then ok none
      else elim (js.size_probe value) [
        | none ↦
            raised (Exception.std_exception (codes "napi_get_value_string_utf8 size probe failed"))
        | some size ↦ read_text value size
      ]

-- The functions of Node-API that make values, which are null where they fail.
pub record Writer (V : Type 0) : Type 0 where
  pub create_int32 : ℤ → Option V
  pub create_uint32 : ℤ → Option V
  pub create_string_utf8 : List ℕ → Option V

module _ {V : Type 0} (js : Writer V) where
  checked : List ℕ → Option V → Raise V
  checked message none = raised (Exception.std_exception message)
  checked message (some v) = ok v

  -- `converter<int>::to`
  unfoldable pub int_to : ℤ → Raise V
  unfolding checked
  int_to value = checked (codes "napi_create_int32 failed") (js.create_int32 value)

  -- `converter<unsigned>::to`
  unfoldable pub unsigned_to : ℤ → Raise V
  unfolding checked
  unsigned_to value = checked (codes "napi_create_uint32 failed") (js.create_uint32 value)

  -- `converter<std::string>::to`
  unfoldable pub string_to : List ℕ → Raise V
  unfolding checked
  string_to value = checked (codes "napi_create_string_utf8 failed") (js.create_string_utf8 value)
