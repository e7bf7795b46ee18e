-- ===== src/Python/Convert.antt =====
-- The converters of dynabridge/backends/python_converters.h to Python objects, and the one of
-- `std::string` from them.
pub mod Making
pub mod Roundtrip
use mathlib.Core.Option
use dynabridge.Prelude.{
  Bool, List, Option, false, if◌then◌else◌, length, ltb, none, not, some, true, ℕ, ◌-◌, [], ◌^◌,
  ◌∷◌,
}
use dynabridge.Prelude.Int.{ℤ}
use dynabridge.Prelude.Text.{codes}
use dynabridge.Raise.{Exception}
use dynabridge.Python.{int_from, unsigned_from}
use dynabridge.Python.State.{
  Error, M, Pointer, Reply, Result, World, no_error, other, pure, returned, thrown, ◌>>=◌,
}
use dynabridge.Python.Call.{receive}

-- The bytes of `PyUnicode_AsUTF8AndSize`, or the exception that it sets.
pub data Utf8 : Type 0 where
  bytes : List ℕ → Utf8
  fails : Error → Utf8

-- The functions that the converters call, beside those on integers.
pub record Objects : Type 0 where
  pub integers : dynabridge.Python.Interpreter ℕ
  pub from_long : ℤ → Reply
  pub from_unsigned_long : ℤ → Reply
  pub from_string_and_size : List ℕ → Reply
  pub unicode_check : ℕ → Bool
  pub as_utf8_and_size : ℕ → Utf8
  pub is_encode_error : Error → Bool

-- The types with a converter, and their values.
pub data Kind : Type 0 where
  int_kind unsigned_kind string_kind : Kind

pub data Value : Type 0 where
  int_value : ℤ → Value
  unsigned_value : ℤ → Value
  string_value : List ℕ → Value

abbrev pub kind_of : Value → Kind
kind_of (int_value z) = int_kind
kind_of (unsigned_value z) = unsigned_kind
kind_of (string_value s) = string_kind

-- The largest `Py_ssize_t`.
abbrev pub ssize_max : ℕ
ssize_max = 2 ^ 63 - 1

module _ (api : Objects) where
  -- The test for null.
  not_null : List ℕ → Pointer → M (Result Pointer)
  not_null message none = pure (thrown (other (Exception.std_exception message)))
  not_null message (some o) = pure (returned (some o))

  -- `converter<int>::to`
  unfoldable pub int_to : ℤ → M (Result Pointer)
  unfolding not_null
  int_to value =
      receive (api.from_long value) >>= not_null (codes "dynabridge Python int conversion failed")

  -- `converter<unsigned>::to`
  unfoldable pub unsigned_to : ℤ → M (Result Pointer)
  unfolding not_null
  unsigned_to value =
      receive (api.from_unsigned_long value)
      >>= not_null (codes "dynabridge Python unsigned conversion failed")

  -- `converter<std::string>::to`
  unfoldable pub string_to : List ℕ → M (Result Pointer)
  unfolding not_null
  string_to value =
      if ltb ssize_max (length value)
      then pure
          (thrown (other (Exception.std_exception (codes "dynabridge Python string is too large"))))
      else (receive (api.from_string_and_size value)
          >>= not_null (codes "dynabridge Python string conversion failed"))

  -- `to_cast`
  unfoldable pub to_cast : Value → M (Result Pointer)
  to_cast (int_value z) = int_to z
  to_cast (unsigned_value z) = unsigned_to z
  to_cast (string_value s) = string_to s

  -- A failure is an overload miss if the string has lone surrogates.
  string_result : Utf8 → M (Result (Option (List ℕ)))
  string_result (bytes text) = pure (returned (some text))
  string_result (fails e) = λ w.
      if api.is_encode_error e
      then some (returned none, record w { error = no_error })
      else some (
        thrown
            (other (Exception.std_exception (codes "dynabridge Python string conversion failed"))),
        record w { error = e },
      )

  -- `converter<std::string>::from`
  unfoldable pub string_from : ℕ → M (Result (Option (List ℕ)))
  unfolding string_result
  string_from value =
      if not (api.unicode_check value)
      then pure (returned none)
      else string_result (api.as_utf8_and_size value)

  string_taken : Result (Option (List ℕ)) → M (Result (Option Value))
  string_taken (returned s) = pure (returned (Option.map string_value s))
  string_taken (thrown t) = pure (thrown t)

  -- `converter<T>::from`
  unfoldable pub from : Kind → ℕ → M (Result (Option Value))
  unfolding string_taken
  from int_kind value = pure (returned (Option.map int_value (int_from api.integers value)))
  from unsigned_kind value =
      pure (returned (Option.map unsigned_value (unsigned_from api.integers value)))
  from string_kind value = string_from value >>= string_taken
