-- ===== src/Python/Convert/Roundtrip.antt =====
-- What a converter to Python objects makes is taken back by the converter from them.
use dynabridge.Prelude.{List, some, true, ℕ, [], ◌∷◌, ◌≡◌}
use dynabridge.Prelude.Int.{pos, ℤ}
use dynabridge.Raise.{Exception}
use dynabridge.Python.{int_max, int_min, unsigned_max}
use dynabridge.Python.Range.{is_between, within}
use dynabridge.Python.State.{Pointer, Result, World, other, result, returned, thrown}
use dynabridge.Python.State.Ledger.{Gains}
use dynabridge.Python.Convert.{
  Objects, Value, bytes, from, int_value, kind_of, string_value, unsigned_value,
}

-- What the interpreter documents of new objects: an integer has the number that it is made of, and
-- a string the bytes.
pub record IsDocumented (api : Objects) (number : ℕ → ℤ) : Type 0 where
  pub integers : dynabridge.Python.Range.IsDocumented api.integers number
  pub long :
      (z : ℤ) (o : ℕ)
      → api.from_long z ≡ result o
      → (api.integers.long_check o ≡ true) × (number o ≡ z)
  pub unsigned_long :
      (z : ℤ) (o : ℕ)
      → api.from_unsigned_long z ≡ result o
      → (api.integers.long_check o ≡ true) × (number o ≡ z)
  pub string :
      (s : List ℕ) (o : ℕ)
      → api.from_string_and_size s ≡ result o
      → (api.unicode_check o ≡ true) × (api.as_utf8_and_size o ≡ bytes s)

-- The value is one of its C++ type.
abbrev pub IsTyped : Value → Type 0
IsTyped (int_value z) = is_between int_min int_max z ≡ true
IsTyped (unsigned_value z) = is_between (pos 0) unsigned_max z ≡ true
IsTyped (string_value s) = Unit

-- What `to_cast` comes to: a new object that is taken back, or an exception of the standard
-- library, and no reference.
abbrev pub IsMade : Objects → Value → World → Result Pointer → World → Type 0
IsMade api v w (returned p) w' =
    (o : ℕ) × (p ≡ some o)
    × Gains (some o ∷ []) w w'
    × (from api (kind_of v) o w' ≡ some (returned (some v), w'))
IsMade api v w (thrown t) w' =
    (m : List ℕ) × (t ≡ other (Exception.std_exception m)) × Gains [] w w'
