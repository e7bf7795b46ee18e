-- ===== src/Python/Convert/Making.antt =====
-- What a converter to Python objects comes to, without the counting of references.
use dynabridge.Prelude.{
  Bool-cases, List, arith, if◌then◌else◌, inl, inr, length, ltb, refl, some, ℕ, ◌≡◌,
}
use dynabridge.Prelude.Text.{codes}
use dynabridge.Raise.{Exception, Raise, ok, raised}
use dynabridge.Python.State.{Pointer, Reply, Result, World, acquire, failure, result, ◌>>=◌}
use dynabridge.Python.State.Ledger.{Ends, Gains, ends}
use dynabridge.Python.Call.{converted, receive}
use dynabridge.Python.Call.Effects.{carried, just}
use dynabridge.Python.Convert.{
  Objects, Value, int_to, int_value, not_null, ssize_max, string_to, string_value, to_cast,
  unsigned_to, unsigned_value,
}

abbrev pub fails {ℓ} : {A : Type ℓ} → List ℕ → Raise A
fails message = raised (Exception.std_exception message)

abbrev pub made : List ℕ → Reply → Raise Pointer
made message (result o) = ok (some o)
made message (failure e) = fails message

-- The object that a value becomes, or the exception.
abbrev pub object_of : Objects → Value → Raise Pointer
object_of api (int_value z) =
    made (codes "dynabridge Python int conversion failed") (api.from_long z)
object_of api (unsigned_value z) =
    made (codes "dynabridge Python unsigned conversion failed") (api.from_unsigned_long z)
object_of api (string_value s) =
    if ltb ssize_max (length s)
    then fails (codes "dynabridge Python string is too large")
    else made (codes "dynabridge Python string conversion failed") (api.from_string_and_size s)

-- A result, with the references that it carries, and no other.
abbrev pub Makes : Raise Pointer → World → Result Pointer → World → Type 0
Makes x w r w' = (r ≡ converted x) × Gains (carried just r) w w'

module _ (api : Objects) where
  made-Makes :
      (message : List ℕ) (reply : Reply) (w : World)
      → Ends (Makes (made message reply) w) ((receive reply >>= not_null api message) w)
  unfolding receive not_null acquire converted
  made-Makes message (result o) w = ends (refl, λ p. ground arith)
  made-Makes message (failure e) w = ends (refl, λ p. omega arith)

  pub to_cast-Makes : (v : Value) (w : World) → Ends (Makes (object_of api v) w) (to_cast api v w)
  unfolding to_cast int_to unsigned_to string_to converted
  to_cast-Makes (int_value z) w = made-Makes _ (api.from_long z) w
  to_cast-Makes (unsigned_value z) w = made-Makes _ (api.from_unsigned_long z) w
  to_cast-Makes (string_value s) w = elim (Bool-cases (ltb ssize_max (length s))) [
    | inl e ↦ rw e (ends (refl, λ p. omega arith))
    | inr e ↦ rw e (made-Makes _ (api.from_string_and_size s) w)
  ]
