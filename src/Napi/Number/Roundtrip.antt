-- ===== src/Napi/Number/Roundtrip.antt =====
-- What a converter to values of JavaScript makes is taken back by the converter from them.
use dynabridge.Prelude.{
  List, Option, arith, length, none, refl, some, take, true, ℕ, ◌-◌, ◌<◌, ◌^◌, ◌∙◌, ◌≡◌,
}
use dynabridge.Prelude.Int.{ℤ}
use dynabridge.Raise.{ok}
use dynabridge.Napi.Number.{
  Reader, Writer, checked, int_from, int_to, string_from, string_to, unsigned_from, unsigned_to,
  whole,
}
use dynabridge.Napi.Number.Range.{from_lem, is_int, is_unsigned, string_from_lem}

-- What Node-API documents of new values: a number is the integer that it is made of, and a string
-- is read as the text that it is made of, as many bytes as fit in front of the zero byte.
pub record IsDocumented {V : Type 0} (from : Reader V) (to : Writer V) : Type 0 where
  pub int : (z : ℤ) (v : V) → to.create_int32 z ≡ some v → from.get_value_double v ≡ some (whole z)
  pub unsigned :
      (z : ℤ) (v : V) → to.create_uint32 z ≡ some v → from.get_value_double v ≡ some (whole z)
  pub string :
      (s : List ℕ) (v : V)
      → to.create_string_utf8 s ≡ some v
      → (from.type_known v ≡ true)
        × (from.is_string v ≡ true)
        × (from.size_probe v ≡ some (length s))
        × ((size : ℕ) → from.get_value_string v size ≡ some (take (size - 1) s))

module _ {V : Type 0} (from : Reader V) (to : Writer V) (h : IsDocumented from to) where
  created : (message : List ℕ) (o : Option V) (v : V) → checked to message o ≡ ok v → o ≡ some v
  unfolding checked
  created message none v e = ground arith
  created message (some w) v e = ground (arith, e)

  pub int_from-int_to :
      (z : ℤ) (v : V) → is_int z ≡ true → int_to to z ≡ ok v → int_from from v ≡ some z
  unfolding int_to
  int_from-int_to z v fit e =
      (from_lem from v).0 ∙ rw (h.int z v (created _ (to.create_int32 z) v e), fit) refl

  pub unsigned_from-unsigned_to :
      (z : ℤ) (v : V)
      → is_unsigned z ≡ true
      → unsigned_to to z ≡ ok v
      → unsigned_from from v ≡ some z
  unfolding unsigned_to
  unsigned_from-unsigned_to z v fit e =
      (from_lem from v).1 ∙ rw (h.unsigned z v (created _ (to.create_uint32 z) v e), fit) refl

  pub string_from-string_to :
      (s : List ℕ) (v : V)
      → length s < 2 ^ 64 - 1
      → string_to to s ≡ ok v
      → string_from from v ≡ ok (some s)
  unfolding string_to
  string_from-string_to s v short e =
      let d = h.string s v (created _ (to.create_string_utf8 s) v e) in
      string_from_lem from v s d.0 d.1 d.2 d.3 short
