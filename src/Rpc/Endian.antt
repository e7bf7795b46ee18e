-- ===== src/Rpc/Endian.antt =====
-- Little-endian numbers as lists of bytes, a description of the wire form that does not mention
-- shifts: the loops of `writer::integer` and `reader::integer` are proved equal to it.
use native.Mathlib.Nat.{pow-suc}
use native.Mathlib.Numerals.{towards_suc}
use dynabridge.Prelude.{
  All, List, ap, arith, length, refl, suc, zero, ℕ, ◌%◌, ◌*◌, ◌+◌, ◌/◌, ◌<◌, [], ◌^◌, ◌∷◌, ◌≡◌,
}

abbrev pub IsByte : ℕ → Type 0
IsByte b = b < 256

abbrev pub IsBytes : List ℕ → Type 0
IsBytes = All IsByte

-- `w` bytes of `n`, the lowest first.
unfoldable pub le_bytes : ℕ → ℕ → List ℕ
le_bytes zero n = []
le_bytes (suc w) n = (n % 256) ∷ le_bytes w (n / 256)

unfoldable pub le_value : List ℕ → ℕ
le_value [] = 0
le_value (b ∷ bs) = b + 256 * le_value bs

pub length-le_bytes : (w n : ℕ) → length (le_bytes w n) ≡ w
unfolding le_bytes le_value
length-le_bytes zero n = refl
length-le_bytes (suc w) n = ap suc (length-le_bytes w (n / 256))

pub le_bytes-IsBytes : (w n : ℕ) → IsBytes (le_bytes w n)
unfolding le_bytes le_value
le_bytes-IsBytes zero n = tt
le_bytes-IsBytes (suc w) n = (omega arith, le_bytes-IsBytes w (n / 256))

pub pow_byte : (i : ℕ) → 2 ^ (suc i * 8) ≡ 2 ^ (i * 8) * 256
pow_byte i =
    let e : suc i * 8 ≡ i * 8 + 8 = omega arith in
    rw e (simp towards_suc (simp pow-suc (omega arith)))

pub le_value-le_bytes : (w n : ℕ) → n < 2 ^ (w * 8) → le_value (le_bytes w n) ≡ n
unfolding le_bytes le_value
le_value-le_bytes zero n h = omega arith
le_value-le_bytes (suc w) n h =
    omega (arith, le_value-le_bytes w (n / 256) (omega (arith, pow_byte w)))

pub le_bytes-le_value : (bs : List ℕ) → IsBytes bs → le_bytes (length bs) (le_value bs) ≡ bs
unfolding le_bytes le_value
le_bytes-le_value [] h = refl
le_bytes-le_value (b ∷ bs) h =
    let low : (b + 256 * le_value bs) % 256 ≡ b = omega arith in
    let high : (b + 256 * le_value bs) / 256 ≡ le_value bs = omega arith in
    rw (low, high, le_bytes-le_value bs h.1)

pub le_value-lt : (bs : List ℕ) → IsBytes bs → le_value bs < 2 ^ (length bs * 8)
unfolding le_bytes le_value
le_value-lt [] h = omega arith
le_value-lt (b ∷ bs) h = omega (arith, le_value-lt bs h.1, pow_byte (length bs))
