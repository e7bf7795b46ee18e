-- ===== src/Prelude/Int.antt =====
-- Signed integers over the native numbers, and their two's complement in 64 bits.
use Prim.Native.Nat.{ℕ, suc, ◌+◌, ◌-◌, ◌^◌, ◌<◌, ◌≤◌}
use mathlib.Core.Path.{◌≡◌}
use mathlib.Core.Bool.{Bool}
use native.Mathlib.Omega.{arith}
use dynabridge.Prelude.Tests.{ltb, if◌then◌else◌}

-- `negsuc n` is -(n + 1).
pub data ℤ : Type 0 where
  pos : ℕ → ℤ
  negsuc : ℕ → ℤ

abbrev pub pos_part : ℤ → ℕ
pos_part (pos n) = n
pos_part (negsuc n) = 0

abbrev pub neg_part : ℤ → ℕ
neg_part (pos n) = 0
neg_part (negsuc n) = suc n

infix 50 ◌≤ℤ◌
abbrev pub ◌≤ℤ◌ : ℤ → ℤ → Type 0
a ≤ℤ b = pos_part a + neg_part b ≤ pos_part b + neg_part a

abbrev pub ltb_ℤ : ℤ → ℤ → Bool
ltb_ℤ a b = ltb (pos_part a + neg_part b) (pos_part b + neg_part a)

-- The bits of an `int64_t`, and the number that 64 bits stand for.
abbrev pub to_bits : ℤ → ℕ
to_bits (pos n) = n
to_bits (negsuc n) = 2 ^ 64 - suc n

abbrev pub of_bits : ℕ → ℤ
of_bits w = if ltb w (2 ^ 63) then pos w else negsuc (2 ^ 64 - suc w)

abbrev pub IsInt64 : ℤ → Type 0
IsInt64 (pos n) = n < 2 ^ 63
IsInt64 (negsuc n) = n < 2 ^ 63

pub of_bits-to_bits : (z : ℤ) → IsInt64 z → of_bits (to_bits z) ≡ z
of_bits-to_bits (pos n) h = ground arith
of_bits-to_bits (negsuc n) h = ground arith

pub to_bits-of_bits : (w : ℕ) → w < 2 ^ 64 → to_bits (of_bits w) ≡ w
to_bits-of_bits w h = ground arith

pub to_bits-lt : (z : ℤ) → IsInt64 z → to_bits z < 2 ^ 64
to_bits-lt (pos n) h = omega arith
to_bits-lt (negsuc n) h = omega arith

pub of_bits-IsInt64 : (w : ℕ) → w < 2 ^ 64 → IsInt64 (of_bits w)
of_bits-IsInt64 w h = ground arith
