-- ===== src/Prelude/Bits.antt =====
-- `bit_or` of numbers that share no digit is their sum.
use Prim.Native.Nat.{
  ℕ, zero, suc, ◌+◌, ◌*◌, ◌/◌, ◌%◌, ◌^◌, ◌≤◌, ◌<◌, max, min, bit_and, bit_or, digits,
  bit_and-bitwise, bit_or-bitwise, ◌-◌,
}
use mathlib.Core.Path.{◌≡◌, refl, ap, ◌∙◌}
use native.Mathlib.Nat.{pow-suc, mul-one}
use native.Mathlib.Omega.{arith}

-- A count of digits that is not below the number is enough, for every operation on digits.
fuel_enough :
    (run_out : ℕ → ℕ) (op : ℕ → ℕ → ℕ) (k l m n : ℕ)
    → m ≤ k
    → m ≤ l
    → digits run_out op k m n ≡ digits run_out op l m n
fuel_enough run_out op zero zero m n p q = refl
fuel_enough run_out op (suc k) (suc l) zero n p q = refl
fuel_enough run_out op zero (suc l) zero n p q = refl
fuel_enough run_out op (suc k) zero zero n p q = refl
fuel_enough run_out op (suc k) (suc l) (suc m) n p q =
    let half = suc m / 2 in
    let rest = fuel_enough run_out op k l half (n / 2) (omega arith) (omega arith) in
    ap (λ d. d * 2 + op (suc m % 2) (n % 2)) rest
fuel_enough run_out op zero l (suc m) n p q = absurd (omega arith)
fuel_enough run_out op (suc k) zero (suc m) n p q = absurd (omega arith)

halved : (m : ℕ) → suc m / 2 ≤ m
halved m = omega arith

pub zero-bit_or : (n : ℕ) → bit_or 0 n ≡ n
zero-bit_or n = bit_or-bitwise 0 n

zero-bit_and : (n : ℕ) → bit_and 0 n ≡ 0
zero-bit_and n = bit_and-bitwise 0 n

-- The laws for the lowest digit.
pub bit_or_step : (m n : ℕ) → bit_or m n ≡ max (m % 2) (n % 2) + bit_or (m / 2) (n / 2) * 2
bit_or_step (suc m) n =
    let enough =
      fuel_enough (λ d. d) max m (suc m / 2) (suc m / 2) (n / 2) (halved m) (omega arith) in
    omega (arith, bit_or-bitwise (suc m) n, bit_or-bitwise (suc m / 2) (n / 2), enough)
bit_or_step zero n = omega (arith, zero-bit_or n, zero-bit_or (n / 2))

bit_and_step : (m n : ℕ) → bit_and m n ≡ min (m % 2) (n % 2) + bit_and (m / 2) (n / 2) * 2
bit_and_step (suc m) n =
    let enough =
      fuel_enough (λ d. zero) min m (suc m / 2) (suc m / 2) (n / 2) (halved m) (omega arith) in
    omega (arith, bit_and-bitwise (suc m) n, bit_and-bitwise (suc m / 2) (n / 2), enough)
bit_and_step zero n = omega (arith, zero-bit_and n, zero-bit_and (n / 2))

double : (b p : ℕ) → b * (p * 2) ≡ b * p * 2
double b p = grind arith

-- Where `a` is below the lowest digit of the other number.
pub bit_or_disjoint : (k a b : ℕ) → a < 2 ^ k → bit_or a (b * 2 ^ k) ≡ a + b * 2 ^ k
bit_or_disjoint zero zero b h = rw zero-bit_or (omega arith)
bit_or_disjoint zero (suc a) b h = absurd (omega arith)
bit_or_disjoint (suc k) a b h =
    let e : 2 ^ suc k ≡ 2 ^ k * 2 = pow-suc 2 k in
    let f : b * 2 ^ suc k ≡ b * 2 ^ k * 2 = rw e (double b (2 ^ k)) in
    let r : bit_or (a / 2) (b * 2 ^ k) ≡ a / 2 + b * 2 ^ k =
      bit_or_disjoint k (a / 2) b (omega (arith, e)) in
    let d : b * 2 ^ k * 2 / 2 ≡ b * 2 ^ k = omega arith in
    rw f (rw (bit_or_step a (b * 2 ^ k * 2), d, r) (omega arith))

pub one-le-pow : (m : ℕ) → 1 ≤ 2 ^ m
one-le-pow zero = omega arith
one-le-pow (suc m) = omega (arith, pow-suc 2 m, one-le-pow m)

pub pow_split : (k m n : ℕ) → k + m ≡ n → 2 ^ n ≡ 2 ^ m * 2 ^ k
pow_split zero m n h = let e : n ≡ m = omega arith in rw e (omega arith)
pow_split (suc k) m zero h = absurd (omega arith)
pow_split (suc k) m (suc n) h =
    let e : 2 ^ suc n ≡ 2 ^ n * 2 = pow-suc 2 n in
    let f : 2 ^ suc k ≡ 2 ^ k * 2 = pow-suc 2 k in
    let g : 2 ^ n ≡ 2 ^ m * 2 ^ k = pow_split k m n (omega arith) in
    rw (e, f, g, double (2 ^ m) (2 ^ k)) refl

-- All digits of a number are kept.
bit_and_ones : (m x : ℕ) → x < 2 ^ m → bit_and x (2 ^ m - 1) ≡ x
bit_and_ones zero zero h = zero-bit_and (2 ^ 0 - 1)
bit_and_ones zero (suc x) h = absurd (omega arith)
bit_and_ones (suc m) x h =
    let e : 2 ^ suc m ≡ 2 ^ m * 2 = pow-suc 2 m in
    let p : 1 ≤ 2 ^ m = one-le-pow m in
    let q : (2 ^ suc m - 1) / 2 ≡ 2 ^ m - 1 = omega (arith, e, p) in
    let r : bit_and (x / 2) (2 ^ m - 1) ≡ x / 2 = bit_and_ones m (x / 2) (omega (arith, e)) in
    rw (bit_and_step x (2 ^ suc m - 1), q, r) (omega (arith, e, p))

double_suc : (b k : ℕ) → b * 2 ^ suc k ≡ b * 2 ^ k * 2
double_suc b k = let e : 2 ^ suc k ≡ 2 ^ k * 2 = pow-suc 2 k in rw e (double b (2 ^ k))

abbrev pub Clears : ℕ → ℕ → ℕ → ℕ → Type 0
Clears k m x q =
    (bit_and x ((2 ^ m - 1) * 2 ^ k) ≡ q * 2 ^ k) × (q * 2 ^ k ≤ x) × (x < q * 2 ^ k + 2 ^ k)

Clears-suc : (k m x q : ℕ) → Clears k m (x / 2) q → Clears (suc k) m x q
Clears-suc k m x q (e, l, u) =
    let n : (2 ^ m - 1) * 2 ^ suc k ≡ (2 ^ m - 1) * 2 ^ k * 2 = double_suc (2 ^ m - 1) k in
    let d : (2 ^ m - 1) * 2 ^ k * 2 / 2 ≡ (2 ^ m - 1) * 2 ^ k = omega arith in
    let t : q * 2 ^ suc k ≡ q * 2 ^ k * 2 = double_suc q k in
    let f : 2 ^ suc k ≡ 2 ^ k * 2 = pow-suc 2 k in
    (
      rw (n, bit_and_step x ((2 ^ m - 1) * 2 ^ k * 2), d, e) (omega (arith, t)),
      omega (arith, t, l),
      omega (arith, t, f, u),
    )

bit_and_clear-suc : (k m x : ℕ) → (q : ℕ) × Clears k m (x / 2) q → (q : ℕ) × Clears (suc k) m x q
bit_and_clear-suc k m x (q, h) = (q, Clears-suc k m x q h)

-- The digits below the place `k` are cleared: what is left is the greatest multiple of `2 ^ k`
-- that is not greater.
pub bit_and_clear : (k m x : ℕ) → x < 2 ^ m * 2 ^ k → (q : ℕ) × Clears k m x q
bit_and_clear zero m x h = (
  x,
  (
    rw (mul-one (2 ^ m - 1)) (bit_and_ones m x (omega arith) ∙ omega arith),
    omega arith,
    omega arith,
  ),
)
bit_and_clear (suc k) m x h =
    bit_and_clear-suc k m x (bit_and_clear k m (x / 2) (omega (arith, double_suc (2 ^ m) k)))
