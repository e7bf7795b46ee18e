-- ===== src/Python/Storage.antt =====
-- Where a C++ object stands in the memory of its Python object: `export_instance_storage` and the
-- size that `make_export_class_type` gives to the class, in dynabridge/backends/python.h.
use Prim.Native.Nat.{bit_and}
use native.Mathlib.Nat.{suc-mul}
use dynabridge.Prelude.{
  arith, if◌then◌else◌, ltb, refl, suc, zero, ℕ, ◌%◌, ◌*◌, ◌+◌, ◌-◌, ◌<◌, ◌^◌, ◌∙◌, ◌≡◌, ◌≤◌,
}
use dynabridge.Prelude.Int.{ℤ, negsuc, pos}
use dynabridge.Prelude.Bits.{Clears, bit_and_clear, one-le-pow, pow_split}

-- `export_instance_storage`, for an address in 64 bits: where the memory behind the header begins,
-- and the alignment of the class.
unfoldable pub export_instance_storage : ℕ → ℕ → ℕ
export_instance_storage begin alignment =
    bit_and ((begin + alignment - 1) % 2 ^ 64) (2 ^ 64 - 1 - (alignment - 1))

-- `static_cast<int>` of a number of 64 bits: its lower 32 bits with their sign.
unfoldable pub to_int : ℕ → ℤ
to_int n = let low = n % 2 ^ 32 in if ltb low (2 ^ 31) then pos low else negsuc (2 ^ 32 - 1 - low)

-- The `basicsize` of the class, for the sizes of the header and of the C++ class.
unfoldable pub basic_size : ℕ → ℕ → ℕ → ℤ
basic_size header size alignment = to_int ((header + size + alignment - 1) % 2 ^ 64)

basic_size-small :
    (header size alignment : ℕ)
    → header + size + alignment - 1 < 2 ^ 31
    → basic_size header size alignment ≡ pos (header + size + alignment - 1)
unfolding basic_size to_int
basic_size-small header size alignment h = ground arith

predecessor_mul : (n a : ℕ) → 1 ≤ n → (n - 1) * a + a ≡ n * a
predecessor_mul zero a h = absurd (omega arith)
predecessor_mul (suc n) a h = let e : suc n - 1 ≡ n = omega arith in rw (e, suc-mul n a) refl

export_instance_storage_lem :
    (k m begin : ℕ)
    → k + m ≡ 64
    → begin + 2 ^ k - 1 < 2 ^ 64
    → export_instance_storage begin (2 ^ k) ≡ bit_and (begin + 2 ^ k - 1) ((2 ^ m - 1) * 2 ^ k)
unfolding export_instance_storage
export_instance_storage_lem k m begin e below =
    let p = one-le-pow k in
    let wide : 2 ^ 64 ≡ 2 ^ m * 2 ^ k = pow_split k m 64 e in
    let whole : (begin + 2 ^ k - 1) % 2 ^ 64 ≡ begin + 2 ^ k - 1 = omega (arith, below) in
    let mask : 2 ^ 64 - 1 - (2 ^ k - 1) ≡ (2 ^ m - 1) * 2 ^ k =
      omega (arith, wide, p, predecessor_mul (2 ^ m) (2 ^ k) (one-le-pow m)) in
    rw (whole, mask) refl

-- A multiple of the alignment, behind the header, from which the object ends within the memory.
abbrev pub IsWithin : ℕ → ℕ → ℕ → ℕ → ℕ → Type 0
IsWithin storage k instance header size =
    (q : ℕ) × (storage ≡ q * 2 ^ k)
    × (instance + header ≤ storage)
    × (n : ℕ) × (basic_size header size (2 ^ k) ≡ pos n)
    × (storage + size ≤ instance + n)

within :
    (k m instance header size storage : ℕ)
    → storage ≡ bit_and (instance + header + 2 ^ k - 1) ((2 ^ m - 1) * 2 ^ k)
    → (q : ℕ) × Clears k m (instance + header + 2 ^ k - 1) q
    → header + size + 2 ^ k - 1 < 2 ^ 31
    → IsWithin storage k instance header size
within k m instance header size storage e (q, (c, l, u)) small =
    let p = one-le-pow k in
    (
      q,
      e ∙ c,
      omega (arith, e, c, u, p),
      header + size + 2 ^ k - 1,
      basic_size-small header size (2 ^ k) small,
      omega (arith, e, c, l, p),
    )

-- The C++ object stands behind the header, at a multiple of the alignment of its class, and ends
-- within the memory of the Python object: for a power of two as the alignment, a class of one byte
-- at least, whose size with the header and the alignment is below 2 ^ 31, so that the cast to
-- `int` keeps it, and a Python object that ends within the 64-bit addresses.
pub export_instance_storage-IsWithin :
    (k m instance header size : ℕ)
    → k + m ≡ 64
    → 1 ≤ size
    → header + size + 2 ^ k - 1 < 2 ^ 31
    → instance + (header + size + 2 ^ k - 1) ≤ 2 ^ 64
    → IsWithin (export_instance_storage (instance + header) (2 ^ k)) k instance header size
export_instance_storage-IsWithin k m instance header size e s small h =
    let p = one-le-pow k in
    let wide : 2 ^ 64 ≡ 2 ^ m * 2 ^ k = pow_split k m 64 e in
    let below : instance + header + 2 ^ k - 1 < 2 ^ 64 = omega (arith, p, s, h) in
    within k m instance header size _ (export_instance_storage_lem k m (instance + header) e below)
      (bit_and_clear k m (instance + header + 2 ^ k - 1) (omega (arith, below, wide))) small
