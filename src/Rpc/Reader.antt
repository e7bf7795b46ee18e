-- ===== src/Rpc/Reader.antt =====
-- `class reader` of dynabridge/backends/rpc.h. The reader dereferences a raw pointer: an access
-- outside the frame's bytes is the fault `none`, which a checked vector would report.
pub mod Laws
pub mod Grammar
use dynabridge.Prelude.{
  Bool, List, Option, bit_or, drop, false, get_elem?, if◌then◌else◌, length, ltb, none, not, some,
  suc, true, zero, ℕ, ◌%◌, ◌*◌, ◌-◌, ◌==◌, [], ◌^◌, ◌||◌, ◌∷◌,
}

-- `current` is the bytes from the pointer on to the end of the frame.
pub record Reader : Type 0 where
  pub current : List ℕ
  pub remaining : ℕ
  pub valid : Bool

abbrev pub Read {ℓ} : Type ℓ → Type ℓ
Read A = Reader → Option (A × Reader)

infixl 5 ◌>>=◌ ◌>>◌
abbrev pub ◌>>=◌ {ℓ κ} : {A : Type ℓ} {B : Type κ} → Read A → (A → Read B) → Read B
◌>>=◌ m f r = elim (m r) [ none ↦ none | some (a, r') ↦ f a r' ]

abbrev pub ◌>>◌ {ℓ κ} : {A : Type ℓ} {B : Type κ} → Read A → Read B → Read B
m >> k = m >>= λ _. k

abbrev pub pure {ℓ} : {A : Type ℓ} → A → Read A
pure a r = some (a, r)

abbrev pub reader : List ℕ → Reader
reader frame = record { current = frame; remaining = length frame; valid = true }

abbrev pub empty : Read Bool
empty r = some (r.remaining == 0, r)

abbrev pub is_valid : Read Bool
is_valid r = some (r.valid, r)

abbrev pub invalidate : Read (Unit {0})
invalidate r = some (tt, record r { valid = false })

-- `remaining()`
abbrev pub left : Read ℕ
left r = some (r.remaining, r)

pub require : ℕ → Read Bool
require size r =
    if not r.valid || ltb r.remaining size
    then some (false, record r { valid = false })
    else some (true, r)

-- The two statements that move the reader on.
abbrev pub advance : ℕ → Read (Unit {0})
advance size r =
    some (tt, record r { current = drop size r.current; remaining = r.remaining - size })

-- The loop of `integer`: `result |= static_cast<UInt>(current_[i]) << (i * 8)`
integer_loop : ℕ → ℕ → ℕ → ℕ → Read ℕ
integer_loop width zero i result r = some (result, r)
integer_loop width (suc rounds) i result r = elim (get_elem? r.current i) [
  | none ↦ none
  | some byte ↦
      integer_loop width rounds (suc i) (bit_or result (byte * 2 ^ (i * 8) % 2 ^ (width * 8))) r
]

-- `integer<UInt>`, where `width` is `sizeof(UInt)`
pub integer : ℕ → Read ℕ
integer width = do
  enough ← require width
  if not enough
      then pure 0
      else do result ← integer_loop width width 0 0; advance width; pure result

-- The bytes `[current, current + size)`.
range : ℕ → List ℕ → Option (List ℕ)
range zero bytes = some []
range (suc size) [] = none
range (suc size) (b ∷ bytes) = elim (range size bytes) [ none ↦ none | some bs ↦ some (b ∷ bs) ]

copy_range : ℕ → Read (List ℕ)
copy_range size r = elim (range size r.current) [ none ↦ none | some bs ↦ some (bs, r) ]

-- `raw` after it has read the size.
pub text_of : ℕ → Read (List ℕ)
text_of size = do
  enough ← require size
  if not enough then pure [] else do result ← copy_range size; advance size; pure result

pub raw : Read (List ℕ)
raw = do size ← integer 4; text_of size
