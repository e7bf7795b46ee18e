-- ===== src/Rpc/Writer.antt =====
-- `class writer` of dynabridge/backends/rpc.h.
pub mod Layout
use dynabridge.Prelude.{
  List, if◌then◌else◌, length, ltb, suc, zero, ℕ, ◌%◌, ◌*◌, ◌+◌, ◌++◌, ◌-◌, ◌/◌, ◌==◌, [], ◌^◌, ◌∷◌,
}
use dynabridge.Prelude.Text.{codes}
use dynabridge.Raise.{Raise, raise_if, protocol_error, ok, ◌>>=◌, ◌>>◌}

-- `std::numeric_limits<std::uint32_t>::max()`
abbrev pub max_u32 : ℕ
max_u32 = 2 ^ 32 - 1

-- `capacity` is what the vector has reserved.
pub record Writer : Type 0 where
  pub capacity : ℕ
  pub data_ : List ℕ

abbrev pub writer : ℕ → Writer
writer capacity = record { capacity = capacity; data_ = [] }

-- The loop of `integer`: `rounds` are left, and `i` is the loop's variable.
-- `static_cast<std::uint8_t>(number >> (i * 8))`
integer_loop : ℕ → ℕ → ℕ → List ℕ → List ℕ
integer_loop zero i number bytes = bytes
integer_loop (suc rounds) i number bytes =
    integer_loop rounds (suc i) number (bytes ++ (number / 2 ^ (i * 8) % 256) ∷ [])

-- `integer<UInt>`, where `width` is `sizeof(UInt)`
pub integer : ℕ → ℕ → Writer → Writer
unfolding integer_loop
integer width number out = record out { data_ = integer_loop width 0 number out.data_ }

pub raw : List ℕ → Writer → Raise Writer
raw text out = do
  raise_if (ltb max_u32 (length text)) (protocol_error (codes "RPC string is too large"))
  let sized = integer 4 (length text) out
  ok (if length text == 0 then sized else record sized { data_ = sized.data_ ++ text })

abbrev pub finish : Writer → List ℕ
finish out = out.data_
