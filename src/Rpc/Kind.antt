-- ===== src/Rpc/Kind.antt =====
-- `value_kind` of dynabridge/backends/rpc.h, an enumeration over `std::uint8_t`.
use dynabridge.Prelude.{Bool, Option, arith, if◌then◌else◌, none, some, true, ℕ, ◌<◌, ◌==◌, ◌≡◌}

pub data Kind : Type 0 where
  undefined signed_integer unsigned_integer real boolean string : Kind

-- `static_cast<std::uint8_t>(kind)`
abbrev pub kind_byte : Kind → ℕ
kind_byte Kind.undefined = 0
kind_byte Kind.signed_integer = 1
kind_byte Kind.unsigned_integer = 2
kind_byte Kind.real = 3
kind_byte Kind.boolean = 4
kind_byte Kind.string = 5

-- `static_cast<value_kind>(byte)` as a `switch` sees it: `none` is a byte that no case names.
unfoldable pub kind_of : ℕ → Option Kind
kind_of b =
    if b == 0
    then some Kind.undefined
    else if b == 1
    then some Kind.signed_integer
    else if b == 2
    then some Kind.unsigned_integer
    else if b == 3
    then some Kind.real
    else if b == 4
    then some Kind.boolean
    else if b == 5
    then some Kind.string
    else none

-- `kind() == expected`
abbrev pub kind_eq : Kind → Kind → Bool
kind_eq a b = kind_byte a == kind_byte b

pub kind_eq→eq : (a b : Kind) → kind_eq a b ≡ true → a ≡ b
kind_eq→eq a b h = ground arith

pub kind_of-kind_byte : (k : Kind) → kind_of (kind_byte k) ≡ some k
unfolding kind_of
kind_of-kind_byte k = ground arith

pub kind_byte_of : (b : ℕ) {k : Kind} → kind_of b ≡ some k → b ≡ kind_byte k
unfolding kind_of
kind_byte_of b {k} h = ground arith

pub kind_byte-lt : (k : Kind) → kind_byte k < 256
kind_byte-lt k = ground arith
