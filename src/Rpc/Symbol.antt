-- ===== src/Rpc/Symbol.antt =====
-- `symbol_id` of dynabridge/backends/rpc.h, the 64-bit FNV-1a hash of a C string: the list is the
-- string's characters, which the terminating zero ends, and so does a zero among them.
use dynabridge.Prelude.{List, arith, bit_xor, if◌then◌else◌, ℕ, ◌%◌, ◌*◌, ◌<◌, ◌==◌, [], ◌^◌, ◌∷◌}

abbrev pub offset_basis : ℕ
offset_basis = 14695981039346656037

abbrev pub prime : ℕ
prime = 1099511628211

symbol_loop : ℕ → List ℕ → ℕ
symbol_loop hash [] = hash
symbol_loop hash (c ∷ name) =
    if c == 0 then hash else symbol_loop (bit_xor hash c * prime % 2 ^ 64) name

unfoldable pub symbol_id : List ℕ → ℕ
unfolding symbol_loop
symbol_id name = symbol_loop offset_basis name

symbol_loop-lt : (hash : ℕ) (name : List ℕ) → hash < 2 ^ 64 → symbol_loop hash name < 2 ^ 64
unfolding symbol_loop
symbol_loop-lt hash [] h = h
symbol_loop-lt hash (c ∷ name) h =
    ground (arith, symbol_loop-lt (bit_xor hash c * prime % 2 ^ 64) name)

pub symbol_id-lt : (name : List ℕ) → symbol_id name < 2 ^ 64
unfolding symbol_id
symbol_id-lt name = symbol_loop-lt offset_basis name (omega arith)
