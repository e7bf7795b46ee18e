-- ===== src/Rpc/Writer/Layout.antt =====
-- What the writer appends, in terms of the wire form of dynabridge.Rpc.Endian.
use native.Mathlib.Nat.{div-div-eq-div-mul, div-one}
use dynabridge.Prelude.{
  List, append-nil, append_assoc, length, le→ltb, suc, suc-==_zero, zero, ℕ, ◌*◌, ◌++◌, ◌/◌, [],
  ◌^◌, ◌∷◌, ◌≡◌, ◌≤◌,
}
use dynabridge.Raise.{ok}
use dynabridge.Rpc.Endian.{le_bytes, pow_byte}
use dynabridge.Rpc.Writer.{Writer, max_u32, integer_loop, integer, raw}

integer_loop-le_bytes :
    (rounds i number : ℕ) (bytes : List ℕ)
    → integer_loop rounds i number bytes ≡ bytes ++ le_bytes rounds (number / 2 ^ (i * 8))
unfolding integer_loop le_bytes
integer_loop-le_bytes zero i number bytes = rw append-nil
integer_loop-le_bytes (suc rounds) i number bytes =
    let shifted : number / 2 ^ (suc i * 8) ≡ number / 2 ^ (i * 8) / 256 =
      rw (pow_byte i, div-div-eq-div-mul number (2 ^ (i * 8)) 256) in
    rw (integer_loop-le_bytes rounds (suc i) number _, shifted, append_assoc)

-- The shifting loop appends the little-endian bytes of the number.
pub data_-integer :
    (width number : ℕ) (out : Writer)
    → integer width number out ≡ record out { data_ = out.data_ ++ le_bytes width number }
unfolding integer
data_-integer width number out = rw (integer_loop-le_bytes width 0 number out.data_, div-one number)

pub data_-raw :
    (text : List ℕ) (out : Writer)
    → length text ≤ max_u32
    → raw text out ≡ ok (record out { data_ = out.data_ ++ (le_bytes 4 (length text) ++ text) })
unfolding raw le_bytes
data_-raw [] out h = rw (data_-integer 4 0 out)
data_-raw (x ∷ text) out h =
    rw
      (
        le→ltb max_u32 (length (x ∷ text)) h,
        suc-==_zero (length text),
        data_-integer 4 (length (x ∷ text)) out,
      )
      (rw append_assoc)
