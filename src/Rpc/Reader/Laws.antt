-- ===== src/Rpc/Reader/Laws.antt =====
-- What the reader returns: the little-endian number of the next bytes where they are there, and
-- the invalid reader where they are not.
use mathlib.Core.Path.{subst}
use native.Mathlib.Nat.{pow-le-pow_right, mod-eq_of_lt}
use dynabridge.Prelude.{
  List, ap, arith, bit_or, drop, drop-append, drop-suc, false, get_elem?-drop, length,
  length-append, le→ltb, refl, some, suc, true, ℕ, ◌%◌, ◌*◌, ◌+◌, ◌++◌, ◌-◌, ◌<◌, [], ◌^◌, ◌∙◌, ◌∷◌,
  ◌≡◌, ◌≤◌,
}
use dynabridge.Prelude.Bits.{bit_or_disjoint}
use dynabridge.Rpc.Endian.{
  IsBytes, le_value, le_bytes, le_bytes-IsBytes, length-le_bytes, le_value-le_bytes, pow_byte,
}
use dynabridge.Rpc.Reader.{
  Reader, Read, ◌>>=◌, pure, reader, require, advance, integer_loop, integer, range, copy_range,
  text_of, raw,
}

-- One round of the loop adds the next byte above the digits that are there.
or_byte :
    (width i acc b : ℕ)
    → acc < 2 ^ (i * 8)
    → b < 256
    → i < width
    → bit_or acc (b * 2 ^ (i * 8) % 2 ^ (width * 8)) ≡ acc + b * 2 ^ (i * 8)
or_byte width i acc b ha hb hi =
    let top : 2 ^ (suc i * 8) ≤ 2 ^ (width * 8) = pow-le-pow_right (omega arith) (omega arith) in
    let small : b * 2 ^ (i * 8) < 2 ^ (width * 8) = grind (arith, pow_byte i) in
    rw (mod-eq_of_lt small) (bit_or_disjoint (i * 8) acc b ha)

byte_room : (i acc b : ℕ) → acc < 2 ^ (i * 8) → b < 256 → acc + b * 2 ^ (i * 8) < 2 ^ (suc i * 8)
byte_room i acc b ha hb = rw (pow_byte i) (grind arith)

value_step : (acc b v p : ℕ) → acc + b * p + v * (p * 256) ≡ acc + (b + 256 * v) * p
value_step acc b v p = grind arith

no_more : (acc p : ℕ) → acc + 0 * p ≡ acc
no_more acc p = omega arith

integer_loop_lem :
    (width i acc : ℕ) (xs rest : List ℕ) (r : Reader)
    → drop i r.current ≡ xs ++ rest
    → IsBytes xs
    → acc < 2 ^ (i * 8)
    → i + length xs ≤ width
    → integer_loop width (length xs) i acc r ≡ some (acc + le_value xs * 2 ^ (i * 8), r)
unfolding integer_loop le_value
integer_loop_lem width i acc [] rest r at bytes small fits = rw (no_more acc (2 ^ (i * 8)))
integer_loop_lem width i acc (x ∷ xs) rest r at bytes small fits =
    rw (get_elem?-drop i r.current at, integer_loop)
      (rw (or_byte width i acc x small bytes.0 (omega arith)) (
        rw (
          integer_loop_lem width (suc i) (acc + x * 2 ^ (i * 8)) xs rest r (drop-suc i r.current at)
              bytes.1 (byte_room i acc x small bytes.0) (omega arith),
          pow_byte i,
          value_step acc x (le_value xs) (2 ^ (i * 8)),
        )))

-- One step of a `do` block whose result is known.
pub >>=-some {ℓ κ} :
    {A : Type ℓ} {B : Type κ} (m : Read A) (f : A → Read B) (r : Reader) {a : A} {r' : Reader}
    → m r ≡ some (a, r')
    → (m >>= f) r ≡ f a r'
>>=-some m f r e = rw (e, ◌>>=◌)

module _ (size : ℕ) (r : Reader) where
  pub require_fits : r.valid ≡ true → size ≤ r.remaining → require size r ≡ some (true, r)
  unfolding require
  require_fits v h = rw v (rw (le→ltb r.remaining size h))

  pub require_short : r.remaining < size → require size r ≡ some (false, record r { valid = false })
  unfolding require
  require_short h = ground arith

  require_invalid : r.valid ≡ false → require size r ≡ some (false, record r { valid = false })
  unfolding require
  require_invalid h = ground arith

  -- The reader gives up, and says so, where fewer bytes are left.
  pub integer_short : r.remaining < size → integer size r ≡ some (0, record r { valid = false })
  unfolding integer
  integer_short h = >>=-some (require size) _ r (require_short h)

  -- An invalid reader stays invalid and where it is.
  pub integer_invalid : r.valid ≡ false → integer size r ≡ some (0, record r { valid = false })
  unfolding integer
  integer_invalid h = >>=-some (require size) _ r (require_invalid h)

pub text_of_short :
    (size : ℕ) (r : Reader)
    → r.remaining < size
    → text_of size r ≡ some ([], record r { valid = false })
unfolding text_of
text_of_short size r h = >>=-some (require size) _ r (require_short size r h)

pub text_of_invalid :
    (size : ℕ) (r : Reader)
    → r.valid ≡ false
    → text_of size r ≡ some ([], record r { valid = false })
unfolding text_of
text_of_invalid size r h = >>=-some (require size) _ r (require_invalid size r h)

module _ (xs rest : List ℕ) where
  there : length xs ≤ length (xs ++ rest)
  there = omega (arith, length-append xs rest)

  pub advance_lem : advance (length xs) (reader (xs ++ rest)) ≡ some (tt, reader rest)
  advance_lem =
      let count : length (xs ++ rest) - length xs ≡ length rest =
        omega (arith, length-append xs rest) in
      rw (drop-append xs rest, count)

  pub require_there : require (length xs) (reader (xs ++ rest)) ≡ some (true, reader (xs ++ rest))
  require_there = require_fits (length xs) (reader (xs ++ rest)) refl there

  loop_there :
      IsBytes xs
      → integer_loop (length xs) (length xs) 0 0 (reader (xs ++ rest))
        ≡ some (le_value xs, reader (xs ++ rest))
  loop_there bytes =
      integer_loop_lem (length xs) 0 0 xs rest (reader (xs ++ rest)) refl bytes (omega arith)
        (omega arith)
      ∙ ap (λ (n : ℕ). some (n, reader (xs ++ rest))) (omega arith)

  -- Where the bytes are there, the shifting loop reads their little-endian number.
  pub integer-reader :
      IsBytes xs → integer (length xs) (reader (xs ++ rest)) ≡ some (le_value xs, reader rest)
  unfolding integer
  integer-reader bytes =
      >>=-some (require (length xs)) _ _ require_there
      ∙ >>=-some (integer_loop (length xs) (length xs) 0 0) _ _ (loop_there bytes)
      ∙ >>=-some (advance (length xs)) (λ _. pure (le_value xs)) _ advance_lem

-- What `writer::integer` writes is read back.
pub integer-le_bytes :
    (width n : ℕ) (rest : List ℕ)
    → n < 2 ^ (width * 8)
    → integer width (reader (le_bytes width n ++ rest)) ≡ some (n, reader rest)
integer-le_bytes width n rest h =
    subst (λ w. integer w (reader (le_bytes width n ++ rest)) ≡ some (n, reader rest))
      (length-le_bytes width n)
      (integer-reader (le_bytes width n) rest (le_bytes-IsBytes width n)
        ∙ ap (λ (v : ℕ). some (v, reader rest)) (le_value-le_bytes width n h))

range-append : (xs rest : List ℕ) → range (length xs) (xs ++ rest) ≡ some xs
unfolding range
range-append [] rest = refl
range-append (x ∷ xs) rest = rw (range-append xs rest, range)

copy_range-append :
    (xs rest : List ℕ)
    → copy_range (length xs) (reader (xs ++ rest)) ≡ some (xs, reader (xs ++ rest))
unfolding copy_range
copy_range-append xs rest = rw (range-append xs rest, copy_range)

pub text_of-reader :
    (text rest : List ℕ) → text_of (length text) (reader (text ++ rest)) ≡ some (text, reader rest)
unfolding text_of
text_of-reader text rest =
    >>=-some (require (length text)) _ _ (require_there text rest)
    ∙ >>=-some (copy_range (length text)) _ _ (copy_range-append text rest)
    ∙ >>=-some (advance (length text)) (λ _. pure text) _ (advance_lem text rest)

-- A length-prefixed string is read back, whatever stands behind it.
pub raw-reader :
    (text rest : List ℕ)
    → length text < 2 ^ 32
    → raw (reader (le_bytes 4 (length text) ++ (text ++ rest))) ≡ some (text, reader rest)
unfolding raw
raw-reader text rest h =
    >>=-some (integer 4) text_of _ (integer-le_bytes 4 (length text) (text ++ rest) h)
    ∙ text_of-reader text rest
