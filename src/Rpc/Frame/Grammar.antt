-- ===== src/Rpc/Frame/Grammar.antt =====
-- The grammar of request frames.
use dynabridge.Prelude.{List, arith, length, length-append, ℕ, ◌++◌, ◌<◌, [], ◌^◌, ◌∷◌, ◌≡◌, ◌≤◌}
use dynabridge.Rpc.Value.{Value}
use dynabridge.Rpc.Endian.{le_bytes}
use dynabridge.Rpc.Codec.Wire.{
  Wire, undefined, signed_integer, unsigned_integer, real, boolean, string,
}
use dynabridge.Rpc.Frame.{Request, request_magic}

-- Values one behind the other.
pub data WireArgs : List Value → List ℕ → Type 0 where
  nil : WireArgs [] []
  cons :
      {v : Value} {vs : List Value} {enc tail : List ℕ}
      → Wire v enc
      → WireArgs vs tail
      → WireArgs (v ∷ vs) (enc ++ tail)

-- The magic number, the version, the method, the number of arguments, and the arguments.
pub record IsRequest (req : Request) (frame : List ℕ) : Type 0 where
  pub body : List ℕ
  pub is_body : WireArgs req.args body
  pub is_frame :
      frame
      ≡ le_bytes 4 request_magic
        ++ (le_bytes 1 1 ++ (le_bytes 8 req.method ++ (le_bytes 4 (length req.args) ++ body)))
  pub method_lt : req.method < 2 ^ 64
  pub count_lt : length req.args < 2 ^ 32

one-le-Wire : {v : Value} {enc : List ℕ} → Wire v enc → 1 ≤ length enc
one-le-Wire undefined = omega arith
one-le-Wire (signed_integer bits h) = omega arith
one-le-Wire (unsigned_integer n h) = omega arith
one-le-Wire (real bits h) = omega arith
one-le-Wire (boolean b h) = omega arith
one-le-Wire (string text h) = omega arith

-- Every argument takes a byte at least.
pub WireArgs-length : {vs : List Value} {enc : List ℕ} → WireArgs vs enc → length vs ≤ length enc
WireArgs-length nil = omega arith
WireArgs-length (cons {enc = e} {tail = t} w ws) =
    omega (arith, one-le-Wire w, WireArgs-length ws, length-append e t)
