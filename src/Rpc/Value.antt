-- ===== src/Rpc/Value.antt =====
-- `class value` of dynabridge/backends/rpc.h. A `double` is the 64 bits of its representation, and
-- a borrowed pointer with its size is the bytes that it covers.
use dynabridge.Prelude.{Bool, List, false, if◌then◌else◌, length, not, true, ℕ, ◌==◌, []}
use dynabridge.Prelude.Int.{ℤ, to_bits, of_bits}
use dynabridge.Rpc.Kind.{Kind}

pub record Value : Type 0 where
  pub kind : Kind
  pub bits : ℕ
  pub text : List ℕ
  pub borrowed_data : List ℕ
  pub borrowed : Bool

-- `value()`
abbrev pub undefined : Value
undefined = record {
  kind = Kind.undefined;
  bits = 0;
  text = [];
  borrowed_data = [];
  borrowed = false;
}

abbrev pub signed_integer : ℤ → Value
signed_integer number = record undefined { kind = Kind.signed_integer; bits = to_bits number }

abbrev pub unsigned_integer : ℕ → Value
unsigned_integer number = record undefined { kind = Kind.unsigned_integer; bits = number }

abbrev pub real : ℕ → Value
real number = record undefined { kind = Kind.real; bits = number }

abbrev pub boolean : Bool → Value
boolean state = record undefined { kind = Kind.boolean; bits = if state then 1 else 0 }

abbrev pub string : List ℕ → Value
string text = record undefined { kind = Kind.string; text = text }

abbrev pub borrowed_string : List ℕ → Value
borrowed_string text = record undefined {
  kind = Kind.string;
  borrowed_data = text;
  borrowed = true;
}

abbrev pub as_signed : Value → ℤ
as_signed v = of_bits v.bits

abbrev pub as_unsigned : Value → ℕ
as_unsigned v = v.bits

abbrev pub as_real : Value → ℕ
as_real v = v.bits

abbrev pub as_boolean : Value → Bool
as_boolean v = not (v.bits == 0)

-- `string_data()` and `string_size()`
abbrev pub string_data : Value → List ℕ
string_data v = if v.borrowed then v.borrowed_data else v.text

abbrev pub string_size : Value → ℕ
string_size v = length (string_data v)

abbrev pub copy_string : Value → List ℕ
copy_string v = if string_size v == 0 then [] else string_data v

-- The string, and the value that is left: moving out of a `std::string` leaves it empty.
abbrev pub take_string : Value → List ℕ × Value
take_string v = if v.borrowed then (copy_string v, v) else (v.text, record v { text = [] })
