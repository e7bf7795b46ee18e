-- ===== src/Rpc/Convert.antt =====
-- `rpc_backend::converter<T>` of dynabridge/backends/rpc.h, for each `T` that it is specialised
-- for.
pub mod Laws
use dynabridge.Prelude.{
  Bool, List, Option, false, if◌then◌else◌, ltb, none, not, some, true, ℕ, ◌&&◌, ◌-◌, ◌^◌, ◌||◌,
}
use dynabridge.Prelude.Int.{ℤ, pos, negsuc, ltb_ℤ}
use dynabridge.Rpc.Kind.{Kind, kind_eq}
use dynabridge.Rpc.Value
use dynabridge.Rpc.Value.{
  Value, as_signed, as_unsigned, as_real, as_boolean, copy_string, take_string,
}

-- A specialisation. `from` is the overload for `const dynamic_value_t&`, and `from_mutable` the one
-- that a mutable lvalue selects; the latter also gives the value that it leaves.
pub record Converter {ℓ} (T : Type ℓ) : Type ℓ where
  pub probe : Value → Bool
  pub to : T → Value
  pub from : Value → Option T
  pub from_mutable : Value → Option T × Value

-- The limits of `int` and `unsigned`.
abbrev pub int_min : ℤ
int_min = negsuc (2 ^ 31 - 1)

abbrev pub int_max : ℤ
int_max = pos (2 ^ 31 - 1)

abbrev pub unsigned_max : ℕ
unsigned_max = 2 ^ 32 - 1

unfoldable pub int_probe : Value → Bool
int_probe v =
    kind_eq v.kind Kind.signed_integer
    && (not (ltb_ℤ (as_signed v) int_min) && not (ltb_ℤ int_max (as_signed v)))

unfoldable pub int_from : Value → Option ℤ
int_from v =
    if not (kind_eq v.kind Kind.signed_integer)
      || (ltb_ℤ (as_signed v) int_min || ltb_ℤ int_max (as_signed v))
    then none
    else some (as_signed v)

unfoldable pub int_converter : Converter ℤ
unfolding int_probe int_from
int_converter = record {
  probe = int_probe;
  to = Value.signed_integer;
  from = int_from;
  from_mutable = λ v. (int_from v, v);
}

unfoldable pub unsigned_probe : Value → Bool
unsigned_probe v = kind_eq v.kind Kind.unsigned_integer && not (ltb unsigned_max (as_unsigned v))

unfoldable pub unsigned_from : Value → Option ℕ
unsigned_from v =
    if not (kind_eq v.kind Kind.unsigned_integer) || ltb unsigned_max (as_unsigned v)
    then none
    else some (as_unsigned v)

unfoldable pub unsigned_converter : Converter ℕ
unfolding unsigned_probe unsigned_from
unsigned_converter = record {
  probe = unsigned_probe;
  to = Value.unsigned_integer;
  from = unsigned_from;
  from_mutable = λ v. (unsigned_from v, v);
}

unfoldable pub double_probe : Value → Bool
double_probe v = kind_eq v.kind Kind.real

unfoldable pub double_from : Value → Option ℕ
double_from v = if not (kind_eq v.kind Kind.real) then none else some (as_real v)

unfoldable pub double_converter : Converter ℕ
unfolding double_probe double_from
double_converter = record {
  probe = double_probe;
  to = Value.real;
  from = double_from;
  from_mutable = λ v. (double_from v, v);
}

unfoldable pub bool_probe : Value → Bool
bool_probe v = kind_eq v.kind Kind.boolean

unfoldable pub bool_from : Value → Option Bool
bool_from v = if not (kind_eq v.kind Kind.boolean) then none else some (as_boolean v)

unfoldable pub bool_converter : Converter Bool
unfolding bool_probe bool_from
bool_converter = record {
  probe = bool_probe;
  to = Value.boolean;
  from = bool_from;
  from_mutable = λ v. (bool_from v, v);
}

unfoldable pub string_probe : Value → Bool
string_probe v = kind_eq v.kind Kind.string

unfoldable pub string_from : Value → Option (List ℕ)
string_from v = if not (kind_eq v.kind Kind.string) then none else some (copy_string v)

-- The string is moved out of the value, or copied out of a borrowed one.
unfoldable pub string_from_mutable : Value → Option (List ℕ) × Value
string_from_mutable v =
    if not (kind_eq v.kind Kind.string)
    then (none, v)
    else (let (text, rest) = take_string v in (some text, rest))

-- `to` of an lvalue borrows the caller's string.
unfoldable pub string_converter : Converter (List ℕ)
unfolding string_probe string_from string_from_mutable
string_converter = record {
  probe = string_probe;
  to = Value.borrowed_string;
  from = string_from;
  from_mutable = string_from_mutable;
}

-- `to` of an rvalue keeps the string.
unfoldable pub string_converter_owning : Converter (List ℕ)
unfolding string_probe string_from string_from_mutable
string_converter_owning = record {
  probe = string_probe;
  to = Value.string;
  from = string_from;
  from_mutable = string_from_mutable;
}
