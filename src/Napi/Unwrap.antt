-- ===== src/Napi/Unwrap.antt =====
-- JavaScript objects as receivers and arguments of exported callables, in
-- dynabridge/backends/napi.h: `checked_unwrap_export_object`, `bind_member_export_object` and
-- `try_bind_export_object_impl`, on NAPI_VERSION 8 or later; and `get` of an object argument,
-- dynabridge/export_callable.h.
--
-- An object has one type tag and one wrapped pointer at most: `napi_type_tag_object` fails for an
-- object that has a tag, and `napi_wrap` for one that is wrapped. A constructor of a class may be
-- called, without `new`, on an object that JavaScript chooses.
pub mod Typed
use dynabridge.Prelude.{
  Bool, List, Option, false, if◌then◌else◌, none, not, some, true, ℕ, ◌&&◌, ◌==◌, [], ◌∷◌,
}
use dynabridge.Prelude.Text.{codes}
use dynabridge.Raise.{Exception, Raise, ok, raised}
use dynabridge.Napi.Construction.{Native, Statuses, construct_export_object_from_native, fresh}

-- A wrapped pointer, and the class that it belongs to if it is a C++ object of this library.
pub record Wrapped : Type 0 where
  pub class : Option ℕ
  pub pointer : ℕ

pub record Object : Type 0 where
  pub tag : Option ℕ
  pub wrapped : Option Wrapped

abbrev pub plain : Object
plain = record { tag = none; wrapped = none }

abbrev pub is_none {ℓ} : {A : Type ℓ} → Option A → Bool
is_none none = true
is_none (some a) = false

-- How the calls of the construction end for the object.
abbrev pub statuses_of : Bool → Object → Statuses
statuses_of reference o = record {
  tag = is_none o.tag;
  wrap = is_none o.wrapped;
  reference = reference;
  own_info = true;
  callback_info = true;
  external = true;
  constructor = true;
  calls = true;
  returned_reference = true;
}

-- What `napi_type_tag_object` and `napi_wrap` leave of the object; `napi_wrap` is not called if the
-- first one fails.
tagged : ℕ → ℕ → Object → Object
tagged class pointer o =
    if not (is_none o.tag)
    then o
    else if is_none o.wrapped
    then record {
      tag = some class;
      wrapped = some (record { class = some class; pointer = pointer });
    }
    else record o { tag = some class }

-- The construction of a C++ object of the class for the object.
unfoldable pub construct : ℕ → ℕ → Bool → Object → Raise (Unit {0}) × Native × Object
unfolding tagged
construct class pointer reference o =
    let (r, n) = construct_export_object_from_native (statuses_of reference o) fresh in
    (r, n, tagged class pointer o)

-- `napi_unwrap`
unfoldable pub unwrap : Object → Option ℕ
unwrap o = elim o.wrapped [ none ↦ none | some w ↦ some w.pointer ]

abbrev has_tag : ℕ → Option ℕ → Bool
has_tag class none = false
has_tag class (some tag) = tag == class

-- `checked_unwrap_export_object`, for a value that may be null.
unfoldable pub checked_unwrap_export_object : ℕ → Option Object → Option ℕ
checked_unwrap_export_object class none = none
checked_unwrap_export_object class (some o) = if has_tag class o.tag then unwrap o else none

pub data Policy : Type 0 where
  checked trusted : Policy

-- `bind_member_export_object`
unfoldable pub bind_member_export_object : Policy → ℕ → Option Object → Option ℕ
bind_member_export_object checked class self = checked_unwrap_export_object class self
bind_member_export_object trusted class none = none
bind_member_export_object trusted class (some o) = unwrap o

-- `try_bind_export_object_impl`: the handle of an argument, or nothing.
unfoldable pub try_bind_export_object : ℕ → Option Object → Option ℕ
try_bind_export_object class value = checked_unwrap_export_object class value

-- `export_argument::get`, of the pointer of a handle.
unfoldable pub get : Option ℕ → Raise ℕ
get none =
    raised (Exception.bad_conversion (codes "dynabridge exported object has no bound native proxy"))
get (some proxy) = ok proxy

-- What happens to an object: a class constructs a C++ object for it, or other code wraps a pointer
-- of its own.
pub data Event : Type 0 where
  constructs : ℕ → ℕ → Bool → Event
  wraps : ℕ → Event

unfoldable pub happen : Event → Object → Object
happen (constructs class pointer reference) o = (construct class pointer reference o).2
happen (wraps pointer) o =
    if is_none o.wrapped
    then record o { wrapped = some (record { class = none; pointer = pointer }) }
    else o

unfoldable pub history : List Event → Object → Object
history [] o = o
history (e ∷ es) o = history es (happen e o)
