-- ===== src/Napi/Context.antt =====
-- `object_t` and `context_t` of dynabridge/backends/napi.h: a reference to a JavaScript object with
-- one owner, and the context of an imported callable, with its caches of handles.
--
-- A value is an object with the handle scope that its handle belongs to; a handle is not to be used
-- in another scope.
pub mod Current
use dynabridge.Prelude.{
  Bool, List, Option, String, false, if◌then◌else◌, none, not, some, suc, true, ℕ, ◌&&◌, ◌==◌, [],
  ◌∷◌,
}
use dynabridge.Prelude.Text.{codes}
use dynabridge.Raise.{Exception, Raise, ok, raised}

pub record Value : Type 0 where
  pub object : ℕ
  pub scope : ℕ

-- The references of the environment: how many have been created and deleted; the open scope; and
-- whether the next calls of `napi_create_reference` and `napi_get_undefined` succeed.
pub record World : Type 0 where
  pub created : ℕ
  pub deleted : ℕ
  pub scope : ℕ
  pub creates : Bool
  pub gets : Bool

abbrev failure {ℓ} : {A : Type ℓ} → String → Raise A
failure message = raised (Exception.std_exception (codes message))

-- `object_t` is the object that its reference is to, or none.
abbrev pub Handle : Type 0
Handle = Option ℕ

-- `object_t::reset`
unfoldable pub reset : Handle → World → Handle × World
reset none w = (none, w)
reset (some o) w = (none, record w { deleted = suc w.deleted })

-- `napi_create_reference` for a value that is not null, which fails where the environment is null;
-- the handle has no reference then.
unfoldable pub refer : Bool → Option Value → World → Raise (Unit {0}) × Handle × World
refer env none w = (ok tt, none, w)
refer env (some v) w =
    if env && w.creates
    then (ok tt, some v.object, record w { created = suc w.created })
    else (failure "napi_create_reference failed", none, w)

-- `object_t::reset` to a value, in an environment or in none.
unfoldable pub reset_to : Bool → Handle → Option Value → World → Raise (Unit {0}) × Handle × World
reset_to env handle value w = let (old, w1) = reset handle w in refer env value w1

-- `object_t::operator=` from another object: the new handle, and what is left of the other.
unfoldable pub move_assign : Handle → Handle → World → Handle × Handle × World
move_assign this other w = let (old, w1) = reset this w in (other, none, w1)

-- `object_t::get`: the new handle belongs to the open scope.
unfoldable pub get : Handle → World → Option Value
get none w = none
get (some o) w = some (record { object = o; scope = w.scope })

-- Whether there is an environment, and the members behind it.
pub record Context : Type 0 where
  pub env : Bool
  pub callable_ : Handle
  pub callable_cache : Option Value
  pub this_arg_cache : Option Value

-- The object `undefined`.
abbrev pub undefined : ℕ
undefined = 0

-- The default constructor.
abbrev pub empty : Context
empty = record { env = false; callable_ = none; callable_cache = none; this_arg_cache = none }

-- `refresh_this_arg`
unfoldable pub refresh_this_arg : Context → World → Raise (Unit {0}) × Context
refresh_this_arg c w =
    if not c.env
    then (ok tt, c)
    else if w.gets
    then (
      ok tt,
      record c { this_arg_cache = some (record { object = undefined; scope = w.scope }) },
    )
    else (failure "napi_get_undefined failed", c)

-- `refresh_callable`
unfoldable pub refresh_callable : Context → World → Context
refresh_callable c w = record c { callable_cache = get c.callable_ w }

-- `refresh`
unfoldable pub refresh : Context → World → Raise (Unit {0}) × Context
refresh c w = refresh_this_arg (refresh_callable c w) w

-- `set_callable`
unfoldable pub set_callable : Context → Option Value → World → Raise (Unit {0}) × Context × World
set_callable c value w =
    let (r, handle, w1) = reset_to c.env c.callable_ value w in
    elim r [
      | ok u ↦ (ok tt, record c { callable_ = handle; callable_cache = value }, w1)
      | raised e ↦ (raised e, record c { callable_ = handle }, w1)
    ]

-- `callable`: the function, and the context then.
unfoldable pub callable : Context → World → Option Value × Context
callable c w = elim c.callable_cache [
  | some v ↦ (some v, c)
  | none ↦ (get c.callable_ w, refresh_callable c w)
]

-- The destructors of the members.
unfoldable pub destroy : Context → World → World
destroy c w = let (old, w1) = reset c.callable_ w in w1

constructed : Context → World → Raise (Unit {0}) × Context → Raise (Unit {0}) × Context × World
constructed c w (ok u, c') = (ok tt, c', w)
constructed c w (raised e, c') = (raised e, empty, destroy c w)

-- The constructor; the members that are there are destroyed if it raises.
unfoldable pub construct : Option Value → World → Raise (Unit {0}) × Context × World
unfolding constructed
construct value w =
    let (r, handle, w1) = refer true value w in
    let c = record empty { env = true; callable_ = handle; callable_cache = value } in
    elim r [ ok u ↦ constructed c w1 (refresh_this_arg c w1) | raised e ↦ (raised e, empty, w1) ]

-- The constructor of a borrowed context, which has no reference.
unfoldable pub construct_borrowed : Option Value → World → Raise (Unit {0}) × Context × World
unfolding constructed
construct_borrowed value w =
    let c = record empty { env = true; callable_cache = value } in
    constructed c w (refresh_this_arg c w)

-- `try_import_callable_impl`, for whether the type of the value is known and is a function: a
-- borrowed context, or nothing.
unfoldable pub try_import_callable :
    Bool → Option Value → World → Option (Raise (Unit {0}) × Context × World)
try_import_callable function none w = none
try_import_callable function (some v) w =
    if function then some (construct_borrowed (some v) w) else none

-- `import_impl` with `import_property`, for what `napi_get_named_property` gives.
unfoldable pub import_impl : Option Value → World → Raise (Unit {0}) × Context × World
import_impl none w = (failure "N-API import lookup failed", empty, w)
import_impl (some v) w = construct (some v) w

-- Move assignment from another context: both of them.
unfoldable pub move_context : Context → Context → World → Context × Context × World
move_context this other w =
    let (handle, left, w1) = move_assign this.callable_ other.callable_ w in
    (
      record other { callable_ = handle },
      record { env = false; callable_ = left; callable_cache = none; this_arg_cache = none },
      w1,
    )

-- What is done with two contexts, the first or the second: they are assigned from a context that is
-- constructed for an object of the open scope, get a new callable in it, are refreshed, give their
-- callable, or are assigned from the other one or from themselves; and a scope is opened, with how
-- the next calls end.
pub data Use : Type 0 where
  makes : Bool → Option ℕ → Use
  sets : Bool → Option ℕ → Use
  refreshes : Bool → Use
  calls : Bool → Use
  assigns : Bool → Bool → Use
  opens : ℕ → Bool → Bool → Use

pub record Contexts : Type 0 where
  pub first : Context
  pub second : Context
  pub world : World

abbrev pub chosen : Bool → Contexts → Context
chosen true s = s.first
chosen false s = s.second

abbrev pub change : Bool → Context → World → Contexts → Contexts
change true c w s = record s { first = c; world = w }
change false c w s = record s { second = c; world = w }

abbrev pub here : Option ℕ → World → Option Value
here none w = none
here (some o) w = some (record { object = o; scope = w.scope })

-- A context is assigned from one that has been constructed, or keeps what it has if that raises.
assign_made : Bool → Contexts → Raise (Unit {0}) × Context × World → Contexts
assign_made which s (raised e, made, w) = record s { world = w }
assign_made which s (ok u, made, w) =
    let (a, left, w1) = move_context (chosen which s) made w in change which a (destroy left w1) s

unfoldable pub apply : Use → Contexts → Contexts
unfolding assign_made
apply (makes which object) s = assign_made which s (construct (here object s.world) s.world)
apply (sets which object) s =
    let (r, c, w) = set_callable (chosen which s) (here object s.world) s.world in
    change which c w s
apply (refreshes which) s =
    let (r, c) = refresh (chosen which s) s.world in change which c s.world s
apply (calls which) s = let (v, c) = callable (chosen which s) s.world in change which c s.world s
apply (assigns which true) s = s
apply (assigns which false) s =
    let (a, b, w) = move_context (chosen which s) (chosen (not which) s) s.world in
    change which a w (change (not which) b w s)
apply (opens scope creates gets) s = record s {
  world = record s.world { scope = scope; creates = creates; gets = gets };
}

unfoldable pub apply_all : List Use → Contexts → Contexts
apply_all [] s = s
apply_all (u ∷ us) s = apply_all us (apply u s)
