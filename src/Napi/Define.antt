-- ===== src/Napi/Define.antt =====
-- The registration of functions and classes in dynabridge/backends/napi.h: `make_function_impl`,
-- `make_member_function`, `define_impl` and `define_class_impl`, with the holders that JavaScript
-- functions keep alive.
pub mod Release
use dynabridge.Prelude.{Bool, String, false, if◌then◌else◌, not, suc, true, ℕ}
use dynabridge.Prelude.Text.{codes}
use dynabridge.Raise.{Exception, Raise, ok, raised}
use dynabridge.Napi.Reference.{Reference, absent, make}

-- A holder, or the state of a class: whether a finalizer of a JavaScript function will delete it,
-- and how often it has been deleted.
pub record Holder : Type 0 where
  pub attached : Bool
  pub deleted : ℕ

abbrev pub fresh : Holder
fresh = record { attached = false; deleted = 0 }

-- Which calls return `napi_ok`: the creation of the function or the class, its finalizer, the
-- lookups of the constructor and the prototype of a class, the property, and the reference to the
-- constructor with its hook.
pub record Statuses : Type 0 where
  pub creation : Bool
  pub finalizer : Bool
  pub constructor : Bool
  pub prototype : Bool
  pub property : Bool
  pub reference : Bool
  pub hook : Bool

pub data Target : Type 0 where
  module_target class_target : Target

-- `destroy`, which the finalizers call too.
unfoldable pub destroy : Holder → Holder
destroy h = record h { deleted = suc h.deleted }

-- The function is collected, at the end of the environment at the latest.
unfoldable pub collect : Holder → Holder
collect h = if h.attached then destroy (record h { attached = false }) else h

-- `check`
abbrev pub check : Bool → String → Raise (Unit {0})
check status message = if status then ok tt else raised (Exception.std_exception (codes message))

module _ (s : Statuses) where
  -- `make_function_impl` and `make_member_function`.
  unfoldable pub make_function : Raise (Unit {0}) × Holder
  make_function =
      if not s.creation
      then (check false "napi_create_function failed", destroy fresh)
      else if not s.finalizer
      then (check false "napi_add_finalizer failed", destroy fresh)
      else (ok tt, record fresh { attached = true })

  -- `module_t::define` and `class_target_t::define`
  unfoldable pub define : Target → Raise (Unit {0})
  define module_target = check s.property "napi_set_named_property failed"
  define class_target =
      if not s.constructor
      then check false "napi_get_reference_value failed for class constructor"
      else if not s.prototype
      then check false "napi class prototype lookup failed"
      else check s.property "napi class method definition failed"

  defined : Target → Raise (Unit {0}) × Holder → Raise (Unit {0}) × Holder
  defined target (raised e, h) = (raised e, h)
  defined target (ok u, h) = (define target, h)

  -- `define_impl`
  unfoldable pub define_impl : Target → Raise (Unit {0}) × Holder
  unfolding defined
  define_impl target = defined target make_function

  with_reference :
      Raise (Unit {0}) → Raise (Unit {0}) × Reference → Raise (Unit {0}) × Holder × Reference
  with_reference (raised e) made = (raised e, record fresh { attached = true }, absent)
  with_reference (ok u) (r, reference) = (r, record fresh { attached = true }, reference)

  -- `define_class_impl`: how it ends, the state of the class, and the constructor's reference.
  unfoldable pub define_class_impl : Raise (Unit {0}) × Holder × Reference
  unfolding with_reference
  define_class_impl =
      if not s.creation
      then (check false "napi_define_class failed", destroy fresh, absent)
      else if not s.finalizer
      then (check false "napi_add_finalizer failed", destroy fresh, absent)
      else with_reference (define module_target) (make s.reference s.hook)
