-- ===== src/Python/Handle.antt =====
-- Handles of Python objects in dynabridge/backends/python.h: `import_impl`, which looks a callable
-- up; `try_import_callable_impl`; `make_export_object_impl` and `define_export_instance_impl`, with
-- `export_instance` of dynabridge/export_core.h; and `callable_descr_get`.
pub mod Owner
use dynabridge.Prelude.{Bool, Option, if◌then◌else◌, none, not, some, ℕ, ◌||◌}
use dynabridge.Prelude.Text.{codes}
use dynabridge.Raise.{Exception, Raise, ok, raised}
use dynabridge.Python.State.{
  Interpreter, M, Pointer, Reply, Result, Thrown, World, acquire, is_null, other, points_to, pure,
  returned, thrown, xdecref, ◌>>=◌, ◌>>◌,
}
use dynabridge.Python.Call.{receive}
use dynabridge.Python.Instance.{Instance, blank, construct_export_object_impl}
use dynabridge.Python.Ref.{borrowed, define_in_module, make, owned, release, reset}

-- `import_attr`, for what `PyObject_GetAttrString` gives.
unfoldable pub import_attr : Reply → M (Result Pointer)
import_attr reply = receive reply >>= λ p.
    if is_null p
    then pure (thrown (other (Exception.std_exception (codes "Python import lookup failed"))))
    else pure (returned p)

-- `import_impl` from a module: the pointer of the context.
unfoldable pub import_impl : Reply → M (Result Pointer)
import_impl reply = import_attr reply

module _ (py : Interpreter) where
  -- The module is released at the end, whether the function returns or throws.
  leave_module : Pointer → Result Pointer → M (Result Pointer)
  leave_module module_ r = xdecref py module_ >> pure r

  from_module : Reply → Pointer → M (Result Pointer)
  unfolding leave_module
  from_module reply none =
      pure (thrown (other (Exception.std_exception (codes "PyImport_ImportModule failed"))))
  from_module reply (some m) = import_attr reply >>= leave_module (some m)

  -- `import_impl` from the name of a module.
  unfoldable pub import_by_name : Reply → Reply → M (Result Pointer)
  unfolding from_module
  import_by_name module_ reply = receive module_ >>= from_module reply

  -- `try_import_callable_impl`: the context, whose pointer is not null, or nothing.
  unfoldable pub try_import_callable : Bool → Pointer → M (Option Pointer)
  try_import_callable callable value =
      if is_null value || not callable
      then pure none
      else (make value borrowed >>= λ p. pure (some p))

  -- `make_export_object_impl`, for what the registry finds, what the allocation gives, and what the
  -- C++ constructor comes to.
  bind_self : Pointer → Pointer → Raise (Unit {0}) → M (Result Pointer)
  bind_self handle self (ok u) = do
    p ← reset py handle self borrowed
    xdecref py self
    pure (returned p)
  bind_self handle self (raised e) = xdecref py self >> pure (thrown (other e))

  -- `define_export_instance_impl`
  define_object : Bool → Result Pointer → M (Result (Unit {0}))
  unfolding release
  define_object added (returned p) =
      let (object, left) = release p in define_in_module py added object
  define_object added (thrown t) = pure (thrown t)

  module _ {N : Type 0} where
    construct_self : Raise N → Pointer → M (Result Pointer)
    unfolding bind_self
    construct_self made none =
        pure (thrown (other (Exception.std_exception (codes "PyType_GenericNew failed"))))
    construct_self made (some self) = elim (construct_export_object_impl made blank) [
      | none ↦ λ w. none
      | some (r, i) ↦ bind_self none (some self) r
    ]

    unfoldable pub make_export_object_impl : Raise Pointer → Reply → Raise N → M (Result Pointer)
    unfolding construct_self
    make_export_object_impl (raised e) self made = pure (thrown (other e))
    make_export_object_impl (ok target) self made = receive self >>= construct_self made

    -- `export_instance`, which makes an object and defines it in a module.
    unfoldable pub export_instance : Raise Pointer → Reply → Raise N → Bool → M (Result (Unit {0}))
    unfolding define_object
    export_instance target self made added =
        make_export_object_impl target self made >>= define_object added

  -- `callable_descr_get`, for the object by which the attribute is read and what `PyMethod_New`
  -- gives.
  unfoldable pub callable_descr_get : ℕ → Pointer → Reply → M Pointer
  callable_descr_get self object method =
      if is_null object || points_to py.none_object object
      then acquire (some self) >> pure (some self)
      else receive method

-- `bind_export_object_impl`, for the test of the type and what the registry finds: the pointer of
-- the borrowed handle of a receiver, or null.
unfoldable pub bind_export_object : (ℕ → Bool) → Raise Pointer → Pointer → Raise Pointer
bind_export_object type_check (raised e) self = raised e
bind_export_object type_check (ok target) none = ok none
bind_export_object type_check (ok target) (some o) = ok (if type_check o then some o else none)

-- `try_bind_export_object_impl`: the borrowed handle of an argument, or nothing.
unfoldable pub try_bind_export_object :
    (ℕ → Bool) → Raise Pointer → Pointer → Raise (Option Pointer)
try_bind_export_object type_check target none = ok none
try_bind_export_object type_check (raised e) (some o) = raised e
try_bind_export_object type_check (ok target) (some o) =
    ok (if type_check o then some (some o) else none)
