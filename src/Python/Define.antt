-- ===== src/Python/Define.antt =====
-- The registration of functions and classes with the interpreter: `make_callable_object`,
-- `define_impl`, `define_class_impl`, `define_constructor_impl` and `store_export_class_impl` of
-- dynabridge/backends/python.h, and `register_all` of an exported class,
-- dynabridge/export_generate.h.
pub mod Balance
pub mod Registration
use dynabridge.Prelude.{Bool, List, Option, false, if◌then◌else◌, none, not, some, true, ℕ, [], ◌∷◌}
use dynabridge.Prelude.Text.{codes}
use dynabridge.Raise.{Exception}
use dynabridge.Python.State.{
  Error, Interpreter, M, Pointer, Reply, Result, Thrown, acquire, is_null, other, pure, returned,
  thrown, xdecref, ◌>>=◌, ◌>>◌,
}
use dynabridge.Python.Call.{receive}
use dynabridge.Python.Ref.{decref, define_in_class, define_in_module}
use dynabridge.Registry.{Entry, store}

-- `callable_type`, for whether the type is ready and what `PyType_Ready` sets: whether there is a
-- type, and whether it is ready then.
unfoldable pub callable_type : Bool → Option Error → M (Bool × Bool)
callable_type true attempt = pure (true, true)
callable_type false none = pure (true, true)
callable_type false (some e) = λ w. some ((false, false), record w { error = e })

-- How a callable object is made: whether the type is ready, what `PyType_Ready` sets, and what
-- `PyObject_New` gives.
pub record Making : Type 0 where
  pub ready : Bool
  pub attempt : Option Error
  pub new : Reply

-- The object behind `PyObject_New`, and whether its holder lives; `destroy` deletes it.
new_object : Reply → Bool × Bool → M (Pointer × Bool)
new_object new (false, ready) = pure (none, false)
new_object new (true, ready) = receive new >>= λ p. pure (p, not (is_null p))

-- `make_callable_object`
unfoldable pub make_callable_object : Making → M (Pointer × Bool)
unfolding new_object
make_callable_object m = callable_type m.ready m.attempt >>= new_object m.new

pub data Target : Type 0 where
  in_module in_class : Target

-- What a class is registered with: a method, and whether its attribute can be set; or a
-- constructor, and whether its two attributes can.
pub data Member : Type 0 where
  method : Making → Bool → Member
  initializer : Making → Bool → Bool → Member

abbrev pub overwritten : Option Pointer → Pointer
overwritten none = none
overwritten (some p) = p

module _ (py : Interpreter) where
  unfoldable pub define : Target → Bool → Pointer → M (Result (Unit {0}))
  define in_module success value = define_in_module py success value
  define in_class success value = define_in_class py success value

  -- `define_impl`
  unfoldable pub define_impl : Target → Bool → Making → M (Result (Unit {0}))
  define_impl target success making =
      make_callable_object making >>= λ made. define target success made.0

  -- What becomes of a reference that a local `object_ref` owns.
  class_target : Pointer → Result (Unit {0}) → M (Result Pointer)
  class_target type (returned u) = pure (returned type)
  class_target type (thrown t) = xdecref py type >> pure (thrown t)

  class_of_type : Target → Bool → Pointer → M (Result Pointer)
  unfolding class_target
  class_of_type target success none = pure (
      thrown
        (other (Exception.std_exception (codes "creating Python export extension type failed"))))
  class_of_type target success (some type) =
      acquire (some type) >> (define target success (some type) >>= class_target (some type))

  -- `define_class_impl`, for the type that `make_export_class_type` gives.
  unfoldable pub define_class_impl : Target → Bool → Reply → M (Result Pointer)
  unfolding class_of_type
  define_class_impl target success type = receive type >>= class_of_type target success

  second_name : Pointer → Bool → Result (Unit {0}) → M (Result (Unit {0}))
  second_name made success (returned u) = define in_class success made
  second_name made success (thrown t) = xdecref py made >> pure (thrown t)

  -- `Py_INCREF` of null is a fault.
  name_twice : Bool → Bool → Pointer → M (Result (Unit {0}))
  unfolding second_name
  name_twice first second none = λ w. none
  name_twice first second (some made) =
      acquire (some made) >> (define in_class first (some made) >>= second_name (some made) second)

  -- `define_constructor_impl`
  unfoldable pub define_constructor_impl : Making → Bool → Bool → M (Result (Unit {0}))
  unfolding name_twice
  define_constructor_impl making first second =
      make_callable_object making >>= λ made. name_twice first second made.0

  define_member : Member → M (Result (Unit {0}))
  define_member (method making success) = define_impl in_class success making
  define_member (initializer making first second) = define_constructor_impl making first second

  next_member : M (Result (Unit {0})) → Result (Unit {0}) → M (Result (Unit {0}))
  next_member rest (returned u) = rest
  next_member rest (thrown t) = pure (thrown t)

  -- `export_class_registrar::register_all`
  unfoldable pub define_members : List Member → M (Result (Unit {0}))
  unfolding define_member next_member
  define_members [] = pure (returned tt)
  define_members (m ∷ members) = define_member m >>= next_member (define_members members)

  -- `store_export_class_impl`: the move assignment gives up the target that is overwritten.
  unfoldable pub store_export_class :
      ℕ → Pointer → List (Entry Pointer) → M (Result (Unit {0}) × List (Entry Pointer))
  store_export_class key target entries =
      let (stored, old) = store key target entries in
      xdecref py (overwritten old) >> pure (returned tt, stored)

  store_registered :
      ℕ
      → Pointer
      → List (Entry Pointer)
      → Result (Unit {0})
      → M (Result (Unit {0}) × List (Entry Pointer))
  store_registered key target entries (returned u) = store_export_class key target entries
  store_registered key target entries (thrown t) = xdecref py target >> pure (thrown t, entries)

  with_target :
      ℕ
      → List Member
      → List (Entry Pointer)
      → Result Pointer
      → M (Result (Unit {0}) × List (Entry Pointer))
  unfolding store_registered
  with_target key members entries (returned target) =
      define_members members >>= store_registered key target entries
  with_target key members entries (thrown t) = pure (thrown t, entries)

  -- `register_all` of an exported class.
  unfoldable pub register_class :
      ℕ
      → Bool
      → Reply
      → List Member
      → List (Entry Pointer)
      → M (Result (Unit {0}) × List (Entry Pointer))
  unfolding with_target
  register_class key success type members entries =
      define_class_impl in_module success type >>= with_target key members entries
