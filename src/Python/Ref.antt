-- ===== src/Python/Ref.antt =====
-- `object_ref` of dynabridge/backends/python.h: a reference to a Python object with one owner; and
-- `module_t` and `class_target_t`, whose `define` takes a reference over.
pub mod Ownership
use dynabridge.Prelude.{Bool, List, Option, false, if◌then◌else◌, none, some, true, ℕ, [], ◌∷◌}
use dynabridge.Raise.{Exception}
use dynabridge.Python.State.{
  Interpreter, M, Pointer, Result, acquire, is_null, other, pure, returned, steal, thrown, xdecref,
  ◌>>=◌, ◌>>◌,
}
use dynabridge.Prelude.Text.{codes}

pub data RefPolicy : Type 0 where
  borrowed owned : RefPolicy

-- The constructor; an `object_ref` is its pointer.
unfoldable pub make : Pointer → RefPolicy → M Pointer
make object borrowed = acquire object >> pure object
make object owned = pure object

-- `release`: what it returns, and what the object points to then.
unfoldable pub release : Pointer → Pointer × Pointer
release object = (object, none)

-- The move constructor: the new object, and the old one.
unfoldable pub move : Pointer → Pointer × Pointer
unfolding release
move source = let (object, left) = release source in (object, left)

module _ (py : Interpreter) where
  -- `reset`
  unfoldable pub reset : Pointer → Pointer → RefPolicy → M Pointer
  reset this object borrowed = xdecref py this >> (acquire object >> pure object)
  reset this object owned = xdecref py this >> pure object

  -- Move assignment, from the object itself or from another one: both objects then.
  unfoldable pub move_assign : Bool → Pointer → Pointer → M (Pointer × Pointer)
  unfolding release
  move_assign true this source = pure (this, source)
  move_assign false this source = do
    let (object, left) = release source
    now ← reset this object owned
    pure (now, left)

  -- The destructor.
  unfoldable pub destroy : Pointer → M (Unit {0})
  destroy this = xdecref py this

  -- `module_t::define`, where `PyModule_AddObject` steals the reference if it has succeeded.
  unfoldable pub define_in_module : Bool → Pointer → M (Result (Unit {0}))
  define_in_module added value =
      if added
      then steal value >> pure (returned tt)
      else (xdecref py value
          >> pure (thrown (other (Exception.std_exception (codes "PyModule_AddObject failed")))))

  -- `Py_DECREF`, which null must not be given to.
  unfoldable pub decref : Pointer → M (Unit {0})
  decref none w = none
  decref (some o) w = xdecref py (some o) w

  -- `class_target_t::define`, where `PyObject_SetAttrString` takes a reference of its own. For null
  -- it deletes the attribute.
  unfoldable pub define_in_class : Bool → Pointer → M (Result (Unit {0}))
  define_in_class set value =
      if set
      then decref value >> pure (returned tt)
      else (xdecref py value
          >> pure
              (thrown (other (Exception.std_exception (codes "PyObject_SetAttrString failed")))))

-- What is done with two objects, in any order: the first or the second is meant by the Boolean.
pub data Use : Type 0 where
  resets : Bool → Pointer → RefPolicy → Use
  assigns : Bool → Bool → Use
  releases : Bool → Use

-- Two objects, and the pointers that have been released from them.
pub record Refs : Type 0 where
  pub first : Pointer
  pub second : Pointer
  pub loose : List Pointer

module _ (py : Interpreter) where
  unfoldable pub apply : Use → Refs → M Refs
  unfolding release
  apply (resets true object policy) r =
      reset py r.first object policy >>= λ p. pure (record r { first = p })
  apply (resets false object policy) r =
      reset py r.second object policy >>= λ p. pure (record r { second = p })
  apply (assigns true self) r = move_assign py self r.first r.second >>= λ x.
      if self then pure r else pure (record r { first = x.0; second = x.1 })
  apply (assigns false self) r = move_assign py self r.second r.first >>= λ x.
      if self then pure r else pure (record r { first = x.1; second = x.0 })
  apply (releases true) r =
      let (object, left) = release r.first in
      pure (record r { first = left; loose = object ∷ r.loose })
  apply (releases false) r =
      let (object, left) = release r.second in
      pure (record r { second = left; loose = object ∷ r.loose })

  unfoldable pub apply_all : List Use → Refs → M Refs
  apply_all [] r = pure r
  apply_all (u ∷ us) r = apply u r >>= apply_all us

  -- Two objects of a scope: constructed empty, used, and destroyed; what has been released from
  -- them is left.
  unfoldable pub scope : List Use → M (List Pointer)
  scope us = do
    r ← apply_all us (record { first = none; second = none; loose = [] })
    destroy py r.second
    destroy py r.first
    pure r.loose
