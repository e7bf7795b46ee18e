-- ===== src/Python/Entry.antt =====
-- Calls from Python to C++ in dynabridge/backends/python.h: the entries of the callable objects,
-- which turn what C++ throws into a Python exception.
--
-- A C++ exception has the object `python_error` inside while it is handled, and destroys it at the
-- end of the handler. The arguments are borrowed. An argument vector is given by its pointers and
-- `nargsf`, the bits of which below the highest are the count.
pub mod Contract
pub mod Enters
use dynabridge.Prelude.{
  Bool, List, Option, false, if◌then◌else◌, length, none, not, some, true, ℕ, ◌%◌, ◌&&◌, ◌==◌, [],
  ◌^◌, ◌∷◌,
}
use dynabridge.Prelude.Text.{codes}
use dynabridge.Raise.{Exception}
use dynabridge.Python.State.{
  Error, ErrorClass, Interpreter, M, Pointer, Result, Thrown, World, acquire, other, pure,
  python_error, returned, runtime_error, set_string, thrown, type_error, ◌>>=◌, ◌>>◌,
}
use dynabridge.Python.Error.{destroy, restore}

-- `what()` of an exception that derives from `std::exception` and is no `bad_conversion`.
abbrev pub class_of : Exception → ErrorClass
class_of (Exception.bad_conversion what) = type_error
class_of (Exception.protocol_error what) = runtime_error
class_of (Exception.remote_error what) = runtime_error
class_of (Exception.std_exception what) = runtime_error
class_of Exception.foreign = runtime_error

abbrev pub what : List ℕ → Exception → List ℕ
what fallback (Exception.bad_conversion m) = m
what fallback (Exception.protocol_error m) = m
what fallback (Exception.remote_error m) = m
what fallback (Exception.std_exception m) = m
what fallback Exception.foreign = fallback

-- The arguments of a call: a tuple, or something else.
pub data Args : Type 0 where
  tuple : List ℕ → Args
  no_tuple : Args

-- `PyVectorcall_NARGS`
abbrev pub vector_count : ℕ → ℕ
vector_count nargsf = nargsf % 2 ^ 63

-- Whether there are keyword arguments: `kwnames` is null or a tuple of so many names.
abbrev pub has_keywords : Option ℕ → Bool
has_keywords none = false
has_keywords (some names) = not (names == 0)

module _ (py : Interpreter) where
  -- The `catch` clauses, for the text of the last of them.
  unfoldable pub handle : List ℕ → Result Pointer → M Pointer
  handle fallback (returned object) = pure object
  handle fallback (thrown (python_error e)) = do restore e; destroy py e; pure none
  handle fallback (thrown (other e)) = set_string py (class_of e) (what fallback e) >> pure none

  -- `PyErr_SetString` in front of `return nullptr`.
  unfoldable pub refuse : List ℕ → M Pointer
  refuse message = set_string py type_error message >> pure none

  -- `Py_RETURN_NONE`
  after_void : Result Pointer → M (Result Pointer)
  after_void (returned object) =
      acquire (some py.none_object) >> pure (returned (some py.none_object))
  after_void (thrown t) = pure (thrown t)

  -- `call_indices` and `call_vector_indices`: of a binder of `void`, `None` is returned.
  unfoldable pub call_indices : Bool → (List ℕ → M (Result Pointer)) → List ℕ → M (Result Pointer)
  unfolding after_void
  call_indices false binder args = binder args
  call_indices true binder args = binder args >>= after_void

  -- `typed_callable_holder::call_signature`
  unfoldable pub call_signature : Bool → (List ℕ → M (Result Pointer)) → ℕ → Args → M Pointer
  call_signature is_void binder arity no_tuple =
      refuse (codes "dynabridge Python callback received wrong arity")
  call_signature is_void binder arity (tuple args) =
      if length args == arity
      then (call_indices is_void binder args >>= handle (codes "dynabridge Python callback failed"))
      else refuse (codes "dynabridge Python callback received wrong arity")

  -- `typed_callable_holder::call_vector_signature`
  unfoldable pub call_vector_signature :
      Bool → (List ℕ → M (Result Pointer)) → ℕ → List ℕ → ℕ → Option ℕ → M Pointer
  call_vector_signature is_void binder arity args nargsf kwnames =
      if has_keywords kwnames
      then refuse (codes "dynabridge Python callback does not accept keyword arguments")
      else if vector_count nargsf == arity
      then (call_indices is_void binder args >>= handle (codes "dynabridge Python callback failed"))
      else refuse (codes "dynabridge Python callback received wrong arity")

  -- The `try` block of an overload: no candidate has taken the call.
  unfoldable pub dispatched : Result (Option Pointer) → M Pointer
  dispatched (returned none) = refuse (codes "dynabridge Python overload has no matching signature")
  dispatched (returned (some object)) = pure object
  dispatched (thrown t) = handle (codes "dynabridge Python overload callback failed") (thrown t)

  -- `overload_callable_holder::call_tuple`
  unfoldable pub overload_tuple : (ℕ → List ℕ → M (Result (Option Pointer))) → Args → M Pointer
  overload_tuple dispatch_optional no_tuple =
      refuse (codes "dynabridge Python callback expected tuple arguments")
  overload_tuple dispatch_optional (tuple args) =
      dispatch_optional (length args) args >>= dispatched

  -- `overload_callable_holder::call_vector`
  unfoldable pub overload_vector :
      (ℕ → List ℕ → M (Result (Option Pointer))) → List ℕ → ℕ → Option ℕ → M Pointer
  overload_vector dispatch_optional args nargsf kwnames =
      if has_keywords kwnames
      then refuse (codes "dynabridge Python callback does not accept keyword arguments")
      else dispatch_optional (vector_count nargsf) args >>= dispatched

  -- `callable_call`, for interpreters without vectorcall.
  unfoldable pub callable_call : (Args → M Pointer) → Args → Option ℕ → M Pointer
  callable_call invoke_tuple args kwargs =
      if has_keywords kwargs
      then refuse (codes "dynabridge Python callback does not accept keyword arguments")
      else invoke_tuple args
