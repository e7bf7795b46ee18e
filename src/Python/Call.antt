-- ===== src/Python/Call.antt =====
-- Calls from C++ to Python in dynabridge/backends/python.h: `call_vector`, `call_tuple` and
-- `invoke_impl`.
--
-- An argument is a raw pointer that the callee has to give up, or an `object_ref` that gives its
-- reference up at the end of the call, whether the call returns or throws.
pub mod Effects
pub mod Answer
use dynabridge.Prelude.{List, Option, length, map, none, some, ℕ, [], ◌∷◌}
use dynabridge.Prelude.Text.{codes}
use dynabridge.Raise.{Raise, ok, raised}
use dynabridge.Python.State.{
  Error, Interpreter, M, Pointer, Reply, Result, World, acquire, failure, other, pure, python_error,
  result, returned, runtime_error, set_string, steal, thrown, xdecref, ◌>>=◌, ◌>>◌,
}
use dynabridge.Python.Error.{make_error}

pub data Argument : Type 0 where
  raw : Pointer → Argument
  ref : Pointer → Argument

-- `call_arg_value`
abbrev pub call_arg_value : Argument → Pointer
call_arg_value (raw value) = value
call_arg_value (ref value) = value

-- What the call of a Python object leaves: a new reference, or the indicator set and null.
unfoldable pub receive : Reply → M Pointer
receive (result o) = acquire (some o) >> pure (some o)
receive (failure e) = λ w. some (none, record w { error = e })

module _ (py : Interpreter) where
  -- `decref_arg`
  unfoldable pub decref_arg : Argument → M (Unit {0})
  decref_arg (raw value) = xdecref py value
  decref_arg (ref value) = pure tt

  unfoldable pub decref_args : List Argument → M (Unit {0})
  unfolding decref_arg
  decref_args [] = pure tt
  decref_args (a ∷ args) = decref_arg a >> decref_args args

  -- The destructors of the parameters.
  unfoldable pub leave : List Argument → M (Unit {0})
  leave [] = pure tt
  leave (raw value ∷ args) = leave args
  leave (ref value ∷ args) = xdecref py value >> leave args

  -- `throw python_error(message)`, in front of the release of the arguments.
  unfoldable pub fail_call : List Argument → M (Result Pointer)
  fail_call args = do
    e ← make_error py (codes "Python callable returned null")
    decref_args args
    leave args
    pure (thrown (python_error e))

  finish_call : List Argument → Pointer → M (Result Pointer)
  finish_call args none = fail_call args
  finish_call args (some o) = do decref_args args; leave args; pure (returned (some o))

  -- The branch for a context without a callable.
  unfoldable pub no_callable : List Argument → M (Result Pointer)
  no_callable args = do
    decref_args args
    set_string py runtime_error (codes "dynabridge Python context has no callable")
    leave args
    pure (returned none)

  unfoldable pub call_vector : Pointer → List Argument → M (Result Pointer)
  unfolding finish_call
  call_vector none args = no_callable args
  call_vector (some callable) args = do
    object ← receive (py.vectorcall callable (map call_arg_value args))
    finish_call args object

  -- `fill_tuple`, which moves each argument into the tuple.
  unfoldable pub fill_tuple : List Argument → M (Unit {0})
  fill_tuple [] = pure tt
  fill_tuple (a ∷ args) = steal (call_arg_value a) >> fill_tuple args

  -- The call of `call_tuple`; its tuple is released at the end.
  finish_tuple : Pointer → Pointer → M (Result Pointer)
  finish_tuple tuple none = do
    e ← make_error py (codes "Python callable returned null")
    xdecref py tuple
    pure (thrown (python_error e))
  finish_tuple tuple (some o) = do xdecref py tuple; pure (returned (some o))

  unfoldable pub call_with_tuple : ℕ → List Argument → Pointer → M (Result Pointer)
  unfolding finish_tuple
  call_with_tuple callable args none = do decref_args args; leave args; pure (returned none)
  call_with_tuple callable args (some tuple) = do
    fill_tuple args
    object ← receive (py.vectorcall callable (map call_arg_value args))
    finish_tuple (some tuple) object

  unfoldable pub call_tuple : Pointer → List Argument → M (Result Pointer)
  call_tuple none args = no_callable args
  call_tuple (some callable) args = do
    tuple ← receive (py.new_tuple (length args))
    call_with_tuple callable args tuple

-- What comes out of a conversion that may raise.
unfoldable pub converted : {V : Type 0} → Raise V → Result V
converted (ok v) = returned v
converted (raised e) = thrown (other e)

module _ (py : Interpreter) {V : Type 0} (from_cast : ℕ → Raise V) where
  take_result : List ℕ → Result Pointer → M (Result V)
  unfolding converted
  take_result message (thrown t) = pure (thrown t)
  take_result message (returned none) = do e ← make_error py message; pure (thrown (python_error e))
  take_result message (returned (some o)) = do
    let value = converted (from_cast o)
    xdecref py (some o)
    pure value

  -- `invoke_impl` without a receiver. For `void` the result is not looked at: `from_cast` is then
  -- constant.
  unfoldable pub invoke_impl : Pointer → List Argument → M (Result V)
  unfolding take_result
  invoke_impl callable args = do
    object ← call_vector py callable args
    take_result (codes "Python callable returned null") object

  -- `invoke_impl` with a receiver, the first argument.
  unfoldable pub invoke_member_impl : Pointer → Argument → List Argument → M (Result V)
  unfolding take_result
  invoke_member_impl callable receiver args = do
    object ← call_vector py callable (receiver ∷ args)
    take_result (codes "Python member callable returned null") object
