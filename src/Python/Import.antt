-- ===== src/Python/Import.antt =====
-- Imported Python callables: how `import_argument` of dynabridge/bridge_arg.h and `invoke` of
-- dynabridge/backend_base.h make Python objects of the arguments and call the object, with
-- dynabridge/backends/python.h as the backend.
--
-- C++ leaves the order open in which the arguments of one call are lowered. `first` says of each
-- argument whether it is lowered in front of those that follow it, or behind them: always in front
-- is from the first to the last, and never is from the last to the first. Orders that lower an
-- argument between two that follow it are left aside. An `object_ref` owns each of them while the
-- others are lowered.
pub mod Lowering
pub mod Outcome
use dynabridge.Prelude.{Bool, List, Option, if◌then◌else◌, none, some, suc, ℕ, [], ◌∷◌}
use dynabridge.Prelude.Text.{codes}
use dynabridge.Raise.{Raise}
use dynabridge.Python.State.{
  Interpreter, M, Pointer, Reply, Result, acquire, failure, pure, python_error, result, returned,
  thrown, xdecref, ◌>>=◌, ◌>>◌,
}
use dynabridge.Python.Call.{
  Argument, call_vector, invoke_impl, invoke_member_impl, leave, receive, ref,
}
use dynabridge.Python.Convert.{Objects, Value, to_cast}
use dynabridge.Python.Error.{make_error}
use dynabridge.Python.Ref.{make, owned, reset}

-- An argument of the C++ caller: a value; the handle of an imported object; or a C++ callable, of
-- which a Python object is made.
pub data Source : Type 0 where
  value : Value → Source
  object : Pointer → Source
  callable : Reply → Source

module _ (py : Interpreter) (api : Objects) where
  -- `to_dynamic_object_impl`
  unfoldable pub to_dynamic_object : Pointer → M Pointer
  to_dynamic_object p = acquire p >> pure p

  -- `own_import_value`
  unfoldable pub own_import_value : Pointer → M (Result Pointer)
  own_import_value p = do o ← make p owned; pure (returned o)

  own_cast : Result Pointer → M (Result Pointer)
  own_cast (returned p) = own_import_value p
  own_cast (thrown t) = pure (thrown t)

  -- `import_argument::lower`
  unfoldable pub lower : Source → M (Result Pointer)
  unfolding own_cast
  lower (value v) = to_cast api v >>= own_cast
  lower (object p) = to_dynamic_object p >>= own_import_value
  lower (callable made) = receive made >>= own_import_value

  -- The argument is destroyed where a later one throws.
  keep : Pointer → Result (List Argument) → M (Result (List Argument))
  keep p (returned args) = pure (returned (ref p ∷ args))
  keep p (thrown t) = xdecref py p >> pure (thrown t)

  before : M (Result (List Argument)) → Result Pointer → M (Result (List Argument))
  unfolding keep
  before rest (returned p) = rest >>= keep p
  before rest (thrown t) = pure (thrown t)

  -- The arguments that follow are destroyed where one throws that is lowered behind them.
  keep_rest : List Argument → Result Pointer → M (Result (List Argument))
  keep_rest args (returned p) = pure (returned (ref p ∷ args))
  keep_rest args (thrown t) = leave py args >> pure (thrown t)

  behind : M (Result Pointer) → Result (List Argument) → M (Result (List Argument))
  unfolding keep_rest
  behind one (returned args) = one >>= keep_rest args
  behind one (thrown t) = pure (thrown t)

  -- The arguments of one call, from the one of the given number on.
  unfoldable pub lower_all : (ℕ → Bool) → ℕ → List Source → M (Result (List Argument))
  unfolding before behind
  lower_all first i [] = pure (returned [])
  lower_all first i (s ∷ sources) =
      let rest = lower_all first (suc i) sources in
      if first i then lower s >>= before rest else rest >>= behind (lower s)

  module _ {V : Type 0} (from_cast : ℕ → Raise V) where
    call_lowered : Pointer → Result (List Argument) → M (Result V)
    call_lowered callee (returned args) = invoke_impl py from_cast callee args
    call_lowered callee (thrown t) = pure (thrown t)

    -- `invoke` of a function.
    unfoldable pub invoke : (ℕ → Bool) → Pointer → List Source → M (Result V)
    unfolding call_lowered
    invoke first callee sources = lower_all first 0 sources >>= call_lowered callee

    call_member : Pointer → Result (List Argument) → M (Result V)
    call_member callee (returned []) = invoke_impl py from_cast callee []
    call_member callee (returned (receiver ∷ args)) =
        invoke_member_impl py from_cast callee receiver args
    call_member callee (thrown t) = pure (thrown t)

    -- `invoke` of a member, with its receiver.
    unfoldable pub invoke_member : (ℕ → Bool) → Pointer → Source → List Source → M (Result V)
    unfolding call_member
    invoke_member first callee receiver sources =
        lower_all first 0 (receiver ∷ sources) >>= call_member callee

  take_object : Result Pointer → M (Result Pointer)
  take_object (thrown t) = pure (thrown t)
  take_object (returned none) = do
    e ← make_error py (codes "Python constructor returned null")
    pure (thrown (python_error e))
  take_object (returned (some o)) = do held ← reset py none (some o) owned; pure (returned held)

  construct_lowered : Pointer → Result (List Argument) → M (Result Pointer)
  unfolding take_object
  construct_lowered callee (returned args) = call_vector py callee args >>= take_object
  construct_lowered callee (thrown t) = pure (thrown t)

  -- `import_constructor_contract_invoker::construct` with `construct_import_object_impl`: the
  -- pointer of the new handle.
  unfoldable pub construct : (ℕ → Bool) → Pointer → List Source → M (Result Pointer)
  unfolding construct_lowered
  construct first callee sources = lower_all first 0 sources >>= construct_lowered callee
