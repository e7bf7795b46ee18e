-- ===== src/Python/Constructor.antt =====
-- Construction of exported objects from Python, in dynabridge/backends/python.h:
-- `class_constructor_holder`, the `__init__` of an exported class, and `export_type_vectorcall`,
-- a call of the class itself.
pub mod Vectorcall
use dynabridge.Prelude.{
  Bool, List, Option, false, if◌then◌else◌, leb, length, none, not, some, suc, true, zero, ℕ, ◌%◌,
  ◌+◌, ◌/◌, ◌==◌, [], ◌^◌, ◌∷◌,
}
use dynabridge.Prelude.Text.{codes}
use dynabridge.Python.State.{
  Interpreter, M, Pointer, Result, World, acquire, pure, returned, memory_error, set_string, thrown,
  xdecref, ◌>>=◌, ◌>>◌,
}
use dynabridge.Python.Entry.{Args, handle, has_keywords, no_tuple, refuse, tuple, vector_count}

module _ (py : Interpreter) where
  constructed : Result (Unit {0}) → M Pointer
  constructed (returned u) = acquire (some py.none_object) >> pure (some py.none_object)
  constructed (thrown t) = handle py (codes "dynabridge Python constructor failed") (thrown t)

  -- `construct`, where `type_check` says whether `self` is an object of the class and
  -- `constructor_invoker` converts the arguments and constructs.
  unfoldable pub construct :
      (ℕ → Bool) → (ℕ → List ℕ → M (Result (Unit {0}))) → Pointer → List ℕ → M Pointer
  unfolding constructed
  construct type_check constructor_invoker none args =
      refuse py (codes "dynabridge Python constructor received incompatible self")
  construct type_check constructor_invoker (some self) args =
      if type_check self
      then constructor_invoker self args >>= constructed
      else refuse py (codes "dynabridge Python constructor received incompatible self")

  wrong_arity : M Pointer
  wrong_arity = refuse py (codes "dynabridge Python constructor received wrong arity")

  -- The first argument is `self`.
  construct_indices : (Pointer → List ℕ → M Pointer) → List ℕ → M Pointer
  construct_indices make [] = wrong_arity
  construct_indices make (self ∷ args) = make (some self) args

  -- `construct_tuple`
  unfoldable pub construct_tuple : (Pointer → List ℕ → M Pointer) → ℕ → Args → M Pointer
  unfolding wrong_arity construct_indices
  construct_tuple make arity no_tuple = wrong_arity
  construct_tuple make arity (tuple args) =
      if length args == arity + 1 then construct_indices make args else wrong_arity

  -- `construct_vector`
  unfoldable pub construct_vector :
      (Pointer → List ℕ → M Pointer) → ℕ → List ℕ → ℕ → Option ℕ → M Pointer
  unfolding wrong_arity construct_indices
  construct_vector make arity args nargsf kwnames =
      if has_keywords kwnames
      then refuse py (codes "dynabridge Python constructor does not accept keyword arguments")
      else if vector_count nargsf == arity + 1
      then construct_indices make args
      else wrong_arity

-- The memory of the arguments in a vector call: the slot in front of them, which the callee may use
-- for the time of the call if `PY_VECTORCALL_ARGUMENTS_OFFSET` is set, and how many blocks have
-- been allocated and freed.
pub record Buffer : Type 0 where
  pub slot : ℕ
  pub allocated : ℕ
  pub freed : ℕ

abbrev pub local_args : ℕ
local_args = 8

-- `nargsf & PY_VECTORCALL_ARGUMENTS_OFFSET`
abbrev pub has_offset : ℕ → Bool
has_offset nargsf = (nargsf / 2 ^ 63) % 2 == 1

-- Where the arguments of the constructor stand.
pub data Place : Type 0 where
  in_front on_stack on_heap : Place

unfoldable pub place_of : Bool → ℕ → Place
place_of offset nargs =
    if offset then in_front else if leb (nargs + 1) local_args then on_stack else on_heap

-- `none` is `PyMem_Malloc` without memory.
unfoldable pub put_args : Place → Bool → ℕ → Buffer → Option Buffer
put_args in_front memory self b = some (record b { slot = self })
put_args on_stack memory self b = some b
put_args on_heap true self b = some (record b { allocated = suc b.allocated })
put_args on_heap false self b = none

unfoldable pub remove_args : Place → ℕ → Buffer → Buffer
remove_args in_front saved_offset b = record b { slot = saved_offset }
remove_args on_stack saved_offset b = b
remove_args on_heap saved_offset b = record b { freed = suc b.freed }

-- The loop that copies the arguments.
unfoldable pub copy_args : ℕ → List ℕ → List ℕ
copy_args zero args = []
copy_args (suc nargs) [] = []
copy_args (suc nargs) (a ∷ args) = a ∷ copy_args nargs args

-- `call_args`: the object, and behind it the caller's own arguments, or a copy.
unfoldable pub call_args : Place → ℕ → ℕ → List ℕ → List ℕ
call_args in_front self nargs args = self ∷ args
call_args on_stack self nargs args = self ∷ copy_args nargs args
call_args on_heap self nargs args = self ∷ copy_args nargs args

module _ (py : Interpreter) (constructor : List ℕ → ℕ → Option ℕ → M Pointer) where
  -- What is returned of the constructor's result.
  return_object : ℕ → Buffer → Pointer → M (Pointer × Buffer)
  return_object self b none = xdecref py (some self) >> pure (none, b)
  return_object self b (some r) = xdecref py (some r) >> pure (some self, b)

  with_args : Place → ℕ → List ℕ → ℕ → Option ℕ → ℕ → Option Buffer → Buffer → M (Pointer × Buffer)
  unfolding return_object
  with_args at self args nargs kwnames saved_offset none b =
      xdecref py (some self) >> (set_string py memory_error [] >> pure (none, b))
  with_args at self args nargs kwnames saved_offset (some b') b =
      constructor (call_args at self nargs args) (nargs + 1) kwnames >>= λ r.
      return_object self (remove_args at saved_offset b') r

  -- `export_type_vectorcall`, for a class whose bridge constructor has been found or not, with the
  -- object that the allocation gives and whether there is memory for the arguments.
  unfoldable pub export_type_vectorcall :
      Bool → Pointer → Bool → List ℕ → ℕ → Option ℕ → Buffer → M (Pointer × Buffer)
  unfolding with_args
  export_type_vectorcall has_constructor self memory args nargsf kwnames b =
      if not has_constructor
      then (refuse py (codes "dynabridge Python export class has no bridge constructor") >>= λ p.
          pure (p, b))
      else elim self [
        | none ↦ pure (none, b)
        | some object ↦
            let at = place_of (has_offset nargsf) (vector_count nargsf) in
            (acquire (some object)
              >> with_args at object args (vector_count nargsf) kwnames b.slot
                  (put_args at memory object b) b)
      ]
