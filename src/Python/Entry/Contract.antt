-- ===== src/Python/Entry/Contract.antt =====
-- The contract of the C API for a function that Python calls: null is returned with the error
-- indicator set, and an object without. And an exception passes through C++ unchanged.
use mathlib.Core.Path.{subst}
use dynabridge.Prelude.{
  Bool, Bool-cases, List, Option, arith, false, inl, inr, length, none, refl, some, sym, true, ℕ,
  ◌==◌, ◌∙◌, ◌≡◌,
}
use dynabridge.Prelude.Text.{codes}
use dynabridge.Raise.{Raise}
use dynabridge.Python.State.{
  Error, ErrorClass, Interpreter, M, Pointer, Result, World, acquire, failure, is_null, occurred,
  other, pointers, python_error, returned, set_string, thrown, type_error, ◌>>=◌,
}
use dynabridge.Python.State.Ledger.{Ends, Owns, Spends, bind, ends, mono}
use dynabridge.Python.Error.{destroy, restore}
use dynabridge.Python.Error.Balance.{destroy-Ends, restore-Ends}
use dynabridge.Python.Call.{Argument, invoke_impl}
use dynabridge.Python.Call.Effects.{Accounts, argv, nothing}
use dynabridge.Python.Call.Answer.{answer, invoke_impl-Answers}
use dynabridge.Python.Entry.{
  Args, after_void, call_indices, call_signature, call_vector_signature, class_of, dispatched,
  handle, has_keywords, no_tuple, overload_tuple, overload_vector, refuse, tuple, vector_count,
  what,
}

-- Null with the indicator set, or an object without.
abbrev pub IsContract : Pointer → World → Type 0
IsContract p w = is_null p ≡ occurred w

-- What `PyErr_SetString` sets is an exception.
abbrev pub SetsErrors : Interpreter → Type 0
SetsErrors py =
    (class : ErrorClass) (message : List ℕ) → is_null (py.string_error class message).type_ ≡ false

-- Null is returned with the exception set, and the references of the list have been given up.
abbrev pub Passes : Error → List Pointer → World → Pointer → World → Type 0
Passes e ps w p w' = (p ≡ none) × (w'.error ≡ e) × Spends ps w w'

-- A binder returns an object without the indicator set, or null with it, or throws; a
-- `python_error` has an exception and owns its references.
abbrev pub IsOutcome : Result Pointer → World → Type 0
IsOutcome (returned p) w = IsContract p w
IsOutcome (thrown (python_error e)) w = (is_null e.type_ ≡ false) × Owns (pointers e) w
IsOutcome (thrown (other e)) w = Unit

-- The same of a binder of `void`, whose value is not used.
abbrev pub IsOutcomeOf : Bool → Result Pointer → World → Type 0
IsOutcomeOf false r w = IsOutcome r w
IsOutcomeOf true (returned p) w = occurred w ≡ false
IsOutcomeOf true (thrown t) w = IsOutcome (thrown t) w

abbrev pub Binds : Bool → (List ℕ → M (Result Pointer)) → Type 0
Binds is_void binder =
    (args : List ℕ) (w : World) → occurred w ≡ false → Ends (IsOutcomeOf is_void) (binder args w)

abbrev pub IsOptionalOutcome : Result (Option Pointer) → World → Type 0
IsOptionalOutcome (returned none) w = Unit
IsOptionalOutcome (returned (some p)) w = IsContract p w
IsOptionalOutcome (thrown (python_error e)) w = (is_null e.type_ ≡ false) × Owns (pointers e) w
IsOptionalOutcome (thrown (other e)) w = Unit

module _ (py : Interpreter) where
  pub handled :
      (fallback : List ℕ) (e : Error) (w : World)
      → Owns (pointers e) w
      → Ends
          (λ p w'. (p ≡ none) × (w'.error ≡ e) × Spends (pointers e) w w')
          (handle py fallback (thrown (python_error e)) w)
  unfolding handle
  handled fallback e w h = bind (restore e) _ w (restore-Ends e w) λ _ w1 s.
      bind (destroy py e) _ w1 (destroy-Ends py e w1 (λ o. omega (arith, h o, s.0 o)))
        λ _ w2 t. ends (refl, t.1 s.1, λ o. omega (arith, s.0 o, t.0 o))

module _ (py : Interpreter) (sets : SetsErrors py) where
  refuse-IsContract : (message : List ℕ) (w : World) → Ends IsContract (refuse py message w)
  unfolding refuse set_string occurred
  refuse-IsContract message w = let e = sets type_error message in ends (ground arith)

  handle-IsContract :
      (fallback : List ℕ) (r : Result Pointer) (w : World)
      → IsOutcome r w
      → Ends IsContract (handle py fallback r w)
  unfolding handle set_string occurred
  handle-IsContract fallback (returned p) w h = ends h
  handle-IsContract fallback (thrown (python_error e)) w h =
      mono (handled py fallback e w h.1) λ p w' s. let t = h.0 in ground arith
  handle-IsContract fallback (thrown (other e)) w h =
      let t = sets (class_of e) (what fallback e) in ends (ground arith)

  dispatched-IsContract :
      (r : Result (Option Pointer)) (w : World)
      → IsOptionalOutcome r w
      → Ends IsContract (dispatched py r w)
  unfolding dispatched
  dispatched-IsContract (returned none) w h = refuse-IsContract _ w
  dispatched-IsContract (returned (some p)) w h = ends h
  dispatched-IsContract (thrown (python_error e)) w h =
      handle-IsContract _ (thrown (python_error e)) w h
  dispatched-IsContract (thrown (other e)) w h = handle-IsContract _ (thrown (other e)) w h

  after_void-IsOutcome :
      (r : Result Pointer) (w : World) → IsOutcomeOf true r w → Ends IsOutcome (after_void py r w)
  unfolding after_void acquire occurred
  after_void-IsOutcome (returned p) w h = ends (ground arith)
  after_void-IsOutcome (thrown t) w h = ends h

  call_indices-IsOutcome :
      (is_void : Bool) (binder : List ℕ → M (Result Pointer)) (args : List ℕ) (w : World)
      → Binds is_void binder
      → occurred w ≡ false
      → Ends IsOutcome (call_indices py is_void binder args w)
  unfolding call_indices
  call_indices-IsOutcome false binder args w b clean = b args w clean
  call_indices-IsOutcome true binder args w b clean =
      bind (binder args) (after_void py) w (b args w clean) λ r w1 h. after_void-IsOutcome r w1 h

  run_binder-IsContract :
      (is_void : Bool) (binder : List ℕ → M (Result Pointer)) (args : List ℕ) (w : World)
      → Binds is_void binder
      → occurred w ≡ false
      → Ends IsContract (
          (call_indices py is_void binder args
              >>= handle py (codes "dynabridge Python callback failed"))
            w)
  run_binder-IsContract is_void binder args w b clean =
      bind (call_indices py is_void binder args) _ w
        (call_indices-IsOutcome is_void binder args w b clean) λ r w1 h. handle-IsContract _ r w1 h

  call_signature-IsContract :
      (is_void : Bool) (binder : List ℕ → M (Result Pointer)) (arity : ℕ) (args : Args) (w : World)
      → Binds is_void binder
      → occurred w ≡ false
      → Ends IsContract (call_signature py is_void binder arity args w)
  unfolding call_signature
  call_signature-IsContract is_void binder arity no_tuple w b clean = refuse-IsContract _ w
  call_signature-IsContract is_void binder arity (tuple args) w b clean =
      elim (Bool-cases (length args == arity)) [
        | inl e ↦ rw e (run_binder-IsContract is_void binder args w b clean)
        | inr e ↦ rw e (refuse-IsContract _ w)
      ]

  abbrev pub Dispatches : (ℕ → List ℕ → M (Result (Option Pointer))) → Type 0
  Dispatches dispatch_optional =
      (n : ℕ) (args : List ℕ) (w : World)
      → occurred w ≡ false
      → Ends IsOptionalOutcome (dispatch_optional n args w)

  overload_vector-IsContract :
      (dispatch_optional : ℕ → List ℕ → M (Result (Option Pointer))) (args : List ℕ) (nargsf : ℕ)
      (kwnames : Option ℕ) (w : World)
      → Dispatches dispatch_optional
      → occurred w ≡ false
      → Ends IsContract (overload_vector py dispatch_optional args nargsf kwnames w)
  unfolding overload_vector
  overload_vector-IsContract dispatch_optional args nargsf kwnames w d clean =
      elim (Bool-cases (has_keywords kwnames)) [
        | inl k ↦ rw k (refuse-IsContract _ w)
        | inr k ↦ rw k (
            bind (dispatch_optional (vector_count nargsf) args) (dispatched py) w (d _ args w clean)
              λ r w1 h. dispatched-IsContract r w1 h)
      ]

  overload_tuple-IsContract :
      (dispatch_optional : ℕ → List ℕ → M (Result (Option Pointer))) (args : Args) (w : World)
      → Dispatches dispatch_optional
      → occurred w ≡ false
      → Ends IsContract (overload_tuple py dispatch_optional args w)
  unfolding overload_tuple
  overload_tuple-IsContract dispatch_optional no_tuple w d clean = refuse-IsContract _ w
  overload_tuple-IsContract dispatch_optional (tuple args) w d clean =
      bind (dispatch_optional (length args) args) (dispatched py) w (d _ args w clean)
        λ r w1 h. dispatched-IsContract r w1 h

module _ (py : Interpreter) where
  -- A C++ function that Python calls, and that calls a Python object: the exception that the object
  -- sets is the one that Python finds behind the function's call, and the references of the inner
  -- call's arguments have been given up, and no other.
  pub relay-IsTransparent :
      (from_cast : ℕ → Raise Pointer) (callable : ℕ) (inner : List Argument) (arity : ℕ)
      (args : List ℕ) (nargsf : ℕ) (e : Error) (w : World)
      → py.vectorcall callable (argv inner) ≡ failure e
      → is_null e.type_ ≡ false
      → Owns (argv inner) w
      → (vector_count nargsf == arity) ≡ true
      → Ends (Passes e (argv inner) w) (
          call_vector_signature py false
            (λ args. invoke_impl py from_cast (some callable) inner)
            arity
            args
            nargsf
            none
            w)
  unfolding call_vector_signature call_indices
  relay-IsTransparent from_cast callable inner arity args nargsf e w f real h n =
      let failed : answer py from_cast (py.vectorcall callable (argv inner))
          ≡ thrown (python_error e) =
        rw (f, real) refl in
      rw n (
        bind (invoke_impl py from_cast (some callable) inner) _ w
          (invoke_impl-Answers py from_cast callable inner w h)
          λ r w1 s.
            subst
              (λ r.
                Accounts nothing inner w r w1
                → Ends (Passes e (argv inner) w)
                    (handle py (codes "dynabridge Python callback failed") r w1))
              (sym (s.0 ∙ failed))
              (λ a.
                mono (handled py _ e w1 (λ o. omega (arith, h o, a o)))
                  λ p w2 t. (t.0, t.1, λ o. omega (arith, a o, t.2 o)))
              s.1)
