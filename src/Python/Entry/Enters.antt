-- ===== src/Python/Entry/Enters.antt =====
-- What the vector entry of a C++ function comes to, whatever its binder does.
use mathlib.Core.Path.{subst}
use dynabridge.Prelude.{
  Bool, Bool-cases, List, Option, arith, false, inl, inr, none, not, refl, some, sym, true, ℕ, ◌==◌,
  [], ◌||◌, ◌∷◌, ◌≡◌,
}
use dynabridge.Prelude.Text.{codes}
use dynabridge.Python.State.{
  Interpreter, M, Pointer, Result, World, acquire, occurred, other, pointers, python_error,
  returned, set_string, thrown, type_error, ◌>>=◌,
}
use dynabridge.Python.State.Ledger.{Ends, Gains, Owns, Spends, bind, ends}
use dynabridge.Python.Entry.{
  after_void, call_indices, call_vector_signature, class_of, handle, has_keywords, refuse,
  vector_count, what,
}
use dynabridge.Python.Entry.Contract.{SetsErrors, handled}

-- Null, with the error indicator set.
abbrev pub IsRefused : Pointer → World → Type 0
IsRefused p w = (p ≡ none) × (occurred w ≡ true)

-- A `python_error` owns its references.
abbrev pub IsRaised : Result Pointer → World → Type 0
IsRaised (returned p) w = Unit
IsRaised (thrown (python_error e)) w = Owns (pointers e) w
IsRaised (thrown (other e)) w = Unit

module _ (py : Interpreter) where
  -- A return of the binder is passed on, in the state in which the binder leaves the interpreter;
  -- `None` is returned for one of `void`, with a reference of its own; and what the binder throws
  -- is set as the error, a `python_error` with its own exception and references.
  abbrev pub IsPassedOn : Bool → Result Pointer → World → Pointer → World → Type 0
  IsPassedOn false (returned q) w1 p w' = (p ≡ q) × (w' ≡ w1)
  IsPassedOn true (returned q) w1 p w' =
      (p ≡ some py.none_object) × (w'.error ≡ w1.error) × Gains (p ∷ []) w1 w'
  IsPassedOn is_void (thrown (python_error e)) w1 p w' =
      (p ≡ none) × (w'.error ≡ e) × Spends (pointers e) w1 w'
  IsPassedOn is_void (thrown (other e)) w1 p w' = IsRefused p w'

  -- The call is refused, or what the binder comes to is passed on.
  abbrev pub Enters : Bool → Bool → Result Pointer → World → Pointer → World → Type 0
  Enters true is_void r w1 p w' = IsRefused p w'
  Enters false is_void r w1 p w' = IsPassedOn is_void r w1 p w'

-- There are keyword arguments, or the number of the arguments is another one.
abbrev pub is_refused : ℕ → ℕ → Option ℕ → Bool
is_refused arity nargsf kwnames = has_keywords kwnames || not (vector_count nargsf == arity)

module _ (py : Interpreter) (sets : SetsErrors py) where
  refuse-IsRefused : (message : List ℕ) (w : World) → Ends IsRefused (refuse py message w)
  unfolding refuse set_string occurred
  refuse-IsRefused message w = let e = sets type_error message in ends (refl, ground arith)

  handle-IsPassedOn :
      (fallback : List ℕ) (r : Result Pointer) (w : World)
      → IsRaised r w
      → Ends (IsPassedOn py false r w) (handle py fallback r w)
  unfolding handle set_string occurred
  handle-IsPassedOn fallback (returned q) w h = ends (refl, refl)
  handle-IsPassedOn fallback (thrown (python_error e)) w h = handled py fallback e w h
  handle-IsPassedOn fallback (thrown (other e)) w h =
      let t = sets (class_of e) (what fallback e) in ends (refl, ground arith)

  -- What follows a step whose outcome is known.
  after :
      {A B : Type 0} {Q : B → World → Type 0} (m : M A) (f : A → M B) (w : World) {a : A}
      {w1 : World}
      → m w ≡ some (a, w1)
      → Ends Q (f a w1)
      → Ends Q ((m >>= f) w)
  after {Q = Q} m f w e h =
      subst (λ x. Ends Q (elim x [ none ↦ none | some (a, w') ↦ f a w' ])) (sym e) h

  void-IsPassedOn :
      (fallback : List ℕ) (r : Result Pointer) (w : World)
      → IsRaised r w
      → Ends (λ r' w'. Ends (IsPassedOn py true r w) (handle py fallback r' w')) (after_void py r w)
  unfolding after_void handle acquire
  void-IsPassedOn fallback (returned q) w h = ends (ends (refl, refl, λ o. ground arith))
  void-IsPassedOn fallback (thrown (python_error e)) w h = ends (handled py fallback e w h)
  void-IsPassedOn fallback (thrown (other e)) w h =
      ends (handle-IsPassedOn fallback (thrown (other e)) w h)

  run-IsPassedOn :
      (is_void : Bool) (binder : List ℕ → M (Result Pointer)) (args : List ℕ) (w w1 : World)
      (r : Result Pointer)
      → binder args w ≡ some (r, w1)
      → IsRaised r w1
      → Ends (IsPassedOn py is_void r w1) (
          (call_indices py is_void binder args
              >>= handle py (codes "dynabridge Python callback failed"))
            w)
  unfolding call_indices
  run-IsPassedOn false binder args w w1 r e h =
      after (binder args) (handle py _) w e (handle-IsPassedOn _ r w1 h)
  run-IsPassedOn true binder args w w1 r e h =
      bind (call_indices py true binder args) _ w
        (after (binder args) (after_void py) w e (void-IsPassedOn _ r w1 h)) λ r' w2 q. q

  -- The vector entry of a function refuses keywords and a wrong number of arguments, with null and
  -- the error indicator set. Otherwise it calls the binder, if `PyErr_SetString` sets an exception
  -- and a `python_error` that the binder throws owns its references: what the binder returns is
  -- returned, and the interpreter is left as the binder leaves it; `None` is returned for a binder
  -- of `void`; the exception of a `python_error` is the one that is set then; and for another
  -- exception null is returned with the indicator set.
  pub call_vector_signature-Enters :
      (is_void : Bool) (binder : List ℕ → M (Result Pointer)) (arity : ℕ) (args : List ℕ)
      (nargsf : ℕ) (kwnames : Option ℕ) (w w1 : World) (r : Result Pointer)
      → binder args w ≡ some (r, w1)
      → IsRaised r w1
      → Ends
          (Enters py (is_refused arity nargsf kwnames) is_void r w1)
          (call_vector_signature py is_void binder arity args nargsf kwnames w)
  unfolding call_vector_signature
  call_vector_signature-Enters is_void binder arity args nargsf kwnames w w1 r e h =
      elim (Bool-cases (has_keywords kwnames)) [
        | inl k ↦ rw k (refuse-IsRefused _ w)
        | inr k ↦ elim (Bool-cases (vector_count nargsf == arity)) [
          | inl n ↦ rw (k, n) (run-IsPassedOn is_void binder args w w1 r e h)
          | inr n ↦ rw (k, n) (refuse-IsRefused _ w)
        ]
      ]
