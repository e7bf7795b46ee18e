-- ===== src/Python/Call/Answer.antt =====
-- What a call from C++ to Python comes to for the caller: the conversion of the result, or an
-- exception.
use mathlib.Core.Path.{subst}
use dynabridge.Prelude.{List, ap, arith, none, refl, some, sym, ℕ, [], ◌∷◌, ◌≡◌}
use dynabridge.Prelude.Text.{codes}
use dynabridge.Raise.{Raise, ok, raised}
use dynabridge.Python.State.{
  Error, Interpreter, M, Pointer, Reply, Result, World, failure, python_error, result, thrown,
  xdecref, ◌>>=◌,
}
use dynabridge.Python.State.Ledger.{Ends, Owns, bind, count, ends, xdecref-Ends}
use dynabridge.Python.Error.{make_error}
use dynabridge.Python.Error.Balance.{exception_of, make_error-Ends}
use dynabridge.Python.Call.{
  Argument, call_vector, converted, invoke_impl, invoke_member_impl, no_callable, take_result,
}
use dynabridge.Python.Call.Effects.{
  argv, carried, Accounts, just, nothing, call_result, call_vector-Ends, no_callable-Ends,
}

module _ (py : Interpreter) {V : Type 0} (from_cast : ℕ → Raise V) where
  -- What `invoke_impl` comes to where the object is called: the conversion of what the object
  -- returns, or the exception that it sets.
  abbrev pub answer : Reply → Result V
  answer (result o) = converted (from_cast o)
  answer (failure e) =
      thrown (python_error (exception_of py (codes "Python callable returned null") e))

  abbrev pub Answers : Reply → List Argument → World → Result V → World → Type 0
  Answers reply args w r w' = (r ≡ answer reply) × Accounts nothing args w r w'

  carried-converted : (v : Raise V) → carried nothing (converted v) ≡ []
  unfolding converted
  carried-converted (ok v) = refl
  carried-converted (raised e) = refl

  take-Ends :
      (message : List ℕ) (reply : Reply) (args : List Argument) (w w1 : World)
      → Owns (argv args) w
      → Accounts just args w (call_result py reply) w1
      → Ends (Answers reply args w) (take_result py from_cast message (call_result py reply) w1)
  unfolding take_result
  take-Ends message (result o) args w w1 h a =
      bind (xdecref py (some o)) _ w1 (xdecref-Ends py (some o) w1 (λ p. omega (arith, h p, a p)))
        λ _ w2 s. ends (
          refl,
          λ p.
              let e = ap (count p) (carried-converted (from_cast o)) in
              omega (arith, a p, s.0 p, e),
        )
  take-Ends message (failure e) args w w1 h a = ends (refl, a)

  taken-Ends :
      (message : List ℕ) (reply : Reply) (args : List Argument) (m : M (Result Pointer)) (w : World)
      → Owns (argv args) w
      → Ends (λ r w'. (r ≡ call_result py reply) × Accounts just args w r w') (m w)
      → Ends (Answers reply args w) ((m >>= take_result py from_cast message) w)
  taken-Ends message reply args m w h c = bind m (take_result py from_cast message) w c λ r w1 s.
      subst
        (λ r.
          Accounts just args w r w1
          → Ends (Answers reply args w) (take_result py from_cast message r w1))
        (sym s.0) (take-Ends message reply args w w1 h) s.1

  -- A call of a Python object from C++ returns the conversion of what the object returns, or
  -- throws what the conversion raises, or throws the exception that the object has set, whatever
  -- the finalizers do to the indicator meanwhile; it gives up the references of its arguments
  -- and no other, and a thrown exception holds its own.
  pub invoke_impl-Answers :
      (callable : ℕ) (args : List Argument) (w : World)
      → Owns (argv args) w
      → Ends
          (Answers (py.vectorcall callable (argv args)) args w)
          (invoke_impl py from_cast (some callable) args w)
  unfolding invoke_impl
  invoke_impl-Answers callable args w h =
      taken-Ends _ (py.vectorcall callable (argv args)) args (call_vector py (some callable) args) w
        h (call_vector-Ends py callable args w h)

  pub invoke_member_impl-Answers :
      (callable : ℕ) (receiver : Argument) (args : List Argument) (w : World)
      → Owns (argv (receiver ∷ args)) w
      → Ends
          (Answers (py.vectorcall callable (argv (receiver ∷ args))) (receiver ∷ args) w)
          (invoke_member_impl py from_cast (some callable) receiver args w)
  unfolding invoke_member_impl
  invoke_member_impl-Answers callable receiver args w h =
      taken-Ends _ (py.vectorcall callable (argv (receiver ∷ args))) (receiver ∷ args)
        (call_vector py (some callable) (receiver ∷ args)) w h
        (call_vector-Ends py callable (receiver ∷ args) w h)

  -- A context without a callable: the call throws a `python_error`.
  pub invoke_impl-null :
      (args : List Argument) (w : World)
      → Owns (argv args) w
      → Ends
          (λ r w'. (e : Error) × (r ≡ thrown (python_error e)) × Accounts nothing args w r w')
          (invoke_impl py from_cast none args w)
  unfolding invoke_impl call_vector take_result
  invoke_impl-null args w h =
      bind (no_callable py args) (take_result py from_cast (codes "Python callable returned null"))
        w (no_callable-Ends py args w h)
        λ r w1 s.
          subst
            (λ r.
              Accounts just args w r w1
              → Ends
                  (λ r w'.
                    (e : Error) × (r ≡ thrown (python_error e)) × Accounts nothing args w r w')
                  (take_result py from_cast (codes "Python callable returned null") r w1))
            (sym s.0)
            (λ a.
              bind (make_error py _) _ w1 (make_error-Ends py _ w1)
                λ e w2 t. ends (e, refl, λ o. omega (arith, a o, t.1 o)))
            s.1
