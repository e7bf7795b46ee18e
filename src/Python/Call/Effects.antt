-- ===== src/Python/Call/Effects.antt =====
-- What a call from C++ to Python leaves of the references, and what it returns or throws.
use dynabridge.Prelude.{List, ap, arith, length, map, none, refl, some, ℕ, ◌+◌, [], ◌∷◌, ◌≡◌}
use dynabridge.Prelude.Text.{codes}
use dynabridge.Python.State.{
  Interpreter, M, Pointer, Reply, Result, World, acquire, failure, gain, other, pointers,
  python_error, result, returned, runtime_error, set_string, steal, thrown, xdecref, ◌>>=◌, ◌>>◌,
}
use dynabridge.Python.State.Ledger.{
  Ends, Gains, Owns, Spends, bind, count, ends, mono, steal-Ends, xdecref-Ends,
}
use dynabridge.Python.Error.{make_error}
use dynabridge.Python.Error.Balance.{exception_of, make_error-Ends}
use dynabridge.Python.Call.{
  Argument, call_arg_value, call_tuple, call_vector, call_with_tuple, decref_arg, decref_args,
  fail_call, fill_tuple, finish_call, finish_tuple, leave, no_callable, raw, receive, ref,
}

abbrev pub argv : List Argument → List Pointer
argv args = map call_arg_value args

abbrev raws : List Argument → List Pointer
raws [] = []
raws (raw p ∷ args) = p ∷ raws args
raws (ref p ∷ args) = raws args

abbrev pub refs : List Argument → List Pointer
refs [] = []
refs (raw p ∷ args) = refs args
refs (ref p ∷ args) = p ∷ refs args

split :
    (o : ℕ) (args : List Argument) → count o (argv args) ≡ count o (raws args) + count o (refs args)
split o [] = omega arith
split o (raw p ∷ args) = omega (arith, split o args)
split o (ref p ∷ args) = omega (arith, split o args)

-- The references that a result carries.
abbrev pub carried : {A : Type 0} → (A → List Pointer) → Result A → List Pointer
carried of (returned a) = of a
carried of (thrown (python_error e)) = pointers e
carried of (thrown (other e)) = []

-- The references of the arguments are given up, and those of the result are held.
abbrev pub Accounts :
    {A : Type 0} → (A → List Pointer) → List Argument → World → Result A → World → Type 0
Accounts of args w r w' =
    (o : ℕ) → w'.held o + count o (argv args) ≡ w.held o + count o (carried of r)

abbrev pub just : Pointer → List Pointer
just p = p ∷ []

abbrev pub nothing : {A : Type 0} → A → List Pointer
nothing a = []

abbrev with_one : ℕ → World → World
with_one o w = record w { held = gain (some o) w.held }

gain-Gains : (o : ℕ) (w : World) → Gains (some o ∷ []) w (with_one o w)
gain-Gains o w p = ground arith

module _ (py : Interpreter) where
  decref_args-Ends :
      (args : List Argument) (w : World)
      → Owns (raws args) w
      → Ends (λ _ w'. Spends (raws args) w w') (decref_args py args w)
  unfolding decref_args decref_arg
  decref_args-Ends [] w h = ends (λ o. omega arith)
  decref_args-Ends (raw p ∷ args) w h =
      bind (xdecref py p) (λ _. decref_args py args) w
        (xdecref-Ends py p w (λ o. omega (arith, h o)))
        λ _ w1 s.
          mono (decref_args-Ends args w1 (λ o. omega (arith, h o, s.0 o)))
            λ _ w2 t o. omega (arith, s.0 o, t o)
  decref_args-Ends (ref p ∷ args) w h = decref_args-Ends args w h

  pub leave-Ends :
      (args : List Argument) (w : World)
      → Owns (refs args) w
      → Ends (λ _ w'. Spends (refs args) w w') (leave py args w)
  unfolding leave
  leave-Ends [] w h = ends (λ o. omega arith)
  leave-Ends (raw p ∷ args) w h = leave-Ends args w h
  leave-Ends (ref p ∷ args) w h =
      bind (xdecref py p) (λ _. leave py args) w (xdecref-Ends py p w (λ o. omega (arith, h o)))
        λ _ w1 s.
          mono (leave-Ends args w1 (λ o. omega (arith, h o, s.0 o)))
            λ _ w2 t o. omega (arith, s.0 o, t o)

  give_up-Ends :
      {A : Type 0} (args : List Argument) (k : M A) (w : World) (Q : A → World → Type 0)
      → Owns (argv args) w
      → ((w' : World) → Spends (argv args) w w' → Ends Q (k w'))
      → Ends Q ((decref_args py args >> (leave py args >> k)) w)
  give_up-Ends args k w Q h next =
      bind (decref_args py args) (λ _. leave py args >> k) w
        (decref_args-Ends args w (λ o. omega (arith, h o, split o args)))
        λ _ w1 s.
          bind (leave py args) (λ _. k) w1
            (leave-Ends args w1 (λ o. omega (arith, h o, s o, split o args)))
            λ _ w2 t. next w2 (λ o. omega (arith, s o, t o, split o args))

  fail_call-Ends :
      (args : List Argument) (w : World)
      → Owns (argv args) w
      → Ends
          (λ r w'.
            (r
              ≡ thrown
                  (python_error (exception_of py (codes "Python callable returned null") w.error)))
            × Accounts just args w r w')
          (fail_call py args w)
  unfolding fail_call
  fail_call-Ends args w h =
      bind (make_error py (codes "Python callable returned null")) _ w (make_error-Ends py _ w)
        λ e w1 s.
          give_up-Ends args _ w1 _ (λ o. omega (arith, h o, s.1 o))
            λ w2 t. ends (ap (λ e. thrown (python_error e)) s.0, λ o. omega (arith, s.1 o, t o))

  -- What a call comes to where the object is called.
  abbrev pub call_result : Reply → Result Pointer
  call_result (result o) = returned (some o)
  call_result (failure e) =
      thrown (python_error (exception_of py (codes "Python callable returned null") e))

  finish_call-Ends :
      (reply : Reply) (args : List Argument) (w : World)
      → Owns (argv args) w
      → Ends
          (λ r w'. (r ≡ call_result reply) × Accounts just args w r w')
          ((receive reply >>= finish_call py args) w)
  unfolding receive finish_call acquire
  finish_call-Ends (result o) args w h =
      let g = gain-Gains o w in
      give_up-Ends args _ (with_one o w) _ (λ o. omega (arith, h o, g o))
        λ w2 t. ends (refl, λ o. omega (arith, g o, t o))
  finish_call-Ends (failure e) args w h = fail_call-Ends args (record w { error = e }) h

  pub call_vector-Ends :
      (callable : ℕ) (args : List Argument) (w : World)
      → Owns (argv args) w
      → Ends
          (λ r w'.
            (r ≡ call_result (py.vectorcall callable (argv args))) × Accounts just args w r w')
          (call_vector py (some callable) args w)
  unfolding call_vector
  call_vector-Ends callable args w h =
      finish_call-Ends (py.vectorcall callable (argv args)) args w h

  pub no_callable-Ends :
      (args : List Argument) (w : World)
      → Owns (argv args) w
      → Ends (λ r w'. (r ≡ returned none) × Accounts just args w r w') (no_callable py args w)
  unfolding no_callable set_string
  no_callable-Ends args w h =
      bind (decref_args py args) _ w
        (decref_args-Ends args w (λ o. omega (arith, h o, split o args)))
        λ _ w1 s.
          bind (leave py args) _
            (record w1 {
              error =
                  py.string_error runtime_error (codes "dynabridge Python context has no callable");
            })
            (leave-Ends args _ (λ o. omega (arith, h o, s o, split o args)))
            λ _ w2 t. ends (refl, λ o. omega (arith, s o, t o, split o args))

  fill_tuple-Ends :
      (args : List Argument) (w : World)
      → Owns (argv args) w
      → Ends (λ _ w'. Spends (argv args) w w') (fill_tuple py args w)
  unfolding fill_tuple
  fill_tuple-Ends [] w h = ends (λ o. omega arith)
  fill_tuple-Ends (a ∷ args) w h =
      bind (steal (call_arg_value a)) (λ _. fill_tuple py args) w
        (steal-Ends (call_arg_value a) w (λ o. omega (arith, h o)))
        λ _ w1 s.
          mono (fill_tuple-Ends args w1 (λ o. omega (arith, h o, s.0 o)))
            λ _ w2 t o. omega (arith, s.0 o, t o)

  -- The tuple is held, and the arguments are its own.
  finish_tuple-Ends :
      (reply : Reply) (tuple : ℕ) (w : World)
      → Owns (some tuple ∷ []) w
      → Ends
          (λ r w'.
            (r ≡ call_result reply)
            × ((o : ℕ)
                → w'.held o + count o (some tuple ∷ []) ≡ w.held o + count o (carried just r)))
          ((receive reply >>= finish_tuple py (some tuple)) w)
  unfolding receive finish_tuple acquire
  finish_tuple-Ends (result o) tuple w h =
      let g = gain-Gains o w in
      bind (xdecref py (some tuple)) _ (with_one o w)
        (xdecref-Ends py (some tuple) _ (λ o. omega (arith, h o, g o)))
        λ _ w2 t. ends (refl, λ o. omega (arith, g o, t.0 o))
  finish_tuple-Ends (failure e) tuple w h =
      bind (make_error py (codes "Python callable returned null")) _ (record w { error = e })
        (make_error-Ends py _ (record w { error = e }))
        λ x w1 s.
          bind (xdecref py (some tuple)) _ w1
            (xdecref-Ends py (some tuple) w1 (λ o. omega (arith, h o, s.1 o)))
            λ _ w2 t. ends (ap (λ e. thrown (python_error e)) s.0, λ o. omega (arith, s.1 o, t.0 o))

  -- `call_tuple` comes to what `call_vector` comes to, if there is memory for the tuple.
  pub call_tuple-Ends :
      (callable tuple : ℕ) (args : List Argument) (w : World)
      → py.new_tuple (length args) ≡ result tuple
      → Owns (argv args) w
      → Ends
          (λ r w'.
            (r ≡ call_result (py.vectorcall callable (argv args))) × Accounts just args w r w')
          (call_tuple py (some callable) args w)
  unfolding call_tuple call_with_tuple receive acquire
  call_tuple-Ends callable tuple args w e h =
      let g = gain-Gains tuple w in
      rw e (
        bind (fill_tuple py args) _ (with_one tuple w)
          (fill_tuple-Ends args _ (λ o. omega (arith, h o, g o)))
          λ _ w2 t.
            mono
              (finish_tuple-Ends (py.vectorcall callable (argv args)) tuple w2
                (λ o. omega (arith, h o, g o, t o)))
              λ r w3 u. (u.0, λ o. omega (arith, g o, t o, u.1 o)))
