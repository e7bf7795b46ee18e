-- ===== src/Python/Import/Outcome.antt =====
-- A call of an imported Python object, from the arguments of the C++ caller to what comes back.
use mathlib.Core.Path.{subst}
use dynabridge.Prelude.{All, Bool, List, arith, false, refl, some, sym, true, ℕ, ◌∷◌, ◌≡◌}
use dynabridge.Raise.{Raise, ok, raised}
use dynabridge.Python.State.{
  Interpreter, M, Pointer, Reply, Result, World, failure, other, result, thrown, ◌>>=◌,
}
use dynabridge.Python.State.Ledger.{Ends, Gains, bind, ends, mono}
use dynabridge.Python.Call.{Argument, call_vector, converted, invoke_member_impl, ref}
use dynabridge.Python.Call.Effects.{argv, call_result, call_vector-Ends, carried, just, nothing}
use dynabridge.Python.Call.Answer.{answer, invoke_impl-Answers, invoke_member_impl-Answers}
use dynabridge.Python.Convert.{Objects}
use dynabridge.Python.Import.{
  Source, call_lowered, callable, call_member, construct, construct_lowered, invoke, invoke_member,
  lower_all, take_object,
}
use dynabridge.Python.Import.Lowering.{args_of, both, lower_all-MakesAll, source_object}
use dynabridge.Python.Ref.{reset}
use dynabridge.Python.State.{xdecref}

-- An object can be made of a C++ callable.
abbrev pub IsThere : Source → Type 0
IsThere (callable (failure e)) = ⊥
IsThere s = Unit

module _ (py : Interpreter) (api : Objects) where
  -- From the lowering on, whatever it comes to.
  lowered-Ends :
      (first : ℕ → Bool) {V : Type 0} {Q : Result V → World → Type 0}
      (f : Result (List Argument) → M (Result V)) (sources : List Source) (w : World)
      → ((w1 : World)
          → Gains (carried argv (converted (args_of api first 0 sources))) w w1
          → Ends Q (f (converted (args_of api first 0 sources)) w1))
      → Ends Q ((lower_all py api first 0 sources >>= f) w)
  lowered-Ends first {Q = Q} f sources w next =
      bind (lower_all py api first 0 sources) f w (lower_all-MakesAll py api first 0 sources w)
        λ r w1 m. subst (λ r. Gains (carried argv r) w w1 → Ends Q (f r w1)) (sym m.0) (next w1) m.1

  module _ {V : Type 0} (from_cast : ℕ → Raise V) where
    -- What a call comes to: the exception of the argument whose lowering throws, or else the
    -- answer of the object that is called with the objects of the arguments.
    abbrev pub called : ℕ → Raise (List Argument) → Result V
    called callee (ok args) = answer py from_cast (py.vectorcall callee (argv args))
    called callee (raised e) = thrown (other e)

    -- What comes out, and the references that it carries, and no other.
    abbrev pub Comes : Result V → World → Result V → World → Type 0
    Comes x w r w' = (r ≡ x) × Gains (carried nothing r) w w'

    call_lowered-Comes :
        (callee : ℕ) (x : Raise (List Argument)) (w w1 : World)
        → Gains (carried argv (converted x)) w w1
        → Ends
            (Comes (called callee x) w)
            (call_lowered py api from_cast (some callee) (converted x) w1)
    unfolding call_lowered converted
    call_lowered-Comes callee (ok args) w w1 g =
        mono (invoke_impl-Answers py from_cast callee args w1 (λ o. omega (arith, g o)))
          λ r w2 a. (a.0, λ o. omega (arith, g o, a.1 o))
    call_lowered-Comes callee (raised e) w w1 g = ends (refl, g)

    member_called :
        (callee : ℕ) (p : Pointer) (args : List Argument) (w w1 : World)
        → Gains (p ∷ argv args) w w1
        → Ends
            (Comes (called callee (ok (ref p ∷ args))) w)
            (invoke_member_impl py from_cast (some callee) (ref p) args w1)
    member_called callee p args w w1 g =
        mono
          (invoke_member_impl-Answers py from_cast callee (ref p) args w1 (λ o. omega (arith, g o)))
          λ r w2 a. (a.0, λ o. omega (arith, g o, a.1 o))

    call_member-Comes :
        (callee : ℕ) (front : Bool) (x : Raise Pointer) (y : Raise (List Argument)) (w w1 : World)
        → Gains (carried argv (converted (both front x y))) w w1
        → Ends
            (Comes (called callee (both front x y)) w)
            (call_member py api from_cast (some callee) (converted (both front x y)) w1)
    unfolding call_member converted
    call_member-Comes callee true (ok p) (ok args) w w1 g = member_called callee p args w w1 g
    call_member-Comes callee true (ok p) (raised e) w w1 g = ends (refl, g)
    call_member-Comes callee true (raised e) y w w1 g = ends (refl, g)
    call_member-Comes callee false (ok p) (ok args) w w1 g = member_called callee p args w w1 g
    call_member-Comes callee false (raised e) (ok args) w w1 g = ends (refl, g)
    call_member-Comes callee false x (raised e) w w1 g = ends (refl, g)

    -- A call of an imported function, whose arguments are lowered each in front of those that
    -- follow it or behind them, as from the first to the last or from the last to the first,
    -- throws the exception of the first argument in that order that cannot be converted, or else
    -- comes to what the Python object answers that is called with the objects of the arguments in
    -- their own order, if an object can be made of every C++ callable among them. No reference is
    -- lost or left: only an exception of Python holds its own.
    pub invoke-Comes :
        (first : ℕ → Bool) (callee : ℕ) (sources : List Source) (w : World)
        → All IsThere sources
        → Ends
            (Comes (called callee (args_of api first 0 sources)) w)
            (invoke py api from_cast first (some callee) sources w)
    unfolding invoke
    invoke-Comes first callee sources w h =
        lowered-Ends first (call_lowered py api from_cast (some callee)) sources w
          (call_lowered-Comes callee (args_of api first 0 sources) w)

    -- The same of a member, whose receiver is lowered with the arguments.
    pub invoke_member-Comes :
        (first : ℕ → Bool) (callee : ℕ) (receiver : Source) (sources : List Source) (w : World)
        → All IsThere (receiver ∷ sources)
        → Ends
            (Comes (called callee (args_of api first 0 (receiver ∷ sources))) w)
            (invoke_member py api from_cast first (some callee) receiver sources w)
    unfolding invoke_member
    invoke_member-Comes first callee receiver sources w h =
        lowered-Ends first (call_member py api from_cast (some callee)) (receiver ∷ sources) w (
          call_member-Comes callee (first 0) (source_object api receiver)
            (args_of api first 1 sources) w)

  -- What a construction comes to: the object that the class returns, or an exception.
  abbrev pub constructed : ℕ → Raise (List Argument) → Result Pointer
  constructed callee (ok args) = call_result py (py.vectorcall callee (argv args))
  constructed callee (raised e) = thrown (other e)

  abbrev pub Constructs : Result Pointer → World → Result Pointer → World → Type 0
  Constructs x w r w' = (r ≡ x) × Gains (carried just r) w w'

  take_object-Constructs :
      (reply : Reply) (w w1 : World)
      → Gains (carried just (call_result py reply)) w w1
      → Ends (Constructs (call_result py reply) w) (take_object py api (call_result py reply) w1)
  unfolding take_object reset xdecref
  take_object-Constructs (result o) w w1 g = ends (refl, g)
  take_object-Constructs (failure e) w w1 g = ends (refl, g)

  construct_lowered-Constructs :
      (callee : ℕ) (x : Raise (List Argument)) (w w1 : World)
      → Gains (carried argv (converted x)) w w1
      → Ends
          (Constructs (constructed callee x) w)
          (construct_lowered py api (some callee) (converted x) w1)
  unfolding construct_lowered converted
  construct_lowered-Constructs callee (ok args) w w1 g =
      let reply = py.vectorcall callee (argv args) in
      bind (call_vector py (some callee) args) (take_object py api) w1
        (call_vector-Ends py callee args w1 (λ o. omega (arith, g o)))
        λ r w2 a.
          subst
            (λ r.
              Gains (carried just r) w w2
              → Ends (Constructs (call_result py reply) w) (take_object py api r w2))
            (sym a.0) (take_object-Constructs reply w w2) (λ o. omega (arith, g o, a.1 o))
  construct_lowered-Constructs callee (raised e) w w1 g = ends (refl, g)

  -- The construction of an imported object, in each such order of its arguments: the handle owns
  -- the one reference that is new.
  pub construct-Constructs :
      (first : ℕ → Bool) (callee : ℕ) (sources : List Source) (w : World)
      → All IsThere sources
      → Ends
          (Constructs (constructed callee (args_of api first 0 sources)) w)
          (construct py api first (some callee) sources w)
  unfolding construct
  construct-Constructs first callee sources w h =
      lowered-Ends first (construct_lowered py api (some callee)) sources w
        (construct_lowered-Constructs callee (args_of api first 0 sources) w)
