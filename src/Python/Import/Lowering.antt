-- ===== src/Python/Import/Lowering.antt =====
-- The arguments of an imported call: what they are lowered to, and who owns them.
use mathlib.Core.Path.{subst}
use dynabridge.Prelude.{
  Bool, Bool-cases, List, ap, arith, false, inl, inr, none, refl, some, suc, sym, true, ℕ, [], ◌∷◌,
  ◌≡◌,
}
use dynabridge.Raise.{Raise, ok, raised}
use dynabridge.Python.State.{
  Interpreter, M, Pointer, Reply, Result, World, acquire, failure, result, returned, thrown,
  xdecref, ◌>>=◌,
}
use dynabridge.Python.State.Ledger.{Ends, Gains, bind, ends, xdecref-Ends}
use dynabridge.Python.Call.{Argument, converted, leave, receive, ref}
use dynabridge.Python.Call.Effects.{argv, carried, just, leave-Ends, refs}
use dynabridge.Python.Convert.{Objects, to_cast}
use dynabridge.Python.Convert.Making.{Makes, object_of, to_cast-Makes}
use dynabridge.Python.Import.{
  Source, before, behind, callable, keep, keep_rest, lower, lower_all, object, own_cast,
  own_import_value, to_dynamic_object, value,
}
use dynabridge.Python.Ref.{make}

abbrev pub null_or : Reply → Pointer
null_or (result o) = some o
null_or (failure e) = none

-- The object of an argument, or the exception of its conversion. A C++ callable of which no object
-- can be made becomes null.
abbrev pub source_object : Objects → Source → Raise Pointer
source_object api (value v) = object_of api v
source_object api (object p) = ok p
source_object api (callable reply) = ok (null_or reply)

-- An argument and those that follow it, for whether it is the one that is lowered first: where both
-- cannot be converted, the exception is that of what is lowered first.
abbrev pub both : Bool → Raise Pointer → Raise (List Argument) → Raise (List Argument)
both true (raised e) rest = raised e
both true (ok p) (raised e) = raised e
both true (ok p) (ok args) = ok (ref p ∷ args)
both false one (raised e) = raised e
both false (raised e) (ok args) = raised e
both false (ok p) (ok args) = ok (ref p ∷ args)

-- The objects of all arguments, or the exception of the first in the order of the lowering that has
-- one.
abbrev pub args_of : Objects → (ℕ → Bool) → ℕ → List Source → Raise (List Argument)
args_of api first i [] = ok []
args_of api first i (s ∷ sources) =
    both (first i) (source_object api s) (args_of api first (suc i) sources)

-- The arguments own their objects.
abbrev AreRefs : Raise (List Argument) → Type 0
AreRefs (raised e) = Unit
AreRefs (ok args) = refs args ≡ argv args

both-AreRefs :
    (first : Bool) (x : Raise Pointer) (y : Raise (List Argument))
    → AreRefs y
    → AreRefs (both first x y)
both-AreRefs true (raised e) y h = tt
both-AreRefs true (ok p) (raised e) h = tt
both-AreRefs true (ok p) (ok args) h = ap (◌∷◌ p) h
both-AreRefs false x (raised e) h = tt
both-AreRefs false (raised e) (ok args) h = tt
both-AreRefs false (ok p) (ok args) h = ap (◌∷◌ p) h

args_of-AreRefs :
    (api : Objects) (first : ℕ → Bool) (i : ℕ) (sources : List Source)
    → AreRefs (args_of api first i sources)
args_of-AreRefs api first i [] = refl
args_of-AreRefs api first i (s ∷ sources) =
    both-AreRefs (first i) (source_object api s) (args_of api first (suc i) sources)
      (args_of-AreRefs api first (suc i) sources)

abbrev pub MakesAll : Raise (List Argument) → World → Result (List Argument) → World → Type 0
MakesAll x w r w' = (r ≡ converted x) × Gains (carried argv r) w w'

module _ (py : Interpreter) (api : Objects) where
  own_cast-id : (r : Result Pointer) (w : World) → own_cast py api r w ≡ some (r, w)
  unfolding own_cast own_import_value make
  own_cast-id (returned p) w = refl
  own_cast-id (thrown t) w = refl

  received :
      (reply : Reply) (w : World)
      → Ends (Makes (ok (null_or reply)) w) ((receive reply >>= own_import_value py api) w)
  unfolding receive acquire own_import_value make converted
  received (result o) w = ends (refl, λ p. ground arith)
  received (failure e) w = ends (refl, λ p. omega arith)

  pub lower-Makes :
      (s : Source) (w : World) → Ends (Makes (source_object api s) w) (lower py api s w)
  unfolding lower to_dynamic_object own_import_value make acquire converted
  lower-Makes (value v) w =
      bind (to_cast api v) (own_cast py api) w (to_cast-Makes api v w)
        λ r w1 m. rw (own_cast-id r w1) (ends m)
  lower-Makes (object p) w = ends (refl, λ o. ground arith)
  lower-Makes (callable reply) w = received reply w

  keep-MakesAll :
      (p : Pointer) (y : Raise (List Argument)) (w w1 w2 : World)
      → Gains (p ∷ []) w w1
      → Gains (carried argv (converted y)) w1 w2
      → Ends (MakesAll (both true (ok p) y) w) (keep py api p (converted y) w2)
  unfolding keep converted
  keep-MakesAll p (ok args) w w1 w2 g k = ends (refl, λ o. omega (arith, g o, k o))
  keep-MakesAll p (raised e) w w1 w2 g k =
      bind (xdecref py p) _ w2 (xdecref-Ends py p w2 (λ o. omega (arith, g o, k o)))
        λ _ w3 s. ends (refl, λ o. omega (arith, g o, k o, s.0 o))

  before-MakesAll :
      (x : Raise Pointer) (y : Raise (List Argument)) (rest : M (Result (List Argument)))
      (w w1 : World)
      → ((w' : World) → Ends (MakesAll y w') (rest w'))
      → Gains (carried just (converted x)) w w1
      → Ends (MakesAll (both true x y) w) (before py api rest (converted x) w1)
  unfolding before converted
  before-MakesAll (raised e) y rest w w1 h g = ends (refl, g)
  before-MakesAll (ok p) y rest w w1 h g = bind rest (keep py api p) w1 (h w1) λ r w2 s.
      subst
        (λ r.
          Gains (carried argv r) w1 w2
          → Ends (MakesAll (both true (ok p) y) w) (keep py api p r w2))
        (sym s.0) (keep-MakesAll p y w w1 w2 g) s.1

  keep_rest-MakesAll :
      (args : List Argument) (x : Raise Pointer) (w w1 w2 : World)
      → refs args ≡ argv args
      → Gains (argv args) w w1
      → Gains (carried just (converted x)) w1 w2
      → Ends (MakesAll (both false x (ok args)) w) (keep_rest py api args (converted x) w2)
  unfolding keep_rest converted
  keep_rest-MakesAll args (ok p) w w1 w2 e g k = ends (refl, λ o. omega (arith, g o, k o))
  keep_rest-MakesAll args (raised x) w w1 w2 e g k =
      bind (leave py args) _ w2 (leave-Ends py args w2 (λ o. rw e (omega (arith, g o, k o))))
        λ _ w3 s. ends (refl, λ o. let t = rw e at (s o) in omega (arith, g o, k o, t))

  behind-MakesAll :
      (x : Raise Pointer) (y : Raise (List Argument)) (one : M (Result Pointer)) (w w1 : World)
      → AreRefs y
      → ((w' : World) → Ends (Makes x w') (one w'))
      → Gains (carried argv (converted y)) w w1
      → Ends (MakesAll (both false x y) w) (behind py api one (converted y) w1)
  unfolding behind converted
  behind-MakesAll x (raised e) one w w1 a h g = ends (refl, g)
  behind-MakesAll x (ok args) one w w1 a h g = bind one (keep_rest py api args) w1 (h w1) λ r w2 s.
      subst
        (λ r.
          Gains (carried just r) w1 w2
          → Ends (MakesAll (both false x (ok args)) w) (keep_rest py api args r w2))
        (sym s.0) (keep_rest-MakesAll args x w w1 w2 a g) s.1

  lower_first :
      (first : ℕ → Bool) (i : ℕ) (s : Source) (sources : List Source) (w : World)
      → ((w' : World)
          → Ends
              (MakesAll (args_of api first (suc i) sources) w')
              (lower_all py api first (suc i) sources w'))
      → Ends
          (MakesAll (both true (source_object api s) (args_of api first (suc i) sources)) w)
          ((lower py api s >>= before py api (lower_all py api first (suc i) sources)) w)
  lower_first first i s sources w h =
      let rest = lower_all py api first (suc i) sources in
      let y = args_of api first (suc i) sources in
      bind (lower py api s) (before py api rest) w (lower-Makes s w) λ r w1 m.
        subst
          (λ r.
            Gains (carried just r) w w1
            → Ends (MakesAll (both true (source_object api s) y) w) (before py api rest r w1))
          (sym m.0) (before-MakesAll (source_object api s) y rest w w1 h) m.1

  lower_last :
      (first : ℕ → Bool) (i : ℕ) (s : Source) (sources : List Source) (w : World)
      → Ends
          (MakesAll (args_of api first (suc i) sources) w)
          (lower_all py api first (suc i) sources w)
      → Ends
          (MakesAll (both false (source_object api s) (args_of api first (suc i) sources)) w)
          ((lower_all py api first (suc i) sources >>= behind py api (lower py api s)) w)
  lower_last first i s sources w h =
      let y = args_of api first (suc i) sources in
      bind (lower_all py api first (suc i) sources) (behind py api (lower py api s)) w h λ r w1 m.
        subst
          (λ r.
            Gains (carried argv r) w w1
            → Ends (MakesAll (both false (source_object api s) y) w)
                (behind py api (lower py api s) r w1))
          (sym m.0)
          (behind-MakesAll (source_object api s) y (lower py api s) w w1
            (args_of-AreRefs api first (suc i) sources) (lower-Makes s))
          m.1

  -- The arguments own the references to their objects, or an exception is thrown, and those that
  -- were lowered have given theirs up.
  pub lower_all-MakesAll :
      (first : ℕ → Bool) (i : ℕ) (sources : List Source) (w : World)
      → Ends (MakesAll (args_of api first i sources) w) (lower_all py api first i sources w)
  unfolding lower_all converted
  lower_all-MakesAll first i [] w = ends (refl, λ o. omega arith)
  lower_all-MakesAll first i (s ∷ sources) w =
      let rest = lower_all-MakesAll first (suc i) sources in
      elim (Bool-cases (first i)) [
        | inl e ↦ rw e (lower_first first i s sources w rest)
        | inr e ↦ rw e (lower_last first i s sources w (rest w))
      ]
