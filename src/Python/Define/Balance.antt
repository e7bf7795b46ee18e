-- ===== src/Python/Define/Balance.antt =====
-- Who owns the references of the registered types and callables.
use dynabridge.Prelude.{
  Bool, List, Option, arith, false, none, refl, some, true, ℕ, ◌&&◌, [], ◌∷◌, ◌≡◌,
}
use dynabridge.Python.State.{
  Error, Interpreter, Pointer, Reply, Result, World, acquire, failure, gain, is_null, result,
  returned, steal, thrown, xdecref, ◌>>=◌,
}
use dynabridge.Python.State.Ledger.{
  Ends, Gains, Owns, Spends, bind, ends, mono, steal-Ends, xdecref-Ends,
}
use dynabridge.Python.Call.{receive}
use dynabridge.Python.Define.{
  Making, Target, callable_type, class_of_type, class_target, define, define_class_impl,
  define_constructor_impl, define_impl, in_class, in_module, make_callable_object, name_twice,
  new_object, second_name,
}
use dynabridge.Python.Ref.{decref, define_in_class, define_in_module}

abbrev with_one : ℕ → World → World
with_one o w = record w { held = gain (some o) w.held }

gained : (o : ℕ) (w : World) → Gains (some o ∷ []) w (with_one o w)
gained o w p = ground arith

-- Whether there is a type, and the object that is made.
abbrev has_type : Bool → Option Error → Bool
has_type true attempt = true
has_type false none = true
has_type false (some e) = false

abbrev new_pointer : Bool → Reply → Pointer
new_pointer false reply = none
new_pointer true (result o) = some o
new_pointer true (failure e) = none

abbrev pub pointer_of : Making → Pointer
pointer_of m = new_pointer (has_type m.ready m.attempt) m.new

module _ (py : Interpreter) where
  -- `define` gives up the reference, whether it succeeds or throws.
  define-Ends :
      (target : Target) (success : Bool) (o : ℕ) (w : World)
      → Owns (some o ∷ []) w
      → Ends (λ r w'. Spends (some o ∷ []) w w') (define py target success (some o) w)
  unfolding define define_in_module define_in_class decref
  define-Ends in_module true o w h =
      bind (steal (some o)) _ w (steal-Ends (some o) w h) λ _ w1 s. ends s.0
  define-Ends in_module false o w h =
      bind (xdecref py (some o)) _ w (xdecref-Ends py (some o) w h) λ _ w1 s. ends s.0
  define-Ends in_class true o w h =
      bind (xdecref py (some o)) _ w (xdecref-Ends py (some o) w h) λ _ w1 s. ends s.0
  define-Ends in_class false o w h =
      bind (xdecref py (some o)) _ w (xdecref-Ends py (some o) w h) λ _ w1 s. ends s.0

  -- A result that owns what it returns.
  abbrev pub owned_by : Result Pointer → List Pointer
  owned_by (returned p) = p ∷ []
  owned_by (thrown t) = []

  -- What is returned is the type that has been made.
  abbrev pub IsType : Reply → Result Pointer → Type 0
  IsType reply (returned p) = (t : ℕ) × (reply ≡ result t) × (p ≡ some t)
  IsType reply (thrown e) = Unit

  class_target-Ends :
      (t : ℕ) (r : Result (Unit {0})) (w w1 : World)
      → Gains (some t ∷ []) w w1
      → Ends (λ r w'. Gains (owned_by r) w w' × IsType (result t) r) (class_target py (some t) r w1)
  unfolding class_target
  class_target-Ends t (returned u) w w1 g = ends (g, (t, refl, refl))
  class_target-Ends t (thrown e) w w1 g =
      bind (xdecref py (some t)) _ w1 (xdecref-Ends py (some t) w1 (λ o. omega (arith, g o)))
        λ _ w2 s. ends ((λ o. omega (arith, g o, s.0 o)), tt)

  pub define_class_impl-Ends :
      (target : Target) (success : Bool) (reply : Reply) (w : World)
      → Ends
          (λ r w'. Gains (owned_by r) w w' × IsType reply r)
          (define_class_impl py target success reply w)
  unfolding define_class_impl class_of_type receive acquire
  define_class_impl-Ends target success (failure e) w = ends ((λ o. omega arith), tt)
  define_class_impl-Ends target success (result t) w =
      let once = gained t w in
      let w1 = with_one t w in
      let twice = gained t w1 in
      let w2 = with_one t w1 in
      bind (define py target success (some t)) (class_target py (some t)) w2
        (define-Ends target success t w2 (λ o. omega (arith, once o, twice o)))
        λ r w3 s. class_target-Ends t r w w3 (λ o. omega (arith, once o, twice o, s o))

  new_object-Ends :
      (new : Reply) (ready : Bool) (w : World)
      → Ends
          (λ made w'. (made.0 ≡ new_pointer true new) × Gains (new_pointer true new ∷ []) w w')
          (new_object new (true, ready) w)
  unfolding new_object receive acquire
  new_object-Ends (result o) ready w = ends (refl, gained o w)
  new_object-Ends (failure e) ready w = ends (refl, λ p. omega arith)

  made-Ends :
      (ready : Bool) (attempt : Option Error) (new : Reply) (w : World)
      → Ends
          (λ made w'.
            (made.0 ≡ new_pointer (has_type ready attempt) new)
            × Gains (new_pointer (has_type ready attempt) new ∷ []) w w')
          ((callable_type ready attempt >>= new_object new) w)
  unfolding callable_type new_object
  made-Ends true attempt new w = new_object-Ends new true w
  made-Ends false none new w = new_object-Ends new true w
  made-Ends false (some e) new w = ends (refl, λ p. omega arith)

  make_callable_object-Ends :
      (m : Making) (w : World)
      → Ends
          (λ made w'. (made.0 ≡ pointer_of m) × Gains (pointer_of m ∷ []) w w')
          (make_callable_object m w)
  unfolding make_callable_object
  make_callable_object-Ends m w = made-Ends m.ready m.attempt m.new w

  define-null :
      (target : Target) (w : World) → Ends (λ _ w'. Gains [] w w') (define py target false none w)
  unfolding define define_in_module define_in_class xdecref
  define-null in_module w = ends (λ p. omega arith)
  define-null in_class w = ends (λ p. omega arith)

  define-Gains :
      (target : Target) (success : Bool) (p : Pointer) (w w1 : World)
      → (is_null p && success) ≡ false
      → Gains (p ∷ []) w w1
      → Ends (λ _ w'. Gains [] w w') (define py target success p w1)
  define-Gains target success (some o) w w1 safe g =
      mono (define-Ends target success o w1 (λ p. omega (arith, g p)))
        λ _ w2 s p. omega (arith, g p, s p)
  define-Gains target false none w w1 safe g =
      mono (define-null target w1) λ _ w2 s p. omega (arith, g p, s p)
  define-Gains target true none w w1 safe g = ground arith

  pub define_impl-Gains :
      (target : Target) (success : Bool) (m : Making) (w : World)
      → (is_null (pointer_of m) && success) ≡ false
      → Ends (λ _ w'. Gains [] w w') (define_impl py target success m w)
  unfolding define_impl
  define_impl-Gains target success m w safe =
      bind (make_callable_object m) _ w (make_callable_object-Ends m w)
        λ made w1 s. rw s.0 (define-Gains target success (pointer_of m) w w1 safe s.1)

  second_name-Gains :
      (o : ℕ) (second : Bool) (r : Result (Unit {0})) (w w1 : World)
      → Gains (some o ∷ []) w w1
      → Ends (λ _ w'. Gains [] w w') (second_name py (some o) second r w1)
  unfolding second_name
  second_name-Gains o second (returned u) w w1 g = define-Gains in_class second (some o) w w1 refl g
  second_name-Gains o second (thrown t) w w1 g =
      bind (xdecref py (some o)) _ w1 (xdecref-Ends py (some o) w1 (λ p. omega (arith, g p)))
        λ _ w2 s. ends (λ p. omega (arith, g p, s.0 p))

  name_twice-Gains :
      (first second : Bool) (p : Pointer) (w w1 : World)
      → is_null p ≡ false
      → Gains (p ∷ []) w w1
      → Ends (λ _ w'. Gains [] w w') (name_twice py first second p w1)
  unfolding name_twice acquire
  name_twice-Gains first second none w w1 safe g = ground arith
  name_twice-Gains first second (some o) w w1 safe g =
      let more = gained o w1 in
      let w2 = with_one o w1 in
      bind (define py in_class first (some o)) (second_name py (some o) second) w2
        (define-Ends in_class first o w2 (λ p. omega (arith, g p, more p)))
        λ r w3 s. second_name-Gains o second r w w3 (λ p. omega (arith, g p, more p, s p))

  pub define_constructor_impl-Gains :
      (m : Making) (first second : Bool) (w : World)
      → is_null (pointer_of m) ≡ false
      → Ends (λ _ w'. Gains [] w w') (define_constructor_impl py m first second w)
  unfolding define_constructor_impl
  define_constructor_impl-Gains m first second w safe =
      bind (make_callable_object m) _ w (make_callable_object-Ends m w)
        λ made w1 s. rw s.0 (name_twice-Gains first second (pointer_of m) w w1 safe s.1)
