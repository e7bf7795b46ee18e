-- ===== src/Python/Constructor/Vectorcall.antt =====
-- A call of an exported class gives the constructor the new object in front of the arguments, and
-- leaves the caller's memory as it was.
use mathlib.Core.Path.{subst}
use dynabridge.Prelude.{
  Bool, List, Option, ap, arith, false, length, none, not, refl, some, true, ℕ, ◌+◌, [], ◌∷◌, ◌≡◌,
}
use dynabridge.Python.State.{Interpreter, M, Pointer, World, acquire, set_string, xdecref, ◌>>=◌}
use dynabridge.Python.State.Ledger.{Ends, Gains, acquire-Ends, bind, ends, mono, xdecref-Ends}
use dynabridge.Python.Entry.{vector_count}
use dynabridge.Python.Constructor.{
  Buffer, Place, call_args, copy_args, export_type_vectorcall, return_object, has_offset, in_front,
  on_heap, on_stack, place_of, put_args, remove_args, with_args,
}

-- The slot is as before, and what has been allocated has been freed.
pub record IsRestored (b b' : Buffer) : Type 0 where
  pub slot : b'.slot ≡ b.slot
  pub freed : b'.allocated + b.freed ≡ b'.freed + b.allocated

put-remove :
    (at : Place) (memory : Bool) (self : ℕ) (b b' : Buffer)
    → put_args at memory self b ≡ some b'
    → IsRestored b (remove_args at b.slot b')
unfolding put_args remove_args
put-remove in_front memory self b b' e = ground arith
put-remove on_stack memory self b b' e = ground arith
put-remove on_heap true self b b' e = ground arith
put-remove on_heap false self b b' e = ground arith

copy_args-all : (args : List ℕ) → copy_args (length args) args ≡ args
unfolding copy_args
copy_args-all [] = refl
copy_args-all (a ∷ args) = ap (◌∷◌ a) (copy_args-all args)

call_args_lem :
    (at : Place) (self nargs : ℕ) (args : List ℕ)
    → length args ≡ nargs
    → call_args at self nargs args ≡ self ∷ args
unfolding call_args
call_args_lem in_front self nargs args e = refl
call_args_lem on_stack self nargs args e =
    ap (◌∷◌ self) (subst (λ n. copy_args n args ≡ args) e (copy_args-all args))
call_args_lem on_heap self nargs args e =
    ap (◌∷◌ self) (subst (λ n. copy_args n args ≡ args) e (copy_args-all args))

-- A run that ends, with the equation of it.
with_run :
    {A : Type 0} {P : A → World → Type 0} {run : Option (A × World)}
    → Ends P run
    → Ends (λ a w. (run ≡ some (a, w)) × P a w) run
with_run (ends p) = ends (refl, p)

-- The object where the constructor has returned one, and null where it has returned null.
abbrev pub answer_of : ℕ → Pointer → Pointer
answer_of self none = none
answer_of self (some result) = some self

-- The reference that is given up then.
abbrev pub released : ℕ → Pointer → Pointer
released self none = some self
released self (some result) = some result

-- There is no memory for the arguments.
abbrev pub is_out : Place → Bool → Bool
is_out on_heap memory = not memory
is_out at memory = false

module _ (py : Interpreter) (constructor : List ℕ → ℕ → Option ℕ → M Pointer) where
  -- The constructor returns a new reference, or null.
  abbrev pub ReturnsReference : List ℕ → ℕ → Option ℕ → Type 0
  ReturnsReference args nargs kwnames =
      (w : World) → Ends (λ p w'. Gains (p ∷ []) w w') (constructor args nargs kwnames w)

  -- The constructor is called, with the new object and the arguments, and one reference to the
  -- object is held then; what it returns decides on what is returned, and the other reference is
  -- given up.
  abbrev pub IsCalled : ℕ → List ℕ → ℕ → Option ℕ → World → Pointer → World → Type 0
  IsCalled self args nargs kwnames w p w' =
      (w1 : World) × (r : Pointer) × (w2 : World) × Gains (some self ∷ []) w w1
      × (constructor (self ∷ args) (nargs + 1) kwnames w1 ≡ some (r, w2))
      × (p ≡ answer_of self r)
      × (xdecref py (released self r) w2 ≡ some (tt, w'))

  -- Without memory for the arguments, null is returned; otherwise the constructor is called.
  abbrev pub Calls : Bool → ℕ → List ℕ → ℕ → Option ℕ → World → Pointer → World → Type 0
  Calls true self args nargs kwnames w p w' = p ≡ none
  Calls false self args nargs kwnames w p w' = IsCalled self args nargs kwnames w p w'

  -- How the call comes to what it returns; the caller's memory is as before; and the reference to
  -- what is returned is new, and no other.
  abbrev pub IsConstructed :
      Bool → ℕ → List ℕ → ℕ → Option ℕ → Buffer → World → Pointer × Buffer → World → Type 0
  IsConstructed out self args nargs kwnames b w x w' =
      Calls out self args nargs kwnames w x.0 w' × IsRestored b x.1 × Gains (x.0 ∷ []) w w'

  return_object-Ends :
      (self : ℕ) (b b' : Buffer) (r : Pointer) (w w1 : World)
      → IsRestored b b'
      → Gains (r ∷ some self ∷ []) w w1
      → Ends
          (λ x w'.
            (x.0 ≡ answer_of self r)
            × (xdecref py (released self r) w1 ≡ some (tt, w'))
            × IsRestored b x.1
            × Gains (x.0 ∷ []) w w')
          (return_object py constructor self b' r w1)
  unfolding return_object
  return_object-Ends self b b' none w w1 r g =
      bind (xdecref py (some self)) _ w1
        (with_run (xdecref-Ends py (some self) w1 (λ o. omega (arith, g o))))
        λ _ w2 s. ends (refl, s.0, r, λ o. omega (arith, g o, s.1.0 o))
  return_object-Ends self b b' (some p) w w1 r g =
      bind (xdecref py (some p)) _ w1
        (with_run (xdecref-Ends py (some p) w1 (λ o. omega (arith, g o))))
        λ _ w2 s. ends (refl, s.0, r, λ o. omega (arith, g o, s.1.0 o))

  same : (b : Buffer) → IsRestored b b
  same b = record { slot = refl; freed = omega arith }

  called_lem :
      (at : Place) (self : ℕ) (args : List ℕ) (nargs : ℕ) (kwnames : Option ℕ) (b b' : Buffer)
      (w w1 : World)
      → IsRestored b (remove_args at b.slot b')
      → ReturnsReference (self ∷ args) (nargs + 1) kwnames
      → Gains (some self ∷ []) w w1
      → Ends (IsConstructed false self args nargs kwnames b w) (
          (constructor (self ∷ args) (nargs + 1) kwnames >>= λ r.
          return_object py constructor self (remove_args at b.slot b') r)
            w1)
  called_lem at self args nargs kwnames b b' w w1 r c g =
      bind (constructor (self ∷ args) (nargs + 1) kwnames) _ w1 (with_run (c w1)) λ p w2 s.
        mono
          (return_object-Ends self b (remove_args at b.slot b') p w w2 r
            (λ o. omega (arith, g o, s.1 o)))
          λ x w3 t. ((w1, p, w2, g, s.0, t.0, t.1), t.2, t.3)

  with_args-Ends :
      (at : Place) (memory : Bool) (self : ℕ) (args : List ℕ) (nargs : ℕ) (kwnames : Option ℕ)
      (b : Buffer) (w w1 : World)
      → length args ≡ nargs
      → ReturnsReference (self ∷ args) (nargs + 1) kwnames
      → Gains (some self ∷ []) w w1
      → Ends (IsConstructed (is_out at memory) self args nargs kwnames b w) (
          with_args py constructor at self args nargs kwnames b.slot
            (put_args at memory self b)
            b
            w1)
  unfolding with_args set_string put_args
  with_args-Ends in_front memory self args nargs kwnames b w w1 e c g =
      rw (call_args_lem in_front self nargs args e) (
        called_lem in_front self args nargs kwnames b (record b { slot = self }) w w1
          (put-remove in_front memory self b _ refl) c g)
  with_args-Ends on_stack memory self args nargs kwnames b w w1 e c g =
      rw (call_args_lem on_stack self nargs args e) (
        called_lem on_stack self args nargs kwnames b b w w1
          (put-remove on_stack memory self b _ refl) c g)
  with_args-Ends on_heap true self args nargs kwnames b w w1 e c g =
      rw (call_args_lem on_heap self nargs args e) (
        called_lem on_heap self args nargs kwnames b _ w w1 (put-remove on_heap true self b _ refl)
          c g)
  with_args-Ends on_heap false self args nargs kwnames b w w1 e c g =
      bind (xdecref py (some self)) _ w1 (xdecref-Ends py (some self) w1 (λ o. omega (arith, g o)))
        λ _ w2 s. ends (refl, same b, λ o. omega (arith, g o, s.0 o))

  -- A call of an exported class with as many arguments as it says, of which an object has been
  -- allocated, calls the constructor with the object in front of the arguments, wherever it puts
  -- them; if the constructor returns a new reference or null, the object is returned with one
  -- reference where it has returned a reference, and null with none where it has returned null.
  -- Where there is no memory for a copy of the arguments, null is returned. The slot in front of
  -- the caller's arguments is as before, and no memory is left.
  pub export_type_vectorcall-IsConstructed :
      (memory : Bool) (self : ℕ) (args : List ℕ) (nargsf : ℕ) (kwnames : Option ℕ) (b : Buffer)
      (w : World)
      → length args ≡ vector_count nargsf
      → ReturnsReference (self ∷ args) (vector_count nargsf + 1) kwnames
      → Ends
          (IsConstructed
            (is_out (place_of (has_offset nargsf) (vector_count nargsf)) memory)
            self
            args
            (vector_count nargsf)
            kwnames
            b
            w)
          (export_type_vectorcall py constructor true (some self) memory args nargsf kwnames b w)
  unfolding export_type_vectorcall
  export_type_vectorcall-IsConstructed memory self args nargsf kwnames b w e c =
      let at = place_of (has_offset nargsf) (vector_count nargsf) in
      bind (acquire (some self)) _ w (acquire-Ends (some self) w)
        λ _ w1 s. with_args-Ends at memory self args (vector_count nargsf) kwnames b w w1 e c s.0
