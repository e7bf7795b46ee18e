-- ===== src/Python/Handle/Owner.antt =====
-- A handle owns one reference, and where none is made none is held.
use dynabridge.Prelude.{Bool, List, Option, arith, false, none, refl, some, true, ℕ, [], ◌∷◌, ◌≡◌}
use dynabridge.Raise.{Raise, ok, raised}
use dynabridge.Python.State.{
  Interpreter, Pointer, Reply, Result, World, acquire, failure, gain, is_null, result, returned,
  steal, thrown, xdecref,
}
use dynabridge.Python.State.Ledger.{Ends, Gains, bind, ends, steal-Ends, xdecref-Ends}
use dynabridge.Python.Call.{receive}
use dynabridge.Python.Handle.{
  bind_export_object, try_bind_export_object, bind_self, construct_self, define_object,
  export_instance, from_module, import_attr, import_by_name, leave_module, make_export_object_impl,
}
use dynabridge.Python.Instance.{construct_export_object_impl, place}
use dynabridge.Python.Ref.{define_in_module, release, reset}

-- One reference to the object of a handle, or none.
abbrev pub held_by : Result Pointer → List Pointer
held_by (returned p) = p ∷ []
held_by (thrown t) = []

abbrev with_one : ℕ → World → World
with_one o w = record w { held = gain (some o) w.held }

gained : (o : ℕ) (w : World) → Gains (some o ∷ []) w (with_one o w)
gained o w p = ground arith

-- What is returned is an object.
abbrev pub IsObject : Result Pointer → Type 0
IsObject (returned p) = is_null p ≡ false
IsObject (thrown t) = Unit

abbrev pub Handles : World → Result Pointer → World → Type 0
Handles w r w' = Gains (held_by r) w w' × IsObject r

import_attr-Handles : (reply : Reply) (w : World) → Ends (Handles w) (import_attr reply w)
unfolding import_attr receive acquire
import_attr-Handles (result o) w = ends (gained o w, refl)
import_attr-Handles (failure e) w = ends ((λ o. omega arith), tt)

module _ (py : Interpreter) where
  leave_module-Handles :
      (m : ℕ) (r : Result Pointer) (w w1 w2 : World)
      → Gains (some m ∷ []) w w1
      → Handles w1 r w2
      → Ends (Handles w) (leave_module py (some m) r w2)
  unfolding leave_module
  leave_module-Handles m r w w1 w2 g h =
      bind (xdecref py (some m)) _ w2 (xdecref-Ends py (some m) w2 (λ o. omega (arith, g o, h.0 o)))
        λ _ w3 s. ends ((λ o. omega (arith, g o, h.0 o, s.0 o)), h.1)

  pub import_by_name-Handles :
      (module_ reply : Reply) (w : World) → Ends (Handles w) (import_by_name py module_ reply w)
  unfolding import_by_name from_module receive acquire
  import_by_name-Handles (failure e) reply w = ends ((λ o. omega arith), tt)
  import_by_name-Handles (result m) reply w =
      bind (import_attr reply) (leave_module py (some m)) (with_one m w)
        (import_attr-Handles reply (with_one m w))
        λ r w2 h. leave_module-Handles m r w (with_one m w) w2 (gained m w) h

  bind_self-Handles :
      (self : ℕ) (r : Raise (Unit {0})) (w w1 : World)
      → Gains (some self ∷ []) w w1
      → Ends (Handles w) (bind_self py none (some self) r w1)
  unfolding bind_self reset xdecref acquire
  bind_self-Handles self (ok u) w w1 g =
      let more = gained self w1 in
      bind (xdecref py (some self)) _ (with_one self w1)
        (xdecref-Ends py (some self) (with_one self w1) (λ o. omega (arith, g o, more o)))
        λ _ w2 s. ends ((λ o. omega (arith, g o, more o, s.0 o)), refl)
  bind_self-Handles self (raised e) w w1 g =
      bind (xdecref py (some self)) _ w1 (xdecref-Ends py (some self) w1 (λ o. omega (arith, g o)))
        λ _ w2 s. ends ((λ o. omega (arith, g o, s.0 o)), tt)

  define_object-Gains :
      (added : Bool) (r : Result Pointer) (w w1 : World)
      → Handles w r w1
      → Ends (λ _ w'. Gains [] w w') (define_object py added r w1)
  unfolding define_object define_in_module release
  define_object-Gains added (thrown t) w w1 h = ends (λ o. omega (arith, h.0 o))
  define_object-Gains true (returned p) w w1 h =
      bind (steal p) _ w1 (steal-Ends p w1 (λ o. omega (arith, h.0 o)))
        λ _ w2 s. ends (λ o. omega (arith, h.0 o, s.0 o))
  define_object-Gains false (returned p) w w1 h =
      bind (xdecref py p) _ w1 (xdecref-Ends py p w1 (λ o. omega (arith, h.0 o)))
        λ _ w2 s. ends (λ o. omega (arith, h.0 o, s.0 o))

  module _ {N : Type 0} where
    construct_self-Handles :
        (made : Raise N) (self : ℕ) (w w1 : World)
        → Gains (some self ∷ []) w w1
        → Ends (Handles w) (construct_self py made (some self) w1)
    unfolding construct_self construct_export_object_impl place
    construct_self-Handles (ok v) self w w1 g = bind_self-Handles self (ok tt) w w1 g
    construct_self-Handles (raised e) self w w1 g = bind_self-Handles self (raised e) w w1 g

    pub make_export_object_impl-Handles :
        (target : Raise Pointer) (self : Reply) (made : Raise N) (w : World)
        → Ends (Handles w) (make_export_object_impl py target self made w)
    unfolding make_export_object_impl receive acquire construct_self
    make_export_object_impl-Handles (raised e) self made w = ends ((λ o. omega arith), tt)
    make_export_object_impl-Handles (ok t) (failure e) made w = ends ((λ o. omega arith), tt)
    make_export_object_impl-Handles (ok t) (result o) made w =
        construct_self-Handles made o w (with_one o w) (gained o w)

    -- An exported instance: whatever fails, the lookup of the class, the allocation, the C++
    -- constructor or the definition in the module, the C++ code holds no reference at the end that
    -- it has not held before.
    pub export_instance-Gains :
        (target : Raise Pointer) (self : Reply) (made : Raise N) (added : Bool) (w : World)
        → Ends (λ _ w'. Gains [] w w') (export_instance py target self made added w)
    unfolding export_instance
    export_instance-Gains target self made added w =
        bind (make_export_object_impl py target self made) (define_object py added) w
          (make_export_object_impl-Handles target self made w)
          λ r w1 h. define_object-Gains added r w w1 h

abbrev argument_of : Pointer → Option Pointer
argument_of none = none
argument_of (some o) = some (some o)

abbrev map_raise : {A B : Type 0} → (A → B) → Raise A → Raise B
map_raise f (ok a) = ok (f a)
map_raise f (raised e) = raised e

-- An object is taken as an argument of a registered class where it is bound as a receiver.
pub try_bind-bind :
    (type_check : ℕ → Bool) (target self : Pointer)
    → try_bind_export_object type_check (ok target) self
      ≡ map_raise argument_of (bind_export_object type_check (ok target) self)
unfolding try_bind_export_object bind_export_object
try_bind-bind type_check target none = refl
try_bind-bind type_check target (some o) = ground arith
