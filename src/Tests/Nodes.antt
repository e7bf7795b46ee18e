-- ===== src/Tests/Nodes.antt =====
-- The theorems on dynabridge/backends/napi.h and napi_converters.h at concrete calls.
use dynabridge.Prelude.{
  List, Option, false, if◌then◌else◌, inr, length, none, refl, some, take, true, ℕ, ◌+◌, ◌-◌, ◌==◌,
  [], ◌∷◌, ◌≡◌,
}
use dynabridge.Prelude.Text.{codes}
use dynabridge.Raise.{Exception, Raise, ok, raised}
use dynabridge.Napi.Callback.{Host, Info, JsError, callback, failure, member_callback, result}
use dynabridge.Napi.Callback.Pending.{Enters, callback-Enters, is_refused}
use dynabridge.Napi.Context.{Use, apply_all, assigns, calls, destroy, makes, opens, refreshes, sets}
use dynabridge.Napi.Context.Current.{IsReleased, Stands, apply_all-Stands, start}
use dynabridge.Napi.Define.{collect, define_class_impl}
use dynabridge.Napi.Define.Release.{define_class_impl-collect, is_ok}
use dynabridge.Napi.Construction.{Statuses, make_export_object_impl}
use dynabridge.Napi.Construction.Owner.{
  Deletes, IsOwned, make_export_object_impl-Deletes, make_export_object_impl-IsOwned,
}
use dynabridge.Napi.Unwrap.{
  Event, bind_member_export_object, checked, checked_unwrap_export_object, unwrap, construct,
  constructs, happen, history, plain, try_bind_export_object, wraps,
}
use dynabridge.Napi.Unwrap.Typed.{construct-foreign, history-checked}
use dynabridge.Napi.Number.{Reader}
use dynabridge.Napi.Reference.{Reference, lifetime, make}
use dynabridge.Napi.Reference.Hook.{Ends, lifetime-Ends}

-- All calls succeed.
abbrev statuses : Statuses
statuses = record {
  tag = true;
  wrap = true;
  reference = true;
  own_info = true;
  callback_info = true;
  external = true;
  constructor = true;
  calls = true;
  returned_reference = true;
}

abbrev refusal : Raise (Unit {0})
refusal = raised (Exception.bad_conversion (1 ∷ []))

make_export_object_impl-IsOwned_example : IsOwned (make_export_object_impl statuses (ok tt) refusal)
make_export_object_impl-IsOwned_example =
    make_export_object_impl-IsOwned statuses (ok tt) refusal refl refl refl

-- `napi_wrap` fails.
abbrev no_wrap : Statuses
no_wrap = record statuses { wrap = false }

make_export_object_impl-Deletes_example :
    Deletes 2 (make_export_object_impl no_wrap (ok tt) refusal)
make_export_object_impl-Deletes_example =
    make_export_object_impl-Deletes no_wrap refusal refl refl refl refl refl refl

-- Function 9 throws value 5, and another one returns value 3.
abbrev node : Host
node = record {
  throws = λ e message. e;
  function = λ f args. if f == 9 then failure (JsError.value 5) else result 3;
  undefined = 0;
}

abbrev two_arguments : Info
two_arguments = record { is_ok = true; receiver = 1; args = 7 ∷ 8 ∷ []; holder = true }

-- A native function that catches the failure of a call of JavaScript, and returns a value.
abbrev catching : List ℕ → Option JsError → Raise (Option ℕ) × Option JsError
catching args pending = (ok (some 3), some (JsError.value 5))

callback-Enters_example :
    Enters node
      (is_refused node 2 two_arguments)
      false
      (catching (7 ∷ 8 ∷ []) none)
      (callback node false catching 2 two_arguments none)
    × Enters node
        (is_refused node 2 two_arguments)
        false
        (catching (1 ∷ 7 ∷ 8 ∷ []) none)
        (member_callback node false catching 2 two_arguments none)
callback-Enters_example = callback-Enters node false catching 2 two_arguments none

abbrev held : Reference
held = record { env = true; hooked = true; present = true; created = 1; deleted = 0 }

lifetime-Ends_example : Ends (lifetime 1 1 held)
unfolding make
lifetime-Ends_example = lifetime-Ends 1 1 held refl

-- A value is its text.
abbrev texts : Reader (List ℕ)
texts = record {
  get_value_double = λ text. none;
  type_known = λ text. true;
  is_string = λ text. true;
  size_probe = λ text. some (length text);
  get_value_string = λ text size. some (take (size - 1) text);
}

-- The first context is constructed for object 6, is given object 7, and moves to the second; it is
-- constructed for object 9 then, and given object 8 when no reference can be created; a second
-- scope is opened at last.
abbrev uses : List Use
uses =
    makes true (some 6)
    ∷ sets true (some 7)
    ∷ assigns false false
    ∷ makes true (some 9)
    ∷ opens 0 false true
    ∷ sets true (some 8)
    ∷ opens 1 true false
    ∷ calls false
    ∷ refreshes false
    ∷ []

apply_all-Stands_example :
    Stands (apply_all uses start).first none (apply_all uses start).world
    × Stands (apply_all uses start).second (some 7) (apply_all uses start).world
    × IsReleased (
        destroy
          (apply_all uses start).second
          (destroy (apply_all uses start).first (apply_all uses start).world))
apply_all-Stands_example = apply_all-Stands uses

-- The hook cannot be added.
abbrev registration : dynabridge.Napi.Define.Statuses
registration = record {
  creation = true;
  finalizer = true;
  constructor = true;
  prototype = true;
  property = true;
  reference = true;
  hook = false;
}

define_class_impl-collect_example :
    (is_ok (define_class_impl registration).0 ≡ false)
    × ((collect (define_class_impl registration).1).deleted ≡ 1)
    × (is_ok (define_class_impl registration).0 ≡ false
        → (define_class_impl registration).2.created ≡ (define_class_impl registration).2.deleted)
define_class_impl-collect_example = define_class_impl-collect registration

-- Class 2 constructs at 102, and class 3 fails to construct on the object then.
abbrev events : List Event
events = constructs 2 102 true ∷ constructs 3 103 true ∷ []

history-checked_example : 102 ≡ 100 + 2
unfolding try_bind_export_object checked_unwrap_export_object history happen construct unwrap
history-checked_example =
    history-checked (λ class pointer. pointer ≡ 100 + class) events 2 102 (refl, (refl, tt))
      (inr refl)

construct-foreign_example :
    ((construct 2 102 true (happen (wraps 77) plain)).0
      ≡ raised (Exception.std_exception (codes "napi_wrap failed")))
    × ((construct 2 102 true (happen (wraps 77) plain)).1.deleted ≡ 1)
    × (bind_member_export_object checked 2 (some (construct 2 102 true (happen (wraps 77) plain)).2)
        ≡ some 77)
    × (try_bind_export_object 2 (some (construct 2 102 true (happen (wraps 77) plain)).2) ≡ some 77)
construct-foreign_example = construct-foreign 2 102 77 true
