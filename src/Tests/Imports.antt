-- ===== src/Tests/Imports.antt =====
-- The theorems on imports and registrations of dynabridge/backends/python.h at concrete objects.
use dynabridge.Prelude.{
  Bool, List, arith, false, if◌then◌else◌, leb, none, refl, some, true, ℕ, ◌+◌, ◌-◌, ◌==◌, [], ◌^◌,
  ◌∷◌,
}
use dynabridge.Prelude.Int.{negsuc, pos, ℤ}
use dynabridge.Raise.{Raise}
use dynabridge.Python.Range.{is_between, within}
use dynabridge.Python.State.{Interpreter, Pointer, Reply, World, failure, no_error, result}
use dynabridge.Python.State.Ledger.{Ends, Gains}
use dynabridge.Python.Convert.{Objects, bytes, int_value}
use dynabridge.Python.Define.{Making, Member, initializer, method, register_class}
use dynabridge.Python.Define.Registration.{Registers, register_class-Registers}
use dynabridge.Python.Handle.{export_instance}
use dynabridge.Python.Handle.Owner.{export_instance-Gains}
use dynabridge.Python.Import.{Source, invoke, object, value}
use dynabridge.Python.Import.Lowering.{args_of}
use dynabridge.Python.Import.Outcome.{Comes, called, invoke-Comes}
use dynabridge.Registry.{Entry}

-- Objects from 100 on are integers, whose number is what is left, and object 50 is the empty
-- string; of other numbers and strings no object can be made.
abbrev number : ℕ → ℤ
number o = pos (o - 100)

abbrev made_of : ℤ → Reply
made_of (pos n) = result (100 + n)
made_of (negsuc n) = failure no_error

abbrev string_of : List ℕ → Reply
string_of [] = result 50
string_of (c ∷ s) = failure no_error

abbrev objects : Objects
objects = record {
  integers = record {
    long_check = λ o. leb 100 o;
    long_check_exact = λ o. leb 100 o;
    is_compact = λ o. is_between (negsuc (2 ^ 30 - 1)) (pos (2 ^ 30 - 1)) (number o);
    compact_value = number;
    as_long = λ o. within (negsuc (2 ^ 63 - 1)) (pos (2 ^ 63 - 1)) (number o);
    as_unsigned_long = λ o. within (pos 0) (pos (2 ^ 64 - 1)) (number o);
  };
  from_long = made_of;
  from_unsigned_long = made_of;
  from_string_and_size = string_of;
  unicode_check = λ o. o == 50;
  as_utf8_and_size = λ o. bytes [];
  is_encode_error = λ e. true;
}

-- A call of object 9 gives object 3, and finalizers clear the indicator.
abbrev python : Interpreter
python = record {
  string_error = λ class message. record { type_ = some 1; value_ = some 4; traceback_ = none };
  vectorcall = λ callee args. result 3;
  finalize = λ o e. no_error;
  new_tuple = λ n. result 7;
  none_object = 0;
}

-- The code holds a reference to object 5.
abbrev holding : World
holding = record { held = λ o. if o == 5 then 1 else 0; error = no_error }

abbrev object_in : Reply → ℕ
object_in (result o) = o
object_in (failure e) = 0

-- Two arguments cannot be converted, and are lowered from the last to the first.
abbrev backwards : ℕ → Bool
backwards i = false

abbrev sources : List Source
sources =
    value (int_value (pos 7))
    ∷ value (int_value (negsuc 0))
    ∷ object (some 5)
    ∷ value (int_value (negsuc 5))
    ∷ []

invoke-Comes_example :
    Ends
      (Comes python objects
        (λ o. Raise.ok o)
        (called python objects (λ o. Raise.ok o) 9 (args_of objects backwards 0 sources))
        holding)
      (invoke python objects (λ o. Raise.ok o) backwards (some 9) sources holding)
invoke-Comes_example =
    invoke-Comes python objects (λ o. Raise.ok o) backwards 9 sources holding
      (tt, (tt, (tt, (tt, tt))))

abbrev ready_type : Reply → Making
ready_type reply = record { ready = true; attempt = none; new = reply }

abbrev members : List Member
members =
    method (ready_type (failure no_error)) false
    ∷ initializer (ready_type (result 21)) true true
    ∷ method (ready_type (result 22)) false
    ∷ []

-- The class has been registered with type 5 before.
abbrev registered : List (Entry Pointer)
registered = record { key = 3; target = some 5 } ∷ []

register_class-Registers_example :
    Ends
      (Registers 3 (result 20) registered holding)
      (register_class python 3 true (result 20) members registered holding)
register_class-Registers_example =
    register_class-Registers python 3 true (result 20) members registered holding
      (refl, (refl, (refl, tt))) (λ o. ground arith)

abbrev one : Raise ℕ
one = Raise.ok 1

export_instance-Gains_example :
    Ends
      (λ r w'. Gains [] holding w')
      (export_instance python (Raise.ok (some 5)) (result 30) one true holding)
export_instance-Gains_example =
    export_instance-Gains python (Raise.ok (some 5)) (result 30) one true holding
