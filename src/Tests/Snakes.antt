-- ===== src/Tests/Snakes.antt =====
-- The theorems on dynabridge/backends/python.h at concrete objects and calls.
use dynabridge.Prelude.{
  List, Option, arith, false, if◌then◌else◌, none, refl, some, true, ℕ, ◌+◌, ◌==◌, [], ◌^◌, ◌∷◌,
  ◌≡◌,
}
use dynabridge.Raise.{Raise}
use dynabridge.Python.State.{
  Error, ErrorClass, Interpreter, M, Pointer, Reply, World, acquire, failure, no_error, occurred,
  pure, result, ◌>>◌,
}
use dynabridge.Python.State.Ledger.{Ends, count, ends}
use dynabridge.Python.Call.{Argument, invoke_impl, raw, ref}
use dynabridge.Python.Call.Answer.{Answers, invoke_impl-Answers}
use dynabridge.Python.Constructor.{Buffer, export_type_vectorcall, place_of}
use dynabridge.Python.Constructor.Vectorcall.{IsConstructed, export_type_vectorcall-IsConstructed}
use dynabridge.Python.Entry.{call_vector_signature}
use dynabridge.Python.Entry.Contract.{Passes, relay-IsTransparent}
use dynabridge.Python.Entry.Enters.{Enters, call_vector_signature-Enters, is_refused}
use dynabridge.Python.Instance.{lifetime}
use dynabridge.Python.Instance.Lifetime.{Lives, lifetime-Lives}
use dynabridge.Python.Ref.{assigns, borrowed, owned, releases, resets, scope}
use dynabridge.Python.Ref.Ownership.{scope-IsBalanced}
use dynabridge.Python.Storage.{IsWithin, export_instance_storage, export_instance_storage-IsWithin}

-- Object 1 stands for `RuntimeError`, object 2 for an exception that object 9 raises when it is
-- called; another object returns object 3. A finalizer clears the indicator.
abbrev failing : Error
failing = record { type_ = some 1; value_ = some 2; traceback_ = none }

abbrev answering : ℕ → List Pointer → Reply
answering callable args = if callable == 9 then failure failing else result 3

abbrev python : Interpreter
python = record {
  string_error = λ class message. record { type_ = some 1; value_ = some 4; traceback_ = none };
  vectorcall = answering;
  finalize = λ o e. no_error;
  new_tuple = λ n. result 7;
  none_object = 0;
}

-- The code holds one reference to object 5 and two to object 6.
abbrev holding : World
holding = record { held = λ o. if o == 5 then 1 else if o == 6 then 2 else 0; error = no_error }

abbrev two_arguments : List Argument
two_arguments = raw (some 5) ∷ ref (some 6) ∷ []

invoke_impl-Answers_example :
    Ends
      (Answers python (λ o. Raise.ok o) (failure failing) two_arguments holding)
      (invoke_impl python (λ o. Raise.ok o) (some 9) two_arguments holding)
invoke_impl-Answers_example =
    invoke_impl-Answers python (λ o. Raise.ok o) 9 two_arguments holding (λ o. ground arith)

relay-IsTransparent_example : Ends (Passes failing (some 5 ∷ some 6 ∷ []) holding) (
    call_vector_signature python false
      (λ args. invoke_impl python (λ o. Raise.ok (some o)) (some 9) two_arguments)
      2
      (11 ∷ 12 ∷ [])
      2
      none
      holding)
relay-IsTransparent_example =
    relay-IsTransparent python (λ o. Raise.ok (some o)) 9 two_arguments 2 (11 ∷ 12 ∷ []) 2 failing
      holding refl refl (λ o. ground arith) refl

-- A binder that returns the object that it is given first.
abbrev first_of : List ℕ → Pointer
first_of [] = some 0
first_of (o ∷ os) = some o

abbrev echo : List ℕ → M (dynabridge.Python.State.Result Pointer)
echo args w = some (dynabridge.Python.State.returned (first_of args), w)

call_vector_signature-Enters_example :
    Ends
      (Enters python
        (is_refused 1 1 none)
        false
        (dynabridge.Python.State.returned (some 11))
        holding)
      (call_vector_signature python false echo 1 (11 ∷ []) 1 none holding)
call_vector_signature-Enters_example =
    call_vector_signature-Enters python (λ class message. refl) false echo 1 (11 ∷ []) 1 none
      holding holding (dynabridge.Python.State.returned (some 11)) refl tt

scope-IsBalanced_example :
    Ends
      (λ loose w'. (o : ℕ) → w'.held o ≡ (if o == 6 then 2 else 0) + count o loose)
      (scope python
        (resets true (some 5) owned
          ∷ resets true (some 6) borrowed
          ∷ assigns false false
          ∷ assigns false true
          ∷ releases true
          ∷ [])
        holding)
scope-IsBalanced_example =
    scope-IsBalanced python
      (resets true (some 5) owned
        ∷ resets true (some 6) borrowed
        ∷ assigns false false
        ∷ assigns false true
        ∷ releases true
        ∷ [])
      (λ o. if o == 6 then 2 else 0) holding (λ o. ground arith)

-- A constructor that fails.
-- A constructor that returns object 0 where its first argument is 20, and null otherwise.
abbrev constructor : List ℕ → ℕ → Option ℕ → M Pointer
constructor [] nargs names = pure none
constructor (o ∷ args) nargs names =
    if o == 20 then acquire (some 0) >> pure (some 0) else pure none

abbrev buffer : Buffer
buffer = record { slot = 4; allocated = 0; freed = 0 }

export_type_vectorcall-IsConstructed_example :
    Ends (IsConstructed python constructor false 20 (11 ∷ []) 1 none buffer holding) (
      export_type_vectorcall python constructor true
        (some 20)
        true
        (11 ∷ [])
        (2 ^ 63 + 1)
        none
        buffer
        holding)
unfolding acquire place_of
export_type_vectorcall-IsConstructed_example =
    export_type_vectorcall-IsConstructed python constructor true 20 (11 ∷ []) (2 ^ 63 + 1) none
      buffer holding refl (λ w. ends (λ o. ground arith))

lifetime-Lives_example :
    Lives
      (Raise.raised dynabridge.Raise.foreign ∷ Raise.ok 1 ∷ Raise.ok 2 ∷ [])
      (lifetime {N = ℕ} (Raise.raised dynabridge.Raise.foreign ∷ Raise.ok 1 ∷ Raise.ok 2 ∷ []))
lifetime-Lives_example =
    lifetime-Lives (Raise.raised dynabridge.Raise.foreign ∷ Raise.ok 1 ∷ Raise.ok 2 ∷ [])

export_instance_storage-IsWithin_example :
    IsWithin (export_instance_storage (1000 + 40) (2 ^ 6)) 6 1000 40 24
export_instance_storage-IsWithin_example =
    export_instance_storage-IsWithin 6 58 1000 40 24 (omega arith) (omega arith) (omega arith)
      (omega arith)
