-- ===== src/Python/State.antt =====
-- What the C++ code of dynabridge/backends/python.h sees of a Python interpreter: the references
-- that it holds and the error indicator, with the functions of the C API that change them.
--
-- An object is a number, and a pointer may be null. `held` counts the references that the C++ code
-- owns; those of Python's own objects are not counted. A reference that is given up without being
-- owned is a fault.
pub mod Ledger
use dynabridge.Prelude.{
  Bool, List, Option, false, if◌then◌else◌, none, not, some, suc, true, ℕ, ◌&&◌, ◌-◌, ◌==◌, [],
  ◌||◌, ◌∷◌,
}
use dynabridge.Raise.{Exception}

abbrev pub Pointer : Type 0
Pointer = Option ℕ

abbrev pub is_null : Pointer → Bool
is_null none = true
is_null (some o) = false

-- The three pointers of an exception, in the error indicator or in a `python_error`.
pub record Error : Type 0 where
  pub type_ : Pointer
  pub value_ : Pointer
  pub traceback_ : Pointer

abbrev pub no_error : Error
no_error = record { type_ = none; value_ = none; traceback_ = none }

abbrev pub pointers : Error → List Pointer
pointers e = e.type_ ∷ e.value_ ∷ e.traceback_ ∷ []

pub record World : Type 0 where
  pub held : ℕ → ℕ
  pub error : Error

-- The classes of the exceptions that the code sets.
pub data ErrorClass : Type 0 where
  type_error runtime_error memory_error : ErrorClass

-- How a call of a Python object ends: with a new reference, or with the exception that it sets.
pub data Reply : Type 0 where
  result : ℕ → Reply
  failure : Error → Reply

-- The interpreter. `string_error` is the exception that `PyErr_SetString` makes, `vectorcall` is
-- what calling an object comes to, and `finalize` is what becomes of the indicator when the last
-- reference of the C++ code is given up: the finalizer may run Python code. `new_tuple` is null
-- where there is no memory.
pub record Interpreter : Type 0 where
  pub string_error : ErrorClass → List ℕ → Error
  pub vectorcall : ℕ → List Pointer → Reply
  pub finalize : ℕ → Error → Error
  pub new_tuple : ℕ → Reply
  pub none_object : ℕ

-- How a C++ function ends.
pub data Thrown : Type 0 where
  python_error : Error → Thrown
  other : Exception → Thrown

pub data Result (A : Type 0) : Type 0 where
  returned : A → Result A
  thrown : Thrown → Result A

abbrev pub M : Type 0 → Type 0
M A = World → Option (A × World)

abbrev pub pure : {A : Type 0} → A → M A
pure a w = some (a, w)

infixl 5 ◌>>=◌ ◌>>◌
abbrev pub ◌>>=◌ : {A B : Type 0} → M A → (A → M B) → M B
◌>>=◌ m f w = elim (m w) [ none ↦ none | some (a, w') ↦ f a w' ]

abbrev pub ◌>>◌ : {B : Type 0} → M (Unit {0}) → M B → M B
m >> k = m >>= λ _. k

abbrev pub points_to : ℕ → Pointer → Bool
points_to o none = false
points_to o (some p) = o == p

-- A reference more, and one less.
abbrev pub gain : Pointer → (ℕ → ℕ) → ℕ → ℕ
gain p h o = if points_to o p then suc (h o) else h o

abbrev pub lose : Pointer → (ℕ → ℕ) → ℕ → ℕ
lose p h o = if points_to o p then h o - 1 else h o

-- `Py_XINCREF`, and a reference that a function of the API hands over.
unfoldable pub acquire : Pointer → M (Unit {0})
acquire p w = some (tt, record w { held = gain p w.held })

-- A reference that a function of the API steals.
unfoldable pub steal : Pointer → M (Unit {0})
steal none w = some (tt, w)
steal (some o) w =
    if w.held o == 0 then none else some (tt, record w { held = lose (some o) w.held })

-- The indicator has references of its own.
abbrev pub is_raised : ℕ → Error → Bool
is_raised o e = points_to o e.type_ || points_to o e.value_ || points_to o e.traceback_

-- `PyErr_Occurred`
unfoldable pub occurred : World → Bool
occurred w = not (is_null w.error.type_)

-- `PyErr_Fetch`: the indicator's references pass to the caller.
unfoldable pub fetch : M Error
fetch w =
    let e = w.error in
    some (
      e,
      record w { error = no_error; held = gain e.traceback_ (gain e.value_ (gain e.type_ w.held)) },
    )

-- `PyErr_Restore`, which steals the three references.
unfoldable pub restore_error : Error → M (Unit {0})
restore_error e = do
  steal e.type_
  steal e.value_
  steal e.traceback_
  λ w. some (tt, record w { error = e })

module _ (py : Interpreter) where
  -- `Py_XDECREF`
  unfoldable pub xdecref : Pointer → M (Unit {0})
  xdecref none w = some (tt, w)
  xdecref (some o) w =
      if w.held o == 0
      then none
      else some (
        tt,
        record w {
          held = lose (some o) w.held;
          error =
              if (w.held o == 1) && not (is_raised o w.error)
              then py.finalize o w.error
              else w.error;
        },
      )

  -- Pointers that are released one by one.
  unfoldable pub release_all : List Pointer → M (Unit {0})
  release_all [] = pure tt
  release_all (p ∷ ps) = xdecref p >> release_all ps

  -- `PyErr_SetString`
  unfoldable pub set_string : ErrorClass → List ℕ → M (Unit {0})
  set_string class message w = some (tt, record w { error = py.string_error class message })
