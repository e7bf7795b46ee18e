-- ===== src/Python/Error.antt =====
-- `python_error` of dynabridge/backends/python.h: a C++ exception that owns the exception of a
-- Python call and can put it back.
pub mod Balance
use dynabridge.Prelude.{List, if◌then◌else◌, none, ℕ, [], ◌∷◌}
use dynabridge.Python.State.{
  Error, Interpreter, M, acquire, fetch, no_error, occurred, pointers, pure, restore_error,
  runtime_error, set_string, release_all, ◌>>=◌, ◌>>◌,
}

-- The copy constructor.
unfoldable pub copy : Error → M Error
copy e = do acquire e.type_; acquire e.value_; acquire e.traceback_; pure e

-- The move constructor: the new object, and what is left of the old one.
unfoldable pub move : Error → Error × Error
move e = (e, no_error)

-- `restore`, which leaves the object its references.
unfoldable pub restore : Error → M (Unit {0})
restore e = do acquire e.type_; acquire e.value_; acquire e.traceback_; restore_error e

module _ (py : Interpreter) where
  -- The constructor.
  unfoldable pub make_error : List ℕ → M Error
  make_error message w =
      if occurred w then fetch w else (set_string py runtime_error message >> fetch) w

  -- The destructor.
  unfoldable pub destroy : Error → M (Unit {0})
  destroy e = release_all py (pointers e)
