-- ===== src/Python/Instance.antt =====
-- `export_instance_object` of dynabridge/backends/python.h: the Python object that holds a C++
-- object in its own memory.
pub mod Lifetime
use dynabridge.Prelude.{
  Bool, List, Option, false, if◌then◌else◌, none, not, some, suc, true, ℕ, [], ◌∷◌,
}
use dynabridge.Prelude.Text.{codes}
use dynabridge.Raise.{Exception, Raise, ok, raised}

-- The fields, null or not; the C++ object in the storage; how many have been constructed and
-- destroyed there; and whether the memory has been freed.
pub record Instance (N : Type 0) : Type 0 where
  pub native : Bool
  pub ctx : Bool
  pub destroy : Bool
  pub object : Option N
  pub constructed : ℕ
  pub destroyed : ℕ
  pub freed : Bool

module _ {N : Type 0} where
  -- The object that `tp_new`, `tp_alloc` or `PyObject_New` gives.
  abbrev pub blank : Instance N
  blank = record {
    native = false;
    ctx = false;
    destroy = false;
    object = none;
    constructed = 0;
    destroyed = 0;
    freed = false;
  }

  -- The placement `new`; `none` is a construction over an object that is there.
  unfoldable pub place : Raise N → Option N → Instance N → Option (Raise (Unit {0}) × Instance N)
  place made (some old) i = none
  place (raised e) none i = some (raised e, i)
  place (ok v) none i = some (
    ok tt,
    record i {
      native = true;
      ctx = true;
      destroy = true;
      object = some v;
      constructed = suc i.constructed;
    },
  )

  -- `construct_export_object_impl`, of what the constructor of the C++ class gives.
  unfoldable pub construct_export_object_impl :
      Raise N → Instance N → Option (Raise (Unit {0}) × Instance N)
  unfolding place
  construct_export_object_impl made i =
      if i.destroy
      then some (
        raised (
            Exception.std_exception
              (codes "dynabridge Python export object is already initialized")),
        i,
      )
      else place made i.object i

  -- `destroy_export_instance`; `none` is the destruction of no object.
  unfoldable pub destroy_export_instance : Instance N → Option (Instance N)
  destroy_export_instance i = elim i.object [
    | none ↦ none
    | some v ↦ some (record i {
      native = false;
      ctx = false;
      destroy = false;
      object = none;
      destroyed = suc i.destroyed;
    })
  ]

  free : Instance N → Option (Instance N)
  free i = if i.freed then none else some (record i { freed = true })

  -- `export_instance_dealloc`
  unfoldable pub export_instance_dealloc : Instance N → Option (Instance N)
  unfolding free
  export_instance_dealloc i =
      if i.destroy
      then elim (destroy_export_instance i) [ none ↦ none | some j ↦ free j ]
      else free i

  -- `native_from` of an object: null, or a pointer to the storage.
  unfoldable pub native_from : Option (Instance N) → Bool
  native_from none = false
  native_from (some i) = i.native

  -- Initializations of the object one behind the other, each with what the C++ constructor would
  -- give: how they ended, and the object then.
  unfoldable pub initialize :
      List (Raise N) → Instance N → Option (List (Raise (Unit {0})) × Instance N)
  initialize [] i = some ([], i)
  initialize (made ∷ rest) i = elim (construct_export_object_impl made i) [
    | none ↦ none
    | some (r, j) ↦ elim (initialize rest j) [ none ↦ none | some (rs, k) ↦ some (r ∷ rs, k) ]
  ]

  -- The life of an object.
  unfoldable pub lifetime : List (Raise N) → Option (List (Raise (Unit {0})) × Instance N)
  lifetime made = elim (initialize made blank) [
    | none ↦ none
    | some (rs, i) ↦ elim (export_instance_dealloc i) [ none ↦ none | some j ↦ some (rs, j) ]
  ]
