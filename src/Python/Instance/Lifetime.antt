-- ===== src/Python/Instance/Lifetime.antt =====
-- A Python object is initialized once at most, and its C++ object is destroyed once.
use dynabridge.Prelude.{
  Bool, List, Option, ap, arith, false, none, refl, some, suc, true, ℕ, ◌+◌, [], ◌∷◌, ◌≡◌, ◌≤◌,
}
use dynabridge.Prelude.Text.{codes}
use dynabridge.Raise.{Exception, Raise, ok, raised}
use dynabridge.Python.Instance.{
  Instance, blank, construct_export_object_impl, destroy_export_instance, export_instance_dealloc,
  free, initialize, lifetime, place,
}

abbrev pub is_live : {N : Type 0} → Option N → Bool
is_live none = false
is_live (some v) = true

abbrev pub bit : Bool → ℕ
bit true = 1
bit false = 0

abbrev pub is_ok : {A : Type 0} → Raise A → Bool
is_ok (ok a) = true
is_ok (raised e) = false

-- The first success of the constructor, and what comes of the initializations behind it.
abbrev pub expected : {N : Type 0} → Bool → List (Raise N) → List (Raise (Unit {0}))
expected initialized [] = []
expected true (made ∷ rest) =
    raised
      (Exception.std_exception (codes "dynabridge Python export object is already initialized"))
    ∷ expected true rest
expected false (ok v ∷ rest) = ok tt ∷ expected true rest
expected false (raised e ∷ rest) = raised e ∷ expected false rest

module _ {N : Type 0} where
  pub record IsSound (i : Instance N) : Type 0 where
    pub points : i.native ≡ is_live i.object
    pub destroys : i.destroy ≡ is_live i.object
    pub balance : i.constructed ≡ i.destroyed + bit (is_live i.object)
    pub once : i.constructed ≤ 1
    pub present : i.freed ≡ false
    pub whole : i.destroyed ≡ 0

  -- The object is gone, and so is the C++ object; it had one at most.
  pub record IsGone (i : Instance N) : Type 0 where
    pub freed : i.freed ≡ true
    pub no_object : i.object ≡ none
    pub balance : i.constructed ≡ i.destroyed
    pub once : i.constructed ≤ 1

  abbrev Initialized :
      List (Raise (Unit {0})) → Option (List (Raise (Unit {0})) × Instance N) → Type 0
  Initialized expect none = ⊥
  Initialized expect (some (rs, i)) = (rs ≡ expect) × IsSound i

  -- The run ends, its initializations as expected, with an object that is gone.
  abbrev pub Lives : List (Raise N) → Option (List (Raise (Unit {0})) × Instance N) → Type 0
  Lives made none = ⊥
  Lives made (some (rs, i)) = (rs ≡ expected false made) × IsGone i

  push :
      (r : Raise (Unit {0})) (expect : List (Raise (Unit {0})))
      (run : Option (List (Raise (Unit {0})) × Instance N))
      → Initialized expect run
      → Initialized (r ∷ expect) (elim run [ none ↦ none | some (rs, k) ↦ some (r ∷ rs, k) ])
  push r expect none h = elim h [ ]
  push r expect (some (rs, k)) h = (ap (◌∷◌ r) h.0, h.1)

  fails :
      (x : Exception) (i : Instance N)
      → i.object ≡ none
      → IsSound i
      → construct_export_object_impl (raised x) i ≡ some (raised x, i)
  unfolding construct_export_object_impl place
  fails x i e h = ground arith

  first :
      (v : N) (i : Instance N)
      → i.object ≡ none
      → IsSound i
      → construct_export_object_impl (ok v) i
        ≡ some (
          ok tt,
          record i {
            native = true;
            ctx = true;
            destroy = true;
            object = some v;
            constructed = suc i.constructed;
          },
        )
  unfolding construct_export_object_impl place
  first v i e h = ground arith

  initialized :
      (v : N) (i : Instance N) (x : Raise N)
      → i.object ≡ some v
      → IsSound i
      → construct_export_object_impl x i
        ≡ some (
          raised (
              Exception.std_exception
                (codes "dynabridge Python export object is already initialized")),
          i,
        )
  unfolding construct_export_object_impl
  initialized v i x e h = ground arith

  initialize-Initialized :
      (made : List (Raise N)) (o : Option N) (i : Instance N)
      → i.object ≡ o
      → IsSound i
      → Initialized (expected (is_live o) made) (initialize made i)
  unfolding initialize
  initialize-Initialized [] o i e h = (refl, h)
  initialize-Initialized (x ∷ made) (some v) i e h =
      rw (initialized v i x e h, initialize)
        (push _ _ _ (initialize-Initialized made (some v) i e h))
  initialize-Initialized (ok v ∷ made) none i e h =
      rw (first v i e h, initialize)
        (push _ _ _ (initialize-Initialized made (some v) _ refl (ground arith)))
  initialize-Initialized (raised x ∷ made) none i e h =
      rw (fails x i e h, initialize) (push _ _ _ (initialize-Initialized made none i e h))

  abbrev Gone : Option (Instance N) → Type 0
  Gone none = ⊥
  Gone (some i) = IsGone i

  dealloc-Gone : (i : Instance N) → IsSound i → Gone (export_instance_dealloc i)
  unfolding export_instance_dealloc destroy_export_instance free
  dealloc-Gone i h = ground arith

  gone :
      (made : List (Raise N)) (rs : List (Raise (Unit {0}))) (run : Option (Instance N))
      → rs ≡ expected false made
      → Gone run
      → Lives made (elim run [ none ↦ none | some j ↦ some (rs, j) ])
  gone made rs none e h = elim h [ ]
  gone made rs (some j) e h = (e, h)

  close :
      (made : List (Raise N)) (run : Option (List (Raise (Unit {0})) × Instance N))
      → Initialized (expected false made) run
      → Lives made (elim run [
        | none ↦ none
        | some (rs, i) ↦ elim (export_instance_dealloc i) [ none ↦ none | some j ↦ some (rs, j) ]
      ])
  close made none h = elim h [ ]
  close made (some (rs, i)) h = gone made rs (export_instance_dealloc i) h.0 (dealloc-Gone i h.1)

  -- However often a Python object is initialized, and whatever the C++ constructor does each
  -- time: the initializations behind the first that succeeds raise, and at the end of its life the
  -- C++ object, one at most, has been destroyed once.
  pub lifetime-Lives : (made : List (Raise N)) → Lives made (lifetime made)
  unfolding lifetime
  lifetime-Lives made =
      close made (initialize made blank)
        (initialize-Initialized made none blank refl (ground arith))
