-- ===== src/Rpc/Router/Define.antt =====
-- What `router::define` does to the map that the routes stand for.
use mathlib.Core.Path.{subst}
use mathlib.Core.Option.{some-injective}
use dynabridge.Prelude.{
  Bool-cases, List, Option, Option-cases, ap, arith, false, if◌then◌else◌, inl, inr, length, ltb,
  none, refl, some, suc, sym, true, ℕ, ◌==◌, ==_iff, ==_self, [], ◌↔◌, ◌∙◌, ◌∷◌, ◌≡◌, ◌≢◌, ◌⊎◌,
}
use dynabridge.Raise.{Raise, raised}
use dynabridge.Rpc.Symbol.{symbol_id}
use dynabridge.Rpc.Router.{Binder, Route, make, equal_names, define, find, collision, size}
use dynabridge.Rpc.Router.Table.{
  IsAscending, IsTable, IsFree, lookup, placed, add_route_free, add_route_clash, placed-IsAscending,
  All-placed, lookup-placed, find-lookup, lookup_above, All-below,
}

equal_names_eq : (xs ys : List ℕ) → equal_names xs ys ≡ true → xs ≡ ys
unfolding equal_names
equal_names_eq [] [] h = refl
equal_names_eq [] (y ∷ ys) h = cc
equal_names_eq (x ∷ xs) [] h = cc
equal_names_eq (x ∷ xs) (y ∷ ys) h = elim (Bool-cases (x == y)) [
  | inl e ↦ let same : x ≡ y = (==_iff x y).0 e in cc (same, equal_names_eq xs ys (rw e at h))
  | inr e ↦ cc (rw e at h)
]

equal_names_refl : (xs : List ℕ) → equal_names xs xs ≡ true
unfolding equal_names
equal_names_refl [] = refl
equal_names_refl (x ∷ xs) = rw (==_self x, equal_names_refl xs) refl

module _ {N : Type 0} (name : List ℕ) (binder : Binder N) (routes : List Route) where
  abbrev route : Route
  route = make (symbol_id name) name binder

  -- Another name holds the slot of this name's hash.
  abbrev pub IsTaken : Type 0
  IsTaken =
      (existing : Route) × (find routes (symbol_id name) ≡ some existing) × (existing.name ≢ name)

  IsFree-or_clash :
      ((existing : Route) × (find routes (symbol_id name) ≡ some existing)
        × (equal_names existing.name name ≡ false))
      ⊎ IsFree route routes
  IsFree-or_clash = elim (Option-cases (find routes (symbol_id name))) [
    | inl e ↦ inr (λ x h. cc)
    | inr (x, e) ↦ elim (Bool-cases (equal_names x.name name)) [
      | inl f ↦
          inr
            (λ y h. subst (λ r. equal_names r.name name ≡ true) (some-injective x y (sym e ∙ h)) f)
      | inr f ↦ inl (x, e, f)
    ]
  ]

  -- `define` raises the collision exactly where another name of the same hash is defined.
  pub define-collision : (define name binder routes ≡ raised collision) ↔ IsTaken
  unfolding define
  define-collision = elim IsFree-or_clash [
    | inl (x, e, f) ↦ (
      λ h. (x, e, λ same. cc (rw same at f, equal_names_refl name)),
      λ t. add_route_clash route x routes e f,
    )
    | inr free ↦ (
      λ h. cc (h, add_route_free route routes free),
      λ t. absurd (t.2 (equal_names_eq t.0.name name (free t.0 t.1))),
    )
  ]

  -- Where `define` does not raise, the route has been put in its place.
  define-placed :
      {after : List Route}
      → define name binder routes ≡ Raise.ok after
      → placed route routes ≡ after
  unfolding define
  define-placed h = elim IsFree-or_clash [
    | inl (x, e, f) ↦ cc (h, add_route_clash route x routes e f)
    | inr free ↦ cc (h, add_route_free route routes free)
  ]

  -- On a table, `define` gives a table, on which the search finds the new route under the hash of
  -- its name, and what it found before under any other number.
  pub define_lem :
      (after : List Route)
      → IsTable routes
      → define name binder routes ≡ Raise.ok after
      → IsTable after
        × ((id : ℕ)
            → find after id ≡ (
                if symbol_id name == id
                then some (make (symbol_id name) name binder)
                else find routes id))
  define_lem after table h =
      let up = placed-IsAscending route routes table.ascending in
      subst
        (λ rs.
          IsTable rs
          × ((id : ℕ) → find rs id ≡ (if symbol_id name == id then some route else find routes id)))
        (define-placed h)
        (
          record {
            ascending = up;
            hashed = All-placed (λ r. r.id ≡ symbol_id r.name) route routes refl table.hashed;
          },
          λ id.
              find-lookup (placed route routes) id up
              ∙ lookup-placed route routes id
              ∙ ap (λ o. if symbol_id name == id then some route else o)
                  (sym (find-lookup routes id table.ascending)),
        )

length-placed :
    (route : Route) (rs : List Route)
    → IsAscending rs
    → length (placed route rs)
      ≡ elim (lookup rs route.id) [ none ↦ suc (length rs) | some r ↦ length rs ]
length-placed route [] h = refl
length-placed route (r ∷ rs) h = elim (Bool-cases (ltb r.id route.id)) [
  | inl e ↦
      let f : (r.id == route.id) ≡ false = ground arith in
      rw (e, f) (count (lookup rs route.id) rs (length-placed route rs h.1))
  | inr e ↦ elim (Bool-cases (r.id == route.id)) [
    | inl f ↦ rw (e, f) refl
    | inr f ↦
        rw (e, f, lookup_above rs route.id (All-below route.id r.id rs (ground arith) h.0)) refl
  ]
]
  where
    count :
        (o : Option Route) (rs : List Route) {n : ℕ}
        → n ≡ elim o [ none ↦ suc (length rs) | some r ↦ length rs ]
        → suc n ≡ elim o [ none ↦ suc (suc (length rs)) | some r ↦ suc (length rs) ]
    count none rs h = omega arith
    count (some r) rs h = omega arith

-- On a table, `define` adds one route for a new hash, and replaces the route that is there
-- otherwise.
pub size-define :
    {N : Type 0} (name : List ℕ) (binder : Binder N) (routes after : List Route)
    → IsTable routes
    → define name binder routes ≡ Raise.ok after
    → size after
      ≡ elim (find routes (symbol_id name)) [ none ↦ suc (size routes) | some r ↦ size routes ]
unfolding size
size-define name binder routes after table h =
    rw (find-lookup routes (symbol_id name) table.ascending) (
      subst
        (λ rs. length rs ≡ elim (lookup routes (symbol_id name)) [
          | none ↦ suc (length routes)
          | some r ↦ length routes
        ])
        (define-placed name binder routes h)
        (length-placed (make (symbol_id name) name binder) routes table.ascending))
