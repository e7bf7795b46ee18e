-- ===== src/Rpc/Router/Table.antt =====
-- `router::define` and the search of `router::dispatch` as operations on a finite map.
use mathlib.Core.Path.{subst}
use mathlib.Core.Option.{some-injective}
use dynabridge.Prelude.{
  All, Bool-cases, List, Option, ap, arith, false, get_elem?, if◌then◌else◌, inl, inr, ltb, none,
  refl, some, suc, sym, true, ℕ, ◌<◌, ◌==◌, [], ◌∙◌, ◌∷◌, ◌≡◌, ◌≤◌,
}
use dynabridge.Raise.{Raise, raised}
use dynabridge.Rpc.Symbol.{symbol_id}
use dynabridge.Rpc.Router.{
  Route, equal_names, lower_bound, insert, replace, redefine, place_at, add_route, matching, find,
  collision,
}

-- Strictly ascending ids.
abbrev pub IsAscending : List Route → Type 0
IsAscending [] = Unit
IsAscending (r ∷ rs) = All (λ s. r.id < s.id) rs × IsAscending rs

-- What the router keeps: the routes are in the order of their ids, each the hash of its name.
pub record IsTable (routes : List Route) : Type 0 where
  pub ascending : IsAscending routes
  pub hashed : All (λ r. r.id ≡ symbol_id r.name) routes

-- The finite map that the routes stand for, whatever their order.
abbrev pub lookup : List Route → ℕ → Option Route
lookup [] id = none
lookup (r ∷ rs) id = if r.id == id then some r else lookup rs id

-- A route in its place.
abbrev pub placed : Route → List Route → List Route
placed route [] = route ∷ []
placed route (r ∷ rs) =
    let rest = placed route rs in
    if ltb r.id route.id then r ∷ rest else if r.id == route.id then route ∷ rs else route ∷ r ∷ rs

cons_result : Route → Raise (List Route) → Raise (List Route)
cons_result r (Raise.ok rs) = Raise.ok (r ∷ rs)
cons_result r (raised e) = raised e

place_at_cons :
    (o : Option Route) (r route : Route) (position : ℕ) (rs : List Route)
    → place_at o route (suc position) (r ∷ rs) ≡ cons_result r (place_at o route position rs)
unfolding place_at redefine insert replace cons_result
place_at_cons none r route position rs = refl
place_at_cons (some e) r route position rs = ground arith

add_route_cons :
    (r route : Route) (rs : List Route)
    → ltb r.id route.id ≡ true
    → add_route route (r ∷ rs) ≡ cons_result r (add_route route rs)
unfolding add_route lower_bound
add_route_cons r route rs h =
    rw h
      (place_at_cons (get_elem? rs (lower_bound rs route.id)) r route (lower_bound rs route.id) rs)

add_route_stop :
    (r route : Route) (rs : List Route)
    → ltb r.id route.id ≡ false
    → add_route route (r ∷ rs) ≡ place_at (some r) route 0 (r ∷ rs)
unfolding add_route lower_bound
add_route_stop r route rs h = rw h refl

-- No route of the name's hash with another name.
abbrev pub IsFree : Route → List Route → Type 0
IsFree route rs =
    (existing : Route)
    → find rs route.id ≡ some existing
    → equal_names existing.name route.name ≡ true

find_cons :
    (r : Route) (rs : List Route) (id : ℕ) → ltb r.id id ≡ true → find (r ∷ rs) id ≡ find rs id
unfolding find lower_bound
find_cons r rs id h = rw h refl

find_stop :
    (r : Route) (rs : List Route) (id : ℕ)
    → ltb r.id id ≡ false
    → find (r ∷ rs) id ≡ matching (some r) id
unfolding find lower_bound
find_stop r rs id h = rw h refl

matching_self : (r : Route) (id : ℕ) → (r.id == id) ≡ true → matching (some r) id ≡ some r
unfolding matching
matching_self r id h = rw h refl

place_at_free :
    (r route : Route) (rs : List Route)
    → ltb r.id route.id ≡ false
    → IsFree route (r ∷ rs)
    → place_at (some r) route 0 (r ∷ rs) ≡ Raise.ok (placed route (r ∷ rs))
unfolding place_at redefine insert replace
place_at_free r route rs h free = elim (Bool-cases (r.id == route.id)) [
  | inl e ↦ rw (h, e, free r (find_stop r rs route.id h ∙ matching_self r route.id e)) refl
  | inr e ↦ rw (h, e) refl
]

pub add_route_free :
    (route : Route) (rs : List Route)
    → IsFree route rs
    → add_route route rs ≡ Raise.ok (placed route rs)
unfolding add_route lower_bound place_at insert cons_result
add_route_free route [] free = refl
add_route_free route (r ∷ rs) free = elim (Bool-cases (ltb r.id route.id)) [
  | inl e ↦
      add_route_cons r route rs e
      ∙ ap (cons_result r) (add_route_free route rs (λ x h. free x (find_cons r rs route.id e ∙ h)))
      ∙ rw e refl
  | inr e ↦ add_route_stop r route rs e ∙ place_at_free r route rs e free
]

place_at_clash :
    (r route : Route) (routes : List Route)
    → (r.id == route.id) ≡ true
    → equal_names r.name route.name ≡ false
    → place_at (some r) route 0 routes ≡ raised collision
unfolding place_at redefine
place_at_clash r route routes h n = rw (h, n) refl

pub add_route_clash :
    (route existing : Route) (rs : List Route)
    → find rs route.id ≡ some existing
    → equal_names existing.name route.name ≡ false
    → add_route route rs ≡ raised collision
unfolding find matching lower_bound cons_result
add_route_clash route existing [] h n = cc
add_route_clash route existing (r ∷ rs) h n = elim (Bool-cases (ltb r.id route.id)) [
  | inl e ↦
      add_route_cons r route rs e
      ∙ ap (cons_result r)
          (add_route_clash route existing rs (sym (find_cons r rs route.id e) ∙ h) n)
  | inr e ↦ elim (Bool-cases (r.id == route.id)) [
    | inl f ↦
        let same : some r ≡ some existing =
          sym (find_stop r rs route.id e ∙ matching_self r route.id f) ∙ h in
        add_route_stop r route rs e
        ∙ place_at_clash r route (r ∷ rs) f (
            subst (λ x. equal_names x.name route.name ≡ false)
              (sym (some-injective r existing same)) n)
    | inr f ↦ absurd (no_match r route.id f (sym (find_stop r rs route.id e) ∙ h))
  ]
]
  where
    no_match :
        (r : Route) (id : ℕ)
        → (r.id == id) ≡ false
        → {x : Route} → ¬ (matching (some r) id ≡ some x)
    no_match r id f h = cc (rw f at h)

below_placed :
    (r route : Route) (rs : List Route)
    → r.id < route.id
    → All (λ s. r.id < s.id) rs
    → All (λ s. r.id < s.id) (placed route rs)
below_placed r route [] h a = (h, tt)
below_placed r route (x ∷ rs) h a = elim (Bool-cases (ltb x.id route.id)) [
  | inl e ↦ rw e (a.0, below_placed r route rs h a.1)
  | inr e ↦ elim (Bool-cases (x.id == route.id)) [
    | inl f ↦ rw (e, f) (h, a.1)
    | inr f ↦ rw (e, f) (h, a)
  ]
]

pub All-below :
    (m n : ℕ) (rs : List Route) → m ≤ n → All (λ s. n < s.id) rs → All (λ s. m < s.id) rs
All-below m n [] h a = tt
All-below m n (r ∷ rs) h a = (omega arith, All-below m n rs h a.1)

pub placed-IsAscending :
    (route : Route) (rs : List Route) → IsAscending rs → IsAscending (placed route rs)
placed-IsAscending route [] h = (tt, tt)
placed-IsAscending route (r ∷ rs) h = elim (Bool-cases (ltb r.id route.id)) [
  | inl e ↦ rw e (below_placed r route rs (ground arith) h.0, placed-IsAscending route rs h.1)
  | inr e ↦ elim (Bool-cases (r.id == route.id)) [
    | inl f ↦ rw (e, f) (All-below route.id r.id rs (ground arith) h.0, h.1)
    | inr f ↦
        let lt : route.id < r.id = ground arith in
        rw (e, f) ((lt, All-below route.id r.id rs (omega arith) h.0), h)
  ]
]

pub All-placed :
    (P : Route → Type 0) (route : Route) (rs : List Route)
    → P route
    → All P rs
    → All P (placed route rs)
All-placed P route [] p a = (p, tt)
All-placed P route (r ∷ rs) p a = elim (Bool-cases (ltb r.id route.id)) [
  | inl e ↦ rw e (a.0, All-placed P route rs p a.1)
  | inr e ↦ elim (Bool-cases (r.id == route.id)) [
    | inl f ↦ rw (e, f) (p, a.1)
    | inr f ↦ rw (e, f) (p, a)
  ]
]

pub lookup-placed :
    (route : Route) (rs : List Route) (id : ℕ)
    → lookup (placed route rs) id ≡ (if route.id == id then some route else lookup rs id)
lookup-placed route [] id = refl
lookup-placed route (r ∷ rs) id = elim (Bool-cases (ltb r.id route.id)) [
  | inl e ↦ rw (e, lookup-placed route rs id) (ground arith)
  | inr e ↦ elim (Bool-cases (r.id == route.id)) [
    | inl f ↦ rw (e, f) (ground arith)
    | inr f ↦ rw (e, f) refl
  ]
]

pub lookup_above : (rs : List Route) (id : ℕ) → All (λ s. id < s.id) rs → lookup rs id ≡ none
lookup_above [] id a = refl
lookup_above (r ∷ rs) id a = let ih = lookup_above rs id a.1 in ground arith

-- On ascending routes the binary search finds what a search through all of them finds.
pub find-lookup : (rs : List Route) (id : ℕ) → IsAscending rs → find rs id ≡ lookup rs id
unfolding find matching lower_bound
find-lookup [] id h = refl
find-lookup (r ∷ rs) id h = elim (Bool-cases (ltb r.id id)) [
  | inl e ↦ find_cons r rs id e ∙ find-lookup rs id h.1 ∙ ground arith
  | inr e ↦ elim (Bool-cases (r.id == id)) [
    | inl f ↦ find_stop r rs id e ∙ rw f refl
    | inr f ↦
        find_stop r rs id e
        ∙ rw f (sym (lookup_above rs id (All-below id r.id rs (ground arith) h.0)))
  ]
]
