-- ===== src/Python/Define/Registration.antt =====
-- The registration of an exported class: what the registry holds, and whose the references are.
use dynabridge.Prelude.{
  All, Bool, List, ap, arith, false, if◌then◌else◌, refl, some, ℕ, ◌&&◌, ◌+◌, ◌==◌, [], ◌∷◌, ◌≡◌,
}
use dynabridge.Raise.{ok}
use dynabridge.Python.State.{
  Interpreter, M, Pointer, Reply, Result, World, is_null, result, returned, thrown, xdecref,
}
use dynabridge.Python.State.Ledger.{Ends, Gains, Owns, bind, count, ends, mono, xdecref-Ends}
use dynabridge.Python.Define.{
  Member, define_class_impl, define_member, define_members, in_class, in_module, initializer,
  method, next_member, overwritten, register_class, store_export_class, store_registered,
  with_target,
}
use dynabridge.Registry.{Entry, get, store}
use dynabridge.Registry.Lookup.{get-store}
use dynabridge.Python.Define.Balance.{
  define_impl-Gains, define_constructor_impl-Gains, define_class_impl-Ends, owned_by, IsType,
  pointer_of,
}

-- The attributes are set where an object has been made, and the constructor's object is made.
abbrev pub IsSafe : Member → Type 0
IsSafe (method m success) = (is_null (pointer_of m) && success) ≡ false
IsSafe (initializer m first second) = is_null (pointer_of m) ≡ false

-- The references of the registered types.
abbrev pub targets : List (Entry Pointer) → List Pointer
targets [] = []
targets (entry ∷ entries) = entry.target ∷ targets entries

-- An exception leaves the registry as it was; otherwise the type that has been made is found for
-- the class, and the others are found as before.
abbrev pub IsStored :
    ℕ → Reply → List (Entry Pointer) → Result (Unit {0}) → List (Entry Pointer) → Type 0
IsStored key reply entries (thrown t) entries' = entries' ≡ entries
IsStored key reply entries (returned u) entries' =
    (t : ℕ) × (reply ≡ result t)
    × ((j : ℕ) → get j entries' ≡ (if key == j then ok (some t) else get j entries))

-- The references that the registry owns are the only ones that change.
abbrev pub Registers :
    ℕ
    → Reply
    → List (Entry Pointer)
    → World
    → Result (Unit {0}) × List (Entry Pointer)
    → World
    → Type 0
Registers key reply entries w x w' =
    ((o : ℕ) → w'.held o + count o (targets entries) ≡ w.held o + count o (targets x.1))
    × IsStored key reply entries x.0 x.1

count-store :
    (o key : ℕ) (target : Pointer) (entries : List (Entry Pointer))
    → count o (targets (store key target entries).0)
        + count o (overwritten (store key target entries).1 ∷ [])
      ≡ count o (target ∷ targets entries)
unfolding store
count-store o key target [] = omega arith
count-store o key target (entry ∷ entries) =
    let rest = count-store o key target entries in ground (arith, rest)

module _ (py : Interpreter) where
  define_member-Gains :
      (m : Member) (w : World) → IsSafe m → Ends (λ _ w'. Gains [] w w') (define_member py m w)
  unfolding define_member
  define_member-Gains (method m success) w safe = define_impl-Gains py in_class success m w safe
  define_member-Gains (initializer m first second) w safe =
      define_constructor_impl-Gains py m first second w safe

  next-Gains :
      (rest : M (Result (Unit {0}))) (r : Result (Unit {0})) (w w1 : World)
      → ((w' : World) → Ends (λ _ w2. Gains [] w' w2) (rest w'))
      → Gains [] w w1
      → Ends (λ _ w'. Gains [] w w') (next_member py rest r w1)
  unfolding next_member
  next-Gains rest (returned u) w w1 h g = mono (h w1) λ _ w2 s o. omega (arith, g o, s o)
  next-Gains rest (thrown t) w w1 h g = ends g

  define_members-Gains :
      (members : List Member) (w : World)
      → All IsSafe members
      → Ends (λ _ w'. Gains [] w w') (define_members py members w)
  unfolding define_members
  define_members-Gains [] w safe = ends (λ o. omega arith)
  define_members-Gains (m ∷ members) w safe =
      bind (define_member py m) _ w (define_member-Gains m w safe.0) λ r w1 s.
        next-Gains (define_members py members) r w w1 (λ w'. define_members-Gains members w' safe.1)
          s

  store_registered-Registers :
      (key t : ℕ) (entries : List (Entry Pointer)) (r : Result (Unit {0})) (w w1 : World)
      → Owns (targets entries) w
      → Gains (some t ∷ []) w w1
      → Ends (Registers key (result t) entries w) (store_registered py key (some t) entries r w1)
  unfolding store_registered store_export_class
  store_registered-Registers key t entries (returned u) w w1 h g =
      let old = overwritten (store key (some t) entries).1 in
      bind (xdecref py old) _ w1
        (xdecref-Ends py old w1 (λ o. omega (arith, h o, g o, count-store o key (some t) entries)))
        λ _ w2 s. ends {a = (returned tt, (store key (some t) entries).0)} (
          (λ o. omega (arith, g o, s.0 o, count-store o key (some t) entries)),
          (t, refl, λ j. get-store key j (some t) entries),
        )
  store_registered-Registers key t entries (thrown e) w w1 h g =
      bind (xdecref py (some t)) _ w1 (xdecref-Ends py (some t) w1 (λ o. omega (arith, g o)))
        λ _ w2 s. ends {a = (thrown e, entries)} ((λ o. omega (arith, g o, s.0 o)), refl)

  with_target-Registers :
      (key : ℕ) (reply : Reply) (members : List Member) (entries : List (Entry Pointer))
      (r : Result Pointer) (w w1 : World)
      → All IsSafe members
      → Owns (targets entries) w
      → Gains (owned_by py r) w w1 × IsType py reply r
      → Ends (Registers key reply entries w) (with_target py key members entries r w1)
  unfolding with_target
  with_target-Registers key reply members entries (returned p) w w1 safe h (g, (t, e, q)) =
      rw (e, q)
        (bind (define_members py members) _ w1 (define_members-Gains members w1 safe) λ r w2 s.
          store_registered-Registers key t entries r w w2 h
            (λ o. omega (arith, g o, s o, ap (λ p. count o (p ∷ [])) q)))
  with_target-Registers key reply members entries (thrown e) w w1 safe h (g, u) =
      ends {a = (thrown e, entries)} ((λ o. omega (arith, g o)), refl)

  -- The registration of an exported class, if its attributes are set only where an object has been
  -- made, and an object is made of the constructor: in every branch the references that the C++
  -- code owns change by those of the registry's types and no other, a type that is overwritten
  -- included; where an exception is thrown, the registry is as it was, and otherwise the new type
  -- is found in it for the class, and the other classes are found as before.
  pub register_class-Registers :
      (key : ℕ) (success : Bool) (type : Reply) (members : List Member)
      (entries : List (Entry Pointer)) (w : World)
      → All IsSafe members
      → Owns (targets entries) w
      → Ends (Registers key type entries w) (register_class py key success type members entries w)
  unfolding register_class
  register_class-Registers key success type members entries w safe h =
      bind (define_class_impl py in_module success type) _ w
        (define_class_impl-Ends py in_module success type w)
        λ r w1 s. with_target-Registers key type members entries r w w1 safe h s
