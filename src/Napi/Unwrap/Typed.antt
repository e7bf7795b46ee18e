-- ===== src/Napi/Unwrap/Typed.antt =====
-- Which objects a C++ callable is given for a class.
use mathlib.Core.Path.{subst}
use dynabridge.Prelude.{
  All, Bool, List, Option, arith, inl, inr, none, refl, some, ℕ, ==_self, [], ◌∷◌, ◌≡◌, ◌⊎◌,
}
use dynabridge.Prelude.Text.{codes}
use dynabridge.Raise.{Exception, raised}
use dynabridge.Napi.Construction.{construct_export_object_from_native}
use dynabridge.Napi.Unwrap.{
  Event, Object, Wrapped, bind_member_export_object, checked, checked_unwrap_export_object,
  construct, constructs, happen, history, plain, tagged, try_bind_export_object, unwrap, wraps,
}

module _ (P : ℕ → ℕ → Type 0) where
  -- The library constructs, with a pointer and a class that belong together.
  abbrev pub IsOwn : Event → Type 0
  IsOwn (constructs class pointer reference) = P class pointer
  IsOwn (wraps pointer) = ⊥

  abbrev Fits : Option ℕ → Option Wrapped → Type 0
  Fits tag none = Unit
  Fits none (some w) = ⊥
  Fits (some c) (some w) = P c w.pointer

  -- A wrapped object has the tag of a class that its pointer belongs to.
  abbrev IsTyped : Object → Type 0
  IsTyped o = Fits o.tag o.wrapped

  tagged-Fits :
      (class pointer : ℕ) (tag : Option ℕ) (wrapped : Option Wrapped)
      → P class pointer
      → Fits tag wrapped
      → IsTyped (tagged class pointer (record { tag = tag; wrapped = wrapped }))
  unfolding tagged
  tagged-Fits class pointer none none p h = p
  tagged-Fits class pointer none (some w) p h = elim h [ ]
  tagged-Fits class pointer (some c) none p h = h
  tagged-Fits class pointer (some c) (some w) p h = h

  happen-IsTyped : (e : Event) (o : Object) → IsOwn e → IsTyped o → IsTyped (happen e o)
  unfolding happen construct
  happen-IsTyped (constructs class pointer reference) o own h =
      tagged-Fits class pointer o.tag o.wrapped own h
  happen-IsTyped (wraps pointer) o own h = elim own [ ]

  history-IsTyped :
      (es : List Event) (o : Object) → All IsOwn es → IsTyped o → IsTyped (history es o)
  unfolding history
  history-IsTyped [] o own h = h
  history-IsTyped (e ∷ es) o own h =
      history-IsTyped es (happen e o) own.1 (happen-IsTyped e o own.0 h)

  unwrap-Fits :
      (class pointer : ℕ) (tag : Option ℕ) (wrapped : Option Wrapped)
      → Fits tag wrapped
      → checked_unwrap_export_object class (some (record { tag = tag; wrapped = wrapped }))
        ≡ some pointer
      → P class pointer
  unfolding checked_unwrap_export_object unwrap
  unwrap-Fits class pointer none wrapped h e = ground arith
  unwrap-Fits class pointer (some c) none h e = ground arith
  unwrap-Fits class pointer (some c) (some w) h e =
      let same : (c ≡ class) × (w.pointer ≡ pointer) = ground (arith, e) in
      subst (P class) same.1 (subst (λ c. P c w.pointer) same.0 h)

  -- If only this library wraps pointers in an object: the pointer that a checked receiver gives,
  -- or an argument of a class, was wrapped as an object of that class, whatever constructions have
  -- been tried on the object, and however they ended.
  pub history-checked :
      (es : List Event) (class pointer : ℕ)
      → All IsOwn es
      → (bind_member_export_object checked class (some (history es plain)) ≡ some pointer)
        ⊎ (try_bind_export_object class (some (history es plain)) ≡ some pointer)
      → P class pointer
  unfolding bind_member_export_object try_bind_export_object
  history-checked es class pointer own given =
      let o = history es plain in
      let typed = history-IsTyped es plain own tt in
      elim given [
        | inl e ↦ unwrap-Fits class pointer o.tag o.wrapped typed e
        | inr e ↦ unwrap-Fits class pointer o.tag o.wrapped typed e
      ]

-- A constructor that is called on an object in which other code has wrapped a pointer raises, and
-- deletes its C++ object; but the tag has been set, and the pointer of the other code is then given
-- to the callables of the class, for a checked receiver and for an argument.
pub construct-foreign :
    (class pointer foreign : ℕ) (reference : Bool)
    → ((construct class pointer reference (happen (wraps foreign) plain)).0
        ≡ raised (Exception.std_exception (codes "napi_wrap failed")))
      × ((construct class pointer reference (happen (wraps foreign) plain)).1.deleted ≡ 1)
      × (bind_member_export_object checked class
            (some (construct class pointer reference (happen (wraps foreign) plain)).2)
          ≡ some foreign)
      × (try_bind_export_object class
            (some (construct class pointer reference (happen (wraps foreign) plain)).2)
          ≡ some foreign)
unfolding construct happen construct_export_object_from_native tagged bind_member_export_object
    try_bind_export_object checked_unwrap_export_object unwrap
construct-foreign class pointer foreign reference =
    let e = ==_self class in (refl, refl, rw e refl, rw e refl)
