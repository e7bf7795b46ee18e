-- ===== src/Napi/Reference/Hook.antt =====
-- The reference is deleted once, and no hook outlives its object.
use dynabridge.Prelude.{
  Bool, Option, arith, false, if◌then◌else◌, none, some, suc, true, zero, ℕ, ◌≡◌,
}
use dynabridge.Raise.{Exception, ok, raised}
use dynabridge.Napi.Reference.{
  Reference, cleanup, destroy, end_environment, ends_often, leave, lifetime, make,
}

-- The object is there; the hook is registered while the reference has not been deleted.
pub record IsKept (r : Reference) : Type 0 where
  pub present : r.present ≡ true
  pub hooked : r.hooked ≡ r.env
  pub balance : r.created ≡ (if r.env then suc r.deleted else r.deleted)

-- The object is gone, with its hook, and every reference has been deleted.
pub record IsGone (r : Reference) : Type 0 where
  pub absent : r.present ≡ false
  pub unhooked : r.hooked ≡ false
  pub balance : r.created ≡ r.deleted

abbrev Then : (Reference → Type 0) → Option Reference → Type 0
Then P none = ⊥
Then P (some r) = P r

abbrev pub Ends : Option Reference → Type 0
Ends run = Then IsGone run

after :
    (P Q : Reference → Type 0) (run : Option Reference) (next : Reference → Option Reference)
    → Then P run
    → ((r : Reference) → P r → Then Q (next r))
    → Then Q (elim run [ none ↦ none | some r ↦ next r ])
after P Q none next h k = elim h [ ]
after P Q (some r) next h k = k r h

end-IsKept : (r : Reference) → IsKept r → Then IsKept (end_environment r)
unfolding end_environment cleanup
end-IsKept r h = ground arith

end-IsGone : (r : Reference) → IsGone r → Then IsGone (end_environment r)
unfolding end_environment
end-IsGone r h = ground arith

ends_often-IsKept : (n : ℕ) (r : Reference) → IsKept r → Then IsKept (ends_often n r)
unfolding ends_often
ends_often-IsKept zero r h = h
ends_often-IsKept (suc n) r h =
    after IsKept IsKept (end_environment r) (ends_often n) (end-IsKept r h) (ends_often-IsKept n)

ends_often-IsGone : (n : ℕ) (r : Reference) → IsGone r → Then IsGone (ends_often n r)
unfolding ends_often
ends_often-IsGone zero r h = h
ends_often-IsGone (suc n) r h =
    after IsGone IsGone (end_environment r) (ends_often n) (end-IsGone r h) (ends_often-IsGone n)

destroy-IsGone : (r : Reference) → IsKept r → Then IsGone (destroy r)
unfolding destroy cleanup leave
destroy-IsGone r h = ground arith

make-IsKept : (r : Reference) → make true true ≡ (ok tt, r) → IsKept r
unfolding make
make-IsKept r e = ground arith

-- However often the environment ends before and behind the destruction of the object: the
-- reference is deleted once, no reference is deleted that is gone, and no hook is left.
pub lifetime-Ends :
    (before behind : ℕ) (r : Reference)
    → make true true ≡ (ok tt, r)
    → Ends (lifetime before behind r)
unfolding lifetime
lifetime-Ends before behind r e =
    after IsKept IsGone (ends_often before r) _ (ends_often-IsKept before r (make-IsKept r e))
      λ r' k.
        after IsGone IsGone (destroy r') (ends_often behind) (destroy-IsGone r' k)
          (ends_often-IsGone behind)

-- A constructor that raises leaves no reference.
pub make-balance :
    (created hooked : Bool) (e : Exception) (r : Reference)
    → make created hooked ≡ (raised e, r)
    → r.created ≡ r.deleted
unfolding make
make-balance created hooked e r h = ground arith
