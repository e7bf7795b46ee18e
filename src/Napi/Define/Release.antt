-- ===== src/Napi/Define/Release.antt =====
-- Every holder and every state of a class is deleted once, whatever fails.
use dynabridge.Prelude.{Bool, arith, false, true, ◌&&◌, ◌≡◌}
use dynabridge.Raise.{Raise, ok, raised}
use dynabridge.Napi.Define.{
  Statuses, Target, class_target, collect, define, define_class_impl, define_impl, defined, destroy,
  make_function, module_target, with_reference,
}
use dynabridge.Napi.Reference.{make}

abbrev pub is_ok : Raise (Unit {0}) → Bool
is_ok (ok u) = true
is_ok (raised e) = false

-- Which calls a definition makes.
abbrev pub can_define : Target → Statuses → Bool
can_define module_target s = s.property
can_define class_target s = s.constructor && s.prototype && s.property

module _ (s : Statuses) where
  -- A function or a member is defined if every call succeeds; and its holder has been deleted once
  -- when the function has been collected, however the definition ends.
  pub define_impl-collect :
      (target : Target)
      → (is_ok (define_impl s target).0 ≡ (s.creation && s.finalizer && can_define target s))
        × ((collect (define_impl s target).1).deleted ≡ 1)
  unfolding define_impl defined make_function define collect destroy
  define_impl-collect module_target = ground arith
  define_impl-collect class_target = ground arith

  -- A class is defined if every call succeeds; its state has been deleted once when the constructor
  -- has been collected, and where the definition raises no reference to the constructor is left.
  pub define_class_impl-collect :
      (is_ok (define_class_impl s).0
        ≡ (s.creation && s.finalizer && s.property && s.reference && s.hook))
      × ((collect (define_class_impl s).1).deleted ≡ 1)
      × (is_ok (define_class_impl s).0 ≡ false
          → (define_class_impl s).2.created ≡ (define_class_impl s).2.deleted)
  unfolding define_class_impl with_reference define collect destroy make
  define_class_impl-collect = ground arith
