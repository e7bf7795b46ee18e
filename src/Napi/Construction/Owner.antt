-- ===== src/Napi/Construction/Owner.antt =====
-- Who deletes a C++ object that has been constructed for JavaScript.
use dynabridge.Prelude.{Bool, Option, arith, false, none, not, some, true, ℕ, ◌&&◌, ◌+◌, ◌≡◌, ◌≢◌}
use dynabridge.Raise.{Exception, Raise, ok, raised}
use dynabridge.Napi.Construction.{
  Native, Statuses, callback_of, class_constructor, construct_export_object_from_native,
  construct_export_object_impl, drop_receiver, failed_instance, from_handoff, made,
  make_export_object_impl, new_instance, proxy_of, returned, try_construct_external_proxy,
}

abbrev pub bit : Bool → ℕ
bit true = 1
bit false = 0

-- How often the object is deleted in the end: a wrapped object is deleted by its finalizer.
abbrev pub deletions : Native → ℕ
deletions n = n.deleted + bit n.wrapped

-- The object is deleted once in the end; and it is wrapped where the construction has succeeded.
abbrev pub IsOwned : Raise (Unit {0}) × Option Native → Type 0
IsOwned (r, none) = r ≢ ok tt
IsOwned (ok u, some n) = (n.deleted ≡ 0) × (n.wrapped ≡ true)
IsOwned (raised e, some n) = deletions n ≡ 1

abbrev pub Deletes : ℕ → Raise (Unit {0}) × Option Native → Type 0
Deletes count (r, none) = ⊥
Deletes count (r, some n) = deletions n ≡ count

-- The three steps that follow the constructor's acceptance of a handoff.
abbrev pub proxy_steps : Statuses → Bool
proxy_steps s = s.tag && s.wrap && s.reference

abbrev pub is_foreign : Raise (Unit {0}) → Bool
is_foreign (raised Exception.foreign) = true
is_foreign r = false

module _ (s : Statuses) where
  -- An object that JavaScript constructs: however the construction ends, the C++ object is deleted
  -- once.
  pub construct_export_object_impl-IsOwned :
      (make : Raise (Unit {0})) → IsOwned (construct_export_object_impl s make)
  unfolding construct_export_object_impl construct_export_object_from_native
  construct_export_object_impl-IsOwned (raised e) = λ h. cc
  construct_export_object_impl-IsOwned (ok u) = ground arith

  -- An object that C++ constructs for JavaScript: if the constructor's reference is there, the
  -- steps behind the handoff succeed where they are reached, and the constructor of the class does
  -- not raise an exception that is none of `std::exception` where the handoff is declined, the C++
  -- object is deleted once, however the construction ends, and is wrapped where it has succeeded.
  pub make_export_object_impl-IsOwned :
      (make declines : Raise (Unit {0}))
      → s.constructor ≡ true
      → is_foreign declines ≡ false
      → (s.calls && s.own_info && s.callback_info && not (proxy_steps s)) ≡ false
      → IsOwned (make_export_object_impl s make declines)
  unfolding make_export_object_impl new_instance class_constructor callback_of
      try_construct_external_proxy proxy_of from_handoff construct_export_object_from_native made
      returned failed_instance drop_receiver
  make_export_object_impl-IsOwned (raised e) declines c f h = λ h. cc
  make_export_object_impl-IsOwned (ok u) declines c f h = ground arith

  -- Where JavaScript calls the constructor with the handoff, the information on the call is read,
  -- and one of those steps fails, both the step and `make_export_object_impl` give the C++ object
  -- up: it is deleted twice.
  pub make_export_object_impl-Deletes :
      (declines : Raise (Unit {0}))
      → s.external ≡ true
      → s.constructor ≡ true
      → s.calls ≡ true
      → s.own_info ≡ true
      → s.callback_info ≡ true
      → proxy_steps s ≡ false
      → Deletes 2 (make_export_object_impl s (ok tt) declines)
  unfolding make_export_object_impl new_instance class_constructor callback_of
      try_construct_external_proxy proxy_of from_handoff construct_export_object_from_native made
      returned failed_instance drop_receiver
  make_export_object_impl-Deletes declines e c l o i h = ground arith
