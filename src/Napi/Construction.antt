-- ===== src/Napi/Construction.antt =====
-- Construction of exported objects in dynabridge/backends/napi.h: from JavaScript, by
-- `class_constructor`, and from C++, by `make_export_object_impl`, which hands a C++ object that is
-- there already to the constructor in an external value.
pub mod Owner
use dynabridge.Prelude.{
  Bool, List, Option, false, if◌then◌else◌, none, not, some, suc, true, ℕ, ◌&&◌, ◌==◌, ◌||◌,
}
use dynabridge.Prelude.Text.{codes}
use dynabridge.Raise.{Exception, Raise, ok, raised}

-- Which calls return `napi_ok`: of the type tag, the wrapping and the reference in the construction
-- from a C++ object; the information on the call of the constructor, which `class_constructor` asks
-- for first and `try_construct_external_proxy` once more; the external value, the constructor's own
-- reference, and the reference to the object that is returned. `calls` says
-- whether `napi_new_instance` comes to call the constructor.
pub record Statuses : Type 0 where
  pub tag : Bool
  pub wrap : Bool
  pub reference : Bool
  pub own_info : Bool
  pub callback_info : Bool
  pub external : Bool
  pub constructor : Bool
  pub calls : Bool
  pub returned_reference : Bool

-- The C++ object: how often it has been deleted, and whether it is wrapped, so that a finalizer
-- deletes it later.
pub record Native : Type 0 where
  pub deleted : ℕ
  pub wrapped : Bool

abbrev pub fresh : Native
fresh = record { deleted = 0; wrapped = false }

abbrev failure : {A : Type 0} → List ℕ → Raise A
failure message = raised (Exception.std_exception message)

module _ (s : Statuses) where
  -- `construct_export_object_from_native`
  unfoldable pub construct_export_object_from_native : Native → Raise (Unit {0}) × Native
  construct_export_object_from_native n =
      if not s.tag
      then (failure (codes "napi_type_tag_object failed"), record n { deleted = suc n.deleted })
      else if not s.wrap
      then (failure (codes "napi_wrap failed"), record n { deleted = suc n.deleted })
      else if not s.reference
      then (failure (codes "napi_create_reference failed"), record n { wrapped = true })
      else (ok tt, record n { wrapped = true })

  -- `construct_export_object_impl`, of what the C++ constructor comes to; nothing has been
  -- constructed where it raises.
  unfoldable pub construct_export_object_impl : Raise (Unit {0}) → Raise (Unit {0}) × Option Native
  construct_export_object_impl (raised e) = (raised e, none)
  construct_export_object_impl (ok u) =
      let (r, n) = construct_export_object_from_native fresh in (r, some n)

-- `external_proxy_handoff`: whether the number is the right one, and whether there is a receiver.
pub record Handoff : Type 0 where
  pub magic : Bool
  pub receiver : Bool

-- What the constructor is called with: how many arguments, and what the first one points to if it
-- is an external value that is not null.
pub record Call : Type 0 where
  pub argc : ℕ
  pub pointed : Option Handoff

-- How `try_construct_external_proxy` ends: it declines, with false, or it constructs.
pub data Proxy : Type 0 where
  declined : Proxy
  constructs : Raise (Unit {0}) → Handoff → Native → Proxy

module _ (s : Statuses) where
  from_handoff : Handoff → Raise (Unit {0}) × Native → Proxy
  from_handoff h (raised e, n) = constructs (raised e) h n
  from_handoff h (ok u, n) = constructs (ok u) (record h { receiver = false }) n

  proxy_of : Option Handoff → Native → Proxy
  unfolding from_handoff
  proxy_of none n = declined
  proxy_of (some h) n =
      if not h.magic || not h.receiver
      then declined
      else from_handoff h (construct_export_object_from_native s n)

  -- `try_construct_external_proxy`
  unfoldable pub try_construct_external_proxy : Call → Native → Proxy
  unfolding proxy_of
  try_construct_external_proxy c n =
      if not s.callback_info || not (c.argc == 1) then declined else proxy_of c.pointed n

-- What the constructor's callback returns: `self`; null with no exception pending, where
-- `napi_new_instance` gives the new object all the same; or null with an exception of JavaScript
-- pending. An exception that is none of `std::exception` leaves the callback.
pub data Ended : Type 0 where
  self : Ended
  nothing : Ended
  null : Ended
  escapes : Ended

abbrev pub caught : Raise (Unit {0}) → Ended
caught (ok u) = self
caught (raised Exception.foreign) = escapes
caught (raised e) = null

-- The C++ object of `make_export_object_impl`, the handoff, and how the call of the constructor
-- ended.
pub record Instance : Type 0 where
  pub ended : Ended
  pub handoff : Handoff
  pub native : Native

module _ (s : Statuses) where
  -- `class_constructor` with `construct_entry`, for a handoff. Where it is declined, the
  -- constructor of the class is called with an external value, and raises.
  callback_of : Raise (Unit {0}) → Handoff → Native → Proxy → Instance
  callback_of declines h n declined = record { ended = caught declines; handoff = h; native = n }
  callback_of declines h n (constructs r h' n') = record {
    ended = caught r;
    handoff = h';
    native = n';
  }

  unfoldable pub class_constructor : Raise (Unit {0}) → Handoff → Native → Instance
  unfolding callback_of
  class_constructor declines h n =
      if not s.own_info
      then record { ended = nothing; handoff = h; native = n }
      else callback_of declines h n
          (try_construct_external_proxy s (record { argc = 1; pointed = some h }) n)

  -- `napi_new_instance`, which fails where it does not come to the constructor.
  unfoldable pub new_instance : Raise (Unit {0}) → Handoff → Native → Instance
  new_instance declines h n =
      if s.calls
      then class_constructor declines h n
      else record { ended = null; handoff = h; native = n }

  -- `destroy_native` where the handoff has its receiver.
  drop_receiver : Bool → Native → Native
  drop_receiver true n = record n { deleted = suc n.deleted }
  drop_receiver false n = n

  failed_instance : Instance → Raise (Unit {0}) × Native
  unfolding drop_receiver
  failed_instance i = (
    failure (codes "napi_new_instance failed for exported object"),
    drop_receiver i.handoff.receiver i.native,
  )

  returned : Instance → Raise (Unit {0}) × Native
  unfolding failed_instance
  returned i =
      if i.handoff.receiver
      then failed_instance i
      else if s.returned_reference
      then (ok tt, i.native)
      else (failure (codes "napi_create_reference failed"), i.native)

  made : Instance → Ended → Raise (Unit {0}) × Native
  unfolding failed_instance returned
  made i null = failed_instance i
  made i escapes = (raised Exception.foreign, i.native)
  made i self = returned i
  made i nothing = returned i

  -- `make_export_object_impl`, of what the C++ constructor comes to and of what the class does with
  -- a call that `try_construct_external_proxy` declines.
  unfoldable pub make_export_object_impl :
      Raise (Unit {0}) → Raise (Unit {0}) → Raise (Unit {0}) × Option Native
  unfolding made
  make_export_object_impl (raised e) declines = (raised e, none)
  make_export_object_impl (ok u) declines =
      if not s.external
      then (failure (codes "napi_create_external failed"), some (record fresh { deleted = 1 }))
      else if not s.constructor
      then (failure (codes "napi_get_reference_value failed for class constructor"), some fresh)
      else let i = new_instance declines (record { magic = true; receiver = true }) fresh in
        let (r, n) = made i i.ended in (r, some n)
