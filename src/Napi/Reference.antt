-- ===== src/Napi/Reference.antt =====
-- `class_target_t::constructor_reference` of dynabridge/backends/napi.h: a reference to the
-- constructor of a class, which a hook of the environment releases if the environment ends first.
pub mod Hook
use dynabridge.Prelude.{
  Bool, List, Option, false, if◌then◌else◌, none, not, some, suc, true, zero, ℕ,
}
use dynabridge.Prelude.Text.{codes}
use dynabridge.Raise.{Exception, Raise, ok, raised}

-- Whether `env` is set, whether the hook is registered, whether the object is there, and how often
-- the reference has been created and deleted.
pub record Reference : Type 0 where
  pub env : Bool
  pub hooked : Bool
  pub present : Bool
  pub created : ℕ
  pub deleted : ℕ

abbrev pub absent : Reference
absent = record { env = false; hooked = false; present = false; created = 0; deleted = 0 }

-- The constructor, for the statuses of `napi_create_reference` and `napi_add_env_cleanup_hook`.
unfoldable pub make : Bool → Bool → Raise (Unit {0}) × Reference
make created hooked =
    if not created
    then (
      raised (Exception.std_exception (codes "napi_create_reference failed for class constructor")),
      absent,
    )
    else if not hooked
    then (
      raised (Exception.std_exception (codes "napi_add_env_cleanup_hook failed")),
      record absent { created = 1; deleted = 1 },
    )
    else (ok tt, record { env = true; hooked = true; present = true; created = 1; deleted = 0 })

-- `cleanup`; `none` is a read of an object that is not there, or a call with an environment that
-- is null.
unfoldable pub cleanup : Reference → Option Reference
cleanup r =
    if not r.present
    then none
    else if not r.env
    then none
    else some (record r { env = false; deleted = suc r.deleted })

-- The environment ends: it calls its hook once.
unfoldable pub end_environment : Reference → Option Reference
end_environment r = if r.hooked then cleanup (record r { hooked = false }) else some r

leave : Option Reference → Option Reference
leave none = none
leave (some r) = some (record r { present = false })

-- The destructor.
unfoldable pub destroy : Reference → Option Reference
unfolding leave
destroy r = if r.env then leave (cleanup (record r { hooked = false })) else leave (some r)

-- What happens to the object, in any order: the environment ends, or it does not; the object is
-- destroyed once.
unfoldable pub ends_often : ℕ → Reference → Option Reference
ends_often zero r = some r
ends_often (suc n) r = elim (end_environment r) [ none ↦ none | some r' ↦ ends_often n r' ]

-- The environment ends so many times before the destruction, and so many times behind it.
unfoldable pub lifetime : ℕ → ℕ → Reference → Option Reference
lifetime before behind r = elim (ends_often before r) [
  | none ↦ none
  | some r' ↦ elim (destroy r') [ none ↦ none | some r'' ↦ ends_often behind r'' ]
]
