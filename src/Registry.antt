-- ===== src/Registry.antt =====
-- `export_class_registry` of dynabridge/backend_base.h: the targets of the exported classes, by the
-- key of the class's type, in the order of their first registration.
pub mod Lookup
use dynabridge.Prelude.{List, Option, if◌then◌else◌, none, some, ℕ, ◌==◌, [], ◌∷◌}
use dynabridge.Prelude.Text.{codes}
use dynabridge.Raise.{Exception, Raise, ok, raised}

-- `entry_t`
pub record Entry {ℓ} (Target : Type ℓ) : Type ℓ where
  pub key : ℕ
  pub target : Target

module _ {ℓ} {Target : Type ℓ} where
  abbrev put : ℕ → Target → Entry Target
  put k t = record { key = k; target = t }

  -- `store`: the entries, and the target that is overwritten.
  unfoldable pub store : ℕ → Target → List (Entry Target) → List (Entry Target) × Option Target
  store k target [] = (put k target ∷ [], none)
  store k target (entry ∷ entries) =
      let (rest, old) = store k target entries in
      if entry.key == k then (put k target ∷ entries, some entry.target) else (entry ∷ rest, old)

  -- `get`
  unfoldable pub get : ℕ → List (Entry Target) → Raise Target
  get k [] =
      raised (
        Exception.std_exception (codes "dynabridge export class is not registered in this context"))
  get k (entry ∷ entries) = if entry.key == k then ok entry.target else get k entries
