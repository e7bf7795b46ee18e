-- ===== src/Registry/Lookup.antt =====
-- The registry is a finite map: what is stored last for a class is what is found.
use dynabridge.Prelude.{List, arith, if◌then◌else◌, refl, ℕ, ◌==◌, [], ◌∷◌, ◌≡◌}
use dynabridge.Raise.{ok}
use dynabridge.Registry.{Entry, get, store}

module _ {ℓ} {Target : Type ℓ} where
  -- A target that is stored for a class is found for it, and the other classes keep theirs.
  pub get-store :
      (k j : ℕ) (target : Target) (entries : List (Entry Target))
      → get j (store k target entries).0 ≡ (if k == j then ok target else get j entries)
  unfolding get store
  get-store k j target [] = refl
  get-store k j target (entry ∷ entries) =
      let rest = get-store k j target entries in ground (arith, rest)
