-- ===== src/Tests/Owners.antt =====
-- The theorems on `export_native_storage` of dynabridge/traits.h for two storages.
use dynabridge.Prelude.{refl, some, true, ℕ}
use dynabridge.Raise.{ok}
use dynabridge.Native.{Storage, borrow, move_assign, own}
use dynabridge.Native.Ownership.{IsSound, LeavesSound, move_assign-LeavesSound}

abbrev owner : Storage ℕ
owner = record { native = own; owns = true; object = some 9; constructed = 1; destroyed = 0 }

owner-IsSound : IsSound owner
owner-IsSound = record { points = refl; lives = refl; balance = refl }

borrow-IsSound : IsSound (borrow {N = ℕ} 4096)
unfolding borrow
borrow-IsSound = record { points = refl; lives = refl; balance = refl }

move_assign-LeavesSound_example :
    LeavesSound (move_assign (λ (n : ℕ). (ok n, 0)) owner (borrow 4096))
move_assign-LeavesSound_example =
    move_assign-LeavesSound (λ n. (ok n, 0)) owner (borrow 4096) owner-IsSound borrow-IsSound
