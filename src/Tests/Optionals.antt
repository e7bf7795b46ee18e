-- ===== src/Tests/Optionals.antt =====
-- The theorems on `optional` of dynabridge/optional.h for an element whose copy may raise.
use dynabridge.Prelude.{if◌then◌else◌, refl, some, true, ℕ, ◌==◌, [], ◌∷◌}
use dynabridge.Raise.{ok, raised, std_exception}
use dynabridge.Optional.{Element, Storage, empty}
use dynabridge.Optional.Lifetime.{
  IsBalanced, IsSound, copies, emplaces, history, history-IsBalanced, moves,
}

-- A number; the copy of 13 raises, and a move leaves 0.
abbrev number : Element ℕ
number = record {
  copy = λ n. if n == 13 then raised (std_exception []) else ok n;
  move = λ n. (ok n, 0);
  copy_assign = λ v w. if w == 13 then (raised (std_exception []), v) else (ok tt, w);
  move_assign = λ v w. (ok tt, (w, 0));
}

abbrev thirteen : Storage ℕ
thirteen = record { payload = some 13; has_value = true; constructed = 1; destroyed = 0 }

thirteen-IsSound : IsSound thirteen
thirteen-IsSound = record { flag = refl; balance = refl }

empty-IsSound : IsSound (empty {T = ℕ})
empty-IsSound = record { flag = refl; balance = refl }

history-IsBalanced_example :
    IsBalanced number
      (history number (copies thirteen ∷ emplaces (ok 4) ∷ moves thirteen ∷ []) empty)
history-IsBalanced_example =
    history-IsBalanced number (copies thirteen ∷ emplaces (ok 4) ∷ moves thirteen ∷ []) empty
      (thirteen-IsSound, (tt, (thirteen-IsSound, tt))) empty-IsSound
