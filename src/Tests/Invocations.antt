-- ===== src/Tests/Invocations.antt =====
-- The theorems on `operation_state` of dynabridge/async.h at a concrete run.
use dynabridge.Prelude.{List, arith, false, none, refl, some, true, ℕ, ◌+◌, ◌++◌, [], ◌∷◌, ◌≡◌, ◌≤◌}
use dynabridge.Async.{
  Action, Reaches, State, System, act, accepted, callback, cleanup, deliver, destroy, finish,
  initial, release_access, runs, submitted, take_handler, value,
}
use dynabridge.Async.Invocation.{
  Use, apply_all, assigns_erased, erases, made, starts_erased, starts_static,
}
use dynabridge.Async.Invocation.Once.{Fate, Follows, apply_all-IsOnce}
use dynabridge.Async.Tally.{total_all}
use dynabridge.Async.Quiet.{IsOnce, Reaches-IsOnce, cost}
use dynabridge.Async.Drain.{Drains, IsReady-Drains, Runs, Runs-cost}

-- The operation has been accepted, and calls `finish(value(7))` before `start` comes back.
abbrev finishing : System ℕ ℕ
finishing = record {
  state = initial 0;
  threads = (deliver (value 7) true ∷ []) ∷ (submitted ∷ []) ∷ [];
}

finishing-Reaches : Reaches 0 finishing
finishing-Reaches = finish (value 7) accepted

Reaches-IsOnce_example : IsOnce finishing.state
Reaches-IsOnce_example = Reaches-IsOnce 0 finishing finishing-Reaches

IsReady-Drains_example : Drains 0 finishing
IsReady-Drains_example =
    IsReady-Drains 0 finishing
      (record { reached = finishing-Reaches; accepted = refl; finished = omega arith })

-- The `finish` has run up to its critical section.
abbrev delivering : System ℕ ℕ
delivering = record {
  state = record (initial 0) { delivered = true; retired = true; has_access = false };
  threads =
      (take_handler ∷ release_access ∷ callback (value 7) ∷ cleanup ∷ []) ∷ (submitted ∷ []) ∷ [];
}

delivering-Runs : Runs 0 1 finishing delivering
unfolding act
delivering-Runs = Runs.step [] ((submitted ∷ []) ∷ []) _ [] _ refl Runs.rest

Runs-cost_example : 1 + total_all cost delivering.threads ≤ total_all cost finishing.threads
Runs-cost_example = Runs-cost 0 1 finishing delivering delivering-Runs

-- Both threads have come to their end.
abbrev ended : State ℕ ℕ
ended = record {
  delivered = true;
  retired = true;
  submitting = false;
  cleaned = true;
  pending_detach = none;
  has_access = false;
  has_operation = false;
  has_context = false;
  has_handler = false;
  calls = value 7 ∷ [];
  released = 1;
  destroyed = 1;
}

-- One action of the first thread that has any.
first :
    {s s' : State ℕ ℕ} (a : Action ℕ ℕ) (thread : List (Action ℕ ℕ)) {new : List (Action ℕ ℕ)}
    {after : List (List (Action ℕ ℕ))}
    → act 0 a s ≡ some (s', new)
    → Reaches 0 (record { state = s; threads = (a ∷ thread) ∷ after })
    → Reaches 0 (record { state = s'; threads = (new ++ thread) ∷ after })
first a thread {new} {after} e h = runs [] after a thread new e h

second :
    {s s' : State ℕ ℕ} (a : Action ℕ ℕ) (thread : List (Action ℕ ℕ)) {new : List (Action ℕ ℕ)}
    → act 0 a s ≡ some (s', new)
    → Reaches 0 (record { state = s; threads = [] ∷ (a ∷ thread) ∷ [] })
    → Reaches 0 (record { state = s'; threads = [] ∷ (new ++ thread) ∷ [] })
second a thread {new} e h = runs ([] ∷ []) [] a thread new e h

ended-Reaches : Reaches 0 (record { state = ended; threads = [] ∷ [] ∷ [] })
unfolding act
ended-Reaches = second destroy [] refl (
    second cleanup [] refl (
      second submitted [] refl (
        first cleanup [] refl (
          first (callback (value 7)) (cleanup ∷ []) refl (
            first release_access (callback (value 7) ∷ cleanup ∷ []) refl (
              first take_handler (release_access ∷ callback (value 7) ∷ cleanup ∷ []) refl
                (first (deliver (value 7) true) [] refl finishing-Reaches)))))))

-- The invocation has been erased, passed on, and started.
abbrev passed_on : List Use
passed_on = erases true ∷ assigns_erased false ∷ starts_erased false ∷ []

apply_all-IsOnce_example :
    Follows (apply_all passed_on made) (some Fate.started)
    × Follows (apply_all (starts_static true ∷ starts_static true ∷ []) made) none
apply_all-IsOnce_example =
    (apply_all-IsOnce passed_on, apply_all-IsOnce (starts_static true ∷ starts_static true ∷ []))
