-- ===== src/Async/Invariant.antt =====
-- What holds of `operation_state` whatever the threads do.
use dynabridge.Prelude.{
  Bool, List, Option, arith, false, length, length-append, none, not, some, true, ℕ, ◌+◌, ◌++◌, [],
  ◌∷◌, ◌≡◌, ◌≤◌,
}
use dynabridge.Async.{
  Action, Reaches, Result, State, System, accepted, act, callback, cleanup, deliver, destroy,
  detach, finish, reject, rejected, release_access, runs, submitted, take_handler,
}
use dynabridge.Async.Tally.{
  callbacks, cleanups, destroys, releases, submits, takes, total, total-append, total_all,
  total_all-append,
}

abbrev pub bit : Bool → ℕ
bit true = 1
bit false = 0

abbrev pub some_bit : {A : Type 0} → Option A → ℕ
some_bit none = 0
some_bit (some a) = 1

-- The state, with the numbers of pending actions: takes, callbacks, releases, cleanups, destroys
-- and submits.
pub record Consistent {R E : Type 0} (s : State R E) (t c r k d u : ℕ) : Type 0 where
  pub called : length s.calls + c ≡ bit s.delivered
  pub taken : bit (not s.has_handler) + t ≡ bit s.delivered
  pub access_released : s.released + r ≡ bit s.retired
  pub access_moved : bit (not s.has_access) ≡ bit s.retired
  pub slots_destroyed : s.destroyed + d ≡ bit s.cleaned
  pub slots_empty : bit (not s.has_operation) ≡ s.destroyed
  pub context_empty : bit (not s.has_context) ≡ s.destroyed
  pub submit_once : u ≡ bit s.submitting
  pub cleaned_late : bit s.cleaned ≤ bit s.retired
  pub cleaned_after : bit s.cleaned + bit s.submitting ≤ 1
  pub retired_delivered : bit s.retired ≤ bit s.delivered
  pub detach_waits : bit s.delivered + bit s.submitting ≤ 1 + bit s.retired
  pub pending_waits : some_bit s.pending_detach ≤ bit s.submitting
  pub cleanup_owed : bit s.retired ≤ bit s.submitting + (bit s.cleaned + k)

module _ {R E : Type 0} (no_error : E) where
  -- Where an action has come to, `Consistent` holds with the actions that it leaves.
  abbrev After : Option (State R E × List (Action R E)) → ℕ → ℕ → ℕ → ℕ → ℕ → ℕ → Type 0
  After none t c r k d u = Unit
  After (some (s, new)) t c r k d u =
      Consistent s (total takes new + t) (total callbacks new + c) (total releases new + r)
        (total cleanups new + k) (total destroys new + d) (total submits new + u)

  abbrev Keeps : Action R E → Type 0
  Keeps a =
      (s : State R E) (t c r k d u : ℕ)
      → Consistent s (takes a + t) (callbacks a + c) (releases a + r) (cleanups a + k)
          (destroys a + d) (submits a + u)
      → After (act no_error a s) t c r k d u

  release-Keeps : Keeps release_access
  unfolding act
  release-Keeps s t c r k d u h = ground arith

  take-Keeps : Keeps take_handler
  unfolding act
  take-Keeps s t c r k d u h = ground arith

  callback-Keeps : (x : Result R E) → Keeps (callback x)
  unfolding act
  callback-Keeps x s t c r k d u h = ground (arith, length-append s.calls (x ∷ []))

  cleanup-Keeps : Keeps cleanup
  unfolding act
  cleanup-Keeps s t c r k d u h = ground arith

  destroy-Keeps : Keeps destroy
  unfolding act
  destroy-Keeps s t c r k d u h = ground arith

  reject-Keeps : (e : E) → Keeps (reject e)
  unfolding act
  reject-Keeps e s t c r k d u h = ground arith

  submitted-Keeps : Keeps submitted
  unfolding act
  submitted-Keeps s t c r k d u h = ground arith

  deliver-Keeps : (x : Result R E) (retire : Bool) → Keeps (deliver x retire)
  unfolding act
  deliver-Keeps x true s t c r k d u h = ground arith
  deliver-Keeps x false s t c r k d u h = ground arith

  act-Keeps : (a : Action R E) → Keeps a
  act-Keeps (deliver x retire) = deliver-Keeps x retire
  act-Keeps take_handler = take-Keeps
  act-Keeps release_access = release-Keeps
  act-Keeps (callback x) = callback-Keeps x
  act-Keeps cleanup = cleanup-Keeps
  act-Keeps destroy = destroy-Keeps
  act-Keeps (reject e) = reject-Keeps e
  act-Keeps submitted = submitted-Keeps

  -- `Consistent` of a state with the actions that all threads still have to do.
  abbrev pub IsConsistent : System R E → Type 0
  IsConsistent x =
      Consistent x.state (total_all takes x.threads) (total_all callbacks x.threads)
        (total_all releases x.threads) (total_all cleanups x.threads) (total_all destroys x.threads)
        (total_all submits x.threads)

  abbrev others :
      (Action R E → ℕ) → List (List (Action R E)) → List (Action R E) → List (List (Action R E)) → ℕ
  others w before thread after = total_all w before + (total w thread + total_all w after)

  split_lem :
      (w : Action R E → ℕ) (before after : List (List (Action R E)))
      (new thread : List (Action R E))
      → total_all w (before ++ (new ++ thread) ∷ after) ≡ total w new + others w before thread after
  split_lem w before after new thread =
      omega (arith, total_all-append w before ((new ++ thread) ∷ after), total-append w new thread)

  head_lem :
      (w : Action R E → ℕ) (before after : List (List (Action R E))) (a : Action R E)
      (thread : List (Action R E))
      → total_all w (before ++ (a ∷ thread) ∷ after) ≡ w a + others w before thread after
  head_lem w before after a thread = omega (arith, total_all-append w before ((a ∷ thread) ∷ after))

  -- An action of one thread keeps what holds of all of them.
  act-IsConsistent :
      (s : State R E) {s' : State R E} (before after : List (List (Action R E))) (a : Action R E)
      (thread : List (Action R E)) {new : List (Action R E)}
      → act no_error a s ≡ some (s', new)
      → IsConsistent (record { state = s; threads = before ++ (a ∷ thread) ∷ after })
      → IsConsistent (record { state = s'; threads = before ++ (new ++ thread) ∷ after })
  act-IsConsistent s before after a thread {new} e h =
      rw
        (
          split_lem takes before after new thread,
          split_lem callbacks before after new thread,
          split_lem releases before after new thread,
          split_lem cleanups before after new thread,
          split_lem destroys before after new thread,
          split_lem submits before after new thread,
        )
        (rw e at (
          act-Keeps a s (others takes before thread after) (others callbacks before thread after)
            (others releases before thread after) (others cleanups before thread after)
            (others destroys before thread after) (others submits before thread after)
            (rw
              (
                head_lem takes before after a thread,
                head_lem callbacks before after a thread,
                head_lem releases before after a thread,
                head_lem cleanups before after a thread,
                head_lem destroys before after a thread,
                head_lem submits before after a thread,
              )
              at h)))

  -- Every system that can be reached is consistent.
  pub Reaches-IsConsistent : (x : System R E) → Reaches no_error x → IsConsistent x
  Reaches-IsConsistent x accepted = ground arith
  Reaches-IsConsistent x (rejected e) = ground arith
  Reaches-IsConsistent x (finish r h) = ground (arith, Reaches-IsConsistent _ h)
  Reaches-IsConsistent x (detach e h) = ground (arith, Reaches-IsConsistent _ h)
  Reaches-IsConsistent x (runs before after a thread new e h) =
      act-IsConsistent _ before after a thread e (Reaches-IsConsistent _ h)
