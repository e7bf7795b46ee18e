-- ===== src/Worker/Join.antt =====
-- What `shutdown` of `python_interpreter_executor` comes to: its `join` waits for the worker to
-- end.
use mathlib.Core.Path.{subst}
use mathlib.Core.List.{Perm}
use mathlib.Core.List.Perm
use dynabridge.Prelude.{
  List, ap, append-nil, arith, inl, inr, length, refl, suc, sym, true, zero, ℕ, ◌*◌, ◌+◌, ◌++◌, ◌<◌,
  [], ◌∙◌, ◌∷◌, ◌≡◌, ◌≤◌, ◌⊎◌,
}
use dynabridge.Worker.{
  Phase, Reaches, State, asleep, ended, locked, run_batch, starting, take_batch, taken, testing,
  turn, turn_from, turns,
}
use dynabridge.Worker.Order.{
  IsWatchful, Reaches-IsOrdered, Reaches-IsWatchful, empty_lem, idle_batch, some_tasks,
}

abbrev pub phase_cost : Phase → ℕ
phase_cost starting = 2
phase_cost testing = 1
phase_cost asleep = 0
phase_cost taken = 3
phase_cost locked = 2
phase_cost ended = 0

-- The steps that the worker takes at most, once it was told to stop.
abbrev pub cost : {T : Type 0} → State T → ℕ
cost s = 6 * length s.tasks + (2 * length s.batch + phase_cost s.phase)

module _ {T : Type 0} (cleared : State T → List T) where
  -- `shutdown` has been called, and no thread is about to notify the worker.
  pub record IsStopping (s : State T) : Type 0 where
    pub reached : Reaches cleared s
    pub told : s.stopping ≡ true
    pub notified : s.notifying ≡ 0

  take_batch-cost :
      (s : State T)
      → s.phase ≡ testing
      → s.stopping ≡ true
      → s.batch ≡ []
      → cost (take_batch s) < cost s
  unfolding take_batch
  take_batch-cost s e c b = ground arith

  run_batch-cost :
      (batch : List T) (s : State T)
      → s.phase ≡ locked
      → s.batch ≡ batch
      → cost (run_batch cleared batch s) < cost s
  unfolding run_batch
  run_batch-cost [] s e b = ground arith
  run_batch-cost (t ∷ batch) s e b = ground arith

  turn_from-cost :
      (p : Phase) (s : State T)
      → s.phase ≡ p
      → IsWatchful s
      → s.stopping ≡ true
      → s.notifying ≡ 0
      → (p ≡ ended) ⊎ (cost (turn_from cleared p s) < cost s)
  unfolding turn_from
  turn_from-cost starting s e a c n = inr (ground arith)
  turn_from-cost testing s e a c n = inr (take_batch-cost s e c (idle_batch s e a))
  turn_from-cost asleep s e a c n = absurd (ground arith)
  turn_from-cost taken s e a c n = inr (ground arith)
  turn_from-cost locked s e a c n = inr (run_batch-cost s.batch s e refl)
  turn_from-cost ended s e a c n = inl refl

  run_batch-flags :
      (batch : List T) (s : State T)
      → ((run_batch cleared batch s).stopping ≡ s.stopping)
        × ((run_batch cleared batch s).notifying ≡ s.notifying)
  unfolding run_batch
  run_batch-flags [] s = (refl, refl)
  run_batch-flags (t ∷ batch) s = (refl, refl)

  take_batch-flags :
      (s : State T)
      → ((take_batch s).stopping ≡ s.stopping) × ((take_batch s).notifying ≡ s.notifying)
  unfolding take_batch
  take_batch-flags s = ground arith

  turn_from-flags :
      (p : Phase) (s : State T)
      → ((turn_from cleared p s).stopping ≡ s.stopping)
        × ((turn_from cleared p s).notifying ≡ s.notifying)
  unfolding turn_from
  turn_from-flags starting s = (refl, refl)
  turn_from-flags testing s = take_batch-flags s
  turn_from-flags asleep s = (refl, refl)
  turn_from-flags taken s = (refl, refl)
  turn_from-flags locked s = run_batch-flags s.batch s
  turn_from-flags ended s = (refl, refl)

  turn-IsStopping : (s : State T) → IsStopping s → IsStopping (turn cleared s)
  unfolding turn
  turn-IsStopping s h =
      let (stopping, notifying) = turn_from-flags s.phase s in
      record {
        reached = turns h.reached;
        told = stopping ∙ h.told;
        notified = notifying ∙ h.notified;
      }

  -- The worker's steps, one behind the other.
  abbrev pub proceed : ℕ → State T → State T
  proceed zero s = s
  proceed (suc n) s = proceed n (turn cleared s)

  -- The worker has ended, and every task that was queued has been run, in the order of the queue,
  -- and destroyed once, in some order.
  pub record IsJoined (s : State T) : Type 0 where
    pub is_ended : s.phase ≡ ended
    pub no_tasks : s.tasks ≡ []
    pub all_ran : s.ran ≡ s.queued
    pub all_destroyed : Perm s.destroyed s.queued

  left :
      (s : State T)
      → s.phase ≡ ended
      → IsWatchful s
      → (some_tasks s.tasks ≡ 0) × (some_tasks s.batch ≡ 0) × (some_tasks s.called ≡ 0)
  left s e a = ground arith

  joined_lem :
      ((s : State T) → Perm (cleared s) s.called)
      → (s : State T) → Reaches cleared s
      → s.phase ≡ ended
      → IsJoined s
  joined_lem permutes s h e =
      let (t, b, c) = left s e (Reaches-IsWatchful cleared s h) in
      let o = Reaches-IsOrdered cleared permutes s h in
      let tasks = empty_lem s.tasks t in
      let ran : s.queued ≡ s.ran =
        o.fifo
        ∙ ap (λ r. s.ran ++ (r ++ s.tasks)) (empty_lem s.batch b)
        ∙ ap (λ r. s.ran ++ r) tasks
        ∙ append-nil s.ran in
      record {
        is_ended = e;
        no_tasks = tasks;
        all_ran = sym ran;
        all_destroyed = Perm.symm (
            subst (Perm s.queued)
              (ap (λ r. s.destroyed ++ r) (empty_lem s.called c) ∙ append-nil s.destroyed)
              (subst (λ x. Perm x (s.destroyed ++ s.called)) (sym ran) o.kept));
      }

  turn-ended : (s : State T) → s.phase ≡ ended → turn cleared s ≡ s
  unfolding turn turn_from
  turn-ended s e = ap (λ p. turn_from cleared p s) e

  proceed-ended : (n : ℕ) (s : State T) → s.phase ≡ ended → proceed n s ≡ s
  proceed-ended zero s e = refl
  proceed-ended (suc n) s e = ap (proceed n) (turn-ended s e) ∙ proceed-ended n s e

  -- Once `shutdown` has set its flag and all notifications were made, the worker ends within so
  -- many steps as the state costs, with every task that was queued run, in the order of the queue,
  -- and destroyed once, if the `clear` of a batch destroys its tasks once each, in whatever order.
  pub proceed-IsJoined :
      ((s : State T) → Perm (cleared s) s.called)
      → (n : ℕ) (s : State T) → cost s ≤ n
      → IsStopping s
      → IsJoined (proceed n s)
  unfolding turn
  proceed-IsJoined permutes zero s f h =
      elim (turn_from-cost s.phase s refl (Reaches-IsWatchful cleared s h.reached) h.told
        h.notified) [
          | inl e ↦ joined_lem permutes s h.reached e
          | inr lt ↦ absurd (omega (arith, lt, f))
        ]
  proceed-IsJoined permutes (suc n) s f h =
      elim (turn_from-cost s.phase s refl (Reaches-IsWatchful cleared s h.reached) h.told
        h.notified) [
          | inl e ↦
              subst IsJoined (sym (proceed-ended (suc n) s e)) (joined_lem permutes s h.reached e)
          | inr lt ↦
              proceed-IsJoined permutes n (turn cleared s) (omega (arith, lt, f))
                (turn-IsStopping s h)
        ]
