-- ===== src/Worker/Order.antt =====
-- What holds of `python_interpreter_executor` in every order of dispatches, of `shutdown` and of
-- the worker's steps.
use mathlib.Core.Path.{subst}
use mathlib.Core.List.{Perm}
use mathlib.Core.List.Perm
use mathlib.Core.Option.{some-injective}
use dynabridge.Prelude.{
  Bool, Bool-cases, List, ap, append-nil, append_assoc, arith, false, inl, inr, not, refl, some,
  suc, sym, true, ℕ, ◌+◌, ◌++◌, [], ◌∙◌, ◌∷◌, ◌≡◌, ◌≤◌,
}
use dynabridge.Worker.{
  Phase, Reaches, State, asleep, dispatch, dispatched, ended, inlines, is_empty, locked,
  mark_stopping, marks, notifies, notify, run_batch, start, starting, take_batch, taken, testing,
  turn, turn_from, turns, wakes,
}

abbrev pub bit : Bool → ℕ
bit true = 1
bit false = 0

abbrev pub is_asleep : Phase → ℕ
is_asleep asleep = 1
is_asleep _ = 0

abbrev pub is_ended : Phase → ℕ
is_ended ended = 1
is_ended _ = 0

-- The phases in which the worker has no batch.
abbrev pub is_idle : Phase → ℕ
is_idle taken = 0
is_idle locked = 0
is_idle _ = 1

module _ {T : Type 0} where
  abbrev pub some_tasks : List T → ℕ
  some_tasks ts = bit (not (is_empty ts))

  -- A worker that sleeps has nothing to do or is about to be notified, and a worker that has ended
  -- was told to stop and has left nothing.
  pub record IsWatchful (s : State T) : Type 0 where
    pub task_seen : is_asleep s.phase + some_tasks s.tasks ≤ 1 + s.notifying
    pub stop_seen : is_asleep s.phase + bit s.stopping ≤ 1 + s.notifying
    pub told : is_ended s.phase ≤ bit s.stopping
    pub all_taken : is_ended s.phase + some_tasks s.tasks ≤ 1
    pub no_batch : is_idle s.phase + some_tasks s.batch ≤ 1
    pub no_called : is_idle s.phase + some_tasks s.called ≤ 1

  dispatch-IsWatchful :
      (on_worker : Bool) (task : T) (s s' : State T)
      → dispatch on_worker task s ≡ some s'
      → IsWatchful s
      → IsWatchful s'
  unfolding dispatch
  dispatch-IsWatchful on_worker task s s' e h = ground arith

  mark_stopping-IsWatchful : (s : State T) → IsWatchful s → IsWatchful (mark_stopping s)
  unfolding mark_stopping
  mark_stopping-IsWatchful s h = ground arith

  notify-IsWatchful :
      (others : ℕ) (s : State T)
      → s.notifying ≤ suc others
      → IsWatchful s
      → IsWatchful (notify others s)
  unfolding notify
  notify-IsWatchful others s e h = ground arith

  take_batch-IsWatchful :
      (s : State T) → s.phase ≡ testing → IsWatchful s → IsWatchful (take_batch s)
  unfolding take_batch
  take_batch-IsWatchful s e h = ground arith

module _ {T : Type 0} (cleared : State T → List T) where
  run_batch-IsWatchful :
      (batch : List T) (s : State T)
      → s.phase ≡ locked
      → s.batch ≡ batch
      → IsWatchful s
      → IsWatchful (run_batch cleared batch s)
  unfolding run_batch
  run_batch-IsWatchful [] s e b h = ground arith
  run_batch-IsWatchful (t ∷ batch) s e b h = ground arith

  turn_from-IsWatchful :
      (p : Phase) (s : State T) → s.phase ≡ p → IsWatchful s → IsWatchful (turn_from cleared p s)
  unfolding turn_from
  turn_from-IsWatchful starting s e h = ground arith
  turn_from-IsWatchful testing s e h = take_batch-IsWatchful s e h
  turn_from-IsWatchful asleep s e h = h
  turn_from-IsWatchful taken s e h = ground arith
  turn_from-IsWatchful locked s e h = run_batch-IsWatchful s.batch s e refl h
  turn_from-IsWatchful ended s e h = h

  turn-IsWatchful : (s : State T) → IsWatchful s → IsWatchful (turn cleared s)
  unfolding turn
  turn-IsWatchful s h = turn_from-IsWatchful s.phase s refl h

  -- In every order of steps: a worker that sleeps with a task queued or with `shutdown` called is
  -- about to be notified, and a worker that has ended was told to stop and has left no task behind.
  pub Reaches-IsWatchful : (s : State T) → Reaches cleared s → IsWatchful s
  Reaches-IsWatchful s start = ground arith
  Reaches-IsWatchful s (dispatched {s = s0} task e h) =
      dispatch-IsWatchful false task s0 s e (Reaches-IsWatchful s0 h)
  Reaches-IsWatchful s (inlines {s = s0} task p e h) =
      dispatch-IsWatchful true task s0 s e (Reaches-IsWatchful s0 h)
  Reaches-IsWatchful s (marks {s = s0} h) = mark_stopping-IsWatchful s0 (Reaches-IsWatchful s0 h)
  Reaches-IsWatchful s (notifies {s = s0} others e h) =
      notify-IsWatchful others s0 (omega (arith, e)) (Reaches-IsWatchful s0 h)
  Reaches-IsWatchful s (wakes {s = s0} h) =
      notify-IsWatchful s0.notifying s0 (omega arith) (Reaches-IsWatchful s0 h)
  Reaches-IsWatchful s (turns {s = s0} h) = turn-IsWatchful s0 (Reaches-IsWatchful s0 h)

module _ {T : Type 0} where
  -- Every task that was queued has been run, is in the batch, or is in the queue, in that order;
  -- and those that were run have been destroyed, in some order, or are in the batch still.
  pub record IsOrdered (s : State T) : Type 0 where
    pub fifo : s.queued ≡ s.ran ++ (s.batch ++ s.tasks)
    pub kept : Perm s.ran (s.destroyed ++ s.called)

  dispatch-IsOrdered :
      (on_worker : Bool) (task : T) (s s' : State T)
      → dispatch on_worker task s ≡ some s'
      → IsOrdered s
      → IsOrdered s'
  unfolding dispatch
  dispatch-IsOrdered on_worker task s s' e h = elim (Bool-cases s.stopping) [
    | inl c ↦ cc (rw c at e)
    | inr c ↦ elim (Bool-cases on_worker) [
      | inl i ↦
          subst IsOrdered (some-injective _ _ (rw (c, i) at e))
            (record { fifo = h.fifo; kept = h.kept })
      | inr i ↦ subst IsOrdered (some-injective _ _ (rw (c, i) at e)) (record {
        fifo =
            ap (λ x. x ++ task ∷ []) h.fifo
            ∙ append_assoc s.ran (s.batch ++ s.tasks) (task ∷ [])
            ∙ ap (λ x. s.ran ++ x) (append_assoc s.batch s.tasks (task ∷ []));
        kept = h.kept;
      })
    ]
  ]

  mark_stopping-IsOrdered : (s : State T) → IsOrdered s → IsOrdered (mark_stopping s)
  unfolding mark_stopping
  mark_stopping-IsOrdered s h = ground arith

  notify-IsOrdered : (others : ℕ) (s : State T) → IsOrdered s → IsOrdered (notify others s)
  unfolding notify
  notify-IsOrdered others s h = record { fifo = h.fifo; kept = h.kept }

  pub empty_lem : (ts : List T) → some_tasks ts ≡ 0 → ts ≡ []
  empty_lem [] h = refl
  empty_lem (t ∷ ts) h = absurd (omega (arith, h))

  take_batch-IsOrdered : (s : State T) → s.batch ≡ [] → IsOrdered s → IsOrdered (take_batch s)
  unfolding take_batch
  take_batch-IsOrdered s e h =
      let moved : s.queued ≡ s.ran ++ (s.tasks ++ []) =
        h.fifo
        ∙ ap (λ b. s.ran ++ (b ++ s.tasks)) e
        ∙ ap (λ x. s.ran ++ x) (sym (append-nil s.tasks)) in
      ground arith

  pub idle_batch : (s : State T) → s.phase ≡ testing → IsWatchful s → s.batch ≡ []
  idle_batch s e h = ground arith

module _ {T : Type 0} (cleared : State T → List T) where
  run_batch-IsOrdered :
      (batch : List T) (s : State T)
      → Perm (cleared s) s.called
      → s.batch ≡ batch
      → IsOrdered s
      → IsOrdered (run_batch cleared batch s)
  unfolding run_batch
  run_batch-IsOrdered [] s p e h = record {
    fifo = h.fifo ∙ ap (λ b. s.ran ++ (b ++ s.tasks)) e;
    kept =
        subst (Perm s.ran) (sym (append-nil (s.destroyed ++ cleared s)))
          (Perm.trans h.kept (Perm.append_left s.destroyed (Perm.symm p)));
  }
  run_batch-IsOrdered (t ∷ batch) s p e h = record {
    fifo =
        h.fifo
        ∙ ap (λ b. s.ran ++ (b ++ s.tasks)) e
        ∙ sym (append_assoc s.ran (t ∷ []) (batch ++ s.tasks));
    kept =
        subst (Perm (s.ran ++ t ∷ [])) (append_assoc s.destroyed s.called (t ∷ []))
          (Perm.append_right (t ∷ []) h.kept);
  }

  turn_from-IsOrdered :
      (p : Phase) (s : State T)
      → Perm (cleared s) s.called
      → s.phase ≡ p
      → IsWatchful s
      → IsOrdered s
      → IsOrdered (turn_from cleared p s)
  unfolding turn_from
  turn_from-IsOrdered starting s p e a h = record { fifo = h.fifo; kept = h.kept }
  turn_from-IsOrdered testing s p e a h = take_batch-IsOrdered s (idle_batch s e a) h
  turn_from-IsOrdered asleep s p e a h = h
  turn_from-IsOrdered taken s p e a h = record { fifo = h.fifo; kept = h.kept }
  turn_from-IsOrdered locked s p e a h = run_batch-IsOrdered s.batch s p refl h
  turn_from-IsOrdered ended s p e a h = h

  -- In every order of steps: no task that was queued is lost, run twice or overtaken by another
  -- queued one, and those that were run have been destroyed once each, or are in the batch still,
  -- if the `clear` of a batch destroys its tasks once each, in whatever order.
  pub Reaches-IsOrdered :
      ((s : State T) → Perm (cleared s) s.called) → (s : State T) → Reaches cleared s → IsOrdered s
  unfolding turn
  Reaches-IsOrdered permutes s start = record { fifo = refl; kept = Perm.refl [] }
  Reaches-IsOrdered permutes s (dispatched {s = s0} task e h) =
      dispatch-IsOrdered false task s0 s e (Reaches-IsOrdered permutes s0 h)
  Reaches-IsOrdered permutes s (inlines {s = s0} task p e h) =
      dispatch-IsOrdered true task s0 s e (Reaches-IsOrdered permutes s0 h)
  Reaches-IsOrdered permutes s (marks {s = s0} h) =
      mark_stopping-IsOrdered s0 (Reaches-IsOrdered permutes s0 h)
  Reaches-IsOrdered permutes s (notifies {s = s0} others e h) =
      notify-IsOrdered others s0 (Reaches-IsOrdered permutes s0 h)
  Reaches-IsOrdered permutes s (wakes {s = s0} h) =
      notify-IsOrdered s0.notifying s0 (Reaches-IsOrdered permutes s0 h)
  Reaches-IsOrdered permutes s (turns {s = s0} h) =
      turn_from-IsOrdered s0.phase s0 (permutes s0) refl (Reaches-IsWatchful cleared s0 h)
        (Reaches-IsOrdered permutes s0 h)
