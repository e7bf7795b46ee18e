-- ===== src/Executor/Order.antt =====
-- The order in which `uv_executor` runs its tasks.
use mathlib.Core.Path.{subst}
use mathlib.Core.Option.{some-injective}
use dynabridge.Prelude.{
  All, All-append, Bool, Bool-cases, List, ap, append_assoc, arith, false, inl, inr, length, refl,
  some, suc, sym, true, zero, ℕ, ◌&&◌, ◌++◌, [], ◌∙◌, ◌∷◌, ◌≡◌, ◌≤◌,
}
use dynabridge.Executor.{
  Inlined, Phase, Reaches, State, closing_handle, dispatch, dispatched, end_round, freed, is_empty,
  mark_closing, marks, max_tasks_per_round, on_async, run_round, running, send_closing, sends,
  start, take_round, turn, turn_from, turns, wake, waiting,
}
use dynabridge.Executor.Invariant.{IsAwake, Reaches-IsAwake}

module _ {T : Type 0} where
  -- Every task that was queued has been run, is in the round, or is in the queue, in that order.
  abbrev pub IsFifo : State T → Type 0
  IsFifo s = s.queued ≡ s.ran ++ (s.round ++ s.tasks)

  -- A task that `dispatch` has run itself has overtaken no task of the queue, and no more than a
  -- round.
  abbrev pub IsInOrder : Inlined T → Type 0
  IsInOrder i = (i.tasks ≡ []) × (length i.round ≤ max_tasks_per_round)

  -- The order of all tasks.
  pub record IsServed (s : State T) : Type 0 where
    pub fifo : IsFifo s
    pub inlined : All IsInOrder s.inlined

  take_round-append : (n : ℕ) (ts : List T) → (take_round n ts).0 ++ (take_round n ts).1 ≡ ts
  unfolding take_round
  take_round-append zero ts = refl
  take_round-append (suc n) [] = refl
  take_round-append (suc n) (t ∷ ts) = ap (◌∷◌ t) (take_round-append n ts)

  move_one : (a : List T) (t : T) (b c : List T) → (a ++ t ∷ []) ++ (b ++ c) ≡ a ++ ((t ∷ b) ++ c)
  move_one a t b c = append_assoc a (t ∷ []) (b ++ c)

  dispatch-IsFifo :
      (on_loop : Bool) (task : T) (s s' : State T)
      → dispatch on_loop task s ≡ some s'
      → IsFifo s
      → IsFifo s'
  unfolding dispatch
  dispatch-IsFifo on_loop task s s' e h = elim (Bool-cases s.closing) [
    | inl c ↦ cc (rw c at e)
    | inr c ↦ elim (Bool-cases (on_loop && is_empty s.tasks)) [
      | inl i ↦ subst IsFifo (some-injective _ _ (rw (c, i) at e)) h
      | inr i ↦ subst IsFifo (some-injective _ _ (rw (c, i) at e)) (
          ap (λ x. x ++ task ∷ []) h
          ∙ append_assoc s.ran (s.round ++ s.tasks) (task ∷ [])
          ∙ ap (λ x. s.ran ++ x) (append_assoc s.round s.tasks (task ∷ [])))
    ]
  ]

  on_async-IsFifo : (s : State T) → s.round ≡ [] → IsFifo s → IsFifo (on_async s)
  unfolding on_async
  on_async-IsFifo s e h =
      h
      ∙ ap (λ r. s.ran ++ (r ++ s.tasks)) e
      ∙ ap (λ x. s.ran ++ x) (sym (take_round-append max_tasks_per_round s.tasks))

  end_round-IsFifo :
      (rearm close : Bool) (s : State T) → IsFifo s → IsFifo (end_round rearm close s)
  unfolding end_round
  end_round-IsFifo true close s h = h
  end_round-IsFifo false true s h = h
  end_round-IsFifo false false s h = h

  run_round-IsFifo :
      (rearm close : Bool) (round : List T) (s : State T)
      → s.round ≡ round
      → IsFifo s
      → IsFifo (run_round rearm close round s)
  unfolding run_round
  run_round-IsFifo rearm close [] s r h = end_round-IsFifo rearm close s h
  run_round-IsFifo rearm close (t ∷ round) s r h =
      h ∙ ap (λ r. s.ran ++ (r ++ s.tasks)) r ∙ sym (move_one s.ran t round s.tasks)

  idle_round : (s : State T) → s.phase ≡ waiting → IsAwake s → s.round ≡ []
  idle_round s e h = ground arith

  turn_from-IsFifo :
      (p : Phase) (s : State T) → s.phase ≡ p → IsAwake s → IsFifo s → IsFifo (turn_from p s)
  unfolding turn_from wake
  turn_from-IsFifo waiting s e a h = elim (Bool-cases s.armed) [
    | inl f ↦ subst (λ b. IsFifo (wake b s)) (sym f) (on_async-IsFifo s (idle_round s e a) h)
    | inr f ↦ subst (λ b. IsFifo (wake b s)) (sym f) h
  ]
  turn_from-IsFifo (running rearm close) s e a h = run_round-IsFifo rearm close s.round s refl h
  turn_from-IsFifo closing_handle s e a h = h
  turn_from-IsFifo freed s e a h = h

  mark_closing-IsFifo : (s : State T) → IsFifo s → IsFifo (mark_closing s)
  unfolding mark_closing
  mark_closing-IsFifo s h = ground arith

  send_closing-IsFifo : (s s' : State T) → send_closing s ≡ some s' → IsFifo s → IsFifo s'
  unfolding send_closing
  send_closing-IsFifo s s' e h = ground arith

  -- In every order of steps, the tasks that were queued are run in the order of the queue.
  pub Reaches-IsFifo : (s : State T) → Reaches s → IsFifo s
  unfolding turn
  Reaches-IsFifo s start = refl
  Reaches-IsFifo s (dispatched {s = s0} on_loop task e h) =
      dispatch-IsFifo on_loop task s0 s e (Reaches-IsFifo s0 h)
  Reaches-IsFifo s (marks {s = s0} h) = mark_closing-IsFifo s0 (Reaches-IsFifo s0 h)
  Reaches-IsFifo s (sends {s = s0} m e h) = send_closing-IsFifo s0 s e (Reaches-IsFifo s0 h)
  Reaches-IsFifo s (turns {s = s0} h) =
      turn_from-IsFifo s0.phase s0 refl (Reaches-IsAwake s0 h) (Reaches-IsFifo s0 h)

  round_bound : (s : State T) → IsAwake s → length s.round ≤ max_tasks_per_round
  round_bound s a = ground arith

  empty_lem : (ts : List T) → is_empty ts ≡ true → ts ≡ []
  empty_lem [] h = refl
  empty_lem (t ∷ ts) h = absurd (ground arith)

  dispatch-inlined :
      (on_loop : Bool) (task : T) (s s' : State T)
      → dispatch on_loop task s ≡ some s'
      → IsAwake s
      → All IsInOrder s.inlined
      → All IsInOrder s'.inlined
  unfolding dispatch
  dispatch-inlined on_loop task s s' e a h = elim (Bool-cases s.closing) [
    | inl c ↦ cc (rw c at e)
    | inr c ↦ elim (Bool-cases (on_loop && is_empty s.tasks)) [
      | inl i ↦
          subst (λ x. All IsInOrder x.inlined) (some-injective _ _ (rw (c, i) at e))
            (All-append IsInOrder s.inlined _ h
              ((empty_lem s.tasks (ground arith), round_bound s a), tt))
      | inr i ↦ subst (λ x. All IsInOrder x.inlined) (some-injective _ _ (rw (c, i) at e)) h
    ]
  ]

  turn-inlined : (s : State T) → (turn s).inlined ≡ s.inlined
  unfolding turn turn_from wake on_async run_round end_round
  turn-inlined s = ground arith

  mark_closing-inlined : (s : State T) → (mark_closing s).inlined ≡ s.inlined
  unfolding mark_closing
  mark_closing-inlined s = ground arith

  send_closing-inlined : (s s' : State T) → send_closing s ≡ some s' → s'.inlined ≡ s.inlined
  unfolding send_closing
  send_closing-inlined s s' e = ground arith

  Reaches-inlined : (s : State T) → Reaches s → All IsInOrder s.inlined
  Reaches-inlined s start = tt
  Reaches-inlined s (dispatched {s = s0} on_loop task e h) =
      dispatch-inlined on_loop task s0 s e (Reaches-IsAwake s0 h) (Reaches-inlined s0 h)
  Reaches-inlined s (marks {s = s0} h) =
      subst (All IsInOrder) (sym (mark_closing-inlined s0)) (Reaches-inlined s0 h)
  Reaches-inlined s (sends {s = s0} m e h) =
      subst (All IsInOrder) (sym (send_closing-inlined s0 s e)) (Reaches-inlined s0 h)
  Reaches-inlined s (turns {s = s0} h) =
      subst (All IsInOrder) (sym (turn-inlined s0)) (Reaches-inlined s0 h)

  -- In every order of steps: no task that was queued is lost, run twice or overtaken by another
  -- queued one; and a task that is dispatched on the loop's thread is run at once only where the
  -- queue is empty, so that it overtakes the rest of a round at most, of sixteen tasks.
  pub Reaches-IsServed : (s : State T) → Reaches s → IsServed s
  Reaches-IsServed s h = record { fifo = Reaches-IsFifo s h; inlined = Reaches-inlined s h }
