-- ===== src/Executor/Invariant.antt =====
-- What holds of `uv_executor` in every order of dispatches, of `close` and of the loop's turns.
use dynabridge.Prelude.{
  Bool, List, arith, false, length, not, refl, some, suc, true, zero, ℕ, ◌*◌, ◌+◌, [], ◌∷◌, ◌≡◌,
  ◌≤◌,
}
use dynabridge.Executor.{
  Closer, Phase, Reaches, State, closing_handle, dispatch, dispatched, end_round, freed, is_empty,
  mark_closing, marked, marks, max_tasks_per_round, on_async, run_round, running, send_closing,
  sends, sent, start, take_round, turn, turn_from, turns, wake, uncalled, waiting,
}

abbrev pub bit : Bool → ℕ
bit true = 1
bit false = 0

abbrev pub is_running : Phase → ℕ
is_running (running rearm close) = 1
is_running _ = 0

abbrev pub will_rearm : Phase → ℕ
will_rearm (running rearm close) = bit rearm
will_rearm _ = 0

-- The handle is closed, or will be at the end of the round.
abbrev pub will_close : Phase → ℕ
will_close (running rearm close) = bit close
will_close waiting = 0
will_close _ = 1

abbrev pub is_called : Closer → ℕ
is_called uncalled = 0
is_called _ = 1

abbrev pub is_sent : Closer → ℕ
is_sent sent = 1
is_sent _ = 0

module _ {T : Type 0} where
  abbrev pub some_tasks : List T → ℕ
  some_tasks ts = bit (not (is_empty ts))

  -- The flags: a round is bounded, a queued task has a wake-up on its way, the handle is closed
  -- only with the queue empty and `close` called, and a `close` has a wake-up on its way.
  pub record IsAwake (s : State T) : Type 0 where
    pub bounded : length s.round ≤ max_tasks_per_round * is_running s.phase
    pub woken : some_tasks s.tasks ≤ bit s.armed + will_rearm s.phase
    pub close_late : will_close s.phase + some_tasks s.tasks ≤ 1
    pub close_called : will_close s.phase ≤ bit s.closing
    pub either : will_rearm s.phase + will_close s.phase ≤ 1
    pub called : bit s.closing ≡ is_called s.closer
    pub close_woken : is_sent s.closer ≤ bit s.armed + (will_rearm s.phase + will_close s.phase)

  take_round-le : (n : ℕ) (ts : List T) → length (take_round n ts).0 ≤ n
  unfolding take_round
  take_round-le zero ts = omega arith
  take_round-le (suc n) [] = omega arith
  take_round-le (suc n) (t ∷ ts) = omega (arith, take_round-le n ts)

  end_round-IsAwake :
      (rearm close : Bool) (s : State T)
      → s.phase ≡ running rearm close
      → s.round ≡ []
      → IsAwake s
      → IsAwake (end_round rearm close s)
  unfolding end_round
  end_round-IsAwake rearm close s e r h = ground arith

  on_async-IsAwake : (s : State T) → s.phase ≡ waiting → IsAwake s → IsAwake (on_async s)
  unfolding on_async
  on_async-IsAwake s e h = let le = take_round-le max_tasks_per_round s.tasks in ground arith

  dispatch-IsAwake :
      (on_loop : Bool) (task : T) (s s' : State T)
      → dispatch on_loop task s ≡ some s'
      → IsAwake s
      → IsAwake s'
  unfolding dispatch
  dispatch-IsAwake on_loop task s s' e h = ground arith

  run_round-IsAwake :
      (rearm close : Bool) (round : List T) (s : State T)
      → s.phase ≡ running rearm close
      → s.round ≡ round
      → IsAwake s
      → IsAwake (run_round rearm close round s)
  unfolding run_round
  run_round-IsAwake rearm close [] s e r h = end_round-IsAwake rearm close s e r h
  run_round-IsAwake rearm close (t ∷ round) s e r h = ground arith

  wake-IsAwake :
      (armed : Bool) (s : State T) → s.phase ≡ waiting → IsAwake s → IsAwake (wake armed s)
  unfolding wake
  wake-IsAwake true s e h = on_async-IsAwake s e h
  wake-IsAwake false s e h = h

  turn_from-IsAwake : (p : Phase) (s : State T) → s.phase ≡ p → IsAwake s → IsAwake (turn_from p s)
  unfolding turn_from
  turn_from-IsAwake waiting s e h = wake-IsAwake s.armed s e h
  turn_from-IsAwake (running rearm close) s e h = run_round-IsAwake rearm close s.round s e refl h
  turn_from-IsAwake closing_handle s e h = ground arith
  turn_from-IsAwake freed s e h = h

  turn-IsAwake : (s : State T) → IsAwake s → IsAwake (turn s)
  unfolding turn
  turn-IsAwake s h = turn_from-IsAwake s.phase s refl h

  mark_closing-IsAwake : (s : State T) → IsAwake s → IsAwake (mark_closing s)
  unfolding mark_closing
  mark_closing-IsAwake s h = ground arith

  send_closing-IsAwake :
      (s s' : State T) → s.closer ≡ marked → send_closing s ≡ some s' → IsAwake s → IsAwake s'
  unfolding send_closing
  send_closing-IsAwake s s' m e h = ground arith

  -- In every order of steps: a round has at most sixteen tasks, a queued task and a called `close`
  -- have a wake-up on their way, and the handle is closed only with `close` called and no task
  -- queued.
  pub Reaches-IsAwake : (s : State T) → Reaches s → IsAwake s
  Reaches-IsAwake s start = ground arith
  Reaches-IsAwake s (dispatched {s = s0} on_loop task e h) =
      dispatch-IsAwake on_loop task s0 s e (Reaches-IsAwake s0 h)
  Reaches-IsAwake s (marks {s = s0} h) = mark_closing-IsAwake s0 (Reaches-IsAwake s0 h)
  Reaches-IsAwake s (sends {s = s0} m e h) = send_closing-IsAwake s0 s m e (Reaches-IsAwake s0 h)
  Reaches-IsAwake s (turns {s = s0} h) = turn-IsAwake s0 (Reaches-IsAwake s0 h)
