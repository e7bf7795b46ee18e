-- ===== src/Executor/Shutdown.antt =====
-- What `close` of `uv_executor` comes to.
use mathlib.Core.Path.{subst}
use dynabridge.Prelude.{
  Bool, Bool-cases, List, ap, append-nil, arith, false, inl, inr, length, refl, suc, sym, true,
  zero, ℕ, ◌*◌, ◌+◌, ◌++◌, ◌<◌, [], ◌∙◌, ◌∷◌, ◌≡◌, ◌≤◌, ◌⊎◌,
}
use dynabridge.Executor.{
  Phase, Reaches, State, closing_handle, end_round, freed, is_empty, max_tasks_per_round, on_async,
  run_round, running, sent, take_round, turn, turn_from, turns, waiting, wake,
}
use dynabridge.Executor.Invariant.{IsAwake, Reaches-IsAwake, some_tasks}
use dynabridge.Executor.Order.{Reaches-IsFifo}

abbrev pub phase_cost : Phase → ℕ
phase_cost waiting = 3
phase_cost (running rearm true) = 2
phase_cost (running rearm false) = 4
phase_cost closing_handle = 1
phase_cost freed = 0

-- The turns of the loop that a state takes at most, once `close` has been called.
abbrev pub cost : {T : Type 0} → State T → ℕ
cost s = 4 * length s.tasks + (2 * length s.round + phase_cost s.phase)

module _ {T : Type 0} where
  take_round-length :
      (n : ℕ) (ts : List T) → length (take_round n ts).0 + length (take_round n ts).1 ≡ length ts
  unfolding take_round
  take_round-length zero ts = omega arith
  take_round-length (suc n) [] = omega arith
  take_round-length (suc n) (t ∷ ts) = omega (arith, take_round-length n ts)

  -- Where tasks are left, the round is full.
  take_round_full :
      (n : ℕ) (ts : List T) → is_empty (take_round n ts).1 ≡ false → length (take_round n ts).0 ≡ n
  unfolding take_round
  take_round_full zero ts h = refl
  take_round_full (suc n) [] h = cc
  take_round_full (suc n) (t ∷ ts) h = ap suc (take_round_full n ts h)

  on_async-cost :
      (s : State T) → s.phase ≡ waiting → IsAwake s → s.closing ≡ true → cost (on_async s) < cost s
  unfolding on_async
  on_async-cost s e a c =
      let l = take_round-length max_tasks_per_round s.tasks in
      elim (Bool-cases (is_empty (take_round max_tasks_per_round s.tasks).1)) [
        | inl f ↦ ground arith
        | inr f ↦ let full = take_round_full max_tasks_per_round s.tasks f in ground arith
      ]

  run_round-cost :
      (rearm close : Bool) (round : List T) (s : State T)
      → s.phase ≡ running rearm close
      → s.round ≡ round
      → IsAwake s
      → cost (run_round rearm close round s) < cost s
  unfolding run_round end_round
  run_round-cost rearm close [] s e r a = ground arith
  run_round-cost rearm close (t ∷ round) s e r a = ground arith

  -- A close of which the send has been made.
  pub record IsClosing (s : State T) : Type 0 where
    pub reached : Reaches s
    pub is_sent : s.closer ≡ sent

  run_round-closer :
      (rearm close : Bool) (round : List T) (s : State T)
      → (run_round rearm close round s).closer ≡ s.closer
  unfolding run_round end_round
  run_round-closer rearm close (t ∷ round) s = refl
  run_round-closer true close [] s = refl
  run_round-closer false true [] s = refl
  run_round-closer false false [] s = refl

  wake-closer : (armed : Bool) (s : State T) → (wake armed s).closer ≡ s.closer
  unfolding wake on_async
  wake-closer true s = refl
  wake-closer false s = refl

  turn_from-closer : (p : Phase) (s : State T) → (turn_from p s).closer ≡ s.closer
  unfolding turn_from
  turn_from-closer waiting s = wake-closer s.armed s
  turn_from-closer (running rearm close) s = run_round-closer rearm close s.round s
  turn_from-closer closing_handle s = refl
  turn_from-closer freed s = refl

  turn-IsClosing : (s : State T) → IsClosing s → IsClosing (turn s)
  unfolding turn
  turn-IsClosing s h = record {
    reached = turns h.reached;
    is_sent = turn_from-closer s.phase s ∙ h.is_sent;
  }

  turn_from-cost :
      (p : Phase) (s : State T)
      → s.phase ≡ p
      → IsAwake s
      → s.closer ≡ sent
      → (p ≡ freed) ⊎ (cost (turn_from p s) < cost s)
  unfolding turn_from wake
  turn_from-cost waiting s e a h =
      let armed : s.armed ≡ true = ground arith in
      let closing : s.closing ≡ true = ground arith in
      inr (subst (λ b. cost (wake b s) < cost s) (sym armed) (on_async-cost s e a closing))
  turn_from-cost (running rearm close) s e a h = inr (run_round-cost rearm close s.round s e refl a)
  turn_from-cost closing_handle s e a h = inr (ground arith)
  turn_from-cost freed s e a h = inl refl

  -- The loop's turns, one behind the other.
  abbrev pub uv_run : ℕ → State T → State T
  uv_run zero s = s
  uv_run (suc n) s = uv_run n (turn s)

  -- The state has been freed with the queue empty, and every task that was queued has been run, in
  -- the order of the queue.
  pub record IsShut (s : State T) : Type 0 where
    pub is_freed : s.phase ≡ freed
    pub no_tasks : s.tasks ≡ []
    pub all_ran : s.ran ≡ s.queued

  empty_lem : (ts : List T) → some_tasks ts ≡ 0 → ts ≡ []
  empty_lem [] h = refl
  empty_lem (t ∷ ts) h = absurd (omega (arith, h))

  no_round : (s : State T) → s.phase ≡ freed → IsAwake s → s.round ≡ []
  no_round s e a = ground arith

  no_tasks : (s : State T) → s.phase ≡ freed → IsAwake s → some_tasks s.tasks ≡ 0
  no_tasks s e a = ground arith

  shut_lem : (s : State T) → Reaches s → s.phase ≡ freed → IsShut s
  shut_lem s h e =
      let a = Reaches-IsAwake s h in
      let tasks = empty_lem s.tasks (no_tasks s e a) in
      record {
        is_freed = e;
        no_tasks = tasks;
        all_ran = sym (
            Reaches-IsFifo s h
            ∙ ap (λ r. s.ran ++ (r ++ s.tasks)) (no_round s e a)
            ∙ ap (λ r. s.ran ++ r) tasks
            ∙ append-nil s.ran);
      }

  turn_freed : (s : State T) → s.phase ≡ freed → turn s ≡ s
  unfolding turn turn_from
  turn_freed s e = ap (λ p. turn_from p s) e

  uv_run_freed : (n : ℕ) (s : State T) → s.phase ≡ freed → uv_run n s ≡ s
  uv_run_freed zero s e = refl
  uv_run_freed (suc n) s e = ap (uv_run n) (turn_freed s e) ∙ uv_run_freed n s e

  -- Once `close` has been called and has come back, the loop comes to free the state within so
  -- many turns as the state costs, and has run every task that was queued, in the order of the
  -- queue.
  pub uv_run-IsShut : (n : ℕ) (s : State T) → cost s ≤ n → IsClosing s → IsShut (uv_run n s)
  unfolding turn
  uv_run-IsShut zero s f h =
      elim (turn_from-cost s.phase s refl (Reaches-IsAwake s h.reached) h.is_sent) [
        | inl e ↦ shut_lem s h.reached e
        | inr lt ↦ absurd (omega (arith, lt, f))
      ]
  uv_run-IsShut (suc n) s f h =
      elim (turn_from-cost s.phase s refl (Reaches-IsAwake s h.reached) h.is_sent) [
        | inl e ↦ subst IsShut (sym (uv_run_freed (suc n) s e)) (shut_lem s h.reached e)
        | inr lt ↦ uv_run-IsShut n (turn s) (omega (arith, lt, f)) (turn-IsClosing s h)
      ]
