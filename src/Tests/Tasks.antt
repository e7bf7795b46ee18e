-- ===== src/Tests/Tasks.antt =====
-- The theorems on `uv_executor` of dynabridge/extensions/flux_foundry/uv_executor.h at a run.
use dynabridge.Prelude.{arith, false, refl, true, ℕ, [], ◌∷◌}
use dynabridge.Executor.{
  Reaches, State, dispatch, dispatched, initial, mark_closing, marked, marks, send_closing, sends,
  start,
}
use dynabridge.Executor.Order.{IsServed, Reaches-IsServed}
use dynabridge.Executor.Shutdown.{IsShut, uv_run, uv_run-IsShut}

-- Two tasks from other threads.
abbrev two_tasks : State ℕ
two_tasks = record initial { tasks = 5 ∷ 6 ∷ []; armed = true; queued = 5 ∷ 6 ∷ [] }

one_task-Reaches :
    Reaches (record (initial {T = ℕ}) { tasks = 5 ∷ []; armed = true; queued = 5 ∷ [] })
unfolding dispatch
one_task-Reaches = dispatched false 5 refl start

two_tasks-Reaches : Reaches two_tasks
unfolding dispatch
two_tasks-Reaches = dispatched false 6 refl one_task-Reaches

-- A task that is run at once on the thread of the loop, and one that is queued behind it.
abbrev mixed : State ℕ
mixed = record initial {
  tasks = 5 ∷ [];
  armed = true;
  queued = 5 ∷ [];
  inlined = record { task = 4; round = []; tasks = [] } ∷ [];
}

mixed-Reaches : Reaches mixed
unfolding dispatch
mixed-Reaches = dispatched false 5 refl (dispatched true 4 refl start)

Reaches-IsServed_example : IsServed mixed
Reaches-IsServed_example = Reaches-IsServed mixed mixed-Reaches

-- `close` behind them.
abbrev closed : State ℕ
closed = record two_tasks { closing = true; closer = dynabridge.Executor.Closer.sent }

closed-Reaches : Reaches closed
unfolding mark_closing send_closing
closed-Reaches = sends refl refl (marks two_tasks-Reaches)

uv_run-IsShut_example : IsShut (uv_run 11 closed)
uv_run-IsShut_example =
    uv_run-IsShut 11 closed (omega arith) (record { reached = closed-Reaches; is_sent = refl })
