-- ===== src/Tests/Workers.antt =====
-- The theorems on `python_interpreter_executor` of
-- dynabridge/extensions/flux_foundry/python_interpreter_executor.h at a run.
use mathlib.Core.List.{reverse, reverse_perm}
use dynabridge.Prelude.{List, arith, refl, ℕ, [], ◌∷◌}
use dynabridge.Worker.{
  Reaches, State, dispatch, dispatched, initial, mark_stopping, marks, notifies, notify, start,
}
use dynabridge.Worker.Join.{IsJoined, proceed, proceed-IsJoined}
use dynabridge.Worker.Order.{IsOrdered, Reaches-IsOrdered}

-- A batch is destroyed from its end.
abbrev backwards : State ℕ → List ℕ
backwards s = reverse s.called

abbrev one_task : State ℕ
one_task = record initial { tasks = 5 ∷ []; notifying = 1; queued = 5 ∷ [] }

-- Two tasks from other threads, which are about to notify the worker.
abbrev two_tasks : State ℕ
two_tasks = record initial { tasks = 5 ∷ 6 ∷ []; notifying = 2; queued = 5 ∷ 6 ∷ [] }

two_tasks-Reaches : Reaches backwards two_tasks
unfolding dispatch
two_tasks-Reaches = dispatched {s = one_task} 6 refl (dispatched 5 refl start)

Reaches-IsOrdered_example : IsOrdered two_tasks
Reaches-IsOrdered_example =
    Reaches-IsOrdered backwards (λ s. reverse_perm s.called) two_tasks two_tasks-Reaches

-- `shutdown` behind them, and the three notifications.
abbrev stopped : State ℕ
stopped = notify 0 (notify 1 (notify 2 (mark_stopping two_tasks)))

stopped-Reaches : Reaches backwards stopped
unfolding mark_stopping notify
stopped-Reaches = notifies 0 refl (notifies 1 refl (notifies 2 refl (marks two_tasks-Reaches)))

proceed-IsJoined_example : IsJoined backwards (proceed backwards 14 stopped)
unfolding mark_stopping notify
proceed-IsJoined_example =
    proceed-IsJoined backwards (λ s. reverse_perm s.called) 14 stopped (omega arith)
      (record { reached = stopped-Reaches; told = refl; notified = refl })
