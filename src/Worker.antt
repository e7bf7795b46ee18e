-- ===== src/Worker.antt =====
-- `python_interpreter_executor` of
-- dynabridge/extensions/flux_foundry/python_interpreter_executor.h: a queue that any thread fills
-- and that one thread works off in batches, under the lock of the Python interpreter.
--
-- A step is a critical section of the mutex, a notification, or a task. A thread that waits on the
-- condition goes on only after a notification or for no reason. `notifying` counts the threads
-- that are behind their critical section and before `notify_one`. The interpreter gives its lock
-- to the worker that asks for it. A task that is dispatched is not empty.
pub mod Order
pub mod Join
use dynabridge.Prelude.{
  Bool, List, Option, false, if◌then◌else◌, none, not, some, suc, true, zero, ℕ, ◌&&◌, ◌++◌, [],
  ◌||◌, ◌∷◌, ◌≡◌,
}

-- Where the worker is in `run`: before it stores its id, before the test of the condition, in the
-- wait, with a batch but without the interpreter's lock, under that lock, and behind the loop.
pub data Phase : Type 0 where
  starting : Phase
  testing : Phase
  asleep : Phase
  taken : Phase
  locked : Phase
  ended : Phase

-- The members, what `run` keeps of its batch, and what has happened: the tasks that were queued,
-- those that have been run, those that have been destroyed, and those that `dispatch` has run
-- itself. The batch is in two parts, the tasks that were run and those that come.
pub record State (T : Type 0) : Type 0 where
  pub tasks : List T
  pub stopping : Bool
  pub notifying : ℕ
  pub phase : Phase
  pub batch : List T
  pub called : List T
  pub queued : List T
  pub ran : List T
  pub destroyed : List T
  pub inlined : List T

-- What a notification makes of the wait.
abbrev pub end_wait : Phase → Phase
end_wait asleep = testing
end_wait starting = starting
end_wait testing = testing
end_wait taken = taken
end_wait locked = locked
end_wait ended = ended

module _ {T : Type 0} where
  abbrev pub initial : State T
  initial = record {
    tasks = [];
    stopping = false;
    notifying = 0;
    phase = starting;
    batch = [];
    called = [];
    queued = [];
    ran = [];
    destroyed = [];
    inlined = [];
  }

  abbrev pub is_empty : List T → Bool
  is_empty [] = true
  is_empty (t ∷ ts) = false

  -- `dispatch` of a task, on the worker's thread or on another one; `none` is `std::terminate`.
  unfoldable pub dispatch : Bool → T → State T → Option (State T)
  dispatch on_worker task s =
      if s.stopping
      then none
      else if on_worker
      then some (record s { inlined = s.inlined ++ task ∷ [] })
      else some (record s {
        tasks = s.tasks ++ task ∷ [];
        notifying = suc s.notifying;
        queued = s.queued ++ task ∷ [];
      })

  -- The critical section of `shutdown`.
  unfoldable pub mark_stopping : State T → State T
  mark_stopping s =
      if s.stopping then s else record s { stopping = true; notifying = suc s.notifying }

  -- `notify_one`, by one of the threads that are about to call it.
  unfoldable pub notify : ℕ → State T → State T
  notify others s = record s { notifying = others; phase = end_wait s.phase }

  -- The critical section of `run`: the wait's condition, the swap, and the exit.
  unfoldable pub take_batch : State T → State T
  take_batch s =
      if s.stopping || not (is_empty s.tasks)
      then record s {
        batch = s.tasks;
        tasks = [];
        phase = if is_empty s.tasks && s.stopping then ended else taken;
      }
      else record s { phase = asleep }

-- `cleared` says in which order `std::deque::clear` destroys the tasks of a batch that was run,
-- which the standard leaves open.
module _ {T : Type 0} (cleared : State T → List T) where
  -- The loop over the batch, and its `clear` under the lock.
  unfoldable pub run_batch : List T → State T → State T
  run_batch [] s = record s {
    destroyed = s.destroyed ++ cleared s;
    called = [];
    batch = [];
    phase = testing;
  }
  run_batch (t ∷ batch) s = record s {
    batch = batch;
    called = s.called ++ t ∷ [];
    ran = s.ran ++ t ∷ [];
  }

  turn_from : Phase → State T → State T
  turn_from starting s = record s { phase = testing }
  turn_from testing s = take_batch s
  turn_from asleep s = s
  turn_from taken s = record s { phase = locked }
  turn_from locked s = run_batch s.batch s
  turn_from ended s = s

  -- The next step of `run`.
  unfoldable pub turn : State T → State T
  unfolding turn_from
  turn s = turn_from s.phase s

  -- The states that an executor can come to: tasks are dispatched from the tasks of the worker and
  -- from other threads, `shutdown` is called, and the worker goes on, in any order.
  pub data Reaches : State T → Type 0 where
    start : Reaches initial
    dispatched :
        {s s' : State T} (task : T) → dispatch false task s ≡ some s' → Reaches s → Reaches s'
    inlines :
        {s s' : State T} (task : T)
        → s.phase ≡ locked
        → dispatch true task s ≡ some s'
        → Reaches s
        → Reaches s'
    marks : {s : State T} → Reaches s → Reaches (mark_stopping s)
    notifies :
        {s : State T} (others : ℕ)
        → s.notifying ≡ suc others
        → Reaches s
        → Reaches (notify others s)
    wakes : {s : State T} → Reaches s → Reaches (notify s.notifying s)
    turns : {s : State T} → Reaches s → Reaches (turn s)
