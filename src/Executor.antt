-- ===== src/Executor.antt =====
-- `uv_executor` of dynabridge/extensions/flux_foundry/uv_executor.h: a queue that any thread fills
-- and that a libuv loop works off in rounds.
--
-- What libuv does is taken from its documentation: `uv_async_send` calls for a later call of the
-- callback, and several sends may come to one call; a callback is not called while it runs; the
-- close callback runs after `uv_close`, in a later turn of the loop. `armed` is a send that is not
-- served.
pub mod Invariant
pub mod Order
pub mod Shutdown
use dynabridge.Prelude.{
  Bool, List, Option, false, if◌then◌else◌, none, not, some, suc, true, zero, ℕ, ◌&&◌, ◌++◌, [],
  ◌∷◌, ◌≡◌,
}

abbrev pub max_tasks_per_round : ℕ
max_tasks_per_round = 16

-- Where the loop's thread is: outside of `on_async`; behind its critical section, with `rearm` and
-- `close`; behind `uv_close`; behind `on_closed`, which frees the state.
pub data Phase : Type 0 where
  waiting : Phase
  running : Bool → Bool → Phase
  closing_handle : Phase
  freed : Phase

-- How far `close` is: not called, behind its critical section, or behind its send as well.
pub data Closer : Type 0 where
  uncalled : Closer
  marked : Closer
  sent : Closer

-- A task that `dispatch` has run itself, with the rest of the round and the queue at that time,
-- which it has overtaken.
pub record Inlined (T : Type 0) : Type 0 where
  pub task : T
  pub round : List T
  pub tasks : List T

-- `state_t`, the rest of the round, and what has happened: the tasks that were queued, those of
-- them that have been run, and the tasks that `dispatch` has run itself.
pub record State (T : Type 0) : Type 0 where
  pub tasks : List T
  pub closing : Bool
  pub armed : Bool
  pub round : List T
  pub phase : Phase
  pub closer : Closer
  pub queued : List T
  pub ran : List T
  pub inlined : List (Inlined T)

module _ {T : Type 0} where
  abbrev pub initial : State T
  initial = record {
    tasks = [];
    closing = false;
    armed = false;
    round = [];
    phase = waiting;
    closer = uncalled;
    queued = [];
    ran = [];
    inlined = [];
  }

  abbrev pub is_empty : List T → Bool
  is_empty [] = true
  is_empty (t ∷ ts) = false

  -- `dispatch`, on the loop's thread or on another one; `none` is `std::terminate`.
  unfoldable pub dispatch : Bool → T → State T → Option (State T)
  dispatch on_loop_thread task s =
      if s.closing
      then none
      else if on_loop_thread && is_empty s.tasks
      then some (record s {
        inlined = s.inlined ++ record { task = task; round = s.round; tasks = s.tasks } ∷ [];
      })
      else some
          (record s { tasks = s.tasks ++ task ∷ []; armed = true; queued = s.queued ++ task ∷ [] })

  -- The critical section of `close`; a second `close` does nothing, since `state_` is null.
  unfoldable pub mark_closing : State T → State T
  mark_closing s = elim s.closer [
    | uncalled ↦ record s { closing = true; closer = marked }
    | marked ↦ s
    | sent ↦ s
  ]

  -- The `uv_async_send` of `close`; `none` is a send through a state that has been freed.
  unfoldable pub send_closing : State T → Option (State T)
  send_closing s = elim s.phase [
    | freed ↦ none
    | _ ↦ some (record s { armed = true; closer = sent })
  ]

  -- The loop that moves tasks from the queue to the round: the round, and the tasks that are left.
  unfoldable pub take_round : ℕ → List T → List T × List T
  take_round zero tasks = ([], tasks)
  take_round (suc count) [] = ([], [])
  take_round (suc count) (t ∷ tasks) =
      let (round, left) = take_round count tasks in (t ∷ round, left)

  -- The critical section of `on_async`.
  unfoldable pub on_async : State T → State T
  on_async s =
      let (round, left) = take_round max_tasks_per_round s.tasks in
      let rearm = not (is_empty left) in
      record s {
        tasks = left;
        armed = false;
        round = round;
        phase = running rearm (s.closing && not rearm);
      }

  -- `on_async` behind the last task of its round.
  unfoldable pub end_round : Bool → Bool → State T → State T
  end_round rearm close s =
      if rearm
      then record s { armed = true; phase = waiting }
      else if close
      then record s { phase = closing_handle }
      else record s { phase = waiting }

  run_round : Bool → Bool → List T → State T → State T
  run_round rearm close [] s = end_round rearm close s
  run_round rearm close (t ∷ round) s = record s { round = round; ran = s.ran ++ t ∷ [] }

  -- The callback is called where a send has not been served.
  wake : Bool → State T → State T
  wake true s = on_async s
  wake false s = s

  turn_from : Phase → State T → State T
  unfolding run_round wake
  turn_from waiting s = wake s.armed s
  turn_from (running rearm close) s = run_round rearm close s.round s
  turn_from closing_handle s = record s { phase = freed }
  turn_from freed s = s

  -- The next step of the loop's thread.
  unfoldable pub turn : State T → State T
  unfolding turn_from
  turn s = turn_from s.phase s

  -- The states that an executor can come to: tasks are dispatched from the loop's thread and from
  -- others, `close` is called, and the loop turns, in any order.
  pub data Reaches : State T → Type 0 where
    start : Reaches initial
    dispatched :
        {s s' : State T} (on_loop_thread : Bool) (task : T)
        → dispatch on_loop_thread task s ≡ some s'
        → Reaches s
        → Reaches s'
    marks : {s : State T} → Reaches s → Reaches (mark_closing s)
    sends : {s s' : State T} → s.closer ≡ marked → send_closing s ≡ some s' → Reaches s → Reaches s'
    turns : {s : State T} → Reaches s → Reaches (turn s)
