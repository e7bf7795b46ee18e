-- ===== src/Async.antt =====
-- `operation_state` of dynabridge/async.h, as threads that interleave.
--
-- An action is a critical section of `mutex`, or an effect that the code has outside the lock. A
-- thread is the actions that it still has to do, in order. A continuation that calls back into the
-- state is another thread.
pub mod Tally
pub mod Invariant
pub mod Quiet
pub mod Drain
pub mod Invocation
use dynabridge.Prelude.{
  Bool, List, Option, false, if◌then◌else◌, none, not, some, suc, true, ℕ, ◌&&◌, ◌++◌, [], ◌||◌,
  ◌∷◌, ◌≡◌,
}

-- `async_result`; the error is `async_error`.
pub data Result (R E : Type 0) : Type 0 where
  value : R → Result R E
  failed : E → Result R E

pub data Action (R E : Type 0) : Type 0 where
  deliver : Result R E → Bool → Action R E
  take_handler release_access : Action R E
  callback : Result R E → Action R E
  cleanup destroy : Action R E
  reject : E → Action R E
  submitted : Action R E

-- The fields of `operation_state`, whether a slot is still engaged, and what has been done: the
-- results that the handler has been called with, and how often the access and the slots have been
-- released.
pub record State (R E : Type 0) : Type 0 where
  pub delivered : Bool
  pub retired : Bool
  pub submitting : Bool
  pub cleaned : Bool
  pub pending_detach : Option E
  pub has_access : Bool
  pub has_operation : Bool
  pub has_context : Bool
  pub has_handler : Bool
  pub calls : List (Result R E)
  pub released : ℕ
  pub destroyed : ℕ

-- The threads that share a state.
pub record System (R E : Type 0) : Type 0 where
  pub state : State R E
  pub threads : List (List (Action R E))

-- A value's `error` is default-constructed.
module _ {R E : Type 0} (no_error : E) where
  error_of : Result R E → E
  error_of (value r) = no_error
  error_of (failed e) = e

  -- `if (!pending_detach) pending_detach.emplace(...);`
  first_pending : Option E → Result R E → Option E
  unfolding error_of
  first_pending none r = some (error_of r)
  first_pending (some e) r = some e

  -- What `deliver` does behind its critical section.
  abbrev pub behind : Bool → Bool → Result R E → List (Action R E)
  behind true true r = take_handler ∷ release_access ∷ callback r ∷ cleanup ∷ []
  behind true false r = take_handler ∷ callback r ∷ cleanup ∷ []
  behind false true r = release_access ∷ cleanup ∷ []
  behind false false r = cleanup ∷ []

  -- The `detach` of `submitted`, and its `cleanup`.
  abbrev pub deferred : Option E → List (Action R E)
  deferred none = cleanup ∷ []
  deferred (some e) = deliver (failed e) false ∷ cleanup ∷ []

  -- The state behind an action, and the actions that it puts in front of the thread's others;
  -- `none` is a read of an empty slot, or the abort of `require`.
  unfoldable pub act : Action R E → State R E → Option (State R E × List (Action R E))
  unfolding first_pending
  act (deliver r retire) s =
      if not retire && s.submitting
      then some (record s { pending_detach = first_pending s.pending_detach r }, [])
      else if retire && s.retired
      then some (s, [])
      else some (
        record s {
          delivered = true;
          retired = s.retired || retire;
          has_access = s.has_access && not retire;
        },
        behind (not s.delivered) retire r,
      )
  act take_handler s = if s.has_handler then some (record s { has_handler = false }, []) else none
  act release_access s = some (record s { released = suc s.released }, [])
  act (callback r) s = some (record s { calls = s.calls ++ r ∷ [] }, [])
  act cleanup s =
      if not s.retired || (s.submitting || s.cleaned)
      then some (s, [])
      else some (record s { cleaned = true }, destroy ∷ [])
  act destroy s =
      some
        (record s { has_operation = false; has_context = false; destroyed = suc s.destroyed }, [])
  act (reject e) s = if s.retired then none else some (s, deliver (failed e) true ∷ [])
  act submitted s =
      some (record s { submitting = false; pending_detach = none }, deferred s.pending_detach)

  -- `operation_state(...)`
  abbrev pub initial : State R E
  initial = record {
    delivered = false;
    retired = false;
    submitting = true;
    cleaned = false;
    pending_detach = none;
    has_access = true;
    has_operation = true;
    has_context = true;
    has_handler = true;
    calls = [];
    released = 0;
    destroyed = 0;
  }

  -- The systems that `static_invocation::start` can come to. The operation accepts or is rejected;
  -- a copy of its token calls `finish` or `detach` at any time; and one of the threads acts.
  pub data Reaches : System R E → Type 0 where
    accepted : Reaches (record { state = initial; threads = (submitted ∷ []) ∷ [] })
    rejected :
        (e : E) → Reaches (record { state = initial; threads = (reject e ∷ submitted ∷ []) ∷ [] })
    finish :
        {s : State R E} {threads : List (List (Action R E))} (r : Result R E)
        → Reaches (record { state = s; threads = threads })
        → Reaches (record { state = s; threads = (deliver r true ∷ []) ∷ threads })
    detach :
        {s : State R E} {threads : List (List (Action R E))} (e : E)
        → Reaches (record { state = s; threads = threads })
        → Reaches (record { state = s; threads = (deliver (failed e) false ∷ []) ∷ threads })
    runs :
        {s s' : State R E} (before after : List (List (Action R E))) (a : Action R E)
        (thread new : List (Action R E))
        → act a s ≡ some (s', new)
        → Reaches (record { state = s; threads = before ++ (a ∷ thread) ∷ after })
        → Reaches (record { state = s'; threads = before ++ (new ++ thread) ∷ after })
