-- ===== src/Async/Quiet.antt =====
-- What the threads of `operation_state` come to: how often the handler, the access and the slots
-- are used up, that no action finds an empty slot, and that the threads come to an end.
use dynabridge.Prelude.{
  All, Bool, List, Option, arith, false, length, none, not, refl, some, true, ℕ, ◌+◌, ◌<◌, [], ◌∷◌,
  ◌≡◌, ◌≤◌,
}
use dynabridge.Async.{
  Action, Reaches, Result, State, System, act, callback, cleanup, deliver, destroy, behind, reject,
  release_access, submitted, take_handler,
}
use dynabridge.Async.Tally.{
  callbacks, cleanups, destroys, releases, submits, takes, total, total_all,
}
use dynabridge.Async.Invariant.{Consistent, Reaches-IsConsistent, bit}

-- Nothing is done twice, and the slots are emptied only behind the retirement and the submission.
pub record IsOnce {R E : Type 0} (s : State R E) : Type 0 where
  pub called_once : length s.calls ≤ 1
  pub released_once : s.released ≤ bit s.retired
  pub destroyed_once : s.destroyed ≤ 1
  pub after_retirement : s.destroyed ≤ bit s.retired
  pub after_submission : s.destroyed + bit s.submitting ≤ 1
  pub detach_deferred : length s.calls + bit s.submitting ≤ 1 + bit s.retired

-- Everything has been done.
pub record IsDone {R E : Type 0} (s : State R E) : Type 0 where
  pub called : length s.calls ≡ 1
  pub released : s.released ≡ 1
  pub destroyed : s.destroyed ≡ 1
  pub no_handler : s.has_handler ≡ false
  pub no_access : s.has_access ≡ false
  pub no_operation : s.has_operation ≡ false
  pub no_context : s.has_context ≡ false
  pub no_pending : s.pending_detach ≡ none

module _ {R E : Type 0} where
  -- The steps that an action and those that it leaves take at most.
  abbrev pub cost : Action R E → ℕ
  cost (deliver r retire) = 6
  cost take_handler = 1
  cost release_access = 1
  cost (callback r) = 1
  cost cleanup = 2
  cost destroy = 1
  cost (reject e) = 7
  cost submitted = 9

module _ {R E : Type 0} (no_error : E) where
  -- However the threads interleave, the handler is called once at most, the access is released and
  -- the slots are emptied once at most, the latter only when the operation has been retired and
  -- `start` has come back from submitting it; and a detach during the submission calls no handler.
  pub Reaches-IsOnce : (x : System R E) → Reaches no_error x → IsOnce x.state
  Reaches-IsOnce x h = let c = Reaches-IsConsistent no_error x h in ground arith

  abbrev pub Idle : List (List (Action R E)) → Type 0
  Idle = All (λ thread. thread ≡ [])

  pub Idle-total_all :
      (w : Action R E → ℕ) (threads : List (List (Action R E)))
      → Idle threads
      → total_all w threads ≡ 0
  Idle-total_all w [] h = refl
  Idle-total_all w ([] ∷ threads) h = let ih = Idle-total_all w threads h.1 in omega arith
  Idle-total_all w ((a ∷ thread) ∷ threads) h = cc (h.0)

  done_lem : (s : State R E) → Consistent s 0 0 0 0 0 0 → s.retired ≡ true → IsDone s
  done_lem s c h = ground arith

  -- Where no thread has anything left to do and the operation has finished, the handler has been
  -- called once, the access has been released once, and every slot is empty.
  pub Reaches-IsDone :
      (x : System R E)
      → Reaches no_error x
      → All (λ thread. thread ≡ []) x.threads
      → x.state.retired ≡ true
      → IsDone x.state
  Reaches-IsDone x h quiet retired =
      let z = λ (w : Action R E → ℕ). Idle-total_all w x.threads quiet in
      done_lem x.state
        (rw (z takes, z callbacks, z releases, z cleanups, z destroys, z submits) at
          (Reaches-IsConsistent no_error x h))
        retired

  behind-cost :
      (consume retire : Bool) (r : Result R E) → total cost (behind no_error consume retire r) < 6
  behind-cost true true r = omega arith
  behind-cost true false r = omega arith
  behind-cost false true r = omega arith
  behind-cost false false r = omega arith

  abbrev pub Cheaper : Action R E → Option (State R E × List (Action R E)) → Type 0
  Cheaper a none = Unit
  Cheaper a (some (s, new)) = total cost new < cost a

  pub act-Cheaper : (a : Action R E) (s : State R E) → Cheaper a (act no_error a s)
  unfolding act
  act-Cheaper (deliver r retire) s = ground (arith, behind-cost (not s.delivered) retire r)
  act-Cheaper take_handler s = ground arith
  act-Cheaper release_access s = ground arith
  act-Cheaper (callback r) s = ground arith
  act-Cheaper cleanup s = ground arith
  act-Cheaper destroy s = ground arith
  act-Cheaper (reject e) s = ground arith
  act-Cheaper submitted s = ground arith
