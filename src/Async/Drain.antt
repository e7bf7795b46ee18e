-- ===== src/Async/Drain.antt =====
-- The threads of `operation_state` run to their end.
use dynabridge.Prelude.{
  All, Bool, List, Option, Option-cases, arith, false, inl, inr, none, not, refl, some, suc, true,
  zero, ℕ, ◌+◌, ◌++◌, ◌<◌, [], ◌∷◌, ◌≡◌, ◌≢◌, ◌≤◌,
}
use dynabridge.Async.{
  Action, Reaches, Result, State, System, act, callback, cleanup, deliver, destroy, behind, reject,
  release_access, runs, submitted, take_handler,
}
use dynabridge.Async.Tally.{takes, total, total-append, total_all, total_all-append}
use dynabridge.Async.Invariant.{IsConsistent, Reaches-IsConsistent, bit}
use dynabridge.Async.Quiet.{Idle, IsDone, Reaches-IsDone, act-Cheaper, cost, Idle-total_all}

module _ {R E : Type 0} (no_error : E) where
  -- Threads act `n` times, and no token is used meanwhile.
  pub data Runs : ℕ → System R E → System R E → Type 0 where
    rest : {x : System R E} → Runs 0 x x
    step :
        {n : ℕ} {s s' : State R E} {y : System R E} (before after : List (List (Action R E)))
        (a : Action R E) (thread new : List (Action R E))
        → act no_error a s ≡ some (s', new)
        → Runs n (record { state = s'; threads = before ++ (new ++ thread) ∷ after }) y
        → Runs (suc n) (record { state = s; threads = before ++ (a ∷ thread) ∷ after }) y

  abbrev rejects : Action R E → ℕ
  rejects (reject e) = 1
  rejects _ = 0

  abbrev finishes : Action R E → ℕ
  finishes (deliver r true) = 1
  finishes (reject e) = 1
  finishes _ = 0

  step-total :
      (w : Action R E → ℕ) (before after : List (List (Action R E))) (a : Action R E)
      (thread new : List (Action R E))
      → (total_all w (before ++ (new ++ thread) ∷ after) + w a
          ≡ total_all w (before ++ (a ∷ thread) ∷ after) + total w new)
  step-total w before after a thread new = omega (
    arith,
    total_all-append w before ((new ++ thread) ∷ after),
    total-append w new thread,
    total_all-append w before ((a ∷ thread) ∷ after),
  )

  -- However the threads interleave, they act no more often than their actions cost.
  pub Runs-cost :
      (n : ℕ) (x y : System R E)
      → Runs n x y
      → n + total_all cost y.threads ≤ total_all cost x.threads
  Runs-cost n x y rest = omega arith
  Runs-cost n x y (step {s = s} before after a thread new e h) =
      let cheaper : total cost new < cost a = rw e at (act-Cheaper no_error a s) in
      omega (arith, cheaper, step-total cost before after a thread new, Runs-cost _ _ y h)

  abbrev Kept : Action R E → State R E → Option (State R E × List (Action R E)) → Type 0
  Kept a s none = Unit
  Kept a s (some (s', new)) =
      (total rejects new ≤ rejects a)
      × (bit s.retired ≤ bit s'.retired)
      × (finishes a ≤ bit s'.retired + total finishes new)

  behind-calm :
      (consume retire : Bool) (r : Result R E)
      → (total rejects (behind no_error consume retire r) ≡ 0)
        × (total finishes (behind no_error consume retire r) ≡ 0)
  behind-calm true true r = (refl, refl)
  behind-calm true false r = (refl, refl)
  behind-calm false true r = (refl, refl)
  behind-calm false false r = (refl, refl)

  act-Kept : (a : Action R E) (s : State R E) → Kept a s (act no_error a s)
  unfolding act
  act-Kept (deliver r true) s = ground (arith, behind-calm (not s.delivered) true r)
  act-Kept (deliver r false) s = ground (arith, behind-calm (not s.delivered) false r)
  act-Kept take_handler s = ground arith
  act-Kept release_access s = ground arith
  act-Kept (callback r) s = ground arith
  act-Kept cleanup s = ground arith
  act-Kept destroy s = ground arith
  act-Kept (reject e) s = ground arith
  act-Kept submitted s = ground arith

  -- The operation has finished or will: it is retired, or a thread still has to retire it.
  abbrev pub IsFinished : System R E → Type 0
  IsFinished x = 1 ≤ bit x.state.retired + total_all finishes x.threads

  -- No `reject` is left, which aborts where the operation has finished its token before.
  abbrev pub IsAccepted : System R E → Type 0
  IsAccepted x = total_all rejects x.threads ≡ 0

  act-some :
      (s : State R E) (a : Action R E) (before after : List (List (Action R E)))
      (thread : List (Action R E))
      → IsConsistent no_error (record { state = s; threads = before ++ (a ∷ thread) ∷ after })
      → rejects a ≡ 0
      → act no_error a s ≢ none
  unfolding act
  act-some s take_handler before after thread h z e =
      let t = total_all-append takes before ((take_handler ∷ thread) ∷ after) in ground arith
  act-some s (deliver r retire) before after thread h z e = ground arith
  act-some s release_access before after thread h z e = ground arith
  act-some s (callback r) before after thread h z e = ground arith
  act-some s cleanup before after thread h z e = ground arith
  act-some s destroy before after thread h z e = ground arith
  act-some s (reject x) before after thread h z e = ground arith
  act-some s submitted before after thread h z e = ground arith

  -- The first thread that has something left to do.
  data Pick : List (List (Action R E)) → Type 0 where
    quiet :
        {threads : List (List (Action R E))} → All (λ thread. thread ≡ []) threads → Pick threads
    busy :
        (before after : List (List (Action R E))) (a : Action R E) (thread : List (Action R E))
        → Pick (before ++ (a ∷ thread) ∷ after)

  Pick-behind : (threads : List (List (Action R E))) → Pick threads → Pick ([] ∷ threads)
  Pick-behind threads (quiet h) = quiet (refl, h)
  Pick-behind threads (busy before after a thread) = busy ([] ∷ before) after a thread

  pick : (threads : List (List (Action R E))) → Pick threads
  pick [] = quiet tt
  pick ((a ∷ thread) ∷ after) = busy [] after a thread
  pick ([] ∷ threads) = Pick-behind threads (pick threads)

  -- A system that can be reached, whose operation has been accepted, and has finished or will.
  pub record IsReady (x : System R E) : Type 0 where
    pub reached : Reaches no_error x
    pub accepted : IsAccepted x
    pub finished : IsFinished x

  act-IsReady :
      (s : State R E) {s' : State R E} (before after : List (List (Action R E))) (a : Action R E)
      (thread : List (Action R E)) {new : List (Action R E)}
      → act no_error a s ≡ some (s', new)
      → IsReady (record { state = s; threads = before ++ (a ∷ thread) ∷ after })
      → IsReady (record { state = s'; threads = before ++ (new ++ thread) ∷ after })
  act-IsReady s before after a thread {new} e h =
      let k = rw e at (act-Kept a s) in
      record {
        reached = runs before after a thread new e h.reached;
        accepted = omega (arith, k, h.accepted, step-total rejects before after a thread new);
        finished = omega (arith, k, h.finished, step-total finishes before after a thread new);
      }

  -- A run of a system to an end at which no thread is left with an action and everything has been
  -- done.
  abbrev pub Drains : System R E → Type 0
  Drains x = (n : ℕ) × (y : System R E) × Runs n x y × Idle no_error y.threads × IsDone y.state

  quiet-Drains : (x : System R E) → All (λ thread. thread ≡ []) x.threads → IsReady x → Drains x
  quiet-Drains x q h = (
    0,
    x,
    rest,
    q,
    Reaches-IsDone no_error x h.reached q
        (ground (arith, h.finished, Idle-total_all no_error finishes x.threads q)),
  )

  head_calm :
      (a : Action R E) (before after : List (List (Action R E))) (thread : List (Action R E))
      → total_all rejects (before ++ (a ∷ thread) ∷ after) ≡ 0
      → rejects a ≡ 0
  head_calm a before after thread h =
      omega (arith, h, total_all-append rejects before ((a ∷ thread) ∷ after))

  one-le-cost : (a : Action R E) → 1 ≤ cost a
  one-le-cost (deliver r retire) = omega arith
  one-le-cost take_handler = omega arith
  one-le-cost release_access = omega arith
  one-le-cost (callback r) = omega arith
  one-le-cost cleanup = omega arith
  one-le-cost destroy = omega arith
  one-le-cost (reject e) = omega arith
  one-le-cost submitted = omega arith

  drain :
      (fuel : ℕ) (s : State R E) (threads : List (List (Action R E)))
      → total_all cost threads ≤ fuel
      → IsReady (record { state = s; threads = threads })
      → Pick threads
      → Drains (record { state = s; threads = threads })
  drain fuel s threads f h (quiet q) = quiet-Drains _ q h
  drain zero s threads f h (busy before after a thread) =
      absurd (omega (arith, f, one-le-cost a, total_all-append cost before ((a ∷ thread) ∷ after)))
  drain (suc fuel) s threads f h (busy before after a thread) =
      elim (Option-cases (act no_error a s)) [
        | inl e ↦ absurd (
            act-some s a before after thread (Reaches-IsConsistent no_error _ h.reached)
              (head_calm a before after thread h.accepted) e)
        | inr ((s', new), e) ↦
            let cheaper : total cost new < cost a = rw e at (act-Cheaper no_error a s) in
            let (n, y, r, idle, done) =
              drain fuel s' (before ++ (new ++ thread) ∷ after)
                (omega (arith, f, cheaper, step-total cost before after a thread new))
                (act-IsReady s before after a thread e h)
                (pick (before ++ (new ++ thread) ∷ after)) in
            (suc n, y, step before after a thread new e r, idle, done)
      ]

  -- From any such system the threads can run to an end, at which no thread has anything left to
  -- do, the handler has been called once, the access has been released once, and every slot is
  -- empty.
  pub IsReady-Drains : (x : System R E) → IsReady x → Drains x
  IsReady-Drains x h =
      drain (total_all cost x.threads) x.state x.threads (omega arith) h (pick x.threads)
