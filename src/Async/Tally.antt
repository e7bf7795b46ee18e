-- ===== src/Async/Tally.antt =====
-- How many actions of each kind the threads still have to do.
use dynabridge.Prelude.{List, arith, ℕ, ◌+◌, ◌++◌, [], ◌∷◌, ◌≡◌}
use dynabridge.Async.{Action, callback, cleanup, destroy, release_access, submitted, take_handler}

module _ {R E : Type 0} where
  abbrev pub total : (Action R E → ℕ) → List (Action R E) → ℕ
  total w [] = 0
  total w (a ∷ actions) = w a + total w actions

  abbrev pub total_all : (Action R E → ℕ) → List (List (Action R E)) → ℕ
  total_all w [] = 0
  total_all w (thread ∷ threads) = total w thread + total_all w threads

  pub total-append :
      (w : Action R E → ℕ) (xs ys : List (Action R E))
      → total w (xs ++ ys) ≡ total w xs + total w ys
  total-append w [] ys = omega arith
  total-append w (x ∷ xs) ys = omega (arith, total-append w xs ys)

  pub total_all-append :
      (w : Action R E → ℕ) (xs ys : List (List (Action R E)))
      → total_all w (xs ++ ys) ≡ total_all w xs + total_all w ys
  total_all-append w [] ys = omega arith
  total_all-append w (x ∷ xs) ys = omega (arith, total_all-append w xs ys)

  -- The kinds that are counted.
  abbrev pub takes : Action R E → ℕ
  takes take_handler = 1
  takes _ = 0

  abbrev pub callbacks : Action R E → ℕ
  callbacks (callback r) = 1
  callbacks _ = 0

  abbrev pub releases : Action R E → ℕ
  releases release_access = 1
  releases _ = 0

  abbrev pub cleanups : Action R E → ℕ
  cleanups cleanup = 1
  cleanups _ = 0

  abbrev pub destroys : Action R E → ℕ
  destroys destroy = 1
  destroys _ = 0

  abbrev pub submits : Action R E → ℕ
  submits submitted = 1
  submits _ = 0
