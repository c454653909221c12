-- ===== src/Runtime/Concurrency/Shared.antt =====
-- What the workers share: every index is awaited or written once.
use zernflow.Base.{
  ℕ, zero, suc, ◌+◌, ◌≤◌, ◌≡◌, refl, min, Bool, true, false, Option, none, some, ◌&&◌, List, [],
  ◌∷◌, arith, leb, ltb, ◌==◌, length, All,
}
use zernflow.Runtime.Concurrency.{
  Worker, mapping, returned, Pool, taking, start_workers, finish, answer, step, run, start,
}

-- How often an index stands in a list, of workers and of results.
abbrev pub one_if : Bool → ℕ
one_if true = 1
one_if false = 0

abbrev pub awaits : ℕ → Worker → ℕ
awaits k (mapping i) = one_if (i == k)
awaits k returned = 0

abbrev pub awaited : ℕ → List Worker → ℕ
awaited k [] = 0
awaited k (w ∷ ws) = awaits k w + awaited k ws

module _ {B : Type 0} where
  abbrev pub written : ℕ → List (ℕ × B) → ℕ
  written k [] = 0
  written k ((i, b) ∷ rs) = one_if (i == k) + written k rs

abbrev pub IsReturned : Worker → Type 0
IsReturned w = w ≡ returned

pub All-IsReturned : (k : ℕ) (ws : List Worker) → All IsReturned ws → awaited k ws ≡ 0
All-IsReturned k [] h = refl
All-IsReturned k (w ∷ ws) h = let rest = All-IsReturned k ws h.1 in rw h.0 (omega (arith, rest))

module _ {B : Type 0} (size : ℕ) (mapper : ℕ → B) where
  abbrev pub P : Type 0
  P = Pool {B = B} size mapper

  -- The indices below the next one are awaited or written once, and the results are the mapper's.
  abbrev pub IsShared : P → Type 0
  IsShared p =
      ((k : ℕ) → written k p.results + awaited k p.workers ≡ one_if (ltb k (min p.next_index size)))
      × All (λ r. r.1 ≡ mapper r.0) p.results

  start_workers-awaited :
      (n index k : ℕ)
      → index + n ≤ size
      → awaited k (start_workers size mapper n index) ≡ one_if (leb index k && ltb k (index + n))
  unfolding start_workers taking
  start_workers-awaited zero index k h = ground arith
  start_workers-awaited (suc n) index k h =
      let rest = start_workers-awaited n (suc index) k (omega (arith, h)) in ground arith

  -- An answer passes on what the workers await: the index that was mapped goes, the next one comes.
  abbrev Passes : ℕ → ℕ → List Worker → List Worker × Option ℕ → Type 0
  Passes k next ws (ws', none) = awaited k ws' ≡ awaited k ws
  Passes k next ws (ws', some i) =
      one_if (i == k) + awaited k ws' ≡ awaited k ws + awaits k (taking size mapper next)

  Passes-cons :
      (k next : ℕ) (w : Worker) (ws : List Worker) (o : List Worker × Option ℕ)
      → Passes k next ws o
      → Passes k next (w ∷ ws) (w ∷ o.0, o.1)
  Passes-cons k next w ws (ws', none) h = omega (arith, h)
  Passes-cons k next w ws (ws', some i) h = omega (arith, h)

  finish-Passes :
      (n next k : ℕ) (ws : List Worker) → Passes k next ws (finish size mapper n next ws)
  unfolding finish
  finish-Passes n next k [] = refl
  finish-Passes zero next k (mapping j ∷ ws) = omega arith
  finish-Passes zero next k (returned ∷ ws) = refl
  finish-Passes (suc n) next k (w ∷ ws) =
      Passes-cons k next w ws (finish size mapper n next ws) (finish-Passes n next k ws)

  answer-IsShared :
      (p : P) (o : List Worker × Option ℕ)
      → ((k : ℕ) → Passes k p.next_index p.workers o)
      → IsShared p
      → IsShared (answer size mapper p o)
  unfolding answer taking
  answer-IsShared p (ws, none) pass h = h
  answer-IsShared p (ws, some i) pass h =
      ((λ k. let was = h.0 k in let now = pass k in ground arith), (refl, h.1))

  pub run-IsShared :
      (schedule : List ℕ) (p : P) → IsShared p → IsShared (run size mapper schedule p)
  unfolding run step
  run-IsShared [] p h = h
  run-IsShared (n ∷ later) p h =
      run-IsShared later (step size mapper n p)
        (answer-IsShared p _ (λ k. finish-Passes n p.next_index k p.workers) h)

  pub start-IsShared : (concurrency : ℕ) → IsShared (start size mapper concurrency)
  unfolding start
  start-IsShared concurrency = (
    (λ k.
        let first = start_workers-awaited (min concurrency size) 0 k (omega arith) in ground arith),
    tt,
  )

  pub length-finish :
      (n next : ℕ) (ws : List Worker) → length (finish size mapper n next ws).0 ≡ length ws
  unfolding finish
  length-finish n next [] = refl
  length-finish zero next (mapping j ∷ ws) = omega arith
  length-finish zero next (returned ∷ ws) = omega arith
  length-finish (suc n) next (w ∷ ws) = omega (arith, length-finish n next ws)
