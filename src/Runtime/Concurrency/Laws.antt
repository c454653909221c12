-- ===== src/Runtime/Concurrency/Laws.antt =====
-- Every item is mapped once, whichever order the workers answer in.
use zernflow.Base.{
  ℕ, zero, suc, ◌+◌, ◌≤◌, ◌<◌, ◌≡◌, refl, ◌∙◌, All-implies, min, Option, none, some, List, [], ◌∷◌,
  arith, length, All,
}
use mathlib.Core.Path.{subst}
use zernflow.Base.Result.{ok}
use zernflow.Runtime.Concurrency.{
  Worker, mapping, returned, taking, start_workers, finish, answer, step, run, start,
  map_with_concurrency,
}
use zernflow.Runtime.Concurrency.Shared.{
  IsReturned, written, P, IsShared, All-IsReturned, run-IsShared, start-IsShared, length-finish,
}

module _ {B : Type 0} (size : ℕ) (mapper : ℕ → B) where
  -- A worker returns when every index is taken.
  abbrev IsDrained : ℕ → List Worker → Type 0
  IsDrained next ws = All (λ w. w ≡ returned → size ≤ next) ws

  taking-drained : (next : ℕ) → taking size mapper next ≡ returned → size ≤ next
  unfolding taking
  taking-drained next e = ground arith

  start_workers-IsDrained :
      (n index next : ℕ) → index + n ≤ next → IsDrained next (start_workers size mapper n index)
  unfolding start_workers
  start_workers-IsDrained zero index next h = tt
  start_workers-IsDrained (suc n) index next h = (
    (λ e. omega (arith, taking-drained index e, h)),
    start_workers-IsDrained n (suc index) next (omega (arith, h)),
  )

  later : (next : ℕ) (ws : List Worker) → IsDrained next ws → IsDrained (next + 1) ws
  later next ws h = All-implies (λ w k e. omega (arith, k e)) ws h

  finish-IsDrained :
      (n next : ℕ) (ws : List Worker)
      → IsDrained next ws
      → IsDrained (next + 1) (finish size mapper n next ws).0
  unfolding finish
  finish-IsDrained n next [] h = tt
  finish-IsDrained zero next (mapping j ∷ ws) h =
      ((λ e. omega (arith, taking-drained next e)), later next ws h.1)
  finish-IsDrained zero next (returned ∷ ws) h = ((λ e. omega (arith, h.0 refl)), later next ws h.1)
  finish-IsDrained (suc n) next (w ∷ ws) h =
      ((λ e. omega (arith, h.0 e)), finish-IsDrained n next ws h.1)

  -- A pool of a number of workers that is drained.
  abbrev IsPool : ℕ → P size mapper → Type 0
  IsPool count p = (length p.workers ≡ count) × IsDrained p.next_index p.workers

  answer-IsPool :
      (count : ℕ) (p : P size mapper) (o : List Worker × Option ℕ)
      → length o.0 ≡ length p.workers
      → IsDrained (p.next_index + 1) o.0
      → IsPool count p
      → IsPool count (answer size mapper p o)
  unfolding answer
  answer-IsPool count p (ws, none) len drained h = h
  answer-IsPool count p (ws, some i) len drained h = (len ∙ h.0, drained)

  run-IsPool :
      (count : ℕ) (schedule : List ℕ) (p : P size mapper)
      → IsPool count p
      → IsPool count (run size mapper schedule p)
  unfolding run step
  run-IsPool count [] p h = h
  run-IsPool count (n ∷ rest) p h = run-IsPool count rest (step size mapper n p) (
      answer-IsPool count p (finish size mapper n p.next_index p.workers)
        (length-finish size mapper n p.next_index p.workers)
        (finish-IsDrained n p.next_index p.workers h.1) h)

  length-start_workers : (n index : ℕ) → length (start_workers size mapper n index) ≡ n
  unfolding start_workers
  length-start_workers zero index = refl
  length-start_workers (suc n) index = omega (arith, length-start_workers n (suc index))

  start-IsPool : (concurrency : ℕ) → IsPool (min concurrency size) (start size mapper concurrency)
  unfolding start
  start-IsPool concurrency = (
    length-start_workers (min concurrency size) 0,
    start_workers-IsDrained (min concurrency size) 0 (min concurrency size) (omega arith),
  )

  drained-next :
      (count next : ℕ) (ws : List Worker)
      → 0 < count
      → length ws ≡ count
      → IsDrained next ws
      → All IsReturned ws
      → size ≤ next
  drained-next count next [] h l d r = absurd (omega (arith, h, l))
  drained-next count next (w ∷ ws) h l d r = d.0 r.0

  -- However the workers' answers interleave, no more of them run than the concurrency, and no more
  -- than there are items.
  pub map_with_concurrency-limit :
      (concurrency : ℕ) (schedule : List ℕ) (p : P size mapper)
      → map_with_concurrency size mapper concurrency schedule ≡ ok p
      → length p.workers ≤ min concurrency size
  unfolding map_with_concurrency
  map_with_concurrency-limit concurrency schedule p e =
      let started = start size mapper concurrency in
      let same : run size mapper schedule started ≡ p = ground arith in
      let pool = run-IsPool (min concurrency size) schedule started (start-IsPool concurrency) in
      omega (arith, (subst (IsPool (min concurrency size)) same pool).0)

  -- However the workers' answers interleave, when all of them have returned the result of every item
  -- was written exactly once, and every result is what the mapper answered for its item.
  pub map_with_concurrency-once :
      (concurrency : ℕ) (schedule : List ℕ) (p : P size mapper)
      → map_with_concurrency size mapper concurrency schedule ≡ ok p
      → All IsReturned p.workers
      → (k : ℕ) → k < size
      → (written k p.results ≡ 1) × All (λ r. r.1 ≡ mapper r.0) p.results
  unfolding map_with_concurrency
  map_with_concurrency-once concurrency schedule p e done k below =
      let started = start size mapper concurrency in
      let positive : 0 < concurrency = ground arith in
      let same : run size mapper schedule started ≡ p = ground arith in
      let shared : IsShared size mapper p =
        subst (IsShared size mapper) same
          (run-IsShared size mapper schedule started (start-IsShared size mapper concurrency)) in
      let pool : IsPool (min concurrency size) p =
        subst (IsPool (min concurrency size)) same
          (run-IsPool (min concurrency size) schedule started (start-IsPool concurrency)) in
      let next =
        drained-next (min concurrency size) p.next_index p.workers (omega (arith, positive, below))
          pool.0 pool.1 done in
      let none' = All-IsReturned k p.workers done in
      let all = shared.0 k in (ground arith, shared.1)
