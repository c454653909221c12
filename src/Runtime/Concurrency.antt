-- ===== src/Runtime/Concurrency.antt =====
-- lib/concurrency.ts: `mapWithConcurrency`. The workers share the next index and the results. An
-- interleaving is the sequence of the workers whose mapper answers; between two answers nothing else
-- runs. What the mapper answers for an index is a parameter, and it does not reject.
pub mod Shared
pub mod Laws
use zernflow.Base.{
  ℕ, zero, suc, ◌+◌, ◌≤◌, min, Bool, true, false, Option, none, some, List, [], ◌∷◌, if◌then◌else◌,
  leb, ltb,
}
use zernflow.Base.Result.{Result, ok, err}

-- A worker that awaits the mapper for an index, or has returned.
pub data Worker : Type 0 where
  mapping : ℕ → Worker
  returned : Worker

pub data RangeError : Type 0 where
  not_positive : RangeError

module _ {B : Type 0} (size : ℕ) (mapper : ℕ → B) where
  -- `results[index] = …` adds an entry.
  pub record Pool : Type 0 where
    pub next_index : ℕ
    pub workers : List Worker
    pub results : List (ℕ × B)

  -- `if (index >= items.length) return`
  unfoldable pub taking : ℕ → Worker
  taking index = if leb size index then returned else mapping index

  -- The first index of each of the workers.
  unfoldable pub start_workers : ℕ → ℕ → List Worker
  start_workers zero index = []
  start_workers (suc n) index = taking index ∷ start_workers n (suc index)

  -- A worker's answer: the index that it mapped, and the worker with the next index.
  unfoldable pub finish : ℕ → ℕ → List Worker → List Worker × Option ℕ
  finish n next [] = ([], none)
  finish zero next (mapping i ∷ ws) = (taking next ∷ ws, some i)
  finish zero next (returned ∷ ws) = (returned ∷ ws, none)
  finish (suc n) next (w ∷ ws) = let (ws', o) = finish n next ws in (w ∷ ws', o)

  unfoldable pub answer : Pool → List Worker × Option ℕ → Pool
  answer p (ws, none) = p
  answer p (ws, some i) = record {
    next_index = p.next_index + 1;
    workers = ws;
    results = (i, mapper i) ∷ p.results;
  }

  unfoldable pub step : ℕ → Pool → Pool
  unfolding answer finish
  step n p = answer p (finish n p.next_index p.workers)

  unfoldable pub run : List ℕ → Pool → Pool
  run [] p = p
  run (n ∷ later) p = run later (step n p)

  -- The pool when every worker has been started.
  unfoldable pub start : ℕ → Pool
  unfolding start_workers
  start concurrency =
      let count = min concurrency size in
      record { next_index = count; workers = start_workers count 0; results = [] }

  unfoldable pub map_with_concurrency : ℕ → List ℕ → Result RangeError Pool
  map_with_concurrency concurrency schedule =
      if ltb concurrency 1 then err not_positive else ok (run schedule (start concurrency))
