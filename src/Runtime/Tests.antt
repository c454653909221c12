-- ===== src/Runtime/Tests.antt =====
-- The bounds at concrete inputs.
use zernflow.Base.{ℕ, List, ◌+◌, ◌≤◌, ◌≡◌, ◌⊎◌, refl, some, [], ◌∷◌, All, arith, length}
use zernflow.Base.Int.{pos}
use zernflow.Base.Json.{Text, codes, ratio}
use zernflow.Base.Result.{ok}
use zernflow.Runtime.Budget.{read_budget}
use zernflow.Runtime.Budget.Laws.{IsBounded, read_budget-IsBounded}
use zernflow.Runtime.RateLimit.{Window, Limiter, lookup, take, set, open_window, make_room}
use zernflow.Runtime.RateLimit.Laws.{IsSmall, take-IsSmall, allowed, allowed-limit}
use zernflow.Runtime.Concurrency.{
  Pool, returned, map_with_concurrency, run, step, finish, answer, start, start_workers, taking,
}
use zernflow.Runtime.Concurrency.Shared.{written}
use zernflow.Runtime.Concurrency.Laws.{map_with_concurrency-limit, map_with_concurrency-once}

-- Every name is set to "9", and every text reads as the number of its code units.
read_budget-IsBounded_example :
    IsBounded
      (read_budget (λ t. t) (λ t. t) (λ t. ratio (pos (length t)) 0) (λ name. some (codes "9")))
read_budget-IsBounded_example =
    read_budget-IsBounded (λ t. t) (λ t. t) (λ t. ratio (pos (length t)) 0)
      (λ name. some (codes "9"))

abbrev window : Window
window = record { key = codes "k"; start = 100; count = 1 }

abbrev limiter : Limiter
limiter = record { limit = 2; window_ms = 50; max_keys = 1; windows = window ∷ [] }

take-IsSmall_example :
    IsSmall (take (codes "other") 120 limiter).0
    × ((take (codes "other") 120 limiter).1 ≤ 50)
    × (((take (codes "other") 120 limiter).1 ≡ 0)
        ⊎ ((take (codes "other") 120 limiter).0 ≡ limiter))
take-IsSmall_example = take-IsSmall (codes "other") 120 limiter (omega arith) (omega arith)

there : lookup (codes "k") limiter.windows ≡ some window
unfolding lookup
there = refl

-- Between the calls of the key there is one of another.
abbrev roomy : Limiter
roomy = record limiter { max_keys = 9 }

abbrev some_calls : List (Text × ℕ)
some_calls = (codes "k", 110) ∷ (codes "other", 115) ∷ (codes "k", 120) ∷ (codes "k", 149) ∷ []

allowed-limit_example : 1 + allowed (codes "k") some_calls roomy ≤ 2
allowed-limit_example =
    allowed-limit (codes "k") some_calls roomy window there (omega arith)
      (omega arith, (omega arith, (omega arith, (omega arith, tt)))) (omega arith) (omega arith)

one_is_allowed : allowed (codes "k") some_calls roomy ≡ 1
unfolding allowed take lookup set open_window make_room
one_is_allowed = refl

-- Three items for two workers, of which the second answers first.
abbrev pool : Pool {B = ℕ} 3 (λ i. i + 10)
pool = record {
  next_index = 5;
  workers = returned ∷ returned ∷ [];
  results = (0, 10) ∷ (2, 12) ∷ (1, 11) ∷ [];
}

pool_run : map_with_concurrency 3 (λ i. i + 10) 2 (1 ∷ 1 ∷ 0 ∷ []) ≡ ok pool
unfolding map_with_concurrency run step finish answer start start_workers taking
pool_run = refl

map_with_concurrency-once_example :
    (written 1 pool.results ≡ 1) × All (λ r. r.1 ≡ r.0 + 10) pool.results
map_with_concurrency-once_example =
    map_with_concurrency-once 3 (λ i. i + 10) 2 (1 ∷ 1 ∷ 0 ∷ []) pool pool_run (refl, (refl, tt)) 1
      (omega arith)

map_with_concurrency-limit_example : length pool.workers ≤ 2
map_with_concurrency-limit_example =
    map_with_concurrency-limit 3 (λ i. i + 10) 2 (1 ∷ 1 ∷ 0 ∷ []) pool pool_run
