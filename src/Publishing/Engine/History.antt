-- ===== src/Publishing/Engine/History.antt =====
-- A history of runs of the engine for one idempotency key: no post is submitted again unless every
-- earlier attempt definitely failed.
use zernflow.Base.{ℕ, ◌+◌, ◌≤◌, ◌≡◌, Bool, true, false, List, [], ◌∷◌, arith, length, All, filter}
use zernflow.Base.Json.{Text}
use zernflow.Base.Result.{Result, ok, err}
use zernflow.Tasks.Errors.{Thrown}
use zernflow.Publishing.Engine.Store.{Receipt, ReceiptStatus, World, VariantRow}
use zernflow.Publishing.Engine.Apply.{Task}
use zernflow.Publishing.Engine.Run.{Provider, run_api_publish}
use zernflow.Publishing.Engine.Triples.{IsFailed, OneOpen, On, inv, Post}
use zernflow.Publishing.Engine.Invariant.{run_api_publish-inv}

-- A run: the provider, the task, the variant's row as it is found, the calls that fail, the clock.
pub record Attempt : Type 0 where
  pub provider : Provider
  pub task : Task
  pub row : VariantRow
  pub faults : List Bool
  pub now : ℕ

-- No resubmission is safe, and nobody says that an attempt did not publish.
abbrev pub IsUnsafe : Attempt → Type 0
IsUnsafe a = (a.provider.idempotent_submit ≡ false) × (a.task.resolved ≡ false)

abbrev pub is_failed : ReceiptStatus → Bool
is_failed ReceiptStatus.failed = true
is_failed _ = false

abbrev pub failures : List Receipt → ℕ
failures rs = length (filter (λ r. is_failed r.status) rs)

module _ (redact_string : Text → Text) where
  unfoldable pub attempt : Attempt → World → World
  attempt a w =
      (run_api_publish redact_string a.provider a.task
        (record w { row = a.row; faults = a.faults; now = a.now })).0

  -- The newest attempt last.
  unfoldable pub history : List Attempt → World → World
  history [] w = w
  history (a ∷ later) w = history later (attempt a w)

  Post-inv : {A : Type 0} (o : World × Result Thrown A) → Post {A = A} (λ _. inv) o → On inv o.0
  Post-inv (w, ok a) h = h
  Post-inv (w, err e) h = h

  attempt-inv : (a : Attempt) (w : World) → IsUnsafe a → On inv w → On inv (attempt a w)
  unfolding attempt
  attempt-inv a w unsafe h =
      Post-inv
        (run_api_publish redact_string a.provider a.task
          (record w { row = a.row; faults = a.faults; now = a.now }))
        (run_api_publish-inv redact_string a.provider a.task unsafe.0 unsafe.1 _ h)

  history-inv :
      (attempts : List Attempt) (w : World)
      → All IsUnsafe attempts
      → On inv w
      → On inv (history attempts w)
  unfolding history
  history-inv [] w unsafe h = h
  history-inv (a ∷ later) w unsafe h =
      history-inv later (attempt a w) unsafe.1 (attempt-inv a w unsafe.0 h)

  failures-All : (rs : List Receipt) → All IsFailed rs → failures rs ≡ length rs
  failures-All [] h = omega arith
  failures-All (r ∷ rs) h = let rest = failures-All rs h.1 in rw h.0 (omega (arith, rest))

  OneOpen-failures : (rs : List Receipt) → OneOpen rs → length rs ≤ failures rs + 1
  OneOpen-failures [] h = omega arith
  OneOpen-failures (r ∷ rs) h = let rest = failures-All rs h.0 in ground arith

  -- Over every history of runs for one idempotency key, whatever the providers answer and throw,
  -- whichever database calls fail, whatever the variant's row is when a run starts, and as long as
  -- no provider is idempotent and no task is resolved by hand: the post is submitted at most once
  -- more than attempts ended in a definite failure.
  pub history-submits_once :
      (attempts : List Attempt) (w : World)
      → All IsUnsafe attempts
      → w.receipts ≡ []
      → w.submits ≡ []
      → length (history attempts w).submits ≤ failures (history attempts w).receipts + 1
  history-submits_once attempts w unsafe empty fresh =
      let start : On inv w = rw (empty, fresh) (tt, tt, omega arith) in
      let end = history-inv attempts w unsafe start in
      omega (arith, OneOpen-failures _ end.0, end.2)
