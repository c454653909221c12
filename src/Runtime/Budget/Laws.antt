-- ===== src/Runtime/Budget/Laws.antt =====
-- The bounds of the limits that are read from the environment.
use zernflow.Base.{ℕ, ◌≤◌, String, arith, Option-cases, inl, inr}
use zernflow.Base.Json.{Text, Number}
use zernflow.Runtime.Budget.{Env, RuntimeBudget, clamp, given, int, read_budget}

abbrev pub Between : ℕ → ℕ → ℕ → Type 0
Between least most n = (least ≤ n) × (n ≤ most)

clamp-Between :
    (v : Number) (fallback least most : ℕ)
    → least ≤ most
    → Between least most fallback
    → Between least most (clamp v fallback least most)
unfolding clamp
clamp-Between v fallback least most h k = ground arith

abbrev pub IsBounded : RuntimeBudget → Type 0
IsBounded b =
    Between 1 8 b.max_background_workers
    × Between 0 100 b.max_tasks_per_tick
    × Between 1_000 280_000 b.tick_time_budget_ms
    × Between 0 4 b.max_browser_concurrency
    × Between 1 5_368_709_120 b.max_upload_size_bytes
    × Between 1 3650 b.max_artifact_retention_days
    × Between 1_048_576 1_099_511_627_776 b.max_workspace_storage_bytes

module _ (trim : Text → Text) (lower : Text → Text) (number : Text → Number) where
  int-Between :
      (env : Env) (name : String) (fallback least most : ℕ)
      → least ≤ most
      → Between least most fallback
      → Between least most (int trim lower number env name fallback least most)
  unfolding int
  int-Between env name fallback least most h k =
      elim (Option-cases (given trim lower number env name)) [
        | inl none' ↦ rw (none', int) k
        | inr (raw, some') ↦ rw (some', int) (clamp-Between _ fallback least most h k)
      ]

  -- Whatever the environment holds, every limit of the budget lies within its documented range: one
  -- to eight workers, at most a hundred tasks and 280 seconds per tick, at most four browsers.
  pub read_budget-IsBounded : (env : Env) → IsBounded (read_budget trim lower number env)
  unfolding read_budget
  read_budget-IsBounded env = (
    int-Between env _ _ _ _ (omega arith) (omega arith, omega arith),
    int-Between env _ _ _ _ (omega arith) (omega arith, omega arith),
    int-Between env _ _ _ _ (omega arith) (omega arith, omega arith),
    int-Between env _ _ _ _ (omega arith) (omega arith, omega arith),
    int-Between env _ _ _ _ (omega arith)
        (int-Between env _ _ _ _ (omega arith) (omega arith, omega arith)),
    int-Between env _ _ _ _ (omega arith) (omega arith, omega arith),
    int-Between env _ _ _ _ (omega arith) (omega arith, omega arith),
  )
