-- ===== src/Runtime/Budget.antt =====
-- lib/runtime/budget.ts: the limits that are read from the environment.
-- `Number(raw)` of the language, for a trimmed text, and the trimmed text in lower case are
-- parameters.
pub mod Laws
use zernflow.Base.{
  ℕ, suc, ◌+◌, ◌/◌, ◌≤◌, min, max, String, Bool, true, false, not, ◌&&◌, ◌||◌, Option, none, some,
  List, [], if◌then◌else◌,
}
use zernflow.Base.Int.{pos, negsuc, pos_part}
use zernflow.Base.Json.{
  Text, Number, not_a_number, infinity, negative_infinity, ratio, floor, codes, text_eq,
}
use zernflow.Base.Result.{Result, ok, err, throw_if}

pub record RuntimeBudget : Type 0 where
  pub paid_compute_allowed : Bool
  pub max_background_workers : ℕ
  pub max_tasks_per_tick : ℕ
  pub tick_time_budget_ms : ℕ
  pub max_browser_concurrency : ℕ
  pub browser_idle_shutdown : Bool
  pub max_upload_size_bytes : ℕ
  pub max_artifact_retention_days : ℕ
  pub max_workspace_storage_bytes : ℕ

abbrev pub Env : Type 0
Env = String → Option Text

-- `Math.min(max, Math.max(min, Math.floor(value)))` of a finite value.
unfoldable pub clamp : Number → ℕ → ℕ → ℕ → ℕ
clamp (ratio z d) fallback least most = min most (max least (pos_part (floor z d)))
clamp _ fallback least most = fallback

pub data PaidComputeRefusedError : Type 0 where
  paid_compute_refused : Text → PaidComputeRefusedError

pub record Adapter : Type 0 where
  pub name : Text
  pub paid : Bool

module _ (trim : Text → Text) (lower : Text → Text) (number : Text → Number) where
  -- A name that is missing or blank is not given.
  unfoldable pub given : Env → String → Option Text
  given env name = elim (env name) [
    | none ↦ none
    | some raw ↦ elim (trim raw) [ [] ↦ none | _ ↦ some (trim raw) ]
  ]

  unfoldable pub int : Env → String → ℕ → ℕ → ℕ → ℕ
  int env name fallback least most = elim (given env name) [
    | none ↦ fallback
    | some raw ↦ clamp (number raw) fallback least most
  ]

  unfoldable pub bool : Env → String → Bool → Bool
  bool env name fallback = elim (given env name) [
    | none ↦ fallback
    | some raw ↦
        let text = lower raw in
        text_eq text (codes "true") || text_eq text (codes "1") || text_eq text (codes "yes")
  ]

  unfoldable pub read_budget : Env → RuntimeBudget
  unfolding int bool given clamp
  read_budget env = record {
    paid_compute_allowed = bool env "PAID_COMPUTE_ALLOWED" false;
    max_background_workers = int env "MAX_BACKGROUND_WORKERS" 1 1 8;
    max_tasks_per_tick = int env "MAX_TASKS_PER_TICK" 10 0 100;
    tick_time_budget_ms = int env "TICK_TIME_BUDGET_MS" 25_000 1_000 280_000;
    max_browser_concurrency = int env "MAX_BROWSER_CONCURRENCY" 1 0 4;
    browser_idle_shutdown = bool env "BROWSER_IDLE_SHUTDOWN" true;
    max_upload_size_bytes =
        int env "MAX_UPLOAD_SIZE_BYTES" (int env "MAX_UPLOAD_SIZE" 104_857_600 1 5_368_709_120) 1
          5_368_709_120;
    max_artifact_retention_days = int env "MAX_ARTIFACT_RETENTION_DAYS" 30 1 3650;
    max_workspace_storage_bytes =
        int env "MAX_WORKSPACE_STORAGE_BYTES" 5_368_709_120 1_048_576 1_099_511_627_776;
  }

unfoldable pub assert_compute_allowed :
    Adapter → RuntimeBudget → Result PaidComputeRefusedError (Unit {0})
assert_compute_allowed adapter budget =
    throw_if (adapter.paid && not budget.paid_compute_allowed) (paid_compute_refused adapter.name)
