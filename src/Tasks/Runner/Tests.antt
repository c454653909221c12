-- ===== src/Tasks/Runner/Tests.antt =====
-- A tick at a concrete queue.
use zernflow.Base.{
  ℕ, zero, suc, ◌≤◌, ◌≡◌, refl, true, false, none, some, List, [], ◌∷◌, arith, length, take,
  length-take-le,
}
use mathlib.Core.Path.{subst}
use zernflow.Base.Json.{null, codes}
use zernflow.Base.Result.{ok}
use zernflow.Runtime.Budget.{RuntimeBudget}
use zernflow.Tasks.Runner.{
  TaskRow, TaskOutcome, TaskState, task_limit, Queue, TaskHandler, run_task_batch, rounds, round,
  after, answered, run_claimed, execute_all, execute_claimed_task, run_handler, settle_outcome,
  count_all, count, no_result,
}
use zernflow.Tasks.Runner.Laws.{Ending, run_task_batch-Ending, IsLimited}
use zernflow.Tasks.Runner.Limit.{Within, run_task_batch-Within}

-- The state of the queue is the list of the tasks that wait.
abbrev task : ℕ → TaskRow
task n = record { id = n; kind = codes "ping"; input = null; attempts = 1; retry_policy = null }

abbrev ping : TaskHandler (List TaskRow)
ping = record {
  parse_input = λ input. ok input;
  run = some (λ input w. (w, ok (TaskOutcome.completed none)));
}

abbrev drop : ℕ → List TaskRow → List TaskRow
drop zero ts = ts
drop (suc n) [] = []
drop (suc n) (t ∷ ts) = drop n ts

abbrev queue : Queue (List TaskRow)
queue = record {
  claim_tasks = λ limit lease w. (drop limit w, ok (some (take limit w)));
  complete_task = λ id result w. (w, true);
  defer_task = λ id at step w. (w, true);
  fail_task = λ id error decision at w. (w, some TaskState.retrying);
  handler = λ kind. some ping;
  now = λ w. (w, 0);
  random = λ w. (w, 0);
}

abbrev budget : RuntimeBudget
budget = record {
  paid_compute_allowed = false;
  max_background_workers = 2;
  max_tasks_per_tick = 3;
  tick_time_budget_ms = 1_000;
  max_browser_concurrency = 1;
  browser_idle_shutdown = true;
  max_upload_size_bytes = 1;
  max_artifact_retention_days = 1;
  max_workspace_storage_bytes = 1_048_576;
}

abbrev waiting : List TaskRow
waiting = task 1 ∷ task 2 ∷ task 3 ∷ task 4 ∷ []

queue-IsLimited : IsLimited (λ t. t) queue
queue-IsLimited limit lease w w' ts e =
    let same : take limit w ≡ ts = ground arith in
    subst (λ x. length x ≤ limit) same (length-take-le limit w)

-- Three of the four waiting tasks are completed, and the limit stops the tick.
three_tasks :
    (run_task_batch (λ t. t) queue budget waiting).1
    ≡ ok (record no_result { claimed = 3; completed = 3; stopped_by = task_limit })
unfolding run_task_batch rounds round after answered run_claimed execute_all execute_claimed_task
    run_handler settle_outcome count_all count
three_tasks = refl

run_task_batch-Ending_example : Ending (run_task_batch (λ t. t) queue budget waiting).1
run_task_batch-Ending_example = run_task_batch-Ending (λ t. t) queue budget waiting

run_task_batch-Within_example : Within 3 (run_task_batch (λ t. t) queue budget waiting).1
run_task_batch-Within_example = run_task_batch-Within (λ t. t) queue queue-IsLimited budget waiting
