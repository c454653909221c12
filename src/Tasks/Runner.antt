-- ===== src/Tasks/Runner.antt =====
-- lib/tasks/runner.ts: a claimed task is executed and settled, and a tick claims tasks in rounds.
-- The database, with the procedures of the queue, is an interface; a round's tasks, which
-- `Promise.all` starts in their order, run one after the other. Logs and metrics are left out.
pub mod Laws
pub mod Limit
mod Tests
use zernflow.Base.{
  ℕ, zero, suc, ◌+◌, ◌-◌, ◌*◌, ◌/◌, ◌≤◌, min, max, Bool, true, false, not, Option, none, some, List,
  [], ◌∷◌, ◌++◌, if◌then◌else◌, leb, length, or_else,
}
use zernflow.Base.Json.{Text, Json, codes}
use zernflow.Base.Result.{Result, ok, err}
use zernflow.Tasks.Errors.{
  Thrown, task_error, validation, ClassifiedError, classify_error, RetryDecision, decision,
}
use zernflow.Tasks.Retry.{RetryPolicy, normalize_retry_policy, compute_retry_delay}
use zernflow.Runtime.Budget.{RuntimeBudget}

pub record TaskRow : Type 0 where
  pub id : ℕ
  pub kind : Text
  pub input : Json
  pub attempts : ℕ
  pub retry_policy : Json

pub data TaskOutcome : Type 0 where
  completed : Option Json → TaskOutcome
  deferred : ℕ → Option Text → TaskOutcome

-- The states that `fail_task` leaves a task in, and every other one.
pub data TaskState : Type 0 where
  retrying waiting_for_user failed other_state : TaskState

-- What `executeClaimedTask` returns.
pub data Settled : Type 0 where
  settled_completed settled_deferred settled_retrying settled_waiting : Settled
  settled_failed lost : Settled

pub data StoppedBy : Type 0 where
  empty task_limit time_budget : StoppedBy

pub record RunBatchResult : Type 0 where
  pub claimed : ℕ
  pub completed : ℕ
  pub deferred : ℕ
  pub retrying : ℕ
  pub waiting_for_user : ℕ
  pub failed : ℕ
  pub stopped_by : StoppedBy

-- A handler without a `run` has none.
pub record TaskHandler (W : Type 0) : Type 1 where
  pub parse_input : Json → Result Thrown Json
  pub run : Option (Json → W → W × Result Thrown TaskOutcome)

-- The procedures of the queue, for one worker: each tells in its answer whether the worker still
-- held the task. `claim_tasks` takes the limit and the seconds of the lease.
pub record Queue (W : Type 0) : Type 1 where
  pub claim_tasks : ℕ → ℕ → W → W × Result Text (Option (List TaskRow))
  pub complete_task : ℕ → Option Json → W → W × Bool
  pub defer_task : ℕ → ℕ → Option Text → W → W × Bool
  pub fail_task : ℕ → ClassifiedError → RetryDecision → ℕ → W → W × Option TaskState
  pub handler : Text → Option (TaskHandler W)
  pub now : W → W × ℕ
  pub random : W → W × ℕ

abbrev pub settled_of : Option TaskState → Settled
settled_of (some retrying) = settled_retrying
settled_of (some waiting_for_user) = settled_waiting
settled_of (some failed) = settled_failed
settled_of _ = lost

abbrev pub no_result : RunBatchResult
no_result = record {
  claimed = 0;
  completed = 0;
  deferred = 0;
  retrying = 0;
  waiting_for_user = 0;
  failed = 0;
  stopped_by = empty;
}

-- The counting of the outcomes of a round.
unfoldable pub count : Settled → RunBatchResult → RunBatchResult
count settled_completed r = record r { completed = r.completed + 1 }
count settled_deferred r = record r { deferred = r.deferred + 1 }
count settled_retrying r = record r { retrying = r.retrying + 1 }
count settled_waiting r = record r { waiting_for_user = r.waiting_for_user + 1 }
count settled_failed r = record r { failed = r.failed + 1 }
count lost r = r

unfoldable pub count_all : List Settled → RunBatchResult → RunBatchResult
count_all [] r = r
count_all (o ∷ os) r = count_all os (count o r)

-- `Math.max(60, Math.ceil((budget.tickTimeBudgetMs * 2) / 1000))`
unfoldable pub lease_seconds : RuntimeBudget → ℕ
lease_seconds budget = max 60 ((budget.tick_time_budget_ms * 2 + 999) / 1000)

-- What stops the loop beside its results: `claim_tasks failed`.
pub data BatchError : Type 0 where
  claim_failed : Text → BatchError
  out_of_fuel : BatchError

module _ {W : Type 0} (redact_string : Text → Text) (queue : Queue W) where
  -- The body of the `try` up to the outcome of the handler.
  unfoldable pub run_handler : TaskRow → W → W × Result Thrown TaskOutcome
  run_handler task w = elim (queue.handler task.kind) [
    | none ↦
        (w, err (task_error validation (codes "No in-process handler for task kind") none false))
    | some handler ↦ elim handler.run [
      | none ↦
          (w, err (task_error validation (codes "No in-process handler for task kind") none false))
      | some run ↦ elim (handler.parse_input task.input) [
        | err e ↦ (w, err e)
        | ok input ↦ run input w
      ]
    ]
  ]

  -- The `catch`.
  unfoldable pub settle_error : TaskRow → Thrown → W → W × Settled
  settle_error task error w =
      let classified = classify_error redact_string error in
      let (w1, r) = queue.random w in
      let computed =
        compute_retry_delay task.attempts (normalize_retry_policy task.retry_policy) r in
      let (w2, now) = queue.now w1 in
      let (w3, state) =
        queue.fail_task task.id classified (decision classified)
          (now + or_else classified.retry_after_ms computed) w2 in
      (w3, settled_of state)

  unfoldable pub settle_outcome : TaskRow → TaskOutcome → W → W × Settled
  settle_outcome task (deferred at step) w =
      let (w', data') = queue.defer_task task.id at step w in
      (w', if data' then settled_deferred else lost)
  settle_outcome task (completed result) w =
      let (w', data') = queue.complete_task task.id result w in
      (w', if data' then settled_completed else lost)

  unfoldable pub execute_claimed_task : TaskRow → W → W × Settled
  unfolding run_handler settle_error settle_outcome
  execute_claimed_task task w =
      let (w', r) = run_handler task w in
      elim r [ ok outcome ↦ settle_outcome task outcome w' | err e ↦ settle_error task e w' ]

  unfoldable pub execute_all : List TaskRow → W → W × List Settled
  execute_all [] w = (w, [])
  execute_all (t ∷ ts) w =
      let (w1, o) = execute_claimed_task t w in let (w2, os) = execute_all ts w1 in (w2, o ∷ os)

  -- A round claims, executes and counts, or says why the loop stops.
  pub data Round : Type 0 where
    stops : StoppedBy → Round
    breaks : Text → Round
    goes_on : RunBatchResult → Round

  abbrev pub claimed_of : Option (List TaskRow) → List TaskRow
  claimed_of none = []
  claimed_of (some tasks) = tasks

  unfoldable pub run_claimed : RunBatchResult → List TaskRow → W → W × Round
  run_claimed result [] w = (w, stops empty)
  run_claimed result (t ∷ ts) w =
      let (w', outcomes) = execute_all (t ∷ ts) w in
      (
        w',
        goes_on (count_all outcomes (record result { claimed = result.claimed + length (t ∷ ts) })),
      )

  unfoldable pub answered : RunBatchResult → W × Result Text (Option (List TaskRow)) → W × Round
  answered result (w, err code) = (w, breaks code)
  answered result (w, ok data') = run_claimed result (claimed_of data') w

  unfoldable pub round : RuntimeBudget → ℕ → RunBatchResult → W → W × Round
  unfolding answered
  round budget deadline result w =
      if leb budget.max_tasks_per_tick result.claimed
      then (w, stops task_limit)
      else (let (w1, now) = queue.now w in
          if leb deadline now
          then (w1, stops time_budget)
          else (let limit =
                min budget.max_background_workers (budget.max_tasks_per_tick - result.claimed) in
              answered result (queue.claim_tasks limit (lease_seconds budget) w1)))

  -- What follows a round: the end of the loop, or the next round.
  unfoldable pub after :
      (RunBatchResult → W → W × Result BatchError RunBatchResult)
      → RunBatchResult
      → W × Round
      → W × Result BatchError RunBatchResult
  after next result (w, stops reason) = (w, ok (record result { stopped_by = reason }))
  after next result (w, breaks code) = (w, err (claim_failed code))
  after next result (w, goes_on result') = next result' w

  -- The loop, on the rounds that are left.
  unfoldable pub rounds :
      ℕ → RuntimeBudget → ℕ → RunBatchResult → W → W × Result BatchError RunBatchResult
  rounds zero budget deadline result w = (w, err out_of_fuel)
  rounds (suc fuel) budget deadline result w =
      after (λ result' w'. rounds fuel budget deadline result' w') result
        (round budget deadline result w)

  -- Every round claims a task at least, so one more than the greatest number of tasks is enough.
  unfoldable pub run_task_batch : RuntimeBudget → W → W × Result BatchError RunBatchResult
  unfolding rounds
  run_task_batch budget w =
      let (w', start) = queue.now w in
      rounds (suc budget.max_tasks_per_tick) budget (start + budget.tick_time_budget_ms) no_result
        w'
