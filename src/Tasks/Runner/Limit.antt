-- ===== src/Tasks/Runner/Limit.antt =====
-- The tick never takes more tasks than its budget allows, and it says why it stopped.
use zernflow.Base.{
  ℕ, zero, suc, ◌+◌, ◌-◌, ◌≤◌, ◌≡◌, refl, Option, none, some, List, [], ◌∷◌, arith, length, leb,
  min, Bool-cases, inl, inr,
}
use zernflow.Base.Json.{Text}
use zernflow.Base.Result.{Result, ok, err}
use zernflow.Runtime.Budget.{RuntimeBudget}
use zernflow.Tasks.Runner.{
  TaskRow, RunBatchResult, empty, time_budget, task_limit, BatchError, Queue, Round, stops, breaks,
  goes_on, run_claimed, answered, after, round, rounds, run_task_batch, no_result,
}
use zernflow.Tasks.Runner.Laws.{IsLimited, run_claimed-claimed}

-- The tasks of a tick are within its limit, and it is reached if that is what stopped the tick.
abbrev pub IsWithin : ℕ → RunBatchResult → Type 0
IsWithin most r =
    (r.claimed ≤ most) × (elim r.stopped_by [ task_limit ↦ r.claimed ≡ most | _ ↦ Unit {0} ])

abbrev pub Within : ℕ → Result BatchError RunBatchResult → Type 0
Within most (ok r) = IsWithin most r
Within most (err e) = Unit

module _ {W : Type 0} (redact_string : Text → Text) (queue : Queue W)
    (limited : IsLimited redact_string queue) where
  abbrev Held : ℕ → RunBatchResult → Round redact_string queue → Type 0
  Held most r (stops task_limit) = most ≤ r.claimed
  Held most r (stops _) = Unit
  Held most r (breaks code) = Unit
  Held most r (goes_on r') = r'.claimed ≤ most

  run_claimed-Held :
      (most : ℕ) (r : RunBatchResult) (ts : List TaskRow) (w : W)
      → r.claimed + length ts ≤ most
      → Held most r (run_claimed redact_string queue r ts w).1
  unfolding run_claimed
  run_claimed-Held most r [] w h = tt
  run_claimed-Held most r (t ∷ ts) w h =
      omega (arith, h, run_claimed-claimed redact_string queue r (t ∷ ts) w)

  answered-Held :
      (most limit : ℕ) (r : RunBatchResult) (a : W × Result Text (Option (List TaskRow)))
      → r.claimed + limit ≤ most
      → ((w' : W) (ts : List TaskRow) → a ≡ (w', ok (some ts)) → length ts ≤ limit)
      → Held most r (answered redact_string queue r a).1
  unfolding answered
  answered-Held most limit r (w, err code) h k = tt
  answered-Held most limit r (w, ok none) h k = run_claimed-Held most r [] w (omega (arith, h))
  answered-Held most limit r (w, ok (some ts)) h k =
      run_claimed-Held most r ts w (omega (arith, h, k w ts refl))

  round-Held :
      (budget : RuntimeBudget) (deadline : ℕ) (r : RunBatchResult) (w : W)
      → r.claimed ≤ budget.max_tasks_per_tick
      → Held budget.max_tasks_per_tick r (round redact_string queue budget deadline r w).1
  unfolding round
  round-Held budget deadline r w h = elim (Bool-cases (leb budget.max_tasks_per_tick r.claimed)) [
    | inl full ↦ rw full (ground arith)
    | inr room ↦ elim (Bool-cases (leb deadline (queue.now w).1)) [
      | inl late ↦ rw (room, late) tt
      | inr early ↦
          rw (room, early)
            (answered-Held budget.max_tasks_per_tick
              (min budget.max_background_workers (budget.max_tasks_per_tick - r.claimed)) r _
              (omega (arith, h)) (λ w' ts e. limited _ _ _ w' ts e))
    ]
  ]

  held :
      (fuel : ℕ) (budget : RuntimeBudget) (deadline : ℕ) (r : RunBatchResult)
      (o : W × Round redact_string queue)
      → r.claimed ≤ budget.max_tasks_per_tick
      → Held budget.max_tasks_per_tick r o.1
      → ((r' : RunBatchResult) (w' : W)
          → r'.claimed ≤ budget.max_tasks_per_tick
          → Within budget.max_tasks_per_tick
              (rounds redact_string queue fuel budget deadline r' w').1)
      → Within budget.max_tasks_per_tick
          (after redact_string queue
            (λ r' w'. rounds redact_string queue fuel budget deadline r' w')
            r
            o).1
  unfolding after
  held fuel budget deadline r (w', stops task_limit) h a later = (h, omega (arith, h, a))
  held fuel budget deadline r (w', stops empty) h a later = (h, tt)
  held fuel budget deadline r (w', stops time_budget) h a later = (h, tt)
  held fuel budget deadline r (w', breaks code) h a later = tt
  held fuel budget deadline r (w', goes_on r') h a later = later r' w' a

  rounds-Within :
      (fuel : ℕ) (budget : RuntimeBudget) (deadline : ℕ) (r : RunBatchResult) (w : W)
      → r.claimed ≤ budget.max_tasks_per_tick
      → Within budget.max_tasks_per_tick (rounds redact_string queue fuel budget deadline r w).1
  unfolding rounds
  rounds-Within zero budget deadline r w h = tt
  rounds-Within (suc fuel) budget deadline r w h =
      held fuel budget deadline r _ h (round-Held budget deadline r w h)
        (λ r' w' h'. rounds-Within fuel budget deadline r' w' h')

  -- If `claim_tasks` keeps to its limit, a tick claims no more tasks than `maxTasksPerTick`, and
  -- exactly that many if the limit is the reason it stopped for.
  pub run_task_batch-Within :
      (budget : RuntimeBudget) (w : W)
      → Within budget.max_tasks_per_tick (run_task_batch redact_string queue budget w).1
  unfolding run_task_batch
  run_task_batch-Within budget w =
      rounds-Within (suc budget.max_tasks_per_tick) budget _ no_result _ (omega arith)
