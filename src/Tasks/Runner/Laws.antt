-- ===== src/Tasks/Runner/Laws.antt =====
-- What a tick of the worker promises: it ends, and its counts add up.
use zernflow.Base.{
  ℕ, zero, suc, ◌+◌, ◌≤◌, ◌<◌, ◌≡◌, refl, Option, some, List, [], ◌∷◌, arith, length, leb,
  Bool-cases, inl, inr,
}
use zernflow.Base.Json.{Text}
use zernflow.Base.Result.{Result, ok, err}
use zernflow.Runtime.Budget.{RuntimeBudget}
use zernflow.Tasks.Runner.{
  TaskRow, RunBatchResult, Settled, BatchError, claim_failed, out_of_fuel, Queue, count, count_all,
  execute_all, execute_claimed_task, Round, stops, breaks, goes_on, run_claimed, answered, after,
  round, rounds, run_task_batch, no_result,
}

-- The tasks that are counted under one of the outcomes.
abbrev pub settled : RunBatchResult → ℕ
settled r = r.completed + r.deferred + r.retrying + r.waiting_for_user + r.failed

count-settled :
    (o : Settled) (r : RunBatchResult)
    → ((count o r).claimed ≡ r.claimed) × (settled (count o r) ≤ settled r + 1)
unfolding count
count-settled o r = ground arith

count_all-settled :
    (os : List Settled) (r : RunBatchResult)
    → ((count_all os r).claimed ≡ r.claimed) × (settled (count_all os r) ≤ settled r + length os)
unfolding count_all
count_all-settled [] r = (refl, omega arith)
count_all-settled (o ∷ os) r =
    let one = count-settled o r in
    let rest = count_all-settled os (count o r) in
    (omega (arith, one.0, rest.0), omega (arith, one.1, rest.1))

-- A result whose tasks are all claimed ones.
abbrev pub IsCounted : RunBatchResult → Type 0
IsCounted r = settled r ≤ r.claimed

abbrev pub Ending : Result BatchError RunBatchResult → Type 0
Ending (ok r) = IsCounted r
Ending (err (claim_failed code)) = Unit
Ending (err out_of_fuel) = ⊥

module _ {W : Type 0} (redact_string : Text → Text) (queue : Queue W) where
  length-execute_all :
      (ts : List TaskRow) (w : W) → length (execute_all redact_string queue ts w).1 ≡ length ts
  unfolding execute_all
  length-execute_all [] w = refl
  length-execute_all (t ∷ ts) w =
      omega (arith, length-execute_all ts (execute_claimed_task redact_string queue t w).0)

  -- What a round does to the results.
  abbrev Advance : ℕ → RunBatchResult → Round redact_string queue → Type 0
  Advance most r (stops reason) = Unit
  Advance most r (breaks code) = Unit
  Advance most r (goes_on r') =
      (r.claimed < most) × (r.claimed < r'.claimed) × (IsCounted r → IsCounted r')

  run_claimed-Advance :
      (most : ℕ) (r : RunBatchResult) (ts : List TaskRow) (w : W)
      → r.claimed < most
      → Advance most r (run_claimed redact_string queue r ts w).1
  unfolding run_claimed
  run_claimed-Advance most r [] w h = tt
  run_claimed-Advance most r (t ∷ ts) w h =
      let len = length-execute_all (t ∷ ts) w in
      let counted =
        count_all-settled (execute_all redact_string queue (t ∷ ts) w).1
          (record r { claimed = r.claimed + length (t ∷ ts) }) in
      (h, omega (arith, counted.0), λ k. omega (arith, counted.0, counted.1, len, k))

  pub run_claimed-claimed :
      (r : RunBatchResult) (ts : List TaskRow) (w : W)
      → (elim (run_claimed redact_string queue r ts w).1 [
        | goes_on r' ↦ r'.claimed
        | _ ↦ r.claimed
      ])
        ≡ r.claimed + length ts
  unfolding run_claimed
  run_claimed-claimed r [] w = omega arith
  run_claimed-claimed r (t ∷ ts) w =
      (count_all-settled (execute_all redact_string queue (t ∷ ts) w).1
        (record r { claimed = r.claimed + length (t ∷ ts) })).0

  answered-Advance :
      (most : ℕ) (r : RunBatchResult) (a : W × Result Text (Option (List TaskRow)))
      → r.claimed < most
      → Advance most r (answered redact_string queue r a).1
  unfolding answered
  answered-Advance most r (w, err code) h = tt
  answered-Advance most r (w, ok data') h = run_claimed-Advance most r _ w h

  round-Advance :
      (budget : RuntimeBudget) (deadline : ℕ) (r : RunBatchResult) (w : W)
      → Advance budget.max_tasks_per_tick r (round redact_string queue budget deadline r w).1
  unfolding round
  round-Advance budget deadline r w = elim (Bool-cases (leb budget.max_tasks_per_tick r.claimed)) [
    | inl full ↦ rw full tt
    | inr room ↦
        let below : r.claimed < budget.max_tasks_per_tick = ground arith in
        elim (Bool-cases (leb deadline (queue.now w).1)) [
          | inl late ↦ rw (room, late) tt
          | inr early ↦ rw (room, early) (answered-Advance budget.max_tasks_per_tick r _ below)
        ]
  ]

  ended :
      (fuel : ℕ) (budget : RuntimeBudget) (deadline : ℕ) (r : RunBatchResult)
      (o : W × Round redact_string queue)
      → IsCounted r
      → budget.max_tasks_per_tick < suc fuel + r.claimed
      → Advance budget.max_tasks_per_tick r o.1
      → ((r' : RunBatchResult) (w' : W)
          → IsCounted r'
          → 0 < fuel
          → budget.max_tasks_per_tick < fuel + r'.claimed
          → Ending (rounds redact_string queue fuel budget deadline r' w').1)
      → Ending
          (after redact_string queue
            (λ r' w'. rounds redact_string queue fuel budget deadline r' w')
            r
            o).1
  unfolding after
  ended fuel budget deadline r (w', stops reason) h k a later = h
  ended fuel budget deadline r (w', breaks code) h k a later = tt
  ended fuel budget deadline r (w', goes_on r') h k a later =
      later r' w' (a.2 h) (omega (arith, a.0, k)) (omega (arith, a.1, k))

  rounds-Ending :
      (fuel : ℕ) (budget : RuntimeBudget) (deadline : ℕ) (r : RunBatchResult) (w : W)
      → IsCounted r
      → 0 < fuel
      → budget.max_tasks_per_tick < fuel + r.claimed
      → Ending (rounds redact_string queue fuel budget deadline r w).1
  unfolding rounds
  rounds-Ending zero budget deadline r w h k0 k = absurd (omega (arith, k0))
  rounds-Ending (suc fuel) budget deadline r w h k0 k =
      ended fuel budget deadline r _ h k (round-Advance budget deadline r w)
        (λ r' w' h' k0' k'. rounds-Ending fuel budget deadline r' w' h' k0' k')

  -- A tick ends, and the tasks that it counts as completed, deferred, retrying, waiting for a user
  -- or failed are no more than those it claimed. An error of `claim_tasks` is what it ends with
  -- otherwise.
  pub run_task_batch-Ending :
      (budget : RuntimeBudget) (w : W) → Ending (run_task_batch redact_string queue budget w).1
  unfolding run_task_batch
  run_task_batch-Ending budget w =
      rounds-Ending (suc budget.max_tasks_per_tick) budget _ no_result _ (omega arith) (omega arith)
        (omega arith)

  -- `claim_tasks` returns as many tasks as its limit says at most.
  abbrev pub IsLimited : Type 0
  IsLimited =
      (limit lease : ℕ) (w w' : W) (ts : List TaskRow)
      → queue.claim_tasks limit lease w ≡ (w', ok (some ts))
      → length ts ≤ limit
