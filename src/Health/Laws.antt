-- ===== src/Health/Laws.antt =====
-- When the system as a whole fails.
use zernflow.Base.{
  ℕ, ◌-◌, ◌*◌, ◌≡◌, refl, ◌↔◌, ◌⊎◌, Bool, true, false, not, ◌||◌, Option, none, some, List, [], ◌∷◌,
  ◌++◌, arith, any, ltb,
}
use zernflow.Health.{
  CheckId, fail, HealthCheck, HealthInputs, Tick, min_ms, tick_check, jobs_check, workers_check,
  gateway_check, secrets_check, storage_check, publishing_checks, legacy_checks, budget_check,
  LegacyQueue, PublishingCounts, assess_health, is_status, overall, WorkerState, Gateway, Secrets,
  Storage, Jobs, Guardrails,
}

abbrev pub fails : HealthCheck → Bool
fails c = is_status c.status fail

-- The tick is missing or was not run for more than fifteen minutes.
abbrev pub is_stopped : ℕ → Option Tick → Bool
is_stopped now none = true
is_stopped now (some t) = ltb (15 * min_ms) (now - t.last_run_at)

tick-fails : (now : ℕ) (t : Option Tick) → is_status (tick_check now t) fail ≡ is_stopped now t
unfolding tick_check
tick-fails now none = refl
tick-fails now (some t) = ground arith

jobs-fails : (now : ℕ) (j : Option Jobs) → is_status (jobs_check now j) fail ≡ false
unfolding jobs_check
jobs-fails now none = refl
jobs-fails now (some j) = ground arith

workers-fails : (now : ℕ) (ws : List WorkerState) → is_status (workers_check now ws) fail ≡ false
unfolding workers_check
workers-fails now ws = ground arith

storage-fails : (s : Storage) → is_status (storage_check s) fail ≡ false
unfolding storage_check
storage-fails s = ground arith

budget-fails : (b : Guardrails) → is_status (budget_check b) fail ≡ false
unfolding budget_check
budget-fails b = ground arith

publishing-fails : (p : Option PublishingCounts) → any fails (publishing_checks p) ≡ false
unfolding publishing_checks
publishing-fails none = refl
publishing-fails (some p) = ground arith

legacy-fails : (now : ℕ) (q : LegacyQueue) → any fails (legacy_checks now q) ≡ false
unfolding legacy_checks
legacy-fails now q = ground arith

any-append : (xs ys : List HealthCheck) → any fails (xs ++ ys) ≡ (any fails xs || any fails ys)
any-append [] ys = refl
any-append (x ∷ xs) ys = let rest = any-append xs ys in ground arith

overall-fail : (cs : List HealthCheck) → (overall cs ≡ fail) ↔ (any fails cs ≡ true)
unfolding overall
overall-fail cs = ground arith

gateway-fails : (g : Gateway) → is_status (gateway_check g) fail ≡ not g.configured
unfolding gateway_check
gateway-fails g = ground arith

secrets-fails : (p : Bool) (s : Secrets) → is_status (secrets_check p s) fail ≡ not s.configured
unfolding secrets_check
secrets-fails p s = ground arith

rest-fails :
    (now : ℕ) (p : Option PublishingCounts) (q : LegacyQueue) (b : HealthCheck)
    → fails b ≡ false
    → any fails (publishing_checks p ++ (legacy_checks now q ++ (b ∷ []))) ≡ false
rest-fails now p q b h =
    rw
      (
        any-append (publishing_checks p) (legacy_checks now q ++ (b ∷ [])),
        any-append (legacy_checks now q) (b ∷ []),
        publishing-fails p,
        legacy-fails now q,
        h,
      )
      refl

assess_health-fails :
    (i : HealthInputs)
    → any fails (assess_health i) ≡ (
        is_stopped i.now i.tick_state
        || (not i.gateway_state.configured || not i.secrets_state.configured))
unfolding assess_health
assess_health-fails i =
    rw
      (
        tick-fails i.now i.tick_state,
        jobs-fails i.now i.jobs_state,
        workers-fails i.now i.workers_state,
        storage-fails i.storage_state,
        gateway-fails i.gateway_state,
        secrets-fails i.is_production i.secrets_state,
        rest-fails i.now i.publishing_state i.legacy_state
            (record { id = CheckId.budget; status = budget_check i.guardrails })
            (budget-fails i.guardrails),
      )
      (ground arith)

-- The system as a whole fails exactly if the tick has stopped, the gateway is not configured, or the
-- secret store is not; nothing else is a failure.
pub overall-fail_iff :
    (i : HealthInputs)
    → (overall (assess_health i) ≡ fail) ↔ (
        (is_stopped i.now i.tick_state ≡ true)
        ⊎ ((i.gateway_state.configured ≡ false) ⊎ (i.secrets_state.configured ≡ false)))
overall-fail_iff i =
    let whole = overall-fail (assess_health i) in
    let parts = assess_health-fails i in
    (λ e. let all = whole.0 e in ground arith, λ c. whole.1 (ground arith))
