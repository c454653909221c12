-- ===== src/Health.antt =====
-- lib/health/assess.ts: the status of the system. A check is its name and its status; the texts that
-- operators read are left out. An instant is a count of milliseconds, and an age that would be negative
-- is zero, which no comparison tells from it.
pub mod Laws
use zernflow.Base.{
  ℕ, ◌+◌, ◌-◌, ◌*◌, ◌/◌, Bool, true, false, not, ◌&&◌, ◌||◌, Option, none, some, List, [], ◌∷◌,
  ◌++◌, if◌then◌else◌, ltb, leb, any, all, filter,
}

pub data HealthStatus : Type 0 where
  ok warn fail unknown : HealthStatus

pub data CheckId : Type 0 where
  tick jobs workers gateway secrets storage publishing legacy_queue budget : CheckId

pub record HealthCheck : Type 0 where
  pub id : CheckId
  pub status : HealthStatus

pub data TickStatus : Type 0 where
  tick_ok tick_degraded tick_failed : TickStatus

pub record Tick : Type 0 where
  pub last_run_at : ℕ
  pub status : TickStatus

pub record Jobs : Type 0 where
  pub oldest_due_at : Option ℕ
  pub waiting_for_user : ℕ
  pub failed_24h : ℕ

pub record WorkerState : Type 0 where
  pub last_seen_at : Option ℕ
  pub revoked : Bool

-- `lastCheck` is whether its state is completed.
pub record Gateway : Type 0 where
  pub configured : Bool
  pub last_check : Option Bool

pub record Secrets : Type 0 where
  pub configured : Bool
  pub is_local : Bool

pub record Storage : Type 0 where
  pub configured : Bool
  pub used_bytes : ℕ
  pub cap_bytes : ℕ

pub record PublishingCounts : Type 0 where
  pub failed : ℕ
  pub manual_due : ℕ

-- `legacyQueue` is not given, null, or the instant of its oldest pending job.
pub data LegacyQueue : Type 0 where
  not_given unavailable : LegacyQueue
  routed : Option ℕ → LegacyQueue

pub record Guardrails : Type 0 where
  pub paid_compute_allowed : Bool
  pub max_background_workers : ℕ
  pub max_browser_concurrency : ℕ
  pub browser_idle_shutdown : Bool

pub record HealthInputs : Type 0 where
  pub now : ℕ
  pub is_production : Bool
  pub tick_state : Option Tick
  pub jobs_state : Option Jobs
  pub workers_state : List WorkerState
  pub gateway_state : Gateway
  pub secrets_state : Secrets
  pub storage_state : Storage
  pub publishing_state : Option PublishingCounts
  pub legacy_state : LegacyQueue
  pub guardrails : Guardrails

abbrev pub min_ms : ℕ
min_ms = 60_000

-- `none` is `Number.POSITIVE_INFINITY`.
abbrev pub age : ℕ → Option ℕ → Option ℕ
age now none = none
age now (some t) = some (now - t)

-- `Number.isFinite(a) && a > 30 * MIN`
abbrev pub is_behind : Option ℕ → Bool
is_behind none = false
is_behind (some a) = ltb (30 * min_ms) a

-- `a < 24 * 60 * MIN`
abbrev pub is_recent : Option ℕ → Bool
is_recent none = false
is_recent (some a) = ltb a (24 * 60 * min_ms)

unfoldable pub tick_check : ℕ → Option Tick → HealthStatus
tick_check now none = fail
tick_check now (some t) =
    if ltb (15 * min_ms) (now - t.last_run_at)
    then fail
    else elim t.status [ tick_ok ↦ ok | _ ↦ warn ]

unfoldable pub jobs_check : ℕ → Option Jobs → HealthStatus
jobs_check now none = unknown
jobs_check now (some j) =
    if ltb 0 j.failed_24h || ltb 0 j.waiting_for_user || is_behind (age now j.oldest_due_at)
    then warn
    else ok

unfoldable pub workers_check : ℕ → List WorkerState → HealthStatus
workers_check now ws = elim (filter (λ w. not w.revoked) ws) [
  | [] ↦ unknown
  | w ∷ active ↦ if any (λ v. is_recent (age now v.last_seen_at)) (w ∷ active) then ok else warn
]

unfoldable pub gateway_check : Gateway → HealthStatus
gateway_check g =
    if g.configured
    then elim g.last_check [ none ↦ unknown | some done ↦ if done then ok else warn ]
    else fail

unfoldable pub secrets_check : Bool → Secrets → HealthStatus
secrets_check is_production s =
    if s.configured then if s.is_local && is_production then warn else ok else fail

-- `Math.round((used / cap) * 100)`
unfoldable pub percent : ℕ → ℕ → ℕ
percent used cap = if ltb 0 cap then (used * 200 + cap) / (2 * cap) else 0

unfoldable pub storage_check : Storage → HealthStatus
storage_check s =
    if s.configured then if leb 90 (percent s.used_bytes s.cap_bytes) then warn else ok else warn

unfoldable pub publishing_checks : Option PublishingCounts → List HealthCheck
publishing_checks none = []
publishing_checks (some p) =
    record { id = publishing; status = if ltb 0 p.failed || ltb 0 p.manual_due then warn else ok }
    ∷ []

unfoldable pub legacy_checks : ℕ → LegacyQueue → List HealthCheck
legacy_checks now not_given = []
legacy_checks now unavailable = record { id = legacy_queue; status = unknown } ∷ []
legacy_checks now (routed oldest) =
    record { id = legacy_queue; status = if is_behind (age now oldest) then warn else ok } ∷ []

unfoldable pub budget_check : Guardrails → HealthStatus
budget_check b =
    if b.paid_compute_allowed
      || ltb 1 b.max_background_workers
      || ltb 1 b.max_browser_concurrency
      || not b.browser_idle_shutdown
    then warn
    else ok

unfoldable pub assess_health : HealthInputs → List HealthCheck
assess_health i =
    record { id = tick; status = tick_check i.now i.tick_state }
    ∷ record { id = jobs; status = jobs_check i.now i.jobs_state }
    ∷ record { id = workers; status = workers_check i.now i.workers_state }
    ∷ record { id = gateway; status = gateway_check i.gateway_state }
    ∷ record { id = secrets; status = secrets_check i.is_production i.secrets_state }
    ∷ record { id = storage; status = storage_check i.storage_state }
    ∷ (publishing_checks i.publishing_state
        ++ (legacy_checks i.now i.legacy_state
            ++ (record { id = budget; status = budget_check i.guardrails } ∷ [])))

abbrev pub is_status : HealthStatus → HealthStatus → Bool
is_status ok ok = true
is_status warn warn = true
is_status fail fail = true
is_status unknown unknown = true
is_status _ _ = false

unfoldable pub overall : List HealthCheck → HealthStatus
overall checks =
    if any (λ c. is_status c.status fail) checks
    then fail
    else if any (λ c. is_status c.status warn) checks
    then warn
    else if all (λ c. is_status c.status ok) checks
    then ok
    else unknown
