-- ===== src/Tasks/Cron/Next/Laws.antt =====
-- The search for the next run: what it returns, and that it ends.
use zernflow.Base.{
  ℕ, zero, suc, ◌+◌, ◌*◌, ◌%◌, ◌≤◌, ◌<◌, ◌≡◌, sym, ◌∙◌, ◌⊎◌, inl, inr, Bool, true, none, some,
  arith, ltb, has, Bool-cases, Option-cases,
}
use zernflow.Base.Json.{Text}
use zernflow.Base.Result.{Result, ok, err, >>=-eq-ok, ok-injective}
use zernflow.Tasks.Cron.Field.{CronError, never_matches}
use zernflow.Tasks.Cron.Expression.{CronSpec, Parts, day_matches, parse_cron}
use zernflow.Tasks.Cron.Next.{
  skip, minute_ms, search_run, search_minutes, next_minute, local_parts, next_cron_run, Shown,
}

-- A local time at which the expression says to run.
pub record Matches (spec : CronSpec) (p : Parts) : Type 0 where
  pub day : day_matches spec p ≡ true
  pub hour : has p.hour spec.hours ≡ true
  pub minute : has p.minute spec.minutes ≡ true

-- The clock shows minutes below 60; `localParts` itself makes the hour lie below 24.
abbrev pub IsClock : (ℕ → Parts) → Type 0
IsClock parts = (t : ℕ) → ((parts t).hour < 24) × ((parts t).minute < 60)

skip-none : (spec : CronSpec) (p : Parts) → skip spec p ≡ none → Matches spec p
unfolding skip
skip-none spec p h = ground arith

skip-some : (spec : CronSpec) (p : Parts) (n : ℕ) → p.minute < 60 → skip spec p ≡ some n → 1 ≤ n
unfolding skip
skip-some spec p n m h = ground arith

abbrev pub Ends : Result CronError ℕ → Type 0
Ends run = ((r : ℕ) × (run ≡ ok r)) ⊎ (run ≡ err never_matches)

module _ (parts : ℕ → Parts) (spec : CronSpec) (limit : ℕ) where
  -- One turn of the loop, by what it finds.
  pub search_run-end :
      (fuel t : ℕ) → limit ≤ t → search_run parts spec limit (suc fuel) t ≡ err never_matches
  unfolding search_run
  search_run-end fuel t h = ground arith

  pub search_run-hit :
      (fuel t : ℕ)
      → t < limit
      → skip spec (parts t) ≡ none
      → search_run parts spec limit (suc fuel) t ≡ ok t
  unfolding search_run
  search_run-hit fuel t h e = ground arith

  pub search_run-miss :
      (fuel t n : ℕ)
      → t < limit
      → skip spec (parts t) ≡ some n
      → search_run parts spec limit (suc fuel) t
        ≡ search_run parts spec limit fuel (t + n * minute_ms)
  unfolding search_run
  search_run-miss fuel t n h e = ground arith

  pub data Turn (t : ℕ) : Type 0 where
    ended : limit ≤ t → Turn t
    hit : t < limit → skip spec (parts t) ≡ none → Turn t
    miss : (n : ℕ) → t < limit → skip spec (parts t) ≡ some n → Turn t

  pub turn : (t : ℕ) → Turn t
  turn t = elim (Bool-cases (ltb t limit)) [
    | inr past ↦ ended (ground arith)
    | inl inside ↦ elim (Option-cases (skip spec (parts t))) [
      | inl e ↦ hit (ground arith) e
      | inr (n, e) ↦ miss n (ground arith) e
    ]
  ]

  pub record Found (t r : ℕ) : Type 0 where
    pub after : t ≤ r
    pub before : r < limit
    pub aligned : (k : ℕ) × (r ≡ t + k * minute_ms)
    pub matches : Matches spec (parts r)

  Found-later : {t r : ℕ} (n : ℕ) → Found (t + n * minute_ms) r → Found t r
  Found-later n f =
      let (k, e) = f.aligned in
      record {
        after = omega (arith, f.after);
        before = f.before;
        aligned = (n + k, omega arith);
        matches = f.matches;
      }

  pub search_run-Found :
      (fuel t : ℕ) {r : ℕ} → search_run parts spec limit fuel t ≡ ok r → Found t r
  unfolding search_run
  search_run-Found zero t h = cc
  search_run-Found (suc fuel) t h = elim (turn t) [
    | ended past ↦ cc (search_run-end fuel t past)
    | hit inside e ↦
        let same : t ≡ _ = ok-injective (sym (search_run-hit fuel t inside e) ∙ h) in
        rw (← same) (record {
          after = omega arith;
          before = inside;
          aligned = (0, omega arith);
          matches = skip-none spec (parts t) e;
        })
    | miss n inside e ↦
        Found-later n
          (search_run-Found fuel (t + n * minute_ms) (sym (search_run-miss fuel t n inside e) ∙ h))
  ]

  -- Every turn moves on by a minute at least, so fuel for the minutes left is enough.
  pub search_run-Ends :
      IsClock parts
      → (fuel t : ℕ) → limit ≤ t + fuel * minute_ms
      → Ends (search_run parts spec limit (suc fuel) t)
  search_run-Ends clock zero t h = elim (turn t) [
    | ended past ↦ inr (search_run-end zero t past)
    | hit inside e ↦ absurd (omega arith)
    | miss n inside e ↦ absurd (omega arith)
  ]
  search_run-Ends clock (suc fuel) t h = elim (turn t) [
    | ended past ↦ inr (search_run-end (suc fuel) t past)
    | hit inside e ↦ inl (t, search_run-hit (suc fuel) t inside e)
    | miss n inside e ↦
        let pos : 1 ≤ n = skip-some spec (parts t) n (clock t).1 e in
        rw (search_run-miss (suc fuel) t n inside e)
          (search_run-Ends clock fuel (t + n * minute_ms) (omega arith))
  ]

module _ (is_valid_time_zone : Text → Bool) (format : Text → ℕ → Shown) where
  abbrev pub shown : Text → ℕ → Parts
  shown time_zone u = local_parts (format time_zone u)

  abbrev pub ShowsClock : Text → Type 0
  ShowsClock time_zone = (t : ℕ) → (format time_zone t).minute < 60

  abbrev pub search : CronSpec → Text → ℕ → Result CronError ℕ
  search spec time_zone after =
      search_run (shown time_zone) spec (next_minute after + search_minutes * minute_ms)
        (suc search_minutes) (next_minute after)

  -- A call that gets past the checks of its arguments is the search.
  pub next_cron_run-search :
      (expression time_zone : Text) (after : ℕ) (spec : CronSpec)
      → is_valid_time_zone time_zone ≡ true
      → parse_cron expression ≡ ok spec
      → next_cron_run is_valid_time_zone format expression time_zone after
        ≡ search spec time_zone after
  unfolding next_cron_run
  next_cron_run-search expression time_zone after spec v e = rw (v, e)

  pub next_cron_run-parsed :
      (expression time_zone : Text) (after r : ℕ)
      → next_cron_run is_valid_time_zone format expression time_zone after ≡ ok r
      → (spec : CronSpec) × (parse_cron expression ≡ ok spec) × (search spec time_zone after ≡ ok r)
  unfolding next_cron_run
  next_cron_run-parsed expression time_zone after r h =
      elim (Bool-cases (is_valid_time_zone time_zone)) [
        | inr unknown ↦ absurd (ground arith)
        | inl known ↦ >>=-eq-ok (parse_cron expression) _ (rw known at h)
      ]

  -- A run that is returned lies strictly after `after`, within the five years that are searched, on
  -- a whole minute, and its local time matches the parsed expression.
  pub next_cron_run-Found :
      (expression time_zone : Text) (after r : ℕ)
      → next_cron_run is_valid_time_zone format expression time_zone after ≡ ok r
      → (spec : CronSpec) × (parse_cron expression ≡ ok spec)
        × (after < r)
        × (r ≤ after + 5 * 366 * 86_400_000 + minute_ms)
        × (r % minute_ms ≡ 0)
        × Matches spec (shown time_zone r)
  next_cron_run-Found expression time_zone after r h =
      let (spec, e, run) = next_cron_run-parsed expression time_zone after r h in
      let f =
        search_run-Found (shown time_zone) spec _ (suc search_minutes) (next_minute after) run in
      let (k, eq) = f.aligned in
      (spec, e, omega (arith, f.after), omega (arith, f.before), omega arith, f.matches)

  -- The fuel of the search suffices: for a known zone and a valid expression a run is returned, or
  -- the error that says that there is none.
  pub next_cron_run-Ends :
      (expression time_zone : Text) (after : ℕ) (spec : CronSpec)
      → ShowsClock time_zone
      → is_valid_time_zone time_zone ≡ true
      → parse_cron expression ≡ ok spec
      → Ends (next_cron_run is_valid_time_zone format expression time_zone after)
  next_cron_run-Ends expression time_zone after spec clock v e =
      rw (next_cron_run-search expression time_zone after spec v e) (
        search_run-Ends (shown time_zone) spec _ (λ t. (omega arith, clock t)) search_minutes
          (next_minute after) (omega arith))
