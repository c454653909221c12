-- ===== src/Tasks/Cron/Next/First.antt =====
-- Whether the run that the search returns is the first one: it is where local days have 24 hours,
-- and a shorter local day makes the search pass over a match.
use zernflow.Base.{
  ℕ, zero, suc, ◌+◌, ◌-◌, ◌*◌, ◌/◌, ◌%◌, ◌≤◌, ◌<◌, ◌≡◌, ◌≢◌, sym, ap, ◌∙◌, ◌⊎◌, inl, inr, Bool,
  false, some, arith, ltb, has, Bool-cases,
}
use zernflow.Base.Result.{Result, ok, err, ok-injective}
use zernflow.Tasks.Cron.Field.{CronError, never_matches, unknown_time_zone}
use zernflow.Base.Json.{Text}
use zernflow.Tasks.Cron.Expression.{CronSpec, Parts, day_matches, parse_cron}
use zernflow.Tasks.Cron.Next.{
  skip, minute_ms, search_run, search_minutes, next_minute, Shown, next_cron_run,
}
use zernflow.Tasks.Cron.Next.Laws.{
  Matches, IsClock, ended, hit, miss, turn, search_run-end, search_run-hit, search_run-miss,
  search_run-Found, shown, search, next_cron_run-search,
}

-- A clock without transitions: the minutes of a local hour follow one another, and so do those of
-- a local day, which has 24 hours.
pub record IsUniform (parts : ℕ → Parts) : Type 0 where
  pub clock : IsClock parts
  pub same_hour :
      (t k : ℕ) → (parts t).minute + k < 60 → (parts (t + k * minute_ms)).hour ≡ (parts t).hour
  pub same_month :
      (t k : ℕ)
      → (parts t).hour * 60 + (parts t).minute + k < 1440
      → (parts (t + k * minute_ms)).month ≡ (parts t).month
  pub same_day :
      (t k : ℕ)
      → (parts t).hour * 60 + (parts t).minute + k < 1440
      → (parts (t + k * minute_ms)).day ≡ (parts t).day
  pub same_weekday :
      (t k : ℕ)
      → (parts t).hour * 60 + (parts t).minute + k < 1440
      → (parts (t + k * minute_ms)).weekday ≡ (parts t).weekday

day_matches-same :
    (spec : CronSpec) (p q : Parts)
    → q.month ≡ p.month
    → q.day ≡ p.day
    → q.weekday ≡ p.weekday
    → day_matches spec q ≡ day_matches spec p
unfolding day_matches
day_matches-same spec p q m d w = rw (m, d, w)

-- Why minutes are skipped: the day, the hour or the minute does not match.
skip-why :
    (spec : CronSpec) (p : Parts) (n : ℕ)
    → skip spec p ≡ some n
    → ((day_matches spec p ≡ false) × (n ≡ (23 - p.hour) * 60 + (60 - p.minute)))
      ⊎ (((has p.hour spec.hours ≡ false) × (n ≡ 60 - p.minute))
          ⊎ ((has p.minute spec.minutes ≡ false) × (n ≡ 1)))
unfolding skip
skip-why spec p n h = ground arith

module _ (parts : ℕ → Parts) (spec : CronSpec) (uniform : IsUniform parts) where
  -- No minute that is skipped matches.
  skip-unmatched :
      (t n k : ℕ)
      → skip spec (parts t) ≡ some n
      → k < n
      → ¬ Matches spec (parts (t + k * minute_ms))
  skip-unmatched t n k e lt m = elim (skip-why spec (parts t) n e) [
    | inl (off, size) ↦
        let (h, c) = uniform.clock t in
        let within : (parts t).hour * 60 + (parts t).minute + k < 1440 = omega arith in
        let same =
          day_matches-same spec (parts t) (parts (t + k * minute_ms))
            (uniform.same_month t k within) (uniform.same_day t k within)
            (uniform.same_weekday t k within) in
        cc (m.day)
    | inr (inl (off, size)) ↦
        let (h, c) = uniform.clock t in
        let same = uniform.same_hour t k (omega arith) in
        let late = m.hour in cc (ap (λ (x : ℕ). has x spec.hours) same)
    | inr (inr (off, size)) ↦
        let same : t + k * minute_ms ≡ t = omega arith in
        let late = m.minute in cc (ap (λ (x : ℕ). has (parts x).minute spec.minutes) same)
  ]

  module _ (limit : ℕ) where
    -- Whatever the search returns, no whole minute before it matches.
    pub search_run-first :
        (fuel t : ℕ) {r : ℕ}
        → search_run parts spec limit fuel t ≡ ok r
        → (k : ℕ) → t + k * minute_ms < r
        → ¬ Matches spec (parts (t + k * minute_ms))
    unfolding search_run
    search_run-first zero t h k lt = absurd (ground arith)
    search_run-first (suc fuel) t h k lt = elim (turn parts spec limit t) [
      | ended past ↦ absurd (cc (search_run-end parts spec limit fuel t past))
      | hit inside e ↦
          let same : t ≡ _ =
            ok-injective (sym (search_run-hit parts spec limit fuel t inside e) ∙ h) in
          absurd (omega arith)
      | miss n inside e ↦
          let run = sym (search_run-miss parts spec limit fuel t n inside e) ∙ h in
          elim (Bool-cases (ltb k n)) [
            | inl skipped ↦ skip-unmatched t n k e (ground arith)
            | inr later ↦
                let same : t + n * minute_ms + (k - n) * minute_ms ≡ t + k * minute_ms =
                  ground arith in
                rw same at (search_run-first fuel (t + n * minute_ms) run (k - n) (rw same lt))
          ]
    ]

    -- If the search gives up, no whole minute up to the limit matches.
    pub search_run-never :
        (fuel t : ℕ)
        → search_run parts spec limit fuel t ≡ err never_matches
        → (k : ℕ) → t + k * minute_ms < limit
        → ¬ Matches spec (parts (t + k * minute_ms))
    unfolding search_run
    search_run-never zero t h k lt = absurd (ground arith)
    search_run-never (suc fuel) t h k lt = elim (turn parts spec limit t) [
      | ended past ↦ absurd (omega arith)
      | hit inside e ↦ absurd (cc (search_run-hit parts spec limit fuel t inside e))
      | miss n inside e ↦
          let run = sym (search_run-miss parts spec limit fuel t n inside e) ∙ h in
          elim (Bool-cases (ltb k n)) [
            | inl skipped ↦ skip-unmatched t n k e (ground arith)
            | inr later ↦
                let same : t + n * minute_ms + (k - n) * minute_ms ≡ t + k * minute_ms =
                  ground arith in
                rw same at (search_run-never fuel (t + n * minute_ms) run (k - n) (rw same lt))
          ]
    ]

skip-day :
    (spec : CronSpec) (p : Parts)
    → day_matches spec p ≡ false
    → skip spec p ≡ some ((23 - p.hour) * 60 + (60 - p.minute))
unfolding skip
skip-day spec p off = rw off

search_run-passes_over :
    (parts : ℕ → Parts) (spec : CronSpec) (limit fuel t n : ℕ) {r : ℕ}
    → skip spec (parts t) ≡ some n
    → search_run parts spec limit (suc fuel) t ≡ ok r
    → t + n * minute_ms ≤ r
search_run-passes_over parts spec limit fuel t n e h = elim (turn parts spec limit t) [
  | ended past ↦ cc (search_run-end parts spec limit fuel t past)
  | hit inside e' ↦ cc
  | miss n' inside e' ↦
      let same : n ≡ n' = cc in
      rw same
        (search_run-Found parts spec limit fuel (t + n' * minute_ms)
          (sym (search_run-miss parts spec limit fuel t n' inside e') ∙ h)).after
]

-- The whole minutes after `after` are those that the search counts.
minute_count :
    (after u : ℕ)
    → after < u
    → u % minute_ms ≡ 0
    → next_minute after + (u / minute_ms - after / minute_ms - 1) * minute_ms ≡ u
minute_count after u lt e = omega arith

module _ (is_valid_time_zone : Text → Bool) (format : Text → ℕ → Shown) where
  abbrev MatchesAt : CronSpec → Text → ℕ → Type 0
  MatchesAt spec time_zone u = Matches spec (shown is_valid_time_zone format time_zone u)

  abbrev run : Text → Text → ℕ → Result CronError ℕ
  run = next_cron_run is_valid_time_zone format

  run-cases :
      (expression time_zone : Text) (after : ℕ) (spec : CronSpec)
      → parse_cron expression ≡ ok spec
      → (run expression time_zone after ≡ err unknown_time_zone)
        ⊎ (run expression time_zone after ≡ search is_valid_time_zone format spec time_zone after)
  unfolding next_cron_run
  run-cases expression time_zone after spec e = elim (Bool-cases (is_valid_time_zone time_zone)) [
    | inr unknown ↦ inl (rw unknown)
    | inl known ↦
        inr (next_cron_run-search is_valid_time_zone format expression time_zone after spec known e)
  ]

  run-search :
      (expression time_zone : Text) (after : ℕ) (spec : CronSpec) {out : Result CronError ℕ}
      → parse_cron expression ≡ ok spec
      → run expression time_zone after ≡ out
      → out ≢ err unknown_time_zone
      → search is_valid_time_zone format spec time_zone after ≡ out
  run-search expression time_zone after spec e h known =
      elim (run-cases expression time_zone after spec e) [
        | inl unknown ↦ absurd (known (sym h ∙ unknown))
        | inr same ↦ sym same ∙ h
      ]

  -- In a zone without transitions the run that is returned is the first one: no whole minute after
  -- `after` and before the run matches.
  pub next_cron_run-first :
      (expression time_zone : Text) (after r u : ℕ) (spec : CronSpec)
      → IsUniform (shown is_valid_time_zone format time_zone)
      → parse_cron expression ≡ ok spec
      → next_cron_run is_valid_time_zone format expression time_zone after ≡ ok r
      → after < u
      → u < r
      → u % minute_ms ≡ 0
      → ¬ MatchesAt spec time_zone u
  next_cron_run-first expression time_zone after r u spec uniform e h low high whole =
      let same = minute_count after u low whole in
      rw same at (
        search_run-first (shown is_valid_time_zone format time_zone) spec uniform _ _ _
          (run-search expression time_zone after spec e h (λ x. cc))
          (u / minute_ms - after / minute_ms - 1) (rw same high))

  -- In such a zone the search gives up only if no whole minute of the five years matches.
  pub next_cron_run-never :
      (expression time_zone : Text) (after u : ℕ) (spec : CronSpec)
      → IsUniform (shown is_valid_time_zone format time_zone)
      → parse_cron expression ≡ ok spec
      → next_cron_run is_valid_time_zone format expression time_zone after ≡ err never_matches
      → after < u
      → u < next_minute after + search_minutes * minute_ms
      → u % minute_ms ≡ 0
      → ¬ MatchesAt spec time_zone u
  next_cron_run-never expression time_zone after u spec uniform e h low high whole =
      let same = minute_count after u low whole in
      rw same at (
        search_run-never (shown is_valid_time_zone format time_zone) spec uniform _ _ _
          (run-search expression time_zone after spec e h (λ x. cc))
          (u / minute_ms - after / minute_ms - 1) (rw same high))

  -- A local day that does not match is left by the minutes that a day of 24 hours would still have.
  -- Where the local day is shorter, a matching minute of the next day can lie in that stretch, and
  -- then a run that is returned comes after a whole minute that matches.
  pub next_cron_run-passes_over :
      (expression time_zone : Text) (after r : ℕ) (spec : CronSpec) (k : ℕ)
      → parse_cron expression ≡ ok spec
      → day_matches spec (shown is_valid_time_zone format time_zone (next_minute after)) ≡ false
      → k
        < (23 - (shown is_valid_time_zone format time_zone (next_minute after)).hour) * 60
          + (60 - (shown is_valid_time_zone format time_zone (next_minute after)).minute)
      → MatchesAt spec time_zone (next_minute after + k * minute_ms)
      → next_cron_run is_valid_time_zone format expression time_zone after ≡ ok r
      → (u : ℕ) × (after < u) × (u < r) × (u % minute_ms ≡ 0) × MatchesAt spec time_zone u
  next_cron_run-passes_over expression time_zone after r spec k e off lt m h =
      let parts = shown is_valid_time_zone format time_zone in
      let t = next_minute after in
      let later =
        search_run-passes_over parts spec _ search_minutes t _ (skip-day spec (parts t) off)
          (run-search expression time_zone after spec e h (λ x. cc)) in
      (t + k * minute_ms, omega arith, omega (arith, later), omega arith, m)
