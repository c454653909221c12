-- ===== src/Tasks/Cron/Next/Interval.antt =====
-- The run after an expected run: later than both that run and now, and for an interval the first
-- such run in its series.
use native.Mathlib.Nat.{div-add-mod', mod-lt}
use zernflow.Base.{
  ℕ, ◌+◌, ◌-◌, ◌*◌, ◌/◌, max, ◌≤◌, ◌<◌, ◌≡◌, inl, inr, Bool, true, false, arith, ◌==◌, Bool-cases,
  or_else, [],
}
use zernflow.Base.Json.{Text}
use zernflow.Base.Result.{Result, ok, err}
use zernflow.Tasks.Cron.Field.{CronError}
use zernflow.Tasks.Cron.Next.{Schedule, Shown, timing, is_cron, following_run}
use zernflow.Tasks.Cron.Next.Laws.{next_cron_run-Found}

-- `periods` intervals reach just beyond `d`.
periods_bounds : (d m : ℕ) → 1 ≤ m → (d < (d / m + 1) * m) × ((d / m + 1) * m ≤ d + m)
periods_bounds d m h = omega (arith, div-add-mod' d m, mod-lt d h)

timing-eq-ok : (c : Result CronError ℕ) (r : ℕ) → timing c ≡ ok r → c ≡ ok r
timing-eq-ok (ok t) r h = cc
timing-eq-ok (err e) r h = cc

module _ (is_valid_time_zone : Text → Bool) (format : Text → ℕ → Shown) where
  abbrev interval_ms : Schedule → ℕ
  interval_ms s = or_else s.interval_seconds 3600 * 1000

  interval_run :
      (s : Schedule) (expected now r : ℕ)
      → is_cron s.cron ≡ false
      → following_run is_valid_time_zone format s expected now ≡ ok r
      → (1 ≤ interval_ms s)
        × (r ≡ expected + ((max expected now - expected) / interval_ms s + 1) * interval_ms s)
  unfolding following_run
  interval_run s expected now r c h = elim (Bool-cases (interval_ms s == 0)) [
    | inl zero ↦ absurd (ground arith)
    | inr pos ↦ (ground arith, ground arith)
  ]

  cron_run :
      (s : Schedule) (expected now r : ℕ)
      → is_cron s.cron ≡ true
      → following_run is_valid_time_zone format s expected now ≡ ok r
      → max expected now < r
  unfolding following_run
  cron_run s expected now r c h =
      let found =
        next_cron_run-Found is_valid_time_zone format (or_else s.cron []) s.timezone
          (max expected now) r (timing-eq-ok _ r (rw c at h)) in
      found.2

  -- The run that follows is later than the expected run and later than now, by a cron expression and
  -- by an interval.
  pub following_run-later :
      (s : Schedule) (expected now r : ℕ)
      → following_run is_valid_time_zone format s expected now ≡ ok r
      → (expected < r) × (now < r)
  following_run-later s expected now r h = elim (Bool-cases (is_cron s.cron)) [
    | inl cron ↦ omega (arith, cron_run s expected now r cron h)
    | inr interval ↦
        let (pos, e) = interval_run s expected now r interval h in
        omega (arith, periods_bounds (max expected now - expected) (interval_ms s) pos)
  ]

  -- By an interval it is the first run of the series that is later than both: one interval earlier
  -- is not, and the distance from the expected run is a whole number of intervals.
  pub following_run-first :
      (s : Schedule) (expected now r : ℕ)
      → is_cron s.cron ≡ false
      → following_run is_valid_time_zone format s expected now ≡ ok r
      → let m = or_else s.interval_seconds 3600 * 1000 in
        (1 ≤ m)
        × (max expected now < r)
        × (r ≤ max expected now + m)
        × ((k : ℕ) × (r ≡ expected + k * m))
  following_run-first s expected now r c h =
      let (pos, e) = interval_run s expected now r c h in
      let bounds = periods_bounds (max expected now - expected) (interval_ms s) pos in
      (
        pos,
        omega (arith, bounds),
        omega (arith, bounds),
        ((max expected now - expected) / interval_ms s + 1, e),
      )
