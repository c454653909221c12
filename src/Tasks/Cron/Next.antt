-- ===== src/Tasks/Cron/Next.antt =====
-- `nextCronRun`, `followingRun` and `firstRun`. An instant is a number of milliseconds since 1970.
-- `Intl.DateTimeFormat` is a parameter: which time zones it knows, and what it shows of an instant.
pub mod Laws
pub mod First
pub mod Interval
use zernflow.Base.{
  ℕ, zero, suc, ◌+◌, ◌-◌, ◌*◌, ◌/◌, ◌%◌, max, Bool, true, false, not, Option, none, some, List, [],
  ◌∷◌, if◌then◌else◌, ltb, ◌==◌, has, or_else,
}
use zernflow.Base.Json.{Text}
use zernflow.Base.Result.{Result, ok, err, ◌>>=◌, ◌>>◌, throw_if}
use zernflow.Tasks.Cron.Field.{CronError, unknown_time_zone, never_matches, out_of_fuel}
use zernflow.Tasks.Cron.Expression.{CronSpec, Parts, day_matches, parse_cron}

pub data Weekday : Type 0 where
  sun mon tue wed thu fri sat : Weekday

abbrev pub weekday_number : Weekday → ℕ
weekday_number sun = 0
weekday_number mon = 1
weekday_number tue = 2
weekday_number wed = 3
weekday_number thu = 4
weekday_number fri = 5
weekday_number sat = 6

-- The numbers that `formatToParts` shows.
pub record Shown : Type 0 where
  pub month : ℕ
  pub day : ℕ
  pub hour : ℕ
  pub minute : ℕ
  pub weekday : Weekday

abbrev pub local_parts : Shown → Parts
local_parts f = record {
  month = f.month;
  day = f.day;
  hour = f.hour % 24;
  minute = f.minute;
  weekday = weekday_number f.weekday;
}

-- What one turn of the loop does at a local time: `none` returns it, `some n` skips n minutes.
unfoldable pub skip : CronSpec → Parts → Option ℕ
skip spec p =
    if not (day_matches spec p)
    then some ((23 - p.hour) * 60 + (60 - p.minute))
    else if not (has p.hour spec.hours)
    then some (60 - p.minute)
    else if not (has p.minute spec.minutes)
    then some 1
    else none

abbrev pub minute_ms : ℕ
minute_ms = 60_000

-- `while (t < limit)`, on fuel.
unfoldable pub search_run : (ℕ → Parts) → CronSpec → ℕ → ℕ → ℕ → Result CronError ℕ
search_run parts spec limit zero t = err out_of_fuel
search_run parts spec limit (suc fuel) t = elim (ltb t limit) [
  | false ↦ err never_matches
  | true ↦ elim (skip spec (parts t)) [
    | none ↦ ok t
    | some n ↦ search_run parts spec limit fuel (t + n * minute_ms)
  ]
]

-- The minutes of the five years that are searched.
abbrev pub search_minutes : ℕ
search_minutes = 2_635_200

-- `Math.floor(after / 60_000) * 60_000 + 60_000`
abbrev pub next_minute : ℕ → ℕ
next_minute after = after / minute_ms * minute_ms + minute_ms

pub record Schedule : Type 0 where
  pub cron : Option Text
  pub interval_seconds : Option ℕ
  pub timezone : Text

-- A schedule's error is a `CronError`, or the date that a division by zero leaves invalid.
pub data TimingError : Type 0 where
  cron_error : CronError → TimingError
  invalid_date : TimingError

abbrev pub timing : Result CronError ℕ → Result TimingError ℕ
timing (ok t) = ok t
timing (err e) = err (cron_error e)

-- The empty text is false.
abbrev pub is_cron : Option Text → Bool
is_cron none = false
is_cron (some []) = false
is_cron (some (_ ∷ _)) = true

module _ (is_valid_time_zone : Text → Bool) (format : Text → ℕ → Shown) where
  unfoldable pub next_cron_run : Text → Text → ℕ → Result CronError ℕ
  next_cron_run expression time_zone after = do
    throw_if (not (is_valid_time_zone time_zone)) unknown_time_zone
    spec ← parse_cron expression
    let t = next_minute after
    search_run (λ u. local_parts (format time_zone u)) spec (t + search_minutes * minute_ms)
        (suc search_minutes) t

  unfoldable pub following_run : Schedule → ℕ → ℕ → Result TimingError ℕ
  following_run s expected now =
      let floor = max expected now in
      let interval_ms = or_else s.interval_seconds 3600 * 1000 in
      let periods = (floor - expected) / interval_ms + 1 in
      if is_cron s.cron
      then timing (next_cron_run (or_else s.cron []) s.timezone floor)
      else if interval_ms == 0
      then err invalid_date
      else ok (expected + periods * interval_ms)

  unfoldable pub first_run : Schedule → ℕ → Result TimingError ℕ
  first_run s now =
      if is_cron s.cron
      then timing (next_cron_run (or_else s.cron []) s.timezone now)
      else ok (now + or_else s.interval_seconds 3600 * 1000)
