-- ===== src/Tasks/Tests.antt =====
-- The tasks' theorems at concrete inputs, and runs of the definitions.
use zernflow.Base.{
  ℕ, ◌+◌, ◌*◌, ◌/◌, ◌%◌, ◌≤◌, ◌<◌, ◌≡◌, refl, Bool, true, false, none, some, [], ◌∷◌, arith, ltb,
  if◌then◌else◌, max,
}
use zernflow.Base.Json.{Text, codes, trim}
use zernflow.Base.Result.{ok}
use zernflow.Tasks.Retry.{compute_retry_delay, exponential, default_retry_policy}
use zernflow.Tasks.Retry.Laws.{IsNormal, compute_retry_delay_bounds}
use zernflow.Tasks.Cron.Field.{part_values, match_part, values_from, number_overflow, parse_field}
use zernflow.Tasks.Cron.Expression.{CronSpec, parse_cron, split_spaces, day_matches}
use zernflow.Tasks.Cron.Expression.Laws.{IsInRange, parse_cron-IsInRange}
use zernflow.Tasks.Cron.Next.{
  Shown, Weekday, sun, mon, tue, wed, thu, fri, sat, skip, search_run, next_cron_run, minute_ms,
  following_run, Schedule,
}
use zernflow.Tasks.Cron.Next.Laws.{Matches, shown, Ends, next_cron_run-Found, next_cron_run-Ends}
use zernflow.Tasks.Cron.Next.First.{IsUniform, next_cron_run-first, next_cron_run-passes_over}
use zernflow.Tasks.Cron.Next.Interval.{following_run-first}

abbrev weekday : ℕ → Weekday
weekday n =
    if ltb n 1
    then sun
    else if ltb n 2
    then mon
    else if ltb n 3
    then tue
    else if ltb n 4
    then wed
    else if ltb n 5
    then thu
    else if ltb n 6
    then fri
    else sat

-- A clock of one endless month of days of 24 hours, the first of them a Thursday, and one whose
-- first day loses the hour from two to three.
abbrev clock_at : ℕ → Shown
clock_at m = record {
  month = 1;
  day = m / 1440 + 1;
  hour = m / 60 % 24;
  minute = m % 60;
  weekday = weekday ((m / 1440 + 4) % 7);
}

abbrev plain_clock : Text → ℕ → Shown
plain_clock zone t = clock_at (t / minute_ms)

abbrev spring_clock : Text → ℕ → Shown
spring_clock zone t = let m = t / minute_ms in clock_at (if ltb m 120 then m else m + 60)

abbrev every_zone : Text → Bool
every_zone zone = true

-- Half past midnight on Fridays.
abbrev fridays : Text
fridays = codes "30 0 * * 5"

abbrev fridays_spec : CronSpec
fridays_spec = record {
  minutes = 30 ∷ [];
  hours = 0 ∷ [];
  days_of_month =
      1 ∷ 2 ∷ 3 ∷ 4 ∷ 5 ∷ 6 ∷ 7 ∷ 8 ∷ 9 ∷ 10 ∷ 11 ∷ 12 ∷ 13 ∷ 14 ∷ 15 ∷ 16 ∷ 17 ∷ 18 ∷ 19 ∷ 20 ∷ 21
      ∷ 22 ∷ 23 ∷ 24 ∷ 25 ∷ 26 ∷ 27 ∷ 28 ∷ 29 ∷ 30 ∷ 31 ∷ [];
  months = 1 ∷ 2 ∷ 3 ∷ 4 ∷ 5 ∷ 6 ∷ 7 ∷ 8 ∷ 9 ∷ 10 ∷ 11 ∷ 12 ∷ [];
  days_of_week = 5 ∷ [];
  dom_restricted = false;
  dow_restricted = true;
}

parser : Unit {0}
unfolding parse_cron trim split_spaces parse_field part_values match_part values_from
    number_overflow
parser = tt

fridays_parse : parse_cron fridays ≡ ok fridays_spec
unfolding parser
fridays_parse = refl

plain_run : next_cron_run every_zone plain_clock fridays [] 0 ≡ ok (1470 * minute_ms)
unfolding parser next_cron_run search_run skip day_matches
plain_run = refl

spring_run : next_cron_run every_zone spring_clock fridays [] 0 ≡ ok ((7 * 1440 + 1410) * minute_ms)
unfolding parser next_cron_run search_run skip day_matches
spring_run = refl

plain_clock-IsUniform : IsUniform (shown every_zone plain_clock [])
plain_clock-IsUniform = record {
  clock = λ t. (omega arith, omega arith);
  same_hour = λ t k h. omega arith;
  same_month = λ t k h. refl;
  same_day = λ t k h. omega arith;
  same_weekday = λ t k h. same_weekday t k h;
}
  where
    same_weekday :
        (t k : ℕ)
        → t / minute_ms / 60 % 24 % 24 * 60 + t / minute_ms % 60 + k < 1440
        → (shown every_zone plain_clock [] (t + k * minute_ms)).weekday
          ≡ (shown every_zone plain_clock [] t).weekday
    same_weekday t k h =
        let e : (t + k * minute_ms) / minute_ms / 1440 ≡ t / minute_ms / 1440 = omega arith in rw e

parse_cron-IsInRange_example : IsInRange fridays_spec
parse_cron-IsInRange_example = parse_cron-IsInRange fridays fridays_spec fridays_parse

next_cron_run-Found_example :
    (spec : CronSpec) × (parse_cron fridays ≡ ok spec)
    × (0 < 1470 * minute_ms)
    × (1470 * minute_ms ≤ 0 + 5 * 366 * 86_400_000 + minute_ms)
    × (1470 * minute_ms % minute_ms ≡ 0)
    × Matches spec (shown every_zone plain_clock [] (1470 * minute_ms))
next_cron_run-Found_example =
    next_cron_run-Found every_zone plain_clock fridays [] 0 (1470 * minute_ms) plain_run

next_cron_run-Ends_example : Ends (next_cron_run every_zone spring_clock fridays [] 0)
next_cron_run-Ends_example =
    next_cron_run-Ends every_zone spring_clock fridays [] 0 fridays_spec (λ t. omega arith) refl
      fridays_parse

-- Thursday at noon is before the run and does not match.
next_cron_run-first_example :
    ¬ Matches fridays_spec (shown every_zone plain_clock [] (720 * minute_ms))
next_cron_run-first_example =
    next_cron_run-first every_zone plain_clock fridays [] 0 (1470 * minute_ms) (720 * minute_ms)
      fridays_spec plain_clock-IsUniform fridays_parse plain_run (omega arith) (omega arith) refl

passes_over-Matches : Matches fridays_spec (shown every_zone spring_clock [] (1410 * minute_ms))
unfolding day_matches
passes_over-Matches = record { day = refl; hour = refl; minute = refl }

-- Half past midnight on the second day, a Friday, is 1410 minutes after the first day began.
next_cron_run-passes_over_example :
    (u : ℕ) × (0 < u)
    × (u < (7 * 1440 + 1410) * minute_ms)
    × (u % minute_ms ≡ 0)
    × Matches fridays_spec (shown every_zone spring_clock [] u)
unfolding day_matches
next_cron_run-passes_over_example =
    next_cron_run-passes_over every_zone spring_clock fridays [] 0 ((7 * 1440 + 1410) * minute_ms)
      fridays_spec 1409 fridays_parse refl (omega arith) passes_over-Matches spring_run

abbrev hourly : Schedule
hourly = record { cron = none; interval_seconds = some 3600; timezone = [] }

hourly_run : following_run every_zone plain_clock hourly 1_000 9_000_000 ≡ ok 10_801_000
unfolding following_run
hourly_run = refl

following_run-first_example :
    (1 ≤ 3600 * 1000)
    × (max 1_000 9_000_000 < 10_801_000)
    × (10_801_000 ≤ max 1_000 9_000_000 + 3600 * 1000)
    × ((k : ℕ) × (10_801_000 ≡ 1_000 + k * (3600 * 1000)))
following_run-first_example =
    following_run-first every_zone plain_clock hourly 1_000 9_000_000 10_801_000 refl hourly_run

default-IsNormal : IsNormal default_retry_policy
default-IsNormal = omega arith

compute_retry_delay_bounds_example :
    let d = compute_retry_delay 3 default_retry_policy 12 in
    (1_000 ≤ d)
    × (8 * exponential 3 default_retry_policy ≤ 10 * d + 5)
    × (10 * d ≤ 12 * exponential 3 default_retry_policy + 5)
    × (10 * d ≤ 12 * default_retry_policy.max_delay_ms + 5)
compute_retry_delay_bounds_example =
    compute_retry_delay_bounds 3 default_retry_policy 12 default-IsNormal (omega arith)
