-- ===== src/Publishing/RepeatCron.antt =====
-- lib/publishing/repeat-cron.ts: the cron expression of the form that repeats a post. The days are
-- whole numbers.
pub mod Words
pub mod Laws
mod Tests
use zernflow.Base.{
  ℕ, ◌+◌, ◌-◌, ◌*◌, Bool, ◌&&◌, Option, none, some, List, [], ◌∷◌, if◌then◌else◌, leb, ltb, ◌||◌,
  ◌==◌,
}
use zernflow.Base.Int.{ℤ, pos, negsuc}
use zernflow.Base.Json.{Text, codes, text_eq, decimal}
use zernflow.FlowEngine.Messages.{join}
use zernflow.Tasks.Cron.Field.{is_digit}

abbrev pub two_digits : ℕ → ℕ → ℕ
two_digits a b = (a - b'0') * 10 + (b - b'0')

-- `/^(\d{2}):(\d{2})$/`, the hour and the minute.
unfoldable pub time_of : Text → Option (ℕ × ℕ)
time_of (a ∷ b ∷ colon ∷ c ∷ d ∷ []) =
    if is_digit a && is_digit b && colon == b':' && is_digit c && is_digit d
    then some (two_digits a b, two_digits c d)
    else none
time_of _ = none

abbrev pub day_within : ℕ → ℕ → ℤ → Option ℕ
day_within low high (pos n) = if leb low n && leb n high then some n else none
day_within low high (negsuc n) = none

abbrev pub line : ℕ → ℕ → Text → Text → Text
line minute hour dom dow =
    join (codes " ") (decimal minute ∷ decimal hour ∷ dom ∷ codes "*" ∷ dow ∷ [])

abbrev pub weekly : ℕ → ℕ → Option ℕ → Option Text
weekly minute hour none = none
weekly minute hour (some d) = some (line minute hour (codes "*") (decimal d))

abbrev pub monthly : ℕ → ℕ → Option ℕ → Option Text
monthly minute hour none = none
monthly minute hour (some d) = some (line minute hour (decimal d) (codes "*"))

abbrev pub repeat_at : Text → ℤ → ℤ → Option (ℕ × ℕ) → Option Text
repeat_at frequency weekday month_day none = none
repeat_at frequency weekday month_day (some (h, m)) =
    if ltb 23 h || ltb 59 m
    then none
    else if text_eq frequency (codes "daily")
    then some (line m h (codes "*") (codes "*"))
    else if text_eq frequency (codes "weekly")
    then weekly m h (day_within 0 6 weekday)
    else if text_eq frequency (codes "monthly")
    then monthly m h (day_within 1 28 month_day)
    else none

unfoldable pub repeat_cron : Text → Text → ℤ → ℤ → Option Text
unfolding time_of decimal
repeat_cron frequency time weekday month_day = repeat_at frequency weekday month_day (time_of time)
