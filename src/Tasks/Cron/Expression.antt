-- ===== src/Tasks/Cron/Expression.antt =====
-- `parseCron`: the five fields of a cron expression, and `dayMatches`.
pub mod Laws
use mathlib.Core.List.{reverse}
use zernflow.Base.{
  ℕ, Bool, true, false, not, ◌&&◌, ◌||◌, List, [], ◌∷◌, map, if◌then◌else◌, leb, ◌==◌, has,
}
use zernflow.Base.Json.{Text, is_space, trim}
use zernflow.Base.Result.{Result, ok, err, ◌>>=◌}
use zernflow.Tasks.Cron.Field.{CronError, field_count, cons_head, Field, parse_field}

pub record CronSpec : Type 0 where
  pub minutes : List ℕ
  pub hours : List ℕ
  pub days_of_month : List ℕ
  pub months : List ℕ
  pub days_of_week : List ℕ
  pub dom_restricted : Bool
  pub dow_restricted : Bool

-- `text.split(/\s+/)`; the flag is true inside a run of spaces.
unfoldable pub split_spaces : Bool → Text → List Text
split_spaces gap [] = [] ∷ []
split_spaces gap (c ∷ cs) =
    let spaces = split_spaces true cs in
    let word = split_spaces false cs in
    if is_space c then (if gap then spaces else [] ∷ spaces) else cons_head c word

-- Sunday is 0 and 7.
abbrev pub sunday : ℕ → ℕ
sunday d = if d == 7 then 0 else d

unfoldable pub parse_fields : List Text → Result CronError CronSpec
parse_fields (f0 ∷ f1 ∷ f2 ∷ f3 ∷ f4 ∷ []) = do
  minutes ← parse_field f0 0 59
  hours ← parse_field f1 0 23
  dom ← parse_field f2 1 31
  months ← parse_field f3 1 12
  dow_raw ← parse_field f4 0 7
  ok (record {
    minutes = minutes.values;
    hours = hours.values;
    days_of_month = dom.values;
    months = months.values;
    days_of_week = map sunday dow_raw.values;
    dom_restricted = dom.restricted;
    dow_restricted = dow_raw.restricted;
  })
parse_fields _ = err field_count

unfoldable pub parse_cron : Text → Result CronError CronSpec
unfolding parse_fields
parse_cron expression = parse_fields (split_spaces false (trim expression))

-- A local time. The week day is 0 on Sunday.
pub record Parts : Type 0 where
  pub month : ℕ
  pub day : ℕ
  pub hour : ℕ
  pub minute : ℕ
  pub weekday : ℕ

unfoldable pub day_matches : CronSpec → Parts → Bool
day_matches spec p =
    if not (has p.month spec.months)
    then false
    else let dom = has p.day spec.days_of_month in
      let dow = has p.weekday spec.days_of_week in
      if spec.dom_restricted && spec.dow_restricted
      then dom || dow
      else if spec.dom_restricted
      then dom
      else if spec.dow_restricted
      then dow
      else true
