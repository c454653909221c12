-- ===== src/Tasks/Cron/Expression/Laws.antt =====
-- A cron expression that is accepted names only minutes, hours and days that there are.
use zernflow.Base.{ℕ, ◌≤◌, ◌≡◌, List, [], ◌∷◌, map, arith, All}
use zernflow.Base.Json.{Text}
use zernflow.Base.Result.{ok, >>=-eq-ok, ok-injective}
use zernflow.Tasks.Cron.Field.Laws.{parse_field-All}
use zernflow.Tasks.Cron.Expression.{CronSpec, sunday, parse_fields, parse_cron}

abbrev pub Within : ℕ → ℕ → List ℕ → Type 0
Within lo hi = All (λ x. (lo ≤ x) × (x ≤ hi))

pub record IsInRange (spec : CronSpec) : Type 0 where
  pub minutes : Within 0 59 spec.minutes
  pub hours : Within 0 23 spec.hours
  pub days_of_month : Within 1 31 spec.days_of_month
  pub months : Within 1 12 spec.months
  pub days_of_week : Within 0 6 spec.days_of_week

map-sunday-Within : (xs : List ℕ) → Within 0 7 xs → Within 0 6 (map sunday xs)
map-sunday-Within [] h = tt
map-sunday-Within (x ∷ xs) h = (ground arith, map-sunday-Within xs h.1)

parse_fields-IsInRange :
    (fields : List Text) (spec : CronSpec) → parse_fields fields ≡ ok spec → IsInRange spec
unfolding parse_fields
parse_fields-IsInRange (f0 ∷ f1 ∷ f2 ∷ f3 ∷ f4 ∷ []) spec h =
    let (minutes, e0, h0) = >>=-eq-ok _ _ h in
    let (hours, e1, h1) = >>=-eq-ok _ _ h0 in
    let (dom, e2, h2) = >>=-eq-ok _ _ h1 in
    let (months, e3, h3) = >>=-eq-ok _ _ h2 in
    let (dow, e4, h4) = >>=-eq-ok _ _ h3 in
    let parsed : CronSpec = record {
      minutes = minutes.values;
      hours = hours.values;
      days_of_month = dom.values;
      months = months.values;
      days_of_week = map sunday dow.values;
      dom_restricted = dom.restricted;
      dow_restricted = dow.restricted;
    } in
    let e : parsed ≡ spec = ok-injective h4 in
    rw (← e) (record {
      minutes = parse_field-All f0 0 59 minutes e0;
      hours = parse_field-All f1 0 23 hours e1;
      days_of_month = parse_field-All f2 1 31 dom e2;
      months = parse_field-All f3 1 12 months e3;
      days_of_week = map-sunday-Within dow.values (parse_field-All f4 0 7 dow e4);
    })
parse_fields-IsInRange _ spec h = cc

-- Minutes are below 60, hours below 24, days and months are those of a calendar, and Sunday is 0.
pub parse_cron-IsInRange :
    (expression : Text) (spec : CronSpec) → parse_cron expression ≡ ok spec → IsInRange spec
unfolding parse_cron
parse_cron-IsInRange expression spec h = parse_fields-IsInRange _ spec h
