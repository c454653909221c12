-- ===== src/Publishing/RepeatCron/Laws.antt =====
-- The expressions of the form, read by the parser of cron expressions.
use zernflow.Base.{
  ℕ, ◌≤◌, ◌≡◌, refl, ap, ◌∙◌, inl, inr, true, false, ◌||◌, ◌&&◌, Option, none, some, List, [], ◌∷◌,
  map, if◌then◌else◌, ◌⊎◌, arith, leb, ltb, Bool-cases,
}
use zernflow.Base.Int.{ℤ, pos, negsuc}
use zernflow.Base.Json.{Text, codes, text_eq, decimal}
use zernflow.Base.Result.{ok}
use zernflow.Tasks.Cron.Field.{
  Field, parse_field, parts_values, part_values, match_part, range_of, step_of, number, split_on,
  values_from, number_overflow,
}
use zernflow.Tasks.Cron.Expression.{CronSpec, sunday, parse_cron, parse_fields}
use zernflow.Publishing.RepeatCron.{
  time_of, day_within, line, weekly, monthly, repeat_at, repeat_cron,
}
use zernflow.Publishing.RepeatCron.Words.{
  IsFilled, decimal-IsInk, decimal-nonempty, parse_field-decimal, split_spaces-join,
}

abbrev all_months : List ℕ
all_months = 1 ∷ 2 ∷ 3 ∷ 4 ∷ 5 ∷ 6 ∷ 7 ∷ 8 ∷ 9 ∷ 10 ∷ 11 ∷ 12 ∷ []

abbrev all_days : List ℕ
all_days =
    1 ∷ 2 ∷ 3 ∷ 4 ∷ 5 ∷ 6 ∷ 7 ∷ 8 ∷ 9 ∷ 10 ∷ 11 ∷ 12 ∷ 13 ∷ 14 ∷ 15 ∷ 16 ∷ 17 ∷ 18 ∷ 19 ∷ 20 ∷ 21
    ∷ 22 ∷ 23 ∷ 24 ∷ 25 ∷ 26 ∷ 27 ∷ 28 ∷ 29 ∷ 30 ∷ 31 ∷ []

abbrev pub every_day : Field
every_day = record { values = all_days; restricted = false }

abbrev pub every_weekday : Field
every_weekday = record { values = 0 ∷ 1 ∷ 2 ∷ 3 ∷ 4 ∷ 5 ∷ 6 ∷ 7 ∷ []; restricted = false }

abbrev pub only : ℕ → Field
only n = record { values = n ∷ []; restricted = true }

-- One minute of one hour in every month, on the days of two fields.
abbrev pub once : ℕ → ℕ → Field → Field → CronSpec
once m h dom dow = record {
  minutes = m ∷ [];
  hours = h ∷ [];
  days_of_month = dom.values;
  months = all_months;
  days_of_week = map sunday dow.values;
  dom_restricted = dom.restricted;
  dow_restricted = dow.restricted;
}

decimal-IsFilled : (n : ℕ) → IsFilled (decimal n)
decimal-IsFilled n = (decimal-nonempty n, decimal-IsInk n)

star-IsFilled : IsFilled (codes "*")
star-IsFilled = ((λ e. cc), (refl, tt))

line-parse_cron :
    (m h : ℕ) (dom dow : Text)
    → IsFilled dom
    → IsFilled dow
    → parse_cron (line m h dom dow)
      ≡ parse_fields (decimal m ∷ decimal h ∷ dom ∷ codes "*" ∷ dow ∷ [])
unfolding parse_cron
line-parse_cron m h dom dow hd hw = ap parse_fields (
    split_spaces-join (decimal m) (decimal h) dom (codes "*") dow (decimal-IsFilled m)
      (decimal-IsFilled h) hd star-IsFilled hw)

star_month : parse_field (codes "*") 1 12 ≡ ok (record { values = all_months; restricted = false })
unfolding parse_field parts_values part_values match_part range_of step_of number split_on
    values_from number_overflow
star_month = refl

star_day : parse_field (codes "*") 1 31 ≡ ok every_day
unfolding parse_field parts_values part_values match_part range_of step_of number split_on
    values_from number_overflow
star_day = refl

star_weekday : parse_field (codes "*") 0 7 ≡ ok every_weekday
unfolding parse_field parts_values part_values match_part range_of step_of number split_on
    values_from number_overflow
star_weekday = refl

parse_fields-once :
    (m h : ℕ) (dom dow : Text) (f g : Field)
    → m ≤ 59
    → h ≤ 23
    → parse_field dom 1 31 ≡ ok f
    → parse_field dow 0 7 ≡ ok g
    → parse_fields (decimal m ∷ decimal h ∷ dom ∷ codes "*" ∷ dow ∷ []) ≡ ok (once m h f g)
unfolding parse_fields
parse_fields-once m h dom dow f g hm hh ef eg =
    rw
      (
        parse_field-decimal m 0 59 (omega arith) hm,
        parse_field-decimal h 0 23 (omega arith) hh,
        ef,
        star_month,
        eg,
      )
      refl

day_within-pos :
    (lo hi : ℕ) (z : ℤ) (d : ℕ) → day_within lo hi z ≡ some d → (z ≡ pos d) × (lo ≤ d) × (d ≤ hi)
day_within-pos lo hi (pos n) d e = elim (Bool-cases (leb lo n && leb n hi)) [
  | inl fits ↦ let same : n ≡ d = ground arith in (ap pos same, ground arith, ground arith)
  | inr out ↦ absurd (ground arith)
]
day_within-pos lo hi (negsuc n) d e = cc

-- How an expression of the form is read: every day, on one day of the week, or on one of the month.
abbrev pub IsRead : Text → ℤ → ℤ → ℕ → ℕ → Text → Type 0
IsRead frequency weekday month_day h m text =
    ((text_eq frequency (codes "daily") ≡ true)
      × (parse_cron text ≡ ok (once m h every_day every_weekday)))
    ⊎ (((d : ℕ) × (text_eq frequency (codes "weekly") ≡ true)
          × (weekday ≡ pos d)
          × (parse_cron text ≡ ok (once m h every_day (only d))))
        ⊎ ((d : ℕ) × (text_eq frequency (codes "monthly") ≡ true)
            × (month_day ≡ pos d)
            × (parse_cron text ≡ ok (once m h (only d) every_weekday))))

module _ (frequency : Text) (weekday month_day : ℤ) (h m : ℕ) (hh : h ≤ 23) (hm : m ≤ 59) where
  line-once :
      (dom dow : Text) (f g : Field)
      → IsFilled dom
      → IsFilled dow
      → parse_field dom 1 31 ≡ ok f
      → parse_field dow 0 7 ≡ ok g
      → parse_cron (line m h dom dow) ≡ ok (once m h f g)
  line-once dom dow f g hd hw ef eg =
      line-parse_cron m h dom dow hd hw ∙ parse_fields-once m h dom dow f g hm hh ef eg

  weekly-IsRead :
      (x : Option ℕ) (text : Text)
      → text_eq frequency (codes "weekly") ≡ true
      → day_within 0 6 weekday ≡ x
      → weekly m h x ≡ some text
      → IsRead frequency weekday month_day h m text
  weekly-IsRead none text f e k = cc
  weekly-IsRead (some d) text f e k =
      let day = day_within-pos 0 6 weekday d e in
      let built : line m h (codes "*") (decimal d) ≡ text = cc in
      inr (
        inl (
          d,
          f,
          day.0,
          rw (← built) (
              line-once (codes "*") (decimal d) every_day (only d) star-IsFilled
                (decimal-IsFilled d) star_day
                (parse_field-decimal d 0 7 (omega arith) (omega (arith, day.2)))),
        ))

  monthly-IsRead :
      (x : Option ℕ) (text : Text)
      → text_eq frequency (codes "monthly") ≡ true
      → day_within 1 28 month_day ≡ x
      → monthly m h x ≡ some text
      → IsRead frequency weekday month_day h m text
  monthly-IsRead none text f e k = cc
  monthly-IsRead (some d) text f e k =
      let day = day_within-pos 1 28 month_day d e in
      let built : line m h (decimal d) (codes "*") ≡ text = cc in
      inr (
        inr (
          d,
          f,
          day.0,
          rw (← built) (
              line-once (decimal d) (codes "*") (only d) every_weekday (decimal-IsFilled d)
                star-IsFilled (parse_field-decimal d 1 31 day.1 (omega (arith, day.2)))
                star_weekday),
        ))

  by_frequency :
      (text : Text)
      → (if text_eq frequency (codes "daily")
          then some (line m h (codes "*") (codes "*"))
          else if text_eq frequency (codes "weekly")
          then weekly m h (day_within 0 6 weekday)
          else if text_eq frequency (codes "monthly")
          then monthly m h (day_within 1 28 month_day)
          else none)
        ≡ some text
      → IsRead frequency weekday month_day h m text
  by_frequency text e = elim (Bool-cases (text_eq frequency (codes "daily"))) [
    | inl daily ↦
        let built : line m h (codes "*") (codes "*") ≡ text = ground arith in
        inl (
          daily,
          rw (← built) (
              line-once (codes "*") (codes "*") every_day every_weekday star-IsFilled star-IsFilled
                star_day star_weekday),
        )
    | inr other ↦ elim (Bool-cases (text_eq frequency (codes "weekly"))) [
      | inl is_weekly ↦ weekly-IsRead (day_within 0 6 weekday) text is_weekly refl (ground arith)
      | inr another ↦ elim (Bool-cases (text_eq frequency (codes "monthly"))) [
        | inl is_monthly ↦
            monthly-IsRead (day_within 1 28 month_day) text is_monthly refl (ground arith)
        | inr none_of_them ↦ absurd (ground arith)
      ]
    ]
  ]

module _ (frequency : Text) (weekday month_day : ℤ) where
  repeat_at-IsRead :
      (x : Option (ℕ × ℕ)) (text : Text)
      → repeat_at frequency weekday month_day x ≡ some text
      → (h : ℕ) × (m : ℕ) × (x ≡ some (h, m)) × IsRead frequency weekday month_day h m text
  repeat_at-IsRead none text e = cc
  repeat_at-IsRead (some (h, m)) text e = elim (Bool-cases (ltb 23 h || ltb 59 m)) [
    | inl late ↦ absurd (ground arith)
    | inr ok_time ↦ (
      h,
      m,
      refl,
      by_frequency frequency weekday month_day h m (ground arith) (ground arith) text
          (ground arith),
    )
  ]

-- Every expression that `repeatCron` answers is read by `parseCron`, as the one minute and the one
-- hour of the time: on every day if it is daily, only on its day of the week if it is weekly, and
-- only on its day of the month if it is monthly.
pub repeat_cron-parse_cron :
    (frequency time : Text) (weekday month_day : ℤ) (text : Text)
    → repeat_cron frequency time weekday month_day ≡ some text
    → (h : ℕ) × (m : ℕ) × (time_of time ≡ some (h, m)) × IsRead frequency weekday month_day h m text
unfolding repeat_cron
repeat_cron-parse_cron frequency time weekday month_day text e =
    repeat_at-IsRead frequency weekday month_day (time_of time) text e
