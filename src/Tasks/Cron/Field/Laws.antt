-- ===== src/Tasks/Cron/Field/Laws.antt =====
-- Which values a field of a cron expression stands for.
use zernflow.Base.{
  ℕ, zero, suc, ◌+◌, ◌-◌, ◌*◌, ◌≤◌, ◌<◌, ◌≡◌, ◌↔◌, inl, inr, true, Option, none, some, List, [],
  ◌∷◌, ◌++◌, arith, leb, ◌==◌, All, All-append, All-implies, has, Bool-cases, Option-cases, or_else,
  is_some, not,
}
use zernflow.Base.Json.{Text}
use zernflow.Base.Result.{ok, err, >>=-eq-ok, ok-injective}
use zernflow.Tasks.Cron.Field.{
  invalid_field, Range, match_part, range_low, range_high, values_from, part_values, parts_values,
  Field, split_on, is_star, parse_field,
}

-- The values of the counting loop are those of the progression, up to the end of the range.
pub values_from_sound :
    (fuel v hi step u : ℕ)
    → has u (values_from fuel v hi step) ≡ true
    → (k : ℕ) × (u ≡ v + k * step) × (u ≤ hi)
unfolding values_from
values_from_sound zero v hi step u h = cc
values_from_sound (suc fuel) v hi step u h = elim (Bool-cases (leb v hi)) [
  | inr past ↦ absurd (ground arith)
  | inl inside ↦ elim (Bool-cases (v == u)) [
    | inl here ↦ (0, ground arith, ground arith)
    | inr later ↦
        let (k, e, le) = values_from_sound fuel (v + step) hi step u (ground arith) in
        (suc k, omega arith, le)
  ]
]

-- Every one of them is visited, if the rounds cover the range and the step is not zero.
pub values_from_complete :
    (fuel v hi step k : ℕ)
    → 1 ≤ step
    → hi < v + fuel
    → v + k * step ≤ hi
    → has (v + k * step) (values_from fuel v hi step) ≡ true
unfolding values_from
values_from_complete zero v hi step k s f h = absurd (omega arith)
values_from_complete (suc fuel) v hi step zero s f h = ground arith
values_from_complete (suc fuel) v hi step (suc k) s f h =
    let e : v + step + k * step ≡ v + suc k * step = omega arith in
    let rest : has (v + step + k * step) (values_from fuel (v + step) hi step) ≡ true =
      values_from_complete fuel (v + step) hi step k s (omega arith) (omega arith) in
    ground arith

values_from-All :
    (fuel v hi step : ℕ)
    → (lo : ℕ) → lo ≤ v
    → All (λ x. (lo ≤ x) × (x ≤ hi)) (values_from fuel v hi step)
unfolding values_from
values_from-All zero v hi step lo h = tt
values_from-All (suc fuel) v hi step lo h = elim (Bool-cases (leb v hi)) [
  | inr past ↦ rw past tt
  | inl inside ↦
      rw inside ((h, ground arith), values_from-All fuel (v + step) hi step lo (omega arith))
]

-- What a part that is accepted stands for: a progression within the bounds of the field.
pub record Accepted (part : Text) (lo hi : ℕ) (values : List ℕ) : Type 0 where
  pub range : Range
  pub step_raw : Option ℕ
  pub matched : match_part part ≡ some (range, step_raw)
  pub step_pos : 1 ≤ or_else step_raw 1
  pub low : lo ≤ range_low range lo
  pub high : range_high range (is_some step_raw) hi ≤ hi
  pub ordered : range_low range lo ≤ range_high range (is_some step_raw) hi
  pub listed :
      values
      ≡ values_from
          (range_high range (is_some step_raw) hi - range_low range lo + 1)
          (range_low range lo)
          (range_high range (is_some step_raw) hi)
          (or_else step_raw 1)

accepted :
    (part : Text) (lo hi : ℕ) (values : List ℕ) (range : Range) (step_raw : Option ℕ)
    → match_part part ≡ some (range, step_raw)
    → part_values part lo hi ≡ ok values
    → Accepted part lo hi values
unfolding part_values
accepted part lo hi values range step_raw e h = record {
  range = range;
  step_raw = step_raw;
  matched = e;
  step_pos = ground arith;
  low = ground arith;
  high = ground arith;
  ordered = ground arith;
  listed = ground arith;
}

part_values-unmatched :
    (part : Text) (lo hi : ℕ) → match_part part ≡ none → part_values part lo hi ≡ err invalid_field
unfolding part_values
part_values-unmatched part lo hi e = rw (e, part_values)

pub part_values-Accepted :
    (part : Text) (lo hi : ℕ) (values : List ℕ)
    → part_values part lo hi ≡ ok values
    → Accepted part lo hi values
part_values-Accepted part lo hi values h = elim (Option-cases (match_part part)) [
  | inl e ↦ cc (part_values-unmatched part lo hi e)
  | inr ((range, step_raw), e) ↦ accepted part lo hi values range step_raw e h
]

-- A part that is accepted holds exactly the numbers of its progression.
pub part_values_iff :
    (part : Text) (lo hi : ℕ) (values : List ℕ) (u : ℕ)
    → (h : part_values part lo hi ≡ ok values)
    → let a = part_values-Accepted part lo hi values h in
      (has u values ≡ true) ↔ (
        (k : ℕ) × (u ≡ range_low a.range lo + k * or_else a.step_raw 1)
        × (u ≤ range_high a.range (is_some a.step_raw) hi))
part_values_iff part lo hi values u h =
    let a = part_values-Accepted part lo hi values h in
    (
      (λ m. values_from_sound _ _ _ _ u (rw a.listed at m)),
      (λ (k, e, le).
          rw (a.listed, e)
            (values_from_complete _ _ _ _ k a.step_pos (omega (arith, a.ordered)) (rw e at le))),
    )

parts_values-All :
    (parts : List Text) (lo hi : ℕ) (values : List ℕ)
    → parts_values parts lo hi ≡ ok values
    → All (λ x. (lo ≤ x) × (x ≤ hi)) values
unfolding parts_values
parts_values-All [] lo hi values h = rw (← ok-injective h) tt
parts_values-All (part ∷ parts) lo hi values h =
    let (xs, ex, h') = >>=-eq-ok _ _ h in
    let (ys, ey, h'') = >>=-eq-ok _ _ h' in
    let a = part_values-Accepted part lo hi xs ex in
    let head : All (λ x. (lo ≤ x) × (x ≤ hi)) xs =
      rw a.listed
        (All-implies (λ x w. omega (arith, a.high)) _ (values_from-All _ _ _ _ lo a.low)) in
    let e : xs ++ ys ≡ values = ok-injective h'' in
    rw (← e) (All-append _ xs ys head (parts_values-All parts lo hi ys ey))

-- Every value of a parsed field lies within the bounds of the field.
pub parse_field-All :
    (text : Text) (lo hi : ℕ) (f : Field)
    → parse_field text lo hi ≡ ok f
    → All (λ x. (lo ≤ x) × (x ≤ hi)) f.values
unfolding parse_field
parse_field-All text lo hi f h =
    let (xs, ex, h') = >>=-eq-ok _ _ h in
    let e : record { values = xs; restricted = not (is_star text) } ≡ f = ok-injective h' in
    rw (← e) (parts_values-All (split_on b',' text) lo hi xs ex)
