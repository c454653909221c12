-- ===== src/Tasks/Cron/Field.antt =====
-- `parseField`: one field of a cron expression, a list of ranges with steps.
pub mod Laws
use zernflow.Base.{
  ℕ, zero, suc, ◌+◌, ◌-◌, ◌*◌, ◌^◌, Bool, true, false, not, ◌&&◌, ◌||◌, Option, none, some, List,
  [], ◌∷◌, ◌++◌, if◌then◌else◌, ltb, leb, ◌==◌, or_else, is_some,
}
use zernflow.Base.Json.{Text}
use zernflow.Base.Result.{Result, ok, err, ◌>>=◌, ◌>>◌, throw_if}

pub data CronError : Type 0 where
  invalid_field invalid_step out_of_range field_count unknown_time_zone : CronError
  never_matches out_of_fuel : CronError

-- `text.split(c)` for a separator of one character.
abbrev pub cons_head : ℕ → List Text → List Text
cons_head c [] = (c ∷ []) ∷ []
cons_head c (part ∷ parts) = (c ∷ part) ∷ parts

unfoldable pub split_on : ℕ → Text → List Text
split_on c [] = [] ∷ []
split_on c (x ∷ xs) = let rest = split_on c xs in if x == c then [] ∷ rest else cons_head x rest

abbrev pub is_digit : ℕ → Bool
is_digit c = leb b'0' c && leb c b'9'

-- The longest run of digits at the front, read as a number with the digits before it, and the rest.
unfoldable pub read_digits : ℕ → Text → ℕ × Text
read_digits acc [] = (acc, [])
read_digits acc (c ∷ cs) =
    let more = read_digits (acc * 10 + (c - b'0')) cs in if is_digit c then more else (acc, c ∷ cs)

-- `\d+` at the front.
unfoldable pub number : Text → Option (ℕ × Text)
unfolding read_digits
number [] = none
number (c ∷ cs) = if is_digit c then some (read_digits 0 (c ∷ cs)) else none

pub data Range : Type 0 where
  star : Range
  one : ℕ → Range
  span : ℕ → ℕ → Range

-- `(\*|\d+(?:-\d+)?)`
unfoldable pub range_of : Text → Option (Range × Text)
unfolding number
range_of cs = elim (number cs) [
  | none ↦ elim cs [ [] ↦ none | c ∷ rest ↦ if c == b'*' then some (star, rest) else none ]
  | some (a, rest) ↦ elim rest [
    | [] ↦ some (one a, [])
    | c ∷ more ↦
        if c == b'-'
        then elim (number more) [ none ↦ none | some (b, after) ↦ some (span a b, after) ]
        else some (one a, c ∷ more)
  ]
]

-- `(?:\/(\d+))?$`: no step, or a step that ends the text.
unfoldable pub step_of : Text → Option (Option ℕ)
unfolding number
step_of [] = some none
step_of (c ∷ cs) =
    if c == b'/'
    then elim (number cs) [ none ↦ none | some (n, []) ↦ some (some n) | some (n, _ ∷ _) ↦ none ]
    else none

-- The regular expression, with its three groups.
unfoldable pub match_part : Text → Option (Range × Option ℕ)
unfolding range_of step_of
match_part part = elim (range_of part) [
  | none ↦ none
  | some (range, rest) ↦ elim (step_of rest) [ none ↦ none | some step ↦ some (range, step) ]
]

-- `Number(digits)` is an integer unless it overflows to Infinity.
unfoldable pub number_overflow : ℕ
number_overflow = 2 ^ 1024 - 2 ^ 970

-- `lo` and `hi`, from the range and whether a step was written.
abbrev pub range_low : Range → ℕ → ℕ
range_low star lo = lo
range_low (one a) lo = a
range_low (span a b) lo = a

abbrev pub range_high : Range → Bool → ℕ → ℕ
range_high star stepped hi = hi
range_high (one a) stepped hi = if stepped then hi else a
range_high (span a b) stepped hi = b

-- `for (let v = lo; v <= hi; v += step) values.add(v)`, on the rounds left.
unfoldable pub values_from : ℕ → ℕ → ℕ → ℕ → List ℕ
values_from zero v hi step = []
values_from (suc fuel) v hi step =
    let rest = values_from fuel (v + step) hi step in if leb v hi then v ∷ rest else []

-- One turn of the loop over the parts.
unfoldable pub part_values : Text → ℕ → ℕ → Result CronError (List ℕ)
part_values part lo hi = elim (match_part part) [
  | none ↦ err invalid_field
  | some (range, step_raw) ↦ do
    let step = or_else step_raw 1
    let first = range_low range lo
    let last = range_high range (is_some step_raw) hi
    throw_if (not (ltb step number_overflow) || ltb step 1) invalid_step
    throw_if (ltb first lo || ltb hi last || ltb last first) out_of_range
    ok (values_from (last - first + 1) first last step)
]

unfoldable pub parts_values : List Text → ℕ → ℕ → Result CronError (List ℕ)
parts_values [] lo hi = ok []
parts_values (part ∷ parts) lo hi = do
  values ← part_values part lo hi
  rest ← parts_values parts lo hi
  ok (values ++ rest)

pub record Field : Type 0 where
  pub values : List ℕ
  pub restricted : Bool

abbrev pub is_star : Text → Bool
is_star [] = false
is_star (c ∷ []) = c == b'*'
is_star (c ∷ _ ∷ _) = false

unfoldable pub parse_field : Text → ℕ → ℕ → Result CronError Field
unfolding split_on parts_values
parse_field field lo hi = do
  values ← parts_values (split_on b',' field) lo hi
  ok (record { values = values; restricted = not (is_star field) })
