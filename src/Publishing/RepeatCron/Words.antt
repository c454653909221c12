-- ===== src/Publishing/RepeatCron/Words.antt =====
-- The words of a text between spaces, and the field of a cron expression that is one number.
use mathlib.Core.List.{reverse, reverse-append, reverse-reverse}
use zernflow.Base.{
  ℕ, ◌+◌, ◌-◌, ◌*◌, ◌≤◌, ◌≡◌, ◌≢◌, refl, sym, ap, ◌∙◌, true, false, none, some, [], ◌∷◌, ◌++◌, ◌||◌,
  arith, All, All-implies, ltb, leb,
}
use zernflow.Base.Json.{Text, codes, decimal, trim, trim_start}
use zernflow.Base.Result.{ok}
use zernflow.FlowEngine.Messages.{join}
use zernflow.FlowEngine.Messages.Numbered.{read_number}
use zernflow.FlowEngine.Messages.Numbered.Laws.{
  IsDigit, IsInk, digit-IsInk, digits_of-IsDigit, digits_of-nonempty, read_number-digits_of,
  reverse-IsInk,
}
use zernflow.Tasks.Cron.Field.{
  is_digit, split_on, read_digits, number, range_of, step_of, match_part, one, part_values,
  parts_values, parse_field, number_overflow, values_from, is_star,
}
use zernflow.Tasks.Cron.Expression.{split_spaces}

split_spaces-word :
    (w rest : Text)
    → All IsInk w
    → split_spaces false (w ++ b' ' ∷ rest) ≡ w ∷ split_spaces true rest
unfolding split_spaces
split_spaces-word [] rest h = refl
split_spaces-word (c ∷ cs) rest h = rw (h.0, split_spaces-word cs rest h.1) refl

split_spaces-last : (w : Text) → All IsInk w → split_spaces false w ≡ w ∷ []
unfolding split_spaces
split_spaces-last [] h = refl
split_spaces-last (c ∷ cs) h = rw (h.0, split_spaces-last cs h.1) refl

split_spaces-gap :
    (w rest : Text)
    → w ≢ []
    → All IsInk w
    → split_spaces true (w ++ rest) ≡ split_spaces false (w ++ rest)
unfolding split_spaces
split_spaces-gap [] rest n h = absurd (n refl)
split_spaces-gap (c ∷ cs) rest n h = rw h.0 refl

trim_start-word : (w rest : Text) → w ≢ [] → All IsInk w → trim_start (w ++ rest) ≡ w ++ rest
unfolding trim_start
trim_start-word [] rest n h = absurd (n refl)
trim_start-word (c ∷ cs) rest n h = rw h.0 refl

split_on-digits : (c : ℕ) (ds : Text) → All (λ d. d ≢ c) ds → split_on c ds ≡ ds ∷ []
unfolding split_on
split_on-digits c [] h = refl
split_on-digits c (d ∷ ds) h =
    let other = h.0 in let rest = split_on-digits c ds h.1 in ground arith

read_digits-digits :
    (acc : ℕ) (ds : Text) → All IsDigit ds → read_digits acc ds ≡ (read_number acc ds, [])
unfolding read_digits read_number
read_digits-digits acc [] h = refl
read_digits-digits acc (d ∷ ds) h =
    let digit = h.0 in let rest = read_digits-digits (acc * 10 + (d - b'0')) ds h.1 in ground arith

is_digit-IsDigit : (d : ℕ) → IsDigit d → is_digit d ≡ true
is_digit-IsDigit d h = ground arith

number-digits : (ds : Text) → ds ≢ [] → All IsDigit ds → number ds ≡ some (read_number 0 ds, [])
unfolding number read_digits read_number
number-digits [] n h = absurd (n refl)
number-digits (d ∷ ds) n h =
    rw (is_digit-IsDigit d h.0) (ap some (read_digits-digits (0 * 10 + (d - b'0')) ds h.1))

match_part-digits :
    (ds : Text) → ds ≢ [] → All IsDigit ds → match_part ds ≡ some (one (read_number 0 ds), none)
unfolding match_part range_of step_of
match_part-digits ds n h = rw (number-digits ds n h, match_part, range_of) refl

is_star-digits : (ds : Text) → All IsDigit ds → is_star ds ≡ false
is_star-digits [] h = refl
is_star-digits (d ∷ []) h = let digit = h.0 in ground arith
is_star-digits (d ∷ c ∷ ds) h = refl

-- The value of one number.
single_value :
    (n lo hi : ℕ)
    → lo ≤ n
    → n ≤ hi
    → (ds : Text) → ds ≢ []
    → All IsDigit ds
    → read_number 0 ds ≡ n
    → part_values ds lo hi ≡ ok (n ∷ [])
unfolding part_values values_from number_overflow
single_value n lo hi low high ds filled h e =
    let inside : (ltb n lo || ltb hi n || ltb n n) ≡ false = ground arith in
    let same : n - n + 1 ≡ 1 = omega arith in
    let itself : leb n n ≡ true = ground arith in
    rw (match_part-digits ds filled h, e, part_values, inside, same, itself) refl

pub decimal-IsInk : (n : ℕ) → All IsInk (decimal n)
unfolding decimal
decimal-IsInk n = All-implies digit-IsInk (decimal n) (digits_of-IsDigit n n (omega arith))

pub decimal-nonempty : (n : ℕ) → decimal n ≢ []
unfolding decimal
decimal-nonempty n = digits_of-nonempty n n

-- A field that is one number in its range.
pub parse_field-decimal :
    (n lo hi : ℕ)
    → lo ≤ n
    → n ≤ hi
    → parse_field (decimal n) lo hi ≡ ok (record { values = n ∷ []; restricted = true })
unfolding parse_field parts_values decimal
parse_field-decimal n lo hi low high =
    let digits = digits_of-IsDigit n n (omega arith) in
    rw
      (
        split_on-digits b',' (decimal n)
            (All-implies (λ d h e. absurd (omega (arith, h, e))) _ digits),
        single_value n lo hi low high (decimal n) (decimal-nonempty n) digits
            (read_number-digits_of n n (omega arith)),
        is_star-digits (decimal n) digits,
      )
      refl

reverse-nonempty : (cs : Text) → cs ≢ [] → reverse cs ≢ []
reverse-nonempty cs n e = n (sym (reverse-reverse cs) ∙ ap reverse e)

trim-ends :
    (a rest pre e : Text)
    → a ++ rest ≡ pre ++ e
    → All IsInk a
    → a ≢ []
    → All IsInk e
    → e ≢ []
    → trim (a ++ rest) ≡ a ++ rest
unfolding trim
trim-ends a rest pre e same ia na ie ne =
    rw
      (
        trim_start-word a rest na ia,
        same,
        reverse-append pre e,
        trim_start-word (reverse e) (reverse pre) (reverse-nonempty e ne) (reverse-IsInk e ie),
        ← reverse-append pre e,
      )
      (reverse-reverse (pre ++ e))

glue : (x v e : Text) {u : Text} → u ≡ v ++ e → x ++ b' ' ∷ u ≡ (x ++ b' ' ∷ v) ++ e
glue [] v e h = ap (λ t. b' ' ∷ t) h
glue (c ∷ cs) v e h = ap (λ t. c ∷ t) (glue cs v e h)

-- A word is not empty and has no space.
abbrev pub IsFilled : Text → Type 0
IsFilled w = (w ≢ []) × All IsInk w

split_spaces-next :
    (w rest : Text) → IsFilled w → split_spaces true (w ++ b' ' ∷ rest) ≡ w ∷ split_spaces true rest
split_spaces-next w rest h = split_spaces-gap w (b' ' ∷ rest) h.0 h.1 ∙ split_spaces-word w rest h.1

split_spaces-end : (w : Text) → IsFilled w → split_spaces true w ≡ w ∷ []
unfolding split_spaces
split_spaces-end [] h = absurd (h.0 refl)
split_spaces-end (c ∷ cs) h = rw (h.1.0, split_spaces-last cs h.1.1) refl

-- Five words with single spaces between them.
pub split_spaces-join :
    (a b c d e : Text)
    → IsFilled a
    → IsFilled b
    → IsFilled c
    → IsFilled d
    → IsFilled e
    → split_spaces false (trim (join (codes " ") (a ∷ b ∷ c ∷ d ∷ e ∷ []))) ≡ a ∷ b ∷ c ∷ d ∷ e ∷ []
split_spaces-join a b c d e ha hb hc hd he =
    let from_d = d ++ b' ' ∷ e in
    let from_c = c ++ b' ' ∷ from_d in
    let from_b = b ++ b' ' ∷ from_c in
    ap (split_spaces false) (
      trim-ends a (b' ' ∷ from_b) (a ++ b' ' ∷ (b ++ b' ' ∷ (c ++ b' ' ∷ (d ++ b' ' ∷ [])))) e
        (glue a _ e (glue b _ e (glue c _ e (glue d [] e refl)))) ha.1 ha.0 he.1 he.0)
    ∙ split_spaces-word a from_b ha.1
    ∙ ap (λ ws. a ∷ ws)
        (split_spaces-next b from_c hb
          ∙ ap (λ ws. b ∷ ws)
              (split_spaces-next c from_d hc
                ∙ ap (λ ws. c ∷ ws)
                    (split_spaces-next d e hd ∙ ap (λ ws. d ∷ ws) (split_spaces-end e he))))
