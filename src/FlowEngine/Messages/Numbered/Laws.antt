-- ===== src/FlowEngine/Messages/Numbered/Laws.antt =====
-- The decimal digits of a number, as they are written and read back.
use mathlib.Core.List.{reverse, reverse-cons, reverse-reverse}
use zernflow.Base.{
  ℕ, zero, suc, ◌+◌, ◌-◌, ◌*◌, ◌/◌, ◌%◌, ◌≤◌, ◌<◌, ◌≡◌, ◌≢◌, refl, false, some, List, [], ◌∷◌, ◌++◌,
  arith, ltb, All, All-append, All-implies, inl, inr, Bool-cases,
}
use mathlib.Core.Option
use zernflow.Base.Json.{Text, decimal, digits_of, trim, trim_start, is_space}
use zernflow.FlowEngine.Types.{QuickReply}
use zernflow.FlowEngine.Messages.Numbered.{
  read_number, parse_unsigned, parse_int, get_elem?, parse_numbered_response,
}

abbrev pub IsDigit : ℕ → Type 0
IsDigit c = (b'0' ≤ c) × (c ≤ b'9')

abbrev pub IsInk : ℕ → Type 0
IsInk c = is_space c ≡ false

pub digit-IsInk : (c : ℕ) → IsDigit c → IsInk c
digit-IsInk c h = ground arith

pub trim_start-ink : (cs : Text) → All IsInk cs → trim_start cs ≡ cs
unfolding trim_start
trim_start-ink [] h = refl
trim_start-ink (c ∷ cs) h = rw h.0

pub reverse-IsInk : (cs : Text) → All IsInk cs → All IsInk (reverse cs)
reverse-IsInk [] h = tt
reverse-IsInk (c ∷ cs) h =
    rw (reverse-cons c cs) (All-append IsInk (reverse cs) (c ∷ []) (reverse-IsInk cs h.1) (h.0, tt))

trim-ink : (cs : Text) → All IsInk cs → trim cs ≡ cs
unfolding trim
trim-ink cs h =
    rw (trim_start-ink cs h, trim_start-ink (reverse cs) (reverse-IsInk cs h)) (reverse-reverse cs)

pub digits_of-IsDigit : (fuel n : ℕ) → n ≤ fuel → All IsDigit (digits_of fuel n)
unfolding digits_of
digits_of-IsDigit zero n h = (omega arith, tt)
digits_of-IsDigit (suc fuel) n h = elim (Bool-cases (ltb n 10)) [
  | inl small ↦ rw small (ground arith, tt)
  | inr large ↦ rw large (
      All-append IsDigit (digits_of fuel (n / 10)) ((b'0' + n % 10) ∷ [])
        (digits_of-IsDigit fuel (n / 10) (omega arith)) (omega arith, tt))
]

read_number-snoc :
    (acc : ℕ) (cs : Text) (d : ℕ)
    → All IsDigit cs
    → d < 10
    → read_number acc (cs ++ (b'0' + d) ∷ []) ≡ read_number acc cs * 10 + d
unfolding read_number
read_number-snoc acc [] d h k = ground arith
read_number-snoc acc (c ∷ cs) d h k =
    let head = h.0 in let ih = read_number-snoc (acc * 10 + (c - b'0')) cs d h.1 k in ground arith

pub read_number-digits_of : (fuel n : ℕ) → n ≤ fuel → read_number 0 (digits_of fuel n) ≡ n
unfolding read_number digits_of
read_number-digits_of zero n h = ground arith
read_number-digits_of (suc fuel) n h = elim (Bool-cases (ltb n 10)) [
  | inl small ↦ rw small (ground arith)
  | inr large ↦
      let ih = read_number-digits_of fuel (n / 10) (omega arith) in
      rw
        (
          large,
          read_number-snoc 0 (digits_of fuel (n / 10)) (n % 10)
              (digits_of-IsDigit fuel (n / 10) (omega arith)) (omega arith),
          ih,
        )
        (omega arith)
]

parse_int-digits : (cs : Text) → cs ≢ [] → All IsDigit cs → parse_int cs ≡ some (read_number 0 cs)
unfolding parse_int parse_unsigned
parse_int-digits [] nonempty h = absurd (nonempty refl)
parse_int-digits (c ∷ cs) nonempty h = let head = h.0 in ground arith

snoc-ne-nil : (cs : Text) (c : ℕ) → cs ++ c ∷ [] ≢ []
snoc-ne-nil [] c = λ e. cc
snoc-ne-nil (d ∷ cs) c = λ e. cc

pub digits_of-nonempty : (fuel n : ℕ) → digits_of fuel n ≢ []
unfolding digits_of
digits_of-nonempty zero n = λ e. cc
digits_of-nonempty (suc fuel) n = elim (Bool-cases (ltb n 10)) [
  | inl small ↦ rw small (λ e. cc)
  | inr large ↦ rw large (snoc-ne-nil (digits_of fuel (n / 10)) (b'0' + n % 10))
]

-- For every list of options and every index: the answer that is the decimal number of the option,
-- counted from one, gives the payload of that option, and a number behind the options gives nothing.
pub parse_numbered_response-decimal :
    (options : List QuickReply) (i : ℕ)
    → parse_numbered_response (decimal (suc i)) options
      ≡ Option.map (λ q. q.payload) (get_elem? options i)
unfolding parse_numbered_response decimal
parse_numbered_response-decimal options i =
    let digits = digits_of-IsDigit (suc i) (suc i) (omega arith) in
    rw (
      trim-ink (digits_of (suc i) (suc i)) (All-implies digit-IsInk _ digits),
      parse_int-digits (digits_of (suc i) (suc i)) (digits_of-nonempty (suc i) (suc i)) digits,
      read_number-digits_of (suc i) (suc i) (omega arith),
    )
