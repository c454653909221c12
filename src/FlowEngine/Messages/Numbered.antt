-- ===== src/FlowEngine/Messages/Numbered.antt =====
-- `parseNumberedResponse`: the number that a contact answers on a platform without buttons.
pub mod Laws
use zernflow.Base.{
  ℕ, zero, suc, ◌+◌, ◌-◌, ◌*◌, ◌/◌, ◌%◌, ◌≤◌, ◌<◌, ◌≡◌, refl, ap, ◌∙◌, Bool, true, false, ◌&&◌,
  Option, none, some, List, [], ◌∷◌, ◌++◌, arith, if◌then◌else◌, leb, ltb, ◌==◌, All, All-append,
  length,
}
use mathlib.Core.Option
use zernflow.Base.Json.{Text, decimal, digits_of, trim, is_space}
use zernflow.FlowEngine.Types.{QuickReply}

abbrev pub is_digit : ℕ → Bool
is_digit c = leb b'0' c && leb c b'9'

-- The digits at the front, behind the number `acc` that was read before them.
unfoldable pub read_number : ℕ → Text → ℕ
read_number acc [] = acc
read_number acc (c ∷ cs) =
    let more = read_number (acc * 10 + (c - b'0')) cs in if is_digit c then more else acc

-- `parseInt(text, 10)`, where a negative number, which is refused in any case, is none.
unfoldable pub parse_unsigned : Text → Option ℕ
unfolding read_number
parse_unsigned [] = none
parse_unsigned (c ∷ cs) = if is_digit c then some (read_number 0 (c ∷ cs)) else none

unfoldable pub parse_int : Text → Option ℕ
unfolding parse_unsigned
parse_int [] = none
parse_int (c ∷ cs) = if c == b'+' then parse_unsigned cs else parse_unsigned (c ∷ cs)

abbrev pub get_elem? {ℓ} : {A : Type ℓ} → List A → ℕ → Option A
get_elem? [] i = none
get_elem? (x ∷ xs) zero = some x
get_elem? (x ∷ xs) (suc i) = get_elem? xs i

abbrev pub choice : Option ℕ → List QuickReply → Option Text
choice none options = none
choice (some zero) options = none
choice (some (suc i)) options = Option.map (λ q. q.payload) (get_elem? options i)

-- A number below one or above the number of options is refused.
unfoldable pub parse_numbered_response : Text → List QuickReply → Option Text
unfolding trim parse_int
parse_numbered_response text options = choice (parse_int (trim text)) options
