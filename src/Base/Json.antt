-- ===== src/Base/Json.antt =====
-- The values of the language that the program reads without knowing their type.
use package.zernflow.Base.Tests.{if◌then◌else◌, ltb, leb, ◌==◌}
use package.zernflow.Base.Int.{ℤ, pos, negsuc}
use Prim.Native.Nat.{ℕ, zero, suc, ◌+◌, ◌/◌, ◌%◌}
use Prim.Native.String.{String}
use mathlib.Core.Bool.{Bool, true, false, not, ◌&&◌, ◌||◌}
use mathlib.Core.List.{List, [], ◌∷◌, ◌++◌, reverse}
use mathlib.Core.Option.{Option, none, some}
use Prim.Native.Char.{code}
use text.Mathlib.Text.{◌==◌ as str_eq}
use mathlib.Core.Path.{◌≡◌, refl}
use native.Mathlib.Omega.{arith}

-- A text is the list of its UTF-16 code units, as `length` and `slice` count them.
abbrev pub Text : Type 0
Text = List ℕ

-- `ratio z d` is z / (d + 1): every finite `number` is such a fraction.
pub data Number : Type 0 where
  not_a_number infinity negative_infinity : Number
  ratio : ℤ → ℕ → Number

mutual
  pub data Json : Type 0 where
    null : Json
    bool : Bool → Json
    num : Number → Json
    str : Text → Json
    arr : Items → Json
    obj : Fields → Json

  pub data Items : Type 0 where
    nil : Items
    cons : Json → Items → Items

  pub data Fields : Type 0 where
    end : Fields
    field : String → Json → Fields → Fields

-- `fields.key`; `none` is `undefined`. An object has its names once.
abbrev pub get : String → Fields → Option Json
get k end = none
get k (field j v fs) = if str_eq j k then some v else get k fs

-- `Math.floor`.
abbrev pub floor : ℤ → ℕ → ℤ
floor (pos n) d = pos (n / suc d)
floor (negsuc n) d = negsuc (n / suc d)

-- The code units of a literal of ASCII characters.
abbrev pub codes : String → Text
codes String.[] = []
codes (String.◌∷◌ c s) = code c ∷ codes s

-- `a === b` and `a.startsWith(b)` on texts.
abbrev pub text_eq : Text → Text → Bool
text_eq [] [] = true
text_eq (a ∷ s) (b ∷ t) = a == b && text_eq s t
text_eq _ _ = false

abbrev pub starts_with : Text → Text → Bool
starts_with text [] = true
starts_with [] (b ∷ t) = false
starts_with (a ∷ s) (b ∷ t) = a == b && starts_with s t

-- `typeof v === "string" ? v : null`
abbrev pub as_text : Option Json → Option Text
as_text (some (str t)) = some t
as_text _ = none

-- The fields of an object; a list, as the program reads it, has none of the fields it asks for.
abbrev pub fields_of : Json → Fields
fields_of (obj fs) = fs
fields_of _ = end

abbrev pub items_of : Option Json → Items
items_of (some (arr items)) = items
items_of _ = nil

-- `v ? … : …`
abbrev pub truthy : Option Json → Bool
truthy none = false
truthy (some null) = false
truthy (some (bool b)) = b
truthy (some (num not_a_number)) = false
truthy (some (num (ratio (pos n) d))) = not (n == 0)
truthy (some (num _)) = true
truthy (some (str [])) = false
truthy (some (str (_ ∷ _))) = true
truthy (some (arr _)) = true
truthy (some (obj _)) = true

-- `String(n)`: the digits of a number; fuel `n` is enough, since every step divides by ten.
unfoldable pub digits_of : ℕ → ℕ → Text
digits_of zero n = (b'0' + n) ∷ []
digits_of (suc fuel) n =
    let rest = digits_of fuel (n / 10) ++ (b'0' + n % 10) ∷ [] in
    if ltb n 10 then (b'0' + n) ∷ [] else rest

unfoldable pub decimal : ℕ → Text
unfolding digits_of
decimal n = digits_of n n

-- `\s`, and what `trim` removes.
abbrev pub is_space : ℕ → Bool
is_space c =
    (leb 9 c && leb c 13)
    || c == 0x20
    || c == 0xa0
    || c == 0x1680
    || (leb 0x2000 c && leb c 0x200a)
    || c == 0x2028
    || c == 0x2029
    || c == 0x202f
    || c == 0x205f
    || c == 0x3000
    || c == 0xfeff

unfoldable pub trim_start : Text → Text
trim_start [] = []
trim_start (c ∷ cs) = let rest = trim_start cs in if is_space c then rest else c ∷ cs

unfoldable pub trim : Text → Text
unfolding trim_start
trim text = reverse (trim_start (reverse (trim_start text)))

pub text_eq_refl : (t : Text) → text_eq t t ≡ true
text_eq_refl [] = refl
text_eq_refl (c ∷ cs) = let rest = text_eq_refl cs in ground arith

pub text_eq-eq : (s t : Text) → text_eq s t ≡ true → s ≡ t
text_eq-eq [] [] e = refl
text_eq-eq [] (d ∷ ds) e = absurd (ground arith)
text_eq-eq (c ∷ cs) [] e = absurd (ground arith)
text_eq-eq (c ∷ cs) (d ∷ ds) e =
    let same = text_eq-eq cs ds (ground arith) in
    let head : c ≡ d = ground arith in rw (same, head) refl
