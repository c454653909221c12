-- ===== src/FlowEngine/Interpolate.antt =====
-- The three functions that put variables into a text: `interpolateVariables` of
-- lib/flow-engine/engine.ts, which `interpolate` of simulator.ts mirrors, and `interpolate` of
-- gateway-message.ts, which the messages of a flow go through.
pub mod Laws
use zernflow.Base.{
  ℕ, zero, suc, Bool, true, false, ◌&&◌, ◌||◌, Option, none, some, List, [], ◌∷◌, ◌++◌,
  if◌then◌else◌, leb, ◌==◌, take,
}
use zernflow.Base.Json.{
  Text, Json, null, bool, num, str, arr, obj, Number, ratio, Items, nil, cons, Fields, field, end,
  codes, text_eq, decimal, is_space,
}
use zernflow.Base.Int.{pos}
use zernflow.FlowEngine.Types.{Variables}

-- `text.replace(/…/g, …)`: the pattern answers what it captured and how many characters its match
-- has after the first; the scan goes on behind the match.
module _ {Captured : Type 0} (match_at : Text → Option (Captured × ℕ)) where
  unfoldable pub replace_from : (Captured → Text → Text) → ℕ → Text → Text
  replace_from value skipped [] = []
  replace_from value (suc n) (c ∷ cs) = replace_from value n cs
  replace_from value zero (c ∷ cs) = elim (match_at (c ∷ cs)) [
    | none ↦ c ∷ replace_from value zero cs
    | some (captured, more) ↦ value captured (c ∷ take more cs) ++ replace_from value more cs
  ]

  unfoldable pub replace_all : (Captured → Text → Text) → Text → Text
  replace_all value text = replace_from value 0 text

-- `\w`.
unfoldable pub is_word : ℕ → Bool
is_word c =
    leb b'a' c && leb c b'z' || leb b'A' c && leb c b'Z' || leb b'0' c && leb c b'9' || c == b'_'

pub data CharKind : Type 0 where
  word dot closing other_char : CharKind

unfoldable pub kind : ℕ → CharKind
unfolding is_word
kind c =
    if is_word c then word else if c == b'.' then dot else if c == b'}' then closing else other_char

-- One more character in front.
abbrev pub further : {A : Type 0} → Option (A × ℕ) → Option (A × ℕ)
further none = none
further (some (a, n)) = some (a, suc n)

abbrev pub segment : Text → Option (List Text × ℕ) → Option (List Text × ℕ)
segment key none = none
segment key (some (keys, n)) = some (key ∷ keys, suc n)

abbrev pub close_path : Text → Text → Option (List Text × ℕ)
close_path key [] = none
close_path key (c ∷ cs) = if c == b'}' then some (key ∷ [], 2) else none

-- The rest of `(\w+(?:\.\w+)*)\}\}`, behind the characters `key` of a segment.
unfoldable pub read_path : Text → Text → Option (List Text × ℕ)
unfolding kind
read_path key [] = none
read_path key (c ∷ cs) = elim (kind c) [
  | word ↦ further (read_path (key ++ c ∷ []) cs)
  | dot ↦ elim key [ [] ↦ none | k ∷ ks ↦ segment (k ∷ ks) (read_path [] cs) ]
  | closing ↦ elim key [ [] ↦ none | k ∷ ks ↦ close_path (k ∷ ks) cs ]
  | other_char ↦ none
]

-- `/\{\{(\w+(?:\.\w+)*)\}\}/`, with the keys of the path.
unfoldable pub path_at : Text → Option (List Text × ℕ)
unfolding read_path
path_at (a ∷ b ∷ rest) = if a == b'{' && b == b'{' then further (read_path [] rest) else none
path_at _ = none

-- `variables[key]` and `value[key]`, of the keys that were set: what every object inherits, such as
-- `constructor`, is left out.
abbrev pub variable : Text → Variables → Option Json
variable k [] = none
variable k ((j, v) ∷ vs) = if text_eq j k then some v else variable k vs

abbrev pub member : Text → Fields → Option Json
member k end = none
member k (field j v fs) = if text_eq (codes j) k then some v else member k fs

-- A list has its indices and its `length`.
abbrev pub list_member : Text → ℕ → Items → Option Json
list_member k i nil = if text_eq (codes "length") k then some (num (ratio (pos i) 0)) else none
list_member k i (cons v vs) = if text_eq (decimal i) k then some v else list_member k (suc i) vs

unfoldable pub resolve_keys : Option Json → List Text → Option Json
unfolding decimal
resolve_keys value [] = value
resolve_keys (some (obj fs)) (k ∷ ks) = resolve_keys (member k fs) ks
resolve_keys (some (arr items)) (k ∷ ks) = resolve_keys (list_member k 0 items) ks
resolve_keys _ (k ∷ ks) = none

unfoldable pub resolve_variable_path : Variables → List Text → Option Json
unfolding resolve_keys
resolve_variable_path variables [] = none
resolve_variable_path variables (k ∷ ks) = resolve_keys (variable k variables) ks

-- `String(value)` of a number and `JSON.stringify` of an object are parameters.
module _ (stringify : Json → Text) where
  abbrev pub shown : Option Json → Text → Text
  shown none token = token
  shown (some null) token = token
  shown (some (str t)) token = t
  shown (some (bool true)) token = codes "true"
  shown (some (bool false)) token = codes "false"
  shown (some (num n)) token = stringify (num n)
  shown (some (arr items)) token = stringify (arr items)
  shown (some (obj fs)) token = stringify (obj fs)

  unfoldable pub interpolate_variables : Variables → Text → Text
  unfolding path_at replace_all replace_from resolve_variable_path
  interpolate_variables variables text =
      replace_all path_at (λ keys token. shown (resolve_variable_path variables keys) token) text

-- The rest of `/\{\{\s*([\w.-]+)\s*\}\}/`: the spaces, the key, the spaces behind it, the braces.
unfoldable pub is_key_char : ℕ → Bool
unfolding is_word
is_key_char c = is_word c || c == b'.' || c == b'-'

abbrev pub close_key : Text → Text → Option (Text × ℕ)
close_key key (a ∷ b ∷ rest) = if a == b'}' && b == b'}' then some (key, 2) else none
close_key key _ = none

unfoldable pub after_key : Text → Text → Option (Text × ℕ)
after_key key [] = none
after_key key (c ∷ cs) = elim (is_space c) [
  | true ↦ further (after_key key cs)
  | false ↦ close_key key (c ∷ cs)
]

unfoldable pub read_key : Text → Text → Option (Text × ℕ)
unfolding after_key is_key_char
read_key key [] = none
read_key key (c ∷ cs) = elim (is_key_char c) [
  | true ↦ further (read_key (key ++ c ∷ []) cs)
  | false ↦ elim key [ [] ↦ none | k ∷ ks ↦ after_key (k ∷ ks) (c ∷ cs) ]
]

unfoldable pub before_key : Text → Option (Text × ℕ)
unfolding read_key
before_key [] = none
before_key (c ∷ cs) = elim (is_space c) [
  | true ↦ further (before_key cs)
  | false ↦ read_key [] (c ∷ cs)
]

unfoldable pub key_at : Text → Option (Text × ℕ)
unfolding before_key
key_at (a ∷ b ∷ rest) = if a == b'{' && b == b'{' then further (before_key rest) else none
key_at _ = none

-- `variables[key] ?? ""`: `replace` makes a text of what is not one.
module _ (to_text : Json → Text) where
  abbrev pub or_empty : Option Json → Text
  or_empty none = []
  or_empty (some null) = []
  or_empty (some (str t)) = t
  or_empty (some value) = to_text value

  -- `interpolate` of gateway-message.ts.
  unfoldable pub interpolate : Variables → Text → Text
  unfolding key_at replace_all replace_from
  interpolate variables text =
      replace_all key_at (λ key token. or_empty (variable key variables)) text
