-- ===== src/FlowEngine/Interpolate/Laws.antt =====
-- The scan of a text for tokens, and tokens of variables that are not set.
use zernflow.Base.{
  ℕ, zero, suc, ◌+◌, ◌≤◌, ◌≡◌, refl, ap, ◌∙◌, ◌⊎◌, inl, inr, true, false, Option, none, some, List,
  [], ◌∷◌, ◌++◌, arith, take, length, All, Option-cases, length-append,
}
use mathlib.Core.List.{append-nil, append_assoc}
use zernflow.Base.Json.{Text, Json, null, is_space}
use zernflow.FlowEngine.Types.{Variables}
use zernflow.FlowEngine.Interpolate.{
  replace_from, replace_all, is_word, word, kind, further, read_path, path_at, variable,
  resolve_keys, resolve_variable_path, shown, interpolate_variables, is_key_char, after_key,
  read_key, before_key, key_at, or_empty, interpolate,
}

abbrev IsUnset : Option Json → Type 0
IsUnset value = (value ≡ none) ⊎ (value ≡ some null)

behind : ℕ → Text → Text
behind n [] = []
behind (suc n) (c ∷ cs) = behind n cs
behind zero (c ∷ cs) = c ∷ cs

take-behind : (n : ℕ) (cs : Text) → take n cs ++ behind n cs ≡ cs
unfolding behind
take-behind zero [] = refl
take-behind (suc n) [] = refl
take-behind zero (c ∷ cs) = refl
take-behind (suc n) (c ∷ cs) = ap (λ t. c ∷ t) (take-behind n cs)

behind_zero : (cs : Text) → behind 0 cs ≡ cs
unfolding behind
behind_zero [] = refl
behind_zero (c ∷ cs) = refl

take_all : (cs : Text) → take (length cs) cs ≡ cs
take_all [] = refl
take_all (c ∷ cs) = ap (λ t. c ∷ t) (take_all cs)

module _ {Captured : Type 0} (match_at : Text → Option (Captured × ℕ))
    (value : Captured → Text → Text) where
  -- A replacement by the match itself is none.
  replace_from-same :
      ((a : Captured) (token : Text) → value a token ≡ token)
      → (n : ℕ) (text : Text) → replace_from match_at value n text ≡ behind n text
  unfolding replace_from behind
  replace_from-same same n [] = refl
  replace_from-same same (suc n) (c ∷ cs) = replace_from-same same n cs
  replace_from-same same zero (c ∷ cs) = elim (Option-cases (match_at (c ∷ cs))) [
    | inl e ↦ rw (e, replace_from) (ap (λ t. c ∷ t) (replace_from-same same 0 cs ∙ behind_zero cs))
    | inr ((a, more), e) ↦
        rw (e, replace_from, same a (c ∷ take more cs), replace_from-same same more cs)
          (ap (λ t. c ∷ t) (take-behind more cs))
  ]

  replace_from-past :
      (n : ℕ) (text : Text) → length text ≤ n → replace_from match_at value n text ≡ []
  unfolding replace_from
  replace_from-past n [] h = refl
  replace_from-past zero (c ∷ cs) h = absurd (omega arith)
  replace_from-past (suc n) (c ∷ cs) h = replace_from-past n cs (omega arith)

  -- A match of the whole text.
  replace_all-whole :
      (c : ℕ) (cs : Text) (a : Captured)
      → match_at (c ∷ cs) ≡ some (a, length cs)
      → replace_all match_at value (c ∷ cs) ≡ value a (c ∷ cs)
  unfolding replace_all replace_from
  replace_all-whole c cs a e =
      rw (e, replace_from, take_all cs, replace_from-past (length cs) cs (omega arith))
        (append-nil (value a (c ∷ cs)))

resolve_keys-IsUnset : (ks : List Text) (v : Option Json) → IsUnset v → IsUnset (resolve_keys v ks)
unfolding resolve_keys
resolve_keys-IsUnset [] v u = u
resolve_keys-IsUnset (k ∷ ks) v (inl e) = rw e (inl refl)
resolve_keys-IsUnset (k ∷ ks) v (inr e) = rw e (inl refl)

shown-unset :
    (stringify : Json → Text) (v : Option Json) (token : Text)
    → IsUnset v
    → shown stringify v token ≡ token
shown-unset stringify v token (inl e) = rw e
shown-unset stringify v token (inr e) = rw e

or_empty-unset : (to_text : Json → Text) (v : Option Json) → IsUnset v → or_empty to_text v ≡ []
or_empty-unset to_text v (inl e) = rw e
or_empty-unset to_text v (inr e) = rw e

resolve-IsUnset :
    (vs : Variables) (keys : List Text)
    → ((k : Text) → IsUnset (variable k vs))
    → IsUnset (resolve_variable_path vs keys)
unfolding resolve_variable_path
resolve-IsUnset vs [] u = inl refl
resolve-IsUnset vs (k ∷ ks) u = resolve_keys-IsUnset ks (variable k vs) (u k)

-- Where no variable is set, the engine leaves every text as it is.
pub interpolate_variables-unset :
    (stringify : Json → Text) (vs : Variables) (text : Text)
    → ((k : Text) → IsUnset (variable k vs))
    → interpolate_variables stringify vs text ≡ text
unfolding interpolate_variables replace_all
interpolate_variables-unset stringify vs text u =
    replace_from-same path_at _
      (λ keys token.
        shown-unset stringify (resolve_variable_path vs keys) token (resolve-IsUnset vs keys u))
      0 text
    ∙ behind_zero text

-- The text `{{name}}`.
abbrev pub token_of : Text → Text
token_of name = b'{' ∷ b'{' ∷ name ++ b'}' ∷ b'}' ∷ []

abbrev pub IsWord : ℕ → Type 0
IsWord c = is_word c ≡ true

kind-word : (c : ℕ) → IsWord c → kind c ≡ word
unfolding kind
kind-word c h = rw h

read_path-word :
    (k : ℕ) (ks name : Text) {n : ℕ}
    → All IsWord name
    → n ≡ length name + 2
    → read_path (k ∷ ks) (name ++ b'}' ∷ b'}' ∷ []) ≡ some ((k ∷ ks ++ name) ∷ [], n)
unfolding read_path kind is_word
read_path-word k ks [] h e = rw (append-nil ks, e)
read_path-word k ks (c ∷ cs) h e =
    rw
      (
        kind-word c h.0,
        read_path,
        read_path-word k (ks ++ c ∷ []) cs h.1 refl,
        append_assoc ks (c ∷ []) cs,
      )
      (ap (λ m. some ((k ∷ ks ++ c ∷ cs) ∷ [], m)) (omega (arith, e)))

key_char-word : (c : ℕ) → IsWord c → is_key_char c ≡ true
unfolding is_key_char
key_char-word c h = rw h

not_space-word : (c : ℕ) → IsWord c → is_space c ≡ false
unfolding is_word
not_space-word c h = ground arith

read_key-word :
    (k : ℕ) (ks name : Text) {n : ℕ}
    → All IsWord name
    → n ≡ length name + 2
    → read_key (k ∷ ks) (name ++ b'}' ∷ b'}' ∷ []) ≡ some (k ∷ ks ++ name, n)
unfolding read_key after_key is_key_char is_word
read_key-word k ks [] h e = rw (append-nil ks, e)
read_key-word k ks (c ∷ cs) h e =
    rw
      (
        key_char-word c h.0,
        read_key,
        read_key-word k (ks ++ c ∷ []) cs h.1 refl,
        append_assoc ks (c ∷ []) cs,
      )
      (ap (λ m. some (k ∷ ks ++ c ∷ cs, m)) (omega (arith, e)))

read_path-start :
    (c : ℕ) (cs : Text) {n : ℕ}
    → All IsWord (c ∷ cs)
    → n ≡ length cs + 3
    → read_path [] ((c ∷ cs) ++ b'}' ∷ b'}' ∷ []) ≡ some ((c ∷ cs) ∷ [], n)
unfolding read_path kind is_word
read_path-start c cs h e =
    rw (kind-word c h.0, read_path, read_path-word c [] cs h.1 refl)
      (ap (λ m. some ((c ∷ cs) ∷ [], m)) (omega (arith, e)))

before_key-start :
    (c : ℕ) (cs : Text) {n : ℕ}
    → All IsWord (c ∷ cs)
    → n ≡ length cs + 3
    → before_key ((c ∷ cs) ++ b'}' ∷ b'}' ∷ []) ≡ some (c ∷ cs, n)
unfolding before_key read_key is_key_char is_word
before_key-start c cs h e =
    rw
      (
        not_space-word c h.0,
        before_key,
        key_char-word c h.0,
        read_key,
        read_key-word c [] cs h.1 refl,
      )
      (ap (λ m. some (c ∷ cs, m)) (omega (arith, e)))

token_length : (cs : Text) → length (cs ++ b'}' ∷ b'}' ∷ []) ≡ length cs + 2
token_length cs = length-append cs (b'}' ∷ b'}' ∷ [])

path_at-token :
    (c : ℕ) (cs : Text)
    → All IsWord (c ∷ cs)
    → path_at (token_of (c ∷ cs))
      ≡ some ((c ∷ cs) ∷ [], length (b'{' ∷ (c ∷ cs) ++ b'}' ∷ b'}' ∷ []))
unfolding path_at
path_at-token c cs h =
    ap further (read_path-start c cs h refl)
    ∙ ap (λ m. some ((c ∷ cs) ∷ [], m)) (omega (arith, token_length cs))

key_at-token :
    (c : ℕ) (cs : Text)
    → All IsWord (c ∷ cs)
    → key_at (token_of (c ∷ cs)) ≡ some (c ∷ cs, length (b'{' ∷ (c ∷ cs) ++ b'}' ∷ b'}' ∷ []))
unfolding key_at
key_at-token c cs h =
    ap further (before_key-start c cs h refl)
    ∙ ap (λ m. some (c ∷ cs, m)) (omega (arith, token_length cs))

-- A token whose variable is not set: the engine and the simulator leave it in the text, and the
-- messages that a flow sends have nothing in its place.
pub interpolate_differs :
    (stringify to_text : Json → Text) (vs : Variables) (c : ℕ) (cs : Text)
    → All IsWord (c ∷ cs)
    → IsUnset (variable (c ∷ cs) vs)
    → (interpolate_variables stringify vs (token_of (c ∷ cs)) ≡ token_of (c ∷ cs))
      × (interpolate to_text vs (token_of (c ∷ cs)) ≡ [])
unfolding interpolate_variables interpolate resolve_variable_path resolve_keys
interpolate_differs stringify to_text vs c cs h u = (
  replace_all-whole path_at (λ keys token. shown stringify (resolve_variable_path vs keys) token)
        b'{' (b'{' ∷ (c ∷ cs) ++ b'}' ∷ b'}' ∷ []) ((c ∷ cs) ∷ []) (path_at-token c cs h)
      ∙ shown-unset stringify (variable (c ∷ cs) vs) (token_of (c ∷ cs)) u,
  replace_all-whole key_at (λ key token. or_empty to_text (variable key vs)) b'{'
        (b'{' ∷ (c ∷ cs) ++ b'}' ∷ b'}' ∷ []) (c ∷ cs) (key_at-token c cs h)
      ∙ or_empty-unset to_text (variable (c ∷ cs) vs) u,
)
