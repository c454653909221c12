-- ===== src/FlowEngine/Conditions.antt =====
-- The conditions of a node in engine.ts: `evaluateCondition`, and what `executeCondition` reads for a
-- field. Simulated has those of the simulator.
pub mod Simulated
pub mod Laws
use zernflow.Base.{
  ℕ, suc, ◌-◌, ◌*◌, Bool, true, false, not, ◌||◌, Option, none, some, List, [], ◌∷◌, if◌then◌else◌,
  ltb, any, all, find, drop, or_else,
}
use mathlib.Core.Option
use zernflow.Base.Int.{ℤ, pos, negsuc}
use zernflow.Base.Json.{
  Text, Json, null, str, arr, Items, nil, cons, Number, not_a_number, infinity, negative_infinity,
  ratio, codes, text_eq, starts_with,
}
use zernflow.FlowEngine.Types.{
  Condition, Operator, equals, not_equals, contains, exists, gt, lt, other_operator, Platform,
  facebook, instagram, twitter, telegram, bluesky, reddit, whatsapp, threads, linkedin, tiktok,
  youtube, Variables,
}
use zernflow.FlowEngine.Triggers.{includes}
use zernflow.FlowEngine.Interpolate.{variable}

-- `a < b` of fractions, by their numerators over the common denominator.
abbrev times : ℤ → ℕ → ℤ
times (pos n) k = pos (n * k)
times (negsuc n) k = negsuc (suc n * k - 1)

abbrev ltb_int : ℤ → ℤ → Bool
ltb_int (pos a) (pos b) = ltb a b
ltb_int (pos a) (negsuc b) = false
ltb_int (negsuc a) (pos b) = true
ltb_int (negsuc a) (negsuc b) = ltb b a

abbrev pub less : Number → Number → Bool
less not_a_number _ = false
less negative_infinity not_a_number = false
less negative_infinity negative_infinity = false
less negative_infinity _ = true
less infinity _ = false
less (ratio a d) infinity = true
less (ratio a d) (ratio b e) = ltb_int (times a (suc e)) (times b (suc d))
less (ratio a d) _ = false

abbrev bool_text : Bool → Text
bool_text b = if b then codes "true" else codes "false"

abbrev pub holds_item : Text → Items → Bool
holds_item expected nil = false
holds_item expected (cons (str t) rest) = text_eq t expected || holds_item expected rest
holds_item expected (cons _ rest) = holds_item expected rest

-- `data.logic === "and"`
abbrev pub is_and : Option Text → Bool
is_and none = false
is_and (some logic) = text_eq logic (codes "and")

abbrev pub combine : Bool → List Bool → Bool
combine true results = all (λ b. b) results
combine false results = any (λ b. b) results

-- `actual` is a variable of any type, or `undefined`. The answer is none where `includes` is not a
-- function of it and the evaluation throws. `Number` is a parameter.
module _ (to_number : Option Json → Number) where
  unfoldable pub evaluate_condition : Option Json → Operator → Text → Option Bool
  evaluate_condition (some (str actual)) equals expected = some (text_eq actual expected)
  evaluate_condition _ equals expected = some false
  evaluate_condition (some (str actual)) not_equals expected = some (not (text_eq actual expected))
  evaluate_condition _ not_equals expected = some true
  evaluate_condition none contains expected = some false
  evaluate_condition (some null) contains expected = some false
  evaluate_condition (some (str actual)) contains expected = some (includes actual expected)
  evaluate_condition (some (arr items)) contains expected = some (holds_item expected items)
  evaluate_condition _ contains expected = none
  evaluate_condition none exists expected = some false
  evaluate_condition (some null) exists expected = some false
  evaluate_condition (some (str [])) exists expected = some false
  evaluate_condition (some _) exists expected = some true
  evaluate_condition actual gt expected =
      some (less (to_number (some (str expected))) (to_number actual))
  evaluate_condition actual lt expected =
      some (less (to_number actual) (to_number (some (str expected))))
  evaluate_condition actual other_operator expected = some false

  -- `conditions.map(…)`: one evaluation that throws ends them all.
  abbrev pub prepend : Option Bool → Option (List Bool) → Option (List Bool)
  prepend none results = none
  prepend (some result) results = Option.map (λ rs. result ∷ rs) results

  unfoldable pub evaluate_all : (Text → Text → Option Json) → List Condition → Option (List Bool)
  unfolding evaluate_condition
  evaluate_all read [] = some []
  evaluate_all read (c ∷ cs) =
      prepend (evaluate_condition (read c.field c.value) c.operator c.value) (evaluate_all read cs)

  unfoldable pub decide : (Text → Text → Option Json) → Option Text → List Condition → Option Bool
  unfolding evaluate_all
  decide read logic conditions = Option.map (combine (is_and logic)) (evaluate_all read conditions)

-- The contact with its tags and custom fields, whose joined rows may be missing.
pub record Contact : Type 0 where
  pub id : ℕ
  pub is_subscribed : Bool
  pub tags : List (Option Text)
  pub custom_fields : List (Option Text × Text)

abbrev pub is_name : Text → Option Text → Bool
is_name wanted none = false
is_name wanted (some name) = text_eq name wanted

abbrev pub platform_name : Platform → Text
platform_name facebook = codes "facebook"
platform_name instagram = codes "instagram"
platform_name twitter = codes "twitter"
platform_name telegram = codes "telegram"
platform_name bluesky = codes "bluesky"
platform_name reddit = codes "reddit"
platform_name whatsapp = codes "whatsapp"
platform_name threads = codes "threads"
platform_name linkedin = codes "linkedin"
platform_name tiktok = codes "tiktok"
platform_name youtube = codes "youtube"

abbrev pub second : Option (Option Text × Text) → Option Json
second none = none
second (some (slug, value)) = some (str value)

-- What the engine reads for a field; the value of the condition plays no part.
unfoldable pub engine_field : Contact → Option Platform → Variables → Text → Text → Option Json
engine_field contact platform variables field value =
    if text_eq field (codes "platform")
    then Option.map (λ p. str (platform_name p)) platform
    else if text_eq field (codes "is_subscribed")
    then some (str (bool_text contact.is_subscribed))
    else if starts_with field (codes "tag:")
    then some (str (bool_text (any (is_name (drop 4 field)) contact.tags)))
    else if starts_with field (codes "variable:")
    then variable (drop 9 field) variables
    else second (find (λ f. is_name field f.0) contact.custom_fields)
