-- ===== src/FlowEngine/Conditions/Simulated.antt =====
-- The conditions of a node in simulator.ts: its own `evaluateCondition`, of texts only, and what a
-- simulation reads for a field of its mock contact.
use zernflow.Base.{
  Bool, true, false, not, Option, none, some, List, [], ◌∷◌, if◌then◌else◌, any, map, find, drop,
  or_else,
}
use mathlib.Core.Option
use zernflow.Base.Json.{Text, Json, str, Number, codes, text_eq, starts_with}
use zernflow.FlowEngine.Types.{
  Condition, Operator, equals, not_equals, contains, exists, gt, lt, other_operator, Variables,
}
use zernflow.FlowEngine.Triggers.{includes}
use zernflow.FlowEngine.Messages.{nonempty}
use zernflow.FlowEngine.Conditions.{less, bool_text, combine}

pub record MockContact : Type 0 where
  pub tags : Option (List Text)
  pub custom_fields : Option (List (Text × Text))
  pub is_subscribed : Option Bool

abbrev pub given {ℓ} : {A : Type ℓ} → Option (List A) → List A
given none = []
given (some xs) = xs

abbrev pub mock_tag : Option (List Text) → Text → Text
mock_tag tags wanted = bool_text (any (λ t. text_eq t wanted) (given tags))

abbrev pub found : Option (Text × Text) → Option Text
found none = none
found (some (key, value)) = some value

-- `variables: Record<string, string>`, with the keys that are put into it; inherited ones are left
-- out, as for the custom fields.
abbrev pub TextVariables : Type 0
TextVariables = List (Text × Text)

-- The same variables for the functions that take any.
abbrev pub as_json : TextVariables → Variables
as_json vs = map (λ v. (v.0, str v.1)) vs

abbrev pub text_variable : Text → TextVariables → Option Text
text_variable k [] = none
text_variable k ((j, v) ∷ vs) = if text_eq j k then some v else text_variable k vs

-- What the simulator reads: its platform is fixed, and it knows one more field.
unfoldable pub simulator_field : MockContact → TextVariables → Text → Text → Option Text
simulator_field contact variables field value =
    if text_eq field (codes "platform")
    then some (codes "instagram")
    else if text_eq field (codes "is_subscribed")
    then some (bool_text (or_else contact.is_subscribed true))
    else if starts_with field (codes "tag:")
    then some (mock_tag contact.tags (drop 4 field))
    else if text_eq field (codes "has_tag")
    then some (mock_tag contact.tags value)
    else if starts_with field (codes "variable:")
    then text_variable (drop 9 field) variables
    else found (find (λ f. text_eq f.0 field) (given contact.custom_fields))

-- `(data.logic || "and") === "and"`: here a missing logic is that of all the conditions.
abbrev pub is_and_logic : Option Text → Bool
is_and_logic logic = text_eq (or_else (nonempty logic) (codes "and")) (codes "and")

module _ (to_number : Option Json → Number) where
  unfoldable pub simulate_condition : Option Text → Operator → Text → Bool
  simulate_condition none equals expected = false
  simulate_condition (some actual) equals expected = text_eq actual expected
  simulate_condition none not_equals expected = true
  simulate_condition (some actual) not_equals expected = not (text_eq actual expected)
  simulate_condition none contains expected = false
  simulate_condition (some actual) contains expected = includes actual expected
  simulate_condition none exists expected = false
  simulate_condition (some []) exists expected = false
  simulate_condition (some (c ∷ cs)) exists expected = true
  simulate_condition actual gt expected =
      less (to_number (some (str expected))) (to_number (Option.map str actual))
  simulate_condition actual lt expected =
      less (to_number (Option.map str actual)) (to_number (some (str expected)))
  simulate_condition actual other_operator expected = false

  unfoldable pub simulate_decide : MockContact → TextVariables → Option Text → List Condition → Bool
  unfolding simulate_condition simulator_field
  simulate_decide contact variables logic conditions = combine (is_and_logic logic) (
      map
        (λ c.
          simulate_condition (simulator_field contact variables c.field c.value) c.operator c.value)
        conditions)
