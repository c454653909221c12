-- ===== src/FlowEngine/Conditions/Laws.antt =====
-- The conditions of a node, as the engine and as the simulator decide them.
use zernflow.Base.{
  ℕ, ◌≡◌, ◌≢◌, refl, ap, ◌∙◌, inl, inr, Bool, true, false, ◌||◌, Option, none, some, List, [], ◌∷◌,
  map, any, all, ◌&&◌, find, if◌then◌else◌, All, Bool-cases, or_else, drop,
}
use mathlib.Core.Option
use zernflow.Base.Json.{Text, Json, str, Number, codes, text_eq}
use zernflow.FlowEngine.Types.{
  Condition, Operator, equals, not_equals, contains, exists, gt, lt, other_operator, instagram,
}
use zernflow.FlowEngine.Interpolate.{variable}
use zernflow.FlowEngine.Conditions.{
  Contact, evaluate_condition, evaluate_all, decide, is_name, second, engine_field,
}
use zernflow.FlowEngine.Conditions.Simulated.{
  MockContact, found, given, TextVariables, as_json, text_variable, simulator_field,
  simulate_condition, simulate_decide,
}

-- The contact of which the mock gives the tags, the fields and the subscription.
abbrev pub contact_of : ℕ → MockContact → Contact
contact_of id mock = record {
  id = id;
  is_subscribed = or_else mock.is_subscribed true;
  tags = map some (given mock.tags);
  custom_fields = map (λ f. (some f.0, f.1)) (given mock.custom_fields);
}

any-named :
    (wanted : Text) (tags : List Text)
    → any (is_name wanted) (map some tags) ≡ any (λ t. text_eq t wanted) tags
any-named wanted [] = refl
any-named wanted (t ∷ ts) = ap (λ b. text_eq t wanted || b) (any-named wanted ts)

find-named :
    (wanted : Text) (fs : List (Text × Text))
    → second (find (λ f. is_name wanted f.0) (map (λ f. (some f.0, f.1)) fs))
      ≡ Option.map str (found (find (λ f. text_eq f.0 wanted) fs))
find-named wanted [] = refl
find-named wanted (f ∷ fs) = elim (Bool-cases (text_eq f.0 wanted)) [
  | inl same ↦ rw same
  | inr other ↦ rw other (find-named wanted fs)
]

variable-as_json :
    (k : Text) (vs : TextVariables) → variable k (as_json vs) ≡ Option.map str (text_variable k vs)
variable-as_json k [] = refl
variable-as_json k (v ∷ vs) = elim (Bool-cases (text_eq v.0 k)) [
  | inl same ↦ rw same
  | inr other ↦ rw other (variable-as_json k vs)
]

any-map : (f : Condition → Bool) (cs : List Condition) → any (λ b. b) (map f cs) ≡ any f cs
any-map f [] = refl
any-map f (c ∷ cs) = ap (λ b. f c || b) (any-map f cs)

all-map : (f : Condition → Bool) (cs : List Condition) → all (λ b. b) (map f cs) ≡ all f cs
all-map f [] = refl
all-map f (c ∷ cs) = ap (λ b. f c && b) (all-map f cs)

map-if :
    (b : Bool) (x y : Option Text)
    → Option.map str (if b then x else y) ≡ (if b then Option.map str x else Option.map str y)
map-if true x y = refl
map-if false x y = refl

field-mirrored :
    (id : ℕ) (mock : MockContact) (vs : TextVariables) (field value : Text)
    → text_eq field (codes "has_tag") ≡ false
    → engine_field (contact_of id mock) (some instagram) (as_json vs) field value
      ≡ Option.map str (simulator_field mock vs field value)
unfolding engine_field simulator_field
field-mirrored id mock vs field value known = rw (
  known,
  any-named (drop 4 field) (given mock.tags),
  find-named field (given mock.custom_fields),
  variable-as_json (drop 9 field) vs,
  map-if,
  map-if,
  map-if,
  map-if,
  map-if,
)

module _ (to_number : Option Json → Number) where
  evaluate_condition-mirrored :
      (actual : Option Text) (operator : Operator) (expected : Text)
      → evaluate_condition to_number (Option.map str actual) operator expected
        ≡ some (simulate_condition to_number actual operator expected)
  unfolding evaluate_condition simulate_condition
  evaluate_condition-mirrored none equals expected = refl
  evaluate_condition-mirrored (some t) equals expected = refl
  evaluate_condition-mirrored none not_equals expected = refl
  evaluate_condition-mirrored (some t) not_equals expected = refl
  evaluate_condition-mirrored none contains expected = refl
  evaluate_condition-mirrored (some t) contains expected = refl
  evaluate_condition-mirrored none exists expected = refl
  evaluate_condition-mirrored (some []) exists expected = refl
  evaluate_condition-mirrored (some (c ∷ cs)) exists expected = refl
  evaluate_condition-mirrored none gt expected = refl
  evaluate_condition-mirrored (some t) gt expected = refl
  evaluate_condition-mirrored none lt expected = refl
  evaluate_condition-mirrored (some t) lt expected = refl
  evaluate_condition-mirrored none other_operator expected = refl
  evaluate_condition-mirrored (some t) other_operator expected = refl

  -- What a condition is in a simulation.
  abbrev pub simulated : MockContact → TextVariables → Condition → Bool
  simulated mock vs c =
      simulate_condition to_number (simulator_field mock vs c.field c.value) c.operator c.value

  module _ (id : ℕ) (mock : MockContact) (vs : TextVariables) where
    evaluated :
        (c : Condition)
        → text_eq c.field (codes "has_tag") ≡ false
        → evaluate_condition to_number
            (engine_field (contact_of id mock) (some instagram) (as_json vs) c.field c.value)
            c.operator
            c.value
          ≡ some (simulated mock vs c)
    evaluated c known =
        ap (λ v. evaluate_condition to_number v c.operator c.value)
          (field-mirrored id mock vs c.field c.value known)
        ∙ evaluate_condition-mirrored (simulator_field mock vs c.field c.value) c.operator c.value

    evaluate_all-mirrored :
        (cs : List Condition)
        → All (λ c. text_eq c.field (codes "has_tag") ≡ false) cs
        → evaluate_all to_number
            (engine_field (contact_of id mock) (some instagram) (as_json vs))
            cs
          ≡ some (map (simulated mock vs) cs)
    unfolding evaluate_all
    evaluate_all-mirrored [] known = refl
    evaluate_all-mirrored (c ∷ cs) known =
        rw (evaluated c known.0, evaluate_all-mirrored cs known.1) refl

    -- For a contact on Instagram with the tags, the custom fields and the subscription of the mock,
    -- and variables that are texts: where a node has a logic, and no condition is on the field
    -- `has_tag`, which only the simulator knows, the engine's decision does not throw and is the
    -- simulator's. (Without a logic the engine asks for some of the conditions, the simulator for
    -- all.)
    pub decide-mirrored :
        (logic : Text) (cs : List Condition)
        → logic ≢ []
        → All (λ c. text_eq c.field (codes "has_tag") ≡ false) cs
        → decide to_number
            (engine_field (contact_of id mock) (some instagram) (as_json vs))
            (some logic)
            cs
          ≡ some (simulate_decide to_number mock vs (some logic) cs)
    unfolding decide simulate_decide
    decide-mirrored [] cs given known = absurd (given refl)
    decide-mirrored (l ∷ ls) cs given known = rw (evaluate_all-mirrored cs known) refl

    -- For the same contacts, variables and conditions, where a node has no logic: if one of the
    -- conditions holds in the simulation and another one does not, the engine goes on as for
    -- conditions that hold, and the simulator as for conditions that do not.
    pub decide-parts :
        (cs : List Condition)
        → All (λ c. text_eq c.field (codes "has_tag") ≡ false) cs
        → any (simulated mock vs) cs ≡ true
        → all (simulated mock vs) cs ≡ false
        → (decide to_number
              (engine_field (contact_of id mock) (some instagram) (as_json vs))
              none
              cs
            ≡ some true)
          × (simulate_decide to_number mock vs none cs ≡ false)
    unfolding decide simulate_decide
    decide-parts cs known one not_all = (
      rw (evaluate_all-mirrored cs known, any-map (simulated mock vs) cs, one) refl,
      rw (all-map (simulated mock vs) cs, not_all) refl,
    )
