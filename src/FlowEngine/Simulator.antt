-- ===== src/FlowEngine/Simulator.antt =====
-- lib/flow-engine/simulator.ts: the dry run of a flow, which reads the data of the nodes as they are
-- stored. Run has the loop over the nodes. Labels are left out, and a condition stands for the text
-- that shows it. Identifiers are numbers; `toLowerCase`, `JSON.stringify`, `Number` and the random
-- numbers, which are fractions, are parameters.
pub mod Run
pub mod Edges
pub mod Shown
pub mod Walk
pub mod Ends
mod Tests
use zernflow.Base.{
  ℕ, zero, suc, Bool, true, false, not, ◌&&◌, ◌||◌, Option, none, some, List, [], ◌∷◌, ◌++◌, map,
  filter, any, find, if◌then◌else◌, ◌==◌, or_else,
}
use zernflow.Base.Json.{Text, Json, str, Number, codes, text_eq}
use zernflow.FlowEngine.Types.{Condition, SplitPath, FlowEdge}
use zernflow.FlowEngine.Triggers.{includes}
use zernflow.FlowEngine.Interpolate.{interpolate_variables}
use zernflow.FlowEngine.Conditions.Simulated.{
  MockContact, given, TextVariables, as_json, simulate_decide,
}
use zernflow.FlowEngine.Split.{split}
use zernflow.FlowEngine.Messages.{nonempty}

-- An old flow has its keywords as texts.
pub data RawKeyword : Type 0 where
  plain_keyword : Text → RawKeyword
  keyword_object : Option Text → RawKeyword

pub data StoredData : Type 0 where
  trigger : Option Text → Option (List RawKeyword) → StoredData
  send_message : Option (List (Option Text)) → Option (List Text) → Option (List Text) → StoredData
  condition : Option (List Condition) → Option Text → StoredData
  delay : Option ℕ → Option Text → StoredData
  add_tag : Option Text → StoredData
  remove_tag : Option Text → Option Text → StoredData
  action : Option Text → Option Text → Option Text → Option Text → StoredData
  set_custom_field : Option Text → Option Text → StoredData
  ai_response : StoredData
  ab_split : Option (List SplitPath) → StoredData
  smart_delay human_takeover : StoredData
  go_to_flow : Option Text → StoredData
  enroll_sequence : Option Text → StoredData
  subscription : Bool → StoredData
  comment_reply : Option Text → StoredData
  private_reply : Option Text → StoredData
  http_request : Option Text → Option Text → StoredData
  other_node : StoredData

pub record StoredNode : Type 0 where
  pub id : ℕ
  pub content : StoredData

pub data StepResult : Type 0 where
  trigger_result : Bool → Text → List Text → StepResult
  message_result : List Text → List Text → List Text → StepResult
  condition_result : List Condition → Bool → StepResult
  delay_result : ℕ → Text → StepResult
  action_result : Text → Text → StepResult
  ai_skipped : StepResult
  split_result : SplitPath → StepResult
  smart_delay_result human_takeover_result : StepResult
  go_to_flow_result : Text → StepResult
  enroll_sequence_result : Text → StepResult
  subscription_result : Bool → StepResult
  comment_reply_result : Text → StepResult
  private_reply_result : Text → StepResult
  http_request_result : Text → Text → StepResult
  unknown_type : StepResult
  flow_end : StepResult

pub record Step : Type 0 where
  pub node_id : ℕ
  pub result : StepResult

pub data SimulationError : Type 0 where
  no_trigger not_matched no_connection too_many_steps : SimulationError
  node_not_found : ℕ → SimulationError

pub record Simulation : Type 0 where
  pub steps : List Step
  pub errors : List SimulationError
  pub completed : Bool

pub record Config : Type 0 where
  pub incoming_message : Text
  pub contact : MockContact

-- `x || "…"`.
abbrev pub or_text : Option Text → Text → Text
or_text t other = or_else (nonempty t) other

abbrev pub keyword_text : RawKeyword → Text
keyword_text (plain_keyword t) = t
keyword_text (keyword_object t) = or_else t []

abbrev pub is_nonempty : Text → Bool
is_nonempty [] = false
is_nonempty (c ∷ cs) = true

abbrev pub keywords_of : Option (List RawKeyword) → List Text
keywords_of raw = filter is_nonempty (map keyword_text (given raw))

abbrev pub no_keyword : List Text → Bool
no_keyword [] = true
no_keyword (k ∷ ks) = false

abbrev pub given_texts : List (Option Text) → List Text
given_texts [] = []
given_texts (none ∷ ms) = given_texts ms
given_texts (some [] ∷ ms) = given_texts ms
given_texts (some (c ∷ cs) ∷ ms) = (c ∷ cs) ∷ given_texts ms

abbrev pub or_empty_message : List Text → List Text
or_empty_message [] = codes "(empty message)" ∷ []
or_empty_message (t ∷ ts) = t ∷ ts

-- The first action of a tag node is fixed; what the other does is read from its data.
abbrev pub tag_detail : Text → Text → Text
tag_detail action_type tag =
    if text_eq action_type (codes "addTag") || text_eq action_type (codes "add")
    then codes "Add tag: " ++ tag
    else codes "Remove tag: " ++ tag

abbrev pub action_detail : Text → Text → Text → Text → Text
action_detail action_type tag slug value =
    if text_eq action_type (codes "addTag")
    then codes "Add tag: " ++ tag
    else if text_eq action_type (codes "removeTag")
    then codes "Remove tag: " ++ tag
    else if text_eq action_type (codes "setCustomField")
    then codes "Set " ++ slug ++ codes " = " ++ value
    else action_type

-- `variables.ai_response = …`
abbrev pub set_text : Text → Text → TextVariables → TextVariables
set_text k v [] = (k, v) ∷ []
set_text k v ((j, w) ∷ vs) = if text_eq j k then (k, v) ∷ vs else (j, w) ∷ set_text k v vs

-- What a node leaves: its step, the variables, the handle and whether the run pauses.
pub record Outcome : Type 0 where
  pub result : Option StepResult
  pub variables : TextVariables
  pub next_handle : Option Text
  pub should_pause : Bool

abbrev pub shows : StepResult → TextVariables → Outcome
shows r vs = record { result = some r; variables = vs; next_handle = none; should_pause = false }

abbrev pub pauses : StepResult → TextVariables → Outcome
pauses r vs = record (shows r vs) { should_pause = true }

abbrev pub splits : Option SplitPath → TextVariables → Outcome
splits none vs = record { result = none; variables = vs; next_handle = none; should_pause = false }
splits (some p) vs = record (shows (split_result p) vs) { next_handle = some p.name }

abbrev pub branch : Bool → Text
branch passed = if passed then codes "true" else codes "false"

abbrev pub duration_or : Option ℕ → ℕ
duration_or none = 5
duration_or (some zero) = 5
duration_or (some (suc n)) = suc n

module _ (stringify : Json → Text) (to_number : Option Json → Number) (contact : MockContact) where
  abbrev pub filled : Option Text → TextVariables → Text
  filled text vs = interpolate_variables stringify (as_json vs) (or_text text [])

  abbrev pub judges : List Condition → Option Text → TextVariables → Outcome
  judges conditions logic vs =
      let passed = simulate_decide to_number contact vs logic conditions in
      record (shows (condition_result conditions passed) vs) { next_handle = some (branch passed) }

  -- The random number is the fraction `random.0 / random.1`.
  unfoldable pub simulate_node : ℕ × ℕ → StoredData → TextVariables → Outcome
  unfolding interpolate_variables simulate_decide split
  simulate_node random (trigger type keywords) vs = shows unknown_type vs
  simulate_node random (send_message messages buttons quick_replies) vs =
      shows
        (message_result
          (or_empty_message
            (map (interpolate_variables stringify (as_json vs)) (given_texts (given messages))))
          (given buttons) (given quick_replies))
        vs
  simulate_node random (condition conditions logic) vs = judges (given conditions) logic vs
  simulate_node random (delay duration unit) vs =
      shows (delay_result (duration_or duration) (or_text unit (codes "minutes"))) vs
  simulate_node random (add_tag name) vs =
      shows
        (action_result (codes "addTag")
          (tag_detail (codes "addTag") (or_text name (codes "unknown"))))
        vs
  simulate_node random (remove_tag name action_type) vs =
      let type = or_text action_type (codes "removeTag") in
      shows (action_result type (tag_detail type (or_text name (codes "unknown")))) vs
  simulate_node random (action action_type tag slug value) vs =
      let type = or_text action_type (codes "unknown") in
      shows
        (action_result type
          (action_detail type (or_text tag []) (or_text slug []) (or_text value [])))
        vs
  simulate_node random (set_custom_field slug value) vs =
      shows
        (action_result (codes "setCustomField")
          (codes "Set " ++ or_text slug (codes "unknown") ++ codes " = " ++ filled value vs))
        vs
  simulate_node random ai_response vs =
      shows ai_skipped (set_text (codes "ai_response") (codes "[AI response]") vs)
  simulate_node random (ab_split paths) vs = splits (split random.0 random.1 (given paths)) vs
  simulate_node random smart_delay vs = pauses smart_delay_result vs
  simulate_node random human_takeover vs = pauses human_takeover_result vs
  simulate_node random (go_to_flow flow) vs =
      pauses (go_to_flow_result (or_text flow (codes "unknown"))) vs
  simulate_node random (enroll_sequence sequence) vs =
      shows (enroll_sequence_result (or_text sequence (codes "unknown"))) vs
  simulate_node random (subscription subscribe) vs = shows (subscription_result subscribe) vs
  simulate_node random (comment_reply text) vs = shows (comment_reply_result (filled text vs)) vs
  simulate_node random (private_reply text) vs = shows (private_reply_result (filled text vs)) vs
  simulate_node random (http_request method url) vs =
      shows (http_request_result (or_text method (codes "GET")) (filled url vs)) vs
  simulate_node random other_node vs = shows unknown_type vs
