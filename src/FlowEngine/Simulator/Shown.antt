-- ===== src/FlowEngine/Simulator/Shown.antt =====
-- What the steps of a simulation show, and the step of each kind of node.
use zernflow.Base.{ℕ, ◌≡◌, ◌≢◌, refl, Bool, true, false, Option, none, some, List, [], ◌∷◌}
use zernflow.Base.Json.{Text, Json, Number}
use zernflow.FlowEngine.Types.{SplitPath, FlowEdge}
use zernflow.FlowEngine.Conditions.Simulated.{MockContact, given, TextVariables}
use zernflow.FlowEngine.Split.{or_first, split}
use zernflow.FlowEngine.Engine.Walk.{joined}
use zernflow.FlowEngine.Simulator.{
  StoredData, trigger, send_message, condition, delay, add_tag, remove_tag, action,
  set_custom_field, ai_response, ab_split, smart_delay, human_takeover, go_to_flow, enroll_sequence,
  subscription, comment_reply, private_reply, http_request, other_node, StepResult, flow_end, Step,
  splits, simulate_node,
}

abbrev pub is_end : StepResult → Bool
is_end flow_end = true
is_end _ = false

-- The nodes of the steps, without the end of the flow.
abbrev pub visited : List Step → List ℕ
visited [] = []
visited (s ∷ ss) = elim (is_end s.result) [ true ↦ visited ss | false ↦ s.node_id ∷ visited ss ]

abbrev pub IsPath : List FlowEdge → List ℕ → Type 0
IsPath edges [] = Unit
IsPath edges (a ∷ []) = Unit
IsPath edges (a ∷ b ∷ ids) = (joined edges a b ≡ true) × IsPath edges (b ∷ ids)

-- A split that has a path to take; a node without one shows nothing.
abbrev pub HasPath : StoredData → Type 0
HasPath (ab_split paths) = given paths ≢ []
HasPath _ = Unit

-- A step of a node.
abbrev pub Shows : Option StepResult → Type 0
Shows x = (r : StepResult) × (x ≡ some r) × (is_end r ≡ false)

or_first-splits :
    (x : Option SplitPath) (ps : List SplitPath) (vs : TextVariables)
    → ps ≢ []
    → Shows (splits (or_first x ps) vs).result
or_first-splits (some p) ps vs h = (_, refl, refl)
or_first-splits none [] vs h = absurd (h refl)
or_first-splits none (p ∷ ps) vs h = (_, refl, refl)

module _ (stringify : Json → Text) (to_number : Option Json → Number) (contact : MockContact)
    (random : ℕ × ℕ) where
  pub simulate_node-Shows :
      (d : StoredData) (vs : TextVariables)
      → HasPath d
      → Shows (simulate_node stringify to_number contact random d vs).result
  unfolding simulate_node split
  simulate_node-Shows (trigger type keywords) vs h = (_, refl, refl)
  simulate_node-Shows (send_message messages buttons quick_replies) vs h = (_, refl, refl)
  simulate_node-Shows (condition conditions logic) vs h = (_, refl, refl)
  simulate_node-Shows (delay duration unit) vs h = (_, refl, refl)
  simulate_node-Shows (add_tag name) vs h = (_, refl, refl)
  simulate_node-Shows (remove_tag name type) vs h = (_, refl, refl)
  simulate_node-Shows (action type tag slug value) vs h = (_, refl, refl)
  simulate_node-Shows (set_custom_field slug value) vs h = (_, refl, refl)
  simulate_node-Shows ai_response vs h = (_, refl, refl)
  simulate_node-Shows (ab_split paths) vs h = or_first-splits _ (given paths) vs h
  simulate_node-Shows smart_delay vs h = (_, refl, refl)
  simulate_node-Shows human_takeover vs h = (_, refl, refl)
  simulate_node-Shows (go_to_flow flow) vs h = (_, refl, refl)
  simulate_node-Shows (enroll_sequence sequence) vs h = (_, refl, refl)
  simulate_node-Shows (subscription subscribe) vs h = (_, refl, refl)
  simulate_node-Shows (comment_reply text) vs h = (_, refl, refl)
  simulate_node-Shows (private_reply text) vs h = (_, refl, refl)
  simulate_node-Shows (http_request method url) vs h = (_, refl, refl)
  simulate_node-Shows other_node vs h = (_, refl, refl)
