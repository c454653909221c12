-- ===== src/FlowEngine/Simulator/Run.antt =====
-- `simulateFlow` of lib/flow-engine/simulator.ts: the trigger and the loop over the nodes.
use zernflow.Base.{
  ℕ, zero, suc, Bool, true, false, ◌&&◌, ◌||◌, Option, none, some, List, [], ◌∷◌, ◌++◌, any, find,
  if◌then◌else◌, ◌==◌,
}
use zernflow.Base.Json.{Text, Json, Number, codes, text_eq}
use zernflow.FlowEngine.Types.{FlowEdge}
use zernflow.FlowEngine.Triggers.{includes}
use zernflow.FlowEngine.Conditions.Simulated.{MockContact, TextVariables}
use zernflow.FlowEngine.Messages.{nonempty}
use zernflow.FlowEngine.Simulator.{
  trigger, StoredNode, StepResult, trigger_result, flow_end, SimulationError, no_trigger,
  not_matched, no_connection, too_many_steps, node_not_found, Simulation, Config, or_text,
  keywords_of, no_keyword, Outcome, simulate_node,
}

abbrev pub max_steps : ℕ
max_steps = 50

abbrev pub leaves : ℕ → FlowEdge → Bool
leaves id e = e.source == id

abbrev pub has_handle : Text → FlowEdge → Bool
has_handle h e = elim e.source_handle [ none ↦ false | some k ↦ text_eq k h ]

abbrev pub has_none : FlowEdge → Bool
has_none e = elim (nonempty e.source_handle) [ none ↦ true | some k ↦ false ]

abbrev pub handled : ℕ → Option Text → List FlowEdge → Option FlowEdge
handled id none edges = none
handled id (some h) edges = find (λ e. leaves id e && has_handle h e) edges

abbrev pub or_plain : ℕ → List FlowEdge → Option FlowEdge → Option FlowEdge
or_plain id edges none = find (λ e. leaves id e && has_none e) edges
or_plain id edges (some e) = some e

abbrev pub or_any : ℕ → List FlowEdge → Option FlowEdge → Option FlowEdge
or_any id edges none = find (leaves id) edges
or_any id edges (some e) = some e

-- The edge with the handle, or else one without a handle, or else any.
unfoldable pub next_edge : ℕ → Option Text → List FlowEdge → Option FlowEdge
next_edge id h edges = or_any id edges (or_plain id edges (handled id (nonempty h) edges))

abbrev pub is_trigger : StoredNode → Bool
is_trigger n = elim n.content [ trigger type keywords ↦ true | _ ↦ false ]

-- What follows the loop; no step of the limit is left after the last one.
abbrev pub finish : ℕ → List SimulationError → Simulation
finish zero errors = record {
  steps = [];
  errors = errors ++ too_many_steps ∷ [];
  completed = false;
}
finish (suc left) errors = record { steps = []; errors = errors; completed = true }

abbrev pub fails : SimulationError → Simulation
fails e = record { steps = []; errors = e ∷ []; completed = false }

abbrev pub push : ℕ → Option StepResult → Simulation → Simulation
push id none s = s
push id (some r) s = record s { steps = record { node_id = id; result = r } ∷ s.steps }

abbrev pub follow : ℕ → Option FlowEdge → (ℕ → Simulation) → Simulation
follow id none go = push id (some flow_end) (finish 1 [])
follow id (some e) go = go e.target

abbrev pub continue_at : ℕ → ℕ → List FlowEdge → Outcome → (ℕ → Simulation) → Simulation
continue_at left id edges o go = elim o.should_pause [
  | true ↦ finish left []
  | false ↦ follow id (next_edge id o.next_handle edges) go
]

module _ (lower : Text → Text) (stringify : Json → Text) (to_number : Option Json → Number)
    (random : ℕ → ℕ × ℕ) (nodes : List StoredNode) (edges : List FlowEdge)
    (contact : MockContact) where
  abbrev pub outcome_of : ℕ → StoredNode → TextVariables → Outcome
  outcome_of left n vs = simulate_node stringify to_number contact (random left) n.content vs

  -- The node with an id, and what follows it.
  abbrev pub visit :
      ℕ → ℕ → Option StoredNode → TextVariables → (ℕ → TextVariables → Simulation) → Simulation
  visit left id none vs go = finish left (node_not_found id ∷ [])
  visit left id (some n) vs go =
      let o = outcome_of left n vs in
      push n.id o.result (continue_at left n.id edges o (λ next. go next o.variables))

  -- The loop, by the steps that are left of the limit.
  unfoldable pub traverse : ℕ → ℕ → TextVariables → Simulation
  unfolding simulate_node next_edge
  traverse zero id vs = finish zero []
  traverse (suc left) id vs =
      visit left id (find (λ n. n.id == id) nodes) vs (λ next us. traverse left next us)

  abbrev pub trigger_matches : Text → List Text → Text → Bool
  trigger_matches type keywords message =
      if text_eq type (codes "keyword")
      then no_keyword keywords || any (λ k. includes (lower message) (lower k)) keywords
      else text_eq type (codes "welcome") || text_eq type (codes "default")

  abbrev pub first_variables : Text → TextVariables
  first_variables message = (codes "message", message) ∷ []

  abbrev pub start_at : Option FlowEdge → Text → Simulation
  start_at none message = fails no_connection
  start_at (some e) message = traverse max_steps e.target (first_variables message)

  abbrev pub start_if : Bool → ℕ → Text → Simulation
  start_if false id message = fails not_matched
  start_if true id message = start_at (find (leaves id) edges) message

  abbrev pub from_trigger : ℕ → Text → List Text → Text → Simulation
  from_trigger id type keywords message =
      let matched = trigger_matches type keywords message in
      push id (some (trigger_result matched type keywords)) (start_if matched id message)

  abbrev pub from_node : Option StoredNode → Text → Simulation
  from_node none message = fails no_trigger
  from_node (some n) message = elim n.content [
    | trigger type keywords ↦
        from_trigger n.id (or_text type (codes "keyword")) (keywords_of keywords) message
    | _ ↦ fails no_trigger
  ]

unfoldable pub simulate_flow :
    (Text → Text)
    → (Json → Text)
    → (Option Json → Number)
    → (ℕ → ℕ × ℕ)
    → List StoredNode
    → List FlowEdge
    → Config
    → Simulation
unfolding traverse
simulate_flow lower stringify to_number random nodes edges config =
    from_node lower stringify to_number random nodes edges config.contact (find is_trigger nodes)
      config.incoming_message
