-- ===== src/FlowEngine/Simulator/Tests.antt =====
-- A simulation of a flow whose split goes back to the message before it.
use zernflow.Base.{
  ℕ, leb, if◌then◌else◌, ◌≤◌, ◌≡◌, refl, true, none, some, List, [], ◌∷◌, length, find,
}
use zernflow.Base.Json.{Text, not_a_number, codes}
use zernflow.FlowEngine.Types.{SplitPath, FlowNode, FlowEdge, ab_split}
use zernflow.FlowEngine.Split.{split, select_path}
use zernflow.FlowEngine.Engine.Run.{is_edge}
use zernflow.FlowEngine.Simulator.{
  StoredData, trigger, send_message, smart_delay, StoredNode, Config, too_many_steps, simulate_node,
}
use zernflow.FlowEngine.Simulator.Run.{leaves, next_edge, traverse, simulate_flow}
use zernflow.FlowEngine.Simulator.Ends.{Ended, simulate_flow-Ended}
use zernflow.FlowEngine.Simulator.Shown.{IsPath, visited}
use zernflow.FlowEngine.Simulator.Walk.{simulate_flow-Walked}

abbrev node : ℕ → StoredData → StoredNode
node id content = record { id = id; content = content }

abbrev weighted : Text → ℕ → SplitPath
weighted name weight = record { name = name; weight = weight }

abbrev edge : ℕ → ℕ → FlowEdge
edge source target = record { source = source; target = target; source_handle = none }

abbrev nodes : List StoredNode
nodes =
    node 1 (trigger (some (codes "welcome")) none)
    ∷ node 2 (send_message none none none)
    ∷ node 3 (StoredData.ab_split (some (weighted (codes "a") 1 ∷ weighted (codes "b") 3 ∷ [])))
    ∷ node 4 smart_delay
    ∷ []

abbrev edges : List FlowEdge
edges =
    edge 1 2
    ∷ edge 2 3
    ∷ record (edge 3 4) { source_handle = some (codes "a") }
    ∷ record (edge 3 2) { source_handle = some (codes "b") }
    ∷ []

abbrev config : Config
config = record {
  incoming_message = codes "hi";
  contact = record { tags = none; custom_fields = none; is_subscribed = none };
}

-- The random numbers, by the steps that are left: the second split takes the other path.
abbrev random : ℕ → ℕ × ℕ
random left = if leb 48 left then (1, 2) else (0, 2)

two_rounds :
    visited (simulate_flow (λ t. t) (λ v. []) (λ v. not_a_number) random nodes edges config).steps
    ≡ 1 ∷ 2 ∷ 3 ∷ 2 ∷ 3 ∷ 4 ∷ []
unfolding simulate_flow traverse simulate_node next_edge split select_path
two_rounds = refl

-- A loop stops at the limit.
limited :
    (simulate_flow
      (λ t. t)
      (λ v. [])
      (λ v. not_a_number)
      (λ left. (1, 2))
      nodes
      edges
      config).errors
    ≡ too_many_steps ∷ []
unfolding simulate_flow traverse simulate_node next_edge split select_path
limited = refl

completed :
    (simulate_flow (λ t. t) (λ v. []) (λ v. not_a_number) random nodes edges config).completed
    ≡ true
unfolding simulate_flow traverse simulate_node next_edge split select_path
completed = refl

no_error :
    (simulate_flow (λ t. t) (λ v. []) (λ v. not_a_number) random nodes edges config).errors ≡ []
unfolding simulate_flow traverse simulate_node next_edge split select_path
no_error = refl

simulate_flow-Walked_example :
    IsPath edges (
      visited
        (simulate_flow (λ t. t) (λ v. []) (λ v. not_a_number) random nodes edges config).steps)
    × (length (
          visited
            (simulate_flow (λ t. t) (λ v. []) (λ v. not_a_number) random nodes edges config).steps)
        ≤ 51)
simulate_flow-Walked_example =
    simulate_flow-Walked (λ t. t) (λ v. []) (λ v. not_a_number) random nodes edges config
      (tt, (tt, ((λ e. cc), (tt, tt))))

abbrev split_node : FlowNode
split_node = record { id = 3; content = ab_split [] }

-- The second round of the split ends in the delay, which pauses.
simulate_flow-Ended_example :
    Ended edges
      (simulate_flow (λ t. t) (λ v. []) (λ v. not_a_number) random nodes edges config).steps
simulate_flow-Ended_example =
    simulate_flow-Ended (λ t. t) (λ v. []) (λ v. not_a_number) random nodes edges config completed
      no_error

-- The engine ends at a handle without an edge, and the simulator takes the first edge.
falls_back :
    (next_edge 3 (some (codes "c")) edges ≡ find (leaves 3) edges)
    × (find (is_edge split_node (some (codes "c"))) edges ≡ none)
unfolding next_edge
falls_back = (refl, refl)
