-- ===== src/FlowEngine/Simulator/Walk.antt =====
-- The nodes that a simulation shows, from its trigger on.
use zernflow.Base.{
  ℕ, zero, suc, ◌≤◌, ◌≡◌, refl, ap, inl, inr, Bool, true, false, Option, none, some, List, [], ◌∷◌,
  arith, All, length, find, find-All, find-any, find_holds, ◌&&◌, ◌==◌, ==_iff, Bool-cases,
}
use mathlib.Core.Path.{subst}
use zernflow.Base.Json.{Text, Json, Number, codes}
use zernflow.FlowEngine.Types.{FlowEdge}
use zernflow.FlowEngine.Conditions.Simulated.{MockContact, TextVariables}
use zernflow.FlowEngine.Engine.Walk.{joined}
use zernflow.FlowEngine.Simulator.{
  StoredData, trigger, send_message, condition, delay, add_tag, remove_tag, action,
  set_custom_field, ai_response, ab_split, smart_delay, human_takeover, go_to_flow, enroll_sequence,
  subscription, comment_reply, private_reply, http_request, other_node, StoredNode, StepResult,
  trigger_result, SimulationError, Simulation, Config, Outcome, or_text, keywords_of,
  node_not_found,
}
use zernflow.FlowEngine.Simulator.Run.{
  max_steps, leaves, next_edge, is_trigger, finish, push, follow, continue_at, outcome_of, visit,
  traverse, first_variables, trigger_matches, start_at, start_if, from_trigger, from_node,
  simulate_flow,
}
use zernflow.FlowEngine.Simulator.Edges.{next_edge-joined}
use zernflow.FlowEngine.Simulator.Shown.{
  is_end, visited, IsPath, HasPath, Shows, simulate_node-Shows,
}

-- What is shown behind a node, and what is shown from a node on.
abbrev IsAfter : List FlowEdge → ℕ → ℕ → Simulation → Type 0
IsAfter edges left id s = IsPath edges (id ∷ visited s.steps) × (length (visited s.steps) ≤ left)

abbrev Heads : ℕ → List ℕ → Type 0
Heads id [] = Unit
Heads id (a ∷ ids) = a ≡ id

abbrev IsFrom : List FlowEdge → ℕ → ℕ → Simulation → Type 0
IsFrom edges left id s =
    IsPath edges (visited s.steps) × Heads id (visited s.steps) × (length (visited s.steps) ≤ left)

finish-IsAfter :
    (edges : List FlowEdge) (left most id : ℕ) (errors : List SimulationError)
    → IsAfter edges most id (finish left errors)
finish-IsAfter edges zero most id errors = (tt, omega arith)
finish-IsAfter edges (suc left) most id errors = (tt, omega arith)

finish-IsFrom :
    (edges : List FlowEdge) (left most id : ℕ) (errors : List SimulationError)
    → IsFrom edges most id (finish left errors)
finish-IsFrom edges zero most id errors = (tt, tt, omega arith)
finish-IsFrom edges (suc left) most id errors = (tt, tt, omega arith)

-- An edge leads from a node to what is shown from its target on.
edge-IsAfter :
    (edges : List FlowEdge) (left a b : ℕ) (s : Simulation)
    → joined edges a b ≡ true
    → IsFrom edges left b s
    → IsAfter edges left a s
edge-IsAfter edges left a b s e h = (lead (visited s.steps) h.0 h.1, h.2)
  where
    lead : (ids : List ℕ) → IsPath edges ids → Heads b ids → IsPath edges (a ∷ ids)
    lead [] path heads = tt
    lead (c ∷ ids) path heads = (rw heads e, path)

visited-push :
    (id : ℕ) (r : StepResult) (s : Simulation)
    → is_end r ≡ false
    → visited (push id (some r) s).steps ≡ id ∷ visited s.steps
visited-push id r s shown =
    ap (λ b. elim b [ true ↦ visited s.steps | false ↦ id ∷ visited s.steps ]) shown

push-IsFrom :
    (edges : List FlowEdge) (left id : ℕ) (x : Option StepResult) (s : Simulation)
    → Shows x
    → IsAfter edges left id s
    → IsFrom edges (suc left) id (push id x s)
push-IsFrom edges left id x s (r, e, shown) h =
    rw (e, visited-push id r s shown) (h.0, refl, omega (arith, h.1))

module _ (edges : List FlowEdge) (left : ℕ) (go : ℕ → Simulation)
    (from : (id : ℕ) → IsFrom edges left id (go id)) where
  follow-IsAfter :
      (id : ℕ) (h : Option Text) (x : Option FlowEdge)
      → next_edge id h edges ≡ x
      → IsAfter edges left id (follow id x go)
  follow-IsAfter id h none e = (tt, omega arith)
  follow-IsAfter id h (some edge) e =
      edge-IsAfter edges left id edge.target (go edge.target) (next_edge-joined id h edges e)
        (from edge.target)

  continue_at-IsAfter :
      (id : ℕ) (o : Outcome) → IsAfter edges left id (continue_at left id edges o go)
  continue_at-IsAfter id o = elim (Bool-cases o.should_pause) [
    | inl stops ↦ rw stops (finish-IsAfter edges left left id [])
    | inr goes ↦ rw goes (follow-IsAfter id o.next_handle (next_edge id o.next_handle edges) refl)
  ]

first-joined :
    (id : ℕ) (edges : List FlowEdge) {e : FlowEdge}
    → find (leaves id) edges ≡ some e
    → joined edges id e.target ≡ true
first-joined id edges {e} found =
    find-any (leaves id) (λ x. x.source == id && x.target == e.target) edges found
      (let out = find_holds (leaves id) edges found in ground arith)

module _ (lower : Text → Text) (stringify : Json → Text) (to_number : Option Json → Number)
    (random : ℕ → ℕ × ℕ) (nodes : List StoredNode) (edges : List FlowEdge) (contact : MockContact)
    (paths : All (λ n. HasPath n.content) nodes) where
  abbrev run : ℕ → ℕ → TextVariables → Simulation
  run = traverse lower stringify to_number random nodes edges contact

  visit-IsFrom :
      (left id : ℕ) (vs : TextVariables) (x : Option StoredNode)
      (go : ℕ → TextVariables → Simulation)
      → ((next : ℕ) (us : TextVariables) → IsFrom edges left next (go next us))
      → find (λ n. n.id == id) nodes ≡ x
      → IsFrom edges
          (suc left)
          id
          (visit lower stringify to_number random nodes edges contact left id x vs go)
  visit-IsFrom left id vs none go from e =
      finish-IsFrom edges left (suc left) id (node_not_found id ∷ [])
  visit-IsFrom left id vs (some n) go from e =
      let o = outcome_of lower stringify to_number random nodes edges contact left n vs in
      subst
        (λ i.
          IsFrom edges (suc left) i
            (push n.id o.result (continue_at left n.id edges o (λ next. go next o.variables))))
        ((==_iff n.id id).0 (find_holds (λ m. m.id == id) nodes e))
        (push-IsFrom edges left n.id o.result
          (continue_at left n.id edges o (λ next. go next o.variables))
          (simulate_node-Shows stringify to_number contact (random left) n.content vs
            (find-All (λ m. HasPath m.content) (λ m. m.id == id) nodes paths e))
          (continue_at-IsAfter edges left (λ next. go next o.variables)
            (λ next. from next o.variables) n.id o))

  traverse-IsFrom : (left id : ℕ) (vs : TextVariables) → IsFrom edges left id (run left id vs)
  unfolding traverse
  traverse-IsFrom zero id vs = finish-IsFrom edges zero zero id []
  traverse-IsFrom (suc left) id vs =
      visit-IsFrom left id vs (find (λ n. n.id == id) nodes) (λ next us. run left next us)
        (traverse-IsFrom left) refl

  start_at-IsAfter :
      (id : ℕ) (x : Option FlowEdge) (message : Text)
      → find (leaves id) edges ≡ x
      → IsAfter edges 50 id
          (start_at lower stringify to_number random nodes edges contact x message)
  start_at-IsAfter id none message e = (tt, omega arith)
  start_at-IsAfter id (some edge) message e =
      edge-IsAfter edges 50 id edge.target
        (run max_steps edge.target
          (first_variables lower stringify to_number random nodes edges contact message))
        (first-joined id edges e)
        (traverse-IsFrom max_steps edge.target
          (first_variables lower stringify to_number random nodes edges contact message))

  from_trigger-IsFrom :
      (id : ℕ) (type : Text) (keywords : List Text) (message : Text)
      → IsFrom edges 51 id (
          from_trigger lower stringify to_number random nodes edges contact id type keywords
            message)
  from_trigger-IsFrom id type keywords message =
      started
        (trigger_matches lower stringify to_number random nodes edges contact type keywords message)
    where
      started :
          (b : Bool)
          → IsFrom edges 51 id (
              push id
                (some (trigger_result b type keywords))
                (start_if lower stringify to_number random nodes edges contact b id message))
      started true =
          push-IsFrom edges 50 id (some (trigger_result true type keywords))
            (start_if lower stringify to_number random nodes edges contact true id message)
            (_, refl, refl) (start_at-IsAfter id (find (leaves id) edges) message refl)
      started false =
          push-IsFrom edges 50 id (some (trigger_result false type keywords))
            (start_if lower stringify to_number random nodes edges contact false id message)
            (_, refl, refl) (tt, omega arith)

  from_node-Walk :
      (x : Option StoredNode) (message : Text)
      → let s = from_node lower stringify to_number random nodes edges contact x message in
        IsPath edges (visited s.steps) × (length (visited s.steps) ≤ 51)
  from_node-Walk none message = (tt, omega arith)
  from_node-Walk (some n) message = of_content n.content
    where
      of_content :
          (d : StoredData)
          → let s =
              from_node lower stringify to_number random nodes edges contact
                (some (record { id = n.id; content = d }))
                message in
            IsPath edges (visited s.steps) × (length (visited s.steps) ≤ 51)
      of_content (trigger type keywords) =
          let h =
            from_trigger-IsFrom n.id (or_text type (codes "keyword")) (keywords_of keywords)
              message in
          (h.0, h.2)
      of_content (send_message messages buttons quick_replies) = (tt, omega arith)
      of_content (condition conditions logic) = (tt, omega arith)
      of_content (delay duration unit) = (tt, omega arith)
      of_content (add_tag name) = (tt, omega arith)
      of_content (remove_tag name type) = (tt, omega arith)
      of_content (action type tag slug value) = (tt, omega arith)
      of_content (set_custom_field slug value) = (tt, omega arith)
      of_content ai_response = (tt, omega arith)
      of_content (ab_split paths) = (tt, omega arith)
      of_content smart_delay = (tt, omega arith)
      of_content human_takeover = (tt, omega arith)
      of_content (go_to_flow flow) = (tt, omega arith)
      of_content (enroll_sequence sequence) = (tt, omega arith)
      of_content (subscription subscribe) = (tt, omega arith)
      of_content (comment_reply text) = (tt, omega arith)
      of_content (private_reply text) = (tt, omega arith)
      of_content (http_request method url) = (tt, omega arith)
      of_content other_node = (tt, omega arith)

-- For every flow whose splits have a path, every message and contact, whatever the random numbers
-- are: the nodes that `simulateFlow` shows are a walk along the edges of the flow, of fifty nodes at
-- most behind the trigger.
pub simulate_flow-Walked :
    (lower : Text → Text) (stringify : Json → Text) (to_number : Option Json → Number)
    (random : ℕ → ℕ × ℕ) (nodes : List StoredNode) (edges : List FlowEdge) (config : Config)
    → All (λ n. HasPath n.content) nodes
    → IsPath edges
        (visited (simulate_flow lower stringify to_number random nodes edges config).steps)
      × (length (visited (simulate_flow lower stringify to_number random nodes edges config).steps)
          ≤ 51)
unfolding simulate_flow
simulate_flow-Walked lower stringify to_number random nodes edges config paths =
    from_node-Walk lower stringify to_number random nodes edges config.contact paths
      (find is_trigger nodes) config.incoming_message
