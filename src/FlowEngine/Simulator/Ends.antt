-- ===== src/FlowEngine/Simulator/Ends.antt =====
-- Where a simulation ends: behind a node without an edge, or at a node that pauses.
use zernflow.Base.{
  ℕ, zero, suc, ◌≡◌, ◌⊎◌, inl, inr, refl, sym, Bool, true, false, Option, none, some, List, [], ◌∷◌,
  find, ◌==◌,
}
use zernflow.Base.Json.{Text, Json, Number, codes}
use zernflow.FlowEngine.Types.{SplitPath, FlowEdge}
use zernflow.FlowEngine.Conditions.Simulated.{MockContact, TextVariables}
use zernflow.FlowEngine.Simulator.{
  StoredData, trigger, send_message, condition, delay, add_tag, remove_tag, action,
  set_custom_field, ai_response, ab_split, smart_delay, human_takeover, go_to_flow, enroll_sequence,
  subscription, comment_reply, private_reply, http_request, other_node, StoredNode, StepResult,
  smart_delay_result, human_takeover_result, go_to_flow_result, flow_end, Step, Simulation, Config,
  Outcome, splits, or_text, keywords_of, node_not_found, simulate_node,
}
use zernflow.FlowEngine.Simulator.Run.{
  max_steps, leaves, next_edge, is_trigger, finish, push, follow, continue_at, outcome_of, visit,
  traverse, first_variables, trigger_matches, start_at, start_if, from_node, simulate_flow,
}
use zernflow.FlowEngine.Simulator.Edges.{next_edge-none}
use zernflow.FlowEngine.Simulator.Shown.{is_end}

abbrev pub is_pause : StepResult → Bool
is_pause smart_delay_result = true
is_pause human_takeover_result = true
is_pause (go_to_flow_result flow) = true
is_pause _ = false

-- The last of the steps, and only the last, is the end of the flow at a node that no edge leaves, or
-- is a pause.
abbrev pub Ended : List FlowEdge → List Step → Type 0
Ended edges [] = ⊥
Ended edges (s ∷ []) =
    ((s.result ≡ flow_end) × (find (leaves s.node_id) edges ≡ none)) ⊎ (is_pause s.result ≡ true)
Ended edges (s ∷ t ∷ ss) = (is_end s.result ≡ false) × Ended edges (t ∷ ss)

abbrev Completes : List FlowEdge → Simulation → Type 0
Completes edges s = s.completed ≡ true → s.errors ≡ [] → Ended edges s.steps

-- A node that pauses shows it, and no node shows the end of the flow.
abbrev ShowsPause : Bool → Option StepResult → Type 0
ShowsPause true x = (r : StepResult) × (x ≡ some r) × (is_pause r ≡ true)
ShowsPause false x = (r : StepResult) → x ≡ some r → is_end r ≡ false

shows_on : (a r : StepResult) → is_end a ≡ false → some a ≡ some r → is_end r ≡ false
shows_on a r h e = let same : a ≡ r = cc in rw (sym same) h

splits-ShowsPause :
    (x : Option SplitPath) (vs : TextVariables)
    → ShowsPause (splits x vs).should_pause (splits x vs).result
splits-ShowsPause none vs = λ r e. cc
splits-ShowsPause (some p) vs = λ r e. shows_on _ r refl e

module _ (stringify : Json → Text) (to_number : Option Json → Number) (contact : MockContact)
    (random : ℕ × ℕ) where
  simulate_node-ShowsPause :
      (d : StoredData) (vs : TextVariables)
      → ShowsPause
          (simulate_node stringify to_number contact random d vs).should_pause
          (simulate_node stringify to_number contact random d vs).result
  unfolding simulate_node
  simulate_node-ShowsPause (trigger type keywords) vs = λ r e. shows_on _ r refl e
  simulate_node-ShowsPause (send_message messages buttons quick_replies) vs =
      λ r e. shows_on _ r refl e
  simulate_node-ShowsPause (condition conditions logic) vs = λ r e. shows_on _ r refl e
  simulate_node-ShowsPause (delay duration unit) vs = λ r e. shows_on _ r refl e
  simulate_node-ShowsPause (add_tag name) vs = λ r e. shows_on _ r refl e
  simulate_node-ShowsPause (remove_tag name type) vs = λ r e. shows_on _ r refl e
  simulate_node-ShowsPause (action type tag slug value) vs = λ r e. shows_on _ r refl e
  simulate_node-ShowsPause (set_custom_field slug value) vs = λ r e. shows_on _ r refl e
  simulate_node-ShowsPause ai_response vs = λ r e. shows_on _ r refl e
  simulate_node-ShowsPause (ab_split paths) vs = splits-ShowsPause _ vs
  simulate_node-ShowsPause smart_delay vs = (_, refl, refl)
  simulate_node-ShowsPause human_takeover vs = (_, refl, refl)
  simulate_node-ShowsPause (go_to_flow flow) vs = (_, refl, refl)
  simulate_node-ShowsPause (enroll_sequence sequence) vs = λ r e. shows_on _ r refl e
  simulate_node-ShowsPause (subscription subscribe) vs = λ r e. shows_on _ r refl e
  simulate_node-ShowsPause (comment_reply text) vs = λ r e. shows_on _ r refl e
  simulate_node-ShowsPause (private_reply text) vs = λ r e. shows_on _ r refl e
  simulate_node-ShowsPause (http_request method url) vs = λ r e. shows_on _ r refl e
  simulate_node-ShowsPause other_node vs = λ r e. shows_on _ r refl e

cons-Ended :
    (edges : List FlowEdge) (s : Step) (ss : List Step)
    → is_end s.result ≡ false
    → Ended edges ss
    → Ended edges (s ∷ ss)
cons-Ended edges s [] shown h = absurd h
cons-Ended edges s (t ∷ ss) shown h = (shown, h)

push-Completes :
    (edges : List FlowEdge) (id : ℕ) (x : Option StepResult) (s : Simulation)
    → ((r : StepResult) → x ≡ some r → is_end r ≡ false)
    → Completes edges s
    → Completes edges (push id x s)
push-Completes edges id none s shown h = h
push-Completes edges id (some r) s shown h = λ done no_errors.
    cons-Ended edges (record { node_id = id; result = r }) s.steps (shown r refl) (h done no_errors)

paused-Completes :
    (edges : List FlowEdge) (left id : ℕ) (x : Option StepResult)
    → ShowsPause true x
    → Completes edges (push id x (finish left []))
paused-Completes edges zero id none (r, e, pauses) = λ done. cc
paused-Completes edges zero id (some r) shows = λ done. cc
paused-Completes edges (suc left) id none (r, e, pauses) = λ done. cc
paused-Completes edges (suc left) id (some r) (r', e, pauses) =
    λ done no_errors. inr (let same : r' ≡ r = cc in rw (sym same) pauses)

missing-Completes :
    (edges : List FlowEdge) (left id : ℕ) → Completes edges (finish left (node_not_found id ∷ []))
missing-Completes edges zero id = λ done. cc
missing-Completes edges (suc left) id = λ done no_errors. cc

module _ (edges : List FlowEdge) (go : ℕ → Simulation)
    (completes : (id : ℕ) → Completes edges (go id)) where
  follow-Completes :
      (id : ℕ) (h : Option Text) (x : Option FlowEdge)
      → next_edge id h edges ≡ x
      → Completes edges (follow id x go)
  follow-Completes id h none e = λ done no_errors. inl (refl, next_edge-none id h edges e)
  follow-Completes id h (some edge) e = completes edge.target

  continue_at-Completes :
      (left id : ℕ) (o : Outcome) (b : Bool)
      → o.should_pause ≡ b
      → ShowsPause b o.result
      → Completes edges (push id o.result (continue_at left id edges o go))
  continue_at-Completes left id o true e shows =
      rw e (paused-Completes edges left id o.result shows)
  continue_at-Completes left id o false e shows = rw e (
      push-Completes edges id o.result _ shows
        (follow-Completes id o.next_handle (next_edge id o.next_handle edges) refl))

module _ (lower : Text → Text) (stringify : Json → Text) (to_number : Option Json → Number)
    (random : ℕ → ℕ × ℕ) (nodes : List StoredNode) (edges : List FlowEdge)
    (contact : MockContact) where
  visit-Completes :
      (left id : ℕ) (x : Option StoredNode) (vs : TextVariables)
      (go : ℕ → TextVariables → Simulation)
      → ((next : ℕ) (us : TextVariables) → Completes edges (go next us))
      → Completes edges (visit lower stringify to_number random nodes edges contact left id x vs go)
  visit-Completes left id none vs go h = missing-Completes edges left id
  visit-Completes left id (some n) vs go h =
      let o = outcome_of lower stringify to_number random nodes edges contact left n vs in
      continue_at-Completes edges (λ next. go next o.variables) (λ next. h next o.variables) left
        n.id o o.should_pause refl
        (simulate_node-ShowsPause stringify to_number contact (random left) n.content vs)

  traverse-Completes :
      (left id : ℕ) (vs : TextVariables)
      → Completes edges (traverse lower stringify to_number random nodes edges contact left id vs)
  unfolding traverse
  traverse-Completes zero id vs = λ done. cc
  traverse-Completes (suc left) id vs =
      visit-Completes left id (find (λ n. n.id == id) nodes) vs
        (λ next us. traverse lower stringify to_number random nodes edges contact left next us)
        (λ next us. traverse-Completes left next us)

  start_at-Completes :
      (x : Option FlowEdge) (message : Text)
      → Completes edges (start_at lower stringify to_number random nodes edges contact x message)
  start_at-Completes none message = λ done. cc
  start_at-Completes (some e) message =
      traverse-Completes max_steps e.target
        (first_variables lower stringify to_number random nodes edges contact message)

  start_if-Completes :
      (matched : Bool) (id : ℕ) (message : Text)
      → Completes edges
          (start_if lower stringify to_number random nodes edges contact matched id message)
  start_if-Completes false id message = λ done. cc
  start_if-Completes true id message = start_at-Completes (find (leaves id) edges) message

  from_node-Completes :
      (x : Option StoredNode) (message : Text)
      → Completes edges (from_node lower stringify to_number random nodes edges contact x message)
  from_node-Completes none message = λ done. cc
  from_node-Completes (some n) message = of_content n.content
    where
      of_content :
          (d : StoredData)
          → Completes edges (
              from_node lower stringify to_number random nodes edges contact
                (some (record n { content = d }))
                message)
      of_content (trigger type keywords) =
          push-Completes edges n.id _ _ (λ r e. shows_on _ r refl e)
            (start_if-Completes
              (trigger_matches lower stringify to_number random nodes edges contact
                (or_text type (codes "keyword")) (keywords_of keywords) message)
              n.id message)
      of_content _ = λ done. cc

-- A simulation that completes without an error has ended: its last step is the end of the flow at a
-- node that no edge leaves, or is the step of a node that pauses (a smart delay, a human takeover, a
-- node that goes to another flow), and no step before it is the end of the flow, whatever the nodes,
-- the edges, the message and the random numbers are.
pub simulate_flow-Ended :
    (lower : Text → Text) (stringify : Json → Text) (to_number : Option Json → Number)
    (random : ℕ → ℕ × ℕ) (nodes : List StoredNode) (edges : List FlowEdge) (config : Config)
    → (simulate_flow lower stringify to_number random nodes edges config).completed ≡ true
    → (simulate_flow lower stringify to_number random nodes edges config).errors ≡ []
    → Ended edges (simulate_flow lower stringify to_number random nodes edges config).steps
unfolding simulate_flow
simulate_flow-Ended lower stringify to_number random nodes edges config =
    from_node-Completes lower stringify to_number random nodes edges config.contact
      (find is_trigger nodes) config.incoming_message
