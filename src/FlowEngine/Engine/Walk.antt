-- ===== src/FlowEngine/Engine/Walk.antt =====
-- The nodes that a traversal executes, as the analytics record them.
use zernflow.Base.{
  find-any, find_holds, ℕ, zero, suc, ◌+◌, ◌≤◌, ◌≡◌, refl, ap, ◌∙◌, ◌⊎◌, inl, inr, Bool, true, ◌&&◌,
  Option, none, some, List, [], ◌∷◌, ◌++◌, arith, ◌==◌, All, any, find, length,
}
use zernflow.Base.Json.{Text}
use zernflow.Base.Result.{Result, ok, err}
use zernflow.FlowEngine.Engine.Replies.{event_of}
use zernflow.FlowEngine.Types.{
  trigger, send_message, condition, delay, add_tag, remove_tag, set_custom_field, http_request,
  go_to_flow, subscription, human_takeover, comment_reply, private_reply, ab_split, smart_delay,
  ai_response, enroll_sequence, other_node, NodeData, FlowNode, FlowEdge, Context,
}
use zernflow.FlowEngine.Engine.Store.{
  Tables, EventType, flow_started, flow_completed, message_sent, message_failed, node_executed,
  Event, World, M, FlowError, at_node, update_session,
}
use zernflow.FlowEngine.Engine.Outside.{Outside}
use zernflow.FlowEngine.Engine.Nodes.{NodeResult, pause, go_on, handle}
use zernflow.FlowEngine.Engine.Run.{
  max_traversal_depth, is_edge, target_node, next_node, chosen_handle, complete_session,
  execute_data, execute_node, persist, follow, traverse_nodes,
}
use zernflow.FlowEngine.Engine.Keeps.{Pred, IsMessage, Stable, update_session-Keeps}
use zernflow.FlowEngine.Engine.Runs.{IsFine, execute_data-Keeps, persist-Keeps}
use zernflow.FlowEngine.Engine.Runs.Traversal.{next_node-All}
use zernflow.FlowEngine.Engine.Runs.Completion.{Ending, complete_session-Keeps}
use zernflow.FlowEngine.Engine.Triples.{
  Post, Triple, Implies, bind, keeps, keeps_to, returns, track-Triple,
}

-- The nodes that the analytics say were executed, the last one first.
abbrev node_of : EventType → List ℕ → List ℕ
node_of (node_executed id) ids = id ∷ ids
node_of _ ids = ids

abbrev pub executed : List Event → List ℕ
executed [] = []
executed (x ∷ xs) = node_of x.type (executed xs)

-- An edge between two nodes.
abbrev pub joined : List FlowEdge → ℕ → ℕ → Bool
joined edges a b = any (λ e. e.source == a && e.target == b) edges

-- Each node is behind an edge from the one before.
abbrev pub IsTrail : List FlowEdge → List ℕ → Type 0
IsTrail edges [] = Unit
IsTrail edges (b ∷ []) = Unit
IsTrail edges (b ∷ a ∷ ids) = (joined edges a b ≡ true) × IsTrail edges (a ∷ ids)

-- Behind the nodes `before`, at most `most` nodes were executed, along the edges.
pub record Walked (edges : List FlowEdge) (before : List ℕ) (most : ℕ) (ids : List ℕ) : Type 0 where
  pub trail : List ℕ
  pub added : ids ≡ trail ++ before
  pub along : IsTrail edges trail
  pub within : length trail ≤ most

tail-IsTrail :
    (edges : List FlowEdge) (a : ℕ) (ids : List ℕ) → IsTrail edges (a ∷ ids) → IsTrail edges ids
tail-IsTrail edges a [] h = tt
tail-IsTrail edges a (b ∷ ids) h = h.1

edge_source :
    (node : FlowNode) (h : Option Text) (e : FlowEdge)
    → is_edge node h e ≡ true
    → (e.source == node.id) ≡ true
edge_source node none e k = k
edge_source node (some h) e k = ground arith

target_joined :
    (node : FlowNode) (h : Option Text) (nodes : List FlowNode) (edges : List FlowEdge)
    (edge : Option FlowEdge) {n : FlowNode}
    → find (is_edge node h) edges ≡ edge
    → target_node edge nodes ≡ some n
    → joined edges node.id n.id ≡ true
target_joined node h nodes edges none e k = cc
target_joined node h nodes edges (some edge) {n} e k =
    find-any (is_edge node h) (λ x. x.source == node.id && x.target == n.id) edges e
      (let source = edge_source node h edge (find_holds (is_edge node h) edges e) in
        let target = find_holds (λ m. m.id == edge.target) nodes k in ground arith)

next_node-joined :
    (node : FlowNode) (h : Option Text) (nodes : List FlowNode) (edges : List FlowEdge)
    {n : FlowNode}
    → next_node node h nodes edges ≡ some n
    → joined edges node.id n.id ≡ true
unfolding next_node
next_node-joined node h nodes edges e =
    target_joined node h nodes edges (find (is_edge node h) edges) refl e

-- The handlers leave the executed nodes alone.
abbrev at_trail : List ℕ → Pred
at_trail ids s e f = (executed e ≡ ids) × (f ≡ [])

quiet_event :
    (event : Event) (e : List Event)
    → (event.type ≡ flow_completed) ⊎ IsMessage event.type
    → executed (event ∷ e) ≡ executed e
quiet_event event e h = quiet event.type h
  where
    quiet :
        (type : EventType)
        → (type ≡ flow_completed) ⊎ IsMessage type
        → node_of type (executed e) ≡ executed e
    quiet flow_started h = refl
    quiet flow_completed h = refl
    quiet message_sent h = refl
    quiet message_failed h = refl
    quiet (node_executed id) (inl k) = cc
    quiet (node_executed id) (inr k) = absurd k

trail-Stable : (ids : List ℕ) → Stable (at_trail ids) (λ patch. Unit {0})
trail-Stable ids = record {
  called = λ s e f h. (h.0, rw h.1 refl);
  patched = λ id patch s e f a h. h;
  messaged = λ event s e f m h. (quiet_event event e (inr m) ∙ h.0, h.1);
}

trail-Ending : (ids : List ℕ) → Ending (at_trail ids)
trail-Ending ids = record {
  ended = λ event s e f m h. (quiet_event event e (inl m) ∙ h.0, h.1);
  completed = λ id s e f h. h;
}

-- A node that runs no other flow.
abbrev pub StaysHere : NodeData → Type 0
StaysHere (go_to_flow flow) = ⊥
StaysHere _ = Unit

stays-IsFine :
    (p : Pred) (workspace : ℕ) (run : Context → M (Unit {0})) (content : NodeData)
    → StaysHere content
    → IsFine p (λ patch. Unit {0}) workspace run content
stays-IsFine p workspace run trigger stays = tt
stays-IsFine p workspace run (send_message ms) stays = tt
stays-IsFine p workspace run (condition logic cs) stays = tt
stays-IsFine p workspace run (delay duration unit) stays = tt
stays-IsFine p workspace run (add_tag add name) stays = tt
stays-IsFine p workspace run (remove_tag add name) stays = tt
stays-IsFine p workspace run (set_custom_field slug value) stays = tt
stays-IsFine p workspace run (http_request r) stays = tt
stays-IsFine p workspace run (go_to_flow flow) stays = absurd stays
stays-IsFine p workspace run (subscription b) stays = tt
stays-IsFine p workspace run human_takeover stays = λ time. tt
stays-IsFine p workspace run (comment_reply text) stays = tt
stays-IsFine p workspace run (private_reply text image) stays = tt
stays-IsFine p workspace run (ab_split paths) stays = tt
stays-IsFine p workspace run smart_delay stays = tt
stays-IsFine p workspace run (ai_response r) stays = tt
stays-IsFine p workspace run (enroll_sequence sequence) stays = tt
stays-IsFine p workspace run other_node stays = tt

module _ (o : Outside) (t : Tables) (run : Context → M (Unit {0})) (before : List ℕ) (most : ℕ)
    (edges : List FlowEdge) where
  abbrev walked : Pred
  walked s e f = Walked edges before most (executed e)

  ends_here :
      (trail : List ℕ)
      → IsTrail edges trail
      → length trail ≤ most
      → Implies (at_trail (trail ++ before)) walked
  ends_here trail along within s e f h = record {
    trail = trail;
    added = h.0;
    along = along;
    within = within;
  }

  completes :
      (trail : List ℕ) (session : ℕ)
      → Implies (at_trail (trail ++ before)) walked
      → Triple (at_trail (trail ++ before)) (complete_session o t session) (λ done. walked) walked
  completes trail session here =
      keeps_to walked (at_trail (trail ++ before)) (λ done. walked) (complete_session o t session)
        here (λ done. here)
        (complete_session-Keeps o t (at_trail (trail ++ before)) (trail-Stable (trail ++ before))
          (trail-Ending (trail ++ before)) session)

  follow-Triple :
      (trail : List ℕ) (result : NodeResult) (session : ℕ) (next : Option FlowNode)
      (go : FlowNode → M (Unit {0}))
      → Implies (at_trail (trail ++ before)) walked
      → ((n : FlowNode)
          → next ≡ some n
          → Triple (at_trail (trail ++ before)) (go n) (λ done. walked) walked)
      → Triple
          (at_trail (trail ++ before))
          (follow o t result session next go)
          (λ done. walked)
          walked
  follow-Triple trail pause session next go here step = returns walked _ (λ done. walked) tt here
  follow-Triple trail go_on session none go here step = completes trail session here
  follow-Triple trail go_on session (some n) go here step = step n refl
  follow-Triple trail (handle h) session none go here step = completes trail session here
  follow-Triple trail (handle h) session (some n) go here step = step n refl

  -- From a node to which the trail leads, with as many nodes left as the bound allows.
  walk :
      (left session : ℕ) (trail : List ℕ) (node : FlowNode) (nodes : List FlowNode) (c : Context)
      → IsTrail edges (node.id ∷ trail)
      → length trail + left ≤ most
      → StaysHere node.content
      → All (λ n. StaysHere n.content) nodes
      → Triple
          (at_trail (trail ++ before))
          (traverse_nodes o t run left session node nodes edges c)
          (λ done. walked)
          walked
  unfolding traverse_nodes execute_node
  walk zero session trail node nodes c along within stays all_stay =
      let here = ends_here trail (tail-IsTrail edges node.id trail along) (omega (arith, within)) in
      completes trail session here
  walk (suc left) session trail node nodes c along within stays all_stay =
      let here = ends_here trail (tail-IsTrail edges node.id trail along) (omega (arith, within)) in
      let there = ends_here (node.id ∷ trail) along (omega (arith, within)) in
      let now = at_trail ((node.id ∷ trail) ++ before) in
      let stable = trail-Stable ((node.id ∷ trail) ++ before) in
      bind walked (at_trail (trail ++ before)) (λ done. at_trail (trail ++ before)) (λ done. walked)
        _ _
        (keeps walked (at_trail (trail ++ before)) (update_session session (at_node node.id)) here (
          update_session-Keeps (at_trail (trail ++ before)) (trail-Stable (trail ++ before)) session
            _ tt))
        (λ updated.
          bind walked (at_trail (trail ++ before)) (λ done. now) (λ done. walked) _ _
            (track-Triple (at_trail (trail ++ before)) walked now
              (event_of c (node_executed node.id)) (λ s e f h. h.1)
              (λ s e f h. (ap (λ ids. node.id ∷ ids) h.0, refl)))
            (λ tracked.
              bind walked now (λ done. now) (λ done. walked) _ _
                (keeps walked now (execute_data o t run node.content node.id c session) there (
                  execute_data-Keeps o t now stable (λ patch usual. tt) c.workspace_id run
                    node.content node.id c session refl
                    (stays-IsFine now c.workspace_id run node.content stays)))
                (λ r.
                  bind walked now (λ done. now) (λ done. walked) _ _
                    (keeps walked now (persist o t node.content session r.1) there (
                      persist-Keeps o t now stable (λ patch usual. tt) c.workspace_id run
                        node.content session r.1))
                    (λ stored.
                      follow-Triple (node.id ∷ trail) r.0 session
                        (next_node node (chosen_handle r.0) nodes edges)
                        (λ n. traverse_nodes o t run left session n nodes edges r.1) there
                        (λ n e.
                          walk left session (node.id ∷ trail) n nodes r.1
                            (next_node-joined node (chosen_handle r.0) nodes edges e, along)
                            (omega (arith, within))
                            (next_node-All (λ m. StaysHere m.content) node (chosen_handle r.0) nodes
                              edges e all_stay)
                            all_stay)))))

-- Where no call of the database fails and no node of the flow goes to another flow, whatever the
-- nodes do and also if one throws: the nodes that a traversal executes are a walk along the edges of
-- the flow, and they are at most fifty.
pub traverse_nodes-Walked :
    (o : Outside) (t : Tables) (run : Context → M (Unit {0})) (session : ℕ) (node : FlowNode)
    (nodes : List FlowNode) (edges : List FlowEdge) (c : Context) (w : World)
    → StaysHere node.content
    → All (λ n. StaysHere n.content) nodes
    → w.faults ≡ []
    → Walked edges (executed w.events) 50 (
        executed (traverse_nodes o t run max_traversal_depth session node nodes edges c w).0.events)
traverse_nodes-Walked o t run session node nodes edges c w stays all_stay clean' =
    either (traverse_nodes o t run max_traversal_depth session node nodes edges c w) (
      walk o t run (executed w.events) 50 edges 50 session [] node nodes c tt (omega arith) stays
        all_stay w (refl, clean'))
  where
    either :
        (p : World × Result FlowError (Unit {0}))
        → Post {A = Unit {0}}
            (λ done s e f. Walked edges (executed w.events) 50 (executed e))
            (λ s e f. Walked edges (executed w.events) 50 (executed e))
            p
        → Walked edges (executed w.events) 50 (executed p.0.events)
    either (v, ok done) h = h
    either (v, err e) h = h
