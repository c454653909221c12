-- ===== src/FlowEngine/Engine/Runs/Whole.antt =====
-- A predicate through whole runs: new ones and those that go on, and the flows that they run.
use zernflow.Base.{
  ℕ, zero, suc, ◌≡◌, refl, ◌∙◌, Bool, true, Option, none, some, List, ◌∷◌, All, filter, All-every,
  All-implies, All-both, All-Mem,
}
use mathlib.Core.List.{Mem}
use zernflow.FlowEngine.Types.{
  trigger, send_message, condition, delay, add_tag, remove_tag, set_custom_field, http_request,
  go_to_flow, subscription, human_takeover, comment_reply, private_reply, ab_split, smart_delay,
  ai_response, enroll_sequence, other_node, NodeData, FlowNode, FlowEdge, Context,
}
use zernflow.FlowEngine.Engine.Store.{
  Flow, Tables, Session, Event, M, ◌>>=◌, load_error, out_of_fuel, Answer, row, no_row, unavailable,
  Patch, take_over, resumed, single,
}
use zernflow.FlowEngine.Engine.Outside.{Outside}
use zernflow.FlowEngine.Engine.Run.{max_traversal_depth}
use zernflow.FlowEngine.Engine.Start.{
  seed, is_runnable, is_flow_of, fresh_id, new_session, insert_session, node_after, start_node,
  start_at, start_in, start_flow, resume_at, resume_from, resume_context, resume_flow,
  resume_session, choose, start_or_resume, execute_flow,
}
use zernflow.FlowEngine.Engine.Keeps.{
  Pred, Keeps, IsTakeover, Stable, bind, bind_with, IsRow, single-Returns, return-Keeps,
  throw-Keeps, single-Keeps, write_returning-Keeps, update_session-Keeps, then-Keeps,
}
use zernflow.FlowEngine.Engine.Contexts.{IsLoaded, load_channel-Returns}
use zernflow.FlowEngine.Engine.Runs.{IsFine}
use zernflow.FlowEngine.Engine.Runs.Completion.{complete_session-Keeps, load_channel-Keeps}
use zernflow.FlowEngine.Engine.Runs.Traversal.{
  next_node-All, Lasting, event-Keeps, cancel_unresumable_session-Keeps, traverse_nodes-Keeps,
}

-- A new session, for a flow that may be started.
abbrev pub Admits : Pred → (ℕ → Type 0) → Type 0
Admits p Startable =
    (c : Context) (s : List Session) (e : List Event) (f : List Bool)
    → Startable c.flow_id
    → p s e f
    → p (new_session (fresh_id s) c ∷ s) e f

-- The nodes of a flow, of which every one is fine.
abbrev pub IsFineFlow : Pred → (Patch → Type 0) → ℕ → (Context → M (Unit {0})) → Flow → Type 0
IsFineFlow p allowed workspace run f = All (λ n. IsFine p allowed workspace run n.content) f.nodes

node_after-All :
    (P : FlowNode → Type 0) (nodes : List FlowNode) (edges : List FlowEdge)
    (start : Option FlowNode) {n : FlowNode}
    → node_after nodes edges start ≡ some n
    → All P nodes
    → P n
node_after-All P nodes edges none e fine = cc
node_after-All P nodes edges (some m) e fine = next_node-All P m none nodes edges e fine

module _ (o : Outside) (t : Tables) (p : Pred) {allowed : Patch → Type 0}
    (stable : Stable p allowed) (lasting : Lasting p)
    (usual : (patch : Patch) → ¬ IsTakeover patch → allowed patch) (Startable : ℕ → Type 0)
    (admits : Admits p Startable) (workspace : ℕ)
    (startable : (c : Context) (f : Flow)
      → c.workspace_id ≡ workspace
      → Mem f t.flows
      → is_runnable c f ≡ true
      → Startable c.flow_id)
    (run : Context → M (Unit {0})) where
  start_at-Keeps :
      (session : ℕ) (f : Flow) (c : Context) (start : Option FlowNode)
      → c.workspace_id ≡ workspace
      → IsFineFlow p allowed workspace run f
      → ((n : FlowNode) → start ≡ some n → IsFine p allowed workspace run n.content)
      → Keeps p (start_at o t run session f c start)
  start_at-Keeps session f c none here fine at = return-Keeps p tt
  start_at-Keeps session f c (some n) here fine at =
      traverse_nodes-Keeps o t p stable lasting usual workspace run max_traversal_depth session n
        f.nodes f.edges c here (at n refl) fine

  start_in-Keeps :
      (f : Flow) (c : Context) (session : Option ℕ)
      → c.workspace_id ≡ workspace
      → IsFineFlow p allowed workspace run f
      → Keeps p (start_in o t run f c session)
  unfolding start_node
  start_in-Keeps f c none here fine = return-Keeps p tt
  start_in-Keeps f c (some session) here fine =
      then-Keeps p _ _ (event-Keeps o t p stable lasting _) (
        start_at-Keeps session f c (start_node f.nodes f.edges) here fine (λ n e.
          node_after-All (λ m. IsFine p allowed workspace run m.content) f.nodes f.edges _ e fine))

  start_flow-Keeps :
      (c : Context) (answer : Answer Flow)
      → c.workspace_id ≡ workspace
      → IsRow (λ f. IsFineFlow p allowed workspace run f × Mem f t.flows) (is_runnable c) answer
      → Keeps p (start_flow o t run c answer)
  unfolding insert_session
  start_flow-Keeps c no_row here known = return-Keeps p tt
  start_flow-Keeps c unavailable here known = return-Keeps p tt
  start_flow-Keeps c (row f) here known =
      bind_with p (IsLoaded o t c) _ _ (load_channel-Keeps o t p stable c)
        (load_channel-Returns o t c)
        (λ loaded same.
          bind p _ _
            (write_returning-Keeps p _ stable.called (λ w h.
              admits loaded w.sessions w.events w.faults
                (rw same.1 (startable c f here known.0.1 known.1)) h))
            (λ session. start_in-Keeps f loaded session (same.0 ∙ here) known.0.0))

  resume_at-Keeps :
      (session : ℕ) (f : Flow) (c : Context) (next : Option FlowNode)
      → c.workspace_id ≡ workspace
      → IsFineFlow p allowed workspace run f
      → ((n : FlowNode) → next ≡ some n → IsFine p allowed workspace run n.content)
      → Keeps p (resume_at o t run session f c next)
  resume_at-Keeps session f c none here fine at =
      complete_session-Keeps o t p stable lasting.ending session
  resume_at-Keeps session f c (some n) here fine at =
      traverse_nodes-Keeps o t p stable lasting usual workspace run max_traversal_depth session n
        f.nodes f.edges c here (at n refl) fine

  resume_from-Keeps :
      (session : ℕ) (f : Flow) (c : Context) (node : Option FlowNode)
      → c.workspace_id ≡ workspace
      → IsFineFlow p allowed workspace run f
      → Keeps p (resume_from o t run session f c node)
  resume_from-Keeps session f c none here fine =
      cancel_unresumable_session-Keeps o t p stable lasting usual session
  resume_from-Keeps session f c (some n) here fine = resume_at-Keeps session f c _ here fine (λ m e.
      next_node-All (λ k. IsFine p allowed workspace run k.content) n none f.nodes f.edges e fine)

  resume_flow-Keeps :
      (s : Session) (c : Context) (answer : Answer Flow)
      → c.workspace_id ≡ workspace
      → IsRow (IsFineFlow p allowed workspace run) (is_flow_of c.workspace_id s) answer
      → Keeps p (resume_flow o t run s c answer)
  resume_flow-Keeps s c unavailable here known = throw-Keeps p (Unit {0}) load_error
  resume_flow-Keeps s c no_row here known =
      cancel_unresumable_session-Keeps o t p stable lasting usual s.id
  resume_flow-Keeps s c (row f) here known =
      bind_with p (IsLoaded o t c) _ _ (load_channel-Keeps o t p stable c)
        (load_channel-Returns o t c)
        (λ loaded same.
          then-Keeps p _ _ (update_session-Keeps p stable s.id resumed (usual resumed (λ x. x)))
            (resume_from-Keeps s.id f (resume_context o t run s loaded) _ (same.0 ∙ here) known.0))

  module _ (fine : All (IsFineFlow p allowed workspace run) t.flows) where
    pub resume_session-Keeps :
        (s : Session) (c : Context)
        → c.workspace_id ≡ workspace
        → Keeps p (resume_session o t run s c)
    unfolding resume_session
    resume_session-Keeps s c here =
        bind_with p (IsRow (IsFineFlow p allowed workspace run) (is_flow_of c.workspace_id s)) _ _
          (single-Keeps p _ stable.called)
          (single-Returns (IsFineFlow p allowed workspace run) (is_flow_of c.workspace_id s) t.flows
            fine)
          (λ answer known. resume_flow-Keeps s c answer here known)

    start_new-Keeps :
        (c : Context)
        → c.workspace_id ≡ workspace
        → Keeps p (single (λ w. filter (is_runnable c) t.flows) >>= start_flow o t run c)
    start_new-Keeps c here =
        bind_with p
          (IsRow (λ f. IsFineFlow p allowed workspace run f × Mem f t.flows) (is_runnable c)) _ _
          (single-Keeps p _ stable.called)
          (single-Returns (λ f. IsFineFlow p allowed workspace run f × Mem f t.flows)
            (is_runnable c) t.flows
            (All-both (IsFineFlow p allowed workspace run) (λ f. Mem f t.flows) t.flows fine
              (All-Mem t.flows)))
          (λ answer known. start_flow-Keeps c answer here known)

    choose-Keeps :
        (c : Context) (answer : Answer Session)
        → c.workspace_id ≡ workspace
        → Keeps p (choose o t run c answer)
    choose-Keeps c (row s) here = resume_session-Keeps s c here
    choose-Keeps c no_row here = start_new-Keeps c here
    choose-Keeps c unavailable here = start_new-Keeps c here

    pub start_or_resume-Keeps :
        (c : Context) → c.workspace_id ≡ workspace → Keeps p (start_or_resume o t run c)
    unfolding start_or_resume
    start_or_resume-Keeps c here =
        bind p _ _ (single-Keeps p _ stable.called) (λ answer. choose-Keeps (seed c) answer here)

-- A takeover is an allowed update, if the node is one.
abbrev pub MayTakeOver : (Patch → Type 0) → NodeData → Type 0
MayTakeOver allowed human_takeover = (time : ℕ) → allowed (take_over time)
MayTakeOver allowed _ = Unit

pub IsFine-node :
    (p : Pred) (allowed : Patch → Type 0) (workspace : ℕ) (run : Context → M (Unit {0}))
    → ((c : Context) → c.workspace_id ≡ workspace → Keeps p (run c))
    → (content : NodeData) → MayTakeOver allowed content
    → IsFine p allowed workspace run content
IsFine-node p allowed workspace run keep trigger over = tt
IsFine-node p allowed workspace run keep (send_message ms) over = tt
IsFine-node p allowed workspace run keep (condition logic cs) over = tt
IsFine-node p allowed workspace run keep (delay duration unit) over = tt
IsFine-node p allowed workspace run keep (add_tag add name) over = tt
IsFine-node p allowed workspace run keep (remove_tag add name) over = tt
IsFine-node p allowed workspace run keep (set_custom_field slug value) over = tt
IsFine-node p allowed workspace run keep (http_request r) over = tt
IsFine-node p allowed workspace run keep (go_to_flow flow) over = keep
IsFine-node p allowed workspace run keep (subscription b) over = tt
IsFine-node p allowed workspace run keep human_takeover over = over
IsFine-node p allowed workspace run keep (comment_reply text) over = tt
IsFine-node p allowed workspace run keep (private_reply text image) over = tt
IsFine-node p allowed workspace run keep (ab_split paths) over = tt
IsFine-node p allowed workspace run keep smart_delay over = tt
IsFine-node p allowed workspace run keep (ai_response r) over = tt
IsFine-node p allowed workspace run keep (enroll_sequence sequence) over = tt
IsFine-node p allowed workspace run keep other_node over = tt

module _ (o : Outside) (t : Tables) (p : Pred) {allowed : Patch → Type 0}
    (stable : Stable p allowed) (lasting : Lasting p)
    (usual : (patch : Patch) → ¬ IsTakeover patch → allowed patch) (Startable : ℕ → Type 0)
    (admits : Admits p Startable) (workspace : ℕ)
    (startable : (c : Context) (f : Flow)
      → c.workspace_id ≡ workspace
      → Mem f t.flows
      → is_runnable c f ≡ true
      → Startable c.flow_id)
    (over : All (λ f. All (λ n. MayTakeOver allowed n.content) f.nodes) t.flows) where
  -- With every flow that a flow runs.
  pub execute_flow-Keeps :
      (fuel : ℕ) (c : Context) → c.workspace_id ≡ workspace → Keeps p (execute_flow o t fuel c)
  unfolding execute_flow
  execute_flow-Keeps zero c here = throw-Keeps p (Unit {0}) out_of_fuel
  execute_flow-Keeps (suc fuel) c here =
      let run = execute_flow o t fuel in
      start_or_resume-Keeps o t p stable lasting usual Startable admits workspace startable run
        (All-implies
          (λ f nodes.
            All-implies
              (λ n may. IsFine-node p allowed workspace run (execute_flow-Keeps fuel) n.content may)
              f.nodes nodes)
          t.flows over)
        c here

-- A takeover is all that needs to be allowed.
pub may_take_over :
    (allowed : Patch → Type 0)
    → (content : NodeData) → (content ≡ human_takeover → (time : ℕ) → allowed (take_over time))
    → MayTakeOver allowed content
may_take_over allowed trigger over = tt
may_take_over allowed (send_message ms) over = tt
may_take_over allowed (condition logic cs) over = tt
may_take_over allowed (delay duration unit) over = tt
may_take_over allowed (add_tag add name) over = tt
may_take_over allowed (remove_tag add name) over = tt
may_take_over allowed (set_custom_field slug value) over = tt
may_take_over allowed (http_request r) over = tt
may_take_over allowed (go_to_flow flow) over = tt
may_take_over allowed (subscription b) over = tt
may_take_over allowed human_takeover over = over refl
may_take_over allowed (comment_reply text) over = tt
may_take_over allowed (private_reply text image) over = tt
may_take_over allowed (ab_split paths) over = tt
may_take_over allowed smart_delay over = tt
may_take_over allowed (ai_response r) over = tt
may_take_over allowed (enroll_sequence sequence) over = tt
may_take_over allowed other_node over = tt

pub All-MayTakeOver :
    (allowed : Patch → Type 0)
    → ((patch : Patch) → allowed patch)
    → (flows : List Flow) → All (λ f. All (λ n. MayTakeOver allowed n.content) f.nodes) flows
All-MayTakeOver allowed every flows =
    All-every
      (λ f.
        All-every (λ n. may_take_over allowed n.content (λ e time. every (take_over time))) f.nodes)
      flows
