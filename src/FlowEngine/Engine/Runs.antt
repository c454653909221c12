-- ===== src/FlowEngine/Engine/Runs.antt =====
-- A predicate that the handlers keep, through the nodes of a run, a traversal, and whole runs.
pub mod Completion
pub mod Traversal
pub mod Whole
use zernflow.Base.{
  ℕ, zero, suc, ◌≡◌, refl, Bool, true, false, ◌&&◌, Option, none, some, List, [], ◌∷◌, arith, ◌==◌,
  All, filter, find,
}
use zernflow.FlowEngine.Types.{
  NodeData, trigger, send_message, condition, delay, add_tag, remove_tag, set_custom_field,
  http_request, go_to_flow, subscription, human_takeover, comment_reply, private_reply, ab_split,
  smart_delay, ai_response, enroll_sequence, other_node, FlowNode, FlowEdge, Variables, Context,
}
use zernflow.FlowEngine.Engine.Store.{
  Flow, Tables, Session, Event, EventType, World, M, ◌>>=◌, ◌>>◌, return, throw, load_error,
  FlowError, Answer, row, no_row, unavailable, Patch, resumed, cancel, at_node, store_variables,
  wait_for_input, wait_until, take_over, apply_patch, update_where, update_session, track,
}
use zernflow.FlowEngine.Engine.Outside.{Outside}
use zernflow.FlowEngine.Engine.Nodes.{NodeResult, pause, go_on, handle}
use zernflow.FlowEngine.Engine.Rows.{variables_of}
use zernflow.FlowEngine.Engine.Run.{
  is_open, complete, complete_row, next_node, flow_completed_by, after_completion, complete_session,
  or_load_error, cancel_unresumable_session, execute_data, execute_node, keep, persist, follow,
  chosen_handle, traverse_nodes,
}
use zernflow.FlowEngine.Engine.Keeps.{
  Pred, On, Keeps, IsTakeover, Stable, bind, return-Keeps, throw-Keeps, single-Keeps, write-Keeps,
  write_returning-Keeps, update_session-Keeps, then-Keeps,
}
use zernflow.FlowEngine.Engine.Handlers.{
  execute_condition-Keeps, execute_delay-Keeps, execute_tag-Keeps, execute_set_field-Keeps,
  execute_http_request-Keeps, execute_human_takeover-Keeps, execute_subscription-Keeps,
  execute_ab_split-Keeps, execute_enroll_sequence-Keeps,
}
use zernflow.FlowEngine.Engine.Handlers.Sending.{
  execute_send_message-Keeps, execute_comment_reply-Keeps, execute_private_reply-Keeps,
  execute_ai_response-Keeps,
}

-- What a node must not break: a takeover is an allowed update, and a flow of the workspace that it
-- runs keeps `p`.
abbrev pub IsFine : Pred → (Patch → Type 0) → ℕ → (Context → M (Unit {0})) → NodeData → Type 0
IsFine p allowed workspace run human_takeover = (time : ℕ) → allowed (take_over time)
IsFine p allowed workspace run (go_to_flow flow) =
    (c : Context) → c.workspace_id ≡ workspace → Keeps p (run c)
IsFine p allowed workspace run _ = Unit

module _ (o : Outside) (t : Tables) (p : Pred) {allowed : Patch → Type 0}
    (stable : Stable p allowed) (usual : (patch : Patch) → ¬ IsTakeover patch → allowed patch)
    (workspace : ℕ) (run : Context → M (Unit {0})) where
  kept : (m : M NodeResult) (c : Context) → Keeps p m → Keeps p (m >>= keep o t c)
  kept m c h = bind p _ _ h (λ result. return-Keeps p _)

  pub execute_data-Keeps :
      (content : NodeData) (node : ℕ) (c : Context) (session : ℕ)
      → c.workspace_id ≡ workspace
      → IsFine p allowed workspace run content
      → Keeps p (execute_data o t run content node c session)
  unfolding execute_data
  execute_data-Keeps trigger node c session here fine = return-Keeps p _
  execute_data-Keeps (send_message ms) node c session here fine =
      bind p _ _ (execute_send_message-Keeps o t p stable ms c session node)
        (λ c'. return-Keeps p _)
  execute_data-Keeps (condition logic cs) node c session here fine =
      kept _ c (execute_condition-Keeps o t p stable logic cs c)
  execute_data-Keeps (delay duration unit) node c session here fine =
      kept _ c (execute_delay-Keeps o t p stable usual duration unit session node c)
  execute_data-Keeps (add_tag add name) node c session here fine =
      kept _ c (execute_tag-Keeps o t p stable add name c)
  execute_data-Keeps (remove_tag add name) node c session here fine =
      kept _ c (execute_tag-Keeps o t p stable add name c)
  execute_data-Keeps (set_custom_field slug value) node c session here fine =
      kept _ c (execute_set_field-Keeps o t p stable slug value c)
  execute_data-Keeps (http_request r) node c session here fine =
      bind p _ _ (execute_http_request-Keeps o t p stable r c) (λ c'. return-Keeps p _)
  execute_data-Keeps (go_to_flow flow) node c session here fine =
      then-Keeps p _ _ (fine _ here) (return-Keeps p _)
  execute_data-Keeps (subscription b) node c session here fine =
      kept _ c (execute_subscription-Keeps o t p stable b c)
  execute_data-Keeps human_takeover node c session here fine =
      kept _ c (execute_human_takeover-Keeps o t p stable fine session c)
  execute_data-Keeps (comment_reply text) node c session here fine =
      kept _ c (execute_comment_reply-Keeps o t p stable text c session node)
  execute_data-Keeps (private_reply text image) node c session here fine =
      kept _ c (execute_private_reply-Keeps o t p stable text image c session node)
  execute_data-Keeps (ab_split paths) node c session here fine =
      kept _ c (execute_ab_split-Keeps o t p stable paths)
  execute_data-Keeps smart_delay node c session here fine =
      then-Keeps p _ _ (update_session-Keeps p stable session _ (usual _ (λ x. x)))
        (return-Keeps p _)
  execute_data-Keeps (ai_response r) node c session here fine =
      execute_ai_response-Keeps o t p stable (usual cancel (λ x. x)) r c session node
  execute_data-Keeps (enroll_sequence sequence) node c session here fine =
      kept _ c (execute_enroll_sequence-Keeps o t p stable sequence c)
  execute_data-Keeps other_node node c session here fine = return-Keeps p _

  store_variables-Keeps :
      (session : ℕ) (c : Context)
      → Keeps p (update_session session (store_variables (variables_of c)) >> return tt)
  store_variables-Keeps session c =
      then-Keeps p _ _ (update_session-Keeps p stable session _ (usual _ (λ x. x)))
        (return-Keeps p tt)

  pub persist-Keeps :
      (content : NodeData) (session : ℕ) (c : Context) → Keeps p (persist o t content session c)
  persist-Keeps (ai_response r) session c = store_variables-Keeps session c
  persist-Keeps (http_request r) session c = store_variables-Keeps session c
  persist-Keeps trigger session c = return-Keeps p tt
  persist-Keeps (send_message ms) session c = return-Keeps p tt
  persist-Keeps (condition logic cs) session c = return-Keeps p tt
  persist-Keeps (delay duration unit) session c = return-Keeps p tt
  persist-Keeps (add_tag add name) session c = return-Keeps p tt
  persist-Keeps (remove_tag add name) session c = return-Keeps p tt
  persist-Keeps (set_custom_field slug value) session c = return-Keeps p tt
  persist-Keeps (go_to_flow flow) session c = return-Keeps p tt
  persist-Keeps (subscription b) session c = return-Keeps p tt
  persist-Keeps human_takeover session c = return-Keeps p tt
  persist-Keeps (comment_reply text) session c = return-Keeps p tt
  persist-Keeps (private_reply text image) session c = return-Keeps p tt
  persist-Keeps (ab_split paths) session c = return-Keeps p tt
  persist-Keeps smart_delay session c = return-Keeps p tt
  persist-Keeps (enroll_sequence sequence) session c = return-Keeps p tt
  persist-Keeps other_node session c = return-Keeps p tt
