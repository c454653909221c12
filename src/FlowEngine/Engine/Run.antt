-- ===== src/FlowEngine/Engine/Run.antt =====
-- `executeFlow`, `resumeSession`, `traverseNodes`, `executeNode` and `completeSession`. A node of the
-- kind `goToFlow` runs another flow, without a bound in the code: the runs within runs go on fuel.
use zernflow.Base.{
  ℕ, zero, suc, Bool, true, false, ◌&&◌, Option, none, some, List, filter, find, ◌==◌,
}
use zernflow.Base.Json.{Text, text_eq}
use zernflow.FlowEngine.Types.{
  NodeData, trigger, send_message, condition, delay, add_tag, remove_tag, set_custom_field,
  http_request, go_to_flow, subscription, human_takeover, comment_reply, private_reply, ab_split,
  smart_delay, ai_response, enroll_sequence, other_node, FlowNode, FlowEdge, Context,
}
use zernflow.FlowEngine.Messages.{nonempty}
use zernflow.FlowEngine.Engine.Store.{
  Flow, Channel, Conversation, Tables, Session, completed, is_active, flow_completed, node_executed,
  World, M, ◌>>=◌, ◌>>◌, return, throw, load_error, Answer, row, single_of, single, write_returning,
  cancel, at_node, store_variables, wait_for_input, update_where, update_session, track,
}
use zernflow.FlowEngine.Engine.Outside.{Outside}
use zernflow.FlowEngine.Engine.Nodes.{
  NodeResult, pause, go_on, handle, execute_condition, execute_delay, execute_tag,
  execute_set_field, execute_http_request, execute_human_takeover, execute_subscription,
  execute_ab_split, execute_enroll_sequence,
}
use zernflow.FlowEngine.Engine.Rows.{variables_of}
use zernflow.FlowEngine.Engine.Replies.{
  event_of, execute_send_message, execute_comment_reply, execute_private_reply,
}
use zernflow.FlowEngine.Engine.Ai.{execute_ai_response}

abbrev pub max_traversal_depth : ℕ
max_traversal_depth = 50

-- `.eq("id", sessionId).eq("status", "active")`.
abbrev pub is_open : ℕ → Session → Bool
is_open id s = s.id == id && is_active s.status

abbrev pub complete : Session → Session
complete s = record s { status = completed }

abbrev pub complete_row : ℕ → World → World × Answer Session
complete_row id w = (
  record w { sessions = update_where (is_open id) complete w.sessions },
  single_of (filter (is_open id) w.sessions),
)

abbrev pub is_edge : FlowNode → Option Text → FlowEdge → Bool
is_edge node none e = e.source == node.id
is_edge node (some h) e =
    e.source == node.id && elim e.source_handle [ none ↦ false | some k ↦ text_eq k h ]

abbrev pub chosen_handle : NodeResult → Option Text
chosen_handle (handle h) = some h
chosen_handle _ = none

abbrev pub target_node : Option FlowEdge → List FlowNode → Option FlowNode
target_node none nodes = none
target_node (some e) nodes = find (λ n. n.id == e.target) nodes

-- The node behind the first edge from a node, of those with the handle if there is one.
unfoldable pub next_node : FlowNode → Option Text → List FlowNode → List FlowEdge → Option FlowNode
next_node node h nodes edges = target_node (find (is_edge node h) edges) nodes

module _ (o : Outside) (t : Tables) where
  abbrev pub flow_completed_by : Session → Answer Flow → M (Unit {0})
  flow_completed_by s (row f) =
      track (record {
        workspace_id = f.workspace_id;
        flow_id = s.flow_id;
        contact_id = s.contact_id;
        type = flow_completed;
      })
      >> return tt
  flow_completed_by s _ = return tt

  abbrev pub after_completion : Option (Answer Session) → M (Unit {0})
  after_completion (some (row s)) =
      single (λ w. filter (λ f. f.id == s.flow_id) t.flows) >>= flow_completed_by s
  after_completion _ = return tt

  -- Only an active session can complete.
  unfoldable pub complete_session : ℕ → M (Unit {0})
  unfolding update_where
  complete_session id = write_returning (complete_row id) >>= after_completion

  abbrev pub or_load_error : Bool → M (Unit {0})
  or_load_error true = return tt
  or_load_error false = throw load_error

  unfoldable pub cancel_unresumable_session : ℕ → M (Unit {0})
  cancel_unresumable_session id = update_session id cancel >>= or_load_error

  abbrev pub keep : Context → NodeResult → M (NodeResult × Context)
  keep c result = return (result, c)

  -- The run of a node by its data; `run` is `executeFlow`.
  unfoldable pub execute_data :
      (Context → M (Unit {0})) → NodeData → ℕ → Context → ℕ → M (NodeResult × Context)
  unfolding execute_condition execute_delay execute_tag execute_set_field execute_http_request
      execute_human_takeover execute_subscription execute_ab_split execute_enroll_sequence
      execute_send_message execute_comment_reply execute_private_reply execute_ai_response
  execute_data run trigger node c session = return (go_on, c)
  execute_data run (send_message messages) node c session =
      execute_send_message o t messages c session node >>= (λ c'. return (go_on, c'))
  execute_data run (condition logic conditions) node c session =
      execute_condition o t logic conditions c >>= keep c
  execute_data run (delay duration unit) node c session =
      execute_delay o t duration unit session node c >>= keep c
  execute_data run (add_tag add name) node c session = execute_tag o t add name c >>= keep c
  execute_data run (remove_tag add name) node c session = execute_tag o t add name c >>= keep c
  execute_data run (set_custom_field slug value) node c session =
      execute_set_field o t slug value c >>= keep c
  execute_data run (http_request request) node c session =
      execute_http_request o t request c >>= (λ c'. return (go_on, c'))
  execute_data run (go_to_flow flow) node c session =
      run (record c { flow_id = flow }) >> return (pause, c)
  execute_data run (subscription subscribe) node c session =
      execute_subscription o t subscribe c >>= keep c
  execute_data run human_takeover node c session = execute_human_takeover o t session c >>= keep c
  execute_data run (comment_reply text) node c session =
      execute_comment_reply o t text c session node >>= keep c
  execute_data run (private_reply text image) node c session =
      execute_private_reply o t text image c session node >>= keep c
  execute_data run (ab_split paths) node c session = execute_ab_split o t paths >>= keep c
  execute_data run smart_delay node c session =
      update_session session (wait_for_input node) >> return (pause, c)
  execute_data run (ai_response request) node c session =
      execute_ai_response o t request c session node
  execute_data run (enroll_sequence sequence) node c session =
      execute_enroll_sequence o t sequence c >>= keep c
  execute_data run other_node node c session = return (go_on, c)

  unfoldable pub execute_node :
      (Context → M (Unit {0})) → FlowNode → Context → ℕ → M (NodeResult × Context)
  unfolding execute_data
  execute_node run node c session = execute_data run node.content node.id c session

  -- The variables that a node may have written outlive a pause.
  abbrev pub persist : NodeData → ℕ → Context → M (Unit {0})
  persist (ai_response request) session c =
      update_session session (store_variables (variables_of c)) >> return tt
  persist (http_request request) session c =
      update_session session (store_variables (variables_of c)) >> return tt
  persist _ session c = return tt

  -- What follows a node: nothing, the completion of the session, or the next node.
  abbrev pub follow : NodeResult → ℕ → Option FlowNode → (FlowNode → M (Unit {0})) → M (Unit {0})
  follow pause session next go = return tt
  follow _ session none go = complete_session session
  follow _ session (some n) go = go n

  -- `traverseNodes`, by the nodes that are left of the greatest depth.
  unfoldable pub traverse_nodes :
      (Context → M (Unit {0}))
      → ℕ
      → ℕ
      → FlowNode
      → List FlowNode
      → List FlowEdge
      → Context
      → M (Unit {0})
  unfolding complete_session execute_node next_node
  traverse_nodes run zero session node nodes edges c = complete_session session
  traverse_nodes run (suc left) session node nodes edges c =
      update_session session (at_node node.id)
      >> (track (event_of c (node_executed node.id))
          >> (execute_node run node c session >>= (λ r.
              persist node.content session r.1
              >> follow r.0 session (next_node node (chosen_handle r.0) nodes edges)
                  (λ n. traverse_nodes run left session n nodes edges r.1))))

  abbrev pub with_platform : Context → Answer Channel → Context
  with_platform c (row channel) = record c {
    platform = some channel.platform;
    late_account_id = elim (nonempty c.late_account_id) [
      | none ↦ channel.late_account_id
      | some a ↦ some a
    ];
  }
  with_platform c _ = record c { platform = none }

  abbrev pub with_conversation : Context → Answer Conversation → Context
  with_conversation c (row conversation) = record c {
    late_conversation_id = elim (nonempty conversation.late_conversation_id) [
      | none ↦ c.late_conversation_id
      | some id ↦ some id
    ];
  }
  with_conversation c _ = c

  -- The platform and the account of the channel, and the conversation of the gateway if it is not set.
  abbrev pub load_conversation : Option Text → Context → M Context
  load_conversation (some id) c = return c
  load_conversation none c =
      single (λ w. filter (λ v. v.id == c.conversation_id) t.conversations)
      >>= (λ answer. return (with_conversation c answer))

  abbrev pub load_with : Context → M Context
  load_with c = load_conversation (nonempty c.late_conversation_id) c

  unfoldable pub load_channel : Context → M Context
  load_channel c =
      single (λ w. filter (λ h. h.id == c.channel_id) t.channels)
      >>= (λ answer. load_with (with_platform c answer))
