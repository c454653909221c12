-- ===== src/FlowEngine/Engine/Tests.antt =====
-- The theorems of the flow engine at concrete inputs: a flow that goes to another one, which tags the
-- contact and waits for its next message.
use zernflow.Base.{
  ℕ, Bool, ◌≡◌, ◌≢◌, ◌⊎◌, refl, none, some, List, [], ◌∷◌, true, false, map, arith, All,
  if◌then◌else◌, ◌==◌,
}
use zernflow.Base.Json.{Text, not_a_number, codes}
use zernflow.Base.Result.{ok, err}
use zernflow.FlowEngine.Types.{
  NodeData, trigger, add_tag, go_to_flow, smart_delay, FlowNode, FlowEdge, Context,
}
use zernflow.Base.Json.{decimal}
use zernflow.FlowEngine.Reply.{KeyInput, key_text}
use zernflow.FlowEngine.Reply.Laws.{HasRowIds, key_text_injective}
use zernflow.FlowEngine.Engine.Replies.{key_of}
use zernflow.FlowEngine.Engine.Store.{
  Flow, Tables, Session, active, cancelled, World, out_of_fuel, scheduled_jobs, single, write,
  write_returning, write_rows, write_rows_returning, ask, track, return, throw, update_session,
  update_where, apply_patch, ◌>>=◌,
}
use zernflow.FlowEngine.Engine.Outside.{Outside, pending_operation}
use zernflow.FlowEngine.Engine.Run.{
  max_traversal_depth, traverse_nodes, execute_node, execute_data, next_node, load_channel,
  complete_session,
}
use zernflow.FlowEngine.Engine.Nodes.{execute_tag}
use zernflow.FlowEngine.Engine.Rows.{upsert_tag, set_variable}
use zernflow.FlowEngine.Engine.Start.{execute_flow, start_or_resume, insert_session, start_node}
use zernflow.FlowEngine.Engine.Scope.{IsPublishedIn, execute_flow-scoped}
use zernflow.FlowEngine.Engine.Lifecycle.{HasStatus, execute_flow-over, traverse_nodes-cancelled}
use zernflow.FlowEngine.Engine.Walk.{Walked, executed, traverse_nodes-Walked}
use zernflow.FlowEngine.Engine.Loops.{self_flow, execute_flow-exhausts}
use zernflow.FlowEngine.Engine.Settle.{Settled}
use zernflow.FlowEngine.Engine.Settle.Traversal.{traverse_nodes-Settled}

abbrev outside : Outside
outside = record {
  gateway_configured = true;
  reply = λ n id reply. some pending_operation;
  page = λ n id cursor. none;
  fetch = λ n request. none;
  generate = λ n request messages. none;
  secret = λ n. some none;
  route = λ n. some scheduled_jobs;
  random = λ n. (1, 2);
  now = λ n. n;
  parse_json = λ text. none;
  stringify = λ value. [];
  to_text = λ value. [];
  to_number = λ value. not_a_number;
  sha256 = λ text. text;
  id_text = decimal;
}

abbrev node : ℕ → NodeData → FlowNode
node id content = record { id = id; content = content }

abbrev edge : ℕ → ℕ → FlowEdge
edge source target = record { source = source; target = target; source_handle = none }

abbrev greeting_nodes : List FlowNode
greeting_nodes = node 1 trigger ∷ node 2 (add_tag true (codes "lead")) ∷ node 3 smart_delay ∷ []

abbrev greeting_edges : List FlowEdge
greeting_edges = edge 1 2 ∷ edge 2 3 ∷ []

abbrev greeting : Flow
greeting = record {
  id = 1;
  workspace_id = 7;
  is_published = true;
  nodes = greeting_nodes;
  edges = greeting_edges;
}

abbrev first : Flow
first = record {
  id = 2;
  workspace_id = 7;
  is_published = true;
  nodes = node 4 trigger ∷ node 5 (go_to_flow 1) ∷ [];
  edges = edge 4 5 ∷ [];
}

-- A flow of another workspace.
abbrev foreign : Flow
foreign = record first { id = 3; workspace_id = 8 }

abbrev tables_of : List Flow → Tables
tables_of flows = record {
  flows = flows;
  channels = [];
  conversations = [];
  field_definitions = [];
  sequences = [];
}

abbrev tables : Tables
tables = tables_of (greeting ∷ first ∷ foreign ∷ [])

abbrev old_session : Session
old_session = record {
  id = 0;
  contact_id = 5;
  flow_id = 40;
  channel_id = 6;
  status = cancelled;
  current_node_id = none;
  variables = [];
  waiting_until = none;
  waiting_for_input = false;
  human_takeover_at = none;
}

abbrev world : World
world = record {
  sessions = old_session ∷ [];
  events = [];
  faults = [];
  rows = record {
    contacts = (5, true) ∷ [];
    tags = [];
    contact_tags = [];
    field_values = [];
    enrollments = [];
    resumes = [];
    messages = [];
    paused = [];
    replies = [];
  };
  calls = 0;
}

abbrev context : Context
context = record {
  flow_id = 2;
  channel_id = 6;
  contact_id = 5;
  conversation_id = 9;
  workspace_id = 7;
  late_conversation_id = none;
  late_account_id = none;
  message_text = some (codes "hi");
  variables = none;
  platform = none;
}

execute_flow-scoped_example :
    All
      (λ s. (s.flow_id ≡ 40) ⊎ IsPublishedIn tables 7 s.flow_id)
      (execute_flow outside tables 3 context world).0.sessions
execute_flow-scoped_example =
    execute_flow-scoped outside tables 3 context world (λ id. id ≡ 40) (refl, tt)

execute_flow-over_example :
    HasStatus (λ s. s ≢ active) 0 (execute_flow outside tables 3 context world).0.sessions
execute_flow-over_example =
    execute_flow-over outside tables 3 context world 0 (((λ same e. cc), tt), omega arith)

-- The last node of its flow: the completion finds the session cancelled.
traverse_nodes-cancelled_example :
    HasStatus
      (λ s. s ≡ cancelled)
      0
      (traverse_nodes outside
        (tables_of [])
        (λ c. execute_flow outside (tables_of []) 2 c)
        max_traversal_depth
        0
        (node 2 (add_tag true (codes "lead")))
        (node 2 (add_tag true (codes "lead")) ∷ [])
        []
        context
        world).0.sessions
traverse_nodes-cancelled_example =
    traverse_nodes-cancelled outside (tables_of []) 2 max_traversal_depth 0
      (node 2 (add_tag true (codes "lead"))) (node 2 (add_tag true (codes "lead")) ∷ []) [] context
      world (λ e. cc) ((λ e. cc), tt) tt (((λ same. refl), tt), omega arith)

traverse_nodes-Walked_example : Walked greeting_edges [] 50 (
    executed
      (traverse_nodes outside tables
        (λ c. execute_flow outside tables 0 c)
        max_traversal_depth
        0
        (node 2 (add_tag true (codes "lead")))
        greeting_nodes
        greeting_edges
        context
        world).0.events)
traverse_nodes-Walked_example =
    traverse_nodes-Walked outside tables (λ c. execute_flow outside tables 0 c) 0
      (node 2 (add_tag true (codes "lead"))) greeting_nodes greeting_edges context world tt
      (tt, (tt, (tt, tt))) refl

execute_flow-exhausts_example :
    (execute_flow outside (tables_of (self_flow 2 7 ∷ [])) 4 context world).1 ≡ err out_of_fuel
execute_flow-exhausts_example =
    execute_flow-exhausts outside (tables_of (self_flow 2 7 ∷ [])) 4 context world refl (refl, tt)
      refl

-- The contact is tagged, and the session of the flow that the first one went to waits.
greeting_run :
    map {B = ℕ × Bool}
      (λ s. (s.flow_id, s.waiting_for_input))
      (execute_flow outside tables 3 context world).0.sessions
    ≡ (1, true) ∷ (2, false) ∷ (40, false) ∷ []
unfolding execute_flow start_or_resume insert_session start_node load_channel complete_session
    traverse_nodes execute_node execute_data next_node execute_tag upsert_tag single write
    write_returning write_rows write_rows_returning ask track return throw update_session
    update_where apply_patch ◌>>=◌ set_variable
greeting_run = refl

-- The session is active when its traversal starts.
abbrev active_session : Session
active_session = record old_session { status = active }

abbrev active_world : World
active_world = record world { sessions = active_session ∷ [] }

ends_of_greeting :
    (traverse_nodes outside tables
      (λ c. execute_flow outside tables 0 c)
      max_traversal_depth
      0
      (node 2 (add_tag true (codes "lead")))
      greeting_nodes
      greeting_edges
      context
      active_world).1
    ≡ ok tt
unfolding traverse_nodes execute_node execute_data next_node execute_tag upsert_tag single write
    write_returning write_rows write_rows_returning ask track return throw update_session
    update_where apply_patch ◌>>=◌
ends_of_greeting = refl

traverse_nodes-Settled_example :
    Settled 0
      (traverse_nodes outside tables
        (λ c. execute_flow outside tables 0 c)
        max_traversal_depth
        0
        (node 2 (add_tag true (codes "lead")))
        greeting_nodes
        greeting_edges
        context
        active_world).0.sessions
traverse_nodes-Settled_example =
    traverse_nodes-Settled outside tables (λ c. execute_flow outside tables 0 c) 0
      (node 2 (add_tag true (codes "lead"))) greeting_nodes greeting_edges context active_world tt
      (tt, (tt, (tt, tt))) refl ends_of_greeting

-- A colon in the identifier of the node.
abbrev key : KeyInput
key = record {
  workspace_id = codes "7";
  flow_id = codes "2";
  session_id = codes "10";
  node_id = codes "4:1";
  message_index = 0;
}

abbrev text_of_id : ℕ → Text
text_of_id id = if id == 4 then codes "4:1" else decimal id

same_key_text : key_text key ≡ key_text (key_of text_of_id context 10 4 0)
unfolding key_text decimal
same_key_text = refl

no_colon : HasRowIds key
no_colon = (((λ e. cc), tt), ((λ e. cc), tt), ((λ e. cc), ((λ e. cc), tt)))

key_text_injective_example : key ≡ key_of text_of_id context 10 4 0
unfolding decimal
key_text_injective_example =
    key_text_injective key (key_of text_of_id context 10 4 0) no_colon no_colon same_key_text
