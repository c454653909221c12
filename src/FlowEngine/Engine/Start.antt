-- ===== src/FlowEngine/Engine/Start.antt =====
-- `executeFlow` and `resumeSession`: what a message starts, a new run of its flow or the rest of one
-- that waits for it.
use zernflow.Base.{
  ℕ, zero, suc, max, Bool, true, false, ◌&&◌, Option, none, some, List, [], ◌∷◌, filter, find, ◌==◌,
}
use zernflow.Base.Json.{Text, null, str, codes}
use zernflow.FlowEngine.Types.{NodeData, trigger, FlowNode, FlowEdge, Variables, Context}
use zernflow.FlowEngine.Interpolate.{variable}
use zernflow.FlowEngine.Messages.{nonempty}
use zernflow.FlowEngine.Engine.Store.{
  Flow, Tables, Session, active, is_active, flow_started, World, M, ◌>>=◌, ◌>>◌, return, throw,
  load_error, out_of_fuel, Answer, row, no_row, unavailable, single, write_returning, resumed,
  update_session, track,
}
use zernflow.FlowEngine.Engine.Outside.{Outside}
use zernflow.FlowEngine.Engine.Rows.{variables_of, set_variable}
use zernflow.FlowEngine.Engine.Replies.{event_of}
use zernflow.FlowEngine.Engine.Run.{
  max_traversal_depth, next_node, complete_session, cancel_unresumable_session, traverse_nodes,
  load_channel,
}

-- `variables.message = text`, and the same for a variable that is not set, if there is a text.
abbrev pub put_message : Option Text → Variables → Variables
put_message none vs = vs
put_message (some text) vs = set_variable (codes "message") (str text) vs

abbrev pub default_message : Option Text → Variables → Variables
default_message text vs = elim (variable (codes "message") vs) [
  | none ↦ put_message text vs
  | some null ↦ put_message text vs
  | some _ ↦ vs
]

abbrev pub seed : Context → Context
seed c = record c { variables = some (default_message (nonempty c.message_text) (variables_of c)) }

-- An active session of the contact in the channel that waits for a message.
abbrev pub is_waiting : Context → Session → Bool
is_waiting c s =
    s.contact_id == c.contact_id
    && s.channel_id == c.channel_id
    && is_active s.status
    && s.waiting_for_input

-- A published flow of the workspace; a session goes on with a flow of the workspace in any status.
abbrev pub is_runnable : Context → Flow → Bool
is_runnable c f = f.id == c.flow_id && f.workspace_id == c.workspace_id && f.is_published

abbrev pub is_flow_of : ℕ → Session → Flow → Bool
is_flow_of workspace s f = f.id == s.flow_id && f.workspace_id == workspace

abbrev pub fresh_id : List Session → ℕ
fresh_id [] = 0
fresh_id (s ∷ ss) = max (suc s.id) (fresh_id ss)

abbrev pub new_session : ℕ → Context → Session
new_session id c = record {
  id = id;
  contact_id = c.contact_id;
  flow_id = c.flow_id;
  channel_id = c.channel_id;
  status = active;
  current_node_id = none;
  variables = variables_of c;
  waiting_until = none;
  waiting_for_input = false;
  human_takeover_at = none;
}

unfoldable pub insert_session : Context → World → World × ℕ
insert_session c w =
    let id = fresh_id w.sessions in (record w { sessions = new_session id c ∷ w.sessions }, id)

abbrev pub is_trigger : NodeData → Bool
is_trigger trigger = true
is_trigger _ = false

abbrev pub node_after : List FlowNode → List FlowEdge → Option FlowNode → Option FlowNode
node_after nodes edges none = none
node_after nodes edges (some n) = next_node n none nodes edges

-- The node behind the trigger.
unfoldable pub start_node : List FlowNode → List FlowEdge → Option FlowNode
unfolding next_node
start_node nodes edges = node_after nodes edges (find (λ n. is_trigger n.content) nodes)

module _ (o : Outside) (t : Tables) (run : Context → M (Unit {0})) where
  abbrev pub start_at : ℕ → Flow → Context → Option FlowNode → M (Unit {0})
  start_at session f c none = return tt
  start_at session f c (some n) =
      traverse_nodes o t run max_traversal_depth session n f.nodes f.edges c

  abbrev pub start_in : Flow → Context → Option ℕ → M (Unit {0})
  start_in f c none = return tt
  start_in f c (some session) =
      track (event_of c flow_started) >> start_at session f c (start_node f.nodes f.edges)

  abbrev pub start_flow : Context → Answer Flow → M (Unit {0})
  start_flow c (row f) =
      load_channel o t c
      >>= (λ loaded. write_returning (insert_session loaded) >>= start_in f loaded)
  start_flow c _ = return tt

  abbrev pub resume_at : ℕ → Flow → Context → Option FlowNode → M (Unit {0})
  resume_at session f c none = complete_session o t session
  resume_at session f c (some n) =
      traverse_nodes o t run max_traversal_depth session n f.nodes f.edges c

  abbrev pub find_node : Option ℕ → List FlowNode → Option FlowNode
  find_node none nodes = none
  find_node (some id) nodes = find (λ n. n.id == id) nodes

  -- The node that the session stopped at may be gone.
  abbrev pub resume_from : ℕ → Flow → Context → Option FlowNode → M (Unit {0})
  resume_from session f c none = cancel_unresumable_session o t session
  resume_from session f c (some n) = resume_at session f c (next_node n none f.nodes f.edges)

  abbrev pub resume_context : Session → Context → Context
  resume_context s c = record c {
    variables = some (put_message (nonempty c.message_text) s.variables);
  }

  abbrev pub resume_flow : Session → Context → Answer Flow → M (Unit {0})
  resume_flow s c unavailable = throw load_error
  resume_flow s c no_row = cancel_unresumable_session o t s.id
  resume_flow s c (row f) = load_channel o t c >>= (λ loaded.
      update_session s.id resumed
      >> resume_from s.id f (resume_context s loaded) (find_node s.current_node_id f.nodes))

  unfoldable pub resume_session : Session → Context → M (Unit {0})
  unfolding load_channel complete_session cancel_unresumable_session traverse_nodes next_node
      set_variable
  resume_session s c =
      single (λ w. filter (is_flow_of c.workspace_id s) t.flows) >>= resume_flow s c

  abbrev pub choose : Context → Answer Session → M (Unit {0})
  choose c (row s) = resume_session s c
  choose c _ = single (λ w. filter (is_runnable c) t.flows) >>= start_flow c

  unfoldable pub start_or_resume : Context → M (Unit {0})
  unfolding resume_session insert_session start_node
  start_or_resume c =
      let seeded = seed c in single (λ w. filter (is_waiting seeded) w.sessions) >>= choose seeded

module _ (o : Outside) (t : Tables) where
  unfoldable pub execute_flow : ℕ → Context → M (Unit {0})
  unfolding start_or_resume
  execute_flow zero c = throw out_of_fuel
  execute_flow (suc fuel) c = start_or_resume o t (execute_flow fuel) c
