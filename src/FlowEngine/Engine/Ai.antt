-- ===== src/FlowEngine/Engine/Ai.antt =====
-- lib/flow-engine/nodes/ai-response.ts: the answer of the AI to a conversation.
use mathlib.Core.List.{reverse}
use zernflow.Base.{
  ℕ, Bool, true, false, Option, none, some, List, [], ◌∷◌, filter, take, if◌then◌else◌, ◌==◌,
}
use zernflow.Base.Json.{Text, str, codes}
use zernflow.FlowEngine.Types.{AiRequest, Context}
use zernflow.FlowEngine.Reply.{ReplyInput, flow_reply_idempotency_key}
use zernflow.FlowEngine.Messages.{nonempty}
use zernflow.FlowEngine.Engine.Store.{
  Tables, StoredMessage, message_sent, message_failed, World, M, ◌>>=◌, ◌>>◌, return, single,
  select, write_rows, ask, cancel, update_session, track,
}
use zernflow.FlowEngine.Engine.Outside.{Outside, OperationStatus, failed_operation}
use zernflow.FlowEngine.Engine.Nodes.{NodeResult, pause, go_on}
use zernflow.FlowEngine.Engine.Rows.{variables_of, set_variable}
use zernflow.FlowEngine.Engine.Replies.{
  event_of, key_of, conversations_of, late_id, reply_to_conversation,
}

module _ (o : Outside) (t : Tables) where
  -- `cancelRun`: the session is cancelled and the run pauses.
  abbrev pub cancel_run : ℕ → Context → M (NodeResult × Context)
  cancel_run session c = update_session session cancel >> return (pause, c)

  abbrev pub store_message : ℕ → Text → M Bool
  store_message conversation text = write_rows (λ r.
      let m : StoredMessage = record {
        conversation_id = conversation;
        is_inbound = false;
        text = some text;
      } in
      record r { messages = m ∷ r.messages })

  abbrev pub ai_failed : ℕ → Context → M (NodeResult × Context)
  ai_failed session c =
      store_message c.conversation_id (codes "[AI response failed]")
      >> (track (event_of c message_failed) >> cancel_run session c)

  abbrev pub ai_sent : Text → Context → M (NodeResult × Context)
  ai_sent text c =
      store_message c.conversation_id text >> (track (event_of c message_sent) >> return (go_on, c))

  abbrev pub after_ai_reply : Text → ℕ → Context → Option OperationStatus → M (NodeResult × Context)
  after_ai_reply text session c none = ai_failed session c
  after_ai_reply text session c (some failed_operation) = ai_failed session c
  after_ai_reply text session c (some _) = ai_sent text c

  abbrev pub ai_input : Context → ℕ → ℕ → Text → ReplyInput
  ai_input c session node text = record {
    text = some text;
    attachments = [];
    presentation = none;
    delivery_mode = none;
    idempotency_key = flow_reply_idempotency_key o.sha256 (key_of o.id_text c session node 0);
    reply_to_message_id = none;
  }

  abbrev pub send_ai : Option Bool → Text → Text → Context → ℕ → ℕ → M (NodeResult × Context)
  send_ai (some false) id text c session node = return (go_on, c)
  send_ai _ id text c session node =
      if o.gateway_configured
      then reply_to_conversation o t id (ai_input c session node text)
        >>= after_ai_reply text session c
      else ai_failed session c

  abbrev pub after_generation :
      AiRequest → Text → Context → ℕ → ℕ → Option Text → M (NodeResult × Context)
  after_generation r id c session node none = ai_failed session c
  after_generation r id c session node (some text) =
      let vs = set_variable (codes "ai_response") (str text) (variables_of c) in
      send_ai r.send_directly id text (record c { variables = some vs }) session node

  abbrev pub has_text : StoredMessage → Bool
  has_text m = elim (nonempty m.text) [ none ↦ false | some text ↦ true ]

  -- The last messages of the conversation, the newest first.
  abbrev pub recent : ℕ → ℕ → World → List StoredMessage
  recent count conversation w =
      take (if count == 0 then 10 else count)
        (filter (λ m. m.conversation_id == conversation) w.rows.messages)

  abbrev pub generate_reply : AiRequest → Text → Context → ℕ → ℕ → M (NodeResult × Context)
  generate_reply r id c session node =
      select (recent r.context_messages c.conversation_id) >>= (λ messages.
        ask (λ n. o.generate n r (filter has_text (reverse messages)))
        >>= after_generation r id c session node)

  abbrev pub generate_in : AiRequest → Context → ℕ → ℕ → Option Text → M (NodeResult × Context)
  generate_in r c session node none = cancel_run session c
  generate_in r c session node (some id) = generate_reply r id c session node

  abbrev pub ai_conversation : Option Text → AiRequest → Context → ℕ → ℕ → M (NodeResult × Context)
  ai_conversation (some id) r c session node = generate_reply r id c session node
  ai_conversation none r c session node =
      single (conversations_of o t c.conversation_id c.workspace_id)
      >>= (λ answer. generate_in r c session node (late_id o t answer))

  -- The key of the workspace is read if there is no stored one; which key is used is left out.
  abbrev pub read_workspace_key : Option Text → M (Unit {0})
  read_workspace_key none = select {A = ℕ} (λ w. []) >> return tt
  read_workspace_key (some key) = return tt

  abbrev pub with_secret :
      AiRequest → Context → ℕ → ℕ → Option (Option Text) → M (NodeResult × Context)
  with_secret r c session node none = cancel_run session c
  with_secret r c session node (some key) =
      read_workspace_key (nonempty key)
      >> ai_conversation (nonempty c.late_conversation_id) r c session node

  unfoldable pub execute_ai_response : AiRequest → Context → ℕ → ℕ → M (NodeResult × Context)
  unfolding flow_reply_idempotency_key set_variable reply_to_conversation
  execute_ai_response r c session node = ask o.secret >>= with_secret r c session node
