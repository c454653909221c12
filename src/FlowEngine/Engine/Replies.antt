-- ===== src/FlowEngine/Engine/Replies.antt =====
-- What the nodes of a flow send through the gateway: messages and replies to a comment.

use zernflow.Base.{
  ℕ, zero, suc, Bool, ◌&&◌, Option, none, some, List, [], ◌∷◌, filter, find, if◌then◌else◌, ◌==◌,
}
use zernflow.Base.Json.{Text, Json, str, codes, text_eq, trim}
use zernflow.FlowEngine.Types.{Message, Platform, Context}
use zernflow.FlowEngine.Interpolate.{interpolate_variables, variable}
use zernflow.FlowEngine.Reply.{
  image, DeliveryMode, ReplyInput, KeyInput, flow_reply_idempotency_key, build_gateway_flow_reply,
}
use zernflow.FlowEngine.Messages.{nonempty}
use zernflow.FlowEngine.Engine.Store.{
  Tables, Channel, Conversation, EventType, message_sent, message_failed, Event, World, M, ◌>>=◌,
  ◌>>◌, return, throw, failure, Answer, row, single, ask, post, track,
}
use zernflow.FlowEngine.Engine.Outside.{Outside, OperationStatus, Page}
use zernflow.FlowEngine.Engine.Nodes.{NodeResult, go_on}
use zernflow.FlowEngine.Engine.Rows.{variables_of}

abbrev pub event_of : Context → EventType → Event
event_of c type = record {
  workspace_id = c.workspace_id;
  flow_id = c.flow_id;
  contact_id = c.contact_id;
  type = type;
}

abbrev pub key_of : (ℕ → Text) → Context → ℕ → ℕ → ℕ → KeyInput
key_of id_text c session node index = record {
  workspace_id = id_text c.workspace_id;
  flow_id = id_text c.flow_id;
  session_id = id_text session;
  node_id = id_text node;
  message_index = index;
}

module _ (o : Outside) (t : Tables) where
  abbrev pub channels_of : ℕ → ℕ → World → List Channel
  channels_of id workspace w = filter (λ c. c.id == id && c.workspace_id == workspace) t.channels

  abbrev pub conversations_of : ℕ → ℕ → World → List Conversation
  conversations_of id workspace w =
      filter (λ c. c.id == id && c.workspace_id == workspace) t.conversations

  abbrev pub platform_of : Answer Channel → M Platform
  platform_of (row channel) = return channel.platform
  platform_of _ = throw failure

  abbrev pub known_platform : Option Platform → Context → M Platform
  known_platform (some platform) c = return platform
  known_platform none c = single (channels_of c.channel_id c.workspace_id) >>= platform_of

  abbrev pub late_id : Answer Conversation → Option Text
  late_id (row conversation) = nonempty conversation.late_conversation_id
  late_id _ = none

  abbrev pub or_throw : Option Text → M Text
  or_throw none = throw failure
  or_throw (some id) = return id

  abbrev pub known_conversation : Option Text → Context → M Text
  known_conversation (some id) c = return id
  known_conversation none c =
      single (conversations_of c.conversation_id c.workspace_id)
      >>= (λ answer. or_throw (late_id answer))

  -- The conversation of the gateway; a conversation without one ends in an error too.
  unfoldable pub gateway_conversation : Context → M Text
  gateway_conversation c = known_conversation (nonempty c.late_conversation_id) c

  -- `requireSocialGatewayClient()`.
  abbrev pub require_gateway : M (Unit {0})
  require_gateway = if o.gateway_configured then return tt else throw failure

  abbrev pub after_reply : Context → Option OperationStatus → M (Unit {0})
  after_reply c none = track (event_of c message_failed) >> throw failure
  after_reply c (some status) = track (event_of c message_sent) >> return tt

  unfoldable pub reply_to_conversation : Text → ReplyInput → M (Option OperationStatus)
  reply_to_conversation id reply =
      post (λ r. record r { replies = (id, reply) ∷ r.replies }) (λ n. o.reply n id reply)

  -- The messages in their order; the first that fails ends the run.
  unfoldable pub send_messages : List Message → ℕ → Text → Platform → Context → ℕ → ℕ → M (Unit {0})
  unfolding build_gateway_flow_reply reply_to_conversation
  send_messages [] index id platform c session node = return tt
  send_messages (m ∷ ms) index id platform c session node =
      reply_to_conversation id (
        build_gateway_flow_reply o.sha256 o.to_text m platform (variables_of c)
          (key_of o.id_text c session node index))
      >>= (λ answer.
          after_reply c answer >> send_messages ms (suc index) id platform c session node)

  unfoldable pub execute_send_message : List Message → Context → ℕ → ℕ → M Context
  unfolding gateway_conversation send_messages
  execute_send_message messages c session node = known_platform c.platform c >>= (λ platform.
      let c' = record c { platform = some platform } in
      gateway_conversation c' >>= (λ id.
        require_gateway >> (send_messages messages 0 id platform c' session node >> return c')))

  abbrev pub trimmed : Option Json → Text
  trimmed (some (str ref)) = trim ref
  trimmed _ = []

  -- The search for the message of the comment, in five pages at most.
  abbrev pub is_message : Text → Text × Text → Bool
  is_message ref (external, id) = text_eq external ref

  abbrev pub next_page : Option Text → (Option Text → M Text) → M Text
  next_page none search_from = throw failure
  next_page (some next) search_from = search_from (some next)

  abbrev pub message_or : Option (Text × Text) → Option Text → (Option Text → M Text) → M Text
  message_or (some message) cursor search_from = return message.1
  message_or none cursor search_from = next_page (nonempty cursor) search_from

  abbrev pub look_at : Text → (Option Text → M Text) → Option Page → M Text
  look_at ref search_from none = throw failure
  look_at ref search_from (some page) =
      message_or (find (is_message ref) page.messages) page.next_cursor search_from

  unfoldable pub find_message : ℕ → Text → Text → Option Text → M Text
  find_message zero id ref cursor = throw failure
  find_message (suc pages) id ref cursor =
      ask (λ n. o.page n id cursor) >>= look_at ref (find_message pages id ref)

  abbrev pub require_text : Text → M (Unit {0})
  require_text [] = throw failure
  require_text (ch ∷ chs) = return tt

  -- The conversation and the message of the comment that started the flow.
  unfoldable pub resolve_gateway_comment_target : Context → M (Text × Text)
  unfolding gateway_conversation find_message trim
  resolve_gateway_comment_target c = gateway_conversation c >>= (λ id.
      let ref = trimmed (variable (codes "comment_id") (variables_of c)) in
      require_text ref
      >> (require_gateway >> (find_message 5 id ref none >>= (λ message. return (id, message)))))

  abbrev pub after_operation : Context → Option OperationStatus → M NodeResult
  after_operation c none = throw failure
  after_operation c (some status) = track (event_of c message_sent) >> return go_on

  abbrev pub reply_text : Text → Context → Text
  reply_text text c = trim (interpolate_variables o.stringify (variables_of c) text)

  abbrev pub comment_input : Context → ℕ → ℕ → DeliveryMode → Text → Text → Option Text → ReplyInput
  comment_input c session node mode text message image_url = record {
    text = nonempty (some text);
    attachments = elim image_url [ none ↦ [] | some url ↦ record { type = image; url = url } ∷ [] ];
    presentation = none;
    delivery_mode = some mode;
    idempotency_key = flow_reply_idempotency_key o.sha256 (key_of o.id_text c session node 0);
    reply_to_message_id = some message;
  }

  unfoldable pub execute_comment_reply : Text → Context → ℕ → ℕ → M NodeResult
  unfolding resolve_gateway_comment_target interpolate_variables trim flow_reply_idempotency_key
  execute_comment_reply text c session node = resolve_gateway_comment_target c >>= (λ target.
      require_text (reply_text text c)
      >> (require_gateway
          >> (reply_to_conversation target.0 (
                comment_input c session node DeliveryMode.conversation (reply_text text c) target.1
                  none)
              >>= after_operation c)))

  abbrev pub image_of : Option Text → Context → Option Text
  image_of none c = none
  image_of (some []) c = none
  image_of (some (ch ∷ chs)) c = nonempty (some (reply_text (ch ∷ chs) c))

  abbrev pub require_content : Text → Option Text → M (Unit {0})
  require_content text (some url) = return tt
  require_content text none = require_text text

  unfoldable pub execute_private_reply : Text → Option Text → Context → ℕ → ℕ → M NodeResult
  unfolding resolve_gateway_comment_target interpolate_variables trim flow_reply_idempotency_key
  execute_private_reply text image_url c session node =
      resolve_gateway_comment_target c >>= (λ target.
        require_content (reply_text text c) (image_of image_url c)
        >> (require_gateway
            >> (reply_to_conversation target.0 (
                  comment_input c session node DeliveryMode.private_comment_reply
                    (reply_text text c) target.1 (image_of image_url c))
                >>= after_operation c)))
