-- ===== src/FlowEngine/Engine/Handlers/Sending.antt =====
-- A predicate on the world through the handlers that send.
use zernflow.Base.{ℕ, zero, suc, Bool, true, false, Option, none, some, List, [], ◌∷◌, find}
use zernflow.Base.Json.{Text}
use zernflow.FlowEngine.Types.{Message, Platform, AiRequest, Context}
use zernflow.FlowEngine.Messages.{nonempty}
use zernflow.FlowEngine.Engine.Store.{
  Tables, Channel, M, failure, Answer, row, no_row, unavailable, Patch, cancel,
}
use zernflow.FlowEngine.Engine.Outside.{
  Outside, OperationStatus, pending_operation, succeeded_operation, failed_operation, Page,
}
use zernflow.FlowEngine.Engine.Nodes.{NodeResult}
use zernflow.FlowEngine.Engine.Replies.{
  platform_of, known_platform, known_conversation, next_page, message_or, look_at, image_of,
  late_id, or_throw, gateway_conversation, require_gateway, after_reply, reply_to_conversation,
  send_messages, execute_send_message, find_message, is_message, require_text,
  resolve_gateway_comment_target, after_operation, execute_comment_reply, require_content,
  execute_private_reply,
}
use zernflow.FlowEngine.Engine.Ai.{
  generate_in, with_secret, cancel_run, store_message, ai_failed, ai_sent, after_ai_reply, send_ai,
  after_generation, generate_reply, ai_conversation, read_workspace_key, execute_ai_response,
}
use zernflow.FlowEngine.Engine.Keeps.{
  Pred, Keeps, Stable, bind, return-Keeps, throw-Keeps, ask-Keeps, post-Keeps, single-Keeps,
  select-Keeps, write_rows-Keeps, update_session-Keeps, track-Keeps, if-Keeps, then-Keeps,
}

module _ (o : Outside) (t : Tables) (p : Pred) {allowed : Patch → Type 0}
    (stable : Stable p allowed) where
  platform_of-Keeps : (answer : Answer Channel) → Keeps p (platform_of o t answer)
  platform_of-Keeps (row channel) = return-Keeps p _
  platform_of-Keeps no_row = throw-Keeps p Platform failure
  platform_of-Keeps unavailable = throw-Keeps p Platform failure

  known_platform-Keeps :
      (platform : Option Platform) (c : Context) → Keeps p (known_platform o t platform c)
  known_platform-Keeps (some platform) c = return-Keeps p _
  known_platform-Keeps none c = bind p _ _ (single-Keeps p _ stable.called) platform_of-Keeps

  or_throw-Keeps : (id : Option Text) → Keeps p (or_throw o t id)
  or_throw-Keeps none = throw-Keeps p Text failure
  or_throw-Keeps (some id) = return-Keeps p _

  known_conversation-Keeps :
      (id : Option Text) (c : Context) → Keeps p (known_conversation o t id c)
  known_conversation-Keeps (some id) c = return-Keeps p _
  known_conversation-Keeps none c =
      bind p _ _ (single-Keeps p _ stable.called) (λ answer. or_throw-Keeps (late_id o t answer))

  gateway_conversation-Keeps : (c : Context) → Keeps p (gateway_conversation o t c)
  unfolding gateway_conversation
  gateway_conversation-Keeps c = known_conversation-Keeps (nonempty c.late_conversation_id) c

  require_gateway-Keeps : Keeps p (require_gateway o t)
  require_gateway-Keeps =
      if-Keeps p o.gateway_configured _ _ (return-Keeps p tt) (throw-Keeps p (Unit {0}) failure)

  after_reply-Keeps :
      (c : Context) (answer : Option OperationStatus) → Keeps p (after_reply o t c answer)
  after_reply-Keeps c none =
      then-Keeps p _ _ (track-Keeps p stable _ tt) (throw-Keeps p (Unit {0}) failure)
  after_reply-Keeps c (some status) =
      then-Keeps p _ _ (track-Keeps p stable _ tt) (return-Keeps p tt)

  send_messages-Keeps :
      (ms : List Message) (index : ℕ) (id : Text) (platform : Platform) (c : Context)
      (session node : ℕ)
      → Keeps p (send_messages o t ms index id platform c session node)
  unfolding send_messages reply_to_conversation
  send_messages-Keeps [] index id platform c session node = return-Keeps p tt
  send_messages-Keeps (m ∷ ms) index id platform c session node =
      bind p _ _ (post-Keeps p _ _) (λ answer.
        then-Keeps p _ _ (after_reply-Keeps c answer)
          (send_messages-Keeps ms (suc index) id platform c session node))

  pub execute_send_message-Keeps :
      (messages : List Message) (c : Context) (session node : ℕ)
      → Keeps p (execute_send_message o t messages c session node)
  unfolding execute_send_message
  execute_send_message-Keeps messages c session node =
      bind p _ _ (known_platform-Keeps c.platform c) (λ platform.
        bind p _ _ (gateway_conversation-Keeps _) (λ id. then-Keeps p _ _ require_gateway-Keeps (
          then-Keeps p _ _ (send_messages-Keeps messages 0 id platform _ session node)
            (return-Keeps p _))))

  next_page-Keeps :
      (next : Option Text) (search_from : Option Text → M Text)
      → ((cursor : Option Text) → Keeps p (search_from cursor))
      → Keeps p (next_page o t next search_from)
  next_page-Keeps none search_from keep = throw-Keeps p Text failure
  next_page-Keeps (some next) search_from keep = keep (some next)

  message_or-Keeps :
      (message : Option (Text × Text)) (cursor : Option Text) (search_from : Option Text → M Text)
      → ((cursor : Option Text) → Keeps p (search_from cursor))
      → Keeps p (message_or o t message cursor search_from)
  message_or-Keeps (some message) cursor search_from keep = return-Keeps p _
  message_or-Keeps none cursor search_from keep = next_page-Keeps (nonempty cursor) search_from keep

  look_at-Keeps :
      (ref : Text) (search_from : Option Text → M Text) (page : Option Page)
      → ((cursor : Option Text) → Keeps p (search_from cursor))
      → Keeps p (look_at o t ref search_from page)
  look_at-Keeps ref search_from none keep = throw-Keeps p Text failure
  look_at-Keeps ref search_from (some page) keep =
      message_or-Keeps (find (is_message o t ref) page.messages) page.next_cursor search_from keep

  find_message-Keeps :
      (pages : ℕ) (id ref : Text) (cursor : Option Text)
      → Keeps p (find_message o t pages id ref cursor)
  unfolding find_message
  find_message-Keeps zero id ref cursor = throw-Keeps p Text failure
  find_message-Keeps (suc pages) id ref cursor =
      bind p _ _ (ask-Keeps p _)
        (λ page. look_at-Keeps ref _ page (find_message-Keeps pages id ref))

  require_text-Keeps : (text : Text) → Keeps p (require_text o t text)
  require_text-Keeps [] = throw-Keeps p (Unit {0}) failure
  require_text-Keeps (ch ∷ chs) = return-Keeps p tt

  resolve_gateway_comment_target-Keeps :
      (c : Context) → Keeps p (resolve_gateway_comment_target o t c)
  unfolding resolve_gateway_comment_target
  resolve_gateway_comment_target-Keeps c = bind p _ _ (gateway_conversation-Keeps c) (λ id.
      then-Keeps p _ _ (require_text-Keeps _) (
        then-Keeps p _ _ require_gateway-Keeps
          (bind p _ _ (find_message-Keeps 5 id _ none) (λ message. return-Keeps p _))))

  after_operation-Keeps :
      (c : Context) (answer : Option OperationStatus) → Keeps p (after_operation o t c answer)
  after_operation-Keeps c none = throw-Keeps p NodeResult failure
  after_operation-Keeps c (some status) =
      then-Keeps p _ _ (track-Keeps p stable _ tt) (return-Keeps p _)

  pub execute_comment_reply-Keeps :
      (text : Text) (c : Context) (session node : ℕ)
      → Keeps p (execute_comment_reply o t text c session node)
  unfolding execute_comment_reply reply_to_conversation
  execute_comment_reply-Keeps text c session node =
      bind p _ _ (resolve_gateway_comment_target-Keeps c) (λ target.
        then-Keeps p _ _ (require_text-Keeps _) (
          then-Keeps p _ _ require_gateway-Keeps
            (bind p _ _ (post-Keeps p _ _) (after_operation-Keeps c))))

  require_content-Keeps : (text : Text) (url : Option Text) → Keeps p (require_content o t text url)
  require_content-Keeps text (some url) = return-Keeps p tt
  require_content-Keeps text none = require_text-Keeps text

  pub execute_private_reply-Keeps :
      (text : Text) (url : Option Text) (c : Context) (session node : ℕ)
      → Keeps p (execute_private_reply o t text url c session node)
  unfolding execute_private_reply reply_to_conversation
  execute_private_reply-Keeps text url c session node =
      bind p _ _ (resolve_gateway_comment_target-Keeps c) (λ target.
        then-Keeps p _ _ (require_content-Keeps _ (image_of o t url c)) (
          then-Keeps p _ _ require_gateway-Keeps
            (bind p _ _ (post-Keeps p _ _) (after_operation-Keeps c))))

  module _ (cancels : allowed cancel) where
    cancel_run-Keeps : (session : ℕ) (c : Context) → Keeps p (cancel_run o t session c)
    cancel_run-Keeps session c =
        then-Keeps p _ _ (update_session-Keeps p stable session cancel cancels) (return-Keeps p _)

    pub store_message-Keeps :
        (conversation : ℕ) (text : Text) → Keeps p (store_message o t conversation text)
    store_message-Keeps conversation text = write_rows-Keeps p _ stable.called

    ai_failed-Keeps : (session : ℕ) (c : Context) → Keeps p (ai_failed o t session c)
    ai_failed-Keeps session c =
        then-Keeps p _ _ (store_message-Keeps c.conversation_id _)
          (then-Keeps p _ _ (track-Keeps p stable _ tt) (cancel_run-Keeps session c))

    ai_sent-Keeps : (text : Text) (c : Context) → Keeps p (ai_sent o t text c)
    ai_sent-Keeps text c =
        then-Keeps p _ _ (store_message-Keeps c.conversation_id text)
          (then-Keeps p _ _ (track-Keeps p stable _ tt) (return-Keeps p _))

    after_ai_reply-Keeps :
        (text : Text) (session : ℕ) (c : Context) (answer : Option OperationStatus)
        → Keeps p (after_ai_reply o t text session c answer)
    after_ai_reply-Keeps text session c none = ai_failed-Keeps session c
    after_ai_reply-Keeps text session c (some failed_operation) = ai_failed-Keeps session c
    after_ai_reply-Keeps text session c (some pending_operation) = ai_sent-Keeps text c
    after_ai_reply-Keeps text session c (some succeeded_operation) = ai_sent-Keeps text c

    ai_posted-Keeps :
        (id text : Text) (c : Context) (session node : ℕ)
        → Keeps p (send_ai o t none id text c session node)
    unfolding reply_to_conversation
    ai_posted-Keeps id text c session node =
        if-Keeps p o.gateway_configured _ _
          (bind p _ _ (post-Keeps p _ _) (after_ai_reply-Keeps text session c))
          (ai_failed-Keeps session c)

    send_ai-Keeps :
        (directly : Option Bool) (id text : Text) (c : Context) (session node : ℕ)
        → Keeps p (send_ai o t directly id text c session node)
    send_ai-Keeps (some false) id text c session node = return-Keeps p _
    send_ai-Keeps (some true) id text c session node = ai_posted-Keeps id text c session node
    send_ai-Keeps none id text c session node = ai_posted-Keeps id text c session node

    after_generation-Keeps :
        (r : AiRequest) (id : Text) (c : Context) (session node : ℕ) (text : Option Text)
        → Keeps p (after_generation o t r id c session node text)
    after_generation-Keeps r id c session node none = ai_failed-Keeps session c
    after_generation-Keeps r id c session node (some text) =
        send_ai-Keeps r.send_directly id text _ session node

    generate_reply-Keeps :
        (r : AiRequest) (id : Text) (c : Context) (session node : ℕ)
        → Keeps p (generate_reply o t r id c session node)
    generate_reply-Keeps r id c session node =
        bind p _ _ (select-Keeps p _ stable.called)
          (λ messages. bind p _ _ (ask-Keeps p _) (after_generation-Keeps r id c session node))

    generate_in-Keeps :
        (r : AiRequest) (c : Context) (session node : ℕ) (id : Option Text)
        → Keeps p (generate_in o t r c session node id)
    generate_in-Keeps r c session node none = cancel_run-Keeps session c
    generate_in-Keeps r c session node (some id) = generate_reply-Keeps r id c session node

    ai_conversation-Keeps :
        (id : Option Text) (r : AiRequest) (c : Context) (session node : ℕ)
        → Keeps p (ai_conversation o t id r c session node)
    ai_conversation-Keeps (some id) r c session node = generate_reply-Keeps r id c session node
    ai_conversation-Keeps none r c session node =
        bind p _ _ (single-Keeps p _ stable.called)
          (λ answer. generate_in-Keeps r c session node (late_id o t answer))

    pub read_workspace_key-Keeps : (key : Option Text) → Keeps p (read_workspace_key o t key)
    read_workspace_key-Keeps none =
        then-Keeps p _ _ (select-Keeps p _ stable.called) (return-Keeps p tt)
    read_workspace_key-Keeps (some key) = return-Keeps p tt

    with_secret-Keeps :
        (r : AiRequest) (c : Context) (session node : ℕ) (stored : Option (Option Text))
        → Keeps p (with_secret o t r c session node stored)
    with_secret-Keeps r c session node none = cancel_run-Keeps session c
    with_secret-Keeps r c session node (some key) =
        then-Keeps p _ _ (read_workspace_key-Keeps (nonempty key))
          (ai_conversation-Keeps (nonempty c.late_conversation_id) r c session node)

    pub execute_ai_response-Keeps :
        (r : AiRequest) (c : Context) (session node : ℕ)
        → Keeps p (execute_ai_response o t r c session node)
    unfolding execute_ai_response
    execute_ai_response-Keeps r c session node =
        bind p _ _ (ask-Keeps p _) (with_secret-Keeps r c session node)
