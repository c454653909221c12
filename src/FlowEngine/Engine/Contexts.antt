-- ===== src/FlowEngine/Engine/Contexts.antt =====
-- The workspace of the context through the nodes of a flow.
use zernflow.Base.{ℕ, ◌≡◌, refl, Bool, true, false, Option, none, some, List, [], ◌∷◌}
use zernflow.Base.Json.{Text}
use zernflow.FlowEngine.Messages.{nonempty}
use zernflow.FlowEngine.Types.{
  NodeData, trigger, send_message, condition, delay, add_tag, remove_tag, set_custom_field,
  http_request, go_to_flow, subscription, human_takeover, comment_reply, private_reply, ab_split,
  smart_delay, ai_response, enroll_sequence, other_node, AiRequest, HttpRequest, Message, Context,
}
use zernflow.FlowEngine.Engine.Store.{
  Channel, Conversation, Tables, M, ◌>>=◌, Answer, row, no_row, unavailable,
}
use zernflow.FlowEngine.Engine.Outside.{
  Outside, OperationStatus, pending_operation, succeeded_operation, failed_operation,
}
use zernflow.FlowEngine.Engine.Nodes.{NodeResult, store_answer, after_answer, execute_http_request}
use zernflow.FlowEngine.Engine.Replies.{execute_send_message, late_id}
use zernflow.FlowEngine.Engine.Ai.{
  cancel_run, ai_failed, after_ai_reply, send_ai, after_generation, generate_reply, generate_in,
  ai_conversation, with_secret, execute_ai_response, ai_sent,
}
use zernflow.FlowEngine.Engine.Run.{
  keep, execute_data, with_platform, with_conversation, load_conversation, load_channel,
}
use zernflow.FlowEngine.Engine.Keeps.{
  Returns, return-Returns, if-Returns, bind-Returns, bind_with-Returns,
}

abbrev pub IsSame : Context → Context → Type 0
IsSame c d = d.workspace_id ≡ c.workspace_id

abbrev pub IsHere : Context → NodeResult × Context → Type 0
IsHere c r = r.1.workspace_id ≡ c.workspace_id

module _ (o : Outside) (t : Tables) where
  keep-Returns : (m : M NodeResult) (c : Context) → Returns (IsHere c) (m >>= keep o t c)
  keep-Returns m c = bind-Returns (IsHere c) m _ (λ result. return-Returns (IsHere c) _ refl)

  execute_send_message-Returns :
      (ms : List Message) (c : Context) (session node : ℕ)
      → Returns (IsSame c) (execute_send_message o t ms c session node)
  unfolding execute_send_message
  execute_send_message-Returns ms c session node = bind-Returns (IsSame c) _ _ (λ platform.
      bind-Returns (IsSame c) _ _ (λ id.
        bind-Returns (IsSame c) _ _
          (λ ready. bind-Returns (IsSame c) _ _ (λ sent. return-Returns (IsSame c) _ refl))))

  store_answer-IsSame :
      (name : Option Text) (c : Context) (text : Text) → IsSame c (store_answer o t name c text)
  store_answer-IsSame none c text = refl
  store_answer-IsSame (some []) c text = refl
  store_answer-IsSame (some (ch ∷ chs)) c text = refl

  after_answer-IsSame :
      (r : HttpRequest) (c : Context) (answer : Option Text)
      → IsSame c (after_answer o t r c answer)
  after_answer-IsSame r c none = refl
  after_answer-IsSame r c (some text) = store_answer-IsSame r.response_variable c text

  execute_http_request-Returns :
      (r : HttpRequest) (c : Context) → Returns (IsSame c) (execute_http_request o t r c)
  unfolding execute_http_request
  execute_http_request-Returns r c =
      bind-Returns (IsSame c) _ _
        (λ answer. return-Returns (IsSame c) _ (after_answer-IsSame r c answer))

  cancel_run-Returns : (session : ℕ) (c : Context) → Returns (IsHere c) (cancel_run o t session c)
  cancel_run-Returns session c =
      bind-Returns (IsHere c) _ _ (λ done. return-Returns (IsHere c) _ refl)

  ai_failed-Returns : (session : ℕ) (c : Context) → Returns (IsHere c) (ai_failed o t session c)
  ai_failed-Returns session c =
      bind-Returns (IsHere c) _ _
        (λ stored. bind-Returns (IsHere c) _ _ (λ tracked. cancel_run-Returns session c))

  ai_sent-Returns : (text : Text) (c : Context) → Returns (IsHere c) (ai_sent o t text c)
  ai_sent-Returns text c =
      bind-Returns (IsHere c) _ _
        (λ stored. bind-Returns (IsHere c) _ _ (λ tracked. return-Returns (IsHere c) _ refl))

  after_ai_reply-Returns :
      (text : Text) (session : ℕ) (c : Context) (answer : Option OperationStatus)
      → Returns (IsHere c) (after_ai_reply o t text session c answer)
  after_ai_reply-Returns text session c none = ai_failed-Returns session c
  after_ai_reply-Returns text session c (some failed_operation) = ai_failed-Returns session c
  after_ai_reply-Returns text session c (some pending_operation) = ai_sent-Returns text c
  after_ai_reply-Returns text session c (some succeeded_operation) = ai_sent-Returns text c

  ai_posted-Returns :
      (id text : Text) (c : Context) (session node : ℕ)
      → Returns (IsHere c) (send_ai o t none id text c session node)
  ai_posted-Returns id text c session node =
      if-Returns (IsHere c) o.gateway_configured _ _
        (bind-Returns (IsHere c) _ _ (after_ai_reply-Returns text session c))
        (ai_failed-Returns session c)

  send_ai-Returns :
      (directly : Option Bool) (id text : Text) (c : Context) (session node : ℕ)
      → Returns (IsHere c) (send_ai o t directly id text c session node)
  send_ai-Returns (some false) id text c session node = return-Returns (IsHere c) _ refl
  send_ai-Returns (some true) id text c session node = ai_posted-Returns id text c session node
  send_ai-Returns none id text c session node = ai_posted-Returns id text c session node

  after_generation-Returns :
      (r : AiRequest) (id : Text) (c : Context) (session node : ℕ) (text : Option Text)
      → Returns (IsHere c) (after_generation o t r id c session node text)
  after_generation-Returns r id c session node none = ai_failed-Returns session c
  after_generation-Returns r id c session node (some text) =
      send_ai-Returns r.send_directly id text _ session node

  generate_reply-Returns :
      (r : AiRequest) (id : Text) (c : Context) (session node : ℕ)
      → Returns (IsHere c) (generate_reply o t r id c session node)
  generate_reply-Returns r id c session node =
      bind-Returns (IsHere c) _ _
        (λ messages. bind-Returns (IsHere c) _ _ (after_generation-Returns r id c session node))

  generate_in-Returns :
      (r : AiRequest) (c : Context) (session node : ℕ) (id : Option Text)
      → Returns (IsHere c) (generate_in o t r c session node id)
  generate_in-Returns r c session node none = cancel_run-Returns session c
  generate_in-Returns r c session node (some id) = generate_reply-Returns r id c session node

  ai_conversation-Returns :
      (id : Option Text) (r : AiRequest) (c : Context) (session node : ℕ)
      → Returns (IsHere c) (ai_conversation o t id r c session node)
  ai_conversation-Returns (some id) r c session node = generate_reply-Returns r id c session node
  ai_conversation-Returns none r c session node =
      bind-Returns (IsHere c) _ _
        (λ answer. generate_in-Returns r c session node (late_id o t answer))

  with_secret-Returns :
      (r : AiRequest) (c : Context) (session node : ℕ) (stored : Option (Option Text))
      → Returns (IsHere c) (with_secret o t r c session node stored)
  with_secret-Returns r c session node none = cancel_run-Returns session c
  with_secret-Returns r c session node (some key) =
      bind-Returns (IsHere c) _ _
        (λ done. ai_conversation-Returns (nonempty c.late_conversation_id) r c session node)

  execute_ai_response-Returns :
      (r : AiRequest) (c : Context) (session node : ℕ)
      → Returns (IsHere c) (execute_ai_response o t r c session node)
  unfolding execute_ai_response
  execute_ai_response-Returns r c session node =
      bind-Returns (IsHere c) _ _ (with_secret-Returns r c session node)

  pub execute_data-Returns :
      (run : Context → M (Unit {0})) (content : NodeData) (node : ℕ) (c : Context) (session : ℕ)
      → Returns (IsHere c) (execute_data o t run content node c session)
  unfolding execute_data
  execute_data-Returns run trigger node c session = return-Returns (IsHere c) _ refl
  execute_data-Returns run (send_message ms) node c session =
      bind_with-Returns (IsSame c) (IsHere c) _ _ (execute_send_message-Returns ms c session node)
        (λ d same. return-Returns (IsHere c) _ same)
  execute_data-Returns run (http_request r) node c session =
      bind_with-Returns (IsSame c) (IsHere c) _ _ (execute_http_request-Returns r c)
        (λ d same. return-Returns (IsHere c) _ same)
  execute_data-Returns run (ai_response r) node c session =
      execute_ai_response-Returns r c session node
  execute_data-Returns run (go_to_flow flow) node c session =
      bind-Returns (IsHere c) _ _ (λ done. return-Returns (IsHere c) _ refl)
  execute_data-Returns run smart_delay node c session =
      bind-Returns (IsHere c) _ _ (λ done. return-Returns (IsHere c) _ refl)
  execute_data-Returns run other_node node c session = return-Returns (IsHere c) _ refl
  execute_data-Returns run (condition logic cs) node c session = keep-Returns _ c
  execute_data-Returns run (delay duration unit) node c session = keep-Returns _ c
  execute_data-Returns run (add_tag add name) node c session = keep-Returns _ c
  execute_data-Returns run (remove_tag add name) node c session = keep-Returns _ c
  execute_data-Returns run (set_custom_field slug value) node c session = keep-Returns _ c
  execute_data-Returns run (subscription b) node c session = keep-Returns _ c
  execute_data-Returns run human_takeover node c session = keep-Returns _ c
  execute_data-Returns run (comment_reply text) node c session = keep-Returns _ c
  execute_data-Returns run (private_reply text image) node c session = keep-Returns _ c
  execute_data-Returns run (ab_split paths) node c session = keep-Returns _ c
  execute_data-Returns run (enroll_sequence sequence) node c session = keep-Returns _ c

  -- What a run knows of its channel leaves the flow and the workspace as they are.
  abbrev pub IsLoaded : Context → Context → Type 0
  IsLoaded c d = (d.workspace_id ≡ c.workspace_id) × (d.flow_id ≡ c.flow_id)

  with_platform-IsLoaded :
      (c : Context) (answer : Answer Channel) → IsLoaded c (with_platform o t c answer)
  with_platform-IsLoaded c (row channel) = (refl, refl)
  with_platform-IsLoaded c no_row = (refl, refl)
  with_platform-IsLoaded c unavailable = (refl, refl)

  with_conversation-IsLoaded :
      (c d : Context) (answer : Answer Conversation)
      → IsLoaded c d
      → IsLoaded c (with_conversation o t d answer)
  with_conversation-IsLoaded c d (row conversation) h = h
  with_conversation-IsLoaded c d no_row h = h
  with_conversation-IsLoaded c d unavailable h = h

  load_conversation-Returns :
      (id : Option Text) (c d : Context)
      → IsLoaded c d
      → Returns (IsLoaded c) (load_conversation o t id d)
  load_conversation-Returns (some id) c d h = return-Returns (IsLoaded c) _ h
  load_conversation-Returns none c d h =
      bind-Returns (IsLoaded c) _ _
        (λ answer. return-Returns (IsLoaded c) _ (with_conversation-IsLoaded c d answer h))

  pub load_channel-Returns : (c : Context) → Returns (IsLoaded c) (load_channel o t c)
  unfolding load_channel
  load_channel-Returns c =
      bind-Returns (IsLoaded c) _ _
        (λ answer. load_conversation-Returns _ c _ (with_platform-IsLoaded c answer))
