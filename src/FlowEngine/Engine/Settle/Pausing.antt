-- ===== src/FlowEngine/Engine/Settle/Pausing.antt =====
-- Settled sessions through the delay, the takeover and the answer of the AI.
use zernflow.Base.{
  ℕ, ◌+◌, ◌*◌, ◌≡◌, ◌≢◌, refl, Bool, true, false, Option, none, some, if◌then◌else◌,
}
use zernflow.Base.Json.{Text}
use zernflow.FlowEngine.Messages.{nonempty}
use zernflow.FlowEngine.Types.{DelayUnit, AiRequest, Context}
use zernflow.FlowEngine.Engine.Store.{
  Tables, Session, M, ◌>>=◌, ◌>>◌, return, Patch, cancel, wait_until, wait_for_input, take_over,
  apply_patch, update_session,
}
use zernflow.FlowEngine.Engine.Outside.{
  Outside, OperationStatus, pending_operation, succeeded_operation, failed_operation,
}
use zernflow.FlowEngine.Engine.Nodes.{
  NodeResult, pause, go_on, resume_of, execute_delay, execute_human_takeover,
}
use zernflow.FlowEngine.Engine.Rows.{multiplier}
use zernflow.FlowEngine.Engine.Replies.{late_id, reply_to_conversation}
use zernflow.FlowEngine.Engine.Ai.{
  cancel_run, ai_failed, ai_sent, after_ai_reply, send_ai, after_generation, generate_reply,
  generate_in, ai_conversation, with_secret, execute_ai_response,
}
use zernflow.FlowEngine.Engine.Keeps.{
  Keeps, single-Keeps, select-Keeps, ask-Keeps, post-Keeps, write_rows-Keeps, track-Keeps,
}
use zernflow.FlowEngine.Engine.Handlers.{schedule_flow_resume-Keeps}
use zernflow.FlowEngine.Engine.Handlers.Sending.{read_workspace_key-Keeps, store_message-Keeps}
use zernflow.FlowEngine.Engine.Triples.{Triple, bind, keeps, returns, clean, anything}
use zernflow.FlowEngine.Engine.Settle.{
  IsSettled, settled, paused, clean-Stable, update_session-settled, wait_until-Settles,
  cancel-Settles, take_over-Settles, wait_for_input-Settles,
}

module _ (o : Outside) (t : Tables) (session : ℕ) where
  -- An update that settles, and the pause.
  settle :
      {A : Type 0} (patch : Patch) (result : A → NodeResult) (a : A)
      → ((x : Session) → IsSettled (apply_patch patch x))
      → ((x : Session) → (apply_patch patch x).id ≡ x.id)
      → Triple clean
          (update_session session patch >> return a)
          (λ b. paused session (result b))
          anything
  settle patch result a settles same =
      bind anything clean (λ done. settled session) (λ b. paused session (result b))
        (update_session session patch) (λ done. return a)
        (update_session-settled session patch settles same)
        (λ done.
          returns anything (settled session) (λ b. paused session (result b)) a
            (λ s e f h. (h.0, λ p. h.1)))

  -- A step before it that no call fails in.
  pub first :
      {A B : Type 0} (result : B → NodeResult) (m : M A) (f : A → M B)
      → Keeps clean m
      → ((a : A) → Triple clean (f a) (λ b. paused session (result b)) anything)
      → Triple clean (m >>= f) (λ b. paused session (result b)) anything
  first result m f h k =
      bind anything clean (λ a. clean) (λ b. paused session (result b)) m f
        (keeps anything clean m (λ s e f h. tt) h) k

  abbrev pub itself : NodeResult → NodeResult
  itself r = r

  pub execute_delay-paused :
      (duration : ℕ) (unit : DelayUnit) (node : ℕ) (c : Context)
      → Triple clean (execute_delay o t duration unit session node c) (paused session) anything
  unfolding execute_delay apply_patch
  execute_delay-paused duration unit node c = first itself _ _ (ask-Keeps clean _) (λ now.
      first itself _ _
        (schedule_flow_resume-Keeps o t clean clean-Stable
          (resume_of o t session node c (now + duration * multiplier unit)))
        (λ scheduled.
          settle (wait_until node (now + duration * multiplier unit)) itself pause
            (wait_until-Settles node _) (λ x. refl)))

  pub execute_human_takeover-paused :
      (c : Context) → Triple clean (execute_human_takeover o t session c) (paused session) anything
  unfolding execute_human_takeover apply_patch
  execute_human_takeover-paused c =
      first itself _ _ (write_rows-Keeps clean _ clean-Stable.called) (λ written.
        first itself _ _ (ask-Keeps clean _)
          (λ now. settle (take_over now) itself pause (take_over-Settles now) (λ x. refl)))

  abbrev pub of_both : NodeResult × Context → NodeResult
  of_both r = r.0

  abbrev pub Pauses : M (NodeResult × Context) → Type 0
  Pauses m = Triple clean m (λ r. paused session (of_both r)) anything

  pub smart_delay-paused :
      (node : ℕ) (c : Context)
      → Pauses (update_session session (wait_for_input node) >> return (pause, c))
  unfolding apply_patch
  smart_delay-paused node c =
      settle (wait_for_input node) of_both (pause, c) (wait_for_input-Settles node) (λ x. refl)

  pub goes_on : (c : Context) (r : NodeResult) → r ≢ pause → Pauses (return (r, c))
  goes_on c r other =
      returns anything clean (λ b. paused session (of_both b)) (r, c)
        (λ s e f h. (h, λ e'. absurd (other e')))

  cancel_run-paused : (c : Context) → Pauses (cancel_run o t session c)
  unfolding apply_patch
  cancel_run-paused c = settle cancel of_both (pause, c) cancel-Settles (λ x. refl)

  ai_failed-paused : (c : Context) → Pauses (ai_failed o t session c)
  ai_failed-paused c =
      first of_both _ _ (store_message-Keeps o t clean clean-Stable tt c.conversation_id _)
        (λ stored.
          first of_both _ _ (track-Keeps clean clean-Stable _ tt) (λ tracked. cancel_run-paused c))

  ai_sent-paused : (text : Text) (c : Context) → Pauses (ai_sent o t text c)
  ai_sent-paused text c =
      first of_both _ _ (store_message-Keeps o t clean clean-Stable tt c.conversation_id text)
        (λ stored.
          first of_both _ _ (track-Keeps clean clean-Stable _ tt)
            (λ tracked. goes_on c go_on (λ e. cc)))

  after_ai_reply-paused :
      (text : Text) (c : Context) (answer : Option OperationStatus)
      → Pauses (after_ai_reply o t text session c answer)
  after_ai_reply-paused text c none = ai_failed-paused c
  after_ai_reply-paused text c (some failed_operation) = ai_failed-paused c
  after_ai_reply-paused text c (some pending_operation) = ai_sent-paused text c
  after_ai_reply-paused text c (some succeeded_operation) = ai_sent-paused text c

  either_pauses :
      (b : Bool) (m n : M (NodeResult × Context))
      → Pauses m
      → Pauses n
      → Pauses (if b then m else n)
  either_pauses true m n hm hn = hm
  either_pauses false m n hm hn = hn

  ai_posted-paused :
      (id text : Text) (c : Context) (node : ℕ) → Pauses (send_ai o t none id text c session node)
  unfolding reply_to_conversation
  ai_posted-paused id text c node =
      either_pauses o.gateway_configured _ _
        (first of_both _ _ (post-Keeps clean _ _) (after_ai_reply-paused text c))
        (ai_failed-paused c)

  send_ai-paused :
      (directly : Option Bool) (id text : Text) (c : Context) (node : ℕ)
      → Pauses (send_ai o t directly id text c session node)
  send_ai-paused (some false) id text c node = goes_on c go_on (λ e. cc)
  send_ai-paused (some true) id text c node = ai_posted-paused id text c node
  send_ai-paused none id text c node = ai_posted-paused id text c node

  after_generation-paused :
      (r : AiRequest) (id : Text) (c : Context) (node : ℕ) (text : Option Text)
      → Pauses (after_generation o t r id c session node text)
  after_generation-paused r id c node none = ai_failed-paused c
  after_generation-paused r id c node (some text) = send_ai-paused r.send_directly id text _ node

  generate_reply-paused :
      (r : AiRequest) (id : Text) (c : Context) (node : ℕ)
      → Pauses (generate_reply o t r id c session node)
  generate_reply-paused r id c node =
      first of_both _ _ (select-Keeps clean _ clean-Stable.called)
        (λ messages. first of_both _ _ (ask-Keeps clean _) (after_generation-paused r id c node))

  generate_in-paused :
      (r : AiRequest) (c : Context) (node : ℕ) (id : Option Text)
      → Pauses (generate_in o t r c session node id)
  generate_in-paused r c node none = cancel_run-paused c
  generate_in-paused r c node (some id) = generate_reply-paused r id c node

  ai_conversation-paused :
      (id : Option Text) (r : AiRequest) (c : Context) (node : ℕ)
      → Pauses (ai_conversation o t id r c session node)
  ai_conversation-paused (some id) r c node = generate_reply-paused r id c node
  ai_conversation-paused none r c node =
      first of_both _ _ (single-Keeps clean _ clean-Stable.called)
        (λ answer. generate_in-paused r c node (late_id o t answer))

  with_secret-paused :
      (r : AiRequest) (c : Context) (node : ℕ) (stored : Option (Option Text))
      → Pauses (with_secret o t r c session node stored)
  with_secret-paused r c node none = cancel_run-paused c
  with_secret-paused r c node (some key) =
      first of_both _ _ (read_workspace_key-Keeps o t clean clean-Stable tt (nonempty key))
        (λ done. ai_conversation-paused (nonempty c.late_conversation_id) r c node)

  pub execute_ai_response-paused :
      (r : AiRequest) (c : Context) (node : ℕ) → Pauses (execute_ai_response o t r c session node)
  unfolding execute_ai_response
  execute_ai_response-paused r c node =
      first of_both _ _ (ask-Keeps clean _) (with_secret-paused r c node)
