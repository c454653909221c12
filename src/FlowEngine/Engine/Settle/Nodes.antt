-- ===== src/FlowEngine/Engine/Settle/Nodes.antt =====
-- Settled sessions through the other nodes of a flow.
use zernflow.Base.{ℕ, ◌≢◌, Bool, true, false, Option, none, some, List, [], ◌∷◌}
use zernflow.Base.Json.{Text}
use zernflow.FlowEngine.Split.{split}
use zernflow.FlowEngine.Types.{Condition, SplitPath, Context}
use zernflow.FlowEngine.Conditions.{Contact}
use zernflow.FlowEngine.Engine.Store.{
  Tables, FieldDefinition, Sequence, M, ◌>>◌, return, failure, Answer, row, no_row, unavailable,
}
use zernflow.FlowEngine.Engine.Outside.{Outside, OperationStatus}
use zernflow.FlowEngine.Engine.Nodes.{
  NodeResult, pause, go_on, answer_of, judge, execute_condition, set_tag, execute_tag, set_value,
  execute_set_field, execute_subscription, take_path, execute_ab_split, start_sequence, enroll_in,
  execute_enroll_sequence,
}
use zernflow.FlowEngine.Engine.Replies.{
  after_operation, execute_comment_reply, execute_private_reply,
}
use zernflow.FlowEngine.Engine.Keeps.{
  Returns, return-Returns, bind-Returns, if-Returns, throw-Returns,
}

abbrev GoesOn : NodeResult → Type 0
GoesOn r = r ≢ pause

module _ (o : Outside) (t : Tables) where
  answer_of-GoesOn : (answer : Option Bool) → Returns GoesOn (answer_of o t answer)
  answer_of-GoesOn none = throw-Returns GoesOn failure
  answer_of-GoesOn (some true) = return-Returns GoesOn _ (λ e. cc)
  answer_of-GoesOn (some false) = return-Returns GoesOn _ (λ e. cc)

  judge-GoesOn :
      (logic : Option Text) (conditions : List Condition) (c : Context) (answer : Answer Contact)
      → Returns GoesOn (judge o t logic conditions c answer)
  judge-GoesOn logic conditions c (row contact) = answer_of-GoesOn _
  judge-GoesOn logic conditions c no_row = return-Returns GoesOn _ (λ e. cc)
  judge-GoesOn logic conditions c unavailable = return-Returns GoesOn _ (λ e. cc)

  pub execute_condition-GoesOn :
      (logic : Option Text) (conditions : List Condition) (c : Context)
      → Returns GoesOn (execute_condition o t logic conditions c)
  unfolding execute_condition
  execute_condition-GoesOn logic conditions c =
      bind-Returns GoesOn _ _ (judge-GoesOn logic conditions c)

  then_go_on : {A : Type 0} (m : M A) → Returns GoesOn (m >> return go_on)
  then_go_on m = bind-Returns GoesOn m _ (λ a. return-Returns GoesOn _ (λ e. cc))

  set_tag-GoesOn :
      (add : Bool) (contact : ℕ) (tag : Option ℕ) → Returns GoesOn (set_tag o t add contact tag)
  set_tag-GoesOn true contact none = return-Returns GoesOn _ (λ e. cc)
  set_tag-GoesOn false contact none = return-Returns GoesOn _ (λ e. cc)
  set_tag-GoesOn true contact (some tag) = then_go_on _
  set_tag-GoesOn false contact (some tag) = then_go_on _

  pub execute_tag-GoesOn :
      (add : Bool) (name : Text) (c : Context) → Returns GoesOn (execute_tag o t add name c)
  unfolding execute_tag
  execute_tag-GoesOn add name c = bind-Returns GoesOn _ _ (set_tag-GoesOn add c.contact_id)

  set_value-GoesOn :
      (value : Text) (c : Context) (answer : Answer FieldDefinition)
      → Returns GoesOn (set_value o t value c answer)
  set_value-GoesOn value c (row d) = then_go_on _
  set_value-GoesOn value c no_row = return-Returns GoesOn _ (λ e. cc)
  set_value-GoesOn value c unavailable = return-Returns GoesOn _ (λ e. cc)

  pub execute_set_field-GoesOn :
      (slug value : Text) (c : Context) → Returns GoesOn (execute_set_field o t slug value c)
  unfolding execute_set_field
  execute_set_field-GoesOn slug value c = bind-Returns GoesOn _ _ (set_value-GoesOn value c)

  pub execute_subscription-GoesOn :
      (subscribe : Bool) (c : Context) → Returns GoesOn (execute_subscription o t subscribe c)
  unfolding execute_subscription
  execute_subscription-GoesOn subscribe c = then_go_on _

  take_path-GoesOn : (path : Option SplitPath) → Returns GoesOn (take_path o t path)
  take_path-GoesOn none = throw-Returns GoesOn failure
  take_path-GoesOn (some q) = return-Returns GoesOn _ (λ e. cc)

  pub execute_ab_split-GoesOn :
      (paths : List SplitPath) → Returns GoesOn (execute_ab_split o t paths)
  unfolding execute_ab_split
  execute_ab_split-GoesOn paths =
      bind-Returns GoesOn _ _ (λ r. take_path-GoesOn (split r.0 r.1 paths))

  start_sequence-GoesOn :
      (steps : List (Option ℕ)) (id : ℕ) (c : Context)
      → Returns GoesOn (start_sequence o t steps id c)
  start_sequence-GoesOn [] id c = return-Returns GoesOn _ (λ e. cc)
  start_sequence-GoesOn (step ∷ steps) id c = bind-Returns GoesOn _ _ (λ now. then_go_on _)

  enroll_in-GoesOn :
      (id : ℕ) (c : Context) (answer : Answer Sequence) → Returns GoesOn (enroll_in o t id c answer)
  enroll_in-GoesOn id c (row s) =
      if-Returns GoesOn s.is_active _ _ (start_sequence-GoesOn s.steps id c)
        (return-Returns GoesOn _ (λ e. cc))
  enroll_in-GoesOn id c no_row = return-Returns GoesOn _ (λ e. cc)
  enroll_in-GoesOn id c unavailable = return-Returns GoesOn _ (λ e. cc)

  pub execute_enroll_sequence-GoesOn :
      (sequence : Option ℕ) (c : Context) → Returns GoesOn (execute_enroll_sequence o t sequence c)
  unfolding execute_enroll_sequence
  execute_enroll_sequence-GoesOn none c = return-Returns GoesOn _ (λ e. cc)
  execute_enroll_sequence-GoesOn (some id) c = bind-Returns GoesOn _ _ (enroll_in-GoesOn id c)

  after_operation-GoesOn :
      (c : Context) (answer : Option OperationStatus)
      → Returns GoesOn (after_operation o t c answer)
  after_operation-GoesOn c none = throw-Returns GoesOn failure
  after_operation-GoesOn c (some status) = then_go_on _

  pub execute_comment_reply-GoesOn :
      (text : Text) (c : Context) (session node : ℕ)
      → Returns GoesOn (execute_comment_reply o t text c session node)
  unfolding execute_comment_reply
  execute_comment_reply-GoesOn text c session node = bind-Returns GoesOn _ _ (λ target.
      bind-Returns GoesOn _ _ (λ given.
        bind-Returns GoesOn _ _ (λ ready. bind-Returns GoesOn _ _ (after_operation-GoesOn c))))

  pub execute_private_reply-GoesOn :
      (text : Text) (url : Option Text) (c : Context) (session node : ℕ)
      → Returns GoesOn (execute_private_reply o t text url c session node)
  unfolding execute_private_reply
  execute_private_reply-GoesOn text url c session node = bind-Returns GoesOn _ _ (λ target.
      bind-Returns GoesOn _ _ (λ given.
        bind-Returns GoesOn _ _ (λ ready. bind-Returns GoesOn _ _ (after_operation-GoesOn c))))
