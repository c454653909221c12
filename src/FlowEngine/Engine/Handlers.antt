-- ===== src/FlowEngine/Engine/Handlers.antt =====
-- A predicate on the world through the handlers of the nodes.
pub mod Sending
use zernflow.Base.{
  ℕ, ◌+◌, ◌*◌, ◌≡◌, Bool, true, false, Option, none, some, List, [], ◌∷◌, if◌then◌else◌,
}
use zernflow.Base.Json.{Text, Json}
use zernflow.FlowEngine.Types.{
  Condition, DelayUnit, HttpRequest, SplitPath, Message, Platform, AiRequest, Variables, Context,
}
use zernflow.FlowEngine.Split.{split}
use zernflow.FlowEngine.Messages.{nonempty}
use zernflow.FlowEngine.Conditions.{Contact, decide, engine_field}
use zernflow.FlowEngine.Engine.Store.{
  Tables, FieldDefinition, Sequence, Rows, Resume, Queue, World, M, ◌>>=◌, ◌>>◌, return, throw,
  failure, Answer, row, no_row, unavailable, single, write_rows, write_rows_returning, ask, Patch,
  cancel, wait_until, take_over, update_session, track,
}
use zernflow.FlowEngine.Engine.Outside.{Outside}
use zernflow.FlowEngine.Engine.Nodes.{
  NodeResult, answer_of, judge, execute_condition, fallback, schedule_on, schedule_flow_resume,
  resume_of, execute_delay, set_tag, execute_tag, set_value, execute_set_field,
  execute_http_request, execute_human_takeover, execute_subscription, take_path, execute_ab_split,
  start_sequence, enroll_in, execute_enroll_sequence,
}
use zernflow.FlowEngine.Engine.Rows.{multiplier}
use zernflow.FlowEngine.Engine.Keeps.{
  Pred, Keeps, IsTakeover, Stable, bind, return-Keeps, throw-Keeps, ask-Keeps, single-Keeps,
  write_rows-Keeps, write_rows_returning-Keeps, update_session-Keeps, track-Keeps, if-Keeps,
  then-Keeps,
}

module _ (o : Outside) (t : Tables) (p : Pred) {allowed : Patch → Type 0}
    (stable : Stable p allowed) where
  answer_of-Keeps : (answer : Option Bool) → Keeps p (answer_of o t answer)
  answer_of-Keeps none = throw-Keeps p NodeResult failure
  answer_of-Keeps (some true) = return-Keeps p _
  answer_of-Keeps (some false) = return-Keeps p _

  judge-Keeps :
      (logic : Option Text) (conditions : List Condition) (c : Context) (answer : Answer Contact)
      → Keeps p (judge o t logic conditions c answer)
  judge-Keeps logic conditions c (row contact) = answer_of-Keeps _
  judge-Keeps logic conditions c no_row = return-Keeps p _
  judge-Keeps logic conditions c unavailable = return-Keeps p _

  pub execute_condition-Keeps :
      (logic : Option Text) (conditions : List Condition) (c : Context)
      → Keeps p (execute_condition o t logic conditions c)
  unfolding execute_condition
  execute_condition-Keeps logic conditions c =
      bind p _ _ (single-Keeps p _ stable.called) (judge-Keeps logic conditions c)

  quiet :
      {A : Type 0} (change : Rows → Rows) (result : A)
      → Keeps p (write_rows change >> return result)
  quiet change result =
      then-Keeps p _ _ (write_rows-Keeps p change stable.called) (return-Keeps p result)

  fallback-Keeps : (r : Resume) (done : Bool) → Keeps p (fallback o t r done)
  fallback-Keeps r true = return-Keeps p tt
  fallback-Keeps r false =
      bind p _ _ (write_rows-Keeps p _ stable.called) (λ done. return-Keeps p tt)

  schedule_on-Keeps : (r : Resume) (route : Option Queue) → Keeps p (schedule_on o t r route)
  schedule_on-Keeps r none = fallback-Keeps r false
  schedule_on-Keeps r (some q) = bind p _ _ (write_rows-Keeps p _ stable.called) (fallback-Keeps r)

  pub schedule_flow_resume-Keeps : (r : Resume) → Keeps p (schedule_flow_resume o t r)
  unfolding schedule_flow_resume
  schedule_flow_resume-Keeps r = bind p _ _ (ask-Keeps p _) (schedule_on-Keeps r)

  pub execute_delay-Keeps :
      (usual : (patch : Patch) → ¬ IsTakeover patch → allowed patch) (duration : ℕ)
      (unit : DelayUnit) (session node : ℕ) (c : Context)
      → Keeps p (execute_delay o t duration unit session node c)
  unfolding execute_delay
  execute_delay-Keeps usual duration unit session node c = bind p _ _ (ask-Keeps p _) (λ now.
      then-Keeps p _ _
        (schedule_flow_resume-Keeps
          (resume_of o t session node c (now + duration * multiplier unit)))
        (then-Keeps p _ _ (update_session-Keeps p stable session _ (usual _ (λ x. x)))
          (return-Keeps p _)))

  set_tag-Keeps :
      (add : Bool) (contact : ℕ) (tag : Option ℕ) → Keeps p (set_tag o t add contact tag)
  set_tag-Keeps true contact none = return-Keeps p _
  set_tag-Keeps false contact none = return-Keeps p _
  set_tag-Keeps true contact (some tag) = quiet _ _
  set_tag-Keeps false contact (some tag) = quiet _ _

  pub execute_tag-Keeps :
      (add : Bool) (name : Text) (c : Context) → Keeps p (execute_tag o t add name c)
  unfolding execute_tag
  execute_tag-Keeps add name c =
      bind p _ _ (write_rows_returning-Keeps p _ stable.called) (set_tag-Keeps add c.contact_id)

  set_value-Keeps :
      (value : Text) (c : Context) (answer : Answer FieldDefinition)
      → Keeps p (set_value o t value c answer)
  set_value-Keeps value c (row d) = quiet _ _
  set_value-Keeps value c no_row = return-Keeps p _
  set_value-Keeps value c unavailable = return-Keeps p _

  pub execute_set_field-Keeps :
      (slug value : Text) (c : Context) → Keeps p (execute_set_field o t slug value c)
  unfolding execute_set_field
  execute_set_field-Keeps slug value c =
      bind p _ _ (single-Keeps p _ stable.called) (set_value-Keeps value c)

  pub execute_http_request-Keeps :
      (r : HttpRequest) (c : Context) → Keeps p (execute_http_request o t r c)
  unfolding execute_http_request
  execute_http_request-Keeps r c = bind p _ _ (ask-Keeps p _) (λ answer. return-Keeps p _)

  pub execute_human_takeover-Keeps :
      ((time : ℕ) → allowed (take_over time))
      → (session : ℕ) (c : Context) → Keeps p (execute_human_takeover o t session c)
  unfolding execute_human_takeover
  execute_human_takeover-Keeps over session c =
      then-Keeps p _ _ (write_rows-Keeps p _ stable.called) (
        bind p _ _ (ask-Keeps p _) (λ now.
          then-Keeps p _ _ (update_session-Keeps p stable session _ (over now)) (return-Keeps p _)))

  pub execute_subscription-Keeps :
      (subscribe : Bool) (c : Context) → Keeps p (execute_subscription o t subscribe c)
  unfolding execute_subscription
  execute_subscription-Keeps subscribe c = quiet _ _

  take_path-Keeps : (path : Option SplitPath) → Keeps p (take_path o t path)
  take_path-Keeps none = throw-Keeps p NodeResult failure
  take_path-Keeps (some q) = return-Keeps p _

  pub execute_ab_split-Keeps : (paths : List SplitPath) → Keeps p (execute_ab_split o t paths)
  unfolding execute_ab_split
  execute_ab_split-Keeps paths =
      bind p _ _ (ask-Keeps p _) (λ r. take_path-Keeps (split r.0 r.1 paths))

  start_sequence-Keeps :
      (steps : List (Option ℕ)) (id : ℕ) (c : Context) → Keeps p (start_sequence o t steps id c)
  start_sequence-Keeps [] id c = return-Keeps p _
  start_sequence-Keeps (step ∷ steps) id c = bind p _ _ (ask-Keeps p _) (λ now. quiet _ _)

  enroll_in-Keeps :
      (id : ℕ) (c : Context) (answer : Answer Sequence) → Keeps p (enroll_in o t id c answer)
  enroll_in-Keeps id c (row s) =
      if-Keeps p s.is_active _ _ (start_sequence-Keeps s.steps id c) (return-Keeps p _)
  enroll_in-Keeps id c no_row = return-Keeps p _
  enroll_in-Keeps id c unavailable = return-Keeps p _

  pub execute_enroll_sequence-Keeps :
      (sequence : Option ℕ) (c : Context) → Keeps p (execute_enroll_sequence o t sequence c)
  unfolding execute_enroll_sequence
  execute_enroll_sequence-Keeps none c = return-Keeps p _
  execute_enroll_sequence-Keeps (some id) c =
      bind p _ _ (single-Keeps p _ stable.called) (enroll_in-Keeps id c)
