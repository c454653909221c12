-- ===== src/FlowEngine/Engine/Nodes.antt =====
-- What the nodes of a flow do that send nothing: conditions, delays, tags, fields, requests, splits,
-- takeovers, subscriptions and enrollments.
use zernflow.Base.{
  ℕ, ◌+◌, ◌*◌, Bool, true, false, not, ◌&&◌, Option, none, some, List, [], ◌∷◌, map, filter,
  if◌then◌else◌, ◌==◌, or_else,
}
use zernflow.Base.Json.{Text, str, codes, text_eq}
use mathlib.Core.Option
use zernflow.FlowEngine.Types.{
  Condition, DelayUnit, HttpRequest, Method, get_method, SplitPath, Variables, Context,
}
use zernflow.FlowEngine.Interpolate.{interpolate_variables}
use zernflow.FlowEngine.Conditions.{Contact, engine_field, decide}
use zernflow.FlowEngine.Split.{split}
use zernflow.FlowEngine.Engine.Store.{
  Tables, FieldDefinition, Sequence, FieldValue, Enrollment, Resume, Queue, tasks, scheduled_jobs,
  Rows, World, M, ◌>>=◌, ◌>>◌, return, throw, failure, Answer, row, single, write_rows,
  write_rows_returning, ask, wait_until, take_over, update_session,
}
use zernflow.FlowEngine.Engine.Outside.{Outside}
use zernflow.FlowEngine.Engine.Rows.{
  add_pair, add_resume, enroll, is_pair, multiplier, set_subscribed, set_variable, slug_of, tags_of,
  upsert_tag, upsert_value, variables_of,
}

-- What a node answers: that the run pauses, the handle to follow, or nothing.
pub data NodeResult : Type 0 where
  pause go_on : NodeResult
  handle : Text → NodeResult

module _ (o : Outside) (t : Tables) where
  -- The row of a contact with its tags and its custom fields.
  abbrev pub contact_rows : Rows → List (ℕ × Bool) → List Contact
  contact_rows rows [] = []
  contact_rows rows ((c, subscribed) ∷ rest) =
      record {
        id = c;
        is_subscribed = subscribed;
        tags = tags_of c rows.tags rows.contact_tags;
        custom_fields =
            map (λ v. (slug_of t.field_definitions v.field_id, v.value))
              (filter (λ v. v.contact_id == c) rows.field_values);
      }
      ∷ contact_rows rows rest

  unfoldable pub contacts_with : ℕ → World → List Contact
  contacts_with id w = filter (λ c. c.id == id) (contact_rows w.rows w.rows.contacts)

  abbrev pub answer_of : Option Bool → M NodeResult
  answer_of none = throw failure
  answer_of (some true) = return (handle (codes "true"))
  answer_of (some false) = return (handle (codes "false"))

  abbrev pub judge : Option Text → List Condition → Context → Answer Contact → M NodeResult
  judge logic conditions c (row contact) =
      answer_of
        (decide o.to_number (engine_field contact c.platform (variables_of c)) logic conditions)
  judge logic conditions c _ = return (handle (codes "false"))

  unfoldable pub execute_condition : Option Text → List Condition → Context → M NodeResult
  unfolding decide engine_field contacts_with
  execute_condition logic conditions c =
      single (contacts_with c.contact_id) >>= judge logic conditions c

  -- `scheduleFlowResume`: the procedure of the database, or else the legacy queue.
  abbrev pub fallback : Resume → Bool → M (Unit {0})
  fallback r true = return tt
  fallback r false =
      write_rows (add_resume (record r { queue = scheduled_jobs })) >>= (λ _. return tt)

  abbrev pub schedule_on : Resume → Option Queue → M (Unit {0})
  schedule_on r none = fallback r false
  schedule_on r (some q) = write_rows (add_resume (record r { queue = q })) >>= fallback r

  unfoldable pub schedule_flow_resume : Resume → M (Unit {0})
  schedule_flow_resume r = ask o.route >>= schedule_on r

  abbrev pub resume_of : ℕ → ℕ → Context → ℕ → Resume
  resume_of session node c run_at = record {
    queue = tasks;
    session_id = session;
    node_id = node;
    flow_id = c.flow_id;
    workspace_id = c.workspace_id;
    variables = variables_of c;
    run_at = run_at;
  }

  unfoldable pub execute_delay : ℕ → DelayUnit → ℕ → ℕ → Context → M NodeResult
  unfolding schedule_flow_resume
  execute_delay duration unit session node c = ask o.now >>= (λ now.
      let run_at = now + duration * multiplier unit in
      schedule_flow_resume (resume_of session node c run_at)
      >> (update_session session (wait_until node run_at) >> return pause))

  abbrev pub set_tag : Bool → ℕ → Option ℕ → M NodeResult
  set_tag add contact none = return go_on
  set_tag true contact (some tag) =
      write_rows (λ r. record r { contact_tags = add_pair contact tag r.contact_tags })
      >> return go_on
  set_tag false contact (some tag) =
      write_rows
        (λ r. record r { contact_tags = filter (λ p. not (is_pair contact tag p)) r.contact_tags })
      >> return go_on

  unfoldable pub execute_tag : Bool → Text → Context → M NodeResult
  unfolding upsert_tag
  execute_tag add name c =
      write_rows_returning (upsert_tag c.workspace_id name) >>= set_tag add c.contact_id

  unfoldable pub definitions_of : ℕ → Text → World → List FieldDefinition
  definitions_of workspace slug w =
      filter (λ d. d.workspace_id == workspace && text_eq d.slug slug) t.field_definitions

  abbrev pub set_value : Text → Context → Answer FieldDefinition → M NodeResult
  set_value value c (row d) =
      let v : FieldValue = record {
        contact_id = c.contact_id;
        field_id = d.id;
        value = interpolate_variables o.stringify (variables_of c) value;
      } in
      write_rows (λ r. record r { field_values = upsert_value v r.field_values }) >> return go_on
  set_value value c _ = return go_on

  unfoldable pub execute_set_field : Text → Text → Context → M NodeResult
  unfolding definitions_of interpolate_variables
  execute_set_field slug value c = single (definitions_of c.workspace_id slug) >>= set_value value c

  abbrev pub is_get : Method → Bool
  is_get get_method = true
  is_get _ = false

  abbrev pub body_of : HttpRequest → Variables → Option Text
  body_of r vs = if is_get r.method then none else elim r.body [
    | none ↦ none
    | some [] ↦ none
    | some (ch ∷ chs) ↦ some (interpolate_variables o.stringify vs (ch ∷ chs))
  ]

  -- The answer as the value of the variable, if there is one and `variables` is set.
  abbrev pub store_answer : Option Text → Context → Text → Context
  store_answer none c answer = c
  store_answer (some []) c answer = c
  store_answer (some (ch ∷ chs)) c answer = record c {
    variables =
        Option.map (set_variable (ch ∷ chs) (or_else (o.parse_json answer) (str answer)))
          c.variables;
  }

  abbrev pub after_answer : HttpRequest → Context → Option Text → Context
  after_answer r c none = c
  after_answer r c (some text) = store_answer r.response_variable c text

  -- A request that throws is logged, and the run goes on.
  unfoldable pub execute_http_request : HttpRequest → Context → M Context
  unfolding interpolate_variables set_variable
  execute_http_request r c =
      ask (λ n. o.fetch n (record {
        method = r.method;
        url = interpolate_variables o.stringify (variables_of c) r.url;
        headers = (codes "Content-Type", codes "application/json") ∷ r.headers;
        body = body_of r (variables_of c);
      }))
      >>= (λ answer. return (after_answer r c answer))

  unfoldable pub execute_human_takeover : ℕ → Context → M NodeResult
  execute_human_takeover session c =
      write_rows (λ r. record r { paused = c.conversation_id ∷ r.paused })
      >> (ask o.now >>= (λ now. update_session session (take_over now) >> return pause))

  unfoldable pub execute_subscription : Bool → Context → M NodeResult
  execute_subscription subscribe c =
      write_rows (λ r. record r { contacts = set_subscribed c.contact_id subscribe r.contacts })
      >> return go_on

  abbrev pub take_path : Option SplitPath → M NodeResult
  take_path none = throw failure
  take_path (some p) = return (handle p.name)

  -- A node without paths has no first one to fall back on, and throws.
  unfoldable pub execute_ab_split : List SplitPath → M NodeResult
  unfolding split
  execute_ab_split paths = ask o.random >>= (λ r. take_path (split r.0 r.1 paths))

  unfoldable pub sequences_of : ℕ → ℕ → World → List Sequence
  sequences_of id workspace w = filter (λ s. s.id == id && s.workspace_id == workspace) t.sequences

  abbrev pub first_step_at : Option ℕ → ℕ → ℕ
  first_step_at none now = now
  first_step_at (some delay) now = now + delay * 60_000

  abbrev pub start_sequence : List (Option ℕ) → ℕ → Context → M NodeResult
  start_sequence [] id c = return go_on
  start_sequence (step ∷ steps) id c = ask o.now >>= (λ now.
      let e : Enrollment = record {
        sequence_id = id;
        contact_id = c.contact_id;
        channel_id = c.channel_id;
        next_step_at = first_step_at step now;
      } in
      write_rows (λ r. record r { enrollments = enroll e r.enrollments }) >> return go_on)

  abbrev pub enroll_in : ℕ → Context → Answer Sequence → M NodeResult
  enroll_in id c (row s) = if s.is_active then start_sequence s.steps id c else return go_on
  enroll_in id c _ = return go_on

  unfoldable pub execute_enroll_sequence : Option ℕ → Context → M NodeResult
  unfolding sequences_of
  execute_enroll_sequence none c = return go_on
  execute_enroll_sequence (some id) c = single (sequences_of id c.workspace_id) >>= enroll_in id c
