-- ===== src/FlowEngine/Engine/Store.antt =====
-- The rows that the flow engine reads and writes, and the calls of the database. A call of the client
-- does not throw: it can fail, and then the answer has no data and nothing is written. `faults` says
-- of the next calls whether they fail; an empty list means that no more of them do.
use zernflow.Base.{
  ℕ, suc, Bool, true, false, Option, none, some, List, [], ◌∷◌, if◌then◌else◌, ◌==◌,
}
use zernflow.Base.Json.{Text}
use zernflow.Base.Result.{Result, ok, err}
use zernflow.FlowEngine.Types.{FlowNode, FlowEdge, Platform, Variables}
use zernflow.FlowEngine.Reply.{ReplyInput}

-- Rows that the engine only reads.
pub record Flow : Type 0 where
  pub id : ℕ
  pub workspace_id : ℕ
  pub is_published : Bool
  pub nodes : List FlowNode
  pub edges : List FlowEdge

pub record Channel : Type 0 where
  pub id : ℕ
  pub workspace_id : ℕ
  pub platform : Platform
  pub late_account_id : Option Text

pub record Conversation : Type 0 where
  pub id : ℕ
  pub workspace_id : ℕ
  pub late_conversation_id : Option Text

pub record FieldDefinition : Type 0 where
  pub id : ℕ
  pub workspace_id : ℕ
  pub slug : Text

-- A step that is a delay has its minutes.
pub record Sequence : Type 0 where
  pub id : ℕ
  pub workspace_id : ℕ
  pub is_active : Bool
  pub steps : List (Option ℕ)

pub record Tables : Type 0 where
  pub flows : List Flow
  pub channels : List Channel
  pub conversations : List Conversation
  pub field_definitions : List FieldDefinition
  pub sequences : List Sequence

pub data SessionStatus : Type 0 where
  active completed expired cancelled : SessionStatus

pub record Session : Type 0 where
  pub id : ℕ
  pub contact_id : ℕ
  pub flow_id : ℕ
  pub channel_id : ℕ
  pub status : SessionStatus
  pub current_node_id : Option ℕ
  pub variables : Variables
  pub waiting_until : Option ℕ
  pub waiting_for_input : Bool
  pub human_takeover_at : Option ℕ

pub data EventType : Type 0 where
  flow_started flow_completed message_sent message_failed : EventType
  node_executed : ℕ → EventType

pub record Event : Type 0 where
  pub workspace_id : ℕ
  pub flow_id : ℕ
  pub contact_id : ℕ
  pub type : EventType

pub record Tag : Type 0 where
  pub id : ℕ
  pub workspace_id : ℕ
  pub name : Text

pub record FieldValue : Type 0 where
  pub contact_id : ℕ
  pub field_id : ℕ
  pub value : Text

pub record Enrollment : Type 0 where
  pub sequence_id : ℕ
  pub contact_id : ℕ
  pub channel_id : ℕ
  pub next_step_at : ℕ

pub data Queue : Type 0 where
  tasks scheduled_jobs : Queue

pub record Resume : Type 0 where
  pub queue : Queue
  pub session_id : ℕ
  pub node_id : ℕ
  pub flow_id : ℕ
  pub workspace_id : ℕ
  pub variables : Variables
  pub run_at : ℕ

pub record StoredMessage : Type 0 where
  pub conversation_id : ℕ
  pub is_inbound : Bool
  pub text : Option Text

-- The rows beside the sessions and the analytics: the contacts with whether they are subscribed, the
-- tags, the conversations whose automation is paused, and what has been asked of the gateway.
pub record Rows : Type 0 where
  pub contacts : List (ℕ × Bool)
  pub tags : List Tag
  pub contact_tags : List (ℕ × ℕ)
  pub field_values : List FieldValue
  pub enrollments : List Enrollment
  pub resumes : List Resume
  pub messages : List StoredMessage
  pub paused : List ℕ
  pub replies : List (Text × ReplyInput)

-- `calls` counts the calls that leave the program, whose answers can differ each time.
pub record World : Type 0 where
  pub sessions : List Session
  pub events : List Event
  pub faults : List Bool
  pub rows : Rows
  pub calls : ℕ

-- `FlowLoadError`, another error, or the end of the fuel, which is the model's own.
pub data FlowError : Type 0 where
  load_error failure out_of_fuel : FlowError

abbrev pub M : Type 0 → Type 0
M A = World → World × Result FlowError A

infixl 5 ◌>>=◌
unfoldable pub ◌>>=◌ : {A B : Type 0} → M A → (A → M B) → M B
◌>>=◌ step next w =
    let (w', answer) = step w in elim answer [ err e ↦ (w', err e) | ok a ↦ next a w' ]

infixl 5 ◌>>◌
abbrev pub ◌>>◌ : {A B : Type 0} → M A → M B → M B
step >> rest = step >>= (λ done. rest)

unfoldable pub return : {A : Type 0} → A → M A
return a w = (w, ok a)

unfoldable pub throw : {A : Type 0} → FlowError → M A
throw e w = (w, err e)

abbrev pub fails_now : List Bool → Bool
fails_now [] = false
fails_now (f ∷ later) = f

abbrev pub later_calls : List Bool → List Bool
later_calls [] = []
later_calls (f ∷ later) = later

-- What a read of one row answers: the row, that there is not exactly one, or that the read failed.
pub data Answer (A : Type 0) : Type 0 where
  row : A → Answer A
  no_row unavailable : Answer A

abbrev pub single_of : {A : Type 0} → List A → Answer A
single_of (x ∷ []) = row x
single_of _ = no_row

abbrev pub pop : World → World
pop w = record w { faults = later_calls w.faults }

-- `.select(…).single()`.
unfoldable pub single : {A : Type 0} → (World → List A) → M (Answer A)
single read w = (pop w, ok (if fails_now w.faults then unavailable else single_of (read w)))

-- A read of rows; none if it fails.
unfoldable pub select : {A : Type 0} → (World → List A) → M (List A)
select read w = (pop w, ok (if fails_now w.faults then [] else read w))

-- Whether a write succeeded.
unfoldable pub write : (World → World) → M Bool
write change w = if fails_now w.faults then (pop w, ok false) else (change (pop w), ok true)

-- `.insert(…).select(…).single()`: what it returns, if it succeeded.
unfoldable pub write_returning : {A : Type 0} → (World → World × A) → M (Option A)
write_returning change w =
    if fails_now w.faults
    then (pop w, ok none)
    else let (w', a) = change (pop w) in (w', ok (some a))

-- The answer of something outside of the program.
unfoldable pub ask : {A : Type 0} → (ℕ → A) → M A
ask answer w = (record w { calls = suc w.calls }, ok (answer w.calls))

-- A request to the outside, with what it leaves in the rows.
unfoldable pub post : {A : Type 0} → (Rows → Rows) → (ℕ → A) → M A
post change answer w = (record w { rows = change w.rows; calls = suc w.calls }, ok (answer w.calls))

-- `.update({ … }).eq("id", sessionId)`: the updates of a session that the engine makes.
pub data Patch : Type 0 where
  resumed : Patch
  cancel : Patch
  at_node : ℕ → Patch
  store_variables : Variables → Patch
  wait_for_input : ℕ → Patch
  wait_until : ℕ → ℕ → Patch
  take_over : ℕ → Patch

unfoldable pub apply_patch : Patch → Session → Session
apply_patch resumed s = record s { waiting_for_input = false; waiting_until = none }
apply_patch cancel s = record s { status = cancelled }
apply_patch (at_node node) s = record s { current_node_id = some node }
apply_patch (store_variables vs) s = record s { variables = vs }
apply_patch (wait_for_input node) s = record s {
  waiting_for_input = true;
  current_node_id = some node;
}
apply_patch (wait_until node time) s = record s {
  waiting_until = some time;
  current_node_id = some node;
}
apply_patch (take_over time) s = record s { human_takeover_at = some time; status = completed }

unfoldable pub update_where : (Session → Bool) → (Session → Session) → List Session → List Session
update_where p f [] = []
update_where p f (s ∷ ss) = (if p s then f s else s) ∷ update_where p f ss

unfoldable pub update_session : ℕ → Patch → M Bool
unfolding apply_patch update_where
update_session id patch =
    write
      (λ w. record w { sessions = update_where (λ s. s.id == id) (apply_patch patch) w.sessions })

unfoldable pub write_rows_returning : {A : Type 0} → (Rows → Rows × A) → M (Option A)
write_rows_returning change =
    write_returning (λ w. let (rows, a) = change w.rows in (record w { rows = rows }, a))

-- `analytics_events`, the newest one first.
unfoldable pub track : Event → M Bool
track e = write (λ w. record w { events = e ∷ w.events })

unfoldable pub write_rows : (Rows → Rows) → M Bool
write_rows change = write (λ w. record w { rows = change w.rows })

abbrev pub is_active : SessionStatus → Bool
is_active active = true
is_active _ = false
