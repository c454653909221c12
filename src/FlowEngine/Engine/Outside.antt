-- ===== src/FlowEngine/Engine/Outside.antt =====
-- What the flow engine calls outside of the program, as functions of the number of calls before, and
-- the functions of the language that the model leaves open. None stands for an exception.
use zernflow.Base.{ℕ, Bool, Option, List}
use zernflow.Base.Json.{Text, Json, Number}
use zernflow.FlowEngine.Types.{Method, AiRequest}
use zernflow.FlowEngine.Reply.{ReplyInput}
use zernflow.FlowEngine.Engine.Store.{Queue, StoredMessage}

pub record FetchRequest : Type 0 where
  pub method : Method
  pub url : Text
  pub headers : List (Text × Text)
  pub body : Option Text

pub data OperationStatus : Type 0 where
  pending_operation succeeded_operation failed_operation : OperationStatus

-- A page of a conversation: the messages, by the reference of the platform and the gateway's own, and
-- the cursor of the next page.
pub record Page : Type 0 where
  pub messages : List (Text × Text)
  pub next_cursor : Option Text

-- `reply`, `page` (Agent Social Gateway), `fetch` (safeFetch), `generate` (the AI gateway), `secret`
-- (resolveBindingOrNull), `route` (the procedure schedule_flow_resume), `random` (a fraction), `now`.
-- `id_text` is the text of an identifier, of which the engine otherwise only asks whether it is the
-- same as another one.
pub record Outside : Type 0 where
  pub gateway_configured : Bool
  pub reply : ℕ → Text → ReplyInput → Option OperationStatus
  pub page : ℕ → Text → Option Text → Option Page
  pub fetch : ℕ → FetchRequest → Option Text
  pub generate : ℕ → AiRequest → List StoredMessage → Option Text
  pub secret : ℕ → Option (Option Text)
  pub route : ℕ → Option Queue
  pub random : ℕ → ℕ × ℕ
  pub now : ℕ → ℕ
  pub parse_json : Text → Option Json
  pub stringify : Json → Text
  pub to_text : Json → Text
  pub to_number : Option Json → Number
  pub sha256 : Text → Text
  pub id_text : ℕ → Text
