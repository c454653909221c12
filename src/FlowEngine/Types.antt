-- ===== src/FlowEngine/Types.antt =====
-- lib/flow-engine/types.ts: a flow as a graph of nodes, the data of a node, and the context of a run.
-- Identifiers are numbers; a duration and a weight are whole.
use zernflow.Base.{ℕ, Bool, Option, List}
use zernflow.Base.Json.{Text, Json}

pub data Platform : Type 0 where
  facebook instagram twitter telegram bluesky reddit whatsapp threads linkedin tiktok : Platform
  youtube : Platform

-- A button opens a link, or else posts back.
pub record Button : Type 0 where
  pub title : Text
  pub is_url : Bool
  pub payload : Option Text
  pub url : Option Text

pub record QuickReply : Type 0 where
  pub title : Text
  pub payload : Text

pub record CarouselElement : Type 0 where
  pub image_url : Option Text
  pub title : Text
  pub subtitle : Option Text
  pub buttons : Option (List Button)

pub record Message : Type 0 where
  pub text : Option Text
  pub image_url : Option Text
  pub quick_replies : Option (List QuickReply)
  pub buttons : Option (List Button)
  pub carousel : Option (List CarouselElement)
  pub media_url : Option Text
  pub media_type : Option Text

pub data Operator : Type 0 where
  equals not_equals contains exists gt lt other_operator : Operator

pub record Condition : Type 0 where
  pub field : Text
  pub operator : Operator
  pub value : Text

pub data DelayUnit : Type 0 where
  seconds minutes hours days other_unit : DelayUnit

pub data Method : Type 0 where
  get_method post_method put_method delete_method : Method

pub record HttpRequest : Type 0 where
  pub method : Method
  pub url : Text
  pub headers : List (Text × Text)
  pub body : Option Text
  pub response_variable : Option Text

pub record AiRequest : Type 0 where
  pub model : Text
  pub system_prompt : Text
  pub context_messages : ℕ
  pub send_directly : Option Bool

pub record SplitPath : Type 0 where
  pub name : Text
  pub weight : ℕ

-- Both kinds of tag nodes carry whether their `action` is `add`; a condition carries its `logic`, which
-- may be missing.
pub data NodeData : Type 0 where
  trigger : NodeData
  send_message : List Message → NodeData
  condition : Option Text → List Condition → NodeData
  delay : ℕ → DelayUnit → NodeData
  add_tag : Bool → Text → NodeData
  remove_tag : Bool → Text → NodeData
  set_custom_field : Text → Text → NodeData
  http_request : HttpRequest → NodeData
  go_to_flow : ℕ → NodeData
  subscription : Bool → NodeData
  human_takeover : NodeData
  comment_reply : Text → NodeData
  private_reply : Text → Option Text → NodeData
  ab_split : List SplitPath → NodeData
  smart_delay : NodeData
  ai_response : AiRequest → NodeData
  enroll_sequence : Option ℕ → NodeData
  other_node : NodeData

pub record FlowNode : Type 0 where
  pub id : ℕ
  pub content : NodeData

pub record FlowEdge : Type 0 where
  pub source : ℕ
  pub target : ℕ
  pub source_handle : Option Text

-- `variables`: a value may be the parsed answer of a request.
abbrev pub Variables : Type 0
Variables = List (Text × Json)

pub record Context : Type 0 where
  pub flow_id : ℕ
  pub channel_id : ℕ
  pub contact_id : ℕ
  pub conversation_id : ℕ
  pub workspace_id : ℕ
  pub late_conversation_id : Option Text
  pub late_account_id : Option Text
  pub message_text : Option Text
  pub variables : Option Variables
  pub platform : Option Platform
