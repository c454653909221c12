-- ===== src/FlowEngine/Triggers.antt =====
-- lib/flow-engine/trigger-matcher.ts: the trigger that an incoming message fires. The rows of the
-- database are a list, of which the query keeps some; `toLowerCase` and `trim` are parameters.
pub mod Isolation
pub mod Priority
use zernflow.Base.{
  ℕ, ◌≤◌, Bool, true, false, not, ◌&&◌, ◌||◌, Option, none, some, List, [], ◌∷◌, if◌then◌else◌, ltb,
  ◌==◌, filter, find, any, or_else,
}
use zernflow.Base.Json.{Text, text_eq, starts_with}

pub data TriggerType : Type 0 where
  postback quick_reply keyword welcome default other_type : TriggerType

pub data MatchType : Type 0 where
  exact contains starts_with_it other_match : MatchType

-- A keyword of either format.
pub record Keyword : Type 0 where
  pub value : Text
  pub match_type : Option MatchType

-- A trigger with the status and the workspace of its flow, and its configuration.
pub record Trigger : Type 0 where
  pub id : ℕ
  pub channel_id : Option ℕ
  pub type : TriggerType
  pub is_active : Bool
  pub priority : ℕ
  pub flow_published : Bool
  pub flow_workspace : ℕ
  pub payload : Option Text
  pub keywords : Option (List Keyword)
  pub match_type : Option MatchType

pub record IncomingMessage : Type 0 where
  pub text : Option Text
  pub postback_payload : Option Text
  pub quick_reply_payload : Option Text

abbrev pub same_type : TriggerType → TriggerType → Bool
same_type postback postback = true
same_type quick_reply quick_reply = true
same_type keyword keyword = true
same_type welcome welcome = true
same_type default default = true
same_type _ _ = false

-- `channel_id.eq.<id>` or `channel_id.is.null`.
abbrev pub of_channel : ℕ → Option ℕ → Bool
of_channel channel none = true
of_channel channel (some c) = c == channel

abbrev pub is_eligible : ℕ → ℕ → Trigger → Bool
is_eligible channel workspace t =
    of_channel channel t.channel_id
    && t.is_active
    && t.flow_published
    && t.flow_workspace == workspace

unfoldable pub insert_trigger : Trigger → List Trigger → List Trigger
insert_trigger t [] = t ∷ []
insert_trigger t (u ∷ us) =
    let rest = insert_trigger t us in if ltb t.priority u.priority then u ∷ rest else t ∷ u ∷ us

unfoldable pub by_priority : List Trigger → List Trigger
by_priority [] = []
by_priority (t ∷ ts) = insert_trigger t (by_priority ts)

-- The query: the eligible triggers, the greatest priority first.
unfoldable pub load_triggers : ℕ → ℕ → List Trigger → List Trigger
load_triggers channel workspace rows = by_priority (filter (is_eligible channel workspace) rows)

-- `text.includes(part)`
abbrev pub includes : Text → Text → Bool
includes [] part = starts_with [] part
includes (c ∷ cs) part = starts_with (c ∷ cs) part || includes cs part

-- `o || p`, of two match types that may be missing.
abbrev or_given : Option MatchType → Option MatchType → Option MatchType
or_given none b = b
or_given (some a) b = some a

abbrev pub equals_payload : Text → Option Text → Bool
equals_payload wanted none = false
equals_payload wanted (some p) = text_eq p wanted

abbrev pub has_payload : TriggerType → Text → Trigger → Bool
has_payload type wanted t = same_type t.type type && equals_payload wanted t.payload

abbrev pub keywords_of : Option (List Keyword) → List Keyword
keywords_of none = []
keywords_of (some ks) = ks

-- A payload that is true: given and not empty.
unfoldable pub find_payload : TriggerType → Option Text → List Trigger → Option Trigger
find_payload type none ts = none
find_payload type (some []) ts = none
find_payload type (some (c ∷ cs)) ts = find (has_payload type (c ∷ cs)) ts

abbrev pub or_first : Option Trigger → Option Trigger → Option Trigger
or_first none b = b
or_first (some a) b = some a

module _ (lower : Text → Text) (trim : Text → Text) where
  unfoldable pub matches_as : MatchType → Text → Text → Bool
  matches_as exact text word = text_eq text word
  matches_as contains text word = includes text word
  matches_as starts_with_it text word = starts_with text word
  matches_as other_match text word = false

  abbrev pub keyword_matches : Text → Trigger → Keyword → Bool
  keyword_matches text t kw =
      matches_as (or_else (or_given kw.match_type t.match_type) contains) text (lower kw.value)

  abbrev pub has_keyword : Text → Trigger → Bool
  has_keyword text t =
      same_type t.type keyword && any (keyword_matches text t) (keywords_of t.keywords)

  -- The two loops over the keyword triggers and their keywords return the first that matches.
  unfoldable pub find_keyword : Option Text → List Trigger → Option Trigger
  find_keyword none ts = none
  find_keyword (some []) ts = none
  find_keyword (some (c ∷ cs)) ts = find (has_keyword (trim (lower (c ∷ cs)))) ts

  unfoldable pub find_welcome : Bool → List Trigger → Option Trigger
  find_welcome first ts = if first then find (λ t. same_type t.type welcome) ts else none

  unfoldable pub find_default : List Trigger → Option Trigger
  find_default ts = find (λ t. same_type t.type default) ts

  -- Postback, quick reply, keyword, welcome, default.
  unfoldable pub choose_trigger : IncomingMessage → Bool → List Trigger → Option Trigger
  choose_trigger message first ts = or_first (find_payload postback message.postback_payload ts) (
      or_first (find_payload quick_reply message.quick_reply_payload ts) (
        or_first (find_keyword message.text ts)
          (or_first (find_welcome first ts) (find_default ts))))

  -- `isFirstMessage`, or whether the conversation has one inbound message.
  abbrev pub is_first : Option Bool → ℕ → Bool
  is_first none count = count == 1
  is_first (some b) count = b

  unfoldable pub match_trigger :
      ℕ → ℕ → IncomingMessage → Option Bool → ℕ → List Trigger → Option Trigger
  unfolding choose_trigger load_triggers
  match_trigger channel workspace message is_first_message inbound rows =
      choose_trigger message (is_first is_first_message inbound)
        (load_triggers channel workspace rows)
