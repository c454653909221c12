-- ===== src/FlowEngine/Reply.antt =====
-- lib/flow-engine/gateway-message.ts: the reply that the gateway is asked to send for a message, and
-- its idempotency key. `sha256`, in hexadecimal digits, is a parameter, and so is the text that
-- `replace` makes of a variable that is not a text. An absent list of attachments is an empty one.
pub mod Laws
use zernflow.Base.{
  ℕ, Option, none, some, List, [], ◌∷◌, ◌++◌, map, if◌then◌else◌, take, or_else, is_some, ◌||◌,
}
use zernflow.Base.Json.{Text, Json, codes, text_eq, decimal, trim}
use mathlib.Core.Option
use zernflow.FlowEngine.Types.{
  Platform, facebook, instagram, whatsapp, telegram, Button, QuickReply, CarouselElement, Message,
  Variables,
}
use zernflow.FlowEngine.Interpolate.{interpolate}
use zernflow.FlowEngine.Messages.{adapt_message, nonempty, join}

pub data AttachmentType : Type 0 where
  image video audio file : AttachmentType

pub record Attachment : Type 0 where
  pub type : AttachmentType
  pub url : Text

pub record Presentation : Type 0 where
  pub quick_replies : Option (List QuickReply)
  pub buttons : Option (List Button)
  pub carousel : Option (List CarouselElement)

pub data DeliveryMode : Type 0 where
  conversation private_comment_reply : DeliveryMode

pub record ReplyInput : Type 0 where
  pub text : Option Text
  pub attachments : List Attachment
  pub presentation : Option Presentation
  pub delivery_mode : Option DeliveryMode
  pub idempotency_key : Text
  pub reply_to_message_id : Option Text

abbrev pub attachment_type : Option Text → AttachmentType
attachment_type none = image
attachment_type (some t) =
    if text_eq t (codes "video")
    then video
    else if text_eq t (codes "audio")
    then audio
    else if text_eq t (codes "file")
    then file
    else image

-- The identifiers as the texts that they are.
pub record KeyInput : Type 0 where
  pub workspace_id : Text
  pub flow_id : Text
  pub session_id : Text
  pub node_id : Text
  pub message_index : ℕ

-- `[…].join(":")`
unfoldable pub key_text : KeyInput → Text
unfolding decimal
key_text k =
    join (codes ":")
      (k.workspace_id ∷ k.flow_id ∷ k.session_id ∷ k.node_id ∷ decimal k.message_index ∷ [])

unfoldable pub flow_reply_idempotency_key : (Text → Text) → KeyInput → Text
unfolding key_text
flow_reply_idempotency_key sha256 k = codes "zernflow:flow:" ++ take 48 (sha256 (key_text k))

-- `RICH_META_PLATFORMS`, Telegram, and the others.
pub data Richness : Type 0 where
  rich_meta keyboard text_only : Richness

abbrev pub richness : Platform → Richness
richness facebook = rich_meta
richness instagram = rich_meta
richness whatsapp = rich_meta
richness telegram = keyboard
richness _ = text_only

module _ (put : Text → Text) where
  abbrev pub put_given : Option Text → Option Text
  put_given t = Option.map put (nonempty t)

  abbrev pub put_button : Button → Button
  put_button b = record b {
    title = put b.title;
    payload = put_given b.payload;
    url = put_given b.url;
  }

  abbrev pub put_quick_reply : QuickReply → QuickReply
  put_quick_reply q = record { title = put q.title; payload = put q.payload }

  abbrev pub put_element : CarouselElement → CarouselElement
  put_element e = record {
    image_url = put_given e.image_url;
    title = put e.title;
    subtitle = put_given e.subtitle;
    buttons = some (map put_button (or_else e.buttons []));
  }

  -- The buttons and the quick replies, where there are any.
  unfoldable pub controls : Option (List Button) → Option (List QuickReply) → Option Presentation
  controls buttons replies =
      if is_some (nonempty buttons) || is_some (nonempty replies)
      then some (record {
        quick_replies = Option.map (map put_quick_reply) (nonempty replies);
        buttons = Option.map (map put_button) (nonempty buttons);
        carousel = none;
      })
      else none

  unfoldable pub presentation_of : Message → Platform → Option Presentation
  unfolding controls adapt_message
  presentation_of m platform = elim (richness platform) [
    | rich_meta ↦ elim (nonempty (adapt_message m platform).template) [
      | some elements ↦ some (record {
        quick_replies = none;
        buttons = none;
        carousel = some (map put_element elements);
      })
      | none ↦ controls (adapt_message m platform).buttons (adapt_message m platform).quick_replies
    ]
    | keyboard ↦ controls m.buttons m.quick_replies
    | text_only ↦ none
  ]

abbrev pub or_given {ℓ} : {A : Type ℓ} → Option A → Option A → Option A
or_given none b = b
or_given (some a) b = some a

abbrev pub image_type : Option Text → Option Text
image_type url = Option.map (λ u. codes "image") (nonempty url)

abbrev pub attachments_of : (Text → Text) → Message → List Attachment
attachments_of put m = elim (nonempty (or_given m.media_url m.image_url)) [
  | none ↦ []
  | some url ↦
      record {
        type = attachment_type (or_given m.media_type (image_type m.image_url));
        url = put url;
      }
      ∷ []
]

unfoldable pub build_gateway_flow_reply :
    (Text → Text) → (Json → Text) → Message → Platform → Variables → KeyInput → ReplyInput
unfolding adapt_message trim presentation_of interpolate flow_reply_idempotency_key
build_gateway_flow_reply sha256 to_text m platform variables key =
    let put = interpolate to_text variables in
    record {
      text = nonempty (some (trim (put (adapt_message m platform).text)));
      attachments = attachments_of put m;
      presentation = presentation_of put m platform;
      delivery_mode = none;
      idempotency_key = flow_reply_idempotency_key sha256 key;
      reply_to_message_id = none;
    }
