-- ===== src/FlowEngine/Messages.antt =====
-- lib/flow-engine/platform-adapter.ts: a message of a flow as a platform can show it. `image_url`,
-- `template` and `reply_markup` are kept although the gateway message reads only a part of them.
pub mod Numbered
use zernflow.Base.{
  ℕ, zero, suc, ◌+◌, Bool, true, false, not, ◌||◌, Option, none, some, List, [], ◌∷◌, ◌++◌, map,
  if◌then◌else◌, take, or_else, is_some, length,
}
use zernflow.Base.Json.{Text, Json, codes, text_eq, decimal}
use mathlib.Core.Option
use zernflow.FlowEngine.Types.{
  Platform, facebook, instagram, twitter, telegram, bluesky, reddit, whatsapp, threads, linkedin,
  tiktok, youtube, Button, QuickReply, CarouselElement, Message, Variables,
}

-- A key of a Telegram keyboard.
pub record Key : Type 0 where
  pub text : Text
  pub callback_data : Option Text
  pub url : Option Text

pub data Markup : Type 0 where
  inline_keyboard reply_keyboard : List (List Key) → Markup

pub record AdaptedMessage : Type 0 where
  pub text : Text
  pub image_url : Option Text
  pub quick_replies : Option (List QuickReply)
  pub buttons : Option (List Button)
  pub template : Option (List CarouselElement)
  pub reply_markup : Option Markup

-- `xs?.length ? xs : undefined`, and the same of a text.
abbrev pub nonempty {ℓ} : {A : Type ℓ} → Option (List A) → Option (List A)
nonempty none = none
nonempty (some []) = none
nonempty (some (x ∷ xs)) = some (x ∷ xs)

abbrev pub plain : Text → Option Text → AdaptedMessage
plain text image = record {
  text = text;
  image_url = image;
  quick_replies = none;
  buttons = none;
  template = none;
  reply_markup = none;
}

unfoldable pub adapt_for_meta : Message → AdaptedMessage
adapt_for_meta m =
    let base = plain (or_else m.text []) m.image_url in
    elim (nonempty m.carousel) [
      | some elements ↦ record base { template = some elements }
      | none ↦ record base {
        buttons = nonempty m.buttons;
        quick_replies = nonempty m.quick_replies;
      }
    ]

abbrev pub newline : Text
newline = 10 ∷ []

abbrev pub indent : Text
indent = 10 ∷ 32 ∷ 32 ∷ 32 ∷ []

-- `xs.join(separator)`
abbrev pub join : Text → List Text → Text
join separator [] = []
join separator (x ∷ []) = x
join separator (x ∷ y ∷ rest) = x ++ (separator ++ join separator (y ∷ rest))

abbrev button_link : Button → Option Text
button_link b = if b.is_url then nonempty b.url else none

abbrev button_line : Button → Text
button_line b = elim (button_link b) [
  | some (c ∷ url) ↦ indent ++ (b.title ++ (codes ": " ++ c ∷ url))
  | _ ↦ indent ++ b.title
]

abbrev button_lines : List Button → Text
button_lines [] = []
button_lines (b ∷ bs) = button_line b ++ button_lines bs

-- `${i + 1}. ${title}`
unfoldable pub numbered : ℕ → Text → Text
unfolding decimal
numbered i title = decimal (suc i) ++ (codes ". " ++ title)

abbrev card : ℕ → CarouselElement → Text
card i e =
    numbered i e.title
    ++ (elim (nonempty e.subtitle) [ none ↦ [] | some subtitle ↦ indent ++ subtitle ]
        ++ button_lines (or_else e.buttons []))

abbrev cards_from : ℕ → List CarouselElement → List Text
cards_from i [] = []
cards_from i (e ∷ es) = card i e ∷ cards_from (suc i) es

-- `text ? `${text}\n\n${more}` : more`
abbrev pub paragraph : Text → Text → Text
paragraph [] more = more
paragraph (c ∷ cs) more = (c ∷ cs) ++ (newline ++ (newline ++ more))

unfoldable pub adapt_carousel_to_text : List CarouselElement → Text → Option Text → AdaptedMessage
unfolding numbered
adapt_carousel_to_text elements base image =
    plain (paragraph base (join (newline ++ newline) (cards_from 0 elements))) image

abbrev inline_key : Button → List Key
inline_key b =
    record {
      text = b.title;
      callback_data = if b.is_url then none else b.payload;
      url = if b.is_url then b.url else none;
    }
    ∷ []

abbrev reply_key : QuickReply → List Key
reply_key q = record { text = q.title; callback_data = none; url = none } ∷ []

unfoldable pub adapt_for_telegram : Message → AdaptedMessage
unfolding adapt_carousel_to_text
adapt_for_telegram m =
    let base = plain (or_else m.text []) m.image_url in
    elim (nonempty m.carousel) [
      | some elements ↦ adapt_carousel_to_text elements (or_else m.text []) m.image_url
      | none ↦ elim (nonempty m.buttons) [
        | some buttons ↦ record base {
          reply_markup = some (inline_keyboard (map inline_key buttons));
        }
        | none ↦ elim (nonempty m.quick_replies) [
          | some replies ↦ record base {
            reply_markup = some (reply_keyboard (map reply_key replies));
          }
          | none ↦ base
        ]
      ]
    ]

-- `content.buttons || content.quickReplies`, of which only the titles are read; an empty list of
-- buttons hides the quick replies.
abbrev pub option_titles : Option (List Button) → Option (List QuickReply) → List Text
option_titles (some buttons) replies = map (λ b. b.title) buttons
option_titles none (some replies) = map (λ q. q.title) replies
option_titles none none = []

unfoldable pub number_from : ℕ → List Text → List Text
unfolding numbered
number_from i [] = []
number_from i (title ∷ titles) = numbered i title ∷ number_from (suc i) titles

abbrev pub with_options : Text → List Text → Text
with_options text [] = text
with_options text (t ∷ ts) = paragraph text (join newline (number_from 0 (t ∷ ts)))

unfoldable pub adapt_for_text_only : Message → AdaptedMessage
unfolding adapt_carousel_to_text number_from
adapt_for_text_only m =
    let text = or_else m.text [] in
    elim (nonempty m.carousel) [
      | some elements ↦ adapt_carousel_to_text elements text m.image_url
      | none ↦ plain (with_options text (option_titles m.buttons m.quick_replies)) m.image_url
    ]

unfoldable pub adapt_message : Message → Platform → AdaptedMessage
unfolding adapt_for_meta adapt_for_telegram adapt_for_text_only
adapt_message m facebook = adapt_for_meta m
adapt_message m instagram = adapt_for_meta m
adapt_message m whatsapp = adapt_for_meta m
adapt_message m telegram = adapt_for_telegram m
adapt_message m _ = adapt_for_text_only m
