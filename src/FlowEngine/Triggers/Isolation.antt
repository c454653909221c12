-- ===== src/FlowEngine/Triggers/Isolation.antt =====
-- The workspace and the channel of the trigger that is chosen.
use zernflow.Base.{
  ℕ, ◌≡◌, ◌⊎◌, inl, inr, Bool, true, false, Option, none, some, List, [], ◌∷◌, arith, filter, find,
  All, Bool-cases, ltb,
}
use zernflow.Base.Json.{Text}
use zernflow.FlowEngine.Triggers.{
  Trigger, TriggerType, postback, quick_reply, IncomingMessage, is_eligible, insert_trigger,
  by_priority, load_triggers, find_payload, find_keyword, find_welcome, find_default,
  choose_trigger, match_trigger, or_first,
}

filter-All : (p : Trigger → Bool) (ts : List Trigger) → All (λ t. p t ≡ true) (filter p ts)
filter-All p [] = tt
filter-All p (t ∷ ts) = elim (Bool-cases (p t)) [
  | inl keep ↦ rw keep (keep, filter-All p ts)
  | inr drop ↦ rw drop (filter-All p ts)
]

pub insert_trigger-All :
    (P : Trigger → Type 0) (t : Trigger) (us : List Trigger)
    → P t
    → All P us
    → All P (insert_trigger t us)
unfolding insert_trigger
insert_trigger-All P t [] h k = (h, tt)
insert_trigger-All P t (u ∷ us) h k = elim (Bool-cases (ltb t.priority u.priority)) [
  | inl less ↦ rw less (k.0, insert_trigger-All P t us h k.1)
  | inr more ↦ rw more (h, k)
]

pub by_priority-All : (P : Trigger → Type 0) (ts : List Trigger) → All P ts → All P (by_priority ts)
unfolding by_priority
by_priority-All P [] h = tt
by_priority-All P (t ∷ ts) h =
    insert_trigger-All P t (by_priority ts) h.0 (by_priority-All P ts h.1)

find-All :
    (P : Trigger → Type 0) (p : Trigger → Bool) (ts : List Trigger) (t : Trigger)
    → All P ts
    → find p ts ≡ some t
    → P t
find-All P p [] t h e = absurd (ground arith)
find-All P p (u ∷ us) t h e = elim (Bool-cases (p u)) [
  | inl hit ↦ let same : u ≡ t = ground arith in rw (← same) h.0
  | inr miss ↦ find-All P p us t h.1 (ground arith)
]

find_payload-All :
    (P : Trigger → Type 0) (type : TriggerType) (o : Option Text) (ts : List Trigger) (t : Trigger)
    → All P ts
    → find_payload type o ts ≡ some t
    → P t
unfolding find_payload
find_payload-All P type none ts t h e = absurd (ground arith)
find_payload-All P type (some []) ts t h e = absurd (ground arith)
find_payload-All P type (some (c ∷ cs)) ts t h e = find-All P _ ts t h e

or_first-All :
    (P : Trigger → Type 0) (a b : Option Trigger)
    → ((t : Trigger) → a ≡ some t → P t)
    → ((t : Trigger) → b ≡ some t → P t)
    → (t : Trigger) → or_first a b ≡ some t
    → P t
or_first-All P none b f g t e = g t e
or_first-All P (some a) b f g t e = f t e

module _ (lower : Text → Text) (trim : Text → Text) where
  find_keyword-All :
      (P : Trigger → Type 0) (o : Option Text) (ts : List Trigger) (t : Trigger)
      → All P ts
      → find_keyword lower trim o ts ≡ some t
      → P t
  unfolding find_keyword
  find_keyword-All P none ts t h e = absurd (ground arith)
  find_keyword-All P (some []) ts t h e = absurd (ground arith)
  find_keyword-All P (some (c ∷ cs)) ts t h e = find-All P _ ts t h e

  find_welcome-All :
      (P : Trigger → Type 0) (first : Bool) (ts : List Trigger) (t : Trigger)
      → All P ts
      → find_welcome lower trim first ts ≡ some t
      → P t
  unfolding find_welcome
  find_welcome-All P true ts t h e = find-All P _ ts t h e
  find_welcome-All P false ts t h e = absurd (ground arith)

  find_default-All :
      (P : Trigger → Type 0) (ts : List Trigger) (t : Trigger)
      → All P ts
      → find_default lower trim ts ≡ some t
      → P t
  unfolding find_default
  find_default-All P ts t h e = find-All P _ ts t h e

  choose_trigger-All :
      (P : Trigger → Type 0) (message : IncomingMessage) (first : Bool) (ts : List Trigger)
      (t : Trigger)
      → All P ts
      → choose_trigger lower trim message first ts ≡ some t
      → P t
  unfolding choose_trigger
  choose_trigger-All P message first ts t h =
      or_first-All P (find_payload postback message.postback_payload ts) _
        (λ u. find_payload-All P postback message.postback_payload ts u h)
        (or_first-All P (find_payload quick_reply message.quick_reply_payload ts) _
          (λ u. find_payload-All P quick_reply message.quick_reply_payload ts u h)
          (or_first-All P (find_keyword lower trim message.text ts) _
            (λ u. find_keyword-All P message.text ts u h)
            (or_first-All P (find_welcome lower trim first ts) (find_default lower trim ts)
              (λ u. find_welcome-All P first ts u h) (λ u. find_default-All P ts u h))))
        t

  -- A trigger that a message fires belongs to a published flow of the workspace of the channel, it
  -- is active, and it is a trigger of that channel or of every channel of the workspace.
  pub match_trigger-isolated :
      (channel workspace : ℕ) (message : IncomingMessage) (first : Option Bool) (inbound : ℕ)
      (rows : List Trigger) (t : Trigger)
      → match_trigger lower trim channel workspace message first inbound rows ≡ some t
      → (t.flow_workspace ≡ workspace)
        × (t.is_active ≡ true)
        × (t.flow_published ≡ true)
        × ((t.channel_id ≡ none) ⊎ (t.channel_id ≡ some channel))
  unfolding match_trigger load_triggers
  match_trigger-isolated channel workspace message first inbound rows t e =
      let ok' : is_eligible channel workspace t ≡ true =
        choose_trigger-All (λ u. is_eligible channel workspace u ≡ true) message _ _ t
          (by_priority-All _ _ (filter-All (is_eligible channel workspace) rows)) e in
      ground arith
