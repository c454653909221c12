-- ===== src/FlowEngine/Triggers/Priority.antt =====
-- The order among the triggers, and the choice for a postback.
use zernflow.Base.{
  ℕ, ◌≤◌, ◌≡◌, refl, sym, ap, find_holds, inl, inr, Bool, true, false, Option, none, some, List, [],
  ◌∷◌, arith, filter, find, All, All-implies, Bool-cases, Option-cases, ltb,
}
use mathlib.Core.Path.{subst}
use mathlib.Core.List.{Memᴰ}
use zernflow.Base.Json.{Text, text_eq_refl, text_eq-eq}
use zernflow.FlowEngine.Triggers.{
  TriggerType, Trigger, postback, quick_reply, keyword, welcome, default, other_type, same_type,
  equals_payload, IncomingMessage, is_eligible, insert_trigger, by_priority, load_triggers,
  find_payload, choose_trigger, match_trigger, has_payload,
}
use zernflow.FlowEngine.Triggers.Isolation.{insert_trigger-All}

-- No trigger after one of a smaller priority.
abbrev IsOrdered : List Trigger → Type 0
IsOrdered [] = Unit
IsOrdered (t ∷ ts) = All (λ u. u.priority ≤ t.priority) ts × IsOrdered ts

insert_trigger-IsOrdered :
    (t : Trigger) (us : List Trigger) → IsOrdered us → IsOrdered (insert_trigger t us)
unfolding insert_trigger
insert_trigger-IsOrdered t [] h = (tt, tt)
insert_trigger-IsOrdered t (u ∷ us) h = elim (Bool-cases (ltb t.priority u.priority)) [
  | inl less ↦ rw less (
    insert_trigger-All (λ v. v.priority ≤ u.priority) t us (ground arith) h.0,
    insert_trigger-IsOrdered t us h.1,
  )
  | inr more ↦
      let above : u.priority ≤ t.priority = ground arith in
      rw more ((above, All-implies (λ v k. omega (arith, k, above)) us h.0), h)
]

by_priority-IsOrdered : (ts : List Trigger) → IsOrdered (by_priority ts)
unfolding by_priority
by_priority-IsOrdered [] = tt
by_priority-IsOrdered (t ∷ ts) =
    insert_trigger-IsOrdered t (by_priority ts) (by_priority-IsOrdered ts)

find-greatest :
    (p : Trigger → Bool) (ts : List Trigger) (t : Trigger)
    → IsOrdered ts
    → find p ts ≡ some t
    → All (λ u. p u ≡ true → u.priority ≤ t.priority) ts
find-greatest p [] t h e = tt
find-greatest p (u ∷ us) t h e = elim (Bool-cases (p u)) [
  | inl hit ↦
      let same : u ≡ t = ground arith in
      subst (λ x. All (λ v. p v ≡ true → v.priority ≤ x.priority) (u ∷ us)) same
        ((λ k. omega arith), All-implies (λ v k k'. k) us h.0)
  | inr miss ↦ ((λ k. absurd (ground arith)), find-greatest p us t h.1 (ground arith))
]

insert_trigger-All-back :
    (P : Trigger → Type 0) (t : Trigger) (us : List Trigger)
    → All P (insert_trigger t us)
    → P t × All P us
unfolding insert_trigger
insert_trigger-All-back P t [] h = h
insert_trigger-All-back P t (u ∷ us) h = elim (Bool-cases (ltb t.priority u.priority)) [
  | inl less ↦
      let k : P u × All P (insert_trigger t us) = rw less at h in
      let rest = insert_trigger-All-back P t us k.1 in (rest.0, (k.0, rest.1))
  | inr more ↦ let k : P t × (P u × All P us) = rw more at h in k
]

by_priority-All-back :
    (P : Trigger → Type 0) (ts : List Trigger) → All P (by_priority ts) → All P ts
unfolding by_priority
by_priority-All-back P [] h = tt
by_priority-All-back P (t ∷ ts) h =
    let k = insert_trigger-All-back P t (by_priority ts) h in (k.0, by_priority-All-back P ts k.1)

filter-All-back :
    (P : Trigger → Type 0) (p : Trigger → Bool) (ts : List Trigger)
    → All P (filter p ts)
    → All (λ t. p t ≡ true → P t) ts
filter-All-back P p [] h = tt
filter-All-back P p (t ∷ ts) h = elim (Bool-cases (p t)) [
  | inl keep ↦
      let k : P t × All P (filter p ts) = rw keep at h in ((λ e. k.0), filter-All-back P p ts k.1)
  | inr drop ↦
      let k : All P (filter p ts) = rw drop at h in
      ((λ e. absurd (ground arith)), filter-All-back P p ts k)
]

find-none : (p : Trigger → Bool) (ts : List Trigger) → find p ts ≡ none → All (λ t. p t ≡ false) ts
find-none p [] e = tt
find-none p (t ∷ ts) e = elim (Bool-cases (p t)) [
  | inl hit ↦ absurd (ground arith)
  | inr miss ↦ (miss, find-none p ts (ground arith))
]

All-Memᴰ : (P : Trigger → Type 0) (ts : List Trigger) (t : Trigger) → All P ts → Memᴰ t ts → P t
All-Memᴰ P [] t h m = elim m [ ]
All-Memᴰ P (u ∷ us) t h (Memᴰ.head e) = subst P (sym e) h.0
All-Memᴰ P (u ∷ us) t h (Memᴰ.tail m) = All-Memᴰ P us t h.1 m

same_type-postback : (type : TriggerType) → same_type type postback ≡ true → type ≡ postback
same_type-postback postback e = refl
same_type-postback quick_reply e = cc
same_type-postback keyword e = cc
same_type-postback welcome e = cc
same_type-postback default e = cc
same_type-postback other_type e = cc

equals_payload-eq :
    (wanted : Text) (p : Option Text) → equals_payload wanted p ≡ true → p ≡ some wanted
equals_payload-eq wanted none e = cc
equals_payload-eq wanted (some p) e = ap some (text_eq-eq p wanted e)

-- A postback trigger with a payload.
abbrev pub IsPostback : Text → Trigger → Type 0
IsPostback wanted t = (t.type ≡ postback) × (t.payload ≡ some wanted)

has_payload-IsPostback :
    (wanted : Text) (t : Trigger) → has_payload postback wanted t ≡ true → IsPostback wanted t
has_payload-IsPostback wanted t e =
    (same_type-postback t.type (ground arith), equals_payload-eq wanted t.payload (ground arith))

IsPostback-has_payload :
    (wanted : Text) (t : Trigger) → IsPostback wanted t → has_payload postback wanted t ≡ true
IsPostback-has_payload wanted t h = rw (h.0, h.1) (text_eq_refl wanted)

module _ (lower : Text → Text) (trim : Text → Text) where
  -- If a message has a postback and one of the rows is an eligible postback trigger with its payload,
  -- the trigger that fires is a postback trigger with that payload, whose priority is no smaller than
  -- that row's.
  pub match_trigger-greatest :
      (channel workspace : ℕ) (c : ℕ) (cs : Text) (message : IncomingMessage) (first : Option Bool)
      (inbound : ℕ) (rows : List Trigger) (u : Trigger)
      → message.postback_payload ≡ some (c ∷ cs)
      → Memᴰ u rows
      → is_eligible channel workspace u ≡ true
      → IsPostback (c ∷ cs) u
      → (t : Trigger) × (match_trigger lower trim channel workspace message first inbound rows
          ≡ some t)
        × IsPostback (c ∷ cs) t
        × (u.priority ≤ t.priority)
  unfolding match_trigger load_triggers choose_trigger find_payload
  match_trigger-greatest channel workspace c cs message first inbound rows u e m eligible is_one =
      let wanted = IsPostback-has_payload (c ∷ cs) u is_one in
      let p = has_payload postback (c ∷ cs) in
      let ts = by_priority (filter (is_eligible channel workspace) rows) in
      elim (Option-cases (find p ts)) [
        | inl none' ↦
            let misses =
              filter-All-back (λ v. p v ≡ false) (is_eligible channel workspace) rows
                (by_priority-All-back (λ v. p v ≡ false) _ (find-none p ts none')) in
            let miss = All-Memᴰ _ rows u misses m eligible in absurd (ground arith)
        | inr (t, some') ↦
            let less =
              filter-All-back (λ v. p v ≡ true → v.priority ≤ t.priority)
                (is_eligible channel workspace) rows
                (by_priority-All-back _ _ (find-greatest p ts t (by_priority-IsOrdered _) some')) in
            (
              t,
              rw (e, some') refl,
              has_payload-IsPostback (c ∷ cs) t (find_holds p ts some'),
              All-Memᴰ _ rows u less m eligible wanted,
            )
      ]
