-- ===== src/Publishing/Engine/Receipts.antt =====
-- What an update does to the receipts of a publication, and which of them is the latest.
use zernflow.Base.{
  ℕ, suc, ◌<◌, ◌≡◌, ◌≢◌, refl, ap, ◌∙◌, inl, inr, true, none, some, List, [], ◌∷◌, arith, length,
  All, ltb, ◌==◌, Bool-cases, Option-cases,
}
use zernflow.Publishing.State.{same}
use zernflow.Publishing.Engine.Store.{
  Receipt, World, latest, update_receipts, update_receipt, has_reference, receipt_transition,
}
use zernflow.Publishing.Engine.Triples.{
  IsFailed, OneOpen, IsReferenced, On, inv, Triple, database-Triple,
}

abbrev pub stored : (Receipt → Receipt) → Receipt → Receipt
stored f r = record (f r) { attempt = r.attempt; created_at = r.created_at }

-- A successful update leaves the first receipt alone, or changes it as the trigger admits.
pub data Updated (a : ℕ) (f : Receipt → Receipt) (r : Receipt) (rs rs' : List Receipt)
    : Type 0 where
  kept :
      (rest : List Receipt)
      → update_receipts a f rs ≡ some rest
      → rs' ≡ r ∷ rest
      → Updated a f r rs rs'
  changed :
      (rest : List Receipt)
      → update_receipts a f rs ≡ some rest
      → receipt_transition r.status (f r).status ≡ true
      → has_reference (f r) ≡ true
      → rs' ≡ stored f r ∷ rest
      → Updated a f r rs rs'

pub updated :
    (a : ℕ) (f : Receipt → Receipt) (r : Receipt) (rs rs' : List Receipt)
    → update_receipts a f (r ∷ rs) ≡ some rs'
    → Updated a f r rs rs'
unfolding update_receipts
updated a f r rs rs' e = elim (Option-cases (update_receipts a f rs)) [
  | inl none' ↦ absurd (ground arith)
  | inr (rest, same) ↦ elim (Bool-cases (r.attempt == a)) [
    | inl hit ↦ changed rest same (ground arith) (ground arith) (ground arith)
    | inr miss ↦ kept rest same (ground arith)
  ]
]

pub update_receipts-nil :
    (a : ℕ) (f : Receipt → Receipt) (rs' : List Receipt)
    → update_receipts a f [] ≡ some rs'
    → rs' ≡ []
unfolding update_receipts
update_receipts-nil a f rs' e = ground arith

pub update_receipts-failed :
    (a : ℕ) (f : Receipt → Receipt) (rs rs' : List Receipt)
    → All IsFailed rs
    → update_receipts a f rs ≡ some rs'
    → rs' ≡ rs
update_receipts-failed a f [] rs' h e = update_receipts-nil a f rs' e
update_receipts-failed a f (r ∷ rs) rs' h e = elim (updated a f r rs rs' e) [
  | kept rest same e' ↦
      e' ∙ ap (λ (x : List Receipt). r ∷ x) (update_receipts-failed a f rs rest h.1 same)
  | changed rest same t g e' ↦ let old = h.0 in absurd (ground arith)
]

-- A change keeps an operation reference from being empty.
abbrev pub Keeps : (Receipt → Receipt) → Type 0
Keeps f = (r : Receipt) → r.operation_ref ≢ some [] → (f r).operation_ref ≢ some []

pub update_receipts-All :
    (a : ℕ) (f : Receipt → Receipt) (rs rs' : List Receipt)
    → Keeps f
    → All IsReferenced rs
    → update_receipts a f rs ≡ some rs'
    → All IsReferenced rs' × (length rs' ≡ length rs)
update_receipts-All a f [] rs' k h e = rw (update_receipts-nil a f rs' e) (tt, refl)
update_receipts-All a f (r ∷ rs) rs' k h e = elim (updated a f r rs rs' e) [
  | kept rest same e' ↦
      let (all, len) = update_receipts-All a f rs rest k h.1 same in rw e' ((h.0, all), ap suc len)
  | changed rest same t g e' ↦
      let (all, len) = update_receipts-All a f rs rest k h.1 same in
      rw e' (((k r h.0.0, g), all), ap suc len)
]

pub update_receipts-OneOpen :
    (a : ℕ) (f : Receipt → Receipt) (rs rs' : List Receipt)
    → OneOpen rs
    → update_receipts a f rs ≡ some rs'
    → OneOpen rs'
update_receipts-OneOpen a f [] rs' h e = rw (update_receipts-nil a f rs' e) tt
update_receipts-OneOpen a f (r ∷ rs) rs' h e = elim (updated a f r rs rs' e) [
  | kept rest same e' ↦ rw (e', update_receipts-failed a f rs rest h.0 same) h
  | changed rest same t g e' ↦ rw (e', update_receipts-failed a f rs rest h.0 same) h
]

pub latest-All :
    (P : Receipt → Type 0) (rs : List Receipt) (s : Receipt) → All P rs → latest rs ≡ some s → P s
unfolding latest
latest-All P [] s h e = absurd (ground arith)
latest-All P (r ∷ rs) s h e = elim (Option-cases (latest rs)) [
  | inl none' ↦ let same : r ≡ s = ground arith in rw (← same) h.0
  | inr (t, some') ↦ elim (Bool-cases (ltb r.attempt t.attempt)) [
    | inl less ↦ let same : t ≡ s = ground arith in rw (← same) (latest-All P rs t h.1 some')
    | inr more ↦ let same : r ≡ s = ground arith in rw (← same) h.0
  ]
]

pub latest-OneOpen : (r : Receipt) (rs : List Receipt) → OneOpen (r ∷ rs) → latest (r ∷ rs) ≡ some r
unfolding latest
latest-OneOpen r rs h = elim (Option-cases (latest rs)) [
  | inl none' ↦ rw none'
  | inr (t, some') ↦
      let below = latest-All (λ x. x.attempt < r.attempt) rs t h.1 some' in ground arith
]

pub update_receipt-inv :
    (a : ℕ) (f : Receipt → Receipt) → Keeps f → Triple inv (update_receipt a f) (λ _. inv)
unfolding update_receipt
update_receipt-inv a f k = database-Triple inv inv _ (λ rs ss h. h) step
  where
    step :
        (w w' : World)
        → On inv w
        → (elim (update_receipts a f w.receipts) [
          | none ↦ none
          | some receipts ↦ some (record w { receipts = receipts })
        ])
          ≡ some w'
        → On inv w'
    step w w' (one, all, len) e = elim (Option-cases (update_receipts a f w.receipts)) [
      | inl none' ↦ absurd (ground arith)
      | inr (rs, some') ↦
          let (all', len') = update_receipts-All a f w.receipts rs k all some' in
          let one' = update_receipts-OneOpen a f w.receipts rs one some' in
          let same : record w { receipts = rs } ≡ w' = ground arith in
          rw (← same) (one', all', omega (arith, len, len'))
    ]
