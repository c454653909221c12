-- ===== src/Publishing/Engine/Store.antt =====
-- The rows that the engine reads and writes, its `VariantState`, and the calls of the database.
-- Every call of the database can fail: `faults` says of the next ones whether they do, and an empty
-- list means that no more of them do. What has been written before a failure stays written.
use zernflow.Base.{
  ℕ, Bool, true, false, not, ◌&&◌, ◌||◌, Option, none, some, List, [], ◌∷◌, if◌then◌else◌, ltb,
  ◌==◌, or_else, is_some,
}
use zernflow.Base.Json.{Text, codes, text_eq}
use zernflow.Base.Result.{Result, ok, err}
use zernflow.Tasks.Errors.{ErrorClass, internal, unknown_outcome, Thrown, task_error}
use zernflow.Publishing.State.{PublishState, same, publish_path, variant_guard}
use zernflow.Publishing.Contract.{PublishPart}

pub data ReceiptStatus : Type 0 where
  submitting accepted published partial failed unknown : ReceiptStatus

pub record Receipt : Type 0 where
  pub attempt : ℕ
  pub status : ReceiptStatus
  pub operation_ref : Option Text
  pub poll_count : ℕ
  pub created_at : ℕ
  pub external_ref : Option Text
  pub external_url : Option Text
  pub parts : List PublishPart
  pub error_class : Option ErrorClass
  pub error_code : Option Text
  pub error_message : Option Text

-- The row of the variant.
pub record VariantRow : Type 0 where
  pub publish_state : PublishState
  pub attempt_count : ℕ
  pub last_error : Option Text
  pub external_ref : Option Text
  pub external_url : Option Text

-- What `execution_records` says of an attempt in the end.
pub data ExecutionStatus : Type 0 where
  succeeded failed_attempt unknown_attempt : ExecutionStatus

-- The rows of one idempotency key, the state that the `VariantState` holds, what was asked of the
-- provider (the attempts submitted and the operations polled), and the task's events.
pub record World : Type 0 where
  pub row : VariantRow
  pub held : PublishState
  pub receipts : List Receipt
  pub submits : List ℕ
  pub polls : List Text
  pub executions : List ExecutionStatus
  pub events : List Text
  pub faults : List Bool
  pub now : ℕ

abbrev pub M : Type 0 → Type 0
M A = World → World × Result Thrown A

-- A step and what follows it, which an error leaves out; the rows stay as the step left them.
infixl 5 ◌>>=◌
unfoldable pub ◌>>=◌ : {A B : Type 0} → M A → (A → M B) → M B
◌>>=◌ step next w =
    let (w', answer) = step w in elim answer [ err e ↦ (w', err e) | ok a ↦ next a w' ]

infixl 5 ◌>>◌
abbrev pub ◌>>◌ : {A : Type 0} → M (Unit {0}) → M A → M A
step >> rest = step >>= (λ done. rest)

abbrev pub return : {A : Type 0} → A → M A
return a w = (w, ok a)

abbrev pub throw : {A : Type 0} → Thrown → M A
throw e w = (w, err e)

abbrev pub read {ℓ} : {A : Type ℓ} → (World → A) → World → World × Result Thrown A
read f w = (w, ok (f w))

-- `new TaskError(cls, message)`
abbrev pub failure : ErrorClass → Text → Thrown
failure cls message = task_error cls message none false

-- `new TaskError("internal", …)`, with a fixed text for the code of the database.
abbrev pub database_error : Thrown
database_error = failure internal (codes "database call failed")

-- A call of the database that changes the rows, if it does not fail and the row is admitted.
abbrev pub fails_now : List Bool → Bool
fails_now [] = false
fails_now (f ∷ later) = f

abbrev pub later_calls : List Bool → List Bool
later_calls [] = []
later_calls (f ∷ later) = later

unfoldable pub database : (World → Option World) → M (Unit {0})
database change w =
    let called = record w { faults = later_calls w.faults } in
    if fails_now w.faults
    then (called, err database_error)
    else elim (change called) [ none ↦ (called, err database_error) | some w' ↦ (w', ok tt) ]

-- A text that is true: not null and not empty.
abbrev pub nonempty : Option Text → Option Text
nonempty none = none
nonempty (some []) = none
nonempty (some (c ∷ cs)) = some (c ∷ cs)

-- What an update of the variant sets beside its state.
pub record Patch : Type 0 where
  pub attempt_count : Option ℕ
  pub last_error : Option (Option Text)
  pub external : Option (Option Text × Option Text)

abbrev pub no_patch : Patch
no_patch = record { attempt_count = none; last_error = none; external = none }

abbrev pub is_empty : Patch → Bool
is_empty p = not (is_some p.attempt_count) && not (is_some p.last_error) && not (is_some p.external)

abbrev external_ref_of : Option (Option Text × Option Text) → Option Text → Option Text
external_ref_of none old = old
external_ref_of (some (ref, url)) old = ref

abbrev external_url_of : Option (Option Text × Option Text) → Option Text → Option Text
external_url_of none old = old
external_url_of (some (ref, url)) old = url

unfoldable pub patch_row : Patch → VariantRow → VariantRow
patch_row p v = record v {
  attempt_count = or_else p.attempt_count v.attempt_count;
  last_error = or_else p.last_error v.last_error;
  external_ref = external_ref_of p.external v.external_ref;
  external_url = external_url_of p.external v.external_url;
}

-- The update of one step of `moveTo`: the state is set only if the held state differs from it.
unfoldable pub update_row : PublishState → Patch → World → Option World
unfolding patch_row
update_row step p w =
    let target = if same step w.held then w.row.publish_state else step in
    if variant_guard w.row.publish_state target
    then some (record w { row = record (patch_row p w.row) { publish_state = target } })
    else none

unfoldable pub hold : PublishState → M (Unit {0})
hold step w = (record w { held = step }, ok tt)

unfoldable pub move_step : PublishState → Patch → M (Unit {0})
move_step step p w =
    if same step w.held && is_empty p
    then (w, ok tt)
    else (database (update_row step p) >> hold step) w

-- The loop over the steps; the patch goes with the last one.
unfoldable pub move_steps : List PublishState → Patch → M (Unit {0})
move_steps [] p = return tt
move_steps (s ∷ []) p = move_step s p
move_steps (s ∷ t ∷ rest) p = move_step s no_patch >> move_steps (t ∷ rest) p

-- `path.length ? path : [target]`
abbrev pub steps_or : List PublishState → PublishState → List PublishState
steps_or [] target = target ∷ []
steps_or (s ∷ rest) target = s ∷ rest

unfoldable pub move_to : PublishState → Patch → M (Unit {0})
move_to target p w = elim (publish_path w.held target) [
  | none ↦ (w, err (failure internal (codes "No legal publish transition")))
  | some path ↦ move_steps (steps_or path target) p w
]

-- The receipt with the greatest attempt.
unfoldable pub latest : List Receipt → Option Receipt
latest [] = none
latest (r ∷ rs) = elim (latest rs) [
  | none ↦ some r
  | some s ↦ if ltb r.attempt s.attempt then some s else some r
]

unfoldable pub latest_receipt : M (Option Receipt)
latest_receipt = database some >> read (λ w. latest w.receipts)

-- `publish_receipt_guard` and the check that an accepted receipt has a reference
-- (supabase/migrations/00038_publish_receipts.sql).
abbrev pub receipt_transition : ReceiptStatus → ReceiptStatus → Bool
receipt_transition submitting submitting = true
receipt_transition submitting _ = true
receipt_transition accepted submitting = false
receipt_transition accepted _ = true
receipt_transition unknown submitting = false
receipt_transition unknown _ = true
receipt_transition _ _ = false

abbrev pub has_reference : Receipt → Bool
has_reference r = elim r.status [ accepted ↦ is_some r.operation_ref | _ ↦ true ]

-- An operation reference is immutable once it is set.
abbrev pub keeps_reference : Option Text → Option Text → Bool
keeps_reference none new = true
keeps_reference (some old) none = false
keeps_reference (some old) (some new) = text_eq old new

unfoldable pub update_receipts : ℕ → (Receipt → Receipt) → List Receipt → Option (List Receipt)
update_receipts attempt change [] = some []
update_receipts attempt change (r ∷ rs) = elim (update_receipts attempt change rs) [
  | none ↦ none
  | some rest ↦
      if r.attempt == attempt
      then if receipt_transition r.status (change r).status
          && has_reference (change r)
          && keeps_reference r.operation_ref (change r).operation_ref
        then some (record (change r) { attempt = r.attempt; created_at = r.created_at } ∷ rest)
        else none
      else some (r ∷ rest)
]

unfoldable pub update_receipt : ℕ → (Receipt → Receipt) → M (Unit {0})
update_receipt attempt change = database (λ w. elim (update_receipts attempt change w.receipts) [
  | none ↦ none
  | some receipts ↦ some (record w { receipts = receipts })
])

unfoldable pub has_attempt : ℕ → List Receipt → Bool
has_attempt attempt [] = false
has_attempt attempt (r ∷ rs) = r.attempt == attempt || has_attempt attempt rs

-- The insert of the receipt; the attempt is unique among the receipts of the key.
unfoldable pub insert_receipt : ℕ → M Receipt
insert_receipt attempt w =
    let r : Receipt = record {
      attempt = attempt;
      status = submitting;
      operation_ref = none;
      poll_count = 0;
      created_at = w.now;
      external_ref = none;
      external_url = none;
      parts = [];
      error_class = none;
      error_code = none;
      error_message = none;
    } in
    if has_attempt attempt w.receipts
    then (w, err (failure unknown_outcome (codes "could not record publish attempt")))
    else (database (λ v. some (record v { receipts = r ∷ v.receipts })) >> return r) w
