-- ===== src/Publishing/Engine/Run.antt =====
-- `runApiPublish`: the capability check, the receipt of the previous attempt, the poll or the
-- submission, and the outcome.
use zernflow.Base.{
  ℕ, ◌+◌, ◌-◌, max, Bool, true, false, not, ◌&&◌, ◌||◌, Option, none, some, ◌∷◌, if◌then◌else◌, ltb,
  leb, is_some, take,
}
use zernflow.Base.Int.{pos}
use zernflow.Base.Json.{Text, codes}
use zernflow.Base.Result.{ok}
use zernflow.Tasks.Errors.{
  unsupported_capability, unknown_outcome, task_error, decision_for, is_retry,
}
use zernflow.Publishing.State.{PublishState, same}
use zernflow.Publishing.Contract.{PublishOutcome, Reply, settle}
use zernflow.Publishing.Engine.Store.{
  Receipt, ReceiptStatus, ExecutionStatus, succeeded, failed_attempt, unknown_attempt, M, ◌>>=◌,
  ◌>>◌, return, throw, read, failure, nonempty, Patch, move_to, latest_receipt, update_receipt,
  insert_receipt,
}
use zernflow.Publishing.Engine.Apply.{
  Task, TaskOutcome, completed, ambiguous_message, external_patch, apply_outcome,
}

-- A provider, for the platform and kind of the request: its capability, with the reason, whether a
-- resubmission is safe, what it answers to an attempt, and what it says of an operation.
pub record Provider : Type 0 where
  pub available : Bool
  pub reason : Text
  pub idempotent_submit : Bool
  pub submit : ℕ → Reply
  pub status : Option (Text → Reply)

abbrev pub max_accepted_age_ms : ℕ
max_accepted_age_ms = 86_400_000

abbrev pub max_polls : ℕ
max_polls = 200

-- What `ctx.execute` records of an outcome: a carrier that is thrown fails the attempt.
abbrev execution_of : PublishOutcome → ExecutionStatus
execution_of (PublishOutcome.published _ _ _) = succeeded
execution_of (PublishOutcome.accepted _ _) = succeeded
execution_of (PublishOutcome.partial _ _ _ _) = unknown_attempt
execution_of (PublishOutcome.failed unknown_outcome _ _ _ _) = unknown_attempt
execution_of (PublishOutcome.failed _ _ _ _ _) = failed_attempt
execution_of (PublishOutcome.unknown _ _) = unknown_attempt

unfoldable pub record_execution : PublishOutcome → M (Unit {0})
record_execution o w = (record w { executions = execution_of o ∷ w.executions }, ok tt)

abbrev pub error_patch : Text → Patch
error_patch message = record {
  attempt_count = none;
  last_error = some (some (take 1000 message));
  external = none;
}

abbrev pub attempt_patch : ℕ → Patch
attempt_patch n = record { attempt_count = some n; last_error = some none; external = none }

abbrev pub partial_default : Text
partial_default = codes "Partially published; check the platform."

-- A failed read of a status does not mean that the publication failed.
unfoldable pub status_outcome : Text → PublishOutcome → PublishOutcome
status_outcome ref (PublishOutcome.failed cls message code after final) =
    if not final && is_retry (decision_for cls)
    then PublishOutcome.accepted ref (elim after [ none ↦ none | some ms ↦ some (pos ms) ])
    else PublishOutcome.failed cls message code after final
status_outcome ref outcome = outcome

-- `prior && prior.status !== "unknown"`: the receipt that is marked as unknown.
abbrev pub to_mark : Option Receipt → Option Receipt
to_mark none = none
to_mark (some prior) = elim prior.status [ ReceiptStatus.unknown ↦ none | _ ↦ some prior ]

abbrev pub prior_attempt : Option Receipt → ℕ
prior_attempt none = 0
prior_attempt (some prior) = prior.attempt

abbrev pub or_message : Option Text → Text → Text
or_message none d = d
or_message (some t) d = t

module _ (redact_string : Text → Text) (provider : Provider) (task : Task) where
  -- The poll of an accepted operation, unless it is too old or was polled too often.
  unfoldable pub poll_operation : (Text → Reply) → Receipt → Text → M PublishOutcome
  poll_operation status prior ref = do
    now ← read (λ w. w.now)
    if ltb max_accepted_age_ms (now - prior.created_at) || leb max_polls prior.poll_count
        then return (
            PublishOutcome.unknown
              (codes
                "The provider accepted this publication but never confirmed it within 24 hours.")
              (some ref))
        else (do
          (λ w. (record w { polls = ref ∷ w.polls }, ok tt))
          let polled = settle redact_string (status ref) true
          record_execution polled
          return (status_outcome ref polled))

  unfoldable pub resume : (Text → Reply) → Receipt → Text → M TaskOutcome
  unfolding poll_operation
  resume status prior ref = do
    outcome ← poll_operation status prior ref
    update_receipt prior.attempt (λ r. record r { poll_count = prior.poll_count + 1 })
    apply_outcome task (some prior) (record prior { poll_count = prior.poll_count + 1 }) outcome

  -- Whether the previous attempt may have published the post.
  unfoldable pub is_ambiguous : PublishState → Option Receipt → Bool
  is_ambiguous state none = same state PublishState.publishing
  is_ambiguous state (some prior) = elim prior.status [
    | ReceiptStatus.submitting ↦ true
    | ReceiptStatus.accepted ↦ not (is_some provider.status)
    | ReceiptStatus.unknown ↦ not task.resolved
    | _ ↦ false
  ]

  unfoldable pub mark_unknown : Option Receipt → M (Unit {0})
  mark_unknown none = return tt
  mark_unknown (some prior) = update_receipt prior.attempt (λ r. record r {
    status = ReceiptStatus.unknown;
    error_class = some unknown_outcome;
    error_message = some (codes "Attempt ended without a recorded provider answer.");
  })

  unfoldable pub refuse : Option Receipt → M TaskOutcome
  unfolding mark_unknown
  refuse prior = do
    mark_unknown (to_mark prior)
    move_to PublishState.failed (error_patch ambiguous_message)
    throw (failure unknown_outcome ambiguous_message)

  unfoldable pub call_submit : ℕ → M PublishOutcome
  call_submit attempt = do
    (λ w. (record w { submits = attempt ∷ w.submits }, ok tt))
    let outcome = settle redact_string (provider.submit attempt) provider.idempotent_submit
    record_execution outcome
    return outcome

  -- Step 3: the receipt is written before the provider is called.
  unfoldable pub submit_post : ℕ → Option Receipt → M TaskOutcome
  unfolding call_submit
  submit_post attempt_count prior = do
    move_to PublishState.publishing (attempt_patch (attempt_count + 1))
    receipt ← insert_receipt (max task.attempts (prior_attempt prior + 1))
    outcome ← call_submit receipt.attempt
    apply_outcome task prior receipt outcome

  unfoldable pub submit_or_refuse : PublishState → ℕ → Option Receipt → M TaskOutcome
  submit_or_refuse state attempt_count prior =
      if is_ambiguous state prior && not provider.idempotent_submit
      then refuse prior
      else submit_post attempt_count prior

  -- An accepted operation is polled if it has a reference and the provider a status call.
  unfoldable pub poll_or_submit :
      PublishState → ℕ → Receipt → Option Text → Option (Text → Reply) → M TaskOutcome
  poll_or_submit state attempt_count prior (some ref) (some status) = resume status prior ref
  poll_or_submit state attempt_count prior _ _ = submit_or_refuse state attempt_count (some prior)

  -- The receipts that are settled already, an operation that can be polled, and all else.
  unfoldable pub dispatch_on : PublishState → ℕ → Receipt → ReceiptStatus → M TaskOutcome
  dispatch_on state attempt_count prior ReceiptStatus.published = do
    move_to PublishState.published (external_patch prior.external_ref prior.external_url)
    return (completed prior.external_ref prior.external_url prior.attempt true)
  dispatch_on state attempt_count prior ReceiptStatus.partial = do
    let message = take 1000 (or_message prior.error_message partial_default)
    move_to PublishState.failed (error_patch message)
    throw (task_error unknown_outcome message none true)
  dispatch_on state attempt_count prior ReceiptStatus.accepted =
      poll_or_submit state attempt_count prior (nonempty prior.operation_ref) provider.status
  dispatch_on state attempt_count prior _ = submit_or_refuse state attempt_count (some prior)

  unfoldable pub dispatch : PublishState → ℕ → Option Receipt → M TaskOutcome
  dispatch state attempt_count none = submit_or_refuse state attempt_count none
  dispatch state attempt_count (some prior) = dispatch_on state attempt_count prior prior.status

  unfoldable pub run_api_publish : M TaskOutcome
  run_api_publish = do
    state ← read (λ w. w.row.publish_state)
    attempt_count ← read (λ w. w.row.attempt_count)
    (λ w. (record w { held = state }, ok tt))
    if provider.available then return tt else (do
      move_to PublishState.failed (error_patch provider.reason)
      throw (failure unsupported_capability provider.reason))
    prior ← latest_receipt
    dispatch state attempt_count prior
