-- ===== src/Publishing/Engine/Apply.antt =====
-- Step 4 of `runApiPublish`: what each outcome does to the receipt, the variant and the task.
use zernflow.Base.{
  ℕ, ◌+◌, ◌*◌, ◌/◌, ◌%◌, ◌^◌, min, max, Bool, true, false, not, ◌&&◌, Option, none, some, List, [],
  ◌∷◌, ◌++◌, if◌then◌else◌, ltb, ◌==◌, is_some, take, length, filter,
}
use zernflow.Base.Int.{ℤ, pos_part}
use zernflow.Base.Json.{Text, codes}
use zernflow.Base.Result.{ok}
use zernflow.Tasks.Errors.{ErrorClass, unknown_outcome, task_error, decision_for, is_retry}
use zernflow.Publishing.State.{PublishState, same}
use zernflow.Publishing.Contract.{PublishOutcome, PublishPart, part_published}
use zernflow.Publishing.Engine.Store.{
  Receipt, ReceiptStatus, M, ◌>>=◌, ◌>>◌, return, throw, read, failure, nonempty, Patch, no_patch,
  move_to, update_receipt,
}

-- The fields of the task that the engine reads.
pub record Task : Type 0 where
  pub attempts : ℕ
  pub max_attempts : ℕ
  pub resolved : Bool  -- human_intervention === "resolved"

-- The receipt of a result stands by its attempt; the flag is `recovered`.
pub data TaskOutcome : Type 0 where
  completed : Option Text → Option Text → ℕ → Bool → TaskOutcome
  deferred : ℕ → ℕ → TaskOutcome

abbrev pub min_poll_ms : ℕ
min_poll_ms = 15_000

abbrev pub max_poll_ms : ℕ
max_poll_ms = 600_000

abbrev hint_ms : Option ℤ → ℕ
hint_ms none = 0
hint_ms (some z) = pos_part z

unfoldable pub poll_delay_ms : ℕ → Option ℤ → ℕ
poll_delay_ms poll_count hint =
    let backoff = min_poll_ms * 2 ^ min poll_count 6 in
    min max_poll_ms (max min_poll_ms (max (hint_ms hint) backoff))

unfoldable pub event : Text → M (Unit {0})
event message w = (record w { events = message ∷ w.events }, ok tt)

abbrev error_patch : Text → Patch
error_patch message = record {
  attempt_count = none;
  last_error = some (some message);
  external = none;
}

abbrev pub external_patch : Option Text → Option Text → Patch
external_patch ref url = record {
  attempt_count = none;
  last_error = some none;
  external = some (ref, url);
}

abbrev or_parts : Option (List PublishPart) → List PublishPart
or_parts none = []
or_parts (some parts) = parts

abbrev pub ambiguous_message : Text
ambiguous_message =
    codes
      "A previous attempt may already have published this post. Check the platform: if it is live, unschedule this variant and record the link; if not, retry the job to resubmit."

abbrev is_live : PublishPart → Bool
is_live p = elim p.status [ part_published ↦ true | _ ↦ false ]

-- Decimal digits, for the counts in a message of at most 50 parts.
abbrev digits : ℕ → Text
digits n = if ltb n 10 then (n + 48) ∷ [] else (n / 10 + 48) ∷ (n % 10 + 48) ∷ []

partial_message : List PublishPart → Text → Text
partial_message parts message = take 1000 (
    codes "Partially published ("
    ++ (digits (length (filter is_live parts))
        ++ (codes " of "
            ++ (digits (length parts)
                ++ (codes " parts live): "
                    ++ (message
                        ++ codes
                            " Check the platform; ZernFlow will not resubmit automatically because that would duplicate the live parts."))))))

module _ (task : Task) (prior : Option Receipt) (receipt : Receipt) where
  -- `!prior || prior.id !== receipt.id`
  abbrev pub is_new : Bool
  is_new = elim prior [ none ↦ true | some p ↦ not (p.attempt == receipt.attempt) ]

  apply_published : Option Text → Option Text → Option (List PublishPart) → M TaskOutcome
  apply_published ref url parts = do
    update_receipt receipt.attempt (λ r. record r {
      status = ReceiptStatus.published;
      external_ref = ref;
      external_url = url;
      parts = or_parts parts;
      error_class = none;
      error_message = none;
    })
    move_to PublishState.published (external_patch ref url)
    event (codes "Published")
    return (completed ref url receipt.attempt false)

  apply_accepted : Text → Option ℤ → M TaskOutcome
  apply_accepted ref poll = do
    update_receipt receipt.attempt (λ r. record r {
      status = ReceiptStatus.accepted;
      operation_ref =
          if is_some (nonempty receipt.operation_ref) then r.operation_ref else some ref;
    })
    held ← read (λ w. w.held)
    if same held PublishState.publishing
        then return tt
        else move_to PublishState.publishing no_patch
    if is_new then event (codes "Accepted by provider; waiting for confirmation") else return tt
    now ← read (λ w. w.now)
    return (deferred (now + poll_delay_ms receipt.poll_count poll) receipt.attempt)

  apply_partial : Option Text → Option Text → List PublishPart → Text → M TaskOutcome
  unfolding partial_message
  apply_partial ref url parts message = do
    update_receipt receipt.attempt (λ r. record r {
      status = ReceiptStatus.partial;
      external_ref = ref;
      external_url = url;
      parts = parts;
      error_class = some unknown_outcome;
      error_message = some (partial_message parts message);
    })
    move_to PublishState.failed (error_patch (partial_message parts message))
    throw (task_error unknown_outcome (partial_message parts message) none true)

  apply_failed : ErrorClass → Text → Option Text → Option ℕ → Bool → M TaskOutcome
  apply_failed cls message code after final = do
    update_receipt receipt.attempt (λ r. record r {
      status = ReceiptStatus.failed;
      error_class = some cls;
      error_code = code;
      error_message = some (take 1000 message);
    })
    let will_retry = not final && is_retry (decision_for cls) && ltb task.attempts task.max_attempts
    move_to (if will_retry then PublishState.queued else PublishState.failed)
        (error_patch (take 1000 message))
    throw (task_error cls message after final)

  apply_unknown : Text → Option Text → M TaskOutcome
  apply_unknown message ref = do
    update_receipt receipt.attempt (λ r. record r {
      status = ReceiptStatus.unknown;
      operation_ref =
          if is_some (nonempty ref) && not (is_some (nonempty receipt.operation_ref))
          then ref
          else r.operation_ref;
      error_class = some unknown_outcome;
      error_message = some (take 1000 message);
    })
    let text = take 1000 (message ++ (32 ∷ ambiguous_message))
    move_to PublishState.failed (error_patch text)
    throw (failure unknown_outcome text)

  unfoldable pub apply_outcome : PublishOutcome → M TaskOutcome
  unfolding apply_published apply_accepted apply_partial apply_failed apply_unknown
  apply_outcome (PublishOutcome.published ref url parts) = apply_published ref url parts
  apply_outcome (PublishOutcome.accepted ref poll) = apply_accepted ref poll
  apply_outcome (PublishOutcome.partial ref url parts message) = apply_partial ref url parts message
  apply_outcome (PublishOutcome.failed cls message code after final) =
      apply_failed cls message code after final
  apply_outcome (PublishOutcome.unknown message ref) = apply_unknown message ref
