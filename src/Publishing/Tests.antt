-- ===== src/Publishing/Tests.antt =====
-- The theorems on publishing at concrete inputs, and runs of the definitions.
use zernflow.Base.{
  ℕ, ◌+◌, ◌*◌, ◌≤◌, ◌≡◌, refl, true, false, not, ◌&&◌, none, some, List, [], ◌∷◌, length, ◌==◌,
  if◌then◌else◌,
}
use zernflow.Base.Json.{Json, obj, str, field, end, codes}
use zernflow.Base.Result.{ok}
use zernflow.Tasks.Errors.{rate_limited, task_error, classify_error, plain_error}
use zernflow.Publishing.State.{
  PublishState, draft, published, failed, publishing, scheduled, includes, legal, variant_guard,
  same, publish_path,
}
use zernflow.Publishing.State.Paths.{
  Route, last, via_scheduled, via_publishing, publish_path-shortest, legal-variant_guard,
}
use zernflow.Publishing.Contract.{
  PublishOutcome, Reply, answered, threw, validate_outcome, validate_fields, validate_accepted,
  str_within, outcome_from_error, settle, poll_after,
}
use zernflow.Publishing.Contract.Laws.{
  IsSound, IsCautious, validate_outcome-IsSound, outcome_from_error-IsCautious,
}
use zernflow.Publishing.Engine.Store.{
  ◌>>=◌, database, latest_receipt, latest, move_to, move_steps, move_step, update_row, hold,
  insert_receipt, has_attempt, update_receipt, update_receipts, World, VariantRow,
}
use zernflow.Publishing.Engine.Apply.{apply_outcome, event}
use zernflow.Publishing.Engine.Run.{
  Provider, run_api_publish, dispatch, dispatch_on, submit_or_refuse, is_ambiguous, submit_post,
  call_submit, record_execution, resume, poll_operation, poll_or_submit, status_outcome,
}
use zernflow.Publishing.Engine.History.{attempt, Attempt, history, failures, history-submits_once}

draft-Route : Route draft published (scheduled ∷ publishing ∷ published ∷ [])
draft-Route = via_scheduled refl (via_publishing refl (last refl))

publish_path-shortest_example :
    (p : List PublishState) × (publish_path draft published ≡ some p)
    × Route draft published p
    × (length p ≤ 3)
publish_path-shortest_example =
    publish_path-shortest draft published (scheduled ∷ publishing ∷ published ∷ []) draft-Route

legal-variant_guard_example :
    includes (legal published) draft ≡ (variant_guard published draft && not (same published draft))
legal-variant_guard_example = legal-variant_guard published draft

swapped :
    (s : PublishState)
    → includes (published ∷ failed ∷ []) s ≡ includes (failed ∷ published ∷ failed ∷ []) s
swapped PublishState.draft = refl
swapped PublishState.scheduled = refl
swapped PublishState.queued = refl
swapped PublishState.publishing = refl
swapped PublishState.published = refl
swapped PublishState.failed = refl
swapped PublishState.cancelled = refl

abbrev accepted_value : Json
accepted_value =
    obj (field "status" (str (codes "accepted")) (field "operationRef" (str (codes "op")) end))

accepted_run : validate_outcome accepted_value ≡ ok (PublishOutcome.accepted (codes "op") none)
unfolding validate_outcome validate_fields validate_accepted str_within poll_after
accepted_run = refl

validate_outcome-IsSound_example : IsSound (PublishOutcome.accepted (codes "op") none)
validate_outcome-IsSound_example =
    validate_outcome-IsSound accepted_value (PublishOutcome.accepted (codes "op") none) accepted_run

outcome_from_error-IsCautious_example :
    IsCautious (outcome_from_error (λ m. m) (plain_error true (codes "aborted")) false)
outcome_from_error-IsCautious_example =
    outcome_from_error-IsCautious (λ m. m) (plain_error true (codes "aborted"))

-- A provider that is limited at the first attempt and accepts the second.
abbrev limited_once : ℕ → Reply
limited_once attempt =
    if attempt == 1
    then threw (task_error rate_limited (codes "slow down") none false)
    else answered accepted_value

abbrev row : VariantRow
row = record {
  publish_state = PublishState.scheduled;
  attempt_count = 0;
  last_error = none;
  external_ref = none;
  external_url = none;
}

abbrev limited_provider : Provider
limited_provider = record {
  available = true;
  reason = [];
  idempotent_submit = false;
  submit = limited_once;
  status = some (λ ref. threw (plain_error true (codes "aborted")));
}

abbrev attempt_of : ℕ → Attempt
attempt_of n = record {
  provider = limited_provider;
  task = record { attempts = n; max_attempts = 5; resolved = false };
  row = row;
  faults = [];
  now = 1_000 * n;
}

abbrev world : World
world = record {
  row = row;
  held = PublishState.scheduled;
  receipts = [];
  submits = [];
  polls = [];
  executions = [];
  events = [];
  faults = [];
  now = 0;
}

abbrev three : List Attempt
three = attempt_of 1 ∷ attempt_of 2 ∷ attempt_of 3 ∷ []

history-submits_once_example :
    length (history (λ m. m) three world).submits
    ≤ failures (history (λ m. m) three world).receipts + 1
history-submits_once_example =
    history-submits_once (λ m. m) three world ((refl, refl), ((refl, refl), ((refl, refl), tt)))
      refl refl

-- The limited attempt is submitted again, and the accepted one is polled.
three_run :
    ((history (λ m. m) three world).submits ≡ 2 ∷ 1 ∷ [])
    × ((history (λ m. m) three world).polls ≡ codes "op" ∷ [])
unfolding history attempt run_api_publish ◌>>=◌ database latest_receipt latest dispatch dispatch_on
    submit_or_refuse is_ambiguous submit_post call_submit record_execution settle move_to move_steps
    move_step update_row hold publish_path insert_receipt has_attempt apply_outcome update_receipt
    update_receipts resume poll_operation poll_or_submit status_outcome event outcome_from_error
    accepted_run variant_guard classify_error
three_run = (refl, refl)
