-- ===== src/Tasks/Errors.antt =====
-- lib/tasks/errors.ts: how an exception becomes an error class and a retry decision.
-- The regular expressions of `redactString` (lib/observability/log.ts) are a parameter.
pub mod Laws
use zernflow.Base.{
  ℕ, ◌≡◌, Bool, true, false, List, [], ◌∷◌, Option, none, some, ◌&&◌, ◌||◌, if◌then◌else◌, leb,
  ◌==◌, take, is_some,
}
use zernflow.Base.Json.{Text}

pub data ErrorClass : Type 0 where
  transient rate_limited auth_expired reauth_required human_challenge : ErrorClass
  unsupported_capability validation policy_denied unknown_outcome internal : ErrorClass

pub data RetryDecision : Type 0 where
  retry give_up needs_user : RetryDecision

unfoldable pub decision_for : ErrorClass → RetryDecision
decision_for transient = retry
decision_for rate_limited = retry
decision_for internal = retry
decision_for auth_expired = needs_user
decision_for reauth_required = needs_user
decision_for human_challenge = needs_user
decision_for unsupported_capability = needs_user
decision_for unknown_outcome = needs_user
decision_for validation = give_up
decision_for policy_denied = give_up

abbrev pub is_retry : RetryDecision → Bool
is_retry retry = true
is_retry _ = false

pub data SafeFetchCode : Type 0 where
  timeout too_large network : SafeFetchCode

-- What a handler can throw. A `TaskError` carries its class, message, `retryAfterMs` and `terminal`;
-- an `Error` of no class of the program carries whether its name is AbortError or TimeoutError.
pub data Thrown : Type 0 where
  task_error : ErrorClass → Text → Option ℕ → Bool → Thrown
  gateway_configuration_error : Text → Thrown
  gateway_error : Option ℕ → Bool → Text → Thrown
  unsafe_url_error : Text → Thrown
  safe_fetch_error : SafeFetchCode → Text → Thrown
  plain_error : Bool → Text → Thrown
  not_an_error : Thrown

pub record ClassifiedError : Type 0 where
  pub class : ErrorClass
  pub message : Text
  pub retryable : Bool
  pub retry_after_ms : Option ℕ
  pub terminal : Bool

-- The status tests of the `SocialGatewayError` branch, in their order.
pub gateway_class : Option ℕ → Bool → ErrorClass
gateway_class none retryable = transient
gateway_class (some status) retryable =
    if status == 429
    then rate_limited
    else if status == 401 || status == 403
    then auth_expired
    else if retryable || leb 500 status
    then transient
    else if leb 400 status
    then validation
    else transient

-- `...(retryAfterMs ? { retryAfterMs } : {})`: zero is dropped.
abbrev pub nonzero : Option ℕ → Option ℕ
nonzero none = none
nonzero (some ms) = if ms == 0 then none else some ms

-- "Unexpected failure"
abbrev pub unexpected_failure : Text
unexpected_failure =
    85 ∷ 110 ∷ 101 ∷ 120 ∷ 112 ∷ 101 ∷ 99 ∷ 116 ∷ 101 ∷ 100 ∷ 32 ∷ 102 ∷ 97 ∷ 105 ∷ 108 ∷ 117 ∷ 114
    ∷ 101 ∷ []

module _ (redact_string : Text → Text) where
  -- The local `make`.
  unfoldable pub make : ErrorClass → Text → Option ℕ → ClassifiedError
  unfolding decision_for
  make cls message retry_after_ms = record {
    class = cls;
    message = take 1000 (redact_string message);
    retryable = is_retry (decision_for cls);
    retry_after_ms = nonzero retry_after_ms;
    terminal = false;
  }

  unfoldable pub classify_error : Thrown → ClassifiedError
  unfolding make gateway_class
  classify_error (task_error cls message retry_after_ms terminal) =
      let classified = make cls message retry_after_ms in
      if terminal then record classified { retryable = false; terminal = true } else classified
  classify_error (gateway_configuration_error message) = make policy_denied message none
  classify_error (gateway_error status retryable message) =
      make (gateway_class status retryable) message none
  classify_error (unsafe_url_error message) = make policy_denied message none
  classify_error (safe_fetch_error too_large message) = make validation message none
  classify_error (safe_fetch_error _ message) = make transient message none
  classify_error (plain_error true message) = make transient message none
  classify_error (plain_error false message) = make internal message none
  classify_error not_an_error = make internal unexpected_failure none

-- `classified.terminal ? "give_up" : decisionFor(classified.class)` of `executeClaimedTask`.
unfoldable pub decision : ClassifiedError → RetryDecision
unfolding decision_for
decision c = if c.terminal then give_up else decision_for c.class
