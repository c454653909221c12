-- ===== src/Publishing/Contract.antt =====
-- lib/publishing/contract.ts: what a provider answers, and how its answers and exceptions are
-- checked. The regular expressions of `redactString` are a parameter, as in the tasks' errors.
pub mod Laws
use zernflow.Base.{
  ℕ, zero, suc, ◌+◌, ◌-◌, ◌/◌, ◌%◌, min, String, Bool, true, false, not, ◌&&◌, ◌||◌, Option, none,
  some, List, [], ◌∷◌, ◌++◌, if◌then◌else◌, leb, ◌==◌, length, take, is_some,
}
use zernflow.Base.Int.{ℤ, pos, negsuc, pos_part}
use zernflow.Base.Json.{
  Text, Number, not_a_number, infinity, negative_infinity, ratio, Json, null, bool, num, str, arr,
  obj, Fields, Items, nil, cons, get, floor, codes, text_eq, starts_with, as_text, fields_of,
  items_of, truthy,
}
use zernflow.Base.Result.{Result, ok, err, ◌>>=◌}
use zernflow.Tasks.Errors.{
  ErrorClass, transient, rate_limited, auth_expired, reauth_required, human_challenge,
  unsupported_capability, validation, policy_denied, unknown_outcome, internal, Thrown, task_error,
  classify_error,
}

pub data PartStatus : Type 0 where
  part_published part_failed part_skipped : PartStatus

pub record PublishPart : Type 0 where
  pub index : ℤ
  pub status : PartStatus
  pub external_ref : Option Text
  pub external_url : Option Text
  pub message : Option Text

-- `pollAfterMs` is kept as its floor and `retryAfterMs` is rounded up to a whole millisecond.
pub data PublishOutcome : Type 0 where
  published : Option Text → Option Text → Option (List PublishPart) → PublishOutcome
  accepted : Text → Option ℤ → PublishOutcome
  partial : Option Text → Option Text → List PublishPart → Text → PublishOutcome
  failed : ErrorClass → Text → Option Text → Option ℕ → Bool → PublishOutcome
  unknown : Text → Option Text → PublishOutcome

-- The local `str`.
unfoldable pub str_within : Option Json → ℕ → Option Text
str_within (some (str x)) most = if not (length x == 0) && leb (length x) most then some x else none
str_within _ most = none

unfoldable pub https_or_null : Option Json → Option Text
https_or_null (some (str u)) =
    if starts_with u (codes "https://") && leb (length u) 2000 then some u else none
https_or_null _ = none

unfoldable pub part_status : Option Json → Option PartStatus
part_status (some (str s)) =
    if text_eq s (codes "published")
    then some part_published
    else if text_eq s (codes "failed")
    then some part_failed
    else if text_eq s (codes "skipped")
    then some part_skipped
    else none
part_status _ = none

-- `typeof x.index === "number" && Number.isInteger(x.index) ? x.index : i`
unfoldable pub part_index : Option Json → ℕ → ℤ
part_index (some (num (ratio (pos n) d))) i = if n % suc d == 0 then pos (n / suc d) else pos i
part_index (some (num (ratio (negsuc n) d))) i =
    if suc n % suc d == 0 then negsuc (n / suc d) else pos i
part_index _ i = pos i

abbrev slice : Option Text → ℕ → Option Text
slice none n = none
slice (some t) n = some (take n t)

-- `parts.slice(0, 50).flatMap`, by the number of parts still taken and the index.
unfoldable pub sanitize_parts : ℕ → ℕ → Items → List PublishPart
sanitize_parts zero i items = []
sanitize_parts (suc left) i nil = []
sanitize_parts (suc left) i (cons p items) =
    let rest = sanitize_parts left (suc i) items in
    let x = fields_of p in
    elim (part_status (get "status" x)) [
      | none ↦ rest
      | some status ↦
          record {
            index = part_index (get "index" x) i;
            status = status;
            external_ref = slice (as_text (get "externalRef" x)) 300;
            external_url = https_or_null (get "externalUrl" x);
            message = slice (as_text (get "message" x)) 300;
          }
          ∷ rest
    ]

-- `known.includes(cls) ? cls : "internal"`
unfoldable pub error_class_of : Option Json → ErrorClass
error_class_of (some (str s)) =
    if text_eq s (codes "transient")
    then transient
    else if text_eq s (codes "rate_limited")
    then rate_limited
    else if text_eq s (codes "auth_expired")
    then auth_expired
    else if text_eq s (codes "reauth_required")
    then reauth_required
    else if text_eq s (codes "human_challenge")
    then human_challenge
    else if text_eq s (codes "unsupported_capability")
    then unsupported_capability
    else if text_eq s (codes "validation")
    then validation
    else if text_eq s (codes "policy_denied")
    then policy_denied
    else if text_eq s (codes "unknown_outcome")
    then unknown_outcome
    else internal
error_class_of _ = internal

-- `typeof x === "number" && Number.isFinite(x)`
unfoldable pub poll_after : Option Json → Option ℤ
poll_after (some (num (ratio z d))) = some (floor z d)
poll_after _ = none

-- `typeof x === "number" && x > 0 ? Math.min(x, 6 * 3600_000)`
unfoldable pub retry_after : Option Json → Option ℕ
retry_after (some (num infinity)) = some 21_600_000
retry_after (some (num (ratio (pos n) d))) =
    if n == 0 then none else some (min ((n + d) / suc d) 21_600_000)
retry_after _ = none

abbrev pub or_text : Option Text → String → Text
or_text none s = codes s
or_text (some t) s = t

abbrev pub is_object : Json → Bool
is_object (obj _) = true
is_object (arr _) = true
is_object _ = false

abbrev pub ambiguous : String → Thrown
ambiguous message = task_error unknown_outcome (codes message) none false

-- The `case` of the switch on `o.status`.
abbrev pub status_is : Option Json → String → Bool
status_is (some (str s)) name = text_eq s (codes name)
status_is _ name = false

-- The branch of a failure, from the class that `known.includes` leaves.
unfoldable pub failed_of : ErrorClass → Fields → PublishOutcome
failed_of unknown_outcome o =
    unknown (or_text (str_within (get "message" o) 1000) "Outcome unknown") none
failed_of cls o =
    failed cls (or_text (str_within (get "message" o) 1000) "Publishing failed")
      (str_within (get "code" o) 100) (retry_after (get "retryAfterMs" o)) (truthy (get "final" o))

unfoldable pub validate_accepted : Option Text → Option ℤ → Result Thrown PublishOutcome
validate_accepted none poll =
    err (ambiguous "Provider accepted the publication without an operation reference")
validate_accepted (some ref) poll = ok (accepted ref poll)

-- `Array.isArray(o.parts) ? { parts: sanitizeParts(o.parts) } : {}`
abbrev pub parts_given : Option Json → Option (List PublishPart)
parts_given (some (arr items)) = some (sanitize_parts 50 0 items)
parts_given _ = none

abbrev pub published_of : Fields → PublishOutcome
published_of o =
    published (str_within (get "externalRef" o) 300) (https_or_null (get "externalUrl" o))
      (parts_given (get "parts" o))

abbrev pub partial_of : Fields → PublishOutcome
partial_of o =
    partial (str_within (get "externalRef" o) 300) (https_or_null (get "externalUrl" o))
      (sanitize_parts 50 0 (items_of (get "parts" o)))
      (or_text (str_within (get "message" o) 1000) "Only part of the publication went live")

abbrev pub unknown_of : Fields → PublishOutcome
unknown_of o =
    unknown (or_text (str_within (get "message" o) 1000) "Outcome unknown")
      (str_within (get "operationRef" o) 300)

-- The branches of the switch, for an object.
unfoldable pub validate_fields : Fields → Result Thrown PublishOutcome
validate_fields o =
    let status = get "status" o in
    if status_is status "published"
    then ok (published_of o)
    else if status_is status "accepted"
    then validate_accepted (str_within (get "operationRef" o) 300)
        (poll_after (get "pollAfterMs" o))
    else if status_is status "partial"
    then ok (partial_of o)
    else if status_is status "failed"
    then ok (failed_of (error_class_of (get "errorClass" o)) o)
    else if status_is status "unknown"
    then ok (unknown_of o)
    else err (ambiguous "Provider returned an unrecognised outcome")

unfoldable pub validate_outcome : Json → Result Thrown PublishOutcome
validate_outcome value =
    if is_object value
    then validate_fields (fields_of value)
    else err (ambiguous "Provider returned no outcome")

-- The name of a class, as it stands in a message.
abbrev pub class_name : ErrorClass → Text
class_name transient = codes "transient"
class_name _ = codes "internal"

abbrev pub is_ambiguous_class : ErrorClass → Bool
is_ambiguous_class transient = true
is_ambiguous_class internal = true
is_ambiguous_class _ = false

abbrev is_unknown_class : ErrorClass → Bool
is_unknown_class unknown_outcome = true
is_unknown_class _ = false

-- What a call of the provider comes to: an answer, or an exception.
pub data Reply : Type 0 where
  answered : Json → Reply
  threw : Thrown → Reply

module _ (redact_string : Text → Text) where
  unfoldable pub outcome_from_error : Thrown → Bool → PublishOutcome
  outcome_from_error error idempotent_submit =
      let c = classify_error redact_string error in
      if is_ambiguous_class c.class && not idempotent_submit
      then unknown
          (codes "Provider call ended ambiguously ("
            ++ (class_name c.class ++ (codes "): " ++ c.message)))
          none
      else if is_unknown_class c.class
      then unknown c.message none
      else failed c.class c.message none c.retry_after_ms c.terminal

  -- The inner `try` of `call` in lib/publishing/engine.ts.
  unfoldable pub settle : Reply → Bool → PublishOutcome
  unfolding outcome_from_error
  settle (threw error) idempotent = outcome_from_error error idempotent
  settle (answered value) idempotent = elim (validate_outcome value) [
    | ok outcome ↦ outcome
    | err error ↦ outcome_from_error error idempotent
  ]
