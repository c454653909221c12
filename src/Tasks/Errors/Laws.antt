-- ===== src/Tasks/Errors/Laws.antt =====
-- What every classified error satisfies, and which exceptions lead to a retry.
use zernflow.Base.{
  ℕ, ◌≤◌, ◌<◌, ◌≡◌, ◌≢◌, ◌↔◌, ◌⊎◌, inl, inr, refl, Bool, true, false, Option, none, some, arith,
  length, length-take-le,
}
use zernflow.Base.Json.{Text}
use zernflow.Tasks.Errors.{
  ErrorClass, transient, validation, policy_denied, internal, human_challenge, retry, decision_for,
  Thrown, task_error, gateway_configuration_error, gateway_error, unsafe_url_error,
  safe_fetch_error, timeout, too_large, network, plain_error, not_an_error, gateway_class,
  unexpected_failure, ClassifiedError, make, classify_error, decision,
}

-- `retryable` tells exactly whether the runner will decide for a retry; the message fits its column,
-- and a `retryAfterMs` that is kept is not zero.
pub record IsConsistent (c : ClassifiedError) : Type 0 where
  pub retryable_iff : (c.retryable ≡ true) ↔ (decision c ≡ retry)
  pub message_fits : length c.message ≤ 1000
  pub positive_hint : c.retry_after_ms ≢ some 0

module _ (redact : Text → Text) where
  make-IsConsistent :
      (cls : ErrorClass) (m : Text) (r : Option ℕ) → IsConsistent (make redact cls m r)
  unfolding make decision decision_for
  make-IsConsistent cls m r = record {
    retryable_iff = ground arith;
    message_fits = length-take-le 1000 (redact m);
    positive_hint = ground arith;
  }

  classify_error_unless_terminal :
      (e : Thrown)
      → (c : ErrorClass) × (m : Text) × (r : Option ℕ) × ((classify_error redact e
            ≡ make redact c m r)
          ⊎ (classify_error redact e
              ≡ record (make redact c m r) { retryable = false; terminal = true }))
  unfolding classify_error
  classify_error_unless_terminal (task_error cls m r true) = (cls, m, r, inr refl)
  classify_error_unless_terminal (task_error cls m r false) = (cls, m, r, inl refl)
  classify_error_unless_terminal (gateway_configuration_error m) =
      (policy_denied, m, none, inl refl)
  classify_error_unless_terminal (gateway_error s b m) = (gateway_class s b, m, none, inl refl)
  classify_error_unless_terminal (unsafe_url_error m) = (policy_denied, m, none, inl refl)
  classify_error_unless_terminal (safe_fetch_error timeout m) = (transient, m, none, inl refl)
  classify_error_unless_terminal (safe_fetch_error too_large m) = (validation, m, none, inl refl)
  classify_error_unless_terminal (safe_fetch_error network m) = (transient, m, none, inl refl)
  classify_error_unless_terminal (plain_error true m) = (transient, m, none, inl refl)
  classify_error_unless_terminal (plain_error false m) = (internal, m, none, inl refl)
  classify_error_unless_terminal not_an_error = (internal, unexpected_failure, none, inl refl)

  terminal-IsConsistent :
      (c : ClassifiedError)
      → IsConsistent c
      → IsConsistent (record c { retryable = false; terminal = true })
  unfolding decision
  terminal-IsConsistent c h = record {
    retryable_iff = ground arith;
    message_fits = h.message_fits;
    positive_hint = h.positive_hint;
  }

  -- Every exception is classified consistently.
  pub classify_error-IsConsistent : (e : Thrown) → IsConsistent (classify_error redact e)
  classify_error-IsConsistent e =
      let (c, m, r, h) = classify_error_unless_terminal e in
      elim h [
        | inl p ↦ rw p (make-IsConsistent c m r)
        | inr p ↦ rw p (terminal-IsConsistent _ (make-IsConsistent c m r))
      ]

  -- A gateway's answer is retried exactly when it is a rate limit, or a failure that is marked as
  -- retryable or lies outside 400 to 499, and that is not about the credentials.
  pub gateway_error-retry_iff :
      (s : ℕ) (b : Bool) (m : Text)
      → (decision (classify_error redact (gateway_error (some s) b m)) ≡ retry)
        ↔ ((s ≡ 429) ⊎ ((s ≢ 401) × (s ≢ 403) × ((b ≡ true) ⊎ ((500 ≤ s) ⊎ (s < 400)))))
  unfolding decision classify_error
  gateway_error-retry_iff s b m = ground arith

  -- A human challenge is never retried automatically, whatever its handler says of it.
  pub human_challenge-decision :
      (m : Text) (r : Option ℕ) (t : Bool)
      → decision (classify_error redact (task_error human_challenge m r t)) ≢ retry
  unfolding decision classify_error
  human_challenge-decision m r t = ground arith
