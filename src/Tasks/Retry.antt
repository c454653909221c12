-- ===== src/Tasks/Retry.antt =====
-- lib/tasks/retry.ts: the retry policy read from a task row, and the backoff delay.
pub mod Laws
use zernflow.Base.{ℕ, ◌+◌, ◌-◌, ◌*◌, ◌/◌, ◌^◌, min, max, Option, none, some}
use zernflow.Base.Int.{pos_part}
use zernflow.Base.Json.{ratio, Json, num, get, floor, fields_of}

pub record RetryPolicy : Type 0 where
  pub max_attempts : ℕ
  pub base_delay_ms : ℕ
  pub max_delay_ms : ℕ

abbrev pub default_retry_policy : RetryPolicy
default_retry_policy = record { max_attempts = 5; base_delay_ms = 30_000; max_delay_ms = 3_600_000 }

-- The local `num`: a finite number is floored and clamped. The bounds are natural numbers, so a
-- negative number is clamped as 0 is.
unfoldable pub num_or : Option Json → ℕ → ℕ → ℕ → ℕ
num_or (some (num (ratio z d))) fallback lo hi = min hi (max lo (pos_part (floor z d)))
num_or _ fallback lo hi = fallback

unfoldable pub normalize_retry_policy : Json → RetryPolicy
normalize_retry_policy value =
    let v = fields_of value in
    record {
      max_attempts = num_or (get "maxAttempts" v) default_retry_policy.max_attempts 1 20;
      base_delay_ms =
          num_or (get "baseDelayMs" v) default_retry_policy.base_delay_ms 1_000 3_600_000;
      max_delay_ms = num_or (get "maxDelayMs" v) default_retry_policy.max_delay_ms 1_000 86_400_000;
    }

-- `random()` is `r / random_steps` with `r < random_steps`.
abbrev pub random_steps : ℕ
random_steps = 9_007_199_254_740_992

-- `Math.min(base * 2 ** Math.max(0, attempt - 1), max)`
unfoldable pub exponential : ℕ → RetryPolicy → ℕ
exponential attempt policy = min (policy.base_delay_ms * 2 ^ (attempt - 1)) policy.max_delay_ms

-- `exp * (1 + (random() * 0.4 - 0.2))` is `exp * (4 * steps + 2 * r) / (5 * steps)`, and
-- `Math.round x` is the floor of `x + 1/2`. The arithmetic is exact, where the source's is that of
-- doubles.
unfoldable pub jittered : ℕ → ℕ → ℕ
jittered exp r = (2 * (exp * (4 * random_steps + 2 * r)) + 5 * random_steps) / (10 * random_steps)

unfoldable pub compute_retry_delay : ℕ → RetryPolicy → ℕ → ℕ
compute_retry_delay attempt policy r = max 1_000 (jittered (exponential attempt policy) r)
