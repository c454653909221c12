-- ===== src/Tasks/Retry/Laws.antt =====
-- Bounds of a normalised policy and of the delays that it gives.
use native.Mathlib.Nat.{mul-le-mul_left, mul-le-mul_right, one-le-pow, pow-le-pow_right}
use zernflow.Base.{ℕ, ◌+◌, ◌-◌, ◌*◌, ◌≤◌, ◌<◌, ◌≡◌, Option, arith}
use zernflow.Base.Int.{pos}
use zernflow.Base.Json.{ratio, Json, num, obj, field, end, get, fields_of}
use zernflow.Tasks.Retry.{
  RetryPolicy, num_or, normalize_retry_policy, random_steps, exponential, jittered,
  compute_retry_delay,
}

pub record IsNormal (p : RetryPolicy) : Type 0 where
  pub attempts_low : 1 ≤ p.max_attempts
  pub attempts_high : p.max_attempts ≤ 20
  pub base_low : 1_000 ≤ p.base_delay_ms
  pub base_high : p.base_delay_ms ≤ 3_600_000
  pub max_low : 1_000 ≤ p.max_delay_ms
  pub max_high : p.max_delay_ms ≤ 86_400_000

num_or_bounds :
    (v : Option Json) (fallback lo hi : ℕ)
    → lo ≤ fallback
    → fallback ≤ hi
    → (lo ≤ num_or v fallback lo hi) × (num_or v fallback lo hi ≤ hi)
unfolding num_or
num_or_bounds v fallback lo hi h k = ground arith

-- Whatever stands in the row, the policy that is read from it lies within its documented bounds.
pub normalize_retry_policy-IsNormal : (v : Json) → IsNormal (normalize_retry_policy v)
unfolding normalize_retry_policy
normalize_retry_policy-IsNormal v =
    let fs = fields_of v in
    ground (
      arith,
      num_or_bounds (get "maxAttempts" fs) 5 1 20,
      num_or_bounds (get "baseDelayMs" fs) 30_000 1_000 3_600_000,
      num_or_bounds (get "maxDelayMs" fs) 3_600_000 1_000 86_400_000,
    )

-- A policy as it is stored.
abbrev pub encode : RetryPolicy → Json
encode p = obj (
    field "maxAttempts" (num (ratio (pos p.max_attempts) 0)) (
      field "baseDelayMs" (num (ratio (pos p.base_delay_ms) 0))
        (field "maxDelayMs" (num (ratio (pos p.max_delay_ms) 0)) end)))

-- A policy within the bounds is read back as it was stored.
pub normalize_retry_policy-encode :
    (p : RetryPolicy) → IsNormal p → normalize_retry_policy (encode p) ≡ p
unfolding normalize_retry_policy num_or
normalize_retry_policy-encode p h = ground arith

exponential_mono : (m n : ℕ) (p : RetryPolicy) → m ≤ n → exponential m p ≤ exponential n p
unfolding exponential
exponential_mono m n p h =
    let k : m - 1 ≤ n - 1 = omega arith in
    omega (arith, mul-le-mul_left p.base_delay_ms (pow-le-pow_right {n = 2} (omega arith) k))

jittered_mono : (e f r : ℕ) → e ≤ f → jittered e r ≤ jittered f r
unfolding jittered
jittered_mono e f r h = omega (arith, mul-le-mul_right (4 * random_steps + 2 * r) h)

-- With the same random draw, a later attempt never waits less.
pub compute_retry_delay_mono :
    (m n : ℕ) (p : RetryPolicy) (r : ℕ)
    → m ≤ n
    → compute_retry_delay m p r ≤ compute_retry_delay n p r
unfolding compute_retry_delay
compute_retry_delay_mono m n p r h = omega (arith, jittered_mono _ _ r (exponential_mono m n p h))

exponential_bounds :
    (n : ℕ) (p : RetryPolicy)
    → IsNormal p
    → (1_000 ≤ exponential n p) × (exponential n p ≤ p.max_delay_ms)
unfolding exponential
exponential_bounds n p h =
    omega (arith, mul-le-mul_left p.base_delay_ms (one-le-pow (n - 1) 2 (omega arith)), h)

jittered_bounds :
    (e r : ℕ)
    → r < random_steps
    → (8 * e ≤ 10 * jittered e r + 5) × (10 * jittered e r ≤ 12 * e + 5)
unfolding jittered
jittered_bounds e r h = let k : r ≤ random_steps = omega arith in omega (arith, mul-le-mul_left e k)

-- Under a normal policy the delay lies within a fifth of the capped exponential (the 5 is the
-- rounding), is a second at least, and passes the policy's maximum by a fifth at most.
pub compute_retry_delay_bounds :
    (n : ℕ) (p : RetryPolicy) (r : ℕ)
    → IsNormal p
    → r < random_steps
    → let d = compute_retry_delay n p r in
      (1_000 ≤ d)
      × (8 * exponential n p ≤ 10 * d + 5)
      × (10 * d ≤ 12 * exponential n p + 5)
      × (10 * d ≤ 12 * p.max_delay_ms + 5)
unfolding compute_retry_delay
compute_retry_delay_bounds n p r h k =
    omega (arith, exponential_bounds n p h, jittered_bounds (exponential n p) r k)
