-- ===== src/Retry/Attempts.antt =====
-- How many attempts a step makes that always fails with the same error.
use lambda_durable_execution.Base.{
  ℕ, zero, suc, ◌+◌, ◌≤◌, ◌<◌, ◌≡◌, refl, inl, inr, true, false, Option, none, some, arith, ltb,
  if◌then◌else◌, Bool-cases,
}
use lambda_durable_execution.Errors.{BoxError}
use lambda_durable_execution.Duration.{Duration}
use lambda_durable_execution.Retry.{
  RetryStrategy, Float, Search, ExponentialBackoff, is_error_retryable, exponential, fixed, never,
  constant, retry_after, retry_immediately, no_retry, no_retry_with_reason, with_reason,
}

-- Attempt `k` has just failed: the number of the last attempt, if fuel is enough to see it.
unfoldable pub last_attempt : RetryStrategy → BoxError → ℕ → ℕ → Option ℕ
last_attempt strategy e zero k = none
last_attempt strategy e (suc fuel) k =
    let rest = last_attempt strategy e fuel (k + 1) in
    if (strategy e k).should_retry then rest else some k

-- A strategy that retries this error as long as fewer than `n` attempts have been made.
abbrev pub Allows : RetryStrategy → BoxError → ℕ → Type 0
Allows strategy e n = (k : ℕ) → (strategy e k).should_retry ≡ ltb k n

last_attempt-from :
    (strategy : RetryStrategy) (e : BoxError) (n : ℕ)
    → Allows strategy e n
    → (fuel k : ℕ) → n < fuel + k
    → k ≤ n
    → last_attempt strategy e fuel k ≡ some n
unfolding last_attempt
last_attempt-from strategy e n a zero k h l = ground arith
last_attempt-from strategy e n a (suc fuel) k h l = elim (Bool-cases (ltb k n)) [
  | inl go ↦
      ground
        (arith, a k, last_attempt-from strategy e n a fuel (k + 1) (omega arith) (ground arith))
  | inr stop ↦ ground (arith, a k)
]

pub last_attempt-Allows :
    (strategy : RetryStrategy) (e : BoxError) (n : ℕ)
    → Allows strategy e n
    → 1 ≤ n
    → last_attempt strategy e n 1 ≡ some n
last_attempt-Allows strategy e n a h = last_attempt-from strategy e n a n 1 (omega arith) h

exponential-Allows :
    {F : Type 0} (f : Float F) (search : Search) (b : ExponentialBackoff F) (e : BoxError)
    → is_error_retryable f search b e ≡ true
    → Allows (exponential f search b) e b.max_attempts
unfolding exponential no_retry_with_reason retry_after with_reason
exponential-Allows f search b e h k = ground (arith, h)

-- Under exponential backoff with at least one attempt, an error that is retryable and comes back
-- each time is tried exactly `max_attempts` times, whatever the delays and random numbers.
pub last_attempt-exponential :
    {F : Type 0} (f : Float F) (search : Search) (b : ExponentialBackoff F) (e : BoxError)
    → is_error_retryable f search b e ≡ true
    → 1 ≤ b.max_attempts
    → last_attempt (exponential f search b) e b.max_attempts 1 ≡ some b.max_attempts
last_attempt-exponential f search b e h p =
    last_attempt-Allows _ e b.max_attempts (exponential-Allows f search b e h) p

-- An error that is not retryable ends the attempts at once, whatever their number.
pub last_attempt-not_retryable :
    {F : Type 0} (f : Float F) (search : Search) (b : ExponentialBackoff F) (e : BoxError) (k : ℕ)
    → is_error_retryable f search b e ≡ false
    → last_attempt (exponential f search b) e 1 k ≡ some k
unfolding last_attempt exponential no_retry_with_reason retry_after with_reason
last_attempt-not_retryable f search b e k h = ground (arith, h)

-- A constant delay, an immediate retry and no retry at all: the first two try a failing step exactly
-- as often as they are configured to (at least once), the last only once.
pub last_attempt-simple :
    (e : BoxError) (n : ℕ) (d : Duration)
    → 1 ≤ n
    → (last_attempt (constant n d) e n 1 ≡ some n)
      × (last_attempt (fixed n) e n 1 ≡ some n)
      × (last_attempt never e 1 1 ≡ some 1)
unfolding last_attempt never constant fixed retry_after retry_immediately no_retry
last_attempt-simple e n d h = (
  last_attempt-Allows (constant n d) e n (λ k. ground arith) h,
  last_attempt-Allows (fixed n) e n (λ k. ground arith) h,
  refl,
)
