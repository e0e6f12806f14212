-- ===== src/Retry.antt =====
-- src/retry/strategy.rs and src/retry/presets.rs. Floating-point numbers, random numbers and the
-- search in texts are parameters.
pub mod Presets
pub mod Attempts
use lambda_durable_execution.Base.{
  ℕ, ◌+◌, ◌-◌, String, Bool, true, false, not, Option, none, some, List, [], ◌∷◌, ltb, leb,
  if◌then◌else◌, is_empty, any, concat, show,
}
use lambda_durable_execution.Base.Int.{ℤ, as_i32}
use lambda_durable_execution.Base.Result.{◌>>=◌, ◌>>◌}
use lambda_durable_execution.Base.Dict
use lambda_durable_execution.Duration.{Duration, to_seconds, of_seconds, of_minutes}
use lambda_durable_execution.Errors.{BoxError}

pub record RetryDecision : Type 0 where
  pub should_retry : Bool
  pub delay : Option Duration
  pub reason : Option String

unfoldable pub retry_after : Duration → RetryDecision
retry_after d = record { should_retry = true; delay = some d; reason = none }

unfoldable pub retry_immediately : RetryDecision
retry_immediately = record { should_retry = true; delay = none; reason = none }

unfoldable pub no_retry : RetryDecision
no_retry = record { should_retry = false; delay = none; reason = none }

unfoldable pub no_retry_with_reason : String → RetryDecision
no_retry_with_reason r = record { should_retry = false; delay = none; reason = some r }

unfoldable pub with_reason : String → RetryDecision → RetryDecision
with_reason r d = record d { reason = some r }

-- `RetryStrategy::should_retry`: the error and the attempts made, a `u32`.
abbrev pub RetryStrategy : Type 0
RetryStrategy = BoxError → ℕ → RetryDecision

-- `JitterStrategy::None` is `no_jitter`.
pub data JitterStrategy : Type 0 where
  no_jitter full half equal : JitterStrategy

-- The `f64` operations and the random numbers of the rand crate that the delays use.
pub record Float (F : Type 0) : Type 0 where
  -- The literal with this numerator and denominator.
  pub literal : ℕ → ℕ → F
  pub of_u64 : ℕ → F
  pub mul : F → F → F
  pub add : F → F → F
  pub div : F → F → F
  pub powi : F → ℤ → F
  pub minimum : F → F → F
  pub maximum : F → F → F
  -- `round() as u32`.
  pub round_u32 : F → ℕ
  pub random_range : F → F → F

-- `str::to_lowercase` and `str::contains`.
pub record Search : Type 0 where
  pub to_lowercase : String → String
  pub contains : String → String → Bool

pub record ExponentialBackoff (F : Type 0) : Type 0 where
  pub max_attempts : ℕ
  pub initial_delay : Duration
  pub max_delay : Duration
  pub backoff_rate : F
  pub jitter : JitterStrategy
  pub retryable_patterns : List String

module _ {F : Type 0} (f : Float F) where
  unfoldable pub jittered : JitterStrategy → F → F
  jittered JitterStrategy.no_jitter capped = capped
  jittered JitterStrategy.full capped = f.random_range (f.literal 0 1) capped
  jittered JitterStrategy.half capped = f.random_range (f.div capped (f.literal 2 1)) capped
  jittered JitterStrategy.equal capped =
      let half = f.div capped (f.literal 2 1) in f.add half (f.random_range (f.literal 0 1) half)

  unfoldable pub calculate_delay : ExponentialBackoff F → ℕ → Duration
  unfolding jittered to_seconds of_seconds
  calculate_delay b attempts_made =
      let base =
        f.mul (f.of_u64 (to_seconds b.initial_delay))
          (f.powi b.backoff_rate (as_i32 (attempts_made - 1))) in
      let capped = f.minimum base (f.of_u64 (to_seconds b.max_delay)) in
      of_seconds (f.round_u32 (f.maximum (jittered b.jitter capped) (f.literal 1 1)))

  module _ (search : Search) where
    unfoldable pub is_error_retryable : ExponentialBackoff F → BoxError → Bool
    is_error_retryable b e =
        if is_empty b.retryable_patterns
        then true
        else any (λ p. search.contains (search.to_lowercase e.message) (search.to_lowercase p))
            b.retryable_patterns

    unfoldable pub exponential : ExponentialBackoff F → RetryStrategy
    unfolding is_error_retryable calculate_delay no_retry_with_reason retry_after with_reason
    exponential b e attempts_made =
        if leb b.max_attempts attempts_made
        then no_retry_with_reason
            (concat ("Max attempts (" ∷ show b.max_attempts ∷ ") exceeded" ∷ []))
        else if not (is_error_retryable b e)
        then no_retry_with_reason "Error not retryable"
        else with_reason
            (concat ("Attempt " ∷ show (attempts_made + 1) ∷ " of " ∷ show b.max_attempts ∷ []))
            (retry_after (calculate_delay b attempts_made))

  -- The builder's defaults.
  unfoldable pub default_builder : ExponentialBackoff F
  unfolding of_seconds of_minutes
  default_builder = record {
    max_attempts = 3;
    initial_delay = of_seconds 1;
    max_delay = of_minutes 5;
    backoff_rate = f.literal 2 1;
    jitter = JitterStrategy.full;
    retryable_patterns = [];
  }

unfoldable pub fixed : ℕ → RetryStrategy
unfolding retry_immediately no_retry
fixed max_attempts e attempts_made =
    if ltb attempts_made max_attempts then retry_immediately else no_retry

unfoldable pub never : RetryStrategy
unfolding no_retry
never e attempts_made = no_retry

unfoldable pub constant : ℕ → Duration → RetryStrategy
unfolding retry_after no_retry
constant max_attempts d e attempts_made =
    if ltb attempts_made max_attempts then retry_after d else no_retry
