-- ===== src/Retry/Presets.antt =====
-- The presets of src/retry/presets.rs.
use lambda_durable_execution.Base.{[], ◌∷◌}
use lambda_durable_execution.Duration.{of_seconds, of_minutes}
use lambda_durable_execution.Retry.{JitterStrategy, Float, ExponentialBackoff, default_builder}

module _ {F : Type 0} (f : Float F) where
  unfoldable pub default_preset : ExponentialBackoff F
  unfolding default_builder of_seconds
  default_preset = record (default_builder f) {
    max_attempts = 6;
    initial_delay = of_seconds 5;
    max_delay = of_seconds 60;
  }

  unfoldable pub aggressive : ExponentialBackoff F
  unfolding default_builder of_seconds
  aggressive = record (default_builder f) {
    max_attempts = 6;
    max_delay = of_seconds 30;
    backoff_rate = f.literal 3 2;
  }

  unfoldable pub conservative : ExponentialBackoff F
  unfolding default_builder of_seconds
  conservative = record (default_builder f) {
    max_attempts = 10;
    initial_delay = of_seconds 5;
    jitter = JitterStrategy.half;
  }

  unfoldable pub network : ExponentialBackoff F
  unfolding default_builder of_seconds of_minutes
  network = record (default_builder f) {
    max_attempts = 5;
    initial_delay = of_seconds 2;
    max_delay = of_minutes 1;
    retryable_patterns = "timeout" ∷ "connection" ∷ "network" ∷ "reset" ∷ "refused" ∷ [];
  }

  unfoldable pub database : ExponentialBackoff F
  unfolding default_builder of_seconds
  database = record (default_builder f) {
    max_attempts = 4;
    max_delay = of_seconds 30;
    jitter = JitterStrategy.equal;
    retryable_patterns = "lock" ∷ "deadlock" ∷ "conflict" ∷ "busy" ∷ "too many connections" ∷ [];
  }

  unfoldable pub rate_limited : ExponentialBackoff F
  unfolding default_builder of_seconds of_minutes
  rate_limited = record (default_builder f) {
    max_attempts = 8;
    initial_delay = of_seconds 5;
    max_delay = of_minutes 2;
    retryable_patterns = "rate limit" ∷ "throttle" ∷ "429" ∷ "too many requests" ∷ [];
  }

  unfoldable pub single : ExponentialBackoff F
  unfolding default_builder
  single = record (default_builder f) { max_attempts = 2; jitter = JitterStrategy.no_jitter }
