-- ===== src/Tests/DurationTests.antt =====
-- Durations: src/types/duration.rs.
use lambda_durable_execution.Base.{◌-◌, ◌^◌, ◌≡◌, refl, [], ◌∷◌, flatten, arith, decimal, show}
use lambda_durable_execution.Base.Result.{ok}
use lambda_durable_execution.Duration.{Duration, add}
use lambda_durable_execution.Duration.Show.{show_duration}
use lambda_durable_execution.Duration.Iso.{parse_iso8601, to_iso8601}
use lambda_durable_execution.Duration.Iso.RoundTrip.{parse_iso8601-to_iso8601}

abbrev ninety_minutes : Duration
ninety_minutes = record { days = 0; hours = 1; minutes = 30; seconds = 0 }

abbrev largest : Duration
largest = record { days = 2 ^ 32 - 1; hours = 23; minutes = 59; seconds = 59 }

abbrev long_minutes : Duration
long_minutes = record { days = 0; hours = 0; minutes = 4000; seconds = 75 }

iso_text : to_iso8601 ninety_minutes ≡ b'P' ∷ b'T' ∷ b'1' ∷ b'H' ∷ b'3' ∷ b'0' ∷ b'M' ∷ []
unfolding to_iso8601 decimal flatten
iso_text = refl

shown : show_duration ninety_minutes ≡ "1 hour, 30 minutes"
unfolding show_duration show
shown = refl

add_saturates : add largest (record { days = 0; hours = 0; minutes = 0; seconds = 1 }) ≡ largest
unfolding add
add_saturates = refl

parse_iso8601-to_iso8601_example : parse_iso8601 (to_iso8601 long_minutes) ≡ ok long_minutes
parse_iso8601-to_iso8601_example = parse_iso8601-to_iso8601 long_minutes (omega arith)
