-- ===== src/Duration.antt =====
-- src/types/duration.rs.
pub mod Iso
pub mod Show
pub mod Seconds
use lambda_durable_execution.Base.{
  ℕ, ◌+◌, ◌-◌, ◌*◌, ◌/◌, ◌%◌, ◌^◌, min, Bool, ◌&&◌, ltb, ◌==◌, if◌then◌else◌,
}
use lambda_durable_execution.Base.Int.{ℤ, pos, as_i32}

-- Each field is a `u32`.
pub record Duration : Type 0 where
  pub days : ℕ
  pub hours : ℕ
  pub minutes : ℕ
  pub seconds : ℕ

unfoldable pub zero_duration : Duration
zero_duration = record { days = 0; hours = 0; minutes = 0; seconds = 0 }

unfoldable pub of_seconds : ℕ → Duration
of_seconds s = record { days = 0; hours = 0; minutes = 0; seconds = s }

unfoldable pub of_minutes : ℕ → Duration
of_minutes m = record { days = 0; hours = 0; minutes = m; seconds = 0 }

-- The value of the fields, in `u64`.
unfoldable pub to_seconds : Duration → ℕ
to_seconds d = (d.seconds + d.minutes * 60 + d.hours * 3600 + d.days * 86400) % 2 ^ 64

abbrev pub i32_max : ℕ
i32_max = 2 ^ 31 - 1

unfoldable pub to_seconds_i32_saturating : Duration → ℤ
unfolding to_seconds
to_seconds_i32_saturating d =
    let secs = to_seconds d in if ltb i32_max secs then pos i32_max else as_i32 secs

-- `u64::saturating_mul` and `u64::saturating_add`.
abbrev pub saturate : ℕ → ℕ
saturate n = min n (2 ^ 64 - 1)

unfoldable pub to_millis : Duration → ℕ
unfolding to_seconds
to_millis d = saturate (to_seconds d * 1000)

unfoldable pub is_zero : Duration → Bool
is_zero d = d.days == 0 && d.hours == 0 && d.minutes == 0 && d.seconds == 0

abbrev pub max_total_seconds : ℕ
max_total_seconds = (2 ^ 32 - 1) * 86400 + 23 * 3600 + 59 * 60 + 59

-- A total cut into fields, each cast to `u32`.
unfoldable pub split_seconds : ℕ → Duration
split_seconds total = record {
  days = total / 86400 % 2 ^ 32;
  hours = total % 86400 / 3600 % 2 ^ 32;
  minutes = total % 3600 / 60 % 2 ^ 32;
  seconds = total % 60 % 2 ^ 32;
}

unfoldable pub add : Duration → Duration → Duration
unfolding split_seconds to_seconds
add a b = split_seconds (min (saturate (to_seconds a + to_seconds b)) max_total_seconds)

-- From the whole seconds of a `std::time::Duration`.
unfoldable pub from_std : ℕ → Duration
unfolding split_seconds
from_std secs = split_seconds (min secs max_total_seconds)
