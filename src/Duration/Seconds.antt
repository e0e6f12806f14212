-- ===== src/Duration/Seconds.antt =====
-- What the arithmetic of src/types/duration.rs computes.
use lambda_durable_execution.Base.{ℕ, ◌+◌, ◌-◌, ◌*◌, ◌^◌, ◌≤◌, ◌<◌, min, ◌≡◌, sym, ap, ◌∙◌, arith}
use lambda_durable_execution.Base.Int.{pos}
use lambda_durable_execution.Duration.{
  Duration, to_seconds, to_seconds_i32_saturating, to_millis, i32_max, max_total_seconds,
  split_seconds, add, from_std,
}

-- The fields are `u32` values.
pub record IsValid (d : Duration) : Type 0 where
  pub days_fit : d.days < 2 ^ 32
  pub hours_fit : d.hours < 2 ^ 32
  pub minutes_fit : d.minutes < 2 ^ 32
  pub seconds_fit : d.seconds < 2 ^ 32

-- No field carries into the next.
pub record IsNormal (d : Duration) : Type 0 where
  pub days_fit : d.days < 2 ^ 32
  pub hours_fit : d.hours < 24
  pub minutes_fit : d.minutes < 60
  pub seconds_fit : d.seconds < 60

pub IsNormal-IsValid : (d : Duration) → IsNormal d → IsValid d
IsNormal-IsValid d h = omega arith

-- The exact total, with no bound.
abbrev pub total : Duration → ℕ
total d = d.seconds + d.minutes * 60 + d.hours * 3600 + d.days * 86400

-- The `u64` sum of `u32` fields does not wrap.
pub to_seconds-total : (d : Duration) → IsValid d → to_seconds d ≡ total d
unfolding to_seconds
to_seconds-total d h = omega arith

-- The total in milliseconds does not saturate.
pub to_millis-total : (d : Duration) → IsValid d → to_millis d ≡ total d * 1000
unfolding to_millis
to_millis-total d h = omega arith

-- For `u32` fields the `i32` form is the total up to `i32::MAX` and is never negative.
pub to_seconds_i32-total :
    (d : Duration) → IsValid d → to_seconds_i32_saturating d ≡ pos (min (total d) i32_max)
unfolding to_seconds_i32_saturating
to_seconds_i32-total d h = ground arith

pub split_seconds-IsNormal : (n : ℕ) → n ≤ max_total_seconds → IsNormal (split_seconds n)
unfolding split_seconds
split_seconds-IsNormal n h = omega arith

pub total-split_seconds : (n : ℕ) → n ≤ max_total_seconds → total (split_seconds n) ≡ n
unfolding split_seconds
total-split_seconds n h = omega arith

pub split_seconds-total : (d : Duration) → IsNormal d → split_seconds (total d) ≡ d
unfolding split_seconds
split_seconds-total d h = ground arith

-- A normal duration is at most the maximal one.
pub total-le-max : (d : Duration) → IsNormal d → total d ≤ max_total_seconds
total-le-max d h = omega arith

-- The conversion from `std` seconds is normal and exact up to the largest duration.
pub from_std-total :
    (n : ℕ) → IsNormal (from_std n) × (total (from_std n) ≡ min n max_total_seconds)
unfolding from_std
from_std-total n =
    let h : min n max_total_seconds ≤ max_total_seconds = omega arith in
    (split_seconds-IsNormal _ h, total-split_seconds _ h)

-- A normal duration survives the trip through its total number of seconds.
pub from_std-to_seconds : (d : Duration) → IsNormal d → from_std (to_seconds d) ≡ d
unfolding from_std
from_std-to_seconds d h =
    rw (to_seconds-total d (IsNormal-IsValid d h), min_of_le (total-le-max d h))
      (split_seconds-total d h)
  where
    min_of_le : {a b : ℕ} → a ≤ b → min a b ≡ a
    min_of_le h = omega arith

-- The sum of two valid durations is normal, and its total is the sum of theirs, up to the largest
-- duration.
pub add-total :
    (a b : Duration)
    → IsValid a
    → IsValid b
    → IsNormal (add a b) × (total (add a b) ≡ min (total a + total b) max_total_seconds)
unfolding add
add-total a b va vb =
    let h : min (min (to_seconds a + to_seconds b) (2 ^ 64 - 1)) max_total_seconds
        ≤ max_total_seconds =
      omega arith in
    (
      split_seconds-IsNormal _ h,
      total-split_seconds _ h ∙ omega (arith, to_seconds-total a va, to_seconds-total b vb),
    )

-- Normal durations with the same total are the same.
total-injective : (a b : Duration) → IsNormal a → IsNormal b → total a ≡ total b → a ≡ b
total-injective a b ha hb e =
    sym (split_seconds-total a ha) ∙ ap split_seconds e ∙ split_seconds-total b hb

-- Saturating addition of valid durations does not depend on how the sum is bracketed.
pub add_assoc :
    (a b c : Duration) → IsValid a → IsValid b → IsValid c → add (add a b) c ≡ add a (add b c)
add_assoc a b c va vb vc =
    let ab = add-total a b va vb in
    let bc = add-total b c vb vc in
    let l = add-total (add a b) c (IsNormal-IsValid _ ab.0) vc in
    let r = add-total a (add b c) va (IsNormal-IsValid _ bc.0) in
    total-injective _ _ l.0 r.0 (omega (arith, ab.1, bc.1, l.1, r.1))
