-- ===== src/Duration/Iso.antt =====
-- `parse_iso8601` and `to_iso8601` of src/types/duration.rs, over the code points of the text.
-- The two directions are compared in the child module.
pub mod RoundTrip
use lambda_durable_execution.Base.{
  ℕ, ◌+◌, ◌-◌, ◌*◌, ◌^◌, String, Bool, true, false, ◌&&◌, ◌||◌, Option, none, some, List, [], ◌∷◌,
  ◌++◌, flatten, ltb, leb, ◌==◌, if◌then◌else◌, is_empty, decimal,
}
use lambda_durable_execution.Base.Result.{Result, ok, err, ◌>>=◌, ◌>>◌, ok_or}
use lambda_durable_execution.Base.Dict
use lambda_durable_execution.Duration.{Duration, zero_duration}

-- The text of the message, and the characters that it ends with.
pub data ParseDurationError : Type 0 where
  invalid_format : String → List ℕ → ParseDurationError

abbrev pub u32_max : ℕ
u32_max = 2 ^ 32 - 1

abbrev pub is_ascii_digit : ℕ → Bool
is_ascii_digit c = leb b'0' c && leb c b'9'

-- `str::parse::<u32>` behind the digits read so far; `none` is its error.
scan_u32 : List ℕ → ℕ → Option ℕ
scan_u32 [] n = some n
scan_u32 (c ∷ cs) n =
    let n' = n * 10 + (c - b'0') in
    let rest = scan_u32 cs n' in
    if is_ascii_digit c then (if ltb u32_max n' then none else rest) else none

unfoldable pub parse_u32 : List ℕ → Option ℕ
unfolding scan_u32
parse_u32 [] = none
parse_u32 (c ∷ cs) = scan_u32 (c ∷ cs) 0

-- The `match` on the unit: the field that the number goes to.
unfoldable pub set_unit : ℕ → ℕ → Duration → Result ParseDurationError Duration
set_unit c num d =
    if c == b'D'
    then ok (record d { days = num })
    else if c == b'H'
    then ok (record d { hours = num })
    else if c == b'M'
    then ok (record d { minutes = num })
    else if c == b'S'
    then ok (record d { seconds = num })
    else err (invalid_format "Unknown unit: " (c ∷ []))

-- A character that is no digit ends the number in the buffer.
unfoldable pub end_number : ℕ → List ℕ → Duration → Result ParseDurationError Duration
end_number c buf d =
    if is_empty buf
    then err (invalid_format "Expected number before unit" [])
    else do num ← ok_or (parse_u32 buf) (invalid_format "Invalid number" []); set_unit c num d

-- The loop over the characters: the duration so far and the digits in the buffer.
unfoldable pub scan : Duration → List ℕ → List ℕ → Result ParseDurationError Duration
scan d buf [] = ok d
scan d buf (c ∷ cs) = elim (is_ascii_digit c) [
  | true ↦ scan d (buf ++ c ∷ []) cs
  | false ↦ end_number c buf d >>= λ d'. scan d' [] cs
]

-- The text behind a prefix, if it begins so.
abbrev pub strip_pt : List ℕ → Option (List ℕ)
strip_pt (p ∷ t ∷ cs) = if p == b'P' && t == b'T' then some cs else none
strip_pt _ = none

unfoldable pub parse_iso8601 : List ℕ → Result ParseDurationError Duration
unfolding scan end_number parse_u32 set_unit
parse_iso8601 s = do
  cs ← ok_or (strip_pt s) (invalid_format "Duration must start with 'PT'" [])
  scan zero_duration [] cs

-- One part of the text: the number and its unit.
unfoldable pub format_part : ℕ → ℕ → List ℕ
format_part n unit = decimal n ++ unit ∷ []

-- `parts.push(…)`, if the field is positive.
abbrev pub push_positive : ℕ → ℕ → List (List ℕ) → List (List ℕ)
push_positive n unit parts = if ltb 0 n then parts ++ format_part n unit ∷ [] else parts

unfoldable pub to_iso8601 : Duration → List ℕ
unfolding format_part
to_iso8601 d =
    let parts =
      push_positive d.minutes b'M' (push_positive d.hours b'H' (push_positive d.days b'D' [])) in
    let all =
      if ltb 0 d.seconds || is_empty parts
      then parts ++ format_part d.seconds b'S' ∷ []
      else parts in
    b'P' ∷ b'T' ∷ flatten all
