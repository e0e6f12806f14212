-- ===== src/Duration/Iso/RoundTrip.antt =====
-- What `to_iso8601` prints, `parse_iso8601` reads back.
use lambda_durable_execution.Base.{
  ℕ, zero, suc, ◌+◌, ◌/◌, ◌%◌, ◌≤◌, ◌<◌, ◌≡◌, refl, sym, ap, ◌∙◌, subst, Bool, true, false, ◌||◌,
  some, List, [], ◌∷◌, ◌++◌, flatten, append_assoc, append-nil, arith, ltb, if◌then◌else◌, is_empty,
  All, digits, decimal,
}
use lambda_durable_execution.Base.Result.{ok, ◌>>=◌}
use lambda_durable_execution.Duration.{Duration, zero_duration}
use lambda_durable_execution.Duration.Seconds.{IsValid}
use lambda_durable_execution.Duration.Iso.{
  u32_max, is_ascii_digit, scan_u32, parse_u32, set_unit, end_number, scan, parse_iso8601,
  format_part, push_positive, to_iso8601,
}

scan_u32-digits :
    (f n : ℕ) (out : List ℕ) → n < f → n ≤ u32_max → scan_u32 (digits f n out) 0 ≡ scan_u32 out n
unfolding scan_u32 digits
scan_u32-digits zero n out h k = elim h [ ]
scan_u32-digits (suc f) n out h k =
    ground (arith, scan_u32-digits f (n / 10) ((b'0' + n % 10) ∷ out))

-- The scanner takes digits into its buffer one by one.
scan-append_digits :
    (d : Duration) (buf ds cs : List ℕ)
    → All (λ c. is_ascii_digit c ≡ true) ds
    → scan d buf (ds ++ cs) ≡ scan d (buf ++ ds) cs
unfolding scan
scan-append_digits d buf [] cs h = rw append-nil
scan-append_digits d buf (c ∷ ds) cs h =
    rw (h.0, scan) (scan-append_digits d (buf ++ c ∷ []) ds cs h.1 ∙ rw append_assoc)

digits-All :
    (f n : ℕ) (out : List ℕ)
    → All (λ c. is_ascii_digit c ≡ true) out
    → All (λ c. is_ascii_digit c ≡ true) (digits f n out)
unfolding digits
digits-All zero n out h = h
digits-All (suc f) n out h = ground (arith, digits-All f (n / 10) ((b'0' + n % 10) ∷ out))

digits-not_empty :
    (f n : ℕ) (out : List ℕ) → is_empty out ≡ false → is_empty (digits f n out) ≡ false
unfolding digits
digits-not_empty zero n out h = h
digits-not_empty (suc f) n out h =
    ground (arith, digits-not_empty f (n / 10) ((b'0' + n % 10) ∷ out))

decimal-not_empty : (n : ℕ) → is_empty (decimal n) ≡ false
unfolding decimal
decimal-not_empty n = ground (arith, digits-not_empty n (n / 10) ((b'0' + n % 10) ∷ []))

parse_u32-scan : (ds : List ℕ) → is_empty ds ≡ false → parse_u32 ds ≡ scan_u32 ds 0
unfolding parse_u32
parse_u32-scan [] h = cc
parse_u32-scan (c ∷ ds) h = refl

parse_u32-decimal : (n : ℕ) → n ≤ u32_max → parse_u32 (decimal n) ≡ some n
unfolding decimal scan_u32
parse_u32-decimal n h =
    parse_u32-scan (decimal n) (decimal-not_empty n) ∙ scan_u32-digits (suc n) n [] (omega arith) h

scan-end_number :
    (d : Duration) (n unit : ℕ) (cs : List ℕ)
    → n ≤ u32_max
    → is_ascii_digit unit ≡ false
    → scan d (decimal n) (unit ∷ cs) ≡ (set_unit unit n d >>= λ d'. scan d' [] cs)
unfolding scan end_number
scan-end_number d n unit cs h u =
    rw (u, scan) (rw (decimal-not_empty n, end_number) (rw (parse_u32-decimal n h, end_number)))

-- A printed part sets its field, and the scan goes on behind it.
scan-format_part :
    (d : Duration) (n unit : ℕ) (cs : List ℕ)
    → n ≤ u32_max
    → is_ascii_digit unit ≡ false
    → scan d [] (format_part n unit ++ cs) ≡ (set_unit unit n d >>= λ d'. scan d' [] cs)
unfolding format_part
scan-format_part d n unit cs h u =
    rw append_assoc
      (scan-append_digits d [] (decimal n) (unit ∷ cs) all ∙ scan-end_number d n unit cs h u)
  where
    all : All (λ c. is_ascii_digit c ≡ true) (decimal n)
    all = unfold decimal in digits-All (suc n) n [] tt

-- The text of a part that is printed if its field is positive.
abbrev part_text : Bool → ℕ → ℕ → List ℕ
part_text b n unit = if b then format_part n unit else []

flatten-snoc : (parts : List (List ℕ)) (p : List ℕ) → flatten (parts ++ p ∷ []) ≡ flatten parts ++ p
unfolding flatten
flatten-snoc [] p = append-nil p
flatten-snoc (q ∷ parts) p = rw (flatten-snoc parts p) (sym (append_assoc q (flatten parts) p))

flatten-push_if :
    (b : Bool) (n unit : ℕ) (parts : List (List ℕ))
    → flatten (if b then parts ++ format_part n unit ∷ [] else parts)
      ≡ flatten parts ++ part_text b n unit
flatten-push_if true n unit parts = flatten-snoc parts (format_part n unit)
flatten-push_if false n unit parts = sym (append-nil (flatten parts))

-- A part is skipped only where its field is 0 already.
scan-part_text :
    (b : Bool) (d d' : Duration) (n unit : ℕ) (cs : List ℕ)
    → n ≤ u32_max
    → is_ascii_digit unit ≡ false
    → set_unit unit n d ≡ ok d'
    → (b ≡ false → d ≡ d')
    → scan d [] (part_text b n unit ++ cs) ≡ scan d' [] cs
scan-part_text true d d' n unit cs h u e skip = scan-format_part d n unit cs h u ∙ rw e
scan-part_text false d d' n unit cs h u e skip = rw (skip refl)

-- The text of `to_iso8601` part by part.
to_iso8601-parts :
    (d : Duration)
    → (b : Bool) × (to_iso8601 d
        ≡ b'P'
          ∷ b'T'
          ∷ (part_text (ltb 0 d.days) d.days b'D'
              ++ (part_text (ltb 0 d.hours) d.hours b'H'
                  ++ (part_text (ltb 0 d.minutes) d.minutes b'M' ++ part_text b d.seconds b'S'))))
      × (b ≡ false → d.seconds ≡ 0)
unfolding to_iso8601 flatten
to_iso8601-parts d =
    let parts =
      push_positive d.minutes b'M' (push_positive d.hours b'H' (push_positive d.days b'D' [])) in
    (
      ltb 0 d.seconds || is_empty parts,
      ap (λ t. b'P' ∷ b'T' ∷ t)
          (flatten-push_if (ltb 0 d.seconds || is_empty parts) d.seconds b'S' parts
            ∙ rw
                (
                  flatten-push_if (ltb 0 d.minutes) d.minutes b'M' _,
                  flatten-push_if (ltb 0 d.hours) d.hours b'H' _,
                  flatten-push_if (ltb 0 d.days) d.days b'D' [],
                )
                (simp append_assoc)),
      λ e. ground arith,
    )

-- The scan of the four parts gives each field its number.
scan-parts :
    (d : Duration) (b : Bool)
    → IsValid d
    → (b ≡ false → d.seconds ≡ 0)
    → scan zero_duration [] (
        part_text (ltb 0 d.days) d.days b'D'
        ++ (part_text (ltb 0 d.hours) d.hours b'H'
            ++ (part_text (ltb 0 d.minutes) d.minutes b'M' ++ (part_text b d.seconds b'S' ++ []))))
      ≡ ok d
unfolding scan set_unit zero_duration
scan-parts d b v skip =
    let d1 : Duration = record { days = d.days; hours = 0; minutes = 0; seconds = 0 } in
    let d2 : Duration = record { days = d.days; hours = d.hours; minutes = 0; seconds = 0 } in
    let d3 : Duration = record {
      days = d.days;
      hours = d.hours;
      minutes = d.minutes;
      seconds = 0;
    } in
    scan-part_text (ltb 0 d.days) zero_duration d1 d.days b'D' _ (omega arith) refl refl
      (λ e. ground arith)
    ∙ scan-part_text (ltb 0 d.hours) d1 d2 d.hours b'H' _ (omega arith) refl refl
        (λ e. ground arith)
    ∙ scan-part_text (ltb 0 d.minutes) d2 d3 d.minutes b'M' _ (omega arith) refl refl
        (λ e. ground arith)
    ∙ scan-part_text b d3 d d.seconds b'S' [] (omega arith) refl refl (λ e. ground (arith, skip e))

-- The text of a duration with `u32` fields is read back as that duration.
pub parse_iso8601-to_iso8601 : (d : Duration) → IsValid d → parse_iso8601 (to_iso8601 d) ≡ ok d
unfolding parse_iso8601
parse_iso8601-to_iso8601 d v =
    let (b, e, skip) = to_iso8601-parts d in
    rw e (
      subst
        (λ t.
          scan zero_duration [] (
            part_text (ltb 0 d.days) d.days b'D'
            ++ (part_text (ltb 0 d.hours) d.hours b'H'
                ++ (part_text (ltb 0 d.minutes) d.minutes b'M' ++ t)))
          ≡ ok d)
        (append-nil _) (scan-parts d b v skip))

-- Digits with no unit behind them are read and dropped: the text is accepted as the zero duration.
pub parse_iso8601-digits :
    (ds : List ℕ)
    → All (λ c. is_ascii_digit c ≡ true) ds
    → parse_iso8601 (b'P' ∷ b'T' ∷ ds) ≡ ok zero_duration
unfolding parse_iso8601
parse_iso8601-digits ds h =
    ap (scan zero_duration []) (sym (append-nil ds)) ∙ scan-append_digits zero_duration [] ds [] h
