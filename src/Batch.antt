-- ===== src/Batch.antt =====
-- The results of batches: src/types/batch.rs, src/types/config/completion.rs and
-- src/context/durable_context/batch.rs. Percentages (`f64`) and their comparison are parameters.
pub mod Counts
pub mod Loop
pub mod Payload
use lambda_durable_execution.Base.{
  ℕ, String, Bool, true, false, not, ◌&&◌, ◌||◌, Option, none, some, List, [], ◌∷◌, ltb, leb, ◌==◌,
  if◌then◌else◌, is_some, unwrap_or, length, any, keep, find, concat, show,
}
use lambda_durable_execution.Base.Result.{Result, ok, err}
use lambda_durable_execution.Errors.{DurableError, display}

pub data BatchItemStatus : Type 0 where
  succeeded failed started : BatchItemStatus

pub record BatchItem (T : Type 0) : Type 0 where
  pub index : ℕ
  pub status : BatchItemStatus
  pub result : Option T
  pub error : Option DurableError

pub data BatchCompletionReason : Type 0 where
  all_completed min_successful_reached failure_tolerance_exceeded : BatchCompletionReason

pub record BatchResult (T : Type 0) : Type 0 where
  pub all : List (BatchItem T)
  pub completion_reason : BatchCompletionReason

abbrev pub is_succeeded : BatchItemStatus → Bool
is_succeeded BatchItemStatus.succeeded = true
is_succeeded _ = false

abbrev pub is_failed : BatchItemStatus → Bool
is_failed BatchItemStatus.failed = true
is_failed _ = false

abbrev pub is_started : BatchItemStatus → Bool
is_started BatchItemStatus.started = true
is_started _ = false

module _ {T : Type 0} where
  unfoldable pub succeeded_items : BatchResult T → List (BatchItem T)
  succeeded_items r = keep (λ i. is_succeeded i.status) r.all

  unfoldable pub failed_items : BatchResult T → List (BatchItem T)
  failed_items r = keep (λ i. is_failed i.status) r.all

  unfoldable pub started_items : BatchResult T → List (BatchItem T)
  started_items r = keep (λ i. is_started i.status) r.all

  unfoldable pub success_count : BatchResult T → ℕ
  success_count r = length (keep (λ i. is_succeeded i.status) r.all)

  unfoldable pub failure_count : BatchResult T → ℕ
  failure_count r = length (keep (λ i. is_failed i.status) r.all)

  unfoldable pub started_count : BatchResult T → ℕ
  started_count r = length (keep (λ i. is_started i.status) r.all)

  unfoldable pub total_count : BatchResult T → ℕ
  total_count r = length r.all

  unfoldable pub has_failure : BatchResult T → Bool
  has_failure r = any (λ i. is_failed i.status) r.all

  unfoldable pub batch_status : BatchResult T → BatchItemStatus
  unfolding has_failure
  batch_status r =
      if has_failure r
      then BatchItemStatus.failed
      else if any (λ i. is_started i.status) r.all
      then BatchItemStatus.started
      else BatchItemStatus.succeeded

  abbrev pub first_error_of : Option (BatchItem T) → Option DurableError
  first_error_of none = none
  first_error_of (some i) = i.error

  unfoldable pub first_error : BatchResult T → Option DurableError
  first_error r = first_error_of (find (λ i. is_failed i.status) r.all)

  abbrev pub item_error :
      BatchResult T → BatchItem T → Option DurableError → Result DurableError (Unit {0})
  item_error r i none = ok tt
  item_error r i (some e) = err (
      DurableError.batch_operation_failed (concat ("batch_item_" ∷ show i.index ∷ [])) (display e)
        (length (keep (λ i. is_succeeded i.status) r.all))
        (length (keep (λ i. is_failed i.status) r.all)))

  unfoldable pub throw_if_error : BatchResult T → Result DurableError (Unit {0})
  unfolding display show
  throw_if_error r = elim (find (λ i. is_failed i.status) r.all) [
    | none ↦ ok tt
    | some i ↦ item_error r i i.error
  ]

-- `f64` percentages: the validity test, the text, and whether a number of failures among a positive
-- number of items is a greater percentage.
pub record Percent (P : Type 0) : Type 0 where
  pub valid : P → Bool
  pub text : P → String
  pub exceeds : ℕ → ℕ → P → Bool

pub record CompletionConfig (P : Type 0) : Type 0 where
  pub min_successful : Option ℕ
  pub tolerated_failure_count : Option ℕ
  pub tolerated_failure_percentage : Option P

abbrev pub above : Option ℕ → ℕ → Bool
above none n = false
above (some m) n = ltb n m

abbrev pub reached : Option ℕ → ℕ → Bool
reached none n = false
reached (some m) n = leb m n

module _ {P : Type 0} (percent : Percent P) where
  abbrev invalid_percentage : Option P → Bool
  invalid_percentage none = false
  invalid_percentage (some p) = not (percent.valid p)

  abbrev configuration : String → List String → DurableError
  configuration operation_name parts =
      DurableError.invalid_configuration (concat (operation_name ∷ ": " ∷ parts))

  abbrev percentage_text : Option P → String
  percentage_text none = ""
  percentage_text (some p) = percent.text p

  unfoldable pub validate_completion_config :
      CompletionConfig P → ℕ → String → Result DurableError (Unit {0})
  unfolding show
  validate_completion_config c total name =
      if above c.min_successful total
      then err (
          configuration name (
            "min_successful ("
            ∷ show (unwrap_or c.min_successful 0)
            ∷ ") exceeds total items ("
            ∷ show total
            ∷ ")"
            ∷ []))
      else if above c.tolerated_failure_count total
      then err (
          configuration name (
            "tolerated_failure_count ("
            ∷ show (unwrap_or c.tolerated_failure_count 0)
            ∷ ") exceeds total items ("
            ∷ show total
            ∷ ")"
            ∷ []))
      else if invalid_percentage c.tolerated_failure_percentage
      then err (
          configuration name (
            "tolerated_failure_percentage ("
            ∷ percentage_text c.tolerated_failure_percentage
            ∷ ") must be finite and between 0 and 100"
            ∷ []))
      else ok tt

  unfoldable pub has_completion_criteria : CompletionConfig P → Bool
  has_completion_criteria c =
      is_some c.min_successful
      || is_some c.tolerated_failure_count
      || is_some c.tolerated_failure_percentage

  abbrev pub count_exceeded : CompletionConfig P → ℕ → Bool
  count_exceeded c failures = elim c.tolerated_failure_count [
    | none ↦ false
    | some t ↦ ltb t failures
  ]

  abbrev pub percentage_exceeded : CompletionConfig P → ℕ → ℕ → Bool
  percentage_exceeded c failures total = elim c.tolerated_failure_percentage [
    | none ↦ false
    | some p ↦ ltb 0 total && percent.exceeds failures total p
  ]

  unfoldable pub should_continue_batch : ℕ → ℕ → CompletionConfig P → Bool
  unfolding has_completion_criteria
  should_continue_batch failures total c =
      if not (has_completion_criteria c)
      then failures == 0
      else if count_exceeded c failures
      then false
      else not (percentage_exceeded c failures total)

  unfoldable pub compute_batch_completion_reason :
      ℕ → ℕ → ℕ → ℕ → CompletionConfig P → BatchCompletionReason
  unfolding should_continue_batch
  compute_batch_completion_reason failures successes completed total c =
      if not (should_continue_batch failures total c)
      then BatchCompletionReason.failure_tolerance_exceeded
      else if completed == total
      then BatchCompletionReason.all_completed
      else if reached c.min_successful successes
      then BatchCompletionReason.min_successful_reached
      else BatchCompletionReason.all_completed
