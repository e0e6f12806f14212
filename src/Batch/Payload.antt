-- ===== src/Batch/Payload.antt =====
-- `BatchResultSerdes` of src/types/batch_serdes.rs. JSON is a parameter: the payload records stand for
-- the borrowed and the owned form, which have the same fields.
pub mod RoundTrip
use lambda_durable_execution.Base.{
  ℕ, String, Option, none, some, List, [], ◌∷◌, map, if◌then◌else◌, unwrap_or, str_eq, concat,
}
use lambda_durable_execution.Base.Result.{Result, ok, err, ◌>>=◌}
use lambda_durable_execution.Base.Dict
use lambda_durable_execution.Errors.{BoxError, DurableError, display}
use lambda_durable_execution.Context.Run.{Serdes, SerdesContext, Json}
use lambda_durable_execution.Batch.{BatchItemStatus, BatchItem, BatchCompletionReason, BatchResult}
use lambda_durable_execution.Batch.Loop.{sort_items}

abbrev pub batch_result_kind : String
batch_result_kind = "BatchResult"

pub record BatchItemPayload (T : Type 0) : Type 0 where
  pub index : ℕ
  pub status : String
  pub result : Option T
  pub error : Option String

pub record BatchResultPayload (T : Type 0) : Type 0 where
  pub kind : String
  pub completion_reason : String
  pub items : List (BatchItemPayload T)

unfoldable pub item_status_str : BatchItemStatus → String
item_status_str BatchItemStatus.succeeded = "SUCCEEDED"
item_status_str BatchItemStatus.failed = "FAILED"
item_status_str BatchItemStatus.started = "STARTED"

-- `format!(…).into()`.
abbrev pub invalid : String → String → BoxError
invalid what text = record { message = concat (what ∷ text ∷ []); cause = none }

unfoldable pub parse_item_status : String → Result BoxError BatchItemStatus
parse_item_status status =
    if str_eq status "SUCCEEDED"
    then ok BatchItemStatus.succeeded
    else if str_eq status "FAILED"
    then ok BatchItemStatus.failed
    else if str_eq status "STARTED"
    then ok BatchItemStatus.started
    else err (invalid "Invalid batch item status: " status)

unfoldable pub completion_reason_str : BatchCompletionReason → String
completion_reason_str BatchCompletionReason.all_completed = "ALL_COMPLETED"
completion_reason_str BatchCompletionReason.min_successful_reached = "MIN_SUCCESSFUL_REACHED"
completion_reason_str BatchCompletionReason.failure_tolerance_exceeded =
    "FAILURE_TOLERANCE_EXCEEDED"

unfoldable pub parse_completion_reason : String → Result BoxError BatchCompletionReason
parse_completion_reason reason =
    if str_eq reason "ALL_COMPLETED"
    then ok BatchCompletionReason.all_completed
    else if str_eq reason "MIN_SUCCESSFUL_REACHED"
    then ok BatchCompletionReason.min_successful_reached
    else if str_eq reason "FAILURE_TOLERANCE_EXCEEDED"
    then ok BatchCompletionReason.failure_tolerance_exceeded
    else err (invalid "Invalid batch completion reason: " reason)

unfoldable pub error_text : DurableError → String
unfolding display
error_text (DurableError.internal message) = message
error_text e = display e

abbrev pub error_texts : Option DurableError → Option String
error_texts none = none
error_texts (some e) = some (error_text e)

-- Only a failed item has an error.
abbrev pub restored_error : BatchItemStatus → Option String → Option DurableError
restored_error BatchItemStatus.failed error =
    some (DurableError.internal (unwrap_or error "Batch item failed"))
restored_error _ error = none

module _ {T : Type 0} where
  unfoldable pub item_payload : BatchItem T → BatchItemPayload T
  unfolding item_status_str error_text
  item_payload item = record {
    index = item.index;
    status = item_status_str item.status;
    result = item.result;
    error = error_texts item.error;
  }

  unfoldable pub batch_payload : BatchResult T → BatchResultPayload T
  unfolding item_payload completion_reason_str
  batch_payload batch = record {
    kind = batch_result_kind;
    completion_reason = completion_reason_str batch.completion_reason;
    items = map item_payload batch.all;
  }

  unfoldable pub restore_item : BatchItemPayload T → Result BoxError (BatchItem T)
  unfolding parse_item_status
  restore_item item = elim (parse_item_status item.status) [
    | err e ↦ err e
    | ok status ↦ ok (record {
      index = item.index;
      status = status;
      result = item.result;
      error = restored_error status item.error;
    })
  ]

  unfoldable pub restore_items : List (BatchItemPayload T) → Result BoxError (List (BatchItem T))
  unfolding restore_item
  restore_items [] = ok []
  restore_items (item ∷ items) = do
    restored ← restore_item item
    rest ← restore_items items
    ok (restored ∷ rest)

  unfoldable pub restore_batch : BatchResultPayload T → Result BoxError (BatchResult T)
  unfolding restore_items parse_completion_reason sort_items
  restore_batch payload =
      if str_eq payload.kind batch_result_kind
      then (do
        completion_reason ← parse_completion_reason payload.completion_reason
        all ← restore_items payload.items
        ok (record { all = sort_items all; completion_reason = completion_reason }))
      else err (invalid "Unexpected batch payload kind: " payload.kind)

  module _ (json : Json (BatchResultPayload T)) where
    abbrev pub some_text : Result BoxError String → Result BoxError (Option String)
    some_text (ok text) = ok (some text)
    some_text (err e) = err e

    unfoldable pub serialize :
        Option (BatchResult T) → SerdesContext → Result BoxError (Option String)
    unfolding batch_payload
    serialize none context = ok none
    serialize (some batch) context = some_text (json.to_string (batch_payload batch))

    abbrev pub some_batch :
        Result BoxError (BatchResult T) → Result BoxError (Option (BatchResult T))
    some_batch (ok batch) = ok (some batch)
    some_batch (err e) = err e

    unfoldable pub deserialize :
        Option String → SerdesContext → Result BoxError (Option (BatchResult T))
    unfolding restore_batch
    deserialize none context = ok none
    deserialize (some data_text) context = some_batch (json.from_str data_text >>= restore_batch)

    unfoldable pub batch_result_serdes : Serdes (BatchResult T)
    unfolding serialize deserialize
    batch_result_serdes = record { serialize = serialize; deserialize = deserialize }
