-- ===== src/Tests/MapTests.antt =====
-- Maps: what their final update records, and how they end.
use lambda_durable_execution.Base.{
  zero, suc, concat, ℕ, String, ◌≡◌, refl, Bool, true, false, ◌&&◌, Option, none, some, [], ◌∷◌,
  ◌==◌, if◌then◌else◌, length, str_eq,
}
use lambda_durable_execution.Base.Result.{Result, ok, err}
use lambda_durable_execution.Base.Dict
use lambda_durable_execution.Errors.{DurableError}
use lambda_durable_execution.Context.{new_context}
use lambda_durable_execution.Context.Run.{Outcome, Op, return, done, Json}
use lambda_durable_execution.Batch.{
  success_count, should_continue_batch, BatchResult, BatchItemStatus, BatchCompletionReason,
  Percent,
}
use lambda_durable_execution.Batch.Loop.{LoopEnd, returned}
use lambda_durable_execution.Types.Builder.{build}
use lambda_durable_execution.Checkpoint.Queue.{checkpoint, accept}
use lambda_durable_execution.Checkpoint.Lifecycle.{
  has_finished_ancestor, update_operation_lifecycle,
}
use lambda_durable_execution.Batch.Payload.{BatchResultPayload, batch_payload}
use lambda_durable_execution.Operations.Settles.{Settles, Anything}
use lambda_durable_execution.Operations.MapReplay.{PayloadFields}
use lambda_durable_execution.Operations.MapRun.{MapSummary, MapConfig, map_summary_payload}
use lambda_durable_execution.Operations.MapRun.Entry.{run_map}
use lambda_durable_execution.Operations.MapRun.Replays.{batch_fields, summary_fields}
use lambda_durable_execution.Operations.MapRun.Returns.{IsReturned, run_map-IsReturned}
use lambda_durable_execution.Tests.CheckpointTests.{accepting}
use lambda_durable_execution.Tests.OperationTests.{json, context, hash}

abbrev batch : BatchResult Bool
batch = record {
  all =
      record { index = 0; status = BatchItemStatus.succeeded; result = some true; error = none }
      ∷ [];
  completion_reason = BatchCompletionReason.all_completed;
}

-- Every summary is written as `s`.
abbrev summaries : Json MapSummary
summaries = record {
  to_string = λ summary. ok "s";
  from_str = λ text. err (record { message = "no summary"; cause = none });
}

abbrev payloads : Json (BatchResultPayload Bool)
payloads = record {
  to_string = λ payload. ok "p";
  from_str = λ text. err (record { message = "no payload"; cause = none });
}

abbrev fields : String → Option PayloadFields
fields text = if str_eq text "s" then some (summary_fields 1) else some batch_fields

abbrev summary : MapSummary
unfolding map_summary_payload
summary = map_summary_payload 1 1 0 BatchCompletionReason.all_completed

-- JSON on this batch alone, with a text that is given.
abbrev written_as : String → Json (BatchResultPayload Bool)
unfolding batch_payload
written_as text = record {
  to_string = λ payload. ok text;
  from_str = λ t. ok (batch_payload batch);
}

abbrev doubled : ℕ → String → String
doubled zero text = text
doubled (suc n) text = doubled n (concat (text ∷ text ∷ []))

abbrev long : String
long = doubled 19 "x"

abbrev percent : Percent ℕ
percent = record { valid = λ p. true; text = λ p. ""; exceeds = λ failures total p. false }

abbrev one_success : MapConfig ℕ Bool Bool
one_success = record {
  max_concurrency = some 2;
  item_namer = none;
  serdes = none;
  item_serdes = none;
  completion_config = record {
    min_successful = some 1;
    tolerated_failure_count = some 1;
    tolerated_failure_percentage = none;
  };
}

-- The first item fails; the one that started first finishes first.
abbrev children : Op ℕ ((ℕ → Result DurableError Bool) × (ℕ → ℕ))
children =
    return
      ((λ index. if index == 0 then err (DurableError.internal "boom") else ok true), (λ round. 0))

run_map-IsReturned_example : Settles IsReturned Anything (
    run_map accepting json summaries payloads fields hash percent
      (λ item index. return item)
      (some "m")
      (true ∷ false ∷ [])
      one_success
      children
      (context [])
      0)
unfolding should_continue_batch
run_map-IsReturned_example =
    run_map-IsReturned accepting json summaries payloads fields hash percent
      (λ item index. return item) (some "m") (true ∷ false ∷ []) one_success children (context []) 0
      refl refl

-- Two indices are recorded, the failed one and the succeeded one.
abbrev ended_well : Outcome ℕ (LoopEnd Bool) → Bool
ended_well (done (returned batch) ctx s) = (length batch.all == 2) && (success_count batch == 1)
ended_well _ = false

map_run :
    ended_well (
      run_map accepting json summaries payloads fields hash percent
        (λ item index. return item)
        (some "m")
        (true ∷ false ∷ [])
        one_success
        children
        (context [])
        0)
    ≡ true
unfolding run_map success_count Dict.get new_context build checkpoint has_finished_ancestor accept
    update_operation_lifecycle Dict.insert
map_run = refl
