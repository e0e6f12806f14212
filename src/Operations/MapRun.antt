-- ===== src/Operations/MapRun.antt =====
-- The START and the final update of a map, and the payload of the latter: src/context/durable_context/
-- map.rs, map/execute.rs and batch.rs. Percentages (`f64`) and JSON are parameters.
pub mod Entry
pub mod Replays
pub mod Returns
use lambda_durable_execution.Base.{
  ℕ, zero, suc, String, Bool, true, false, Option, none, some, [], map, ltb, if◌then◌else◌, is_some,
  unwrap_or, max, str_len,
}
use lambda_durable_execution.Base.Result.{Result}
use lambda_durable_execution.Base.Dict
use lambda_durable_execution.Errors.{DurableError}
use lambda_durable_execution.Types.{OperationAction, OperationType}
use lambda_durable_execution.Operations.Child.{checkpoint_size_limit_bytes}
use lambda_durable_execution.Batch.Loop.{
  LoopEnd, returned, unreachable, out_of_fuel, initial_loop, run_loop,
}
use lambda_durable_execution.Operations.Step.{StepIds}
use lambda_durable_execution.Types.Builder.{OperationUpdateBuilder}
use lambda_durable_execution.Context.Run.{
  Op, ◌>>=◌, ◌>>◌, return, built, send, Serdes, Json, safe_serialize,
  safe_serialize_required_with_serdes,
}
use lambda_durable_execution.Operations.{update_builder, replayed}
use lambda_durable_execution.Batch.{
  BatchResult, BatchCompletionReason, Percent, CompletionConfig, success_count, failure_count,
  total_count, compute_batch_completion_reason,
}
use lambda_durable_execution.Checkpoint.{LambdaService}

-- The JSON object of `map_summary_payload`.
pub record MapSummary : Type 0 where
  pub type_name : String
  pub total_count : ℕ
  pub success_count : ℕ
  pub failure_count : ℕ
  pub completion_reason : String
  pub status : String

unfoldable pub batch_completion_reason_str : BatchCompletionReason → String
batch_completion_reason_str BatchCompletionReason.all_completed = "ALL_COMPLETED"
batch_completion_reason_str BatchCompletionReason.min_successful_reached = "MIN_SUCCESSFUL_REACHED"
batch_completion_reason_str BatchCompletionReason.failure_tolerance_exceeded =
    "FAILURE_TOLERANCE_EXCEEDED"

unfoldable pub batch_status_str : ℕ → String
batch_status_str failures = if ltb 0 failures then "FAILED" else "SUCCEEDED"

unfoldable pub map_summary_payload : ℕ → ℕ → ℕ → BatchCompletionReason → MapSummary
unfolding batch_completion_reason_str batch_status_str
map_summary_payload total successes failures reason = record {
  type_name = "MapResult";
  total_count = total;
  success_count = successes;
  failure_count = failures;
  completion_reason = batch_completion_reason_str reason;
  status = batch_status_str failures;
}

pub record MapConfig (P I T : Type 0) : Type 0 where
  pub max_concurrency : Option ℕ
  pub item_namer : Option (I → ℕ → String)
  pub serdes : Option (Serdes (BatchResult T))
  pub item_serdes : Option (Serdes T)
  pub completion_config : CompletionConfig P

-- `unwrap_or_else(|| items_len.max(1)).max(1)`.
unfoldable pub concurrency_limit : Option ℕ → ℕ → ℕ
concurrency_limit given items = max (unwrap_or given (max items 1)) 1

-- The final update; it has no name and no parent.
unfoldable pub map_completion_builder : String → String × Bool → OperationUpdateBuilder
unfolding update_builder
map_completion_builder hashed_id (payload, replay_children) =
    record (update_builder hashed_id OperationType.context "Map" OperationAction.succeed none
      none) {
        payload = some payload;
        context_options =
            if replay_children then some (record { replay_children = some true }) else none;
      }

module _ {S : Type 0} (json : Json MapSummary) where
  -- Without a serdes a value always has a text, so that `expect` has one.
  unfoldable pub summary_text : MapSummary → String → Option String → Op S String
  unfolding safe_serialize
  summary_text summary hashed_id name =
      safe_serialize json none (some summary) hashed_id name >>= λ text. return (unwrap_or text "")

  abbrev pub sized : MapSummary → String → Option String → String → Op S (String × Bool)
  sized summary hashed_id name payload =
      if ltb checkpoint_size_limit_bytes (str_len payload)
      then (summary_text summary hashed_id name >>= λ text. return (text, true))
      else return (payload, false)

module _ {S T : Type 0} (json : Json MapSummary) where
  -- The payload, and whether the children are to be replayed.
  unfoldable pub map_payload :
      Option (Serdes (BatchResult T))
      → MapSummary
      → BatchResult T
      → String
      → Option String
      → Op S (String × Bool)
  unfolding summary_text safe_serialize_required_with_serdes
  map_payload none summary batch hashed_id name =
      summary_text json summary hashed_id name >>= λ text. return (text, false)
  map_payload (some serdes) summary batch hashed_id name =
      safe_serialize_required_with_serdes serdes batch hashed_id name
      >>= sized json summary hashed_id name

module _ {S : Type 0} (svc : LambdaService S) where
  unfoldable pub start_map : StepIds → Op S (Unit {0})
  unfolding update_builder built send
  start_map ids ctx =
      (if is_some (replayed ids.hashed_id ctx)
          then return tt
          else built "Failed to build map START update" (
              update_builder ids.hashed_id OperationType.context "Map" OperationAction.start
                ids.parent_id ids.name)
            >>= λ update. send svc ids.step_id update)
        ctx

abbrev pub empty_batch : {P T : Type 0} → Percent P → CompletionConfig P → BatchResult T
empty_batch percent config = record {
  all = [];
  completion_reason = compute_batch_completion_reason percent 0 0 0 0 config;
}

module _ {S T : Type 0} (svc : LambdaService S) (json : Json MapSummary) where
  -- The counters of the source are the numbers of the items of each status.
  unfoldable pub complete_map :
      StepIds → Option (Serdes (BatchResult T)) → BatchResult T → Op S (BatchResult T)
  unfolding map_payload map_summary_payload map_completion_builder built send total_count
      success_count failure_count
  complete_map ids serdes batch = do
    payload ←
        map_payload json serdes
          (map_summary_payload (total_count batch) (success_count batch) (failure_count batch)
            batch.completion_reason)
          batch ids.hashed_id ids.name
    update ←
        built "Failed to build map completion update" (map_completion_builder ids.hashed_id payload)
    send svc ids.step_id update
    return batch

  abbrev pub complete_loop :
      StepIds → Option (Serdes (BatchResult T)) → LoopEnd T → Op S (LoopEnd T)
  complete_loop ids serdes (returned batch) =
      complete_map ids serdes batch >>= λ b. return (returned b)
  complete_loop ids serdes unreachable = return unreachable
  complete_loop ids serdes out_of_fuel = return out_of_fuel

  module _ {P I : Type 0} (percent : Percent P) where
    -- For `n` items. `children` stands for what the ids and the tasks of the items do to the context
    -- and the world until the loop ends; it gives the tasks' results by index and the order in which
    -- they finish. The fuel of the loop is the number of items. A task that panics is not modelled.
    unfoldable pub run_map_execution :
        StepIds
        → MapConfig P I T
        → ℕ
        → Op S ((ℕ → Result DurableError T) × (ℕ → ℕ))
        → Op S (LoopEnd T)
    unfolding complete_map concurrency_limit run_loop initial_loop
    run_map_execution ids config zero children =
        complete_loop ids config.serdes (returned (empty_batch percent config.completion_config))
    run_map_execution ids config (suc n) children = children >>= λ (results, picks).
        let limit = concurrency_limit config.max_concurrency (suc n) in
        complete_loop ids config.serdes (
          run_loop percent config.completion_config (suc n) limit results picks (suc n)
            (initial_loop percent config.completion_config (suc n) limit results))
