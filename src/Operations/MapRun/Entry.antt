-- ===== src/Operations/MapRun/Entry.antt =====
-- `map` of src/context/durable_context/map.rs.
use lambda_durable_execution.Base.{ℕ, String, Option, some, List, unwrap_or, or_else, length}
use lambda_durable_execution.Base.Result.{Result, ok, err}
use lambda_durable_execution.Errors.{DurableError}
use lambda_durable_execution.Checkpoint.{LambdaService}
use lambda_durable_execution.Context.{ExecutionContext, ExecutionMode, next_operation_id}
use lambda_durable_execution.Context.Run.{Op, ◌>>=◌, ◌>>◌, return, fail, Json}
use lambda_durable_execution.Batch.{Percent, validate_completion_config}
use lambda_durable_execution.Batch.Loop.{LoopEnd, returned}
use lambda_durable_execution.Batch.Payload.{BatchResultPayload, batch_result_serdes}
use lambda_durable_execution.Operations.Step.{StepIds}
use lambda_durable_execution.Operations.MapReplay.{
  MapReplayDecision, return_result, reconstruct, continue_map, PayloadFields, evaluate_map_replay,
  reconstruct_map_from_children,
}
use lambda_durable_execution.Operations.MapRun.{MapSummary, MapConfig, start_map, run_map_execution}

abbrev pub checked : {S : Type 0} → Result DurableError (Unit {0}) → Op S (Unit {0})
checked (ok _) = return tt
checked (err e) = fail e

-- `cfg.serdes`, with `BatchResultSerdes` where there is none.
unfoldable pub with_batch_serdes :
    {P I T : Type 0} → Json (BatchResultPayload T) → MapConfig P I T → MapConfig P I T
unfolding batch_result_serdes
with_batch_serdes payloads config = record config {
  serdes = or_else config.serdes (some (batch_result_serdes payloads));
}

abbrev pub map_ids : (String → String) → Option String → ExecutionContext → StepIds
map_ids hash name ctx = record {
  step_id = (next_operation_id name ctx).0;
  hashed_id = hash (next_operation_id name ctx).0;
  name = name;
  parent_id = ctx.current_parent_id;
}

module _ {S I T P : Type 0} (svc : LambdaService S) (json : Json T) (summaries : Json MapSummary)
    (payloads : Json (BatchResultPayload T)) (fields : String → Option PayloadFields)
    (hash : String → String) (percent : Percent P) (map_fn : I → ℕ → Op S T) where
  unfoldable pub decide_map :
      StepIds
      → List I
      → MapConfig P I T
      → Op S ((ℕ → Result DurableError T) × (ℕ → ℕ))
      → MapReplayDecision T
      → Op S (LoopEnd T)
  unfolding reconstruct_map_from_children run_map_execution
  decide_map ids items config children (return_result batch) = return (returned batch)
  decide_map ids items config children (reconstruct total) =
      reconstruct_map_from_children svc json hash percent map_fn config.item_namer
        config.item_serdes ids.name items ids.hashed_id total config.completion_config
      >>= λ batch. return (returned batch)
  decide_map ids items config children continue_map =
      run_map_execution svc summaries percent ids config (length items) children

  -- What is replayed is decided by the mode before the START update.
  unfoldable pub replay_map :
      ExecutionMode
      → StepIds
      → List I
      → MapConfig P I T
      → Op S ((ℕ → Result DurableError T) × (ℕ → ℕ))
      → Op S (LoopEnd T)
  unfolding evaluate_map_replay decide_map
  replay_map ExecutionMode.replay ids items config children =
      evaluate_map_replay fields ids.name items config.item_namer config.serdes ids.hashed_id
      >>= decide_map ids items config children
  replay_map ExecutionMode.execution ids items config children =
      decide_map ids items config children continue_map

  -- `DurableContextHandle::map`.
  unfoldable pub run_map :
      Option String
      → List I
      → MapConfig P I T
      → Op S ((ℕ → Result DurableError T) × (ℕ → ℕ))
      → Op S (LoopEnd T)
  unfolding with_batch_serdes validate_completion_config next_operation_id start_map replay_map
  run_map name items given children ctx =
      let config = with_batch_serdes payloads given in
      let ids = map_ids hash name ctx in
      (checked (
            validate_completion_config percent config.completion_config (length items)
              (unwrap_or name "map"))
          >> (λ ctx.
              (start_map svc ids >> replay_map ctx.mode ids items config children)
                (next_operation_id name ctx).1))
        ctx
