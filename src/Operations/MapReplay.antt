-- ===== src/Operations/MapReplay.antt =====
-- src/context/durable_context/map/replay.rs: the decision, and the reconstruction from the children.
-- What the code looks up in a JSON text is a parameter, as are percentages (`f64`).
pub mod Decision
pub mod Indices
use lambda_durable_execution.Base.{
  ℕ, zero, suc, ◌+◌, String, Option, none, some, List, [], ◌∷◌, ◌++◌, ltb, if◌then◌else◌, length,
  concat, show,
}
use lambda_durable_execution.Base.Dict
use lambda_durable_execution.Errors.{DurableError}
use lambda_durable_execution.Types.{Operation, OperationStatus}
use lambda_durable_execution.Checkpoint.{LambdaService}
use lambda_durable_execution.Context.{next_operation_id}
use lambda_durable_execution.Context.Run.{
  Op, ◌>>=◌, ◌>>◌, return, fail, Serdes, Json, safe_deserialize,
}
use lambda_durable_execution.Batch.{
  BatchResult, Percent, CompletionConfig, compute_batch_completion_reason,
}
use lambda_durable_execution.Batch.Loop.{LoopState, completed, collect_items}
use lambda_durable_execution.Operations.{replayed}
use lambda_durable_execution.Operations.Child.{
  ChildContextConfig, replays_children, context_payload, child_message, in_child, catch,
  run_in_child_context_with_ids,
}
pub use lambda_durable_execution.Operations.MapReplay.Decision.{
  is_text, total_count_of, batch_message, item_name, replay_result, consume, MapReplayDecision,
  PayloadFields, return_result, reconstruct, continue_map,
}
unfoldable pub use lambda_durable_execution.Operations.MapReplay.Decision.{
  is_summary, map_failed, too_many_items, target_total_count, consume_ids, return_batch,
  replay_payload, evaluate_map_replay,
}

unfoldable pub child_missing : ℕ → DurableError
unfolding show
child_missing index =
    DurableError.replay_validation_failed
      (concat ("map child context present for index " ∷ show index ∷ [])) "missing"

abbrev pub missing_child_output : DurableError
missing_child_output = DurableError.internal "Missing child context output in replay"

module _ {S I T P : Type 0} (svc : LambdaService S) (json : Json T) (hash : String → String)
    (percent : Percent P) (map_fn : I → ℕ → Op S T) where
  abbrev pub succeeded_at : ℕ → T → LoopState T → LoopState T
  succeeded_at index v st = record st { successes = st.successes ++ (index, v) ∷ [] }

  abbrev pub failed_at : ℕ → DurableError → LoopState T → LoopState T
  failed_at index e st = record st { failures = st.failures ++ (index, e) ∷ [] }

  abbrev pub started_at : ℕ → LoopState T → LoopState T
  started_at index st = record st { started = st.started ++ index ∷ [] }

  -- The child again, below the context of the map.
  unfoldable pub rerun_child :
      Option (Serdes T) → String → I → ℕ → String → String → LoopState T → Op S (LoopState T)
  unfolding in_child run_in_child_context_with_ids
  rerun_child serdes map_hashed_id item index name step_id st =
      let config : ChildContextConfig T = record {
        sub_type = some "MapIteration";
        serdes = serdes;
      } in
      catch
        (in_child map_hashed_id (
          run_in_child_context_with_ids svc json step_id (hash step_id) (some name)
            (map_fn item index) config))
        (λ e. return (failed_at index e st)) (λ v. return (succeeded_at index v st))

  abbrev pub child_value : ℕ → LoopState T → Option T → Op S (LoopState T)
  child_value index st none = fail missing_child_output
  child_value index st (some v) = return (succeeded_at index v st)

  unfoldable pub read_child :
      Option (Serdes T) → Operation → ℕ → String → String → LoopState T → Op S (LoopState T)
  unfolding safe_deserialize
  read_child serdes op index name step_id st =
      safe_deserialize json serdes (context_payload op.context_details) (hash step_id) (some name)
      >>= child_value index st

  unfoldable pub reconstruct_child :
      Option (Serdes T)
      → String
      → I
      → ℕ
      → String
      → String
      → Operation
      → OperationStatus
      → LoopState T
      → Op S (LoopState T)
  unfolding rerun_child read_child
  reconstruct_child serdes map_hashed_id item index name step_id op OperationStatus.succeeded st =
      if replays_children op.context_details
      then rerun_child serdes map_hashed_id item index name step_id st
      else read_child serdes op index name step_id st
  reconstruct_child serdes map_hashed_id item index name step_id op OperationStatus.failed st =
      return (
        failed_at index
          (DurableError.child_context_failed step_id (child_message op.context_details) none) st)
  reconstruct_child serdes map_hashed_id item index name step_id op _ st =
      return (started_at index st)

  abbrev pub reconstruct_recorded :
      Option (Serdes T)
      → String
      → I
      → ℕ
      → String
      → String
      → LoopState T
      → Option Operation
      → Op S (LoopState T)
  reconstruct_recorded serdes map_hashed_id item index name step_id st none =
      fail (child_missing index)
  reconstruct_recorded serdes map_hashed_id item index name step_id st (some op) =
      reconstruct_child serdes map_hashed_id item index name step_id op op.status st

  unfoldable pub reconstruct_item :
      Option (I → ℕ → String)
      → Option (Serdes T)
      → Option String
      → String
      → ℕ
      → I
      → LoopState T
      → Op S (LoopState T)
  unfolding next_operation_id reconstruct_child child_missing show
  reconstruct_item namer serdes name map_hashed_id index item st ctx =
      let item_name = item_name namer name item index in
      let (step_id, counted) = next_operation_id (some item_name) ctx in
      reconstruct_recorded serdes map_hashed_id item index item_name step_id st
        (replayed (hash step_id) ctx) counted

  -- The first items, in their order.
  unfoldable pub reconstruct_items :
      Option (I → ℕ → String)
      → Option (Serdes T)
      → Option String
      → String
      → ℕ
      → ℕ
      → List I
      → LoopState T
      → Op S (LoopState T)
  unfolding reconstruct_item
  reconstruct_items namer serdes name map_hashed_id index zero items st = return st
  reconstruct_items namer serdes name map_hashed_id index (suc n) [] st = return st
  reconstruct_items namer serdes name map_hashed_id index (suc n) (item ∷ items) st =
      reconstruct_item namer serdes name map_hashed_id index item st
      >>= reconstruct_items namer serdes name map_hashed_id (index + 1) n items

  abbrev pub no_items : LoopState T
  no_items = record { waiting = []; started = []; successes = []; failures = [] }

  unfoldable pub reconstructed : CompletionConfig P → ℕ → LoopState T → BatchResult T
  unfolding collect_items compute_batch_completion_reason
  reconstructed config total st = record {
    all = collect_items st;
    completion_reason =
        compute_batch_completion_reason percent (length st.failures) (length st.successes)
          (completed st) total config;
  }

  unfoldable pub reconstruct_map_from_children :
      Option (I → ℕ → String)
      → Option (Serdes T)
      → Option String
      → List I
      → String
      → ℕ
      → CompletionConfig P
      → Op S (BatchResult T)
  unfolding too_many_items reconstruct_items reconstructed
  reconstruct_map_from_children namer serdes name items map_hashed_id total config =
      if ltb (length items) total
      then fail (too_many_items (length items) total)
      else reconstruct_items namer serdes name map_hashed_id 0 total items no_items >>= λ st.
          return (reconstructed config (length items) st)
