-- ===== src/Operations/MapRun/Returns.antt =====
-- How a map ends: src/context/durable_context/map.rs and map/execute.rs.
use lambda_durable_execution.Base.{
  ℕ, zero, suc, ◌≤◌, String, ◌≡◌, true, false, Option, List, arith, unwrap_or, length,
}
use lambda_durable_execution.Base.Result.{Result}
use Prim.{⊥}
use lambda_durable_execution.Errors.{DurableError}
use lambda_durable_execution.Checkpoint.{LambdaService}
use lambda_durable_execution.Context.{ExecutionContext, ExecutionMode, next_operation_id}
use lambda_durable_execution.Context.Run.{
  Outcome, done, failed, suspended, Op, continue, Serdes, Json,
}
use lambda_durable_execution.Batch.{
  BatchResult, Percent, reached, should_continue_batch, validate_completion_config,
}
use lambda_durable_execution.Batch.Loop.{LoopEnd, returned, unreachable, out_of_fuel}
use lambda_durable_execution.Batch.Loop.Progress.{run_loop-Returns}
use lambda_durable_execution.Batch.Payload.{BatchResultPayload}
use lambda_durable_execution.Operations.Step.{StepIds}
use lambda_durable_execution.Operations.Settles.{Settles, Anything, Settles-continue}
use lambda_durable_execution.Operations.MapReplay.{
  MapReplayDecision, return_result, reconstruct, continue_map, PayloadFields, evaluate_map_replay,
  reconstruct_map_from_children,
}
use lambda_durable_execution.Operations.MapRun.{
  MapSummary, MapConfig, concurrency_limit, empty_batch, start_map, complete_map, complete_loop,
  run_map_execution,
}
use lambda_durable_execution.Operations.MapRun.Entry.{
  checked, with_batch_serdes, map_ids, decide_map, replay_map, run_map,
}

-- A batch, not a panic.
abbrev pub IsReturned : {T : Type 0} → LoopEnd T → Type 0
IsReturned (returned batch) = Unit {0}
IsReturned unreachable = ⊥
IsReturned out_of_fuel = ⊥

Settles-any : {S A : Type 0} (o : Outcome S A) → Settles Anything Anything o
Settles-any (done a ctx s) = tt
Settles-any (failed e ctx s) = tt
Settles-any (suspended ctx s) = tt

Settles-then :
    {S A B : Type 0} (P : B → Type 0) (o : Outcome S A) (k : A → Op S B)
    → ((a : A) (ctx : ExecutionContext) (s : S) → Settles P Anything (k a ctx s))
    → Settles P Anything (continue o k)
Settles-then P o k f =
    Settles-continue Anything P Anything o k (Settles-any o) (λ a ctx s _. f a ctx s)

concurrency_limit-positive : (given : Option ℕ) (n : ℕ) → 1 ≤ concurrency_limit given n
unfolding concurrency_limit
concurrency_limit-positive given n = omega arith

module _ {S T : Type 0} (svc : LambdaService S) (summaries : Json MapSummary) where
  complete_loop-IsReturned :
      (ids : StepIds) (serdes : Option (Serdes (BatchResult T))) (batch : BatchResult T)
      (ctx : ExecutionContext) (s : S)
      → Settles IsReturned Anything (complete_loop svc summaries ids serdes (returned batch) ctx s)
  complete_loop-IsReturned ids serdes batch ctx s =
      Settles-then IsReturned (complete_map svc summaries ids serdes batch ctx s) _ (λ b c t. tt)

module _ {S I T P : Type 0} (svc : LambdaService S) (summaries : Json MapSummary)
    (percent : Percent P) where
  run_map_execution-IsReturned :
      (ids : StepIds) (config : MapConfig P I T) (n : ℕ)
      (children : Op S ((ℕ → Result DurableError T) × (ℕ → ℕ))) (ctx : ExecutionContext) (s : S)
      → reached config.completion_config.min_successful 0 ≡ false
      → should_continue_batch percent 0 n config.completion_config ≡ true
      → Settles IsReturned Anything
          (run_map_execution svc summaries percent ids config n children ctx s)
  unfolding run_map_execution
  run_map_execution-IsReturned ids config zero children ctx s m c =
      complete_loop-IsReturned svc summaries ids config.serdes
        (empty_batch percent config.completion_config) ctx s
  run_map_execution-IsReturned ids config (suc n) children ctx s m c =
      Settles-then IsReturned (children ctx s) _ (λ (results, picks) ctx' s'.
        let limit = concurrency_limit config.max_concurrency (suc n) in
        let ends =
          run_loop-Returns percent config.completion_config (suc n) limit results picks
            (omega arith) (concurrency_limit-positive config.max_concurrency (suc n)) m c in
        rw (ends.result_of) (complete_loop-IsReturned svc summaries ids config.serdes _ ctx' s'))

module _ {S I T P : Type 0} (svc : LambdaService S) (json : Json T) (summaries : Json MapSummary)
    (payloads : Json (BatchResultPayload T)) (fields : String → Option PayloadFields)
    (hash : String → String) (percent : Percent P) (map_fn : I → ℕ → Op S T) where
  decide_map-IsReturned :
      (ids : StepIds) (items : List I) (config : MapConfig P I T)
      (children : Op S ((ℕ → Result DurableError T) × (ℕ → ℕ))) (decision : MapReplayDecision T)
      (ctx : ExecutionContext) (s : S)
      → reached config.completion_config.min_successful 0 ≡ false
      → should_continue_batch percent 0 (length items) config.completion_config ≡ true
      → Settles IsReturned Anything (
          decide_map svc json summaries payloads fields hash percent map_fn ids items config
            children decision ctx s)
  unfolding decide_map
  decide_map-IsReturned ids items config children (return_result batch) ctx s m c = tt
  decide_map-IsReturned ids items config children (reconstruct total) ctx s m c =
      Settles-then IsReturned
        (reconstruct_map_from_children svc json hash percent map_fn config.item_namer
          config.item_serdes ids.name items ids.hashed_id total config.completion_config ctx s)
        _ (λ b c' t. tt)
  decide_map-IsReturned ids items config children continue_map ctx s m c =
      run_map_execution-IsReturned svc summaries percent ids config (length items) children ctx s m
        c

  replay_map-IsReturned :
      (mode : ExecutionMode) (ids : StepIds) (items : List I) (config : MapConfig P I T)
      (children : Op S ((ℕ → Result DurableError T) × (ℕ → ℕ))) (ctx : ExecutionContext) (s : S)
      → reached config.completion_config.min_successful 0 ≡ false
      → should_continue_batch percent 0 (length items) config.completion_config ≡ true
      → Settles IsReturned Anything (
          replay_map svc json summaries payloads fields hash percent map_fn mode ids items config
            children ctx s)
  unfolding replay_map
  replay_map-IsReturned ExecutionMode.replay ids items config children ctx s m c =
      Settles-then IsReturned
        (evaluate_map_replay fields ids.name items config.item_namer config.serdes ids.hashed_id ctx
          s)
        _ (λ decision ctx' s'. decide_map-IsReturned ids items config children decision ctx' s' m c)
  replay_map-IsReturned ExecutionMode.execution ids items config children ctx s m c =
      decide_map-IsReturned ids items config children continue_map ctx s m c

  -- A map whose minimum of successes (if any) is not zero, and that goes on while nothing has failed,
  -- never panics: it ends with a batch or an error, or suspends, whatever its children do and give,
  -- in whatever order they finish, and whatever has been recorded of it.
  pub run_map-IsReturned :
      (name : Option String) (items : List I) (config : MapConfig P I T)
      (children : Op S ((ℕ → Result DurableError T) × (ℕ → ℕ))) (ctx : ExecutionContext) (s : S)
      → reached config.completion_config.min_successful 0 ≡ false
      → should_continue_batch percent 0 (length items) config.completion_config ≡ true
      → Settles IsReturned Anything (
          run_map svc json summaries payloads fields hash percent map_fn name items config children
            ctx s)
  unfolding run_map with_batch_serdes
  run_map-IsReturned name items config children ctx s m c =
      Settles-then IsReturned
        (checked
          (validate_completion_config percent config.completion_config (length items)
            (unwrap_or name "map"))
          ctx s)
        _
        (λ _ ctx' s'.
          Settles-then IsReturned
            (start_map svc (map_ids hash name ctx) (next_operation_id name ctx').1 s') _
            (λ _ ctx'' s''.
              replay_map-IsReturned ctx'.mode (map_ids hash name ctx) items
                (with_batch_serdes payloads config) children ctx'' s'' m c))
