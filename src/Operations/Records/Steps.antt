-- ===== src/Operations/Records/Steps.antt =====
-- A step leaves what replay reads as it is: src/context/durable_context/step.rs and its modules.
use lambda_durable_execution.Base.{unwrap_or, ℕ, String, refl, Bool, Option, none, some}
use lambda_durable_execution.Base.Result.{Result, ok, err}
use lambda_durable_execution.Duration.{Duration}
use lambda_durable_execution.Errors.{BoxError, DurableError}
use lambda_durable_execution.Types.{Operation, OperationStatus, OperationUpdate}
use lambda_durable_execution.Checkpoint.{LambdaService}
use lambda_durable_execution.Retry.{RetryStrategy}
use lambda_durable_execution.Context.{ExecutionMode, next_operation_id}
use lambda_durable_execution.Context.Run.{◌>>=◌, Op, return, set_mode, terminating, Serdes, Json}
use lambda_durable_execution.Operations.{replayed}
use lambda_durable_execution.Operations.Step.{
  StepIds, StepConfig, StepContext, StepSemantics, step, retry_later, give_up, step_errored,
  replay_interrupted, replay_failed, replay_pending, replay_succeeded, return_replayed,
  replay_started, handle_replay, send_start, start_step, call_step, step_succeeded, finish_step,
  run_step_execution, unless_replayed, attempts_made, details_payload, already_started,
}
use lambda_durable_execution.Operations.Records.{
  KeepsRecords, view_kept, KeepsRecords-bind, KeepsRecords-then, KeepsRecords-if,
  KeepsRecords-option, KeepsRecords-send, KeepsRecords-send_queued, KeepsRecords-built,
  KeepsRecords-set_mode, KeepsRecords-safe_serialize, KeepsRecords-safe_deserialize,
  KeepsRecords-update,
}

module _ {S : Type 0} (svc : LambdaService S) where
  retry_later-KeepsRecords :
      (A : Type 0) (ids : StepIds) (e : BoxError) (delay : Option Duration)
      → KeepsRecords {S = S} {A = A} (retry_later svc ids e delay)
  unfolding retry_later terminating
  retry_later-KeepsRecords A ids e delay =
      KeepsRecords-update svc _ ids.step_id _ _ (record { kept = λ ctx s. refl })

  give_up-KeepsRecords :
      (A : Type 0) (ids : StepIds) (e : BoxError) (result : DurableError)
      → KeepsRecords {S = S} {A = A} (give_up svc ids e result)
  unfolding give_up
  give_up-KeepsRecords A ids e result =
      KeepsRecords-update svc _ ids.step_id _ _ (record { kept = λ ctx s. refl })

  step_errored-KeepsRecords :
      (A : Type 0) (ids : StepIds) (strategy : RetryStrategy) (attempt : ℕ) (e : BoxError)
      → KeepsRecords {S = S} {A = A} (step_errored svc ids strategy attempt e)
  unfolding step_errored
  step_errored-KeepsRecords A ids strategy attempt e =
      KeepsRecords-if (strategy e attempt).should_retry _ _
        (retry_later-KeepsRecords A ids e (strategy e attempt).delay)
        (give_up-KeepsRecords A ids e _)

  replay_interrupted-KeepsRecords :
      (A : Type 0) (ids : StepIds) (strategy : RetryStrategy) (op : Operation)
      → KeepsRecords {S = S} {A = A} (replay_interrupted svc ids strategy op)
  unfolding replay_interrupted
  replay_interrupted-KeepsRecords A ids strategy op =
      KeepsRecords-then (set_mode ExecutionMode.execution) _
        (KeepsRecords-set_mode ExecutionMode.execution)
        (KeepsRecords-if (strategy _ _).should_retry _ _
          (retry_later-KeepsRecords A ids _ (strategy _ _).delay) (give_up-KeepsRecords A ids _ _))

module _ {S T : Type 0} (svc : LambdaService S) (eager : Bool) (json : Json T) where
  replay_succeeded-KeepsRecords :
      (ids : StepIds) (serdes : Option (Serdes T)) (op : Operation)
      → KeepsRecords {S = S} (replay_succeeded svc eager json ids serdes op)
  unfolding replay_succeeded
  replay_succeeded-KeepsRecords ids serdes op =
      KeepsRecords-option (details_payload op.step_details) _ _ (record { kept = λ ctx s. refl })
        (λ payload.
          KeepsRecords-bind _ _
            (KeepsRecords-safe_deserialize json serdes (some payload) ids.hashed_id ids.name)
            (λ v. returned v))
    where
      returned : (v : Option T) → KeepsRecords {S = S} (return_replayed svc eager json v)
      returned none = record { kept = λ ctx s. refl }
      returned (some v) = record { kept = λ ctx s. refl }

  handle_replay-KeepsRecords :
      (semantics : StepSemantics) (ids : StepIds) (strategy : RetryStrategy)
      (serdes : Option (Serdes T)) (op : Option Operation)
      → KeepsRecords {S = S} (handle_replay svc eager json semantics ids strategy serdes op)
  unfolding handle_replay replay_started replay_failed replay_pending set_mode terminating
  handle_replay-KeepsRecords semantics ids strategy serdes none = record { kept = λ ctx s. refl }
  handle_replay-KeepsRecords semantics ids strategy serdes (some op) = by_status op.status
    where
      started :
          (sem : StepSemantics)
          → KeepsRecords {S = S} (replay_started svc eager json sem ids strategy op)
      started StepSemantics.at_most_once_per_retry =
          replay_interrupted-KeepsRecords svc _ ids strategy op
      started StepSemantics.at_least_once_per_retry = record { kept = λ ctx s. refl }

      by_status :
          (status : OperationStatus)
          → KeepsRecords {S = S} {A = Option T} (elim status [
            | OperationStatus.succeeded ↦ replay_succeeded svc eager json ids serdes op
            | OperationStatus.failed ↦ replay_failed ids op
            | OperationStatus.pending ↦ replay_pending
            | OperationStatus.started ↦ replay_started svc eager json semantics ids strategy op
            | _ ↦ return none
          ])
      by_status OperationStatus.succeeded = replay_succeeded-KeepsRecords ids serdes op
      by_status OperationStatus.failed = record { kept = λ ctx s. refl }
      by_status OperationStatus.pending = record { kept = λ ctx s. refl }
      by_status OperationStatus.started = started semantics
      by_status OperationStatus.ready = record { kept = λ ctx s. refl }
      by_status OperationStatus.unknown = record { kept = λ ctx s. refl }

  start_step-KeepsRecords :
      (semantics : StepSemantics) (ids : StepIds) (op : Option Operation)
      → KeepsRecords {S = S} (start_step svc eager json semantics ids op)
  unfolding start_step
  start_step-KeepsRecords semantics ids op =
      KeepsRecords-if (already_started op) _ _ (record { kept = λ ctx s. refl })
        (KeepsRecords-bind _ _ (KeepsRecords-built _ _) (λ u. sent semantics u))
    where
      sent :
          (sem : StepSemantics) (u : OperationUpdate)
          → KeepsRecords {S = S} (send_start svc eager json sem ids.step_id u)
      sent StepSemantics.at_most_once_per_retry u = KeepsRecords-send svc ids.step_id u
      sent StepSemantics.at_least_once_per_retry u =
          KeepsRecords-send_queued svc eager ids.step_id u

  step_succeeded-KeepsRecords :
      (ids : StepIds) (serdes : Option (Serdes T)) (value : T)
      → KeepsRecords {S = S} (step_succeeded svc eager json ids serdes value)
  unfolding step_succeeded
  step_succeeded-KeepsRecords ids serdes value =
      KeepsRecords-bind _ _
        (KeepsRecords-safe_serialize json serdes (some value) ids.hashed_id ids.name)
        (λ payload. KeepsRecords-update svc _ ids.step_id _ _ (record { kept = λ ctx s. refl }))

  finish_step-KeepsRecords :
      (ids : StepIds) (strategy : RetryStrategy) (serdes : Option (Serdes T)) (attempt : ℕ)
      (r : Result BoxError T)
      → KeepsRecords {S = S} (finish_step svc eager json ids strategy serdes attempt r)
  finish_step-KeepsRecords ids strategy serdes attempt (ok v) =
      step_succeeded-KeepsRecords ids serdes v
  finish_step-KeepsRecords ids strategy serdes attempt (err e) =
      step_errored-KeepsRecords svc _ ids strategy attempt e

  run_step_execution-KeepsRecords :
      (step_fn : StepContext → S → Result BoxError T × S) (semantics : StepSemantics)
      (ids : StepIds) (strategy : RetryStrategy) (serdes : Option (Serdes T))
      (op : Option Operation)
      → KeepsRecords (run_step_execution svc eager json step_fn semantics ids strategy serdes op)
  unfolding run_step_execution call_step
  run_step_execution-KeepsRecords step_fn semantics ids strategy serdes op =
      KeepsRecords-then (set_mode ExecutionMode.execution) _
        (KeepsRecords-set_mode ExecutionMode.execution)
        (KeepsRecords-then (start_step svc eager json semantics ids op) _
          (start_step-KeepsRecords semantics ids op)
          (KeepsRecords-bind (call_step svc eager json step_fn ids (attempts_made op)) _
            (record { kept = λ ctx s. refl })
            (λ r. finish_step-KeepsRecords ids strategy serdes (attempts_made op) r)))

  unless_replayed-KeepsRecords :
      (run : Op S T) (found : Option T)
      → KeepsRecords run
      → KeepsRecords (unless_replayed svc eager json run found)
  unless_replayed-KeepsRecords run none h = h
  unless_replayed-KeepsRecords run (some v) h = record { kept = λ ctx s. refl }

  replayed_or_run-KeepsRecords :
      (step_fn : StepContext → S → Result BoxError T × S) (config : StepConfig T) (ids : StepIds)
      (strategy : RetryStrategy) (op : Option Operation)
      → KeepsRecords (
          handle_replay svc eager json config.semantics ids strategy config.serdes op
          >>= unless_replayed svc eager json (
              run_step_execution svc eager json step_fn config.semantics ids strategy config.serdes
                op))
  replayed_or_run-KeepsRecords step_fn config ids strategy op =
      KeepsRecords-bind _ _
        (handle_replay-KeepsRecords config.semantics ids strategy config.serdes op)
        (λ found.
          unless_replayed-KeepsRecords _ found (
            run_step_execution-KeepsRecords step_fn config.semantics ids strategy config.serdes op))

  -- A step leaves the step data of the context and the ARN as they are, however it ends: later
  -- operations of the invocation replay from the same data.
  pub step-KeepsRecords :
      (hash : String → String) (default_strategy : RetryStrategy) (name : Option String)
      (step_fn : StepContext → S → Result BoxError T × S) (config : StepConfig T)
      → KeepsRecords (step svc eager json hash default_strategy name step_fn config)
  unfolding step next_operation_id
  step-KeepsRecords hash default_strategy name step_fn config = record {
    kept = λ ctx s.
        let (step_id, counted) = next_operation_id name ctx in
        let ids : StepIds = record {
          step_id = step_id;
          hashed_id = hash step_id;
          name = name;
          parent_id = ctx.current_parent_id;
        } in
        view_kept
          (replayed_or_run-KeepsRecords step_fn config ids
            (unwrap_or config.retry_strategy default_strategy) (replayed ids.hashed_id ctx))
          counted s;
  }
