-- ===== src/Operations/Step.antt =====
-- src/context/durable_context/step.rs, step/replay.rs and step/execute.rs.
pub mod Updates
pub mod Builders
pub mod Outcomes
pub mod Sends
pub mod Replays
use lambda_durable_execution.Base.{ℕ, String, Bool, Option, none, some, if◌then◌else◌, unwrap_or}
use lambda_durable_execution.Base.Dict
use lambda_durable_execution.Base.Result.{Result, ok, err}
use lambda_durable_execution.Duration.{Duration}
use lambda_durable_execution.Errors.{BoxError, DurableError, step_failed_msg, step_failed_boxed}
use lambda_durable_execution.Types.{Operation, OperationStatus, OperationAction, OperationUpdate}
use lambda_durable_execution.Termination.{terminate_for_retry}
use lambda_durable_execution.Checkpoint.{LambdaService}
use lambda_durable_execution.Retry.{RetryStrategy}
use lambda_durable_execution.Context.{ExecutionMode, next_operation_id}
use lambda_durable_execution.Context.Run.{
  Op, ◌>>=◌, ◌>>◌, return, fail, suspend, set_mode, terminating, built, send, send_queued, Serdes,
  Json, safe_serialize, safe_deserialize,
}
use lambda_durable_execution.Operations.{replayed}
pub use lambda_durable_execution.Operations.Step.Updates.{
  StepSemantics, StepConfig, StepContext, StepIds, details_attempt, operation_attempt,
  details_payload, details_message, missing_output, already_started,
}
unfoldable pub use lambda_durable_execution.Operations.Step.Updates.{
  attempts_made, interrupted, step_builder, fail_builder, retry_builder, succeed_builder,
}

module _ {S : Type 0} (svc : LambdaService S) where
  -- The RETRY update, and the suspension behind it.
  unfoldable pub retry_later : {A : Type 0} → StepIds → BoxError → Option Duration → Op S A
  unfolding retry_builder built send terminating terminate_for_retry
  retry_later ids e delay = do
    update ← built "Failed to build step RETRY update" (retry_builder ids e delay)
    send svc ids.step_id update
    terminating terminate_for_retry
    suspend

  -- The FAIL update, and the error behind it.
  unfoldable pub give_up : {A : Type 0} → StepIds → BoxError → DurableError → Op S A
  unfolding fail_builder built send
  give_up ids e result = do
    update ← built "Failed to build step FAIL update" (fail_builder ids e)
    send svc ids.step_id update
    fail result

  -- What an error of the user's function leads to.
  unfoldable pub step_errored : {A : Type 0} → StepIds → RetryStrategy → ℕ → BoxError → Op S A
  unfolding retry_later give_up step_failed_boxed
  step_errored ids strategy attempt error =
      let decision = strategy error attempt in
      if decision.should_retry
      then retry_later ids error decision.delay
      else give_up ids error (step_failed_boxed ids.step_id attempt error)

  -- A step that was interrupted and may not run again in this attempt.
  unfoldable pub replay_interrupted : {A : Type 0} → StepIds → RetryStrategy → Operation → Op S A
  unfolding set_mode attempts_made interrupted give_up retry_later step_failed_msg
  replay_interrupted ids strategy op =
      let attempts = attempts_made (some op) in
      let error = interrupted ids in
      let decision = strategy error attempts in
      set_mode ExecutionMode.execution
      >> (if decision.should_retry
          then retry_later ids error decision.delay
          else give_up ids error (step_failed_msg ids.step_id attempts error.message))

unfoldable pub replay_failed : {S A : Type 0} → StepIds → Operation → Op S A
unfolding attempts_made step_failed_msg
replay_failed ids op =
    fail (step_failed_msg ids.step_id (attempts_made (some op)) (details_message op.step_details))

unfoldable pub replay_pending : {S A : Type 0} → Op S A
unfolding set_mode terminating terminate_for_retry
replay_pending = do set_mode ExecutionMode.execution; terminating terminate_for_retry; suspend

module _ {S T : Type 0} (svc : LambdaService S) (eager : Bool) (json : Json T) where
  abbrev pub return_replayed : Option T → Op S (Option T)
  return_replayed none = fail missing_output
  return_replayed (some v) = return (some v)

  -- A step that succeeded: its value is read back.
  unfoldable pub replay_succeeded : StepIds → Option (Serdes T) → Operation → Op S (Option T)
  unfolding safe_deserialize
  replay_succeeded ids serdes op = elim (details_payload op.step_details) [
    | none ↦ fail missing_output
    | some payload ↦
        safe_deserialize json serdes (some payload) ids.hashed_id ids.name >>= return_replayed
  ]

  unfoldable pub replay_started :
      StepSemantics → StepIds → RetryStrategy → Operation → Op S (Option T)
  replay_started StepSemantics.at_most_once_per_retry ids strategy op =
      replay_interrupted svc ids strategy op
  replay_started StepSemantics.at_least_once_per_retry ids strategy op = return none

  -- `none`: the step is to be executed.
  unfoldable pub handle_replay :
      StepSemantics
      → StepIds
      → RetryStrategy
      → Option (Serdes T)
      → Option Operation
      → Op S (Option T)
  unfolding replay_succeeded replay_failed replay_pending replay_interrupted replay_started
  handle_replay semantics ids strategy serdes none = return none
  handle_replay semantics ids strategy serdes (some op) = elim op.status [
    | OperationStatus.succeeded ↦ replay_succeeded ids serdes op
    | OperationStatus.failed ↦ replay_failed ids op
    | OperationStatus.pending ↦ replay_pending
    | OperationStatus.started ↦ replay_started semantics ids strategy op
    | _ ↦ return none
  ]

  abbrev pub send_start : StepSemantics → String → OperationUpdate → Op S (Unit {0})
  send_start StepSemantics.at_most_once_per_retry step_id update = send svc step_id update
  send_start StepSemantics.at_least_once_per_retry step_id update =
      send_queued svc eager step_id update

  -- The first phase: a START unless the operation has started.
  unfoldable pub start_step : StepSemantics → StepIds → Option Operation → Op S (Unit {0})
  unfolding step_builder built send send_queued
  start_step semantics ids op =
      if already_started op
      then return tt
      else built "Failed to build step START update" (step_builder ids OperationAction.start)
        >>= λ update. send_start semantics ids.step_id update

  -- The user's function, which may change the outside world.
  unfoldable pub call_step :
      (StepContext → S → Result BoxError T × S) → StepIds → ℕ → Op S (Result BoxError T)
  call_step step_fn ids attempt ctx s =
      let c : StepContext = record {
        step_name = ids.name;
        operation_id = ids.hashed_id;
        durable_execution_arn = ctx.durable_execution_arn;
        mode = ctx.mode;
        attempt = some attempt;
      } in
      let (result, s') = step_fn c s in return result ctx s'

  unfoldable pub step_succeeded : StepIds → Option (Serdes T) → T → Op S T
  unfolding safe_serialize succeed_builder built send
  step_succeeded ids serdes value = do
    payload ← safe_serialize json serdes (some value) ids.hashed_id ids.name
    update ← built "Failed to build step SUCCEED update" (succeed_builder ids payload)
    send svc ids.step_id update
    return value

  abbrev pub finish_step :
      StepIds → RetryStrategy → Option (Serdes T) → ℕ → Result BoxError T → Op S T
  finish_step ids strategy serdes attempt (ok value) = step_succeeded ids serdes value
  finish_step ids strategy serdes attempt (err error) = step_errored svc ids strategy attempt error

  unfoldable pub run_step_execution :
      (StepContext → S → Result BoxError T × S)
      → StepSemantics
      → StepIds
      → RetryStrategy
      → Option (Serdes T)
      → Option Operation
      → Op S T
  unfolding set_mode start_step call_step step_succeeded step_errored attempts_made
  run_step_execution step_fn semantics ids strategy serdes op = do
    set_mode ExecutionMode.execution
    start_step semantics ids op
    result ← call_step step_fn ids (attempts_made op)
    finish_step ids strategy serdes (attempts_made op) result

  abbrev pub unless_replayed : Op S T → Option T → Op S T
  unless_replayed run none = run
  unless_replayed run (some v) = return v

  -- `step`, for a hash of ids and the default retry strategy.
  unfoldable pub step :
      (String → String)
      → RetryStrategy
      → Option String
      → (StepContext → S → Result BoxError T × S)
      → StepConfig T
      → Op S T
  unfolding next_operation_id handle_replay run_step_execution
  step hash default_strategy name step_fn config ctx =
      let (step_id, counted) = next_operation_id name ctx in
      let ids : StepIds = record {
        step_id = step_id;
        hashed_id = hash step_id;
        name = name;
        parent_id = ctx.current_parent_id;
      } in
      let strategy = unwrap_or config.retry_strategy default_strategy in
      let op = replayed ids.hashed_id ctx in
      (handle_replay config.semantics ids strategy config.serdes op
          >>= unless_replayed
              (run_step_execution step_fn config.semantics ids strategy config.serdes op))
        counted
