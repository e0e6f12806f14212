-- ===== src/Operations/Wait.antt =====
-- src/context/durable_context/wait.rs and wait/execute.rs.
pub mod Suspends
use lambda_durable_execution.Base.{String, Option, none, some, if◌then◌else◌}
use lambda_durable_execution.Duration.{Duration, is_zero, to_seconds_i32_saturating}
use lambda_durable_execution.Errors.{DurableError}
use lambda_durable_execution.Types.{Operation, OperationType, OperationStatus, OperationAction}
use lambda_durable_execution.Types.Builder.{OperationUpdateBuilder}
use lambda_durable_execution.Termination.{terminate_for_wait}
use lambda_durable_execution.Checkpoint.{LambdaService}
use lambda_durable_execution.Checkpoint.Lifecycle.{mark_awaited}
use lambda_durable_execution.Context.{ExecutionMode, next_operation_id}
use lambda_durable_execution.Context.Run.{
  Op, ◌>>=◌, ◌>>◌, return, fail, suspend, set_mode, terminating, on_manager, built, send,
}
use lambda_durable_execution.Operations.{update_builder, replayed}

unfoldable pub wait_builder :
    String → Option String → Option String → Duration → OperationUpdateBuilder
unfolding update_builder to_seconds_i32_saturating
wait_builder hashed_id parent_id name d =
    record (update_builder hashed_id OperationType.wait "Wait" OperationAction.start parent_id
      name) { wait_options = some (record { wait_seconds = some (to_seconds_i32_saturating d) }) }

abbrev pub wait_failed : DurableError
wait_failed = DurableError.internal "Wait failed in replay"

abbrev pub wait_failed_now : DurableError
wait_failed_now = DurableError.internal "Wait failed immediately after checkpoint"

module _ {S : Type 0} where
  unfoldable pub suspend_wait : Op S (Unit {0})
  unfolding terminating terminate_for_wait
  suspend_wait = do terminating terminate_for_wait; suspend

  -- A wait that exists already.
  unfoldable pub replay_wait : OperationStatus → Op S (Unit {0})
  unfolding set_mode suspend_wait
  replay_wait OperationStatus.succeeded = return tt
  replay_wait OperationStatus.failed = fail wait_failed
  replay_wait _ = do set_mode ExecutionMode.execution; suspend_wait

  -- The second look at the step data.
  unfoldable pub recheck_wait : Option Operation → Op S (Unit {0}) → Op S (Unit {0})
  recheck_wait none next = next
  recheck_wait (some op) next = elim op.status [
    | OperationStatus.succeeded ↦ return tt
    | OperationStatus.failed ↦ fail wait_failed_now
    | _ ↦ next
  ]

  module _ (svc : LambdaService S) where
    unfoldable pub start_wait : Option String → Duration → String → String → Op S (Unit {0})
    unfolding wait_builder built send recheck_wait on_manager mark_awaited suspend_wait
    start_wait name d step_id hashed_id ctx =
        (do
          update ←
              built "Failed to build wait START update"
                (wait_builder hashed_id ctx.current_parent_id name d)
          send svc step_id update
          λ ctx'.
              recheck_wait (replayed hashed_id ctx')
                (do on_manager (λ m. mark_awaited m hashed_id); suspend_wait) ctx')
          ctx

    abbrev replay_or_start : Option Operation → Op S (Unit {0}) → Op S (Unit {0})
    replay_or_start none start = start
    replay_or_start (some op) start = replay_wait op.status

    unfoldable pub run_wait : Option String → Duration → String → String → Op S (Unit {0})
    unfolding start_wait replay_wait is_zero
    run_wait name d step_id hashed_id ctx =
        (if is_zero d
            then return tt
            else replay_or_start (replayed hashed_id ctx) (start_wait name d step_id hashed_id))
          ctx

    -- `wait`.
    unfoldable pub wait : (String → String) → Option String → Duration → Op S (Unit {0})
    unfolding run_wait next_operation_id
    wait hash name d ctx =
        let (step_id, counted) = next_operation_id name ctx in
        run_wait name d step_id (hash step_id) counted
