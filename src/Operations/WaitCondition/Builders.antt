-- ===== src/Operations/WaitCondition/Builders.antt =====
-- The updates of a wait for a condition pass the checks of the builder.
use lambda_durable_execution.Duration.{Duration}
use lambda_durable_execution.Base.{String, refl, Option}
use lambda_durable_execution.Errors.{DurableError}
use lambda_durable_execution.Types.{OperationType, OperationAction}
use lambda_durable_execution.Types.Builder.{builder}
use lambda_durable_execution.Types.Builder.Checks.{build_complete}
use lambda_durable_execution.Operations.{update_builder}
use lambda_durable_execution.Operations.Step.Builders.{Builds, seconds_not_negative}
use lambda_durable_execution.Operations.WaitCondition.{
  Duration, condition_builder, condition_fail_builder, condition_succeed_builder,
  condition_retry_builder,
}

pub condition_builder-Builds :
    (hashed_id : String) (action : OperationAction) (parent_id name : Option String)
    → Builds (condition_builder hashed_id action parent_id name)
unfolding condition_builder update_builder builder
condition_builder-Builds hashed_id action parent_id name =
    build_complete (condition_builder hashed_id action parent_id name) hashed_id OperationType.step
      action refl refl refl
      (record { delay = refl; wait = refl; timeout = refl; heartbeat = refl; function = refl })

pub condition_fail_builder-Builds :
    (hashed_id : String) (e : DurableError) → Builds (condition_fail_builder hashed_id e)
unfolding condition_fail_builder condition_builder update_builder builder
condition_fail_builder-Builds hashed_id e =
    build_complete (condition_fail_builder hashed_id e) hashed_id OperationType.step
      OperationAction.fail refl refl refl
      (record { delay = refl; wait = refl; timeout = refl; heartbeat = refl; function = refl })

pub condition_succeed_builder-Builds :
    (hashed_id : String) (payload : Option String)
    → Builds (condition_succeed_builder hashed_id payload)
unfolding condition_succeed_builder condition_builder update_builder builder
condition_succeed_builder-Builds hashed_id payload =
    build_complete (condition_succeed_builder hashed_id payload) hashed_id OperationType.step
      OperationAction.succeed refl refl refl
      (record { delay = refl; wait = refl; timeout = refl; heartbeat = refl; function = refl })

pub condition_retry_builder-Builds :
    (hashed_id : String) (delay : Duration) (payload : Option String)
    → Builds (condition_retry_builder hashed_id delay payload)
unfolding condition_retry_builder condition_builder update_builder builder
condition_retry_builder-Builds hashed_id delay payload =
    build_complete (condition_retry_builder hashed_id delay payload) hashed_id OperationType.step
      OperationAction.retry refl refl refl
      (record {
        delay = seconds_not_negative delay;
        wait = refl;
        timeout = refl;
        heartbeat = refl;
        function = refl;
      })
