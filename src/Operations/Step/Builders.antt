-- ===== src/Operations/Step/Builders.antt =====
-- The updates of a step pass the checks of the builder.
use lambda_durable_execution.Base.{String, ◌≡◌, refl, false, Option, arith, unwrap_or}
use lambda_durable_execution.Base.Int.{is_neg}
use lambda_durable_execution.Base.Result.{ok}
use lambda_durable_execution.Duration.{Duration, of_seconds, to_seconds_i32_saturating}
use lambda_durable_execution.Errors.{BoxError}
use lambda_durable_execution.Types.{OperationType, OperationAction, OperationUpdate}
use lambda_durable_execution.Types.Builder.{OperationUpdateBuilder, builder, build}
use lambda_durable_execution.Operations.{update_builder}
use lambda_durable_execution.Types.Builder.Checks.{build_complete}
use lambda_durable_execution.Operations.Step.{
  StepIds, step_builder, fail_builder, retry_builder, succeed_builder,
}

-- The update that a builder makes.
abbrev pub Builds : OperationUpdateBuilder → Type 0
Builds b = (u : OperationUpdate) × (build b ≡ ok u)

pub seconds_not_negative : (d : Duration) → is_neg (to_seconds_i32_saturating d) ≡ false
unfolding to_seconds_i32_saturating
seconds_not_negative d = ground arith

pub step_builder-Builds :
    (ids : StepIds) (action : OperationAction) → Builds (step_builder ids action)
unfolding step_builder update_builder builder
step_builder-Builds ids action =
    build_complete (step_builder ids action) ids.hashed_id OperationType.step action refl refl refl
      (record { delay = refl; wait = refl; timeout = refl; heartbeat = refl; function = refl })

pub retry_builder-Builds :
    (ids : StepIds) (e : BoxError) (delay : Option Duration) → Builds (retry_builder ids e delay)
unfolding retry_builder step_builder update_builder builder
retry_builder-Builds ids e delay =
    build_complete (retry_builder ids e delay) ids.hashed_id OperationType.step
      OperationAction.retry refl refl refl
      (record {
        delay = seconds_not_negative (unwrap_or delay (of_seconds 1));
        wait = refl;
        timeout = refl;
        heartbeat = refl;
        function = refl;
      })

pub fail_builder-Builds : (ids : StepIds) (e : BoxError) → Builds (fail_builder ids e)
unfolding fail_builder step_builder update_builder builder
fail_builder-Builds ids e =
    build_complete (fail_builder ids e) ids.hashed_id OperationType.step OperationAction.fail refl
      refl refl
      (record { delay = refl; wait = refl; timeout = refl; heartbeat = refl; function = refl })

pub succeed_builder-Builds :
    (ids : StepIds) (payload : Option String) → Builds (succeed_builder ids payload)
unfolding succeed_builder step_builder update_builder builder
succeed_builder-Builds ids payload =
    build_complete (succeed_builder ids payload) ids.hashed_id OperationType.step
      OperationAction.succeed refl refl refl
      (record { delay = refl; wait = refl; timeout = refl; heartbeat = refl; function = refl })
