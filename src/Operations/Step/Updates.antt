-- ===== src/Operations/Step/Updates.antt =====
-- What src/context/durable_context/step.rs and its modules are configured with, and the updates that
-- they send.
use lambda_durable_execution.Base.{
  ℕ, ◌+◌, ◌%◌, ◌^◌, String, Bool, true, false, Option, none, some, [], ◌∷◌, unwrap_or, concat,
}
use lambda_durable_execution.Duration.{Duration, of_seconds, to_seconds_i32_saturating}
use lambda_durable_execution.Errors.{BoxError, DurableError, from_error}
use lambda_durable_execution.Types.{
  Operation, OperationType, OperationStatus, OperationAction, StepDetails,
}
use lambda_durable_execution.Types.Builder.{OperationUpdateBuilder}
use lambda_durable_execution.Retry.{RetryStrategy}
use lambda_durable_execution.Context.{ExecutionMode}
use lambda_durable_execution.Context.Run.{Serdes}
use lambda_durable_execution.Operations.{update_builder}

pub data StepSemantics : Type 0 where
  at_least_once_per_retry at_most_once_per_retry : StepSemantics

pub record StepConfig (T : Type 0) : Type 0 where
  pub retry_strategy : Option RetryStrategy
  pub semantics : StepSemantics
  pub serdes : Option (Serdes T)

pub record StepContext : Type 0 where
  pub step_name : Option String
  pub operation_id : String
  pub durable_execution_arn : String
  pub mode : ExecutionMode
  pub attempt : Option ℕ

-- What identifies one step: the ids, its name and the id of its parent.
pub record StepIds : Type 0 where
  pub step_id : String
  pub hashed_id : String
  pub name : Option String
  pub parent_id : Option String

abbrev pub details_attempt : Option StepDetails → ℕ
details_attempt none = 0
details_attempt (some d) = unwrap_or d.attempt 0

abbrev pub operation_attempt : Option Operation → ℕ
operation_attempt none = 0
operation_attempt (some op) = details_attempt op.step_details

-- The attempt that the operation records, and one more; a `u32`.
unfoldable pub attempts_made : Option Operation → ℕ
attempts_made op = (operation_attempt op + 1) % 2 ^ 32

abbrev pub details_payload : Option StepDetails → Option String
details_payload none = none
details_payload (some d) = d.result

abbrev pub details_message : Option StepDetails → String
details_message none = "Replayed failure"
details_message (some d) = elim d.error [ none ↦ "Replayed failure" | some e ↦ e.error_message ]

-- `StepInterruptedError`.
unfoldable pub interrupted : StepIds → BoxError
interrupted ids = record {
  message = elim ids.name [
    | none ↦ concat ("Step interrupted: " ∷ ids.step_id ∷ [])
    | some n ↦ concat ("Step interrupted: " ∷ n ∷ " (" ∷ ids.step_id ∷ ")" ∷ [])
  ];
  cause = none;
}

-- An update of a step.
unfoldable pub step_builder : StepIds → OperationAction → OperationUpdateBuilder
unfolding update_builder
step_builder ids action =
    update_builder ids.hashed_id OperationType.step "Step" action ids.parent_id ids.name

unfoldable pub fail_builder : StepIds → BoxError → OperationUpdateBuilder
unfolding step_builder from_error
fail_builder ids e = record (step_builder ids OperationAction.fail) { error = some (from_error e) }

unfoldable pub retry_builder : StepIds → BoxError → Option Duration → OperationUpdateBuilder
unfolding step_builder from_error of_seconds to_seconds_i32_saturating
retry_builder ids e delay = record (step_builder ids OperationAction.retry) {
  error = some (from_error e);
  step_options = some (record {
    next_attempt_delay_seconds = some (to_seconds_i32_saturating (unwrap_or delay (of_seconds 1)));
  });
}

unfoldable pub succeed_builder : StepIds → Option String → OperationUpdateBuilder
unfolding step_builder
succeed_builder ids payload = record (step_builder ids OperationAction.succeed) {
  payload = payload;
}

abbrev pub missing_output : DurableError
missing_output = DurableError.internal "Missing step output in replay"

-- `matches!(…, Some(Started | Ready))`.
abbrev pub already_started : Option Operation → Bool
already_started none = false
already_started (some op) = elim op.status [
  | OperationStatus.started ↦ true
  | OperationStatus.ready ↦ true
  | _ ↦ false
]
