-- ===== src/Errors.antt =====
-- src/error/types.rs. An error of the user's code or of a library is seen by its text and the text
-- of its cause, which is all that this code asks of it.
use lambda_durable_execution.Base.{
  ℕ, String, Option, none, some, Bool, true, false, not, [], ◌∷◌, concat, show,
}
use lambda_durable_execution.Duration.{Duration}
use lambda_durable_execution.Duration.Show.{show_duration}

pub record BoxError : Type 0 where
  pub message : String
  pub cause : Option String

pub data DurableError : Type 0 where
  step_failed : (name : String) (attempts : ℕ) (message : String) → Option BoxError → DurableError
  callback_timeout : (name : String) → Duration → DurableError
  callback_failed : (name message : String) → DurableError
  invocation_failed : (function message : String) → Option BoxError → DurableError
  checkpoint_failed : (message : String) → Bool → Option BoxError → DurableError
  serialization_failed : (operation message : String) → Option BoxError → DurableError
  replay_validation_failed : (expected actual : String) → DurableError
  child_context_failed : (name message : String) → Option BoxError → DurableError
  batch_operation_failed :
      (name message : String) (successful_count failed_count : ℕ) → DurableError
  wait_condition_exceeded : (name : String) → ℕ → DurableError
  invalid_configuration : (message : String) → DurableError
  context_validation_error : (message : String) → DurableError
  internal : (message : String) → DurableError
  aws_sdk : (message : String) → Option BoxError → DurableError

-- The texts of the `#[error(…)]` lines.
unfoldable pub display : DurableError → String
display (step_failed n a m _) =
    concat ("Step '" ∷ n ∷ "' failed after " ∷ show a ∷ " attempt(s): " ∷ m ∷ [])
display (callback_timeout n d) =
    concat ("Callback '" ∷ n ∷ "' timed out after " ∷ show_duration d ∷ [])
display (callback_failed n m) = concat ("Callback '" ∷ n ∷ "' failed: " ∷ m ∷ [])
display (invocation_failed f m _) = concat ("Lambda invocation of '" ∷ f ∷ "' failed: " ∷ m ∷ [])
display (checkpoint_failed m _ _) = concat ("Checkpoint failed: " ∷ m ∷ [])
display (serialization_failed o m _) =
    concat ("Serialization failed for operation '" ∷ o ∷ "': " ∷ m ∷ [])
display (replay_validation_failed e a) =
    concat ("Replay validation failed: expected " ∷ e ∷ ", got " ∷ a ∷ [])
display (child_context_failed n m _) = concat ("Child context '" ∷ n ∷ "' failed: " ∷ m ∷ [])
display (batch_operation_failed n m _ _) = concat ("Batch operation '" ∷ n ∷ "' failed: " ∷ m ∷ [])
display (wait_condition_exceeded n a) =
    concat ("Wait for condition '" ∷ n ∷ "' exceeded maximum attempts (" ∷ show a ∷ ")" ∷ [])
display (invalid_configuration m) = concat ("Invalid configuration: " ∷ m ∷ [])
display (context_validation_error m) = concat ("Context validation error: " ∷ m ∷ [])
display (internal m) = concat ("Internal SDK error: " ∷ m ∷ [])
display (aws_sdk m _) = concat ("AWS SDK error: " ∷ m ∷ [])

-- `Error::source`: the errors that have a cause.
abbrev source : DurableError → Option BoxError
source (step_failed _ _ _ e) = e
source (invocation_failed _ _ e) = e
source (checkpoint_failed _ _ e) = e
source (serialization_failed _ _ e) = e
source (child_context_failed _ _ e) = e
source (aws_sdk _ e) = e
source _ = none

abbrev message_of : Option BoxError → Option String
message_of none = none
message_of (some e) = some e.message

-- An error of this type as a boxed one.
unfoldable pub boxed : DurableError → BoxError
unfolding display
boxed e = record { message = display e; cause = message_of (source e) }

unfoldable pub step_failed_msg : String → ℕ → String → DurableError
step_failed_msg name attempts message = step_failed name attempts message none

unfoldable pub step_failed_boxed : String → ℕ → BoxError → DurableError
step_failed_boxed name attempts error = step_failed name attempts error.message (some error)

unfoldable pub is_recoverable : DurableError → Bool
is_recoverable (checkpoint_failed _ recoverable _) = recoverable
is_recoverable _ = false

unfoldable pub should_terminate_lambda : DurableError → Bool
should_terminate_lambda (checkpoint_failed _ recoverable _) = not recoverable
should_terminate_lambda (replay_validation_failed _ _) = true
should_terminate_lambda (context_validation_error _) = true
should_terminate_lambda (internal _) = true
should_terminate_lambda _ = false

pub record ErrorObject : Type 0 where
  pub error_type : String
  pub error_message : String
  pub details : Option String

unfoldable pub error_type_name : DurableError → String
error_type_name (step_failed _ _ _ _) = "StepFailed"
error_type_name (callback_timeout _ _) = "CallbackTimeout"
error_type_name (callback_failed _ _) = "CallbackFailed"
error_type_name (invocation_failed _ _ _) = "InvocationFailed"
error_type_name (checkpoint_failed _ _ _) = "CheckpointFailed"
error_type_name (serialization_failed _ _ _) = "SerializationFailed"
error_type_name (replay_validation_failed _ _) = "ReplayValidationFailed"
error_type_name (child_context_failed _ _ _) = "ChildContextFailed"
error_type_name (batch_operation_failed _ _ _ _) = "BatchOperationFailed"
error_type_name (wait_condition_exceeded _ _) = "WaitConditionExceeded"
error_type_name (invalid_configuration _) = "InvalidConfiguration"
error_type_name (context_validation_error _) = "ContextValidationError"
error_type_name (internal _) = "Internal"
error_type_name (aws_sdk _ _) = "AwsSdk"

unfoldable pub from_durable_error : DurableError → ErrorObject
unfolding error_type_name display
from_durable_error e = record {
  error_type = error_type_name e;
  error_message = display e;
  details = none;
}

unfoldable pub from_error : BoxError → ErrorObject
from_error e = record { error_type = "Error"; error_message = e.message; details = e.cause }
