-- ===== src/Types.antt =====
-- The operations and updates of src/types/invocation.rs and the replies of
-- src/types/lambda_service.rs.
pub mod Builder
use lambda_durable_execution.Base.{ℕ, ◌==◌, String, Option, List, Bool}
use lambda_durable_execution.Base.Int.{ℤ}
use lambda_durable_execution.Errors.{ErrorObject}

pub data FlexibleTimestamp : Type 0 where
  string : String → FlexibleTimestamp
  millis : ℤ → FlexibleTimestamp

pub data InvocationStatus : Type 0 where
  succeeded failed pending : InvocationStatus

pub data OperationType : Type 0 where
  step wait callback chained_invoke context execution : OperationType

abbrev pub discriminant : OperationType → ℕ
discriminant OperationType.step = 0
discriminant OperationType.wait = 1
discriminant OperationType.callback = 2
discriminant OperationType.chained_invoke = 3
discriminant OperationType.context = 4
discriminant OperationType.execution = 5

-- The derived `==`.
abbrev pub same_type : OperationType → OperationType → Bool
same_type a b = discriminant a == discriminant b

pub data OperationStatus : Type 0 where
  ready started pending succeeded failed unknown : OperationStatus

pub data OperationAction : Type 0 where
  start retry succeed fail cancel : OperationAction

pub record StepDetails : Type 0 where
  pub attempt : Option ℕ
  pub next_attempt_timestamp : Option FlexibleTimestamp
  pub result : Option String
  pub error : Option ErrorObject

pub record CallbackDetails : Type 0 where
  pub callback_id : Option String
  pub result : Option String
  pub error : Option ErrorObject

pub record WaitDetails : Type 0 where
  pub scheduled_end_timestamp : Option FlexibleTimestamp

pub record ExecutionDetails : Type 0 where
  pub input_payload : Option String
  pub output_payload : Option String

pub record ContextDetails : Type 0 where
  pub replay_children : Option Bool
  pub result : Option String
  pub error : Option ErrorObject

pub record ChainedInvokeDetails : Type 0 where
  pub result : Option String
  pub error : Option ErrorObject

pub record Operation : Type 0 where
  pub id : String
  pub parent_id : Option String
  pub name : Option String
  pub operation_type : OperationType
  pub sub_type : Option String
  pub status : OperationStatus
  pub step_details : Option StepDetails
  pub callback_details : Option CallbackDetails
  pub wait_details : Option WaitDetails
  pub execution_details : Option ExecutionDetails
  pub context_details : Option ContextDetails
  pub chained_invoke_details : Option ChainedInvokeDetails

pub record InitialExecutionState : Type 0 where
  pub operations : List Operation
  pub next_marker : Option String

pub record DurableExecutionInvocationInput : Type 0 where
  pub durable_execution_arn : String
  pub checkpoint_token : String
  pub initial_execution_state : InitialExecutionState

pub record DurableExecutionInvocationOutput : Type 0 where
  pub status : InvocationStatus
  pub result : Option String
  pub error : Option ErrorObject

pub record ContextUpdateOptions : Type 0 where
  pub replay_children : Option Bool

pub record StepUpdateOptions : Type 0 where
  pub next_attempt_delay_seconds : Option ℤ

pub record WaitUpdateOptions : Type 0 where
  pub wait_seconds : Option ℤ

pub record CallbackUpdateOptions : Type 0 where
  pub timeout_seconds : Option ℤ
  pub heartbeat_timeout_seconds : Option ℤ

pub record ChainedInvokeUpdateOptions : Type 0 where
  pub function_name : String
  pub tenant_id : Option String

pub record OperationUpdate : Type 0 where
  pub id : String
  pub parent_id : Option String
  pub name : Option String
  pub operation_type : OperationType
  pub sub_type : Option String
  pub action : OperationAction
  pub payload : Option String
  pub error : Option ErrorObject
  pub context_options : Option ContextUpdateOptions
  pub step_options : Option StepUpdateOptions
  pub wait_options : Option WaitUpdateOptions
  pub callback_options : Option CallbackUpdateOptions
  pub chained_invoke_options : Option ChainedInvokeUpdateOptions

pub record ExecutionState : Type 0 where
  pub operations : List Operation
  pub next_marker : Option String

pub record CheckpointResponse : Type 0 where
  pub checkpoint_token : Option String
  pub new_execution_state : Option ExecutionState

pub record GetStateResponse : Type 0 where
  pub operations : List Operation
  pub next_marker : Option String
