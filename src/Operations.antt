-- ===== src/Operations.antt =====
-- The operations of src/context/durable_context/. Code outside the repository (the service, JSON,
-- SHA-256) and the user's functions are parameters.
pub mod Settles
pub mod Step
pub mod Wait
pub mod Child
pub mod Callback
pub mod Invoke
pub mod WaitCondition
pub mod Records
pub mod MapReplay
pub mod MapRun
use lambda_durable_execution.Base.{String, Option, some}
use lambda_durable_execution.Base.Result.{◌>>=◌, ◌>>◌}
use lambda_durable_execution.Base.Dict
use lambda_durable_execution.Types.{Operation, OperationType, OperationAction}
use lambda_durable_execution.Types.Builder.{OperationUpdateBuilder, builder}
use lambda_durable_execution.Context.{ExecutionContext}

-- What every update is built from. `parent_id` and `name` are set where they are known.
unfoldable pub update_builder :
    String
    → OperationType
    → String
    → OperationAction
    → Option String
    → Option String
    → OperationUpdateBuilder
unfolding builder
update_builder hashed_id t sub_type action parent_id name = record builder {
  id = some hashed_id;
  operation_type = some t;
  sub_type = some sub_type;
  action = some action;
  parent_id = parent_id;
  name = name;
}

-- `ExecutionContext::get_step_data`.
abbrev pub replayed : String → ExecutionContext → Option Operation
replayed hashed_id ctx = Dict.get hashed_id ctx.step_data
