-- ===== src/Checkpoint/Lifecycle.antt =====
-- src/checkpoint/manager/lifecycle.rs.
pub mod Awaited
use lambda_durable_execution.Base.{String, Bool, true, false, Option, none, some, if◌then◌else◌}
use lambda_durable_execution.Base.Result.{◌>>=◌, ◌>>◌}
use lambda_durable_execution.Base.Dict
use lambda_durable_execution.Types.{
  Operation, OperationType, OperationStatus, OperationAction, OperationUpdate,
}
use lambda_durable_execution.Checkpoint.{OperationLifecycle, OperationInfo, CheckpointManager}

abbrev pub is_finished : OperationStatus → Bool
is_finished OperationStatus.succeeded = true
is_finished OperationStatus.failed = true
is_finished _ = false

abbrev finished_operation : Option Operation → Bool
finished_operation none = false
finished_operation (some op) = is_finished op.status

abbrev finished_parent : CheckpointManager → Option String → Bool
finished_parent m none = false
finished_parent m (some parent) = finished_operation (Dict.get parent m.step_data)

-- Only the direct parent is looked up.
unfoldable pub has_finished_ancestor : CheckpointManager → OperationUpdate → Bool
has_finished_ancestor m u = finished_parent m u.parent_id

-- Waits and callbacks are idle once started.
abbrev started_lifecycle : OperationType → Bool → OperationLifecycle
started_lifecycle OperationType.wait awaited =
    if awaited then OperationLifecycle.idle_awaited else OperationLifecycle.idle_not_awaited
started_lifecycle OperationType.callback awaited =
    if awaited then OperationLifecycle.idle_awaited else OperationLifecycle.idle_not_awaited
started_lifecycle _ awaited = OperationLifecycle.executing

unfoldable pub lifecycle_of : OperationAction → OperationType → Bool → OperationLifecycle
lifecycle_of OperationAction.start t awaited = started_lifecycle t awaited
lifecycle_of OperationAction.retry t awaited = OperationLifecycle.retry_waiting
lifecycle_of OperationAction.succeed t awaited = OperationLifecycle.completed
lifecycle_of OperationAction.fail t awaited = OperationLifecycle.completed
lifecycle_of OperationAction.cancel t awaited = OperationLifecycle.completed

abbrev pub awaited_of : Option OperationInfo → Bool
awaited_of none = false
awaited_of (some info) = info.awaited

unfoldable pub update_operation_lifecycle : CheckpointManager → OperationUpdate → CheckpointManager
unfolding lifecycle_of
update_operation_lifecycle m u =
    let awaited = awaited_of (Dict.get u.id m.operations) in
    let info : OperationInfo = record {
      id = u.id;
      parent_id = u.parent_id;
      operation_type = u.operation_type;
      lifecycle = lifecycle_of u.action u.operation_type awaited;
      awaited = awaited;
    } in
    record m { operations = Dict.insert u.id info m.operations }

abbrev await_lifecycle : OperationLifecycle → OperationLifecycle
await_lifecycle OperationLifecycle.idle_not_awaited = OperationLifecycle.idle_awaited
await_lifecycle l = l

-- An id that is not tracked changes nothing.
unfoldable pub mark_awaited : CheckpointManager → String → CheckpointManager
mark_awaited m id = elim (Dict.get id m.operations) [
  | none ↦ m
  | some info ↦ record m {
    operations =
        Dict.insert id (record info { awaited = true; lifecycle = await_lifecycle info.lifecycle })
          m.operations;
  }
]
