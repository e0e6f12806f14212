-- ===== src/Tests/RuntimeTests.antt =====
-- Invocations, the end of the queue and the serialization of batches.
use lambda_durable_execution.Base.{
  false, ℕ, String, ◌≡◌, refl, inr, Bool, true, none, some, List, [], ◌∷◌, digits, decimal, show,
}
use lambda_durable_execution.Base.Result.{ok}
use lambda_durable_execution.Base.Dict
use lambda_durable_execution.Duration.{of_seconds, is_zero}
use lambda_durable_execution.Errors.{DurableError}
use lambda_durable_execution.Types.{
  DurableExecutionInvocationInput, Operation, OperationType, OperationStatus,
}
use lambda_durable_execution.Termination.{TerminationReason, plain}
use lambda_durable_execution.Checkpoint.{QueuedCheckpoint, Worker, CheckpointManager, new_manager}
use lambda_durable_execution.Checkpoint.Queue.{
  store_operations, acknowledged, blocked, finish_processing,
}
use lambda_durable_execution.Checkpoint.Queue.Wakeups.{AllWoken}
use lambda_durable_execution.Checkpoint.Queue.Completion.{
  wait_for_queue_completion, wait_for_queue_completion-Drained, wait_for_queue_completion-Lost,
}
use lambda_durable_execution.Context.{
  load_pages, ExecutionContext, new_context, load_context, next_operation_id, operation_id,
  non_empty,
}
use lambda_durable_execution.Context.Run.{Op, ◌>>=◌, return, fail, suspend, Json}
use lambda_durable_execution.Batch.{BatchItem, BatchItemStatus, BatchResult, BatchCompletionReason}
use lambda_durable_execution.Batch.Payload.{BatchResultPayload, batch_payload}
use lambda_durable_execution.Operations.Wait.{wait}
use lambda_durable_execution.Runtime.{
  pending_output, run_handler, execute_durable_handler, input_payload,
}
use lambda_durable_execution.Runtime.Outputs.{
  RepliesFor, RepliesWith, Replies, Unsucceeded, run_handler-Suspended, run_handler-Unsucceeded,
}
use lambda_durable_execution.Runtime.Waits.{execute_durable_handler-Waits}
use lambda_durable_execution.Tests.CheckpointTests.{accepting, start_a}
use lambda_durable_execution.Tests.OperationTests.{json, recorded, context, input, hash}

abbrev fresh : ExecutionContext
fresh = context []

abbrev working : CheckpointManager
working = record fresh.checkpoint_manager { is_processing = true; worker = Worker.looping }

wait_for_queue_completion-Drained_example :
    (m' : CheckpointManager) × (s' : ℕ) × (wait_for_queue_completion accepting working 0
      ≡ acknowledged m' s')
    × (m'.queue ≡ [])
    × (m'.is_processing ≡ false)
    × AllWoken m' working.queue
wait_for_queue_completion-Drained_example =
    wait_for_queue_completion-Drained accepting working 0 refl tt

-- An item that came when the worker had left its loop.
abbrev late : QueuedCheckpoint
late = record { step_id = "a_0"; update = start_a; notify = 0 }

abbrev lost : CheckpointManager
lost = record fresh.checkpoint_manager {
  queue = late ∷ [];
  is_processing = true;
  worker = Worker.leaving;
}

wait_for_queue_completion-Lost_example :
    wait_for_queue_completion accepting lost 0
    ≡ blocked (record (finish_processing lost) { worker = Worker.left }) 0
wait_for_queue_completion-Lost_example =
    wait_for_queue_completion-Lost accepting lost 0 late [] refl refl

-- A handler that asks for a retry and suspends.
abbrev terminated_context : ExecutionContext
terminated_context = record fresh {
  checkpoint_manager = record fresh.checkpoint_manager {
    termination_manager = record fresh.checkpoint_manager.termination_manager {
      terminated = true;
      signal = some (plain TerminationReason.retry_scheduled);
    };
  };
}

abbrev suspending : Bool → Op ℕ Bool
suspending event = suspend

run_handler-Suspended_example :
    RepliesFor TerminationReason.retry_scheduled none
      (run_handler accepting json json hash "uuid" true suspending true terminated_context 0)
unfolding new_context new_manager plain
run_handler-Suspended_example =
    run_handler-Suspended accepting json json hash "uuid" true suspending true terminated_context
      terminated_context 0 0 (plain TerminationReason.retry_scheduled) refl refl (inr (refl, refl))

abbrev returning : Bool → Op ℕ Bool
returning event = return event

abbrev failing : Bool → Op ℕ Bool
failing event = fail (DurableError.internal "oops")

run_handler-Unsucceeded_example :
    Replies Unsucceeded (run_handler accepting json json hash "uuid" true failing true fresh 0)
run_handler-Unsucceeded_example =
    run_handler-Unsucceeded accepting json json hash "uuid" true failing true fresh 0 refl

-- An execution that has been started and waits.
abbrev execution_record : Operation
execution_record = record (recorded "execution" OperationStatus.started none) {
  operation_type = OperationType.execution;
  execution_details = some (record { input_payload = some "true"; output_payload = none });
}

abbrev wait_record : Operation
wait_record = record (recorded "op_0" OperationStatus.started none) {
  operation_type = OperationType.wait;
}

abbrev waiting_input : DurableExecutionInvocationInput
waiting_input = record input {
  initial_execution_state = record {
    operations = execution_record ∷ wait_record ∷ [];
    next_marker = none;
  };
}

abbrev stored : List (String × Operation)
stored = ("execution", execution_record) ∷ ("op_0", wait_record) ∷ []

abbrev rest : Bool → Unit {0} → Op ℕ Bool
rest event _ = return event

execute_durable_handler-Waits_example : RepliesWith (ok pending_output) (
    execute_durable_handler accepting json json hash "uuid" true waiting_input
      (λ e. wait accepting hash none (of_seconds 5) >>= rest e)
      0)
unfolding load_context load_pages store_operations non_empty new_context next_operation_id
    operation_id show decimal digits Dict.get Dict.insert input_payload is_zero of_seconds
execute_durable_handler-Waits_example =
    execute_durable_handler-Waits accepting json json hash "uuid" true waiting_input stored "true"
      true none (of_seconds 5) rest 0 0 wait_record refl refl refl refl refl refl

abbrev failed_item : BatchItem Bool
failed_item = record {
  index = 1;
  status = BatchItemStatus.failed;
  result = none;
  error = some (DurableError.internal "boom");
}

abbrev done_item : BatchItem Bool
done_item = record {
  index = 0;
  status = BatchItemStatus.succeeded;
  result = some true;
  error = none;
}

abbrev batch : BatchResult Bool
batch = record {
  all = failed_item ∷ done_item ∷ [];
  completion_reason = BatchCompletionReason.failure_tolerance_exceeded;
}

-- A JSON that knows one text.
abbrev one_text : Json (BatchResultPayload Bool)
one_text = record { to_string = λ p. ok "{}"; from_str = λ t. ok (batch_payload batch) }
