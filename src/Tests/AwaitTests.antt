-- ===== src/Tests/AwaitTests.antt =====
-- Callbacks, invocations, waits for a condition and replayed maps.
use lambda_durable_execution.Operations.Step.{StepSemantics}
use lambda_durable_execution.Base.{
  concat, inr, ℕ, ◌+◌, ◌≤◌, String, ◌≡◌, refl, Bool, true, false, Option, none, some, [], ◌∷◌,
  length, arith, decimal, digits, show,
}
use lambda_durable_execution.Base.Result.{Result, ok}
use lambda_durable_execution.Base.Dict
use lambda_durable_execution.Operations.{replayed}
use lambda_durable_execution.Duration.{of_seconds}
use lambda_durable_execution.Errors.{BoxError, DurableError}
use lambda_durable_execution.Types.{Operation, OperationType, OperationStatus}
use lambda_durable_execution.Retry.{never}
use lambda_durable_execution.Batch.{
  BatchItemStatus, BatchResult, BatchCompletionReason, Percent, CompletionConfig,
}
use lambda_durable_execution.Context.{
  ExecutionContext, new_context, next_operation_id, operation_id,
}
use lambda_durable_execution.Context.Run.{Op, return, done, Json}
use lambda_durable_execution.Operations.Settles.{Settles, Anything, Nothing}
use lambda_durable_execution.Operations.Step.{StepSemantics, StepContext}
use lambda_durable_execution.Operations.Records.{KeepsRecords}
use lambda_durable_execution.Operations.Records.Steps.{step-KeepsRecords}
use lambda_durable_execution.Operations.Step.{step}
use lambda_durable_execution.Operations.Callback.{
  CallbackConfig, CallbackHandle, create_callback, run_wait_for_callback,
}
use lambda_durable_execution.Operations.Callback.Unanswered.{run_wait_for_callback-Unanswered}
use lambda_durable_execution.Operations.Callback.Answered.{
  IsIdOf, create_callback-Settles, run_wait_for_callback-Replays,
}
use lambda_durable_execution.Operations.Invoke.{InvokeConfig, invoke_with_config}
use lambda_durable_execution.Operations.Invoke.Suspends.{
  Blank, Suspends, invoke_with_config-Unrecorded, invoke_with_config-Suspends,
}
use lambda_durable_execution.Operations.WaitCondition.{stop, continue_after, WaitConditionConfig}
use lambda_durable_execution.Operations.MapReplay.{
  PayloadFields, return_batch, reconstruct_map_from_children,
}
use lambda_durable_execution.Operations.MapReplay.Indices.{
  Leaves, CountsBatch, return_batch-operation_counter, reconstruct_map_from_children-length,
}
use lambda_durable_execution.Tests.CheckpointTests.{accepting}
use lambda_durable_execution.Tests.OperationTests.{json, recorded, context, hash}

abbrev json_string : Json String
json_string = record { to_string = λ t. ok t; from_str = λ t. ok t }

abbrev json_unit : Json (Unit {0})
json_unit = record { to_string = λ _. ok "null"; from_str = λ _. ok tt }

abbrev submitter : String → StepContext → ℕ → Result BoxError (Unit {0}) × ℕ
submitter id c n = (ok tt, n + 1)

abbrev no_config : CallbackConfig Bool
no_config = record {
  timeout = none;
  heartbeat_timeout = none;
  retry_strategy = none;
  serdes = none;
}

abbrev fresh : ExecutionContext
fresh = context []

abbrev counting : StepContext → ℕ → Result BoxError Bool × ℕ
counting c n = (ok true, n + 1)

step-KeepsRecords_example : KeepsRecords (
    step accepting true json hash never none counting (record {
      retry_strategy = none;
      semantics = StepSemantics.at_least_once_per_retry;
      serdes = none;
    }))
step-KeepsRecords_example = step-KeepsRecords accepting true json hash never none counting (record {
  retry_strategy = none;
  semantics = StepSemantics.at_least_once_per_retry;
  serdes = none;
})

run_wait_for_callback-Unanswered_example : Settles Nothing Anything (
    run_wait_for_callback accepting true json json_string json_unit hash never none submitter
      no_config fresh 0)
unfolding Dict.get new_context
run_wait_for_callback-Unanswered_example =
    run_wait_for_callback-Unanswered accepting true json json_string json_unit hash never none
      submitter no_config fresh 0 refl refl

-- An operation of a child context that has a payload.
abbrev child_record : Operation
child_record = record (recorded "op_0" OperationStatus.succeeded (some "true")) {
  operation_type = OperationType.context;
}

abbrev answered : ExecutionContext
answered = context (("op_0", child_record) ∷ [])

run_wait_for_callback-Replays_example :
    run_wait_for_callback accepting true json json_string json_unit hash never none submitter
      no_config answered 7
    ≡ done true (next_operation_id none answered).1 7
unfolding next_operation_id new_context operation_id show decimal digits Dict.get
run_wait_for_callback-Replays_example =
    run_wait_for_callback-Replays accepting true json json_string json_unit hash never none
      submitter no_config answered 7 child_record "true" "true" true refl refl refl refl refl refl
      refl

abbrev callback_record : Operation
callback_record = record (recorded "cb" OperationStatus.succeeded none) {
  operation_type = OperationType.callback;
  callback_details =
      some (record { callback_id = some "service-id"; result = some "true"; error = none });
}

abbrev handle : CallbackHandle Bool
handle = record { callback_id = "service-id"; step_id = "cb"; hashed_id = "cb"; serdes = none }

abbrev with_callback : ExecutionContext
with_callback = context (("cb", callback_record) ∷ [])

create_callback-Settles_example :
    Settles
      (λ h.
        IsIdOf
          (concat ("arn" ∷ ":" ∷ hash (next_operation_id none fresh).0 ∷ []))
          (replayed (hash (next_operation_id none fresh).0) fresh)
          h.callback_id)
      Nothing
      (create_callback accepting hash none (some no_config) fresh 0)
unfolding next_operation_id new_context
create_callback-Settles_example =
    create_callback-Settles accepting hash none (some no_config) fresh 0

abbrev invoke_config : InvokeConfig Bool Bool
invoke_config = record { payload_serdes = none; result_serdes = none; tenant_id = none }

invoke_with_config-Unrecorded_example :
    Settles Nothing
      (Blank "worker")
      (invoke_with_config accepting json json hash none "worker" (some true) invoke_config fresh 0)
unfolding Dict.get new_context
invoke_with_config-Unrecorded_example =
    invoke_with_config-Unrecorded accepting json json hash none "worker" (some true) invoke_config
      fresh 0 refl

abbrev started_record : Operation
started_record = recorded "op_0" OperationStatus.started none

abbrev started : ExecutionContext
started = context (("op_0", started_record) ∷ [])

invoke_with_config-Suspends_example :
    Suspends (
      invoke_with_config accepting json json hash none "worker" (some true) invoke_config started 0)
unfolding next_operation_id new_context operation_id show decimal digits Dict.get
invoke_with_config-Suspends_example =
    invoke_with_config-Suspends accepting json json hash none "worker" (some true) invoke_config
      started 0 started_record refl refl

abbrev condition_config : WaitConditionConfig Bool
condition_config = record {
  initial_state = false;
  wait_strategy = λ v attempt. elim v [ true ↦ stop | false ↦ continue_after (of_seconds 5) ];
  max_attempts = some 3;
  serdes = none;
}

abbrev check : Bool → StepContext → ℕ → Result DurableError Bool × ℕ
check v c n = (ok true, n + 1)

abbrev no_fields : String → Option PayloadFields
no_fields text = none

abbrev one_item : BatchResult Bool
one_item = record {
  all =
      record { index = 1; status = BatchItemStatus.succeeded; result = some true; error = none }
      ∷ [];
  completion_reason = BatchCompletionReason.all_completed;
}

return_batch-operation_counter_example :
    Leaves {S = ℕ}
      (CountsBatch 2 fresh)
      (return_batch no_fields none (some "m") (true ∷ false ∷ true ∷ []) one_item fresh 0)
unfolding new_context
return_batch-operation_counter_example =
    return_batch-operation_counter no_fields none (some "m") (true ∷ false ∷ true ∷ []) one_item 2
      fresh 0 (omega arith) (omega arith) (omega arith, tt) (inr refl)

abbrev no_percent : Percent ℕ
no_percent = record { valid = λ p. true; text = λ p. ""; exceeds = λ failures total p. false }

abbrev no_limits : CompletionConfig ℕ
no_limits = record {
  min_successful = none;
  tolerated_failure_count = none;
  tolerated_failure_percentage = none;
}

abbrev map_fn : Bool → ℕ → Op ℕ Bool
map_fn item index = return item

reconstruct_map_from_children-length_example :
    Settles
      (λ r. (length r.all ≡ 1) × (1 ≤ length (true ∷ false ∷ [])))
      Anything
      (reconstruct_map_from_children accepting json hash no_percent map_fn none none none
        (true ∷ false ∷ [])
        "m"
        1
        no_limits
        answered
        0)
reconstruct_map_from_children-length_example =
    reconstruct_map_from_children-length accepting json hash no_percent map_fn none none none
      (true ∷ false ∷ []) "m" 1 no_limits answered 0
