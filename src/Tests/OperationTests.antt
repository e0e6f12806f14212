-- ===== src/Tests/OperationTests.antt =====
-- Steps, waits, child contexts, retries, pages and builders.
use lambda_durable_execution.Base.{
  ℕ, ◌+◌, String, ◌≡◌, refl, Bool, true, false, Option, none, some, List, [], ◌∷◌, if◌then◌else◌,
  str_eq, digits, decimal, show,
}
use lambda_durable_execution.Base.Result.{Result, ok, err}
use lambda_durable_execution.Base.Dict
use lambda_durable_execution.Duration.{of_seconds, is_zero}
use lambda_durable_execution.Errors.{BoxError, step_failed_msg}
use lambda_durable_execution.Types.{
  Operation, OperationType, OperationStatus, OperationUpdate, DurableExecutionInvocationInput,
}
use lambda_durable_execution.Checkpoint.Lifecycle.{has_finished_ancestor}
use lambda_durable_execution.Retry.{never}
use lambda_durable_execution.Context.{
  ExecutionContext, new_context, next_operation_id, operation_id,
}
use lambda_durable_execution.Context.Run.{done, failed, Json}
use lambda_durable_execution.Operations.Step.{
  StepSemantics, StepConfig, StepContext, StepIds, attempts_made, step,
}
use lambda_durable_execution.Operations.Step.Replays.{
  step-replays, step-replays_failure, step-ignores_function,
}
use lambda_durable_execution.Operations.Wait.{wait}
use lambda_durable_execution.Operations.Wait.Suspends.{Suspended, wait-Suspended}
use lambda_durable_execution.Tests.CheckpointTests.{accepting}

abbrev pub json : Json Bool
json = record {
  to_string = λ v. ok (if v then "true" else "false");
  from_str = λ t.
      if str_eq t "true"
      then ok true
      else if str_eq t "false"
      then ok false
      else err (record { message = "no Bool"; cause = none });
}

-- An operation with a status and, for a step, a payload.
abbrev pub recorded : String → OperationStatus → Option String → Operation
recorded id status payload = record {
  id = id;
  parent_id = none;
  name = none;
  operation_type = OperationType.step;
  sub_type = none;
  status = status;
  step_details =
      some (record {
        attempt = some 2;
        next_attempt_timestamp = none;
        result = payload;
        error = none;
      });
  callback_details = none;
  wait_details = none;
  execution_details = none;
  context_details = some (record { replay_children = none; result = payload; error = none });
  chained_invoke_details = none;
}

abbrev pub input : DurableExecutionInvocationInput
input = record {
  durable_execution_arn = "arn";
  checkpoint_token = "token-0";
  initial_execution_state = record { operations = []; next_marker = none };
}

abbrev pub context : List (String × Operation) → ExecutionContext
context stored = new_context input stored

abbrev pub ids : StepIds
ids = record { step_id = "op_0"; hashed_id = "op_0"; name = none; parent_id = none }

abbrev config : StepSemantics → StepConfig Bool
config semantics = record { retry_strategy = none; semantics = semantics; serdes = none }

-- A step function that counts its runs.
abbrev counting : StepContext → ℕ → Result BoxError Bool × ℕ
counting c n = (ok true, n + 1)

abbrev pub oops : BoxError
oops = record { message = "oops"; cause = none }

abbrev failing : StepContext → ℕ → Result BoxError Bool × ℕ
failing c n = (err oops, n)

abbrev pub hash : String → String
hash id = id

abbrev at_most_once : StepConfig Bool
at_most_once = config StepSemantics.at_most_once_per_retry

abbrev succeeded_0 : ExecutionContext
succeeded_0 = context (("op_0", recorded "op_0" OperationStatus.succeeded (some "true")) ∷ [])

first_id : (next_operation_id none succeeded_0).0 ≡ "op_0"
unfolding next_operation_id new_context operation_id show decimal digits
first_id = refl

step-replays_example :
    step accepting true json hash never none counting at_most_once succeeded_0 7
    ≡ done true (next_operation_id none succeeded_0).1 7
unfolding next_operation_id new_context operation_id show decimal digits Dict.get
step-replays_example =
    step-replays accepting true json hash never none at_most_once counting succeeded_0 7
      (recorded "op_0" OperationStatus.succeeded (some "true")) "true" true refl refl refl refl

abbrev failed_0 : ExecutionContext
failed_0 = context (("op_0", recorded "op_0" OperationStatus.failed none) ∷ [])

step-replays_failure_example :
    step accepting true json hash never none counting at_most_once failed_0 7
    ≡ failed (step_failed_msg "op_0" 3 "Replayed failure") (next_operation_id none failed_0).1 7
unfolding next_operation_id new_context operation_id show decimal digits Dict.get attempts_made
step-replays_failure_example =
    step-replays_failure accepting true json hash never none at_most_once counting failed_0 7
      (recorded "op_0" OperationStatus.failed none) refl refl

abbrev started_0 : ExecutionContext
started_0 = context (("op_0", recorded "op_0" OperationStatus.started none) ∷ [])

step-ignores_function_example :
    step accepting true json hash never none counting at_most_once started_0 7
    ≡ step accepting true json hash never none failing at_most_once started_0 7
unfolding next_operation_id new_context operation_id show decimal digits Dict.get
step-ignores_function_example =
    step-ignores_function accepting true json hash never none at_most_once counting failing
      started_0 7 (recorded "op_0" OperationStatus.started none) refl refl

no_parent :
    (u : OperationUpdate)
    → u.parent_id ≡ none
    → has_finished_ancestor (context []).checkpoint_manager u ≡ false
unfolding has_finished_ancestor
no_parent u h = simp h

wait-Suspended_example : Suspended (wait accepting hash none (of_seconds 5) (context []) 0)
unfolding is_zero of_seconds Dict.get new_context
wait-Suspended_example = wait-Suspended accepting hash none (of_seconds 5) (context []) 0 refl refl

abbrev begun : Option Operation
begun = some (recorded "op_0" OperationStatus.started none)
