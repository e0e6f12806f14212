-- ===== src/Operations/WaitCondition.antt =====
-- src/context/durable_context/wait_condition.rs, wait_condition/replay.rs and
-- wait_condition/execute.rs.
pub mod Builders
pub mod Outcomes
use lambda_durable_execution.Base.{
  ℕ, ◌+◌, ◌%◌, ◌^◌, String, Bool, false, Option, none, some, ltb, if◌then◌else◌, is_some, unwrap_or,
}
use lambda_durable_execution.Base.Result.{Result, ok, err}
use lambda_durable_execution.Duration.{Duration, to_seconds_i32_saturating}
use lambda_durable_execution.Errors.{DurableError, from_durable_error, step_failed_msg}
use lambda_durable_execution.Types.{
  Operation, OperationType, OperationStatus, OperationAction, StepDetails,
}
use lambda_durable_execution.Types.Builder.{OperationUpdateBuilder}
use lambda_durable_execution.Termination.{terminate_for_retry}
use lambda_durable_execution.Checkpoint.{LambdaService}
use lambda_durable_execution.Context.{ExecutionContext, ExecutionMode, next_operation_id}
use lambda_durable_execution.Context.Run.{
  Outcome, Op, ◌>>=◌, ◌>>◌, return, fail, suspend, set_mode, terminating, built, send, Serdes, Json,
  safe_serialize, safe_deserialize,
}
use lambda_durable_execution.Operations.{update_builder, replayed}
use lambda_durable_execution.Operations.Step.{StepIds, StepContext, operation_attempt}

pub data WaitConditionDecision : Type 0 where
  continue_after : Duration → WaitConditionDecision
  stop : WaitConditionDecision

pub record WaitConditionConfig (T : Type 0) : Type 0 where
  pub initial_state : T
  pub wait_strategy : T → ℕ → WaitConditionDecision
  pub max_attempts : Option ℕ
  pub serdes : Option (Serdes T)

abbrev pub condition_payload : Option Operation → Option String
condition_payload none = none
condition_payload (some op) = elim op.step_details [ none ↦ none | some d ↦ d.result ]

abbrev pub condition_attempts : Option StepDetails → ℕ
condition_attempts none = 1
condition_attempts (some d) = unwrap_or d.attempt 1

abbrev pub condition_message : Option StepDetails → String
condition_message none = "Wait for condition failed"
condition_message (some d) = elim d.error [
  | none ↦ "Wait for condition failed"
  | some e ↦ e.error_message
]

abbrev pub missing_condition_result : DurableError
missing_condition_result = DurableError.internal "Missing wait-for-condition result in replay"

-- Only the START update says who the parent is and how the operation is called.
unfoldable pub condition_builder :
    String → OperationAction → Option String → Option String → OperationUpdateBuilder
unfolding update_builder
condition_builder hashed_id action parent_id name =
    update_builder hashed_id OperationType.step "WaitForCondition" action parent_id name

unfoldable pub condition_fail_builder : String → DurableError → OperationUpdateBuilder
unfolding condition_builder from_durable_error
condition_fail_builder hashed_id e =
    record (condition_builder hashed_id OperationAction.fail none none) {
      error = some (from_durable_error e);
    }

unfoldable pub condition_succeed_builder : String → Option String → OperationUpdateBuilder
unfolding condition_builder
condition_succeed_builder hashed_id payload =
    record (condition_builder hashed_id OperationAction.succeed none none) { payload = payload }

unfoldable pub condition_retry_builder : String → Duration → Option String → OperationUpdateBuilder
unfolding condition_builder to_seconds_i32_saturating
condition_retry_builder hashed_id delay payload =
    record (condition_builder hashed_id OperationAction.retry none none) {
      step_options =
          some (record { next_attempt_delay_seconds = some (to_seconds_i32_saturating delay) });
      payload = payload;
    }

unfoldable pub wait_condition_exceeded : Option String → ℕ → DurableError
wait_condition_exceeded name attempt =
    DurableError.wait_condition_exceeded (unwrap_or name "wait_for_condition") attempt

-- The attempt that the operation records, and one more; a `u32`.
unfoldable pub next_attempt : Option Operation → ℕ
next_attempt op = (operation_attempt op + 1) % 2 ^ 32

abbrev pub exceeds : ℕ → Option ℕ → Bool
exceeds attempt none = false
exceeds attempt (some max) = ltb max attempt

module _ {S T : Type 0} (json : Json T) where
  abbrev condition_value : Option T → Op S (Option T)
  condition_value none = fail missing_condition_result
  condition_value (some v) = return (some v)

  -- `none`: the condition is to be checked.
  unfoldable pub handle_replay : StepIds → Option (Serdes T) → Option Operation → Op S (Option T)
  unfolding safe_deserialize set_mode step_failed_msg
  handle_replay ids serdes none = return none
  handle_replay ids serdes (some op) = elim op.status [
    | OperationStatus.succeeded ↦ elim (condition_payload (some op)) [
      | none ↦ fail missing_condition_result
      | some payload ↦
          safe_deserialize json serdes (some payload) ids.hashed_id ids.name >>= condition_value
    ]
    | OperationStatus.failed ↦ fail (
        step_failed_msg ids.step_id (condition_attempts op.step_details)
          (condition_message op.step_details))
    | _ ↦ set_mode ExecutionMode.execution >> return none
  ]

  -- The state that the last attempt left, or the initial one.
  unfoldable pub current_state : StepIds → WaitConditionConfig T → Option Operation → Op S T
  unfolding safe_deserialize
  current_state ids config op = elim (condition_payload op) [
    | none ↦ return config.initial_state
    | some payload ↦
        safe_deserialize json config.serdes (some payload) ids.hashed_id ids.name >>= λ v.
        return (unwrap_or v config.initial_state)
  ]

module _ {S T : Type 0} (svc : LambdaService S) (json : Json T) where
  unfoldable pub exceed : StepIds → ℕ → Op S T
  unfolding wait_condition_exceeded condition_fail_builder built send
  exceed ids attempt = do
    update ←
        built "Failed to build wait_for_condition FAIL update"
          (condition_fail_builder ids.hashed_id (wait_condition_exceeded ids.name attempt))
    send svc ids.step_id update
    fail (wait_condition_exceeded ids.name attempt)

  unfoldable pub start_condition : StepIds → Option Operation → Op S (Unit {0})
  unfolding condition_builder built send
  start_condition ids op =
      if is_some op
      then return tt
      else built "Failed to build wait_for_condition START update"
          (condition_builder ids.hashed_id OperationAction.start ids.parent_id ids.name)
        >>= λ update. send svc ids.step_id update

  abbrev checked : ExecutionContext → Result DurableError T × S → Outcome S T
  checked ctx (ok v, s) = return v ctx s
  checked ctx (err e, s) = fail e ctx s

  -- The user's function, whose error is returned as it is.
  unfoldable pub call_check :
      (T → StepContext → S → Result DurableError T × S) → StepIds → T → Op S T
  call_check check_fn ids state ctx s =
      let c : StepContext = record {
        step_name = ids.name;
        operation_id = ids.hashed_id;
        durable_execution_arn = ctx.durable_execution_arn;
        mode = ctx.mode;
        attempt = none;
      } in
      checked ctx (check_fn state c s)

  unfoldable pub condition_met : StepIds → Option String → T → Op S T
  unfolding condition_succeed_builder built send
  condition_met ids payload state = do
    update ←
        built "Failed to build wait_for_condition SUCCEED update"
          (condition_succeed_builder ids.hashed_id payload)
    send svc ids.step_id update
    return state

  unfoldable pub check_again : StepIds → Option String → Duration → Op S T
  unfolding condition_retry_builder built send terminating terminate_for_retry
  check_again ids payload delay = do
    update ←
        built "Failed to build wait_for_condition RETRY update"
          (condition_retry_builder ids.hashed_id delay payload)
    send svc ids.step_id update
    terminating terminate_for_retry
    suspend

  abbrev decide_condition : StepIds → Option String → T → WaitConditionDecision → Op S T
  decide_condition ids payload state stop = condition_met ids payload state
  decide_condition ids payload state (continue_after delay) = check_again ids payload delay

  -- One check, from the state that the last one left.
  unfoldable pub check_once :
      StepIds
      → (T → StepContext → S → Result DurableError T × S)
      → WaitConditionConfig T
      → ℕ
      → Option Operation
      → T
      → Op S T
  unfolding start_condition call_check safe_serialize condition_met check_again
  check_once ids check_fn config attempt op state = do
    start_condition ids op
    state' ← call_check check_fn ids state
    payload ← safe_serialize json config.serdes (some state') ids.hashed_id ids.name
    decide_condition ids payload state' (config.wait_strategy state' attempt)

  unfoldable pub run_wait_condition :
      StepIds
      → (T → StepContext → S → Result DurableError T × S)
      → WaitConditionConfig T
      → Option Operation
      → Op S T
  unfolding current_state next_attempt exceed check_once
  run_wait_condition ids check_fn config op =
      let attempt = next_attempt op in
      current_state json ids config op >>= λ state.
      if exceeds attempt config.max_attempts
      then exceed ids attempt
      else check_once ids check_fn config attempt op state

  abbrev condition_known : Op S T → Option T → Op S T
  condition_known run none = run
  condition_known run (some v) = return v

  unfoldable pub wait_for_condition :
      (String → String)
      → Option String
      → (T → StepContext → S → Result DurableError T × S)
      → WaitConditionConfig T
      → Op S T
  unfolding next_operation_id handle_replay run_wait_condition
  wait_for_condition hash name check_fn config ctx =
      let (step_id, counted) = next_operation_id name ctx in
      let ids : StepIds = record {
        step_id = step_id;
        hashed_id = hash step_id;
        name = name;
        parent_id = ctx.current_parent_id;
      } in
      let op = replayed ids.hashed_id ctx in
      (handle_replay json ids config.serdes op
          >>= condition_known (run_wait_condition ids check_fn config op))
        counted
