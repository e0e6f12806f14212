-- ===== src/Runtime.antt =====
-- src/runtime/handler.rs and src/runtime/handler/execute.rs. The user's handler is an operation, the
-- default service, JSON, the hash and the random part of an id are parameters, and the scheduler
-- chooses which branch of the race is looked at first.
pub mod Outputs
pub mod Waits
use lambda_durable_execution.Base.{
  ℕ, ◌-◌, ◌*◌, String, Bool, true, false, Option, none, some, List, [], ◌∷◌, ltb, if◌then◌else◌,
  unwrap_or, find, str_len, concat,
}
use lambda_durable_execution.Base.Result.{Result, ok, err, ok_or}
use lambda_durable_execution.Base.Dict
use lambda_durable_execution.Errors.{
  BoxError, DurableError, ErrorObject, display, from_durable_error,
}
use lambda_durable_execution.Types.{
  InvocationStatus, Operation, OperationType, OperationAction, ExecutionDetails,
  DurableExecutionInvocationInput, DurableExecutionInvocationOutput,
}
use lambda_durable_execution.Types.Builder.{OperationUpdateBuilder, builder, build}
use lambda_durable_execution.Termination.{TerminationReason, TerminationResult}
use lambda_durable_execution.Checkpoint.{CheckpointManager, LambdaService}
use lambda_durable_execution.Checkpoint.Queue.{Ack, acknowledged, blocked, checkpoint}
use lambda_durable_execution.Checkpoint.Queue.Completion.{wait_for_queue_completion}
use lambda_durable_execution.Context.{ExecutionContext, load_context}
use lambda_durable_execution.Context.Run.{Outcome, done, failed, suspended, Op, Json}

abbrev pub lambda_response_size_limit : ℕ
lambda_response_size_limit = 6 * 1024 * 1024 - 50

unfoldable pub succeeded_output : Option String → DurableExecutionInvocationOutput
succeeded_output result = record {
  status = InvocationStatus.succeeded;
  result = result;
  error = none;
}

unfoldable pub failed_output : ErrorObject → DurableExecutionInvocationOutput
failed_output error = record { status = InvocationStatus.failed; result = none; error = some error }

unfoldable pub pending_output : DurableExecutionInvocationOutput
pending_output = record { status = InvocationStatus.pending; result = none; error = none }

-- An error of the Lambda runtime is its text. `hangs`: nothing is returned before the time limit of
-- the function.
pub data Reply (S : Type 0) : Type 0 where
  rejected : String → S → Reply S
  replied : Result String DurableExecutionInvocationOutput → CheckpointManager → S → Reply S
  hangs : Reply S

-- The handler's result, or a termination.
pub data Raced (S R : Type 0) : Type 0 where
  handled : Result DurableError R → CheckpointManager → S → Raced S R
  terminated : TerminationResult → CheckpointManager → S → Raced S R
  never : Raced S R

abbrev pub signal_of : ExecutionContext → Option TerminationResult
signal_of ctx = ctx.checkpoint_manager.termination_manager.signal

module _ {S R : Type 0} where
  abbrev pub completed :
      Bool → Option TerminationResult → Result DurableError R → CheckpointManager → S → Raced S R
  completed handler_first none r m s = handled r m s
  completed true (some t) r m s = handled r m s
  completed false (some t) r m s = terminated t m s

  abbrev pub waited : Option TerminationResult → CheckpointManager → S → Raced S R
  waited none m s = never
  waited (some t) m s = terminated t m s

  -- `tokio::select!`.
  unfoldable pub race : Bool → Outcome S R → Raced S R
  race handler_first (done v ctx s) =
      completed handler_first (signal_of ctx) (ok v) ctx.checkpoint_manager s
  race handler_first (failed e ctx s) =
      completed handler_first (signal_of ctx) (err e) ctx.checkpoint_manager s
  race handler_first (suspended ctx s) = waited (signal_of ctx) ctx.checkpoint_manager s

abbrev pub is_execution : OperationType → Bool
is_execution OperationType.execution = true
is_execution _ = false

abbrev pub input_payload_of : Option ExecutionDetails → Option String
input_payload_of none = none
input_payload_of (some d) = d.input_payload

-- The payload of the execution operation.
unfoldable pub input_payload : List Operation → Result String String
input_payload ops = elim (find (λ op. is_execution op.operation_type) ops) [
  | none ↦ err "Missing execution operation in initial execution state"
  | some op ↦
      ok_or (input_payload_of op.execution_details) "Missing input payload in execution operation"
]

abbrev pub validation_text : DurableError → String
validation_text (DurableError.context_validation_error message) = message
validation_text e = display e

abbrev pub validation_message : Option DurableError → Option String → String
validation_message (some e) message = validation_text e
validation_message none message = unwrap_or message "Context validation error"

-- What a termination is answered with.
unfoldable pub termination_output :
    TerminationReason
    → Option String
    → Option DurableError
    → Result String DurableExecutionInvocationOutput
unfolding failed_output pending_output from_durable_error display
termination_output TerminationReason.checkpoint_failed message e =
    err (unwrap_or message "Checkpoint failed")
termination_output TerminationReason.serdes_failed message e =
    err (unwrap_or message "Serdes operation failed")
termination_output TerminationReason.context_validation_error message e = ok (
    failed_output
      (from_durable_error (DurableError.context_validation_error (validation_message e message))))
termination_output _ message e = ok pending_output

unfoldable pub large_result_builder : String → String → OperationUpdateBuilder
unfolding builder
large_result_builder hashed_id payload = record builder {
  id = some hashed_id;
  operation_type = some OperationType.execution;
  action = some OperationAction.succeed;
  payload = some payload;
}

module _ {S : Type 0} (svc : LambdaService S) where
  abbrev pub drained : (CheckpointManager → S → Reply S) → Ack S → Reply S
  drained k (acknowledged m s) = k m s
  drained k (blocked m s) = hangs

  -- The result as an update of the execution, and an empty result in its place.
  unfoldable pub checkpoint_result : String → String → String → CheckpointManager → S → Reply S
  unfolding large_result_builder build checkpoint wait_for_queue_completion succeeded_output
  checkpoint_result step_id hashed_id payload m s =
      elim (build (large_result_builder hashed_id payload)) [
        | err e ↦ replied (err (concat ("Failed to build large-result update: " ∷ e ∷ []))) m s
        | ok update ↦
            drained
              (λ m' s'.
                drained (λ m'' s''. replied (ok (succeeded_output (some ""))) m'' s'')
                  (wait_for_queue_completion svc m' s'))
              (checkpoint svc step_id update m s)
      ]

module _ {S R : Type 0} (svc : LambdaService S) (json : Json R) (hash : String → String)
    (uuid : String) where
  abbrev pub result_id : String
  result_id = concat ("execution-result-" ∷ uuid ∷ [])

  unfoldable pub return_payload : String → CheckpointManager → S → Reply S
  unfolding checkpoint_result succeeded_output
  return_payload payload m s =
      if ltb lambda_response_size_limit (str_len payload)
      then checkpoint_result svc result_id (hash result_id) payload m s
      else replied (ok (succeeded_output (some payload))) m s

  abbrev pub serialize_response : Result BoxError String → CheckpointManager → S → Reply S
  serialize_response (ok payload) m s = return_payload payload m s
  serialize_response (err e) m s =
      replied (err (concat ("Failed to serialize output: " ∷ e.message ∷ []))) m s

  abbrev pub result_output : Result DurableError R → CheckpointManager → S → Reply S
  result_output (ok response) m s = serialize_response (json.to_string response) m s
  result_output (err e) m s = replied (ok (failed_output (from_durable_error e))) m s

  -- What follows the race, once the queue is empty.
  unfoldable pub build_output : Raced S R → Reply S
  unfolding wait_for_queue_completion return_payload termination_output failed_output
      from_durable_error
  build_output (handled r m s) = drained svc (result_output r) (wait_for_queue_completion svc m s)
  build_output (terminated t m s) =
      drained svc (λ m' s'. replied (termination_output t.reason t.message t.error) m' s')
        (wait_for_queue_completion svc m s)
  build_output never = hangs

module _ {S E R : Type 0} (svc : LambdaService S) (json_event : Json E) (json : Json R)
    (hash : String → String) (uuid : String) (handler_first : Bool) where
  -- The handler on an event that was read.
  unfoldable pub run_handler : (E → Op S R) → E → ExecutionContext → S → Reply S
  unfolding race build_output
  run_handler handler event ctx s =
      build_output svc json hash uuid (race handler_first (handler event ctx s))

  unfoldable pub start_handler :
      (E → Op S R) → Result String String → ExecutionContext → S → Reply S
  unfolding run_handler
  start_handler handler (err message) ctx s = rejected message s
  start_handler handler (ok payload) ctx s = elim (json_event.from_str payload) [
    | err e ↦ rejected (concat ("Failed to deserialize input: " ∷ e.message ∷ [])) s
    | ok event ↦ run_handler handler event ctx s
  ]

  unfoldable pub with_context : (E → Op S R) → Result DurableError ExecutionContext → S → Reply S
  unfolding input_payload start_handler display
  with_context handler (err e) s =
      rejected (concat ("Failed to initialize context: " ∷ display e ∷ [])) s
  with_context handler (ok ctx) s =
      start_handler handler (input_payload (Dict.values ctx.step_data)) ctx s

  -- `execute_durable_handler`.
  unfoldable pub execute_durable_handler :
      DurableExecutionInvocationInput → (E → Op S R) → S → Reply S
  unfolding load_context with_context
  execute_durable_handler input handler s =
      let (loaded, s') = load_context svc input s in with_context handler loaded s'

pub record DurableExecutionConfig (S : Type 0) : Type 0 where
  pub lambda_service : Option (LambdaService S)
  pub mode_aware_logging : Bool

unfoldable pub default_config : (S : Type 0) → DurableExecutionConfig S
default_config S = record { lambda_service = none; mode_aware_logging = true }

-- `with_durable_execution`, for the service that is made when none is configured.
unfoldable pub with_durable_execution :
    {S E R : Type 0}
    → LambdaService S
    → Json E
    → Json R
    → (String → String)
    → String
    → Bool
    → (E → Op S R)
    → Option (DurableExecutionConfig S)
    → DurableExecutionInvocationInput
    → S
    → Reply S
unfolding default_config execute_durable_handler
with_durable_execution {S} real json_event json hash uuid handler_first handler config input s =
    let svc = unwrap_or (unwrap_or config (default_config S)).lambda_service real in
    execute_durable_handler svc json_event json hash uuid handler_first input handler s
