-- ===== src/Operations/Callback.antt =====
-- src/context/durable_context/callback.rs, callback/replay.rs and callback/execute.rs. A handle holds no
-- context of its own: its operations run on the context that is passed along.
pub mod Unanswered
pub mod Answered
use lambda_durable_execution.Base.{
  String, Bool, true, false, Option, none, some, [], ◌∷◌, if◌then◌else◌, is_some, unwrap_or, concat,
}
use lambda_durable_execution.Base.Int.{ℤ}
use lambda_durable_execution.Base.Result.{Result}
use lambda_durable_execution.Duration.{Duration, to_seconds_i32_saturating}
use lambda_durable_execution.Errors.{BoxError, DurableError}
use lambda_durable_execution.Types.{
  Operation, OperationType, OperationStatus, OperationAction, CallbackDetails,
  CallbackUpdateOptions,
}
use lambda_durable_execution.Types.Builder.{OperationUpdateBuilder}
use lambda_durable_execution.Termination.{terminate_for_callback}
use lambda_durable_execution.Checkpoint.{LambdaService}
use lambda_durable_execution.Checkpoint.Lifecycle.{mark_awaited}
use lambda_durable_execution.Retry.{RetryStrategy}
use lambda_durable_execution.Context.{ExecutionContext, ExecutionMode, next_operation_id}
use lambda_durable_execution.Context.Run.{
  Op, ◌>>=◌, ◌>>◌, return, fail, suspend, set_mode, terminating, on_manager, built, send, Serdes,
  Json, safe_deserialize,
}
use lambda_durable_execution.Operations.{update_builder, replayed}
use lambda_durable_execution.Operations.Step.{StepIds, StepConfig, StepContext, StepSemantics, step}
use lambda_durable_execution.Operations.Child.{ChildContextConfig, run_in_child_context_with_ids}

pub record CallbackConfig (T : Type 0) : Type 0 where
  pub timeout : Option Duration
  pub heartbeat_timeout : Option Duration
  pub retry_strategy : Option RetryStrategy
  pub serdes : Option (Serdes T)

pub record CallbackHandle (T : Type 0) : Type 0 where
  pub callback_id : String
  pub step_id : String
  pub hashed_id : String
  pub serdes : Option (Serdes T)

abbrev pub callback_payload : Option CallbackDetails → Option String
callback_payload none = none
callback_payload (some d) = d.result

abbrev pub callback_message : Option CallbackDetails → String
callback_message none = "Unknown error"
callback_message (some d) = elim d.error [ none ↦ "Unknown error" | some e ↦ e.error_message ]

abbrev pub service_callback_id : Option Operation → Option String
service_callback_id none = none
service_callback_id (some op) = elim op.callback_details [ none ↦ none | some d ↦ d.callback_id ]

abbrev pub missing_callback_result : DurableError
missing_callback_result = DurableError.internal "Missing callback result in replay"

unfoldable pub callback_failed : String → Operation → DurableError
callback_failed step_id op =
    DurableError.callback_failed step_id (callback_message op.callback_details)

abbrev pub seconds_of : Option Duration → Option ℤ
seconds_of none = none
seconds_of (some d) = some (to_seconds_i32_saturating d)

abbrev pub options_of : {T : Type 0} → Option (CallbackConfig T) → Option CallbackUpdateOptions
options_of none = none
options_of (some c) = some (record {
  timeout_seconds = seconds_of c.timeout;
  heartbeat_timeout_seconds = seconds_of c.heartbeat_timeout;
})

abbrev pub serdes_of : {T : Type 0} → Option (CallbackConfig T) → Option (Serdes T)
serdes_of none = none
serdes_of (some c) = c.serdes

unfoldable pub callback_builder :
    {T : Type 0}
    → String
    → Option String
    → Option String
    → Option (CallbackConfig T)
    → OperationUpdateBuilder
unfolding update_builder to_seconds_i32_saturating
callback_builder hashed_id parent_id name config =
    record (update_builder hashed_id OperationType.callback "Callback" OperationAction.start
      parent_id name) { callback_options = options_of config }

-- The id of the service, or one made of the ARN and the operation's id.
unfoldable pub callback_id_of : String → ExecutionContext → String
callback_id_of hashed_id ctx =
    unwrap_or (service_callback_id (replayed hashed_id ctx))
      (concat (ctx.durable_execution_arn ∷ ":" ∷ hashed_id ∷ []))

abbrev pub is_callback : OperationType → Bool
is_callback OperationType.callback = true
is_callback _ = false

module _ {S : Type 0} where
  unfoldable pub suspend_callback : {A : Type 0} → Op S A
  unfolding terminating terminate_for_callback
  suspend_callback = do terminating terminate_for_callback; suspend

  -- The end of both ways to wait.
  unfoldable pub await_callback : {A : Type 0} → String → Op S A
  unfolding on_manager mark_awaited suspend_callback
  await_callback hashed_id = do on_manager (λ m. mark_awaited m hashed_id); suspend_callback

  -- What a record of the callback decides: `read` is what is done with the payload.
  abbrev pub read_result : {A : Type 0} → (String → Op S A) → Option String → Op S A
  read_result read none = fail missing_callback_result
  read_result read (some payload) = read payload

  unfoldable pub on_status :
      {A : Type 0} → String → String → (String → Op S A) → Operation → OperationStatus → Op S A
  unfolding await_callback callback_failed
  on_status step_id hashed_id read op OperationStatus.succeeded =
      read_result read (callback_payload op.callback_details)
  on_status step_id hashed_id read op OperationStatus.failed = fail (callback_failed step_id op)
  on_status step_id hashed_id read op _ = await_callback hashed_id

  unfoldable pub on_record :
      {A : Type 0} → String → String → (String → Op S A) → Option Operation → Op S A
  unfolding await_callback on_status
  on_record step_id hashed_id read none = await_callback hashed_id
  on_record step_id hashed_id read (some op) = on_status step_id hashed_id read op op.status

  -- Both ways of a handle to wait.
  unfoldable pub wait_with : {A : Type 0} → String → String → (String → Op S A) → Op S A
  unfolding on_record
  wait_with step_id hashed_id read ctx =
      on_record step_id hashed_id read (replayed hashed_id ctx) ctx

  unfoldable pub wait_for_callback_raw : {T : Type 0} → CallbackHandle T → Op S String
  unfolding wait_with
  wait_for_callback_raw handle = wait_with handle.step_id handle.hashed_id return

module _ {S T : Type 0} (json : Json T) where
  -- A payload that has to have a value.
  unfoldable pub read_payload :
      Option (Serdes T) → String → Option String → DurableError → String → Op S T
  unfolding safe_deserialize
  read_payload serdes hashed_id name missing payload =
      safe_deserialize json serdes (some payload) hashed_id name
      >>= elim [ none ↦ fail missing | some v ↦ return v ]

  unfoldable pub wait_for_callback : CallbackHandle T → Op S T
  unfolding wait_with read_payload
  wait_for_callback handle =
      wait_with handle.step_id handle.hashed_id
        (read_payload handle.serdes handle.hashed_id (some handle.step_id) missing_callback_result)

  unfoldable pub replay_status :
      StepIds → Option (Serdes T) → Operation → OperationStatus → Op S (Option T)
  unfolding read_payload callback_failed set_mode suspend_callback
  replay_status ids serdes op OperationStatus.succeeded =
      elim (callback_payload op.callback_details) [
        | none ↦ fail missing_callback_result
        | some payload ↦
            read_payload serdes ids.hashed_id ids.name missing_callback_result payload >>= λ v.
            return (some v)
      ]
  replay_status ids serdes op OperationStatus.failed = fail (callback_failed ids.step_id op)
  replay_status ids serdes op _ = set_mode ExecutionMode.execution >> suspend_callback

  -- An operation of an older version at this id; `none`: there is none.
  unfoldable pub handle_replay : StepIds → Option (Serdes T) → Option Operation → Op S (Option T)
  unfolding replay_status
  handle_replay ids serdes none = return none
  handle_replay ids serdes (some op) =
      if is_callback op.operation_type then replay_status ids serdes op op.status else return none

module _ {S T : Type 0} (svc : LambdaService S) where
  -- START, unless the callback is recorded already.
  unfoldable pub start_callback :
      String → String → Option String → Option (CallbackConfig T) → Op S (Unit {0})
  unfolding callback_builder built send
  start_callback step_id hashed_id name config ctx =
      (if is_some (replayed hashed_id ctx)
          then return tt
          else built "Failed to build callback START update"
              (callback_builder hashed_id ctx.current_parent_id name config)
            >>= λ update. send svc step_id update)
        ctx

  abbrev pub handle_at : String → String → Option (CallbackConfig T) → Op S (CallbackHandle T)
  handle_at step_id hashed_id config ctx =
      return
        (record {
          callback_id = callback_id_of hashed_id ctx;
          step_id = step_id;
          hashed_id = hashed_id;
          serdes = serdes_of config;
        })
        ctx

  unfoldable pub create_callback :
      (String → String) → Option String → Option (CallbackConfig T) → Op S (CallbackHandle T)
  unfolding next_operation_id start_callback callback_id_of
  create_callback hash name config ctx =
      let (step_id, counted) = next_operation_id name ctx in
      (start_callback step_id (hash step_id) name config >> handle_at step_id (hash step_id) config)
        counted

module _ {S T : Type 0} (svc : LambdaService S) (eager : Bool) (json : Json T)
    (json_string : Json String) (json_unit : Json (Unit {0})) (hash : String → String)
    (default_strategy : RetryStrategy) where
  abbrev pub submitter_config : Option RetryStrategy → StepConfig (Unit {0})
  submitter_config retry_strategy = record {
    retry_strategy = retry_strategy;
    semantics = StepSemantics.at_least_once_per_retry;
    serdes = none;
  }

  abbrev pub handle_result : Option T → Op S T → Op S T
  handle_result none next = next
  handle_result (some v) next = return v

  -- The function of the child context: the callback, its submission, and the wait for its payload.
  unfoldable pub submit_and_wait :
      (String → StepContext → S → Result BoxError (Unit {0}) × S) → CallbackConfig T → Op S String
  unfolding create_callback step wait_for_callback_raw
  submit_and_wait submitter config = do
    handle ← create_callback svc hash none (some config)
    step svc eager json_unit hash default_strategy (some "submitter") (submitter handle.callback_id)
        (submitter_config config.retry_strategy)
    wait_for_callback_raw handle

  -- The child context around it, whose result is read with the caller's serdes.
  unfoldable pub callback_in_child :
      StepIds
      → (String → StepContext → S → Result BoxError (Unit {0}) × S)
      → CallbackConfig T
      → Op S T
  unfolding submit_and_wait run_in_child_context_with_ids read_payload
  callback_in_child ids submitter config =
      let child : ChildContextConfig String = record {
        sub_type = some "WaitForCallback";
        serdes = none;
      } in
      run_in_child_context_with_ids svc json_string ids.step_id ids.hashed_id ids.name
        (submit_and_wait submitter config) child
      >>= read_payload json config.serdes ids.hashed_id ids.name
          (DurableError.internal "Missing callback result after wait")

  unfoldable pub run_wait_for_callback :
      Option String
      → (String → StepContext → S → Result BoxError (Unit {0}) × S)
      → CallbackConfig T
      → Op S T
  unfolding next_operation_id handle_replay callback_in_child
  run_wait_for_callback name submitter config ctx =
      let (step_id, counted) = next_operation_id name ctx in
      let ids : StepIds = record {
        step_id = step_id;
        hashed_id = hash step_id;
        name = name;
        parent_id = ctx.current_parent_id;
      } in
      (handle_replay json ids config.serdes (replayed ids.hashed_id ctx) >>= λ found.
      handle_result found (callback_in_child ids submitter config))
        counted
