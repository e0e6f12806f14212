-- ===== src/Operations/Callback/Answered.antt =====
-- A callback whose record decides: src/context/durable_context/callback.rs, callback/replay.rs and
-- callback/execute.rs.
use lambda_durable_execution.Types.Builder.Checks.{build_complete}
use lambda_durable_execution.Types.Builder.{builder}
use lambda_durable_execution.Operations.{OperationAction, update_builder}
use lambda_durable_execution.Operations.Records.Ends.{recorded}
use lambda_durable_execution.Operations.Step.Builders.{Builds, seconds_not_negative}
use lambda_durable_execution.Duration.{Duration}
use lambda_durable_execution.Operations.Callback.Unanswered.{start_callback-KeepsRecords}
use lambda_durable_execution.Operations.Records.{view_kept, replay_view}
use lambda_durable_execution.Operations.Records.Ends.{recorded, Settles-kept}
use lambda_durable_execution.Types.Builder.{negative, negative_heartbeat, negative_timeout}
use lambda_durable_execution.Termination.{terminate_for_callback}
use lambda_durable_execution.Base.{
  sym, subst, String, ◌≡◌, refl, ap, inl, inr, Bool, false, Option, none, some, [], ◌∷◌, Bool-cases,
  is_some, unwrap_or, concat,
}
use lambda_durable_execution.Base.Result.{Result, ok}
use lambda_durable_execution.Base.Dict
use lambda_durable_execution.Errors.{BoxError}
use lambda_durable_execution.Types.{
  CallbackDetails, OperationAction, Operation, OperationType, OperationStatus,
}
use lambda_durable_execution.Termination.{TerminationReason, plain}
use lambda_durable_execution.Checkpoint.{LambdaService}
use lambda_durable_execution.Retry.{RetryStrategy}
use lambda_durable_execution.Context.{ExecutionContext, next_operation_id}
use lambda_durable_execution.Context.Run.{
  map_some, Outcome, Op, done, failed, suspended, Json, deserialized, serdes_context,
  safe_deserialize,
}
use lambda_durable_execution.Operations.{builder, update_builder, replayed}
use lambda_durable_execution.Operations.Step.{StepContext}
use lambda_durable_execution.Operations.Child.{
  replays_children, context_payload, run_in_child_context_with_ids,
}
use lambda_durable_execution.Operations.Child.Outcomes.{run_in_child_context-replays}
use lambda_durable_execution.Operations.Settles.{
  Settles-weaken, Settles, Anything, Nothing, Settles-continue, Settles-send, Settles-built,
}
use lambda_durable_execution.Operations.Callback.{
  CallbackDetails, seconds_of, service_callback_id, Duration, options_of, submit_and_wait,
  terminate_for_callback, callback_builder, CallbackConfig, callback_payload, callback_failed,
  missing_callback_result, read_payload, is_callback, handle_replay, start_callback,
  create_callback, callback_in_child, run_wait_for_callback, callback_id_of,
}

module _ {S : Type 0} where
  -- A suspension that calls nobody, and says that a callback is pending unless another reason came
  -- first.
  abbrev pub WaitsForCallback : {A : Type 0} → ExecutionContext → S → Outcome S A → Type 0
  WaitsForCallback ctx s o =
      (c : ExecutionContext) × (o ≡ suspended c s)
      × (ctx.checkpoint_manager.termination_manager.terminated ≡ false
          → c.checkpoint_manager.termination_manager.signal
            ≡ some (plain TerminationReason.callback_pending))

  abbrev pub Reads :
      {A : Type 0} → (String → Op S A) → Option String → ExecutionContext → S → Outcome S A → Type 0
  Reads read none ctx s o = o ≡ failed missing_callback_result ctx s
  Reads read (some payload) ctx s o = o ≡ read payload ctx s

  -- What the status of a record makes of a wait.
  abbrev pub AnswersStatus :
      {A : Type 0}
      → (String → Op S A)
      → String
      → Operation
      → OperationStatus
      → ExecutionContext
      → S
      → Outcome S A
      → Type 0
  AnswersStatus read step_id op OperationStatus.succeeded ctx s o =
      Reads read (callback_payload op.callback_details) ctx s o
  AnswersStatus read step_id op OperationStatus.failed ctx s o =
      o ≡ failed (callback_failed step_id op) ctx s
  AnswersStatus read step_id op _ ctx s o = WaitsForCallback ctx s o

  abbrev pub Answers :
      {A : Type 0}
      → (String → Op S A)
      → String
      → Option Operation
      → ExecutionContext
      → S
      → Outcome S A
      → Type 0
  Answers read step_id none ctx s o = WaitsForCallback ctx s o
  Answers read step_id (some op) ctx s o = AnswersStatus read step_id op op.status ctx s o

timeouts_not_negative :
    {T : Type 0} (config : Option (CallbackConfig T))
    → (negative_timeout (options_of config) ≡ false)
      × (negative_heartbeat (options_of config) ≡ false)
timeouts_not_negative none = (refl, refl)
timeouts_not_negative (some c) = (seconds c.timeout, seconds c.heartbeat_timeout)
  where
    seconds : (d : Option Duration) → negative (seconds_of d) ≡ false
    seconds none = refl
    seconds (some d) = seconds_not_negative d

callback_builder-Builds :
    {T : Type 0} (hashed_id : String) (parent_id name : Option String)
    (config : Option (CallbackConfig T))
    → Builds (callback_builder hashed_id parent_id name config)
unfolding callback_builder update_builder builder
callback_builder-Builds hashed_id parent_id name config =
    build_complete (callback_builder hashed_id parent_id name config) hashed_id
      OperationType.callback OperationAction.start refl refl refl
      (record {
        delay = refl;
        wait = refl;
        timeout = (timeouts_not_negative config).0;
        heartbeat = (timeouts_not_negative config).1;
        function = refl;
      })

-- The recorded id of a callback, or the other one where none is recorded.
abbrev pub IsIdOf : String → Option Operation → String → Type 0
IsIdOf other none id = id ≡ other
IsIdOf other (some op) id = elim op.callback_details [
  | none ↦ id ≡ other
  | some d ↦ elim d.callback_id [ none ↦ id ≡ other | some given ↦ id ≡ given ]
]

IsIdOf-unwrap :
    (other : String) (op : Option Operation)
    → IsIdOf other op (unwrap_or (service_callback_id op) other)
IsIdOf-unwrap other none = refl
IsIdOf-unwrap other (some op) = details op.callback_details
  where
    details :
        (d : Option CallbackDetails)
        → IsIdOf other
            (some (record op { callback_details = d }))
            (unwrap_or (service_callback_id (some (record op { callback_details = d }))) other)
    details none = refl
    details (some d) = ids d.callback_id
      where
        ids :
            (i : Option String)
            → IsIdOf other
                (some (record op { callback_details = some (record d { callback_id = i }) }))
                (unwrap_or
                  (service_callback_id
                    (some (record op { callback_details = some (record d { callback_id = i }) })))
                  other)
        ids none = refl
        ids (some given) = refl

callback_id_of-IsIdOf :
    (hashed_id : String) (ctx : ExecutionContext)
    → IsIdOf
        (concat (ctx.durable_execution_arn ∷ ":" ∷ hashed_id ∷ []))
        (replayed hashed_id ctx)
        (callback_id_of hashed_id ctx)
unfolding callback_id_of
callback_id_of-IsIdOf hashed_id ctx =
    IsIdOf-unwrap (concat (ctx.durable_execution_arn ∷ ":" ∷ hashed_id ∷ []))
      (replayed hashed_id ctx)

module _ {S T : Type 0} (svc : LambdaService S) where
  start_callback-Settles :
      (step_id hashed_id : String) (name : Option String) (config : Option (CallbackConfig T))
      (ctx : ExecutionContext) (s : S)
      → Settles Anything Nothing (start_callback svc step_id hashed_id name config ctx s)
  unfolding start_callback
  start_callback-Settles step_id hashed_id name config ctx s =
      elim (Bool-cases (is_some (replayed hashed_id ctx))) [
        | inl known ↦ rw (known) tt
        | inr fresh ↦ rw (fresh) (
            Settles-continue Anything Anything Nothing _ _
              (Settles-built Nothing _
                (callback_builder hashed_id ctx.current_parent_id name config) ctx s
                (callback_builder-Builds hashed_id ctx.current_parent_id name config))
              (λ u ctx' s' _. Settles-send svc Nothing step_id u ctx' s'))
      ]

  create_callback-id :
      (hash : String → String) (name : Option String) (config : Option (CallbackConfig T))
      (ctx : ExecutionContext) (s : S)
      → Settles
          (λ h. h.callback_id ≡ callback_id_of (hash (next_operation_id name ctx).0) ctx)
          Nothing
          (create_callback svc hash name config ctx s)
  unfolding create_callback next_operation_id callback_id_of
  create_callback-id hash name config ctx s =
      let (step_id, counted) = next_operation_id name ctx in
      Settles-kept Anything _ Nothing (replay_view ctx) _ _
        (view_kept (start_callback-KeepsRecords svc step_id (hash step_id) name config) counted s)
        (start_callback-Settles step_id (hash step_id) name config counted s)
        (λ _ c t _ v.
          ap
            (λ w.
              unwrap_or (service_callback_id (recorded (hash step_id) w))
                (concat (w.1 ∷ ":" ∷ hash step_id ∷ [])))
            v)

  -- Creating a callback never fails, and the id of its handle is the one that replay has recorded, or
  -- the ARN and the hashed id, with a colon between them, where it has recorded none: the answer of
  -- the service to the START plays no part in it.
  pub create_callback-Settles :
      (hash : String → String) (name : Option String) (config : Option (CallbackConfig T))
      (ctx : ExecutionContext) (s : S)
      → Settles
          (λ h.
            IsIdOf
              (concat (ctx.durable_execution_arn ∷ ":" ∷ hash (next_operation_id name ctx).0 ∷ []))
              (replayed (hash (next_operation_id name ctx).0) ctx)
              h.callback_id)
          Nothing
          (create_callback svc hash name config ctx s)
  create_callback-Settles hash name config ctx s =
      let hashed_id = hash (next_operation_id name ctx).0 in
      Settles-weaken (create_callback svc hash name config ctx s)
        (λ h e.
          subst
            (IsIdOf (concat (ctx.durable_execution_arn ∷ ":" ∷ hashed_id ∷ []))
              (replayed hashed_id ctx))
            (sym e) (callback_id_of-IsIdOf hashed_id ctx))
        (λ e h. h) (create_callback-id hash name config ctx s)

module _ {S T : Type 0} (svc : LambdaService S) (eager : Bool) (json : Json T)
    (json_string : Json String) (json_unit : Json (Unit {0})) (hash : String → String)
    (default_strategy : RetryStrategy) where
  -- `wait_for_callback` whose child context replay has recorded as succeeded, with a payload that
  -- JSON reads as a string and the caller's serdes as a value, gives that value. The submitter is not
  -- run, the service is not called, and nothing but the operation counter changes.
  pub run_wait_for_callback-Replays :
      (name : Option String) (submitter : String → StepContext → S → Result BoxError (Unit {0}) × S)
      (config : CallbackConfig T) (ctx : ExecutionContext) (s : S) (op : Operation)
      (payload raw : String) (value : T)
      → replayed (hash (next_operation_id name ctx).0) ctx ≡ some op
      → is_callback op.operation_type ≡ false
      → op.status ≡ OperationStatus.succeeded
      → replays_children op.context_details ≡ false
      → context_payload op.context_details ≡ some payload
      → json_string.from_str payload ≡ ok raw
      → deserialized json config.serdes
          (some raw)
          (serdes_context (hash (next_operation_id name ctx).0) ctx)
        ≡ ok (some value)
      → run_wait_for_callback svc eager json json_string json_unit hash default_strategy name
          submitter config ctx s
        ≡ done value (next_operation_id name ctx).1 s
  unfolding run_wait_for_callback handle_replay callback_in_child next_operation_id read_payload
      safe_deserialize
  run_wait_for_callback-Replays name submitter config ctx s op payload raw value e ty st r p d v =
      rw (e, handle_replay)
        (rw (ty, handle_replay)
          (rw
            (
              run_in_child_context-replays svc json_string (next_operation_id name ctx).0
                  (hash (next_operation_id name ctx).0) name
                  (submit_and_wait svc eager json json_string json_unit hash default_strategy
                    submitter config)
                  (record { sub_type = some "WaitForCallback"; serdes = none })
                  (next_operation_id name ctx).1 s op payload raw e st r p (ap map_some d),
              run_in_child_context_with_ids,
            )
            (rw (v, safe_deserialize) refl)))
