-- ===== src/Operations/Step/Replays.antt =====
-- What a step does that replay has a record of: src/context/durable_context/step/replay.rs.
use lambda_durable_execution.Base.{
  String, ◌≡◌, refl, inl, inr, Bool, true, false, Option, none, some, Bool-cases, Option-cases,
  is_some,
}
use lambda_durable_execution.Base.Result.{Result, ok}
use Prim.{absurd}
use lambda_durable_execution.Errors.{BoxError, step_failed_msg}
use lambda_durable_execution.Types.{Operation, OperationStatus}
use lambda_durable_execution.Termination.{terminate_for_retry}
use lambda_durable_execution.Checkpoint.{LambdaService}
use lambda_durable_execution.Retry.{RetryStrategy}
use lambda_durable_execution.Context.{ExecutionContext, ExecutionMode, next_operation_id}
use lambda_durable_execution.Context.Run.{
  Outcome, done, failed, suspended, Op, continue, set_mode, terminating, Json, serdes_context,
  deserialized, safe_deserialize,
}
use lambda_durable_execution.Operations.{replayed}
use lambda_durable_execution.Operations.Settles.{
  Settles, Anything, Nothing, Settles-continue, Settles-weaken, Settles-or_suspend,
}
use lambda_durable_execution.Operations.Step.Outcomes.{retry_later-Settles, give_up-Settles}
use lambda_durable_execution.Operations.Step.{
  StepSemantics, StepConfig, StepContext, StepIds, attempts_made, details_payload, details_message,
  interrupted, replay_succeeded, replay_failed, replay_pending, replay_interrupted, replay_started,
  handle_replay, unless_replayed, return_replayed, step,
}

-- The operation records that the function must not run (again).
abbrev pub is_settled : StepSemantics → OperationStatus → Bool
is_settled semantics OperationStatus.succeeded = true
is_settled semantics OperationStatus.failed = true
is_settled semantics OperationStatus.pending = true
is_settled StepSemantics.at_most_once_per_retry OperationStatus.started = true
is_settled _ _ = false

abbrev pub IsSome : {A : Type 0} → Option A → Type 0
IsSome o = is_some o ≡ true

module _ {S T : Type 0} (svc : LambdaService S) (eager : Bool) (json : Json T)
    (hash : String → String) (default_strategy : RetryStrategy) (name : Option String)
    (config : StepConfig T) where
  -- The context with its counter advanced, and the ids of the step.
  abbrev pub counted : ExecutionContext → ExecutionContext
  counted ctx = (next_operation_id name ctx).1

  abbrev pub step_key : ExecutionContext → String
  step_key ctx = hash (next_operation_id name ctx).0

  -- A step that replay has recorded as succeeded, with a payload that deserializes, gives that value.
  -- The function is not run, the service is not called, and only the counter changes.
  pub step-replays :
      (step_fn : StepContext → S → Result BoxError T × S) (ctx : ExecutionContext) (s : S)
      (op : Operation) (payload : String) (value : T)
      → replayed (step_key ctx) ctx ≡ some op
      → op.status ≡ OperationStatus.succeeded
      → details_payload op.step_details ≡ some payload
      → deserialized json config.serdes (some payload) (serdes_context (step_key ctx) ctx)
        ≡ ok (some value)
      → step svc eager json hash default_strategy name step_fn config ctx s
        ≡ done value (counted ctx) s
  unfolding step handle_replay replay_succeeded safe_deserialize next_operation_id
  step-replays step_fn ctx s op payload value e st p d =
      rw (e, step)
        (rw (st, handle_replay) (rw (p, replay_succeeded) (rw (d, safe_deserialize) refl)))

  -- A step that replay has recorded as failed fails with the recorded message and the number of
  -- attempts, one more (modulo 2^32) than the recorded one. The function is not run, and the service
  -- is not called.
  pub step-replays_failure :
      (step_fn : StepContext → S → Result BoxError T × S) (ctx : ExecutionContext) (s : S)
      (op : Operation)
      → replayed (step_key ctx) ctx ≡ some op
      → op.status ≡ OperationStatus.failed
      → step svc eager json hash default_strategy name step_fn config ctx s
        ≡ failed
            (step_failed_msg
              (next_operation_id name ctx).0
              (attempts_made (some op))
              (details_message op.step_details))
            (counted ctx)
            s
  unfolding step handle_replay replay_failed next_operation_id
  step-replays_failure step_fn ctx s op e st = rw (e, step) (rw (st, handle_replay) refl)

  replay_interrupted-Settles :
      (ids : StepIds) (strategy : RetryStrategy) (op : Operation) (ctx : ExecutionContext) (s : S)
      → Settles {A = Option T} IsSome Anything (replay_interrupted svc ids strategy op ctx s)
  unfolding replay_interrupted set_mode
  replay_interrupted-Settles ids strategy op ctx s =
      let error = interrupted ids in
      elim (Bool-cases (strategy error (attempts_made (some op))).should_retry) [
        | inl retry ↦ rw (retry) (
            Settles-weaken {A = Option T} {P = Nothing} {P' = IsSome} {Q = Anything} {Q' = Anything}
              _ (λ a h. absurd h) (λ e h. tt)
              (retry_later-Settles svc (Option T) Anything ids error
                (strategy error (attempts_made (some op))).delay
                (record ctx { mode = ExecutionMode.execution }) s))
        | inr stop ↦ rw (stop) (
            Settles-weaken {A = Option T} {P = Nothing} {P' = IsSome} {Q' = Anything} _
              (λ a h. absurd h) (λ e h. tt)
              (give_up-Settles svc (Option T) ids error
                (step_failed_msg ids.step_id (attempts_made (some op)) error.message)
                (record ctx { mode = ExecutionMode.execution }) s))
      ]

  replay_succeeded-Settles :
      (ids : StepIds) (op : Operation) (ctx : ExecutionContext) (s : S)
      → Settles {A = Option T} IsSome Anything
          (replay_succeeded svc eager json ids config.serdes op ctx s)
  unfolding replay_succeeded safe_deserialize
  replay_succeeded-Settles ids op ctx s = elim (Option-cases (details_payload op.step_details)) [
    | inl e ↦ rw (e, replay_succeeded) tt
    | inr (p, e) ↦
        rw (e, replay_succeeded)
          (Settles-continue Anything IsSome Anything _ _
            (Settles-or_suspend Anything "Deserialization" ids.hashed_id ids.name
              (deserialized json config.serdes (some p) (serdes_context ids.hashed_id ctx)) ctx s)
            (λ v ctx' s' _. given v ctx' s'))
  ]
    where
      given :
          (v : Option T) (ctx : ExecutionContext) (s : S)
          → Settles {A = Option T} IsSome Anything (return_replayed svc eager json v ctx s)
      given none ctx s = tt
      given (some v) ctx s = refl

  handle_replay-Settles :
      (semantics : StepSemantics) (ids : StepIds) (strategy : RetryStrategy) (op : Operation)
      (status : OperationStatus) (ctx : ExecutionContext) (s : S)
      → op.status ≡ status
      → is_settled semantics status ≡ true
      → Settles {A = Option T} IsSome Anything
          (handle_replay svc eager json semantics ids strategy config.serdes (some op) ctx s)
  unfolding handle_replay replay_failed replay_pending set_mode terminating terminate_for_retry
      replay_started
  handle_replay-Settles semantics ids strategy op OperationStatus.succeeded ctx s e h =
      rw (e, handle_replay) (replay_succeeded-Settles ids op ctx s)
  handle_replay-Settles semantics ids strategy op OperationStatus.failed ctx s e h =
      rw (e, handle_replay) tt
  handle_replay-Settles semantics ids strategy op OperationStatus.pending ctx s e h =
      rw (e, handle_replay) tt
  handle_replay-Settles StepSemantics.at_most_once_per_retry ids strategy op OperationStatus.started
        ctx s e h =
      rw (e, handle_replay) (replay_interrupted-Settles ids strategy op ctx s)
  handle_replay-Settles StepSemantics.at_least_once_per_retry ids strategy op
        OperationStatus.started ctx s e h =
      absurd (cc h)
  handle_replay-Settles semantics ids strategy op OperationStatus.ready ctx s e h = absurd (cc h)
  handle_replay-Settles semantics ids strategy op OperationStatus.unknown ctx s e h = absurd (cc h)

  same_after :
      (run run' : Op S T) (o : Outcome S (Option T))
      → Settles IsSome Anything o
      → continue o (unless_replayed svc eager json run)
        ≡ continue o (unless_replayed svc eager json run')
  same_after run run' (done none ctx s) h = cc h
  same_after run run' (done (some v) ctx s) h = refl
  same_after run run' (failed e ctx s) h = refl
  same_after run run' (suspended ctx s) h = refl

  -- A step that replay has recorded as succeeded, failed or pending, or as started where its semantics
  -- are at most once, never runs its function: how it ends does not depend on the function.
  pub step-ignores_function :
      (f g : StepContext → S → Result BoxError T × S) (ctx : ExecutionContext) (s : S)
      (op : Operation)
      → replayed (step_key ctx) ctx ≡ some op
      → is_settled config.semantics op.status ≡ true
      → step svc eager json hash default_strategy name f config ctx s
        ≡ step svc eager json hash default_strategy name g config ctx s
  unfolding step next_operation_id
  step-ignores_function f g ctx s op e h =
      rw (e, step)
        (same_after _ _ _
          (handle_replay-Settles config.semantics _ _ op op.status (counted ctx) s refl h))
