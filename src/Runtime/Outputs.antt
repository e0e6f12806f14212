-- ===== src/Runtime/Outputs.antt =====
-- What an invocation replies: src/runtime/handler/execute.rs.
use lambda_durable_execution.Base.{
  String, ◌≡◌, refl, ap, ◌∙◌, ◌⊎◌, inl, inr, Bool, true, false, Option, none, some, [], unwrap_or,
}
use lambda_durable_execution.Base.Result.{Result, ok, err}
use lambda_durable_execution.Errors.{DurableError, ErrorObject}
use lambda_durable_execution.Types.{InvocationStatus, DurableExecutionInvocationOutput}
use lambda_durable_execution.Termination.{TerminationReason, TerminationResult}
use lambda_durable_execution.Checkpoint.{CheckpointManager, LambdaService}
use lambda_durable_execution.Checkpoint.Queue.{Ack, acknowledged, blocked}
use lambda_durable_execution.Checkpoint.Queue.Steps.{Attends}
use lambda_durable_execution.Checkpoint.Queue.Completion.{
  wait_for_queue_completion, wait_for_queue_completion-Drained, wait_for_queue_completion_idle,
}
use lambda_durable_execution.Context.{ExecutionContext}
use lambda_durable_execution.Context.Run.{Outcome, done, failed, suspended, Op, Json}
use lambda_durable_execution.Runtime.{
  failed_output, pending_output, Reply, rejected, replied, hangs, handled, terminated, signal_of,
  completed, waited, race, termination_output, drained, build_output, run_handler,
}

-- A worker that will look at the queue again, or nothing to do.
abbrev pub Settleable : CheckpointManager → Type 0
Settleable m =
    ((m.is_processing ≡ true) × Attends m.worker) ⊎ ((m.is_processing ≡ false) × (m.queue ≡ []))

-- A reply with `r` and an empty queue.
abbrev pub RepliesWith :
    {S : Type 0} → Result String DurableExecutionInvocationOutput → Reply S → Type 0
RepliesWith {S} r o = (m : CheckpointManager) × (s : S) × (o ≡ replied r m s) × (m.queue ≡ [])

-- FAILED with an error, without a result, and with an empty queue.
abbrev pub RepliesFailed : {S : Type 0} → Reply S → Type 0
RepliesFailed {S} r =
    (e : ErrorObject) × RepliesWith
      (ok (record { status = InvocationStatus.failed; result = none; error = some e })) r

-- The answer that the reason of a termination calls for.
abbrev pub RepliesFor : {S : Type 0} → TerminationReason → Option String → Reply S → Type 0
RepliesFor TerminationReason.checkpoint_failed message r =
    RepliesWith (err (unwrap_or message "Checkpoint failed")) r
RepliesFor TerminationReason.serdes_failed message r =
    RepliesWith (err (unwrap_or message "Serdes operation failed")) r
RepliesFor TerminationReason.context_validation_error message r = RepliesFailed r
RepliesFor _ message r =
    RepliesWith (ok (record { status = InvocationStatus.pending; result = none; error = none })) r

RepliesFor-termination :
    {S : Type 0} (reason : TerminationReason) (message : Option String) (e : Option DurableError)
    (r : Reply S)
    → RepliesWith (termination_output reason message e) r
    → RepliesFor reason message r
unfolding termination_output pending_output failed_output
RepliesFor-termination TerminationReason.checkpoint_failed message e r h = h
RepliesFor-termination TerminationReason.serdes_failed message e r h = h
RepliesFor-termination TerminationReason.context_validation_error message e r h = (_, h)
RepliesFor-termination TerminationReason.retry_scheduled message e r h = h
RepliesFor-termination TerminationReason.wait_scheduled message e r h = h
RepliesFor-termination TerminationReason.callback_pending message e r h = h
RepliesFor-termination TerminationReason.invoke_pending message e r h = h
RepliesFor-termination TerminationReason.all_operations_idle message e r h = h
RepliesFor-termination TerminationReason.handler_completed message e r h = h
RepliesFor-termination TerminationReason.handler_failed message e r h = h

module _ {S : Type 0} (svc : LambdaService S) where
  settle :
      (m : CheckpointManager) (s : S)
      → Settleable m
      → (m' : CheckpointManager) × (s' : S) × (wait_for_queue_completion svc m s
          ≡ acknowledged m' s')
        × (m'.queue ≡ [])
  settle m s (inl h) =
      let (m', s', e, empty, _, _) = wait_for_queue_completion-Drained svc m s h.0 h.1 in
      (m', s', e, empty)
  settle m s (inr h) = (m, s, wait_for_queue_completion_idle svc m s h.0 h.1, h.1)

module _ {S E R : Type 0} (svc : LambdaService S) (json_event : Json E) (json : Json R)
    (hash : String → String) (uuid : String) (handler_first : Bool) where
  pub run_handler-Terminated :
      (handler : E → Op S R) (event : E) (ctx c : ExecutionContext) (s t : S)
      (r : TerminationResult)
      → handler event ctx s ≡ suspended c t
      → signal_of c ≡ some r
      → Settleable c.checkpoint_manager
      → RepliesWith
          (termination_output r.reason r.message r.error)
          (run_handler svc json_event json hash uuid handler_first handler event ctx s)
  unfolding run_handler race build_output
  run_handler-Terminated handler event ctx c s t r e g h =
      let (m', s', w, q) = settle svc c.checkpoint_manager t h in
      let m = c.checkpoint_manager in
      let last : build_output svc json hash uuid (terminated r m t)
          ≡ replied (termination_output r.reason r.message r.error) m' s' =
        rw (w) refl in
      (
        m',
        s',
        ap (λ o. build_output svc json hash uuid (race handler_first o)) e
            ∙ ap (λ x. build_output svc json hash uuid (waited x m t)) g
            ∙ last,
        q,
      )

  -- A handler that suspends is answered as soon as a reason for the termination is there: with an
  -- error of the Lambda runtime where a checkpoint or a serialization failed, FAILED where the context
  -- was used wrongly, and PENDING for every other reason, and with an empty queue. The manager has a
  -- worker that will look at its queue again or drain it, or it is idle with an empty queue.
  pub run_handler-Suspended :
      (handler : E → Op S R) (event : E) (ctx c : ExecutionContext) (s t : S)
      (r : TerminationResult)
      → handler event ctx s ≡ suspended c t
      → signal_of c ≡ some r
      → Settleable c.checkpoint_manager
      → RepliesFor r.reason r.message
          (run_handler svc json_event json hash uuid handler_first handler event ctx s)
  run_handler-Suspended handler event ctx c s t r e g h =
      RepliesFor-termination r.reason r.message r.error _
        (run_handler-Terminated handler event ctx c s t r e g h)

-- A status that says that the execution is done.
abbrev pub says_succeeded : InvocationStatus → Bool
says_succeeded InvocationStatus.succeeded = true
says_succeeded _ = false

-- Every output has `P`.
abbrev pub Replies : {S : Type 0} → (DurableExecutionInvocationOutput → Type 0) → Reply S → Type 0
Replies P (rejected e s) = Unit {0}
Replies P (replied (ok out) m s) = P out
Replies P (replied (err e) m s) = Unit {0}
Replies P hangs = Unit {0}

abbrev pub Unsucceeded : DurableExecutionInvocationOutput → Type 0
Unsucceeded out = says_succeeded out.status ≡ false

-- The handler has not returned a value.
abbrev pub has_value : {S A : Type 0} → Outcome S A → Bool
has_value (done a ctx s) = true
has_value (failed e ctx s) = false
has_value (suspended ctx s) = false

module _ {S : Type 0} (svc : LambdaService S) where
  drained-Replies :
      (P : DurableExecutionInvocationOutput → Type 0) (k : CheckpointManager → S → Reply S)
      (a : Ack S)
      → ((m : CheckpointManager) (s : S) → Replies P (k m s))
      → Replies P (drained svc k a)
  drained-Replies P k (acknowledged m s) f = f m s
  drained-Replies P k (blocked m s) f = tt

termination_output-Unsucceeded :
    {S : Type 0} (reason : TerminationReason) (message : Option String) (e : Option DurableError)
    (m : CheckpointManager) (s : S)
    → Replies Unsucceeded (replied (termination_output reason message e) m s)
unfolding termination_output pending_output failed_output
termination_output-Unsucceeded TerminationReason.retry_scheduled message e m s = refl
termination_output-Unsucceeded TerminationReason.wait_scheduled message e m s = refl
termination_output-Unsucceeded TerminationReason.callback_pending message e m s = refl
termination_output-Unsucceeded TerminationReason.invoke_pending message e m s = refl
termination_output-Unsucceeded TerminationReason.checkpoint_failed message e m s = tt
termination_output-Unsucceeded TerminationReason.serdes_failed message e m s = tt
termination_output-Unsucceeded TerminationReason.context_validation_error message e m s = refl
termination_output-Unsucceeded TerminationReason.all_operations_idle message e m s = refl
termination_output-Unsucceeded TerminationReason.handler_completed message e m s = refl
termination_output-Unsucceeded TerminationReason.handler_failed message e m s = refl

module _ {S R : Type 0} (svc : LambdaService S) (json : Json R) (hash : String → String)
    (uuid : String) where
  terminated-Unsucceeded :
      (t : TerminationResult) (m : CheckpointManager) (s : S)
      → Replies Unsucceeded (build_output svc json hash uuid (terminated t m s))
  unfolding build_output
  terminated-Unsucceeded t m s =
      drained-Replies svc Unsucceeded _ (wait_for_queue_completion svc m s)
        (λ m' s'. termination_output-Unsucceeded t.reason t.message t.error m' s')

  failed-Unsucceeded :
      (e : DurableError) (m : CheckpointManager) (s : S)
      → Replies Unsucceeded (build_output svc json hash uuid (handled (err e) m s))
  unfolding build_output failed_output
  failed-Unsucceeded e m s =
      drained-Replies svc Unsucceeded _ (wait_for_queue_completion svc m s) (λ m' s'. refl)

  completed-Unsucceeded :
      (first : Bool) (signal : Option TerminationResult) (e : DurableError) (m : CheckpointManager)
      (s : S)
      → Replies Unsucceeded (build_output svc json hash uuid (completed first signal (err e) m s))
  completed-Unsucceeded first none e m s = failed-Unsucceeded e m s
  completed-Unsucceeded true (some t) e m s = failed-Unsucceeded e m s
  completed-Unsucceeded false (some t) e m s = terminated-Unsucceeded t m s

  waited-Unsucceeded :
      (signal : Option TerminationResult) (m : CheckpointManager) (s : S)
      → Replies Unsucceeded (build_output svc json hash uuid (waited signal m s))
  unfolding build_output
  waited-Unsucceeded none m s = tt
  waited-Unsucceeded (some t) m s = terminated-Unsucceeded t m s

  raced-Unsucceeded :
      (first : Bool) (o : Outcome S R)
      → has_value o ≡ false
      → Replies Unsucceeded (build_output svc json hash uuid (race first o))
  unfolding race
  raced-Unsucceeded first (done v c s) h = absurd (cc h)
  raced-Unsucceeded first (failed e c s) h =
      completed-Unsucceeded first (signal_of c) e c.checkpoint_manager s
  raced-Unsucceeded first (suspended c s) h =
      waited-Unsucceeded (signal_of c) c.checkpoint_manager s

module _ {S E R : Type 0} (svc : LambdaService S) (json_event : Json E) (json : Json R)
    (hash : String → String) (uuid : String) (handler_first : Bool) where
  -- No invocation says SUCCEEDED unless its handler returned a value.
  pub run_handler-Unsucceeded :
      (handler : E → Op S R) (event : E) (ctx : ExecutionContext) (s : S)
      → has_value (handler event ctx s) ≡ false
      → Replies Unsucceeded
          (run_handler svc json_event json hash uuid handler_first handler event ctx s)
  unfolding run_handler
  run_handler-Unsucceeded handler event ctx s h =
      raced-Unsucceeded svc json hash uuid handler_first (handler event ctx s) h
