-- ===== src/Runtime/Waits.antt =====
-- An invocation that reaches a pending wait: src/runtime/handler/execute.rs with
-- src/context/execution_context.rs and src/context/durable_context/wait/execute.rs.
use lambda_durable_execution.Base.{String, ◌≡◌, refl, ap, ◌∙◌, inr, Bool, false, Option, some, List}
use lambda_durable_execution.Base.Result.{ok}
use lambda_durable_execution.Base.Dict
use lambda_durable_execution.Duration.{Duration, is_zero}
use lambda_durable_execution.Types.{Operation, OperationStatus, DurableExecutionInvocationInput}
use lambda_durable_execution.Termination.{
  TerminationReason, plain, terminate_for_wait, new_termination_manager,
  set_checkpoint_terminating_callback,
}
use lambda_durable_execution.Termination.FirstWins.{terminate-signals}
use lambda_durable_execution.Checkpoint.{LambdaService, new_manager}
use lambda_durable_execution.Checkpoint.Lifecycle.{is_finished}
use lambda_durable_execution.Context.{
  ExecutionContext, ExecutionMode, load_context, new_context, next_operation_id,
}
use lambda_durable_execution.Context.Run.{
  Outcome, suspended, Op, Json, ◌>>=◌, continue, set_mode, terminating,
}
use lambda_durable_execution.Operations.Wait.{suspend_wait, replay_wait, run_wait, wait}
use lambda_durable_execution.Runtime.{
  with_context, pending_output, signal_of, input_payload, run_handler, start_handler,
  execute_durable_handler, termination_output,
}
use lambda_durable_execution.Runtime.Outputs.{RepliesWith, run_handler-Terminated}

module _ {S : Type 0} where
  -- Suspended with a wait as the reason, the queue and the worker as they were.
  abbrev SuspendsForWait : {A : Type 0} → ExecutionContext → S → Outcome S A → Type 0
  SuspendsForWait ctx s o =
      (c : ExecutionContext) × (o ≡ suspended c s)
      × (signal_of c ≡ some (plain TerminationReason.wait_scheduled))
      × (c.checkpoint_manager.is_processing ≡ ctx.checkpoint_manager.is_processing)
      × (c.checkpoint_manager.queue ≡ ctx.checkpoint_manager.queue)

  suspend_wait-Suspends :
      (ctx : ExecutionContext) (s : S)
      → ctx.checkpoint_manager.termination_manager.terminated ≡ false
      → SuspendsForWait ctx s (suspend_wait ctx s)
  unfolding suspend_wait terminating terminate_for_wait
  suspend_wait-Suspends ctx s h =
      let m = ctx.checkpoint_manager in
      (
        _,
        refl,
        terminate-signals (plain TerminationReason.wait_scheduled) m.termination_manager
            m.is_terminating h,
        refl,
        refl,
      )

  replay_wait-Suspends :
      (status : OperationStatus) (ctx : ExecutionContext) (s : S)
      → is_finished status ≡ false
      → ctx.checkpoint_manager.termination_manager.terminated ≡ false
      → SuspendsForWait ctx s (replay_wait status ctx s)
  unfolding replay_wait set_mode
  replay_wait-Suspends OperationStatus.succeeded ctx s f h = absurd (cc f)
  replay_wait-Suspends OperationStatus.failed ctx s f h = absurd (cc f)
  replay_wait-Suspends OperationStatus.ready ctx s f h =
      suspend_wait-Suspends (record ctx { mode = ExecutionMode.execution }) s h
  replay_wait-Suspends OperationStatus.started ctx s f h =
      suspend_wait-Suspends (record ctx { mode = ExecutionMode.execution }) s h
  replay_wait-Suspends OperationStatus.pending ctx s f h =
      suspend_wait-Suspends (record ctx { mode = ExecutionMode.execution }) s h
  replay_wait-Suspends OperationStatus.unknown ctx s f h =
      suspend_wait-Suspends (record ctx { mode = ExecutionMode.execution }) s h

module _ {S : Type 0} (svc : LambdaService S) where
  wait-Suspends :
      (hash : String → String) (name : Option String) (d : Duration) (ctx : ExecutionContext)
      (s : S) (op : Operation)
      → is_zero d ≡ false
      → Dict.get (hash (next_operation_id name ctx).0) ctx.step_data ≡ some op
      → is_finished op.status ≡ false
      → ctx.checkpoint_manager.termination_manager.terminated ≡ false
      → SuspendsForWait (next_operation_id name ctx).1 s (wait svc hash name d ctx s)
  unfolding wait run_wait next_operation_id
  wait-Suspends hash name d ctx s op z h f t =
      rw (z, run_wait)
        (rw (h, run_wait) (replay_wait-Suspends op.status (next_operation_id name ctx).1 s f t))

module _ {S E R : Type 0} (svc : LambdaService S) (json_event : Json E) (json : Json R)
    (hash : String → String) (uuid : String) (handler_first : Bool) where
  -- A handler whose first operation is a wait of a positive time, that replay has recorded and not as
  -- finished: once the pages of the state are loaded and the event is read, the invocation replies
  -- PENDING, with an empty queue, and the rest of the handler is not run.
  pub execute_durable_handler-Waits :
      (input : DurableExecutionInvocationInput) (stored : List (String × Operation)) (text : String)
      (event : E) (name : Option String) (d : Duration) (rest : E → Unit {0} → Op S R) (s s' : S)
      (op : Operation)
      → load_context svc input s ≡ (ok (new_context input stored), s')
      → input_payload (Dict.values stored) ≡ ok text
      → json_event.from_str text ≡ ok event
      → is_zero d ≡ false
      → Dict.get (hash (next_operation_id name (new_context input stored)).0) stored ≡ some op
      → is_finished op.status ≡ false
      → RepliesWith (ok pending_output) (
          execute_durable_handler svc json_event json hash uuid handler_first input
            (λ e. wait svc hash name d >>= rest e)
            s)
  unfolding execute_durable_handler with_context start_handler new_context new_manager
      new_termination_manager set_checkpoint_terminating_callback next_operation_id
      termination_output plain
  execute_durable_handler-Waits input stored text event name d rest s s' op l p j z h f =
      let ctx = new_context input stored in
      let handler : E → Op S R = λ e. wait svc hash name d >>= rest e in
      let (c, o, g, idle, empty) = wait-Suspends svc hash name d ctx s' op z h f refl in
      let reply =
        run_handler-Terminated svc json_event json hash uuid handler_first handler event ctx c s' s'
          (plain TerminationReason.wait_scheduled) (ap (λ x. continue x (rest event)) o) g
          (inr (idle, empty)) in
      let run = start_handler svc json_event json hash uuid handler_first handler in
      let read : run (ok text) ctx s'
          ≡ run_handler svc json_event json hash uuid handler_first handler event ctx s' =
        rw (j, start_handler) refl in
      let (m, t, q, e) = reply in
      (
        m,
        t,
        ap (λ x. with_context svc json_event json hash uuid handler_first handler x.0 x.1) l
            ∙ ap (λ x. run x ctx s') p
            ∙ read
            ∙ q,
        e,
      )
