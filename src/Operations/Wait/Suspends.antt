-- ===== src/Operations/Wait/Suspends.antt =====
-- A wait that replay has no record of: src/context/durable_context/wait/execute.rs.
use lambda_durable_execution.Base.{String, ◌≡◌, refl, false, Option, none, some}
use lambda_durable_execution.Duration.{Duration, is_zero}
use lambda_durable_execution.Types.{
  Operation, OperationType, OperationStatus, OperationAction, OperationUpdate,
}
use lambda_durable_execution.Types.Builder.{builder}
use lambda_durable_execution.Types.Builder.Checks.{build_complete}
use lambda_durable_execution.Checkpoint.{LambdaService, CheckpointManager}
use lambda_durable_execution.Checkpoint.Queue.{acknowledged, blocked, Ack, checkpoint}
use lambda_durable_execution.Context.{ExecutionContext, next_operation_id}
use lambda_durable_execution.Context.Run.{
  Outcome, acked, done, failed, suspended, Op, continue, set_mode, terminating, on_manager, built,
  send,
}
use lambda_durable_execution.Operations.{update_builder, replayed}
use lambda_durable_execution.Operations.Step.Builders.{Builds, seconds_not_negative}
use lambda_durable_execution.Operations.Wait.{
  wait_builder, suspend_wait, replay_wait, recheck_wait, start_wait, run_wait, wait, wait_failed,
}

pub wait_builder-Builds :
    (hashed_id : String) (parent_id name : Option String) (d : Duration)
    → Builds (wait_builder hashed_id parent_id name d)
unfolding wait_builder update_builder builder
wait_builder-Builds hashed_id parent_id name d =
    build_complete (wait_builder hashed_id parent_id name d) hashed_id OperationType.wait
      OperationAction.start refl refl refl
      (record {
        delay = refl;
        wait = seconds_not_negative d;
        timeout = refl;
        heartbeat = refl;
        function = refl;
      })

abbrev pub Suspended : {S A : Type 0} → Outcome S A → Type 0
Suspended {S} {A} o = (ctx : ExecutionContext) × (s : S) × (o ≡ suspended ctx s)

module _ {S : Type 0} where
  -- What a recorded status makes of a wait, in a state of the outside world that does not change.
  abbrev pub Replays : OperationStatus → S → Outcome S (Unit {0}) → Type 0
  Replays OperationStatus.succeeded s o = (ctx : ExecutionContext) × (o ≡ done tt ctx s)
  Replays OperationStatus.failed s o = (ctx : ExecutionContext) × (o ≡ failed wait_failed ctx s)
  Replays _ s o = (ctx : ExecutionContext) × (o ≡ suspended ctx s)

  replay_wait-Replays :
      (status : OperationStatus) (ctx : ExecutionContext) (s : S)
      → Replays status s (replay_wait status ctx s)
  unfolding replay_wait set_mode suspend_wait terminating
  replay_wait-Replays OperationStatus.succeeded ctx s = (_, refl)
  replay_wait-Replays OperationStatus.failed ctx s = (_, refl)
  replay_wait-Replays OperationStatus.ready ctx s = (_, refl)
  replay_wait-Replays OperationStatus.started ctx s = (_, refl)
  replay_wait-Replays OperationStatus.pending ctx s = (_, refl)
  replay_wait-Replays OperationStatus.unknown ctx s = (_, refl)

module _ {S : Type 0} (svc : LambdaService S) where
  -- Sending leaves the step data as it is.
  send_then :
      (A : Type 0) (id : String) (u : OperationUpdate) (k : Op S A) (ctx : ExecutionContext) (s : S)
      → ((m : CheckpointManager) (t : S) → Suspended (k (record ctx { checkpoint_manager = m }) t))
      → Suspended (continue (send svc id u ctx s) (λ _. k))
  unfolding send
  send_then A id u k ctx s h = after (checkpoint svc id u ctx.checkpoint_manager s)
    where
      after : (a : Ack S) → Suspended (continue (acked ctx a) (λ _. k))
      after (acknowledged m t) = h m t
      after (blocked m t) = (record ctx { checkpoint_manager = m }, t, refl)

  start_wait-Suspended :
      (name : Option String) (d : Duration) (step_id hashed_id : String) (ctx : ExecutionContext)
      (s : S)
      → replayed hashed_id ctx ≡ none
      → Suspended (start_wait svc name d step_id hashed_id ctx s)
  unfolding start_wait built recheck_wait on_manager suspend_wait terminating
  start_wait-Suspended name d step_id hashed_id ctx s h =
      let (u, b) = wait_builder-Builds hashed_id ctx.current_parent_id name d in
      rw (b, built) (send_then _ step_id u _ ctx s (λ m t. rw (h, recheck_wait) (_, _, refl)))

  -- A wait of a positive time that replay has no record of suspends, whatever the service answers to
  -- its START.
  pub wait-Suspended :
      (hash : String → String) (name : Option String) (d : Duration) (ctx : ExecutionContext)
      (s : S)
      → is_zero d ≡ false
      → replayed (hash (next_operation_id name ctx).0) ctx ≡ none
      → Suspended (wait svc hash name d ctx s)
  unfolding wait run_wait next_operation_id
  wait-Suspended hash name d ctx s z h =
      rw (z, run_wait)
        (rw (h, run_wait)
          (start_wait-Suspended name d (next_operation_id name ctx).0
            (hash (next_operation_id name ctx).0) (next_operation_id name ctx).1 s h))

  -- A wait of a positive time that replay has recorded returns where the record has succeeded, fails
  -- where it has failed, and suspends with any other status. The service is not called.
  pub wait-Replays :
      (hash : String → String) (name : Option String) (d : Duration) (ctx : ExecutionContext)
      (s : S) (op : Operation)
      → is_zero d ≡ false
      → replayed (hash (next_operation_id name ctx).0) ctx ≡ some op
      → Replays op.status s (wait svc hash name d ctx s)
  unfolding wait run_wait next_operation_id
  wait-Replays hash name d ctx s op z h =
      rw (z, run_wait)
        (rw (h, run_wait) (replay_wait-Replays op.status (next_operation_id name ctx).1 s))
