-- ===== src/Checkpoint/Queue.antt =====
-- src/checkpoint/manager/queue.rs and the queueing operations of src/checkpoint/manager.rs. The worker
-- is a task of its own: it takes steps until the caller of a checkpoint is woken, and then as many
-- more as the scheduler gives it; what is left of it runs at a later await. Two callers at a time are
-- steps of `Race`.
pub mod Wakeups
pub mod Drain
pub mod Outcome
pub mod Steps
pub mod Race
pub mod Completion
use lambda_durable_execution.Base.{
  ℕ, zero, suc, ◌+◌, String, Bool, true, false, Option, none, some, List, [], ◌∷◌, ◌++◌, map, foldl,
  ◌*◌, ◌==◌, if◌then◌else◌, unwrap_or, length, is_empty, any,
}
use lambda_durable_execution.Base.Result.{Result, ok, err, ◌>>=◌, ◌>>◌}
use lambda_durable_execution.Base.Dict
use lambda_durable_execution.Errors.{DurableError}
use lambda_durable_execution.Types.{
  Operation, OperationAction, OperationUpdate, CheckpointResponse, ExecutionState,
}
use lambda_durable_execution.Termination.{terminate_for_retry, terminate_for_checkpoint_failure}
use lambda_durable_execution.Checkpoint.{
  OperationLifecycle, OperationInfo, QueuedCheckpoint, CheckpointManager, LambdaService, Worker,
  set_insert, set_remove,
}
use lambda_durable_execution.Checkpoint.Coalesce.{coalesce_updates}
use lambda_durable_execution.Checkpoint.Lifecycle.{
  has_finished_ancestor, update_operation_lifecycle,
}
use lambda_durable_execution.Checkpoint.Batch.{take_batch}

-- `matches!(action, Succeed | Fail)`.
abbrev pub completes : OperationAction → Bool
completes OperationAction.succeed = true
completes OperationAction.fail = true
completes _ = false

unfoldable pub store_operations :
    List Operation → List (String × Operation) → List (String × Operation)
store_operations [] m = m
store_operations (op ∷ ops) m = store_operations ops (Dict.insert op.id op m)

abbrev new_state : Option ExecutionState → List (String × Operation) → List (String × Operation)
new_state none m = m
new_state (some state) m = store_operations state.operations m

-- The part of `process_batch` behind a successful reply.
unfoldable pub apply_response : CheckpointResponse → CheckpointManager → CheckpointManager
unfolding store_operations
apply_response r m = record m {
  checkpoint_token = unwrap_or r.checkpoint_token m.checkpoint_token;
  step_data = new_state r.new_execution_state m.step_data;
}

-- `notify_one` on an item, with its completion no longer pending.
unfoldable pub complete_item : CheckpointManager → QueuedCheckpoint → CheckpointManager
complete_item m c = record m {
  pending_completions =
      if completes c.update.action
      then set_remove c.step_id m.pending_completions
      else m.pending_completions;
  notified = c.notify ∷ m.notified;
}

unfoldable pub notify_item : CheckpointManager → QueuedCheckpoint → CheckpointManager
notify_item m c = record m { notified = c.notify ∷ m.notified }

unfoldable pub clear_pending : CheckpointManager → CheckpointManager
clear_pending m = record m { pending_completions = [] }

-- `queue.drain(..)`, each item notified.
unfoldable pub drop_queue : CheckpointManager → CheckpointManager
unfolding notify_item
drop_queue m = record (foldl notify_item m m.queue) { queue = [] }

unfoldable pub signal_failure : DurableError → CheckpointManager → CheckpointManager
signal_failure e m =
    let (t, terminating) =
      terminate_for_checkpoint_failure e (m.termination_manager, m.is_terminating) in
    record m { termination_manager = t; is_terminating = terminating }

-- The `Err` branch: everybody is woken, the queue is dropped, and the execution terminates.
unfoldable pub fail_batch :
    DurableError → List QueuedCheckpoint → CheckpointManager → CheckpointManager
unfolding notify_item clear_pending drop_queue signal_failure
fail_batch e batch m = signal_failure e (drop_queue (clear_pending (foldl notify_item m batch)))

abbrev pub is_retry_waiting : OperationLifecycle → Bool
is_retry_waiting OperationLifecycle.retry_waiting = true
is_retry_waiting _ = false

unfoldable pub any_retry_waiting : List (String × OperationInfo) → Bool
any_retry_waiting ops = any (λ info. is_retry_waiting info.lifecycle) (Dict.values ops)

-- Whoever runs during the cooldown, the second look decides.
unfoldable pub check_and_schedule_termination : CheckpointManager → CheckpointManager
unfolding any_retry_waiting
check_and_schedule_termination m =
    let (t, terminating) = terminate_for_retry (m.termination_manager, m.is_terminating) in
    if any_retry_waiting m.operations
    then record m { termination_manager = t; is_terminating = terminating }
    else m

-- The end of `process_queue`.
unfoldable pub finish_processing : CheckpointManager → CheckpointManager
finish_processing m = record m { is_processing = false }

module _ {S : Type 0} (svc : LambdaService S) where
  -- The manager is changed by a successful reply only.
  unfoldable pub process_batch :
      List OperationUpdate → CheckpointManager → S → Result DurableError CheckpointManager × S
  unfolding coalesce_updates apply_response
  process_batch updates m s = elim (coalesce_updates updates) [
    | err e ↦ (err e, s)
    | ok us ↦
        let (reply, s') =
          svc.checkpoint_durable_execution m.durable_execution_arn m.checkpoint_token us s in
        (reply >>= λ r. ok (apply_response r m), s')
  ]

  -- The loop of `process_queue`, on fuel: a failed batch ends it.
  unfoldable pub process_queue : ℕ → CheckpointManager → S → Option (CheckpointManager × S)
  unfolding process_batch take_batch complete_item fail_batch check_and_schedule_termination
      finish_processing
  process_queue zero m s = none
  process_queue (suc fuel) m s = elim (is_empty m.queue) [
    | true ↦ some (finish_processing m, s)
    | false ↦
        let (batch, rest) = take_batch m.queue in
        let (result, s') =
          process_batch (map (λ c. c.update) batch) (record m { queue = rest }) s in
        elim result [
          | err e ↦ some (finish_processing (fail_batch e batch (record m { queue = rest })), s')
          | ok m' ↦
              process_queue fuel (check_and_schedule_termination (foldl complete_item m' batch)) s'
        ]
  ]

abbrev pub Scene : Type 0 → Type 0
Scene S = Worker × CheckpointManager × S

module _ {S : Type 0} (svc : LambdaService S) where
  -- What `process_queue` does from one point to the next.
  unfoldable pub worker_step : Scene S → Scene S
  unfolding process_batch take_batch complete_item notify_item check_and_schedule_termination
      clear_pending drop_queue signal_failure finish_processing any_retry_waiting
  worker_step (Worker.looping, m, s) = elim (is_empty m.queue) [
    | true ↦ (Worker.leaving, m, s)
    | false ↦
        let (batch, rest) = take_batch m.queue in
        let (result, s') =
          process_batch svc (map (λ c. c.update) batch) (record m { queue = rest }) s in
        elim result [
          | err e ↦ (Worker.failing e, foldl notify_item (record m { queue = rest }) batch, s')
          | ok m' ↦ (Worker.checking, foldl complete_item m' batch, s')
        ]
  ]
  worker_step (Worker.checking, m, s) =
      (if any_retry_waiting m.operations then Worker.cooling else Worker.looping, m, s)
  worker_step (Worker.cooling, m, s) = (Worker.looping, check_and_schedule_termination m, s)
  worker_step (Worker.failing e, m, s) = (Worker.signalling e, drop_queue (clear_pending m), s)
  worker_step (Worker.signalling e, m, s) = (Worker.leaving, signal_failure e m, s)
  worker_step (Worker.leaving, m, s) = (Worker.left, finish_processing m, s)
  worker_step (Worker.left, m, s) = (Worker.left, m, s)

  unfoldable pub work : ℕ → Scene S → Scene S
  unfolding worker_step
  work zero p = p
  work (suc k) p = work k (worker_step p)

-- A checkpoint that is let in: its completion is pending, its lifecycle is tracked, its item is at
-- the end of the queue, and a worker is started unless somebody is processing.
unfoldable pub accept : String → OperationUpdate → CheckpointManager → CheckpointManager
accept step_id update m =
    let pending =
      if completes update.action
      then set_insert step_id m.pending_completions
      else m.pending_completions in
    let tracked = update_operation_lifecycle (record m { pending_completions = pending }) update in
    let item : QueuedCheckpoint = record {
      step_id = step_id;
      update = update;
      notify = m.next_notify;
    } in
    record tracked {
      queue = tracked.queue ++ item ∷ [];
      next_notify = m.next_notify + 1;
      is_processing = true;
      worker = if m.is_processing then m.worker else Worker.looping;
    }

-- What `checkpoint` and `checkpoint_queued` do before the worker, with the number of the new item:
-- `none` where they block for ever.
unfoldable pub enqueue :
    String → OperationUpdate → CheckpointManager → Option (CheckpointManager × ℕ)
enqueue step_id update m =
    if m.is_terminating
    then none
    else if has_finished_ancestor m update
    then none
    else some (accept step_id update m, m.next_notify)

-- The outcome of a checkpoint: acknowledged, or blocked for ever.
pub data Ack (S : Type 0) : Type 0 where
  acknowledged : CheckpointManager → S → Ack S
  blocked : CheckpointManager → S → Ack S

abbrev pub woken : ℕ → List ℕ → Bool
woken n notified = any (λ k. k == n) notified

-- Enough steps for a worker to empty its queue.
abbrev pub patience : CheckpointManager → ℕ
patience m = 4 * (length m.queue + 2)

module _ {S : Type 0} (svc : LambdaService S) where
  -- The worker's steps until an item is woken.
  unfoldable pub until_woken : ℕ → ℕ → Scene S → Scene S
  unfolding worker_step
  until_woken n zero p = p
  until_woken n (suc fuel) (w, m, s) =
      let rest = until_woken n fuel (worker_step svc (w, m, s)) in
      if woken n m.notified then (w, m, s) else rest

  abbrev pub resume : Scene S → Ack S
  resume (w, m, s) = acknowledged (record m { worker = w }) s

  -- Behind the notification the result is `Ok(())`, also for a batch that failed. A caller that is
  -- never woken waits for ever.
  abbrev pub await_notify : ℕ → Scene S → Ack S
  await_notify n (w, m, s) =
      if woken n m.notified
      then resume (work svc (svc.head_start n) (w, m, s))
      else blocked (record m { worker = w }) s

  abbrev pub run_enqueued : CheckpointManager → S → Option (CheckpointManager × ℕ) → Ack S
  run_enqueued m s none = blocked m s
  run_enqueued m s (some (m', n)) = await_notify n (until_woken n (patience m') (m'.worker, m', s))

  unfoldable pub checkpoint : String → OperationUpdate → CheckpointManager → S → Ack S
  unfolding enqueue until_woken work
  checkpoint step_id update m s = run_enqueued m s (enqueue step_id update m)

  abbrev run_queued : Bool → CheckpointManager → S → Option (CheckpointManager × ℕ) → Ack S
  run_queued eager m s none = blocked m s
  run_queued true m s (some (m', n)) = resume (work svc (svc.head_start n) (m'.worker, m', s))
  run_queued false m s (some (m', n)) = acknowledged m' s

  -- The scheduler chooses whether the worker runs at once (`eager`) or at a later await.
  unfoldable pub checkpoint_queued : Bool → String → OperationUpdate → CheckpointManager → S → Ack S
  unfolding enqueue work
  checkpoint_queued eager step_id update m s = run_queued eager m s (enqueue step_id update m)

  unfoldable pub force_checkpoint :
      CheckpointManager → S → Result DurableError CheckpointManager × S
  unfolding process_batch
  force_checkpoint m s = process_batch svc [] m s
