-- ===== src/Checkpoint/Queue/Completion.antt =====
-- `wait_for_queue_completion` of src/checkpoint/manager.rs.
use lambda_durable_execution.Base.{
  ◌≡◌, arith, refl, ap, ◌∙◌, Bool, true, false, not, ◌&&◌, [], ◌∷◌, List, if◌then◌else◌, is_empty,
}
use lambda_durable_execution.Checkpoint.{QueuedCheckpoint, CheckpointManager, LambdaService, Worker}
use lambda_durable_execution.Checkpoint.Queue.{
  Scene, Ack, acknowledged, blocked, patience, work, worker_step, finish_processing,
}
use lambda_durable_execution.Checkpoint.Queue.Steps.{Attends, Attends-Finishes, work_settled}
use lambda_durable_execution.Checkpoint.Queue.Wakeups.{AllWoken}

abbrev pub is_complete : CheckpointManager → Bool
is_complete m = is_empty m.queue && not m.is_processing

module _ {S : Type 0} (svc : LambdaService S) where
  -- The look behind a notification; where it fails, no worker is left that would notify again.
  abbrev pub look_again : Scene S → Ack S
  look_again (w, m, s) =
      if is_complete m
      then acknowledged (record m { worker = w }) s
      else blocked (record m { worker = w }) s

  -- The worker's last act is the notification.
  unfoldable pub wait_for_queue_completion : CheckpointManager → S → Ack S
  unfolding work
  wait_for_queue_completion m s =
      if is_complete m
      then acknowledged m s
      else look_again (work svc (patience m) (m.worker, m, s))

  is_complete-false : (m : CheckpointManager) → m.is_processing ≡ true → is_complete m ≡ false
  is_complete-false m h = ground (arith, h)

  -- Where a worker has yet to look at the queue again, or to drain it behind a failed batch, the wait
  -- returns, with the queue empty, nobody processing, and everybody woken whose item was in the
  -- queue, whatever the service answers.
  pub wait_for_queue_completion-Drained :
      (m : CheckpointManager) (s : S)
      → m.is_processing ≡ true
      → Attends m.worker
      → (m' : CheckpointManager) × (s' : S) × (wait_for_queue_completion m s ≡ acknowledged m' s')
        × (m'.queue ≡ [])
        × (m'.is_processing ≡ false)
        × AllWoken m' m.queue
  unfolding wait_for_queue_completion
  wait_for_queue_completion-Drained m s h a =
      let f = Attends-Finishes svc m.worker m s a in
      let (k, l, w) = f.ends in
      let settled = work_settled svc (patience m) k (m.worker, m, s) f.last f.world l w in
      (
        record f.last { worker = Worker.left },
        f.world,
        rw (is_complete-false m h) (ap look_again settled ∙ rw (f.emptied, f.idle) refl),
        f.emptied,
        f.idle,
        f.all_woken,
      )

  is_complete-full :
      (m : CheckpointManager) (item : QueuedCheckpoint) (rest : List QueuedCheckpoint)
      → m.queue ≡ item ∷ rest
      → is_complete m ≡ false
  is_complete-full m item rest q = ap (λ xs. is_empty xs && not m.is_processing) q

  look_again-blocked :
      (w : Worker) (m : CheckpointManager) (s : S)
      → is_complete m ≡ false
      → look_again (w, m, s) ≡ blocked (record m { worker = w }) s
  look_again-blocked w m s h = rw (h) refl

  -- Behind a worker that has left its loop the wait for a queue that is not empty never returns: the
  -- worker leaves, and nobody looks at the queue again.
  pub wait_for_queue_completion-Lost :
      (m : CheckpointManager) (s : S) (item : QueuedCheckpoint) (rest : List QueuedCheckpoint)
      → m.worker ≡ Worker.leaving
      → m.queue ≡ item ∷ rest
      → wait_for_queue_completion m s
        ≡ blocked (record (finish_processing m) { worker = Worker.left }) s
  unfolding wait_for_queue_completion worker_step work finish_processing
  wait_for_queue_completion-Lost m s item rest l q =
      let settled =
        work_settled svc (patience m) 1 (Worker.leaving, m, s) (finish_processing m) s (omega arith)
          refl in
      rw (is_complete-full m item rest q) (
        ap (λ w. look_again (work svc (patience m) (w, m, s))) l
        ∙ ap look_again settled
        ∙ look_again-blocked Worker.left (finish_processing m) s
            (is_complete-full (finish_processing m) item rest q))

  -- An idle manager changes nothing.
  pub wait_for_queue_completion_idle :
      (m : CheckpointManager) (s : S)
      → m.is_processing ≡ false
      → m.queue ≡ []
      → wait_for_queue_completion m s ≡ acknowledged m s
  unfolding wait_for_queue_completion
  wait_for_queue_completion_idle m s h q = rw (q) (rw (h) refl)
