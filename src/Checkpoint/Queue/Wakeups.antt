-- ===== src/Checkpoint/Queue/Wakeups.antt =====
-- Which items the steps of the worker wake.
use lambda_durable_execution.Base.{
  ℕ, ◌≡◌, refl, ◌∙◌, subst, true, false, List, [], ◌∷◌, foldl, arith, All,
}
use lambda_durable_execution.Errors.{DurableError}
use lambda_durable_execution.Types.{CheckpointResponse}
use lambda_durable_execution.Checkpoint.{QueuedCheckpoint, CheckpointManager}
use lambda_durable_execution.Checkpoint.Queue.{
  apply_response, complete_item, notify_item, clear_pending, drop_queue, signal_failure, fail_batch,
  check_and_schedule_termination, finish_processing, woken,
}

woken_here : (n : ℕ) (ns : List ℕ) → woken n (n ∷ ns) ≡ true
woken_here n ns = ground arith

pub woken_later : (k n : ℕ) (ns : List ℕ) → woken k ns ≡ true → woken k (n ∷ ns) ≡ true
woken_later k n ns h = ground arith

abbrev pub AllWoken : CheckpointManager → List QueuedCheckpoint → Type 0
AllWoken m = All (λ c. woken c.notify m.notified ≡ true)

-- Nobody who was woken before is forgotten.
abbrev pub Keeps : CheckpointManager → CheckpointManager → Type 0
Keeps m m' = (k : ℕ) → woken k m.notified ≡ true → woken k m'.notified ≡ true

-- Walking a batch with a step that wakes its item.
module _ (f : CheckpointManager → QueuedCheckpoint → CheckpointManager)
    (wakes : (m : CheckpointManager) (c : QueuedCheckpoint)
      → (f m c).notified ≡ c.notify ∷ m.notified)
    (quiet : (m : CheckpointManager) (c : QueuedCheckpoint) → (f m c).queue ≡ m.queue) where
  pub fold-Keeps : (cs : List QueuedCheckpoint) (m : CheckpointManager) → Keeps m (foldl f m cs)
  fold-Keeps [] m k h = h
  fold-Keeps (c ∷ cs) m k h =
      fold-Keeps cs (f m c) k (rw (wakes m c) (woken_later k c.notify m.notified h))

  pub fold-AllWoken :
      (cs : List QueuedCheckpoint) (m : CheckpointManager) → AllWoken (foldl f m cs) cs
  fold-AllWoken [] m = tt
  fold-AllWoken (c ∷ cs) m = (
    fold-Keeps cs (f m c) c.notify (rw (wakes m c) (woken_here c.notify m.notified)),
    fold-AllWoken cs (f m c),
  )

  pub fold-queue :
      (cs : List QueuedCheckpoint) (m : CheckpointManager) → (foldl f m cs).queue ≡ m.queue
  fold-queue [] m = refl
  fold-queue (c ∷ cs) m = fold-queue cs (f m c) ∙ quiet m c

pub complete_wakes :
    (m : CheckpointManager) (c : QueuedCheckpoint)
    → (complete_item m c).notified ≡ c.notify ∷ m.notified
unfolding complete_item
complete_wakes m c = refl

pub complete_quiet :
    (m : CheckpointManager) (c : QueuedCheckpoint) → (complete_item m c).queue ≡ m.queue
unfolding complete_item
complete_quiet m c = refl

notify_wakes :
    (m : CheckpointManager) (c : QueuedCheckpoint)
    → (notify_item m c).notified ≡ c.notify ∷ m.notified
unfolding notify_item
notify_wakes m c = refl

notify_quiet : (m : CheckpointManager) (c : QueuedCheckpoint) → (notify_item m c).queue ≡ m.queue
unfolding notify_item
notify_quiet m c = refl

pub AllWoken-Keeps :
    (m m' : CheckpointManager) (cs : List QueuedCheckpoint)
    → Keeps m m'
    → AllWoken m cs
    → AllWoken m' cs
AllWoken-Keeps m m' [] k h = tt
AllWoken-Keeps m m' (c ∷ cs) k h = (k c.notify h.0, AllWoken-Keeps m m' cs k h.1)

-- A manager that differs in nothing that the queue needs.
abbrev pub Same : CheckpointManager → CheckpointManager → Type 0
Same m m' = (m'.queue ≡ m.queue) × (m'.notified ≡ m.notified)

pub check-Same : (m : CheckpointManager) → Same m (check_and_schedule_termination m)
unfolding check_and_schedule_termination
check-Same m = ground arith

signal-Same : (e : DurableError) (m : CheckpointManager) → Same m (signal_failure e m)
unfolding signal_failure
signal-Same e m = (refl, refl)

clear-Same : (m : CheckpointManager) → Same m (clear_pending m)
unfolding clear_pending
clear-Same m = (refl, refl)

pub apply-Same : (r : CheckpointResponse) (m : CheckpointManager) → Same m (apply_response r m)
unfolding apply_response
apply-Same r m = (refl, refl)

pub Same-Keeps : (m m' : CheckpointManager) → Same m m' → Keeps m m'
Same-Keeps m m' e k h = rw e.1 h

drop_queue-Drained :
    (m : CheckpointManager)
    → ((drop_queue m).queue ≡ []) × AllWoken (drop_queue m) m.queue × Keeps m (drop_queue m)
unfolding drop_queue
drop_queue-Drained m = (
  refl,
  fold-AllWoken notify_item notify_wakes notify_quiet m.queue m,
  fold-Keeps notify_item notify_wakes notify_quiet m.queue m,
)

pub fail_batch-Drained :
    (e : DurableError) (batch : List QueuedCheckpoint) (m : CheckpointManager)
    → let m' = finish_processing (fail_batch e batch m) in
      (m'.queue ≡ [])
      × (m'.is_processing ≡ false)
      × AllWoken m' batch
      × AllWoken m' m.queue
      × Keeps m m'
unfolding finish_processing fail_batch
fail_batch-Drained e batch m =
    let m1 = foldl notify_item m batch in
    let m2 = clear_pending m1 in
    let m3 = drop_queue m2 in
    let m4 = signal_failure e m3 in
    let k2 : Keeps m1 m2 = Same-Keeps m1 m2 (clear-Same m1) in
    let (empty, dropped, k3) = drop_queue-Drained m2 in
    let k4 : Keeps m3 m4 = Same-Keeps m3 m4 (signal-Same e m3) in
    let k14 : Keeps m1 m4 = λ k h. k4 k (k3 k (k2 k h)) in
    let queue2 : m2.queue ≡ m.queue =
      (clear-Same m1).0 ∙ fold-queue notify_item notify_wakes notify_quiet batch m in
    (
      (signal-Same e m3).0 ∙ empty,
      refl,
      AllWoken-Keeps m1 m4 batch k14 (fold-AllWoken notify_item notify_wakes notify_quiet batch m),
      subst (AllWoken m4) queue2 (AllWoken-Keeps m3 m4 m2.queue k4 dropped),
      λ k h. k14 k (fold-Keeps notify_item notify_wakes notify_quiet batch m k h),
    )
