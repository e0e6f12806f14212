-- ===== src/Checkpoint/Queue/Outcome.antt =====
-- What a caller of `checkpoint` sees.
use lambda_durable_execution.Base.{
  ℕ, ap, ◌∙◌, inl, inr, String, ◌≡◌, refl, subst, ◌⊎◌, true, false, none, some, List, [], ◌∷◌, ◌++◌,
  arith, All,
}
use lambda_durable_execution.Types.{OperationUpdate}
use lambda_durable_execution.Checkpoint.{CheckpointManager, LambdaService}
use lambda_durable_execution.Checkpoint.Lifecycle.{
  has_finished_ancestor, update_operation_lifecycle,
}
use lambda_durable_execution.Checkpoint.Queue.{
  Scene, accept, enqueue, acknowledged, blocked, woken, checkpoint, patience, until_woken, work,
  await_notify, resume,
}
use lambda_durable_execution.Checkpoint.Queue.Wakeups.{AllWoken}
use lambda_durable_execution.Checkpoint.Queue.Steps.{Attends, Attends-Finishes, until_woken-woken}

pub accept-queue :
    (id : String) (u : OperationUpdate) (m : CheckpointManager)
    → (accept id u m).queue
      ≡ m.queue ++ (record { step_id = id; update = u; notify = m.next_notify }) ∷ []
unfolding accept update_operation_lifecycle
accept-queue id u m = refl

pub enqueue-accept :
    (id : String) (u : OperationUpdate) (m : CheckpointManager)
    → m.is_terminating ≡ false
    → has_finished_ancestor m u ≡ false
    → enqueue id u m ≡ some (accept id u m, m.next_notify)
unfolding enqueue
enqueue-accept id u m t a = simp (t, a)

enqueue-none :
    (id : String) (u : OperationUpdate) (m : CheckpointManager)
    → (m.is_terminating ≡ true) ⊎ (has_finished_ancestor m u ≡ true)
    → enqueue id u m ≡ none
unfolding enqueue
enqueue-none id u m h = ground (arith, h)

pub last-All {ℓ κ} :
    {A : Type ℓ} (P : A → Type κ) (xs : List A) (x : A) → All P (xs ++ x ∷ []) → P x
last-All P [] x h = h.0
last-All P (y ∷ xs) x h = last-All P xs x h.1

module _ {S : Type 0} (svc : LambdaService S) where
  -- No worker, or one that will look at the queue again.
  abbrev pub IsAttended : CheckpointManager → Type 0
  IsAttended m = (m.is_processing ≡ false) ⊎ ((m.is_processing ≡ true) × Attends m.worker)

  accept-Attends :
      (id : String) (u : OperationUpdate) (m : CheckpointManager)
      → IsAttended m
      → Attends (accept id u m).worker
  unfolding accept
  accept-Attends id u m (inl h) = rw (h) tt
  accept-Attends id u m (inr (h, w)) = rw (h) w

  until_woken-accept :
      (id : String) (u : OperationUpdate) (m : CheckpointManager) (s : S)
      → IsAttended m
      → let m1 = accept id u m in
        woken m.next_notify
          (until_woken svc m.next_notify (patience m1) (m1.worker, m1, s)).1.notified
        ≡ true
  until_woken-accept id u m s h =
      let m1 = accept id u m in
      let f = Attends-Finishes svc m1.worker m1 s (accept-Attends id u m h) in
      let (k, l, w) = f.ends in
      until_woken-woken svc m.next_notify (patience m1) k (m1.worker, m1, s) l
        (ap (λ p. woken m.next_notify p.1.notified) w
          ∙ last-All _ m.queue _ (subst (AllWoken f.last) (accept-queue id u m) f.all_woken))

  -- Acknowledged, in a state where the item has been woken.
  await_notify-woken :
      (n : ℕ) (p : Scene S)
      → woken n p.1.notified ≡ true
      → await_notify svc n p ≡ resume svc (work svc (svc.head_start n) p)
  await_notify-woken n (w, m, s) h = rw (h) refl

  -- Where the manager is not terminating, the parent has not finished, and the worker, if there is
  -- one, has yet to look at the queue again or to drain it behind a failed batch, a checkpoint
  -- returns, whatever the service answers and however far the scheduler lets the worker run ahead.
  pub checkpoint_returns :
      (id : String) (u : OperationUpdate) (m : CheckpointManager) (s : S)
      → m.is_terminating ≡ false
      → has_finished_ancestor m u ≡ false
      → IsAttended m
      → (m' : CheckpointManager) × (s' : S) × (checkpoint svc id u m s ≡ acknowledged m' s')
  unfolding checkpoint
  checkpoint_returns id u m s t a h =
      let m1 = accept id u m in
      let p = until_woken svc m.next_notify (patience m1) (m1.worker, m1, s) in
      let (w, m2, s2) = work svc (svc.head_start m.next_notify) p in
      (
        record m2 { worker = w },
        s2,
        rw (enqueue-accept id u m t a)
            (await_notify-woken m.next_notify p (until_woken-accept id u m s h)),
      )

  -- Once the manager is terminating, or the parent has finished, a checkpoint blocks for ever and
  -- changes nothing.
  pub checkpoint_blocks :
      (id : String) (u : OperationUpdate) (m : CheckpointManager) (s : S)
      → (m.is_terminating ≡ true) ⊎ (has_finished_ancestor m u ≡ true)
      → checkpoint svc id u m s ≡ blocked m s
  unfolding checkpoint
  checkpoint_blocks id u m s h = rw (enqueue-none id u m h)
