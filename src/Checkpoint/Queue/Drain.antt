-- ===== src/Checkpoint/Queue/Drain.antt =====
-- The worker empties the queue and wakes every waiter, whatever the service answers.
use lambda_durable_execution.Base.{
  ℕ, zero, suc, ◌<◌, ◌≡◌, refl, sym, ap, ◌∙◌, subst, inl, inr, true, false, some, List, [], ◌∷◌,
  ◌++◌, map, foldl, arith, Bool-cases, length, is_empty, All, All-append,
}
use lambda_durable_execution.Base.Result.{Result, ok, err, ◌>>=◌}
use lambda_durable_execution.Base.Result.{Result-cases}
use lambda_durable_execution.Errors.{DurableError}
use lambda_durable_execution.Types.{OperationUpdate, CheckpointResponse}
use lambda_durable_execution.Checkpoint.{QueuedCheckpoint, CheckpointManager, LambdaService}
use lambda_durable_execution.Checkpoint.Batch.{take_batch}
use lambda_durable_execution.Checkpoint.Batch.Bounds.{take_batch-Filled, length-take_batch}
use lambda_durable_execution.Checkpoint.Coalesce.{coalesce_updates}
use lambda_durable_execution.Checkpoint.Queue.{
  apply_response, complete_item, fail_batch, check_and_schedule_termination, finish_processing,
  process_batch, process_queue, woken,
}
use lambda_durable_execution.Checkpoint.Queue.Wakeups.{
  AllWoken, Keeps, Same, fold-Keeps, fold-AllWoken, fold-queue, complete_wakes, complete_quiet,
  AllWoken-Keeps, check-Same, apply-Same, Same-Keeps, fail_batch-Drained,
}

-- What the worker leaves.
pub record Drained (m m' : CheckpointManager) : Type 0 where
  pub emptied : m'.queue ≡ []
  pub idle : m'.is_processing ≡ false
  pub all_woken : AllWoken m' m.queue
  pub keeps : Keeps m m'

-- A round that was sent leaves the rest of the queue and has woken the batch.
sent-Same :
    (m1 m2 : CheckpointManager) (batch : List QueuedCheckpoint)
    → Same m1 m2
    → let m3 = check_and_schedule_termination (foldl complete_item m2 batch) in
      (m3.queue ≡ m1.queue) × AllWoken m3 batch × Keeps m1 m3
sent-Same m1 m2 batch e =
    let m2' = foldl complete_item m2 batch in
    let m3 = check_and_schedule_termination m2' in
    let k3 : Keeps m2' m3 = Same-Keeps m2' m3 (check-Same m2') in
    (
      (check-Same m2').0 ∙ fold-queue complete_item complete_wakes complete_quiet batch m2 ∙ e.0,
      AllWoken-Keeps m2' m3 batch k3
          (fold-AllWoken complete_item complete_wakes complete_quiet batch m2),
      λ k h. k3 k (
          fold-Keeps complete_item complete_wakes complete_quiet batch m2 k
            (Same-Keeps m1 m2 e k h)),
    )

All-split {ℓ κ} :
    {A : Type ℓ} (P : A → Type κ) (xs ys zs : List A)
    → xs ++ ys ≡ zs
    → All P xs
    → All P ys
    → All P zs
All-split P xs ys zs e h k = subst (All P) e (All-append P xs ys h k)

reply-Same :
    (r : Result DurableError CheckpointResponse) (m m' : CheckpointManager)
    → (r >>= λ x. ok (apply_response x m)) ≡ ok m'
    → Same m m'
reply-Same (ok x) m m' h = subst (Same m) {x = apply_response x m} {y = m'} (cc) (apply-Same x m)
reply-Same (err e) m m' h = cc

module _ {S : Type 0} (svc : LambdaService S) where
  process_batch-Same :
      (us : List OperationUpdate) (m m' : CheckpointManager) (s : S)
      → (process_batch svc us m s).0 ≡ ok m'
      → Same m m'
  unfolding process_batch
  process_batch-Same us m m' s h = elim (Result-cases (coalesce_updates us)) [
    | inl (us', e) ↦ reply-Same _ m m' (rw (e, process_batch) at h)
    | inr (x, e) ↦ absurd (cc (rw (e, process_batch) at h))
  ]

  module _ (fuel : ℕ) (m : CheckpointManager) (s : S) where
    pub process_queue_done :
        is_empty m.queue ≡ true → process_queue svc (suc fuel) m s ≡ some (finish_processing m, s)
    unfolding process_queue
    process_queue_done h = rw (h, process_queue)

    abbrev pub batch_of : List QueuedCheckpoint
    batch_of = (take_batch m.queue).0

    abbrev pub left : CheckpointManager
    left = record m { queue = (take_batch m.queue).1 }

    abbrev pub sent : Result DurableError CheckpointManager × S
    sent = process_batch svc (map (λ c. c.update) batch_of) left s

    pub process_queue_failed :
        (e : DurableError)
        → is_empty m.queue ≡ false
        → sent.0 ≡ err e
        → process_queue svc (suc fuel) m s
          ≡ some (finish_processing (fail_batch e batch_of left), sent.1)
    unfolding process_queue
    process_queue_failed e h k = rw (h, process_queue) (rw (k, process_queue))

    pub process_queue_sent :
        (m' : CheckpointManager)
        → is_empty m.queue ≡ false
        → sent.0 ≡ ok m'
        → process_queue svc (suc fuel) m s
          ≡ process_queue svc fuel
              (check_and_schedule_termination (foldl complete_item m' batch_of))
              sent.1
    unfolding process_queue
    process_queue_sent m' h k = rw (h, process_queue) (rw (k, process_queue))

  length-left :
      (m : CheckpointManager)
      → is_empty m.queue ≡ false
      → length (take_batch m.queue).1 < length m.queue
  length-left m h = shorter m.queue h
    where
      shorter :
          (q : List QueuedCheckpoint) → is_empty q ≡ false → length (take_batch q).1 < length q
      shorter [] h = cc
      shorter (c ∷ q) h = omega (arith, length-take_batch c q)

  queue_of_empty : (q : List QueuedCheckpoint) → is_empty q ≡ true → q ≡ []
  queue_of_empty [] h = refl
  queue_of_empty (c ∷ q) h = cc

  done-Drained : (m : CheckpointManager) → is_empty m.queue ≡ true → Drained m (finish_processing m)
  unfolding finish_processing
  done-Drained m h =
      let e = queue_of_empty m.queue h in
      record {
        emptied = e;
        idle = refl;
        all_woken = subst (All (λ c. woken c.notify m.notified ≡ true)) (sym e) tt;
        keeps = λ k w. w;
      }

  pub failed-Drained :
      (e : DurableError) (m : CheckpointManager)
      → Drained m (
          finish_processing
            (fail_batch e (take_batch m.queue).0 (record m { queue = (take_batch m.queue).1 })))
  failed-Drained e m =
      let parts = take_batch m.queue in
      let left = record m { queue = parts.1 } in
      let m' = finish_processing (fail_batch e parts.0 left) in
      let (empty, idle, batch, rest, keeps) = fail_batch-Drained e parts.0 left in
      record {
        emptied = empty;
        idle = idle;
        all_woken =
            All-split (λ c. woken c.notify m'.notified ≡ true) parts.0 parts.1 m.queue
              (take_batch-Filled m.queue).in_order batch rest;
        keeps = keeps;
      }

  -- With fuel above the length of the queue the worker ends; the queue is then empty, nobody is
  -- processing, and every item that was queued has been woken, whatever the service answers.
  pub process_queue-Drained :
      (fuel : ℕ) (m : CheckpointManager) (s : S)
      → length m.queue < fuel
      → (m' : CheckpointManager) × (s' : S) × (process_queue svc fuel m s ≡ some (m', s'))
        × Drained m m'
  process_queue-Drained zero m s h = elim h [ ]
  process_queue-Drained (suc fuel) m s h = elim (Bool-cases (is_empty m.queue)) [
    | inl e ↦ (finish_processing m, s, process_queue_done fuel m s e, done-Drained m e)
    | inr e ↦ elim (Result-cases (sent fuel m s).0) [
      | inr (x, k) ↦ (
        finish_processing (fail_batch x (batch_of fuel m s) (left fuel m s)),
        (sent fuel m s).1,
        process_queue_failed fuel m s x e k,
        failed-Drained x m,
      )
      | inl (m1, k) ↦
          let same = process_batch-Same _ (left fuel m s) m1 s k in
          let m2 = check_and_schedule_termination (foldl complete_item m1 (batch_of fuel m s)) in
          let (q, batch, keeps) = sent-Same (left fuel m s) m1 (batch_of fuel m s) same in
          let (m', s', run, d) =
            process_queue-Drained fuel m2 (sent fuel m s).1
              (omega (arith, length-left m e, ap length q)) in
          (
            m',
            s',
            process_queue_sent fuel m s m1 e k ∙ run,
            record {
              emptied = d.emptied;
              idle = d.idle;
              all_woken =
                  All-split (λ c. woken c.notify m'.notified ≡ true) (batch_of fuel m s)
                    (left fuel m s).queue m.queue (take_batch-Filled m.queue).in_order
                    (AllWoken-Keeps m2 m' (batch_of fuel m s) d.keeps batch)
                    (subst (AllWoken m') q d.all_woken);
              keeps = λ n w. d.keeps n (keeps n w);
            },
          )
    ]
  ]
