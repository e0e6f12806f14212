-- ===== src/Checkpoint/Queue/Steps.antt =====
-- The worker's steps, up to its end.
use lambda_durable_execution.Base.{
  ℕ, zero, suc, ◌+◌, ◌*◌, ◌≤◌, ◌≡◌, refl, sym, ap, ◌∙◌, subst, inl, inr, true, false, some, Option,
  [], foldl, arith, Bool-cases, length, is_empty,
}
use lambda_durable_execution.Base.Result.{ok, err, Result-cases}
use Prim.{⊥}
use lambda_durable_execution.Errors.{DurableError}
use lambda_durable_execution.Checkpoint.{CheckpointManager, LambdaService, Worker}
use lambda_durable_execution.Checkpoint.Queue.{
  Scene, worker_step, work, patience, until_woken, woken, any_retry_waiting, complete_item,
  notify_item, fail_batch, check_and_schedule_termination, finish_processing, process_queue,
  drop_queue, clear_pending, signal_failure,
}
use lambda_durable_execution.Checkpoint.Queue.Wakeups.{
  AllWoken, Keeps, check-Same, fail_batch-Drained,
}
use lambda_durable_execution.Checkpoint.Queue.Drain.{
  Drained, batch_of, left, sent, process_queue_done, process_queue_failed, process_queue_sent,
  process_queue-Drained,
}

-- At a point of the loop where what is queued will be looked at again.
abbrev pub Attends : Worker → Type 0
Attends Worker.looping = Unit {0}
Attends Worker.checking = Unit {0}
Attends Worker.cooling = Unit {0}
Attends (Worker.failing e) = Unit {0}
Attends _ = ⊥

some-injective : {A : Type 0} {x y : A} → ◌≡◌ {A = Option A} (some x) (some y) → x ≡ y
some-injective h = cc

failed_parts :
    (e : DurableError) (m : CheckpointManager)
    → let m' = finish_processing (signal_failure e (drop_queue (clear_pending m))) in
      (m'.queue ≡ [])
      × (m'.is_processing ≡ false)
      × AllWoken m' []
      × AllWoken m' m.queue
      × Keeps m m'
unfolding fail_batch
failed_parts e m = fail_batch-Drained e [] m

module _ {S : Type 0} (svc : LambdaService S) where
  cooling_step :
      (m : CheckpointManager) (s : S)
      → worker_step svc (Worker.cooling, m, s)
        ≡ (Worker.looping, check_and_schedule_termination m, s)
  unfolding worker_step
  cooling_step m s = refl

  module _ (m : CheckpointManager) (s : S) where
    step_done :
        is_empty m.queue ≡ true → worker_step svc (Worker.looping, m, s) ≡ (Worker.leaving, m, s)
    unfolding worker_step
    step_done h = rw (h, worker_step) refl

    step_failed :
        (e : DurableError)
        → is_empty m.queue ≡ false
        → (sent svc 0 m s).0 ≡ err e
        → worker_step svc (Worker.looping, m, s) ≡ (
          Worker.failing e,
          foldl notify_item (left svc 0 m s) (batch_of svc 0 m s),
          (sent svc 0 m s).1,
        )
    unfolding worker_step
    step_failed e h k = rw (h, worker_step) (rw (k, worker_step) refl)

    step_sent :
        (m' : CheckpointManager)
        → is_empty m.queue ≡ false
        → (sent svc 0 m s).0 ≡ ok m'
        → worker_step svc (Worker.looping, m, s)
          ≡ (Worker.checking, foldl complete_item m' (batch_of svc 0 m s), (sent svc 0 m s).1)
    unfolding worker_step
    step_sent m' h k = rw (h, worker_step) (rw (k, worker_step) refl)

  work-left :
      (j : ℕ) (m : CheckpointManager) (s : S) → work svc j (Worker.left, m, s) ≡ (Worker.left, m, s)
  unfolding work worker_step
  work-left zero m s = refl
  work-left (suc j) m s = work-left j m s

  -- A worker that has left takes no more steps.
  pub work_settled :
      (n k : ℕ) (p : Scene S) (m : CheckpointManager) (s : S)
      → k ≤ n
      → work svc k p ≡ (Worker.left, m, s)
      → work svc n p ≡ (Worker.left, m, s)
  unfolding work
  work_settled n zero p m s l h = ap (work svc n) h ∙ work-left n m s
  work_settled zero (suc k) p m s l h = absurd (omega (arith, l))
  work_settled (suc n) (suc k) p m s l h =
      work_settled n k (worker_step svc p) m s (omega (arith, l)) h

  -- The end of the worker, within a number of steps.
  abbrev pub EndsAt : ℕ → Scene S → CheckpointManager → S → Type 0
  EndsAt bound p m s = (k : ℕ) × (k ≤ bound) × (work svc k p ≡ (Worker.left, m, s))

  step_EndsAt :
      (bound : ℕ) (p q : Scene S) (m : CheckpointManager) (s : S)
      → worker_step svc p ≡ q
      → EndsAt bound q m s
      → EndsAt (suc bound) p m s
  unfolding work
  step_EndsAt bound p q m s e (k, l, w) = (suc k, omega (arith, l), ap (work svc k) e ∙ w)

  checking_EndsAt :
      (bound : ℕ) (m m' : CheckpointManager) (s s' : S)
      → EndsAt bound (Worker.looping, check_and_schedule_termination m, s) m' s'
      → EndsAt (suc (suc bound)) (Worker.checking, m, s) m' s'
  unfolding worker_step check_and_schedule_termination work
  checking_EndsAt bound m m' s s' h = elim (Bool-cases (any_retry_waiting m.operations)) [
    | inl waiting ↦
        step_EndsAt (suc bound) (Worker.checking, m, s) (Worker.cooling, m, s) m' s'
          (rw (waiting) refl) (step_EndsAt bound (Worker.cooling, m, s) _ m' s' refl h)
    | inr calm ↦
        let (k, l, w) =
          step_EndsAt bound (Worker.checking, m, s) (Worker.looping, m, s) m' s' (rw (calm) refl)
            (subst (λ x. EndsAt bound (Worker.looping, x, s) m' s') (rw (calm) refl) h) in
        (k, omega (arith, l), w)
  ]

  two_steps :
      (m : CheckpointManager) (s : S)
      → is_empty m.queue ≡ true
      → work svc 2 (Worker.looping, m, s) ≡ (Worker.left, finish_processing m, s)
  unfolding work worker_step
  two_steps m s h = ap (worker_step svc) (step_done m s h)

  failing_ends :
      (e : DurableError) (m : CheckpointManager) (s : S)
      → work svc 3 (Worker.failing e, m, s)
        ≡ (Worker.left, finish_processing (signal_failure e (drop_queue (clear_pending m))), s)
  unfolding work worker_step
  failing_ends e m s = refl

  four_steps :
      (m : CheckpointManager) (s : S) (e : DurableError)
      → is_empty m.queue ≡ false
      → (sent svc 0 m s).0 ≡ err e
      → work svc 4 (Worker.looping, m, s) ≡ (
        Worker.left,
        finish_processing (fail_batch e (batch_of svc 0 m s) (left svc 0 m s)),
        (sent svc 0 m s).1,
      )
  unfolding work fail_batch
  four_steps m s e h k =
      ap (work svc 3) (step_failed m s e h k)
      ∙ failing_ends e (foldl notify_item (left svc 0 m s) (batch_of svc 0 m s)) (sent svc 0 m s).1

  pub process_queue-EndsAt :
      (fuel : ℕ) (m m' : CheckpointManager) (s s' : S)
      → process_queue svc fuel m s ≡ some (m', s')
      → EndsAt (4 * fuel) (Worker.looping, m, s) m' s'
  unfolding process_queue
  process_queue-EndsAt zero m m' s s' h = cc
  process_queue-EndsAt (suc fuel) m m' s s' h = elim (Bool-cases (is_empty m.queue)) [
    | inl empty ↦
        let ends = some-injective (sym (process_queue_done svc fuel m s empty) ∙ h) in
        (2, omega arith, two_steps m s empty ∙ ap (λ p. (Worker.left, p.0, p.1)) ends)
    | inr full ↦ elim (Result-cases (sent svc fuel m s).0) [
      | inr (e, refused) ↦
          let ends = some-injective (sym (process_queue_failed svc fuel m s e full refused) ∙ h) in
          (4, omega arith, four_steps m s e full refused ∙ ap (λ p. (Worker.left, p.0, p.1)) ends)
      | inl (m1, taken) ↦
          let m2 = foldl complete_item m1 (batch_of svc fuel m s) in
          let rest =
            process_queue-EndsAt fuel (check_and_schedule_termination m2) m' (sent svc fuel m s).1
              s' (sym (process_queue_sent svc fuel m s m1 full taken) ∙ h) in
          let (k, l, w) =
            step_EndsAt (suc (suc (4 * fuel))) (Worker.looping, m, s)
              (Worker.checking, m2, (sent svc fuel m s).1) m' s' (step_sent m s m1 full taken)
              (checking_EndsAt (4 * fuel) m2 m' (sent svc fuel m s).1 s' rest) in
          (k, omega (arith, l), w)
    ]
  ]

  -- What a worker that is still in its loop leads to, within `patience`.
  pub record Finishes (p : Scene S) (m : CheckpointManager) : Type 0 where
    pub last : CheckpointManager
    pub world : S
    pub ends : EndsAt (patience m) p last world
    pub emptied : last.queue ≡ []
    pub idle : last.is_processing ≡ false
    pub all_woken : AllWoken last m.queue

  looping-Ends :
      (m : CheckpointManager) (s : S)
      → (m' : CheckpointManager) × (s' : S) × EndsAt
          (4 * (length m.queue + 1))
          (Worker.looping, m, s)
          m'
          s'
        × Drained m m'
  looping-Ends m s =
      let (m', s', run, d) = process_queue-Drained svc (suc (length m.queue)) m s (omega arith) in
      let (k, l, w) = process_queue-EndsAt (suc (length m.queue)) m m' s s' run in
      (m', s', (k, omega (arith, l), w), d)

  pub Attends-Finishes :
      (w : Worker) (m : CheckpointManager) (s : S) → Attends w → Finishes (w, m, s) m
  Attends-Finishes Worker.looping m s h =
      let (m', s', (k, l, w), d) = looping-Ends m s in
      record {
        last = m';
        world = s';
        ends = (k, omega (arith, l), w);
        emptied = d.emptied;
        idle = d.idle;
        all_woken = d.all_woken;
      }
  Attends-Finishes Worker.checking m s h =
      let c = check_and_schedule_termination m in
      let (m', s', (k, l, w), d) = looping-Ends c s in
      let same : c.queue ≡ m.queue = (check-Same m).0 in
      let (j, b, e) = checking_EndsAt (4 * (length c.queue + 1)) m m' s s' (k, l, w) in
      record {
        last = m';
        world = s';
        ends = (j, omega (arith, b, ap length same), e);
        emptied = d.emptied;
        idle = d.idle;
        all_woken = subst (AllWoken m') same d.all_woken;
      }
  Attends-Finishes Worker.cooling m s h =
      let c = check_and_schedule_termination m in
      let (m', s', (k, l, w), d) = looping-Ends c s in
      let same : c.queue ≡ m.queue = (check-Same m).0 in
      let (j, b, e) =
        step_EndsAt (4 * (length c.queue + 1)) (Worker.cooling, m, s) (Worker.looping, c, s) m' s'
          (cooling_step m s) (k, l, w) in
      record {
        last = m';
        world = s';
        ends = (j, omega (arith, b, ap length same), e);
        emptied = d.emptied;
        idle = d.idle;
        all_woken = subst (AllWoken m') same d.all_woken;
      }
  Attends-Finishes (Worker.failing e) m s h =
      let (empty, idle, _, rest, _) = failed_parts e m in
      record {
        last = finish_processing (signal_failure e (drop_queue (clear_pending m)));
        world = s;
        ends = (3, omega arith, failing_ends e m s);
        emptied = empty;
        idle = idle;
        all_woken = rest;
      }
  Attends-Finishes Worker.leaving m s h = elim h [ ]
  Attends-Finishes Worker.left m s h = elim h [ ]
  Attends-Finishes (Worker.signalling e) m s h = elim h [ ]

  -- The steps stop at the item, if it is woken at all.
  pub until_woken-woken :
      (n fuel k : ℕ) (p : Scene S)
      → k ≤ fuel
      → woken n (work svc k p).1.notified ≡ true
      → woken n (until_woken svc n fuel p).1.notified ≡ true
  unfolding until_woken work
  until_woken-woken n zero zero p l h = h
  until_woken-woken n zero (suc k) p l h = absurd (omega (arith, l))
  until_woken-woken n (suc fuel) zero (w, m, s) l h = rw (h, until_woken) h
  until_woken-woken n (suc fuel) (suc k) (w, m, s) l h = elim (Bool-cases (woken n m.notified)) [
    | inl now ↦ rw (now, until_woken) now
    | inr later ↦
        rw (later, until_woken)
          (until_woken-woken n fuel k (worker_step svc (w, m, s)) (omega (arith, l)) h)
  ]
