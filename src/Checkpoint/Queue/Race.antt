-- ===== src/Checkpoint/Queue/Race.antt =====
-- The protocol of `checkpoint`, `maybe_start_processing` and `process_queue` among several tasks: one
-- step for each time that a task holds a lock of src/checkpoint/manager.rs.
use lambda_durable_execution.Base.{
  ℕ, suc, ◌+◌, ◌≡◌, refl, ap, Bool, true, false, List, [], ◌∷◌, ◌++◌, arith, if◌then◌else◌,
  is_empty,
}
use lambda_durable_execution.Checkpoint.{QueuedCheckpoint}
use lambda_durable_execution.Checkpoint.Batch.{take_batch}

-- `starters` counts the tasks between `push_back` and `maybe_start_processing`; the other counters,
-- the workers at each of their awaits.
pub record Protocol : Type 0 where
  pub queue : List QueuedCheckpoint
  pub is_processing : Bool
  pub starters : ℕ
  pub scanning : ℕ
  pub sending : ℕ
  pub leaving : ℕ

abbrev pub idle_protocol : Protocol
idle_protocol = record {
  queue = [];
  is_processing = false;
  starters = 0;
  scanning = 0;
  sending = 0;
  leaving = 0;
}

pub data Step (p : Protocol) : Protocol → Type 0 where
  push :
      (c : QueuedCheckpoint)
      → Step p (record p { queue = p.queue ++ c ∷ []; starters = p.starters + 1 })
  find_running :
      (k : ℕ) → p.starters ≡ suc k → p.is_processing ≡ true → Step p (record p { starters = k })
  start_worker :
      (k : ℕ)
      → p.starters ≡ suc k
      → p.is_processing ≡ false
      → Step p (record p { starters = k; is_processing = true; scanning = p.scanning + 1 })
  take :
      (k : ℕ)
      → p.scanning ≡ suc k
      → is_empty p.queue ≡ false
      → Step p (record p { queue = (take_batch p.queue).1; scanning = k; sending = p.sending + 1 })
  see_empty :
      (k : ℕ)
      → p.scanning ≡ suc k
      → is_empty p.queue ≡ true
      → Step p (record p { scanning = k; leaving = p.leaving + 1 })
  succeed :
      (k : ℕ) → p.sending ≡ suc k → Step p (record p { sending = k; scanning = p.scanning + 1 })
  fail :
      (k : ℕ)
      → p.sending ≡ suc k
      → Step p (record p { queue = []; sending = k; leaving = p.leaving + 1 })
  leave : (k : ℕ) → p.leaving ≡ suc k → Step p (record p { leaving = k; is_processing = false })

pub data Reach (p : Protocol) : Protocol → Type 0 where
  here : Reach p p
  next : {q r : Protocol} → Reach p q → Step q r → Reach p r

-- The flag counts the workers: there is one while it is set, and none otherwise.
abbrev pub IsSingle : Protocol → Type 0
IsSingle p = p.scanning + p.sending + p.leaving ≡ (if p.is_processing then 1 else 0)

Step-IsSingle : {p q : Protocol} → Step p q → IsSingle p → IsSingle q
Step-IsSingle (push c) h = h
Step-IsSingle (find_running k s e) h = h
Step-IsSingle (start_worker k s e) h = ground arith
Step-IsSingle (take k s e) h = omega arith
Step-IsSingle (see_empty k s e) h = omega arith
Step-IsSingle (succeed k s) h = omega arith
Step-IsSingle (fail k s) h = omega arith
Step-IsSingle {p} (leave k s) h = ground arith

-- From a state in which the flag counts the workers, however the tasks interleave, there is one
-- worker while the flag is set and none otherwise.
pub Reach-IsSingle : {p q : Protocol} → Reach p q → IsSingle p → IsSingle q
Reach-IsSingle here h = h
Reach-IsSingle (next r s) h = Step-IsSingle s (Reach-IsSingle r h)

-- Somebody waits for an item that nobody will take.
abbrev pub IsLost : Protocol → Type 0
IsLost p = (is_empty p.queue ≡ false) × (p.is_processing ≡ false) × (p.starters ≡ 0)

-- A worker that has seen the empty queue has not yet cleared the flag; an item that is pushed then
-- is lost.
pub push_in_window :
    (p : Protocol) (c : QueuedCheckpoint)
    → p.queue ≡ []
    → p.is_processing ≡ true
    → p.starters ≡ 0
    → p.leaving ≡ 1
    → (q : Protocol) × Reach p q × (q.queue ≡ c ∷ []) × IsLost q
push_in_window p c e r s l =
    let p1 = record p { queue = p.queue ++ c ∷ []; starters = p.starters + 1 } in
    let p2 = record p1 { starters = 0 } in
    (
      record p2 { leaving = 0; is_processing = false },
      next (next (next here (push c)) (find_running 0 (omega arith) r)) (leave 0 l),
      ap (λ xs. xs ++ c ∷ []) e,
      (ap (λ xs. is_empty (xs ++ c ∷ [])) e, refl, refl),
    )

-- While the flag counts the workers, a lost item stays where it is: the only step that is possible is
-- the arrival of another item behind it.
pub lost_waits :
    (p q : Protocol)
    → IsSingle p
    → IsLost p
    → Step p q
    → (c : QueuedCheckpoint) × (q.queue ≡ p.queue ++ c ∷ [])
lost_waits p _ h l (push c) = (c, refl)
lost_waits p _ h l (find_running k s e) = absurd (omega (arith, l.2))
lost_waits p _ h l (start_worker k s e) = absurd (omega (arith, l.2))
lost_waits p _ h l (take k s e) = absurd (ground (arith, l.1))
lost_waits p _ h l (see_empty k s e) = absurd (ground (arith, l.1))
lost_waits p _ h l (succeed k s) = absurd (ground (arith, l.1))
lost_waits p _ h l (fail k s) = absurd (ground (arith, l.1))
lost_waits p _ h l (leave k s) = absurd (ground (arith, l.1))

Reach-trans : {p q r : Protocol} → Reach p q → Reach q r → Reach p r
Reach-trans a here = a
Reach-trans a (next b s) = next (Reach-trans a b) s

-- The worker has sent the only item, and leaves.
abbrev window : QueuedCheckpoint → Protocol
window c = record {
  queue = (take_batch (c ∷ [])).1;
  is_processing = true;
  starters = 0;
  scanning = 0;
  sending = 0;
  leaving = 1;
}

rest_empty : (c : QueuedCheckpoint) → (take_batch (c ∷ [])).1 ≡ []
unfolding take_batch
rest_empty c = ground arith

Reach-window : (c : QueuedCheckpoint) → Reach idle_protocol (window c)
Reach-window c =
    next
      (next (next (next (next here (push c)) (start_worker 0 refl refl)) (take 0 refl refl))
        (succeed 0 refl))
      (see_empty 0 refl (ap is_empty (rest_empty c)))

-- From the idle protocol, any two checkpoints can be scheduled so that the second is lost: the queue
-- holds it, no worker runs, and no task is about to start one.
pub IsLost-reachable :
    (c d : QueuedCheckpoint)
    → (q : Protocol) × Reach idle_protocol q × (q.queue ≡ d ∷ []) × IsLost q
IsLost-reachable c d =
    let (q, r, e, l) = push_in_window (window c) d (rest_empty c) refl refl refl in
    (q, Reach-trans (Reach-window c) r, e, l)
