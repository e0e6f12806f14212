-- ===== src/Checkpoint/Batch/Bounds.antt =====
-- The batches partition the queue in order, respect the size limit and always make progress.
use lambda_durable_execution.Base.{
  ℕ, ◌+◌, ◌≤◌, ◌<◌, ◌≡◌, refl, ap, subst, ◌⊎◌, inl, inr, false, not, ◌&&◌, List, [], ◌∷◌, ◌++◌,
  append_assoc, arith, ltb, Bool-cases, length, is_empty, length-append,
}
use lambda_durable_execution.Checkpoint.{QueuedCheckpoint}
use lambda_durable_execution.Checkpoint.Batch.{
  max_payload_size, base_overhead, estimate_update_size, fill, take_batch,
}

-- The estimated size of the items of a batch.
unfoldable pub items_size : List QueuedCheckpoint → ℕ
items_size [] = 0
items_size (c ∷ cs) = estimate_update_size c.update + items_size cs

items_size-snoc :
    (cs : List QueuedCheckpoint) (c : QueuedCheckpoint)
    → items_size (cs ++ c ∷ []) ≡ items_size cs + estimate_update_size c.update
unfolding items_size
items_size-snoc [] c = omega arith
items_size-snoc (d ∷ cs) c = omega (arith, items_size-snoc cs c)

not_empty-snoc {ℓ} : {A : Type ℓ} (xs : List A) (x : A) → is_empty (xs ++ x ∷ []) ≡ false
not_empty-snoc [] x = refl
not_empty-snoc (y ∷ xs) x = refl

-- The rest begins with an item that does not fit, or is empty.
abbrev pub Full : List QueuedCheckpoint → List QueuedCheckpoint → Type 0
Full batch [] = Unit {0}
Full batch (c ∷ rest) =
    max_payload_size < base_overhead + items_size batch + estimate_update_size c.update

-- What one round of filling gives.
pub record Filled (queue batch rest : List QueuedCheckpoint) : Type 0 where
  pub in_order : batch ++ rest ≡ queue
  pub bounded : (length batch ≤ 1) ⊎ (base_overhead + items_size batch ≤ max_payload_size)
  pub full : Full batch rest

grow_bounded :
    (size item : ℕ) (batch : List QueuedCheckpoint) (c : QueuedCheckpoint)
    → size + item ≡ base_overhead + items_size (batch ++ c ∷ [])
    → (ltb max_payload_size (size + item) && not (is_empty batch)) ≡ false
    → (length (batch ++ c ∷ []) ≤ 1)
      ⊎ (base_overhead + items_size (batch ++ c ∷ []) ≤ max_payload_size)
grow_bounded size item [] c e go = inl (omega arith)
grow_bounded size item (b ∷ batch) c e go = inr (ground (arith, e))

fill-Filled :
    (queue : List QueuedCheckpoint) (size : ℕ) (batch : List QueuedCheckpoint)
    → size ≡ base_overhead + items_size batch
    → (length batch ≤ 1) ⊎ (base_overhead + items_size batch ≤ max_payload_size)
    → Filled (batch ++ queue) (fill queue size batch).0 (fill queue size batch).1
unfolding fill
fill-Filled [] size batch e h = record { in_order = refl; bounded = h; full = tt }
fill-Filled (c ∷ queue) size batch e h =
    let item = estimate_update_size c.update in
    let grown : size + item ≡ base_overhead + items_size (batch ++ c ∷ []) =
      omega (arith, items_size-snoc batch c) in
    elim (Bool-cases (ltb max_payload_size (size + item) && not (is_empty batch))) [
      | inl stop ↦ rw stop (record { in_order = refl; bounded = h; full = ground arith })
      | inr go ↦ rw go (
          subst
            (λ q.
              Filled q (fill queue (size + item) (batch ++ c ∷ [])).0
                (fill queue (size + item) (batch ++ c ∷ [])).1)
            (append_assoc batch (c ∷ []) queue)
            (fill-Filled queue (size + item) (batch ++ c ∷ []) grown
              (grow_bounded size item batch c grown go)))
    ]

-- A batch and the rest are the queue in order; a batch of several items stays within the limit; and
-- it ends only where the next item would exceed it.
pub take_batch-Filled :
    (queue : List QueuedCheckpoint) → Filled queue (take_batch queue).0 (take_batch queue).1
unfolding take_batch items_size
take_batch-Filled queue = fill-Filled queue base_overhead [] refl (inl (omega arith))

fill-not_empty :
    (queue : List QueuedCheckpoint) (size : ℕ) (batch : List QueuedCheckpoint)
    → is_empty batch ≡ false
    → is_empty (fill queue size batch).0 ≡ false
unfolding fill
fill-not_empty [] size batch h = h
fill-not_empty (c ∷ queue) size batch h = ground (
  arith,
  fill-not_empty queue (size + estimate_update_size c.update) (batch ++ c ∷ []),
  not_empty-snoc batch c,
)

-- Something is taken from a queue that is not empty, however large the first item.
pub take_batch-not_empty :
    (c : QueuedCheckpoint) (queue : List QueuedCheckpoint)
    → is_empty (take_batch (c ∷ queue)).0 ≡ false
unfolding take_batch
take_batch-not_empty c queue =
    ground
      (arith, fill-not_empty queue (base_overhead + estimate_update_size c.update) (c ∷ []) refl)

-- So the queue gets shorter.
pub length-take_batch :
    (c : QueuedCheckpoint) (queue : List QueuedCheckpoint)
    → length (take_batch (c ∷ queue)).1 ≤ length queue
length-take_batch c queue =
    let parts = take_batch (c ∷ queue) in
    omega (
      arith,
      ap length (take_batch-Filled (c ∷ queue)).in_order,
      length-append parts.0 parts.1,
      length_pos parts.0 (take_batch-not_empty c queue),
    )
  where
    length_pos : (xs : List QueuedCheckpoint) → is_empty xs ≡ false → 1 ≤ length xs
    length_pos [] h = cc
    length_pos (x ∷ xs) h = omega arith
