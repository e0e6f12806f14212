-- ===== src/Batch/Counts.antt =====
-- The counts of a batch result and its first error: src/types/batch.rs.
use lambda_durable_execution.Base.{
  ℕ, ◌+◌, ◌≡◌, refl, Bool, List, [], ◌∷◌, arith, ltb, if◌then◌else◌, length, any, keep,
}
use lambda_durable_execution.Batch.{
  BatchItem, BatchItemStatus, BatchResult, is_succeeded, is_failed, is_started, success_count,
  failure_count, started_count, total_count, has_failure, batch_status,
}

one_status :
    (status : BatchItemStatus)
    → (if is_succeeded status then 1 else 0)
        + (if is_failed status then 1 else 0)
        + (if is_started status then 1 else 0)
      ≡ 1
one_status BatchItemStatus.succeeded = refl
one_status BatchItemStatus.failed = refl
one_status BatchItemStatus.started = refl

length-keep :
    {A : Type 0} (p : A → Bool) (x : A) (xs : List A)
    → length (keep p (x ∷ xs)) ≡ (if p x then 1 else 0) + length (keep p xs)
length-keep p x xs = ground arith

count_all :
    {T : Type 0} (xs : List (BatchItem T))
    → length (keep (λ i. is_succeeded i.status) xs)
        + length (keep (λ i. is_failed i.status) xs)
        + length (keep (λ i. is_started i.status) xs)
      ≡ length xs
count_all [] = refl
count_all (x ∷ xs) = omega (
  arith,
  count_all xs,
  one_status x.status,
  length-keep (λ i. is_succeeded i.status) x xs,
  length-keep (λ i. is_failed i.status) x xs,
  length-keep (λ i. is_started i.status) x xs,
)

any-keep :
    {T : Type 0} (p : BatchItem T → Bool) (xs : List (BatchItem T))
    → any p xs ≡ ltb 0 (length (keep p xs))
any-keep p [] = refl
any-keep p (x ∷ xs) = ground (arith, any-keep p xs)

-- The status that the counts call for.
abbrev pub status_by_counts : ℕ → ℕ → BatchItemStatus
status_by_counts failures started =
    if ltb 0 failures
    then BatchItemStatus.failed
    else if ltb 0 started
    then BatchItemStatus.started
    else BatchItemStatus.succeeded

-- The three counts of a batch result add up to the number of its items, and its status is failed
-- with a positive number of failures, otherwise started with a positive number of started items,
-- otherwise succeeded.
pub batch_status-counts :
    {T : Type 0} (r : BatchResult T)
    → (success_count r + failure_count r + started_count r ≡ total_count r)
      × (batch_status r ≡ status_by_counts (failure_count r) (started_count r))
unfolding success_count failure_count started_count total_count batch_status has_failure
batch_status-counts r = (
  count_all r.all,
  rw (any-keep (λ i. is_failed i.status) r.all, any-keep (λ i. is_started i.status) r.all) refl,
)
