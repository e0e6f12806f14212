-- ===== src/Batch/Loop.antt =====
-- The scheduling loop of src/context/durable_context/map/execute.rs. What a child gives is a function
-- of its index; which of the running children finishes next is given, for each round, by a number.
-- The counters of the source are the lengths of the lists here. What the children and the final
-- update send is not part of this model.
pub mod Progress
use lambda_durable_execution.Base.{
  ℕ, zero, suc, ◌+◌, Bool, not, ◌&&◌, ◌||◌, none, some, List, [], ◌∷◌, ◌++◌, map, ltb, ◌==◌,
  if◌then◌else◌, length,
}
use lambda_durable_execution.Base.Result.{Result, ok, err}
use lambda_durable_execution.Errors.{DurableError}
use lambda_durable_execution.Batch.{
  BatchItem, BatchItemStatus, BatchResult, Percent, CompletionConfig, reached,
  should_continue_batch, compute_batch_completion_reason,
}

pub record LoopState (T : Type 0) : Type 0 where
  pub waiting : List ℕ
  pub started : List ℕ
  pub successes : List (ℕ × T)
  pub failures : List (ℕ × DurableError)

-- How the loop ends: with a result, at `unreachable!`, or with its fuel.
pub data LoopEnd (T : Type 0) : Type 0 where
  returned : BatchResult T → LoopEnd T
  unreachable out_of_fuel : LoopEnd T

abbrev pub completed : {T : Type 0} → LoopState T → ℕ
completed st = length st.successes + length st.failures

-- The indices `0 … n - 1`, behind `i`.
abbrev pub indices : ℕ → ℕ → List ℕ
indices i zero = []
indices i (suc n) = i ∷ indices (i + 1) n

-- The element at a position, and the others; a position past the end is the last one.
unfoldable pub take_at : ℕ → ℕ → List ℕ → ℕ × List ℕ
take_at n i [] = (i, [])
take_at zero i (j ∷ js) = (i, j ∷ js)
take_at (suc n) i (j ∷ js) = let (k, ks) = take_at n j js in (k, i ∷ ks)

-- `sort_by_key(|i| i.index)`, which is stable.
unfoldable pub insert_item : {T : Type 0} → BatchItem T → List (BatchItem T) → List (BatchItem T)
insert_item x [] = x ∷ []
insert_item x (y ∷ ys) = if ltb y.index x.index then y ∷ insert_item x ys else x ∷ y ∷ ys

unfoldable pub sort_items : {T : Type 0} → List (BatchItem T) → List (BatchItem T)
unfolding insert_item
sort_items [] = []
sort_items (x ∷ xs) = insert_item x (sort_items xs)

unfoldable pub collect_items : {T : Type 0} → LoopState T → List (BatchItem T)
unfolding sort_items
collect_items st = sort_items (
    map
      (λ p. record {
        index = p.0;
        status = BatchItemStatus.succeeded;
        result = some p.1;
        error = none;
      })
      st.successes
    ++ map
        (λ p. record {
          index = p.0;
          status = BatchItemStatus.failed;
          result = none;
          error = some p.1;
        })
        st.failures
    ++ map
        (λ i. record { index = i; status = BatchItemStatus.started; result = none; error = none })
        st.started)

module _ {P T : Type 0} (percent : Percent P) (config : CompletionConfig P)
    (total max_concurrency : ℕ) (result : ℕ → Result DurableError T) where
  unfoldable pub may_start : LoopState T → Bool
  unfolding should_continue_batch
  may_start st =
      ltb (length st.started) max_concurrency
      && should_continue_batch percent (length st.failures) total config
      && not (reached config.min_successful (length st.successes))

  -- The inner loop: children are started in the order of their indices.
  unfoldable pub start_items : List ℕ → LoopState T → LoopState T
  unfolding may_start
  start_items [] st = record st { waiting = [] }
  start_items (i ∷ waiting) st =
      let rest = start_items waiting (record st { started = st.started ++ i ∷ [] }) in
      if may_start st then rest else record st { waiting = i ∷ waiting }

  abbrev record_result : ℕ → Result DurableError T → LoopState T → LoopState T
  record_result i (ok v) st = record st { successes = st.successes ++ (i, v) ∷ [] }
  record_result i (err e) st = record st { failures = st.failures ++ (i, e) ∷ [] }

  -- `join_next`, with `started` not empty, and what it gives.
  unfoldable pub join_next : ℕ → ℕ → List ℕ → LoopState T → LoopState T
  unfolding take_at
  join_next pick i started st =
      let (index, rest) = take_at pick i started in
      record_result index (result index) (record st { started = rest })

  unfoldable pub is_finished_loop : LoopState T → Bool
  unfolding should_continue_batch
  is_finished_loop st =
      completed st == total
      || reached config.min_successful (length st.successes)
      || not (should_continue_batch percent (length st.failures) total config)

  unfoldable pub finish_loop : LoopState T → BatchResult T
  unfolding collect_items compute_batch_completion_reason
  finish_loop st = record {
    all = collect_items st;
    completion_reason =
        compute_batch_completion_reason percent (length st.failures) (length st.successes)
          (completed st) total config;
  }

  -- The loop on fuel.
  unfoldable pub run_loop : (ℕ → ℕ) → ℕ → LoopState T → LoopEnd T
  unfolding start_items join_next is_finished_loop finish_loop
  run_loop picks zero st = out_of_fuel
  run_loop picks (suc fuel) st =
      let st1 = start_items st.waiting st in
      elim st1.started [
        | [] ↦ unreachable
        | i ∷ started ↦
            let st2 = join_next (picks fuel) i started st1 in
            let rest = run_loop picks fuel st2 in
            if is_finished_loop st2 then returned (finish_loop st2) else rest
      ]

  unfoldable pub initial_loop : LoopState T
  initial_loop = record { waiting = indices 0 total; started = []; successes = []; failures = [] }
