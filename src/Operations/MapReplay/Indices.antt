-- ===== src/Operations/MapReplay/Indices.antt =====
-- The indices and the operation ids of a replayed map: src/context/durable_context/map/replay.rs.
use lambda_durable_execution.Base.{
  ℕ, zero, suc, ◌+◌, ◌%◌, ◌^◌, ◌≤◌, ◌<◌, String, ◌≡◌, refl, ap, ◌∙◌, ◌⊎◌, inl, inr, Option, none,
  some, true, All, any, ◌==◌, List, [], ◌∷◌, ◌++◌, map, arith, ltb, Bool-cases, length,
  length-append,
}
use lambda_durable_execution.Errors.{DurableError}
use lambda_durable_execution.Types.{Operation, OperationStatus}
use lambda_durable_execution.Checkpoint.{LambdaService}
use lambda_durable_execution.Context.{ExecutionContext, next_operation_id}
use lambda_durable_execution.Context.Run.{
  serdes_context, deserialized, safe_deserialize, Outcome, Op, return, done, failed, suspended,
  Serdes, Json,
}
use lambda_durable_execution.Batch.{BatchItem, BatchResult, Percent, CompletionConfig}
use lambda_durable_execution.Batch.Loop.{LoopState, insert_item, sort_items, collect_items}
use lambda_durable_execution.Operations.{replayed}
use lambda_durable_execution.Operations.Child.{
  catch, replays_children, context_payload, in_child, run_in_child_context_with_ids,
}
use lambda_durable_execution.Operations.Settles.{
  Settles-or_suspend, Settles-weaken, Settles, Anything, Settles-continue,
}
use lambda_durable_execution.Operations.MapReplay.{
  child_value, MapReplayDecision, return_result, PayloadFields, target_total_count, item_name,
  consume_ids, return_batch, succeeded_at, failed_at, started_at, rerun_child, read_child,
  reconstruct_child, reconstruct_recorded, reconstruct_item, reconstruct_items, no_items,
  reconstructed, reconstruct_map_from_children,
}

module _ {I : Type 0} where
  -- Each item consumes one id; the counter is a `u64`.
  consume_ids-operation_counter :
      (namer : Option (I → ℕ → String)) (name : Option String) (index n : ℕ) (items : List I)
      (ctx : ExecutionContext)
      → ctx.operation_counter < 2 ^ 64
      → n ≤ length items
      → (consume_ids namer name index n items ctx).operation_counter
        ≡ (ctx.operation_counter + n) % 2 ^ 64
  unfolding consume_ids next_operation_id
  consume_ids-operation_counter namer name index zero items ctx h l = omega arith
  consume_ids-operation_counter namer name index (suc n) [] ctx h l = absurd (omega arith)
  consume_ids-operation_counter namer name index (suc n) (item ∷ items) ctx h l =
      consume_ids-operation_counter namer name (index + 1) n items
        (next_operation_id (some (item_name namer name item index)) ctx).1 (omega arith)
        (omega arith)
      ∙ omega arith

-- The context of a value.
abbrev pub Leaves : {S A : Type 0} → (A → ExecutionContext → Type 0) → Outcome S A → Type 0
Leaves P (done a ctx s) = P a ctx
Leaves P (failed e ctx s) = Unit {0}
Leaves P (suspended ctx s) = Unit {0}

abbrev pub CountsBatch :
    {T : Type 0} → ℕ → ExecutionContext → MapReplayDecision T → ExecutionContext → Type 0
CountsBatch n ctx (return_result batch) c =
    c.operation_counter ≡ (ctx.operation_counter + n) % 2 ^ 64
CountsBatch n ctx _ c = Unit {0}

-- No item has an index of `n` or above.
abbrev pub AllBelow : {T : Type 0} → ℕ → List (BatchItem T) → Type 0
AllBelow n items = All (λ item. item.index < n) items

-- The index before `n` is that of an item, or there is no such index.
abbrev pub Reached : {T : Type 0} → ℕ → List (BatchItem T) → Type 0
Reached n items = (n ≡ 0) ⊎ (any (λ item. item.index + 1 == n) items ≡ true)

equal_of : {a b : ℕ} → (a == b) ≡ true → a ≡ b
equal_of h = ground (arith, h)

module _ {T : Type 0} where
  target_total_count-≤ :
      (n : ℕ) (items : List (BatchItem T))
      → n < 2 ^ 64
      → AllBelow n items
      → target_total_count items ≤ n
  unfolding target_total_count
  target_total_count-≤ n [] l h = omega arith
  target_total_count-≤ n (item ∷ items) l h =
      let below = target_total_count-≤ n items l h.1 in
      let this : (item.index + 1) % 2 ^ 64 ≤ n = omega (arith, h.0) in
      elim (Bool-cases (ltb (target_total_count items) ((item.index + 1) % 2 ^ 64))) [
        | inl c ↦ rw (c, target_total_count) this
        | inr c ↦ rw (c, target_total_count) below
      ]

  ≤-target_total_count :
      (n : ℕ) (items : List (BatchItem T))
      → n < 2 ^ 64
      → any (λ item. item.index + 1 == n) items ≡ true
      → n ≤ target_total_count items
  unfolding target_total_count
  ≤-target_total_count n [] l h = cc
  ≤-target_total_count n (item ∷ items) l h = elim (Bool-cases (item.index + 1 == n)) [
    | inl here ↦
        let this : (item.index + 1) % 2 ^ 64 ≡ n = omega (arith, equal_of here) in
        ground (arith, this)
    | inr there ↦
        let below = ≤-target_total_count n items l (rw (there) at h) in ground (arith, below)
  ]

  target_total_count-greatest :
      (n : ℕ) (items : List (BatchItem T))
      → n < 2 ^ 64
      → AllBelow n items
      → Reached n items
      → target_total_count items ≡ n
  target_total_count-greatest n items l h (inl z) =
      let below = target_total_count-≤ n items l h in omega (arith, below, z)
  target_total_count-greatest n items l h (inr r) =
      let below = target_total_count-≤ n items l h in
      let above = ≤-target_total_count n items l r in omega (arith, below, above)

module _ {S I T : Type 0} (fields : String → Option PayloadFields) where
  -- A recorded batch that a map returns moves the counter of operation ids on, modulo 2 ^ 64, by one
  -- more than the greatest index of an item in it, or not at all where it has no items.
  pub return_batch-operation_counter :
      (namer : Option (I → ℕ → String)) (name : Option String) (items : List I)
      (batch : BatchResult T) (n : ℕ) (ctx : ExecutionContext) (s : S)
      → ctx.operation_counter < 2 ^ 64
      → n < 2 ^ 64
      → AllBelow n batch.all
      → Reached n batch.all
      → Leaves (CountsBatch n ctx) (return_batch fields namer name items batch ctx s)
  unfolding return_batch
  return_batch-operation_counter namer name items batch n ctx s h l b r =
      elim (Bool-cases (ltb (length items) (target_total_count batch.all))) [
        | inl above ↦ rw (above, return_batch) tt
        | inr within ↦
            rw (within, return_batch)
              (consume_ids-operation_counter namer name 0 (target_total_count batch.all) items ctx h
                  (ground arith)
                ∙ ap (λ k. (ctx.operation_counter + k) % 2 ^ 64)
                    (target_total_count-greatest n batch.all l b r))
      ]

length-map : {A B : Type 0} (f : A → B) (xs : List A) → length (map f xs) ≡ length xs
length-map f [] = refl
length-map f (x ∷ xs) = ap suc (length-map f xs)

module _ {T : Type 0} where
  length-insert_item :
      (x : BatchItem T) (xs : List (BatchItem T)) → length (insert_item x xs) ≡ suc (length xs)
  unfolding insert_item
  length-insert_item x [] = refl
  length-insert_item x (y ∷ ys) = elim (Bool-cases (ltb y.index x.index)) [
    | inl h ↦ rw (h, insert_item) (ap suc (length-insert_item x ys))
    | inr h ↦ rw (h, insert_item) refl
  ]

  length-sort_items : (xs : List (BatchItem T)) → length (sort_items xs) ≡ length xs
  unfolding sort_items
  length-sort_items [] = refl
  length-sort_items (x ∷ xs) = length-insert_item x (sort_items xs) ∙ ap suc (length-sort_items xs)

  -- How many items have been looked at.
  abbrev seen : LoopState T → ℕ
  seen st = length st.successes + (length st.failures + length st.started)

  length-collect_items : (st : LoopState T) → length (collect_items st) ≡ seen st
  unfolding collect_items
  length-collect_items st = simp (length-sort_items, length-append, length-map) (omega arith)

snoc_length : {A : Type 0} (xs : List A) (x : A) → length (xs ++ x ∷ []) ≡ length xs + 1
snoc_length xs x = length-append xs (x ∷ [])

module _ {S I T P : Type 0} (svc : LambdaService S) (json : Json T) (hash : String → String)
    (percent : Percent P) (map_fn : I → ℕ → Op S T) where
  -- One more item has been looked at.
  abbrev Grows : LoopState T → LoopState T → Type 0
  Grows st st' = seen st' ≡ seen st + 1

  succeeded_at-Grows :
      (index : ℕ) (v : T) (st : LoopState T)
      → Grows st (succeeded_at svc json hash percent map_fn index v st)
  succeeded_at-Grows index v st = omega (arith, snoc_length st.successes (index, v))

  failed_at-Grows :
      (index : ℕ) (e : DurableError) (st : LoopState T)
      → Grows st (failed_at svc json hash percent map_fn index e st)
  failed_at-Grows index e st = omega (arith, snoc_length st.failures (index, e))

  started_at-Grows :
      (index : ℕ) (st : LoopState T) → Grows st (started_at svc json hash percent map_fn index st)
  started_at-Grows index st = omega (arith, snoc_length st.started index)

  caught-Grows :
      (index : ℕ) (st : LoopState T) (m : Op S T) (ctx : ExecutionContext) (s : S)
      → Settles (Grows st) Anything (
          catch m
            (λ e. return (failed_at svc json hash percent map_fn index e st))
            (λ v. return (succeeded_at svc json hash percent map_fn index v st))
            ctx
            s)
  caught-Grows index st m ctx s = by_outcome (m ctx s)
    where
      by_outcome :
          (o : Outcome S T)
          → Settles {S = S} {A = LoopState T} (Grows st) Anything (elim o [
            | done v ctx' s' ↦ return (succeeded_at svc json hash percent map_fn index v st) ctx' s'
            | failed e ctx' s' ↦ return (failed_at svc json hash percent map_fn index e st) ctx' s'
            | suspended ctx' s' ↦ suspended ctx' s'
          ])
      by_outcome (done v c t) = succeeded_at-Grows index v st
      by_outcome (failed e c t) = failed_at-Grows index e st
      by_outcome (suspended c t) = tt

  read_child-Grows :
      (serdes : Option (Serdes T)) (op : Operation) (index : ℕ) (name step_id : String)
      (st : LoopState T) (ctx : ExecutionContext) (s : S)
      → Settles
          (Grows st)
          Anything
          (read_child svc json hash percent map_fn serdes op index name step_id st ctx s)
  unfolding read_child safe_deserialize
  read_child-Grows serdes op index name step_id st ctx s =
      Settles-continue Anything (Grows st) Anything _ _
        (Settles-or_suspend Anything "Deserialization" (hash step_id) (some name)
          (deserialized json serdes (context_payload op.context_details)
            (serdes_context (hash step_id) ctx))
          ctx s)
        (λ v c t _. by_value v c t)
    where
      by_value :
          (v : Option T) (c : ExecutionContext) (t : S)
          → Settles (Grows st) Anything (child_value svc json hash percent map_fn index st v c t)
      by_value none c t = tt
      by_value (some v) c t = succeeded_at-Grows index v st

  rerun_child-Grows :
      (serdes : Option (Serdes T)) (map_hashed_id : String) (item : I) (index : ℕ)
      (name step_id : String) (st : LoopState T) (ctx : ExecutionContext) (s : S)
      → Settles (Grows st) Anything (
          rerun_child svc json hash percent map_fn serdes map_hashed_id item index name step_id st
            ctx s)
  unfolding rerun_child
  rerun_child-Grows serdes map_hashed_id item index name step_id st ctx s =
      caught-Grows index st
        (in_child map_hashed_id (
          run_in_child_context_with_ids svc json step_id (hash step_id) (some name)
            (map_fn item index) (record { sub_type = some "MapIteration"; serdes = serdes })))
        ctx s

  reconstruct_child-Grows :
      (serdes : Option (Serdes T)) (map_hashed_id : String) (item : I) (index : ℕ)
      (name step_id : String) (op : Operation) (status : OperationStatus) (st : LoopState T)
      (ctx : ExecutionContext) (s : S)
      → Settles (Grows st) Anything (
          reconstruct_child svc json hash percent map_fn serdes map_hashed_id item index name
            step_id op status st ctx s)
  unfolding reconstruct_child
  reconstruct_child-Grows serdes m item index name step_id op OperationStatus.succeeded st ctx s =
      elim (Bool-cases (replays_children op.context_details)) [
        | inl again ↦
            rw (again, reconstruct_child)
              (rerun_child-Grows serdes m item index name step_id st ctx s)
        | inr stored ↦
            rw (stored, reconstruct_child) (read_child-Grows serdes op index name step_id st ctx s)
      ]
  reconstruct_child-Grows serdes m item index name step_id op OperationStatus.failed st ctx s =
      failed_at-Grows index _ st
  reconstruct_child-Grows serdes m item index name step_id op OperationStatus.ready st ctx s =
      started_at-Grows index st
  reconstruct_child-Grows serdes m item index name step_id op OperationStatus.started st ctx s =
      started_at-Grows index st
  reconstruct_child-Grows serdes m item index name step_id op OperationStatus.pending st ctx s =
      started_at-Grows index st
  reconstruct_child-Grows serdes m item index name step_id op OperationStatus.unknown st ctx s =
      started_at-Grows index st

  reconstruct_recorded-Grows :
      (serdes : Option (Serdes T)) (map_hashed_id : String) (item : I) (index : ℕ)
      (name step_id : String) (st : LoopState T) (op : Option Operation) (ctx : ExecutionContext)
      (s : S)
      → Settles (Grows st) Anything (
          reconstruct_recorded svc json hash percent map_fn serdes map_hashed_id item index name
            step_id st op ctx s)
  reconstruct_recorded-Grows serdes m item index name step_id st none ctx s = tt
  reconstruct_recorded-Grows serdes m item index name step_id st (some op) ctx s =
      reconstruct_child-Grows serdes m item index name step_id op op.status st ctx s

  reconstruct_items-seen :
      (namer : Option (I → ℕ → String)) (serdes : Option (Serdes T)) (name : Option String)
      (map_hashed_id : String) (index n : ℕ) (items : List I) (st : LoopState T)
      (ctx : ExecutionContext) (s : S)
      → n ≤ length items
      → Settles
          (λ st'. seen st' ≡ seen st + n)
          Anything
          (reconstruct_items svc json hash percent map_fn namer serdes name map_hashed_id index n
            items st ctx s)
  unfolding reconstruct_items reconstruct_item next_operation_id
  reconstruct_items-seen namer serdes name m index zero items st ctx s l = omega arith
  reconstruct_items-seen namer serdes name m index (suc n) [] st ctx s l = absurd (omega arith)
  reconstruct_items-seen namer serdes name m index (suc n) (item ∷ items) st ctx s l =
      let (step_id, counted) = next_operation_id (some (item_name namer name item index)) ctx in
      Settles-continue (Grows st) (λ st'. seen st' ≡ seen st + suc n) Anything _ _
        (reconstruct_recorded-Grows serdes m item index (item_name namer name item index) step_id st
          (replayed (hash step_id) ctx) counted s)
        (λ st' c t g.
          Settles-weaken
            (reconstruct_items svc json hash percent map_fn namer serdes name m (index + 1) n items
              st' c t)
            (λ st'' e. omega (arith, e, g)) (λ e h. h)
            (reconstruct_items-seen namer serdes name m (index + 1) n items st' c t (omega arith)))

  -- A map that is rebuilt from its children, if it is, has exactly as many items as the summary
  -- counted, and no more than there are items to map.
  pub reconstruct_map_from_children-length :
      (namer : Option (I → ℕ → String)) (serdes : Option (Serdes T)) (name : Option String)
      (items : List I) (map_hashed_id : String) (total : ℕ) (config : CompletionConfig P)
      (ctx : ExecutionContext) (s : S)
      → Settles
          (λ r. (length r.all ≡ total) × (total ≤ length items))
          Anything
          (reconstruct_map_from_children svc json hash percent map_fn namer serdes name items
            map_hashed_id total config ctx s)
  unfolding reconstruct_map_from_children reconstructed
  reconstruct_map_from_children-length namer serdes name items m total config ctx s =
      elim (Bool-cases (ltb (length items) total)) [
        | inl above ↦ rw (above, reconstruct_map_from_children) tt
        | inr within ↦
            rw (within, reconstruct_map_from_children)
              (Settles-continue (λ st. seen st ≡ 0 + total)
                (λ r. (length r.all ≡ total) × (total ≤ length items)) Anything _ _
                (reconstruct_items-seen namer serdes name m 0 total items
                  (no_items svc json hash percent map_fn) ctx s (ground arith))
                (λ st c t e. (omega (arith, e, length-collect_items st), ground arith)))
      ]
