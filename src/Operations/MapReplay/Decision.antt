-- ===== src/Operations/MapReplay/Decision.antt =====
-- What the replay of a map does first: `evaluate_map_replay` of src/context/durable_context/map/
-- replay.rs.
use lambda_durable_execution.Base.{
  ℕ, zero, suc, ◌+◌, ◌%◌, ◌^◌, String, Bool, false, ◌||◌, Option, none, some, List, [], ◌∷◌, ltb,
  if◌then◌else◌, unwrap_or, length, str_eq, concat, show,
}
use lambda_durable_execution.Errors.{DurableError}
use lambda_durable_execution.Types.{Operation, OperationStatus, ContextDetails}
use lambda_durable_execution.Context.{ExecutionContext, ExecutionMode, next_operation_id}
use lambda_durable_execution.Context.Run.{
  Op, ◌>>=◌, ◌>>◌, return, fail, set_mode, done, Serdes, safe_deserialize_required_with_serdes,
}
use lambda_durable_execution.Batch.{BatchItem, BatchResult}
use lambda_durable_execution.Operations.{replayed}
use lambda_durable_execution.Operations.Child.{context_payload}

pub data MapReplayDecision (T : Type 0) : Type 0 where
  return_result : BatchResult T → MapReplayDecision T
  reconstruct : ℕ → MapReplayDecision T
  continue_map : MapReplayDecision T

-- The members of a JSON object that the code asks for.
pub record PayloadFields : Type 0 where
  pub kind : Option String
  pub type_name : Option String
  pub has_total_count : Bool
  pub total_count : Option ℕ

abbrev pub is_text : String → Option String → Bool
is_text expected none = false
is_text expected (some text) = str_eq text expected

-- A text that is no JSON object is no summary.
unfoldable pub is_summary : Option PayloadFields → Bool
is_summary none = false
is_summary (some f) =
    if is_text "BatchResult" f.kind
    then false
    else is_text "MapResult" f.type_name || f.has_total_count

abbrev pub total_count_of : Option PayloadFields → Option ℕ
total_count_of none = none
total_count_of (some f) = f.total_count

abbrev pub batch_message : Option ContextDetails → String
batch_message none = "Batch operation failed"
batch_message (some d) = elim d.error [ none ↦ "Batch operation failed" | some e ↦ e.error_message ]

unfoldable pub map_failed : Option String → Operation → DurableError
map_failed name op =
    DurableError.batch_operation_failed (unwrap_or name "map") (batch_message op.context_details) 0
      0

unfoldable pub too_many_items : ℕ → ℕ → DurableError
unfolding show
too_many_items available count =
    DurableError.replay_validation_failed (concat ("map totalCount <= " ∷ show available ∷ []))
      (show count)

-- One more than the greatest index, or 0; a `usize`.
unfoldable pub target_total_count : {T : Type 0} → List (BatchItem T) → ℕ
target_total_count [] = 0
target_total_count (item ∷ items) =
    let rest = target_total_count items in
    let this = (item.index + 1) % 2 ^ 64 in if ltb rest this then this else rest

module _ {I : Type 0} where
  abbrev pub item_name : Option (I → ℕ → String) → Option String → I → ℕ → String
  item_name none name item index = concat (unwrap_or name "map" ∷ "-item-" ∷ show index ∷ [])
  item_name (some namer) name item index = namer item index

  -- The operation ids of the first items, so that the counter is where the execution left it.
  unfoldable pub consume_ids :
      Option (I → ℕ → String) → Option String → ℕ → ℕ → List I → ExecutionContext → ExecutionContext
  unfolding next_operation_id show
  consume_ids namer name index zero items ctx = ctx
  consume_ids namer name index (suc n) [] ctx = ctx
  consume_ids namer name index (suc n) (item ∷ items) ctx =
      consume_ids namer name (index + 1) n items
        (next_operation_id (some (item_name namer name item index)) ctx).1

abbrev pub replay_result :
    {S T : Type 0}
    → (String → Op S (MapReplayDecision T))
    → Option String
    → Op S (MapReplayDecision T)
replay_result read none = return continue_map
replay_result read (some payload) = read payload

module _ {S I : Type 0} where
  abbrev pub consume : Option (I → ℕ → String) → Option String → ℕ → List I → Op S (Unit {0})
  consume namer name n items ctx s = done tt (consume_ids namer name 0 n items ctx) s

module _ {S I T : Type 0} (fields : String → Option PayloadFields) where
  -- The recorded batch, unless it has more items than there are.
  unfoldable pub return_batch :
      Option (I → ℕ → String) → Option String → List I → BatchResult T → Op S (MapReplayDecision T)
  unfolding target_total_count too_many_items consume_ids
  return_batch namer name items batch =
      let count = target_total_count batch.all in
      if ltb (length items) count
      then fail (too_many_items (length items) count)
      else consume namer name count items >> return (return_result batch)

  unfoldable pub replay_payload :
      Option String
      → List I
      → Option (I → ℕ → String)
      → Option (Serdes (BatchResult T))
      → String
      → String
      → Op S (MapReplayDecision T)
  unfolding is_summary return_batch too_many_items safe_deserialize_required_with_serdes
  replay_payload name items namer batch_serdes hashed_id payload =
      if is_summary (fields payload)
      then elim (total_count_of (fields payload)) [
        | none ↦ return continue_map
        | some count ↦
            if ltb (length items) count
            then fail (too_many_items (length items) count)
            else return (reconstruct count)
      ]
      else elim batch_serdes [
        | none ↦ return continue_map
        | some serdes ↦
            safe_deserialize_required_with_serdes serdes payload hashed_id name
            >>= return_batch namer name items
      ]

  unfoldable pub evaluate_map_replay :
      Option String
      → List I
      → Option (I → ℕ → String)
      → Option (Serdes (BatchResult T))
      → String
      → Op S (MapReplayDecision T)
  unfolding map_failed replay_payload set_mode
  evaluate_map_replay name items namer batch_serdes hashed_id ctx = elim (replayed hashed_id ctx) [
    | none ↦ return continue_map ctx
    | some op ↦ elim op.status [
      | OperationStatus.failed ↦ fail (map_failed name op) ctx
      | OperationStatus.succeeded ↦
          replay_result (replay_payload name items namer batch_serdes hashed_id)
            (context_payload op.context_details) ctx
      | _ ↦ (set_mode ExecutionMode.execution >> return continue_map) ctx
    ]
  ]
