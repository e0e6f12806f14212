-- ===== src/Checkpoint/Coalesce.antt =====
-- src/checkpoint/manager/coalesce.rs: the updates of a batch that share an id become one.
pub mod Merge
pub mod Total
use lambda_durable_execution.Base.{
  String, Option, none, some, List, [], ◌∷◌, ◌++◌, leb, if◌then◌else◌, or_else, length, concat,
}
use lambda_durable_execution.Base.Result.{Result, ok, err, ◌>>=◌, ◌>>◌}
use lambda_durable_execution.Base.Dict
use lambda_durable_execution.Errors.{DurableError}
use lambda_durable_execution.Types.{OperationType, same_type, OperationUpdate}

-- The `Debug` text of a type.
unfoldable pub type_name : OperationType → String
type_name OperationType.step = "Step"
type_name OperationType.wait = "Wait"
type_name OperationType.callback = "Callback"
type_name OperationType.chained_invoke = "ChainedInvoke"
type_name OperationType.context = "Context"
type_name OperationType.execution = "Execution"

unfoldable pub mismatch : OperationUpdate → OperationUpdate → DurableError
unfolding type_name
mismatch existing update = DurableError.context_validation_error (
    concat (
      "OperationUpdate type mismatch for id "
      ∷ existing.id
      ∷ ": "
      ∷ type_name existing.operation_type
      ∷ " vs "
      ∷ type_name update.operation_type
      ∷ []))

-- The newest action, and each other field from the newest update that has it.
unfoldable pub merge : OperationUpdate → OperationUpdate → OperationUpdate
merge existing update = record existing {
  action = update.action;
  parent_id = or_else update.parent_id existing.parent_id;
  name = or_else update.name existing.name;
  sub_type = or_else update.sub_type existing.sub_type;
  payload = or_else update.payload existing.payload;
  error = or_else update.error existing.error;
  context_options = or_else update.context_options existing.context_options;
  step_options = or_else update.step_options existing.step_options;
  wait_options = or_else update.wait_options existing.wait_options;
  callback_options = or_else update.callback_options existing.callback_options;
  chained_invoke_options = or_else update.chained_invoke_options existing.chained_invoke_options;
}

-- The ids in the order of their first updates, and the merged update of each.
pub record Acc : Type 0 where
  pub order : List String
  pub by_id : List (String × OperationUpdate)

-- The body of the loop, for what the map has under the id of the update.
unfoldable pub absorb : Acc → OperationUpdate → Option OperationUpdate → Result DurableError Acc
unfolding merge mismatch
absorb a update none =
    ok (record { order = a.order ++ update.id ∷ []; by_id = Dict.insert update.id update a.by_id })
absorb a update (some existing) =
    if same_type existing.operation_type update.operation_type
    then ok (record a { by_id = Dict.insert update.id (merge existing update) a.by_id })
    else err (mismatch existing update)

unfoldable pub absorb_all : Acc → List OperationUpdate → Result DurableError Acc
unfolding absorb
absorb_all a [] = ok a
absorb_all a (u ∷ us) = absorb a u (Dict.get u.id a.by_id) >>= λ a'. absorb_all a' us

-- `order.into_iter().filter_map(|id| by_id.remove(&id))`.
unfoldable pub drain : List String → List (String × OperationUpdate) → List OperationUpdate
drain [] m = []
drain (id ∷ ids) m = elim (Dict.get id m) [
  | none ↦ drain ids m
  | some u ↦ u ∷ drain ids (Dict.remove id m)
]

unfoldable pub coalesce_updates : List OperationUpdate → Result DurableError (List OperationUpdate)
unfolding absorb_all drain
coalesce_updates updates =
    if leb (length updates) 1
    then ok updates
    else do a ← absorb_all (record { order = []; by_id = [] }) updates; ok (drain a.order a.by_id)
