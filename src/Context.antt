-- ===== src/Context.antt =====
-- src/context/execution_context.rs. The parts that the contexts of one invocation share (the mode
-- and the checkpoint manager with its termination manager) are fields; `rejoin` gives a parent the
-- shared parts that a child context leaves. The step data is the copy that replay reads: no
-- operation changes it.
pub mod Paging
pub mod Run
use lambda_durable_execution.Base.{
  ℕ, zero, suc, ◌+◌, ◌%◌, ◌^◌, String, Bool, true, Option, none, some, List, [], ◌∷◌, ltb,
  if◌then◌else◌, length, str_eq, concat, show,
}
use lambda_durable_execution.Base.Result.{Result, ok, err, ◌>>=◌, ◌>>◌}
use lambda_durable_execution.Base.Dict
use lambda_durable_execution.Errors.{DurableError}
use lambda_durable_execution.Types.{Operation, DurableExecutionInvocationInput}
use lambda_durable_execution.Termination.{
  set_checkpoint_terminating_callback, new_termination_manager,
}
use lambda_durable_execution.Checkpoint.{CheckpointManager, LambdaService, new_manager}
use lambda_durable_execution.Checkpoint.Queue.{store_operations}

pub data ExecutionMode : Type 0 where
  execution replay : ExecutionMode

pub record ExecutionContext : Type 0 where
  pub durable_execution_arn : String
  pub checkpoint_manager : CheckpointManager
  pub step_data : List (String × Operation)
  pub mode : ExecutionMode
  pub operation_counter : ℕ
  pub current_parent_id : Option String

abbrev pub get_state_max_pages : ℕ
get_state_max_pages = 1000

abbrev pub get_state_max_items : ℕ
get_state_max_items = 1000

-- `.filter(|m| !m.is_empty())`.
unfoldable pub non_empty : Option String → Option String
non_empty none = none
non_empty (some m) = if str_eq m "" then none else some m

abbrev pub too_many_pages : DurableError
too_many_pages =
    DurableError.invalid_configuration
      "Exceeded max durable execution state pages while paging operations"

unfoldable pub initial_mode : List (String × Operation) → ExecutionMode
initial_mode stored =
    if ltb 1 (length stored) then ExecutionMode.replay else ExecutionMode.execution

-- `set_terminating`, on the flag that it sets.
unfoldable pub set_terminating : Bool → Bool
set_terminating _ = true

unfoldable pub new_context :
    DurableExecutionInvocationInput → List (String × Operation) → ExecutionContext
unfolding new_manager new_termination_manager set_checkpoint_terminating_callback initial_mode
    set_terminating
new_context input stored =
    let t = set_checkpoint_terminating_callback set_terminating (new_termination_manager Bool) in
    record {
      durable_execution_arn = input.durable_execution_arn;
      checkpoint_manager = new_manager input.durable_execution_arn t input.checkpoint_token stored;
      step_data = stored;
      mode = initial_mode stored;
      operation_counter = 0;
      current_parent_id = none;
    }

module _ {S : Type 0} (svc : LambdaService S) where
  -- The loop over the pages; the first number is how many may still be fetched.
  unfoldable pub load_pages :
      ℕ
      → DurableExecutionInvocationInput
      → Option String
      → List (String × Operation)
      → S
      → Result DurableError (List (String × Operation)) × S
  unfolding non_empty store_operations
  load_pages pages input none stored s = (ok stored, s)
  load_pages zero input (some marker) stored s = (err too_many_pages, s)
  load_pages (suc pages) input (some marker) stored s =
      let (reply, s') =
        svc.get_durable_execution_state input.durable_execution_arn input.checkpoint_token marker
          get_state_max_items s in
      elim reply [
        | err e ↦ (err e, s')
        | ok r ↦
            load_pages pages input (non_empty r.next_marker) (store_operations r.operations stored)
              s'
      ]

  -- `ExecutionContext::new`.
  unfoldable pub load_context :
      DurableExecutionInvocationInput → S → Result DurableError ExecutionContext × S
  unfolding load_pages new_context store_operations non_empty
  load_context input s =
      let first = store_operations input.initial_execution_state.operations [] in
      let marker = non_empty input.initial_execution_state.next_marker in
      let (loaded, s') = load_pages get_state_max_pages input marker first s in
      (loaded >>= λ stored. ok (new_context input stored), s')

abbrev base_id : Option String → ℕ → String
base_id (some n) counter = concat (n ∷ "_" ∷ show counter ∷ [])
base_id none counter = concat ("op_" ∷ show counter ∷ [])

-- The id that a counter value gives.
unfoldable pub operation_id : Option String → Option String → ℕ → String
operation_id none name counter = base_id name counter
operation_id (some prefix) name counter = concat (prefix ∷ ":" ∷ base_id name counter ∷ [])

-- `fetch_add` on the counter, a `u64`.
unfoldable pub next_operation_id : Option String → ExecutionContext → String × ExecutionContext
unfolding operation_id
next_operation_id name ctx = (
  operation_id ctx.current_parent_id name ctx.operation_counter,
  record ctx { operation_counter = (ctx.operation_counter + 1) % 2 ^ 64 },
)

unfoldable pub with_parent_id : String → ExecutionContext → ExecutionContext
with_parent_id parent ctx = record ctx { current_parent_id = some parent; operation_counter = 0 }

-- The parts that a child shares with its parent.
unfoldable pub rejoin : ExecutionContext → ExecutionContext → ExecutionContext
rejoin parent child = record parent {
  checkpoint_manager = child.checkpoint_manager;
  mode = child.mode;
}
