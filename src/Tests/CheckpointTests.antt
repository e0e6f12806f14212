-- ===== src/Tests/CheckpointTests.antt =====
-- The checkpoint manager: src/checkpoint/.
use lambda_durable_execution.Base.{
  List, inr, ℕ, ◌+◌, String, ◌≡◌, refl, true, false, none, some, [], ◌∷◌, arith, if◌then◌else◌,
  length, str_eq,
}
use lambda_durable_execution.Base.Result.{ok, err}
use lambda_durable_execution.Base.Dict
use lambda_durable_execution.Errors.{DurableError}
use lambda_durable_execution.Types.{
  Operation, OperationType, OperationStatus, OperationAction, OperationUpdate,
}
use lambda_durable_execution.Checkpoint.{Worker, CheckpointManager, QueuedCheckpoint, LambdaService}
use lambda_durable_execution.Checkpoint.Coalesce.{Acc, merge}
use lambda_durable_execution.Checkpoint.Lifecycle.{
  has_finished_ancestor, update_operation_lifecycle, mark_awaited,
}
use lambda_durable_execution.Checkpoint.Batch.{take_batch}
use lambda_durable_execution.Checkpoint.Batch.Bounds.{Filled, take_batch-Filled}
use lambda_durable_execution.Checkpoint.Queue.{process_queue, acknowledged, checkpoint}
use lambda_durable_execution.Checkpoint.Queue.Drain.{Drained, process_queue-Drained}
use lambda_durable_execution.Checkpoint.Queue.Outcome.{checkpoint_returns}
use lambda_durable_execution.Checkpoint.Queue.Race.{
  Protocol, idle_protocol, Reach, here, next, push, IsSingle, IsLost, Reach-IsSingle,
  IsLost-reachable,
}

abbrev pub bare : String → OperationType → OperationAction → OperationUpdate
bare id t a = record {
  id = id;
  parent_id = none;
  name = none;
  operation_type = t;
  sub_type = none;
  action = a;
  payload = none;
  error = none;
  context_options = none;
  step_options = none;
  wait_options = none;
  callback_options = none;
  chained_invoke_options = none;
}

abbrev pub start_a : OperationUpdate
start_a = record (bare "a" OperationType.step OperationAction.start) { name = some "first" }

abbrev succeed_a : OperationUpdate
succeed_a = record (bare "a" OperationType.step OperationAction.succeed) { payload = some "5" }

abbrev start_b : OperationUpdate
start_b = bare "b" OperationType.wait OperationAction.start

abbrev manager : CheckpointManager
manager = record {
  durable_execution_arn = "arn";
  termination_manager = record { terminated = false; signal = none; callback = some (λ _. true) };
  checkpoint_token = "token-0";
  step_data = [];
  queue = [];
  is_processing = false;
  is_terminating = false;
  operations = [];
  pending_completions = [];
  next_notify = 0;
  notified = [];
  worker = Worker.left;
}

-- A service that refuses everything, and counts the requests.
abbrev pub refusing : LambdaService ℕ
refusing = record {
  checkpoint_durable_execution = λ arn token us n. (err (DurableError.internal "down"), n + 1);
  get_durable_execution_state =
      λ arn token marker max n. (err (DurableError.internal "down"), n + 1);
  head_start = λ n. 0;
}

-- A service that takes everything.
abbrev pub accepting : LambdaService ℕ
accepting = record {
  checkpoint_durable_execution = λ arn token us n. (
    ok (record { checkpoint_token = some "token-1"; new_execution_state = none }),
    n + length us,
  );
  get_durable_execution_state =
      λ arn token marker max n. (ok (record { operations = []; next_marker = none }), n);
  head_start = λ n. 1;
}

abbrev type_of : String → OperationType
type_of k = if str_eq k "a" then OperationType.step else OperationType.wait

abbrev merged_a : Acc
merged_a = record { order = "a" ∷ []; by_id = ("a", merge start_a succeed_a) ∷ [] }

abbrev waiting : CheckpointManager
waiting = mark_awaited (update_operation_lifecycle manager start_b) "b"

abbrev finished_a : Operation
finished_a = record {
  id = "a";
  parent_id = none;
  name = none;
  operation_type = OperationType.context;
  sub_type = none;
  status = OperationStatus.succeeded;
  step_details = none;
  callback_details = none;
  wait_details = none;
  execution_details = none;
  context_details = none;
  chained_invoke_details = none;
}

abbrev below_a : OperationUpdate
below_a = record start_b { parent_id = some "a" }

abbrev after_a : CheckpointManager
after_a = record manager { step_data = ("a", finished_a) ∷ [] }

abbrev item : ℕ → OperationUpdate → QueuedCheckpoint
item n u = record { step_id = "step"; update = u; notify = n }

take_batch-Filled_example :
    Filled
      (item 0 start_a ∷ item 1 start_b ∷ [])
      (take_batch (item 0 start_a ∷ item 1 start_b ∷ [])).0
      (take_batch (item 0 start_a ∷ item 1 start_b ∷ [])).1
take_batch-Filled_example = take_batch-Filled (item 0 start_a ∷ item 1 start_b ∷ [])

abbrev queued : CheckpointManager
queued = record manager {
  queue = item 0 start_a ∷ item 1 start_b ∷ [];
  is_processing = true;
  next_notify = 2;
  worker = Worker.looping;
}

process_queue-Drained_example :
    (m' : CheckpointManager) × (s' : ℕ) × (process_queue refusing 3 queued 0 ≡ some (m', s'))
    × Drained queued m'
process_queue-Drained_example = process_queue-Drained refusing 3 queued 0 (omega arith)

-- A worker that waits out its cooldown.
abbrev busy : CheckpointManager
busy = record queued { worker = Worker.cooling }

checkpoint_returns_example :
    (m' : CheckpointManager) × (s' : ℕ) × (checkpoint refusing "first_2" start_a busy 0
      ≡ acknowledged m' s')
unfolding has_finished_ancestor
checkpoint_returns_example =
    checkpoint_returns refusing "first_2" start_a busy 0 refl refl (inr (refl, tt))

Reach-IsSingle_example :
    IsSingle (record idle_protocol { queue = item 0 start_a ∷ []; starters = 1 })
Reach-IsSingle_example =
    Reach-IsSingle {p = idle_protocol} (next here (push (item 0 start_a))) (omega arith)

IsLost-reachable_example :
    (q : Protocol) × Reach idle_protocol q × (q.queue ≡ item 1 start_b ∷ []) × IsLost q
IsLost-reachable_example = IsLost-reachable (item 0 start_a) (item 1 start_b)

abbrev lost : Protocol
lost = record idle_protocol { queue = item 0 start_a ∷ [] }

abbrev down : DurableError
down = DurableError.internal "down"

abbrev items : List QueuedCheckpoint
items = item 0 start_a ∷ item 1 start_b ∷ []
