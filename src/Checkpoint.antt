-- ===== src/Checkpoint.antt =====
-- src/checkpoint/manager.rs: the state of the checkpoint manager. Its operations are in the modules
-- below. The `Arc<Notify>` of a queued item is the number of the item; `notified` lists the numbers
-- that have been woken. The termination manager that the manager holds is a field, since its
-- callback sets `is_terminating`.
pub mod Coalesce
pub mod Lifecycle
pub mod Batch
pub mod Queue
use lambda_durable_execution.Base.{
  ℕ, String, Option, List, [], ◌∷◌, Bool, false, if◌then◌else◌, str_eq, any, keep, not,
}
use lambda_durable_execution.Base.Dict
use lambda_durable_execution.Base.Result.{Result}
use lambda_durable_execution.Errors.{DurableError}
use lambda_durable_execution.Types.{
  Operation, OperationType, OperationUpdate, CheckpointResponse, GetStateResponse,
}
use lambda_durable_execution.Termination.{TerminationManager}

pub data OperationLifecycle : Type 0 where
  not_started executing retry_waiting idle_not_awaited idle_awaited completed : OperationLifecycle

pub record OperationInfo : Type 0 where
  pub id : String
  pub parent_id : Option String
  pub operation_type : OperationType
  pub lifecycle : OperationLifecycle
  pub awaited : Bool

pub record QueuedCheckpoint : Type 0 where
  pub step_id : String
  pub update : OperationUpdate
  pub notify : ℕ

-- Where the task of `process_queue` is, at the points between which other tasks run: at the head of its
-- loop, behind the notifications of a batch that was sent, in the cooldown, behind those of a batch
-- that failed, before the termination for it, behind the loop, or gone.
pub data Worker : Type 0 where
  looping checking cooling leaving left : Worker
  failing signalling : DurableError → Worker

pub record CheckpointManager : Type 0 where
  pub durable_execution_arn : String
  pub termination_manager : TerminationManager Bool
  pub checkpoint_token : String
  pub step_data : List (String × Operation)
  pub queue : List QueuedCheckpoint
  pub is_processing : Bool
  pub is_terminating : Bool
  pub operations : List (String × OperationInfo)
  pub pending_completions : List String
  pub next_notify : ℕ
  pub notified : List ℕ
  pub worker : Worker

-- `LambdaService`, with the state of the service: what it answers is not the program's. The last field
-- is the scheduler of tokio instead: how many steps the worker is ahead of the caller with a number
-- when that caller goes on.
pub record LambdaService (S : Type 0) : Type 0 where
  pub checkpoint_durable_execution :
      String → String → List OperationUpdate → S → Result DurableError CheckpointResponse × S
  pub get_durable_execution_state :
      String → String → String → ℕ → S → Result DurableError GetStateResponse × S
  pub head_start : ℕ → ℕ

unfoldable pub new_manager :
    String → TerminationManager Bool → String → List (String × Operation) → CheckpointManager
new_manager arn t token step_data = record {
  durable_execution_arn = arn;
  termination_manager = t;
  checkpoint_token = token;
  step_data = step_data;
  queue = [];
  is_processing = false;
  is_terminating = false;
  operations = [];
  pending_completions = [];
  next_notify = 0;
  notified = [];
  worker = Worker.left;
}

unfoldable pub get_step_data : CheckpointManager → String → Option Operation
get_step_data m id = Dict.get id m.step_data

-- `HashSet::insert` and `HashSet::remove`.
abbrev pub set_insert : String → List String → List String
set_insert k ks = if any (λ j. str_eq j k) ks then ks else k ∷ ks

abbrev pub set_remove : String → List String → List String
set_remove k ks = keep (λ j. not (str_eq j k)) ks
