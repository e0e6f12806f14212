-- ===== src/Operations/Step/Sends.antt =====
-- What a step sends when its function is done, and how it ends: src/context/durable_context/step/execute.rs.
use lambda_durable_execution.Base.{String, ◌≡◌, Bool, true, false, Option, none, some}
use lambda_durable_execution.Base.Result.{Result}
use lambda_durable_execution.Duration.{Duration}
use lambda_durable_execution.Errors.{DurableError}
use lambda_durable_execution.Types.{Operation, OperationAction, OperationUpdate}
use lambda_durable_execution.Checkpoint.{CheckpointManager, LambdaService}
use lambda_durable_execution.Checkpoint.Queue.{checkpoint, acknowledged}
use lambda_durable_execution.Checkpoint.Queue.Outcome.{IsAttended}
use lambda_durable_execution.Context.{ExecutionContext, ExecutionMode}
use lambda_durable_execution.Context.Run.{Outcome, failed, suspended, Json}
use lambda_durable_execution.Operations.Step.{StepContext, StepIds, attempts_made}

module _ {S : Type 0} (svc : LambdaService S) where
  -- A manager that lets checkpoints in and looks at its queue.
  abbrev pub IsOpen : CheckpointManager → Type 0
  IsOpen m = (m.is_terminating ≡ false) × IsAttended svc m

  -- An update with an action, a payload and an operation's id, acknowledged between two contexts.
  pub record Sent (ids : StepIds) (action : OperationAction) (payload : Option String)
      (ctx ctx' : ExecutionContext) (s s' : S) : Type 0 where
    pub update : OperationUpdate
    pub id : update.id ≡ ids.hashed_id
    pub action_sent : update.action ≡ action
    pub payload_sent : update.payload ≡ payload
    pub acked :
        checkpoint svc ids.step_id update ctx.checkpoint_manager s
        ≡ acknowledged ctx'.checkpoint_manager s'

  -- How a step whose function failed ends: by whether another attempt is allowed.
  abbrev pub EndsErrored :
      {A : Type 0} → StepIds → Bool → DurableError → ExecutionContext → S → Outcome S A → Type 0
  EndsErrored ids true r ctx s o =
      (c c' : ExecutionContext) × (t : S) × Sent ids OperationAction.retry none ctx c s t
      × (o ≡ suspended c' t)
  EndsErrored ids false r ctx s o =
      (c : ExecutionContext) × (t : S) × Sent ids OperationAction.fail none ctx c s t
      × (o ≡ failed r c t)

module _ {S T : Type 0} (svc : LambdaService S) (eager : Bool) (json : Json T) where
  -- What the function is called with.
  abbrev pub call_of : StepIds → Option Operation → ExecutionContext → StepContext
  call_of ids op ctx = record {
    step_name = ids.name;
    operation_id = ids.hashed_id;
    durable_execution_arn = ctx.durable_execution_arn;
    mode = ExecutionMode.execution;
    attempt = some (attempts_made op);
  }
