-- ===== src/Operations/Invoke.antt =====
-- src/context/durable_context/invoke.rs, invoke/replay.rs and invoke/execute.rs.
pub mod Suspends
use lambda_durable_execution.Base.{String, Option, none, some}
use lambda_durable_execution.Base.Result.{Result, ok, err}
use lambda_durable_execution.Errors.{DurableError}
use lambda_durable_execution.Types.{
  Operation, OperationType, OperationStatus, OperationAction, ChainedInvokeDetails,
}
use lambda_durable_execution.Types.Builder.{OperationUpdateBuilder}
use lambda_durable_execution.Termination.{terminate_for_invoke}
use lambda_durable_execution.Checkpoint.{LambdaService, CheckpointManager}
use lambda_durable_execution.Checkpoint.Queue.{force_checkpoint}
use lambda_durable_execution.Context.{ExecutionContext, ExecutionMode, next_operation_id}
use lambda_durable_execution.Context.Run.{
  Outcome, Op, ◌>>=◌, ◌>>◌, return, fail, suspend, set_mode, terminating, built, send, done, Serdes,
  Json, safe_serialize, safe_deserialize,
}
use lambda_durable_execution.Operations.{update_builder, replayed}

pub record InvokeConfig (I O : Type 0) : Type 0 where
  pub payload_serdes : Option (Serdes I)
  pub result_serdes : Option (Serdes O)
  pub tenant_id : Option String

abbrev pub invoke_payload : Option ChainedInvokeDetails → Option String
invoke_payload none = none
invoke_payload (some d) = d.result

abbrev pub invoke_message : Option ChainedInvokeDetails → String
invoke_message none = "Invoke failed"
invoke_message (some d) = elim d.error [ none ↦ "Invoke failed" | some e ↦ e.error_message ]

abbrev pub missing_invoke_result : DurableError
missing_invoke_result = DurableError.internal "Missing invoke result in replay"

unfoldable pub invocation_failed : String → Operation → DurableError
invocation_failed function_id op =
    DurableError.invocation_failed function_id (invoke_message op.chained_invoke_details) none

unfoldable pub invoke_builder :
    String
    → Option String
    → Option String
    → String
    → Option String
    → Option String
    → OperationUpdateBuilder
unfolding update_builder
invoke_builder hashed_id parent_id name function_id tenant_id payload =
    record (update_builder hashed_id OperationType.chained_invoke "ChainedInvoke"
      OperationAction.start parent_id name) {
        chained_invoke_options =
            some (record { function_name = function_id; tenant_id = tenant_id });
        payload = payload;
      }

module _ {S : Type 0} where
  unfoldable pub suspend_invoke : {A : Type 0} → Op S A
  unfolding terminating terminate_for_invoke
  suspend_invoke = do terminating terminate_for_invoke; suspend

  -- `force_checkpoint`, its error logged.
  abbrev refreshed :
      {E : Type 0} → ExecutionContext → Result E CheckpointManager × S → Outcome S (Unit {0})
  refreshed ctx (ok m, s) = done tt (record ctx { checkpoint_manager = m }) s
  refreshed ctx (err e, s) = done tt ctx s

  unfoldable pub refresh : LambdaService S → Op S (Unit {0})
  unfolding force_checkpoint
  refresh svc ctx s = refreshed ctx (force_checkpoint svc ctx.checkpoint_manager s)

module _ {S O : Type 0} (json : Json O) where
  abbrev pub require_invoke : Option O → Op S (Option O)
  require_invoke none = fail missing_invoke_result
  require_invoke (some v) = return (some v)

  unfoldable pub invoke_succeeded :
      Option (Serdes O) → String → Option String → Operation → Op S (Option O)
  unfolding safe_deserialize
  invoke_succeeded serdes hashed_id name op = elim (invoke_payload op.chained_invoke_details) [
    | none ↦ fail missing_invoke_result
    | some payload ↦ safe_deserialize json serdes (some payload) hashed_id name >>= require_invoke
  ]

  -- What a status decides, and `otherwise` for a status that decides nothing.
  unfoldable pub on_status :
      Option (Serdes O)
      → String
      → Option String
      → String
      → Operation
      → Op S (Option O)
      → Op S (Option O)
  unfolding invoke_succeeded invocation_failed
  on_status serdes hashed_id name function_id op otherwise = elim op.status [
    | OperationStatus.succeeded ↦ invoke_succeeded serdes hashed_id name op
    | OperationStatus.failed ↦ fail (invocation_failed function_id op)
    | _ ↦ otherwise
  ]

  abbrev recheck_invoke :
      Option (Serdes O)
      → String
      → Option String
      → String
      → Option Operation
      → Op S (Option O)
      → Op S (Option O)
  recheck_invoke serdes hashed_id name function_id none otherwise = otherwise
  recheck_invoke serdes hashed_id name function_id (some op) otherwise =
      on_status serdes hashed_id name function_id op otherwise

  -- `none`: the function is to be invoked.
  unfoldable pub handle_replay :
      LambdaService S
      → Option (Serdes O)
      → String
      → Option String
      → String
      → Option Operation
      → Op S (Option O)
  unfolding on_status refresh set_mode suspend_invoke
  handle_replay svc serdes hashed_id name function_id none = return none
  handle_replay svc serdes hashed_id name function_id (some op) =
      on_status serdes hashed_id name function_id op (
        refresh svc >> λ ctx.
        recheck_invoke serdes hashed_id name function_id (replayed hashed_id ctx)
          (set_mode ExecutionMode.execution >> suspend_invoke) ctx)

module _ {S I O : Type 0} (svc : LambdaService S) (json_input : Json I) (json : Json O) where
  unfoldable pub run_invoke_execution :
      Option String
      → String
      → Option I
      → Option (Serdes I)
      → Option String
      → String
      → String
      → Op S O
  unfolding safe_serialize invoke_builder built send suspend_invoke
  run_invoke_execution name function_id input payload_serdes tenant_id step_id hashed_id ctx =
      (do
        payload ← safe_serialize json_input payload_serdes input hashed_id name
        update ←
            built "Failed to build chained invoke START update"
              (invoke_builder hashed_id ctx.current_parent_id name function_id tenant_id payload)
        send svc step_id update
        suspend_invoke)
        ctx

  abbrev invoked : Op S O → Option O → Op S O
  invoked run none = run
  invoked run (some v) = return v

  unfoldable pub invoke_with_config :
      (String → String) → Option String → String → Option I → InvokeConfig I O → Op S O
  unfolding next_operation_id handle_replay run_invoke_execution
  invoke_with_config hash name function_id input config ctx =
      let (step_id, counted) = next_operation_id name ctx in
      let hashed_id = hash step_id in
      (handle_replay json svc config.result_serdes hashed_id name function_id
            (replayed hashed_id ctx)
          >>= invoked (
              run_invoke_execution name function_id input config.payload_serdes config.tenant_id
                step_id hashed_id))
        counted
