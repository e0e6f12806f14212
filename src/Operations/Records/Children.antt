-- ===== src/Operations/Records/Children.antt =====
-- Child contexts and callbacks leave what replay reads as it is:
-- src/context/durable_context/child.rs and callback.rs, and their modules.
use lambda_durable_execution.Base.{
  if◌then◌else◌, Bool, unwrap_or, String, ◌≡◌, refl, ◌∙◌, Option, none, some, List, is_some,
}
use lambda_durable_execution.Errors.{DurableError}
use lambda_durable_execution.Types.{OperationAction, Operation, OperationStatus}
use lambda_durable_execution.Checkpoint.{LambdaService}
use lambda_durable_execution.Context.{ExecutionContext, ExecutionMode, with_parent_id, rejoin}
use lambda_durable_execution.Context.Run.{
  send, built, ◌>>=◌, Outcome, Op, ◌>>◌, return, fail, set_mode, done, failed, suspended, Serdes,
  Json,
}
use lambda_durable_execution.Operations.{replayed}
use lambda_durable_execution.Operations.Step.{StepIds}
use lambda_durable_execution.Operations.Child.{
  output_payload, context_payload, child_message, ChildContextConfig, ChildReplayDecision, decided,
  replay_children, proceed, replays_children, try_payload, child_succeeded, evaluate_replay,
  rejoined, in_child, catch, start_child, child_builder, fail_child, complete_child,
  run_child_execution, decide, run_in_child_context_with_ids,
}
use lambda_durable_execution.Operations.Records.{
  context_of, replay_view, KeepsRecords, view_kept, KeepsRecords-bind, KeepsRecords-then,
  KeepsRecords-if, KeepsRecords-option, KeepsRecords-send, KeepsRecords-built,
  KeepsRecords-safe_serialize, KeepsRecords-safe_deserialize, KeepsRecords-update,
}

module _ {S T : Type 0} (json : Json T) where
  try_payload-KeepsRecords :
      (ids : StepIds) (serdes : Option (Serdes T)) (payload : Option String)
      (next : Op S (ChildReplayDecision T))
      → KeepsRecords next
      → KeepsRecords (try_payload json ids serdes payload next)
  unfolding try_payload
  try_payload-KeepsRecords ids serdes none next h = h
  try_payload-KeepsRecords ids serdes (some payload) next h =
      KeepsRecords-bind _ _
        (KeepsRecords-safe_deserialize json serdes (some payload) ids.hashed_id ids.name)
        (λ v. KeepsRecords-option v next _ h (λ a. record { kept = λ ctx s. refl }))

  child_succeeded-KeepsRecords :
      (ids : StepIds) (serdes : Option (Serdes T)) (op : Operation)
      → KeepsRecords {S = S} (child_succeeded json ids serdes op)
  unfolding child_succeeded
  child_succeeded-KeepsRecords ids serdes op =
      KeepsRecords-if (replays_children op.context_details) _ _ (record { kept = λ ctx s. refl })
        (try_payload-KeepsRecords ids serdes (context_payload op.context_details) _ (
          try_payload-KeepsRecords ids serdes (output_payload op.execution_details) (return proceed)
            (record { kept = λ ctx s. refl })))

  evaluate_replay-KeepsRecords :
      (ids : StepIds) (serdes : Option (Serdes T)) (op : Option Operation)
      → KeepsRecords {S = S} (evaluate_replay json ids serdes op)
  unfolding evaluate_replay set_mode
  evaluate_replay-KeepsRecords ids serdes none = record { kept = λ ctx s. refl }
  evaluate_replay-KeepsRecords ids serdes (some op) = by_status op.status
    where
      by_status :
          (status : OperationStatus)
          → KeepsRecords {S = S} {A = ChildReplayDecision T} (elim status [
            | OperationStatus.succeeded ↦ child_succeeded json ids serdes op
            | OperationStatus.failed ↦ fail (
                DurableError.child_context_failed ids.step_id
                  (child_message op.context_details)
                  none)
            | _ ↦ set_mode ExecutionMode.execution >> return proceed
          ])
      by_status OperationStatus.succeeded = child_succeeded-KeepsRecords ids serdes op
      by_status OperationStatus.failed = record { kept = λ ctx s. refl }
      by_status OperationStatus.ready = record { kept = λ ctx s. refl }
      by_status OperationStatus.started = record { kept = λ ctx s. refl }
      by_status OperationStatus.pending = record { kept = λ ctx s. refl }
      by_status OperationStatus.unknown = record { kept = λ ctx s. refl }

module _ {S : Type 0} where
  rejoined-view :
      {T : Type 0} (ctx : ExecutionContext) (o : Outcome S T)
      → replay_view (context_of (rejoined ctx o)) ≡ replay_view ctx
  unfolding rejoin
  rejoined-view ctx (done v c s) = refl
  rejoined-view ctx (failed e c s) = refl
  rejoined-view ctx (suspended c s) = refl

  -- Whatever the function does to the context of the child.
  in_child-KeepsRecords :
      {T : Type 0} (hashed_id : String) (context_fn : Op S T)
      → KeepsRecords (in_child hashed_id context_fn)
  unfolding in_child
  in_child-KeepsRecords hashed_id context_fn = record {
    kept = λ ctx s. rejoined-view ctx (context_fn (with_parent_id hashed_id ctx) s);
  }

  catch-KeepsRecords :
      {T U : Type 0} (m : Op S T) (on_error : DurableError → Op S U) (k : T → Op S U)
      → KeepsRecords m
      → ((e : DurableError) → KeepsRecords (on_error e))
      → ((v : T) → KeepsRecords (k v))
      → KeepsRecords (catch m on_error k)
  catch-KeepsRecords {T} {U} m on_error k h f g = record {
    kept = λ ctx s. caught (replay_view ctx) (m ctx s) (view_kept h ctx s);
  }
    where
      caught :
          (view : List (String × Operation) × String) (o : Outcome S T)
          → replay_view (context_of o) ≡ view
          → replay_view (
              context_of {S = S} {A = U} (elim o [
                | done v ctx' s' ↦ k v ctx' s'
                | failed e ctx' s' ↦ on_error e ctx' s'
                | suspended ctx' s' ↦ suspended ctx' s'
              ]))
            ≡ view
      caught view (done v c s) e = view_kept (g v) c s ∙ e
      caught view (failed x c s) e = view_kept (f x) c s ∙ e
      caught view (suspended c s) e = e

module _ {S T : Type 0} (svc : LambdaService S) (json : Json T) where
  pub start_child-KeepsRecords :
      (ids : StepIds) (sub_type : String) → KeepsRecords (start_child svc json ids sub_type)
  unfolding start_child
  start_child-KeepsRecords ids sub_type = record {
    kept = λ ctx s. view_kept (started (is_some (replayed ids.hashed_id ctx))) ctx s;
  }
    where
      started :
          (known : Bool)
          → KeepsRecords (
              if known
              then return tt
              else built "Failed to build child context START update"
                  (child_builder ids sub_type OperationAction.start)
                >>= λ update. send svc ids.step_id update)
      started known =
          KeepsRecords-if known _ _ (record { kept = λ c t. refl })
            (KeepsRecords-bind _ _ (KeepsRecords-built _ _)
              (λ u. KeepsRecords-send svc ids.step_id u))

  run_child_execution-KeepsRecords :
      (ids : StepIds) (context_fn : Op S T) (sub_type : String) (serdes : Option (Serdes T))
      → KeepsRecords (run_child_execution svc json ids context_fn sub_type serdes)
  unfolding run_child_execution start_child fail_child complete_child
  run_child_execution-KeepsRecords ids context_fn sub_type serdes =
      KeepsRecords-then _ _ (start_child-KeepsRecords ids sub_type) (
        catch-KeepsRecords _ _ _ (in_child-KeepsRecords ids.hashed_id context_fn)
          (λ e. KeepsRecords-update svc _ ids.step_id _ _ (record { kept = λ ctx s. refl }))
          (λ v.
            KeepsRecords-bind _ _
              (KeepsRecords-safe_serialize json serdes (some v) ids.hashed_id ids.name)
              (λ payload.
                KeepsRecords-update svc _ ids.step_id _ _ (record { kept = λ ctx s. refl }))))

  decide-KeepsRecords :
      (replay run : Op S T) (decision : ChildReplayDecision T)
      → KeepsRecords replay
      → KeepsRecords run
      → KeepsRecords (decide svc json replay run decision)
  decide-KeepsRecords replay run (decided v) h k = record { kept = λ ctx s. refl }
  decide-KeepsRecords replay run replay_children h k = h
  decide-KeepsRecords replay run proceed h k = k

  replayed_or_run-KeepsRecords :
      (ids : StepIds) (context_fn : Op S T) (sub_type : String) (serdes : Option (Serdes T))
      (op : Option Operation)
      → KeepsRecords (
          evaluate_replay json ids serdes op
          >>= decide svc json
              (in_child ids.hashed_id context_fn)
              (run_child_execution svc json ids context_fn sub_type serdes))
  replayed_or_run-KeepsRecords ids context_fn sub_type serdes op =
      KeepsRecords-bind _ _ (evaluate_replay-KeepsRecords json ids serdes op) (λ decision.
        decide-KeepsRecords _ _ decision (in_child-KeepsRecords ids.hashed_id context_fn)
          (run_child_execution-KeepsRecords ids context_fn sub_type serdes))

  pub run_in_child_context-KeepsRecords :
      (step_id hashed_id : String) (name : Option String) (context_fn : Op S T)
      (config : ChildContextConfig T)
      → KeepsRecords
          (run_in_child_context_with_ids svc json step_id hashed_id name context_fn config)
  unfolding run_in_child_context_with_ids
  run_in_child_context-KeepsRecords step_id hashed_id name context_fn config = record {
    kept = λ ctx s.
        let ids : StepIds = record {
          step_id = step_id;
          hashed_id = hashed_id;
          name = name;
          parent_id = ctx.current_parent_id;
        } in
        view_kept
          (replayed_or_run-KeepsRecords ids context_fn
            (unwrap_or config.sub_type "RunInChildContext") config.serdes (replayed hashed_id ctx))
          ctx s;
  }
