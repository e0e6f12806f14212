-- ===== src/Operations/Child/Unfinished.antt =====
-- A child whose record is unfinished, as long as its function has no value:
-- src/context/durable_context/child.rs, child/replay.rs and child/execute.rs.
use lambda_durable_execution.Base.{
  String, ◌≡◌, refl, sym, ap, ◌∙◌, subst, false, Option, none, some, unwrap_or,
}
use lambda_durable_execution.Errors.{DurableError}
use lambda_durable_execution.Types.{Operation, OperationStatus}
use lambda_durable_execution.Checkpoint.{LambdaService}
use lambda_durable_execution.Checkpoint.Lifecycle.{is_finished}
use lambda_durable_execution.Context.{ExecutionContext, with_parent_id}
use lambda_durable_execution.Context.Run.{
  Op, ◌>>=◌, ◌>>◌, fail, set_mode, built, send, Serdes, Json,
}
use lambda_durable_execution.Operations.{replayed}
use lambda_durable_execution.Operations.Settles.{Anything, Nothing}
use lambda_durable_execution.Operations.Step.{StepIds}
use lambda_durable_execution.Operations.Child.{
  child_fail_builder, child_failed, ChildContextConfig, proceed, evaluate_replay, in_child,
  start_child, fail_child, complete_child, run_child_execution, decide,
  run_in_child_context_with_ids,
}
use lambda_durable_execution.Operations.Records.{replay_view}
use lambda_durable_execution.Operations.Records.Children.{start_child-KeepsRecords}
use lambda_durable_execution.Operations.Records.Ends.{
  has_finished, View, recorded, Ends, Ends-continue, Ends-always, KeepsRecords-Ends, Ends-rejoined,
  Ends-catch,
}

module _ {S T : Type 0} (json : Json T) where
  -- An unfinished record decides nothing.
  evaluate_replay-Unfinished :
      (ids : StepIds) (serdes : Option (Serdes T)) (op : Option Operation) (view : View)
      (ctx : ExecutionContext) (s : S)
      → replay_view ctx ≡ view
      → has_finished op ≡ false
      → Ends (λ d. d ≡ proceed) view (evaluate_replay json ids serdes op ctx s)
  unfolding evaluate_replay set_mode Ends
  evaluate_replay-Unfinished ids serdes none view ctx s e h = (refl, e)
  evaluate_replay-Unfinished ids serdes (some op) view ctx s e h = by_status op.status refl h
    where
      by_status :
          (status : OperationStatus)
          → op.status ≡ status
          → is_finished status ≡ false
          → Ends (λ d. d ≡ proceed) view (evaluate_replay json ids serdes (some op) ctx s)
      by_status OperationStatus.succeeded q f = absurd (cc f)
      by_status OperationStatus.failed q f = absurd (cc f)
      by_status OperationStatus.ready q f = rw (q, evaluate_replay) (refl, e)
      by_status OperationStatus.started q f = rw (q, evaluate_replay) (refl, e)
      by_status OperationStatus.pending q f = rw (q, evaluate_replay) (refl, e)
      by_status OperationStatus.unknown q f = rw (q, evaluate_replay) (refl, e)

module _ {S T : Type 0} (svc : LambdaService S) (json : Json T) where
  fail_child-Ends :
      (ids : StepIds) (sub_type : String) (e : DurableError) (view : View) (ctx : ExecutionContext)
      (s : S)
      → Ends Nothing view (fail_child svc json ids sub_type e ctx s)
  unfolding fail_child Ends
  fail_child-Ends ids sub_type e view ctx s =
      Ends-always Nothing view
        (built "Failed to build child context FAIL update" (child_fail_builder ids sub_type e) ctx
          s)
        (λ u. send svc ids.step_id u >> fail (child_failed ids e))
        (λ u c t.
          Ends-always Nothing view (send svc ids.step_id u c t) (λ _. fail (child_failed ids e))
            (λ _ c' t'. tt))

  run_child_execution-Ends :
      (ids : StepIds) (context_fn : Op S T) (sub_type : String) (serdes : Option (Serdes T))
      (view : View) (ctx : ExecutionContext) (s : S)
      → replay_view ctx ≡ view
      → ((c : ExecutionContext) (t : S)
          → replay_view c ≡ view
          → Ends Nothing view (context_fn (with_parent_id ids.hashed_id c) t))
      → Ends Nothing view (run_child_execution svc json ids context_fn sub_type serdes ctx s)
  unfolding run_child_execution in_child
  run_child_execution-Ends ids context_fn sub_type serdes view ctx s e f =
      Ends-continue Anything Nothing view (start_child svc json ids sub_type ctx s) _
        (KeepsRecords-Ends (start_child-KeepsRecords svc json ids sub_type) view ctx s e)
        (λ _ c t _ v.
          Ends-catch Nothing Nothing view (in_child ids.hashed_id context_fn)
            (fail_child svc json ids sub_type) (complete_child svc json ids sub_type serdes) c t
            (Ends-rejoined Nothing view c _ (f c t v) v)
            (λ x c' t'. fail_child-Ends ids sub_type x view c' t') (λ x c' t' n. absurd n))

  -- A child whose record is unfinished has no value if its function has none.
  replayed_or_run-Unfinished :
      (ids : StepIds) (context_fn : Op S T) (sub_type : String) (serdes : Option (Serdes T))
      (op : Option Operation) (view : View) (ctx : ExecutionContext) (s : S)
      → replay_view ctx ≡ view
      → has_finished op ≡ false
      → ((c : ExecutionContext) (t : S)
          → replay_view c ≡ view
          → Ends Nothing view (context_fn (with_parent_id ids.hashed_id c) t))
      → Ends Nothing view (
          (evaluate_replay json ids serdes op
              >>= decide svc json
                  (in_child ids.hashed_id context_fn)
                  (run_child_execution svc json ids context_fn sub_type serdes))
            ctx s)
  replayed_or_run-Unfinished ids context_fn sub_type serdes op view ctx s e h f =
      Ends-continue (λ d. d ≡ proceed) Nothing view (evaluate_replay json ids serdes op ctx s) _
        (evaluate_replay-Unfinished json ids serdes op view ctx s e h)
        (λ d c t p v.
          subst
            (λ d. Ends Nothing view (
              decide svc json (in_child ids.hashed_id context_fn)
                (run_child_execution svc json ids context_fn sub_type serdes) d c t))
            (sym p) (run_child_execution-Ends ids context_fn sub_type serdes view c t v f))

  pub run_in_child_context-Unfinished :
      (step_id hashed_id : String) (name : Option String) (context_fn : Op S T)
      (config : ChildContextConfig T) (view : View) (ctx : ExecutionContext) (s : S)
      → replay_view ctx ≡ view
      → has_finished (recorded hashed_id view) ≡ false
      → ((c : ExecutionContext) (t : S)
          → replay_view c ≡ view
          → Ends Nothing view (context_fn (with_parent_id hashed_id c) t))
      → Ends Nothing view
          (run_in_child_context_with_ids svc json step_id hashed_id name context_fn config ctx s)
  unfolding run_in_child_context_with_ids
  run_in_child_context-Unfinished step_id hashed_id name context_fn config view ctx s e h f =
      replayed_or_run-Unfinished
        (record {
          step_id = step_id;
          hashed_id = hashed_id;
          name = name;
          parent_id = ctx.current_parent_id;
        })
        context_fn (unwrap_or config.sub_type "RunInChildContext") config.serdes
        (replayed hashed_id ctx) view ctx s e (ap (λ v. has_finished (recorded hashed_id v)) e ∙ h)
        f
