-- ===== src/Operations/Step/Outcomes.antt =====
-- How the two ends of a step without a value settle: src/context/durable_context/step/execute.rs.
use lambda_durable_execution.Base.{◌≡◌, refl, Option}
use lambda_durable_execution.Duration.{Duration}
use lambda_durable_execution.Errors.{BoxError, DurableError}
use lambda_durable_execution.Termination.{terminate_for_retry}
use lambda_durable_execution.Checkpoint.{LambdaService}
use lambda_durable_execution.Context.{ExecutionContext}
use lambda_durable_execution.Context.Run.{continue, suspend, terminating}
use lambda_durable_execution.Operations.Settles.{
  Settles, Anything, Nothing, Settles-continue, Settles-send, Settles-built,
}
use lambda_durable_execution.Operations.Step.{
  StepIds, fail_builder, retry_builder, retry_later, give_up,
}
use lambda_durable_execution.Operations.Step.Builders.{retry_builder-Builds, fail_builder-Builds}

module _ {S : Type 0} (svc : LambdaService S) where
  -- A retry never returns.
  pub retry_later-Settles :
      (A : Type 0) (Q : DurableError → Type 0) (ids : StepIds) (e : BoxError)
      (delay : Option Duration) (ctx : ExecutionContext) (s : S)
      → Settles {A = A} Nothing Q (retry_later svc ids e delay ctx s)
  unfolding retry_later terminating
  retry_later-Settles A Q ids e delay ctx s =
      Settles-continue Anything Nothing Q _ _
        (Settles-built Q _ (retry_builder ids e delay) ctx s (retry_builder-Builds ids e delay))
        (λ u ctx' s' _.
          Settles-continue Anything Nothing Q _ _ (Settles-send svc Q ids.step_id u ctx' s')
            (λ _ ctx'' s'' _. sleeps ctx'' s''))
    where
      sleeps :
          (ctx' : ExecutionContext) (s' : S)
          → Settles {A = A} Nothing Q
              (continue (terminating terminate_for_retry ctx' s') (λ _. suspend))
      sleeps ctx' s' = tt

  -- A step that gives up ends with the error, unless its FAIL update blocks.
  pub give_up-Settles :
      (A : Type 0) (ids : StepIds) (e : BoxError) (result : DurableError) (ctx : ExecutionContext)
      (s : S)
      → Settles {A = A} Nothing (λ r. r ≡ result) (give_up svc ids e result ctx s)
  unfolding give_up
  give_up-Settles A ids e result ctx s =
      Settles-continue Anything Nothing (λ r. r ≡ result) _ _
        (Settles-built (λ r. r ≡ result) _ (fail_builder ids e) ctx s (fail_builder-Builds ids e))
        (λ u ctx' s' _.
          Settles-continue Anything Nothing (λ r. r ≡ result) _ _
            (Settles-send svc (λ r. r ≡ result) ids.step_id u ctx' s') (λ _ ctx'' s'' _. refl))
