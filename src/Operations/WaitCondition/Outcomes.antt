-- ===== src/Operations/WaitCondition/Outcomes.antt =====
-- What a wait for a condition can end with: src/context/durable_context/wait_condition.rs,
-- wait_condition/replay.rs and wait_condition/execute.rs.
use lambda_durable_execution.Base.{ℕ, String, ◌≡◌, ◌⊎◌, true, false, Option}
use lambda_durable_execution.Base.Result.{Result, err}
use lambda_durable_execution.Errors.{DurableError}
use lambda_durable_execution.Operations.Step.{StepContext}
use lambda_durable_execution.Operations.Settles.{Settles}
use lambda_durable_execution.Operations.WaitCondition.{
  stop, WaitConditionConfig, wait_condition_exceeded, exceeds,
}

-- The values and the errors of one attempt.
abbrev pub Stopped : {T : Type 0} → WaitConditionConfig T → ℕ → T → Type 0
Stopped config attempt v =
    (config.wait_strategy v attempt ≡ stop) × (exceeds attempt config.max_attempts ≡ false)

module _ {S T : Type 0} where
  -- Too many attempts, or an error of the user's function.
  abbrev pub Refused :
      (T → StepContext → S → Result DurableError T × S)
      → WaitConditionConfig T
      → Option String
      → ℕ
      → DurableError
      → Type 0
  Refused check_fn config name attempt e =
      ((exceeds attempt config.max_attempts ≡ true) × (e ≡ wait_condition_exceeded name attempt))
      ⊎ ((exceeds attempt config.max_attempts ≡ false)
          × ((state : T) × (c : StepContext) × (t : S) × ((check_fn state c t).0 ≡ err e)))
