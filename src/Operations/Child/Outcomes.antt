-- ===== src/Operations/Child/Outcomes.antt =====
-- How a child context ends: src/context/durable_context/child/.
use lambda_durable_execution.Base.{
  ℕ, ◌≤◌, ◌<◌, String, ◌≡◌, refl, ◌↔◌, ◌⊎◌, inl, inr, true, false, Option, none, some, arith, ltb,
  Bool-cases, str_len,
}
use Prim.{absurd}
use lambda_durable_execution.Base.Result.{ok}
use lambda_durable_execution.Errors.{DurableError}
use lambda_durable_execution.Types.{ContextUpdateOptions, Operation, OperationStatus}
use lambda_durable_execution.Types.Builder.{builder}
use lambda_durable_execution.Checkpoint.{LambdaService}
use lambda_durable_execution.Context.{ExecutionContext}
use lambda_durable_execution.Context.Run.{
  done, Op, Json, serdes_context, deserialized, safe_deserialize,
}
use lambda_durable_execution.Operations.{update_builder, replayed}
use lambda_durable_execution.Operations.Settles.{Settles}
use lambda_durable_execution.Operations.Step.{StepIds}
use lambda_durable_execution.Operations.Child.{
  ChildContextConfig, checkpoint_size_limit_bytes, replays_children, context_payload, child_builder,
  too_large, child_succeed_builder, child_failed, try_payload, child_succeeded, evaluate_replay,
  run_in_child_context_with_ids,
}

-- The size of a payload that may be missing.
abbrev pub payload_size : Option String → ℕ
payload_size none = 0
payload_size (some p) = str_len p

-- `replay_children` is set; the options are there for nothing else.
abbrev pub AsksForChildren : Option ContextUpdateOptions → Type 0
AsksForChildren options = options ≡ some (record { replay_children = some true })

-- The payload of a completed child never exceeds the limit, and it is the serialized value unless
-- that exceeds the limit; exactly then the update asks for the children to be replayed.
pub child_succeed_builder-bounded :
    (ids : StepIds) (sub_type : String) (payload : Option String)
    → let b = child_succeed_builder ids sub_type payload in
      (payload_size b.payload ≤ checkpoint_size_limit_bytes)
      × ((checkpoint_size_limit_bytes < payload_size payload) ↔ AsksForChildren b.context_options)
      × ((b.payload ≡ payload) ⊎ (checkpoint_size_limit_bytes < payload_size payload))
unfolding child_succeed_builder too_large child_builder update_builder builder
child_succeed_builder-bounded ids sub_type none =
    (omega arith, (λ h. absurd (omega arith), λ h. cc h), inl refl)
child_succeed_builder-bounded ids sub_type (some p) =
    elim (Bool-cases (ltb checkpoint_size_limit_bytes (str_len p))) [
      | inl large ↦ rw (large) (omega arith, (λ h. refl, λ h. ground arith), inr (ground arith))
      | inr small ↦ rw (small) (ground arith, (λ h. ground arith, λ h. cc h), inl refl)
    ]

-- The errors of a child: those of its function, wrapped.
abbrev pub Wrapped : StepIds → (DurableError → Type 0) → DurableError → Type 0
Wrapped ids Q r = (e : DurableError) × Q e × (r ≡ child_failed ids e)

module _ {S T : Type 0} (svc : LambdaService S) (json : Json T) where
  -- A child that replay has recorded as succeeded, with a payload that deserializes and without the
  -- request to replay its children, gives that value: its function is not run, the service is not
  -- called, and nothing changes.
  pub run_in_child_context-replays :
      (step_id hashed_id : String) (name : Option String) (context_fn : Op S T)
      (config : ChildContextConfig T) (ctx : ExecutionContext) (s : S) (op : Operation)
      (payload : String) (value : T)
      → replayed hashed_id ctx ≡ some op
      → op.status ≡ OperationStatus.succeeded
      → replays_children op.context_details ≡ false
      → context_payload op.context_details ≡ some payload
      → deserialized json config.serdes (some payload) (serdes_context hashed_id ctx)
        ≡ ok (some value)
      → run_in_child_context_with_ids svc json step_id hashed_id name context_fn config ctx s
        ≡ done value ctx s
  unfolding run_in_child_context_with_ids evaluate_replay child_succeeded try_payload
      safe_deserialize
  run_in_child_context-replays step_id hashed_id name context_fn config ctx s op payload value e st
        r p d =
      rw (e, run_in_child_context_with_ids)
        (rw (st, evaluate_replay)
          (rw (r, child_succeeded) (rw (p, try_payload) (rw (d, safe_deserialize) refl))))
