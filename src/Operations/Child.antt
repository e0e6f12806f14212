-- ===== src/Operations/Child.antt =====
-- src/context/durable_context/child.rs, child/replay.rs and child/execute.rs. The user's function is
-- an operation on the child's context.
pub mod Outcomes
pub mod Unfinished
use lambda_durable_execution.Base.{
  ℕ, ◌*◌, String, Bool, true, false, Option, none, some, ltb, if◌then◌else◌, is_some, unwrap_or,
  str_len,
}
use lambda_durable_execution.Errors.{DurableError, boxed, from_durable_error}
use lambda_durable_execution.Types.{
  Operation, OperationType, OperationStatus, OperationAction, ContextDetails, ExecutionDetails,
}
use lambda_durable_execution.Types.Builder.{OperationUpdateBuilder}
use lambda_durable_execution.Checkpoint.{LambdaService}
use lambda_durable_execution.Context.{ExecutionContext, ExecutionMode, with_parent_id, rejoin}
use lambda_durable_execution.Context.Run.{
  Outcome, done, failed, suspended, Op, ◌>>=◌, ◌>>◌, return, fail, set_mode, built, send, Serdes,
  Json, safe_serialize, safe_deserialize,
}
use lambda_durable_execution.Operations.{update_builder, replayed}
use lambda_durable_execution.Operations.Step.{StepIds}

pub record ChildContextConfig (T : Type 0) : Type 0 where
  pub sub_type : Option String
  pub serdes : Option (Serdes T)

pub data ChildReplayDecision (T : Type 0) : Type 0 where
  decided : T → ChildReplayDecision T
  replay_children : ChildReplayDecision T
  proceed : ChildReplayDecision T

abbrev pub checkpoint_size_limit_bytes : ℕ
checkpoint_size_limit_bytes = 256 * 1024

-- `replay_children == Some(true)`.
abbrev pub replays_children : Option ContextDetails → Bool
replays_children none = false
replays_children (some d) = unwrap_or d.replay_children false

abbrev pub context_payload : Option ContextDetails → Option String
context_payload none = none
context_payload (some d) = d.result

abbrev pub output_payload : Option ExecutionDetails → Option String
output_payload none = none
output_payload (some d) = d.output_payload

abbrev pub child_message : Option ContextDetails → String
child_message none = "Child context failed"
child_message (some d) = elim d.error [ none ↦ "Child context failed" | some e ↦ e.error_message ]

unfoldable pub child_builder : StepIds → String → OperationAction → OperationUpdateBuilder
unfolding update_builder
child_builder ids sub_type action =
    update_builder ids.hashed_id OperationType.context sub_type action ids.parent_id ids.name

unfoldable pub child_fail_builder : StepIds → String → DurableError → OperationUpdateBuilder
unfolding child_builder from_durable_error
child_fail_builder ids sub_type e = record (child_builder ids sub_type OperationAction.fail) {
  error = some (from_durable_error e);
}

-- A payload above the limit is replaced by an empty one, and the children are replayed instead.
unfoldable pub too_large : Option String → Bool
too_large none = false
too_large (some p) = ltb checkpoint_size_limit_bytes (str_len p)

unfoldable pub child_succeed_builder : StepIds → String → Option String → OperationUpdateBuilder
unfolding child_builder too_large
child_succeed_builder ids sub_type payload =
    record (child_builder ids sub_type OperationAction.succeed) {
      context_options =
          if too_large payload then some (record { replay_children = some true }) else none;
      payload = if too_large payload then some "" else payload;
    }

unfoldable pub child_failed : StepIds → DurableError → DurableError
unfolding from_durable_error boxed
child_failed ids e =
    DurableError.child_context_failed ids.step_id (from_durable_error e).error_message
      (some (boxed e))

module _ {S T : Type 0} (json : Json T) where
  -- The value of a payload, if there is one and it has a value.
  unfoldable pub try_payload :
      StepIds
      → Option (Serdes T)
      → Option String
      → Op S (ChildReplayDecision T)
      → Op S (ChildReplayDecision T)
  unfolding safe_deserialize
  try_payload ids serdes none next = next
  try_payload ids serdes (some payload) next =
      safe_deserialize json serdes (some payload) ids.hashed_id ids.name
      >>= elim [ none ↦ next | some v ↦ return (decided v) ]

  unfoldable pub child_succeeded :
      StepIds → Option (Serdes T) → Operation → Op S (ChildReplayDecision T)
  unfolding try_payload
  child_succeeded ids serdes op =
      if replays_children op.context_details
      then return replay_children
      else try_payload ids serdes (context_payload op.context_details)
          (try_payload ids serdes (output_payload op.execution_details) (return proceed))

  unfoldable pub evaluate_replay :
      StepIds → Option (Serdes T) → Option Operation → Op S (ChildReplayDecision T)
  unfolding child_succeeded set_mode
  evaluate_replay ids serdes none = return proceed
  evaluate_replay ids serdes (some op) = elim op.status [
    | OperationStatus.succeeded ↦ child_succeeded ids serdes op
    | OperationStatus.failed ↦
        fail (DurableError.child_context_failed ids.step_id (child_message op.context_details) none)
    | _ ↦ set_mode ExecutionMode.execution >> return proceed
  ]

-- The function on a context below this one; what the child leaves of the shared parts is the parent's.
abbrev pub rejoined : {S T : Type 0} → ExecutionContext → Outcome S T → Outcome S T
rejoined ctx (done v child s) = done v (rejoin ctx child) s
rejoined ctx (failed e child s) = failed e (rejoin ctx child) s
rejoined ctx (suspended child s) = suspended (rejoin ctx child) s

unfoldable pub in_child : {S T : Type 0} → String → Op S T → Op S T
unfolding with_parent_id rejoin
in_child hashed_id context_fn ctx s = rejoined ctx (context_fn (with_parent_id hashed_id ctx) s)

-- A result that the caller looks at (`match … { Ok(…) …, Err(…) … }`).
abbrev pub catch : {S T U : Type 0} → Op S T → (DurableError → Op S U) → (T → Op S U) → Op S U
catch m on_error k ctx s = elim (m ctx s) [
  | done v ctx' s' ↦ k v ctx' s'
  | failed e ctx' s' ↦ on_error e ctx' s'
  | suspended ctx' s' ↦ suspended ctx' s'
]

module _ {S T : Type 0} (svc : LambdaService S) (json : Json T) where
  -- START, unless the child is recorded already.
  unfoldable pub start_child : StepIds → String → Op S (Unit {0})
  unfolding child_builder built send
  start_child ids sub_type ctx =
      (if is_some (replayed ids.hashed_id ctx)
          then return tt
          else built "Failed to build child context START update"
              (child_builder ids sub_type OperationAction.start)
            >>= λ update. send svc ids.step_id update)
        ctx

  unfoldable pub fail_child : StepIds → String → DurableError → Op S T
  unfolding child_fail_builder built send child_failed
  fail_child ids sub_type e = do
    update ← built "Failed to build child context FAIL update" (child_fail_builder ids sub_type e)
    send svc ids.step_id update
    fail (child_failed ids e)

  unfoldable pub complete_child : StepIds → String → Option (Serdes T) → T → Op S T
  unfolding safe_serialize child_succeed_builder built send
  complete_child ids sub_type serdes value = do
    payload ← safe_serialize json serdes (some value) ids.hashed_id ids.name
    update ←
        built "Failed to build child context completion update"
          (child_succeed_builder ids sub_type payload)
    send svc ids.step_id update
    return value

  unfoldable pub run_child_execution : StepIds → Op S T → String → Option (Serdes T) → Op S T
  unfolding start_child in_child fail_child complete_child
  run_child_execution ids context_fn sub_type serdes =
      start_child ids sub_type
      >> catch (in_child ids.hashed_id context_fn) (fail_child ids sub_type)
          (complete_child ids sub_type serdes)

  abbrev pub decide : Op S T → Op S T → ChildReplayDecision T → Op S T
  decide replay run (decided v) = return v
  decide replay run replay_children = replay
  decide replay run proceed = run

  -- `run_in_child_context_with_ids`.
  unfoldable pub run_in_child_context_with_ids :
      String → String → Option String → Op S T → ChildContextConfig T → Op S T
  unfolding evaluate_replay in_child run_child_execution
  run_in_child_context_with_ids step_id hashed_id name context_fn config ctx =
      let ids : StepIds = record {
        step_id = step_id;
        hashed_id = hashed_id;
        name = name;
        parent_id = ctx.current_parent_id;
      } in
      let sub_type = unwrap_or config.sub_type "RunInChildContext" in
      (evaluate_replay json ids config.serdes (replayed hashed_id ctx)
          >>= decide (in_child hashed_id context_fn)
              (run_child_execution ids context_fn sub_type config.serdes))
        ctx
