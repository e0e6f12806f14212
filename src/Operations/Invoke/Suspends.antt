-- ===== src/Operations/Invoke/Suspends.antt =====
-- Invoking another function suspends: src/context/durable_context/invoke.rs, invoke/replay.rs and
-- invoke/execute.rs.
use lambda_durable_execution.Checkpoint.Queue.{force_checkpoint}
use lambda_durable_execution.Base.{
  String, ◌≡◌, refl, inl, inr, true, false, Option, none, some, Bool-cases,
}
use lambda_durable_execution.Base.Result.{Result, ok, err}
use lambda_durable_execution.Errors.{DurableError}
use lambda_durable_execution.Types.{
  Operation, OperationType, OperationStatus, OperationAction, OperationUpdate,
}
use lambda_durable_execution.Types.Builder.{build, builder, is_blank}
use lambda_durable_execution.Types.Builder.Checks.{build_complete}
use lambda_durable_execution.Checkpoint.{LambdaService, CheckpointManager}
use lambda_durable_execution.Checkpoint.Lifecycle.{is_finished}
use lambda_durable_execution.Context.{ExecutionContext, ExecutionMode, next_operation_id}
use lambda_durable_execution.Context.Run.{
  Outcome, Op, continue, ◌>>=◌, ◌>>◌, set_mode, terminating, built, send, done, failed, suspended,
  Serdes, Json, deserialized, serdes_context, safe_deserialize,
}
use lambda_durable_execution.Operations.{replayed, update_builder}
use lambda_durable_execution.Operations.Step.Builders.{Builds}
use lambda_durable_execution.Operations.Settles.{
  Settles, Anything, Nothing, Settles-continue, Settles-send, Settles-built, Settles-safe_serialize,
}
use lambda_durable_execution.Operations.Invoke.{
  force_checkpoint, InvokeConfig, invoke_payload, invocation_failed, invoke_builder, suspend_invoke,
  refreshed, refresh, invoke_succeeded, on_status, recheck_invoke, handle_replay,
  run_invoke_execution, invoke_with_config,
}

-- Only a blank function name is refused.
invoke_builder-Builds :
    (hashed_id : String) (parent_id name : Option String) (function_id : String)
    (tenant_id payload : Option String)
    → is_blank function_id ≡ false
    → Builds (invoke_builder hashed_id parent_id name function_id tenant_id payload)
unfolding invoke_builder update_builder builder
invoke_builder-Builds hashed_id parent_id name function_id tenant_id payload h =
    build_complete (invoke_builder hashed_id parent_id name function_id tenant_id payload) hashed_id
      OperationType.chained_invoke OperationAction.start refl refl refl
      (record { delay = refl; wait = refl; timeout = refl; heartbeat = refl; function = h })

abbrev pub blank_function_name : DurableError
blank_function_name =
    DurableError.internal
      "Failed to build chained invoke START update: function_name must not be empty"

invoke_builder-refused :
    {S : Type 0} (hashed_id : String) (parent_id name : Option String) (function_id : String)
    (tenant_id payload : Option String) (ctx : ExecutionContext) (s : S)
    → is_blank function_id ≡ true
    → built "Failed to build chained invoke START update"
        (invoke_builder hashed_id parent_id name function_id tenant_id payload)
        ctx
        s
      ≡ failed blank_function_name ctx s
unfolding built build invoke_builder update_builder builder
invoke_builder-refused hashed_id parent_id name function_id tenant_id payload ctx s h =
    rw (h, built) refl

abbrev pub Suspends : {S A : Type 0} → Outcome S A → Type 0
Suspends {S} {A} o = (c : ExecutionContext) × (t : S) × (o ≡ suspended c t)

abbrev pub Blank : String → DurableError → Type 0
Blank function_id e = (is_blank function_id ≡ true) × (e ≡ blank_function_name)

module _ {S I O : Type 0} (svc : LambdaService S) (json_input : Json I) (json : Json O) where
  sent-Settles :
      (step_id : String) (u : OperationUpdate) (Q : DurableError → Type 0) (ctx : ExecutionContext)
      (s : S)
      → Settles {A = O} Nothing Q ((send svc step_id u >> suspend_invoke) ctx s)
  unfolding suspend_invoke terminating
  sent-Settles step_id u Q ctx s =
      Settles-continue Anything Nothing Q _ _ (Settles-send svc Q step_id u ctx s) (λ _ c t _. tt)

  started-Settles :
      (step_id hashed_id : String) (parent_id name : Option String) (function_id : String)
      (tenant_id payload : Option String) (ctx : ExecutionContext) (s : S)
      → Settles {A = O} Nothing (Blank function_id) (
          (built "Failed to build chained invoke START update"
                (invoke_builder hashed_id parent_id name function_id tenant_id payload)
              >>= λ u. send svc step_id u >> suspend_invoke)
            ctx s)
  started-Settles step_id hashed_id parent_id name function_id tenant_id payload ctx s =
      elim (Bool-cases (is_blank function_id)) [
        | inl blank ↦
            rw
              (invoke_builder-refused hashed_id parent_id name function_id tenant_id payload ctx s
                blank)
              (blank, refl)
        | inr ok_name ↦
            Settles-continue Anything Nothing (Blank function_id) _ _
              (Settles-built (Blank function_id) _
                (invoke_builder hashed_id parent_id name function_id tenant_id payload) ctx s
                (invoke_builder-Builds hashed_id parent_id name function_id tenant_id payload
                  ok_name))
              (λ u c t _. sent-Settles step_id u (Blank function_id) c t)
      ]

  run_invoke_execution-Settles :
      (name : Option String) (function_id : String) (input : Option I)
      (payload_serdes : Option (Serdes I)) (tenant_id : Option String) (step_id hashed_id : String)
      (ctx : ExecutionContext) (s : S)
      → Settles Nothing (Blank function_id) (
          run_invoke_execution svc json_input json name function_id input payload_serdes tenant_id
            step_id hashed_id ctx s)
  unfolding run_invoke_execution
  run_invoke_execution-Settles name function_id input payload_serdes tenant_id step_id hashed_id ctx
        s =
      Settles-continue Anything Nothing (Blank function_id) _ _
        (Settles-safe_serialize json_input payload_serdes input (Blank function_id) hashed_id name
          ctx s)
        (λ payload c t _.
          started-Settles step_id hashed_id ctx.current_parent_id name function_id tenant_id payload
            c t)

  -- An invocation that replay has no record of gives no value: it suspends, whatever the service
  -- answers, or it fails because the name of the function is blank.
  pub invoke_with_config-Unrecorded :
      (hash : String → String) (name : Option String) (function_id : String) (input : Option I)
      (config : InvokeConfig I O) (ctx : ExecutionContext) (s : S)
      → replayed (hash (next_operation_id name ctx).0) ctx ≡ none
      → Settles Nothing
          (Blank function_id)
          (invoke_with_config svc json_input json hash name function_id input config ctx s)
  unfolding invoke_with_config handle_replay next_operation_id
  invoke_with_config-Unrecorded hash name function_id input config ctx s h =
      rw (h, handle_replay)
        (run_invoke_execution-Settles name function_id input config.payload_serdes config.tenant_id
          (next_operation_id name ctx).0 (hash (next_operation_id name ctx).0)
          (next_operation_id name ctx).1 s)

module _ {S O : Type 0} (json : Json O) where
  on_status-Unfinished :
      (serdes : Option (Serdes O)) (hashed_id : String) (name : Option String)
      (function_id : String) (op : Operation) (otherwise : Op S (Option O))
      → is_finished op.status ≡ false
      → on_status json serdes hashed_id name function_id op otherwise ≡ otherwise
  unfolding on_status
  on_status-Unfinished serdes hashed_id name function_id op otherwise h = by_status op.status refl h
    where
      by_status :
          (status : OperationStatus)
          → op.status ≡ status
          → is_finished status ≡ false
          → on_status json serdes hashed_id name function_id op otherwise ≡ otherwise
      by_status OperationStatus.succeeded q f = absurd (cc f)
      by_status OperationStatus.failed q f = absurd (cc f)
      by_status OperationStatus.ready q f = rw (q, on_status) refl
      by_status OperationStatus.started q f = rw (q, on_status) refl
      by_status OperationStatus.pending q f = rw (q, on_status) refl
      by_status OperationStatus.unknown q f = rw (q, on_status) refl

  -- The second look finds what the first found.
  recheck-Unfinished :
      (serdes : Option (Serdes O)) (hashed_id : String) (name : Option String)
      (function_id : String) (op : Operation) (found : Option Operation)
      (otherwise : Op S (Option O))
      → found ≡ some op
      → is_finished op.status ≡ false
      → recheck_invoke json serdes hashed_id name function_id found otherwise ≡ otherwise
  recheck-Unfinished serdes hashed_id name function_id op found otherwise e h =
      rw (e) (on_status-Unfinished serdes hashed_id name function_id op otherwise h)

  handle_replay-Unfinished :
      (svc : LambdaService S) (serdes : Option (Serdes O)) (hashed_id : String)
      (name : Option String) (function_id : String) (op : Operation) (ctx : ExecutionContext)
      (s : S)
      → replayed hashed_id ctx ≡ some op
      → is_finished op.status ≡ false
      → Suspends (handle_replay json svc serdes hashed_id name function_id (some op) ctx s)
  unfolding handle_replay refresh set_mode suspend_invoke terminating
  handle_replay-Unfinished svc serdes hashed_id name function_id op ctx s e h =
      rw (on_status-Unfinished serdes hashed_id name function_id op _ h)
        (after (force_checkpoint svc ctx.checkpoint_manager s))
    where
      after :
          (r : Result DurableError CheckpointManager × S)
          → Suspends {A = Option O} (
              continue (refreshed ctx r) (λ _ c.
                recheck_invoke json serdes hashed_id name function_id
                  (replayed hashed_id c)
                  (set_mode ExecutionMode.execution >> suspend_invoke)
                  c))
      after (ok m, t) =
          rw
            (recheck-Unfinished serdes hashed_id name function_id op (replayed hashed_id ctx)
              (set_mode ExecutionMode.execution >> suspend_invoke) e h)
            (_, t, refl)
      after (err x, t) =
          rw
            (recheck-Unfinished serdes hashed_id name function_id op (replayed hashed_id ctx)
              (set_mode ExecutionMode.execution >> suspend_invoke) e h)
            (_, t, refl)

module _ {S I O : Type 0} (svc : LambdaService S) (json_input : Json I) (json : Json O) where
  -- An invocation whose record is there and unfinished suspends, whatever the service answers to the
  -- checkpoint that is to refresh the record: the second look reads the same step data.
  pub invoke_with_config-Suspends :
      (hash : String → String) (name : Option String) (function_id : String) (input : Option I)
      (config : InvokeConfig I O) (ctx : ExecutionContext) (s : S) (op : Operation)
      → replayed (hash (next_operation_id name ctx).0) ctx ≡ some op
      → is_finished op.status ≡ false
      → Suspends (invoke_with_config svc json_input json hash name function_id input config ctx s)
  unfolding invoke_with_config next_operation_id
  invoke_with_config-Suspends hash name function_id input config ctx s op e h =
      let (c, t, q) =
        handle_replay-Unfinished json svc config.result_serdes (hash (next_operation_id name ctx).0)
          name function_id op (next_operation_id name ctx).1 s e h in
      rw (e) (rw (q) (c, t, refl))

  -- An invocation that replay has recorded as succeeded, with a payload that deserializes, gives that
  -- value: the service is not called, and nothing but the operation counter changes.
  pub invoke_with_config-Replays :
      (hash : String → String) (name : Option String) (function_id : String) (input : Option I)
      (config : InvokeConfig I O) (ctx : ExecutionContext) (s : S) (op : Operation)
      (payload : String) (value : O)
      → replayed (hash (next_operation_id name ctx).0) ctx ≡ some op
      → op.status ≡ OperationStatus.succeeded
      → invoke_payload op.chained_invoke_details ≡ some payload
      → deserialized json config.result_serdes
          (some payload)
          (serdes_context (hash (next_operation_id name ctx).0) ctx)
        ≡ ok (some value)
      → invoke_with_config svc json_input json hash name function_id input config ctx s
        ≡ done value (next_operation_id name ctx).1 s
  unfolding invoke_with_config handle_replay on_status invoke_succeeded next_operation_id
      safe_deserialize
  invoke_with_config-Replays hash name function_id input config ctx s op payload value e f p d =
      rw (e) (rw (f, on_status) (rw (p, invoke_succeeded) (rw (d, safe_deserialize) refl)))

  invoke_with_config-failed :
      (hash : String → String) (name : Option String) (function_id : String) (input : Option I)
      (config : InvokeConfig I O) (ctx : ExecutionContext) (s : S) (op : Operation)
      → replayed (hash (next_operation_id name ctx).0) ctx ≡ some op
      → op.status ≡ OperationStatus.failed
      → invoke_with_config svc json_input json hash name function_id input config ctx s
        ≡ failed (invocation_failed function_id op) (next_operation_id name ctx).1 s
  unfolding invoke_with_config handle_replay on_status next_operation_id
  invoke_with_config-failed hash name function_id input config ctx s op e f =
      rw (e) (rw (f, on_status) refl)
