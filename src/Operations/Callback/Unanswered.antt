-- ===== src/Operations/Callback/Unanswered.antt =====
-- A callback that has not been answered: src/context/durable_context/callback.rs, callback/replay.rs
-- and callback/execute.rs.
use lambda_durable_execution.Base.{
  String, ◌≡◌, refl, sym, ap, ◌∙◌, subst, inl, inr, Bool, false, Option, none, some, if◌then◌else◌,
  Bool-cases, is_some,
}
use lambda_durable_execution.Base.Result.{Result}
use lambda_durable_execution.Errors.{BoxError, DurableError}
use lambda_durable_execution.Types.{Operation, OperationStatus}
use lambda_durable_execution.Checkpoint.{LambdaService}
use lambda_durable_execution.Checkpoint.Lifecycle.{is_finished}
use lambda_durable_execution.Retry.{RetryStrategy}
use lambda_durable_execution.Context.{ExecutionContext, next_operation_id, with_parent_id}
use lambda_durable_execution.Context.Run.{
  Op, ◌>>=◌, return, set_mode, terminating, on_manager, built, send, Serdes, Json,
}
use lambda_durable_execution.Operations.{replayed}
use lambda_durable_execution.Operations.Settles.{Settles, Anything, Nothing}
use lambda_durable_execution.Operations.Step.{StepIds, StepContext}
use lambda_durable_execution.Operations.Callback.{
  callback_in_child, replay_status, on_status, on_record, callback_builder, CallbackConfig,
  suspend_callback, await_callback, wait_with, wait_for_callback_raw, read_payload, is_callback,
  handle_replay, start_callback, create_callback, handle_result, submitter_config, submit_and_wait,
  run_wait_for_callback,
}
use lambda_durable_execution.Operations.Records.{
  replay_view, KeepsRecords, view_kept, KeepsRecords-bind, KeepsRecords-if, KeepsRecords-send,
  KeepsRecords-built,
}
use lambda_durable_execution.Operations.Records.Steps.{step-KeepsRecords}
use lambda_durable_execution.Operations.Child.Unfinished.{run_in_child_context-Unfinished}
use lambda_durable_execution.Operations.Records.Ends.{
  has_finished, View, recorded, Ends, Ends-continue, KeepsRecords-Ends, Ends-Nothing,
}

module _ {S : Type 0} where
  on_status-Unanswered :
      {A : Type 0} (step_id hashed_id : String) (read : String → Op S A) (op : Operation)
      (status : OperationStatus) (view : View) (ctx : ExecutionContext) (s : S)
      → is_finished status ≡ false
      → Ends Nothing view (on_status step_id hashed_id read op status ctx s)
  unfolding on_status await_callback Ends suspend_callback on_manager terminating
  on_status-Unanswered i j read op OperationStatus.succeeded view ctx s h = absurd (cc h)
  on_status-Unanswered i j read op OperationStatus.failed view ctx s h = tt
  on_status-Unanswered i j read op OperationStatus.ready view ctx s h = tt
  on_status-Unanswered i j read op OperationStatus.started view ctx s h = tt
  on_status-Unanswered i j read op OperationStatus.pending view ctx s h = tt
  on_status-Unanswered i j read op OperationStatus.unknown view ctx s h = tt

  on_record-Unanswered :
      {A : Type 0} (step_id hashed_id : String) (read : String → Op S A) (op : Option Operation)
      (view : View) (ctx : ExecutionContext) (s : S)
      → has_finished op ≡ false
      → Ends Nothing view (on_record step_id hashed_id read op ctx s)
  unfolding on_record await_callback Ends suspend_callback on_manager terminating
  on_record-Unanswered step_id hashed_id read none view ctx s h = tt
  on_record-Unanswered step_id hashed_id read (some op) view ctx s h =
      on_status-Unanswered step_id hashed_id read op op.status view ctx s h

  wait_with-Unanswered :
      {A : Type 0} (step_id hashed_id : String) (read : String → Op S A) (view : View)
      (ctx : ExecutionContext) (s : S)
      → has_finished (recorded hashed_id view) ≡ false
      → replay_view ctx ≡ view
      → Ends Nothing view (wait_with step_id hashed_id read ctx s)
  unfolding wait_with
  wait_with-Unanswered step_id hashed_id read view ctx s h e =
      on_record-Unanswered step_id hashed_id read (replayed hashed_id ctx) view ctx s
        (ap (λ v. has_finished (recorded hashed_id v)) e ∙ h)

module _ {S T : Type 0} (svc : LambdaService S) where
  pub start_callback-KeepsRecords :
      (step_id hashed_id : String) (name : Option String) (config : Option (CallbackConfig T))
      → KeepsRecords (start_callback svc step_id hashed_id name config)
  unfolding start_callback
  start_callback-KeepsRecords step_id hashed_id name config = record {
    kept = λ ctx s. view_kept (started ctx (is_some (replayed hashed_id ctx))) ctx s;
  }
    where
      started :
          (c : ExecutionContext) (known : Bool)
          → KeepsRecords (
              if known
              then return tt
              else built "Failed to build callback START update"
                  (callback_builder hashed_id c.current_parent_id name config)
                >>= λ update. send svc step_id update)
      started c known =
          KeepsRecords-if known _ _ (record { kept = λ c t. refl })
            (KeepsRecords-bind _ _ (KeepsRecords-built _ _) (λ u. KeepsRecords-send svc step_id u))

  -- The handle's id is the one that the code makes of its step id.
  create_callback-Ends :
      (hash : String → String) (name : Option String) (config : Option (CallbackConfig T))
      (view : View) (ctx : ExecutionContext) (s : S)
      → replay_view ctx ≡ view
      → Ends
          (λ h. h.hashed_id ≡ hash (next_operation_id name ctx).0)
          view
          (create_callback svc hash name config ctx s)
  unfolding create_callback next_operation_id Ends
  create_callback-Ends hash name config view ctx s e =
      Ends-continue Anything _ view _ _
        (KeepsRecords-Ends
          (start_callback-KeepsRecords (next_operation_id name ctx).0
            (hash (next_operation_id name ctx).0) name config)
          view (next_operation_id name ctx).1 s e)
        (λ _ c t _ v. (refl, v))

module _ {S T : Type 0} (svc : LambdaService S) (eager : Bool) (json : Json T)
    (json_string : Json String) (json_unit : Json (Unit {0})) (hash : String → String)
    (default_strategy : RetryStrategy) where
  submit_and_wait-Unanswered :
      (submitter : String → StepContext → S → Result BoxError (Unit {0}) × S)
      (config : CallbackConfig T) (view : View) (ctx : ExecutionContext) (s : S)
      → replay_view ctx ≡ view
      → has_finished (recorded (hash (next_operation_id none ctx).0) view) ≡ false
      → Ends Nothing view (
          submit_and_wait svc eager json json_string json_unit hash default_strategy submitter
            config ctx s)
  unfolding submit_and_wait wait_for_callback_raw
  submit_and_wait-Unanswered submitter config view ctx s e h =
      Ends-continue _ Nothing view _ _
        (create_callback-Ends svc hash none (some config) view ctx s e)
        (λ handle c t id v.
          Ends-continue Anything Nothing view _ (λ _. wait_for_callback_raw handle)
            (KeepsRecords-Ends
              (step-KeepsRecords svc eager json_unit hash default_strategy (some "submitter")
                (submitter handle.callback_id)
                (submitter_config svc eager json json_string json_unit hash default_strategy
                  config.retry_strategy))
              view c t v)
            (λ _ c' t' _ v'.
              wait_with-Unanswered handle.step_id handle.hashed_id return view c' t'
                (ap (λ i. has_finished (recorded i view)) id ∙ h) v'))

module _ {S T : Type 0} (json : Json T) where
  replay_status-Unanswered :
      (ids : StepIds) (serdes : Option (Serdes T)) (op : Operation) (status : OperationStatus)
      (view : View) (ctx : ExecutionContext) (s : S)
      → is_finished status ≡ false
      → Ends (λ r. r ≡ none) view (replay_status json ids serdes op status ctx s)
  unfolding replay_status set_mode Ends suspend_callback terminating
  replay_status-Unanswered i serdes op OperationStatus.succeeded view ctx s h = absurd (cc h)
  replay_status-Unanswered i serdes op OperationStatus.failed view ctx s h = tt
  replay_status-Unanswered i serdes op OperationStatus.ready view ctx s h = tt
  replay_status-Unanswered i serdes op OperationStatus.started view ctx s h = tt
  replay_status-Unanswered i serdes op OperationStatus.pending view ctx s h = tt
  replay_status-Unanswered i serdes op OperationStatus.unknown view ctx s h = tt

  -- An unfinished record of the operation itself gives no value.
  handle_replay-Unanswered :
      (ids : StepIds) (serdes : Option (Serdes T)) (op : Option Operation) (view : View)
      (ctx : ExecutionContext) (s : S)
      → replay_view ctx ≡ view
      → has_finished op ≡ false
      → Ends (λ r. r ≡ none) view (handle_replay json ids serdes op ctx s)
  unfolding handle_replay Ends
  handle_replay-Unanswered ids serdes none view ctx s e h = (refl, e)
  handle_replay-Unanswered ids serdes (some op) view ctx s e h =
      elim (Bool-cases (is_callback op.operation_type)) [
        | inl y ↦
            rw (y, handle_replay) (replay_status-Unanswered ids serdes op op.status view ctx s h)
        | inr n ↦ rw (n, handle_replay) (refl, e)
      ]

module _ {S T : Type 0} (svc : LambdaService S) (eager : Bool) (json : Json T)
    (json_string : Json String) (json_unit : Json (Unit {0})) (hash : String → String)
    (default_strategy : RetryStrategy) where
  callback_in_child-Unanswered :
      (ids : StepIds) (submitter : String → StepContext → S → Result BoxError (Unit {0}) × S)
      (config : CallbackConfig T) (view : View) (ctx : ExecutionContext) (s : S)
      → replay_view ctx ≡ view
      → has_finished (recorded ids.hashed_id view) ≡ false
      → has_finished
          (recorded (hash (next_operation_id none (with_parent_id ids.hashed_id ctx)).0) view)
        ≡ false
      → Ends Nothing view (
          callback_in_child svc eager json json_string json_unit hash default_strategy ids submitter
            config ctx s)
  unfolding callback_in_child next_operation_id with_parent_id
  callback_in_child-Unanswered ids submitter config view ctx s e h g =
      Ends-continue Nothing Nothing view _
        (read_payload json config.serdes ids.hashed_id ids.name
          (DurableError.internal "Missing callback result after wait"))
        (run_in_child_context-Unfinished svc json_string ids.step_id ids.hashed_id ids.name
          (submit_and_wait svc eager json json_string json_unit hash default_strategy submitter
            config)
          (record { sub_type = some "WaitForCallback"; serdes = none }) view ctx s e h
          (λ c t v.
            submit_and_wait-Unanswered svc eager json json_string json_unit hash default_strategy
              submitter config view (with_parent_id ids.hashed_id c) t v g))
        (λ payload c t n. absurd n)

  replayed_or_run-Unanswered :
      (ids : StepIds) (submitter : String → StepContext → S → Result BoxError (Unit {0}) × S)
      (config : CallbackConfig T) (op : Option Operation) (view : View) (ctx : ExecutionContext)
      (s : S)
      → replay_view ctx ≡ view
      → has_finished op ≡ false
      → has_finished (recorded ids.hashed_id view) ≡ false
      → has_finished
          (recorded (hash (next_operation_id none (with_parent_id ids.hashed_id ctx)).0) view)
        ≡ false
      → Ends Nothing view (
          (handle_replay json ids config.serdes op >>= λ found.
          handle_result svc eager json json_string json_unit hash default_strategy found (
            callback_in_child svc eager json json_string json_unit hash default_strategy ids
              submitter config))
            ctx s)
  unfolding next_operation_id with_parent_id
  replayed_or_run-Unanswered ids submitter config op view ctx s e o h g =
      Ends-continue (λ r. r ≡ none) Nothing view (handle_replay json ids config.serdes op ctx s) _
        (handle_replay-Unanswered json ids config.serdes op view ctx s e o)
        (λ r c t p v.
          subst
            (λ r. Ends Nothing view (
              handle_result svc eager json json_string json_unit hash default_strategy r
                (callback_in_child svc eager json json_string json_unit hash default_strategy ids
                  submitter config)
                c t))
            (sym p) (callback_in_child-Unanswered ids submitter config view c t v h g))

  -- `wait_for_callback` gives no value as long as replay has no finished record of the operation
  -- itself, nor of the callback in its child context: it fails or suspends, whatever the submitter
  -- does and the service answers.
  pub run_wait_for_callback-Unanswered :
      (name : Option String) (submitter : String → StepContext → S → Result BoxError (Unit {0}) × S)
      (config : CallbackConfig T) (ctx : ExecutionContext) (s : S)
      → has_finished (replayed (hash (next_operation_id name ctx).0) ctx) ≡ false
      → has_finished (
          replayed
            (hash
              (next_operation_id none (with_parent_id (hash (next_operation_id name ctx).0) ctx)).0)
            ctx)
        ≡ false
      → Settles Nothing Anything (
          run_wait_for_callback svc eager json json_string json_unit hash default_strategy name
            submitter config ctx s)
  unfolding run_wait_for_callback next_operation_id with_parent_id
  run_wait_for_callback-Unanswered name submitter config ctx s h g =
      let (step_id, counted) = next_operation_id name ctx in
      let ids : StepIds = record {
        step_id = step_id;
        hashed_id = hash step_id;
        name = name;
        parent_id = ctx.current_parent_id;
      } in
      Ends-Nothing (replay_view ctx) _ (
        replayed_or_run-Unanswered ids submitter config (replayed ids.hashed_id ctx)
          (replay_view ctx) counted s refl h h g)
