-- ===== src/Operations/Records.antt =====
-- No operation of src/context/durable_context/ changes what replay reads: the step data of the context
-- and the ARN of the execution.
pub mod Steps
pub mod Children
pub mod Ends
use lambda_durable_execution.Base.{
  String, ◌≡◌, refl, ◌∙◌, Bool, true, false, Option, none, some, List, [], ◌∷◌, if◌then◌else◌,
  concat,
}
use lambda_durable_execution.Base.Result.{Result, ok, err}
use lambda_durable_execution.Base.Dict
use lambda_durable_execution.Errors.{BoxError, DurableError}
use lambda_durable_execution.Types.{Operation, OperationUpdate}
use lambda_durable_execution.Types.Builder.{OperationUpdateBuilder, build}
use lambda_durable_execution.Termination.{TerminationManager}
use lambda_durable_execution.Checkpoint.{LambdaService, CheckpointManager}
use lambda_durable_execution.Checkpoint.Queue.{
  Ack, acknowledged, blocked, checkpoint, checkpoint_queued,
}
use lambda_durable_execution.Context.{ExecutionContext, ExecutionMode}
use lambda_durable_execution.Context.Run.{
  Outcome, acked, Op, continue, ◌>>=◌, ◌>>◌, set_mode, terminating, on_manager, built, send,
  send_queued, done, failed, suspended, Serdes, Json, safe_serialize, safe_deserialize, or_suspend,
  serdes_failure, serialized, deserialized, serdes_context,
}

abbrev pub context_of : {S A : Type 0} → Outcome S A → ExecutionContext
context_of (done a ctx s) = ctx
context_of (failed e ctx s) = ctx
context_of (suspended ctx s) = ctx

-- What replay reads.
abbrev pub replay_view : ExecutionContext → List (String × Operation) × String
replay_view ctx = (ctx.step_data, ctx.durable_execution_arn)

pub record KeepsRecords {S A : Type 0} (m : Op S A) : Type 0 where
  pub kept : (ctx : ExecutionContext) (s : S) → replay_view (context_of (m ctx s)) ≡ replay_view ctx

module _ {S : Type 0} where
  pub view_kept :
      {A : Type 0} {m : Op S A}
      → KeepsRecords m
      → (ctx : ExecutionContext) (s : S) → replay_view (context_of (m ctx s)) ≡ replay_view ctx
  view_kept h = h.kept

  KeepsRecords-continue :
      {A B : Type 0} (view : List (String × Operation) × String) (o : Outcome S A) (k : A → Op S B)
      → replay_view (context_of o) ≡ view
      → ((a : A) → KeepsRecords (k a))
      → replay_view (context_of (continue o k)) ≡ view
  KeepsRecords-continue view (done a ctx s) k h f = (f a).kept ctx s ∙ h
  KeepsRecords-continue view (failed e ctx s) k h f = h
  KeepsRecords-continue view (suspended ctx s) k h f = h

  pub KeepsRecords-bind :
      {A B : Type 0} (m : Op S A) (k : A → Op S B)
      → KeepsRecords m
      → ((a : A) → KeepsRecords (k a))
      → KeepsRecords (m >>= k)
  KeepsRecords-bind m k h f = record {
    kept = λ ctx s. KeepsRecords-continue (replay_view ctx) (m ctx s) k (h.kept ctx s) f;
  }

  pub KeepsRecords-then :
      {B : Type 0} (m : Op S (Unit {0})) (k : Op S B)
      → KeepsRecords m
      → KeepsRecords k
      → KeepsRecords (m >> k)
  KeepsRecords-then m k h f = KeepsRecords-bind m (λ _. k) h (λ _. f)

  pub KeepsRecords-if :
      {A : Type 0} (b : Bool) (m n : Op S A)
      → KeepsRecords m
      → KeepsRecords n
      → KeepsRecords (if b then m else n)
  KeepsRecords-if true m n h k = h
  KeepsRecords-if false m n h k = k

  pub KeepsRecords-option :
      {A B : Type 0} (o : Option A) (m : Op S B) (k : A → Op S B)
      → KeepsRecords m
      → ((a : A) → KeepsRecords (k a))
      → KeepsRecords (elim o [ none ↦ m | some a ↦ k a ])
  KeepsRecords-option none m k h f = h
  KeepsRecords-option (some a) m k h f = f a

  KeepsRecords-acked :
      (ctx : ExecutionContext) (a : Ack S)
      → replay_view (context_of (acked ctx a)) ≡ replay_view ctx
  KeepsRecords-acked ctx (acknowledged m s) = refl
  KeepsRecords-acked ctx (blocked m s) = refl

  pub KeepsRecords-send :
      (svc : LambdaService S) (id : String) (u : OperationUpdate) → KeepsRecords (send svc id u)
  unfolding send
  KeepsRecords-send svc id u = record {
    kept = λ ctx s. KeepsRecords-acked ctx (checkpoint svc id u ctx.checkpoint_manager s);
  }

  pub KeepsRecords-send_queued :
      (svc : LambdaService S) (eager : Bool) (id : String) (u : OperationUpdate)
      → KeepsRecords (send_queued svc eager id u)
  unfolding send_queued
  KeepsRecords-send_queued svc eager id u = record {
    kept =
        λ ctx s. KeepsRecords-acked ctx (checkpoint_queued svc eager id u ctx.checkpoint_manager s);
  }

  pub KeepsRecords-built :
      (what : String) (b : OperationUpdateBuilder) → KeepsRecords {S = S} (built what b)
  unfolding built
  KeepsRecords-built what b = by_result (build b)
    where
      by_result :
          (r : Result String OperationUpdate)
          → KeepsRecords {S = S} {A = OperationUpdate} (λ ctx s. elim r [
            | ok u ↦ done u ctx s
            | err e ↦ failed (DurableError.internal (concat (what ∷ ": " ∷ e ∷ []))) ctx s
          ])
      by_result (ok u) = record { kept = λ ctx s. refl }
      by_result (err e) = record { kept = λ ctx s. refl }

  pub KeepsRecords-set_mode : (mode : ExecutionMode) → KeepsRecords {S = S} (set_mode mode)
  unfolding set_mode
  KeepsRecords-set_mode mode = record { kept = λ ctx s. refl }

  pub KeepsRecords-terminating :
      (f : TerminationManager Bool × Bool → TerminationManager Bool × Bool)
      → KeepsRecords {S = S} (terminating f)
  unfolding terminating
  KeepsRecords-terminating f = record { kept = λ ctx s. refl }

  pub KeepsRecords-on_manager :
      (f : CheckpointManager → CheckpointManager) → KeepsRecords {S = S} (on_manager f)
  unfolding on_manager
  KeepsRecords-on_manager f = record { kept = λ ctx s. refl }

  KeepsRecords-or_suspend :
      {A : Type 0} (what entity_id : String) (name : Option String) (r : Result BoxError A)
      → KeepsRecords {S = S} (or_suspend what entity_id name r)
  unfolding serdes_failure terminating
  KeepsRecords-or_suspend what entity_id name (ok a) = record { kept = λ ctx s. refl }
  KeepsRecords-or_suspend what entity_id name (err e) = record { kept = λ ctx s. refl }

module _ {S T : Type 0} (json : Json T) where
  pub KeepsRecords-safe_serialize :
      (serdes : Option (Serdes T)) (value : Option T) (id : String) (name : Option String)
      → KeepsRecords {S = S} (safe_serialize json serdes value id name)
  unfolding safe_serialize
  KeepsRecords-safe_serialize serdes value id name = record {
    kept = λ ctx s.
        (KeepsRecords-or_suspend "Serialization" id name
            (serialized json serdes value (serdes_context id ctx))).kept
          ctx s;
  }

  pub KeepsRecords-safe_deserialize :
      (serdes : Option (Serdes T)) (text : Option String) (id : String) (name : Option String)
      → KeepsRecords {S = S} (safe_deserialize json serdes text id name)
  unfolding safe_deserialize
  KeepsRecords-safe_deserialize serdes text id name = record {
    kept = λ ctx s.
        (KeepsRecords-or_suspend "Deserialization" id name
            (deserialized json serdes text (serdes_context id ctx))).kept
          ctx s;
  }

module _ {S : Type 0} (svc : LambdaService S) where
  pub KeepsRecords-update :
      {A : Type 0} (what id : String) (b : OperationUpdateBuilder) (k : Op S A)
      → KeepsRecords k
      → KeepsRecords (built what b >>= λ u. send svc id u >> k)
  KeepsRecords-update what id b k h =
      KeepsRecords-bind (built what b) (λ u. send svc id u >> k) (KeepsRecords-built what b)
        (λ u. KeepsRecords-then (send svc id u) k (KeepsRecords-send svc id u) h)
