-- ===== src/Context/Run.antt =====
-- How a durable operation runs: on the context and the state of the outside world, with three ways
-- to end. An operation is suspended where its future is pending for ever.
use lambda_durable_execution.Base.{String, Bool, Option, none, some, [], ◌∷◌, unwrap_or, concat}
use lambda_durable_execution.Base.Result.{Result, ok, err}
use lambda_durable_execution.Errors.{BoxError, DurableError}
use lambda_durable_execution.Types.{OperationUpdate}
use lambda_durable_execution.Types.Builder.{OperationUpdateBuilder, build}
use lambda_durable_execution.Termination.{TerminationManager, terminate_for_serdes_failure}
use lambda_durable_execution.Checkpoint.{CheckpointManager, LambdaService}
use lambda_durable_execution.Checkpoint.Queue.{
  Ack, acknowledged, blocked, checkpoint, checkpoint_queued,
}
use lambda_durable_execution.Context.{ExecutionContext, ExecutionMode}

pub data Outcome (S A : Type 0) : Type 0 where
  done : A → ExecutionContext → S → Outcome S A
  failed : DurableError → ExecutionContext → S → Outcome S A
  suspended : ExecutionContext → S → Outcome S A

abbrev pub Op : Type 0 → Type 0 → Type 0
Op S A = ExecutionContext → S → Outcome S A

module _ {S : Type 0} where
  abbrev pub continue : {A B : Type 0} → Outcome S A → (A → Op S B) → Outcome S B
  continue (done a ctx s) k = k a ctx s
  continue (failed e ctx s) k = failed e ctx s
  continue (suspended ctx s) k = suspended ctx s

  infixl 5 ◌>>=◌ ◌>>◌
  abbrev pub ◌>>=◌ : {A B : Type 0} → Op S A → (A → Op S B) → Op S B
  ◌>>=◌ m k ctx s = continue (m ctx s) k

  abbrev pub ◌>>◌ : {B : Type 0} → Op S (Unit {0}) → Op S B → Op S B
  ◌>>◌ m k ctx s = continue (m ctx s) (λ _. k)

  abbrev pub return : {A : Type 0} → A → Op S A
  return a ctx s = done a ctx s

  abbrev pub fail : {A : Type 0} → DurableError → Op S A
  fail e ctx s = failed e ctx s

  -- `std::future::pending`.
  abbrev pub suspend : {A : Type 0} → Op S A
  suspend ctx s = suspended ctx s

  unfoldable pub set_mode : ExecutionMode → Op S (Unit {0})
  set_mode mode ctx s = done tt (record ctx { mode = mode }) s

  -- A method of the termination manager, with the flag that its callback sets.
  unfoldable pub terminating :
      (TerminationManager Bool × Bool → TerminationManager Bool × Bool) → Op S (Unit {0})
  terminating f ctx s =
      let m = ctx.checkpoint_manager in
      let (t, flag) = f (m.termination_manager, m.is_terminating) in
      done tt
        (record ctx {
          checkpoint_manager = record m { termination_manager = t; is_terminating = flag };
        })
        s

  -- A change of the checkpoint manager that always returns.
  unfoldable pub on_manager : (CheckpointManager → CheckpointManager) → Op S (Unit {0})
  on_manager f ctx s = done tt (record ctx { checkpoint_manager = f ctx.checkpoint_manager }) s

  -- `builder.build().map_err(…)?`.
  unfoldable pub built : String → OperationUpdateBuilder → Op S OperationUpdate
  built what b ctx s = elim (build b) [
    | ok u ↦ done u ctx s
    | err e ↦ failed (DurableError.internal (concat (what ∷ ": " ∷ e ∷ []))) ctx s
  ]

  abbrev pub acked : ExecutionContext → Ack S → Outcome S (Unit {0})
  acked ctx (acknowledged m s) = done tt (record ctx { checkpoint_manager = m }) s
  acked ctx (blocked m s) = suspended (record ctx { checkpoint_manager = m }) s

  unfoldable pub send : LambdaService S → String → OperationUpdate → Op S (Unit {0})
  send svc step_id update ctx s = acked ctx (checkpoint svc step_id update ctx.checkpoint_manager s)

  unfoldable pub send_queued : LambdaService S → Bool → String → OperationUpdate → Op S (Unit {0})
  send_queued svc eager step_id update ctx s =
      acked ctx (checkpoint_queued svc eager step_id update ctx.checkpoint_manager s)

-- `SerdesContext` and the trait `Serdes`, and the two functions of serde_json.
pub record SerdesContext : Type 0 where
  pub entity_id : String
  pub durable_execution_arn : String

pub record Serdes (T : Type 0) : Type 0 where
  pub serialize : Option T → SerdesContext → Result BoxError (Option String)
  pub deserialize : Option String → SerdesContext → Result BoxError (Option T)

pub record Json (T : Type 0) : Type 0 where
  pub to_string : T → Result BoxError String
  pub from_str : String → Result BoxError T

module _ {S : Type 0} where
  -- What both directions do with a failure.
  unfoldable pub serdes_failure : {A : Type 0} → String → String → Option String → BoxError → Op S A
  unfolding terminating terminate_for_serdes_failure
  serdes_failure what entity_id name e =
      let text = concat (
        what
        ∷ " failed for "
        ∷ unwrap_or name "operation"
        ∷ "("
        ∷ entity_id
        ∷ "): "
        ∷ e.message
        ∷ []) in
      terminating (terminate_for_serdes_failure text) >> suspend

  abbrev pub or_suspend :
      {A : Type 0} → String → String → Option String → Result BoxError A → Op S A
  or_suspend what entity_id name (ok a) = return a
  or_suspend what entity_id name (err e) = serdes_failure what entity_id name e

abbrev pub map_some : {A : Type 0} → Result BoxError A → Result BoxError (Option A)
map_some (ok a) = ok (some a)
map_some (err e) = err e

module _ {T : Type 0} (json : Json T) where
  abbrev pub serialized :
      Option (Serdes T) → Option T → SerdesContext → Result BoxError (Option String)
  serialized none none c = ok none
  serialized none (some v) c = map_some (json.to_string v)
  serialized (some serdes) value c = serdes.serialize value c

  abbrev pub deserialized :
      Option (Serdes T) → Option String → SerdesContext → Result BoxError (Option T)
  deserialized none none c = ok none
  deserialized none (some text) c = map_some (json.from_str text)
  deserialized (some serdes) text c = serdes.deserialize text c

abbrev pub serdes_context : String → ExecutionContext → SerdesContext
serdes_context entity_id ctx = record {
  entity_id = entity_id;
  durable_execution_arn = ctx.durable_execution_arn;
}

module _ {S T : Type 0} (json : Json T) where
  unfoldable pub safe_serialize :
      Option (Serdes T) → Option T → String → Option String → Op S (Option String)
  unfolding serdes_failure
  safe_serialize serdes value entity_id name ctx =
      or_suspend "Serialization" entity_id name
        (serialized json serdes value (serdes_context entity_id ctx)) ctx

  unfoldable pub safe_deserialize :
      Option (Serdes T) → Option String → String → Option String → Op S (Option T)
  unfolding serdes_failure
  safe_deserialize serdes text entity_id name ctx =
      or_suspend "Deserialization" entity_id name
        (deserialized json serdes text (serdes_context entity_id ctx)) ctx

module _ {S : Type 0} where
  -- `Serialization returned None for …` and the like.
  unfoldable pub nothing_returned : {A : Type 0} → String → String → Option String → Op S A
  unfolding terminating terminate_for_serdes_failure
  nothing_returned what entity_id name =
      let text =
        concat (
          what ∷ " returned None for " ∷ unwrap_or name "operation" ∷ "(" ∷ entity_id ∷ ")" ∷ []) in
      terminating (terminate_for_serdes_failure text) >> suspend

  abbrev pub required : {A : Type 0} → String → String → Option String → Option A → Op S A
  required what entity_id name none = nothing_returned what entity_id name
  required what entity_id name (some a) = return a

module _ {S T : Type 0} where
  unfoldable pub safe_serialize_required_with_serdes :
      Serdes T → T → String → Option String → Op S String
  unfolding serdes_failure nothing_returned
  safe_serialize_required_with_serdes serdes value entity_id name ctx =
      (or_suspend "Serialization" entity_id name
            (serdes.serialize (some value) (serdes_context entity_id ctx))
          >>= required "Serialization" entity_id name)
        ctx

  unfoldable pub safe_deserialize_required_with_serdes :
      Serdes T → String → String → Option String → Op S T
  unfolding serdes_failure nothing_returned
  safe_deserialize_required_with_serdes serdes text entity_id name ctx =
      (or_suspend "Deserialization" entity_id name
            (serdes.deserialize (some text) (serdes_context entity_id ctx))
          >>= required "Deserialization" entity_id name)
        ctx
