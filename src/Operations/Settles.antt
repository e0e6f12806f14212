-- ===== src/Operations/Settles.antt =====
-- What a durable operation can end with, and how that passes through its parts.
use lambda_durable_execution.Base.{String, ◌≡◌, Bool, Option}
use lambda_durable_execution.Base.Result.{Result, ok, err}
use Prim.{⊥}
use lambda_durable_execution.Errors.{BoxError, DurableError}
use lambda_durable_execution.Types.{OperationUpdate}
use lambda_durable_execution.Types.Builder.{OperationUpdateBuilder, build}
use lambda_durable_execution.Checkpoint.{LambdaService}
use lambda_durable_execution.Checkpoint.Queue.{
  Ack, acknowledged, blocked, checkpoint, checkpoint_queued,
}
use lambda_durable_execution.Context.{ExecutionContext}
use lambda_durable_execution.Context.Run.{
  Outcome, acked, done, failed, suspended, Op, continue, built, send, send_queued, Serdes, Json,
  serialized, serdes_context, or_suspend, serdes_failure, safe_serialize, terminating,
}

-- A value with `P`, an error with `Q`, or a suspension.
abbrev pub Settles : {S A : Type 0} → (A → Type 0) → (DurableError → Type 0) → Outcome S A → Type 0
Settles P Q (done a ctx s) = P a
Settles P Q (failed e ctx s) = Q e
Settles P Q (suspended ctx s) = Unit {0}

abbrev pub Anything : {A : Type 0} → A → Type 0
Anything a = Unit {0}

abbrev pub Nothing : {A : Type 0} → A → Type 0
Nothing a = ⊥

module _ {S : Type 0} where
  pub Settles-continue :
      {A B : Type 0} (P : A → Type 0) (P' : B → Type 0) (Q : DurableError → Type 0)
      (o : Outcome S A) (k : A → Op S B)
      → Settles P Q o
      → ((a : A) (ctx : ExecutionContext) (s : S) → P a → Settles P' Q (k a ctx s))
      → Settles P' Q (continue o k)
  Settles-continue P P' Q (done a ctx s) k h f = f a ctx s h
  Settles-continue P P' Q (failed e ctx s) k h f = h
  Settles-continue P P' Q (suspended ctx s) k h f = tt

  pub Settles-weaken :
      {A : Type 0} {P P' : A → Type 0} {Q Q' : DurableError → Type 0} (o : Outcome S A)
      → ((a : A) → P a → P' a)
      → ((e : DurableError) → Q e → Q' e)
      → Settles P Q o
      → Settles P' Q' o
  Settles-weaken (done a ctx s) f g h = f a h
  Settles-weaken (failed e ctx s) f g h = g e h
  Settles-weaken (suspended ctx s) f g h = tt

  Settles-acked :
      (Q : DurableError → Type 0) (ctx : ExecutionContext) (a : Ack S)
      → Settles Anything Q (acked ctx a)
  Settles-acked Q ctx (acknowledged m s) = tt
  Settles-acked Q ctx (blocked m s) = tt

  -- A checkpoint never fails.
  pub Settles-send :
      (svc : LambdaService S) (Q : DurableError → Type 0) (id : String) (u : OperationUpdate)
      (ctx : ExecutionContext) (s : S)
      → Settles Anything Q (send svc id u ctx s)
  unfolding send
  Settles-send svc Q id u ctx s = Settles-acked Q ctx (checkpoint svc id u ctx.checkpoint_manager s)

  pub Settles-send_queued :
      (svc : LambdaService S) (eager : Bool) (Q : DurableError → Type 0) (id : String)
      (u : OperationUpdate) (ctx : ExecutionContext) (s : S)
      → Settles Anything Q (send_queued svc eager id u ctx s)
  unfolding send_queued
  Settles-send_queued svc eager Q id u ctx s =
      Settles-acked Q ctx (checkpoint_queued svc eager id u ctx.checkpoint_manager s)

  -- Nor does a builder that passes its checks.
  pub Settles-built :
      (Q : DurableError → Type 0) (what : String) (b : OperationUpdateBuilder)
      (ctx : ExecutionContext) (s : S)
      → ((u : OperationUpdate) × (build b ≡ ok u))
      → Settles Anything Q (built what b ctx s)
  unfolding built
  Settles-built Q what b ctx s (u, h) = rw (h, built) tt

  pub Settles-or_suspend :
      {A : Type 0} (Q : DurableError → Type 0) (what entity_id : String) (name : Option String)
      (r : Result BoxError A) (ctx : ExecutionContext) (s : S)
      → Settles Anything Q (or_suspend what entity_id name r ctx s)
  unfolding serdes_failure terminating
  Settles-or_suspend Q what entity_id name (ok a) ctx s = tt
  Settles-or_suspend Q what entity_id name (err e) ctx s = tt

  -- Nor does serialization: it suspends instead.
  pub Settles-safe_serialize :
      {T : Type 0} (json : Json T) (serdes : Option (Serdes T)) (value : Option T)
      (Q : DurableError → Type 0) (id : String) (name : Option String) (ctx : ExecutionContext)
      (s : S)
      → Settles Anything Q (safe_serialize json serdes value id name ctx s)
  unfolding safe_serialize
  Settles-safe_serialize json serdes value Q id name ctx s =
      Settles-or_suspend Q "Serialization" id name
        (serialized json serdes value (serdes_context id ctx)) ctx s
