-- ===== src/Operations/Records/Ends.antt =====
-- How an operation that replay reads for ends: src/context/durable_context/.
use lambda_durable_execution.Base.{String, ◌≡◌, ◌∙◌, Bool, false, Option, none, some, List}
use lambda_durable_execution.Base.Dict
use lambda_durable_execution.Errors.{DurableError}
use lambda_durable_execution.Types.{Operation}
use lambda_durable_execution.Checkpoint.Lifecycle.{is_finished}
use lambda_durable_execution.Context.{ExecutionContext, rejoin}
use lambda_durable_execution.Context.Run.{Outcome, Op, continue, done, failed, suspended}
use lambda_durable_execution.Operations.Settles.{Settles, Anything, Nothing}
use lambda_durable_execution.Operations.Child.{rejoined, catch}
use lambda_durable_execution.Operations.Records.{context_of, replay_view, KeepsRecords, view_kept}

-- A record that has ended.
abbrev pub has_finished : Option Operation → Bool
has_finished none = false
has_finished (some op) = is_finished op.status

abbrev pub View : Type 0
View = List (String × Operation) × String

-- The record of an id in a view.
abbrev pub recorded : String → View → Option Operation
recorded id view = Dict.get id view.0

-- A value with `P`, in a context of which replay reads `view`; or no value.
unfoldable pub Ends : {S A : Type 0} → (A → Type 0) → View → Outcome S A → Type 0
Ends P view (done a ctx s) = P a × (replay_view ctx ≡ view)
Ends P view (failed e ctx s) = Unit {0}
Ends P view (suspended ctx s) = Unit {0}

module _ {S : Type 0} where
  pub Ends-continue :
      {A B : Type 0} (P : A → Type 0) (Q : B → Type 0) (view : View) (o : Outcome S A)
      (k : A → Op S B)
      → Ends P view o
      → ((a : A) (ctx : ExecutionContext) (s : S)
          → P a
          → replay_view ctx ≡ view
          → Ends Q view (k a ctx s))
      → Ends Q view (continue o k)
  unfolding Ends
  Ends-continue P Q view (done a ctx s) k h f = f a ctx s h.0 h.1
  Ends-continue P Q view (failed e ctx s) k h f = tt
  Ends-continue P Q view (suspended ctx s) k h f = tt

  pub Ends-always :
      {A B : Type 0} (Q : B → Type 0) (view : View) (o : Outcome S A) (k : A → Op S B)
      → ((a : A) (ctx : ExecutionContext) (s : S) → Ends Q view (k a ctx s))
      → Ends Q view (continue o k)
  unfolding Ends
  Ends-always Q view (done a ctx s) k f = f a ctx s
  Ends-always Q view (failed e ctx s) k f = tt
  Ends-always Q view (suspended ctx s) k f = tt

  of_view :
      {A : Type 0} (view : View) (o : Outcome S A)
      → replay_view (context_of o) ≡ view
      → Ends Anything view o
  unfolding Ends
  of_view view (done a ctx s) e = (tt, e)
  of_view view (failed x ctx s) e = tt
  of_view view (suspended ctx s) e = tt

  pub KeepsRecords-Ends :
      {A : Type 0} {m : Op S A}
      → KeepsRecords m
      → (view : View) (ctx : ExecutionContext) (s : S) → replay_view ctx ≡ view
      → Ends Anything view (m ctx s)
  KeepsRecords-Ends {A} {m} h view ctx s e = of_view view (m ctx s) (view_kept h ctx s ∙ e)

  pub Ends-rejoined :
      {A : Type 0} (P : A → Type 0) (view : View) (ctx : ExecutionContext) (o : Outcome S A)
      → Ends P view o
      → replay_view ctx ≡ view
      → Ends P view (rejoined ctx o)
  unfolding rejoin Ends
  Ends-rejoined P view ctx (done v c s) h e = (h.0, e)
  Ends-rejoined P view ctx (failed x c s) h e = tt
  Ends-rejoined P view ctx (suspended c s) h e = tt

  pub Ends-catch :
      {A B : Type 0} (P : A → Type 0) (Q : B → Type 0) (view : View) (m : Op S A)
      (on_error : DurableError → Op S B) (k : A → Op S B) (ctx : ExecutionContext) (s : S)
      → Ends P view (m ctx s)
      → ((e : DurableError) (c : ExecutionContext) (t : S) → Ends Q view (on_error e c t))
      → ((v : A) (c : ExecutionContext) (t : S)
          → P v
          → replay_view c ≡ view
          → Ends Q view (k v c t))
      → Ends Q view (catch m on_error k ctx s)
  unfolding Ends
  Ends-catch {A} {B} P Q view m on_error k ctx s h f g = caught (m ctx s) h
    where
      caught :
          (o : Outcome S A)
          → Ends P view o
          → Ends {S = S} {A = B} Q view (elim o [
            | done v ctx' s' ↦ k v ctx' s'
            | failed e ctx' s' ↦ on_error e ctx' s'
            | suspended ctx' s' ↦ suspended ctx' s'
          ])
      caught (done v c t) p = g v c t p.0 p.1
      caught (failed e c t) p = f e c t
      caught (suspended c t) p = tt

  pub Ends-Nothing :
      {A : Type 0} (view : View) (o : Outcome S A)
      → Ends Nothing view o
      → Settles Nothing Anything o
  unfolding Ends
  Ends-Nothing view (done a ctx s) h = absurd h.0
  Ends-Nothing view (failed e ctx s) h = tt
  Ends-Nothing view (suspended ctx s) h = tt

  -- Both: what the first part gives, and a context of which replay reads the same.
  pub Settles-kept :
      {A B : Type 0} (P : A → Type 0) (P' : B → Type 0) (Q : DurableError → Type 0) (view : View)
      (o : Outcome S A) (k : A → Op S B)
      → replay_view (context_of o) ≡ view
      → Settles P Q o
      → ((a : A) (ctx : ExecutionContext) (s : S)
          → P a
          → replay_view ctx ≡ view
          → Settles P' Q (k a ctx s))
      → Settles P' Q (continue o k)
  Settles-kept P P' Q view (done a ctx s) k e h f = f a ctx s h e
  Settles-kept P P' Q view (failed x ctx s) k e h f = h
  Settles-kept P P' Q view (suspended ctx s) k e h f = tt
