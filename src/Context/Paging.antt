-- ===== src/Context/Paging.antt =====
-- The pages of the initial state: src/context/execution_context.rs.
use lambda_durable_execution.Base.{
  ℕ, zero, suc, ◌≤◌, String, ◌≡◌, refl, sym, ap, ◌∙◌, Option, none, some, List, [], ◌∷◌, ◌++◌,
  arith, if◌then◌else◌, str_eq,
}
use lambda_durable_execution.Base.Result.{Result, ok, err}
use lambda_durable_execution.Base.Dict
use lambda_durable_execution.Errors.{DurableError}
use lambda_durable_execution.Types.{Operation, DurableExecutionInvocationInput, GetStateResponse}
use lambda_durable_execution.Checkpoint.{LambdaService}
use lambda_durable_execution.Checkpoint.Queue.{store_operations}
use lambda_durable_execution.Context.{get_state_max_items, non_empty, too_many_pages, load_pages}

-- The operation that was stored last under an id.
abbrev pub newest : String → Option Operation → List Operation → Option Operation
newest k best [] = best
newest k best (op ∷ ops) = newest k (if str_eq op.id k then some op else best) ops

pub get-store_operations :
    (k : String) (ops : List Operation) (m : List (String × Operation))
    → Dict.get k (store_operations ops m) ≡ newest k (Dict.get k m) ops
unfolding store_operations
get-store_operations k [] m = refl
get-store_operations k (op ∷ ops) m =
    get-store_operations k ops (Dict.insert op.id op m)
    ∙ ap (λ b. newest k b ops) (Dict.get-insert op.id k op m)

newest-append :
    (k : String) (best : Option Operation) (xs ys : List Operation)
    → newest k best (xs ++ ys) ≡ newest k (newest k best xs) ys
newest-append k best [] ys = refl
newest-append k best (x ∷ xs) ys = newest-append k (if str_eq x.id k then some x else best) xs ys

module _ {S : Type 0} (svc : LambdaService S) (input : DurableExecutionInvocationInput) where
  -- What the service gives, page by page, from a marker and a state on: the number of pages, all
  -- their operations in order, and the state in the end.
  pub data Pages : Option String → S → ℕ → List Operation → S → Type 0 where
    last : {s : S} → Pages none s 0 [] s
    more :
        {marker : String} {s s' s'' : S} {n : ℕ} {ops : List Operation} (r : GetStateResponse)
        → svc.get_durable_execution_state input.durable_execution_arn input.checkpoint_token marker
            get_state_max_items s
          ≡ (ok r, s')
        → Pages (non_empty r.next_marker) s' n ops s''
        → Pages (some marker) s (suc n) (r.operations ++ ops) s''

  load_pages-more :
      (pages : ℕ) (marker : String) (stored : List (String × Operation)) (s s' : S)
      (r : GetStateResponse)
      → svc.get_durable_execution_state input.durable_execution_arn input.checkpoint_token marker
          get_state_max_items s
        ≡ (ok r, s')
      → load_pages svc (suc pages) input (some marker) stored s
        ≡ load_pages svc pages input
            (non_empty r.next_marker)
            (store_operations r.operations stored)
            s'
  unfolding load_pages
  load_pages-more pages marker stored s s' r e =
      ap {B = Result DurableError (List (String × Operation)) × S}
        (λ p. (elim p.0 as (λ _. Result DurableError (List (String × Operation)) × S) [
          | err e' ↦ (err e', p.1)
          | ok r' ↦
              load_pages svc pages input (non_empty r'.next_marker)
                (store_operations r'.operations stored) p.1
        ]))
        e

  -- Where the pages that the service gives are at most as many as may be fetched, the state is loaded,
  -- and under each id it has the operation that came last, in the pages or before them.
  pub load_pages_complete :
      {marker : Option String} {s s' : S} {n : ℕ} {ops : List Operation} (pages : ℕ)
      (stored : List (String × Operation))
      → Pages marker s n ops s'
      → n ≤ pages
      → (loaded : List (String × Operation)) × (load_pages svc pages input marker stored s
          ≡ (ok loaded, s'))
        × ((k : String) → Dict.get k loaded ≡ newest k (Dict.get k stored) ops)
  unfolding load_pages
  load_pages_complete pages stored last h = (stored, refl, λ k. refl)
  load_pages_complete zero stored (more r e rest) h = absurd (omega arith)
  load_pages_complete {ops} (suc pages) stored (more {marker} {s} {s'} {ops = later} r e rest) h =
      let (loaded, eq, all) =
        load_pages_complete pages (store_operations r.operations stored) rest (omega arith) in
      (
        loaded,
        load_pages-more pages marker stored s s' r e ∙ eq,
        λ k.
            all k
            ∙ ap (λ b. newest k b later) (get-store_operations k r.operations stored)
            ∙ sym (newest-append k (Dict.get k stored) r.operations later),
      )

  -- A service that always names a further page is left after the allowed number of pages, with an
  -- error.
  pub load_pages-endless :
      (pages : ℕ) (marker : String) (stored : List (String × Operation)) (s : S)
      → ((m : String) (t : S)
          → (r : GetStateResponse) × (t' : S) × (m' : String) × (svc.get_durable_execution_state
                input.durable_execution_arn input.checkpoint_token m get_state_max_items t
              ≡ (ok r, t'))
            × (non_empty r.next_marker ≡ some m'))
      → (s' : S) × (load_pages svc pages input (some marker) stored s ≡ (err too_many_pages, s'))
  unfolding load_pages
  load_pages-endless zero marker stored s h = (s, refl)
  load_pages-endless (suc pages) marker stored s h =
      let (r, t', m', e, again) = h marker s in
      let (s', eq) = load_pages-endless pages m' (store_operations r.operations stored) t' h in
      (
        s',
        load_pages-more pages marker stored s t' r e
            ∙ ap (λ o. load_pages svc pages input o (store_operations r.operations stored) t') again
            ∙ eq,
      )
