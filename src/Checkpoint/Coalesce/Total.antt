-- ===== src/Checkpoint/Coalesce/Total.antt =====
-- A batch is accepted if the ids of its updates determine the types of their operations.
use lambda_durable_execution.Base.{
  String, ◌≡◌, refl, sym, ◌∙◌, inl, inr, true, Option, none, some, List, [], ◌∷◌, arith, eq_iff,
  leb, Bool-cases, length, All,
}
use lambda_durable_execution.Base.Result.{ok}
use lambda_durable_execution.Base.Dict
use lambda_durable_execution.Types.{OperationType, same_type, OperationUpdate}
use lambda_durable_execution.Checkpoint.Coalesce.{
  merge, Acc, absorb, absorb_all, drain, coalesce_updates,
}
use lambda_durable_execution.Checkpoint.Coalesce.Merge.{no_updates}

same_type_of_eq : (a b : OperationType) → a ≡ b → same_type a b ≡ true
same_type_of_eq a b e = ground arith

-- Batches whose ids determine the types of their operations are accepted.
module _ (type_of : String → OperationType) where
  abbrev Typed : List (String × OperationUpdate) → Type 0
  Typed [] = Unit {0}
  Typed ((k, u) ∷ m) = (u.operation_type ≡ type_of k) × Typed m

  get-Typed :
      (k : String) (m : List (String × OperationUpdate)) (u : OperationUpdate)
      → Typed m
      → Dict.get k m ≡ some u
      → u.operation_type ≡ type_of k
  unfolding Dict.get
  get-Typed k [] u t h = cc
  get-Typed k ((j, w) ∷ m) u t h = ground (arith, eq_iff j k, get-Typed k m u t.1)

  insert-Typed :
      (k : String) (u : OperationUpdate) (m : List (String × OperationUpdate))
      → u.operation_type ≡ type_of k
      → Typed m
      → Typed (Dict.insert k u m)
  unfolding Dict.insert
  insert-Typed k u [] e t = (e, tt)
  insert-Typed k u ((j, w) ∷ m) e t = ground (arith, eq_iff j k, insert-Typed k u m e t.1)

  absorb_total :
      (a : Acc) (u : OperationUpdate) (o : Option OperationUpdate)
      → Dict.get u.id a.by_id ≡ o
      → Typed a.by_id
      → u.operation_type ≡ type_of u.id
      → (b : Acc) × (absorb a u o ≡ ok b) × Typed b.by_id
  unfolding absorb merge
  absorb_total a u none e t h = (_, refl, insert-Typed u.id u a.by_id h t)
  absorb_total a u (some x) e t h =
      let k : x.operation_type ≡ type_of u.id = get-Typed u.id a.by_id x t e in
      (
        record a { by_id = Dict.insert u.id (merge x u) a.by_id },
        rw (same_type_of_eq _ _ (k ∙ sym h)),
        insert-Typed u.id (merge x u) a.by_id k t,
      )

  absorb_all_total :
      (a : Acc) (us : List OperationUpdate)
      → Typed a.by_id
      → All (λ u. u.operation_type ≡ type_of u.id) us
      → (b : Acc) × (absorb_all a us ≡ ok b)
  unfolding absorb_all
  absorb_all_total a [] t h = (a, refl)
  absorb_all_total a (u ∷ us) t h =
      let (a', e, t') = absorb_total a u (Dict.get u.id a.by_id) refl t h.0 in
      let (b, r) = absorb_all_total a' us t' h.1 in (b, rw e r)

  -- A batch in which the id of an update determines its type is accepted.
  pub coalesce_updates_total :
      (us : List OperationUpdate)
      → All (λ u. u.operation_type ≡ type_of u.id) us
      → (r : List OperationUpdate) × (coalesce_updates us ≡ ok r)
  unfolding coalesce_updates
  coalesce_updates_total us h = elim (Bool-cases (leb (length us) 1)) [
    | inl short ↦ (us, rw short)
    | inr long ↦
        let (a, e) = absorb_all_total no_updates us tt h in (drain a.order a.by_id, rw (long, e))
  ]
