-- ===== src/Checkpoint/Coalesce/Merge.antt =====
-- What coalescing gives: one update for each id, in the order of first appearance, which is the merge of
-- all updates with that id.
use lambda_durable_execution.Base.{
  suc, String, ◌≡◌, refl, ap, ◌∙◌, Option, none, some, List, [], ◌∷◌, ◌++◌, map, arith, eq_iff,
  if◌then◌else◌, is_some, length, any, find, str_eq,
}
use lambda_durable_execution.Base.Result.{ok}
use lambda_durable_execution.Base.Dict
use lambda_durable_execution.Base.Result.{>>=-eq-ok}
use lambda_durable_execution.Types.{OperationUpdate}
use lambda_durable_execution.Checkpoint.Coalesce.{merge, Acc, absorb, absorb_all}

-- The merge of a first update, if there is one, with the next.
abbrev pub merged : Option OperationUpdate → OperationUpdate → OperationUpdate
merged none u = u
merged (some e) u = merge e u

-- All updates with the id `k`, merged in order behind `o`.
unfoldable pub latest :
    String → Option OperationUpdate → List OperationUpdate → Option OperationUpdate
latest k o [] = o
latest k o (u ∷ us) = latest k (if str_eq u.id k then some (merged o u) else o) us

-- The ids in the order of their first appearance behind `seen`.
unfoldable pub first_ids : List String → List OperationUpdate → List String
first_ids seen [] = seen
first_ids seen (u ∷ us) =
    first_ids (if any (λ k. str_eq k u.id) seen then seen else seen ++ u.id ∷ []) us

-- Each update stands under its own id.
abbrev Own : List (String × OperationUpdate) → Type 0
Own [] = Unit {0}
Own ((k, u) ∷ m) = (u.id ≡ k) × Own m

get-Own :
    (k : String) (m : List (String × OperationUpdate)) (u : OperationUpdate)
    → Own m
    → Dict.get k m ≡ some u
    → u.id ≡ k
unfolding Dict.get
get-Own k [] u o h = cc
get-Own k ((j, w) ∷ m) u o h = ground (arith, eq_iff j k, get-Own k m u o.1)

insert-Own :
    (k : String) (u : OperationUpdate) (m : List (String × OperationUpdate))
    → u.id ≡ k
    → Own m
    → Own (Dict.insert k u m)
unfolding Dict.insert
insert-Own k u [] e o = (e, tt)
insert-Own k u ((j, w) ∷ m) e o = ground (arith, insert-Own k u m e o.1)

any-keys :
    (k : String) (m : List (String × OperationUpdate))
    → any (λ j. str_eq j k) (Dict.keys m) ≡ is_some (Dict.get k m)
unfolding Dict.get
any-keys k [] = refl
any-keys k ((j, w) ∷ m) = ground (arith, any-keys k m)

-- The list of ids and the map speak of the same ids.
pub record IsKeyed (a : Acc) : Type 0 where
  pub same_keys : a.order ≡ Dict.keys a.by_id
  pub own : Own a.by_id

absorb-IsKeyed :
    (a b : Acc) (u : OperationUpdate) (o : Option OperationUpdate)
    → Dict.get u.id a.by_id ≡ o
    → absorb a u o ≡ ok b
    → IsKeyed a
    → IsKeyed b × (b.order ≡ first_ids a.order (u ∷ []))
unfolding absorb merge first_ids
absorb-IsKeyed a b u none e h v = ground (
  arith,
  Dict.keys-insert_new u.id u a.by_id e,
  insert-Own u.id u a.by_id refl v.own,
  any-keys u.id a.by_id,
  v.same_keys,
)
absorb-IsKeyed a b u (some x) e h v = ground (
  arith,
  Dict.keys-insert_old u.id (merge x u) x a.by_id e,
  insert-Own u.id (merge x u) a.by_id (get-Own u.id a.by_id x v.own e) v.own,
  any-keys u.id a.by_id,
  v.same_keys,
)

absorb_all-IsKeyed :
    (a b : Acc) (us : List OperationUpdate)
    → absorb_all a us ≡ ok b
    → IsKeyed a
    → IsKeyed b × (b.order ≡ first_ids a.order us)
unfolding absorb_all first_ids
absorb_all-IsKeyed a b [] h v = ground (arith, v.same_keys, v.own)
absorb_all-IsKeyed a b (u ∷ us) h v =
    let (a', e, rest) = >>=-eq-ok (absorb a u (Dict.get u.id a.by_id)) (λ a'. absorb_all a' us) h in
    let (v', o) = absorb-IsKeyed a a' u (Dict.get u.id a.by_id) refl e v in
    let (w, p) = absorb_all-IsKeyed a' b us rest v' in (w, p ∙ ap (λ ids. first_ids ids us) o)

abbrev pub no_updates : Acc
no_updates = record { order = []; by_id = [] }

-- Whenever the loop accepts a batch, it ends with as many ids as merged updates.
pub length-order :
    (us : List OperationUpdate) (a : Acc)
    → absorb_all no_updates us ≡ ok a
    → length a.order ≡ length a.by_id
length-order us a h =
    ap length
      (absorb_all-IsKeyed no_updates a us h (record { same_keys = refl; own = tt })).0.same_keys
    ∙ length-keys a.by_id
  where
    length-keys : (m : List (String × OperationUpdate)) → length (Dict.keys m) ≡ length m
    length-keys [] = refl
    length-keys ((k, u) ∷ m) = ap suc (length-keys m)

-- The updates of a batch, one for each id.
pub record Coalesced (us r : List OperationUpdate) : Type 0 where
  pub ids : map (λ u. u.id) r ≡ first_ids [] us
  pub values : (k : String) → find (λ u. str_eq u.id k) r ≡ latest k none us
