-- ===== src/Checkpoint/Lifecycle/Awaited.antt =====
-- The `awaited` flag and the idle states agree, and no update loses the flag.
use lambda_durable_execution.Base.{
  String, ◌≡◌, refl, subst, ◌↔◌, inl, inr, Bool, true, false, Option, none, some, List, [], ◌∷◌,
  arith, eq_iff, Bool-cases, Option-cases, str_eq,
}
use lambda_durable_execution.Base.Dict
use lambda_durable_execution.Types.{Operation, OperationType, OperationAction, OperationUpdate}
use lambda_durable_execution.Checkpoint.{OperationLifecycle, OperationInfo, CheckpointManager}
use lambda_durable_execution.Checkpoint.Lifecycle.{
  is_finished, finished_parent, has_finished_ancestor, lifecycle_of, awaited_of,
  update_operation_lifecycle, await_lifecycle, mark_awaited,
}

-- An idle operation is in the idle state that its flag says.
pub record Agrees (info : OperationInfo) : Type 0 where
  pub awaited : info.lifecycle ≡ OperationLifecycle.idle_awaited → info.awaited ≡ true
  pub not_awaited : info.lifecycle ≡ OperationLifecycle.idle_not_awaited → info.awaited ≡ false

abbrev pub AllAgree : List (String × OperationInfo) → Type 0
AllAgree [] = Unit {0}
AllAgree ((k, info) ∷ m) = Agrees info × AllAgree m

insert-AllAgree :
    (k : String) (info : OperationInfo) (m : List (String × OperationInfo))
    → Agrees info
    → AllAgree m
    → AllAgree (Dict.insert k info m)
unfolding Dict.insert
insert-AllAgree k info [] a h = (a, tt)
insert-AllAgree k info ((j, x) ∷ m) a h = elim (Bool-cases (str_eq j k)) [
  | inl same ↦ rw same (a, h.1)
  | inr other ↦ rw other (h.0, insert-AllAgree k info m a h.1)
]

lifecycle-Agrees :
    (id : String) (parent : Option String) (action : OperationAction) (t : OperationType) (b : Bool)
    → Agrees (record {
      id = id;
      parent_id = parent;
      operation_type = t;
      lifecycle = lifecycle_of action t b;
      awaited = b;
    })
unfolding lifecycle_of
lifecycle-Agrees id parent action t b = ground arith

await-Agrees :
    (info : OperationInfo)
    → Agrees info
    → Agrees (record info { awaited = true; lifecycle = await_lifecycle info.lifecycle })
await-Agrees info a = ground arith

-- Every update keeps the flags and the idle states in agreement.
pub update_operation_lifecycle-AllAgree :
    (m : CheckpointManager) (u : OperationUpdate)
    → AllAgree m.operations
    → AllAgree (update_operation_lifecycle m u).operations
unfolding update_operation_lifecycle
update_operation_lifecycle-AllAgree m u h =
    insert-AllAgree u.id _ m.operations
      (lifecycle-Agrees u.id u.parent_id u.action u.operation_type
        (awaited_of (Dict.get u.id m.operations)))
      h

get-AllAgree :
    (k : String) (m : List (String × OperationInfo)) (info : OperationInfo)
    → AllAgree m
    → Dict.get k m ≡ some info
    → Agrees info
unfolding Dict.get
get-AllAgree k [] info h e = cc
get-AllAgree k ((j, x) ∷ m) info h e = elim (Bool-cases (str_eq j k)) [
  | inl same ↦ subst Agrees {x = x} (ground arith) h.0
  | inr other ↦ get-AllAgree k m info h.1 (ground arith)
]

-- Marking an operation as awaited keeps the flags and the idle states in agreement.
pub mark_awaited-AllAgree :
    (m : CheckpointManager) (id : String)
    → AllAgree m.operations
    → AllAgree (mark_awaited m id).operations
unfolding mark_awaited
mark_awaited-AllAgree m id h = elim (Option-cases (Dict.get id m.operations)) [
  | inl e ↦ rw (e, mark_awaited) h
  | inr (info, e) ↦
      rw (e, mark_awaited)
        (insert-AllAgree id _ m.operations
          (await-Agrees info (get-AllAgree id m.operations info h e)) h)
]

-- Whether an operation is awaited survives every update, of this operation or of another.
pub awaited-update_operation_lifecycle :
    (m : CheckpointManager) (u : OperationUpdate) (id : String)
    → awaited_of (Dict.get id (update_operation_lifecycle m u).operations)
      ≡ awaited_of (Dict.get id m.operations)
unfolding update_operation_lifecycle
awaited-update_operation_lifecycle m u id =
    rw (Dict.get-insert u.id id _ m.operations) (ground (arith, eq_iff u.id id))

finished_parent_found :
    (m : CheckpointManager) (o : Option String)
    → finished_parent m o ≡ true
    → (p : String) × (op : Operation) × (o ≡ some p)
      × (Dict.get p m.step_data ≡ some op)
      × (is_finished op.status ≡ true)
finished_parent_found m none h = cc
finished_parent_found m (some p) h = elim (Option-cases (Dict.get p m.step_data)) [
  | inl e ↦ absurd (cc e)
  | inr (op, e) ↦ (p, op, refl, e, ground (arith, e))
]

-- A finished ancestor is reported exactly where the direct parent is known and has finished: the
-- parents of the parent are not looked at.
pub has_finished_ancestor_iff :
    (m : CheckpointManager) (u : OperationUpdate)
    → (has_finished_ancestor m u ≡ true) ↔ (
        (p : String) × (op : Operation) × (u.parent_id ≡ some p)
        × (Dict.get p m.step_data ≡ some op)
        × (is_finished op.status ≡ true))
unfolding has_finished_ancestor
has_finished_ancestor_iff m u =
    (finished_parent_found m u.parent_id, λ (p, op, e, f, g). ground (arith, e, f, g))
