-- ===== src/Types/Builder/Checks.antt =====
-- What the checks of `OperationUpdateBuilder` ensure.
use lambda_durable_execution.Base.{
  String, ◌≡◌, refl, ◌∙◌, subst, Bool, true, false, Option, none, some,
}
use lambda_durable_execution.Base.Result.{Result, ok, ◌>>◌, ok_or, >>=-eq-ok}
use lambda_durable_execution.Types.{OperationType, OperationAction, OperationUpdate}
use lambda_durable_execution.Types.Builder.{
  OperationUpdateBuilder, negative_delay, negative_wait, negative_timeout, negative_heartbeat,
  blank_function, refuse, assemble, build,
}

-- No option has a negative number of seconds or a blank function name.
pub record Checked (b : OperationUpdateBuilder) : Type 0 where
  pub delay : negative_delay b.step_options ≡ false
  pub wait : negative_wait b.wait_options ≡ false
  pub timeout : negative_timeout b.callback_options ≡ false
  pub heartbeat : negative_heartbeat b.callback_options ≡ false
  pub function : blank_function b.chained_invoke_options ≡ false

-- An update that has all that the builder has.
pub record Copies (b : OperationUpdateBuilder) (u : OperationUpdate) : Type 0 where
  pub id : b.id ≡ some u.id
  pub operation_type : b.operation_type ≡ some u.operation_type
  pub action : b.action ≡ some u.action
  pub parent_id : b.parent_id ≡ u.parent_id
  pub name : b.name ≡ u.name
  pub sub_type : b.sub_type ≡ u.sub_type
  pub payload : b.payload ≡ u.payload
  pub error : b.error ≡ u.error
  pub context_options : b.context_options ≡ u.context_options
  pub step_options : b.step_options ≡ u.step_options
  pub wait_options : b.wait_options ≡ u.wait_options
  pub callback_options : b.callback_options ≡ u.callback_options
  pub chained_invoke_options : b.chained_invoke_options ≡ u.chained_invoke_options

refused_first :
    (c : Bool) (message : String) (rest : Result String OperationUpdate) (u : OperationUpdate)
    → (refuse c message >> rest) ≡ ok u
    → (c ≡ false) × (rest ≡ ok u)
refused_first true message rest u h = cc
refused_first false message rest u h = (refl, h)

ok_or-eq-ok :
    {A : Type 0} (o : Option A) (message : String) (a : A) → ok_or o message ≡ ok a → o ≡ some a
ok_or-eq-ok none message a h = cc
ok_or-eq-ok (some x) message a h = cc

assemble-Copies :
    (b : OperationUpdateBuilder) (u : OperationUpdate) → assemble b ≡ ok u → Copies b u
unfolding assemble
assemble-Copies b u h =
    let (i, ei, h1) = >>=-eq-ok (ok_or b.id "id is required") _ h in
    let (t, et, h2) = >>=-eq-ok (ok_or b.operation_type "operation_type is required") _ h1 in
    let (a, ea, h3) = >>=-eq-ok (ok_or b.action "action is required") _ h2 in
    let same = ok-injective h3 in
    subst (Copies b) same (record {
      id = ok_or-eq-ok _ _ _ ei;
      operation_type = ok_or-eq-ok _ _ _ et;
      action = ok_or-eq-ok _ _ _ ea;
      parent_id = refl;
      name = refl;
      sub_type = refl;
      payload = refl;
      error = refl;
      context_options = refl;
      step_options = refl;
      wait_options = refl;
      callback_options = refl;
      chained_invoke_options = refl;
    })
  where
    ok-injective : {A : Type 0} {x y : A} → ◌≡◌ {A = Result String A} (ok x) (ok y) → x ≡ y
    ok-injective h = cc

-- Where the builder succeeds, the update has every field of the builder, the id, the type and the
-- action were given, and no number of seconds is negative and no function name blank.
pub build_sound :
    (b : OperationUpdateBuilder) (u : OperationUpdate) → build b ≡ ok u → Copies b u × Checked b
unfolding build
build_sound b u h =
    let (d, h1) = refused_first _ _ _ u h in
    let (w, h2) = refused_first _ _ _ u h1 in
    let (t, h3) = refused_first _ _ _ u h2 in
    let (e, h4) = refused_first _ _ _ u h3 in
    let (f, h5) = refused_first _ _ _ u h4 in
    (
      assemble-Copies b u h5,
      record { delay = d; wait = w; timeout = t; heartbeat = e; function = f },
    )

build-Checked : (b : OperationUpdateBuilder) → Checked b → build b ≡ assemble b
unfolding build
build-Checked b c = simp (c.delay, c.wait, c.timeout, c.heartbeat, c.function)

-- A builder with an id, a type and an action, no negative number of seconds and no blank function
-- name succeeds.
pub build_complete :
    (b : OperationUpdateBuilder) (i : String) (t : OperationType) (a : OperationAction)
    → b.id ≡ some i
    → b.operation_type ≡ some t
    → b.action ≡ some a
    → Checked b
    → (u : OperationUpdate) × (build b ≡ ok u)
unfolding assemble
build_complete b i t a ei et ea c = (
  record {
    id = i;
    parent_id = b.parent_id;
    name = b.name;
    operation_type = t;
    sub_type = b.sub_type;
    action = a;
    payload = b.payload;
    error = b.error;
    context_options = b.context_options;
    step_options = b.step_options;
    wait_options = b.wait_options;
    callback_options = b.callback_options;
    chained_invoke_options = b.chained_invoke_options;
  },
  build-Checked b c ∙ simp (ei, et, ea),
)
