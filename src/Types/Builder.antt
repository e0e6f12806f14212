-- ===== src/Types/Builder.antt =====
-- `OperationUpdateBuilder` of src/types/invocation.rs.
pub mod Checks
use lambda_durable_execution.Base.{
  ℕ, String, Bool, true, false, ◌&&◌, ◌||◌, Option, none, some, leb, ◌==◌,
}
use lambda_durable_execution.Base.Int.{ℤ, is_neg}
use lambda_durable_execution.Base.Result.{Result, ok, err, ◌>>=◌, ◌>>◌, ok_or}
use Prim.Native.Char.{code}
use lambda_durable_execution.Errors.{ErrorObject}
use lambda_durable_execution.Types.{
  OperationType, OperationAction, OperationUpdate, ContextUpdateOptions, StepUpdateOptions,
  WaitUpdateOptions, CallbackUpdateOptions, ChainedInvokeUpdateOptions,
}

pub record OperationUpdateBuilder : Type 0 where
  pub id : Option String
  pub parent_id : Option String
  pub name : Option String
  pub operation_type : Option OperationType
  pub sub_type : Option String
  pub action : Option OperationAction
  pub payload : Option String
  pub error : Option ErrorObject
  pub context_options : Option ContextUpdateOptions
  pub step_options : Option StepUpdateOptions
  pub wait_options : Option WaitUpdateOptions
  pub callback_options : Option CallbackUpdateOptions
  pub chained_invoke_options : Option ChainedInvokeUpdateOptions

unfoldable pub builder : OperationUpdateBuilder
builder = record {
  id = none;
  parent_id = none;
  name = none;
  operation_type = none;
  sub_type = none;
  action = none;
  payload = none;
  error = none;
  context_options = none;
  step_options = none;
  wait_options = none;
  callback_options = none;
  chained_invoke_options = none;
}

-- The code points of the `White_Space` property, which `str::trim` removes.
is_whitespace : ℕ → Bool
is_whitespace c =
    (leb 9 c && leb c 13)
    || c == 32
    || c == 0x85
    || c == 0xa0
    || c == 0x1680
    || (leb 0x2000 c && leb c 0x200a)
    || c == 0x2028
    || c == 0x2029
    || c == 0x202f
    || c == 0x205f
    || c == 0x3000

-- `s.trim().is_empty()`.
unfoldable pub is_blank : String → Bool
unfolding is_whitespace
is_blank String.[] = true
is_blank (String.◌∷◌ c s) = is_whitespace (code c) && is_blank s

-- A number of seconds that is given and negative.
abbrev pub negative : Option ℤ → Bool
negative none = false
negative (some n) = is_neg n

abbrev pub negative_delay : Option StepUpdateOptions → Bool
negative_delay none = false
negative_delay (some o) = negative o.next_attempt_delay_seconds

abbrev pub negative_wait : Option WaitUpdateOptions → Bool
negative_wait none = false
negative_wait (some o) = negative o.wait_seconds

abbrev pub negative_timeout : Option CallbackUpdateOptions → Bool
negative_timeout none = false
negative_timeout (some o) = negative o.timeout_seconds

abbrev pub negative_heartbeat : Option CallbackUpdateOptions → Bool
negative_heartbeat none = false
negative_heartbeat (some o) = negative o.heartbeat_timeout_seconds

abbrev pub blank_function : Option ChainedInvokeUpdateOptions → Bool
blank_function none = false
blank_function (some o) = is_blank o.function_name

abbrev pub refuse : Bool → String → Result String (Unit {0})
refuse true message = err message
refuse false message = ok tt

-- The required fields, once the options have been checked.
unfoldable pub assemble : OperationUpdateBuilder → Result String OperationUpdate
assemble b = do
  id ← ok_or b.id "id is required"
  operation_type ← ok_or b.operation_type "operation_type is required"
  action ← ok_or b.action "action is required"
  ok (record {
    id = id;
    parent_id = b.parent_id;
    name = b.name;
    operation_type = operation_type;
    sub_type = b.sub_type;
    action = action;
    payload = b.payload;
    error = b.error;
    context_options = b.context_options;
    step_options = b.step_options;
    wait_options = b.wait_options;
    callback_options = b.callback_options;
    chained_invoke_options = b.chained_invoke_options;
  })

unfoldable pub build : OperationUpdateBuilder → Result String OperationUpdate
unfolding assemble
build b = do
  refuse (negative_delay b.step_options) "next_attempt_delay_seconds must be >= 0"
  refuse (negative_wait b.wait_options) "wait_seconds must be >= 0"
  refuse (negative_timeout b.callback_options) "timeout_seconds must be >= 0"
  refuse (negative_heartbeat b.callback_options) "heartbeat_timeout_seconds must be >= 0"
  refuse (blank_function b.chained_invoke_options) "function_name must not be empty"
  assemble b
