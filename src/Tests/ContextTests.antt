-- ===== src/Tests/ContextTests.antt =====
-- Child contexts, retries, pages and builders.
use lambda_durable_execution.Base.{
  ℕ, suc, ◌+◌, ◌-◌, ◌*◌, ◌/◌, ◌%◌, ◌^◌, ◌≤◌, ◌<◌, min, String, ◌≡◌, refl, ◌↔◌, ◌⊎◌, Bool, true,
  Option, none, some, List, [], ◌∷◌, arith, ltb, if◌then◌else◌, str_eq,
}
use lambda_durable_execution.Base.Int.{pos, negsuc}
use lambda_durable_execution.Base.Result.{ok}
use lambda_durable_execution.Base.Dict
use lambda_durable_execution.Duration.{of_seconds}
use lambda_durable_execution.Errors.{DurableError}
use lambda_durable_execution.Types.{
  Operation, OperationType, OperationStatus, OperationAction, GetStateResponse,
}
use lambda_durable_execution.Types.Builder.{OperationUpdateBuilder, builder}
use lambda_durable_execution.Checkpoint.{LambdaService}
use lambda_durable_execution.Retry.{
  Float, Search, ExponentialBackoff, JitterStrategy, exponential, is_error_retryable,
}
use lambda_durable_execution.Retry.Attempts.{last_attempt, last_attempt-exponential}
use lambda_durable_execution.Context.{ExecutionContext, load_pages, non_empty}
use lambda_durable_execution.Context.Paging.{last, more, newest, load_pages_complete}
use lambda_durable_execution.Context.Run.{failed, Op}
use lambda_durable_execution.Operations.Settles.{Settles}
use lambda_durable_execution.Operations.Child.{
  ChildContextConfig, checkpoint_size_limit_bytes, child_succeed_builder,
}
use lambda_durable_execution.Operations.Child.Outcomes.{
  AsksForChildren, payload_size, child_succeed_builder-bounded,
}
use lambda_durable_execution.Tests.CheckpointTests.{accepting}
use lambda_durable_execution.Tests.OperationTests.{recorded, input, context, ids, oops}

child_succeed_builder-bounded_example :
    let b = child_succeed_builder ids "Map" (some "true") in
    (payload_size b.payload ≤ checkpoint_size_limit_bytes)
    × ((checkpoint_size_limit_bytes < 4) ↔ AsksForChildren b.context_options)
    × ((b.payload ≡ some "true") ⊎ (checkpoint_size_limit_bytes < 4))
child_succeed_builder-bounded_example = child_succeed_builder-bounded ids "Map" (some "true")

-- A child that fails.
abbrev broken : Op ℕ Bool
broken ctx s = failed (DurableError.internal "broken") ctx (s + 1)

abbrev child_config : ChildContextConfig Bool
child_config = record { sub_type = none; serdes = none }

abbrev child_done : Operation
child_done = recorded "child" OperationStatus.succeeded (some "true")

abbrev after_child : ExecutionContext
after_child = context (("child", child_done) ∷ [])

abbrev large_child : Operation
large_child = record child_done {
  context_details = some (record { replay_children = some true; result = some ""; error = none });
}

abbrev after_large : ExecutionContext
after_large = context (("child", large_child) ∷ [])

-- A service with two pages.
abbrev page : Option String → List Operation → GetStateResponse
page next ops = record { operations = ops; next_marker = next }

abbrev two_pages : LambdaService ℕ
two_pages = record accepting {
  get_durable_execution_state = λ arn token marker max n. (
    ok (
        if str_eq marker "p1"
        then page (some "p2") (child_done ∷ [])
        else page (some "") (large_child ∷ [])),
    n + 1,
  );
}

load_pages_complete_example :
    (loaded : List (String × Operation)) × (load_pages two_pages 5 input (some "p1") [] 0
      ≡ (ok loaded, 2))
    × ((k : String) → Dict.get k loaded ≡ newest k none (child_done ∷ large_child ∷ []))
unfolding non_empty Dict.get
load_pages_complete_example =
    load_pages_complete two_pages input 5 []
      (more (page (some "p2") (child_done ∷ [])) refl
        (more {ops = []} (page (some "") (large_child ∷ [])) refl last))
      (omega arith)

abbrev endless : LambdaService ℕ
endless = record accepting {
  get_durable_execution_state = λ arn token marker max n. (ok (page (some "again") []), n + 1);
}

abbrev start_builder : OperationUpdateBuilder
unfolding builder
start_builder = record builder {
  id = some "a";
  operation_type = some OperationType.step;
  action = some OperationAction.start;
  name = some "first";
}

-- Whole seconds as the numbers, with the least random number.
abbrev whole : Float ℕ
whole = record {
  literal = λ n d. n / (suc (d - 1));
  of_u64 = λ n. n;
  mul = λ a b. a * b;
  add = λ a b. a + b;
  div = λ a b. a / (suc (b - 1));
  powi = λ a n. elim n [ pos k ↦ a ^ k | negsuc k ↦ 0 ];
  minimum = min;
  maximum = λ a b. if ltb a b then b else a;
  round_u32 = λ n. n % 2 ^ 32;
  random_range = λ a b. a;
}

abbrev exact : Search
exact = record { to_lowercase = λ s. s; contains = str_eq }

abbrev backoff : List String → ExponentialBackoff ℕ
backoff patterns = record {
  max_attempts = 4;
  initial_delay = of_seconds 1;
  max_delay = of_seconds 30;
  backoff_rate = 2;
  jitter = JitterStrategy.full;
  retryable_patterns = patterns;
}

last_attempt-exponential_example :
    last_attempt (exponential whole exact (backoff [])) oops 4 1 ≡ some 4
unfolding is_error_retryable
last_attempt-exponential_example =
    last_attempt-exponential whole exact (backoff []) oops refl (omega arith)
