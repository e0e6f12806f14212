-- ===== src/Tests/BatchTests.antt =====
-- Batches and the scheduling loop.
use lambda_durable_execution.Base.{
  ℕ, ◌*◌, ◌%◌, ◌≡◌, refl, none, some, [], ◌∷◌, ltb, leb, ◌==◌, if◌then◌else◌, show,
}
use lambda_durable_execution.Base.Result.{Result, ok, err}
use lambda_durable_execution.Errors.{DurableError}
use lambda_durable_execution.Batch.{
  BatchItemStatus, BatchResult, BatchCompletionReason, Percent, CompletionConfig,
}
use lambda_durable_execution.Batch.Loop.{unreachable, run_loop, initial_loop}
use lambda_durable_execution.Batch.Loop.Progress.{run_loop-unreachable}

-- Whole percentages.
abbrev percent : Percent ℕ
percent = record {
  valid = λ p. leb p 100;
  text = show;
  exceeds = λ failures total p. ltb (p * total) (failures * 100);
}

abbrev at_least : ℕ → CompletionConfig ℕ
at_least n = record {
  min_successful = some n;
  tolerated_failure_count = some 1;
  tolerated_failure_percentage = none;
}

-- The children with even indices succeed.
abbrev child : ℕ → Result DurableError ℕ
child i = if i % 2 == 0 then ok (i * i) else err (DurableError.internal "odd")

run_loop-unreachable_example :
    run_loop percent
      (at_least 0)
      4
      2
      child
      (λ n. n)
      10
      (initial_loop percent (at_least 0) 4 2 child)
    ≡ unreachable
run_loop-unreachable_example = run_loop-unreachable percent (at_least 0) 4 2 child (λ n. n) 9 refl

abbrev mixed : BatchResult ℕ
mixed = record {
  all =
      record { index = 0; status = BatchItemStatus.succeeded; result = some 0; error = none }
      ∷ record { index = 1; status = BatchItemStatus.started; result = none; error = none }
      ∷ [];
  completion_reason = BatchCompletionReason.min_successful_reached;
}
