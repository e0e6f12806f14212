-- ===== src/Batch/Payload/RoundTrip.antt =====
-- What `BatchResultSerdes` of src/types/batch_serdes.rs reads back of what it wrote.
use lambda_durable_execution.Batch.{BatchItem}
use lambda_durable_execution.Batch.Payload.{error_text, error_texts, restored_error}

module _ {T : Type 0} where
  -- What is left of an item: the text of the error of a failed one.
  unfoldable pub remembered : BatchItem T → BatchItem T
  unfolding error_text
  remembered item = record item { error = restored_error item.status (error_texts item.error) }
