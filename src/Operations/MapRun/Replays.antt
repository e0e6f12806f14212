-- ===== src/Operations/MapRun/Replays.antt =====
-- What the final update of a map records, and what its replay makes of it: src/context/durable_context/
-- map/execute.rs and map/replay.rs.
use lambda_durable_execution.Base.{ℕ, true, false, none, some, map}
use lambda_durable_execution.Batch.{BatchResult}
use lambda_durable_execution.Batch.Loop.{sort_items}
use lambda_durable_execution.Batch.Payload.RoundTrip.{remembered}
use lambda_durable_execution.Operations.MapReplay.{PayloadFields}

-- What is left of a batch behind its text: the items in the order of their indices, and of their
-- errors the text.
abbrev pub remembered_batch : {T : Type 0} → BatchResult T → BatchResult T
remembered_batch batch = record {
  all = sort_items (map remembered batch.all);
  completion_reason = batch.completion_reason;
}

-- The members that the code looks up in the two kinds of payload.
abbrev pub batch_fields : PayloadFields
batch_fields = record {
  kind = some "BatchResult";
  type_name = none;
  has_total_count = false;
  total_count = none;
}

abbrev pub summary_fields : ℕ → PayloadFields
summary_fields total = record {
  kind = none;
  type_name = some "MapResult";
  has_total_count = true;
  total_count = some total;
}
