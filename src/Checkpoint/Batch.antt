-- ===== src/Checkpoint/Batch.antt =====
-- The batches of src/checkpoint/manager/queue.rs: `estimate_update_size` and the inner loop.
pub mod Bounds
use lambda_durable_execution.Base.{
  ℕ, ◌+◌, ◌*◌, String, not, ◌&&◌, Option, none, some, List, [], ◌∷◌, ◌++◌, ltb, if◌then◌else◌,
  is_empty, str_len,
}
use lambda_durable_execution.Base.Result.{◌>>=◌, ◌>>◌}
use lambda_durable_execution.Base.Dict
use lambda_durable_execution.Types.{OperationUpdate}
use lambda_durable_execution.Checkpoint.{QueuedCheckpoint}

abbrev pub max_payload_size : ℕ
max_payload_size = 750 * 1024

abbrev pub base_overhead : ℕ
base_overhead = 100

-- The number of bytes of a text that may be missing.
abbrev len_or_zero : Option String → ℕ
len_or_zero none = 0
len_or_zero (some s) = str_len s

unfoldable pub estimate_update_size : OperationUpdate → ℕ
estimate_update_size u =
    100 + str_len u.id + len_or_zero u.parent_id + len_or_zero u.name + len_or_zero u.payload

-- `while let Some(checkpoint) = queue.front()`: what is taken from the front, behind `batch`, and
-- what is left.
unfoldable pub fill :
    List QueuedCheckpoint
    → ℕ
    → List QueuedCheckpoint
    → List QueuedCheckpoint × List QueuedCheckpoint
fill [] size batch = (batch, [])
fill (c ∷ queue) size batch =
    let item = estimate_update_size c.update in
    let rest = fill queue (size + item) (batch ++ c ∷ []) in
    if ltb max_payload_size (size + item) && not (is_empty batch) then (batch, c ∷ queue) else rest

unfoldable pub take_batch : List QueuedCheckpoint → List QueuedCheckpoint × List QueuedCheckpoint
unfolding fill estimate_update_size
take_batch queue = fill queue base_overhead []
