-- ===== src/Lib.antt =====
-- A model of a durable execution library for AWS Lambda.
--
-- A durable function calls operations (steps, waits, child contexts, …). Each operation sends its
-- updates to the checkpoint manager, which queues them, sends them to the Lambda service in batches,
-- and takes up the service's answers. A suspension asks the termination manager to end the
-- invocation, after which the checkpoint manager accepts nothing more.
--
-- The files, and the source they model (paths from the repository's root):
--   Base: booleans, lists, texts, the 32-bit cast, dictionaries (HashMap) and results.
--   Duration: src/types/duration.rs. Iso: parse_iso8601 and to_iso8601. Show: the Display text.
--     Seconds: what the arithmetic computes.
--   Errors: src/error/types.rs.
--   Types: src/types/invocation.rs and the replies of src/types/lambda_service.rs.
--     Builder: OperationUpdateBuilder.
--   Termination: src/termination/manager.rs.
--   Checkpoint: the state of src/checkpoint/manager.rs. Coalesce, Lifecycle: the files of that name
--     under src/checkpoint/manager/. Batch: how process_queue cuts a batch. Queue: the operations
--     checkpoint, checkpoint_queued, force_checkpoint and the worker process_queue, as a whole and
--     step by step. Queue/Steps: the worker's way to its end. Queue/Completion:
--     wait_for_queue_completion. Queue/Race: the flag and the queue as several callers see them, as a
--     step relation.
--   Retry: src/retry/strategy.rs. Presets: src/retry/presets.rs. Attempts: how often a step is tried.
--   Context: src/context/execution_context.rs. Paging: the pages of the initial state. Run: how an
--     operation runs, and src/context/durable_context/serdes.rs.
--   Operations: src/context/durable_context/. Step, Wait, Child, Callback, Invoke, WaitCondition: the
--     files and folders of that name (wait_condition.rs for the last), each with the modules of what is
--     proved about it; MapReplay: map/replay.rs; MapRun: map.rs and the final update of map/execute.rs,
--     where what the concurrent tasks of the items do to the context is one parameter. Settles: how operations end. Records: what they leave
--     of the data that replay reads.
--   Batch: src/types/batch.rs, src/types/config/completion.rs and src/context/durable_context/batch.rs.
--     Loop: the scheduling loop of src/context/durable_context/map/execute.rs. Payload:
--     src/types/batch_serdes.rs.
--   Runtime: src/runtime/handler.rs and src/runtime/handler/execute.rs, from the input of an invocation
--     to its output. Outputs, Waits: what it replies.
--   Tests: concrete runs.
--
-- State is passed explicitly. A record is a struct, a HashMap is an association list, an `Arc<Notify>`
-- is a number, and an operation that never returns (`pending().await`) is an outcome of its own.
-- Integers are natural numbers with the machine's bounds written out. The Lambda service is a record
-- of functions on a state of its own, about which nothing is assumed unless a theorem says so. The
-- user's functions, JSON, SHA-256, f64 and random numbers are parameters. Operations of one context
-- run one after the other. The worker of the queue is a task of its own, and the manager's state says
-- where in its loop it stands (`Worker`): behind a checkpoint it has taken the steps that wake the
-- caller, and as many more as the scheduler gives it, a function that stands with the service
-- (`head_start`); the rest of its steps it takes at later awaits. Whether it takes any before a queued
-- checkpoint returns is a parameter (`eager`). What a worker does between two of these points is taken
-- in one step.
--
-- process_queue runs on fuel; one more than the length of the queue is enough, since each round takes
-- at least one item. The steps of a worker are bounded by four for each round, and two rounds more. load_pages counts the 1000 pages that the source allows. The map loop runs on
-- fuel; the number of items is enough, since each round completes one.
--
-- The race of the handler with the termination is decided by a parameter (`handler_first`) where both
-- are ready; a handler that waits for ever with no termination asked for is answered with nothing
-- (`hangs`).
--
-- Not modelled: the AWS client, the wire format of the messages, logging, clocks, a panic of
-- an item's task, parallel, the builders around the runtime's handler, and the
-- examples.
pub mod Base
pub mod Duration
pub mod Errors
pub mod Types
pub mod Termination
pub mod Checkpoint
pub mod Retry
pub mod Context
pub mod Operations
pub mod Batch
pub mod Runtime
mod Tests
