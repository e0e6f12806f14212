-- ===== src/Tests.antt =====
-- Instances of the theorems at concrete inputs, and runs of the code on small data.
mod DurationTests
mod CheckpointTests
mod TerminationTests
mod OperationTests
mod ContextTests
mod BatchTests
mod AwaitTests
mod MapTests
mod RuntimeTests
