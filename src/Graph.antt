-- ===== src/Graph.antt =====
-- s13code/core/live_graph: the durable task graph and the executor over it.
pub mod Model
pub mod Cycle
pub mod Store
pub mod Patch
pub mod Journal
pub mod Invariant
pub mod Ready
pub mod Once
pub mod Attempts
pub mod Executor
mod Tests
