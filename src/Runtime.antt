-- ===== src/Runtime.antt =====
-- runtime: the phases of a tick, the task graph, its dispatch to workers, and the drivers above.
pub mod Phase
pub mod Graph
pub mod Registry
pub mod Workers
pub mod Dispatch
pub mod Executor
pub mod Pipeline
pub mod Threads
pub mod Lifecycle
pub mod Scheduler
mod Tests
