-- ===== src/Tasks.antt =====
-- db/: the durable runs of asynchronous tasks.
pub mod Runs
pub mod RunStore
pub mod Records
pub mod MappingCache
