-- ===== src/Runtime.antt =====
-- src/shared/runtime: the table of tasks, the file queue over it, and the worker over that.
pub mod Tasks
pub mod Queue
pub mod Worker
mod Tests
