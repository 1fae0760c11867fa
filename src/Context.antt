-- ===== src/Context.antt =====
-- What a model sees of its context: src/shared/runtime/core.
pub mod Messages
pub mod Policy
pub mod History
pub mod Budget
pub mod Sections
pub mod Cache
mod Tests
