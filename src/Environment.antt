-- ===== src/Environment.antt =====
-- src/environment: scenario drafting.
pub mod Draft
mod Tests
