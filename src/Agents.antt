-- ===== src/Agents.antt =====
-- src/shared/agents: retry policies and the stage runner.
pub mod Retry
pub mod Stage
mod Tests
