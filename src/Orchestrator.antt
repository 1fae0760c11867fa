-- ===== src/Orchestrator.antt =====
-- src/control_runtime/orchestrators: the rounds of one control session.
pub mod Contracts
pub mod Transitions
pub mod RoundStates
pub mod Main
mod Tests
