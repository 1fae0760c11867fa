-- ===== src/Monitoring.antt =====
-- src/control_runtime/monitoring: intents under watch, and the loop that plans them again.
pub mod Contracts
pub mod Lifecycle
pub mod Records
pub mod WatchLoop
mod Tests
