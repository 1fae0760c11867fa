-- ===== src/Execution.antt =====
-- src/control_runtime/execution: dispatch of a compiled policy plan, and its assurance.
pub mod Gateway
pub mod Compiler
pub mod Plan
pub mod Measurement
pub mod Assurance
pub mod Dispatch
pub mod Batch
pub mod Controller
mod Tests
