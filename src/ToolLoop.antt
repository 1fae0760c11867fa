-- ===== src/ToolLoop.antt =====
-- The loop of a language model and its tools: src/shared/runtime/execution/structured_tool_loop.py.
pub mod Thinking
pub mod Parse
pub mod Loop
pub mod Calls
pub mod Invoke
mod Tests
