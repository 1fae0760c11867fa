-- ===== src/Lib.antt =====
-- The multi-agent network control runtime: an operator's request is planned by three agents in
-- rounds, the planned policies are dispatched to a gateway and assured, a watch loop plans again
-- what the monitor reports, agents that run as workers share a table and a queue of tasks, and
-- scenarios to run against are drafted section by section.
--
-- Parts, with the files that model them (paths from the repository's root):
-- - Agents/Retry and Agents/Stage: src/shared/agents/retry.py (`RetryPolicy`, `RetryContext`) and
--   src/shared/agents/stage.py (`StageRunner.run`, one function for each step of its loop). The
--   caller's callbacks are actions on a world that may raise.
-- - Runtime/Tasks: the rows of agent_task (database/models.py) and the transactions on them in
--   src/shared/runtime/storage/runtime_store.py. A table is a list of rows, a transaction is a
--   function on it, and a flag says that the database fails, which the code turns into `False`.
-- - Runtime/Queue: `FileTaskQueue` of src/shared/runtime/storage/queue.py over that table, with its
--   three directories as lists of named files.
-- - Runtime/Worker: `consume_request_artifact` and `poll_once` of src/shared/runtime/worker.py over that
--   queue. What a concrete worker does, and the other files, are actions on a world of its own.
-- - Monitoring/Contracts, Monitoring/Lifecycle, Monitoring/Records and Monitoring/WatchLoop:
--   contracts.py, lifecycle.py (`IntentLifecycleManager`) and watch_loop.py
--   (`AutonomousWatchLoop.run_once`) of src/control_runtime/monitoring. The loop calls the orchestrator, which is a parameter there.
-- - Execution/Gateway, Execution/Dispatch, Execution/Batch and Execution/Controller: policy_batch_executor.py
--   (`_dispatch_single_policy`, `run`) and execution_controller.py (`execute`) of
--   src/control_runtime/execution. The gateway, the evaluator and the policy store are parameters.
-- - Execution/Compiler and Execution/Plan: policy_compiler.py (`PolicyCompiler.compile_plan`) of the
--   same directory, on an output that is JSON already. The pydantic models are parameters.
-- - Execution/Measurement and Execution/Assurance: assurance_evaluator.py (`AssuranceEvaluator.evaluate`)
--   of the same directory. Floating-point arithmetic and the loading of a snapshot are parameters.
-- - Orchestrator/Contracts, Transitions, RoundStates and Main: loop_state.py,
--   round_transitions.py and main_control_orchestrator.py (`_plan_round`, `run`) of
--   src/control_runtime/orchestrators. The agents, the storage and an executed round are parameters.
-- - Environment/Draft and Environment/Draft/Assembly: `ScenarioDraftStore` of
--   src/environment/draft.py, its dictionaries as lists of items.
-- - Context/Messages, Policy, History, Sections, Budget and Cache: context_policy.py (`ContextPolicy`),
--   token_budget.py (`TokenBudget`) and cache.py (`RuntimeCache`) of src/shared/runtime/core, with the
--   messages of a conversation. The token counter and Python's `==` on scalars are parameters.
-- - ToolLoop/Thinking, Parse, Loop, Calls and Invoke: src/shared/runtime/execution/structured_tool_loop.py
--   (`StructuredToolLoop`): reading the model's text, the checks of the constructor, the tool calls of
--   one message, and `invoke`. The language model, the tools, the response model and the JSON code
--   are parameters; the loop compacts its conversation by Context/History and counts in Context/Budget.
--
-- Prelude holds Python's tests, lists and texts; Exec the monad of code that reads and writes a
-- state and may raise, with the rules for what such code ensures. Tests run the model on concrete
-- inputs.
--
-- Bounds and fuel. Times are whole seconds, and counters are natural numbers, as Python's integers
-- do not overflow. The loop of a stage runs over the attempts that are left, and the loop of a session over the
-- rounds that are left, which is what their `range` is, so no fuel is added. The iterations of the
-- tool loop are counted down in the same way. The binary search for the end of a text takes one
-- round more than the text is long, and each round narrows what is left. The digits of a decimal or
-- hexadecimal number take the number itself as fuel, which is at least as many.
--
-- Not modelled: the language models and their prompts, the optimizer, network and database clients,
-- logging, timings, JSON text, and threads (a table or a queue shared by processes is a sequence of
-- transactions, in any order). A dictionary is a record of the keys that the code reads, or a list
-- of its items where any key may stand. `lower`
-- treats ASCII letters only. Of the tool loop, `_coerce_message` and
-- `_sanitize_ai_message_for_history` are left out, of the budget `pressure`, a float, and of
-- the compiler `json_friendly`, `strip_rule_prefix` and `extract_flow_id`.
pub mod Prelude
pub mod Exec
pub mod Agents
pub mod Runtime
pub mod Monitoring
pub mod Execution
pub mod Orchestrator
pub mod Environment
pub mod Context
pub mod ToolLoop
