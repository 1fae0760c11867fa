-- ===== src/Context/History.antt =====
-- src/shared/runtime/core/context_policy.py: `compact_tool_history`, `_tool_history_keep_indexes` and
-- `_tool_history_keep_count`.
pub mod Positions
pub mod Newest
use multiagents.Prelude.{
  ℕ, zero, suc, none, some, List, [], ◌∷◌, ◌++◌, last_n, any, lookup, or_else, String, str_eq, ◌==◌,
  if◌then◌else◌,
}
use multiagents.Context.Messages.{ToolMessage, Message, tool, system, human, ai}
use multiagents.Context.Policy.{ContextPolicy}

unfoldable pub tool_history_keep_count : ContextPolicy → String → ℕ
unfolding lookup
tool_history_keep_count p name =
    or_else (or_else p.recent_tool_results p.recent_tool_results_per_tool)
      (lookup name p.tool_history_keep_limits)

-- `str(message.name or "unknown")`
unfoldable pub tool_name : ToolMessage → String
tool_name m = elim m.name [
  | none ↦ "unknown"
  | some name ↦ (if str_eq name "" then "unknown" else name)
]

-- `indexes_by_tool.setdefault(name, []).append(index)`
unfoldable pub append_index : String → ℕ → List (String × List ℕ) → List (String × List ℕ)
append_index name i [] = (name, i ∷ []) ∷ []
append_index name i ((k, indexes) ∷ rest) =
    let later = append_index name i rest in
    if str_eq k name then (k, indexes ++ i ∷ []) ∷ rest else (k, indexes) ∷ later

unfoldable pub index_message : ℕ → Message → List (String × List ℕ) → List (String × List ℕ)
unfolding append_index tool_name
index_message i (tool m) by_tool = append_index (tool_name m) i by_tool
index_message i (system s) by_tool = by_tool
index_message i (human s) by_tool = by_tool
index_message i (ai m) by_tool = by_tool

-- the loop that fills `indexes_by_tool`, from an index
unfoldable pub indexes_by_tool : ℕ → List Message → List (String × List ℕ) → List (String × List ℕ)
unfolding index_message
indexes_by_tool i [] by_tool = by_tool
indexes_by_tool i (m ∷ messages) by_tool =
    indexes_by_tool (suc i) messages (index_message i m by_tool)

-- `indexes[-keep_count:]`, if that is positive
unfoldable pub newest_indexes : ℕ → List ℕ → List ℕ
newest_indexes zero indexes = []
newest_indexes (suc n) indexes = last_n (suc n) indexes

unfoldable pub keep_from : ContextPolicy → List (String × List ℕ) → List ℕ
unfolding tool_history_keep_count newest_indexes
keep_from p [] = []
keep_from p ((name, indexes) ∷ rest) =
    newest_indexes (tool_history_keep_count p name) indexes ++ keep_from p rest

unfoldable pub tool_history_keep_indexes : ContextPolicy → List Message → List ℕ
unfolding keep_from indexes_by_tool
tool_history_keep_indexes p messages = keep_from p (indexes_by_tool 0 messages [])

abbrev pub omitted_note : String
omitted_note =
    "{\"status\":\"compacted\",\"note\":\"older tool result omitted; call the tool again only if the missing detail is required\"}"

-- a message that is not kept; only tool messages are replaced
unfoldable pub omit : Message → Message
omit (tool m) = tool (record m { content = omitted_note })
omit (system s) = system s
omit (human s) = human s
omit (ai m) = ai m

unfoldable pub compact_from : List ℕ → ℕ → List Message → List Message
unfolding omit
compact_from keep i [] = []
compact_from keep i (m ∷ messages) =
    (if any (λ j. i == j) keep then m else omit m) ∷ compact_from keep (suc i) messages

unfoldable pub compact_tool_history : ContextPolicy → List Message → List Message
unfolding tool_history_keep_indexes compact_from
compact_tool_history p messages = compact_from (tool_history_keep_indexes p messages) 0 messages
