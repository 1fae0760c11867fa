-- ===== src/ToolLoop/Loop.antt =====
-- src/shared/runtime/execution/structured_tool_loop.py: what `StructuredToolLoop` is made of, its
-- constructor's checks, and what it reads from a message of the model. The language model, the tools,
-- the serialiser and the token counter are arguments; what they do to the world is part of the state.
use multiagents.Prelude.{
  ℕ, Bool, false, not, ◌||◌, Option, none, some, List, [], ◌∷◌, any, String, str_eq, is_empty,
  strip, lower, texts, lookup, ltb, if◌then◌else◌,
}
use multiagents.Exec.{Result, ok, err, Exec}
use multiagents.Context.Messages.{
  Json, str, dict, JsonList, no_items, item, JsonDict, dict_get, or_text, Content, text, blocks,
  ToolCall, call, RawArgs, dict_args, text_args, other_args, InvalidCall, invalid_not_dict,
  invalid_call, AiMessage, Message,
}
use multiagents.Context.Policy.{ContextPolicy}
use multiagents.Context.Budget.{TokenBudget}
use multiagents.ToolLoop.Thinking.{strip_thinking}
use multiagents.ToolLoop.Parse.{Raised, value_error}

-- What the constructor is given, and what it keeps.
pub record Settings : Type 0 where
  pub system_prompt : String
  pub max_iterations : ℕ
  pub tool_error_mode : String
  pub max_calls_per_tool : Option ℕ
  pub tool_call_limits : List (String × ℕ)
  pub forbid_duplicate_tool_calls : Bool
  pub context_policy : ContextPolicy

abbrev below_one : Option ℕ → Bool
below_one none = false
below_one (some n) = ltb n 1

-- `str(tool_error_mode or "raise").strip().lower()`
unfoldable pub error_mode : Settings → String
unfolding lower strip
error_mode s = lower (strip (if is_empty s.tool_error_mode then "raise" else s.tool_error_mode))

-- names in order, as the constructor meets them
unfoldable pub check_names : List String → List String → Result Raised Unit
unfolding strip texts
check_names [] seen = ok tt
check_names (raw ∷ rest) seen =
    let name = strip raw in
    let later = check_names rest (name ∷ seen) in
    if is_empty name
    then err (value_error ("tool name is required" ∷ []))
    else if any (λ n. str_eq name n) seen
    then err (value_error ("duplicate tool name: " ∷ name ∷ []))
    else later

unfoldable pub configure : Settings → List String → Result Raised Unit
unfolding error_mode texts check_names
configure s names =
    if not (str_eq (error_mode s) "raise" || str_eq (error_mode s) "return")
    then err (value_error ("tool_error_mode must be either 'raise' or 'return'" ∷ []))
    else if below_one s.max_calls_per_tool
    then err (value_error ("max_calls_per_tool must be >= 1" ∷ []))
    else if any (λ l. ltb l.1 1) s.tool_call_limits
    then err (value_error ("tool_call_limits values must be >= 1" ∷ []))
    else check_names names []

unfoldable pub returns_errors : Settings → Bool
unfolding error_mode
returns_errors s = str_eq (error_mode s) "return"

-- `None` is no limit
unfoldable pub max_calls_for_tool : Settings → String → Option ℕ
unfolding lookup
max_calls_for_tool s name = elim (lookup name s.tool_call_limits) [
  | none ↦ s.max_calls_per_tool
  | some limit ↦ some limit
]

-- What a tool's function returns; a value that cannot be serialised raises the error that comes with it.
pub data ToolOutput : Type 0 where
  message_output : Content → ToolOutput
  text_output : String → ToolOutput
  json_output : Json → ToolOutput
  unserialisable : Raised → ToolOutput

-- A tool, by its name: the function takes the call's id, its arguments and the world.
pub record Tool (W : Type 0) : Type 0 where
  pub name : String
  pub func : Option (String → JsonDict → Exec W Raised ToolOutput)

-- What the language model returns, by its type's name if it is no `AIMessage`.
pub data LlmOutput : Type 0 where
  ai_output : AiMessage → LlmOutput
  other_output : String → LlmOutput

-- A `TokenCounter`, of tiktoken.
pub record TokenCounter : Type 0 where
  pub count : String → ℕ
  pub count_messages : List Message → ℕ

-- Code that the loop calls: the language model, `json.dumps` without and with `sort_keys`, `parse_partial_json` (`none` if it raises
-- or gives no dict), the `repr` of the calls that are not recovered, `str` of a block, and the token
-- counter of the loop or else of the context.
pub record Services (W : Type 0) : Type 0 where
  pub llm : List Message → Exec W Raised LlmOutput
  pub tools : List (Tool W)
  pub dumps : Json → String
  pub dumps_sorted : Json → String
  pub parse_partial : String → Option JsonDict
  pub show_calls : List InvalidCall → String
  pub show_json : Json → String
  pub token_counter : Option TokenCounter

pub record LoopState (W : Type 0) : Type 0 where
  pub conversation : List Message
  pub output_messages : List Message
  pub tool_call_counts : List (String × ℕ)
  pub seen_tool_calls : List (String × String)
  pub token_budget : Option TokenBudget
  pub world : W

pub record ToolLoopExecutionError : Type 0 where
  pub message : String
  pub output_messages : List Message
  pub failed_tool_call : Option ToolCall

-- What is raised inside the `try` of `invoke`.
pub data LoopError : Type 0 where
  execution_error : ToolLoopExecutionError → LoopError
  other_error : Raised → LoopError

abbrev pub type_error : List String → Raised
type_error parts = record { error_type = "TypeError"; message = texts parts }

-- One entry of `invalid_tool_calls`: a call, or `none` if it cannot be recovered.
unfoldable pub recover_args : (String → Option JsonDict) → RawArgs → Option JsonDict
unfolding strip strip_thinking
recover_args parse (dict_args d) = some d
recover_args parse (text_args s) =
    if is_empty (strip s)
    then none
    else if is_empty (strip_thinking s)
    then none
    else parse (strip_thinking s)
recover_args parse other_args = none

unfoldable pub recover_call : (String → Option JsonDict) → InvalidCall → Option ToolCall
unfolding recover_args strip
recover_call parse invalid_not_dict = none
recover_call parse (invalid_call id name args) =
    if is_empty (strip name) then none else (elim (recover_args parse args) [
      | none ↦ none
      | some d ↦ some (call id (strip name) (some d))
    ])

abbrev sort_recovered :
    InvalidCall
    → Option ToolCall
    → List ToolCall × List InvalidCall
    → List ToolCall × List InvalidCall
sort_recovered raw none (recovered, unrecovered) = (recovered, raw ∷ unrecovered)
sort_recovered raw (some c) (recovered, unrecovered) = (c ∷ recovered, unrecovered)

unfoldable pub recover_invalid_tool_calls :
    (String → Option JsonDict) → List InvalidCall → List ToolCall × List InvalidCall
unfolding recover_call
recover_invalid_tool_calls parse [] = ([], [])
recover_invalid_tool_calls parse (c ∷ rest) =
    sort_recovered c (recover_call parse c) (recover_invalid_tool_calls parse rest)

abbrev is_text_type : Option Json → Bool
is_text_type (some (str t)) = str_eq t "text" || str_eq t "output_text"
is_text_type _ = false

abbrev block_part : (Json → String) → Json → String
block_part show (str s) = s
block_part show (dict d) =
    if is_text_type (dict_get "type" d) then or_text show (dict_get "text" d) else ""
block_part show other = show other

unfoldable pub block_parts : (Json → String) → JsonList → List String
unfolding or_text dict_get
block_parts show no_items = []
block_parts show (item b rest) = block_part show b ∷ block_parts show rest

unfoldable pub assistant_text_content : (Json → String) → AiMessage → String
unfolding block_parts texts
assistant_text_content show m = elim m.content [
  | text s ↦ s
  | blocks l ↦ texts (block_parts show l)
]
