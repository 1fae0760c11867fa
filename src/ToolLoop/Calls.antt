-- ===== src/ToolLoop/Calls.antt =====
-- src/shared/runtime/execution/structured_tool_loop.py: `_invoke_tool` and the loop over the tool
-- calls of one message.
pub mod Limits
pub mod Kept
pub mod Told
use multiagents.Prelude.{
  ℕ, zero, suc, ◌+◌, ◌/◌, max, Bool, true, false, not, ◌&&◌, ◌||◌, Option, none, some, List, [],
  ◌∷◌, ◌++◌, map, any, String, str_eq, is_empty, strip, texts, decimal, lookup, assign, or_else,
  ltb, if◌then◌else◌,
}
use multiagents.Exec.{Result, ok, err, Exec, pure, raise, lift, resume, try_then, ◌>>=◌, ◌>>◌}
use multiagents.Context.Messages.{
  Json, list, dict, str, entry, no_entries, JsonDict, Content, text, blocks, ToolCall,
  call_not_dict, call, InvalidCall, AiMessage, ToolMessage, Message, system, human, ai, tool,
}
use multiagents.Context.Policy.{ContextPolicy, compact_tool_result, len}
use multiagents.Context.History.{compact_tool_history}
use multiagents.Context.Budget.{TokenBudget, record_tokens}
use multiagents.ToolLoop.Parse.{
  Raised, Decoder, ResponseModel, value_error, runtime_error, parse_structured_response,
}
use multiagents.ToolLoop.Loop.{
  Settings, returns_errors, max_calls_for_tool, ToolOutput, message_output, text_output,
  json_output, unserialisable, Tool, LlmOutput, ai_output, other_output, Services, LoopState,
  ToolLoopExecutionError, LoopError, execution_error, other_error, type_error,
  recover_invalid_tool_calls, assistant_text_content,
}

-- A call that has passed the checks: its name, id, arguments and signature.
pub record Checked : Type 0 where
  pub name : String
  pub id : String
  pub args : JsonDict
  pub signature : String × String

abbrev pub same_signature : String × String → String × String → Bool
same_signature (n, a) (m, b) = str_eq n m && str_eq a b

abbrev pub over_limit : ℕ → Option ℕ → Bool
over_limit n none = false
over_limit n (some limit) = ltb limit n

abbrev limit_text : Option ℕ → String
limit_text none = "None"
limit_text (some limit) = decimal limit

module _ {W : Type 0} where
  unfoldable pub next_count : String → LoopState W → ℕ
  unfolding lookup
  next_count name s = or_else 0 (lookup name s.tool_call_counts) + 1

  unfoldable pub is_seen : String × String → LoopState W → Bool
  is_seen signature s = any (same_signature signature) s.seen_tool_calls

  -- both lists of messages grow together
  unfoldable pub appended : Message → LoopState W → LoopState W
  appended m s = record s {
    output_messages = s.output_messages ++ m ∷ [];
    conversation = s.conversation ++ m ∷ [];
  }

  -- what is written when a tool has returned
  unfoldable pub counted : Checked → ToolMessage → LoopState W → LoopState W
  unfolding next_count is_seen appended assign
  counted c m s = appended (tool m) (record s {
    tool_call_counts = assign c.name (next_count c.name s) s.tool_call_counts;
    seen_tool_calls =
        if is_seen c.signature s then s.seen_tool_calls else c.signature ∷ s.seen_tool_calls;
  })

module _ (dumps : Json → String) where
  abbrev content_text : Content → String
  content_text (text s) = s
  content_text (blocks l) = dumps (list l)

  unfoldable pub tool_result_to_content : ToolOutput → Result Raised String
  tool_result_to_content (message_output c) = ok (content_text c)
  tool_result_to_content (text_output s) = ok s
  tool_result_to_content (json_output v) = ok (dumps v)
  tool_result_to_content (unserialisable e) = err e

  unfoldable pub build_tool_error_message : Checked → Raised → ToolMessage
  build_tool_error_message c e = record {
    content = dumps (
        dict (
          entry "status" (str "error") (
            entry "tool" (str c.name)
              (entry "error_type" (str e.error_type) (entry "error" (str e.message) no_entries)))));
    tool_call_id = c.id;
    name = some c.name;
    status = "error";
  }

unfoldable pub find_tool : {W : Type 0} → String → List (Tool W) → Option (Tool W)
unfolding strip
find_tool name [] = none
find_tool name (t ∷ tools) =
    let found = find_tool name tools in if str_eq (strip t.name) name then some t else found

module _ {W : Type 0} (settings : Settings) (services : Services W) where
  unfoldable pub success_message : Checked → ToolOutput → Exec W Raised ToolMessage
  unfolding tool_result_to_content compact_tool_result ◌>>=◌
  success_message c output = lift (tool_result_to_content services.dumps output) >>= λ content.
      pure (record {
        content = compact_tool_result settings.context_policy c.name content;
        tool_call_id = c.id;
        name = some c.name;
        status = "success";
      })

  abbrev pub run_tool : Checked → Option (Tool W) → Exec W Raised ToolMessage
  run_tool c none = raise (runtime_error ("Model requested unknown tool: " ∷ c.name ∷ []))
  run_tool c (some t) = elim t.func [
    | none ↦ raise (runtime_error ("Tool " ∷ c.name ∷ " does not expose a callable func" ∷ []))
    | some f ↦ f c.id c.args >>= success_message c
  ]

  unfoldable pub invoke_tool : Checked → Exec W Raised ToolMessage
  unfolding find_tool success_message texts ◌>>=◌
  invoke_tool c = run_tool c (find_tool c.name services.tools)

  -- the checks of a call with a name and arguments, against what was called before
  unfoldable pub admit : Checked → LoopState W → Result Raised Checked
  unfolding is_seen next_count max_calls_for_tool texts decimal
  admit c s =
      let limit = max_calls_for_tool settings c.name in
      if settings.forbid_duplicate_tool_calls && is_seen c.signature s
      then err (
          runtime_error
            ("Duplicate tool call forbidden: " ∷ c.name ∷ "(" ∷ c.signature.1 ∷ ")" ∷ []))
      else if over_limit (next_count c.name s) limit
      then err (
          runtime_error
            ("Tool " ∷ c.name ∷ " exceeded max_calls_per_tool=" ∷ limit_text limit ∷ []))
      else ok c

  unfoldable pub check_call : ToolCall → LoopState W → Result Raised Checked
  unfolding admit strip texts
  check_call call_not_dict s = err (type_error ("tool_call must be a dict" ∷ []))
  check_call (call id raw args) s =
      let name = strip raw in
      if is_empty name
      then err (runtime_error ("tool_call is missing tool name" ∷ []))
      else elim args [
        | none ↦ err (runtime_error ("tool_call args for " ∷ name ∷ " must be an object" ∷ []))
        | some d ↦
            admit
              (record {
                name = name;
                id = id;
                args = d;
                signature = (name, services.dumps_sorted (dict d));
              })
              s
      ]

  -- after the tool: its result, its error as a message, or the end of the loop
  unfoldable pub after_tool :
      ToolCall → Checked → Result Raised ToolMessage → Exec (LoopState W) LoopError Unit
  unfolding counted appended build_tool_error_message returns_errors texts
  after_tool tc c (ok m) s = (ok tt, counted c m s)
  after_tool tc c (err e) s =
      if returns_errors settings
      then (ok tt, appended (tool (build_tool_error_message services.dumps c e)) s)
      else (
        err (
            execution_error (record {
              message = texts ("Tool " ∷ c.name ∷ " failed: " ∷ e.message ∷ []);
              output_messages = s.output_messages;
              failed_tool_call = some tc;
            })),
        s,
      )

  unfoldable pub run_checked : ToolCall → Result Raised Checked → Exec (LoopState W) LoopError Unit
  unfolding invoke_tool after_tool
  run_checked tc (err e) s = (err (other_error e), s)
  run_checked tc (ok c) s =
      let (r, world) = invoke_tool c s.world in after_tool tc c r (record s { world = world })

  unfoldable pub run_call : ToolCall → Exec (LoopState W) LoopError Unit
  unfolding check_call run_checked
  run_call tc s = run_checked tc (check_call tc s) s

  unfoldable pub run_calls : List ToolCall → Exec (LoopState W) LoopError Unit
  unfolding run_call ◌>>◌
  run_calls [] = pure tt
  run_calls (tc ∷ calls) = run_call tc >> run_calls calls
