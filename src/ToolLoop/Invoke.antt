-- ===== src/ToolLoop/Invoke.antt =====
-- src/shared/runtime/execution/structured_tool_loop.py: `invoke`, on messages that are coerced already.
pub mod Rounds
pub mod Ends
pub mod Spent
use multiagents.Prelude.{
  ℕ, zero, suc, ◌+◌, ◌/◌, max, Option, none, some, List, [], ◌∷◌, ◌++◌, String, is_empty, strip,
  texts, decimal, if◌then◌else◌,
}
use multiagents.Exec.{Result, ok, err, Exec, pure, ◌>>=◌, ◌>>◌}
use multiagents.Context.Messages.{
  text, blocks, ToolCall, InvalidCall, AiMessage, Message, system, human, ai, tool,
}
use multiagents.Context.Policy.{len}
use multiagents.Context.History.{compact_tool_history}
use multiagents.Context.Budget.{TokenBudget, record_tokens}
use multiagents.ToolLoop.Parse.{
  Raised, Decoder, ResponseModel, value_error, runtime_error, parse_structured_response,
}
use multiagents.ToolLoop.Loop.{
  Settings, LlmOutput, ai_output, other_output, Services, LoopState, ToolLoopExecutionError,
  LoopError, execution_error, other_error, type_error, recover_invalid_tool_calls,
  assistant_text_content,
}
use multiagents.ToolLoop.Calls.{appended, run_calls}

module _ {M S : Type 0} where
  unfoldable pub answer_with : Result Raised M → Exec S LoopError (Option M)
  answer_with (ok m) s = (ok (some m), s)
  answer_with (err e) s = (err (other_error e), s)

  -- a response ends the loop
  unfoldable pub go_on : Exec S LoopError (Option M) → Option M → Exec S LoopError (Option M)
  go_on next (some m) s = (ok (some m), s)
  go_on next none s = next s

module _ {W : Type 0} (settings : Settings) (services : Services W) where
  -- `_estimate_message_tokens` without a counter
  unfoldable pub estimate : Message → ℕ
  unfolding len
  estimate (system s) = len s / 4
  estimate (human s) = len s / 4
  estimate (tool m) = len m.content / 4
  estimate (ai m) = elim m.content [ text s ↦ len s / 4 | blocks l ↦ 0 ]

  unfoldable pub estimate_all : List Message → ℕ
  unfolding estimate
  estimate_all [] = 0
  estimate_all (m ∷ messages) = estimate m + estimate_all messages

  unfoldable pub visible_tokens : List Message → ℕ
  unfolding estimate_all
  visible_tokens messages = elim services.token_counter [
    | none ↦ estimate_all messages
    | some counter ↦ counter.count_messages messages
  ]

  -- the beginning of an iteration: older results are compacted and the tokens recorded
  unfoldable pub prepare : String → LoopState W → LoopState W
  unfolding compact_tool_history visible_tokens record_tokens
  prepare agent s =
      let conversation = compact_tool_history settings.context_policy s.conversation in
      record s {
        conversation = conversation;
        token_budget = elim s.token_budget [
          | none ↦ none
          | some b ↦ some (record_tokens agent (visible_tokens conversation) b)
        ];
      }

  -- `self.llm.invoke(conversation)`, with what is raised for no `AIMessage`
  unfoldable pub answered : Result Raised LlmOutput → Exec (LoopState W) LoopError AiMessage
  unfolding appended texts
  answered (ok (ai_output m)) s = (ok m, appended (ai m) s)
  answered (ok (other_output type_name)) s =
      (err (other_error (type_error ("Expected AIMessage from model, got " ∷ type_name ∷ []))), s)
  answered (err e) s = (err (other_error e), s)

  unfoldable pub ask : Exec (LoopState W) LoopError AiMessage
  unfolding answered
  ask s =
      let (r, world) = services.llm s.conversation s.world in
      answered r (record s { world = world })

  -- `tool_calls`, with those that are recovered from `invalid_tool_calls`
  unfoldable pub calls_of : AiMessage → Result Raised (List ToolCall)
  unfolding recover_invalid_tool_calls texts
  calls_of m =
      let (recovered, unrecovered) =
        recover_invalid_tool_calls services.parse_partial m.invalid_tool_calls in
      elim unrecovered [
        | [] ↦ ok (m.tool_calls ++ recovered)
        | c ∷ rest ↦ err (
            runtime_error
              ("Model produced invalid tool calls: " ∷ services.show_calls (c ∷ rest) ∷ []))
      ]

module _ {W M : Type 0} (settings : Settings) (services : Services W) (model : ResponseModel M)
    (decoder : Decoder) where
  -- the answer to a message without tool calls
  unfoldable pub final_response : AiMessage → Result Raised M
  unfolding assistant_text_content strip parse_structured_response texts
  final_response m =
      let answer = strip (assistant_text_content services.show_json m) in
      if is_empty answer
      then err (runtime_error ("Model returned empty assistant content without tool calls" ∷ []))
      else parse_structured_response model decoder answer

  -- the tool calls, after which the loop goes on, or the final answer
  unfoldable pub handle_calls :
      AiMessage → Result Raised (List ToolCall) → Exec (LoopState W) LoopError (Option M)
  unfolding run_calls ◌>>◌ final_response answer_with
  handle_calls m (err e) s = (err (other_error e), s)
  handle_calls m (ok (c ∷ calls)) s = (run_calls settings services (c ∷ calls) >> pure none) s
  handle_calls m (ok []) s = answer_with (final_response m) s

  -- one iteration
  unfoldable pub iteration : String → Exec (LoopState W) LoopError (Option M)
  unfolding prepare ask ◌>>=◌ calls_of handle_calls
  iteration agent s =
      (ask settings services >>= λ m. handle_calls m (calls_of settings services m))
        (prepare settings services agent s)

  -- `for _ in range(n)`; `none` if it ends without a response
  unfoldable pub iterations : String → ℕ → Exec (LoopState W) LoopError (Option M)
  unfolding iteration ◌>>=◌ go_on
  iterations agent zero = pure none
  iterations agent (suc n) = iteration agent >>= go_on (iterations agent n)

  abbrev wrapped_error : LoopError → LoopState W → ToolLoopExecutionError
  wrapped_error (execution_error e) s = e
  wrapped_error (other_error e) s = record {
    message = e.message;
    output_messages = s.output_messages;
    failed_tool_call = none;
  }

  -- every exception leaves as a `ToolLoopExecutionError`, and so does the end of the iterations
  unfoldable pub finish : Result LoopError (Option M) → Exec (LoopState W) ToolLoopExecutionError M
  unfolding texts decimal
  finish (ok (some m)) s = (ok m, s)
  finish (err e) s = (err (wrapped_error e s), s)
  finish (ok none) s = (
    err (record {
      message = texts (
          "Model exceeded max iterations ("
          ∷ decimal settings.max_iterations
          ∷ ") without returning final JSON"
          ∷ []);
      output_messages = s.output_messages;
      failed_tool_call = none;
    }),
    s,
  )

  -- the budget leaves room for the system prompt
  unfoldable pub reserve_prompt : Option TokenBudget → Option TokenBudget
  unfolding strip
  reserve_prompt none = none
  reserve_prompt (some b) = elim services.token_counter [
    | none ↦ some b
    | some counter ↦ some (record b {
      system_prompt_tokens =
          max b.system_prompt_tokens (counter.count (strip settings.system_prompt));
    })
  ]

  unfoldable pub start : List Message → Option TokenBudget → W → LoopState W
  unfolding reserve_prompt strip
  start messages budget world = record {
    conversation = system (strip settings.system_prompt) ∷ messages;
    output_messages = [];
    tool_call_counts = [];
    seen_tool_calls = [];
    token_budget = reserve_prompt budget;
    world = world;
  }

  -- the loop from a list of messages that is not empty
  unfoldable pub run : String → LoopState W → Result ToolLoopExecutionError M × LoopState W
  unfolding iterations finish
  run agent s = let (r, s') = iterations agent settings.max_iterations s in finish r s'

-- What leaves `invoke`: the refusal of a payload without messages, or the error of the loop.
pub data InvokeError : Type 0 where
  rejected : Raised → InvokeError
  failed : ToolLoopExecutionError → InvokeError

abbrev failed_or : {M S : Type 0} → Result ToolLoopExecutionError M × S → Result InvokeError M × S
failed_or (ok m, s) = (ok m, s)
failed_or (err e, s) = (err (failed e), s)

module _ {W M : Type 0} (settings : Settings) (services : Services W) (model : ResponseModel M)
    (decoder : Decoder) where
  unfoldable pub invoke :
      String → List Message → Option TokenBudget → W → Result InvokeError M × LoopState W
  unfolding start run texts
  invoke agent [] budget world = (
    err (rejected (value_error ("structured tool loop requires a non-empty messages list" ∷ []))),
    start settings services model decoder [] budget world,
  )
  invoke agent (m ∷ messages) budget world = failed_or (
      run settings services model decoder agent
        (start settings services model decoder (m ∷ messages) budget world))
