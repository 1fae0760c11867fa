-- ===== src/ToolLoop/Tests.antt =====
-- Runs of the loop with a scripted model, and the theorems at concrete inputs.
use multiagents.Prelude.{
  ℕ, zero, suc, ◌+◌, ◌≤◌, arith, ◌≡◌, refl, true, none, some, List, [], ◌∷◌, String, str_eq,
  if◌then◌else◌,
}
use multiagents.Exec.{Result, ok, err}
use multiagents.Context.Messages.{
  Json, str, dict, no_entries, entry, text, call, AiMessage, human, Message,
}
use multiagents.Context.Policy.{ContextPolicy}
use multiagents.ToolLoop.Parse.{
  Raised, Decoder, ResponseModel, parse_structured_response, value_error,
}
use multiagents.ToolLoop.Parse.Validated.{IsReadFrom, parse_structured_response-IsReadFrom}
use multiagents.ToolLoop.Loop.{
  Settings, configure, text_output, ai_output, Services, LoopState, ToolLoopExecutionError,
}
use multiagents.ToolLoop.Invoke.{start, run}
use multiagents.ToolLoop.Invoke.Spent.{IsSpent, IsEnd, run-IsSpent}

abbrev refused : Raised
refused = record { error_type = "ValidationError"; message = "no" }

-- a response model whose values are texts: it takes the field `answer`
abbrev answer_of : Json → Result Raised String
answer_of (dict (entry k (str s) no_entries)) = if str_eq k "answer" then ok s else err refused
answer_of other = err refused

abbrev model : ResponseModel String
model = record {
  name = "Answer";
  model_validate = answer_of;
  model_validate_json = λ s. err refused;
}

abbrev wrapped_answer : Json
wrapped_answer = dict (entry "result" (dict (entry "answer" (str "yes") no_entries)) no_entries)

-- a decoder that knows one text
abbrev decoder : Decoder
decoder = record {
  loads = λ s. err refused;
  raw_decode = λ s. if str_eq s "{..}" then ok wrapped_answer else err refused;
}

parse_in_prose : parse_structured_response model decoder " So: {..}" ≡ ok "yes"
unfolding parse_structured_response
parse_in_prose = refl

parse_structured_response-IsReadFrom_example : IsReadFrom model decoder " So: {..}" "yes"
parse_structured_response-IsReadFrom_example =
    parse_structured_response-IsReadFrom model decoder " So: {..}" "yes" parse_in_prose

abbrev policy : ContextPolicy
policy = record {
  default_tool_result_chars = 8000;
  tool_result_char_limits = [];
  recent_tool_results = 2;
  recent_tool_results_per_tool = none;
  tool_history_keep_limits = [];
}

abbrev settings : Settings
settings = record {
  system_prompt = "Answer.";
  max_iterations = 4;
  tool_error_mode = "return";
  max_calls_per_tool = some 2;
  tool_call_limits = [];
  forbid_duplicate_tool_calls = true;
  context_policy = policy;
}

abbrev search : String → AiMessage
search query = record {
  content = text "";
  tool_calls = call "1" "search" (some (entry "q" (str query) no_entries)) ∷ [];
  invalid_tool_calls = [];
}

abbrev answer : AiMessage
answer = record { content = text "{..}"; tool_calls = []; invalid_tool_calls = [] }

-- the world counts the calls of the model, which searches for the texts of a list and then answers
abbrev scripted : List String → ℕ → AiMessage
scripted [] n = answer
scripted (q ∷ queries) zero = search q
scripted (q ∷ queries) (suc n) = scripted queries n

-- the query, as its serialisation
abbrev query_of : Json → String
query_of (dict (entry k (str s) no_entries)) = s
query_of other = ""

abbrev services : List String → Services ℕ
services queries = record {
  llm = λ messages n. (ok (ai_output (scripted queries n)), suc n);
  tools = record { name = "search"; func = some (λ id args n. (ok (text_output "found"), n)) } ∷ [];
  dumps = query_of;
  dumps_sorted = query_of;
  parse_partial = λ s. none;
  show_calls = λ calls. "";
  show_json = λ v. "";
  token_counter = none;
}

abbrev question : List Message
question = human "?" ∷ []

abbrev outcome : List String → Result ToolLoopExecutionError String × LoopState ℕ
outcome queries =
    run settings (services queries) model decoder "default"
      (start settings (services queries) model decoder question none 0)

abbrev message_of : Result ToolLoopExecutionError String → String
message_of (ok v) = v
message_of (err e) = e.message

two_searches : (outcome ("a" ∷ "b" ∷ [])).0 ≡ ok "yes"
unfolding run start
two_searches = refl

no_third_search :
    message_of (outcome ("a" ∷ "b" ∷ "c" ∷ [])).0 ≡ "Tool search exceeded max_calls_per_tool=2"
unfolding run start
no_third_search = refl

no_duplicate : message_of (outcome ("a" ∷ "a" ∷ [])).0 ≡ "Duplicate tool call forbidden: search(a)"
unfolding run start
no_duplicate = refl

no_limit_below_one :
    configure (record settings { max_calls_per_tool = some 0 }) []
    ≡ err (value_error ("max_calls_per_tool must be >= 1" ∷ []))
unfolding configure
no_limit_below_one = refl

-- the world counts the requests, and the tool leaves it
run-IsSpent_example :
    IsSpent settings (services ("a" ∷ "b" ∷ [])) model decoder (outcome ("a" ∷ "b" ∷ [])).1
    × ((outcome ("a" ∷ "b" ∷ [])).1.world ≤ 0 + settings.max_iterations)
    × IsEnd settings (services ("a" ∷ "b" ∷ [])) model decoder (outcome ("a" ∷ "b" ∷ []))
run-IsSpent_example =
    run-IsSpent settings (services ("a" ∷ "b" ∷ [])) model decoder (λ n. n)
      ((λ id args n. refl), tt) (λ messages n. omega arith) "default" question none 0
