-- ===== src/ToolLoop/Thinking.antt =====
-- src/shared/runtime/execution/structured_tool_loop.py: `_strip_thinking`, `_strip_code_fence` and
-- `_wrapper_keys_for_model`, with the regular expressions and `splitlines` that they use.
use Prim.Native.Char.{Char, code}
use Prim.Native.String.{◌++◌}
use multiagents.Prelude.{
  starts_with, ℕ, zero, suc, ◌+◌, ◌-◌, Bool, ◌&&◌, ◌||◌, Option, none, some, List, [], ◌∷◌, String,
  str_eq, strip, lstrip, lower, join, leb, ◌==◌, if◌then◌else◌, ◌≡◌, refl,
}
use multiagents.Context.Policy.{len}

-- `re.IGNORECASE`: what a character is compared as, with the two that fold to `i` and the one to `k`
folded : ℕ → ℕ
folded c =
    if leb 65 c && leb c 90
    then c + 32
    else if c == 8490
    then b'k'
    else if c == 304 || c == 305
    then b'i'
    else c

-- what stands behind a tag, if the text begins with it
after_tag : String → String → Option String
unfolding folded
after_tag String.[] s = some s
after_tag (String.◌∷◌ t tag) String.[] = none
after_tag (String.◌∷◌ t tag) (String.◌∷◌ c s) =
    let rest = after_tag tag s in if folded (code c) == code t then rest else none

first_of : Option String → Option String → Option String
first_of none later = later
first_of (some s) later = some s

-- `.*?</think>`: what stands behind the first closing tag
after_close : String → Option String
unfolding after_tag first_of
after_close String.[] = none
after_close (String.◌∷◌ c s) = first_of (after_tag "</think>" (String.◌∷◌ c s)) (after_close s)

closed : Option String → Option String
unfolding after_close
closed none = none
closed (some s) = after_close s

-- a match of `<think>.*?</think>` at the beginning, by what stands behind it
think_end : String → Option String
unfolding after_tag closed
think_end s = closed (after_tag "<think>" s)

-- `re.sub(r"<think>.*?</think>", "", s)`; the number counts characters of a match to be left out
without_thinking : ℕ → String → String
unfolding think_end len
without_thinking skip String.[] = String.[]
without_thinking (suc skip) (String.◌∷◌ c s) = without_thinking skip s
without_thinking zero (String.◌∷◌ c s) =
    let kept = without_thinking zero s in
    elim (think_end (String.◌∷◌ c s)) [
      | none ↦ String.◌∷◌ c kept
      | some rest ↦ without_thinking (len s - len rest) s
    ]

unfoldable pub strip_thinking : String → String
unfolding without_thinking strip
strip_thinking text = strip (without_thinking zero text)

strip_thinking_case :
    strip_thinking "<Think>a<think>[</THINK> {\"b\":1} <think>" ≡ "{\"b\":1} <think>"
unfolding strip_thinking
strip_thinking_case = refl

-- the line boundaries of `splitlines`
is_line_break : ℕ → Bool
is_line_break c =
    (leb 10 c && leb c 13) || (leb 28 c && leb c 30) || c == 133 || c == 8232 || c == 8233

onto_line : Char → List String → List String
onto_line c [] = String.◌∷◌ c String.[] ∷ []
onto_line c (line ∷ lines) = String.◌∷◌ c line ∷ lines

-- `s.splitlines()`
splitlines : String → List String
unfolding is_line_break onto_line
splitlines String.[] = []
splitlines (String.◌∷◌ c String.[]) =
    if is_line_break (code c) then "" ∷ [] else String.◌∷◌ c String.[] ∷ []
splitlines (String.◌∷◌ c (String.◌∷◌ d s)) =
    let behind = splitlines s in
    let next = splitlines (String.◌∷◌ d s) in
    if code c == b'\r' && code d == b'\n'
    then "" ∷ behind
    else if is_line_break (code c)
    then "" ∷ next
    else onto_line c next

-- `lines[1:]`, if the first line opens a fence
drop_opening : List String → List String
unfolding starts_with lstrip
drop_opening [] = []
drop_opening (line ∷ lines) = if starts_with "```" (lstrip line) then lines else line ∷ lines

-- `lines[:-1]`, if the last line closes it
drop_closing : List String → List String
unfolding strip
drop_closing [] = []
drop_closing (line ∷ []) = if str_eq (strip line) "```" then [] else line ∷ []
drop_closing (line ∷ next ∷ lines) = line ∷ drop_closing (next ∷ lines)

unfoldable pub strip_code_fence : String → String
unfolding strip starts_with splitlines drop_opening drop_closing join
strip_code_fence text =
    if starts_with "```" (strip text)
    then strip (join "\n" (drop_closing (drop_opening (splitlines (strip text)))))
    else strip text

strip_code_fence_json : strip_code_fence "\n```json\r\n{}\n```  " ≡ "{}"
unfolding strip_code_fence
strip_code_fence_json = refl

-- `re.sub(r"(?<!^)(?=[A-Z])", "_", name)` behind the first character
underscored : String → String
underscored String.[] = String.[]
underscored (String.◌∷◌ c s) =
    let rest = underscored s in
    if leb 65 (code c) && leb (code c) 90 then "_" ++ String.◌∷◌ c rest else String.◌∷◌ c rest

unfoldable pub snake_name : String → String
unfolding underscored lower
snake_name String.[] = String.[]
snake_name (String.◌∷◌ c s) = lower (String.◌∷◌ c (underscored s))

unfoldable pub wrapper_keys : String → List String
unfolding snake_name strip
wrapper_keys model_name =
    strip model_name
    ∷ snake_name (strip model_name)
    ∷ "structured_response"
    ∷ "intent_decision"
    ∷ "advisor_output"
    ∷ "response"
    ∷ "result"
    ∷ "output"
    ∷ "data"
    ∷ []

wrapper_keys_first :
    wrapper_keys "IntentDecision"
    ≡ "IntentDecision" ∷ "intent_decision" ∷ "structured_response" ∷ "intent_decision"
      ∷ "advisor_output" ∷ "response" ∷ "result" ∷ "output" ∷ "data" ∷ []
unfolding wrapper_keys
wrapper_keys_first = refl
