-- ===== src/ToolLoop/Parse.antt =====
-- src/shared/runtime/execution/structured_tool_loop.py: `_validate_loaded_payload` and
-- `_parse_structured_response`. The response model (pydantic) and the JSON decoder are arguments.
pub mod Payload
pub mod Validated
use Prim.Native.Char.{code}
use multiagents.Prelude.{
  ℕ, zero, suc, ◌+◌, Bool, true, false, not, ◌&&◌, ◌||◌, Option, none, some, List, [], ◌∷◌, ◌++◌,
  any, String, str_eq, is_empty, strip, texts, decimal, ◌==◌, if◌then◌else◌,
}
use multiagents.Exec.{Result, ok, err}
use multiagents.Context.Messages.{
  Json, null, boolean, number, str, list, dict, JsonList, no_items, item, JsonDict, no_entries,
  entry, dict_get,
}
use multiagents.ToolLoop.Thinking.{strip_thinking, strip_code_fence, wrapper_keys}

-- An exception: its class and its `str`.
pub record Raised : Type 0 where
  pub error_type : String
  pub message : String

-- `json.loads` and `JSONDecoder.raw_decode`
pub record Decoder : Type 0 where
  pub loads : String → Result Raised Json
  pub raw_decode : String → Result Raised Json

-- A pydantic class: `__name__`, `model_validate` and `model_validate_json`.
pub record ResponseModel (M : Type 0) : Type 0 where
  pub name : String
  pub model_validate : Json → Result Raised M
  pub model_validate_json : String → Result Raised M

abbrev pub value_error : List String → Raised
value_error parts = record { error_type = "ValueError"; message = texts parts }

abbrev pub runtime_error : List String → Raised
runtime_error parts = record { error_type = "RuntimeError"; message = texts parts }

unfoldable pub count_items : JsonList → ℕ
count_items no_items = 0
count_items (item x rest) = suc (count_items rest)

module _ {M : Type 0} (model : ResponseModel M) where
  -- what is made of a value inside a wrapper, if it is a dict, a list or a string
  unfoldable pub validate_inner : Json → Option (Result Raised M)
  validate_inner (str s) = some (model.model_validate_json s)
  validate_inner (dict d) = some (model.model_validate (dict d))
  validate_inner (list l) = some (model.model_validate (list l))
  validate_inner null = none
  validate_inner (boolean b) = none
  validate_inner (number n) = none

  unfoldable pub inner_of : Option Json → Option (Result Raised M)
  unfolding validate_inner
  inner_of none = none
  inner_of (some v) = validate_inner v

  -- a refused wrapper is passed over
  unfoldable pub accepted_or : Option (Result Raised M) → Option M → Option M
  accepted_or none later = later
  accepted_or (some (ok m)) later = some m
  accepted_or (some (err e)) later = later

  unfoldable pub try_wrappers : List String → JsonDict → Option M
  unfolding dict_get inner_of accepted_or
  try_wrappers [] payload = none
  try_wrappers (key ∷ keys) payload =
      accepted_or (inner_of (dict_get key payload)) (try_wrappers keys payload)

  unfoldable pub or_direct : Raised → Option (Result Raised M) → Result Raised M
  or_direct e none = err e
  or_direct e (some r) = r

  -- a dict of one entry is a wrapper under any key
  unfoldable pub try_single : Raised → JsonDict → Result Raised M
  unfolding validate_inner or_direct
  try_single e no_entries = err e
  try_single e (entry k v no_entries) = or_direct e (validate_inner v)
  try_single e (entry k v (entry l w rest)) = err e

  unfoldable pub wrapped_or : Raised → JsonDict → Option M → Result Raised M
  unfolding try_single
  wrapped_or e payload (some m) = ok m
  wrapped_or e payload none = try_single e payload

  unfoldable pub unwrap : Raised → Json → Result Raised M
  unfolding wrapped_or try_wrappers wrapper_keys
  unwrap e (dict payload) = wrapped_or e payload (try_wrappers (wrapper_keys model.name) payload)
  unwrap e (list payload) = err e
  unwrap e null = err e
  unwrap e (boolean b) = err e
  unwrap e (number n) = err e
  unwrap e (str s) = err e

  unfoldable pub direct_or : Json → Result Raised M → Result Raised M
  unfolding unwrap
  direct_or payload (ok m) = ok m
  direct_or payload (err e) = unwrap e payload

  unfoldable pub validate_object : Json → Result Raised M
  unfolding direct_or
  validate_object payload = direct_or payload (model.model_validate payload)

  unfoldable pub validate_list : JsonList → Result Raised M
  unfolding validate_object count_items texts decimal
  validate_list no_items = err (
      value_error
        ("Model returned an empty list, but " ∷ model.name ∷ " requires one JSON object" ∷ []))
  validate_list (item (dict d) no_items) = validate_object (dict d)
  validate_list (item (str s) no_items) = model.model_validate_json s
  validate_list (item x rest) = err (
      value_error (
        "Model returned a list with "
        ∷ decimal (suc (count_items rest))
        ∷ " items, but "
        ∷ model.name
        ∷ " requires one JSON object"
        ∷ []))

  unfoldable pub validate_loaded_payload : Json → Result Raised M
  unfolding validate_list validate_object
  validate_loaded_payload (list l) = validate_list l
  validate_loaded_payload (dict d) = validate_object (dict d)
  validate_loaded_payload null = validate_object null
  validate_loaded_payload (boolean b) = validate_object (boolean b)
  validate_loaded_payload (number n) = validate_object (number n)
  validate_loaded_payload (str s) = validate_object (str s)

unfoldable pub add_candidate : String → List String → List String
add_candidate c candidates =
    if is_empty c || any (λ d. str_eq c d) candidates then candidates else candidates ++ c ∷ []

unfoldable pub candidates : String → List String
unfolding strip strip_thinking strip_code_fence add_candidate
candidates text =
    let raw = strip text in
    let no_think = strip_thinking raw in
    let plain = add_candidate (strip_code_fence raw) (add_candidate no_think (raw ∷ [])) in
    if is_empty no_think then plain else add_candidate (strip_code_fence no_think) plain

module _ {M : Type 0} (model : ResponseModel M) (decoder : Decoder) where
  unfoldable pub then_validate : Result Raised Json → Result Raised M
  unfolding validate_loaded_payload
  then_validate (ok payload) = validate_loaded_payload model payload
  then_validate (err e) = err e

  -- a value, or `last_error` for what comes next
  unfoldable pub or_last :
      Result Raised M → (Option Raised → Result (Option Raised) M) → Result (Option Raised) M
  or_last (ok m) next = ok m
  or_last (err e) next = next (some e)

  -- the scan for a bracket that begins a payload
  unfoldable pub scan_brackets : String → Option Raised → Result (Option Raised) M
  unfolding then_validate or_last
  scan_brackets String.[] last = err last
  scan_brackets (String.◌∷◌ c s) last =
      if code c == b'[' || code c == b'{'
      then or_last (then_validate (decoder.raw_decode (String.◌∷◌ c s))) (scan_brackets s)
      else scan_brackets s last

  -- what follows `json.loads(candidate)`; a payload that is refused ends the candidate
  unfoldable pub try_loaded : String → Result Raised Json → Result (Option Raised) M
  unfolding or_last scan_brackets validate_loaded_payload
  try_loaded candidate (ok payload) = or_last (validate_loaded_payload model payload) err
  try_loaded candidate (err e) = scan_brackets candidate (some e)

  unfoldable pub try_candidate : String → Result (Option Raised) M
  unfolding or_last try_loaded
  try_candidate candidate =
      or_last (model.model_validate_json candidate)
        (λ _. try_loaded candidate (decoder.loads candidate))

  unfoldable pub or_next :
      Result (Option Raised) M
      → (Option Raised → Result (Option Raised) M)
      → Result (Option Raised) M
  or_next (ok m) next = ok m
  or_next (err last) next = next last

  unfoldable pub try_candidates : List String → Option Raised → Result (Option Raised) M
  unfolding try_candidate or_next
  try_candidates [] last = err last
  try_candidates (c ∷ rest) last =
      if is_empty c
      then try_candidates rest last
      else or_next (try_candidate c) (try_candidates rest)

  unfoldable pub or_raise : Result (Option Raised) M → Result Raised M
  or_raise (ok m) = ok m
  or_raise (err (some e)) = err e
  or_raise (err none) = err (runtime_error ("Model returned empty structured response" ∷ []))

  unfoldable pub parse_structured_response : String → Result Raised M
  unfolding candidates try_candidates or_raise
  parse_structured_response text = or_raise (try_candidates (candidates text) none)
