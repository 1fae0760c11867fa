-- ===== src/Context/Policy.antt =====
-- src/shared/runtime/core/context_policy.py: the limits of a `ContextPolicy`, the truncation of a tool
-- result and the compaction of older tool results.
use Prim.Native.String.{◌++◌}
use Prim.Native.Char.{code}
use multiagents.Prelude.{
  ℕ, zero, suc, ◌+◌, ◌-◌, ◌/◌, max, Bool, true, false, ◌||◌, Option, none, some, List, lookup,
  or_else, String, strip, rstrip, ltb, leb, ◌==◌, if◌then◌else◌,
}

pub record ContextPolicy : Type 0 where
  pub default_tool_result_chars : ℕ
  pub tool_result_char_limits : List (String × ℕ)
  pub recent_tool_results : ℕ
  pub recent_tool_results_per_tool : Option ℕ
  pub tool_history_keep_limits : List (String × ℕ)

unfoldable pub char_limit : ContextPolicy → String → ℕ
unfolding lookup
char_limit p name =
    max 1 (or_else p.default_tool_result_chars (lookup name p.tool_result_char_limits))

-- `len(s)`, `s[:n]` and `ch * n`
unfoldable pub len : String → ℕ
len String.[] = 0
len (String.◌∷◌ c s) = suc (len s)

unfoldable pub first_chars : ℕ → String → String
first_chars zero s = ""
first_chars (suc n) String.[] = ""
first_chars (suc n) (String.◌∷◌ c s) = String.◌∷◌ c (first_chars n s)

unfoldable pub repeat : String → ℕ → String
repeat s zero = ""
repeat s (suc n) = s ++ repeat s n

-- `s.rfind("\n")`, from the index of the first character, with the last one that was found
unfoldable pub rfind_newline : ℕ → Option ℕ → String → Option ℕ
rfind_newline i found String.[] = found
rfind_newline i found (String.◌∷◌ c s) =
    rfind_newline (suc i) (if code c == b'\n' then some i else found) s

-- What `_count_unclosed` keeps: `braces` and `brackets` are integers, here as openings and closings.
pub record Scan : Type 0 where
  pub opened_braces : ℕ
  pub closed_braces : ℕ
  pub opened_brackets : ℕ
  pub closed_brackets : ℕ
  pub in_string : Bool
  pub escape : Bool

unfoldable pub scan_char : ℕ → Scan → Scan
scan_char c s =
    if s.escape
    then record s { escape = false }
    else if s.in_string
    then (if c == b'\\'
        then record s { escape = true }
        else if c == b'"'
        then record s { in_string = false }
        else s)
    else if c == b'"'
    then record s { in_string = true }
    else if c == b'{'
    then record s { opened_braces = s.opened_braces + 1 }
    else if c == b'}'
    then record s { closed_braces = s.closed_braces + 1 }
    else if c == b'['
    then record s { opened_brackets = s.opened_brackets + 1 }
    else if c == b']'
    then record s { closed_brackets = s.closed_brackets + 1 }
    else s

unfoldable pub scan : String → Scan → Scan
unfolding scan_char
scan String.[] s = s
scan (String.◌∷◌ c text) s = scan text (scan_char (code c) s)

abbrev scan_start : Scan
scan_start = record {
  opened_braces = 0;
  closed_braces = 0;
  opened_brackets = 0;
  closed_brackets = 0;
  in_string = false;
  escape = false;
}

-- `max(0, braces), max(0, brackets)`
unfoldable pub count_unclosed : String → ℕ × ℕ
unfolding scan
count_unclosed text =
    let s : Scan = scan text scan_start in
    (s.opened_braces - s.closed_braces, s.opened_brackets - s.closed_brackets)

unfoldable pub cut_at_newline : ℕ → String → Option ℕ → String
unfolding first_chars rstrip
cut_at_newline max_chars candidate none = candidate
cut_at_newline max_chars candidate (some last_nl) =
    if ltb (max_chars / 2) last_nl then rstrip (first_chars last_nl candidate) else candidate

-- `stripped and stripped[0] in "{["`
unfoldable pub looks_like_json : String → Bool
looks_like_json String.[] = false
looks_like_json (String.◌∷◌ c s) = code c == b'{' || code c == b'['

abbrev pub truncation_suffix : String
truncation_suffix = "\n... [truncated]"

unfoldable pub closers : String → String
unfolding looks_like_json strip count_unclosed repeat
closers candidate =
    let (braces, brackets) = count_unclosed candidate in
    if looks_like_json (strip candidate) then repeat "}" braces ++ repeat "]" brackets else ""

unfoldable pub truncation_candidate : String → ℕ → String
unfolding first_chars cut_at_newline rfind_newline
truncation_candidate text max_chars =
    let candidate = first_chars max_chars text in
    cut_at_newline max_chars candidate (rfind_newline 0 none candidate)

unfoldable pub truncate_text_with_marker : String → ℕ → String
unfolding len truncation_candidate closers
truncate_text_with_marker text max_chars =
    let candidate = truncation_candidate text max_chars in
    if leb (len text) max_chars then text else (candidate ++ closers candidate) ++ truncation_suffix

unfoldable pub compact_tool_result : ContextPolicy → String → String → String
unfolding char_limit len truncate_text_with_marker
compact_tool_result p name content =
    if ltb (char_limit p name) (len content)
    then truncate_text_with_marker content (char_limit p name)
    else content
