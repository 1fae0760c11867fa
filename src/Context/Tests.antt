-- ===== src/Context/Tests.antt =====
-- Runs of the definitions for src/shared/runtime/core, and the theorems at concrete inputs.
use Prim.Native.Char.{code}
use multiagents.Prelude.{
  ℕ, ◌+◌, ◌≤◌, ◌<◌, max, ◌≡◌, refl, true, none, some, List, [], ◌∷◌, length, String, str_eq,
  str_eq_iff, or_else, arith,
}
use multiagents.Context.Messages.{Message, tool, human}
use multiagents.Context.Policy.{ContextPolicy, truncate_text_with_marker, compact_tool_result}
use multiagents.Context.History.{compact_tool_history, omitted_note}
use multiagents.Context.History.Newest.{newest, compact_tool_history-newest}
use multiagents.Context.Sections.{
  Text, TokenLimit, split_sections, join_lines, compact_sections_by_chars, tail_within_tokens,
  compact_text,
}
use multiagents.Context.Sections.Joined.{IsSuffix, join_lines-split_sections}
use multiagents.Context.Sections.Bounded.{IsCompacted, compact_sections_by_chars-IsCompacted}
use multiagents.Context.Sections.Tail.{IsLongestTail, tail_within_tokens-IsLongestTail}
use multiagents.Context.Sections.Whole.{compact_text_bounded}
use multiagents.Context.Budget.{
  TokenBudget, record_tokens, consumed, usable_limit, can_fit, record_tokens_adds,
}
use multiagents.Context.Cache.{
  Scalars, IsEquivalence, Address, scalar, mapping, entry, no_entries, is_some, get, has, same_key,
  normalize_key,
}
use multiagents.Context.Cache.Refines.{
  Change, set_at, clear_in, apply_all, changed_all, apply_all_refines,
}

abbrev codes : String → Text
codes String.[] = []
codes (String.◌∷◌ c s) = code c ∷ codes s

abbrev notes : Text
notes = codes "intro\n[one] x\n[two] yy"

sections_of_notes : split_sections notes ≡ codes "intro" ∷ codes "[one] x" ∷ codes "[two] yy" ∷ []
unfolding split_sections
sections_of_notes = refl

newest_two : compact_sections_by_chars notes 16 ≡ codes "[one] x\n[two] yy"
unfolding compact_sections_by_chars
newest_two = refl

none_fits : compact_sections_by_chars notes 5 ≡ codes "o] yy"
unfolding compact_sections_by_chars
none_fits = refl

tail_of_notes : tail_within_tokens length notes 5 ≡ some (codes "o] yy")
unfolding tail_within_tokens
tail_of_notes = refl

join_lines-split_sections_example : join_lines (split_sections notes) ≡ notes
join_lines-split_sections_example = join_lines-split_sections notes

compact_sections_by_chars-IsCompacted_example :
    IsCompacted 16 notes (compact_sections_by_chars notes 16)
compact_sections_by_chars-IsCompacted_example =
    compact_sections_by_chars-IsCompacted notes 16 (omega arith)

tail_within_tokens-IsLongestTail_example :
    (tail : Text) × (tail_within_tokens length notes 5 ≡ some tail)
    × IsLongestTail length notes 5 tail
tail_within_tokens-IsLongestTail_example = tail_within_tokens-IsLongestTail length notes 5 refl

abbrev by_length : TokenLimit
by_length = record { max_tokens = 9; token_counter = length }

compact_text_bounded_example :
    (r : Text) × (compact_text notes 16 (some by_length) ≡ some r)
    × IsSuffix r notes
    × (length r ≤ max 1 16)
compact_text_bounded_example = compact_text_bounded notes 16 (some by_length)

-- the braces are closed before the brackets, whatever their order, and the suffix comes on top
closed_in_wrong_order :
    truncate_text_with_marker "{\"a\":[1,2,3]}" 8 ≡ "{\"a\":[1,}]\n... [truncated]"
unfolding truncate_text_with_marker
closed_in_wrong_order = refl

abbrev result_named : String → String → Message
result_named name content =
    tool (record { content = content; tool_call_id = "1"; name = some name; status = "success" })

abbrev keep_one : ContextPolicy
keep_one = record {
  default_tool_result_chars = 10;
  tool_result_char_limits = ("long", 40) ∷ [];
  recent_tool_results = 1;
  recent_tool_results_per_tool = none;
  tool_history_keep_limits = ("all", 9) ∷ [];
}

newest_result_kept :
    compact_tool_history keep_one (
      result_named "a" "1"
      ∷ result_named "all" "2"
      ∷ result_named "a" "3"
      ∷ human "x"
      ∷ result_named "all" "4"
      ∷ [])
    ≡ result_named "a" omitted_note
      ∷ result_named "all" "2"
      ∷ result_named "a" "3"
      ∷ human "x"
      ∷ result_named "all" "4"
      ∷ []
unfolding compact_tool_history
newest_result_kept = refl

limit_by_name :
    (compact_tool_result keep_one "long" "0123456789abc" ≡ "0123456789abc")
    × (compact_tool_result keep_one "a" "0123456789abc" ≡ "0123456789\n... [truncated]")
unfolding compact_tool_result
limit_by_name = (refl, refl)

abbrev history : List Message
history = result_named "a" "1" ∷ result_named "all" "2" ∷ human "x" ∷ result_named "a" "3" ∷ []

compact_tool_history-newest_example :
    compact_tool_history keep_one history ≡ newest keep_one history
compact_tool_history-newest_example = compact_tool_history-newest keep_one history

abbrev budget : TokenBudget
budget = record {
  total_limit = 100;
  reserved_output_tokens = 20;
  safety_margin_tokens = 10;
  system_prompt_tokens = 0;
  tool_definitions_tokens = 0;
  consumed_by = ("planner", 30) ∷ ("writer", 5) ∷ [];
}

record_tokens_adds_example :
    (consumed (some "planner") (record_tokens "planner" 40 budget)
      ≡ consumed (some "planner") budget + 40)
    × (consumed none (record_tokens "planner" 40 budget) ≡ consumed none budget + 40)
    × (0 < 40
        → can_fit 40 "planner" budget ≡ true
        → consumed (some "planner") (record_tokens "planner" 40 budget) ≤ usable_limit budget)
record_tokens_adds_example = record_tokens_adds "planner" 40 budget

-- scalars that are texts only
abbrev text_scalars : Scalars String
text_scalars = record { same = str_eq; of_text = λ s. s }

text_scalars-IsEquivalence : IsEquivalence text_scalars
text_scalars-IsEquivalence = record {
  same_refl = λ a. ground (arith, str_eq_iff a a);
  same_euclid = λ a b c h. ground (arith, h, str_eq_iff a b);
}

-- the order of a dict's entries does not matter
two_orders :
    same_key text_scalars
      (normalize_key text_scalars
        (mapping (entry "b" (scalar "2") (entry "a" (scalar "1") no_entries))))
      (normalize_key text_scalars
        (mapping (entry "a" (scalar "1") (entry "b" (scalar "2") no_entries))))
    ≡ true
unfolding same_key normalize_key
two_orders = refl

abbrev address : Address String
address = record {
  namespace = " plan ";
  cache_key = scalar "k";
  snapshot_id = "s1";
  session_id = "";
}

abbrev changes : List (Change String ℕ)
changes =
    set_at address 1
    ∷ clear_in (record { namespace = some "other"; snapshot_id = none; session_id = none })
    ∷ set_at (record address { snapshot_id = "s2" }) 2
    ∷ []

apply_all_refines_example :
    (get text_scalars address 0 (apply_all text_scalars changes [])
      ≡ or_else 0 (changed_all text_scalars changes (λ _. none) address))
    × (has text_scalars address (apply_all text_scalars changes [])
        ≡ is_some (changed_all text_scalars changes (λ _. none) address))
apply_all_refines_example =
    apply_all_refines text_scalars text_scalars-IsEquivalence changes address 0

first_is_found : get text_scalars address 0 (apply_all text_scalars changes []) ≡ 1
unfolding get apply_all
first_is_found = refl
