-- ===== src/Context/Sections/Whole.antt =====
-- `compact_text`, under both of its budgets.
use mathlib.Core.List.{reverse}
use multiagents.Prelude.{
  ℕ, zero, suc, ◌≤◌, max, ◌≡◌, refl, sym, append-nil, ap, inl, inr, Bool-cases, Option, none, some,
  List, [], ◌∷◌, length, length-append, leb, arith,
}
use multiagents.Context.Sections.{
  Text, Counter, TokenLimit, newline, split_sections, join_lines, tail_of, found_tail,
  tail_within_tokens, joined_or_searched, compact_sections_by_chars, compact_sections_by_tokens,
  limit_tokens, compact_text,
}
use multiagents.Context.Sections.Joined.{IsSuffix, IsSuffix-refl, IsSuffix-trans, from_end-IsSuffix}
use multiagents.Context.Sections.Bounded.{
  IsNewest, keep_newest-IsNewest, kept-IsSuffix, compact_sections_by_chars-IsCompacted,
}
use multiagents.Context.Sections.Tail.{search_tail-Finds}

-- the code returns an end of the text
abbrev GivesEnd : Text → Option Text → Type 0
GivesEnd text o = (r : Text) × (o ≡ some r) × IsSuffix r text

tail_of-IsSuffix : (text : Text) (n : ℕ) → IsSuffix (tail_of text n) text
unfolding tail_of
tail_of-IsSuffix text zero = (text, sym (append-nil text))
tail_of-IsSuffix text (suc n) = from_end-IsSuffix (suc n) text

tail_within_tokens-GivesEnd :
    (count : Counter) (text : Text) (limit : ℕ)
    → GivesEnd text (tail_within_tokens count text limit)
unfolding tail_within_tokens
tail_within_tokens-GivesEnd count text limit =
    let (n, f, found) =
      search_tail-Finds count text limit (suc (length text)) 0 (length text) (omega arith)
        (omega arith) (omega arith) tt in
    (tail_of text n, ap (found_tail text) f, tail_of-IsSuffix text n)

joined_or_searched-GivesEnd :
    (count : Counter) (text : Text) (limit n : ℕ) (kept : List Text)
    → IsNewest count n limit (split_sections text) kept
    → GivesEnd text (joined_or_searched count limit kept text)
unfolding joined_or_searched
joined_or_searched-GivesEnd count text limit n [] newest =
    tail_within_tokens-GivesEnd count text limit
joined_or_searched-GivesEnd count text limit n (s ∷ keep) (older, e, le, over) =
    (join_lines (s ∷ keep), refl, kept-IsSuffix text (reverse older) s keep e)

limit_tokens-GivesEnd :
    (tokens : Option TokenLimit) (text : Text) → GivesEnd text (limit_tokens tokens text)
unfolding limit_tokens compact_sections_by_tokens
limit_tokens-GivesEnd none text = (text, refl, IsSuffix-refl text)
limit_tokens-GivesEnd (some t) text =
    elim (Bool-cases (leb (t.token_counter text) (max 1 t.max_tokens))) [
      | inl fits ↦ rw fits (text, refl, IsSuffix-refl text)
      | inr over ↦ rw over (
          joined_or_searched-GivesEnd t.token_counter text (max 1 t.max_tokens) _ _ (
            keep_newest-IsNewest t.token_counter (t.token_counter (newline ∷ []))
              (max 1 t.max_tokens) (split_sections text)))
    ]

-- With any token counter, and with none, compacting a text ends and gives an end of the text that
-- is within the character budget.
pub compact_text_bounded :
    (text : Text) (max_chars : ℕ) (tokens : Option TokenLimit)
    → (r : Text) × (compact_text text max_chars tokens ≡ some r)
      × IsSuffix r text
      × (length r ≤ max 1 max_chars)
unfolding compact_text
compact_text_bounded text max_chars tokens =
    let limit : ℕ = max 1 max_chars in
    let short : Text = compact_sections_by_chars text limit in
    let (le, suffix, fits, cut) = compact_sections_by_chars-IsCompacted text limit (ground arith) in
    let (r, e, (pre, f)) = limit_tokens-GivesEnd tokens short in
    (
      r,
      e,
      IsSuffix-trans r short text (pre, f) suffix,
      omega (arith, le, length-append pre r, ap length f),
    )
