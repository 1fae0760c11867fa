-- ===== src/Context/Sections.antt =====
-- src/shared/runtime/core/context_policy.py: `_split_sections`, `_compact_sections_by_chars`,
-- `_compact_sections_by_tokens`, `_tail_within_tokens` and `compact_text`. A text is the list of its
-- code points. The token counter is an argument.
pub mod Joined
pub mod Bounded
pub mod Tail
pub mod Whole
use mathlib.Core.List.{reverse}
use multiagents.Prelude.{
  ℕ, zero, suc, ◌+◌, ◌-◌, ◌/◌, max, Bool, true, false, ◌&&◌, Option, none, some, List, [], ◌∷◌,
  ◌++◌, map, length, last_n, leb, ◌==◌, if◌then◌else◌,
}

abbrev pub Text : Type 0
Text = List ℕ

-- `TokenCounter.count`
abbrev pub Counter : Type 0
Counter = Text → ℕ

abbrev pub newline : ℕ
newline = b'\n'

abbrev pub bracket : ℕ
bracket = b'['

unfoldable pub onto_first : ℕ → List Text → List Text
onto_first c [] = (c ∷ []) ∷ []
onto_first c (s ∷ parts) = (c ∷ s) ∷ parts

-- `text.split("\n[")`
unfoldable pub split : Text → List Text
unfolding onto_first
split [] = [] ∷ []
split (c ∷ []) = (c ∷ []) ∷ []
split (c ∷ d ∷ text) =
    let cut = split text in
    let rest = split (d ∷ text) in
    if c == newline && d == bracket then [] ∷ cut else onto_first c rest

-- every part but the first gets its bracket back
unfoldable pub reopen : List Text → List Text
reopen [] = []
reopen (s ∷ parts) = s ∷ map (◌∷◌ bracket) parts

unfoldable pub split_sections : Text → List Text
unfolding split reopen
split_sections text = reopen (split text)

-- `"\n".join(sections)`
unfoldable pub join_lines : List Text → Text
join_lines [] = []
join_lines (s ∷ []) = s
join_lines (s ∷ t ∷ rest) = s ++ newline ∷ join_lines (t ∷ rest)

-- `text[-n:]`, where `-0` is 0
unfoldable pub from_end : ℕ → Text → Text
from_end zero text = text
from_end (suc n) text = last_n (suc n) text

-- `overhead`: what a separator adds, if something is kept already
unfoldable pub overhead : ℕ → List Text → ℕ
overhead n [] = 0
overhead n (s ∷ keep) = n

-- The loop over the reversed sections that both compactions run: `measure` is `len` or the token
-- count, and `separator` what a newline adds. The first section that does not fit breaks the loop.
unfoldable pub keep_newest : Counter → ℕ → ℕ → List Text → List Text → ℕ → List Text
unfolding overhead
keep_newest measure separator limit [] keep size = keep
keep_newest measure separator limit (s ∷ rest) keep size =
    let more = size + measure s + overhead separator keep in
    let next = keep_newest measure separator limit rest (s ∷ keep) more in
    if leb more limit then next else keep

-- `"\n".join(keep) if keep else text[-max_chars:]`
unfoldable pub joined_or_tail : List Text → ℕ → Text → Text
unfolding from_end join_lines
joined_or_tail [] max_chars text = from_end max_chars text
joined_or_tail (s ∷ keep) max_chars text = join_lines (s ∷ keep)

unfoldable pub compact_sections_by_chars : Text → ℕ → Text
unfolding split_sections keep_newest joined_or_tail
compact_sections_by_chars text max_chars =
    if leb (length text) max_chars
    then text
    else joined_or_tail (keep_newest length 1 max_chars (reverse (split_sections text)) [] 0)
        max_chars text

-- The binary search of `_tail_within_tokens`; `none` means that the fuel ran out.
unfoldable pub search_tail : Counter → Text → ℕ → ℕ → ℕ → ℕ → Option ℕ
unfolding from_end
search_tail count text limit zero low high = none
search_tail count text limit (suc fuel) low high =
    let midpoint = (low + high + 1) / 2 in
    let wider = search_tail count text limit fuel midpoint high in
    let narrower = search_tail count text limit fuel low (midpoint - 1) in
    if leb high low
    then some low
    else if leb (count (from_end midpoint text)) limit
    then wider
    else narrower

-- `text[-low:] if low else ""`
unfoldable pub tail_of : Text → ℕ → Text
unfolding from_end
tail_of text zero = []
tail_of text (suc low) = from_end (suc low) text

unfoldable pub found_tail : Text → Option ℕ → Option Text
unfolding tail_of
found_tail text none = none
found_tail text (some low) = some (tail_of text low)

unfoldable pub tail_within_tokens : Counter → Text → ℕ → Option Text
unfolding search_tail found_tail
tail_within_tokens count text limit =
    found_tail text (search_tail count text limit (suc (length text)) 0 (length text))

unfoldable pub joined_or_searched : Counter → ℕ → List Text → Text → Option Text
unfolding tail_within_tokens join_lines
joined_or_searched count limit [] text = tail_within_tokens count text limit
joined_or_searched count limit (s ∷ keep) text = some (join_lines (s ∷ keep))

unfoldable pub compact_sections_by_tokens : Counter → Text → ℕ → Option Text
unfolding split_sections keep_newest joined_or_searched
compact_sections_by_tokens count text limit =
    if leb (count text) limit
    then some text
    else joined_or_searched count limit
        (keep_newest count (count (newline ∷ [])) limit (reverse (split_sections text)) [] 0) text

-- `max_tokens` and `token_counter`, where both are given
pub record TokenLimit : Type 0 where
  pub max_tokens : ℕ
  pub token_counter : Counter

unfoldable pub limit_tokens : Option TokenLimit → Text → Option Text
unfolding compact_sections_by_tokens
limit_tokens none text = some text
limit_tokens (some t) text = compact_sections_by_tokens t.token_counter text (max 1 t.max_tokens)

unfoldable pub compact_text : Text → ℕ → Option TokenLimit → Option Text
unfolding compact_sections_by_chars limit_tokens
compact_text text max_chars tokens =
    limit_tokens tokens (compact_sections_by_chars text (max 1 max_chars))
