-- ===== src/Context/Sections/Bounded.antt =====
-- What a compaction keeps: the newest sections that fit, as many as do, within the budget.
use mathlib.Core.List.{reverse, reverse-cons, reverse-reverse}
use multiagents.Prelude.{
  ℕ, zero, suc, ◌+◌, ◌-◌, ◌≤◌, ◌<◌, ◌≡◌, refl, sym, Bool-cases, inl, inr, List, [], ◌∷◌, ◌++◌,
  append_assoc, append-nil, length, length-append, length-drop, leb, leb→le, arith,
}
use multiagents.Context.Sections.{
  Text, Counter, newline, split_sections, join_lines, from_end, overhead, keep_newest,
  joined_or_tail, compact_sections_by_chars,
}
use multiagents.Context.Sections.Joined.{
  IsSuffix, IsSuffix-refl, from_end-IsSuffix, join_lines-IsSuffix, join_lines-split_sections,
}

module _ (measure : Counter) (separator : ℕ) where
  -- what the loop has added up for the sections it keeps
  abbrev pub total : List Text → ℕ
  total [] = 0
  total (s ∷ keep) = total keep + measure s + overhead separator keep

  -- there is no older section, or with the last of them the total is over the limit
  abbrev pub IsOver : ℕ → List Text → List Text → Type 0
  IsOver limit kept [] = Unit
  IsOver limit kept (x ∷ older) = limit < total (x ∷ kept)

  -- The newest sections that fit, and as many as do. The older ones are listed from the newest.
  abbrev pub IsNewest : ℕ → List Text → List Text → Type 0
  IsNewest limit sections kept =
      (older : List Text) × (sections ≡ reverse older ++ kept)
      × (total kept ≤ limit)
      × IsOver limit kept older

  keep_newest-kept :
      (limit : ℕ) (rest keep : List Text) (size : ℕ)
      → size ≡ total keep
      → size ≤ limit
      → IsNewest limit (reverse rest ++ keep) (keep_newest measure separator limit rest keep size)
  unfolding keep_newest
  keep_newest-kept limit [] keep size e h = ([], refl, omega (arith, e), tt)
  keep_newest-kept limit (s ∷ rest) keep size e h =
      elim (Bool-cases (leb (size + measure s + overhead separator keep) limit)) [
        | inl fits ↦
            rw (fits, reverse-cons s rest, append_assoc (reverse rest) (s ∷ []) keep)
              (keep_newest-kept limit rest (s ∷ keep) (size + measure s + overhead separator keep)
                (omega (arith, e)) (leb→le _ _ fits))
        | inr over ↦ rw over (s ∷ rest, refl, omega (arith, e), ground (arith, e, over))
      ]

  -- The loop over the reversed sections keeps the newest that fit, and as many as do.
  pub keep_newest-IsNewest :
      (limit : ℕ) (sections : List Text)
      → IsNewest limit sections (keep_newest measure separator limit (reverse sections) [] 0)
  keep_newest-IsNewest limit sections =
      rw (append-nil, reverse-reverse) at
        (keep_newest-kept limit (reverse sections) [] 0 refl (omega arith))

-- the lengths of kept sections add up to that of their join
total-length :
    (s : Text) (keep : List Text) → total length 1 (s ∷ keep) ≡ length (join_lines (s ∷ keep))
unfolding join_lines overhead
total-length s [] = omega arith
total-length s (t ∷ keep) =
    omega (arith, total-length t keep, length-append s (newline ∷ join_lines (t ∷ keep)))

pub kept-IsSuffix :
    (text : Text) (older : List Text) (s : Text) (keep : List Text)
    → split_sections text ≡ older ++ s ∷ keep
    → IsSuffix (join_lines (s ∷ keep)) text
kept-IsSuffix text older s keep e =
    rw (join_lines-split_sections text) at (rw (sym e) at (join_lines-IsSuffix older s keep))

from_end_le : (n : ℕ) (text : Text) → 1 ≤ n → length (from_end n text) ≤ n
unfolding from_end
from_end_le zero text h = omega (arith, h)
from_end_le (suc n) text h = omega (arith, length-drop (length text - suc n) text)

-- A compacted text: within the limit, the end of the text, the text itself if that fits, and if not
-- the newest sections that fit, joined, or the last characters where the last section is too long.
abbrev pub IsCompacted : ℕ → Text → Text → Type 0
IsCompacted limit text result =
    (length result ≤ limit)
    × IsSuffix result text
    × (length text ≤ limit → result ≡ text)
    × (limit < length text
        → (kept : List Text) × IsNewest length 1 limit (split_sections text) kept
          × (result ≡ joined_or_tail kept limit text))

kept-IsCompacted :
    (limit : ℕ) (text : Text) (kept : List Text)
    → 1 ≤ limit
    → limit < length text
    → IsNewest length 1 limit (split_sections text) kept
    → IsCompacted limit text (joined_or_tail kept limit text)
unfolding joined_or_tail
kept-IsCompacted limit text [] h long newest = (
  from_end_le limit text h,
  from_end-IsSuffix limit text,
  λ short. absurd (omega (arith, long, short)),
  λ _. ([], newest, refl),
)
kept-IsCompacted limit text (s ∷ keep) h long (older, e, le, over) = (
  omega (arith, le, total-length s keep),
  kept-IsSuffix text (reverse older) s keep e,
  λ short. absurd (omega (arith, long, short)),
  λ _. (s ∷ keep, (older, e, le, over), refl),
)

-- Compacting a text by characters, under a limit of at least one, gives the end of the text, within
-- the limit: the whole text if it fits, and if not as many of its newest sections as fit, or its
-- last characters if not even the newest section does.
pub compact_sections_by_chars-IsCompacted :
    (text : Text) (limit : ℕ)
    → 1 ≤ limit
    → IsCompacted limit text (compact_sections_by_chars text limit)
unfolding compact_sections_by_chars
compact_sections_by_chars-IsCompacted text limit h = elim (Bool-cases (leb (length text) limit)) [
  | inl short ↦ rw short (
    leb→le _ _ short,
    IsSuffix-refl text,
    λ _. refl,
    λ long. absurd (omega (arith, leb→le _ _ short, long)),
  )
  | inr long ↦ rw long (
      kept-IsCompacted limit text _ h (ground (arith, long))
        (keep_newest-IsNewest length 1 limit (split_sections text)))
]
