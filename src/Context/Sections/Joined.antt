-- ===== src/Context/Sections/Joined.antt =====
-- Sections joined again: the text, and what a list of the last sections is of it.
use multiagents.Prelude.{
  ℕ, zero, suc, ◌-◌, ◌≡◌, ◌∙◌, refl, sym, ap, ◌&&◌, Bool-cases, inl, inr, List, [], ◌∷◌, ◌++◌, map,
  append_assoc, length, drop, ◌==◌, arith,
}
use multiagents.Context.Sections.{
  Text, newline, bracket, onto_first, split, reopen, split_sections, join_lines, from_end,
}

join_lines-onto :
    (c : ℕ) (parts : List Text) → join_lines (onto_first c parts) ≡ c ∷ join_lines parts
unfolding join_lines onto_first
join_lines-onto c [] = refl
join_lines-onto c (s ∷ []) = refl
join_lines-onto c (s ∷ t ∷ parts) = refl

-- what the parts were cut from
joined : List Text → Text
joined [] = []
joined (s ∷ []) = s
joined (s ∷ t ∷ rest) = s ++ newline ∷ bracket ∷ joined (t ∷ rest)

joined-onto : (c : ℕ) (parts : List Text) → joined (onto_first c parts) ≡ c ∷ joined parts
unfolding joined onto_first
joined-onto c [] = refl
joined-onto c (s ∷ []) = refl
joined-onto c (s ∷ t ∷ parts) = refl

onto_first_cons :
    (c : ℕ) (parts : List Text) → (s : Text) × (rest : List Text) × (onto_first c parts ≡ s ∷ rest)
unfolding onto_first
onto_first_cons c [] = (c ∷ [], [], refl)
onto_first_cons c (s ∷ parts) = (c ∷ s, parts, refl)

split_cons : (text : Text) → (s : Text) × (rest : List Text) × (split text ≡ s ∷ rest)
unfolding split
split_cons [] = ([], [], refl)
split_cons (c ∷ []) = (c ∷ [], [], refl)
split_cons (c ∷ d ∷ text) = elim (Bool-cases (c == newline && d == bracket)) [
  | inl cut ↦ rw cut ([], split text, refl)
  | inr kept ↦ rw kept (onto_first_cons c (split (d ∷ text)))
]

joined-cut : (text : Text) → joined ([] ∷ split text) ≡ newline ∷ bracket ∷ joined (split text)
unfolding joined
joined-cut text = let (s, rest, e) = split_cons text in rw e refl

joined-split : (text : Text) → joined (split text) ≡ text
unfolding split
joined-split [] = unfold joined in refl
joined-split (c ∷ []) = unfold joined in refl
joined-split (c ∷ d ∷ text) = elim (Bool-cases (c == newline && d == bracket)) [
  | inl cut ↦ rw (cut, joined-cut text, joined-split text) (ground (arith, cut))
  | inr kept ↦ rw (kept, joined-onto c (split (d ∷ text)), joined-split (d ∷ text)) refl
]

join_lines-reopened :
    (s : Text) (rest : List Text) → join_lines (s ∷ map (◌∷◌ bracket) rest) ≡ joined (s ∷ rest)
unfolding join_lines joined onto_first
join_lines-reopened s [] = refl
join_lines-reopened s (t ∷ rest) =
    ap (λ u. s ++ newline ∷ u)
      (join_lines-onto bracket (t ∷ map (◌∷◌ bracket) rest)
        ∙ ap (◌∷◌ bracket) (join_lines-reopened t rest))

join_lines-reopen : (parts : List Text) → join_lines (reopen parts) ≡ joined parts
unfolding reopen
join_lines-reopen [] = unfold join_lines joined in refl
join_lines-reopen (s ∷ rest) = join_lines-reopened s rest

-- A text that is split into its sections is their join by newlines.
pub join_lines-split_sections : (text : Text) → join_lines (split_sections text) ≡ text
unfolding split_sections
join_lines-split_sections text = join_lines-reopen (split text) ∙ joined-split text

-- The first text is the end of the second.
abbrev pub IsSuffix : Text → Text → Type 0
IsSuffix t text = (pre : Text) × (text ≡ pre ++ t)

pub IsSuffix-refl : (text : Text) → IsSuffix text text
IsSuffix-refl text = ([], refl)

pub IsSuffix-trans : (r s t : Text) → IsSuffix r s → IsSuffix s t → IsSuffix r t
IsSuffix-trans r s t (p, e) (q, f) = (q ++ p, f ∙ ap (λ u. q ++ u) e ∙ sym (append_assoc q p r))

IsSuffix-drop : (n : ℕ) (text : Text) → IsSuffix (drop n text) text
IsSuffix-drop zero text = ([], refl)
IsSuffix-drop (suc n) [] = ([], refl)
IsSuffix-drop (suc n) (c ∷ text) = let (pre, e) = IsSuffix-drop n text in (c ∷ pre, ap (◌∷◌ c) e)

pub from_end-IsSuffix : (n : ℕ) (text : Text) → IsSuffix (from_end n text) text
unfolding from_end
from_end-IsSuffix zero text = ([], refl)
from_end-IsSuffix (suc n) text = IsSuffix-drop (length text - suc n) text

-- the last sections, joined, are the end of all of them joined
pub join_lines-IsSuffix :
    (xs : List Text) (y : Text) (ys : List Text)
    → IsSuffix (join_lines (y ∷ ys)) (join_lines (xs ++ y ∷ ys))
unfolding join_lines
join_lines-IsSuffix [] y ys = ([], refl)
join_lines-IsSuffix (x ∷ []) y ys = (x ++ newline ∷ [], sym (append_assoc x (newline ∷ []) _))
join_lines-IsSuffix (x ∷ z ∷ xs) y ys =
    let (pre, e) = join_lines-IsSuffix (z ∷ xs) y ys in
    (x ++ newline ∷ pre, ap (λ u. x ++ newline ∷ u) e ∙ sym (append_assoc x (newline ∷ pre) _))
