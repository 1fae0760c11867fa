-- ===== src/Context/History/Positions.antt =====
-- The indexes of one tool's results, and membership in the last of them.
use multiagents.Prelude.{
  ℕ, zero, suc, ◌+◌, ◌-◌, ◌≤◌, ◌<◌, ◌≡◌, refl, sym, ap, inl, inr, Bool, true, false, ◌||◌,
  Bool-cases, List, [], ◌∷◌, ◌++◌, append-nil, append_assoc, any, count, drop, length,
  length-append, String, str_eq, str_eq_iff, lookup, or_else, ltb, ◌==◌, if◌then◌else◌, arith,
}
use multiagents.Context.Messages.{Message, tool, system, human, ai}
use multiagents.Context.History.{
  tool_name, append_index, index_message, indexes_by_tool, newest_indexes,
}

abbrev pub is_result_of : String → Message → Bool
is_result_of name (tool m) = str_eq (tool_name m) name
is_result_of name (system s) = false
is_result_of name (human s) = false
is_result_of name (ai m) = false

-- the indexes of a tool's results, from an index on
abbrev pub positions : String → ℕ → List Message → List ℕ
positions name i [] = []
positions name i (m ∷ messages) =
    let rest = positions name (suc i) messages in if is_result_of name m then i ∷ rest else rest

abbrev pub has : ℕ → List ℕ → Bool
has i indexes = any (λ j. i == j) indexes

abbrev pub indexes_of : String → List (String × List ℕ) → List ℕ
indexes_of name by_tool = or_else [] (lookup name by_tool)

append_index-indexes :
    (k name : String) (i : ℕ) (d : List (String × List ℕ))
    → indexes_of name (append_index k i d)
      ≡ (if str_eq k name then indexes_of name d ++ i ∷ [] else indexes_of name d)
unfolding lookup append_index
append_index-indexes k name i [] = ground arith
append_index-indexes k name i ((l, indexes) ∷ d) = elim (Bool-cases (str_eq l k)) [
  | inl same ↦ rw (same, (str_eq_iff l k).0 same) (ground arith)
  | inr other ↦ rw other (
      ground (
        arith,
        other,
        str_eq_iff l k,
        str_eq_iff l name,
        str_eq_iff k name,
        append_index-indexes k name i d,
      ))
]

pub indexes_by_tool-positions :
    (name : String) (i : ℕ) (messages : List Message) (d : List (String × List ℕ))
    → indexes_of name (indexes_by_tool i messages d)
      ≡ indexes_of name d ++ positions name i messages
unfolding indexes_by_tool index_message
indexes_by_tool-positions name i [] d = sym (append-nil (indexes_of name d))
indexes_by_tool-positions name i (system s ∷ messages) d =
    indexes_by_tool-positions name (suc i) messages d
indexes_by_tool-positions name i (human s ∷ messages) d =
    indexes_by_tool-positions name (suc i) messages d
indexes_by_tool-positions name i (ai m ∷ messages) d =
    indexes_by_tool-positions name (suc i) messages d
indexes_by_tool-positions name i (tool m ∷ messages) d =
    elim (Bool-cases (str_eq (tool_name m) name)) [
      | inl same ↦
          rw
            (
              indexes_by_tool-positions name (suc i) messages (append_index (tool_name m) i d),
              append_index-indexes (tool_name m) name i d,
              same,
            )
            (append_assoc (indexes_of name d) (i ∷ []) _)
      | inr other ↦
          rw
            (
              indexes_by_tool-positions name (suc i) messages (append_index (tool_name m) i d),
              append_index-indexes (tool_name m) name i d,
              other,
            )
            refl
    ]

pub positions-append :
    (name : String) (i : ℕ) (xs ys : List Message)
    → positions name i (xs ++ ys) ≡ positions name i xs ++ positions name (i + length xs) ys
positions-append name i [] ys = ap (λ n. positions name n ys) (omega arith)
positions-append name i (x ∷ xs) ys = elim (Bool-cases (is_result_of name x)) [
  | inl result ↦
      rw (result, positions-append name (suc i) xs ys)
        (ap (λ n. i ∷ (positions name (suc i) xs ++ positions name n ys)) (omega arith))
  | inr other ↦
      rw (other, positions-append name (suc i) xs ys)
        (ap (λ n. positions name (suc i) xs ++ positions name n ys) (omega arith))
]

pub length-positions :
    (name : String) (i : ℕ) (messages : List Message)
    → length (positions name i messages) ≡ count (is_result_of name) messages
length-positions name i [] = refl
length-positions name i (m ∷ messages) = ground (arith, length-positions name (suc i) messages)

-- an index before the first, or behind the last
pub has-positions_before :
    (j : ℕ) (name : String) (i : ℕ) (messages : List Message)
    → j < i
    → has j (positions name i messages) ≡ false
has-positions_before j name i [] h = refl
has-positions_before j name i (m ∷ messages) h =
    ground (arith, h, has-positions_before j name (suc i) messages)

pub has-positions_behind :
    (j : ℕ) (name : String) (i : ℕ) (messages : List Message)
    → i + length messages ≤ j
    → has j (positions name i messages) ≡ false
has-positions_behind j name i [] h = refl
has-positions_behind j name i (m ∷ messages) h =
    ground (arith, h, has-positions_behind j name (suc i) messages)

pub has-append : (i : ℕ) (xs ys : List ℕ) → has i (xs ++ ys) ≡ (has i xs || has i ys)
has-append i [] ys = refl
has-append i (x ∷ xs) ys = ground (arith, has-append i xs ys)

has-drop : (i n : ℕ) (xs : List ℕ) → has i xs ≡ false → has i (drop n xs) ≡ false
has-drop i zero xs h = h
has-drop i (suc n) [] h = refl
has-drop i (suc n) (x ∷ xs) h = has-drop i n xs (ground (arith, h))

pub has-newest_indexes :
    (i n : ℕ) (xs : List ℕ) → has i xs ≡ false → has i (newest_indexes n xs) ≡ false
unfolding newest_indexes
has-newest_indexes i zero xs h = refl
has-newest_indexes i (suc n) xs h = has-drop i (length xs - suc n) xs h

has-drop_within : (i n : ℕ) (xs ys : List ℕ) → n ≤ length xs → has i (drop n (xs ++ i ∷ ys)) ≡ true
has-drop_within i zero xs ys h = rw (has-append i xs (i ∷ ys)) (ground arith)
has-drop_within i (suc n) [] ys h = absurd (omega (arith, h))
has-drop_within i (suc n) (x ∷ xs) ys h = has-drop_within i n xs ys (omega (arith, h))

has-drop_beyond :
    (i n : ℕ) (xs ys : List ℕ)
    → length xs < n
    → has i ys ≡ false
    → has i (drop n (xs ++ i ∷ ys)) ≡ false
has-drop_beyond i zero xs ys h k = absurd (omega (arith, h))
has-drop_beyond i (suc n) [] ys h k = has-drop i n ys k
has-drop_beyond i (suc n) (x ∷ xs) ys h k = has-drop_beyond i n xs ys (omega (arith, h)) k

-- an index is among the last n if fewer than n stand behind it
pub has-newest_at :
    (i n : ℕ) (xs ys : List ℕ)
    → has i ys ≡ false
    → has i (newest_indexes n (xs ++ i ∷ ys)) ≡ ltb (length ys) n
unfolding newest_indexes
has-newest_at i zero xs ys h = ground arith
has-newest_at i (suc n) xs ys h = elim (Bool-cases (ltb (length ys) (suc n))) [
  | inl few ↦ rw few (has-drop_within i _ xs ys (ground (arith, few, length-append xs (i ∷ ys))))
  | inr many ↦
      rw many (has-drop_beyond i _ xs ys (ground (arith, many, length-append xs (i ∷ ys))) h)
]
