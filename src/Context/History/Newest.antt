-- ===== src/Context/History/Newest.antt =====
-- What the compaction of a history keeps: of each tool the newest results, and all other messages.
use multiagents.Prelude.{
  ℕ, suc, ◌≡◌, ◌∙◌, refl, sym, ap, inl, inr, Bool, true, false, Bool-cases, none, List, [], ◌∷◌,
  ◌++◌, append_assoc, count, length, length-append, String, str_eq, str_eq_iff, lookup, or_else,
  ltb, if◌then◌else◌, arith,
}
use multiagents.Context.Messages.{ToolMessage, Message, tool, system, human, ai}
use multiagents.Context.Policy.{ContextPolicy}
use multiagents.Context.History.{
  tool_history_keep_count, tool_name, append_index, index_message, indexes_by_tool, newest_indexes,
  keep_from, tool_history_keep_indexes, omit, compact_from, compact_tool_history,
}
use multiagents.Context.History.Positions.{
  is_result_of, positions, has, indexes_of, indexes_by_tool-positions, positions-append,
  length-positions, has-positions_before, has-positions_behind, has-append, has-newest_indexes,
  has-newest_at,
}

-- each name stands once among the keys
abbrev IsKeyed : List (String × List ℕ) → Type 0
IsKeyed [] = Unit
IsKeyed ((k, indexes) ∷ d) = (lookup k d ≡ none) × IsKeyed d

append_index-lookup :
    (k l : String) (i : ℕ) (d : List (String × List ℕ))
    → str_eq l k ≡ false
    → lookup l d ≡ none
    → lookup l (append_index k i d) ≡ none
unfolding append_index lookup
append_index-lookup k l i [] h e = ground (arith, h, str_eq_iff k l, str_eq_iff l k)
append_index-lookup k l i ((m, indexes) ∷ d) h e = elim (Bool-cases (str_eq m k)) [
  | inl same ↦ rw same (ground (arith, e))
  | inr other ↦ rw other (ground (arith, e, append_index-lookup k l i d h))
]

append_index-IsKeyed :
    (k : String) (i : ℕ) (d : List (String × List ℕ)) → IsKeyed d → IsKeyed (append_index k i d)
unfolding append_index
append_index-IsKeyed k i [] h = (unfold lookup in refl, tt)
append_index-IsKeyed k i ((l, indexes) ∷ d) (fresh, h) = elim (Bool-cases (str_eq l k)) [
  | inl same ↦ rw same (fresh, h)
  | inr other ↦ rw other (append_index-lookup k l i d other fresh, append_index-IsKeyed k i d h)
]

indexes_by_tool-IsKeyed :
    (i : ℕ) (messages : List Message) (d : List (String × List ℕ))
    → IsKeyed d
    → IsKeyed (indexes_by_tool i messages d)
unfolding indexes_by_tool index_message
indexes_by_tool-IsKeyed i [] d h = h
indexes_by_tool-IsKeyed i (tool m ∷ messages) d h =
    indexes_by_tool-IsKeyed (suc i) messages _ (append_index-IsKeyed (tool_name m) i d h)
indexes_by_tool-IsKeyed i (system s ∷ messages) d h = indexes_by_tool-IsKeyed (suc i) messages d h
indexes_by_tool-IsKeyed i (human s ∷ messages) d h = indexes_by_tool-IsKeyed (suc i) messages d h
indexes_by_tool-IsKeyed i (ai m ∷ messages) d h = indexes_by_tool-IsKeyed (suc i) messages d h

indexes_of_first :
    (name k : String) (indexes : List ℕ) (d : List (String × List ℕ))
    → indexes_of name ((k, indexes) ∷ d) ≡ (if str_eq k name then indexes else indexes_of name d)
unfolding lookup
indexes_of_first name k indexes d = elim (Bool-cases (str_eq k name)) [
  | inl same ↦ rw same refl
  | inr other ↦ rw other refl
]

-- an index that no tool of another name has
abbrev IsOwn : ℕ → String → List (String × List ℕ) → Type 0
IsOwn i name d = (k : String) → str_eq k name ≡ false → has i (indexes_of k d) ≡ false

module _ (p : ContextPolicy) (i : ℕ) (name : String) where
  IsOwn-rest :
      (k : String) (indexes : List ℕ) (d : List (String × List ℕ))
      → lookup k d ≡ none
      → IsOwn i name ((k, indexes) ∷ d)
      → IsOwn i name d
  unfolding lookup
  IsOwn-rest k indexes d fresh own l other = elim (Bool-cases (str_eq k l)) [
    | inl same ↦ rw (sym ((str_eq_iff k l).0 same), fresh) refl
    | inr differs ↦ rw differs at (own l other)
  ]

  own_first :
      (k : String) (indexes : List ℕ) (d : List (String × List ℕ))
      → str_eq k name ≡ false
      → IsOwn i name ((k, indexes) ∷ d)
      → has i indexes ≡ false
  own_first k indexes d other own =
      rw (indexes_of_first k k indexes d, (str_eq_iff k k).1 refl) at (own k other)

  keep_from-has :
      (d : List (String × List ℕ))
      → IsKeyed d
      → IsOwn i name d
      → has i (keep_from p d)
        ≡ has i (newest_indexes (tool_history_keep_count p name) (indexes_of name d))
  unfolding keep_from
  keep_from-has [] h own =
      unfold lookup in sym (has-newest_indexes i (tool_history_keep_count p name) [] refl)
  keep_from-has ((k, indexes) ∷ d) (fresh, h) own =
      let rest = keep_from-has d h (IsOwn-rest k indexes d fresh own) in
      rw
        (
          has-append i (newest_indexes (tool_history_keep_count p k) indexes) (keep_from p d),
          indexes_of_first name k indexes d,
        )
        (elim (Bool-cases (str_eq k name)) [
          | inl same ↦
              rw (same, (str_eq_iff k name).0 same)
                (ground (
                  arith,
                  rest
                      ∙ ap
                          (λ o.
                            has i (newest_indexes (tool_history_keep_count p name) (or_else [] o)))
                          (rw ((str_eq_iff k name).0 same) at fresh),
                  has-newest_indexes i (tool_history_keep_count p name) [] refl,
                ))
          | inr other ↦ rw other (
              ground (
                arith,
                rest,
                has-newest_indexes i (tool_history_keep_count p k) indexes
                    (own_first k indexes d other own),
              ))
        ])

all_positions :
    (name : String) (messages : List Message)
    → indexes_of name (indexes_by_tool 0 messages []) ≡ positions name 0 messages
unfolding lookup
all_positions name messages = indexes_by_tool-positions name 0 messages []

-- what is said of the messages around one
module _ (before : List Message) (m : ToolMessage) (after : List Message) where
  positions_at :
      (name : String)
      → positions name 0 (before ++ tool m ∷ after)
        ≡ positions name 0 before
          ++ (if str_eq (tool_name m) name
              then length before ∷ positions name (suc (length before)) after
              else positions name (suc (length before)) after)
  positions_at name =
      positions-append name 0 before (tool m ∷ after)
      ∙ ap (λ n. positions name 0 before ++ positions name n (tool m ∷ after)) (omega arith)

  IsOwn-at : IsOwn (length before) (tool_name m) (indexes_by_tool 0 (before ++ tool m ∷ after) [])
  IsOwn-at k other =
      rw
        (
          all_positions k (before ++ tool m ∷ after),
          positions_at k,
          str_eq_off k other,
          has-append (length before) (positions k 0 before)
              (positions k (suc (length before)) after),
          has-positions_behind (length before) k 0 before (omega arith),
          has-positions_before (length before) k (suc (length before)) after (omega arith),
        )
        refl
    where
      str_eq_off : (l : String) → str_eq l (tool_name m) ≡ false → str_eq (tool_name m) l ≡ false
      str_eq_off l h = ground (arith, h, str_eq_iff l (tool_name m), str_eq_iff (tool_name m) l)

  -- a result is kept if few enough of its tool's come after it
  kept_at :
      (p : ContextPolicy)
      → has (length before) (tool_history_keep_indexes p (before ++ tool m ∷ after))
        ≡ ltb (count (is_result_of (tool_name m)) after) (tool_history_keep_count p (tool_name m))
  unfolding tool_history_keep_indexes
  kept_at p =
      keep_from-has p (length before) (tool_name m)
        (indexes_by_tool 0 (before ++ tool m ∷ after) [])
        (indexes_by_tool-IsKeyed 0 (before ++ tool m ∷ after) [] tt) IsOwn-at
      ∙ rw
          (
            all_positions (tool_name m) (before ++ tool m ∷ after),
            positions_at (tool_name m),
            (str_eq_iff (tool_name m) (tool_name m)).1 refl,
            has-newest_at (length before) (tool_history_keep_count p (tool_name m))
                (positions (tool_name m) 0 before)
                (positions (tool_name m) (suc (length before)) after)
                (has-positions_before (length before) (tool_name m) (suc (length before)) after
                  (omega arith)),
            length-positions (tool_name m) (suc (length before)) after,
          )
          refl

-- The messages, each result of a tool that has enough later ones with its content replaced.
abbrev pub newest : ContextPolicy → List Message → List Message
newest p [] = []
newest p (system s ∷ after) = system s ∷ newest p after
newest p (human s ∷ after) = human s ∷ newest p after
newest p (ai m ∷ after) = ai m ∷ newest p after
newest p (tool m ∷ after) =
    (if ltb (count (is_result_of (tool_name m)) after) (tool_history_keep_count p (tool_name m))
      then tool m
      else omit (tool m))
    ∷ newest p after

if_same : (b : Bool) (m : Message) → (if b then m else m) ≡ m
if_same true m = refl
if_same false m = refl

module _ (p : ContextPolicy) (whole : List Message) where
  compact_from-newest :
      (before messages : List Message) (i : ℕ)
      → whole ≡ before ++ messages
      → i ≡ length before
      → compact_from (tool_history_keep_indexes p whole) i messages ≡ newest p messages
  unfolding compact_from omit
  compact_from-newest before [] i e n = refl
  compact_from-newest before (system s ∷ messages) i e n =
      rw
        (
          if_same (has i (tool_history_keep_indexes p whole)) (system s),
          compact_from-newest (before ++ system s ∷ []) messages (suc i)
              (e ∙ sym (append_assoc before (system s ∷ []) messages))
              (omega (arith, n, length-append before (system s ∷ []))),
        )
        refl
  compact_from-newest before (human s ∷ messages) i e n =
      rw
        (
          if_same (has i (tool_history_keep_indexes p whole)) (human s),
          compact_from-newest (before ++ human s ∷ []) messages (suc i)
              (e ∙ sym (append_assoc before (human s ∷ []) messages))
              (omega (arith, n, length-append before (human s ∷ []))),
        )
        refl
  compact_from-newest before (ai m ∷ messages) i e n =
      rw
        (
          if_same (has i (tool_history_keep_indexes p whole)) (ai m),
          compact_from-newest (before ++ ai m ∷ []) messages (suc i)
              (e ∙ sym (append_assoc before (ai m ∷ []) messages))
              (omega (arith, n, length-append before (ai m ∷ []))),
        )
        refl
  compact_from-newest before (tool m ∷ messages) i e n =
      rw
        (
          kept,
          compact_from-newest (before ++ tool m ∷ []) messages (suc i)
              (e ∙ sym (append_assoc before (tool m ∷ []) messages))
              (omega (arith, n, length-append before (tool m ∷ []))),
        )
        refl
    where
      kept :
          has i (tool_history_keep_indexes p whole)
          ≡ ltb
              (count (is_result_of (tool_name m)) messages)
              (tool_history_keep_count p (tool_name m))
      kept = rw (n, e) (kept_at before m messages p)

-- Compacting a history by the indexes of each tool's results does what one pass does that counts the
-- results behind each: of every tool the newest results stay, as many as its limit says, the content
-- of the older ones is replaced, and every other message stays as it is.
pub compact_tool_history-newest :
    (p : ContextPolicy) (messages : List Message)
    → compact_tool_history p messages ≡ newest p messages
unfolding compact_tool_history
compact_tool_history-newest p messages = compact_from-newest p messages [] messages 0 refl refl
