-- ===== src/Context/Sections/Tail.antt =====
-- The binary search for the longest end of a text that is within a token limit.
use multiagents.Prelude.{
  ℕ, zero, suc, ◌+◌, ◌-◌, ◌/◌, ◌≤◌, ◌<◌, ◌≡◌, refl, ap, inl, inr, Bool-cases, Option, some, [],
  length, leb, leb→le, arith,
}
use multiagents.Context.Sections.{
  Text, Counter, from_end, search_tail, tail_of, found_tail, tail_within_tokens,
}

module _ (count : Counter) (text : Text) (limit : ℕ) where
  -- a length that the search may settle on
  abbrev pub IsFit : ℕ → Type 0
  IsFit zero = Unit
  IsFit (suc n) = count (from_end (suc n) text) ≤ limit

  fit : (n : ℕ) → count (from_end n text) ≤ limit → IsFit n
  fit zero h = tt
  fit (suc n) h = h

  -- A longer end of the text never has fewer tokens.
  abbrev pub IsMonotone : Type 0
  IsMonotone =
      (m n : ℕ)
      → 1 ≤ m
      → m ≤ n
      → n ≤ length text
      → count (from_end m text) ≤ count (from_end n text)

  -- what the search finds between `low` and `high`
  abbrev pub IsFound : ℕ → ℕ → ℕ → Type 0
  IsFound low high r =
      (low ≤ r)
      × (r ≤ high)
      × IsFit r
      × (IsMonotone → (m : ℕ) → r < m → m ≤ high → limit < count (from_end m text))

  abbrev pub Finds : ℕ → ℕ → Option ℕ → Type 0
  Finds low high o = (r : ℕ) × (o ≡ some r) × IsFound low high r

  Finds-wider : (low mid high : ℕ) (o : Option ℕ) → low ≤ mid → Finds mid high o → Finds low high o
  Finds-wider low mid high o h (r, e, (l, u, ok_r, longest)) =
      (r, e, (omega (arith, h, l), u, ok_r, longest))

  Finds-narrower :
      (low mid high : ℕ) (o : Option ℕ)
      → 1 ≤ mid
      → mid ≤ high
      → high ≤ length text
      → limit < count (from_end mid text)
      → Finds low (mid - 1) o
      → Finds low high o
  Finds-narrower low mid high o pos h len over (r, e, (l, u, ok_r, longest)) =
      (r, e, (l, omega (arith, h, u), ok_r, above))
    where
      above : IsMonotone → (m : ℕ) → r < m → m ≤ high → limit < count (from_end m text)
      above mono m lt le = elim (Bool-cases (leb m (mid - 1))) [
        | inl below ↦ longest mono m lt (leb→le _ _ below)
        | inr beyond ↦
            omega
              (arith, over, mono mid m pos (ground (arith, beyond, pos)) (omega (arith, le, len)))
      ]

  pub search_tail-Finds :
      (fuel low high : ℕ)
      → high - low < fuel
      → low ≤ high
      → high ≤ length text
      → IsFit low
      → Finds low high (search_tail count text limit fuel low high)
  unfolding search_tail
  search_tail-Finds zero low high f le len ok_low = absurd (omega (arith, f))
  search_tail-Finds (suc fuel) low high f le len ok_low = elim (Bool-cases (leb high low)) [
    | inl done ↦ rw done (
      low,
      refl,
      (omega arith, le, ok_low, λ _ m lt h. absurd (omega (arith, leb→le _ _ done, lt, h))),
    )
    | inr more ↦ rw more (
        let mid : ℕ = (low + high + 1) / 2 in
        let lt : low < high = ground (arith, more) in
        elim (Bool-cases (leb (count (from_end mid text)) limit)) [
          | inl fits ↦ rw fits (
              Finds-wider low mid high _ (omega (arith, lt)) (
                search_tail-Finds fuel mid high (omega (arith, f, lt)) (omega (arith, lt)) len
                  (fit mid (leb→le _ _ fits))))
          | inr over ↦ rw over (
              Finds-narrower low mid high _ (omega (arith, lt)) (omega (arith, lt)) len
                (ground (arith, over))
                (search_tail-Finds fuel low (mid - 1) (omega (arith, f, lt)) (omega (arith, lt))
                  (omega (arith, lt, len)) ok_low))
        ])
  ]

  -- A tail within the limit, no longer one of which is.
  abbrev pub IsLongestTail : Text → Type 0
  IsLongestTail tail =
      (n : ℕ) × (tail ≡ tail_of text n)
      × (n ≤ length text)
      × (count tail ≤ limit)
      × (IsMonotone → (m : ℕ) → n < m → m ≤ length text → limit < count (from_end m text))

  tail_count : count [] ≡ 0 → (n : ℕ) → IsFit n → count (tail_of text n) ≤ limit
  unfolding tail_of
  tail_count e zero h = omega (arith, e)
  tail_count e (suc n) h = h

  -- The binary search ends, and what it returns is an end of the text within the token limit, if
  -- the empty text has no tokens. If moreover a longer end never has fewer tokens, it is the longest.
  pub tail_within_tokens-IsLongestTail :
      count [] ≡ 0
      → (tail : Text) × (tail_within_tokens count text limit ≡ some tail) × IsLongestTail tail
  unfolding tail_within_tokens
  tail_within_tokens-IsLongestTail e =
      let (n, f, (l, u, ok_n, longest)) =
        search_tail-Finds (suc (length text)) 0 (length text) (omega arith) (omega arith)
          (omega arith) tt in
      (tail_of text n, ap (found_tail text) f, (n, refl, u, tail_count e n ok_n, longest))
