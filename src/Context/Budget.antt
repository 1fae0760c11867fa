-- ===== src/Context/Budget.antt =====
-- src/shared/runtime/core/token_budget.py: `TokenBudget`, without `pressure`, a float that nothing here
-- reads.
use multiagents.Prelude.{
  ℕ, ◌+◌, ◌-◌, ◌≤◌, ◌<◌, ◌≡◌, refl, Bool, true, Option, none, some, List, [], ◌∷◌, String, lookup,
  assign, or_else, lookup-assign, leb, leb→le, arith,
}

pub record TokenBudget : Type 0 where
  pub total_limit : ℕ
  pub reserved_output_tokens : ℕ
  pub safety_margin_tokens : ℕ
  pub system_prompt_tokens : ℕ
  pub tool_definitions_tokens : ℕ
  pub consumed_by : List (String × ℕ)

unfoldable pub usable_limit : TokenBudget → ℕ
usable_limit b =
    b.total_limit - b.reserved_output_tokens - b.safety_margin_tokens - b.system_prompt_tokens
    - b.tool_definitions_tokens

unfoldable pub record_tokens : String → ℕ → TokenBudget → TokenBudget
unfolding lookup assign
record_tokens agent tokens b = record b {
  consumed_by = assign agent (or_else 0 (lookup agent b.consumed_by) + tokens) b.consumed_by;
}

-- `sum(self._consumed.values())`
unfoldable pub sum_values : List (String × ℕ) → ℕ
sum_values [] = 0
sum_values ((k, v) ∷ rest) = v + sum_values rest

-- one agent's tokens, or those of all
unfoldable pub consumed : Option String → TokenBudget → ℕ
unfolding lookup sum_values
consumed (some agent) b = or_else 0 (lookup agent b.consumed_by)
consumed none b = sum_values b.consumed_by

unfoldable pub remaining : Option String → TokenBudget → ℕ
unfolding usable_limit consumed
remaining agent b = usable_limit b - consumed agent b

unfoldable pub can_fit : ℕ → String → TokenBudget → Bool
unfolding remaining
can_fit tokens agent b = leb tokens (remaining (some agent) b)

sum_values-assign :
    (agent : String) (tokens : ℕ) (d : List (String × ℕ))
    → sum_values (assign agent (or_else 0 (lookup agent d) + tokens) d) ≡ sum_values d + tokens
unfolding sum_values assign lookup
sum_values-assign agent tokens [] = omega arith
sum_values-assign agent tokens ((k, v) ∷ rest) = ground (arith, sum_values-assign agent tokens rest)

-- Recording tokens adds exactly them to what the agent has consumed and to what all have, and an
-- agent for whom a positive number fits stays within the usable limit when they are recorded.
pub record_tokens_adds :
    (agent : String) (tokens : ℕ) (b : TokenBudget)
    → (consumed (some agent) (record_tokens agent tokens b) ≡ consumed (some agent) b + tokens)
      × (consumed none (record_tokens agent tokens b) ≡ consumed none b + tokens)
      × (0 < tokens
          → can_fit tokens agent b ≡ true
          → consumed (some agent) (record_tokens agent tokens b) ≤ usable_limit b)
unfolding consumed record_tokens can_fit
record_tokens_adds agent tokens b =
    let added = or_else 0 (lookup agent b.consumed_by) + tokens in
    let found = lookup-assign agent added b.consumed_by in
    (
      rw found refl,
      sum_values-assign agent tokens b.consumed_by,
      λ pos fits. rw found (omega (arith, leb→le _ _ fits, pos)),
    )
