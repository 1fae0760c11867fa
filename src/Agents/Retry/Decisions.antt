-- ===== src/Agents/Retry/Decisions.antt =====
-- What a retry policy allows.
use multiagents.Prelude.{ℕ, ◌≤◌, ◌<◌, ◌≡◌, Bool, true, List, String, arith}
use multiagents.Exec.{ok}
use multiagents.Agents.Retry.{
  RetryPhase, Exn, RetryContext, RetryPolicy, failure_context, should_retry,
}

module _ {X T : Type 0} where
  -- the context of an attempt within the bounds is never refused
  pub failure_context-ok :
      (p : RetryPolicy T) (n : ℕ) (phase : RetryPhase) (e : Exn X) (issues : List String)
      → 1 ≤ n
      → n ≤ p.max_attempts
      → failure_context p n phase e issues
        ≡ ok (record {
          attempt = n;
          max_attempts = p.max_attempts;
          phase = phase;
          error = e;
          issues = issues;
        })
  unfolding failure_context
  failure_context-ok p n phase e issues low high = ground arith

  -- a policy never allows another attempt after the last one
  pub should_retry-lt :
      (isinstance : Exn X → T → Bool) (p : RetryPolicy T) (c : RetryContext X)
      → should_retry isinstance p c ≡ true
      → (c.attempt < p.max_attempts) × (c.max_attempts ≡ p.max_attempts)
  unfolding should_retry
  should_retry-lt isinstance p c h = ground arith
