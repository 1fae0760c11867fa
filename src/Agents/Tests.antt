-- ===== src/Agents/Tests.antt =====
-- The retry policy and the stage runner on concrete inputs. The world counts the invocations.
use multiagents.Prelude.{
  ℕ, ◌+◌, ◌≡◌, refl, Bool, true, none, some, [], ◌∷◌, ltb, if◌then◌else◌, arith,
}
use multiagents.Exec.{ok, err}
use multiagents.Agents.Retry.{
  Exn, value_error, type_error, other, RetryPolicy, new_policy, should_retry, failure_context,
}
use multiagents.Agents.Stage.{Callbacks, one, nothing, run, run_with}
use multiagents.Agents.Stage.Runs.{IsAccounted, run-IsAccounted, run_never_exhausted}

-- the only class is `Exception`, and every exception is one
abbrev every : Exn Unit → Unit {0} → Bool
every e t = true

abbrev thrice : RetryPolicy Unit
thrice = record {
  max_attempts = 3;
  retryable_exceptions = tt ∷ [];
  retryable_phases = none;
  retryable_exceptions_by_phase = [];
}

-- The second invocation is the first that does not raise, and its value passes the validator.
abbrev second_works : Callbacks ℕ Unit ℕ
second_works = record {
  invoke_call = λ a w. if ltb w 1 then (err (other tt), w + 1) else (ok 7, w + 1);
  before_attempt = none;
  parse_call = none;
  repair_call = none;
  validate_call = some (λ v a w. (ok nothing, w));
  validation_error = none;
  on_failure = none;
  on_retry = none;
}

-- Every value is found wanting.
abbrev never_valid : Callbacks ℕ Unit ℕ
never_valid = record second_works { validate_call = some (λ v a w. (ok (one "bad"), w)) }

second_works_returns : (run every thrice second_works 0).0 ≡ ok 7
unfolding run failure_context should_retry
second_works_returns = refl

never_valid_invokes_thrice : (run every thrice never_valid 0).1.world ≡ 3
unfolding run failure_context should_retry
never_valid_invokes_thrice = refl

empty_policy_refused :
    new_policy {X = Unit} (record thrice { max_attempts = 0 })
    ≡ err (value_error "max_attempts must be at least 1")
unfolding new_policy
empty_policy_refused = refl

no_phase_refused :
    new_policy {X = Unit} (record thrice { retryable_phases = some [] })
    ≡ err (type_error "retryable_phases must contain RetryPhase values")
unfolding new_policy
no_phase_refused = refl

run-IsAccounted_example : IsAccounted every thrice never_valid (run every thrice never_valid 0)
run-IsAccounted_example = run-IsAccounted every thrice never_valid 0

run_never_exhausted_example :
    run every thrice never_valid 0 ≡ run_with every thrice never_valid (other tt) 0
run_never_exhausted_example =
    run_never_exhausted every thrice never_valid (other tt) 0 (omega arith)
