-- ===== src/Agents/Retry.antt =====
-- src/shared/agents/retry.py: what one failed attempt is, and whether it may repeat. `X` stands for
-- the exceptions that callers raise and `T` for exception classes; `isinstance` is the language's.
pub mod Decisions
use multiagents.Prelude.{
  ℕ, ◌-◌, Bool, true, false, not, ◌&&◌, ◌||◌, Option, none, some, List, [], ◌∷◌, String, any, ltb,
  ◌==◌, if◌then◌else◌,
}
use multiagents.Exec.{Result, ok, err}

pub data RetryPhase : Type 0 where
  invoke parse repair validate validation : RetryPhase

-- `context.phase is phase`: the members of an enumeration are singletons
abbrev pub same_phase : RetryPhase → RetryPhase → Bool
same_phase invoke invoke = true
same_phase parse parse = true
same_phase repair repair = true
same_phase validate validate = true
same_phase validation validation = true
same_phase _ _ = false

-- The exceptions: those that this code raises, and all others.
pub data Exn (X : Type 0) : Type 0 where
  value_error : String → Exn X
  type_error : String → Exn X
  runtime_error : String → Exn X
  stage_validation_error : List String → Exn X
  other : X → Exn X

pub record RetryContext (X : Type 0) : Type 0 where
  pub attempt : ℕ
  pub max_attempts : ℕ
  pub phase : RetryPhase
  pub error : Exn X
  pub issues : List String

pub record RetryPolicy (T : Type 0) : Type 0 where
  pub max_attempts : ℕ
  pub retryable_exceptions : List T
  pub retryable_phases : Option (List RetryPhase)
  pub retryable_exceptions_by_phase : List (RetryPhase × List T)

module _ {X : Type 0} where
  -- `RetryContext(...)` with its `__post_init__`
  unfoldable pub new_context : RetryContext X → Result (Exn X) (RetryContext X)
  new_context c =
      if ltb c.attempt 1
      then err (value_error "attempt must be at least 1")
      else if ltb c.max_attempts c.attempt
      then err (value_error "max_attempts must be greater than or equal to attempt")
      else ok c

  -- never negative: `new_context` has checked that `max_attempts` is the larger
  abbrev pub attempts_remaining : RetryContext X → ℕ
  attempts_remaining c = c.max_attempts - c.attempt

  abbrev pub is_final_attempt : RetryContext X → Bool
  is_final_attempt c = attempts_remaining c == 0

  check_phases : Option (List RetryPhase) → Result (Exn X) (Option (List RetryPhase))
  check_phases (some []) = err (type_error "retryable_phases must contain RetryPhase values")
  check_phases phases = ok phases

  module _ {T : Type 0} where
    -- the loop of `__post_init__` over the pairs; `seen` is `seen_phases`
    check_pairs : List RetryPhase → List (RetryPhase × List T) → Result (Exn X) (List RetryPhase)
    check_pairs seen [] = ok seen
    check_pairs seen ((phase, []) ∷ rest) =
        if any (same_phase phase) seen
        then err (value_error "retryable_exceptions_by_phase must not contain duplicate phases")
        else err (type_error "phase-specific retryable exceptions must be a non-empty tuple")
    check_pairs seen ((phase, t ∷ ts) ∷ rest) =
        let more = check_pairs (phase ∷ seen) rest in
        if any (same_phase phase) seen
        then err (value_error "retryable_exceptions_by_phase must not contain duplicate phases")
        else more

    finish_policy :
        RetryPolicy T → Result (Exn X) (List RetryPhase) → Result (Exn X) (RetryPolicy T)
    finish_policy p (ok _) = ok p
    finish_policy p (err e) = err e

    after_phases :
        RetryPolicy T → Result (Exn X) (Option (List RetryPhase)) → Result (Exn X) (RetryPolicy T)
    unfolding check_pairs finish_policy
    after_phases p (ok _) = finish_policy p (check_pairs [] p.retryable_exceptions_by_phase)
    after_phases p (err e) = err e

    -- `RetryPolicy(...)` with its `__post_init__`; the tests on types are the model's types
    unfoldable pub new_policy : RetryPolicy T → Result (Exn X) (RetryPolicy T)
    unfolding after_phases check_phases
    new_policy p =
        if ltb p.max_attempts 1
        then err (value_error "max_attempts must be at least 1")
        else after_phases p (check_phases p.retryable_phases)

    unfoldable pub failure_context :
        RetryPolicy T → ℕ → RetryPhase → Exn X → List String → Result (Exn X) (RetryContext X)
    unfolding new_context
    failure_context p attempt phase error issues = new_context (record {
      attempt = attempt;
      max_attempts = p.max_attempts;
      phase = phase;
      error = error;
      issues = issues;
    })

    module _ (isinstance : Exn X → T → Bool) where
      -- `isinstance(e, classes)` for a tuple of classes
      abbrev pub isinstance_any : Exn X → List T → Bool
      isinstance_any e classes = any (isinstance e) classes

      -- the `for` over the pairs: the first pair of the phase decides
      by_phase : List (RetryPhase × List T) → RetryContext X → Bool
      by_phase [] c = false
      by_phase ((phase, classes) ∷ rest) c =
          if same_phase c.phase phase then isinstance_any c.error classes else by_phase rest c

      -- `retryable_phases is not None and context.phase not in retryable_phases`
      phase_excluded : Option (List RetryPhase) → RetryPhase → Bool
      phase_excluded none phase = false
      phase_excluded (some phases) phase = not (any (same_phase phase) phases)

      by_filters : RetryPolicy T → List (RetryPhase × List T) → RetryContext X → Bool
      unfolding by_phase phase_excluded
      by_filters p (pair ∷ rest) c = by_phase (pair ∷ rest) c
      by_filters p [] c =
          if phase_excluded p.retryable_phases c.phase
          then false
          else isinstance_any c.error p.retryable_exceptions

      unfoldable pub should_retry : RetryPolicy T → RetryContext X → Bool
      unfolding by_filters
      should_retry p c =
          if not (c.max_attempts == p.max_attempts) || is_final_attempt c
          then false
          else by_filters p p.retryable_exceptions_by_phase c
