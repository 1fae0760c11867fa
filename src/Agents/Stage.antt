-- ===== src/Agents/Stage.antt =====
-- src/shared/agents/stage.py: `StageRunner`, which runs one agent stage under a retry policy. The
-- caller's callbacks act on a world `W` of their own and may raise any exception.
pub mod Passes
pub mod Runs
use multiagents.Prelude.{
  ℕ, zero, suc, ◌+◌, Bool, true, false, Option, none, some, List, [], ◌∷◌, ◌++◌, String, leb,
  if◌then◌else◌,
}
use multiagents.Exec.{Result, ok, err, Exec, pure, raise, lift, try_then, ◌>>=◌, ◌>>◌}
use multiagents.Agents.Retry.{
  RetryPhase, invoke, parse, repair, validate, validation, Exn, type_error, runtime_error,
  stage_validation_error, RetryContext, RetryPolicy, failure_context, should_retry,
}

pub record StageAttempt : Type 0 where
  pub attempt : ℕ
  pub max_attempts : ℕ

-- What a validator may return: `None`, one text, or several.
pub data Issues : Type 0 where
  nothing : Issues
  one : String → Issues
  several : List String → Issues

unfoldable pub normalize_issues : Issues → List String
normalize_issues nothing = []
normalize_issues (one issue) = issue ∷ []
normalize_issues (several issues) = issues

module _ (W X : Type 0) where
  abbrev pub Call : Type 0 → Type 0
  Call A = Exec W (Exn X) A

-- The arguments of `StageRunner.run`. A `validation_error` that returns no exception gives `none`.
pub record Callbacks (W X V : Type 0) : Type 0 where
  pub invoke_call : StageAttempt → Call W X V
  pub before_attempt : Option (StageAttempt → Call W X Unit)
  pub parse_call : Option (V → StageAttempt → Call W X V)
  pub repair_call : Option (V → StageAttempt → Call W X V)
  pub validate_call : Option (V → StageAttempt → Call W X Issues)
  pub validation_error : Option (List String → Call W X (Option (Exn X)))
  pub on_failure : Option (RetryContext X → Call W X Unit)
  pub on_retry : Option (RetryContext X → Call W X Unit)

-- The runner's fields, beside the world of the callbacks.
pub record Runner (W X : Type 0) : Type 0 where
  pub world : W
  pub last_failure : Option (RetryContext X)
  pub failure_history : List (RetryContext X)

module _ {W X : Type 0} where
  -- a callback changes the world and leaves the runner's own fields
  unfoldable pub call : {A : Type 0} → Call W X A → Exec (Runner W X) (Exn X) A
  call m s = let (r, w) = m s.world in (r, record s { world = w })

-- How one pass of the loop ends: `return value`, or `continue`.
pub data Pass (V : Type 0) : Type 0 where
  returned : V → Pass V
  again : Pass V

module _ {W X : Type 0} where
  -- the two assignments of `_record_failure`
  note_failure : RetryContext X → Exec (Runner W X) (Exn X) Unit
  note_failure c s =
      (ok tt, record s { last_failure = some c; failure_history = s.failure_history ++ c ∷ [] })

  -- `if callback is not None: callback(c)`
  tell : Option (RetryContext X → Call W X Unit) → RetryContext X → Exec (Runner W X) (Exn X) Unit
  unfolding call
  tell none c = pure tt
  tell (some callback) c = call (callback c)

  module _ {V T : Type 0} (isinstance : Exn X → T → Bool) (policy : RetryPolicy T)
      (cb : Callbacks W X V) where
    unfoldable pub record_failure :
        StageAttempt → RetryPhase → Exn X → List String → Exec (Runner W X) (Exn X) (RetryContext X)
    unfolding note_failure tell ◌>>=◌ ◌>>◌
    record_failure a phase error issues = do
      context ← lift (failure_context policy a.attempt phase error issues)
      note_failure context
      tell cb.on_failure context
      pure context

    unfoldable pub schedule_retry : RetryContext X → Exec (Runner W X) (Exn X) Bool
    unfolding tell ◌>>=◌ ◌>>◌
    schedule_retry c =
        if should_retry isinstance policy c then (do tell cb.on_retry c; pure true) else pure false

    -- the body of each `except`, and the end of a pass whose validator found issues
    unfoldable pub failed :
        StageAttempt → RetryPhase → List String → Exn X → Exec (Runner W X) (Exn X) (Pass V)
    unfolding record_failure schedule_retry ◌>>=◌
    failed a phase issues error = do
      context ← record_failure a phase error issues
      retry ← schedule_retry context
      if retry then pure again else raise error

    start : Option (StageAttempt → Call W X Unit) → StageAttempt → Exec (Runner W X) (Exn X) Unit
    unfolding call
    start none a = pure tt
    start (some before) a = call (before a)

    transform :
        Option (V → StageAttempt → Call W X V) → V → StageAttempt → Exec (Runner W X) (Exn X) V
    unfolding call
    transform none v a = pure v
    transform (some f) v a = call (f v a)

    -- `(validation_error or StageValidationError)(issues)`
    make_error :
        Option (List String → Call W X (Option (Exn X)))
        → List String
        → Exec (Runner W X) (Exn X) (Option (Exn X))
    unfolding call
    make_error none issues = pure (some (stage_validation_error issues))
    make_error (some f) issues = call (f issues)

    finish_issues : StageAttempt → List String → Option (Exn X) → Exec (Runner W X) (Exn X) (Pass V)
    unfolding failed
    finish_issues a issues none =
        raise (type_error "validation_error must return an Exception instance")
    finish_issues a issues (some error) = failed a validation issues error

    judge : StageAttempt → V → List String → Exec (Runner W X) (Exn X) (Pass V)
    unfolding make_error finish_issues ◌>>=◌
    judge a v [] = pure (returned v)
    judge a v (issue ∷ issues) = do
      error ← make_error cb.validation_error (issue ∷ issues)
      finish_issues a (issue ∷ issues) error

    check :
        Option (V → StageAttempt → Call W X Issues)
        → StageAttempt
        → V
        → Exec (Runner W X) (Exn X) (Pass V)
    unfolding call failed judge try_then normalize_issues
    check none a v = pure (returned v)
    check (some f) a v =
        try_then (call (f v a)) (λ issues. judge a v (normalize_issues issues))
          (failed a validate [])

    -- one pass of the `for` loop of `run`
    unfoldable pub attempt_once : StageAttempt → Exec (Runner W X) (Exn X) (Pass V)
    unfolding start transform check failed call try_then ◌>>=◌ ◌>>◌
    attempt_once a = do
      start cb.before_attempt a
      try_then (call (cb.invoke_call a))
          (λ v.
            try_then (transform cb.parse_call v a)
              (λ parsed.
                try_then (transform cb.repair_call parsed a) (check cb.validate_call a)
                  (failed a repair []))
              (failed a parse []))
          (failed a invoke [])

    next_pass : Exec (Runner W X) (Exn X) V → Pass V → Exec (Runner W X) (Exn X) V
    next_pass rest (returned v) = pure v
    next_pass rest again = rest

    -- the loop from attempt `n` on, with `left` attempts left in the range; `exhausted` is what
    -- the statement behind the loop raises
    loop : Exn X → ℕ → ℕ → Exec (Runner W X) (Exn X) V
    unfolding next_pass ◌>>=◌
    loop exhausted zero n = raise exhausted
    loop exhausted (suc left) n =
        let rest = loop exhausted left (suc n) in
        attempt_once (record { attempt = n; max_attempts = policy.max_attempts }) >>= next_pass rest

    -- `run`, from the world of the callbacks
    unfoldable pub run_with : Exn X → W → Result (Exn X) V × Runner W X
    unfolding loop attempt_once
    run_with exhausted w =
        loop exhausted policy.max_attempts 1
          (record { world = w; last_failure = none; failure_history = [] })

    unfoldable pub run : W → Result (Exn X) V × Runner W X
    unfolding run_with
    run = run_with (runtime_error "StageRunner exhausted without a terminal result")
