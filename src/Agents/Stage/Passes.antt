-- ===== src/Agents/Stage/Passes.antt =====
-- What one pass of the runner's loop does to its record of failures.
use multiagents.Prelude.{
  ℕ, ◌≤◌, ◌≡◌, refl, Bool, true, inl, inr, Option, none, some, List, [], ◌∷◌, ◌++◌, String,
  if◌then◌else◌, Bool-cases,
}
use multiagents.Exec.{Result, ok, err, Exec, pure, raise, try_then, ◌>>=◌, ◌>>◌}
use multiagents.Agents.Retry.{
  RetryPhase, invoke, parse, repair, validate, validation, Exn, RetryContext, RetryPolicy,
  should_retry,
}
use multiagents.Agents.Retry.Decisions.{failure_context-ok}
use multiagents.Agents.Stage.{
  StageAttempt, Call, Callbacks, Runner, Pass, returned, again, Issues, call, tell, record_failure,
  schedule_retry, failed, start, transform, make_error, finish_issues, judge, check, attempt_once,
  normalize_issues,
}

-- The runner once a failure is on record.
abbrev pub noted : {W X : Type 0} → Runner W X → RetryContext X → W → Runner W X
noted s c w = record s {
  world = w;
  last_failure = some c;
  failure_history = s.failure_history ++ c ∷ [];
}

module _ {W X : Type 0} where
  module _ {A : Type 0} (s : Runner W X) (P : Result (Exn X) A × Runner W X → Type 0)
      (gives : (a : A) (w : W) → P (ok a, record s { world = w }))
      (raises : (e : Exn X) (w : W) → P (err e, record s { world = w })) where
    after : (r : Result (Exn X) A × W) → P (r.0, record s { world = r.1 })
    after (ok a, w) = gives a w
    after (err e, w) = raises e w

    -- What holds after each way that a callback may end holds after its call.
    call-cases : (m : Call W X A) → P (call m s)
    unfolding call
    call-cases m = after (m s.world)

  tell-cases :
      (s : Runner W X) (P : Result (Exn X) Unit × Runner W X → Type 0)
      → ((a : Unit) (w : W) → P (ok a, record s { world = w }))
      → ((e : Exn X) (w : W) → P (err e, record s { world = w }))
      → (o : Option (RetryContext X → Call W X Unit)) (c : RetryContext X) → P (tell o c s)
  unfolding tell
  tell-cases s P gives raises none c = gives tt s.world
  tell-cases s P gives raises (some f) c = call-cases s P gives raises (f c)

  module _ {V T : Type 0} (isinstance : Exn X → T → Bool) (policy : RetryPolicy T)
      (cb : Callbacks W X V) where
    -- How a pass at attempt `n` may end, and what it has recorded then.
    pub data Ends (n : ℕ) (s : Runner W X) : Result (Exn X) (Pass V) × Runner W X → Type 0 where
      ends_returned : (v : V) (w : W) → Ends n s (ok (returned v), record s { world = w })
      ends_again :
          (c : RetryContext X) (w : W)
          → c.attempt ≡ n
          → should_retry isinstance policy c ≡ true
          → Ends n s (ok again, noted s c w)
      ends_raised : (e : Exn X) (w : W) → Ends n s (err e, record s { world = w })
      ends_failed :
          (e : Exn X) (c : RetryContext X) (w : W) → c.attempt ≡ n → Ends n s (err e, noted s c w)

    module _ (a : StageAttempt) (low : 1 ≤ a.attempt) (high : a.attempt ≤ policy.max_attempts)
        (s : Runner W X) where
      -- the end of `failed`, for a context that is on record
      retry-Ends :
          (c : RetryContext X)
          → c.attempt ≡ a.attempt
          → (e : Exn X) (w : W)
          → Ends a.attempt s (
              (schedule_retry isinstance policy cb c >>= λ retry.
              if retry then pure again else raise e)
                (noted s c w))
      unfolding schedule_retry
      retry-Ends c h e w = elim (Bool-cases (should_retry isinstance policy c)) [
        | inl allowed ↦ rw allowed (
            tell-cases (noted s c w)
              (λ r. Ends a.attempt s (
                (((λ _. r) >>= λ _. pure true) >>= λ retry. if retry then pure again else raise e)
                  (noted s c w)))
              (λ _ w'. ends_again c w' h allowed) (λ e' w'. ends_failed e' c w' h) cb.on_retry c)
        | inr refused ↦ rw refused (ends_failed e c w h)
      ]

      failed-Ends :
          (phase : RetryPhase) (issues : List String) (e : Exn X) (w : W)
          → Ends a.attempt s (failed isinstance policy cb a phase issues e (record s { world = w }))
      unfolding failed record_failure
      failed-Ends phase issues e w =
          let c : RetryContext X = record {
            attempt = a.attempt;
            max_attempts = policy.max_attempts;
            phase = phase;
            error = e;
            issues = issues;
          } in
          rw (failure_context-ok, low, high)
            (tell-cases (noted s c w)
              (λ r. Ends a.attempt s (
                (((λ _. r) >>= λ _. pure c) >>= λ context.
                schedule_retry isinstance policy cb context >>= λ retry.
                if retry then pure again else raise e)
                  (noted s c w)))
              (λ _ w'. retry-Ends c refl e w') (λ e' w'. ends_failed e' c w' refl) cb.on_failure c)

      judge-Ends :
          (v : V) (issues : List String) (w : W)
          → Ends a.attempt s (judge isinstance policy cb a v issues (record s { world = w }))
      unfolding judge
      judge-Ends v [] w = ends_returned v w
      judge-Ends v (issue ∷ issues) w = made cb.validation_error
        where
          finish :
              (e : Option (Exn X)) (w' : W)
              → Ends a.attempt s (
                  finish_issues isinstance policy cb a (issue ∷ issues) e (record s { world = w' }))
          finish none w' = ends_raised _ w'
          finish (some e) w' = failed-Ends validation (issue ∷ issues) e w'

          made :
              (o : Option (List String → Call W X (Option (Exn X))))
              → Ends a.attempt s (
                  (make_error isinstance policy cb o (issue ∷ issues)
                      >>= finish_issues isinstance policy cb a (issue ∷ issues))
                    (record s { world = w }))
          made none = finish (some _) w
          made (some f) =
              call-cases (record s { world = w })
                (λ r. Ends a.attempt s (
                  ((λ _. r) >>= finish_issues isinstance policy cb a (issue ∷ issues))
                    (record s { world = w })))
                finish (λ e w'. ends_raised e w') (f (issue ∷ issues))

      check-Ends :
          (o : Option (V → StageAttempt → Call W X Issues)) (v : V) (w : W)
          → Ends a.attempt s (check isinstance policy cb o a v (record s { world = w }))
      unfolding check
      check-Ends none v w = ends_returned v w
      check-Ends (some f) v w =
          call-cases (record s { world = w })
            (λ r. Ends a.attempt s (
              try_then (λ _. r) (λ issues. judge isinstance policy cb a v (normalize_issues issues))
                (failed isinstance policy cb a validate []) (record s { world = w })))
            (λ issues w'. judge-Ends v (normalize_issues issues) w')
            (λ e w'. failed-Ends validate [] e w') (f v a)

      transform-Ends :
          (o : Option (V → StageAttempt → Call W X V)) (phase : RetryPhase)
          (k : V → Exec (Runner W X) (Exn X) (Pass V))
          → ((v : V) (w : W) → Ends a.attempt s (k v (record s { world = w })))
          → (v : V) (w : W)
          → Ends a.attempt s (
              try_then
                (transform isinstance policy cb o v a)
                k
                (failed isinstance policy cb a phase [])
                (record s { world = w }))
      unfolding transform try_then
      transform-Ends none phase k h v w = h v w
      transform-Ends (some f) phase k h v w =
          call-cases (record s { world = w })
            (λ r. Ends a.attempt s (
              try_then (λ _. r) k (failed isinstance policy cb a phase [])
                (record s { world = w })))
            h (failed-Ends phase []) (f v a)

      parsed-Ends :
          (v : V) (w : W)
          → Ends a.attempt s (
              try_then
                (transform isinstance policy cb cb.repair_call v a)
                (check isinstance policy cb cb.validate_call a)
                (failed isinstance policy cb a repair [])
                (record s { world = w }))
      parsed-Ends = transform-Ends cb.repair_call repair _ (check-Ends cb.validate_call)

      invoked-Ends :
          (v : V) (w : W)
          → Ends a.attempt s (
              try_then
                (transform isinstance policy cb cb.parse_call v a)
                (λ parsed.
                  try_then
                    (transform isinstance policy cb cb.repair_call parsed a)
                    (check isinstance policy cb cb.validate_call a)
                    (failed isinstance policy cb a repair []))
                (failed isinstance policy cb a parse [])
                (record s { world = w }))
      invoked-Ends = transform-Ends cb.parse_call parse _ parsed-Ends

    -- A pass within the policy's range ends in one of the four ways, whatever the callbacks do.
    pub attempt_once-Ends :
        (n : ℕ)
        → 1 ≤ n
        → n ≤ policy.max_attempts
        → (s : Runner W X)
        → Ends n s (
            attempt_once isinstance policy cb
              (record { attempt = n; max_attempts = policy.max_attempts })
              s)
    unfolding attempt_once
    attempt_once-Ends n low high s = started cb.before_attempt
      where
        a : StageAttempt
        a = record { attempt = n; max_attempts = policy.max_attempts }

        body : Exec (Runner W X) (Exn X) (Pass V)
        body =
            try_then (call (cb.invoke_call a))
              (λ v.
                try_then (transform isinstance policy cb cb.parse_call v a)
                  (λ parsed.
                    try_then (transform isinstance policy cb cb.repair_call parsed a)
                      (check isinstance policy cb cb.validate_call a)
                      (failed isinstance policy cb a repair []))
                  (failed isinstance policy cb a parse []))
              (failed isinstance policy cb a invoke [])

        invoked : (w : W) → Ends n s (body (record s { world = w }))
        invoked w =
            call-cases (record s { world = w })
              (λ r. Ends n s (
                try_then (λ _. r)
                  (λ v.
                    try_then (transform isinstance policy cb cb.parse_call v a)
                      (λ parsed.
                        try_then (transform isinstance policy cb cb.repair_call parsed a)
                          (check isinstance policy cb cb.validate_call a)
                          (failed isinstance policy cb a repair []))
                      (failed isinstance policy cb a parse []))
                  (failed isinstance policy cb a invoke []) (record s { world = w })))
              (invoked-Ends a low high s) (failed-Ends a low high s invoke []) (cb.invoke_call a)

        started :
            (o : Option (StageAttempt → Call W X Unit))
            → Ends n s ((start isinstance policy cb o a >> body) s)
        started none = invoked s.world
        started (some f) =
            call-cases s (λ r. Ends n s (((λ _. r) >> body) s)) (λ _ w. invoked w)
              (λ e w. ends_raised e w) (f a)
