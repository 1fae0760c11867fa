-- ===== src/Agents/Stage/Runs.antt =====
-- What a whole run of a stage records and returns.
use multiagents.Prelude.{
  ℕ, zero, suc, ◌+◌, ◌≤◌, ◌<◌, ◌≡◌, refl, sym, ◌∙◌, Bool, true, none, List, [], ◌∷◌, ◌++◌, map,
  length, last?, All, All-append, last?-append, length-append, arith,
}
use mathlib.Core.List.{map-append}
use mathlib.Core.Path.{subst}
use native.Mathlib.Numerals.{add-one}
use multiagents.Exec.{Result, ok, Exec, resume, raise}
use multiagents.Agents.Retry.{Exn, runtime_error, RetryContext, RetryPolicy, should_retry}
use multiagents.Agents.Retry.Decisions.{should_retry-lt}
use multiagents.Agents.Stage.{Callbacks, Runner, Pass, next_pass, loop, run_with, run}
use multiagents.Agents.Stage.Passes.{
  noted, Ends, ends_returned, ends_again, ends_raised, ends_failed, attempt_once-Ends,
}

-- 1, 2, …, n
abbrev pub up_to : ℕ → List ℕ
up_to zero = []
up_to (suc n) = up_to n ++ suc n ∷ []

abbrev pub numbers : {X : Type 0} → List (RetryContext X) → List ℕ
numbers = map (λ c. c.attempt)

-- The two records of failures agree, and the failures are numbered from 1.
pub record IsConsistent {W X : Type 0} (s : Runner W X) : Type 0 where
  pub latest : s.last_failure ≡ last? s.failure_history
  pub numbered : numbers s.failure_history ≡ up_to (length s.failure_history)

noted-IsConsistent :
    {W X : Type 0} {s : Runner W X} (c : RetryContext X) (w : W)
    → c.attempt ≡ suc (length s.failure_history)
    → IsConsistent s
    → IsConsistent (noted s c w)
noted-IsConsistent {s} c w h inv = record {
  latest = sym (last?-append s.failure_history c);
  numbered = simp (map-append, length-append, inv.numbered, h, add-one);
}

module _ {W X V T : Type 0} (isinstance : Exn X → T → Bool) (policy : RetryPolicy T)
    (cb : Callbacks W X V) where
  -- the policy let the stage go on after this failure
  abbrev pub Allowed : RetryContext X → Type 0
  Allowed c = should_retry isinstance policy c ≡ true

  pub record IsAccounted (r : Result (Exn X) V × Runner W X) : Type 0 where
    pub consistent : IsConsistent r.1
    pub bounded : length r.1.failure_history ≤ policy.max_attempts
    pub allowed : (v : V) → r.0 ≡ ok v → All Allowed r.1.failure_history
    pub spare : (v : V) → r.0 ≡ ok v → length r.1.failure_history < policy.max_attempts

  -- the state of the loop before attempt `n`, with `left` attempts left
  record Before (n left : ℕ) (s : Runner W X) : Type 0 where
    consistent : IsConsistent s
    position : n ≡ suc (length s.failure_history)
    range : n + left ≡ suc policy.max_attempts
    allowed : All Allowed s.failure_history

  loop-IsAccounted :
      (x : Exn X) (left n : ℕ) (s : Runner W X)
      → Before n left s
      → IsAccounted (loop isinstance policy cb x left n s)
  unfolding loop
  loop-IsAccounted x zero n s b = record {
    consistent = b.consistent;
    bounded = omega arith;
    allowed = λ v e. cc;
    spare = λ v e. cc;
  }
  loop-IsAccounted x (suc left) n s b =
      step (loop-IsAccounted x left (suc n))
        (attempt_once-Ends isinstance policy cb n (omega arith) (omega arith) s)
    where
      open b use {consistent, position, range, allowed}

      rest : Exec (Runner W X) (Exn X) V
      rest = loop isinstance policy cb x left (suc n)

      step :
          ((t : Runner W X) → Before (suc n) left t → IsAccounted (rest t))
          → {r : Result (Exn X) (Pass V) × Runner W X} → Ends isinstance policy cb n s r
          → IsAccounted (resume r.0 (next_pass isinstance policy cb rest) raise r.1)
      step ih (ends_returned v w) = record {
        consistent = record { latest = consistent.latest; numbered = consistent.numbered };
        bounded = omega arith;
        allowed = λ _ _. allowed;
        spare = λ _ _. omega arith;
      }
      step ih (ends_again c w h may) = ih (noted s c w) (record {
        consistent = noted-IsConsistent c w (h ∙ position) consistent;
        position = omega (arith, length-append {0} s.failure_history (c ∷ []));
        range = omega arith;
        allowed = All-append Allowed s.failure_history (c ∷ []) allowed (may, tt);
      })
      step ih (ends_raised e w) = record {
        consistent = record { latest = consistent.latest; numbered = consistent.numbered };
        bounded = omega arith;
        allowed = λ v e'. cc;
        spare = λ v e'. cc;
      }
      step ih (ends_failed e c w h) = record {
        consistent = noted-IsConsistent c w (h ∙ position) consistent;
        bounded = omega (arith, length-append {0} s.failure_history (c ∷ []));
        allowed = λ v e'. cc;
        spare = λ v e'. cc;
      }

  -- However the callbacks behave, the failures of a run are numbered 1, 2, … with no gap, the last
  -- of them is `last_failure`, there are at most `max_attempts`, and where the run returns a value
  -- there are fewer, and the policy allowed to go on after each of them.
  pub run-IsAccounted : (w : W) → IsAccounted (run isinstance policy cb w)
  unfolding run
  run-IsAccounted w =
      loop-IsAccounted _ policy.max_attempts 1
        (record { world = w; last_failure = none; failure_history = [] })
        (record {
          consistent = record { latest = refl; numbered = refl };
          position = refl;
          range = omega arith;
          allowed = tt;
        })

  -- two ways to go on that agree wherever another attempt is allowed make the same loop
  again_only_below :
      (n : ℕ) (s : Runner W X) (rest rest' : Exec (Runner W X) (Exn X) V)
      → (n < policy.max_attempts → (t : Runner W X) → rest t ≡ rest' t)
      → {r : Result (Exn X) (Pass V) × Runner W X} → Ends isinstance policy cb n s r
      → resume r.0 (next_pass isinstance policy cb rest) raise r.1
        ≡ resume r.0 (next_pass isinstance policy cb rest') raise r.1
  unfolding next_pass
  again_only_below n s rest rest' same (ends_returned v w) = refl
  again_only_below n s rest rest' same (ends_again c w h may) =
      same (omega (arith, should_retry-lt isinstance policy c may)) (noted s c w)
  again_only_below n s rest rest' same (ends_raised e w) = refl
  again_only_below n s rest rest' same (ends_failed e c w h) = refl

  loop_exhausted :
      (x y : Exn X) (left n : ℕ) (s : Runner W X)
      → 1 ≤ n
      → n + left ≡ policy.max_attempts
      → loop isinstance policy cb x (suc left) n s ≡ loop isinstance policy cb y (suc left) n s
  unfolding loop
  loop_exhausted x y zero n s low h =
      again_only_below n s _ _ (λ lt t. absurd (omega arith))
        (attempt_once-Ends isinstance policy cb n low (omega arith) s)
  loop_exhausted x y (suc left) n s low h =
      again_only_below n s _ _
        (λ lt t. loop_exhausted x y left (suc n) t (omega arith) (omega arith))
        (attempt_once-Ends isinstance policy cb n low (omega arith) s)

  -- Under a policy of at least one attempt the statement behind the loop is never reached: the
  -- run is the same whatever exception it would raise.
  pub run_never_exhausted :
      (x : Exn X) (w : W)
      → 1 ≤ policy.max_attempts
      → run isinstance policy cb w ≡ run_with isinstance policy cb x w
  unfolding run
  run_never_exhausted x w low = enough policy.max_attempts refl low
    where
      exhausted : Exn X
      exhausted = runtime_error "StageRunner exhausted without a terminal result"

      start : Runner W X
      start = record { world = w; last_failure = none; failure_history = [] }

      enough :
          (k : ℕ)
          → k ≡ policy.max_attempts
          → 1 ≤ k
          → run isinstance policy cb w ≡ run_with isinstance policy cb x w
      enough zero e h = absurd (omega arith)
      enough (suc k) e h =
          subst
            (λ m.
              loop isinstance policy cb exhausted m 1 start ≡ loop isinstance policy cb x m 1 start)
            e (loop_exhausted exhausted x k 1 start (omega arith) (omega arith))
