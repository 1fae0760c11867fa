-- ===== src/Execution/Dispatch/Judged.antt =====
-- What one policy's dispatch decides.
use mathlib.Core.Bool.{Bool, false≢true}
use multiagents.Prelude.{
  ℕ, ◌≡◌, ◌≢◌, refl, sym, ◌∙◌, ap, true, false, any, List, [], ◌∷◌, ◌⊎◌, str_eq_iff, ◌||◌, Option,
  none, some, String, str_eq, strip, lower, Bool-cases, inl, inr, arith,
}
use multiagents.Exec.{Result, ok, err}
use multiagents.Execution.Dispatch.{
  payload, decision, is_applied, is_waiting, applied_result, check_slice, judge_as, judge,
}
use multiagents.Execution.Gateway.{
  Policy, DispatchResult, Response, ExecutionDecisionError, last_result, slice_execution_error,
}

-- The text is one of these.
abbrev pub IsOneOf : List String → String → Type 0
IsOneOf [] s = ⊥
IsOneOf (t ∷ ts) s = (s ≡ t) ⊎ IsOneOf ts s

is_one_of : (ts : List String) (s : String) → any (str_eq s) ts ≡ true → IsOneOf ts s
is_one_of [] s h = absurd (false≢true h)
is_one_of (t ∷ ts) s h = elim (Bool-cases (str_eq s t)) [
  | inl same ↦ inl ((str_eq_iff s t).0 same)
  | inr differs ↦ inr (is_one_of ts s (ground (arith, h, differs)))
]

is_none_of : (ts : List String) (s : String) → any (str_eq s) ts ≡ false → IsOneOf ts s → ⊥
is_none_of [] s h m = m
is_none_of (t ∷ ts) s h (inl same) = ground (arith, h, (str_eq_iff s t).1 same)
is_none_of (t ∷ ts) s h (inr later) = is_none_of ts s (ground (arith, h)) later

abbrev pub success_labels : List String
success_labels = "success" ∷ "applied" ∷ "completed" ∷ "succeeded" ∷ []

abbrev pub waiting_phases : List String
waiting_phases = "pda_deadline" ∷ "ns3_timeout" ∷ "waiting_for_ns3" ∷ []

-- The gateway's answer has a label of success, or says that the gateway is still waiting.
abbrev pub HasSucceeded : DispatchResult → Type 0
HasSucceeded d = IsOneOf success_labels (lower (strip d.status))

abbrev pub Waits : DispatchResult → Type 0
Waits d = (lower (strip d.status) ≡ "pending") ⊎ IsOneOf waiting_phases (lower (strip d.phase))

-- An answer that says success is kept as it is, in its own spelling, and any other label of success
-- becomes `success`, with the label beside it.
abbrev pub IsNormalized : DispatchResult → DispatchResult → Type 0
IsNormalized d d' =
    ((lower (strip d.status) ≡ "success") × (d' ≡ d))
    ⊎ ((lower (strip d.status) ≢ "success")
        × (d' ≡ record d { status = "success"; pda_status = some (lower (strip d.status)) }))

-- The outcome of a dispatch that the gateway has answered with `d`.
abbrev pub IsJudged :
    Policy → DispatchResult → Result ExecutionDecisionError (DispatchResult × ℕ) → Type 0
IsJudged p d (ok (d', n)) =
    (n ≡ 1) × IsNormalized d d' × HasSucceeded d × ((slice_execution_error p d').0 ≡ none)
IsJudged p d (err e) =
    (e.dispatch_attempts ≡ 1)
    × (e.feedback_payload.policy_id ≡ p.policy_id)
    × (e.feedback_payload.retry_forbidden ≡ true → (¬ HasSucceeded d) × Waits d)
    × (e.feedback_payload.retry_forbidden ≡ false → HasSucceeded d ⊎ (¬ Waits d))

applied-IsNormalized :
    (d : DispatchResult) → IsNormalized d (applied_result (lower (strip d.status)) d)
applied-IsNormalized d = elim (Bool-cases (str_eq (lower (strip d.status)) "success")) [
  | inl same ↦ rw same (inl ((str_eq_iff _ "success").0 same, refl))
  | inr differs ↦
      rw differs (inr ((λ same. false≢true (sym differs ∙ (str_eq_iff _ "success").1 same)), refl))
]

abbrev pub is_success : String → Bool
is_success status = str_eq (lower (strip status)) "success"

-- either way the status of what is returned is a success
pub normalized-success : (d d' : DispatchResult) → IsNormalized d d' → is_success d'.status ≡ true
unfolding strip lower
normalized-success d d' (inl (same, e)) =
    rw e ((str_eq_iff (lower (strip d.status)) "success").1 same)
normalized-success d d' (inr (other, e)) = rw e refl

check_slice-IsJudged :
    (p : Policy) (d d' : DispatchResult)
    → HasSucceeded d
    → IsNormalized d d'
    → (r : Option String × Option (String × Option String)) → slice_execution_error p d' ≡ r
    → IsJudged p d (check_slice p d' r)
unfolding check_slice decision payload
check_slice-IsJudged p d d' applied normal (none, evidence) e =
    (refl, normal, applied, ap (λ r. r.0) e)
check_slice-IsJudged p d d' applied normal (some m, evidence) e =
    (refl, refl, (λ forbidden. absurd (false≢true forbidden)), (λ _. inl applied))

waits :
    (d : DispatchResult)
    → (str_eq (lower (strip d.status)) "pending" || is_waiting (lower (strip d.phase))) ≡ true
    → Waits d
waits d h = elim (Bool-cases (str_eq (lower (strip d.status)) "pending")) [
  | inl pending ↦ inl ((str_eq_iff _ "pending").0 pending)
  | inr answered ↦
      inr (is_one_of waiting_phases (lower (strip d.phase)) (ground (arith, h, answered)))
]

no_wait :
    (d : DispatchResult)
    → (str_eq (lower (strip d.status)) "pending" || is_waiting (lower (strip d.phase))) ≡ false
    → ¬ Waits d
no_wait d h (inl pending) = ground (arith, h, (str_eq_iff _ "pending").1 pending)
no_wait d h (inr phase) =
    is_none_of waiting_phases (lower (strip d.phase)) (ground (arith, h)) phase

-- A dispatch counts as one attempt whatever comes back. It succeeds only if the answer's status is
-- `success`, `applied`, `completed` or `succeeded` in whatever case, and there is no slice error; an
-- answer of `success` is returned as it is, whatever its case, and of any other such status with
-- `success` in its place. Otherwise it fails, for its policy: with a retry forbidden only if the
-- answer has no such status and says `pending` or names one of the three waiting phases, and with
-- none forbidden only if that is not so.
pub judge-IsJudged : (p : Policy) (r : Response) → IsJudged p (last_result r) (judge p r)
unfolding judge judge_as decision payload
judge-IsJudged p r = judged (last_result r)
  where
    judged :
        (d : DispatchResult)
        → IsJudged p d (judge_as (lower (strip d.status)) (lower (strip d.phase)) p d)
    judged d = elim (Bool-cases (is_applied (lower (strip d.status)))) [
      | inl applied ↦ rw applied (
          check_slice-IsJudged p d (applied_result (lower (strip d.status)) d)
            (is_one_of success_labels (lower (strip d.status)) applied) (applied-IsNormalized d) _
            refl)
      | inr refused ↦
          elim (Bool-cases
            (str_eq (lower (strip d.status)) "pending" || is_waiting (lower (strip d.phase)))) [
              | inl waiting ↦
                  rw (refused, waiting)
                    (
                      refl,
                      refl,
                      (λ _. (
                        is_none_of success_labels (lower (strip d.status)) refused,
                        waits d waiting,
                      )),
                      (λ allowed. absurd (false≢true (sym allowed))),
                    )
              | inr answered ↦
                  rw (refused, answered)
                    (
                      refl,
                      refl,
                      (λ forbidden. absurd (false≢true forbidden)),
                      (λ _. inr (no_wait d answered)),
                    )
            ]
    ]
