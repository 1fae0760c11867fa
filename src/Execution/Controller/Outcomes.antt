-- ===== src/Execution/Controller/Outcomes.antt =====
-- What an outcome of the controller says, and when the policies are committed.
use mathlib.Core.Bool.{false≢true}
use multiagents.Prelude.{
  ◌≤◌, ◌<◌, ◌≡◌, ◌≢◌, ◌⊎◌, refl, sym, ap, ◌∙◌, Bool, true, false, Option, none, some, List, [], ◌∷◌,
  any, length, length-map, count, count-le, String, str_eq, str_eq_iff, Bool-cases, inl, inr, arith,
}
use multiagents.Exec.{Result, ok, err, Exec, pure, Ensures, Ensures-bind, Ensures-ok}
use multiagents.Execution.Gateway.{Policy, Response}
use multiagents.Execution.Batch.{
  AssuranceVerdict, is_assurance, Receipt, Failure, PolicyExecutionBatch, Raised, is_bad, call,
  wrap, run,
}
use multiagents.Execution.Batch.Receipts.{is_applied_receipt, IsBatch, run-IsBatch}
use multiagents.Execution.Controller.{
  CompiledStrategyPlan, ExecutionOutcome, CommitRequest, commit_supi, commit, failure_outcome,
  failure_status, success_outcome, has_any, successful_policy_ids, finish, execute,
}

any-count : {A : Type 0} (p : A → Bool) (xs : List A) → any p xs ≡ false → count p xs ≡ 0
any-count p [] h = refl
any-count p (x ∷ xs) h = ground (arith, h, any-count p xs (ground (arith, h)))

-- an applied policy for each id that the outcome lists
successful-count :
    (rs : List Receipt)
    → has_any (successful_policy_ids rs) ≡ true
    → 0 < count is_applied_receipt rs
unfolding successful_policy_ids has_any
successful-count [] h = absurd (ground (arith, h))
successful-count (r ∷ rs) h = elim (Bool-cases (is_applied_receipt r)) [
  | inl applied ↦ rw applied (omega arith)
  | inr failed ↦
      rw failed (omega (arith, successful-count rs (rw (failed, successful_policy_ids) at h)))
]

-- a status of the failure path, as its text is compared with another
failure_status-cases :
    (b : PolicyExecutionBatch)
    → (failure_status b ≡ "Failed")
      ⊎ ((failure_status b ≡ "Partial Success")
          × (any is_assurance b.failures ≡ false)
          × (has_any (successful_policy_ids b.execution_receipts) ≡ true))
unfolding failure_status
failure_status-cases b = elim (Bool-cases (any is_assurance b.failures)) [
  | inl blamed ↦ inl (rw blamed refl)
  | inr unblamed ↦ elim (Bool-cases (has_any (successful_policy_ids b.execution_receipts))) [
    | inl applied ↦ inr (rw (unblamed, applied) refl, unblamed, applied)
    | inr nothing ↦ inl (rw (unblamed, nothing) refl)
  ]
]

differ : (s t : String) → str_eq s t ≡ false → s ≢ t
differ s t h e = false≢true (sym h ∙ (str_eq_iff s t).1 e)

not_success : (b : PolicyExecutionBatch) → failure_status b ≢ "Success"
not_success b e = elim (failure_status-cases b) [
  | inl failed ↦ differ "Failed" "Success" refl (sym failed ∙ e)
  | inr partly ↦ differ "Partial Success" "Success" refl (sym partly.0 ∙ e)
]

partial_status :
    (b : PolicyExecutionBatch)
    → failure_status b ≡ "Partial Success"
    → (any is_assurance b.failures ≡ false)
      × (has_any (successful_policy_ids b.execution_receipts) ≡ true)
partial_status b e = elim (failure_status-cases b) [
  | inl failed ↦ absurd (differ "Failed" "Partial Success" refl (sym failed ∙ e))
  | inr partly ↦ (partly.1, partly.2)
]

receipts_within :
    (ps : List Policy) (b : PolicyExecutionBatch)
    → IsBatch ps b
    → count is_applied_receipt b.execution_receipts ≤ length ps
receipts_within ps b i = omega (
  arith,
  count-le is_applied_receipt b.execution_receipts,
  sym (length-map Receipt.policy_id b.execution_receipts)
      ∙ (ap length i.receipts ∙ length-map Policy.policy_id ps),
)

module _ {W X : Type 0} (dispatch_policy : CompiledStrategyPlan → Policy → Exec W X Response)
    (evaluate : CompiledStrategyPlan → Policy → Exec W X AssuranceVerdict)
    (commit_policies : CommitRequest → Exec W X (Unit {0})) where
  abbrev pub commit_request : CompiledStrategyPlan → String → CommitRequest
  commit_request plan supi = record {
    supi = supi;
    policies = plan.policies;
    session_id = plan.session_id;
    snapshot_id = plan.snapshot_id;
  }

  -- What an outcome says of the batch that ran and of the world.
  pub record IsOutcome (plan : CompiledStrategyPlan) (w w' : W) (o : ExecutionOutcome)
      : Type 0 where
    pub batch : PolicyExecutionBatch
    pub after_batch : W
    pub ran : run (dispatch_policy plan) (evaluate plan) plan.policies w ≡ (ok batch, after_batch)
    pub attempts : o.dispatch_attempts ≡ length plan.policies
    pub success :
        o.execution_status ≡ "Success"
        → (count is_applied_receipt batch.execution_receipts ≡ length plan.policies)
          × (count is_bad batch.assurance_results ≡ 0)
          × ((supi : String) × (commit_policies (commit_request plan supi) after_batch
                ≡ (ok tt, w')))
    pub partial :
        o.execution_status ≡ "Partial Success"
        → (0 < count is_applied_receipt batch.execution_receipts)
          × (count is_bad batch.assurance_results ≡ 0)
          × (count is_applied_receipt batch.execution_receipts < length plan.policies)
    pub uncommitted :
        o.execution_status ≢ "Success" → (w' ≡ after_batch) × (0 < length batch.failures)

  failure_outcome-IsOutcome :
      (plan : CompiledStrategyPlan) (w w1 : W) (b : PolicyExecutionBatch) (f : Failure)
      (fs : List Failure)
      → run (dispatch_policy plan) (evaluate plan) plan.policies w ≡ (ok b, w1)
      → IsBatch plan.policies b
      → b.failures ≡ f ∷ fs
      → IsOutcome plan w w1 (failure_outcome plan b)
  unfolding failure_outcome
  failure_outcome-IsOutcome plan w w1 b f fs ran i some_failed = record {
    batch = b;
    after_batch = w1;
    ran = ran;
    attempts = i.attempts;
    success = λ s. absurd (not_success b s);
    partial = λ s.
        let none_blamed = any-count is_assurance b.failures (partial_status b s).0 in
        let applied = successful-count b.execution_receipts (partial_status b s).1 in
        (
          applied,
          omega (arith, i.blamed, none_blamed),
          omega (arith, i.failed, i.blamed, none_blamed, ap length some_failed),
        );
    uncommitted = λ _. (refl, omega (arith, ap length some_failed));
  }

  success_outcome-IsOutcome :
      (plan : CompiledStrategyPlan) (w w1 w' : W) (b : PolicyExecutionBatch) (supi : String)
      → run (dispatch_policy plan) (evaluate plan) plan.policies w ≡ (ok b, w1)
      → IsBatch plan.policies b
      → b.failures ≡ []
      → commit_policies (commit_request plan supi) w1 ≡ (ok tt, w')
      → IsOutcome plan w w' (success_outcome plan b)
  unfolding success_outcome
  success_outcome-IsOutcome plan w w1 w' b supi ran i no_failure committed =
      let within = receipts_within plan.policies b i in
      record {
        batch = b;
        after_batch = w1;
        ran = ran;
        attempts = i.attempts;
        success = λ _. (
          omega (arith, i.failed, ap length no_failure, within),
          omega (arith, i.failed, ap length no_failure, within),
          (supi, committed),
        );
        partial = λ s. absurd (differ "Success" "Partial Success" refl s);
        uncommitted = λ unlike. absurd (unlike refl);
      }

  finish-IsOutcome :
      (plan : CompiledStrategyPlan) (w w1 : W) (b : PolicyExecutionBatch) (fs : List Failure)
      → run (dispatch_policy plan) (evaluate plan) plan.policies w ≡ (ok b, w1)
      → b.failures ≡ fs
      → Ensures
          (λ o w'. IsOutcome plan w w' o)
          (finish dispatch_policy evaluate commit_policies plan b fs w1)
  unfolding finish commit call wrap
  finish-IsOutcome plan w w1 b (f ∷ fs) ran same =
      failure_outcome-IsOutcome plan w w1 b f fs ran (run-IsBatch _ _ plan.policies w w1 b ran) same
  finish-IsOutcome plan w w1 b [] ran same =
      Ensures-bind _
        (commit dispatch_policy evaluate commit_policies plan (commit_supi plan.supi plan.policies))
        (λ _. pure (success_outcome plan b)) w1
        (λ _ w'. (supi : String) × (commit_policies (commit_request plan supi) w1 ≡ (ok tt, w')))
        (committed (commit_supi plan.supi plan.policies))
        λ u w' c.
          success_outcome-IsOutcome plan w w1 w' b c.0 ran
            (run-IsBatch _ _ plan.policies w w1 b ran) same c.1
    where
      called :
          (supi : String) (r : Result X (Unit {0}) × W)
          → commit_policies (commit_request plan supi) w1 ≡ r
          → Ensures
              (λ _ w'.
                (supi : String) × (commit_policies (commit_request plan supi) w1 ≡ (ok tt, w')))
              (wrap r.0, r.1)
      called supi (ok u, w') e = (supi, e)
      called supi (err x, w') e = tt

      committed :
          (o : Option String)
          → Ensures
              (λ _ w'.
                (supi : String) × (commit_policies (commit_request plan supi) w1 ≡ (ok tt, w')))
              (commit dispatch_policy evaluate commit_policies plan o w1)
      committed none = tt
      committed (some supi) = called supi _ refl

  -- If the controller returns for a compiled plan, its batch has run and it counts one dispatch for
  -- each policy. On Success every policy was applied, no verdict is bad, and the plan's policies were
  -- committed. On Partial Success some policy was applied and some was not, and no verdict is bad.
  -- Without Success nothing is committed, and there is a failure.
  pub execute-IsOutcome :
      (plan : CompiledStrategyPlan) (w w' : W) (o : ExecutionOutcome)
      → execute dispatch_policy evaluate commit_policies (ok plan) w ≡ (ok o, w')
      → IsOutcome plan w w' o
  unfolding execute
  execute-IsOutcome plan w w' o e =
      Ensures-ok (λ o w'. IsOutcome plan w w' o)
        (execute dispatch_policy evaluate commit_policies (ok plan) w)
        (Ensures-bind _ (run (dispatch_policy plan) (evaluate plan) plan.policies)
          (λ b. finish dispatch_policy evaluate commit_policies plan b b.failures) w
          (λ b w1. run (dispatch_policy plan) (evaluate plan) plan.policies w ≡ (ok b, w1))
          (as_run _ refl) λ b w1 ran. finish-IsOutcome plan w w1 b b.failures ran refl)
        e
    where
      as_run :
          (r : Result (Raised X) PolicyExecutionBatch × W)
          → run (dispatch_policy plan) (evaluate plan) plan.policies w ≡ r
          → Ensures
              (λ b w1. run (dispatch_policy plan) (evaluate plan) plan.policies w ≡ (ok b, w1))
              r
      as_run (ok b, w1) q = q
      as_run (err x, w1) q = tt
