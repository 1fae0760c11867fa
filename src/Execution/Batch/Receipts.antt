-- ===== src/Execution/Batch/Receipts.antt =====
-- What a batch's record says of the policies that it was given.
use mathlib.Core.List.{map-append}
use mathlib.Core.Path.{subst, ap₂}
use multiagents.Prelude.{
  ℕ, ◌+◌, ◌≡◌, refl, sym, strip, lower, ◌∙◌, Bool, true, false, List, [], ◌∷◌, ◌++◌, map, length,
  count, count-append, length-append, append_assoc, append-nil, Bool-cases, inl, inr, if◌then◌else◌,
  arith,
}
use multiagents.Exec.{
  Result, ok, err, Exec, pure, raise, resume, try_then, ◌>>=◌, Ensures, Ensures-bind, Ensures-ok,
  Ensures-any, Ensures-imp, Leads, Ensures-try,
}
use multiagents.Execution.Dispatch.{judge}
use multiagents.Execution.Gateway.{
  Policy, DispatchResult, Response, ExecutionDecisionError, last_result,
}
use multiagents.Execution.Dispatch.Judged.{is_success, IsJudged, normalized-success, judge-IsJudged}
use multiagents.Execution.Batch.{
  AssuranceVerdict, is_assurance, Receipt, Failure, PolicyExecutionBatch, Raised, decided,
  index_error, raised, call, is_bad, refuse, accept, assure, empty_batch,
  post_apply_assurance_verdict, decide, wrap, receipt, dispatch_failure, assurance_failure,
  dispatched, rejected, dispatch_single_policy, assurance_verdict, after_dispatch, after_raise,
  run_policy, run_from, run,
}

-- a receipt of a policy that was applied
abbrev pub is_applied_receipt : Receipt → Bool
is_applied_receipt r = is_success r.status

-- The record of a batch that has gone through the policies.
pub record IsBatch (done : List Policy) (b : PolicyExecutionBatch) : Type 0 where
  pub receipts : map Receipt.policy_id b.execution_receipts ≡ map Policy.policy_id done
  pub attempts : b.total_dispatch_attempts ≡ length done
  pub assured : length b.assurance_results ≡ count is_applied_receipt b.execution_receipts
  pub failed :
      length b.failures + count is_applied_receipt b.execution_receipts
      ≡ length done + count is_bad b.assurance_results
  pub blamed : count is_assurance b.failures ≡ count is_bad b.assurance_results

-- an error of the protocol stands for one dispatch
CountsOne : {X : Type 0} → Raised X → Type 0
CountsOne (decided e) = e.dispatch_attempts ≡ 1
CountsOne index_error = Unit
CountsOne (raised x) = Unit

ids-snoc :
    (rs : List Receipt) (done : List Policy) (p : Policy) (r : Receipt)
    → r.policy_id ≡ p.policy_id
    → map Receipt.policy_id rs ≡ map Policy.policy_id done
    → map Receipt.policy_id (rs ++ r ∷ []) ≡ map Policy.policy_id (done ++ p ∷ [])
ids-snoc rs done p r same e =
    map-append Receipt.policy_id rs (r ∷ [])
    ∙ (ap₂ (λ xs x. xs ++ x ∷ []) e same ∙ sym (map-append Policy.policy_id done (p ∷ [])))

failures-snoc :
    (p : Policy) (fs : List Failure) (v : AssuranceVerdict)
    → length (if is_bad v then fs ++ assurance_failure p v ∷ [] else fs)
      ≡ length fs + (if is_bad v then 1 else 0)
failures-snoc p fs v = elim (Bool-cases (is_bad v)) [
  | inl bad ↦ rw (bad, length-append fs (assurance_failure p v ∷ [])) refl
  | inr good ↦ rw good (omega arith)
]

blamed-snoc :
    (p : Policy) (fs : List Failure) (v : AssuranceVerdict)
    → count is_assurance (if is_bad v then fs ++ assurance_failure p v ∷ [] else fs)
      ≡ count is_assurance fs + (if is_bad v then 1 else 0)
unfolding assurance_failure strip
blamed-snoc p fs v = elim (Bool-cases (is_bad v)) [
  | inl bad ↦ rw (bad, count-append is_assurance fs (assurance_failure p v ∷ [])) refl
  | inr good ↦ rw good (omega arith)
]

accept-assure-IsBatch :
    (done : List Policy) (p : Policy) (b : PolicyExecutionBatch) (d : DispatchResult) (n : ℕ)
    (v : AssuranceVerdict)
    → n ≡ 1
    → is_success d.status ≡ true
    → IsBatch done b
    → IsBatch (done ++ p ∷ []) (assure p (accept p d n b) v)
unfolding assure accept
accept-assure-IsBatch done p b d n v one success i =
    let r = receipt p d.status (dispatched d) in
    let applied : count is_applied_receipt (b.execution_receipts ++ r ∷ [])
        ≡ count is_applied_receipt b.execution_receipts + 1 =
      count-append is_applied_receipt b.execution_receipts (r ∷ []) ∙ rw success refl in
    record {
      receipts = ids-snoc b.execution_receipts done p r refl i.receipts;
      attempts = omega (arith, one, i.attempts, length-append done (p ∷ []));
      assured = omega (arith, i.assured, applied, length-append b.assurance_results (v ∷ []));
      failed = omega (
        arith,
        i.failed,
        applied,
        length-append done (p ∷ []),
        failures-snoc p b.failures v,
        count-append is_bad b.assurance_results (v ∷ []),
      );
      blamed = omega (
        arith,
        i.blamed,
        blamed-snoc p b.failures v,
        count-append is_bad b.assurance_results (v ∷ []),
      );
    }

refused_status : is_success "failed" ≡ false
unfolding strip lower
refused_status = refl

unblamed :
    (p : Policy) (e : ExecutionDecisionError) → count is_assurance (dispatch_failure p e ∷ []) ≡ 0
unfolding strip
unblamed p e = refl

refuse-IsBatch :
    (done : List Policy) (p : Policy) (b : PolicyExecutionBatch) (e : ExecutionDecisionError)
    → e.dispatch_attempts ≡ 1
    → IsBatch done b
    → IsBatch (done ++ p ∷ []) (refuse p e b)
unfolding refuse
refuse-IsBatch done p b e one i =
    let r = receipt p "failed" (rejected e) in
    let applied : count is_applied_receipt (b.execution_receipts ++ r ∷ [])
        ≡ count is_applied_receipt b.execution_receipts + 0 =
      count-append is_applied_receipt b.execution_receipts (r ∷ []) ∙ rw refused_status refl in
    record {
      receipts = ids-snoc b.execution_receipts done p r refl i.receipts;
      attempts = omega (arith, one, i.attempts, length-append done (p ∷ []));
      assured = omega (arith, i.assured, applied);
      failed = omega (
        arith,
        i.failed,
        applied,
        length-append done (p ∷ []),
        length-append b.failures (dispatch_failure p e ∷ []),
      );
      blamed = omega (
        arith,
        i.blamed,
        count-append is_assurance b.failures (dispatch_failure p e ∷ []),
        unblamed p e,
      );
    }

module _ {W X : Type 0} (dispatch_policy : Policy → Exec W X Response)
    (evaluate : Policy → Exec W X AssuranceVerdict) where
  dispatch_single_policy-Leads :
      (p : Policy) (w : W)
      → Leads
          (λ r _. (r.1 ≡ 1) × (is_success r.0.status ≡ true))
          (λ x _. CountsOne x)
          (dispatch_single_policy dispatch_policy evaluate p w)
  unfolding dispatch_single_policy call decide wrap try_then CountsOne ◌>>=◌
  dispatch_single_policy-Leads p w = answered (dispatch_policy p w)
    where
      decided_on :
          (w' : W) (a : Response) (r : Result ExecutionDecisionError (DispatchResult × ℕ))
          → IsJudged p (last_result a) r
          → Leads
              (λ r _. (r.1 ≡ 1) × (is_success r.0.status ≡ true))
              (λ x _. CountsOne x)
              (decide {W = W} {X = X} r w')
      decided_on w' a (ok (d, n)) j = (j.0, normalized-success (last_result a) d j.1)
      decided_on w' a (err e) j = j.0

      answered :
          (r : Result X Response × W)
          → Leads
              (λ r _. (r.1 ≡ 1) × (is_success r.0.status ≡ true))
              (λ x _. CountsOne x)
              (resume (wrap r.0) (λ a. decide (judge p a)) raise r.1)
      answered (ok a, w') = decided_on w' a (judge p a) (judge-IsJudged p a)
      answered (err x, w') = tt

  run_policy-IsBatch :
      (done : List Policy) (p : Policy) (b : PolicyExecutionBatch) (w : W)
      → IsBatch done b
      → Ensures (λ b' _. IsBatch (done ++ p ∷ []) b') (run_policy dispatch_policy evaluate p b w)
  unfolding run_policy after_dispatch after_raise CountsOne
  run_policy-IsBatch done p b w i =
      Ensures-try _ (dispatch_single_policy dispatch_policy evaluate p)
        (after_dispatch dispatch_policy evaluate p b) (after_raise dispatch_policy evaluate p b) w _
        _ (dispatch_single_policy-Leads p w)
        (λ r w' q.
          Ensures-bind _
            (assurance_verdict dispatch_policy evaluate p (post_apply_assurance_verdict p r.0))
            (λ v. pure (assure p (accept p r.0 r.1 b) v)) w' _ (Ensures-any _)
            (λ v _ _. accept-assure-IsBatch done p b r.0 r.1 v q.0 q.1 i))
        caught
    where
      caught :
          (x : Raised X) (w' : W)
          → CountsOne x
          → Ensures
              (λ b' _. IsBatch (done ++ p ∷ []) b')
              (after_raise dispatch_policy evaluate p b x w')
      caught (decided e) w' one = refuse-IsBatch done p b e one i
      caught index_error w' one = tt
      caught (raised x) w' one = tt

  run_from-IsBatch :
      (done ps : List Policy) (b : PolicyExecutionBatch) (w : W)
      → IsBatch done b
      → Ensures (λ b' _. IsBatch (done ++ ps) b') (run_from dispatch_policy evaluate b ps w)
  unfolding run_from
  run_from-IsBatch done [] b w i = subst (λ ps. IsBatch ps b) (sym (append-nil done)) i
  run_from-IsBatch done (p ∷ ps) b w i =
      Ensures-bind _ (run_policy dispatch_policy evaluate p b)
        (λ b'. run_from dispatch_policy evaluate b' ps) w _ (run_policy-IsBatch done p b w i)
        λ b' w' j.
          Ensures-imp _ (λ b'' _ k. subst (λ qs. IsBatch qs b'') (append_assoc done (p ∷ []) ps) k)
            (run_from-IsBatch (done ++ p ∷ []) ps b' w' j)

  -- If a batch returns, it holds one receipt for each policy, in the order of the policies, and has
  -- counted one dispatch for each. There is one verdict for each applied policy, and one failure for
  -- each policy that was not applied and for each bad verdict.
  pub run-IsBatch :
      (ps : List Policy) (w w' : W) (b : PolicyExecutionBatch)
      → run dispatch_policy evaluate ps w ≡ (ok b, w')
      → IsBatch ps b
  unfolding run
  run-IsBatch ps w w' b e =
      Ensures-ok (λ b' _. IsBatch ps b') (run_from dispatch_policy evaluate empty_batch ps w)
        (run_from-IsBatch [] ps empty_batch w (record {
          receipts = refl;
          attempts = refl;
          assured = refl;
          failed = refl;
          blamed = refl;
        }))
        e
