-- ===== src/Execution/Batch.antt =====
-- src/control_runtime/execution/policy_batch_executor.py: `PolicyBatchExecutor.run`. The gateway and
-- the assurance evaluator are actions on a world `W` that may raise an `X`.
pub mod Receipts
pub mod Sends
use multiagents.Prelude.{
  ℕ, zero, suc, ◌+◌, Bool, true, false, not, ◌&&◌, ◌||◌, Option, none, some, List, [], ◌∷◌, ◌++◌,
  all, String, str_eq, is_empty, text_or_none, strip, texts, ltb, ◌==◌, if◌then◌else◌,
}
use multiagents.Exec.{Result, ok, err, Exec, pure, raise, try_then, ◌>>=◌}
use multiagents.Execution.Dispatch.{judge}
use multiagents.Execution.Gateway.{
  Policy, Monitoring, DispatchResult, Response, FeedbackPayload, ExecutionDecisionError,
  policy_flow_id,
}

-- The metrics are those of the post-apply checks, by their source, where the gateway's receipt is
-- used; an evaluator's own metrics are not modelled.
pub record AssuranceVerdict : Type 0 where
  pub policy_id : String
  pub flow_id : Option String
  pub status : String
  pub reason : String
  pub source : String

-- what a receipt holds besides its policy
pub data ReceiptBody : Type 0 where
  dispatched : DispatchResult → ReceiptBody
  rejected : ExecutionDecisionError → ReceiptBody

pub record Receipt : Type 0 where
  pub status : String
  pub policy_id : String
  pub policy_type : String
  pub flow_id : String
  pub body : ReceiptBody

pub data FailureDetail : Type 0 where
  dispatch : ℕ → FeedbackPayload → FailureDetail
  assurance : AssuranceVerdict → FailureDetail

pub record Failure : Type 0 where
  pub policy_id : String
  pub policy_type : String
  pub flow_id : String
  pub phase : String
  pub error : String
  pub detail : FailureDetail

pub record PolicyExecutionBatch : Type 0 where
  pub execution_receipts : List Receipt
  pub assurance_results : List AssuranceVerdict
  pub failures : List Failure
  pub total_dispatch_attempts : ℕ

-- what is raised while a batch runs, by the protocol or by a collaborator
pub data Raised (X : Type 0) : Type 0 where
  decided : ExecutionDecisionError → Raised X
  index_error : Raised X
  raised : X → Raised X

unfoldable pub wrap : {X A : Type 0} → Result X A → Result (Raised X) A
wrap (ok a) = ok a
wrap (err x) = err (raised x)

-- a collaborator's action, in the protocol
unfoldable pub call : {W X A : Type 0} → Exec W X A → Exec W (Raised X) A
unfolding wrap
call m w = let (r, w') = m w in (wrap r, w')

-- The ticks are numbers, and the observation is later than the policy's baseline.
unfoldable pub contract_valid : Monitoring → Bool
unfolding strip
contract_valid m = ticks m.baseline_tick m.latest_tick m.sla_epoch_start_tick m.reset_generation
  where
    ticks : Option ℕ → Option ℕ → Option ℕ → Option ℕ → Bool
    ticks (some baseline) (some latest) (some epoch) (some generation) =
        m.contract_version == 1
        && not (is_empty (strip m.run_id))
        && ltb baseline latest
        && ltb baseline epoch
    ticks _ _ _ _ = false

abbrev verdict : Policy → String → String → String → AssuranceVerdict
verdict p status reason source = record {
  policy_id = strip p.policy_id;
  flow_id = text_or_none (policy_flow_id p);
  status = status;
  reason = reason;
  source = source;
}

unverified : Policy → AssuranceVerdict
unfolding strip policy_flow_id
unverified p =
    verdict p "failed" "Gateway response lacks same-generation post-policy ns-3 assurance evidence."
      "unverified_gateway_receipt"

checked : Policy → Bool → AssuranceVerdict
unfolding strip policy_flow_id
checked p satisfied =
    if satisfied
    then verdict p "satisfied" "Post-apply ns-3 checks satisfy the policy requirements."
        "policy_post_apply_receipt"
    else verdict p "violated" "Post-apply ns-3 checks violate the policy requirements."
        "policy_post_apply_receipt"

verdict_of : Policy → Bool → Option (List Bool) → AssuranceVerdict
unfolding checked unverified
verdict_of p valid none = unverified p
verdict_of p valid (some []) = unverified p
verdict_of p valid (some (c ∷ cs)) =
    if valid then checked p (all (λ satisfied. satisfied) (c ∷ cs)) else unverified p

-- `_post_apply_assurance_verdict`: `none` for a policy whose target is no flow
unfoldable pub post_apply_assurance_verdict : Policy → DispatchResult → Option AssuranceVerdict
unfolding verdict_of contract_valid strip
post_apply_assurance_verdict p d =
    if not (str_eq (strip p.target_type) "flow")
    then none
    else some (verdict_of p (contract_valid d.monitoring_data) d.monitoring_data.checks)

abbrev pub is_bad : AssuranceVerdict → Bool
is_bad v = str_eq v.status "violated" || str_eq v.status "failed"

-- the controller's test of a failure
abbrev pub is_assurance : Failure → Bool
unfolding strip
is_assurance f = str_eq (strip f.phase) "assurance"

unfoldable pub assurance_failure : Policy → AssuranceVerdict → Failure
unfolding texts
assurance_failure p v = record {
  policy_id = p.policy_id;
  policy_type = p.policy_type;
  flow_id = p.flow_id;
  phase = "assurance";
  error =
      if str_eq v.status "violated"
      then texts ("policy " ∷ p.policy_id ∷ " assurance violated for flow " ∷ p.flow_id ∷ [])
      else texts ("policy " ∷ p.policy_id ∷ " assurance failed: " ∷ v.reason ∷ []);
  detail = assurance v;
}

abbrev pub receipt : Policy → String → ReceiptBody → Receipt
receipt p status body = record {
  status = status;
  policy_id = p.policy_id;
  policy_type = p.policy_type;
  flow_id = p.flow_id;
  body = body;
}

abbrev pub dispatch_failure : Policy → ExecutionDecisionError → Failure
dispatch_failure p e = record {
  policy_id = p.policy_id;
  policy_type = p.policy_type;
  flow_id = p.flow_id;
  phase = "dispatch";
  error = e.message;
  detail = dispatch e.dispatch_attempts e.feedback_payload;
}

-- the body of `except ExecutionDecisionError`
unfoldable pub refuse :
    Policy → ExecutionDecisionError → PolicyExecutionBatch → PolicyExecutionBatch
refuse p e b = record b {
  execution_receipts = b.execution_receipts ++ receipt p "failed" (rejected e) ∷ [];
  failures = b.failures ++ dispatch_failure p e ∷ [];
  total_dispatch_attempts = b.total_dispatch_attempts + e.dispatch_attempts;
}

unfoldable pub accept : Policy → DispatchResult → ℕ → PolicyExecutionBatch → PolicyExecutionBatch
accept p d n b = record b {
  execution_receipts = b.execution_receipts ++ receipt p d.status (dispatched d) ∷ [];
  total_dispatch_attempts = b.total_dispatch_attempts + n;
}

unfoldable pub assure : Policy → PolicyExecutionBatch → AssuranceVerdict → PolicyExecutionBatch
unfolding assurance_failure
assure p b v = record b {
  assurance_results = b.assurance_results ++ v ∷ [];
  failures = if is_bad v then b.failures ++ assurance_failure p v ∷ [] else b.failures;
}

abbrev pub empty_batch : PolicyExecutionBatch
empty_batch = record {
  execution_receipts = [];
  assurance_results = [];
  failures = [];
  total_dispatch_attempts = 0;
}

unfoldable pub decide :
    {W X : Type 0}
    → Result ExecutionDecisionError (DispatchResult × ℕ)
    → Exec W (Raised X) (DispatchResult × ℕ)
decide (ok r) = pure r
decide (err e) = raise (decided e)

module _ {W X : Type 0} (dispatch_policy : Policy → Exec W X Response)
    (evaluate : Policy → Exec W X AssuranceVerdict) where
  -- the decision of `judge`, raised where it is an error
  unfoldable pub dispatch_single_policy : Policy → Exec W (Raised X) (DispatchResult × ℕ)
  unfolding call judge decide ◌>>=◌
  dispatch_single_policy p = call (dispatch_policy p) >>= λ answer. decide (judge p answer)

  -- `_post_apply_assurance_verdict(...) or evaluate(...)`
  unfoldable pub assurance_verdict :
      Policy → Option AssuranceVerdict → Exec W (Raised X) AssuranceVerdict
  unfolding call
  assurance_verdict p (some v) = pure v
  assurance_verdict p none = call (evaluate p)

  unfoldable pub after_dispatch :
      Policy → PolicyExecutionBatch → DispatchResult × ℕ → Exec W (Raised X) PolicyExecutionBatch
  unfolding assurance_verdict post_apply_assurance_verdict accept assure ◌>>=◌
  after_dispatch p b (d, n) = assurance_verdict p (post_apply_assurance_verdict p d) >>= λ v.
      pure (assure p (accept p d n b) v)

  -- `except ExecutionDecisionError`; anything else goes on
  unfoldable pub after_raise :
      Policy → PolicyExecutionBatch → Raised X → Exec W (Raised X) PolicyExecutionBatch
  unfolding refuse
  after_raise p b (decided e) = pure (refuse p e b)
  after_raise p b x = raise x

  unfoldable pub run_policy : Policy → PolicyExecutionBatch → Exec W (Raised X) PolicyExecutionBatch
  unfolding dispatch_single_policy after_dispatch after_raise try_then
  run_policy p b = try_then (dispatch_single_policy p) (after_dispatch p b) (after_raise p b)

  unfoldable pub run_from :
      PolicyExecutionBatch → List Policy → Exec W (Raised X) PolicyExecutionBatch
  unfolding run_policy ◌>>=◌
  run_from b [] = pure b
  run_from b (p ∷ ps) = run_policy p b >>= λ b'. run_from b' ps

  unfoldable pub run : List Policy → Exec W (Raised X) PolicyExecutionBatch
  unfolding run_from
  run ps = run_from empty_batch ps
