-- ===== src/Execution/Controller.antt =====
-- src/control_runtime/execution/execution_controller.py: `ExecutionController`. The metrics are data
-- and not yet JSON; the compiler's result is an input of `execute`, and an exception its `str`.
pub mod Outcomes
use multiagents.Prelude.{
  ℕ, Bool, true, false, not, ◌&&◌, ◌||◌, Option, none, some, List, [], ◌∷◌, ◌++◌, map, any, all,
  String, str_eq, is_empty, strip, lower, join, if◌then◌else◌,
}
use multiagents.Exec.{Result, ok, err, Exec, pure, raise, ◌>>=◌, ◌>>◌}
use multiagents.Execution.Gateway.{Policy, Response, FeedbackPayload}
use multiagents.Execution.Batch.{
  AssuranceVerdict, is_assurance, Receipt, FailureDetail, dispatch, assurance, Failure,
  PolicyExecutionBatch, Raised, index_error, call, run,
}

pub record CompiledStrategyPlan : Type 0 where
  pub supi : String
  pub session_id : String
  pub snapshot_id : String
  pub policies : List Policy

-- `feedback_payload`, by the failure's phase
pub data OutcomeFeedback : Type 0 where
  no_feedback : OutcomeFeedback
  compile_feedback : String → OutcomeFeedback
  execution_feedback : String → List String → List String → List Failure → Bool → OutcomeFeedback

-- `performance_metrics`: the plan and the batch that it is dumped from
pub data Metrics : Type 0 where
  compile_metrics : Metrics
  batch_metrics :
      CompiledStrategyPlan → PolicyExecutionBatch → List Receipt → List Receipt → Metrics

pub record ExecutionOutcome : Type 0 where
  pub execution_status : String
  pub performance_metrics : Metrics
  pub violation_details : String
  pub failure_scope : String
  pub feedback_payload : OutcomeFeedback
  pub dispatch_attempts : ℕ

pub record CommitRequest : Type 0 where
  pub supi : String
  pub policies : List Policy
  pub session_id : String
  pub snapshot_id : String

abbrev am_policy_type : String
am_policy_type = "PcfAmPolicyControlPolicyAssociation"

is_mobility : String → Bool
unfolding strip
is_mobility policy_type = str_eq (strip policy_type) am_policy_type

-- the types that are not empty
policy_types : List Failure → List String
policy_types [] = []
policy_types (f ∷ fs) =
    let rest = policy_types fs in if is_empty f.policy_type then rest else f.policy_type ∷ rest

-- `_failure_scope_from_policies`, on the types of the policies
failure_scope_from_types : List String → String
unfolding is_mobility
failure_scope_from_types [] = "none"
failure_scope_from_types (t ∷ ts) =
    if all (λ x. not (is_mobility x)) (t ∷ ts)
    then "qos"
    else if all is_mobility (t ∷ ts)
    then "mobility"
    else "mixed"

unfoldable pub failure_scope_from_entries : List Failure → String
unfolding failure_scope_from_types policy_types
failure_scope_from_entries fs = failure_scope_from_types (policy_types fs)

unfoldable pub successful_policy_ids : List Receipt → List String
unfolding strip lower
successful_policy_ids [] = []
successful_policy_ids (r ∷ rs) =
    let rest = successful_policy_ids rs in
    if str_eq (lower (strip r.status)) "success" then strip r.policy_id ∷ rest else rest

-- the texts that are not empty once stripped
stripped : List String → List String
unfolding strip
stripped [] = []
stripped (s ∷ ss) = let rest = stripped ss in if is_empty (strip s) then rest else strip s ∷ rest

abbrev pub forbids_retry : Failure → Bool
forbids_retry f = elim f.detail [
  | dispatch n payload ↦ payload.retry_forbidden
  | assurance v ↦ false
]

is_am : Receipt → Bool
is_am r = str_eq r.policy_type am_policy_type

receipts_of : Bool → List Receipt → List Receipt
unfolding is_am
receipts_of mobility [] = []
receipts_of mobility (r ∷ rs) =
    let rest = receipts_of mobility rs in
    if mobility then (if is_am r then r ∷ rest else rest) else (if is_am r then rest else r ∷ rest)

metrics : CompiledStrategyPlan → PolicyExecutionBatch → Metrics
unfolding receipts_of
metrics plan b =
    batch_metrics plan b (receipts_of false b.execution_receipts)
      (receipts_of true b.execution_receipts)

unfoldable pub compile_failure : String → ExecutionOutcome
compile_failure detail = record {
  execution_status = "Failed";
  performance_metrics = compile_metrics;
  violation_details = detail;
  failure_scope = "compile";
  feedback_payload = compile_feedback detail;
  dispatch_attempts = 0;
}

unfoldable pub has_any : {A : Type 0} → List A → Bool
has_any [] = false
has_any (x ∷ xs) = true

unfoldable pub failure_status : PolicyExecutionBatch → String
unfolding has_any successful_policy_ids
failure_status b =
    if any is_assurance b.failures
    then "Failed"
    else if has_any (successful_policy_ids b.execution_receipts)
    then "Partial Success"
    else "Failed"

or_default : String → String → String
or_default s t = if is_empty s then t else s

unfoldable pub failure_outcome : CompiledStrategyPlan → PolicyExecutionBatch → ExecutionOutcome
unfolding failure_status metrics stripped failure_scope_from_entries successful_policy_ids join
    or_default
failure_outcome plan b = record {
  execution_status = failure_status b;
  performance_metrics = metrics plan b;
  violation_details =
      or_default (join "; " (stripped (map Failure.error b.failures))) "execution failed";
  failure_scope = failure_scope_from_entries b.failures;
  feedback_payload =
      execution_feedback (failure_scope_from_entries b.failures)
        (successful_policy_ids b.execution_receipts) (stripped (map Failure.policy_id b.failures))
        b.failures (any forbids_retry b.failures);
  dispatch_attempts = b.total_dispatch_attempts;
}

unfoldable pub success_outcome : CompiledStrategyPlan → PolicyExecutionBatch → ExecutionOutcome
unfolding metrics
success_outcome plan b = record {
  execution_status = "Success";
  performance_metrics = metrics plan b;
  violation_details = "None";
  failure_scope = "none";
  feedback_payload = no_feedback;
  dispatch_attempts = b.total_dispatch_attempts;
}

-- `plan.supi or policies[0]["supi"]`, `none` for an IndexError
unfoldable pub commit_supi : String → List Policy → Option String
commit_supi String.[] [] = none
commit_supi String.[] (p ∷ ps) = some p.supi
commit_supi (String.◌∷◌ c s) ps = some (String.◌∷◌ c s)

module _ {W X : Type 0} (dispatch_policy : CompiledStrategyPlan → Policy → Exec W X Response)
    (evaluate : CompiledStrategyPlan → Policy → Exec W X AssuranceVerdict)
    (commit_policies : CommitRequest → Exec W X (Unit {0})) where
  unfoldable pub commit : CompiledStrategyPlan → Option String → Exec W (Raised X) (Unit {0})
  unfolding call
  commit plan none = raise index_error
  commit plan (some supi) = call (
      commit_policies (record {
        supi = supi;
        policies = plan.policies;
        session_id = plan.session_id;
        snapshot_id = plan.snapshot_id;
      }))

  -- the rest of `execute`, by its `if failures`
  unfoldable pub finish :
      CompiledStrategyPlan
      → PolicyExecutionBatch
      → List Failure
      → Exec W (Raised X) ExecutionOutcome
  unfolding failure_outcome success_outcome commit commit_supi ◌>>=◌
  finish plan b [] =
      commit plan (commit_supi plan.supi plan.policies) >>= λ _. pure (success_outcome plan b)
  finish plan b (f ∷ fs) = pure (failure_outcome plan b)

  -- `dispatch_policy` and `evaluate` take the plan for its session and its snapshot
  unfoldable pub execute : Result String CompiledStrategyPlan → Exec W (Raised X) ExecutionOutcome
  unfolding compile_failure finish run ◌>>=◌
  execute (err detail) = pure (compile_failure detail)
  execute (ok plan) =
      run (dispatch_policy plan) (evaluate plan) plan.policies >>= λ b. finish plan b b.failures
