-- ===== src/Execution/Dispatch.antt =====
-- src/control_runtime/execution/policy_batch_executor.py: one policy's dispatch

pub mod Judged
use multiagents.Prelude.{
  ℕ, zero, suc, ◌+◌, ◌*◌, ◌/◌, ◌-◌, Bool, true, false, not, ◌&&◌, ◌||◌, Option, none, some, List,
  [], ◌∷◌, any, String, str_eq, is_empty, text_or_none, strip, lower, texts, join, if◌then◌else◌,
}
use multiagents.Prelude.{ltb, ◌==◌, ◌≡◌, refl}
use multiagents.Exec.{Result, ok, err}
use multiagents.Execution.Gateway.{
  SliceInfo, absent, text, parts, PolicyDetails, Policy, Monitoring, DispatchResult, Response,
  fields, other, FeedbackPayload, ExecutionDecisionError, policy_flow_id, last_result,
  normalize_snssai, requested_slice, slice_error, slice_execution_error, dispatch_failure_detail,
}

-- the labels of success, and the phases in which the gateway still waits
abbrev pub is_applied : String → Bool
is_applied status = any (str_eq status) ("success" ∷ "applied" ∷ "completed" ∷ "succeeded" ∷ [])

abbrev pub is_waiting : String → Bool
is_waiting phase = any (str_eq phase) ("pda_deadline" ∷ "ns3_timeout" ∷ "waiting_for_ns3" ∷ [])

unfoldable pub payload :
    Policy
    → DispatchResult
    → String
    → String
    → Option (String × Option String)
    → Bool
    → FeedbackPayload
unfolding policy_flow_id
payload p d phase message evidence forbidden = record {
  phase = phase;
  policy_id = p.policy_id;
  policy_type = p.policy_type;
  flow_id = policy_flow_id p;
  error = message;
  slice_execution = evidence;
  last_dispatch_result = d;
  retry_forbidden = forbidden;
}

unfoldable pub decision :
    Policy
    → DispatchResult
    → String
    → String
    → Option (String × Option String)
    → Bool
    → ExecutionDecisionError
unfolding payload
decision p d phase message evidence forbidden = record {
  message = message;
  feedback_payload = payload p d phase message evidence forbidden;
  dispatch_attempts = 1;
}

abbrev pub applied_result : String → DispatchResult → DispatchResult
applied_result status d =
    if str_eq status "success" then d else record d { status = "success"; pda_status = some status }

unfoldable pub check_slice :
    Policy
    → DispatchResult
    → Option String × Option (String × Option String)
    → Result ExecutionDecisionError (DispatchResult × ℕ)
unfolding decision
check_slice p d (none, evidence) = ok (d, 1)
check_slice p d (some message, evidence) = err (decision p d "dispatch" message evidence false)

unfoldable pub wait_message : Policy → DispatchResult → String
unfolding texts strip
wait_message p d = texts (
    "policy "
    ∷ p.policy_id
    ∷ " did not reach a terminal PDA status before the dispatch deadline"
    ∷ (if is_empty (strip d.operation_id)
        then ""
        else texts (" (operation_id=" ∷ strip d.operation_id ∷ ")" ∷ []))
    ∷ "; terminate this case without retrying or redispatching the policy"
    ∷ [])

unfoldable pub failed_message : Policy → DispatchResult → String
unfolding texts dispatch_failure_detail
failed_message p d =
    texts ("policy " ∷ p.policy_id ∷ " dispatch failed: " ∷ dispatch_failure_detail d ∷ [])

-- `status` and `phase` are the result's, stripped and in small letters
unfoldable pub judge_as :
    String → String → Policy → DispatchResult → Result ExecutionDecisionError (DispatchResult × ℕ)
unfolding slice_execution_error check_slice wait_message failed_message decision
judge_as status phase p d =
    if is_applied status
    then check_slice p (applied_result status d) (slice_execution_error p (applied_result status d))
    else if str_eq status "pending" || is_waiting phase
    then err (
        decision p d (if is_waiting phase then phase else "pda_pending_timeout") (wait_message p d)
          none true)
    else err (
        decision p d (if is_empty d.phase then "dispatch" else d.phase) (failed_message p d) none
          false)

-- `_dispatch_single_policy`, once the gateway has answered
unfoldable pub judge : Policy → Response → Result ExecutionDecisionError (DispatchResult × ℕ)
unfolding last_result judge_as strip lower
judge p r = let d = last_result r in judge_as (lower (strip d.status)) (lower (strip d.phase)) p d
