-- ===== src/Execution/Tests.antt =====
-- The controller on a concrete plan, with a gateway that counts its dispatches.
use multiagents.Prelude.{
  ◌++◌, map, ℕ, ◌+◌, ◌≡◌, refl, true, none, some, List, [], ◌∷◌, String, if◌then◌else◌, ◌==◌,
}
use multiagents.Exec.{Result, ok, err, Exec}
use multiagents.Execution.Dispatch.{wait_message, check_slice, payload, decision, judge_as, judge}
use multiagents.Execution.Gateway.{
  text, parts, Policy, Monitoring, Response, fields, last_result, normalize_snssai, slice_error,
  requested_slice, slice_execution_error,
}
use multiagents.Execution.Batch.{
  AssuranceVerdict, PolicyExecutionBatch, empty_batch, call, contract_valid,
  post_apply_assurance_verdict, assurance_failure, refuse, accept, assure, decide,
  dispatch_single_policy, assurance_verdict, after_dispatch, after_raise, run_policy, run_from, run,
}
use multiagents.Execution.Batch.Sends.{run_sends_once}
use multiagents.Execution.Batch.Receipts.{IsBatch, run-IsBatch}
use multiagents.Execution.Controller.{
  CompiledStrategyPlan, ExecutionOutcome, CommitRequest, failure_scope_from_entries,
  successful_policy_ids, failure_status, failure_outcome, success_outcome, commit_supi, commit,
  finish, compile_failure, execute,
}
use multiagents.Execution.Controller.Outcomes.{IsOutcome, execute-IsOutcome}
use multiagents.Execution.Dispatch.Judged.{IsJudged, judge-IsJudged}

executor : Unit {0}
unfolding requested_slice wait_message run run_from run_policy dispatch_single_policy decide call
    judge judge_as last_result check_slice slice_execution_error slice_error normalize_snssai
    decision payload after_dispatch after_raise assurance_verdict post_apply_assurance_verdict
    contract_valid accept assure refuse assurance_failure
executor = tt

controller : Unit {0}
unfolding executor execute finish commit commit_supi failure_outcome failure_status success_outcome
    compile_failure successful_policy_ids failure_scope_from_entries
controller = tt

-- the value of a run, or a default
abbrev returned : {S E A : Type 0} → A → Result E A × S → A
returned a (ok b, s) = b
returned a (err e, s) = a

abbrev policy : String → Policy
policy name = record {
  policy_id = name;
  policy_type = "qos";
  target_type = "flow";
  supi = "imsi-1";
  flow_id = "f1";
  policy_details = some (record { flow_id = "f1"; slice_info = parts (some 1) "00000A" });
}

abbrev evidence : Monitoring
evidence = record {
  current_slice = text "0100000a";
  checks = some (true ∷ true ∷ []);
  contract_version = 1;
  run_id = "r";
  reset_generation = some 0;
  baseline_tick = some 3;
  latest_tick = some 5;
  sla_epoch_start_tick = some 4;
}

abbrev answer : String → Response
answer status = fields (record {
  status = status;
  pda_status = none;
  phase = "";
  error = "";
  operation_id = "op";
  status_code = "";
  response_code = "";
  policy_details = none;
  monitoring_data = evidence;
})

-- the second dispatch is still waiting
abbrev gateway : CompiledStrategyPlan → Policy → Exec ℕ (Unit {0}) Response
gateway plan p n = (ok (answer (if n == 1 then "pending" else " Applied")), n + 1)

abbrev sampler : CompiledStrategyPlan → Policy → Exec ℕ (Unit {0}) AssuranceVerdict
sampler plan p n = (err tt, n)

abbrev store : CommitRequest → Exec ℕ (Unit {0}) (Unit {0})
store request n = (ok tt, n + 100)

abbrev plan : List Policy → CompiledStrategyPlan
plan ps = record { supi = ""; session_id = "s"; snapshot_id = "snap"; policies = ps }

abbrev two : CompiledStrategyPlan
two = plan (policy "p1" ∷ policy "p2" ∷ [])

abbrev batch : PolicyExecutionBatch
unfolding executor
batch = returned empty_batch (run (gateway two) (sampler two) two.policies 0)

ran : run (gateway two) (sampler two) two.policies 0 ≡ (ok batch, 2)
unfolding executor
ran = refl

run-IsBatch_example : IsBatch two.policies batch
run-IsBatch_example = run-IsBatch (gateway two) (sampler two) two.policies 0 2 batch ran

abbrev outcome : CompiledStrategyPlan → ExecutionOutcome
unfolding controller
outcome p = returned (compile_failure "") (execute gateway sampler store (ok p) 0)

half : execute gateway sampler store (ok two) 0 ≡ (ok (outcome two), 2)
unfolding controller
half = refl

half_status : (outcome two).execution_status ≡ "Partial Success"
unfolding controller
half_status = refl

execute-IsOutcome_example : IsOutcome gateway sampler store two 0 2 (outcome two)
execute-IsOutcome_example = execute-IsOutcome gateway sampler store two 0 2 (outcome two) half

-- one policy alone is applied and committed
whole : (execute gateway sampler store (ok (plan (policy "p1" ∷ []))) 0).1 ≡ 101
unfolding controller
whole = refl

judge-IsJudged_example :
    IsJudged (policy "p1") (last_result (answer "pending")) (judge (policy "p1") (answer "pending"))
judge-IsJudged_example = judge-IsJudged (policy "p1") (answer "pending")

-- a world that is the list of what was sent
abbrev recording : Policy → Exec (List String) (Unit {0}) Response
recording p w = (ok (answer "success"), w ++ p.policy_id ∷ [])

abbrev silent : Policy → Exec (List String) (Unit {0}) AssuranceVerdict
silent p w = (err tt, w)

abbrev recorded : PolicyExecutionBatch
unfolding executor
recorded = returned empty_batch (run recording silent two.policies [])

all_sent : run recording silent two.policies [] ≡ (ok recorded, "p1" ∷ "p2" ∷ [])
unfolding executor
all_sent = refl

run_sends_once_example : "p1" ∷ "p2" ∷ [] ≡ [] ++ map Policy.policy_id two.policies
run_sends_once_example =
    run_sends_once recording silent (λ w. w) (λ p w. refl) (λ p w. refl) two.policies []
      ("p1" ∷ "p2" ∷ []) recorded all_sent
