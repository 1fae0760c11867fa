-- ===== src/Orchestrator/Tests.antt =====
-- A session with concrete agents: the first round cannot be planned, the second completes.
use multiagents.Prelude.{
  contains, ℕ, ◌+◌, ◌≡◌, refl, Bool, true, false, none, some, [], ◌∷◌, String, if◌then◌else◌, ◌==◌,
  arith,
}
use multiagents.Exec.{ok, err}
use multiagents.Orchestrator.Contracts.{
  GroundingDecision, GlobalControlIntent, ControlRoundTrace, ControlRoundResult, no_report,
  planning_failed, planning_failure, diagnosed, appended, append_round_trace,
}
use multiagents.Orchestrator.Transitions.{
  build_planning_failure_payload, sort_stages, stage_at, scope_global_intent_for_intent_encoding,
  has_supi_scope, build_negotiation_request, build_negotiation_diagnosis, invalidated,
  other_bindings, is_closed, should_reuse_grounding_decision,
}
use multiagents.Orchestrator.Transitions.Reuse.{IsReusable, should_reuse-IsReusable}
use multiagents.Orchestrator.Main.{
  describe_error, check_intent, plan_policies, ground_anew, plan_with, plan_round, after_execution,
  after_plan, after_failure, run_rounds, finish, start, run_session, run,
}
use multiagents.Orchestrator.RoundStates.{
  raised, Collaborators, call, planning_failed_round, negotiation_round, executed_round,
}
use multiagents.Orchestrator.Main.Session.{IsSession, run-IsSession, run_no_result}
use multiagents.Orchestrator.Main.RoundLoop.{is_no_result}

orchestrator : Unit {0}
unfolding build_planning_failure_payload sort_stages stage_at
    scope_global_intent_for_intent_encoding has_supi_scope build_negotiation_request
    build_negotiation_diagnosis contains invalidated other_bindings is_closed
    should_reuse_grounding_decision appended append_round_trace call planning_failed_round
    negotiation_round executed_round describe_error check_intent plan_policies ground_anew plan_with
    plan_round after_execution after_plan after_failure run_rounds finish start run_session run
orchestrator = tt

abbrev intent : GlobalControlIntent
intent = record {
  supi = "imsi-1";
  requested_domains = "qos" ∷ [];
  next_agent = "Optimization_Strategy ";
  current_stage = 1;
  stages =
      record { stage_index = 2; target_supis = [] }
      ∷ record { stage_index = 1; target_supis = "imsi-1" ∷ [] }
      ∷ [];
  reuse_contract = record {
    allowed = true;
    preserve_bindings = true;
    invalidate_on = "SLICE" ∷ [];
  };
}

abbrev grounding : GroundingDecision
grounding = record { flow_supis = " imsi-1" ∷ "" ∷ []; open_questions = [] }

reused : should_reuse_grounding_decision intent (some grounding) "{\"report\": \"latency\"}" ≡ true
unfolding orchestrator
reused = refl

invalidated_reuse :
    should_reuse_grounding_decision intent (some grounding) "{\"report\": \"slice lost\"}" ≡ false
unfolding orchestrator
invalidated_reuse = refl

should_reuse-IsReusable_example :
    (should_reuse_grounding_decision intent (some grounding) "{\"report\": \"latency\"}" ≡ true
      → (g : GroundingDecision) × (some grounding ≡ some g)
        × IsReusable intent g "{\"report\": \"latency\"}")
    × ((g : GroundingDecision)
        → some grounding ≡ some g
        → IsReusable intent g "{\"report\": \"latency\"}"
        → should_reuse_grounding_decision intent (some grounding) "{\"report\": \"latency\"}"
          ≡ true)
should_reuse-IsReusable_example =
    should_reuse-IsReusable intent (some grounding) "{\"report\": \"latency\"}"

-- what the intent and the decision of this test satisfy
reusable :
    (g : GroundingDecision) × (some grounding ≡ some g)
    × IsReusable intent g "{\"report\": \"latency\"}"
reusable = (should_reuse-IsReusable intent (some grounding) "{\"report\": \"latency\"}").0 reused

-- the second round is about the second stage in order
second_stage :
    (scope_global_intent_for_intent_encoding intent 1).stages
    ≡ record { stage_index = 1; target_supis = "imsi-1" ∷ [] } ∷ []
unfolding orchestrator
second_stage = refl

abbrev trace : ℕ → ControlRoundTrace (Unit {0})
trace n = record {
  round_index = n;
  pda_feedback = no_report;
  diagnosis = diagnosed tt;
  mediator_decision = none;
  negotiation_request = none;
  planning_blocker = none;
  execution_reentry = none;
}

-- The world counts the calls of the main agent, whose first call fails. Storage is there if `stored`.
abbrev team : Bool → Collaborators ℕ String (Unit {0}) (Unit {0})
team stored = record {
  main = λ c n. if n == 0 then (err "no answer", 1) else (ok intent, n + 1);
  encode = λ c i n. (ok grounding, n);
  strategy = λ c i g n. (ok tt, n);
  execute = λ c i g p n. (
    ok (record {
      completed = true;
      retry_forbidden = false;
      diagnosis = diagnosed tt;
      trace = trace c.round_index;
      retry_trace = trace c.round_index;
    }),
    n,
  );
  remember = λ role n. (ok tt, n);
  dumped = λ previous. "";
  describe = λ x. (x, "ValueError");
  latest_snapshot = λ n. (ok " snap ", n);
  create_session_context = λ text n. (ok "s1", n);
  update_session_context =
      λ session stage snapshot status n. if stored then (ok tt, n) else (err "down", n);
}

abbrev result : ControlRoundResult (Unit {0})
result = record {
  session_id = "s1";
  snapshot_id = "snap";
  completed = true;
  diagnosis = diagnosed tt;
  negotiation_request = none;
  planning_blocker = none;
  execution_reentry = none;
  round_count = 2;
  retry_count = 1;
  round_traces =
      record (trace 1) {
        pda_feedback = planning_failed "no answer";
        diagnosis = planning_failure "no answer";
      }
      ∷ trace 2
      ∷ [];
}

two_rounds : run (team true) 3 "faster" "" 0 ≡ (ok result, 2)
unfolding orchestrator
two_rounds = refl

run-IsSession_example : IsSession (team true) 3 "faster" result 2
run-IsSession_example = run-IsSession (team true) 3 "faster" "" 0 2 result (omega arith) two_rounds

storage_down : run (team false) 3 "faster" "" 0 ≡ (err (raised "down"), 0)
unfolding orchestrator
storage_down = refl

run_no_result_example : is_no_result {X = String} (raised "down") ≡ false
run_no_result_example =
    run_no_result (team false) 3 "faster" "" 0 0 (raised "down") (omega arith) storage_down
