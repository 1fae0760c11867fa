-- ===== src/Orchestrator/RoundStates.antt =====
-- src/control_runtime/orchestrators/main_control_orchestrator.py: the collaborators of a session,
-- and what each end of a round makes of the loop's state.
use multiagents.Prelude.{
  ℕ, ◌-◌, max, Bool, false, Option, none, some, List, [], String, if◌then◌else◌,
}
use multiagents.Exec.{Result, ok, err, Exec}
use multiagents.Orchestrator.Contracts.{
  GroundingDecision, GlobalControlIntent, DomainNegotiationRequest, Report, no_report, Diagnosis,
  ControlRoundTrace, ControlRoundResult, OrchestratorLoopState, append_round_trace,
}
use multiagents.Orchestrator.Transitions.{
  build_planning_failure_payload, build_negotiation_diagnosis,
}

-- what is raised: the orchestrator's own errors, or a collaborator's with its `str` and its class
pub data OrchestratorError (X : Type 0) : Type 0 where
  no_snapshot : OrchestratorError X
  no_session : OrchestratorError X
  no_domains : OrchestratorError X
  no_scope : OrchestratorError X
  no_result : OrchestratorError X
  raised : X → OrchestratorError X

-- what a round's agents are given: the session, the round and the one before it
pub record RoundContext (J : Type 0) : Type 0 where
  pub user_input : String
  pub session_id : String
  pub snapshot_id : String
  pub round_index : ℕ
  pub previous_round : Option (ControlRoundTrace J)
  pub previous_grounding : Option GroundingDecision

-- what `_plan_round` returns, `P` being a policy plan
pub data Planned (P : Type 0) : Type 0 where
  negotiate : GroundingDecision → DomainNegotiationRequest → Planned P
  planned : GlobalControlIntent → GroundingDecision → P → Planned P

pub record RoundExecution (J : Type 0) : Type 0 where
  pub completed : Bool
  pub retry_forbidden : Bool
  pub diagnosis : Diagnosis J
  pub trace : ControlRoundTrace J
  pub retry_trace : ControlRoundTrace J

-- The collaborators. `main`, `encode` and `strategy` are the three agents, `execute` is
-- `execute_planned_round`, and `dumped` the JSON text that a reuse is tested by.
pub record Collaborators (W X J P : Type 0) : Type 0 where
  pub main : RoundContext J → Exec W X GlobalControlIntent
  pub encode : RoundContext J → GlobalControlIntent → Exec W X GroundingDecision
  pub strategy : RoundContext J → GlobalControlIntent → GroundingDecision → Exec W X P
  pub execute :
      RoundContext J → GlobalControlIntent → GroundingDecision → P → Exec W X (RoundExecution J)
  pub remember : String → Exec W X (Unit {0})
  pub dumped : Option (ControlRoundTrace J) → String
  pub describe : X → String × String
  pub latest_snapshot : Exec W X String
  pub create_session_context : String → Exec W X String
  pub update_session_context : String → String → String → String → Exec W X (Unit {0})

unfoldable pub wrap : {X A : Type 0} → Result X A → Result (OrchestratorError X) A
wrap (ok a) = ok a
wrap (err x) = err (raised x)

unfoldable pub call : {W X A : Type 0} → Exec W X A → Exec W (OrchestratorError X) A
unfolding wrap
call m w = let (r, w') = m w in (wrap r, w')

-- The state of the loop, with the grounding decision that a later round may use again.
pub record Rounds (J : Type 0) : Type 0 where
  pub loop : OrchestratorLoopState J
  pub grounding : Option GroundingDecision

module _ {J : Type 0} where
  bare_trace : ℕ → Report J → Diagnosis J → Option DomainNegotiationRequest → ControlRoundTrace J
  bare_trace n report diagnosis request = record {
    round_index = n;
    pda_feedback = report;
    diagnosis = diagnosis;
    mediator_decision = none;
    negotiation_request = request;
    planning_blocker = none;
    execution_reentry = none;
  }

  unfoldable pub result_of :
      RoundContext J
      → Bool
      → Diagnosis J
      → ControlRoundTrace J
      → Option DomainNegotiationRequest
      → List (ControlRoundTrace J)
      → ControlRoundResult J
  result_of c completed diagnosis trace request traces = record {
    session_id = c.session_id;
    snapshot_id = c.snapshot_id;
    completed = completed;
    diagnosis = diagnosis;
    negotiation_request = request;
    planning_blocker = trace.planning_blocker;
    execution_reentry = trace.execution_reentry;
    round_count = c.round_index;
    retry_count = max 0 (c.round_index - 1);
    round_traces = traces;
  }

  -- a round without a plan: its trace is kept, and then its result is set
  unfoldable pub unplanned :
      RoundContext J → ControlRoundTrace J → OrchestratorLoopState J → OrchestratorLoopState J
  unfolding append_round_trace result_of
  unplanned c trace state =
      let after = append_round_trace trace state in
      record after {
        latest_result =
            some (result_of c false trace.diagnosis trace trace.negotiation_request after.rounds);
      }

  unfoldable pub planning_failed_round :
      RoundContext J → String × String → OrchestratorLoopState J → OrchestratorLoopState J
  unfolding unplanned bare_trace build_planning_failure_payload
  planning_failed_round c (text, name) state =
      let (report, diagnosis) = build_planning_failure_payload text name in
      unplanned c (bare_trace c.round_index report diagnosis none)
        (record state { completed = false })

  unfoldable pub negotiation_round :
      RoundContext J → DomainNegotiationRequest → OrchestratorLoopState J → OrchestratorLoopState J
  unfolding unplanned bare_trace build_negotiation_diagnosis
  negotiation_round c request state =
      unplanned c
        (bare_trace c.round_index no_report (build_negotiation_diagnosis request) (some request))
        state

  -- an executed round: its result is set, and then the trace that is kept
  unfoldable pub executed_round :
      RoundContext J → RoundExecution J → OrchestratorLoopState J → OrchestratorLoopState J
  unfolding append_round_trace result_of
  executed_round c r state =
      append_round_trace (if r.completed then r.trace else r.retry_trace) (record state {
        completed = r.completed;
        latest_result = some (result_of c r.completed r.diagnosis r.trace none state.rounds);
      })

  abbrev pub initial : OrchestratorLoopState J
  initial = record { rounds = []; completed = false; latest_result = none }
