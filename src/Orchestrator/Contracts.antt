-- ===== src/Orchestrator/Contracts.antt =====
-- src/control_runtime/orchestrators/loop_state.py, with what the main orchestrator reads of its
-- contracts. `J` is the type of JSON dictionaries, which are carried along. The feedback text of a
-- round, the timings and the details of a single agent are not modelled.
use multiagents.Prelude.{
  ℕ, ◌-◌, Bool, Option, none, some, List, [], ◌∷◌, ◌++◌, length, drop, last?, String, if◌then◌else◌,
  ltb,
}

pub record Question : Type 0 where
  pub question : String
  pub related_domains : List String

pub record GroundingDecision : Type 0 where
  pub flow_supis : List String
  pub open_questions : List Question

pub record Stage : Type 0 where
  pub stage_index : ℕ
  pub target_supis : List String

pub record ReuseContract : Type 0 where
  pub allowed : Bool
  pub preserve_bindings : Bool
  pub invalidate_on : List String

pub record GlobalControlIntent : Type 0 where
  pub supi : String
  pub requested_domains : List String
  pub next_agent : String
  pub current_stage : ℕ
  pub stages : List Stage
  pub reuse_contract : ReuseContract

pub record NegotiationIssue : Type 0 where
  pub domain : String
  pub missing_evidence : List String
  pub rationale : String

pub record DomainNegotiationRequest : Type 0 where
  pub round_index : ℕ
  pub requires_domain_review : Bool
  pub issues : List NegotiationIssue
  pub summary : String

module _ (J : Type 0) where
  -- a report payload, by who made it; {} is `no_report`
  pub data Report : Type 0 where
    no_report : Report
    planning_failed : String → Report
    reported : J → Report

  pub data Diagnosis : Type 0 where
    planning_failure : String → Diagnosis
    domain_negotiation_required : String → List String → Diagnosis
    diagnosed : J → Diagnosis

  pub record ControlRoundTrace : Type 0 where
    pub round_index : ℕ
    pub pda_feedback : Report
    pub diagnosis : Diagnosis
    pub mediator_decision : Option J
    pub negotiation_request : Option DomainNegotiationRequest
    pub planning_blocker : Option J
    pub execution_reentry : Option J

  pub record ControlRoundResult : Type 0 where
    pub session_id : String
    pub snapshot_id : String
    pub completed : Bool
    pub diagnosis : Diagnosis
    pub negotiation_request : Option DomainNegotiationRequest
    pub planning_blocker : Option J
    pub execution_reentry : Option J
    pub round_count : ℕ
    pub retry_count : ℕ
    pub round_traces : List ControlRoundTrace

  pub record OrchestratorLoopState : Type 0 where
    pub rounds : List ControlRoundTrace
    pub completed : Bool
    pub latest_result : Option ControlRoundResult

module _ {J : Type 0} where
  -- `self.rounds[-1].trace`, which the `previous_` properties read
  abbrev pub previous : OrchestratorLoopState J → Option (ControlRoundTrace J)
  previous state = last? state.rounds

  -- `rounds.append(...)`, and `del rounds[:-3]` beyond three
  unfoldable pub appended :
      List (ControlRoundTrace J) → ControlRoundTrace J → List (ControlRoundTrace J)
  appended rounds trace =
      let all = rounds ++ trace ∷ [] in
      if ltb 3 (length all) then drop (length all - 3) all else all

  abbrev pub with_traces :
      List (ControlRoundTrace J) → Option (ControlRoundResult J) → Option (ControlRoundResult J)
  with_traces rounds none = none
  with_traces rounds (some r) = some (record r { round_traces = rounds })

  unfoldable pub append_round_trace :
      ControlRoundTrace J → OrchestratorLoopState J → OrchestratorLoopState J
  unfolding appended
  append_round_trace trace state = record state {
    rounds = appended state.rounds trace;
    latest_result = with_traces (appended state.rounds trace) state.latest_result;
  }
