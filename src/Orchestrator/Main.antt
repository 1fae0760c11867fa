-- ===== src/Orchestrator/Main.antt =====
-- src/control_runtime/orchestrators/main_control_orchestrator.py: `MainControlOrchestrator`. The
-- agents, the memory, the storage and one executed round are actions on a world `W` that may raise an `X`.
pub mod RoundLoop
pub mod Session
use multiagents.Prelude.{
  ℕ, zero, suc, ◌+◌, ◌-◌, max, Bool, true, false, not, ◌&&◌, ◌||◌, Option, none, some, List, [],
  ◌∷◌, String, is_empty, strip, lower, leb, ltb, if◌then◌else◌,
}
use multiagents.Exec.{Result, ok, err, Exec, pure, raise, try_then, ◌>>=◌, ◌>>◌}
use multiagents.Orchestrator.Contracts.{
  GroundingDecision, GlobalControlIntent, DomainNegotiationRequest, Report, no_report, Diagnosis,
  ControlRoundTrace, ControlRoundResult, OrchestratorLoopState, previous, append_round_trace,
}
use multiagents.Orchestrator.Transitions.{
  build_planning_failure_payload, scope_global_intent_for_intent_encoding, has_supi_scope,
  build_negotiation_request, build_negotiation_diagnosis, is_closed,
  should_reuse_grounding_decision,
}
use multiagents.Orchestrator.RoundStates.{
  OrchestratorError, no_snapshot, no_session, no_domains, no_scope, no_result, raised, RoundContext,
  Planned, negotiate, planned, RoundExecution, Collaborators, wrap, call, Rounds, result_of,
  unplanned, planning_failed_round, negotiation_round, executed_round, initial,
}

module _ {W X J P : Type 0} (team : Collaborators W X J P) where
  -- the `str` and the class of an exception of `_plan_round`
  unfoldable pub describe_error : OrchestratorError X → String × String
  describe_error no_domains = (
    "Main Agent returned no requested_domains; refusing to infer domains outside the agent.",
    "RuntimeError",
  )
  describe_error no_scope = (
    "Main Agent returned no SUPI scope; refusing to patch identifiers outside the agent.",
    "RuntimeError",
  )
  describe_error (raised x) = team.describe x
  describe_error e = ("", "RuntimeError")

  unfoldable pub check_intent :
      GlobalControlIntent → Exec W (OrchestratorError X) GlobalControlIntent
  unfolding has_supi_scope call ◌>>◌
  check_intent intent = elim intent.requested_domains [
    | [] ↦ raise no_domains
    | d ∷ ds ↦
        if not (has_supi_scope intent)
        then raise no_scope
        else call (team.remember "MAIN") >> pure intent
  ]

  unfoldable pub plan_policies :
      RoundContext J
      → GlobalControlIntent
      → GroundingDecision
      → Exec W (OrchestratorError X) (Planned P)
  unfolding call ◌>>=◌ ◌>>◌
  plan_policies c intent g = do
    plan ← call (team.strategy c intent g)
    call (team.remember "OSA")
    pure (planned intent g plan)

  -- a new grounding decision: an open question asks for a negotiation
  after_encoding :
      RoundContext J
      → GlobalControlIntent
      → GroundingDecision
      → Exec W (OrchestratorError X) (Planned P)
  unfolding plan_policies build_negotiation_request is_closed
  after_encoding c intent g =
      if is_closed g
      then plan_policies c intent g
      else pure (negotiate g (build_negotiation_request g c.round_index))

  unfoldable pub ground_anew :
      RoundContext J → GlobalControlIntent → Exec W (OrchestratorError X) (Planned P)
  unfolding after_encoding call scope_global_intent_for_intent_encoding ◌>>=◌ ◌>>◌
  ground_anew c intent = do
    g ← call (team.encode c (scope_global_intent_for_intent_encoding intent c.round_index))
    call (team.remember "IEA")
    after_encoding c intent g

  -- the previous decision, if there is one, is used again if `reuse` holds
  unfoldable pub plan_with :
      RoundContext J
      → GlobalControlIntent
      → Bool
      → Option GroundingDecision
      → Exec W (OrchestratorError X) (Planned P)
  unfolding plan_policies ground_anew
  plan_with c intent true (some g) = plan_policies c intent g
  plan_with c intent reuse g = ground_anew c intent

  unfoldable pub plan_round : RoundContext J → Exec W (OrchestratorError X) (Planned P)
  unfolding call check_intent plan_with should_reuse_grounding_decision ◌>>=◌
  plan_round c = do
    answer ← call (team.main c)
    intent ← check_intent answer
    plan_with c intent
        (ltb 1 c.round_index
          && should_reuse_grounding_decision intent c.previous_grounding
              (team.dumped c.previous_round))
        c.previous_grounding

  -- the end of an executed round, with the rounds that may follow
  unfoldable pub after_execution :
      RoundContext J
      → GroundingDecision
      → Rounds J
      → (Rounds J → Exec W (OrchestratorError X) (Rounds J))
      → RoundExecution J
      → Exec W (OrchestratorError X) (Rounds J)
  unfolding executed_round call ◌>>◌
  after_execution c g s more r =
      let s' : Rounds J = record { loop = executed_round c r s.loop; grounding = some g } in
      call (team.remember "AD") >> (if r.completed || r.retry_forbidden then pure s' else more s')

  unfoldable pub after_plan :
      RoundContext J
      → Rounds J
      → (Rounds J → Exec W (OrchestratorError X) (Rounds J))
      → Planned P
      → Exec W (OrchestratorError X) (Rounds J)
  unfolding negotiation_round after_execution call ◌>>=◌
  after_plan c s more (negotiate g request) =
      more (record s { loop = negotiation_round c request s.loop })
  after_plan c s more (planned intent g plan) =
      call (team.execute c intent g plan) >>= after_execution c g s more

  -- `except Exception`: the round has failed, and the last one is not followed by another
  unfoldable pub after_failure :
      ℕ
      → RoundContext J
      → Rounds J
      → (Rounds J → Exec W (OrchestratorError X) (Rounds J))
      → OrchestratorError X
      → Exec W (OrchestratorError X) (Rounds J)
  unfolding planning_failed_round describe_error
  after_failure max_rounds c s more e =
      let s' : Rounds J = record s { loop = planning_failed_round c (describe_error e) s.loop } in
      if leb max_rounds c.round_index then pure s' else more s'

  module _ (max_rounds : ℕ) (user_input session_id snapshot_id : String) where
    abbrev pub round_context : ℕ → Rounds J → RoundContext J
    round_context n s = record {
      user_input = user_input;
      session_id = session_id;
      snapshot_id = snapshot_id;
      round_index = n;
      previous_round = previous s.loop;
      previous_grounding = s.grounding;
    }

    -- `left` rounds of the `for` loop, from round `n`
    unfoldable pub run_rounds : ℕ → ℕ → Rounds J → Exec W (OrchestratorError X) (Rounds J)
    unfolding plan_round after_plan after_failure try_then
    run_rounds zero n s = pure s
    run_rounds (suc left) n s =
        let more = run_rounds left (n + 1) in
        try_then (plan_round (round_context n s)) (after_plan (round_context n s) s more)
          (after_failure max_rounds (round_context n s) s more)

  unfoldable pub given_result :
      Option (ControlRoundResult J) → Exec W (OrchestratorError X) (ControlRoundResult J)
  given_result none = raise no_result
  given_result (some r) = pure r

  -- `finish_control_session`, and the result
  unfoldable pub finish :
      String → String → Rounds J → Exec W (OrchestratorError X) (ControlRoundResult J)
  unfolding given_result call strip ◌>>◌
  finish session_id snapshot_id s =
      let status = if s.loop.completed then "completed" else "failed" in
      call (team.update_session_context session_id status (strip snapshot_id) status)
      >> given_result s.loop.latest_result

  unfoldable pub latest_or_raise : String → Exec W (OrchestratorError X) String
  unfolding strip
  latest_or_raise t = if is_empty (strip t) then raise no_snapshot else pure (strip t)

  unfoldable pub bound_snapshot : String → Exec W (OrchestratorError X) String
  unfolding call strip latest_or_raise ◌>>=◌
  bound_snapshot s =
      if is_empty (strip s) then call team.latest_snapshot >>= latest_or_raise else pure (strip s)

  unfoldable pub activate : String → String → Exec W (OrchestratorError X) (String × String)
  unfolding call ◌>>◌
  activate snapshot session =
      if is_empty session
      then raise no_session
      else call (team.update_session_context session "main_control" snapshot "active")
        >> pure (session, snapshot)

  -- `start_control_session`: the session and its snapshot
  unfoldable pub start : String → String → Exec W (OrchestratorError X) (String × String)
  unfolding bound_snapshot activate call ◌>>=◌
  start user_input snapshot_id = do
    snapshot ← bound_snapshot snapshot_id
    session ← call (team.create_session_context user_input)
    activate snapshot session

  unfoldable pub run_session :
      ℕ → String → String × String → Exec W (OrchestratorError X) (ControlRoundResult J)
  unfolding run_rounds finish ◌>>=◌
  run_session max_rounds user_input (session, snapshot) =
      run_rounds max_rounds user_input session snapshot max_rounds 1
        (record { loop = initial; grounding = none })
      >>= finish session snapshot

  -- `MainControlOrchestrator.run`
  unfoldable pub run : ℕ → String → String → Exec W (OrchestratorError X) (ControlRoundResult J)
  unfolding start run_session ◌>>=◌
  run max_rounds user_input snapshot_id =
      start user_input snapshot_id >>= run_session max_rounds user_input
