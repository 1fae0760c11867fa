-- ===== src/Orchestrator/Main/RoundLoop.antt =====
-- What the rounds of a control session leave in the loop's state, whatever the agents do.
use multiagents.Prelude.{
  ℕ, zero, suc, ◌+◌, ◌-◌, ◌≤◌, ◌≡◌, refl, sym, Bool, true, false, ◌||◌, some, List, [], ◌∷◌, ◌++◌,
  length, length-drop, String, leb, ltb, Bool-cases, ◌⊎◌, inl, inr, if◌then◌else◌, arith,
}
use multiagents.Exec.{Result, ok, err, Exec, pure, ◌>>◌, Leads, Leads-bind, Leads-try}
use multiagents.Orchestrator.Contracts.{
  GroundingDecision, GlobalControlIntent, ControlRoundTrace, ControlRoundResult,
  OrchestratorLoopState, appended, append_round_trace,
}
use multiagents.Orchestrator.Main.{
  plan_round, after_execution, after_plan, after_failure, round_context, run_rounds,
}
use multiagents.Orchestrator.RoundStates.{
  OrchestratorError, no_result, RoundContext, Planned, negotiate, planned, RoundExecution,
  Collaborators, Rounds, call, result_of, unplanned, planning_failed_round, negotiation_round,
  executed_round, wrap,
}

module _ {J : Type 0} where
  -- at most three rounds are kept
  appended-few :
      (rounds : List (ControlRoundTrace J)) (trace : ControlRoundTrace J)
      → length (appended rounds trace) ≤ 3
  unfolding appended
  appended-few rounds trace = elim (Bool-cases (ltb 3 (length (rounds ++ trace ∷ [])))) [
    | inl many ↦
        rw (many, length-drop (length (rounds ++ trace ∷ []) - 3) (rounds ++ trace ∷ []))
          (omega arith)
    | inr few ↦ rw few (ground (arith, few))
  ]

  -- What the loop's state says of the session, when `made` rounds have been made.
  pub record IsResult (session_id snapshot_id : String) (made : ℕ) (completed : Bool)
      (rounds : List (ControlRoundTrace J)) (r : ControlRoundResult J) : Type 0 where
    pub session : r.session_id ≡ session_id
    pub snapshot : r.snapshot_id ≡ snapshot_id
    pub counted : r.round_count ≡ made
    pub retries : r.round_count ≡ 1 + r.retry_count
    pub traces : r.round_traces ≡ rounds
    pub few : length rounds ≤ 3
    pub completes : r.completed ≡ completed

  abbrev pub HasResult : String → String → ℕ → OrchestratorLoopState J → Type 0
  HasResult session_id snapshot_id made state =
      (r : ControlRoundResult J) × (state.latest_result ≡ some r)
      × IsResult session_id snapshot_id made state.completed state.rounds r

  module _ (c : RoundContext J) (first : 1 ≤ c.round_index) where
    unplanned-HasResult :
        (trace : ControlRoundTrace J) (state : OrchestratorLoopState J)
        → state.completed ≡ false
        → HasResult c.session_id c.snapshot_id c.round_index (unplanned c trace state)
    unfolding unplanned append_round_trace result_of
    unplanned-HasResult trace state open_still = (
      _,
      refl,
      record {
        session = refl;
        snapshot = refl;
        counted = refl;
        retries = omega (arith, first);
        traces = refl;
        few = appended-few state.rounds trace;
        completes = sym open_still;
      },
    )

    executed_round-HasResult :
        (x : RoundExecution J) (state : OrchestratorLoopState J)
        → HasResult c.session_id c.snapshot_id c.round_index (executed_round c x state)
    unfolding executed_round append_round_trace result_of
    executed_round-HasResult x state = (
      _,
      refl,
      record {
        session = refl;
        snapshot = refl;
        counted = refl;
        retries = omega (arith, first);
        traces = refl;
        few = appended-few state.rounds (if x.completed then x.trace else x.retry_trace);
        completes = refl;
      },
    )

abbrev pub is_no_result : {X : Type 0} → OrchestratorError X → Bool
is_no_result no_result = true
is_no_result _ = false

-- an error that says something else than that there is no result
abbrev pub Known : {W X : Type 0} → OrchestratorError X → W → Type 0
Known e w = is_no_result e ≡ false

pub call-Leads :
    {W X A : Type 0} (m : Exec W X A) (w : W) → Leads (λ _ _. Unit {0}) Known (call m w)
unfolding call wrap
call-Leads m w = called (m w)
  where
    called : {W X A : Type 0} (r : Result X A × W) → Leads (λ _ _. Unit {0}) Known (wrap r.0, r.1)
    called (ok a, w') = tt
    called (err x, w') = refl

-- a call that goes well has returned so
pub call-returned :
    {W X A : Type 0} (m : Exec W X A) (w : W) → Leads (λ a w'. m w ≡ (ok a, w')) Known (call m w)
unfolding call wrap
call-returned {W} {X} {A} m w = returned (m w) refl
  where
    returned :
        (o : Result X A × W) → m w ≡ o → Leads (λ a w'. m w ≡ (ok a, w')) Known (wrap o.0, o.1)
    returned (ok a, w') e = e
    returned (err x, w') e = refl

module _ {W X J P : Type 0} (team : Collaborators W X J P) where
  -- Round `n` was planned and executed, and what came of it ends the session.
  pub record IsDecisive (session_id snapshot_id : String) (n : ℕ) (completed : Bool) : Type 0 where
    pub context : RoundContext J
    pub intent : GlobalControlIntent
    pub grounding : GroundingDecision
    pub plan : P
    pub execution : RoundExecution J
    pub before : W
    pub after : W
    pub index : context.round_index ≡ n
    pub session : context.session_id ≡ session_id
    pub snapshot : context.snapshot_id ≡ snapshot_id
    pub executed : team.execute context intent grounding plan before ≡ (ok execution, after)
    pub ends : (execution.completed || execution.retry_forbidden) ≡ true
    pub completes : completed ≡ execution.completed

  -- Why the session ended after `n` rounds: it was allowed no more and is not completed, or round `n`
  -- ended it.
  abbrev pub IsEnd : ℕ → String → String → ℕ → Bool → Type 0
  IsEnd max_rounds session_id snapshot_id n completed =
      ((n ≡ max_rounds) × (completed ≡ false)) ⊎ IsDecisive session_id snapshot_id n completed

module _ {W X J P : Type 0} (team : Collaborators W X J P) (max_rounds : ℕ)
    (user_input session_id snapshot_id : String) where
  -- a loop's state after its last round
  abbrev pub HasEnded : OrchestratorLoopState J → Type 0
  HasEnded state =
      (n : ℕ) × (1 ≤ n)
      × (n ≤ max_rounds)
      × HasResult session_id snapshot_id n state
      × IsEnd team max_rounds session_id snapshot_id n state.completed

  -- what a loop that goes on promises, from round `n` that did not complete the session
  abbrev Goes : ℕ → (Rounds J → Exec W (OrchestratorError X) (Rounds J)) → Type 0
  Goes n more =
      (s : Rounds J) (w : W)
      → s.loop.completed ≡ false
      → HasResult session_id snapshot_id n s.loop
      → Leads (λ s' _. HasEnded s'.loop) Known (more s w)

  module _ (n : ℕ) (s : Rounds J) (first : 1 ≤ n) (last : n ≤ max_rounds)
      (open_still : s.loop.completed ≡ false)
      (more : Rounds J → Exec W (OrchestratorError X) (Rounds J)) (goes : Goes n more) where
    abbrev context : RoundContext J
    context = round_context team max_rounds user_input session_id snapshot_id n s

    after_execution-HasEnded :
        (intent : GlobalControlIntent) (g : GroundingDecision) (plan : P) (x : RoundExecution J)
        (w1 w : W)
        → team.execute context intent g plan w1 ≡ (ok x, w)
        → Leads (λ s' _. HasEnded s'.loop) Known (after_execution team context g s more x w)
    unfolding after_execution executed_round append_round_trace ◌>>◌
    after_execution-HasEnded intent g plan x w1 w executed =
        let s' : Rounds J = record { loop = executed_round context x s.loop; grounding = some g } in
        let here = executed_round-HasResult context first x s.loop in
        Leads-bind _ Known (call (team.remember "AD"))
          (λ _. if x.completed || x.retry_forbidden then pure s' else more s') w (λ _ _. Unit)
          (call-Leads (team.remember "AD") w)
          λ _ w' _. elim (Bool-cases (x.completed || x.retry_forbidden)) [
            | inl over ↦ rw over (
              n,
              first,
              last,
              here,
              inr (record {
                context = context;
                intent = intent;
                grounding = g;
                plan = plan;
                execution = x;
                before = w1;
                after = w;
                index = refl;
                session = refl;
                snapshot = refl;
                executed = executed;
                ends = over;
                completes = refl;
              }),
            )
            | inr goes_on ↦ rw goes_on (goes s' w' (ground (arith, goes_on)) here)
          ]

    after_plan-HasEnded :
        (p : Planned P) (w : W)
        → Leads (λ s' _. HasEnded s'.loop) Known (after_plan team context s more p w)
    unfolding after_plan negotiation_round unplanned append_round_trace
    after_plan-HasEnded (negotiate g request) w =
        goes _ w open_still (unplanned-HasResult context first _ s.loop open_still)
    after_plan-HasEnded (planned intent g plan) w =
        Leads-bind _ Known (call (team.execute context intent g plan))
          (after_execution team context g s more) w
          (λ x w'. team.execute context intent g plan w ≡ (ok x, w'))
          (call-returned (team.execute context intent g plan) w)
          λ x w' e. after_execution-HasEnded intent g plan x w w' e

    after_failure-HasEnded :
        (e : OrchestratorError X) (w : W)
        → Leads (λ s' _. HasEnded s'.loop) Known (after_failure team max_rounds context s more e w)
    unfolding after_failure planning_failed_round unplanned append_round_trace
    after_failure-HasEnded e w =
        let here = unplanned-HasResult context first _ (record s.loop { completed = false }) refl in
        elim (Bool-cases (leb max_rounds n)) [
          | inl over ↦ rw over (n, first, last, here, inl (ground (arith, over, last), refl))
          | inr left ↦ rw left (goes _ w refl here)
        ]

  pub run_rounds-HasEnded :
      (left n : ℕ) (s : Rounds J) (w : W)
      → n + left ≡ max_rounds
      → s.loop.completed ≡ false
      → (1 ≤ n → HasResult session_id snapshot_id n s.loop)
      → 1 ≤ max_rounds
      → Leads
          (λ s' _. HasEnded s'.loop)
          Known
          (run_rounds team max_rounds user_input session_id snapshot_id left (n + 1) s w)
  unfolding run_rounds
  run_rounds-HasEnded zero n s w counted open_still given some_round = (
    n,
    omega (arith, counted, some_round),
    omega (arith, counted),
    given (omega (arith, counted, some_round)),
    inl (omega (arith, counted), open_still),
  )
  run_rounds-HasEnded (suc left) n s w counted open_still given some_round =
      let more = run_rounds team max_rounds user_input session_id snapshot_id left (n + 1 + 1) in
      let c = round_context team max_rounds user_input session_id snapshot_id (n + 1) s in
      let goes : Goes (n + 1) more = λ s' w' ongoing result.
        run_rounds-HasEnded left (n + 1) s' w' (omega (arith, counted)) ongoing (λ _. result)
          some_round in
      Leads-try _ Known (plan_round team c) (after_plan team c s more)
        (after_failure team max_rounds c s more) w
        (λ p w'.
          after_plan-HasEnded (n + 1) s (omega arith) (omega (arith, counted)) open_still more goes
            p w')
        (λ e w'.
          after_failure-HasEnded (n + 1) s (omega arith) (omega (arith, counted)) open_still more
            goes e w')
