-- ===== src/Orchestrator/Main/Session.antt =====
-- What a control session returns, and how it is closed.
use multiagents.Prelude.{
  ℕ, ◌+◌, ◌≤◌, ◌≡◌, refl, false, none, length, String, strip, is_empty, Bool-cases, inl, inr,
  if◌then◌else◌, arith,
}
use multiagents.Exec.{ok, err, pure, ◌>>=◌, ◌>>◌, Leads, Leads-ok, Leads-err, Leads-bind}
use multiagents.Orchestrator.Contracts.{ControlRoundResult}
use multiagents.Orchestrator.Main.{
  run_rounds, given_result, finish, start, bound_snapshot, latest_or_raise, activate, run_session,
  run,
}
use multiagents.Orchestrator.RoundStates.{
  OrchestratorError, Collaborators, Rounds, call, wrap, initial,
}
use multiagents.Orchestrator.Main.RoundLoop.{
  HasEnded, IsEnd, is_no_result, Known, call-Leads, call-returned, run_rounds-HasEnded,
}

-- The session was created for the user's text.
abbrev pub Creates : {W X J P : Type 0} → Collaborators W X J P → String → String → Type 0
Creates {W} team user_input session =
    (w : W) × (w' : W) × (team.create_session_context user_input w ≡ (ok session, w'))

-- What a session's result promises, and how the session was closed in the world.
pub record IsSession {W X J P : Type 0} (team : Collaborators W X J P) (max_rounds : ℕ)
    (user_input : String) (r : ControlRoundResult J) (w' : W) : Type 0 where
  pub begun : Creates team user_input r.session_id
  pub first : 1 ≤ r.round_count
  pub last : r.round_count ≤ max_rounds
  pub ended : IsEnd team max_rounds r.session_id r.snapshot_id r.round_count r.completed
  pub retries : r.round_count ≡ 1 + r.retry_count
  pub few : length r.round_traces ≤ 3
  pub closed :
      (w : W) × (team.update_session_context r.session_id
          (if r.completed then "completed" else "failed")
          (strip r.snapshot_id)
          (if r.completed then "completed" else "failed")
          w
        ≡ (ok tt, w'))

module _ {W X J P : Type 0} (team : Collaborators W X J P) (max_rounds : ℕ) where
  finish-IsSession :
      (user_input session snapshot : String) (s : Rounds J) (w : W)
      → Creates team user_input session
      → HasEnded team max_rounds user_input session snapshot s.loop
      → Leads
          (λ r w'. IsSession team max_rounds user_input r w')
          Known
          (finish team session snapshot s w)
  unfolding finish call wrap given_result
  finish-IsSession user_input session snapshot s w created (n, first, last, (r, given, i), ended) =
      let status : String = if s.loop.completed then "completed" else "failed" in
      Leads-bind _ Known (call (team.update_session_context session status (strip snapshot) status))
        (λ _. given_result team s.loop.latest_result) w
        (λ _ w'. team.update_session_context session status (strip snapshot) status w ≡ (ok tt, w'))
        (call-returned (team.update_session_context session status (strip snapshot) status) w)
        λ _ w' q. rw given (record {
          begun = rw i.session created;
          first = rw i.counted first;
          last = rw i.counted last;
          ended = rw (i.counted, i.session, i.snapshot, i.completes) ended;
          retries = i.retries;
          few = rw i.traces i.few;
          closed = (w, rw (i.session, i.snapshot, i.completes) q);
        })

  run-Leads :
      (user_input snapshot_id : String) (w : W)
      → 1 ≤ max_rounds
      → Leads
          (λ r w'. IsSession team max_rounds user_input r w')
          Known
          (run team max_rounds user_input snapshot_id w)
  unfolding run run_session start bound_snapshot activate ◌>>◌
  run-Leads user_input snapshot_id w some_round =
      Leads-bind _ Known (start team user_input snapshot_id)
        (run_session team max_rounds user_input) w (λ ids _. Creates team user_input ids.0) started
        λ ids w1 created.
          Leads-bind _ Known
            (run_rounds team max_rounds user_input ids.0 ids.1 max_rounds 1
              (record { loop = initial; grounding = none }))
            (finish team ids.0 ids.1) w1 _
            (run_rounds-HasEnded team max_rounds user_input ids.0 ids.1 max_rounds 0 _ w1
              (omega arith) refl (λ z. absurd (omega (arith, z))) some_round)
            λ s w2 h. finish-IsSession user_input ids.0 ids.1 s w2 created h
    where
      checked : (t : String) (w1 : W) → Leads (λ _ _. Unit {0}) Known (latest_or_raise team t w1)
      checked t w1 = elim (Bool-cases (is_empty (strip t))) [
        | inl empty ↦ rw empty refl
        | inr full ↦ rw full tt
      ]

      bound : Leads (λ _ _. Unit {0}) Known (bound_snapshot team snapshot_id w)
      bound = elim (Bool-cases (is_empty (strip snapshot_id))) [
        | inl empty ↦ rw empty (
            Leads-bind _ Known (call team.latest_snapshot) (latest_or_raise team) w (λ _ _. Unit)
              (call-Leads team.latest_snapshot w) (λ t w1 _. checked t w1))
        | inr full ↦ rw full tt
      ]

      activated :
          (snapshot session : String) (w1 : W)
          → Creates team user_input session
          → Leads (λ ids _. Creates team user_input ids.0) Known (activate team snapshot session w1)
      activated snapshot session w1 created = elim (Bool-cases (is_empty session)) [
        | inl empty ↦ rw empty refl
        | inr full ↦ rw full (
            Leads-bind _ Known
              (call (team.update_session_context session "main_control" snapshot "active"))
              (λ _. pure (session, snapshot)) w1 (λ _ _. Unit)
              (call-Leads (team.update_session_context session "main_control" snapshot "active") w1)
              (λ _ _ _. created))
      ]

      started :
          Leads (λ ids _. Creates team user_input ids.0) Known (start team user_input snapshot_id w)
      started =
          Leads-bind _ Known (bound_snapshot team snapshot_id)
            (λ snapshot. call (team.create_session_context user_input) >>= activate team snapshot) w
            (λ _ _. Unit) bound
            λ snapshot w1 _.
              Leads-bind _ Known (call (team.create_session_context user_input))
                (activate team snapshot) w1
                (λ session w2. team.create_session_context user_input w1 ≡ (ok session, w2))
                (call-returned (team.create_session_context user_input) w1)
                (λ session w2 created. activated snapshot session w2 (w1, w2, created))

  -- A session with at least one round that returns a result is one that was created for the user's
  -- text, and counts between one and `max_rounds`
  -- rounds. Either they are `max_rounds` and it is not completed, or the round of that number, of
  -- the result's session and snapshot, was executed and came out completed, as the result says, or
  -- forbade a retry. Its retries are the rounds after the first, and it carries at most three
  -- traces. The last thing it did is to close the session of the result, with the snapshot of the
  -- result, as completed or failed, as the result says.
  pub run-IsSession :
      (user_input snapshot_id : String) (w w' : W) (r : ControlRoundResult J)
      → 1 ≤ max_rounds
      → run team max_rounds user_input snapshot_id w ≡ (ok r, w')
      → IsSession team max_rounds user_input r w'
  run-IsSession user_input snapshot_id w w' r some_round e =
      Leads-ok (λ r w'. IsSession team max_rounds user_input r w') Known
        (run team max_rounds user_input snapshot_id w)
        (run-Leads user_input snapshot_id w some_round) e

  -- A session with at least one round that raises does so for a reason of its own or of a
  -- collaborator, and never because its rounds have produced no result.
  pub run_no_result :
      (user_input snapshot_id : String) (w w' : W) (x : OrchestratorError X)
      → 1 ≤ max_rounds
      → run team max_rounds user_input snapshot_id w ≡ (err x, w')
      → is_no_result x ≡ false
  run_no_result user_input snapshot_id w w' x some_round e =
      Leads-err (λ r w'. IsSession team max_rounds user_input r w') Known
        (run team max_rounds user_input snapshot_id w)
        (run-Leads user_input snapshot_id w some_round) e
