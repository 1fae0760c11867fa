-- ===== src/Monitoring/WatchLoop/Reentry.antt =====
-- How many reentries one iteration makes, and what becomes of the other alerts.
use multiagents.Prelude.{
  ℕ, ◌+◌, ◌-◌, ◌≤◌, ◌<◌, ◌≡◌, refl, true, false, List, [], ◌∷◌, length, String, leb, Bool-cases,
  inl, inr, arith,
}
use multiagents.Exec.{
  ok, Exec, pure, ◌>>=◌, Ensures, Ensures-bind, Ensures-any, Ensures-imp, Ensures-ok,
}
use multiagents.Monitoring.Contracts.{MonitorAlert, IntentLifecycle, ControlResult}
use multiagents.Monitoring.Lifecycle.{is_failed, begin_replan, finish_replan}
use multiagents.Monitoring.WatchLoop.{
  LoopState, Handled, manage, intent, control, reentry_request, close_reentry, reenter, defer,
  reentered, handle_action, handle_actions,
}
use multiagents.Monitoring.WatchLoop.Runs.{count_type, handle_actions-Counted}
use multiagents.Monitoring.Records.{WatchLoopTriggerRecord, RunRequest, WatchError}

module _ {D : Type 0} where
  -- What the limit makes of one iteration, `count` reentries having been made before.
  pub record IsRationed (limit count : ℕ) (actions : List (String × MonitorAlert D)) (h : Handled D)
      : Type 0 where
    pub within : count_type "monitor" h.records ≤ limit - count
    pub deferred : count_type "monitor_deferred" h.records ≡ length h.pending
    pub all_records : length h.records ≡ count_type "monitor" h.records + length h.pending
    pub answered : length h.records ≤ length actions
    pub full : 0 < length h.pending → limit ≤ count + count_type "monitor" h.records

  module _ {W X : Type 0} (run_control : RunRequest D → Exec W X ControlResult)
      (scenario_id : String) (scenario_tags : List String) (snapshot : String) where
    reenter-type :
        (i : String) (alert : MonitorAlert D) (s : LoopState W)
        → Ensures
            (λ r _. r.trigger_type ≡ "monitor")
            (reenter run_control scenario_id scenario_tags snapshot i alert s)
    unfolding reenter
    reenter-type i alert s =
        Ensures-bind _ (manage (begin_replan i alert))
          (λ _.
            control run_control scenario_id scenario_tags snapshot
              (reentry_request run_control scenario_id scenario_tags snapshot alert)
            >>= close_reentry run_control scenario_id scenario_tags snapshot i alert)
          s _ (Ensures-any _)
          λ _ s1 _.
            Ensures-bind _
              (control run_control scenario_id scenario_tags snapshot
                (reentry_request run_control scenario_id scenario_tags snapshot alert))
              (close_reentry run_control scenario_id scenario_tags snapshot i alert) s1 _
              (Ensures-any _)
              λ result s2 _.
                Ensures-bind _ (manage (finish_replan i result)) _ s2 _ (Ensures-any _)
                  λ l s3 _. refl

    module _ (limit count : ℕ) (i : String) (alert : MonitorAlert D)
        (actions : List (String × MonitorAlert D))
        (same more : Exec (LoopState W) (WatchError X) (Handled D))
        (same_rationed : (s : LoopState W)
          → Ensures (λ h _. IsRationed limit count actions h) (same s))
        (more_rationed : (s : LoopState W)
          → Ensures (λ h _. IsRationed limit (count + 1) actions h) (more s)) where
      passed_over :
          (h : Handled D)
          → IsRationed limit count actions h
          → IsRationed limit count ((i, alert) ∷ actions) h
      passed_over h r = record {
        within = ground (arith, r.within);
        deferred = r.deferred;
        all_records = r.all_records;
        answered = omega (arith, r.answered);
        full = r.full;
      }

      put_off :
          (l : IntentLifecycle) (h : Handled D)
          → leb limit count ≡ true
          → IsRationed limit count actions h
          → IsRationed limit count
              ((i, alert) ∷ actions)
              (defer run_control scenario_id scenario_tags snapshot alert l h)
      unfolding count_type
      put_off l h spent r = record {
        within = ground (arith, r.within);
        deferred = ground (arith, r.deferred);
        all_records = ground (arith, r.all_records);
        answered = ground (arith, r.answered);
        full = λ _. ground (arith, spent);
      }

      made :
          (t : WatchLoopTriggerRecord D) (h : Handled D)
          → leb limit count ≡ false
          → t.trigger_type ≡ "monitor"
          → IsRationed limit (count + 1) actions h
          → IsRationed limit count
              ((i, alert) ∷ actions)
              (reentered run_control scenario_id scenario_tags snapshot t h)
      unfolding count_type
      made t h left type r = record {
        within = rw type (ground (arith, left, r.within));
        deferred = rw type (ground (arith, r.deferred));
        all_records = rw type (ground (arith, r.all_records));
        answered = ground (arith, r.answered);
        full = λ p. rw type (ground (arith, left, r.full p));
      }

      handle_action-Ensures :
          (l : IntentLifecycle) (s : LoopState W)
          → Ensures
              (λ h _. IsRationed limit count ((i, alert) ∷ actions) h)
              (handle_action run_control scenario_id scenario_tags snapshot limit count i alert same
                more l s)
      unfolding handle_action
      handle_action-Ensures l s = elim (Bool-cases (is_failed l.status)) [
        | inl gone ↦ rw gone (Ensures-imp (same s) (λ h _ r. passed_over h r) (same_rationed s))
        | inr watched ↦ elim (Bool-cases (leb limit count)) [
          | inl spent ↦
              rw (watched, spent)
                (Ensures-bind _ same
                  (λ h. pure (defer run_control scenario_id scenario_tags snapshot alert l h)) s _
                  (same_rationed s) (λ h _ r. put_off l h spent r))
          | inr left ↦
              rw (watched, left)
                (Ensures-bind _ (reenter run_control scenario_id scenario_tags snapshot i alert)
                  (λ r. more >>= λ h.
                    pure (reentered run_control scenario_id scenario_tags snapshot r h))
                  s _ (reenter-type i alert s)
                  λ r s1 t.
                    Ensures-bind _ more
                      (λ h. pure (reentered run_control scenario_id scenario_tags snapshot r h)) s1
                      _ (more_rationed s1) (λ h _ q. made r h left t q))
        ]
      ]

    handle_actions-Ensures :
        (limit count : ℕ) (actions : List (String × MonitorAlert D)) (s : LoopState W)
        → Ensures
            (λ h _. IsRationed limit count actions h)
            (handle_actions run_control scenario_id scenario_tags snapshot limit count actions s)
    unfolding handle_actions
    handle_actions-Ensures limit count [] s =
        unfold count_type in
        record {
          within = omega arith;
          deferred = refl;
          all_records = refl;
          answered = omega arith;
          full = λ h. absurd (omega arith);
        }
    handle_actions-Ensures limit count ((i, alert) ∷ actions) s =
        Ensures-bind _ (intent i)
          (handle_action run_control scenario_id scenario_tags snapshot limit count i alert
            (handle_actions run_control scenario_id scenario_tags snapshot limit count actions)
            (handle_actions run_control scenario_id scenario_tags snapshot limit (count + 1)
              actions))
          s _ (Ensures-any _)
          λ l s1 _.
            handle_action-Ensures limit count i alert actions _ _
              (handle_actions-Ensures limit count actions)
              (handle_actions-Ensures limit (count + 1) actions) l s1

    -- In one iteration at most `limit` alerts are planned again, and there is at most one record for
    -- each action. Each record is that of a reentry or of a deferral, the deferrals are as many as
    -- the pending alerts, and none is deferred before the limit is reached. However runs of the
    -- orchestrator are counted, one for each, they are as many as the records of a reentry.
    pub handle_actions-IsRationed :
        (runs : W → ℕ)
        → ((r : RunRequest D) (w : W) → runs (run_control r w).1 ≡ runs w + 1)
        → (limit : ℕ) (actions : List (String × MonitorAlert D)) (s s' : LoopState W)
          (h : Handled D)
        → handle_actions run_control scenario_id scenario_tags snapshot limit 0 actions s
          ≡ (ok h, s')
        → IsRationed limit 0 actions h
          × (runs s'.world ≡ runs s.world + count_type "monitor" h.records)
    handle_actions-IsRationed runs counts limit actions s s' h e = (
      Ensures-ok (λ h _. IsRationed limit 0 actions h)
          (handle_actions run_control scenario_id scenario_tags snapshot limit 0 actions s)
          (handle_actions-Ensures limit 0 actions s) e,
      Ensures-ok (λ h s'. runs s'.world ≡ runs s.world + count_type "monitor" h.records)
          (handle_actions run_control scenario_id scenario_tags snapshot limit 0 actions s)
          (handle_actions-Counted run_control runs counts scenario_id scenario_tags snapshot limit 0
            actions s)
          e,
    )
