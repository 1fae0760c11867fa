-- ===== src/Monitoring/WatchLoop.antt =====
-- src/control_runtime/monitoring/watch_loop.py: `AutonomousWatchLoop`. The orchestrator is an action
-- on a world `W` that may raise an `X`; the monitor's result and the user's text are inputs.
pub mod Runs
pub mod Reentry
use multiagents.Prelude.{
  ℕ, zero, suc, ◌+◌, ◌-◌, Bool, true, false, not, Option, none, some, List, [], ◌∷◌, ◌++◌, any,
  length, drop, String, str_eq, is_empty, strip, texts, join, leb, ltb, if◌then◌else◌,
}
use multiagents.Exec.{Result, ok, err, Exec, pure, raise, ◌>>=◌, ◌>>◌}
use multiagents.Monitoring.Contracts.{
  MonitorAlert, MonitorResult, IntentStatus, status_value, IntentBinding, IntentLifecycle,
  ControlResult,
}
use multiagents.Monitoring.Lifecycle.{
  Manager, find_intent, alert_binding, is_failed, record_initial, observe, begin_replan,
  finish_replan,
}
use multiagents.Monitoring.Records.{
  RoutingHint, RequirementDraft, WatchLoopTriggerRecord, PendingAlert, RunRequest,
  WatchLoopIterationResult, WatchError, no_snapshot, key_error, raised, unique_from,
  build_monitor_reentry_requirement, pending_alert_payload, deferred_record, monitor_record,
  user_record,
}

-- The loop's state that its iterations share.
pub record LoopState (W : Type 0) : Type 0 where
  pub manager : Manager
  pub world : W

-- The records and the pending alerts of one iteration.
pub record Handled (D : Type 0) : Type 0 where
  pub records : List (WatchLoopTriggerRecord D)
  pub pending : List PendingAlert

wrap : {X A : Type 0} → Result X A → Result (WatchError X) A
wrap (ok a) = ok a
wrap (err x) = err (raised x)

module _ {W X : Type 0} where
  -- a method of the lifecycle manager, where `none` is a KeyError
  unfoldable pub manage :
      {A : Type 0} → (Manager → Option (A × Manager)) → Exec (LoopState W) (WatchError X) A
  manage f s = elim (f s.manager) [
    | none ↦ (err key_error, s)
    | some (a, m) ↦ (ok a, record s { manager = m })
  ]

  intent : String → Exec (LoopState W) (WatchError X) IntentLifecycle
  unfolding manage
  intent i = manage (λ m. elim (find_intent i m.lifecycles) [ none ↦ none | some l ↦ some (l, m) ])

  -- the snapshot that an iteration is bound to, with the scenario that it is run under
  module _ {D : Type 0} (run_control : RunRequest D → Exec W X ControlResult) (scenario_id : String)
      (scenario_tags : List String) (snapshot : String) where
    unfoldable pub control : RunRequest D → Exec (LoopState W) (WatchError X) ControlResult
    unfolding wrap
    control request s = let (r, w) = run_control request s.world in (wrap r, record s { world = w })

    abbrev reentry_request : MonitorAlert D → RunRequest D
    reentry_request alert = record {
      user_input = (build_monitor_reentry_requirement alert).user_input;
      scenario_id = scenario_id;
      scenario_tags = unique_from [] (scenario_tags ++ "monitor_reentry" ∷ []);
      snapshot_id = snapshot;
      routing_hint = some (build_monitor_reentry_requirement alert).routing_hint;
    }

    -- what is left of a reentry once the orchestrator has run
    close_reentry :
        String
        → MonitorAlert D
        → ControlResult
        → Exec (LoopState W) (WatchError X) (WatchLoopTriggerRecord D)
    unfolding manage ◌>>=◌
    close_reentry i alert result = do
      l ← manage (finish_replan i result)
      pure (monitor_record snapshot alert l result)

    -- one reentry, between `begin_replan` and `finish_replan`
    reenter : String → MonitorAlert D → Exec (LoopState W) (WatchError X) (WatchLoopTriggerRecord D)
    unfolding manage control close_reentry ◌>>=◌ ◌>>◌
    reenter i alert = do
      manage (begin_replan i alert)
      result ← control (reentry_request alert)
      close_reentry i alert result

    abbrev defer : MonitorAlert D → IntentLifecycle → Handled D → Handled D
    defer alert l h = record {
      records = deferred_record snapshot alert l ∷ h.records;
      pending = pending_alert_payload alert l.intent_id ∷ h.pending;
    }

    abbrev reentered : WatchLoopTriggerRecord D → Handled D → Handled D
    reentered r h = record h { records = r ∷ h.records }

    -- one pass of the loop below, with the two ways that it may go on
    handle_action :
        ℕ
        → ℕ
        → String
        → MonitorAlert D
        → Exec (LoopState W) (WatchError X) (Handled D)
        → Exec (LoopState W) (WatchError X) (Handled D)
        → IntentLifecycle
        → Exec (LoopState W) (WatchError X) (Handled D)
    unfolding reenter ◌>>=◌
    handle_action limit count i alert same more l =
        if is_failed l.status
        then same
        else if leb limit count
        then same >>= (λ h. pure (defer alert l h))
        else reenter i alert >>= (λ r. more >>= λ h. pure (reentered r h))

    -- the loop of `_handle_monitor_alerts`, after `count` reentries of at most `limit`
    unfoldable pub handle_actions :
        ℕ → ℕ → List (String × MonitorAlert D) → Exec (LoopState W) (WatchError X) (Handled D)
    unfolding intent handle_action ◌>>=◌
    handle_actions limit count [] = pure (record { records = []; pending = [] })
    handle_actions limit count ((i, alert) ∷ actions) =
        let same = handle_actions limit count actions in
        let more = handle_actions limit (count + 1) actions in
        intent i >>= handle_action limit count i alert same more

    unfoldable pub handle_monitor_alerts :
        ℕ → MonitorResult D → List String → Exec (LoopState W) (WatchError X) (Handled D)
    unfolding handle_actions manage ◌>>=◌
    handle_monitor_alerts limit result skip =
        manage (observe result.alerts skip) >>= handle_actions limit 0

    -- what a user's text starts: its record, and the intent that the monitor leaves alone
    handle_user :
        String → Exec (LoopState W) (WatchError X) (List (WatchLoopTriggerRecord D) × List String)
    unfolding manage control ◌>>=◌
    handle_user text = if is_empty text then pure ([], []) else do
      result ← control (record {
        user_input = text;
        scenario_id = scenario_id;
        scenario_tags = scenario_tags;
        snapshot_id = snapshot;
        routing_hint = none;
      })
      l ← manage (record_initial result)
      pure (user_record snapshot text l result ∷ [], l.intent_id ∷ [])

    iteration :
        MonitorResult D
        → String
        → List (WatchLoopTriggerRecord D)
        → Handled D
        → Exec (LoopState W) (WatchError X) (WatchLoopIterationResult D)
    iteration result text records h s = (
      ok (record {
        snapshot_id = snapshot;
        monitor_result = result;
        records = records ++ h.records;
        user_input_seen = not (is_empty text);
        pending_monitor_alerts = h.pending;
        lifecycles = s.manager.lifecycles;
      }),
      s,
    )

    -- `run_once`, once its snapshot, the user's text and the monitor's result are there
    run_bound :
        ℕ
        → String
        → Result X (MonitorResult D)
        → Exec (LoopState W) (WatchError X) (WatchLoopIterationResult D)
    unfolding handle_user handle_monitor_alerts iteration ◌>>=◌
    run_bound limit text (err x) = raise (raised x)
    run_bound limit text (ok result) = do
      (records, skip) ← handle_user text
      h ← handle_monitor_alerts limit result skip
      iteration result text records h

  module _ {D : Type 0} (run_control : RunRequest D → Exec W X ControlResult)
      (evaluate : String → Result X (MonitorResult D)) where
    -- `run_once`; `source` and `user_text` are what the two sources return
    unfoldable pub run_once :
        ℕ
        → String
        → List String
        → String
        → String
        → String
        → Exec (LoopState W) (WatchError X) (WatchLoopIterationResult D)
    unfolding run_bound strip
    run_once limit scenario_id scenario_tags snapshot_id source user_text =
        let snapshot = strip (if is_empty snapshot_id then source else snapshot_id) in
        if is_empty snapshot
        then raise no_snapshot
        else run_bound run_control scenario_id scenario_tags snapshot limit (strip user_text)
            (evaluate snapshot)

-- `results.append(r)`, and the deletion of the oldest beyond `limit`
unfoldable pub retain : {A : Type 0} → ℕ → List A → A → List A
retain limit results r =
    let all = results ++ r ∷ [] in
    if ltb limit (length all) then drop (length all - limit) all else all
