-- ===== src/Monitoring/Tests.antt =====
-- The watch loop on concrete alerts.
use multiagents.Prelude.{ℕ, ◌+◌, ◌≡◌, refl, true, some, List, [], ◌∷◌, String}
use multiagents.Exec.{Result, ok}
use multiagents.Monitoring.Contracts.{
  MonitorAlert, IntentBinding, IntentLifecycle, active, degraded, ControlResult, status_value,
}
use multiagents.Monitoring.Lifecycle.{
  Manager, find_intent, put_intent, set_status, record_initial, intersect, skipped_bindings, settle,
  last_with, degrade_for, schedule, observe, begin_replan, finish_replan, monitor_id,
}
use multiagents.Monitoring.Lifecycle.Observed.{IsObserved, observe-IsObserved}
use multiagents.Monitoring.WatchLoop.{LoopState, Handled, handle_actions, retain}
use multiagents.Monitoring.Records.{
  RunRequest, monitor_record, deferred_record, pending_alert_payload,
}
use multiagents.Monitoring.WatchLoop.Runs.{count_type}
use multiagents.Monitoring.WatchLoop.Reentry.{IsRationed, handle_actions-IsRationed}

loop : Unit {0}
unfolding find_intent put_intent set_status record_initial intersect skipped_bindings settle
    last_with degrade_for schedule observe begin_replan finish_replan handle_actions status_value
loop = tt

abbrev alert : String → String → MonitorAlert (Unit {0})
alert name flow = record {
  alert_id = name;
  snapshot_id = "snap";
  supi = "imsi-1";
  app_id = "video";
  app_name = "Video";
  flow_id = flow;
  flow_name = "";
  severity = "high";
  status = "open";
  violated_metrics = "latency" ∷ [];
  metric_deltas = tt;
  recommended_consumer = "MAIN";
  summary = "";
  suggested_domains = "pcf" ∷ [];
  reuse_binding = true;
  observed_at = "";
}

abbrev flow : String → IntentBinding
flow f = record { supi = "imsi-1"; app_id = "video"; flow_id = f }

abbrev user_intent : IntentLifecycle
user_intent = record {
  intent_id = "s1";
  bindings = flow "f1" ∷ [];
  status = active;
  origin = "user";
}

abbrev before : Manager
before = record { lifecycles = user_intent ∷ []; replanned = flow "f2" ∷ [] }

abbrev alerts : List (MonitorAlert (Unit {0}))
alerts = alert "a1" "f1" ∷ alert "a2" "f1" ∷ alert "a3" "f3" ∷ []

abbrev found_intent : IntentLifecycle
found_intent = record {
  intent_id = "monitor:imsi-1:video:f3";
  bindings = flow "f3" ∷ [];
  status = degraded;
  origin = "monitor";
}

-- the second alert on a flow makes no second reentry
abbrev after : Manager
after = record {
  lifecycles = record user_intent { status = degraded } ∷ found_intent ∷ [];
  replanned = [];
}

abbrev due : List (String × MonitorAlert (Unit {0}))
due = ("s1", alert "a1" "f1") ∷ ("monitor:imsi-1:video:f3", alert "a3" "f3") ∷ []

observed : observe alerts [] before ≡ some (due, after)
unfolding loop monitor_id
observed = refl

observe-IsObserved_example : IsObserved alerts [] before after due
observe-IsObserved_example = observe-IsObserved alerts [] before after due observed

-- an orchestrator that counts its runs and completes each
abbrev run_control : RunRequest (Unit {0}) → ℕ → Result (Unit {0}) ControlResult × ℕ
run_control request n =
    (ok (record { session_id = "s2"; completed = true; flows = some [] }), n + 1)

abbrev start : LoopState ℕ
start = record { manager = after; world = 0 }

abbrev handled : Handled (Unit {0})
handled = record {
  records =
      monitor_record "snap" (alert "a1" "f1") user_intent
        (record { session_id = "s2"; completed = true; flows = some [] })
      ∷ deferred_record "snap" (alert "a3" "f3") found_intent
      ∷ [];
  pending = pending_alert_payload (alert "a3" "f3") found_intent.intent_id ∷ [];
}

abbrev stop : LoopState ℕ
stop = record {
  manager = record { lifecycles = user_intent ∷ found_intent ∷ []; replanned = flow "f1" ∷ [] };
  world = 1;
}

-- two reentries are due, and one is made
one_made : handle_actions run_control "scenario" [] "snap" 1 0 due start ≡ (ok handled, stop)
unfolding loop
one_made = refl

handle_actions-IsRationed_example :
    IsRationed 1 0 due handled × (stop.world ≡ start.world + count_type "monitor" handled.records)
handle_actions-IsRationed_example =
    handle_actions-IsRationed run_control "scenario" [] "snap" (λ n. n) (λ r n. refl) 1 due start
      stop handled one_made

kept : retain {A = ℕ} 2 (1 ∷ 2 ∷ []) 3 ≡ 2 ∷ 3 ∷ []
unfolding retain
kept = refl
