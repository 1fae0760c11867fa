-- ===== src/Monitoring/Records.antt =====
-- src/control_runtime/monitoring: the records that contracts.py declares for the watch loop, and
-- those that watch_loop.py makes of an alert, of an action or of a user's text.
use multiagents.Prelude.{
  Bool, Option, none, some, List, [], ◌∷◌, any, String, str_eq, is_empty, texts, join,
  if◌then◌else◌,
}
use multiagents.Monitoring.Contracts.{
  MonitorAlert, MonitorResult, status_value, IntentBinding, IntentLifecycle, ControlResult,
}
use multiagents.Monitoring.Lifecycle.{alert_binding}

pub record RoutingHint (D : Type 0) : Type 0 where
  pub source : String
  pub source_alert_id : String
  pub requested_domains : List String
  pub reuse_binding : Bool
  pub severity : String
  pub monitor_binding : IntentBinding
  pub violated_metrics : List String
  pub metric_deltas : D

pub record RequirementDraft (D : Type 0) : Type 0 where
  pub source_alert_id : String
  pub snapshot_id : String
  pub user_input : String
  pub routing_hint : RoutingHint D

-- `data_flywheel` holds a stage, and a reason where the alert was deferred.
pub record WatchLoopTriggerRecord (D : Type 0) : Type 0 where
  pub trigger_type : String
  pub snapshot_id : String
  pub user_input : String
  pub source_alert_id : String
  pub intent_id : String
  pub lifecycle_status : String
  pub routing_hint : Option (RoutingHint D)
  pub control_result : Option ControlResult
  pub stage : String
  pub reason : Option String

pub record PendingAlert : Type 0 where
  pub alert_id : String
  pub snapshot_id : String
  pub supi : String
  pub app_id : String
  pub flow_id : String
  pub severity : String
  pub violated_metrics : List String
  pub intent_id : String
  pub defer_reason : String

-- The arguments of `orchestrator.run`.
pub record RunRequest (D : Type 0) : Type 0 where
  pub user_input : String
  pub scenario_id : String
  pub scenario_tags : List String
  pub snapshot_id : String
  pub routing_hint : Option (RoutingHint D)

pub record WatchLoopIterationResult (D : Type 0) : Type 0 where
  pub snapshot_id : String
  pub monitor_result : MonitorResult D
  pub records : List (WatchLoopTriggerRecord D)
  pub user_input_seen : Bool
  pub pending_monitor_alerts : List PendingAlert
  pub lifecycles : List IntentLifecycle

pub data WatchError (X : Type 0) : Type 0 where
  no_snapshot : WatchError X
  key_error : WatchError X
  raised : X → WatchError X

-- `list(dict.fromkeys(xs))`: the first of each
unfoldable pub unique_from : List String → List String → List String
unique_from seen [] = []
unique_from seen (x ∷ xs) =
    let rest = unique_from seen xs in
    let next = unique_from (x ∷ seen) xs in if any (str_eq x) seen then rest else x ∷ next

module _ {D : Type 0} where
  unfoldable pub build_monitor_reentry_requirement : MonitorAlert D → RequirementDraft D
  unfolding texts join
  build_monitor_reentry_requirement a = record {
    source_alert_id = a.alert_id;
    snapshot_id = a.snapshot_id;
    user_input = texts (
        "监控发现 "
        ∷ (if is_empty a.flow_name then a.flow_id else a.flow_name)
        ∷ "（SUPI "
        ∷ a.supi
        ∷ "，app "
        ∷ a.app_id
        ∷ "，flow "
        ∷ a.flow_id
        ∷ "）违反 SLA："
        ∷ join "、" a.violated_metrics
        ∷ "。请"
        ∷ (if a.reuse_binding then "沿用当前业务绑定" else "重新确认业务绑定")
        ∷ "并重新规划 QoS，使该业务流恢复目标。"
        ∷ []);
    routing_hint = record {
      source = "deterministic_monitor";
      source_alert_id = a.alert_id;
      requested_domains = a.suggested_domains;
      reuse_binding = a.reuse_binding;
      severity = a.severity;
      monitor_binding = alert_binding a;
      violated_metrics = a.violated_metrics;
      metric_deltas = a.metric_deltas;
    };
  }

  abbrev pub pending_alert_payload : MonitorAlert D → String → PendingAlert
  pending_alert_payload a i = record {
    alert_id = a.alert_id;
    snapshot_id = a.snapshot_id;
    supi = a.supi;
    app_id = a.app_id;
    flow_id = a.flow_id;
    severity = a.severity;
    violated_metrics = a.violated_metrics;
    intent_id = i;
    defer_reason = "per_iteration_reentry_limit";
  }

  abbrev pub deferred_record : String → MonitorAlert D → IntentLifecycle → WatchLoopTriggerRecord D
  deferred_record snapshot a l = record {
    trigger_type = "monitor_deferred";
    snapshot_id = snapshot;
    user_input = "";
    source_alert_id = a.alert_id;
    intent_id = l.intent_id;
    lifecycle_status = status_value l.status;
    routing_hint = none;
    control_result = none;
    stage = "monitor_alert_deferred";
    reason = some "per_iteration_reentry_limit";
  }

  abbrev pub monitor_record :
      String → MonitorAlert D → IntentLifecycle → ControlResult → WatchLoopTriggerRecord D
  monitor_record snapshot a l result = record {
    trigger_type = "monitor";
    snapshot_id = snapshot;
    user_input = (build_monitor_reentry_requirement a).user_input;
    source_alert_id = a.alert_id;
    intent_id = l.intent_id;
    lifecycle_status = status_value l.status;
    routing_hint = some (build_monitor_reentry_requirement a).routing_hint;
    control_result = some result;
    stage = "monitor_alert_to_orchestrator_reentry";
    reason = none;
  }

  abbrev pub user_record :
      String → String → IntentLifecycle → ControlResult → WatchLoopTriggerRecord D
  user_record snapshot text l result = record {
    trigger_type = "user";
    snapshot_id = snapshot;
    user_input = text;
    source_alert_id = "";
    intent_id = l.intent_id;
    lifecycle_status = status_value l.status;
    routing_hint = none;
    control_result = some result;
    stage = "human_requirement_to_orchestrator";
    reason = none;
  }
