-- ===== src/Monitoring/Contracts.antt =====
-- src/control_runtime/monitoring/contracts.py: the data of the watch loop. `D` is the type of the
-- metric deltas, which are carried along and never read.
use multiagents.Prelude.{ℕ, Bool, true, ◌&&◌, Option, List, String, str_eq, str_eq_iff, ◌≡◌, arith}

pub record MonitorAlert (D : Type 0) : Type 0 where
  pub alert_id : String
  pub snapshot_id : String
  pub supi : String
  pub app_id : String
  pub app_name : String
  pub flow_id : String
  pub flow_name : String
  pub severity : String
  pub status : String
  pub violated_metrics : List String
  pub metric_deltas : D
  pub recommended_consumer : String
  pub summary : String
  pub suggested_domains : List String
  pub reuse_binding : Bool
  pub observed_at : String

pub record MonitorResult (D : Type 0) : Type 0 where
  pub snapshot_id : String
  pub scanned_flow_count : ℕ
  pub alerts : List (MonitorAlert D)
  pub summary : String

pub data IntentStatus : Type 0 where
  active degraded replanning satisfied failed : IntentStatus

-- `status.value`
unfoldable pub status_value : IntentStatus → String
status_value active = "active"
status_value degraded = "degraded"
status_value replanning = "replanning"
status_value satisfied = "satisfied"
status_value failed = "failed"

pub record IntentBinding : Type 0 where
  pub supi : String
  pub app_id : String
  pub flow_id : String

-- the dataclass's `==`
abbrev pub same_binding : IntentBinding → IntentBinding → Bool
same_binding a b = str_eq a.supi b.supi && str_eq a.app_id b.app_id && str_eq a.flow_id b.flow_id

pub same_binding→eq : (a b : IntentBinding) → same_binding a b ≡ true → a ≡ b
same_binding→eq a b h =
    ground (
      arith,
      str_eq_iff a.supi b.supi,
      str_eq_iff a.app_id b.app_id,
      str_eq_iff a.flow_id b.flow_id,
    )

pub same_binding_self : (a : IntentBinding) → same_binding a a ≡ true
same_binding_self a =
    ground (
      arith,
      str_eq_iff a.supi a.supi,
      str_eq_iff a.app_id a.app_id,
      str_eq_iff a.flow_id a.flow_id,
    )

pub record IntentLifecycle : Type 0 where
  pub intent_id : String
  pub bindings : List IntentBinding
  pub status : IntentStatus
  pub origin : String

-- What the watch loop reads of a `ControlRoundResult`: `flows` are the bindings of the last round's
-- grounding decision, `none` where reading them raises.
pub record ControlResult : Type 0 where
  pub session_id : String
  pub completed : Bool
  pub flows : Option (List IntentBinding)
