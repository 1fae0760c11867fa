-- ===== src/Monitoring/Lifecycle.antt =====
-- src/control_runtime/monitoring/lifecycle.py: `IntentLifecycleManager`. The dictionary of
-- lifecycles is a list in insertion order, and a lifecycle is known by its intent id.
pub mod Reentries
pub mod Observed
use multiagents.Prelude.{
  Bool, true, false, not, ◌&&◌, ◌||◌, Option, none, some, List, [], ◌∷◌, ◌++◌, map, any, String,
  str_eq, texts, if◌then◌else◌,
}
use multiagents.Monitoring.Contracts.{
  MonitorAlert, IntentStatus, active, degraded, replanning, satisfied, failed, IntentBinding,
  same_binding, IntentLifecycle, ControlResult,
}

pub record Manager : Type 0 where
  pub lifecycles : List IntentLifecycle
  pub replanned : List IntentBinding

abbrev pub has_binding : List IntentBinding → IntentBinding → Bool
has_binding bindings b = any (same_binding b) bindings

abbrev pub has_id : List String → String → Bool
has_id ids i = any (str_eq i) ids

-- `self._lifecycles[id]`, `none` for a KeyError
unfoldable pub find_intent : String → List IntentLifecycle → Option IntentLifecycle
find_intent i [] = none
find_intent i (l ∷ ls) = if str_eq l.intent_id i then some l else find_intent i ls

-- `self._lifecycles[l.intent_id] = l`: a known key keeps its place
unfoldable pub put_intent : IntentLifecycle → List IntentLifecycle → List IntentLifecycle
put_intent new [] = new ∷ []
put_intent new (l ∷ ls) =
    if str_eq l.intent_id new.intent_id then new ∷ ls else l ∷ put_intent new ls

-- `lifecycle.status = status`, for the lifecycle under the id
unfoldable pub set_status : String → IntentStatus → List IntentLifecycle → List IntentLifecycle
set_status i status [] = []
set_status i status (l ∷ ls) =
    if str_eq l.intent_id i then record l { status = status } ∷ ls else l ∷ set_status i status ls

initial_lifecycle : ControlResult → List IntentBinding → IntentLifecycle
initial_lifecycle result bindings = record {
  intent_id = result.session_id;
  bindings = bindings;
  status = if result.completed then active else failed;
  origin = "user";
}

store_intent : IntentLifecycle → Manager → IntentLifecycle × Manager
unfolding put_intent
store_intent l m = (l, record m { lifecycles = put_intent l m.lifecycles })

store_initial :
    ControlResult → Manager → Option (List IntentBinding) → Option (IntentLifecycle × Manager)
unfolding initial_lifecycle store_intent
store_initial result m none = none
store_initial result m (some bindings) = some (store_intent (initial_lifecycle result bindings) m)

-- `none`: the result is complete, and its last round has no grounded flows to read
unfoldable pub record_initial : ControlResult → Manager → Option (IntentLifecycle × Manager)
unfolding store_initial
record_initial result m =
    store_initial result m (if result.completed then result.flows else some [])

module _ {D : Type 0} where
  abbrev pub alert_binding : MonitorAlert D → IntentBinding
  alert_binding a = record { supi = a.supi; app_id = a.app_id; flow_id = a.flow_id }

  abbrev pub active_bindings : List (MonitorAlert D) → List IntentBinding
  active_bindings = map alert_binding

-- `set.intersection_update`
unfoldable pub intersect : List IntentBinding → List IntentBinding → List IntentBinding
intersect [] keep = []
intersect (b ∷ bs) keep =
    let rest = intersect bs keep in if has_binding keep b then b ∷ rest else rest

-- the bindings of the skipped intents, `none` for an id that is not there
unfoldable pub skipped_bindings : List String → List IntentLifecycle → Option (List IntentBinding)
skipped_bindings [] ls = some []
skipped_bindings (i ∷ ids) ls = elim (find_intent i ls) [
  | none ↦ none
  | some l ↦ elim (skipped_bindings ids ls) [ none ↦ none | some bs ↦ some (l.bindings ++ bs) ]
]

-- `lifecycle.status in {ACTIVE, DEGRADED}`
abbrev pub is_watched : IntentStatus → Bool
is_watched active = true
is_watched degraded = true
is_watched _ = false

abbrev pub is_failed : IntentStatus → Bool
is_failed failed = true
is_failed _ = false

-- the first loop of `observe`: a watched intent without an alert is satisfied
unfoldable pub settle :
    List String → List IntentBinding → List IntentLifecycle → List IntentLifecycle
settle skip alerted [] = []
settle skip alerted (l ∷ ls) =
    (if not (has_id skip l.intent_id)
        && is_watched l.status
        && not (any (has_binding alerted) l.bindings)
      then record l { status = satisfied }
      else l)
    ∷ settle skip alerted ls

-- `_lifecycle_for_binding`: the last one in the dictionary that has the binding
unfoldable pub last_with : IntentBinding → List IntentLifecycle → Option IntentLifecycle
last_with b [] = none
last_with b (l ∷ ls) = elim (last_with b ls) [
  | none ↦ if has_binding l.bindings b then some l else none
  | some l' ↦ some l'
]

unfoldable pub monitor_id : IntentBinding → String
unfolding texts
monitor_id b = texts ("monitor:" ∷ b.supi ∷ ":" ∷ b.app_id ∷ ":" ∷ b.flow_id ∷ [])

abbrev pub monitor_lifecycle : IntentBinding → IntentLifecycle
monitor_lifecycle b = record {
  intent_id = monitor_id b;
  bindings = b ∷ [];
  status = degraded;
  origin = "monitor";
}

degrade : IntentLifecycle → List IntentLifecycle → Option (String × List IntentLifecycle)
unfolding set_status
degrade l ls =
    if is_failed l.status then none else some (l.intent_id, set_status l.intent_id degraded ls)

degrade_found :
    IntentBinding
    → List IntentLifecycle
    → Option IntentLifecycle
    → Option (String × List IntentLifecycle)
unfolding put_intent degrade monitor_id
degrade_found b ls none = some (monitor_id b, put_intent (monitor_lifecycle b) ls)
degrade_found b ls (some l) = degrade l ls

-- the intent that an alert is about, with its new status; `none` if that intent has failed
unfoldable pub degrade_for :
    IntentBinding → List IntentLifecycle → Option (String × List IntentLifecycle)
unfolding last_with degrade_found
degrade_for b ls = degrade_found b ls (last_with b ls)

known :
    String → IntentStatus → Manager → Option IntentLifecycle → Option (IntentLifecycle × Manager)
unfolding set_status
known i status m none = none
known i status m (some l) =
    some (record l { status = status }, record m { lifecycles = set_status i status m.lifecycles })

add_replanned : IntentBinding → Manager → Manager
add_replanned b m =
    if has_binding m.replanned b then m else record m { replanned = b ∷ m.replanned }

module _ {D : Type 0} where
  -- The second loop of `observe`: the reentries, by intent id, and the lifecycles after it. A
  -- reentry is due for a binding that is neither under replanning nor scheduled by then.
  unfoldable pub schedule :
      List IntentBinding
      → List IntentBinding
      → List IntentBinding
      → List (MonitorAlert D)
      → List IntentLifecycle
      → List (String × MonitorAlert D) × List IntentLifecycle
  schedule skipped replanned scheduled [] ls = ([], ls)
  schedule skipped replanned scheduled (alert ∷ alerts) ls =
      let b = alert_binding alert in
      let passed = schedule skipped replanned scheduled alerts ls in
      if has_binding skipped b then passed else elim (degrade_for b ls) [
        | none ↦ passed
        | some (i, ls') ↦
            let quiet = schedule skipped replanned scheduled alerts ls' in
            let due = schedule skipped replanned (b ∷ scheduled) alerts ls' in
            if has_binding replanned b || has_binding scheduled b
            then quiet
            else ((i, alert) ∷ due.0, due.1)
      ]

  -- `none`: a skipped id is unknown (the code has by then cut down `_replanned_bindings`)
  unfoldable pub observe :
      List (MonitorAlert D)
      → List String
      → Manager
      → Option (List (String × MonitorAlert D) × Manager)
  unfolding schedule intersect skipped_bindings settle degrade_for
  observe alerts skip m = elim (skipped_bindings skip m.lifecycles) [
    | none ↦ none
    | some skipped ↦
        let alerted = active_bindings alerts in
        let replanned = intersect m.replanned alerted in
        let (reentries, ls) =
          schedule skipped replanned [] alerts (settle skip alerted m.lifecycles) in
        some (reentries, record { lifecycles = ls; replanned = replanned })
  ]

  -- `none`: the id is unknown
  unfoldable pub begin_replan :
      String → MonitorAlert D → Manager → Option (IntentLifecycle × Manager)
  unfolding known find_intent add_replanned
  begin_replan i alert m =
      known i replanning (add_replanned (alert_binding alert) m) (find_intent i m.lifecycles)

unfoldable pub finish_replan : String → ControlResult → Manager → Option (IntentLifecycle × Manager)
unfolding known find_intent
finish_replan i result m =
    known i (if result.completed then active else failed) m (find_intent i m.lifecycles)
