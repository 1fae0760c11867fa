-- ===== src/Execution/Assurance.antt =====
-- src/control_runtime/execution/assurance_evaluator.py: `AssuranceEvaluator.evaluate`, on a policy and a
-- snapshot that are JSON.
pub mod Located
pub mod Judged
mod Tests
use Prim.Native.String.{◌++◌}
use multiagents.Prelude.{
  Bool, true, false, not, ◌&&◌, Option, none, some, List, [], ◌∷◌, String, str_eq, is_empty, strip,
  texts, if◌then◌else◌,
}
use multiagents.Exec.{Result, ok, err}
use multiagents.Context.Messages.{
  Json, null, boolean, number, str, list, dict, JsonList, no_items, item, JsonDict, no_entries,
  entry, dict_get, or_text,
}
use multiagents.Execution.Compiler.{as_dict}
use multiagents.Execution.Measurement.{
  Floats, FlowMetrics, text_at, text_or, all_within, metrics_of,
}

pub record FlowVerdict (F : Type 0) : Type 0 where
  pub policy_id : String
  pub flow_id : Option String
  pub status : String
  pub reason : String
  pub metrics : Option (FlowMetrics F)

-- a RuntimeError, a TypeError of a `for`, or what loading a snapshot raises
pub data EvaluationError : Type 0 where
  runtime_error : String → EvaluationError
  not_iterable : EvaluationError
  load_error : String → EvaluationError

-- the items that a `for` over the value meets: texts and keys are no dicts
unfoldable pub items_of : Option Json → Result EvaluationError JsonList
items_of none = ok no_items
items_of (some (list l)) = ok l
items_of (some (dict d)) = ok no_items
items_of (some (str s)) = ok no_items
items_of (some null) = err not_iterable
items_of (some (boolean b)) = err not_iterable
items_of (some (number n)) = err not_iterable

abbrev pub or_none : String → Option String
or_none s = if is_empty s then none else some s

module _ {F : Type 0} (floats : Floats F) where
  abbrev pub id_of : JsonDict → String
  id_of flow =
      strip (text_or floats (or_text floats.show (dict_get "id" flow)) (dict_get "flow_id" flow))

  -- the subscriber of the app, or else of the flow
  abbrev pub owner_of : JsonDict → JsonDict → String
  owner_of app flow =
      if is_empty (text_at floats "supi" app)
      then text_at floats "supi" flow
      else text_at floats "supi" app

  abbrev pub is_flow_of : String → String → JsonDict → JsonDict → Bool
  is_flow_of supi flow_id app flow = str_eq (owner_of app flow) supi && str_eq (id_of flow) flow_id

  unfoldable pub find_flow : String → String → JsonDict → JsonList → Option JsonDict
  unfolding dict_get or_text strip
  find_flow supi flow_id app no_items = none
  find_flow supi flow_id app (item (dict flow) rest) =
      let later = find_flow supi flow_id app rest in
      if is_flow_of supi flow_id app flow then some flow else later
  find_flow supi flow_id app (item _ rest) = find_flow supi flow_id app rest

  abbrev find_in :
      String
      → String
      → JsonDict
      → Result EvaluationError JsonList
      → Result EvaluationError (Option JsonDict)
      → Result EvaluationError (Option JsonDict)
  find_in supi flow_id app (err e) later = err e
  find_in supi flow_id app (ok flows) later = elim (find_flow supi flow_id app flows) [
    | some flow ↦ ok (some flow)
    | none ↦ later
  ]

  unfoldable pub find_in_apps :
      String → String → JsonList → Result EvaluationError (Option JsonDict)
  unfolding find_flow items_of dict_get
  find_in_apps supi flow_id no_items = ok none
  find_in_apps supi flow_id (item (dict app) rest) =
      find_in supi flow_id app (items_of (dict_get "flows" app)) (find_in_apps supi flow_id rest)
  find_in_apps supi flow_id (item _ rest) = find_in_apps supi flow_id rest

  abbrev unknown_or : String → String
  unknown_or flow_id = if is_empty flow_id then "<unknown>" else flow_id

  abbrev none_or : String → String
  none_or flow_id = if is_empty flow_id then "None" else flow_id

  unfoldable pub flow_verdict : String → String → String → FlowMetrics F → FlowVerdict F
  unfolding texts
  flow_verdict policy_id flow_id snapshot_id m =
      if all_within floats m
      then record {
        policy_id = policy_id;
        flow_id = or_none flow_id;
        status = "satisfied";
        reason = "Observed metrics satisfy flow SLA within the configured tolerance.";
        metrics = some m;
      }
      else record {
        policy_id = policy_id;
        flow_id = or_none flow_id;
        status = "violated";
        reason = texts (
            "Flow "
            ∷ none_or flow_id
            ∷ " violates SLA beyond the configured tolerance in snapshot "
            ∷ snapshot_id
            ∷ "."
            ∷ []);
        metrics = some m;
      }

  module _ (policy : JsonDict) (snapshot_id : String) (k : F) where
    unfoldable pub judge_found :
        JsonDict → Result EvaluationError (Option JsonDict) → Result EvaluationError (FlowVerdict F)
    unfolding dict_get or_text strip metrics_of flow_verdict texts
    judge_found snapshot (err e) = err e
    judge_found snapshot (ok none) = err (
        runtime_error (
          texts (
            "policy "
            ∷ text_at floats "policy_id" policy
            ∷ " flow "
            ∷ unknown_or (text_at floats "flow_id" policy)
            ∷ " not found in snapshot "
            ∷ snapshot_id
            ∷ [])))
    judge_found snapshot (ok (some flow)) = ok (
        flow_verdict (text_at floats "policy_id" policy) (text_at floats "flow_id" policy)
          snapshot_id (metrics_of floats snapshot_id k snapshot flow))

    abbrev find_among : Result EvaluationError JsonList → Result EvaluationError (Option JsonDict)
    find_among (err e) = err e
    find_among (ok apps) =
        find_in_apps (text_at floats "supi" policy) (text_at floats "flow_id" policy) apps

    unfoldable pub judge_snapshot :
        Result EvaluationError Json → Result EvaluationError (FlowVerdict F)
    unfolding dict_get or_text strip items_of find_in_apps judge_found texts
    judge_snapshot (err e) = err e
    judge_snapshot (ok (dict snapshot)) =
        judge_found snapshot (find_among (items_of (dict_get "apps" snapshot)))
    judge_snapshot (ok _) = err (
        runtime_error (
          texts (
            "policy "
            ∷ text_at floats "policy_id" policy
            ∷ " snapshot "
            ∷ snapshot_id
            ∷ " not found for assurance evaluation"
            ∷ [])))

    abbrev loaded : Result String Json → Result EvaluationError Json
    loaded (ok snapshot) = ok snapshot
    loaded (err e) = err (load_error e)

    -- `snapshot or self.load_snapshot_by_id(snapshot_id)`
    abbrev pub snapshot_or : (String → Result String Json) → JsonDict → Result EvaluationError Json
    snapshot_or load no_entries = loaded (load snapshot_id)
    snapshot_or load (entry key v rest) = ok (dict (entry key v rest))

    -- no snapshot is given as {}
    unfoldable pub evaluate :
        (String → Result String Json) → JsonDict → Result EvaluationError (FlowVerdict F)
    unfolding dict_get or_text strip judge_snapshot texts
    evaluate load snapshot =
        if not (str_eq (text_at floats "target_type" policy) "flow")
        then ok (record {
          policy_id = text_at floats "policy_id" policy;
          flow_id = or_none (text_at floats "flow_id" policy);
          status = "skipped";
          reason = "SLA assurance skipped for non-flow scoped policy.";
          metrics = none;
        })
        else if is_empty snapshot_id
        then err (
            runtime_error (
              texts (
                "policy "
                ∷ text_at floats "policy_id" policy
                ∷ " missing snapshot_id for assurance evaluation"
                ∷ [])))
        else judge_snapshot (snapshot_or load snapshot)
