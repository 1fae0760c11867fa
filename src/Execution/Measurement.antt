-- ===== src/Execution/Measurement.antt =====
-- src/control_runtime/execution/assurance_evaluator.py: the measurements of a flow in a snapshot, and the
-- bounds they are held to. Floating-point numbers are an argument.
use multiagents.Prelude.{
  Bool, true, ◌&&◌, Option, none, some, List, [], ◌∷◌, String, is_empty, strip, if◌then◌else◌,
}
use multiagents.Context.Messages.{Json, null, dict, JsonDict, no_entries, dict_get, or_text}

-- Python's `float`: `to_float` is `none` where `float(value)` raises a TypeError or a ValueError, and
-- `show` is `str` of a value that is no text.
pub record Floats (F : Type 0) : Type 0 where
  pub zero : F
  pub one : F
  pub le : F → F → Bool
  pub lt : F → F → Bool
  pub add : F → F → F
  pub sub : F → F → F
  pub mul : F → F → F
  pub to_float : Json → Option F
  pub show : Json → String

-- the metrics of a verdict on a flow
pub record FlowMetrics (F : Type 0) : Type 0 where
  pub snapshot_id : String
  pub latency : F
  pub latency_requirement : F
  pub jitter : F
  pub jitter_requirement : F
  pub throughput_ul : F
  pub throughput_ul_requirement : F
  pub throughput_dl : F
  pub throughput_dl_requirement : F
  pub tolerance_ratio : F
  pub source : String
  pub latency_within_tolerance : Bool
  pub jitter_within_tolerance : Bool
  pub throughput_ul_within_tolerance : Bool
  pub throughput_dl_within_tolerance : Bool

-- `value if isinstance(value, dict) else {}`
unfoldable pub dict_or_empty : Option Json → JsonDict
dict_or_empty (some (dict d)) = d
dict_or_empty _ = no_entries

module _ {F : Type 0} (floats : Floats F) where
  unfoldable pub not_negative : F → F
  not_negative x = if floats.lt floats.zero x then x else floats.zero

  unfoldable pub within_upper_bound : F → F → F → Bool
  unfolding not_negative
  within_upper_bound observed target ratio =
      if floats.le target floats.zero
      then true
      else floats.le observed (floats.mul target (floats.add floats.one (not_negative ratio)))

  unfoldable pub within_lower_bound : F → F → F → Bool
  unfolding not_negative
  within_lower_bound observed target ratio =
      if floats.le target floats.zero
      then true
      else floats.le (floats.mul target (floats.sub floats.one (not_negative ratio))) observed

  abbrev or_later : Option F → F → F
  or_later none later = later
  or_later (some x) later = x

  unfoldable pub first_float : List (Option Json) → F
  first_float [] = floats.zero
  first_float (none ∷ values) = first_float values
  first_float (some null ∷ values) = first_float values
  first_float (some value ∷ values) = or_later (floats.to_float value) (first_float values)

  -- `str(d.get(key) or "").strip()`
  abbrev pub text_at : String → JsonDict → String
  text_at key d = strip (or_text floats.show (dict_get key d))

  -- `str(first or second)`
  abbrev pub text_or : String → Option Json → String
  text_or second first =
      if is_empty (or_text floats.show first) then second else or_text floats.show first

  -- `_first_float(flow.get(key), section.get(nested))`
  abbrev pub measure : JsonDict → String → String → String → F
  measure flow key section nested =
      first_float (dict_get key flow ∷ dict_get nested (dict_or_empty (dict_get section flow)) ∷ [])

  unfoldable pub metrics_of : String → F → JsonDict → JsonDict → FlowMetrics F
  unfolding dict_get or_text dict_or_empty first_float not_negative within_upper_bound
      within_lower_bound
  metrics_of snapshot_id k snapshot flow =
      let ratio = not_negative k in
      let latency = measure flow "sim_latency" "telemetry" "latency" in
      let lat_req = measure flow "lat" "sla" "latency" in
      let jitter = measure flow "sim_jitter" "telemetry" "jitter" in
      let jitter_req = measure flow "jitter_req" "sla" "jitter" in
      let ul = measure flow "sim_throughput_ul" "telemetry" "throughput_ul" in
      let gbr_ul = measure flow "gbr_ul" "sla" "guaranteed_bandwidth_ul" in
      let dl = measure flow "sim_throughput_dl" "telemetry" "throughput_dl" in
      let gbr_dl = measure flow "gbr_dl" "sla" "guaranteed_bandwidth_dl" in
      record {
        snapshot_id = text_or snapshot_id (dict_get "snapshot_id" snapshot);
        latency = latency;
        latency_requirement = lat_req;
        jitter = jitter;
        jitter_requirement = jitter_req;
        throughput_ul = ul;
        throughput_ul_requirement = gbr_ul;
        throughput_dl = dl;
        throughput_dl_requirement = gbr_dl;
        tolerance_ratio = ratio;
        source = text_or "snapshot" (dict_get "assurance_source" snapshot);
        latency_within_tolerance = within_upper_bound latency lat_req ratio;
        jitter_within_tolerance = within_upper_bound jitter jitter_req ratio;
        throughput_ul_within_tolerance = within_lower_bound ul gbr_ul ratio;
        throughput_dl_within_tolerance = within_lower_bound dl gbr_dl ratio;
      }

  abbrev pub all_within : FlowMetrics F → Bool
  all_within m =
      m.latency_within_tolerance && m.jitter_within_tolerance && m.throughput_ul_within_tolerance
      && m.throughput_dl_within_tolerance
