-- ===== src/Execution/Assurance/Judged.antt =====
-- What a verdict of `AssuranceEvaluator.evaluate` is about.
use multiagents.Prelude.{
  true, false, ◌≡◌, refl, sym, ◌∙◌, ◌⊎◌, inl, inr, Bool-cases, Option, none, some, String, str_eq,
  is_empty, arith,
}
use mathlib.Core.Bool.{false≢true}
use multiagents.Exec.{Result, ok, err}
use multiagents.Context.Messages.{
  Json, null, boolean, number, str, list, dict, JsonList, JsonDict, dict_get,
}
use multiagents.Execution.Measurement.{
  Floats, FlowMetrics, text_at, metrics_of, within_upper_bound, within_lower_bound, all_within,
}
use multiagents.Execution.Assurance.{
  FlowVerdict, EvaluationError, items_of, find_in_apps, find_among, flow_verdict, judge_found,
  judge_snapshot, snapshot_or, evaluate,
}
use multiagents.Execution.Assurance.Located.{IsLocated, Locates, find_in_apps-Locates}

module _ {F : Type 0} (floats : Floats F) where
  -- The measurements keep to the requirements, within the tolerance.
  pub record IsWithinSla (m : FlowMetrics F) : Type 0 where
    pub latency : within_upper_bound floats m.latency m.latency_requirement m.tolerance_ratio ≡ true
    pub jitter : within_upper_bound floats m.jitter m.jitter_requirement m.tolerance_ratio ≡ true
    pub throughput_ul :
        within_lower_bound floats m.throughput_ul m.throughput_ul_requirement m.tolerance_ratio
        ≡ true
    pub throughput_dl :
        within_lower_bound floats m.throughput_dl m.throughput_dl_requirement m.tolerance_ratio
        ≡ true

  module _ (policy : JsonDict) (snapshot_id : String) (k : F) where
    abbrev of_snapshot : JsonDict → JsonDict → FlowMetrics F
    of_snapshot snapshot flow = metrics_of floats snapshot_id k snapshot flow

    all_within-IsWithinSla :
        (snapshot flow : JsonDict)
        → all_within floats (of_snapshot snapshot flow) ≡ true
        → IsWithinSla (of_snapshot snapshot flow)
    unfolding metrics_of
    all_within-IsWithinSla snapshot flow h = record {
      latency = ground (arith, h);
      jitter = ground (arith, h);
      throughput_ul = ground (arith, h);
      throughput_dl = ground (arith, h);
    }

    IsWithinSla-all_within :
        (snapshot flow : JsonDict)
        → IsWithinSla (of_snapshot snapshot flow)
        → all_within floats (of_snapshot snapshot flow) ≡ true
    unfolding metrics_of
    IsWithinSla-all_within snapshot flow h =
        ground (arith, h.latency, h.jitter, h.throughput_ul, h.throughput_dl)

    abbrev pub Rates : FlowMetrics F → String → Type 0
    Rates m status =
        (IsWithinSla m × (status ≡ "satisfied")) ⊎ ((¬ IsWithinSla m) × (status ≡ "violated"))

    -- A verdict on a flow of the snapshot.
    pub record IsMeasured (snapshot : JsonDict) (v : FlowVerdict F) : Type 0 where
      pub apps : JsonList
      pub flow : JsonDict
      pub apps_of_snapshot : items_of (dict_get "apps" snapshot) ≡ ok apps
      pub located :
          IsLocated floats
            (text_at floats "supi" policy)
            (text_at floats "flow_id" policy)
            apps
            flow
      pub measured : v.metrics ≡ some (of_snapshot snapshot flow)
      pub rated : Rates (of_snapshot snapshot flow) v.status

    flow_verdict-Rates :
        (snapshot flow : JsonDict) (policy_id flow_id : String)
        → (flow_verdict floats policy_id flow_id snapshot_id (of_snapshot snapshot flow)).metrics
            ≡ some (of_snapshot snapshot flow)
          × Rates
              (of_snapshot snapshot flow)
              (flow_verdict floats policy_id flow_id snapshot_id (of_snapshot snapshot flow)).status
    unfolding flow_verdict
    flow_verdict-Rates snapshot flow policy_id flow_id =
        elim (Bool-cases (all_within floats (of_snapshot snapshot flow))) [
          | inl within ↦ rw within (refl, inl (all_within-IsWithinSla snapshot flow within, refl))
          | inr beyond ↦ rw beyond (
            refl,
            inr ((λ h. false≢true (sym beyond ∙ IsWithinSla-all_within snapshot flow h)), refl),
          )
        ]

    module _ (load : String → Result String Json) (given : JsonDict) where
      -- a skipped policy is for no flow, and a measured flow stands in the given or loaded snapshot
      abbrev pub IsJudged : Result EvaluationError (FlowVerdict F) → Type 0
      IsJudged (ok v) =
          ((str_eq (text_at floats "target_type" policy) "flow" ≡ false)
            × (v.status ≡ "skipped")
            × (v.metrics ≡ none))
          ⊎ ((snapshot : JsonDict) × (snapshot_or floats policy snapshot_id k load given
                ≡ ok (dict snapshot))
              × IsMeasured snapshot v)
      IsJudged (err e) = str_eq (text_at floats "target_type" policy) "flow" ≡ true

      module _ (is_flow : str_eq (text_at floats "target_type" policy) "flow" ≡ true) where
        judge_found-IsJudged :
            (snapshot : JsonDict) (apps : Result EvaluationError JsonList)
            → snapshot_or floats policy snapshot_id k load given ≡ ok (dict snapshot)
            → items_of (dict_get "apps" snapshot) ≡ apps
            → IsJudged (
                judge_found floats policy snapshot_id k snapshot
                  (find_among floats policy snapshot_id k apps))
        unfolding judge_found
        judge_found-IsJudged snapshot (err e) of_it at = is_flow
        judge_found-IsJudged snapshot (ok apps) of_it at =
            judged
              (find_in_apps floats (text_at floats "supi" policy) (text_at floats "flow_id" policy)
                apps)
              (find_in_apps-Locates floats (text_at floats "supi" policy)
                (text_at floats "flow_id" policy) apps)
          where
            judged :
                (r : Result EvaluationError (Option JsonDict))
                → Locates floats
                    (text_at floats "supi" policy)
                    (text_at floats "flow_id" policy)
                    apps
                    r
                → IsJudged (judge_found floats policy snapshot_id k snapshot r)
            judged (err e) h = is_flow
            judged (ok none) h = is_flow
            judged (ok (some flow)) h =
                let rated =
                  flow_verdict-Rates snapshot flow (text_at floats "policy_id" policy)
                    (text_at floats "flow_id" policy) in
                inr (
                  snapshot,
                  of_it,
                  record {
                    apps = apps;
                    flow = flow;
                    apps_of_snapshot = at;
                    located = h;
                    measured = rated.0;
                    rated = rated.1;
                  },
                )

        judge_snapshot-IsJudged :
            (snapshot : Result EvaluationError Json)
            → snapshot_or floats policy snapshot_id k load given ≡ snapshot
            → IsJudged (judge_snapshot floats policy snapshot_id k snapshot)
        unfolding judge_snapshot
        judge_snapshot-IsJudged (err e) at = is_flow
        judge_snapshot-IsJudged (ok null) at = is_flow
        judge_snapshot-IsJudged (ok (boolean b)) at = is_flow
        judge_snapshot-IsJudged (ok (number n)) at = is_flow
        judge_snapshot-IsJudged (ok (str s)) at = is_flow
        judge_snapshot-IsJudged (ok (list l)) at = is_flow
        judge_snapshot-IsJudged (ok (dict snapshot)) at =
            judge_found-IsJudged snapshot (items_of (dict_get "apps" snapshot)) at refl

      -- An evaluation that returns has skipped a policy that is for no flow, or has measured a flow
      -- of the snapshot that is given, or else loaded, which has the policy's subscriber and flow
      -- identifier, and says `satisfied` exactly where its four measurements keep to their
      -- requirements within the tolerance, and `violated` otherwise. It raises for flow policies only.
      pub evaluate-IsJudged : IsJudged (evaluate floats policy snapshot_id k load given)
      unfolding evaluate
      evaluate-IsJudged = elim (Bool-cases (str_eq (text_at floats "target_type" policy) "flow")) [
        | inr other ↦ rw other (inl (other, refl, refl))
        | inl is_flow ↦ elim (Bool-cases (is_empty snapshot_id)) [
          | inl empty ↦ rw (is_flow, empty) is_flow
          | inr has ↦
              rw (is_flow, has)
                (judge_snapshot-IsJudged is_flow
                  (snapshot_or floats policy snapshot_id k load given) refl)
        ]
      ]
