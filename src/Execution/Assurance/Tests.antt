-- ===== src/Execution/Assurance/Tests.antt =====
-- Verdicts on a snapshot with one app and two flows. Numbers are natural numbers in thousandths, and
-- only whole numbers and texts of one digit are read.
use multiagents.Prelude.{
  ℕ, ◌*◌, ◌/◌, ◌+◌, ◌-◌, ◌≡◌, refl, Option, none, some, [], ◌∷◌, String, str_eq, leb, ltb,
  if◌then◌else◌,
}
use multiagents.Exec.{Result, ok, err}
use multiagents.Context.Messages.{
  Json, number, str, list, dict, no_items, item, JsonDict, no_entries, entry,
}
use multiagents.Execution.Measurement.{Floats}
use multiagents.Execution.Assurance.{
  FlowVerdict, EvaluationError, runtime_error, load_error, evaluate,
}
use multiagents.Execution.Assurance.Judged.{IsJudged, evaluate-IsJudged}

abbrev read : Json → Option ℕ
read (number n) = if str_eq n "9" then some 9000 else if str_eq n "10" then some 10000 else none
read _ = none

abbrev thousandths : Floats ℕ
thousandths = record {
  zero = 0;
  one = 1000;
  le = leb;
  lt = ltb;
  add = λ x y. x + y;
  sub = λ x y. x - y;
  mul = λ x y. (x * y) / 1000;
  to_float = read;
  show = λ v. "";
}

abbrev flow : String → String → JsonDict
flow id latency = entry "flow_id" (str id) (
    entry "lat" (number "9")
      (entry "telemetry" (dict (entry "latency" (number latency) no_entries)) no_entries))

abbrev snapshot : JsonDict
snapshot = entry "snapshot_id" (str "n1") (
    entry "apps"
      (list (
        item
          (dict (
            entry "supi" (str "s1") (
              entry "flows"
                (list (item (dict (flow "f1" "10")) (item (dict (flow "f2" "9")) no_items)))
                no_entries)))
          no_items))
      no_entries)

abbrev policy : String → String → JsonDict
policy target id = entry "policy_id" (str "p") (
    entry "target_type" (str target)
      (entry "flow_id" (str id) (entry "supi" (str " s1 ") no_entries)))

abbrev load : String → Result String Json
load id = if str_eq id "n1" then ok (dict snapshot) else err "no such snapshot"

abbrev run : String → String → String → Result EvaluationError (FlowVerdict ℕ)
run target flow_id snapshot_id =
    evaluate thousandths (policy target flow_id) snapshot_id 100 load no_entries

abbrev status : Result EvaluationError (FlowVerdict ℕ) → String
status (ok v) = v.status
status (err (runtime_error e)) = e
status (err (load_error e)) = e
status (err _) = ""

statuses :
    (status (run "flow" "f1" "n1")
      ∷ status (run "flow" "f2" "n1")
      ∷ status (run "ue" "" "n1")
      ∷ status (run "flow" "f3" "n1")
      ∷ status (run "flow" "f1" "n2")
      ∷ status (run "flow" "f1" "")
      ∷ [])
    ≡ "violated" ∷ "satisfied" ∷ "skipped" ∷ "policy p flow f3 not found in snapshot n1"
      ∷ "no such snapshot" ∷ "policy p missing snapshot_id for assurance evaluation" ∷ []
unfolding evaluate
statuses = refl

evaluate-IsJudged_example :
    IsJudged thousandths
      (policy "flow" "f1")
      "n1"
      100
      load
      no_entries
      (evaluate thousandths (policy "flow" "f1") "n1" 100 load no_entries)
evaluate-IsJudged_example =
    evaluate-IsJudged thousandths (policy "flow" "f1") "n1" 100 load no_entries
