-- ===== src/Execution/Plan/Tests.antt =====
-- Plans through the compiler, and the theorem at one of them.
use multiagents.Prelude.{◌≡◌, refl, [], ◌∷◌, String}
use multiagents.Exec.{ok, err}
use multiagents.Context.Messages.{
  Json, str, list, dict, JsonList, no_items, item, JsonDict, no_entries, entry,
}
use multiagents.Execution.Compiler.{Models, CompiledStrategyPlan, check}
use multiagents.Execution.Plan.{compile_plan}
use multiagents.Execution.Plan.Compiled.{IsPlan, compile_plan-IsPlan}

abbrev models : Models
models = record {
  validate_am = λ d. ok tt;
  validate_sm = λ d. ok tt;
  validate_ursp = λ d. err "ursp refused";
  show = λ v. "";
}

abbrev some_rules : Json
some_rules = dict (entry "r" (str "x") no_entries)

abbrev details : JsonDict
details = entry "pccRules" some_rules (entry "qosDecs" some_rules no_entries)

abbrev policy : String → String → JsonDict
policy id flow = entry "policy_id" (str id) (
    entry "policy_type" (str "SmPolicyDecision") (
      entry "app_id" (str " a") (
        entry "target_type" (str "flow") (
          entry "supi" (str "s1")
            (entry "flow_id" (str flow) (entry "policy_details" (dict details) no_entries))))))

abbrev output : JsonList → Json
output policies = dict (entry "supi" (str "s1 ") (entry "all_policies" (list policies) no_entries))

abbrev compiled : JsonDict
compiled = entry "policy_id" (str "smp-a-f") (
    entry "policy_type" (str "SmPolicyDecision") (
      entry "app_id" (str "a") (
        entry "target_type" (str "flow") (
          entry "supi" (str "s1")
            (entry "flow_id" (str "f") (entry "policy_details" (dict details) no_entries))))))

abbrev plan : CompiledStrategyPlan
plan = record { supi = "s1"; session_id = ""; snapshot_id = ""; policies = compiled ∷ [] }

-- an item that is no dict is left out
plan_made :
    compile_plan models (output (item (str "?") (item (dict (policy "smp-a-f" "f ")) no_items)))
    ≡ ok plan
unfolding compile_plan check
plan_made = refl

not_canonical :
    compile_plan models (output (item (dict (policy "smp-a-g" "f")) no_items))
    ≡ err "policy smp-a-g does not match canonical id smp-a-f"
unfolding compile_plan check
not_canonical = refl

no_policies : compile_plan models (output no_items) ≡ err "strategy_output contains no policies"
unfolding compile_plan check
no_policies = refl

compile_plan-IsPlan_example : IsPlan models plan
compile_plan-IsPlan_example =
    compile_plan-IsPlan models
      (output (item (str "?") (item (dict (policy "smp-a-f" "f ")) no_items))) plan plan_made
