-- ===== src/Execution/Plan.antt =====
-- src/control_runtime/execution/policy_compiler.py: `coerce_strategy_output`, `compile_policy` and
-- `compile_plan`, on an output that is JSON already, which `json_friendly` leaves as it is.
pub mod Compiled
mod Tests
use multiagents.Prelude.{
  Bool, true, false, not, ◌||◌, Option, none, some, List, [], ◌∷◌, String, str_eq, is_empty, texts,
}
use multiagents.Exec.{Result, ok, err}
use multiagents.Context.Messages.{
  Json, null, boolean, number, str, list, dict, JsonList, no_items, item, JsonDict, dict_get,
}
use multiagents.Execution.Compiler.{
  Models, CompiledStrategyPlan, am_policy_type, as_dict, dict_set, check, or_unknown, field,
  validate_compiled_policy,
}

abbrev with_text : String → String → JsonDict → JsonDict
with_text key s d = dict_set key (str s) d

module _ (models : Models) where
  -- `{**policy, ...}`
  unfoldable pub normalized : JsonDict → JsonDict → JsonDict
  unfolding dict_set field
  normalized p details = dict_set "policy_details" (dict details) (
      with_text "flow_id" (field models "flow_id" p) (
        with_text "target_type" (field models "target_type" p) (
          with_text "policy_type" (field models "policy_type" p) (
            with_text "policy_id" (field models "policy_id" p) (
              with_text "app_id" (field models "app_id" p)
                (with_text "supi" (field models "supi" p) p))))))

  abbrev pub validated : JsonDict → Result String Unit → Result String JsonDict
  validated p (ok u) = ok p
  validated p (err e) = err e

  abbrev missing : String → JsonDict → List String
  missing what p = "policy " ∷ field models "policy_id" p ∷ " missing " ∷ what ∷ []

  unfoldable pub compile_details : JsonDict → Option JsonDict → Result String JsonDict
  unfolding field normalized validate_compiled_policy texts
  compile_details p none = err (
      texts (
        "policy "
        ∷ or_unknown (field models "policy_id" p)
        ∷ " missing policy_details object"
        ∷ []))
  compile_details p (some details) =
      check (not (is_empty (field models "policy_id" p))) ("policy_id is required" ∷ []) (
        check (not (is_empty (field models "policy_type" p))) (missing "policy_type" p) (
          check (not (is_empty (field models "supi" p))) (missing "supi" p) (
            check (not (is_empty (field models "target_type" p))) (missing "target_type" p) (
              check
                (str_eq (field models "policy_type" p) am_policy_type
                  || not (is_empty (field models "flow_id" p)))
                (missing "flow_id" p)
                (check
                  (str_eq (field models "policy_type" p) am_policy_type
                    || not (is_empty (field models "app_id" p)))
                  (missing "app_id" p)
                  (validated (normalized p details)
                    (validate_compiled_policy models (normalized p details))))))))

  unfoldable pub compile_policy : JsonDict → Result String JsonDict
  unfolding compile_details as_dict dict_get
  compile_policy p = compile_details p (as_dict (dict_get "policy_details" p))

  abbrev pub cons_compiled :
      Result String JsonDict → Result String (List JsonDict) → Result String (List JsonDict)
  cons_compiled (err e) rest = err e
  cons_compiled (ok p) (err e) = err e
  cons_compiled (ok p) (ok rest) = ok (p ∷ rest)

  unfoldable pub compile_policies : List JsonDict → Result String (List JsonDict)
  unfolding compile_policy
  compile_policies [] = ok []
  compile_policies (p ∷ rest) = cons_compiled (compile_policy p) (compile_policies rest)

  -- the items that are dicts
  unfoldable pub dicts : JsonList → List JsonDict
  dicts no_items = []
  dicts (item (dict d) rest) = d ∷ dicts rest
  dicts (item null rest) = dicts rest
  dicts (item (boolean b) rest) = dicts rest
  dicts (item (number n) rest) = dicts rest
  dicts (item (str s) rest) = dicts rest
  dicts (item (list l) rest) = dicts rest

  abbrev coerced : JsonDict → Option Json → Result String CompiledStrategyPlan
  coerced payload (some (list policies)) = ok (record {
    supi = field models "supi" payload;
    session_id = field models "session_id" payload;
    snapshot_id = field models "snapshot_id" payload;
    policies = dicts policies;
  })
  coerced payload _ = err "strategy_output.all_policies must be a list"

  unfoldable pub coerce_strategy_output : Json → Result String CompiledStrategyPlan
  unfolding field dicts dict_get
  coerce_strategy_output (dict payload) = coerced payload (dict_get "all_policies" payload)
  coerce_strategy_output _ = err "strategy_output must be a JSON object"

  unfoldable pub with_policies :
      CompiledStrategyPlan → Result String (List JsonDict) → Result String CompiledStrategyPlan
  with_policies plan (err e) = err e
  with_policies plan (ok []) = err "strategy_output contains no policies"
  with_policies plan (ok (p ∷ policies)) = ok (record plan { policies = p ∷ policies })

  unfoldable pub compile_coerced :
      Result String CompiledStrategyPlan → Result String CompiledStrategyPlan
  unfolding with_policies compile_policies
  compile_coerced (err e) = err e
  compile_coerced (ok plan) = with_policies plan (compile_policies plan.policies)

  unfoldable pub compile_plan : Json → Result String CompiledStrategyPlan
  unfolding coerce_strategy_output compile_coerced
  compile_plan output = compile_coerced (coerce_strategy_output output)
