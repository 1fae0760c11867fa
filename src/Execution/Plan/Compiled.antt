-- ===== src/Execution/Plan/Compiled.antt =====
-- What the policies of a compiled plan satisfy.
use mathlib.Core.Path.{subst}
use mathlib.Core.List.{cons-ne-nil}
use multiagents.Prelude.{◌≡◌, ◌≢◌, Option, none, some, List, [], ◌∷◌, All, String}
use multiagents.Exec.{Result, ok, err}
use multiagents.Context.Messages.{Json, JsonDict, dict_get}
use multiagents.Execution.Compiler.{Models, CompiledStrategyPlan, as_dict}
use multiagents.Execution.Plan.{
  normalized, validated, cons_compiled, compile_details, compile_policy, compile_policies,
  with_policies, compile_coerced, coerce_strategy_output, compile_plan,
}
use multiagents.Execution.Compiler.Passes.{Passes, check-Passes}
use multiagents.Execution.Compiler.Validated.{IsCompiled, validate_compiled_policy-Passes}

module _ (models : Models) where
  validated-Passes :
      (p : JsonDict) (r : Result String Unit)
      → Passes (λ _. IsCompiled models p) r
      → Passes (IsCompiled models) (validated models p r)
  unfolding Passes
  validated-Passes p (ok u) h = h
  validated-Passes p (err e) h = tt

  compile_details-Passes :
      (p : JsonDict) (o : Option JsonDict) → Passes (IsCompiled models) (compile_details models p o)
  unfolding compile_details
  compile_details-Passes p none = unfold Passes in tt
  compile_details-Passes p (some details) = check-Passes _ _ _ _ (λ _. check-Passes _ _ _ _ (λ _.
      check-Passes _ _ _ _ (λ _. check-Passes _ _ _ _ (λ _. check-Passes _ _ _ _ (λ _.
        check-Passes _ _ _ _ (λ _.
          validated-Passes (normalized models p details) _
            (validate_compiled_policy-Passes models (normalized models p details))))))))

  cons-Passes :
      (r : Result String JsonDict) (rest : Result String (List JsonDict))
      → Passes (IsCompiled models) r
      → Passes (All (IsCompiled models)) rest
      → Passes (All (IsCompiled models)) (cons_compiled models r rest)
  unfolding Passes
  cons-Passes (err e) rest h k = tt
  cons-Passes (ok p) (err e) h k = tt
  cons-Passes (ok p) (ok rest) h k = (h, k)

  compile_policies-Passes :
      (policies : List JsonDict)
      → Passes (All (IsCompiled models)) (compile_policies models policies)
  unfolding compile_policies compile_policy
  compile_policies-Passes [] = unfold Passes in tt
  compile_policies-Passes (p ∷ policies) =
      cons-Passes _ _ (compile_details-Passes p (as_dict (dict_get "policy_details" p)))
        (compile_policies-Passes policies)

  -- A compiled plan has policies, and each of them is compiled.
  abbrev pub IsPlan : CompiledStrategyPlan → Type 0
  IsPlan plan = (plan.policies ≢ []) × All (IsCompiled models) plan.policies

  with_policies-Passes :
      (plan : CompiledStrategyPlan) (r : Result String (List JsonDict))
      → Passes (All (IsCompiled models)) r
      → Passes IsPlan (with_policies models plan r)
  unfolding with_policies Passes
  with_policies-Passes plan (err e) h = tt
  with_policies-Passes plan (ok []) h = tt
  with_policies-Passes plan (ok (p ∷ policies)) h = (cons-ne-nil p policies, h)

  compile_coerced-Passes :
      (r : Result String CompiledStrategyPlan) → Passes IsPlan (compile_coerced models r)
  unfolding compile_coerced
  compile_coerced-Passes (err e) = unfold Passes in tt
  compile_coerced-Passes (ok plan) =
      with_policies-Passes plan _ (compile_policies-Passes plan.policies)

  -- A plan that the compiler returns has at least one policy, and each of its policies has a
  -- subscriber, an identifier and a target, is of a supported type, has a flow if it is for one, is
  -- for a terminal if it is an AM policy and has otherwise an application and, for a flow, the
  -- identifier made of its type, application and flow. Its details agree with it in the policy, the
  -- target and the flow that they name, and the model of its type takes them: an AM policy has a
  -- request, for the same subscriber if it names one, a session policy has rules and decisions, and
  -- a route policy has routes and, for a flow, a description of its traffic.
  pub compile_plan-IsPlan :
      (output : Json) (plan : CompiledStrategyPlan)
      → compile_plan models output ≡ ok plan
      → IsPlan plan
  unfolding compile_plan
  compile_plan-IsPlan output plan e =
      unfold Passes in
      subst (Passes IsPlan) e (compile_coerced-Passes (coerce_strategy_output models output))
