-- ===== src/Execution/Compiler/Validated.antt =====
-- What a policy satisfies that `_validate_compiled_policy` lets through.
use multiagents.Prelude.{
  Bool, true, false, not, ◌||◌, ◌≡◌, ◌≢◌, refl, sym, inl, inr, Bool-cases, Option, none, some,
  String, str_eq, str_eq_iff, is_empty, starts_with, if◌then◌else◌, arith,
}
use multiagents.Exec.{Result, ok}
use multiagents.Context.Messages.{JsonDict, dict_get}
use multiagents.Execution.Compiler.{
  Models, am_policy_type, is_supported, as_dict, is_dict, is_full_dict, is_full_list, agrees,
  prefix_of, field, canonical_id, validate_am_request, validate_am_policy, validate_sm_details,
  validate_ursp_details, validate_rule_policy, validate_details, validate_compiled_policy,
}
use multiagents.Execution.Compiler.Passes.{
  Passes, check-Passes, branch-Passes, Passes-imp, accepted,
}

-- the condition of a check that the text is not empty
on_true : (b : Bool) → not b ≡ true → b ≡ false
on_true false e = refl
on_true true e = sym e

module _ (models : Models) (p : JsonDict) where
  abbrev pub type : String
  type = field models "policy_type" p

  -- the pydantic model that the policy's type calls for
  abbrev pub model_of : JsonDict → Result String Unit
  model_of details =
      if str_eq type am_policy_type
      then models.validate_am details
      else if str_eq type "SmPolicyDecision"
      then models.validate_sm details
      else models.validate_ursp details

  -- What is said again below, if anything is, is what is said at the top.
  abbrev pub Agrees : String → String → Type 0
  Agrees nested top = is_empty nested ≡ false → nested ≡ top

  -- A request, whose subscriber is the policy's own if it names one.
  abbrev pub HasRequest : JsonDict → Type 0
  HasRequest details =
      (request : JsonDict) × (as_dict (dict_get "request" details) ≡ some request)
      × Agrees (field models "supi" request) (field models "supi" p)

  -- The rules and decisions of a session policy, or the routes of a route policy and, for a flow,
  -- its traffic.
  abbrev pub HasRules : JsonDict → Type 0
  HasRules details =
      (str_eq type "SmPolicyDecision" ≡ true
        → (is_full_dict (dict_get "pccRules" details) ≡ true)
          × (is_full_dict (dict_get "qosDecs" details) ≡ true))
      × (str_eq type "SmPolicyDecision" ≡ false
          → (is_full_list (dict_get "routeSelParamSets" details) ≡ true)
            × (field models "target_type" p ≡ "flow"
                → is_dict (dict_get "trafficDesc" details) ≡ true))

  -- The details are a dict that names the policy, its target and its flow as they are named at the
  -- top, has what the policy's type asks for, and is one that the model takes.
  abbrev pub HasDetails : Type 0
  HasDetails =
      (details : JsonDict) × (as_dict (dict_get "policy_details" p) ≡ some details)
      × Agrees (field models "policy_id" details) (field models "policy_id" p)
      × Agrees (field models "target_type" details) (field models "target_type" p)
      × (is_empty (field models "flow_id" p) ≡ false
          → Agrees (field models "flow_id" details) (field models "flow_id" p))
      × (str_eq type am_policy_type ≡ true → HasRequest details)
      × (str_eq type am_policy_type ≡ false → HasRules details)
      × (model_of details ≡ ok tt)

  -- An AM policy is for a terminal, and any other has an application and the identifier that its
  -- type, application and flow make.
  abbrev pub IsNamed : Type 0
  IsNamed =
      (type ≡ am_policy_type → field models "target_type" p ≡ "ue")
      × (type ≢ am_policy_type
          → (is_empty (field models "app_id" p) ≡ false)
            × (starts_with (prefix_of type) (field models "policy_id" p) ≡ true)
            × (field models "target_type" p ≡ "flow"
                → field models "policy_id" p ≡ canonical_id models p))

  abbrev pub IsCompiled : Type 0
  IsCompiled =
      (is_empty (field models "supi" p) ≡ false)
      × (is_empty (field models "policy_id" p) ≡ false)
      × (is_supported type ≡ true)
      × (is_empty (field models "target_type" p) ≡ false)
      × (field models "target_type" p ≡ "flow" → is_empty (field models "flow_id" p) ≡ false)
      × IsNamed
      × HasDetails

  agrees-Agrees : (nested top : String) → agrees nested top ≡ true → Agrees nested top
  agrees-Agrees nested top h given = (str_eq_iff nested top).0 (ground (arith, h, given))

  am_request-Passes :
      (details : JsonDict) (o : Option JsonDict)
      → as_dict (dict_get "request" details) ≡ o
      → Passes
          (λ _. HasRequest details × (models.validate_am details ≡ ok tt))
          (validate_am_request models p details o)
  unfolding validate_am_request Passes
  am_request-Passes details none e = tt
  am_request-Passes details (some request) e =
      check-Passes _ _ _ (models.validate_am details) (λ same.
        Passes-imp (models.validate_am details) (λ _ h. ((request, e, agrees-Agrees _ _ same), h))
          (accepted _ (models.validate_am details) refl))

  am_policy-Passes :
      (details : JsonDict)
      → Passes
          (λ _.
            (field models "target_type" p ≡ "ue")
            × HasRequest details
            × (models.validate_am details ≡ ok tt))
          (validate_am_policy models p details)
  unfolding validate_am_policy
  am_policy-Passes details =
      check-Passes _ _ _
        (validate_am_request models p details (as_dict (dict_get "request" details)))
        (λ ue.
          Passes-imp (validate_am_request models p details (as_dict (dict_get "request" details)))
            (λ _ h. ((str_eq_iff (field models "target_type" p) "ue").0 ue, h.0, h.1))
            (am_request-Passes details (as_dict (dict_get "request" details)) refl))

  sm_details-Passes :
      (details : JsonDict)
      → str_eq type "SmPolicyDecision" ≡ true
      → Passes
          (λ _. HasRules details × (models.validate_sm details ≡ ok tt))
          (validate_sm_details models p details)
  unfolding validate_sm_details
  sm_details-Passes details sm = check-Passes _ _ _ _ (λ rules. check-Passes _ _ _ _ (λ decisions.
      Passes-imp (models.validate_sm details)
        (λ _ h. (((λ _. (rules, decisions)), λ other. absurd (ground (arith, sm, other))), h))
        (accepted _ (models.validate_sm details) refl)))

  ursp_details-Passes :
      (details : JsonDict)
      → str_eq type "SmPolicyDecision" ≡ false
      → Passes
          (λ _. HasRules details × (models.validate_ursp details ≡ ok tt))
          (validate_ursp_details models p details)
  unfolding validate_ursp_details
  ursp_details-Passes details other = check-Passes _ _ _ _ (λ routes.
      check-Passes _ _ _ _ (λ traffic.
        Passes-imp (models.validate_ursp details)
          (λ _ h. (
            (
              (λ sm. absurd (ground (arith, sm, other))),
              λ _. (
                routes,
                λ flow. rw ((str_eq_iff (field models "target_type" p) "flow").1 flow) at traffic,
              ),
            ),
            h,
          ))
          (accepted _ (models.validate_ursp details) refl)))

  canonical :
      (not (str_eq (field models "target_type" p) "flow")
          || str_eq (field models "policy_id" p) (canonical_id models p))
        ≡ true
      → field models "target_type" p ≡ "flow"
      → field models "policy_id" p ≡ canonical_id models p
  canonical h flow =
      (str_eq_iff (field models "policy_id" p) (canonical_id models p)).0
        (rw ((str_eq_iff (field models "target_type" p) "flow").1 flow) at h)

  rule_policy-Passes :
      (details : JsonDict)
      → str_eq type am_policy_type ≡ false
      → Passes
          (λ _.
            (starts_with (prefix_of type) (field models "policy_id" p) ≡ true)
            × (field models "target_type" p ≡ "flow"
                → field models "policy_id" p ≡ canonical_id models p)
            × HasRules details
            × (model_of details ≡ ok tt))
          (validate_rule_policy models p details)
  unfolding validate_rule_policy
  rule_policy-Passes details other = check-Passes _ _ _ _ (λ begins. check-Passes _ _ _ _ (λ canon.
      branch-Passes _ (str_eq type "SmPolicyDecision") _ _
        (λ sm.
          Passes-imp _ (λ _ h. (begins, canonical canon, h.0, rw (other, sm) h.1))
            (sm_details-Passes details sm))
        (λ ursp.
          Passes-imp _ (λ _ h. (begins, canonical canon, h.0, rw (other, ursp) h.1))
            (ursp_details-Passes details ursp))))

  -- what the part on the details adds
  abbrev HasTyped : Type 0
  HasTyped =
      (field models "target_type" p ≡ "flow" → is_empty (field models "flow_id" p) ≡ false)
      × (str_eq type am_policy_type ≡ true → field models "target_type" p ≡ "ue")
      × (str_eq type am_policy_type ≡ false
          → (starts_with (prefix_of type) (field models "policy_id" p) ≡ true)
            × (field models "target_type" p ≡ "flow"
                → field models "policy_id" p ≡ canonical_id models p))
      × HasDetails

  flow_given :
      (not (str_eq (field models "target_type" p) "flow")
          || not (is_empty (field models "flow_id" p)))
        ≡ true
      → field models "target_type" p ≡ "flow"
      → is_empty (field models "flow_id" p) ≡ false
  flow_given h flow =
      on_true (is_empty (field models "flow_id" p))
        (rw ((str_eq_iff (field models "target_type" p) "flow").1 flow) at h)

  details-Passes :
      (o : Option JsonDict)
      → as_dict (dict_get "policy_details" p) ≡ o
      → Passes (λ _. HasTyped) (validate_details models p o)
  unfolding validate_details
  details-Passes none e = unfold Passes in tt
  details-Passes (some details) e = check-Passes _ _ _ _ (λ same_id.
      check-Passes _ _ _ _ (λ same_target. check-Passes _ _ _ _ (λ same_flow.
        check-Passes _ _ _ _ (λ flow.
          branch-Passes _ (str_eq type am_policy_type) _ _
            (λ am.
              Passes-imp _
                (λ _ h. (
                  flow_given flow,
                  (λ _. h.0),
                  (λ no_am. absurd (ground (arith, am, no_am))),
                  (
                    details,
                    e,
                    agrees-Agrees _ _ same_id,
                    agrees-Agrees _ _ same_target,
                    (λ given. agrees-Agrees _ _ (ground (arith, same_flow, given))),
                    (λ _. h.1),
                    (λ no_am. absurd (ground (arith, am, no_am))),
                    rw am h.2,
                  ),
                ))
                (am_policy-Passes details))
            (λ other.
              Passes-imp _
                (λ _ h. (
                  flow_given flow,
                  (λ am. absurd (ground (arith, am, other))),
                  (λ _. (h.0, h.1)),
                  (
                    details,
                    e,
                    agrees-Agrees _ _ same_id,
                    agrees-Agrees _ _ same_target,
                    (λ given. agrees-Agrees _ _ (ground (arith, same_flow, given))),
                    (λ am. absurd (ground (arith, am, other))),
                    (λ _. h.2),
                    h.3,
                  ),
                ))
                (rule_policy-Passes details other))))))

  pub validate_compiled_policy-Passes : Passes (λ _. IsCompiled) (validate_compiled_policy models p)
  unfolding validate_compiled_policy
  validate_compiled_policy-Passes = check-Passes _ _ _ _ (λ supi. check-Passes _ _ _ _ (λ app.
      check-Passes _ _ _ _ (λ id. check-Passes _ _ _ _ (λ supported. check-Passes _ _ _ _ (λ target.
        Passes-imp _
          (λ _ h. (
            on_true _ supi,
            on_true _ id,
            supported,
            on_true _ target,
            h.0,
            ((λ am. h.1 ((str_eq_iff type am_policy_type).1 am)), named app h.2),
            h.3,
          ))
          (details-Passes (as_dict (dict_get "policy_details" p)) refl))))))
    where
      named :
          (str_eq type am_policy_type || not (is_empty (field models "app_id" p))) ≡ true
          → (str_eq type am_policy_type ≡ false
              → (starts_with (prefix_of type) (field models "policy_id" p) ≡ true)
                × (field models "target_type" p ≡ "flow"
                    → field models "policy_id" p ≡ canonical_id models p))
          → type ≢ am_policy_type
          → (is_empty (field models "app_id" p) ≡ false)
            × (starts_with (prefix_of type) (field models "policy_id" p) ≡ true)
            × (field models "target_type" p ≡ "flow"
                → field models "policy_id" p ≡ canonical_id models p)
      named app h other = elim (Bool-cases (str_eq type am_policy_type)) [
        | inl am ↦ absurd (other ((str_eq_iff type am_policy_type).0 am))
        | inr no_am ↦ (on_true _ (rw no_am at app), (h no_am).0, (h no_am).1)
      ]
