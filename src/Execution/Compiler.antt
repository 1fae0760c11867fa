-- ===== src/Execution/Compiler.antt =====
-- src/control_runtime/execution/policy_compiler.py: `_validate_compiled_policy`, on a policy that is JSON
-- already. The pydantic models are arguments; an exception is its `str`.
pub mod Passes
pub mod Validated
use Prim.Native.String.{◌++◌}
use multiagents.Prelude.{
  Bool, true, false, not, ◌&&◌, ◌||◌, Option, none, some, List, [], ◌∷◌, String, str_eq, is_empty,
  strip, texts, starts_with, if◌then◌else◌,
}
use multiagents.Exec.{Result, ok, err}
use multiagents.Context.Messages.{
  Json, null, boolean, number, str, list, dict, JsonList, no_items, item, JsonDict, no_entries,
  entry, dict_get, or_text,
}

-- `model_validate` of PcfAmPolicyControlPolicyAssociation, SmPolicyDecision and UrspRuleRequest, and
-- `str` of a value that is no text.
pub record Models : Type 0 where
  pub validate_am : JsonDict → Result String Unit
  pub validate_sm : JsonDict → Result String Unit
  pub validate_ursp : JsonDict → Result String Unit
  pub show : Json → String

pub record CompiledStrategyPlan : Type 0 where
  pub supi : String
  pub session_id : String
  pub snapshot_id : String
  pub policies : List JsonDict

abbrev pub am_policy_type : String
am_policy_type = "PcfAmPolicyControlPolicyAssociation"

abbrev pub is_supported : String → Bool
is_supported type =
    str_eq type "SmPolicyDecision" || str_eq type "UrspRuleRequest" || str_eq type am_policy_type

unfoldable pub as_dict : Option Json → Option JsonDict
as_dict (some (dict d)) = some d
as_dict _ = none

abbrev pub is_full_dict : Option Json → Bool
is_full_dict (some (dict (entry k v d))) = true
is_full_dict _ = false

abbrev pub is_full_list : Option Json → Bool
is_full_list (some (list (item x l))) = true
is_full_list _ = false

abbrev pub is_dict : Option Json → Bool
is_dict (some (dict d)) = true
is_dict _ = false

-- `d[key] = value`
unfoldable pub dict_set : String → Json → JsonDict → JsonDict
dict_set key v no_entries = entry key v no_entries
dict_set key v (entry k w d) =
    let later = dict_set key v d in if str_eq k key then entry k v d else entry k w later

-- `if not condition: raise ValueError(...)`
unfoldable pub check : {A : Type 0} → Bool → List String → Result String A → Result String A
unfolding texts
check true parts rest = rest
check false parts rest = err (texts parts)

abbrev pub or_unknown : String → String
or_unknown id = if is_empty id then "<unknown>" else id

-- `not nested or nested == top`
abbrev pub agrees : String → String → Bool
agrees nested top = is_empty nested || str_eq nested top

abbrev pub prefix_of : String → String
prefix_of type = if str_eq type "SmPolicyDecision" then "smp-" else "ursp-"

module _ (models : Models) where
  -- `str(d.get(key) or "").strip()`
  unfoldable pub field : String → JsonDict → String
  unfolding dict_get or_text strip
  field key d = strip (or_text models.show (dict_get key d))

  abbrev pub canonical_id : JsonDict → String
  canonical_id p =
      prefix_of (field "policy_type" p) ++ (field "app_id" p ++ ("-" ++ field "flow_id" p))

  -- the part for an AM policy, with its `request`
  unfoldable pub validate_am_request : JsonDict → JsonDict → Option JsonDict → Result String Unit
  unfolding field
  validate_am_request p details none =
      err (texts ("AM policy " ∷ field "policy_id" p ∷ " missing request object" ∷ []))
  validate_am_request p details (some request) =
      check (agrees (field "supi" request) (field "supi" p))
        ("AM policy " ∷ field "policy_id" p ∷ " request.supi does not match top-level supi" ∷ [])
        (models.validate_am details)

  unfoldable pub validate_am_policy : JsonDict → JsonDict → Result String Unit
  unfolding field validate_am_request as_dict dict_get
  validate_am_policy p details =
      check (str_eq (field "target_type" p) "ue")
        ("AM policy " ∷ field "policy_id" p ∷ " must use target_type=ue" ∷ [])
        (validate_am_request p details (as_dict (dict_get "request" details)))

  unfoldable pub validate_sm_details : JsonDict → JsonDict → Result String Unit
  unfolding field dict_get
  validate_sm_details p details =
      check (is_full_dict (dict_get "pccRules" details))
        ("policy " ∷ field "policy_id" p ∷ " missing non-empty pccRules" ∷ [])
        (check (is_full_dict (dict_get "qosDecs" details))
          ("policy " ∷ field "policy_id" p ∷ " missing non-empty qosDecs" ∷ [])
          (models.validate_sm details))

  unfoldable pub validate_ursp_details : JsonDict → JsonDict → Result String Unit
  unfolding field dict_get
  validate_ursp_details p details =
      check (is_full_list (dict_get "routeSelParamSets" details))
        ("policy " ∷ field "policy_id" p ∷ " missing non-empty routeSelParamSets" ∷ [])
        (check
          (not (str_eq (field "target_type" p) "flow") || is_dict (dict_get "trafficDesc" details))
          ("flow-scoped policy " ∷ field "policy_id" p ∷ " missing trafficDesc" ∷ [])
          (models.validate_ursp details))

  unfoldable pub validate_rule_policy : JsonDict → JsonDict → Result String Unit
  unfolding field starts_with validate_sm_details validate_ursp_details
  validate_rule_policy p details =
      check (starts_with (prefix_of (field "policy_type" p)) (field "policy_id" p))
        ("policy "
          ∷ field "policy_id" p
          ∷ " must start with "
          ∷ prefix_of (field "policy_type" p)
          ∷ [])
        (check
          (not (str_eq (field "target_type" p) "flow")
            || str_eq (field "policy_id" p) (canonical_id p))
          ("policy " ∷ field "policy_id" p ∷ " does not match canonical id " ∷ canonical_id p ∷ [])
          (if str_eq (field "policy_type" p) "SmPolicyDecision"
            then validate_sm_details p details
            else validate_ursp_details p details))

  unfoldable pub validate_details : JsonDict → Option JsonDict → Result String Unit
  unfolding field validate_am_policy validate_rule_policy
  validate_details p none =
      err (texts ("policy " ∷ field "policy_id" p ∷ " missing policy_details object" ∷ []))
  validate_details p (some details) =
      check (agrees (field "policy_id" details) (field "policy_id" p))
        ("policy "
          ∷ field "policy_id" p
          ∷ " policy_details.policy_id does not match top-level policy_id"
          ∷ [])
        (check (agrees (field "target_type" details) (field "target_type" p))
          ("policy "
            ∷ field "policy_id" p
            ∷ " policy_details.target_type does not match top-level target_type"
            ∷ [])
          (check
            (is_empty (field "flow_id" p) || agrees (field "flow_id" details) (field "flow_id" p))
            ("policy "
              ∷ field "policy_id" p
              ∷ " policy_details.flow_id does not match top-level flow_id"
              ∷ [])
            (check
              (not (str_eq (field "target_type" p) "flow") || not (is_empty (field "flow_id" p)))
              ("flow-scoped policy " ∷ field "policy_id" p ∷ " missing flow_id" ∷ [])
              (if str_eq (field "policy_type" p) am_policy_type
                then validate_am_policy p details
                else validate_rule_policy p details))))

  unfoldable pub validate_compiled_policy : JsonDict → Result String Unit
  unfolding field validate_details as_dict dict_get
  validate_compiled_policy p =
      check (not (is_empty (field "supi" p)))
        ("policy " ∷ or_unknown (field "policy_id" p) ∷ " missing supi" ∷ [])
        (check (str_eq (field "policy_type" p) am_policy_type || not (is_empty (field "app_id" p)))
          ("policy " ∷ or_unknown (field "policy_id" p) ∷ " missing app_id" ∷ [])
          (check (not (is_empty (field "policy_id" p))) ("policy_id is required" ∷ []) (
            check (is_supported (field "policy_type" p))
              ("policy "
                ∷ field "policy_id" p
                ∷ " has unsupported policy_type="
                ∷ field "policy_type" p
                ∷ [])
              (check (not (is_empty (field "target_type" p)))
                ("policy " ∷ field "policy_id" p ∷ " missing target_type" ∷ [])
                (validate_details p (as_dict (dict_get "policy_details" p)))))))
