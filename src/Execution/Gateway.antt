-- ===== src/Execution/Gateway.antt =====
-- src/control_runtime/execution/policy_batch_executor.py: policies, what the gateway answers, and
-- what the answer says of slices and failures. A dictionary is a record of the keys that are read,
-- with "" for a text that is missing; other keys are not modelled.
use multiagents.Prelude.{
  ℕ, zero, suc, ◌*◌, ◌/◌, ◌-◌, Bool, true, false, not, ◌&&◌, ◌||◌, Option, none, some, List, [],
  ◌∷◌, String, str_eq, is_empty, text_or_none, strip, lower, texts, join, if◌then◌else◌,
}
use multiagents.Prelude.{ltb, ◌==◌, ◌≡◌, refl}

-- an S-NSSAI as the dictionaries carry it: missing, a text, or `sst` (if an integer) and `sd`
pub data SliceInfo : Type 0 where
  absent : SliceInfo
  text : String → SliceInfo
  parts : Option ℕ → String → SliceInfo

-- `slice_info` is that of the upstream context, absent where there is no context
pub record PolicyDetails : Type 0 where
  pub flow_id : String
  pub slice_info : SliceInfo

pub record Policy : Type 0 where
  pub policy_id : String
  pub policy_type : String
  pub target_type : String
  pub supi : String
  pub flow_id : String
  pub policy_details : Option PolicyDetails

-- `monitoring_data`: `checks` holds each check's `satisfied` and is `none` where it is no list. A
-- tick or a generation is `none` where it is missing, no integer or negative.
pub record Monitoring : Type 0 where
  pub current_slice : SliceInfo
  pub checks : Option (List Bool)
  pub contract_version : ℕ
  pub run_id : String
  pub reset_generation : Option ℕ
  pub baseline_tick : Option ℕ
  pub latest_tick : Option ℕ
  pub sla_epoch_start_tick : Option ℕ

pub record DispatchResult : Type 0 where
  pub status : String
  pub pda_status : Option String
  pub phase : String
  pub error : String
  pub operation_id : String
  pub status_code : String
  pub response_code : String
  pub policy_details : Option PolicyDetails
  pub monitoring_data : Monitoring

-- what the gateway returns: a dictionary, or another value with its `str`
pub data Response : Type 0 where
  fields : DispatchResult → Response
  other : String → Response

-- `retry_forbidden` is false where the key is missing
pub record FeedbackPayload : Type 0 where
  pub phase : String
  pub policy_id : String
  pub policy_type : String
  pub flow_id : String
  pub error : String
  pub slice_execution : Option (String × Option String)
  pub last_dispatch_result : DispatchResult
  pub retry_forbidden : Bool

pub record ExecutionDecisionError : Type 0 where
  pub message : String
  pub feedback_payload : FeedbackPayload
  pub dispatch_attempts : ℕ

details_flow_id : Option PolicyDetails → String
details_flow_id none = ""
details_flow_id (some d) = d.flow_id

unfoldable pub policy_flow_id : Policy → String
unfolding details_flow_id strip
policy_flow_id p =
    strip (if is_empty p.flow_id then details_flow_id p.policy_details else p.flow_id)

abbrev no_monitoring : Monitoring
no_monitoring = record {
  current_slice = absent;
  checks = none;
  contract_version = 0;
  run_id = "";
  reset_generation = none;
  baseline_tick = none;
  latest_tick = none;
  sla_epoch_start_tick = none;
}

-- `{"status": "failed", "error": str(result)}` for a result that is no dictionary
unfoldable pub last_result : Response → DispatchResult
last_result (fields d) = d
last_result (other s) = record {
  status = "failed";
  pda_status = none;
  phase = "";
  error = s;
  operation_id = "";
  status_code = "";
  response_code = "";
  policy_details = none;
  monitoring_data = no_monitoring;
}

char_in : String → String → Bool
char_in c String.[] = false
char_in c (String.◌∷◌ d s) = str_eq c (String.◌∷◌ d String.[]) || char_in c s

all_hex : String → Bool
unfolding char_in
all_hex String.[] = true
all_hex (String.◌∷◌ c s) = char_in (String.◌∷◌ c String.[]) "0123456789abcdef" && all_hex s

text_length : String → ℕ
text_length String.[] = 0
text_length (String.◌∷◌ c s) = suc (text_length s)

digit_from : ℕ → String → String
digit_from n String.[] = ""
digit_from zero (String.◌∷◌ c s) = String.◌∷◌ c String.[]
digit_from (suc n) (String.◌∷◌ c s) = digit_from n s

-- the hexadecimal digits of a number, by as much fuel as the number, which is at least its length
hex_digits : ℕ → ℕ → String
unfolding digit_from texts
hex_digits zero n = digit_from n "0123456789abcdef"
hex_digits (suc fuel) n =
    let high = hex_digits fuel (n / 16) in
    texts ((if ltb n 16 then "" else high) ∷ digit_from (n - 16 * (n / 16)) "0123456789abcdef" ∷ [])

-- `f"{n:02x}"`
hex2 : ℕ → String
unfolding hex_digits texts
hex2 n = texts ((if ltb n 16 then "0" else "") ∷ hex_digits n n ∷ [])

hex2_255 : hex2 300 ≡ "12c"
unfolding hex2
hex2_255 = refl

normalize_parts : ℕ → String → String
unfolding hex2 all_hex text_length texts
normalize_parts sst sd =
    if is_empty sd || not (text_length sd == 6) || not (all_hex sd)
    then ""
    else texts (hex2 sst ∷ sd ∷ [])

unfoldable pub normalize_snssai : SliceInfo → String
unfolding normalize_parts strip lower
normalize_snssai absent = ""
normalize_snssai (text s) = lower (strip s)
normalize_snssai (parts none sd) = ""
normalize_snssai (parts (some sst) sd) = normalize_parts sst (lower (strip sd))

details_slice : Option PolicyDetails → SliceInfo
details_slice none = absent
details_slice (some d) = d.slice_info

-- the policy details of the result, or else of the policy
unfoldable pub requested_slice : Policy → DispatchResult → String
unfolding details_slice normalize_snssai
requested_slice p d =
    normalize_snssai
      (elim d.policy_details [ none ↦ details_slice p.policy_details | some x ↦ x.slice_info ])

-- the error, if there is one, and the evidence, if a slice is asked for
unfoldable pub slice_error :
    String → String → String → Option String × Option (String × Option String)
unfolding texts
slice_error policy_id requested observed =
    if is_empty requested
    then (none, none)
    else if is_empty observed
    then (
      some (
          texts (
            "policy " ∷ policy_id
            ∷ " dispatch was acknowledged but ns-3 returned no observed slice state for requested slice "
            ∷ requested ∷ [])),
      some (requested, text_or_none observed),
    )
    else if not (str_eq observed requested)
    then (
      some (
          texts (
            "policy " ∷ policy_id ∷ " dispatch was acknowledged but ns-3 remained on slice "
            ∷ observed ∷ " instead of requested slice " ∷ requested ∷ [])),
      some (requested, text_or_none observed),
    )
    else (none, some (requested, text_or_none observed))

unfoldable pub slice_execution_error :
    Policy → DispatchResult → Option String × Option (String × Option String)
unfolding slice_error requested_slice normalize_snssai
slice_execution_error p d =
    slice_error p.policy_id (requested_slice p d) (normalize_snssai d.monitoring_data.current_slice)

diagnostic : String → String → List String → List String
unfolding texts
diagnostic key value rest = if is_empty value then rest else texts (key ∷ "=" ∷ value ∷ []) ∷ rest

unfoldable pub dispatch_failure_detail : DispatchResult → String
unfolding diagnostic strip texts join
dispatch_failure_detail d =
    let details = diagnostic "phase" d.phase (
      diagnostic "status_code" d.status_code (
        diagnostic "response_code" d.response_code
          (diagnostic "operation_id" d.operation_id []))) in
    if not (is_empty (strip d.error)) then strip d.error else elim details [
      | [] ↦ "gateway returned a failed response without an error field"
      | x ∷ xs ↦ texts (
          "gateway returned a failed response without an error field ("
          ∷ join ", " (x ∷ xs)
          ∷ ")"
          ∷ [])
    ]
