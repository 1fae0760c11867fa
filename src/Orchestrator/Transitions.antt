-- ===== src/Orchestrator/Transitions.antt =====
-- src/control_runtime/orchestrators/round_transitions.py: the decisions between rounds. The JSON text
-- of the previous report and of the mediator's decision is an input.
pub mod Reuse
use multiagents.Prelude.{
  contains, ℕ, zero, suc, ◌-◌, min, max, Bool, true, false, not, ◌&&◌, ◌||◌, Option, none, some,
  List, [], ◌∷◌, any, all, map, length, String, str_eq, is_empty, strip, lower, join, ltb,
  if◌then◌else◌, ◌≡◌, refl,
}
use multiagents.Orchestrator.Contracts.{
  Question, GroundingDecision, Stage, ReuseContract, GlobalControlIntent, NegotiationIssue,
  DomainNegotiationRequest, Report, planning_failed, Diagnosis, planning_failure,
  domain_negotiation_required,
}

-- the report and the diagnosis of an exception with this `str` and this class name
unfoldable pub build_planning_failure_payload :
    {J : Type 0} → String → String → Report J × Diagnosis J
unfolding strip
build_planning_failure_payload text name =
    let message = if is_empty (strip text) then name else strip text in
    (planning_failed message, planning_failure message)

-- `sorted` by the stage index, which keeps the order of equal ones
insert_stage : Stage → List Stage → List Stage
insert_stage s [] = s ∷ []
insert_stage s (t ∷ ts) =
    let rest = insert_stage s ts in if ltb t.stage_index s.stage_index then t ∷ rest else s ∷ t ∷ ts

unfoldable pub sort_stages : List Stage → List Stage
unfolding insert_stage
sort_stages [] = []
sort_stages (s ∷ ss) = insert_stage s (sort_stages ss)

-- `ordered[position]`, with the last stage beyond the end
unfoldable pub stage_at : ℕ → Stage → List Stage → Stage
stage_at n s [] = s
stage_at zero s (t ∷ ts) = s
stage_at (suc n) s (t ∷ ts) = stage_at n t ts

scoped_to : GlobalControlIntent → Stage → GlobalControlIntent
scoped_to intent s = record intent { current_stage = 1; stages = record s { stage_index = 1 } ∷ [] }

scope_ordered : GlobalControlIntent → ℕ → List Stage → GlobalControlIntent
unfolding scoped_to stage_at
scope_ordered intent n [] = intent
scope_ordered intent n (s ∷ ss) =
    scoped_to intent (stage_at (min (max 1 n) (length (s ∷ ss)) - 1) s ss)

unfoldable pub scope_global_intent_for_intent_encoding :
    GlobalControlIntent → ℕ → GlobalControlIntent
unfolding scope_ordered sort_stages
scope_global_intent_for_intent_encoding intent round_index =
    scope_ordered intent round_index (sort_stages intent.stages)

is_text : String → Bool
unfolding strip
is_text s = not (is_empty (strip s))

unfoldable pub has_supi_scope : GlobalControlIntent → Bool
unfolding is_text
has_supi_scope intent = is_text intent.supi || any (λ s. any is_text s.target_supis) intent.stages

first_or_empty : List String → String
first_or_empty [] = ""
first_or_empty (s ∷ ss) = s

issue : Question → NegotiationIssue
unfolding first_or_empty strip
issue q = record {
  domain = first_or_empty q.related_domains;
  missing_evidence = if is_empty (strip q.question) then [] else strip q.question ∷ [];
  rationale = strip q.question;
}

rationales : List NegotiationIssue → List String
unfolding strip
rationales [] = []
rationales (i ∷ is) =
    let rest = rationales is in
    if is_empty (strip i.rationale) then rest else strip i.rationale ∷ rest

or_default : String → String → String
or_default s t = if is_empty s then t else s

has_issues : List NegotiationIssue → Bool
has_issues [] = false
has_issues (i ∷ is) = true

unfoldable pub build_negotiation_request : GroundingDecision → ℕ → DomainNegotiationRequest
unfolding issue rationales or_default has_issues join
build_negotiation_request g n =
    let issues = map issue g.open_questions in
    record {
      round_index = n;
      requires_domain_review = has_issues issues;
      issues = issues;
      summary =
          or_default (join "; " (rationales issues)) "IEA reported unresolved grounding questions";
    }

unfoldable pub build_negotiation_diagnosis : {J : Type 0} → DomainNegotiationRequest → Diagnosis J
unfolding rationales
build_negotiation_diagnosis request =
    domain_negotiation_required request.summary (rationales request.issues)

-- one of the tokens is named in the text
unfoldable pub invalidated : String → List String → Bool
unfolding contains strip lower
invalidated text tokens =
    any (λ t. not (is_empty (lower (strip t))) && contains (lower (strip t)) text) tokens

-- the set of the flows' SUPIs is neither empty nor the intent's alone
unfoldable pub other_bindings : GlobalControlIntent → GroundingDecision → Bool
unfolding is_text strip
other_bindings intent g =
    intent.reuse_contract.preserve_bindings
    && is_text intent.supi
    && any is_text g.flow_supis
    && not (all (λ s. not (is_text s) || str_eq (strip s) (strip intent.supi)) g.flow_supis)

unfoldable pub is_closed : GroundingDecision → Bool
is_closed g = elim g.open_questions [ [] ↦ true | q ∷ qs ↦ false ]

-- `text` is `json.dumps({"report": …, "mediator": …, "open_questions": []})`
unfoldable pub should_reuse_grounding_decision :
    GlobalControlIntent → Option GroundingDecision → String → Bool
unfolding other_bindings invalidated is_closed strip lower
should_reuse_grounding_decision intent none text = false
should_reuse_grounding_decision intent (some g) text =
    is_closed g
    && str_eq (lower (strip intent.next_agent)) "optimization_strategy"
    && intent.reuse_contract.allowed
    && not (other_bindings intent g)
    && not (invalidated (lower text) intent.reuse_contract.invalidate_on)
