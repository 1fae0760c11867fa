-- ===== src/Environment/Tests.antt =====
-- A draft of a scenario on concrete calls.
use multiagents.Prelude.{◌≡◌, refl, true, false, some, List, [], ◌∷◌, String}
use multiagents.Exec.{ok, err}
use multiagents.Environment.Draft.{
  value, section_order, entity, Payload, collection, object, Draft, out_of_order, new_draft,
  get_item, set_item, next_section, invalidate_evidence, initialize, replace_section, patch_entity,
}
use multiagents.Environment.Draft.Progress.{
  IsDraft, IsUnproven, Change, initialize_with, replace, patch, apply, Reached, fresh, changed,
  validated, Reached-IsDraft, apply-IsUnproven,
}
use multiagents.Environment.Draft.Assembly.{sections_missing, ScenarioCandidate, assemble_candidate}
use multiagents.Environment.Draft.Assembled.{IsAssembled, assemble_candidate-IsAssembled}

store : Unit {0}
unfolding get_item set_item next_section invalidate_evidence initialize replace_section patch_entity
    apply assemble_candidate
store = tt

-- JSON values that are texts
abbrev text : String → String
text s = s

abbrev metadata : List (String × String)
metadata = ("name", "n") ∷ ("scenario_id", "s") ∷ ("tick_ms", "10") ∷ ("seed", "1") ∷ []

abbrev begun : Draft String
begun = record {
  sections = ("metadata", object metadata) ∷ [];
  completed_sections = "metadata" ∷ [];
  validation_passed = false;
  scenario_path = "";
  split_mode_overlay_path = "";
}

abbrev slices : String → Payload String
slices sst = collection (entity (("label", "a") ∷ ("sst", sst) ∷ []) ∷ [])

abbrev sliced : String → Draft String
sliced sst = record begun {
  sections = ("metadata", object metadata) ∷ ("slices", slices sst) ∷ [];
  completed_sections = "metadata" ∷ "slices" ∷ [];
}

too_early : replace_section "upfs" (slices "1") begun ≡ err (out_of_order (some "slices"))
unfolding store
too_early = refl

abbrev add_slices : Change text text
add_slices = replace "slices" (slices "1")

abbrev change_slice : Change text text
change_slice = patch "slices" "a" (("sst", "2") ∷ [])

began : apply text text (initialize_with metadata) new_draft ≡ ok begun
unfolding store
began = refl

added : apply text text add_slices begun ≡ ok (sliced "1")
unfolding store
added = refl

-- a patch of a draft that was validated
patched_slice :
    apply text text change_slice (record (sliced "1") { validation_passed = true })
    ≡ ok (sliced "2")
unfolding store
patched_slice = refl

reached : Reached text text (record (sliced "1") { validation_passed = true })
reached = validated true (changed add_slices (changed (initialize_with metadata) fresh began) added)

Reached-IsDraft_example : IsDraft (record (sliced "1") { validation_passed = true })
Reached-IsDraft_example =
    Reached-IsDraft text text (record (sliced "1") { validation_passed = true }) reached

apply-IsUnproven_example : IsUnproven (sliced "2")
apply-IsUnproven_example =
    apply-IsUnproven text text change_slice (record (sliced "1") { validation_passed = true })
      (sliced "2") reached patched_slice

-- a draft with every section
abbrev complete : Draft String
complete = record begun {
  sections =
      ("metadata", object metadata)
      ∷ ("slices", slices "1")
      ∷ ("upfs", collection [])
      ∷ ("gnbs", collection [])
      ∷ ("ues", collection [])
      ∷ ("apps", collection [])
      ∷ ("flows", collection [])
      ∷ ("runtime_config", object (("seed", "2") ∷ []))
      ∷ ("split_mode_overlay", object [])
      ∷ [];
  completed_sections = section_order;
}

-- the runtime configuration is written over the metadata, in its place
abbrev candidate : ScenarioCandidate String
candidate = record {
  scenario_id = "s";
  name = "n";
  scenario =
      ("name", value "n")
      ∷ ("scenario_id", value "s")
      ∷ ("tick_ms", value "10")
      ∷ ("seed", value "2")
      ∷ ("slices", slices "1")
      ∷ ("upfs", collection [])
      ∷ ("gnbs", collection [])
      ∷ ("ues", collection [])
      ∷ ("apps", collection [])
      ∷ ("flows", collection [])
      ∷ [];
  split_mode_overlay = object [];
}

assembled : assemble_candidate text complete ≡ ok candidate
unfolding store
assembled = refl

still_missing :
    assemble_candidate text (sliced "1")
    ≡ err (
        sections_missing (
          "upfs" ∷ "gnbs" ∷ "ues" ∷ "apps" ∷ "flows" ∷ "runtime_config" ∷ "split_mode_overlay"
          ∷ []))
unfolding store
still_missing = refl

reached_complete : Reached text text complete
unfolding store
reached_complete =
    changed (replace "split_mode_overlay" (object []))
      (changed (replace "runtime_config" (object (("seed", "2") ∷ [])))
        (changed (replace "flows" (collection []))
          (changed (replace "apps" (collection []))
            (changed (replace "ues" (collection []))
              (changed (replace "gnbs" (collection []))
                (changed (replace "upfs" (collection []))
                  (changed add_slices (changed (initialize_with metadata) fresh began) added) refl)
                refl)
              refl)
            refl)
          refl)
        refl)
      refl

assemble_candidate-IsAssembled_example : IsAssembled complete (assemble_candidate text complete)
assemble_candidate-IsAssembled_example =
    assemble_candidate-IsAssembled text text complete reached_complete
