-- ===== src/Environment/Draft/Assembly.antt =====
-- src/environment/draft.py: `assemble_candidate`, which puts the sections of a draft together.
use multiagents.Prelude.{Option, none, some, List, [], ◌∷◌, String}
use multiagents.Exec.{Result, ok, err}
use multiagents.Environment.Draft.{
  section_order, get_item, set_item, update, missing, Payload, Draft, object, collection, value,
}

pub record ScenarioCandidate (V : Type 0) : Type 0 where
  pub scenario_id : String
  pub name : String
  pub scenario : List (String × Payload V)
  pub split_mode_overlay : Payload V

-- the ValueError, the KeyErrors of the sections and of the metadata, and the TypeError of `**`
pub data AssemblyError : Type 0 where
  sections_missing : List String → AssemblyError
  no_section : String → AssemblyError
  no_field : String → AssemblyError
  no_mapping : String → AssemblyError

abbrev pub Assembling : Type 0 → Type 0
Assembling A = Result AssemblyError A

module _ {V : Type 0} {A : Type 0} where
  -- `self.sections[section]`
  unfoldable pub found : String → Option (Payload V) → (Payload V → Assembling A) → Assembling A
  found section none rest = err (no_section section)
  found section (some payload) rest = rest payload

  -- `**payload`
  unfoldable pub mapping : String → Payload V → (List (String × V) → Assembling A) → Assembling A
  mapping section (object fields) rest = rest fields
  mapping section (collection es) rest = err (no_mapping section)
  mapping section (value v) rest = err (no_mapping section)

  -- `metadata[key]`
  unfoldable pub field : String → Option V → (V → Assembling A) → Assembling A
  field key none rest = err (no_field key)
  field key (some v) rest = rest v

-- the items of a section as items of the scenario
unfoldable pub as_values : {V : Type 0} → List (String × V) → List (String × Payload V)
as_values [] = []
as_values ((k, v) ∷ fields) = (k, value v) ∷ as_values fields

module _ {V : Type 0} (str : V → String) where
  unfoldable pub assemble : List String → Draft V → Assembling (ScenarioCandidate V)
  unfolding get_item set_item update found mapping field as_values
  assemble (s ∷ ss) d = err (sections_missing (s ∷ ss))
  assemble [] d = found "metadata" (get_item "metadata" d.sections) (λ metadata.
      found "runtime_config" (get_item "runtime_config" d.sections) (λ runtime.
        mapping "metadata" metadata (λ fields.
          found "slices" (get_item "slices" d.sections) (λ slices.
            found "upfs" (get_item "upfs" d.sections) (λ upfs.
              found "gnbs" (get_item "gnbs" d.sections) (λ gnbs.
                found "ues" (get_item "ues" d.sections) (λ ues.
                  found "apps" (get_item "apps" d.sections) (λ apps.
                    found "flows" (get_item "flows" d.sections) (λ flows.
                      mapping "runtime_config" runtime (λ settings.
                        field "scenario_id" (get_item "scenario_id" fields) (λ scenario_id.
                          field "name" (get_item "name" fields) (λ name.
                            found "split_mode_overlay" (get_item "split_mode_overlay" d.sections)
                              (λ overlay. ok (record {
                                scenario_id = str scenario_id;
                                name = str name;
                                scenario =
                                    update
                                      (update (update [] (as_values fields)) (
                                        ("slices", slices)
                                        ∷ ("upfs", upfs)
                                        ∷ ("gnbs", gnbs)
                                        ∷ ("ues", ues)
                                        ∷ ("apps", apps)
                                        ∷ ("flows", flows)
                                        ∷ []))
                                      (as_values settings);
                                split_mode_overlay = overlay;
                              }))))))))))))))

  unfoldable pub assemble_candidate : Draft V → Assembling (ScenarioCandidate V)
  unfolding missing assemble
  assemble_candidate d = assemble (missing section_order d.completed_sections) d
