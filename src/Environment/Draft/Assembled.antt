-- ===== src/Environment/Draft/Assembled.antt =====
-- When the sections of a draft can be put together.
use multiagents.Prelude.{
  ◌≡◌, refl, true, ◌||◌, Option, none, some, List, [], ◌∷◌, All, String, str_eq, str_eq_iff, sym,
  Bool-cases, inl, inr, arith,
}
use mathlib.Core.Bool.{false≢true}
use mathlib.Core.Path.{subst}
use multiagents.Exec.{ok, err}
use multiagents.Environment.Draft.{
  section_order, get_item, missing, first_missing, member, next_section, Payload, Draft, object,
  collection, value,
}
use multiagents.Environment.Draft.Progress.{has_item, Reached, Reached-IsDraft}
use multiagents.Environment.Draft.Assembly.{
  ScenarioCandidate, sections_missing, no_section, no_field, no_mapping, Assembling, found, mapping,
  field, assemble, assemble_candidate,
}

-- a section is due first, exactly where it stands first among the missing ones
abbrev FirstIs : List String → Option String → Type 0
FirstIs [] next = next ≡ none
FirstIs (s ∷ ss) next = next ≡ some s

first_missing-missing :
    (order done : List String) → FirstIs (missing order done) (first_missing order done)
unfolding missing first_missing
first_missing-missing [] done = refl
first_missing-missing (s ∷ ss) done = elim (Bool-cases (member s done)) [
  | inl has ↦ rw has (first_missing-missing ss done)
  | inr lacks ↦ rw lacks refl
]

get_item-has_item :
    {A : Type 0} (k : String) (items : List (String × A))
    → has_item k items ≡ true
    → (v : A) × (get_item k items ≡ some v)
unfolding get_item has_item
get_item-has_item k [] h = absurd (false≢true h)
get_item-has_item k ((k', v) ∷ items) h = elim (Bool-cases (str_eq k' k)) [
  | inl same ↦ rw same (v, refl)
  | inr differs ↦
      rw differs (get_item-has_item k items (subst (λ b. (b || has_item k items) ≡ true) differs h))
]

member-All :
    (P : String → Type 0) (s : String) (done : List String)
    → member s done ≡ true
    → All P done
    → P s
member-All P s [] h all = absurd (false≢true h)
member-All P s (t ∷ done) h (p, all) = elim (Bool-cases (str_eq s t)) [
  | inl same ↦ subst P (sym ((str_eq_iff s t).0 same)) p
  | inr differs ↦ member-All P s done (subst (λ b. (b || member s done) ≡ true) differs h) all
]

missing-All :
    (P : String → Type 0) (order done : List String)
    → missing order done ≡ []
    → All P done
    → All P order
unfolding missing
missing-All P [] done h all = tt
missing-All P (s ∷ order) done h all = elim (Bool-cases (member s done)) [
  | inl has ↦ (member-All P s done has all, missing-All P order done (ground (arith, h, has)) all)
  | inr lacks ↦ ground (arith, h, lacks)
]

module _ {V : Type 0} (d : Draft V) where
  -- What assembling the draft may give.
  abbrev pub IsAssembled : Assembling (ScenarioCandidate V) → Type 0
  IsAssembled (ok c) =
      (next_section d.completed_sections ≡ none)
      × (get_item "split_mode_overlay" d.sections ≡ some c.split_mode_overlay)
  IsAssembled (err (sections_missing [])) = ⊥
  IsAssembled (err (sections_missing (s ∷ ss))) = next_section d.completed_sections ≡ some s
  IsAssembled (err (no_section s)) = ⊥
  IsAssembled (err (no_field k)) = next_section d.completed_sections ≡ none
  IsAssembled (err (no_mapping s)) = next_section d.completed_sections ≡ none

  abbrev HasSection : String → Type 0
  HasSection s = has_item s d.sections ≡ true

  found-IsAssembled :
      (s : String) (rest : Payload V → Assembling (ScenarioCandidate V))
      → HasSection s
      → ((p : Payload V) → get_item s d.sections ≡ some p → IsAssembled (rest p))
      → IsAssembled (found s (get_item s d.sections) rest)
  unfolding found
  found-IsAssembled s rest has h =
      let at = get_item-has_item s d.sections has in rw (at.1) (h at.0 at.1)

  module _ (complete : next_section d.completed_sections ≡ none) where
    mapping-IsAssembled :
        (s : String) (p : Payload V) (rest : List (String × V) → Assembling (ScenarioCandidate V))
        → ((fields : List (String × V)) → IsAssembled (rest fields))
        → IsAssembled (mapping s p rest)
    unfolding mapping
    mapping-IsAssembled s (object fields) rest h = h fields
    mapping-IsAssembled s (collection es) rest h = complete
    mapping-IsAssembled s (value v) rest h = complete

    field-IsAssembled :
        (k : String) (v : Option V) (rest : V → Assembling (ScenarioCandidate V))
        → ((v : V) → IsAssembled (rest v))
        → IsAssembled (field k v rest)
    unfolding field
    field-IsAssembled k none rest h = complete
    field-IsAssembled k (some v) rest h = h v

    assemble-IsAssembled :
        (str : V → String) → All HasSection section_order → IsAssembled (assemble str [] d)
    unfolding assemble
    assemble-IsAssembled str
          (metadata, (slices, (upfs, (gnbs, (ues, (apps, (flows, (runtime, (overlay, _))))))))) =
        found-IsAssembled "metadata" _ metadata λ m _.
          found-IsAssembled "runtime_config" _ runtime λ r _.
            mapping-IsAssembled "metadata" m _ λ fields. found-IsAssembled "slices" _ slices λ _ _.
              found-IsAssembled "upfs" _ upfs λ _ _. found-IsAssembled "gnbs" _ gnbs λ _ _.
                found-IsAssembled "ues" _ ues λ _ _. found-IsAssembled "apps" _ apps λ _ _.
                  found-IsAssembled "flows" _ flows λ _ _.
                    mapping-IsAssembled "runtime_config" r _ λ _.
                      field-IsAssembled "scenario_id" (get_item "scenario_id" fields) _ λ _.
                        field-IsAssembled "name" (get_item "name" fields) _ λ _.
                          found-IsAssembled "split_mode_overlay" _ overlay λ p at. (complete, at)

  assemble_missing-IsAssembled :
      (str : V → String) (absent : List String)
      → FirstIs absent (next_section d.completed_sections)
      → (absent ≡ [] → All HasSection section_order)
      → IsAssembled (assemble str absent d)
  unfolding assemble
  assemble_missing-IsAssembled str [] first all = assemble-IsAssembled first str (all refl)
  assemble_missing-IsAssembled str (s ∷ ss) first all = first

-- A draft that a store comes to hold is assembled as its progress says: while a section comes next,
-- assembling raises that sections are missing, this one first; when none does, every section is
-- found, and assembling either makes the candidate, with the overlay of the draft, or raises that
-- the metadata lacks a key or that a section to be merged is no dictionary.
pub assemble_candidate-IsAssembled :
    {V : Type 0} (str text : V → String) (d : Draft V)
    → Reached str text d
    → IsAssembled d (assemble_candidate str d)
unfolding assemble_candidate next_section
assemble_candidate-IsAssembled str text d reached =
    assemble_missing-IsAssembled d str (missing section_order d.completed_sections)
      (first_missing-missing section_order d.completed_sections)
      (λ none_missing.
        missing-All (HasSection d) section_order d.completed_sections none_missing
          (Reached-IsDraft str text d reached).stored)
