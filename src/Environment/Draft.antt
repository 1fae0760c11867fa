-- ===== src/Environment/Draft.antt =====
-- src/environment/draft.py: `ScenarioDraftStore`. A dictionary is a list of its items, in order; `V`
-- is the type of JSON values. The summaries that operations return only read the draft.
pub mod Progress
pub mod Assembly
pub mod Assembled
use multiagents.Prelude.{
  Bool, true, false, not, ◌&&◌, ◌||◌, Option, none, some, List, [], ◌∷◌, ◌++◌, any, String, str_eq,
  if◌then◌else◌,
}
use multiagents.Exec.{Result, ok, err}

abbrev pub section_order : List String
section_order =
    "metadata" ∷ "slices" ∷ "upfs" ∷ "gnbs" ∷ "ues" ∷ "apps" ∷ "flows" ∷ "runtime_config"
    ∷ "split_mode_overlay" ∷ []

unfoldable pub get_item : {A : Type 0} → String → List (String × A) → Option A
get_item k [] = none
get_item k ((k', v) ∷ items) = if str_eq k' k then some v else get_item k items

-- `d[k] = v`: a known key keeps its place
unfoldable pub set_item : {A : Type 0} → String → A → List (String × A) → List (String × A)
set_item k v [] = (k, v) ∷ []
set_item k v ((k', v') ∷ items) =
    let rest = set_item k v items in if str_eq k' k then (k', v) ∷ items else (k', v') ∷ rest

-- `d.update(changes)`
update : {A : Type 0} → List (String × A) → List (String × A) → List (String × A)
unfolding set_item
update d [] = d
update d ((k, v) ∷ changes) = update (set_item k v d) changes

abbrev pub member : String → List String → Bool
member s ss = any (str_eq s) ss

collection_id_key : String → Option String
unfolding get_item
collection_id_key section = get_item section (
    ("slices", "label")
    ∷ ("upfs", "name")
    ∷ ("gnbs", "name")
    ∷ ("ues", "name")
    ∷ ("apps", "app_id")
    ∷ ("flows", "flow_id")
    ∷ [])

module _ (V : Type 0) where
  -- an entry of a collection: a dictionary or another value
  pub data Entry : Type 0 where
    entity : List (String × V) → Entry
    scalar : V → Entry

  pub data Payload : Type 0 where
    collection : List Entry → Payload
    object : List (String × V) → Payload
    value : V → Payload

  pub record Draft : Type 0 where
    pub sections : List (String × Payload)
    pub completed_sections : List String
    pub validation_passed : Bool
    pub scenario_path : String
    pub split_mode_overlay_path : String

  -- the ValueErrors
  pub data DraftError : Type 0 where
    missing_fields : List String → DraftError
    not_initialized : DraftError
    unsupported_section : String → DraftError
    metadata_replaced : DraftError
    out_of_order : Option String → DraftError
    no_entity_patches : String → DraftError
    not_generated : String → DraftError
    changed_id : String → DraftError
    no_entity : String → String → DraftError

abbrev pub new_draft : {V : Type 0} → Draft V
new_draft = record {
  sections = [];
  completed_sections = [];
  validation_passed = false;
  scenario_path = "";
  split_mode_overlay_path = "";
}

-- the names that are not among the given ones
missing : List String → List String → List String
missing [] given = []
missing (s ∷ ss) given = let rest = missing ss given in if member s given then rest else s ∷ rest

keys : {A : Type 0} → List (String × A) → List String
keys [] = []
keys ((k, v) ∷ items) = k ∷ keys items

first_missing : List String → List String → Option String
first_missing [] completed = none
first_missing (s ∷ ss) completed =
    let rest = first_missing ss completed in if member s completed then rest else some s

unfoldable pub next_section : List String → Option String
unfolding first_missing
next_section completed = first_missing section_order completed

is_next : Option String → String → Bool
is_next none s = false
is_next (some t) s = str_eq s t

module _ {V : Type 0} where
  unfoldable pub invalidate_evidence : Draft V → Draft V
  invalidate_evidence d = record d {
    validation_passed = false;
    scenario_path = "";
    split_mode_overlay_path = "";
  }

  is_initialized : Draft V → Bool
  unfolding keys
  is_initialized d = member "metadata" (keys d.sections)

  started : List (String × V) → List String → Draft V → Result (DraftError V) (Draft V)
  unfolding invalidate_evidence
  started metadata [] d = ok (
      invalidate_evidence (record d {
        sections = ("metadata", object metadata) ∷ [];
        completed_sections = "metadata" ∷ [];
      }))
  started metadata (k ∷ ks) d = err (missing_fields (k ∷ ks))

  unfoldable pub initialize : List (String × V) → Draft V → Result (DraftError V) (Draft V)
  unfolding started missing keys
  initialize metadata d =
      started metadata (missing ("name" ∷ "scenario_id" ∷ "tick_ms" ∷ "seed" ∷ []) (keys metadata))
        d

  store_section : String → Payload V → Draft V → Draft V
  unfolding invalidate_evidence set_item
  store_section section payload d = invalidate_evidence (record d {
    sections = set_item section payload d.sections;
    completed_sections =
        if member section d.completed_sections
        then d.completed_sections
        else d.completed_sections ++ section ∷ [];
  })

  unfoldable pub replace_section : String → Payload V → Draft V → Result (DraftError V) (Draft V)
  unfolding is_initialized store_section is_next next_section
  replace_section section payload d =
      if not (is_initialized d)
      then err not_initialized
      else if not (member section section_order)
      then err (unsupported_section section)
      else if str_eq section "metadata"
      then err metadata_replaced
      else if not (member section d.completed_sections)
          && not (is_next (next_section d.completed_sections) section)
      then err (out_of_order (next_section d.completed_sections))
      else ok (store_section section payload d)

  -- `text` is `str(v or "")`, of the value under the key
  has_id : (V → String) → String → String → List (String × V) → Bool
  unfolding get_item
  has_id text key name fields = elim (get_item key fields) [
    | none ↦ str_eq "" name
    | some v ↦ str_eq (text v) name
  ]

  -- the first entity of that id is updated; `none` if there is none
  patch_entries :
      (V → String) → String → String → List (String × V) → List (Entry V) → Option (List (Entry V))
  unfolding has_id update
  patch_entries text key name changes [] = none
  patch_entries text key name changes (entity fields ∷ es) =
      let rest = patch_entries text key name changes es in
      if has_id text key name fields
      then some (entity (update fields changes) ∷ es)
      else elim rest [ none ↦ none | some es' ↦ some (entity fields ∷ es') ]
  patch_entries text key name changes (scalar v ∷ es) =
      elim (patch_entries text key name changes es) [
        | none ↦ none
        | some es' ↦ some (scalar v ∷ es')
      ]

  patched : String → String → Option (List (Entry V)) → Draft V → Result (DraftError V) (Draft V)
  unfolding invalidate_evidence set_item
  patched section name none d = err (no_entity section name)
  patched section name (some es) d =
      ok (invalidate_evidence (record d { sections = set_item section (collection es) d.sections }))

  -- `str` is Python's `str`
  changes_id : (V → String) → String → String → List (String × V) → Bool
  unfolding get_item
  changes_id str key name changes = elim (get_item key changes) [
    | none ↦ false
    | some v ↦ not (str_eq (str v) name)
  ]

  patch_payload :
      (V → String)
      → (V → String)
      → String
      → String
      → String
      → List (String × V)
      → Draft V
      → Option (Payload V)
      → Result (DraftError V) (Draft V)
  unfolding changes_id patched patch_entries
  patch_payload str text section key name changes d (some (collection es)) =
      if changes_id str key name changes
      then err (changed_id key)
      else patched section name (patch_entries text key name changes es) d
  patch_payload str text section key name changes d _ = err (not_generated section)

  patch_keyed :
      (V → String)
      → (V → String)
      → String
      → String
      → List (String × V)
      → Draft V
      → Option String
      → Result (DraftError V) (Draft V)
  unfolding patch_payload get_item
  patch_keyed str text section name changes d none = err (no_entity_patches section)
  patch_keyed str text section name changes d (some key) =
      patch_payload str text section key name changes d (get_item section d.sections)

  unfoldable pub patch_entity :
      (V → String)
      → (V → String)
      → String
      → String
      → List (String × V)
      → Draft V
      → Result (DraftError V) (Draft V)
  unfolding is_initialized patch_keyed collection_id_key
  patch_entity str text section name changes d =
      if not (is_initialized d)
      then err not_initialized
      else patch_keyed str text section name changes d (collection_id_key section)

  -- the paths are resolved already
  unfoldable pub record_written_paths : String → String → Draft V → Draft V
  record_written_paths scenario overlay d = record d {
    scenario_path = scenario;
    split_mode_overlay_path = overlay;
  }
