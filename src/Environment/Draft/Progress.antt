-- ===== src/Environment/Draft/Progress.antt =====
-- How far a draft has come, and what every change does to its evidence.
use multiagents.Prelude.{
  ℕ, zero, suc, ◌≤◌, ◌≡◌, refl, sym, ap, ◌∙◌, Bool, true, false, not, ◌&&◌, ◌||◌, Option, none,
  some, List, [], ◌∷◌, ◌++◌, take, All, All-append, All-imp, String, str_eq, str_eq_iff, Bool-cases,
  inl, inr, arith,
}
use mathlib.Core.Bool.{false≢true}
use mathlib.Core.Path.{subst}
use multiagents.Exec.{Result, ok, err}
use multiagents.Environment.Draft.{
  section_order, get_item, set_item, member, next_section, first_missing, is_next, Payload, Entry,
  Draft, DraftError, new_draft, invalidate_evidence, is_initialized, started, initialize,
  store_section, replace_section, patched, patch_payload, patch_keyed, patch_entity, patch_entries,
  changes_id, collection_id_key, record_written_paths, collection, object, value,
}

-- the section that comes next extends the order by one
next_extends :
    (n : ℕ) (s : String)
    → n ≤ 9
    → is_next (next_section (take n section_order)) s ≡ true
    → (take n section_order ++ s ∷ [] ≡ take (suc n) section_order) × (suc n ≤ 9)
unfolding next_section first_missing is_next
next_extends zero s bound h =
    (ap (λ x. take 0 section_order ++ x ∷ []) ((str_eq_iff s "metadata").0 h), omega arith)
next_extends (suc zero) s bound h =
    (ap (λ x. take 1 section_order ++ x ∷ []) ((str_eq_iff s "slices").0 h), omega arith)
next_extends (suc (suc zero)) s bound h =
    (ap (λ x. take 2 section_order ++ x ∷ []) ((str_eq_iff s "upfs").0 h), omega arith)
next_extends (suc (suc (suc zero))) s bound h =
    (ap (λ x. take 3 section_order ++ x ∷ []) ((str_eq_iff s "gnbs").0 h), omega arith)
next_extends (suc (suc (suc (suc zero)))) s bound h =
    (ap (λ x. take 4 section_order ++ x ∷ []) ((str_eq_iff s "ues").0 h), omega arith)
next_extends (suc (suc (suc (suc (suc zero))))) s bound h =
    (ap (λ x. take 5 section_order ++ x ∷ []) ((str_eq_iff s "apps").0 h), omega arith)
next_extends (suc (suc (suc (suc (suc (suc zero)))))) s bound h =
    (ap (λ x. take 6 section_order ++ x ∷ []) ((str_eq_iff s "flows").0 h), omega arith)
next_extends (suc (suc (suc (suc (suc (suc (suc zero))))))) s bound h =
    (ap (λ x. take 7 section_order ++ x ∷ []) ((str_eq_iff s "runtime_config").0 h), omega arith)
next_extends (suc (suc (suc (suc (suc (suc (suc (suc zero)))))))) s bound h = (
  ap (λ x. take 8 section_order ++ x ∷ []) ((str_eq_iff s "split_mode_overlay").0 h),
  omega arith,
)
next_extends (suc (suc (suc (suc (suc (suc (suc (suc (suc zero))))))))) s bound h =
    absurd (false≢true h)
next_extends (suc (suc (suc (suc (suc (suc (suc (suc (suc (suc n)))))))))) s bound h =
    absurd (omega (arith, bound))

unfoldable pub has_item : {A : Type 0} → String → List (String × A) → Bool
has_item k [] = false
has_item k ((k', v) ∷ items) = str_eq k' k || has_item k items

has_item-set_item_self :
    {A : Type 0} (k : String) (v : A) (items : List (String × A))
    → has_item k (set_item k v items) ≡ true
unfolding has_item set_item
has_item-set_item_self k v [] = ground (arith, str_eq_iff k k)
has_item-set_item_self k v ((k', v') ∷ items) = elim (Bool-cases (str_eq k' k)) [
  | inl same ↦ rw same (ground (arith, same))
  | inr differs ↦ rw differs (ground (arith, has_item-set_item_self k v items))
]

has_item-set_item :
    {A : Type 0} (k j : String) (v : A) (items : List (String × A))
    → has_item k items ≡ true
    → has_item k (set_item j v items) ≡ true
unfolding has_item set_item
has_item-set_item k j v [] h = absurd (false≢true h)
has_item-set_item k j v ((k', v') ∷ items) h = elim (Bool-cases (str_eq k' j)) [
  | inl same ↦ rw same (ground (arith, h))
  | inr differs ↦ elim (Bool-cases (str_eq k' k)) [
    | inl mine ↦ rw differs (ground (arith, mine))
    | inr theirs ↦
        rw differs (ground (arith, has_item-set_item k j v items (ground (arith, h, theirs))))
  ]
]

due_next : (a b : Bool) → (not a && not b) ≡ false → a ≡ false → b ≡ true
due_next true b h e = absurd (false≢true (sym e))
due_next false true h e = refl
due_next false false h e = absurd (false≢true (sym h))

module _ {V : Type 0} where
  -- the completed sections are the first ones of the order, and each of them has a payload
  pub record IsDraft (d : Draft V) : Type 0 where
    pub count : ℕ
    pub bound : count ≤ 9
    pub in_order : d.completed_sections ≡ take count section_order
    pub stored : All (λ s. has_item s d.sections ≡ true) d.completed_sections

  -- nothing shows that the draft was validated or written
  pub record IsUnproven (d : Draft V) : Type 0 where
    pub unvalidated : d.validation_passed ≡ false
    pub unwritten : (d.scenario_path ≡ "") × (d.split_mode_overlay_path ≡ "")

  set_stored :
      (section : String) (payload : Payload V) (items : List (String × Payload V))
      (done : List String)
      → All (λ s. has_item s items ≡ true) done
      → All (λ s. has_item s (set_item section payload items) ≡ true) done
  set_stored section payload items done h =
      All-imp done (λ s q. has_item-set_item s section payload items q) h

  store_section-IsDraft :
      (section : String) (payload : Payload V) (d : Draft V)
      → (member section d.completed_sections ≡ false
          → is_next (next_section d.completed_sections) section ≡ true)
      → IsDraft d
      → IsDraft (store_section section payload d)
  unfolding store_section invalidate_evidence
  store_section-IsDraft section payload d next i =
      elim (Bool-cases (member section d.completed_sections)) [
        | inl again ↦ record {
          count = i.count;
          bound = i.bound;
          in_order = rw again i.in_order;
          stored = rw again (set_stored section payload d.sections d.completed_sections i.stored);
        }
        | inr first ↦
            let extended =
              next_extends i.count section i.bound
                (subst (λ c. is_next (next_section c) section ≡ true) i.in_order (next first)) in
            record {
              count = suc i.count;
              bound = extended.1;
              in_order = rw first (ap (λ c. c ++ section ∷ []) i.in_order ∙ extended.0);
              stored = rw first (
                  All-append _ d.completed_sections (section ∷ [])
                    (set_stored section payload d.sections d.completed_sections i.stored)
                    (has_item-set_item_self section payload d.sections, tt));
            }
      ]

  -- a change that is made keeps the order and drops the evidence
  abbrev Makes : Result (DraftError V) (Draft V) → Type 0
  Makes (ok d) = IsDraft d × IsUnproven d
  Makes (err e) = Unit

  started-Makes :
      (metadata : List (String × V)) (ks : List String) (d : Draft V)
      → Makes (started metadata ks d)
  unfolding started invalidate_evidence has_item
  started-Makes metadata [] d = (
    record { count = 1; bound = omega arith; in_order = refl; stored = (refl, tt) },
    record { unvalidated = refl; unwritten = (refl, refl) },
  )
  started-Makes metadata (k ∷ ks) d = tt

  replace_section-Makes :
      (section : String) (payload : Payload V) (d : Draft V)
      → IsDraft d
      → Makes (replace_section section payload d)
  unfolding replace_section store_section invalidate_evidence
  replace_section-Makes section payload d i = elim (Bool-cases (is_initialized d)) [
    | inr fresh ↦ rw fresh tt
    | inl begun ↦ elim (Bool-cases (member section section_order)) [
      | inr unknown ↦ rw (begun, unknown) tt
      | inl known ↦ elim (Bool-cases (str_eq section "metadata")) [
        | inl meta ↦ rw (begun, known, meta) tt
        | inr other ↦
            elim (Bool-cases (
              not (member section d.completed_sections)
              && not (is_next (next_section d.completed_sections) section))) [
                | inl early ↦ rw (begun, known, other, early) tt
                | inr due ↦
                    rw (begun, known, other, due)
                      (
                        store_section-IsDraft section payload d (due_next _ _ due) i,
                        record { unvalidated = refl; unwritten = (refl, refl) },
                      )
              ]
      ]
    ]
  ]

  patched-Makes :
      (section name : String) (es : Option (List (Entry V))) (d : Draft V)
      → IsDraft d
      → Makes (patched section name es d)
  unfolding patched invalidate_evidence
  patched-Makes section name none d i = tt
  patched-Makes section name (some es) d i = (
    record {
      count = i.count;
      bound = i.bound;
      in_order = i.in_order;
      stored = set_stored section (collection es) d.sections d.completed_sections i.stored;
    },
    record { unvalidated = refl; unwritten = (refl, refl) },
  )

  module _ (str text : V → String) where
    patch_payload-Makes :
        (section key name : String) (changes : List (String × V)) (d : Draft V)
        (p : Option (Payload V))
        → IsDraft d
        → Makes (patch_payload str text section key name changes d p)
    unfolding patch_payload
    patch_payload-Makes section key name changes d none i = tt
    patch_payload-Makes section key name changes d (some (object fields)) i = tt
    patch_payload-Makes section key name changes d (some (value v)) i = tt
    patch_payload-Makes section key name changes d (some (collection es)) i =
        elim (Bool-cases (changes_id str key name changes)) [
          | inl changed ↦ rw changed tt
          | inr kept ↦
              rw kept (patched-Makes section name (patch_entries text key name changes es) d i)
        ]

    patch_keyed-Makes :
        (section name : String) (changes : List (String × V)) (d : Draft V) (key : Option String)
        → IsDraft d
        → Makes (patch_keyed str text section name changes d key)
    unfolding patch_keyed
    patch_keyed-Makes section name changes d none i = tt
    patch_keyed-Makes section name changes d (some key) i =
        patch_payload-Makes section key name changes d (get_item section d.sections) i

    pub data Change : Type 0 where
      initialize_with : List (String × V) → Change
      replace : String → Payload V → Change
      patch : String → String → List (String × V) → Change

    -- one call of the store that changes sections
    unfoldable pub apply : Change → Draft V → Result (DraftError V) (Draft V)
    apply (initialize_with metadata) d = initialize metadata d
    apply (replace section payload) d = replace_section section payload d
    apply (patch section name changes) d = patch_entity str text section name changes d

    -- The drafts that a store comes to hold. The tools set `validation_passed`, and record what
    -- they have written, at any time; a call that raises leaves the draft as it is.
    pub data Reached : Draft V → Type 0 where
      fresh : Reached new_draft
      changed : {d d' : Draft V} (c : Change) → Reached d → apply c d ≡ ok d' → Reached d'
      validated :
          {d : Draft V} (b : Bool) → Reached d → Reached (record d { validation_passed = b })
      written :
          {d : Draft V} (scenario overlay : String)
          → Reached d
          → Reached (record_written_paths scenario overlay d)

    apply-Makes : (c : Change) (d : Draft V) → IsDraft d → Makes (apply c d)
    unfolding apply initialize patch_entity
    apply-Makes (initialize_with metadata) d i = started-Makes metadata _ d
    apply-Makes (replace section payload) d i = replace_section-Makes section payload d i
    apply-Makes (patch section name changes) d i = elim (Bool-cases (is_initialized d)) [
      | inl begun ↦
          rw begun (patch_keyed-Makes section name changes d (collection_id_key section) i)
      | inr empty ↦ rw empty tt
    ]

    -- In every draft that a store comes to hold, the completed sections are the first ones of the
    -- order, without a gap, and each of them has a payload.
    pub Reached-IsDraft : (d : Draft V) → Reached d → IsDraft d
    unfolding record_written_paths
    Reached-IsDraft d fresh = record {
      count = 0;
      bound = omega arith;
      in_order = refl;
      stored = tt;
    }
    Reached-IsDraft d (changed c r e) = (subst Makes e (apply-Makes c _ (Reached-IsDraft _ r))).0
    Reached-IsDraft d (validated b r) =
        let i = Reached-IsDraft _ r in
        record { count = i.count; bound = i.bound; in_order = i.in_order; stored = i.stored }
    Reached-IsDraft d (written scenario overlay r) =
        let i = Reached-IsDraft _ r in
        record { count = i.count; bound = i.bound; in_order = i.in_order; stored = i.stored }

    -- A change that succeeds on such a draft leaves no evidence: the draft is not validated, and no
    -- path of a written scenario is on record.
    pub apply-IsUnproven :
        (c : Change) (d d' : Draft V) → Reached d → apply c d ≡ ok d' → IsUnproven d'
    apply-IsUnproven c d d' r e = (subst Makes e (apply-Makes c d (Reached-IsDraft d r))).1
