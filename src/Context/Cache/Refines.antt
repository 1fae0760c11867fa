-- ===== src/Context/Cache/Refines.antt =====
-- The cache as a function from addresses to values, which is all that its callers can see of it.
use multiagents.Prelude.{
  Bool, not, strip, String, str_eq, true, false, ◌&&◌, ◌≡◌, refl, sym, ap, ◌∙◌, inl, inr,
  Bool-cases, Option, none, some, List, [], ◌∷◌, str_eq_iff, or_else, if◌then◌else◌, arith,
}
use multiagents.Context.Cache.{
  excludes, normalize_key, Scalars, IsEquivalence, Key, atom, empty, pair, Slot, Address, Scope,
  is_some, is_none, is_kept, build_slot, same_key, same_slot, stored, store, set, get, has,
  remaining, clear,
}

module _ {S : Type 0} (scalars : Scalars S) (equivalence : IsEquivalence scalars) where
  same_key_refl : (k : Key S) → same_key scalars k k ≡ true
  unfolding same_key
  same_key_refl (atom a) = equivalence.same_refl a
  same_key_refl empty = refl
  same_key_refl (pair a s) = ground (arith, same_key_refl a, same_key_refl s)

  same_key_euclid :
      (a b c : Key S) → same_key scalars a b ≡ true → same_key scalars a c ≡ same_key scalars b c
  unfolding same_key
  same_key_euclid (atom a) (atom b) (atom c) h = equivalence.same_euclid a b c h
  same_key_euclid (atom a) (atom b) empty h = refl
  same_key_euclid (atom a) (atom b) (pair c u) h = refl
  same_key_euclid empty empty c h = refl
  same_key_euclid (pair a s) (pair b t) (pair c u) h =
      ground (arith, h, same_key_euclid a b c, same_key_euclid s t u)
  same_key_euclid (pair a s) (pair b t) (atom c) h = refl
  same_key_euclid (pair a s) (pair b t) empty h = refl
  same_key_euclid (atom a) empty c h = ground (arith, h)
  same_key_euclid (atom a) (pair b t) c h = ground (arith, h)
  same_key_euclid empty (atom b) c h = ground (arith, h)
  same_key_euclid empty (pair b t) c h = ground (arith, h)
  same_key_euclid (pair a s) (atom b) c h = ground (arith, h)
  same_key_euclid (pair a s) empty c h = ground (arith, h)

  same_slot_refl : (s : Slot S) → same_slot scalars s s ≡ true
  unfolding same_slot
  same_slot_refl s = ground (
    arith,
    same_key_refl s.key,
    str_eq_iff s.snapshot_id s.snapshot_id,
    str_eq_iff s.session_id s.session_id,
    str_eq_iff s.namespace s.namespace,
  )

  same_slot_euclid :
      (s t u : Slot S)
      → same_slot scalars s t ≡ true
      → same_slot scalars s u ≡ same_slot scalars t u
  unfolding same_slot
  same_slot_euclid s t u h = ground (
    arith,
    h,
    same_key_euclid s.key t.key u.key,
    str_eq_iff s.snapshot_id t.snapshot_id,
    str_eq_iff s.session_id t.session_id,
    str_eq_iff s.namespace t.namespace,
  )

  same_slot-sym : (s t : Slot S) → same_slot scalars s t ≡ true → same_slot scalars t s ≡ true
  same_slot-sym s t h = sym (same_slot_euclid s t s h) ∙ same_slot_refl s

  -- `clear` does not tell equal slots apart
  is_kept-same :
      (scope : Scope) (s t : Slot S)
      → same_slot scalars s t ≡ true
      → is_kept scope s ≡ is_kept scope t
  unfolding same_slot is_kept
  is_kept-same scope s t h = ground (
    arith,
    h,
    str_eq_iff s.snapshot_id t.snapshot_id,
    str_eq_iff s.session_id t.session_id,
    str_eq_iff s.namespace t.namespace,
  )

  all_dropped :
      (scope : Scope) (t : Slot S)
      → (is_none scope.namespace && is_none scope.snapshot_id && is_none scope.session_id) ≡ true
      → is_kept scope t ≡ false
  unfolding is_kept
  all_dropped scope t h = ground (arith, h)

  module _ {V : Type 0} where
    stored-store :
        (s t : Slot S) (v : V) (cache : List (Slot S × V))
        → stored scalars t (store scalars s v cache)
          ≡ (if same_slot scalars s t then some v else stored scalars t cache)
    unfolding stored store
    stored-store s t v [] = refl
    stored-store s t v ((x, w) ∷ cache) = ground (
      arith,
      stored-store s t v cache,
      same_slot_euclid x s t,
      same_slot_euclid x t s,
      same_slot-sym s t,
    )

    stored-remaining :
        (scope : Scope) (t : Slot S) (cache : List (Slot S × V))
        → stored scalars t (remaining scalars scope cache)
          ≡ (if is_kept scope t then stored scalars t cache else none)
    unfolding stored remaining
    stored-remaining scope t [] = ground arith
    stored-remaining scope t ((x, w) ∷ cache) = elim (Bool-cases (same_slot scalars x t)) [
      | inl same ↦ elim (Bool-cases (is_kept scope x)) [
        | inl kept ↦ rw (sym (is_kept-same scope x t same), kept, same) refl
        | inr dropped ↦
            rw (sym (is_kept-same scope x t same), dropped)
              (stored-remaining scope t cache
                ∙ rw (sym (is_kept-same scope x t same), dropped) refl)
      ]
      | inr other ↦ elim (Bool-cases (is_kept scope x)) [
        | inl kept ↦ rw (kept, other) (stored-remaining scope t cache)
        | inr dropped ↦ rw (dropped, other) (stored-remaining scope t cache)
      ]
    ]

    stored-clear :
        (scope : Scope) (t : Slot S) (cache : List (Slot S × V))
        → stored scalars t (clear scalars scope cache)
          ≡ (if is_kept scope t then stored scalars t cache else none)
    unfolding clear stored
    stored-clear scope t cache =
        elim (Bool-cases
          (is_none scope.namespace && is_none scope.snapshot_id && is_none scope.session_id)) [
            | inl all_none ↦ rw (all_none, all_dropped scope t all_none) refl
            | inr some_given ↦ rw some_given (stored-remaining scope t cache)
          ]

if-not : {A : Type 0} (b : Bool) (x y : A) → (if not b then x else y) ≡ (if b then y else x)
if-not true x y = refl
if-not false x y = refl

-- What a caller does to a cache.
pub data Change (S V : Type 0) : Type 0 where
  set_at : Address S → V → Change S V
  clear_in : Scope → Change S V

-- What an address holds is all that can be seen of a cache.
abbrev pub Contents : Type 0 → Type 0 → Type 0
Contents S V = Address S → Option V

-- Two addresses are one if their texts are the same but for blanks around them, and their keys are
-- the same when normalised.
abbrev pub is_same : {S : Type 0} → Scalars S → Address S → Address S → Bool
is_same scalars a b =
    str_eq (strip a.snapshot_id) (strip b.snapshot_id)
    && str_eq (strip a.session_id) (strip b.session_id)
    && str_eq (strip a.namespace) (strip b.namespace)
    && same_key scalars (normalize_key scalars a.cache_key) (normalize_key scalars b.cache_key)

-- what is not given selects everything
abbrev pub selects : Option String → String → Bool
selects none text = true
selects (some given) text = str_eq (strip text) (strip given)

-- `clear` is asked for the address.
abbrev pub is_selected : {S : Type 0} → Scope → Address S → Bool
is_selected scope a =
    selects scope.namespace a.namespace
    && selects scope.snapshot_id a.snapshot_id
    && selects scope.session_id a.session_id

excludes-selects :
    (given : Option String) (text : String) → excludes given (strip text) ≡ not (selects given text)
unfolding excludes
excludes-selects none text = refl
excludes-selects (some given) text = refl

is_kept-is_selected :
    {S : Type 0} (scalars : Scalars S) (scope : Scope) (a : Address S)
    → is_kept scope (build_slot scalars a) ≡ not (is_selected scope a)
unfolding is_kept build_slot
is_kept-is_selected scalars scope a = ground (
  arith,
  excludes-selects scope.namespace a.namespace,
  excludes-selects scope.snapshot_id a.snapshot_id,
  excludes-selects scope.session_id a.session_id,
)

module _ {S V : Type 0} (scalars : Scalars S) where
  unfoldable pub apply : Change S V → List (Slot S × V) → List (Slot S × V)
  unfolding set clear
  apply (set_at a v) cache = set scalars a v cache
  apply (clear_in scope) cache = clear scalars scope cache

  unfoldable pub apply_all : List (Change S V) → List (Slot S × V) → List (Slot S × V)
  unfolding apply
  apply_all [] cache = cache
  apply_all (c ∷ changes) cache = apply_all changes (apply c cache)

  -- the same changes, of a function: one address is updated, or a set of addresses is emptied
  abbrev pub changed : Change S V → Contents S V → Contents S V
  changed (set_at a v) f b = if is_same scalars a b then some v else f b
  changed (clear_in scope) f b = if is_selected scope b then none else f b

  abbrev pub changed_all : List (Change S V) → Contents S V → Contents S V
  changed_all [] f = f
  changed_all (c ∷ changes) f = changed_all changes (changed c f)

  -- The cache holds what the function says.
  abbrev pub Represents : List (Slot S × V) → Contents S V → Type 0
  Represents cache f = (b : Address S) → stored scalars (build_slot scalars b) cache ≡ f b

  module _ (equivalence : IsEquivalence scalars) where
    apply-Represents :
        (c : Change S V) (cache : List (Slot S × V)) (f : Contents S V)
        → Represents cache f
        → Represents (apply c cache) (changed c f)
    unfolding apply set
    apply-Represents (set_at a v) cache f h b =
        stored-store scalars equivalence (build_slot scalars a) (build_slot scalars b) v cache
        ∙ rw (h b) (unfold same_slot build_slot in refl)
    apply-Represents (clear_in scope) cache f h b =
        stored-clear scalars equivalence scope (build_slot scalars b) cache
        ∙ rw (h b, is_kept-is_selected scalars scope b) (if-not (is_selected scope b) (f b) none)

    apply_all-Represents :
        (changes : List (Change S V)) (cache : List (Slot S × V)) (f : Contents S V)
        → Represents cache f
        → Represents (apply_all changes cache) (changed_all changes f)
    unfolding apply_all
    apply_all-Represents [] cache f h = h
    apply_all-Represents (c ∷ changes) cache f h =
        apply_all-Represents changes (apply c cache) (changed c f) (apply-Represents c cache f h)

    -- After any changes to a new cache, `get` and `has` answer at every address as a function from
    -- addresses to values does that undergoes the same changes, if `==` on scalars is an equivalence:
    -- a `set` changes what is held where snapshot, session and namespace are the same but for blanks
    -- around them, and the normalised key is the same, and a `clear` empties the addresses at which
    -- each of the three that is given is the same, hence all of them if none is given.
    pub apply_all_refines :
        (changes : List (Change S V)) (a : Address S) (default : V)
        → (get scalars a default (apply_all changes [])
            ≡ or_else default (changed_all changes (λ _. none) a))
          × (has scalars a (apply_all changes []) ≡ is_some (changed_all changes (λ _. none) a))
    unfolding get has
    apply_all_refines changes a default =
        let e = apply_all-Represents changes [] (λ _. none) (λ t. unfold stored in refl) a in
        (ap (or_else default) e, ap is_some e)
