-- ===== src/Context/Cache.antt =====
-- src/shared/runtime/core/cache.py: `RuntimeCache`. The scalars of a key (None, texts, numbers and truth
-- values) and Python's `==` on them are arguments. Values do not change, so a deep copy is the value.
pub mod Refines
use Prim.Native.Nat.{Ordering}
use Prim.Native.String.{compare}
use multiagents.Prelude.{
  Bool, true, false, not, ◌&&◌, ◌||◌, Option, none, some, List, [], ◌∷◌, String, str_eq, strip,
  or_else, if◌then◌else◌, ◌≡◌,
}

-- Python's `==` on scalars, and a text as a scalar.
pub record Scalars (S : Type 0) : Type 0 where
  pub same : S → S → Bool
  pub of_text : String → S

-- What `==` is documented to be on them.
pub record IsEquivalence {S : Type 0} (scalars : Scalars S) : Type 0 where
  pub same_refl : (a : S) → scalars.same a a ≡ true
  pub same_euclid : (a b c : S) → scalars.same a b ≡ true → scalars.same a c ≡ scalars.same b c

module _ (S : Type 0) where
  -- What is given as a key; `other` is anything else, by its `str`. A dict has the `str` of its keys.
  mutual
    pub data CacheKey : Type 0 where
      scalar : S → CacheKey
      sequence : KeyItems → CacheKey
      mapping : KeyEntries → CacheKey
      other : String → CacheKey

    pub data KeyItems : Type 0 where
      no_items : KeyItems
      item : CacheKey → KeyItems → KeyItems

    pub data KeyEntries : Type 0 where
      no_entries : KeyEntries
      entry : String → CacheKey → KeyEntries → KeyEntries

  -- A normalised key: a scalar, or a tuple as its first item and the rest of it.
  pub data Key : Type 0 where
    atom : S → Key
    empty : Key
    pair : Key → Key → Key

-- Python's order of texts
abbrev precedes : String → String → Bool
precedes s t = elim (compare s t) [ Ordering.lt ↦ true | _ ↦ false ]

module _ {S : Type 0} (scalars : Scalars S) where
  -- `sorted` on pairs with different first components
  unfoldable pub insert_entry : String → Key S → List (String × Key S) → List (String × Key S)
  insert_entry k v [] = (k, v) ∷ []
  insert_entry k v ((l, w) ∷ rest) =
      let later = insert_entry k v rest in
      if precedes l k then (l, w) ∷ later else (k, v) ∷ (l, w) ∷ rest

  unfoldable pub tuple_of : List (String × Key S) → Key S
  tuple_of [] = empty
  tuple_of ((k, v) ∷ rest) = pair (pair (atom (scalars.of_text k)) (pair v empty)) (tuple_of rest)

  unfoldable mutual
    unfolding insert_entry tuple_of

    pub normalize_key : CacheKey S → Key S
    normalize_key (scalar a) = atom a
    normalize_key (sequence items) = normalize_items items
    normalize_key (mapping entries) = tuple_of (sorted_entries entries)
    normalize_key (other s) = atom (scalars.of_text s)

    pub normalize_items : KeyItems S → Key S
    normalize_items no_items = empty
    normalize_items (item x rest) = pair (normalize_key x) (normalize_items rest)

    pub sorted_entries : KeyEntries S → List (String × Key S)
    sorted_entries no_entries = []
    sorted_entries (entry k v rest) = insert_entry k (normalize_key v) (sorted_entries rest)

  -- `==` on normalised keys
  unfoldable pub same_key : Key S → Key S → Bool
  same_key (atom a) (atom b) = scalars.same a b
  same_key empty empty = true
  same_key (pair a s) (pair b t) = same_key a b && same_key s t
  same_key (atom a) empty = false
  same_key (atom a) (pair b t) = false
  same_key empty (atom b) = false
  same_key empty (pair b t) = false
  same_key (pair a s) (atom b) = false
  same_key (pair a s) empty = false

-- The 5-tuple of a value; all slots of a cache have its agent's name.
pub record Slot (S : Type 0) : Type 0 where
  pub snapshot_id : String
  pub session_id : String
  pub namespace : String
  pub key : Key S

-- The arguments that name a slot.
pub record Address (S : Type 0) : Type 0 where
  pub namespace : String
  pub cache_key : CacheKey S
  pub snapshot_id : String
  pub session_id : String

-- The arguments of `clear`.
pub record Scope : Type 0 where
  pub namespace : Option String
  pub snapshot_id : Option String
  pub session_id : Option String

abbrev pub is_some {ℓ} : {A : Type ℓ} → Option A → Bool
is_some none = false
is_some (some a) = true

abbrev pub is_none : Option String → Bool
is_none none = true
is_none (some s) = false

-- `normalized is not None and text != normalized`
unfoldable pub excludes : Option String → String → Bool
unfolding strip
excludes none text = false
excludes (some given) text = not (str_eq text (strip given))

-- a slot that `clear` leaves
unfoldable pub is_kept : {S : Type 0} → Scope → Slot S → Bool
unfolding excludes
is_kept scope slot =
    excludes scope.namespace slot.namespace
    || excludes scope.snapshot_id slot.snapshot_id
    || excludes scope.session_id slot.session_id

module _ {S : Type 0} (scalars : Scalars S) where
  unfoldable pub build_slot : Address S → Slot S
  unfolding strip normalize_key
  build_slot a = record {
    snapshot_id = strip a.snapshot_id;
    session_id = strip a.session_id;
    namespace = strip a.namespace;
    key = normalize_key scalars a.cache_key;
  }

  unfoldable pub same_slot : Slot S → Slot S → Bool
  unfolding same_key
  same_slot s t =
      str_eq s.snapshot_id t.snapshot_id
      && str_eq s.session_id t.session_id
      && str_eq s.namespace t.namespace
      && same_key scalars s.key t.key

module _ {S V : Type 0} (scalars : Scalars S) where
  -- the dict of a cache: `slot in d`, `d[slot]` and `d[slot] = v`
  unfoldable pub stored : Slot S → List (Slot S × V) → Option V
  unfolding same_slot
  stored slot [] = none
  stored slot ((s, v) ∷ rest) =
      let found = stored slot rest in if same_slot scalars s slot then some v else found

  unfoldable pub store : Slot S → V → List (Slot S × V) → List (Slot S × V)
  unfolding same_slot
  store slot v [] = (slot, v) ∷ []
  store slot v ((s, w) ∷ rest) =
      let later = store slot v rest in
      if same_slot scalars s slot then (s, v) ∷ rest else (s, w) ∷ later

  unfoldable pub set : Address S → V → List (Slot S × V) → List (Slot S × V)
  unfolding build_slot store
  set a v cache = store (build_slot scalars a) v cache

  -- `get` with its default
  unfoldable pub get : Address S → V → List (Slot S × V) → V
  unfolding build_slot stored
  get a default cache = or_else default (stored (build_slot scalars a) cache)

  unfoldable pub has : Address S → List (Slot S × V) → Bool
  unfolding build_slot stored
  has a cache = is_some (stored (build_slot scalars a) cache)

  -- the loop that fills `remaining`
  unfoldable pub remaining : Scope → List (Slot S × V) → List (Slot S × V)
  unfolding is_kept
  remaining scope [] = []
  remaining scope ((s, v) ∷ rest) =
      let later = remaining scope rest in if is_kept scope s then (s, v) ∷ later else later

  unfoldable pub clear : Scope → List (Slot S × V) → List (Slot S × V)
  unfolding remaining
  clear scope cache =
      if is_none scope.namespace && is_none scope.snapshot_id && is_none scope.session_id
      then []
      else remaining scope cache
