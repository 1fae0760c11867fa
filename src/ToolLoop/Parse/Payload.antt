-- ===== src/ToolLoop/Parse/Payload.antt =====
-- What is made of a payload is what the response model makes of it, or of what it wraps.
use multiagents.Prelude.{
  str_eq_iff, ◌≡◌, refl, ◌⊎◌, inl, inr, Option, none, some, List, [], ◌∷◌, String,
}
use multiagents.Exec.{Result, ok, err}
use multiagents.Context.Messages.{
  Json, null, boolean, number, str, list, dict, JsonList, no_items, item, JsonDict, no_entries,
  entry, dict_get,
}
use multiagents.ToolLoop.Thinking.{wrapper_keys}
use multiagents.ToolLoop.Parse.{
  Raised, ResponseModel, validate_inner, inner_of, accepted_or, try_wrappers, or_direct, try_single,
  wrapped_or, unwrap, direct_or, validate_object, validate_list, validate_loaded_payload,
}

-- The value is the payload, or stands alone in the payload's list, or under a key of its dict.
pub data IsInside (value : Json) : Json → Type 0 where
  whole : IsInside value value
  alone : {v : Json} → IsInside value v → IsInside value (list (item v no_items))
  under : {d : JsonDict} (key : String) → dict_get key d ≡ some value → IsInside value (dict d)

module _ {M : Type 0} (model : ResponseModel M) where
  -- The response model made the result of the value, or of its text.
  abbrev pub Takes : Json → M → Type 0
  Takes value m =
      (model.model_validate value ≡ ok m)
      ⊎ ((text : String) × (value ≡ str text) × (model.model_validate_json text ≡ ok m))

  -- The response model made the result of the payload, or of what the payload wraps.
  abbrev pub IsMadeOf : Json → M → Type 0
  IsMadeOf payload m = (value : Json) × IsInside value payload × Takes value m

  abbrev pub Makes : {E : Type 0} → Json → Result E M → Type 0
  Makes payload (ok m) = IsMadeOf payload m
  Makes payload (err e) = Unit

  abbrev MakesIfAny : Json → Option (Result Raised M) → Type 0
  MakesIfAny payload none = Unit
  MakesIfAny payload (some r) = Makes payload r

  abbrev MakesFound : Json → Option M → Type 0
  MakesFound payload none = Unit
  MakesFound payload (some m) = IsMadeOf payload m

  of_value :
      (value payload : Json) (r : Result Raised M)
      → IsInside value payload
      → model.model_validate value ≡ r
      → Makes payload r
  of_value value payload (ok m) i e = (value, i, inl e)
  of_value value payload (err x) i e = tt

  of_text :
      (text : String) (payload : Json) (r : Result Raised M)
      → IsInside (str text) payload
      → model.model_validate_json text ≡ r
      → Makes payload r
  of_text text payload (ok m) i e = (str text, i, inr (text, refl, e))
  of_text text payload (err x) i e = tt

  validate_inner-Makes :
      (v payload : Json) → IsInside v payload → MakesIfAny payload (validate_inner model v)
  unfolding validate_inner
  validate_inner-Makes (str s) payload i = of_text s payload _ i refl
  validate_inner-Makes (dict d) payload i = of_value (dict d) payload _ i refl
  validate_inner-Makes (list l) payload i = of_value (list l) payload _ i refl
  validate_inner-Makes null payload i = tt
  validate_inner-Makes (boolean b) payload i = tt
  validate_inner-Makes (number n) payload i = tt

  inner_of-Makes :
      (key : String) (d : JsonDict) (o : Option Json)
      → dict_get key d ≡ o
      → MakesIfAny (dict d) (inner_of model o)
  unfolding inner_of
  inner_of-Makes key d none e = tt
  inner_of-Makes key d (some v) e = validate_inner-Makes v (dict d) (under key e)

  accepted_or-Makes :
      (payload : Json) (r : Option (Result Raised M)) (later : Option M)
      → MakesIfAny payload r
      → MakesFound payload later
      → MakesFound payload (accepted_or model r later)
  unfolding accepted_or
  accepted_or-Makes payload none later h k = k
  accepted_or-Makes payload (some (ok m)) later h k = h
  accepted_or-Makes payload (some (err e)) later h k = k

  try_wrappers-Makes :
      (keys : List String) (d : JsonDict) → MakesFound (dict d) (try_wrappers model keys d)
  unfolding try_wrappers
  try_wrappers-Makes [] d = tt
  try_wrappers-Makes (key ∷ keys) d =
      accepted_or-Makes (dict d) _ _ (inner_of-Makes key d (dict_get key d) refl)
        (try_wrappers-Makes keys d)

  or_direct-Makes :
      (payload : Json) (e : Raised) (r : Option (Result Raised M))
      → MakesIfAny payload r
      → Makes payload (or_direct model e r)
  unfolding or_direct
  or_direct-Makes payload e none h = tt
  or_direct-Makes payload e (some r) h = h

  single_entry : (k : String) (v : Json) → dict_get k (entry k v no_entries) ≡ some v
  unfolding dict_get
  single_entry k v = rw ((str_eq_iff k k).1 refl) refl

  try_single-Makes : (e : Raised) (d : JsonDict) → Makes (dict d) (try_single model e d)
  unfolding try_single
  try_single-Makes e no_entries = tt
  try_single-Makes e (entry k v no_entries) =
      or_direct-Makes (dict (entry k v no_entries)) e _
        (validate_inner-Makes v (dict (entry k v no_entries)) (under k (single_entry k v)))
  try_single-Makes e (entry k v (entry l w rest)) = tt

  wrapped_or-Makes :
      (e : Raised) (d : JsonDict) (o : Option M)
      → MakesFound (dict d) o
      → Makes (dict d) (wrapped_or model e d o)
  unfolding wrapped_or
  wrapped_or-Makes e d (some m) h = h
  wrapped_or-Makes e d none h = try_single-Makes e d

  unwrap-Makes : (e : Raised) (payload : Json) → Makes payload (unwrap model e payload)
  unfolding unwrap
  unwrap-Makes e (dict d) = wrapped_or-Makes e d _ (try_wrappers-Makes (wrapper_keys model.name) d)
  unwrap-Makes e (list l) = tt
  unwrap-Makes e null = tt
  unwrap-Makes e (boolean b) = tt
  unwrap-Makes e (number n) = tt
  unwrap-Makes e (str s) = tt

  direct_or-Makes :
      (payload : Json) (r : Result Raised M)
      → model.model_validate payload ≡ r
      → Makes payload (direct_or model payload r)
  unfolding direct_or
  direct_or-Makes payload (ok m) e = (payload, whole, inl e)
  direct_or-Makes payload (err x) e = unwrap-Makes x payload

  validate_object-Makes : (payload : Json) → Makes payload (validate_object model payload)
  unfolding validate_object
  validate_object-Makes payload = direct_or-Makes payload _ refl

  made_alone : (v : Json) (r : Result Raised M) → Makes v r → Makes (list (item v no_items)) r
  made_alone v (ok m) (value, i, t) = (value, alone i, t)
  made_alone v (err e) h = tt

  validate_list-Makes : (l : JsonList) → Makes (list l) (validate_list model l)
  unfolding validate_list
  validate_list-Makes no_items = tt
  validate_list-Makes (item (dict d) no_items) =
      made_alone (dict d) _ (validate_object-Makes (dict d))
  validate_list-Makes (item (str s) no_items) =
      of_text s (list (item (str s) no_items)) _ (alone whole) refl
  validate_list-Makes (item null no_items) = tt
  validate_list-Makes (item (boolean b) no_items) = tt
  validate_list-Makes (item (number n) no_items) = tt
  validate_list-Makes (item (list l) no_items) = tt
  validate_list-Makes (item (dict d) (item y rest)) = tt
  validate_list-Makes (item (str s) (item y rest)) = tt
  validate_list-Makes (item null (item y rest)) = tt
  validate_list-Makes (item (boolean b) (item y rest)) = tt
  validate_list-Makes (item (number n) (item y rest)) = tt
  validate_list-Makes (item (list l) (item y rest)) = tt

  pub validate_loaded-Makes :
      (payload : Json) → Makes payload (validate_loaded_payload model payload)
  unfolding validate_loaded_payload
  validate_loaded-Makes (list l) = validate_list-Makes l
  validate_loaded-Makes (dict d) = validate_object-Makes (dict d)
  validate_loaded-Makes null = validate_object-Makes null
  validate_loaded-Makes (boolean b) = validate_object-Makes (boolean b)
  validate_loaded-Makes (number n) = validate_object-Makes (number n)
  validate_loaded-Makes (str s) = validate_object-Makes (str s)
