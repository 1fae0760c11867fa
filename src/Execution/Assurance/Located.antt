-- ===== src/Execution/Assurance/Located.antt =====
-- The flow of a snapshot that `AssuranceEvaluator.evaluate` finds.
use multiagents.Prelude.{
  ◌≡◌, refl, inl, inr, Bool-cases, Option, none, some, String, str_eq_iff, arith,
}
use multiagents.Exec.{Result, ok, err}
use multiagents.Context.Messages.{
  Json, null, boolean, number, str, list, dict, JsonList, no_items, item, JsonDict, dict_get,
}
use multiagents.Execution.Measurement.{Floats}
use multiagents.Execution.Assurance.{
  EvaluationError, items_of, owner_of, id_of, is_flow_of, find_flow, find_in, find_in_apps,
}

-- The dict is one of the items.
pub data IsItem (d : JsonDict) : JsonList → Type 0 where
  first : {rest : JsonList} → IsItem d (item (dict d) rest)
  later : {v : Json} {rest : JsonList} → IsItem d rest → IsItem d (item v rest)

module _ {F : Type 0} (floats : Floats F) where
  module _ (supi flow_id : String) where
    -- The flow stands with an app of the snapshot, and the identifier and the subscriber are its own.
    pub record IsLocated (apps : JsonList) (flow : JsonDict) : Type 0 where
      pub app : JsonDict
      pub flows : JsonList
      pub app_listed : IsItem app apps
      pub flows_of_app : items_of (dict_get "flows" app) ≡ ok flows
      pub flow_listed : IsItem flow flows
      pub same_owner : owner_of floats app flow ≡ supi
      pub same_id : id_of floats flow ≡ flow_id

    abbrev Found : JsonDict → JsonList → Option JsonDict → Type 0
    Found app flows none = Unit
    Found app flows (some flow) =
        IsItem flow flows × (owner_of floats app flow ≡ supi) × (id_of floats flow ≡ flow_id)

    Found-later :
        (app : JsonDict) (v : Json) (rest : JsonList) (f : Option JsonDict)
        → Found app rest f
        → Found app (item v rest) f
    Found-later app v rest none h = tt
    Found-later app v rest (some flow) (listed, owner, id) = (later listed, owner, id)

    find_flow-Found :
        (app : JsonDict) (flows : JsonList)
        → Found app flows (find_flow floats supi flow_id app flows)
    unfolding find_flow
    find_flow-Found app no_items = tt
    find_flow-Found app (item (dict flow) rest) =
        elim (Bool-cases (is_flow_of floats supi flow_id app flow)) [
          | inl its ↦ rw its (
            first,
            (str_eq_iff (owner_of floats app flow) supi).0 (ground (arith, its)),
            (str_eq_iff (id_of floats flow) flow_id).0 (ground (arith, its)),
          )
          | inr other ↦ rw other (Found-later app (dict flow) rest _ (find_flow-Found app rest))
        ]
    find_flow-Found app (item null rest) = Found-later app null rest _ (find_flow-Found app rest)
    find_flow-Found app (item (boolean b) rest) =
        Found-later app (boolean b) rest _ (find_flow-Found app rest)
    find_flow-Found app (item (number n) rest) =
        Found-later app (number n) rest _ (find_flow-Found app rest)
    find_flow-Found app (item (str s) rest) =
        Found-later app (str s) rest _ (find_flow-Found app rest)
    find_flow-Found app (item (list l) rest) =
        Found-later app (list l) rest _ (find_flow-Found app rest)

    abbrev pub Locates : JsonList → Result EvaluationError (Option JsonDict) → Type 0
    Locates apps (ok (some flow)) = IsLocated apps flow
    Locates apps _ = Unit

    Locates-later :
        (v : Json) (apps : JsonList) (r : Result EvaluationError (Option JsonDict))
        → Locates apps r
        → Locates (item v apps) r
    Locates-later v apps (ok none) h = tt
    Locates-later v apps (err e) h = tt
    Locates-later v apps (ok (some flow)) h = record {
      app = h.app;
      flows = h.flows;
      app_listed = later h.app_listed;
      flows_of_app = h.flows_of_app;
      flow_listed = h.flow_listed;
      same_owner = h.same_owner;
      same_id = h.same_id;
    }

    find_in-Locates :
        (app : JsonDict) (rest : JsonList) (flows : Result EvaluationError JsonList)
        (next : Result EvaluationError (Option JsonDict))
        → items_of (dict_get "flows" app) ≡ flows
        → Locates rest next
        → Locates (item (dict app) rest) (find_in floats supi flow_id app flows next)
    find_in-Locates app rest (err e) next at h = tt
    find_in-Locates app rest (ok flows) next at h =
        located (find_flow floats supi flow_id app flows) (find_flow-Found app flows)
      where
        located :
            (f : Option JsonDict)
            → Found app flows f
            → Locates (item (dict app) rest) (elim f [ some flow ↦ ok (some flow) | none ↦ next ])
        located none found = Locates-later (dict app) rest next h
        located (some flow) (listed, owner, id) = record {
          app = app;
          flows = flows;
          app_listed = first;
          flows_of_app = at;
          flow_listed = listed;
          same_owner = owner;
          same_id = id;
        }

    pub find_in_apps-Locates :
        (apps : JsonList) → Locates apps (find_in_apps floats supi flow_id apps)
    unfolding find_in_apps
    find_in_apps-Locates no_items = tt
    find_in_apps-Locates (item (dict app) rest) =
        find_in-Locates app rest (items_of (dict_get "flows" app)) _ refl
          (find_in_apps-Locates rest)
    find_in_apps-Locates (item null rest) = Locates-later null rest _ (find_in_apps-Locates rest)
    find_in_apps-Locates (item (boolean b) rest) =
        Locates-later (boolean b) rest _ (find_in_apps-Locates rest)
    find_in_apps-Locates (item (number n) rest) =
        Locates-later (number n) rest _ (find_in_apps-Locates rest)
    find_in_apps-Locates (item (str s) rest) =
        Locates-later (str s) rest _ (find_in_apps-Locates rest)
    find_in_apps-Locates (item (list l) rest) =
        Locates-later (list l) rest _ (find_in_apps-Locates rest)
