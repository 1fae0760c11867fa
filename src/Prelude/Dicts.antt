-- ===== src/Prelude/Dicts.antt =====
-- Python's `dict` with strings as keys: a list of entries in the order of insertion.
use Prim.Native.String.{String}
use mathlib.Core.Path.{◌≡◌}
use mathlib.Core.List.{List, [], ◌∷◌}
use mathlib.Core.Option.{Option, none, some}
use mathlib.Core.Bool.{false}
use native.Mathlib.Omega.{arith}
use multiagents.Prelude.Tests.{if◌then◌else◌}
use multiagents.Prelude.Text.{str_eq, str_eq_iff}

-- `d.get(name, default)`
abbrev pub or_else {ℓ} : {A : Type ℓ} → A → Option A → A
or_else d none = d
or_else d (some a) = a

module _ {ℓ} {A : Type ℓ} where
  -- `d.get(name)`
  unfoldable pub lookup : String → List (String × A) → Option A
  lookup name [] = none
  lookup name ((k, v) ∷ rest) =
      let found = lookup name rest in if str_eq k name then some v else found

  -- `d[name] = v`
  unfoldable pub assign : String → A → List (String × A) → List (String × A)
  assign name v [] = (name, v) ∷ []
  assign name v ((k, w) ∷ rest) =
      let later = assign name v rest in if str_eq k name then (k, v) ∷ rest else (k, w) ∷ later

  pub lookup-assign :
      (name : String) (v : A) (d : List (String × A)) → lookup name (assign name v d) ≡ some v
  unfolding lookup assign
  lookup-assign name v [] = ground (arith, str_eq_iff name name)
  lookup-assign name v ((k, w) ∷ rest) =
      ground (arith, str_eq_iff k name, lookup-assign name v rest)

  pub lookup-assign_other :
      (name other : String) (v : A) (d : List (String × A))
      → str_eq name other ≡ false
      → lookup other (assign name v d) ≡ lookup other d
  unfolding lookup assign
  lookup-assign_other name other v [] h = ground (arith, h)
  lookup-assign_other name other v ((k, w) ∷ rest) h =
      ground (arith, str_eq_iff k name, h, lookup-assign_other name other v rest h)
