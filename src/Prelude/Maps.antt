-- ===== src/Prelude/Maps.antt =====
-- Go's `map[string]V` as an association list. Reading a missing key gives the zero value.
use mathlib.Core.Path.{◌≡◌}
use mathlib.Core.List.{List, [], ◌∷◌}
use mathlib.Core.Option.{Option, none, some}
use native.Mathlib.Omega.{arith}
use text.Mathlib.TextEquality.{eq_iff}
use Prim.Native.String.{String}
use text.Mathlib.Text.{◌==◌}
use replayor.Prelude.Tests.{if◌then◌else◌}

abbrev pub Dict {ℓ} : Type ℓ → Type ℓ
Dict V = List (String × V)

module _ {ℓ} {V : Type ℓ} where
  -- `m[wanted]`, with the `ok` of the two-valued form as the `Option`.
  unfoldable pub lookup : String → Dict V → Option V
  lookup wanted ((name, held) ∷ others) =
      let elsewhere = lookup wanted others in if wanted == name then some held else elsewhere
  lookup wanted [] = none

  -- `m[name] = given`: it takes the place of what the map held under the name.
  unfoldable pub insert : String → V → Dict V → Dict V
  insert name given (entry ∷ others) =
      let kept = entry ∷ insert name given others in
      if name == entry.0 then (name, given) ∷ others else kept
  insert name given [] = (name, given) ∷ []

  abbrev pub or_zero : Option V → V → V
  or_zero (some held) zero_value = held
  or_zero none zero_value = zero_value

  pub lookup-insert :
      (k j : String) (v : V) (m : Dict V)
      → lookup j (insert k v m) ≡ (if k == j then some v else lookup j m)
  unfolding lookup insert
  lookup-insert k j v ((i, w) ∷ m) =
      ground (arith, lookup-insert k j v m, eq_iff k j, eq_iff k i, eq_iff j i)
  lookup-insert k j v [] = ground (arith, eq_iff k j, eq_iff j k)
