-- ===== src/Common/Dict.antt =====
-- Go maps with string keys: association lists. A read of a missing key is `none`; a write replaces
-- the value of the key, or adds the key at the end.
use mathlib.Core.Path.{◌≡◌, refl}
use mathlib.Core.Bool.{Bool, true, false}
use mathlib.Core.Option.{Option, none, some}
use mathlib.Core.List.{List, [], ◌∷◌, map}
use native.Mathlib.Omega.{arith}
use mytonprovider_agent.Common.Tests.{if◌then◌else◌}
use mytonprovider_agent.Common.Keys.{Text, text_eq, text_eq_iff}

abbrev pub Dict {ℓ} : Type ℓ → Type ℓ
Dict V = List (Text × V)

module _ {ℓ} {V : Type ℓ} where
  unfoldable pub lookup : Text → Dict V → Option V
  lookup k [] = none
  lookup k ((j, v) ∷ m) = if text_eq j k then some v else lookup k m

  unfoldable pub insert : Text → V → Dict V → Dict V
  insert k v [] = (k, v) ∷ []
  insert k v ((j, w) ∷ m) = if text_eq j k then (k, v) ∷ m else (j, w) ∷ insert k v m

  pub lookup-insert :
      (k j : Text) (v : V) (m : Dict V)
      → lookup j (insert k v m) ≡ (if text_eq k j then some v else lookup j m)
  unfolding lookup insert
  lookup-insert k j v [] = refl
  lookup-insert k j v ((i, w) ∷ m) =
      ground (arith, text_eq_iff k j, text_eq_iff i k, text_eq_iff i j, lookup-insert k j v m)

-- `_, ok := m[k]`
abbrev pub has {ℓ} : {V : Type ℓ} → Text → Dict V → Bool
has k m = elim (lookup k m) [ none ↦ false | some v ↦ true ]

-- `m[k]` where a missing key reads as the zero value
abbrev pub get_or {ℓ} : {V : Type ℓ} → Text → V → Dict V → V
get_or k d m = elim (lookup k m) [ none ↦ d | some v ↦ v ]

abbrev pub keys {ℓ} : {V : Type ℓ} → Dict V → List Text
keys = map (λ e. e.0)
