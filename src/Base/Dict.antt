-- ===== src/Base/Dict.antt =====
-- A Go map with string keys as an association list; the first entry of a key counts.
use observant_agent.Base.Tests.{if◌then◌else◌}
use observant_agent.Base.Text.{Bytes, bytes_eq, bytes_eq_iff}
use mathlib.Core.Bool.{Bool}
use mathlib.Core.List.{List, [], ◌∷◌}
use mathlib.Core.Option.{Option, none, some}
use mathlib.Core.Path.{◌≡◌, refl}
use native.Mathlib.Omega.{arith}

module _ {ℓ} {V : Type ℓ} where
  -- `v, ok := m[k]`.
  unfoldable pub lookup : Bytes → List (Bytes × V) → Option V
  lookup k [] = none
  lookup k ((j, v) ∷ m) = if bytes_eq j k then some v else lookup k m

  -- `m[k] = v`.
  unfoldable pub insert : Bytes → V → List (Bytes × V) → List (Bytes × V)
  insert k v [] = (k, v) ∷ []
  insert k v ((j, w) ∷ m) = if bytes_eq j k then (k, v) ∷ m else (j, w) ∷ insert k v m

  -- `for k := range m { if !keep[k] { delete(m, k) } }`.
  unfoldable pub retain : (Bytes → Bool) → List (Bytes × V) → List (Bytes × V)
  retain p [] = []
  retain p ((j, v) ∷ m) = if p j then (j, v) ∷ retain p m else retain p m

  pub lookup-insert :
      (k j : Bytes) (v : V) (m : List (Bytes × V))
      → lookup j (insert k v m) ≡ (if bytes_eq k j then some v else lookup j m)
  unfolding lookup insert
  lookup-insert k j v [] = refl
  lookup-insert k j v ((i, w) ∷ m) =
      ground (arith, bytes_eq_iff k j, bytes_eq_iff i k, bytes_eq_iff i j, lookup-insert k j v m)

  pub lookup-retain :
      (p : Bytes → Bool) (k : Bytes) (m : List (Bytes × V))
      → lookup k (retain p m) ≡ (if p k then lookup k m else none)
  unfolding lookup retain
  lookup-retain p k [] = ground arith
  lookup-retain p k ((j, v) ∷ m) = ground (arith, bytes_eq_iff j k, lookup-retain p k m)
