-- ===== src/Prelude/Dict.antt =====
-- A Go `map[string]V` as an association list. Go's iteration order is unspecified: the order of
-- the list stands for one such order, and what is proved of a walk does not depend on it.
use Prim.Native.String.{String}
use mathlib.Core.Path.{◌≡◌, refl}
use mathlib.Core.Option.{Option, none, some}
use mathlib.Core.List.{List, [], ◌∷◌}
use native.Mathlib.Omega.{arith}
use text.Mathlib.Text.{◌==◌}
use text.Mathlib.TextEquality.{eq_iff}
use text.Mathlib.TextPositions.{eq_refl}
use muto.Prelude.Tests.{if◌then◌else◌}

abbrev pub Dict {ℓ} : Type ℓ → Type ℓ
Dict V = List (String × V)

module _ {ℓ} {V : Type ℓ} where
  unfoldable pub lookup : String → Dict V → Option V
  lookup k [] = none
  lookup k ((key, value) ∷ rest) = if key == k then some value else lookup k rest

  -- `delete(m, k)`: every entry of the key goes.
  unfoldable pub delete : String → Dict V → Dict V
  delete k [] = []
  delete k (entry ∷ rest) =
      let others = delete k rest in if entry.0 == k then others else entry ∷ others

  -- `m[k] = v`: the entry of the key is replaced, or a new one stands last.
  unfoldable pub insert : String → V → Dict V → Dict V
  insert k v [] = (k, v) ∷ []
  insert k v (entry ∷ rest) = if entry.0 == k then (k, v) ∷ rest else entry ∷ insert k v rest

  pub lookup-delete :
      (k j : String) (m : Dict V) → lookup j (delete k m) ≡ (if k == j then none else lookup j m)
  unfolding lookup delete
  lookup-delete k j [] = ground arith
  lookup-delete k j ((key, value) ∷ rest) =
      ground (arith, lookup-delete k j rest, eq_iff key k, eq_iff key j, eq_iff k j)

  pub lookup-insert :
      (k j : String) (v : V) (m : Dict V)
      → lookup j (insert k v m) ≡ (if k == j then some v else lookup j m)
  unfolding lookup insert
  lookup-insert k j v [] = refl
  lookup-insert k j v ((key, value) ∷ rest) =
      ground (arith, lookup-insert k j v rest, eq_iff key k, eq_iff key j, eq_iff k j)

  pub lookup-insert_self : (k : String) (v : V) (m : Dict V) → lookup k (insert k v m) ≡ some v
  lookup-insert_self k v m = simp (lookup-insert, eq_refl)

pub ruleset dict_laws = (lookup-insert, lookup-delete, eq_refl)
