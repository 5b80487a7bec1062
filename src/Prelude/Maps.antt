-- ===== src/Prelude/Maps.antt =====
-- Go's maps with string keys, as association lists without a second entry for a key.
use mathlib.Core.Path.{◌≡◌, refl}
use mathlib.Core.Option.{Option, none, some}
use mathlib.Core.List.{List, [], ◌∷◌}
use native.Mathlib.Omega.{arith}
use ppgram.Prelude.Tests.{GoString, ◌=s=◌, str_eq_iff, if◌then◌else◌}

module _ {ℓ} {V : Type ℓ} where
  -- `v, ok := m[k]`
  unfoldable pub lookup : GoString → List (GoString × V) → Option V
  lookup k [] = none
  lookup k ((j, v) ∷ m) = if j =s= k then some v else lookup k m

  -- `m[k] = v`
  unfoldable pub insert : GoString → V → List (GoString × V) → List (GoString × V)
  insert k v [] = (k, v) ∷ []
  insert k v ((j, w) ∷ m) = let rest = insert k v m in if j =s= k then (k, v) ∷ m else (j, w) ∷ rest

  -- `delete(m, k)`
  unfoldable pub remove : GoString → List (GoString × V) → List (GoString × V)
  remove k [] = []
  remove k ((j, w) ∷ m) = let rest = remove k m in if j =s= k then rest else (j, w) ∷ rest

  pub lookup-insert :
      (k j : GoString) (v : V) (m : List (GoString × V))
      → lookup j (insert k v m) ≡ (if k =s= j then some v else lookup j m)
  unfolding lookup insert
  lookup-insert k j v [] = refl
  lookup-insert k j v ((i, w) ∷ m) =
      ground (arith, str_eq_iff k j, str_eq_iff i k, str_eq_iff i j, lookup-insert k j v m)

  pub lookup-remove :
      (k j : GoString) (m : List (GoString × V))
      → lookup j (remove k m) ≡ (if k =s= j then none else lookup j m)
  unfolding lookup remove
  lookup-remove k j [] = ground arith
  lookup-remove k j ((i, w) ∷ m) =
      ground (arith, lookup-remove k j m, str_eq_iff i k, str_eq_iff i j, str_eq_iff k j)

pub ruleset map_laws = (lookup-insert, lookup-remove)
