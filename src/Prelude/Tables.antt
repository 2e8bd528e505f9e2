-- ===== src/Prelude/Tables.antt =====
-- A Go map as an association list. An iteration over a map in Go visits the entries in any order;
-- here it visits them in the order of the list, and a theorem for every list holds for every order.
use mathlib.Core.Path.{◌≡◌, refl}
use mathlib.Core.Option.{Option, none, some}
use mathlib.Core.List.{List, [], ◌∷◌}
use native.Mathlib.Omega.{arith}
use milkyway_liluo_idle.Prelude.Tests.{if◌then◌else◌}
use milkyway_liluo_idle.Prelude.Keys.{Eq, ◌=?◌, eq_refl, eq_left, eq_right}

abbrev pub Table {ℓ} : Type ℓ → Type ℓ → Type ℓ
Table K V = List (K × V)

module _ {ℓ} {K V : Type ℓ} ⦃e : Eq K⦄ where
  unfoldable pub lookup : K → Table K V → Option V
  lookup k [] = none
  lookup k ((j, v) ∷ m) = if j =? k then some v else lookup k m

  unfoldable pub insert : K → V → Table K V → Table K V
  insert k v [] = (k, v) ∷ []
  insert k v ((j, w) ∷ m) = if j =? k then (k, v) ∷ m else (j, w) ∷ insert k v m

  unfoldable pub delete : K → Table K V → Table K V
  delete k [] = []
  delete k ((j, w) ∷ m) = let rest = delete k m in if j =? k then rest else (j, w) ∷ rest

  pub lookup-insert :
      (k j : K) (v : V) (m : Table K V)
      → lookup j (insert k v m) ≡ (if k =? j then some v else lookup j m)
  unfolding lookup insert
  lookup-insert k j v [] = refl
  lookup-insert k j v ((i, w) ∷ m) =
      ground (arith, lookup-insert k j v m, eq_left i k j, eq_right k j i)

  pub lookup-delete :
      (k j : K) (m : Table K V) → lookup j (delete k m) ≡ (if k =? j then none else lookup j m)
  unfolding lookup delete
  lookup-delete k j [] = ground arith
  lookup-delete k j ((i, w) ∷ m) =
      ground (arith, lookup-delete k j m, eq_left i k j, eq_right k j i)

  pub lookup-insert_self : (k : K) (v : V) (m : Table K V) → lookup k (insert k v m) ≡ some v
  lookup-insert_self k v m = rw (lookup-insert k k v m, eq_refl k)

  pub lookup-delete_self : (k : K) (m : Table K V) → lookup k (delete k m) ≡ none
  lookup-delete_self k m = rw (lookup-delete k k m, eq_refl k)
