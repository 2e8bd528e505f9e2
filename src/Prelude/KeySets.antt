-- ===== src/Prelude/KeySets.antt =====
-- A Go map to `bool` of which only `true` is ever stored, as the list of its keys.
use mathlib.Core.Path.{◌≡◌, refl, ap}
use mathlib.Core.Bool.{Bool, true, false, not, ◌&&◌, ◌||◌}
use mathlib.Core.List.{List, [], ◌∷◌, ◌++◌}
use native.Mathlib.Omega.{arith}
use milkyway_liluo_idle.Prelude.Tests.{if◌then◌else◌}
use milkyway_liluo_idle.Prelude.Keys.{Eq, ◌=?◌, eq_left, eq_right, eq_of_eq}

module _ {ℓ} {K : Type ℓ} ⦃e : Eq K⦄ where
  unfoldable pub member : K → List K → Bool
  member k [] = false
  member k (j ∷ s) = (j =? k) || member k s

  unfoldable pub include : K → List K → List K
  unfolding member
  include k s = if member k s then s else k ∷ s

  unfoldable pub exclude : K → List K → List K
  exclude k [] = []
  exclude k (j ∷ s) = let rest = exclude k s in if j =? k then rest else j ∷ rest

  member_eq : (k j : K) (s : List K) → (k =? j) ≡ true → member k s ≡ member j s
  member_eq k j s p = ap (λ (x : K). member x s) (eq_of_eq k j p)

  pub member-include : (k j : K) (s : List K) → member j (include k s) ≡ ((k =? j) || member j s)
  unfolding include member
  member-include k j s = ground (arith, member_eq k j s)

  pub member-exclude :
      (k j : K) (s : List K) → member j (exclude k s) ≡ (not (k =? j) && member j s)
  unfolding member exclude
  member-exclude k j [] = ground arith
  member-exclude k j (i ∷ s) = ground (arith, member-exclude k j s, eq_left i k j, eq_right k j i)

  pub member-append : (k : K) (xs ys : List K) → member k (xs ++ ys) ≡ (member k xs || member k ys)
  unfolding member
  member-append k [] ys = refl
  member-append k (x ∷ xs) ys = ground (arith, member-append k xs ys)
