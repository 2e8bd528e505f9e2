-- ===== src/Battle/Membership.antt =====
-- Membership in a list, by the place of an element.
use milkyway_liluo_idle.Prelude.{zero, suc, refl, subst, List, [], ◌∷◌, ◌++◌, All, ◌⊎◌, inl, inr}
use milkyway_liluo_idle.Battle.Targeting.{IsIn}

module _ {ℓ κ} {A : Type ℓ} (P : A → Type κ) where
  pub IsIn-All : (xs : List A) (x : A) → IsIn x xs → All P xs → P x
  IsIn-All [] x (i, at) h = absurd (cc at)
  IsIn-All (y ∷ xs) x (zero, at) h = subst P (cc at) h.0
  IsIn-All (y ∷ xs) x (suc i, at) h = IsIn-All xs x (i, at) h.1

  pub All-IsIn : (xs : List A) → ((x : A) → IsIn x xs → P x) → All P xs
  All-IsIn [] h = tt
  All-IsIn (x ∷ xs) h = (h x (0, refl), All-IsIn xs λ y (i, at). h y (suc i, at))

module _ {ℓ} {A : Type ℓ} where
  pub IsIn-left : (x : A) (xs ys : List A) → IsIn x xs → IsIn x (xs ++ ys)
  IsIn-left x [] ys (i, at) = absurd (cc at)
  IsIn-left x (y ∷ xs) ys (zero, at) = (0, at)
  IsIn-left x (y ∷ xs) ys (suc i, at) = let (j, at') = IsIn-left x xs ys (i, at) in (suc j, at')

  pub IsIn-right : (x : A) (xs ys : List A) → IsIn x ys → IsIn x (xs ++ ys)
  IsIn-right x [] ys h = h
  IsIn-right x (y ∷ xs) ys h = let (j, at) = IsIn-right x xs ys h in (suc j, at)

  pub IsIn-append : (x : A) (xs ys : List A) → IsIn x (xs ++ ys) → IsIn x xs ⊎ IsIn x ys
  IsIn-append x [] ys h = inr h
  IsIn-append x (y ∷ xs) ys (zero, at) = inl (0, at)
  IsIn-append x (y ∷ xs) ys (suc i, at) = elim (IsIn-append x xs ys (i, at)) [
    | inl (j, at') ↦ inl (suc j, at')
    | inr h ↦ inr h
  ]
