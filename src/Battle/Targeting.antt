-- ===== src/Battle/Targeting.antt =====
-- The player that an enemy attacks (backend/internal/battle/targeting.go), and the group of enemies of
-- a wave (pickWeightedCombination and chooseWaveType of backend/internal/battle/wave.go and
-- session.go).
use milkyway_liluo_idle.Prelude.{
  ℕ, suc, ◌<◌, ◌%◌, ◌≡◌, refl, if◌then◌else◌, Option, none, some, List, [], ◌∷◌, ℤ, String, Table,
  lookup, or_zero, length, get_elem?, Bool-cases, inl, inr, arith, int_eq, if_rule, split_at,
}
use milkyway_liluo_idle.Float.{Float, ◌⊕◌, ◌⊖◌, ◌⊗◌, ◌<?◌, ◌≤?◌, nought, one, fmax}
use milkyway_liluo_idle.Battle.{Entity, Attributes, Random, final}

-- `EnemyWaveCombination`
pub record WaveCombination (F : Type 0) : Type 0 where
  pub enemies : List String
  pub weight : F

module _ {A F : Type 0} ⦃f : Float F⦄ (attrs : Attributes A F) where
  -- `computeTargetWeight`
  unfoldable pub compute_target_weight : Table ℤ F → Entity A F → F
  unfolding lookup or_zero
  compute_target_weight enemy_hate p =
      let hate = or_zero nought (lookup p.entity_id enemy_hate) in
      let hatred = final attrs (λ ids. ids.hatred) p in
      let raw = final attrs (λ ids. ids.hatred_multiplier) p in
      let mult = (if raw <? nought then nought else raw) in hate ⊕ (one ⊕ hatred ⊗ (one ⊕ mult))

  -- `total += w.weight`
  unfoldable pub total_weight : Table ℤ F → List (Entity A F) → F → F
  unfolding compute_target_weight
  total_weight hate [] total = total
  total_weight hate (p ∷ ps) total = total_weight hate ps (total ⊕ compute_target_weight hate p)

  -- The weighted selection: the first candidate at which the roll is used up, or the last one.
  unfoldable pub select : Table ℤ F → Entity A F → List (Entity A F) → F → Entity A F
  unfolding compute_target_weight
  select hate p [] r = p
  select hate p (q ∷ ps) r =
      let r' = r ⊖ compute_target_weight hate p in
      let rest = select hate q ps r' in if r' ≤? nought then p else rest

  unfoldable pub choose_among :
      {R : Type 0}
      → Random R F
      → Table ℤ F
      → Entity A F
      → List (Entity A F)
      → R
      → Option (Entity A F) × R
  unfolding total_weight select
  choose_among rng hate p ps r =
      let total = total_weight hate (p ∷ ps) nought in
      if total ≤? nought
      then (let pick = rng.intn (length (p ∷ ps)) r in (get_elem? (p ∷ ps) pick.0, pick.1))
      else (let roll = rng.float64 r in (some (select hate p ps (roll.0 ⊗ total)), roll.1))

  -- `chooseEnemyTarget`, with the hate of the enemy
  unfoldable pub choose_enemy_target :
      {R : Type 0} → Random R F → Table ℤ F → List (Entity A F) → R → Option (Entity A F) × R
  unfolding choose_among
  choose_enemy_target rng hate [] r = (none, r)
  choose_enemy_target rng hate (p ∷ []) r = (some p, r)
  choose_enemy_target rng hate (p ∷ q ∷ ps) r = choose_among rng hate p (q ∷ ps) r

module _ {F : Type 0} ⦃f : Float F⦄ where
  unfoldable pub combination_total : List (WaveCombination F) → F → F
  combination_total [] total = total
  combination_total (c ∷ cs) total = combination_total cs (total ⊕ fmax nought c.weight)

  unfoldable pub combination_at :
      F → WaveCombination F → List (WaveCombination F) → F → WaveCombination F
  combination_at roll c [] accum = c
  combination_at roll c (d ∷ cs) accum =
      let accum' = accum ⊕ fmax nought c.weight in
      let rest = combination_at roll d cs accum' in if roll ≤? accum' then c else rest

  -- `pickWeightedCombination`
  unfoldable pub pick_weighted_combination :
      {R : Type 0} → Random R F → List (WaveCombination F) → R → Option (WaveCombination F) × R
  unfolding combination_total combination_at
  pick_weighted_combination rng [] r = (none, r)
  pick_weighted_combination rng (c ∷ cs) r =
      let total = combination_total (c ∷ cs) nought in
      if total ≤? nought
      then (some c, r)
      else (let roll = rng.float64 r in
          (some (combination_at (roll.0 ⊗ total) c cs nought), roll.1))

-- `chooseWaveType`, on the number of the wave
unfoldable pub choose_wave_type : List String → ℕ → Option String
choose_wave_type [] wave = some "weak"
choose_wave_type (t ∷ loop) wave = get_elem? (t ∷ loop) (wave % length (t ∷ loop))

-- The element is in the list.
abbrev pub IsIn {ℓ} : {A : Type ℓ} → A → List A → Type ℓ
IsIn x xs = (i : ℕ) × (get_elem? xs i ≡ some x)

-- `Intn` answers below its bound, which is positive.
abbrev pub IsBelow : {R F : Type 0} → Random R F → Type 0
IsBelow {R} rng = (n : ℕ) (r : R) → 0 < n → (rng.intn n r).0 < n

module _ {A F : Type 0} ⦃f : Float F⦄ (attrs : Attributes A F) where
  select-IsIn :
      (hate : Table ℤ F) (p : Entity A F) (ps : List (Entity A F)) (r : F)
      → IsIn (select attrs hate p ps r) (p ∷ ps)
  unfolding select
  select-IsIn hate p [] r = (0, refl)
  select-IsIn hate p (q ∷ ps) r =
      let r' = r ⊖ compute_target_weight attrs hate p in
      let rest = select-IsIn hate q ps r' in
      if_rule (λ t. IsIn t (p ∷ q ∷ ps)) (r' ≤? nought) (0, refl) (suc rest.0, rest.1)

  -- If `Intn` answers below its bound, an enemy with candidates attacks one of them, whatever the hate,
  -- the attributes and the random numbers.
  pub choose_enemy_target-IsIn :
      {R : Type 0} (rng : Random R F) (hate : Table ℤ F) (ps : List (Entity A F)) (r : R)
      → IsBelow rng
      → 0 < length ps
      → (t : Entity A F) × (((choose_enemy_target attrs rng hate ps r).0 ≡ some t) × IsIn t ps)
  unfolding choose_enemy_target choose_among
  choose_enemy_target-IsIn rng hate [] r b h = absurd (omega (arith, h))
  choose_enemy_target-IsIn rng hate (p ∷ []) r b h = (p, (refl, (0, refl)))
  choose_enemy_target-IsIn rng hate (p ∷ q ∷ ps) r b h =
      let total = total_weight attrs hate (p ∷ q ∷ ps) nought in
      elim (Bool-cases (total ≤? nought)) [
        | inl e ↦
            (let n = length (p ∷ q ∷ ps) in
              let at = split_at (rng.intn n r).0 (p ∷ q ∷ ps) (b n r (omega arith)) in
              (at.0, (rw (e) at.1, ((rng.intn n r).0, at.1))))
        | inr e ↦
            (let roll = (rng.float64 r).0 ⊗ total in
              (select attrs hate p (q ∷ ps) roll, (rw (e) refl, select-IsIn hate p (q ∷ ps) roll)))
      ]
