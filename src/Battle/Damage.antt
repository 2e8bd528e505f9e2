-- ===== src/Battle/Damage.antt =====
-- The damage of an attack (backend/internal/battle/damage.go).
use mathlib.Core.Bool.{false≢true}
use milkyway_liluo_idle.Prelude.{
  ◌≡◌, refl, Bool, true, false, if◌then◌else◌, none, some, String, ◌=?◌, string_eq, Option-cases,
  if_rule, inl, inr,
}
use milkyway_liluo_idle.Float.{Float, IsOrdered, ◌⊕◌, ◌⊖◌, ◌⊗◌, ◌⊘◌, ◌<?◌, nought, one, fmax}
use milkyway_liluo_idle.Float.Order.{lt_irrefl, not_negative}
use milkyway_liluo_idle.Battle.{Entity, BattleSkill, DamageProfile, Attributes, Random, final}

pub record DamageResult (F : Type 0) : Type 0 where
  pub damage : F
  pub raw_damage : F
  pub damage_type : String
  pub evaded : Bool
  pub blocked : Bool
  pub blocked_reduction : F

module _ {A F R : Type 0} ⦃f : Float F⦄ (attrs : Attributes A F) (rng : Random R F) where
  abbrev within_one : F → F
  within_one p = let q = (if p <? nought then nought else p) in if one <? q then one else q

  unfoldable pub evade_possibility : Entity A F → Entity A F → F
  evade_possibility attacker defender =
      let acc = fmax (f.lit 1 6) (final attrs (λ ids. ids.accuracy) attacker) in
      let evade = fmax (f.lit 1 6) (final attrs (λ ids. ids.evade) defender) in
      let evade_ratio = (if f.lit 10 0 <? acc ⊘ evade then f.lit 10 0 else acc ⊘ evade) in
      let acc_mult = one ⊕ final attrs (λ ids. ids.accuracy_possibility_multiplier) attacker in
      let evade_mult = one ⊕ final attrs (λ ids. ids.evade_possibility_multiplier) defender in
      within_one (one ⊘ (one ⊕ evade_ratio ⊗ evade_ratio) ⊗ evade_mult ⊘ acc_mult)

  -- The damage before block and critical hits; the same lines stand in both branches in Go.
  unfoldable pub original_damage : Entity A F → Entity A F → DamageProfile F → Bool → F → F
  original_damage attacker defender cfg magic rand_ratio =
      let base =
        (if magic
          then (let magic_power =
                fmax nought
                  (cfg.flat ⊕ final attrs (λ ids. ids.magic_power) attacker ⊗ cfg.multiplier) in
              let magic_instance = fmax nought (final attrs (λ ids. ids.magic_instance) defender) in
              rand_ratio ⊗ magic_power ⊘ (one ⊕ magic_instance))
          else (let attack_power =
                fmax nought
                  (cfg.flat ⊕ final attrs (λ ids. ids.physical_power) attacker ⊗ cfg.multiplier) in
              let defense = fmax nought (final attrs (λ ids. ids.defense) defender) in
              rand_ratio ⊗ (attack_power ⊗ attack_power) ⊘ (attack_power ⊕ defense))) in
      let fdm = final attrs (λ ids. ids.final_damage_multiplier) attacker in
      let fdr = final attrs (λ ids. ids.final_damage_reduce) defender in
      fmax nought (base ⊗ ((one ⊕ fdm) ⊘ (one ⊕ fdr)))

  unfoldable pub block_possibility : Entity A F → F
  block_possibility defender =
      let block = fmax nought (final attrs (λ ids. ids.block) defender) in
      let mult = fmax nought (final attrs (λ ids. ids.block_possibility_multiplier) defender) in
      within_one (one ⊖ f.lit 100 0 ⊘ (f.lit 100 0 ⊕ block) ⊘ (one ⊕ mult))

  -- The block check: whether it blocked, the reduction, the damage left, and the random source.
  unfoldable pub check_block : Entity A F → Bool → F → R → Bool × F × F × R
  unfolding block_possibility
  check_block defender magic damage r =
      if magic
      then (false, nought, damage, r)
      else (let roll = rng.float64 r in
          if roll.0 <? block_possibility defender
          then (let block_rate = fmax one (final attrs (λ ids. ids.block_rate) defender) in
              let left = fmax nought (damage ⊘ block_rate) in (true, damage ⊖ left, left, roll.1))
          else (false, nought, damage, roll.1))

  unfoldable pub check_critical : Entity A F → Bool → F → R → F × R
  check_critical attacker magic damage r =
      if magic
      then (damage, r)
      else (let crit = within_one (final attrs (λ ids. ids.critical) attacker) in
          let roll = rng.float64 r in
          if roll.0 <? crit
          then (damage ⊗ fmax one (final attrs (λ ids. ids.critical_rate) attacker), roll.1)
          else (damage, roll.1))

  -- `CalcDamage` after the evade check
  unfoldable pub hit : Entity A F → Entity A F → DamageProfile F → String → R → DamageResult F × R
  unfolding original_damage check_block check_critical
  hit attacker defender cfg damage_type r =
      let magic = damage_type =? "magic" in
      let roll = rng.float64 r in
      let rand_ratio = f.lit 9 1 ⊕ roll.0 ⊗ f.lit 2 1 in
      let blocked =
        check_block defender magic (original_damage attacker defender cfg magic rand_ratio)
          roll.1 in
      let struck = check_critical attacker magic blocked.2 blocked.3 in
      let damage = fmax nought struck.0 in
      (
        record {
          damage = damage;
          raw_damage = damage ⊕ blocked.1;
          damage_type = damage_type;
          evaded = false;
          blocked = blocked.0;
          blocked_reduction = blocked.1;
        },
        struck.1,
      )

  unfoldable pub evaded_hit :
      Entity A F → Entity A F → DamageProfile F → String → R → DamageResult F × R
  unfolding original_damage
  evaded_hit attacker defender cfg damage_type r =
      let roll = rng.float64 r in
      let rand_ratio = f.lit 9 1 ⊕ roll.0 ⊗ f.lit 2 1 in
      (
        record {
          damage = nought;
          raw_damage = original_damage attacker defender cfg (damage_type =? "magic") rand_ratio;
          damage_type = damage_type;
          evaded = true;
          blocked = false;
          blocked_reduction = nought;
        },
        roll.1,
      )

  abbrev no_damage : DamageResult F
  no_damage = record {
    damage = nought;
    raw_damage = nought;
    damage_type = "none";
    evaded = false;
    blocked = false;
    blocked_reduction = nought;
  }

  unfoldable pub calc_with :
      Entity A F → Entity A F → DamageProfile F → String → R → DamageResult F × R
  unfolding evade_possibility hit evaded_hit
  calc_with attacker defender cfg damage_type r =
      let roll = rng.float64 r in
      if roll.0 <? evade_possibility attacker defender
      then evaded_hit attacker defender cfg damage_type roll.1
      else hit attacker defender cfg damage_type roll.1

  -- `CalcDamage`
  unfoldable pub calc_damage : Entity A F → Entity A F → BattleSkill F → R → DamageResult F × R
  unfolding calc_with
  calc_damage attacker defender skill r = elim skill.damage [
    | none ↦ (no_damage, r)
    | some cfg ↦ calc_with attacker defender cfg (if cfg.kind =? "" then "physical" else cfg.kind) r
  ]

  -- What an attack can do: it never heals, an evaded one does nothing, and magic is not blocked.
  abbrev pub IsSound : DamageResult F → Type 0
  IsSound d =
      ((d.damage <? nought) ≡ false)
      × (d.evaded ≡ true → d.damage ≡ nought)
      × ((d.damage_type =? "magic") ≡ true → d.blocked ≡ false)

  hit-IsSound :
      (o : IsOrdered F) (attacker defender : Entity A F) (cfg : DamageProfile F) (kind : String)
      (r : R)
      → IsSound (hit attacker defender cfg kind r).0
  unfolding hit check_block
  hit-IsSound o attacker defender cfg kind r =
      (not_negative o _, λ e. absurd (false≢true e), λ m. rw (m) refl)

  evaded_hit-IsSound :
      (o : IsOrdered F) (attacker defender : Entity A F) (cfg : DamageProfile F) (kind : String)
      (r : R)
      → IsSound (evaded_hit attacker defender cfg kind r).0
  unfolding evaded_hit
  evaded_hit-IsSound o attacker defender cfg kind r = (lt_irrefl o nought, λ e. refl, λ m. refl)

  calc_with-IsSound :
      (o : IsOrdered F) (attacker defender : Entity A F) (cfg : DamageProfile F) (kind : String)
      (r : R)
      → IsSound (calc_with attacker defender cfg kind r).0
  unfolding calc_with
  calc_with-IsSound o attacker defender cfg kind r =
      let roll = rng.float64 r in
      if_rule (λ (d : DamageResult F × R). IsSound d.0)
        (roll.0 <? evade_possibility attacker defender)
        (evaded_hit-IsSound o attacker defender cfg kind roll.1)
        (hit-IsSound o attacker defender cfg kind roll.1)

  -- Over numbers that keep the order, whatever the attributes and the random numbers: the damage of an
  -- attack is not negative, an evaded attack does none, and a magic attack is not blocked.
  pub calc_damage-IsSound :
      (o : IsOrdered F) (attacker defender : Entity A F) (skill : BattleSkill F) (r : R)
      → IsSound (calc_damage attacker defender skill r).0
  unfolding calc_damage
  calc_damage-IsSound o attacker defender skill r = elim (Option-cases skill.damage) [
    | inl p ↦ rw (calc_damage, p) (lt_irrefl o nought, λ e. refl, λ m. refl)
    | inr (cfg, p) ↦
        rw (calc_damage, p)
          (calc_with-IsSound o attacker defender cfg
            (if cfg.kind =? "" then "physical" else cfg.kind) r)
  ]
