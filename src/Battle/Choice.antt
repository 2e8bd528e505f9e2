-- ===== src/Battle/Choice.antt =====
-- The choice of a skill for an attack (backend/internal/battle/combat.go).
use milkyway_liluo_idle.Prelude.{
  Bool, true, false, not, ◌&&◌, ◌||◌, if◌then◌else◌, Option, none, some, List, [], ◌∷◌, ℤ, negsuc,
  lookup, or_zero, string_eq, int_eq,
}
use milkyway_liluo_idle.Float.{Float, ◌<?◌, ◌==?◌, nought, one, fmax}
use milkyway_liluo_idle.Battle.{Entity, Team, player, enemy, BattleSkill, Attributes, final}
use milkyway_liluo_idle.Battle.Effects.{would_apply}

-- `FallbackBasicAttackID` and `FallbackEnemyBasicAttackID`
abbrev pub fallback_id : Team → ℤ
fallback_id player = negsuc 0
fallback_id enemy = negsuc 1

module _ {F : Type 0} ⦃f : Float F⦄ where
  -- `skillHasDamage`
  unfoldable pub skill_has_damage : BattleSkill F → Bool
  skill_has_damage skill = elim skill.damage [
    | some d ↦ not (d.flat ==? nought) || not (d.multiplier ==? nought)
    | none ↦ false
  ]

module _ {A F : Type 0} ⦃f : Float F⦄ where
  -- `canUseSkill`
  unfoldable pub can_use_skill : F → Entity A F → BattleSkill F → Bool
  unfolding lookup or_zero
  can_use_skill now e skill =
      not (now <? or_zero nought (lookup skill.id e.cooldowns))
      && not (e.mp <? skill.mp_cost)
      && not (e.sp <? skill.sp_cost)

  -- Whether an entry of the plan is taken.
  unfoldable pub is_usable : F → Entity A F → Entity A F → BattleSkill F → Bool
  unfolding can_use_skill skill_has_damage would_apply
  is_usable now e target skill =
      can_use_skill now e skill
      && (skill_has_damage skill || (elim skill.effects [
        | [] ↦ true
        | eff ∷ effs ↦ would_apply skill e target now (eff ∷ effs)
      ]))

  -- The loop over the plan
  unfoldable pub plan_skill : F → Entity A F → Entity A F → List ℤ → Option (BattleSkill F)
  unfolding is_usable lookup
  plan_skill now e target [] = none
  plan_skill now e target (id ∷ plan) =
      let rest = plan_skill now e target plan in
      elim (lookup id e.skills) [
        | some skill ↦ if is_usable now e target skill then some skill else rest
        | none ↦ rest
      ]

  -- The fallback of the choice, which needs no plan.
  unfoldable pub basic_skill : Attributes A F → ℤ → Entity A F → BattleSkill F
  unfolding lookup
  basic_skill attrs fallback e = elim (lookup e.basic_skill_id e.skills) [
    | some skill ↦ skill
    | none ↦ record {
      id = fallback;
      damage = some (record { kind = "physical"; flat = nought; multiplier = one });
      mp_cost = nought;
      sp_cost = nought;
      cast_time = fmax (f.lit 1 1) (final attrs (λ ids. ids.attack_interval) e);
      cooldown = nought;
      effects = [];
      physical_style = "";
    }
  ]

  -- `choosePlayerSkill` and `chooseEnemySkill`, which differ in the id of the fallback
  unfoldable pub choose_skill : Attributes A F → F → Entity A F → Entity A F → BattleSkill F
  unfolding plan_skill basic_skill
  choose_skill attrs now e target = elim (plan_skill now e target e.skill_plan) [
    | some skill ↦ skill
    | none ↦ basic_skill attrs (fallback_id e.team) e
  ]
