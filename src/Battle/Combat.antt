-- ===== src/Battle/Combat.antt =====
-- One attack (backend/internal/battle/combat.go): its costs, effects and damage, what it gives, and
-- the death of the defender. The attacker and the defender are two entities of the battle, and the rest
-- of the session that an attack changes is a `Tally`.
use milkyway_liluo_idle.Prelude.{
  false, ◌&&◌, if◌then◌else◌, some, List, [], ◌∷◌, pos, insert, string_eq, int_eq, ltb_ℤ,
}
use milkyway_liluo_idle.Float.{Float, ◌⊕◌, ◌⊖◌, ◌<?◌, ◌≤?◌, nought, one, fmax}
use milkyway_liluo_idle.Battle.{
  Entity, BattleSkill, Attributes, Random, clamp, final, max_hp, max_mp, max_sp,
}
use milkyway_liluo_idle.Battle.Damage.{DamageResult, calc_damage}
use milkyway_liluo_idle.Battle.Effects.{apply_skill_effects}
use milkyway_liluo_idle.Battle.Experience.{
  CombatSkills, Log, attack, enemy_died, player_downed, Tally, is_player, fights, add_xp_at,
  award_combat_xp, award_defense_xp, add_hate,
}
use milkyway_liluo_idle.Battle.Choice.{choose_skill}

module _ {A F : Type 0} ⦃f : Float F⦄ where
  -- The costs
  unfoldable pub pay : Attributes A F → BattleSkill F → Entity A F → Entity A F
  unfolding clamp
  pay attrs skill e =
      let mp_cost = fmax nought skill.mp_cost in
      let sp_cost = fmax nought skill.sp_cost in
      record e {
        mp = if nought <? mp_cost then clamp (e.mp ⊖ mp_cost) nought (max_mp attrs e) else e.mp;
        sp = if nought <? sp_cost then clamp (e.sp ⊖ sp_cost) nought (max_sp attrs e) else e.sp;
      }

  unfoldable pub cast_time_of : Attributes A F → BattleSkill F → Entity A F → F
  cast_time_of attrs skill e =
      if skill.cast_time ≤? nought
      then fmax (f.lit 1 1) (final attrs (λ ids. ids.attack_interval) e)
      else skill.cast_time

  -- The timing of the attacker
  unfoldable pub set_timing : Attributes A F → F → BattleSkill F → Entity A F → Entity A F
  unfolding cast_time_of insert
  set_timing attrs now skill e =
      let cast_time = cast_time_of attrs skill e in
      let cooldown = fmax nought skill.cooldown in
      record e {
        next_ready_time = now ⊕ cast_time;
        last_action_duration = cast_time;
        last_skill_id = skill.id;
        cooldowns =
            if nought <? cooldown
            then insert skill.id (now ⊕ cooldown) e.cooldowns
            else e.cooldowns;
      }

  unfoldable pub take_damage : Attributes A F → DamageResult F → Entity A F → Entity A F
  unfolding clamp
  take_damage attrs result e =
      if nought <? result.damage
      then record e { hp = clamp (e.hp ⊖ result.damage) nought (max_hp attrs e) }
      else e

  -- The hate and the experience of an attack
  unfoldable pub reward :
      {R : Type 0}
      → CombatSkills
      → BattleSkill F
      → DamageResult F
      → Entity A F
      → Entity A F
      → Tally R F
      → Tally R F
  unfolding add_hate add_xp_at award_combat_xp award_defense_xp
  reward ids skill result attacker defender t =
      let hurt = nought <? result.damage in
      let gained =
        (if is_player attacker.team && hurt
          then award_combat_xp ids result skill t.pending_skill_exp
          else t.pending_skill_exp) in
      record t {
        hate_map =
            if fights attacker.team defender.team && hurt
            then add_hate defender.entity_id attacker.entity_id result.damage t.hate_map
            else t.hate_map;
        pending_battle_skill_exp =
            if is_player attacker.team && ltb_ℤ (pos 0) skill.id
            then add_xp_at skill.id one t.pending_battle_skill_exp
            else t.pending_battle_skill_exp;
        pending_skill_exp =
            if is_player defender.team then award_defense_xp ids result gained else gained;
      }

  -- `handlePlayerDown`, with `interval` from the configuration of the battle
  unfoldable pub fall : {R : Type 0} → F → F → Entity A F → Tally R F → Tally R F
  unfolding insert
  fall now interval e t =
      if is_player e.team
      then record t {
        respawn_times = insert e.entity_id (some (now ⊕ fmax (f.lit 1 1) interval)) t.respawn_times;
      }
      else t

  abbrev death_log : Entity A F → Log F
  death_log e = if is_player e.team then player_downed e.entity_id else enemy_died e.entity_id

  -- The death check
  unfoldable pub check_death :
      {R : Type 0} → F → F → Entity A F → Tally R F → Entity A F × Tally R F × List (Log F)
  unfolding fall
  check_death now interval e t =
      if (e.hp ≤? nought) && e.alive
      then (record e { alive = false }, fall now interval e t, death_log e ∷ [])
      else (e, t, [])

-- What an attack leaves.
pub record Outcome (A R F : Type 0) : Type 0 where
  pub attacker : Entity A F
  pub defender : Entity A F
  pub tally : Tally R F
  pub logs : List (Log F)

module _ {A R F : Type 0} ⦃f : Float F⦄ (attrs : Attributes A F) (rng : Random R F)
    (ids : CombatSkills) where
  -- The attack from the damage on.
  unfoldable pub land :
      F
      → F
      → BattleSkill F
      → Entity A F × Entity A F
      → DamageResult F × R
      → Tally R F
      → Outcome A R F
  unfolding take_damage set_timing reward check_death
  land now interval skill pair result t =
      let defender = take_damage attrs result.0 pair.1 in
      let attacker = set_timing attrs now skill pair.0 in
      let rewarded = reward ids skill result.0 attacker defender (record t { rng = result.1 }) in
      let left = check_death now interval defender rewarded in
      record {
        attacker = attacker;
        defender = left.0;
        tally = left.1;
        logs =
            attack attacker.team skill.id attacker.entity_id defender.entity_id result.0 ∷ left.2;
      }

  -- `resolveAttack`
  unfoldable pub resolve_attack :
      F → F → BattleSkill F → Entity A F → Entity A F → Tally R F → Outcome A R F
  unfolding pay apply_skill_effects calc_damage land
  resolve_attack now interval skill attacker defender t =
      let pair =
        apply_skill_effects attrs now skill skill.effects (pay attrs skill attacker, defender) in
      land now interval skill pair (calc_damage attrs rng pair.0 pair.1 skill t.rng) t

  -- `processPlayerAttack` and `processEnemyAttack`
  unfoldable pub process_attack : F → F → Entity A F → Entity A F → Tally R F → Outcome A R F
  unfolding choose_skill resolve_attack
  process_attack now interval attacker defender t =
      resolve_attack now interval (choose_skill attrs now attacker defender) attacker defender t
