-- ===== src/Battle/Experience.antt =====
-- The experience and the hate of a fight (backend/internal/battle/combat.go), and the part of the
-- session that an attack changes.
use milkyway_liluo_idle.Prelude.{
  Bool, true, false, if◌then◌else◌, Option, none, some, [], ℤ, Table, lookup, insert, or_zero, ◌=?◌,
  string_eq, int_eq,
}
use milkyway_liluo_idle.Float.{Float, ◌⊕◌, ◌⊗◌, ◌<?◌, ◌≤?◌, nought, one}
use milkyway_liluo_idle.Battle.{Team, player, enemy, BattleSkill}
use milkyway_liluo_idle.Battle.Damage.{DamageResult}

-- `gameconfig.StringToSkillID` for the skills that a fight trains.
pub record CombatSkills : Type 0 where
  pub magic : Option ℤ
  pub strength : Option ℤ
  pub ranging : Option ℤ
  pub resilience : Option ℤ
  pub defense : Option ℤ

-- The logs of an attack, less the remaining hit points, which are rounded for display.
pub data Log (F : Type 0) : Type 0 where
  attack : Team → ℤ → ℤ → ℤ → DamageResult F → Log F
  enemy_died : ℤ → Log F
  player_downed : ℤ → Log F

pub record Tally (R F : Type 0) : Type 0 where
  pub pending_battle_skill_exp : Table ℤ F
  pub pending_skill_exp : Table ℤ F
  pub hate_map : Table ℤ (Table ℤ F)
  pub respawn_times : Table ℤ (Option F)
  pub rng : R

abbrev pub is_player : Team → Bool
is_player player = true
is_player enemy = false

abbrev pub fights : Team → Team → Bool
fights player enemy = true
fights player player = false
fights enemy player = false
fights enemy enemy = false

module _ {F : Type 0} ⦃f : Float F⦄ where
  -- `m[k] += v`
  unfoldable pub add_at : ℤ → F → Table ℤ F → Table ℤ F
  unfolding lookup insert or_zero
  add_at k v m = insert k (or_zero nought (lookup k m) ⊕ v) m

  -- `addPendingSkillXP` and `addPendingBattleSkillXP`
  unfoldable pub add_xp_at : ℤ → F → Table ℤ F → Table ℤ F
  unfolding add_at
  add_xp_at id xp m = if xp ≤? nought then m else add_at id xp m

  -- The same, for a skill that may not be configured.
  unfoldable pub award : Option ℤ → F → Table ℤ F → Table ℤ F
  unfolding add_xp_at
  award none xp m = m
  award (some id) xp m = add_xp_at id xp m

  abbrev is_magic : BattleSkill F → Bool
  is_magic skill = elim skill.damage [ some d ↦ d.kind =? "magic" | none ↦ false ]

  -- `awardCombatXP`
  unfoldable pub award_combat_xp :
      CombatSkills → DamageResult F → BattleSkill F → Table ℤ F → Table ℤ F
  unfolding award
  award_combat_xp ids result skill m =
      if result.damage ≤? nought
      then m
      else if is_magic skill
      then award ids.magic (one ⊗ result.damage) m
      else if (if skill.physical_style =? "" then "melee" else skill.physical_style) =? "ranged"
      then award ids.ranging (f.lit 5 1 ⊗ result.damage)
          (award ids.strength (f.lit 5 1 ⊗ result.damage) m)
      else award ids.ranging (f.lit 2 1 ⊗ result.damage)
          (award ids.strength (f.lit 8 1 ⊗ result.damage) m)

  -- `awardDefenseXP`
  unfoldable pub award_defense_xp : CombatSkills → DamageResult F → Table ℤ F → Table ℤ F
  unfolding award
  award_defense_xp ids result m =
      if result.evaded
      then award ids.ranging (f.lit 2 0 ⊗ result.raw_damage) m
      else (let struck =
            (if nought <? result.damage
              then award ids.defense (f.lit 5 1 ⊗ result.damage)
                  (award ids.resilience (f.lit 15 1 ⊗ result.damage) m)
              else m) in
          if nought <? result.blocked_reduction
          then award ids.defense (f.lit 2 0 ⊗ result.blocked_reduction) struck
          else struck)

  -- `addHate`
  unfoldable pub add_hate : ℤ → ℤ → F → Table ℤ (Table ℤ F) → Table ℤ (Table ℤ F)
  unfolding lookup insert or_zero add_at
  add_hate enemy_id player_id amount m =
      insert enemy_id (add_at player_id amount (or_zero [] (lookup enemy_id m))) m
