-- ===== src/Battle/Outcomes.antt =====
-- What an attack does to the defender (backend/internal/battle/combat.go).
use milkyway_liluo_idle.Prelude.{
  ◌≡◌, refl, ◌∙◌, not, ◌&&◌, if◌then◌else◌, Option, some, List, [], ◌∷◌, ℤ, Table, insert, ◌=?◌,
  string_eq, int_eq, if_rule, arith,
}
use milkyway_liluo_idle.Float.{Float, ◌⊕◌, ◌<?◌, ◌≤?◌, nought, fmax}
use milkyway_liluo_idle.Battle.{Entity, BattleSkill, SkillEffect, Attributes, Random}
use milkyway_liluo_idle.Battle.Damage.{DamageResult, calc_damage}
use milkyway_liluo_idle.Battle.Effects.{apply_effect, apply_skill_effect, apply_skill_effects}
use milkyway_liluo_idle.Battle.Experience.{CombatSkills, Tally, is_player}
use milkyway_liluo_idle.Battle.Choice.{choose_skill}
use milkyway_liluo_idle.Battle.Combat.{
  fall, check_death, reward, pay, set_timing, take_damage, land, resolve_attack, process_attack,
}

module _ {A F : Type 0} ⦃f : Float F⦄ where
  -- The same entity, as alive as before.
  abbrev pub IsSame : Entity A F → Entity A F → Type 0
  IsSame x y = (x.alive ≡ y.alive) × (x.team ≡ y.team) × (x.entity_id ≡ y.entity_id)

  apply_skill_effects-IsSame :
      (attrs : Attributes A F) (now : F) (skill : BattleSkill F) (effs : List (SkillEffect F))
      (pair : Entity A F × Entity A F)
      → IsSame (apply_skill_effects attrs now skill effs pair).1 pair.1
  unfolding apply_skill_effects apply_skill_effect apply_effect
  apply_skill_effects-IsSame attrs now skill [] pair = (refl, refl, refl)
  apply_skill_effects-IsSame attrs now skill (eff ∷ effs) pair =
      let next = apply_skill_effect attrs now skill eff pair in
      let rest = apply_skill_effects-IsSame attrs now skill effs next in
      let here : IsSame next.1 pair.1 =
        if_rule (λ (q : Entity A F × Entity A F). IsSame q.1 pair.1) (eff.target =? "target")
          (refl, refl, refl) (refl, refl, refl) in
      (rest.0 ∙ here.0, rest.1 ∙ here.1, rest.2 ∙ here.2)

  -- The respawn timers after an attack on `d`, which is left as `e`: the timer of a player that it has
  -- felled is set.
  abbrev pub timers_after :
      F → F → Entity A F → Entity A F → Table ℤ (Option F) → Table ℤ (Option F)
  timers_after now interval d e m =
      if is_player d.team && d.alive && (e.hp ≤? nought)
      then insert d.entity_id (some (now ⊕ fmax (f.lit 1 1) interval)) m
      else m

  -- What is left of the defender and of the timers.
  abbrev pub IsSettled :
      F → F → Entity A F → Entity A F → Table ℤ (Option F) → Table ℤ (Option F) → Type 0
  IsSettled now interval d e before after =
      (e.alive ≡ (d.alive && not (e.hp ≤? nought)))
      × (e.entity_id ≡ d.entity_id)
      × (after ≡ timers_after now interval d e before)

  check_death-IsSettled :
      {R : Type 0} (now interval : F) (e : Entity A F) (t : Tally R F)
      → let left = check_death now interval e t in
        IsSettled now interval e left.0 t.respawn_times left.1.respawn_times
  unfolding check_death fall
  check_death-IsSettled now interval e t = (ground arith, ground arith, ground arith)

  take_damage-IsSame :
      (attrs : Attributes A F) (result : DamageResult F) (e : Entity A F)
      → IsSame (take_damage attrs result e) e
  unfolding take_damage
  take_damage-IsSame attrs result e =
      if_rule (λ (x : Entity A F). IsSame x e) (nought <? result.damage) (refl, refl, refl)
        (refl, refl, refl)

  IsSettled-IsSame :
      (now interval : F) (d d' e : Entity A F) (before after : Table ℤ (Option F))
      → IsSame d' d
      → IsSettled now interval d' e before after
      → IsSettled now interval d e before after
  IsSettled-IsSame now interval d d' e before after s h =
      (h.0 ∙ rw (s.0) refl, h.1 ∙ s.2, h.2 ∙ rw (s.0, s.1, s.2) refl)

module _ {A R F : Type 0} ⦃f : Float F⦄ (attrs : Attributes A F) (rng : Random R F)
    (ids : CombatSkills) where
  -- After an attack, whatever the skill, its effects and the random numbers, the defender is alive just
  -- when it was and its hit points are not 0 or less; a player that the attack has felled, and no one
  -- else, gets a respawn timer, the interval of the battle ahead or a tenth of a second if it is longer.
  pub process_attack-IsSettled :
      (now interval : F) (attacker defender : Entity A F) (t : Tally R F)
      → let o = process_attack attrs rng ids now interval attacker defender t in
        IsSettled now interval defender o.defender t.respawn_times o.tally.respawn_times
  unfolding process_attack resolve_attack land reward
  process_attack-IsSettled now interval attacker defender t =
      let skill = choose_skill attrs now attacker defender in
      let pair =
        apply_skill_effects attrs now skill skill.effects (pay attrs skill attacker, defender) in
      let result = calc_damage attrs rng pair.0 pair.1 skill t.rng in
      let struck = take_damage attrs result.0 pair.1 in
      let hit = take_damage-IsSame attrs result.0 pair.1 in
      let kept =
        apply_skill_effects-IsSame attrs now skill skill.effects
          (pay attrs skill attacker, defender) in
      let rewarded =
        reward ids skill result.0 (set_timing attrs now skill pair.0) struck
          (record t { rng = result.1 }) in
      IsSettled-IsSame now interval defender struck (check_death now interval struck rewarded).0
        t.respawn_times (check_death now interval struck rewarded).1.respawn_times
        (hit.0 ∙ kept.0, hit.1 ∙ kept.1, hit.2 ∙ kept.2)
        (check_death-IsSettled now interval struck rewarded)
