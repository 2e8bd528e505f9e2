-- ===== src/Battle/Choosing.antt =====
-- Which skill an attack is made with (the choice in backend/internal/battle/combat.go).
use mathlib.Core.Bool.{false≢true}
use milkyway_liluo_idle.Prelude.{
  suc, ◌≡◌, refl, sym, ◌∙◌, subst, true, false, not, ◌||◌, if◌then◌else◌, Option, none, some, List,
  [], ◌∷◌, ℤ, lookup, or_zero, string_eq, int_eq, ◌=?◌, All, Bool-cases, Option-cases, List-cases,
  ◌⊎◌, inl, inr, arith,
}
use milkyway_liluo_idle.Float.{Float, ◌<?◌, ◌==?◌, nought, one}
use milkyway_liluo_idle.Battle.{Entity, BattleSkill, DamageProfile, SkillEffect, Attributes}
use milkyway_liluo_idle.Battle.Targeting.{IsIn}
use milkyway_liluo_idle.Battle.Choice.{
  fallback_id, skill_has_damage, can_use_skill, is_usable, plan_skill, basic_skill, choose_skill,
}
use milkyway_liluo_idle.Battle.News.{IsNews, would_apply-IsNews}

module _ {F : Type 0} ⦃f : Float F⦄ where
  -- The skill does damage: it has some, of which a part is not 0.
  abbrev pub HasDamage : BattleSkill F → Type 0
  HasDamage skill =
      (d : DamageProfile F) × (skill.damage ≡ some d)
      × (((d.flat ==? nought) ≡ false) ⊎ ((d.multiplier ==? nought) ≡ false))

  skill_has_damage-HasDamage :
      (skill : BattleSkill F) → skill_has_damage skill ≡ true → HasDamage skill
  unfolding skill_has_damage
  skill_has_damage-HasDamage skill h = elim (Option-cases skill.damage) [
    | inl p ↦ let w = rw (p) at h in absurd (false≢true w)
    | inr (d, p) ↦ let w = rw (p) at h in (d, p, part d w)
  ]
    where
      part :
          (d : DamageProfile F)
          → (not (d.flat ==? nought) || not (d.multiplier ==? nought)) ≡ true
          → ((d.flat ==? nought) ≡ false) ⊎ ((d.multiplier ==? nought) ≡ false)
      part d e = elim (Bool-cases (d.flat ==? nought)) [
        | inr z ↦ inl z
        | inl z ↦ inr (ground (arith, e, z))
      ]

  HasDamage-skill_has_damage :
      (skill : BattleSkill F) → HasDamage skill → skill_has_damage skill ≡ true
  unfolding skill_has_damage
  HasDamage-skill_has_damage skill (d, p, inl z) = rw (p, z) refl
  HasDamage-skill_has_damage skill (d, p, inr z) = rw (p, z) (ground arith)

module _ {A F : Type 0} ⦃f : Float F⦄ where
  -- The skill is off its cooldown, and the entity has the magic points and the stamina for it.
  abbrev pub IsReady : F → Entity A F → BattleSkill F → Type 0
  IsReady now e skill =
      ((now <? or_zero nought (lookup skill.id e.cooldowns)) ≡ false)
      × ((e.mp <? skill.mp_cost) ≡ false)
      × ((e.sp <? skill.sp_cost) ≡ false)

  -- The skill does damage, or has no effects, or one of its effects is news to the one it goes to.
  abbrev pub IsUseful : F → Entity A F → Entity A F → BattleSkill F → Type 0
  IsUseful now e target skill =
      HasDamage skill
      ⊎ (skill.effects ≡ [])
      ⊎ ((eff : SkillEffect F) × IsIn eff skill.effects
          × IsNews now skill eff (if eff.target =? "target" then target else e).active_effects)

  -- A skill of the plan that is ready and useful.
  abbrev pub IsPlanned : F → Entity A F → Entity A F → BattleSkill F → Type 0
  IsPlanned now e target skill =
      ((id : ℤ) × IsIn id e.skill_plan × (lookup id e.skills ≡ some skill))
      × IsReady now e skill
      × IsUseful now e target skill

  -- The basic skill of the entity; if it has none, a physical attack of its power that costs nothing
  -- and has no cooldown and no effects.
  abbrev pub IsBasic : Entity A F → BattleSkill F → Type 0
  IsBasic e skill =
      (lookup e.basic_skill_id e.skills ≡ some skill)
      ⊎ ((lookup e.basic_skill_id e.skills ≡ none)
          × (skill.id ≡ fallback_id e.team)
          × (skill.damage ≡ some (record { kind = "physical"; flat = nought; multiplier = one }))
          × (skill.mp_cost ≡ nought)
          × (skill.sp_cost ≡ nought)
          × (skill.cooldown ≡ nought)
          × (skill.effects ≡ []))

  can_use_skill-IsReady :
      (now : F) (e : Entity A F) (skill : BattleSkill F)
      → can_use_skill now e skill ≡ true
      → IsReady now e skill
  unfolding can_use_skill
  can_use_skill-IsReady now e skill h = (ground (arith, h), ground (arith, h), ground (arith, h))

  is_usable-IsUseful :
      (now : F) (e target : Entity A F) (skill : BattleSkill F)
      → is_usable now e target skill ≡ true
      → IsReady now e skill × IsUseful now e target skill
  unfolding is_usable
  is_usable-IsUseful now e target skill h = elim (Bool-cases (can_use_skill now e skill)) [
    | inr c ↦ let w = rw (c) at h in absurd (false≢true w)
    | inl c ↦ (
      can_use_skill-IsReady now e skill c,
      elim (Bool-cases (skill_has_damage skill)) [
        | inl d ↦ inl (skill_has_damage-HasDamage skill d)
        | inr d ↦ elim (List-cases skill.effects) [
          | inl p ↦ inr (inl p)
          | inr (eff, effs, p) ↦
              (let w = rw (c, d, p) at h in
                inr (
                  inr (
                    subst
                      (λ (l : List (SkillEffect F)).
                        (x : SkillEffect F) × IsIn x l
                        × IsNews now skill x
                            (if x.target =? "target" then target else e).active_effects)
                      (sym p) (would_apply-IsNews skill e target now (eff ∷ effs) w))))
        ]
      ],
    )
  ]

  IsReady-can_use_skill :
      (now : F) (e : Entity A F) (skill : BattleSkill F)
      → IsReady now e skill
      → can_use_skill now e skill ≡ true
  unfolding can_use_skill
  IsReady-can_use_skill now e skill (cool, mana, stamina) = rw (cool, mana, stamina) refl

  -- A skill that is ready, and does damage or has no effects, is usable.
  usable :
      (now : F) (e target : Entity A F) (skill : BattleSkill F)
      → IsReady now e skill
      → HasDamage skill ⊎ (skill.effects ≡ [])
      → is_usable now e target skill ≡ true
  unfolding is_usable
  usable now e target skill ready (inl d) =
      rw (IsReady-can_use_skill now e skill ready, HasDamage-skill_has_damage skill d) refl
  usable now e target skill ready (inr n) =
      rw (IsReady-can_use_skill now e skill ready, n) (ground arith)

  -- What the plan names is no skill, or one that is not ready, or has effects and does no damage.
  abbrev pub IsNoStrike : F → Entity A F → Option (BattleSkill F) → Type 0
  IsNoStrike now e none = Unit
  IsNoStrike now e (some skill) = ¬ (IsReady now e skill × (HasDamage skill ⊎ (skill.effects ≡ [])))

  -- What the loop over a plan takes.
  abbrev IsTaken : F → Entity A F → Entity A F → List ℤ → Option (BattleSkill F) → Type 0
  IsTaken now e target plan none = All (λ id. IsNoStrike now e (lookup id e.skills)) plan
  IsTaken now e target plan (some skill) =
      ((id : ℤ) × IsIn id plan × (lookup id e.skills ≡ some skill))
      × IsReady now e skill
      × IsUseful now e target skill

  further :
      (now : F) (e target : Entity A F) (id : ℤ) (plan : List ℤ) (o : Option (BattleSkill F))
      → IsNoStrike now e (lookup id e.skills)
      → IsTaken now e target plan o
      → IsTaken now e target (id ∷ plan) o
  further now e target id plan none passed h = (passed, h)
  further now e target id plan (some skill) passed ((id', (i, at), found), ready, useful) =
      ((id', (suc i, at), found), ready, useful)

  plan_skill-IsTaken :
      (now : F) (e target : Entity A F) (plan : List ℤ)
      → IsTaken now e target plan (plan_skill now e target plan)
  unfolding plan_skill
  plan_skill-IsTaken now e target [] = tt
  plan_skill-IsTaken now e target (id ∷ plan) =
      let rest = plan_skill-IsTaken now e target plan in
      let o = plan_skill now e target plan in
      elim (Option-cases (lookup id e.skills)) [
        | inl p ↦
            (let q : plan_skill now e target (id ∷ plan) ≡ o = rw (plan_skill, p) refl in
              subst (IsTaken now e target (id ∷ plan)) (sym q)
                (further now e target id plan o (subst (IsNoStrike now e) (sym p) tt) rest))
        | inr (skill, p) ↦ elim (Bool-cases (is_usable now e target skill)) [
          | inl u ↦
              (let q : plan_skill now e target (id ∷ plan) ≡ some skill =
                  rw (plan_skill, p, u) refl in
                subst (IsTaken now e target (id ∷ plan)) (sym q) (
                  (id, (0, refl), p),
                  (is_usable-IsUseful now e target skill u).0,
                  (is_usable-IsUseful now e target skill u).1,
                ))
          | inr u ↦
              (let q : plan_skill now e target (id ∷ plan) ≡ o = rw (plan_skill, p, u) refl in
                let passed : IsNoStrike now e (some skill) =
                  λ h. absurd (false≢true (sym u ∙ usable now e target skill h.0 h.1)) in
                subst (IsTaken now e target (id ∷ plan)) (sym q)
                  (further now e target id plan o (subst (IsNoStrike now e) (sym p) passed) rest))
        ]
      ]

  basic_skill-IsBasic :
      (attrs : Attributes A F) (e : Entity A F)
      → IsBasic e (basic_skill attrs (fallback_id e.team) e)
  unfolding basic_skill
  basic_skill-IsBasic attrs e = elim (Option-cases (lookup e.basic_skill_id e.skills)) [
    | inl p ↦ inr (
      p,
      rw (basic_skill, p) refl,
      rw (basic_skill, p) refl,
      rw (basic_skill, p) refl,
      rw (basic_skill, p) refl,
      rw (basic_skill, p) refl,
      rw (basic_skill, p) refl,
    )
    | inr (skill, p) ↦ inl (rw (basic_skill, p) refl)
  ]

  -- The skill of an attack is one of the plan, off its cooldown, for which the entity has the magic
  -- points and the stamina, and which does damage, has no effects, or has an effect that is not there
  -- yet, or has run out, or has another value; or it is the basic skill (or, without one, the fallback,
  -- which costs nothing), and then every skill of the plan is not ready, or has effects and no damage.
  pub choose_skill-IsPlanned :
      (attrs : Attributes A F) (now : F) (e target : Entity A F)
      → let skill = choose_skill attrs now e target in
        IsPlanned now e target skill
        ⊎ (IsBasic e skill × All (λ id. IsNoStrike now e (lookup id e.skills)) e.skill_plan)
  unfolding choose_skill
  choose_skill-IsPlanned attrs now e target =
      let taken = plan_skill-IsTaken now e target e.skill_plan in
      elim (Option-cases (plan_skill now e target e.skill_plan)) [
        | inl p ↦
            (let q : choose_skill attrs now e target ≡ basic_skill attrs (fallback_id e.team) e =
                rw (choose_skill, p) refl in
              inr (
                subst (IsBasic e) (sym q) (basic_skill-IsBasic attrs e),
                subst (IsTaken now e target e.skill_plan) p taken,
              ))
        | inr (skill, p) ↦
            (let q : choose_skill attrs now e target ≡ skill = rw (choose_skill, p) refl in
              inl (
                subst (IsPlanned now e target) (sym q)
                  (subst (IsTaken now e target e.skill_plan) p taken)))
      ]
