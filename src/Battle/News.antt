-- ===== src/Battle/News.antt =====
-- When the effects of a skill change something (skillWouldApplyEffect of
-- backend/internal/battle/combat.go).
use mathlib.Core.Bool.{false≢true}
use milkyway_liluo_idle.Prelude.{
  suc, ◌≡◌, refl, sym, ◌∙◌, eq_of_eq, eq_refl, Bool, true, false, not, ◌||◌, if◌then◌else◌, none,
  some, List, [], ◌∷◌, string_eq, int_eq, ◌=?◌, All, Bool-cases, Option-cases, ◌⊎◌, inl, inr, arith,
}
use milkyway_liluo_idle.Float.{Float, ◌≤?◌, ◌==?◌}
use milkyway_liluo_idle.Battle.{
  Entity, BattleSkill, SkillEffect, ActiveEffect, EffectMode, flat, percent_mult,
}
use milkyway_liluo_idle.Battle.Effects.{
  mode_beq, same_key, would_change, effect_of, search_effects, would_apply,
}
use milkyway_liluo_idle.Battle.Targeting.{IsIn}

mode_of_beq : (m n : EffectMode) → mode_beq m n ≡ true → m ≡ n
mode_of_beq flat flat h = refl
mode_of_beq percent_mult percent_mult h = refl
mode_of_beq flat percent_mult h = absurd (false≢true h)
mode_of_beq percent_mult flat h = absurd (false≢true h)

mode_beq_refl : (m : EffectMode) → mode_beq m m ≡ true
mode_beq_refl flat = refl
mode_beq_refl percent_mult = refl

module _ {F : Type 0} ⦃f : Float F⦄ where
  -- An effect that has run out, or has another value.
  abbrev pub IsStale : F → F → ActiveEffect F → Type 0
  IsStale now value a =
      ((t : F) × (a.expires_at ≡ some t) × ((t ≤? now) ≡ true)) ⊎ ((a.value ==? value) ≡ false)

  -- An effect of the skill, on the attribute of `eff` and in its mode.
  abbrev pub HasKey : BattleSkill F → SkillEffect F → ActiveEffect F → Type 0
  HasKey skill eff a =
      (a.source_skill_id ≡ skill.id) × (a.attribute ≡ eff.attribute) × (a.mode ≡ eff.mode)

  -- `eff` is news among the effects of an entity: one with its key is stale, or none has its key.
  abbrev pub IsNews : F → BattleSkill F → SkillEffect F → List (ActiveEffect F) → Type 0
  IsNews now skill eff effs =
      ((a : ActiveEffect F) × IsIn a effs × HasKey skill eff a × IsStale now eff.value a)
      ⊎ All (λ a. ¬ HasKey skill eff a) effs

  same_key-HasKey :
      (skill : BattleSkill F) (eff : SkillEffect F) (a : ActiveEffect F)
      → same_key a (effect_of skill eff none) ≡ true
      → HasKey skill eff a
  unfolding same_key
  same_key-HasKey skill eff a h = (
    eq_of_eq a.source_skill_id skill.id (ground (arith, h)),
    eq_of_eq a.attribute eff.attribute (ground (arith, h)),
    mode_of_beq a.mode eff.mode (ground (arith, h)),
  )

  HasKey-same_key :
      (skill : BattleSkill F) (eff : SkillEffect F) (a : ActiveEffect F)
      → HasKey skill eff a
      → same_key a (effect_of skill eff none) ≡ true
  unfolding same_key
  HasKey-same_key skill eff a (source, attr, mode) =
      rw (source, attr, mode, eq_refl skill.id, eq_refl eff.attribute, mode_beq_refl eff.mode) refl

  none-HasKey :
      (skill : BattleSkill F) (eff : SkillEffect F) (effs : List (ActiveEffect F))
      → All (λ a. same_key a (effect_of skill eff none) ≡ false) effs
      → All (λ a. ¬ HasKey skill eff a) effs
  none-HasKey skill eff [] h = tt
  none-HasKey skill eff (a ∷ effs) h = (
    (λ key. absurd (false≢true (sym h.0 ∙ HasKey-same_key skill eff a key))),
    none-HasKey skill eff effs h.1,
  )

  would_change-IsStale :
      (now : F) (c a : ActiveEffect F) → would_change now c.value a ≡ true → IsStale now c.value a
  would_change-IsStale now c a h = elim (Option-cases a.expires_at) [
    | inl p ↦ inr (unequal (rw (p) at h))
    | inr (t, p) ↦ elim (Bool-cases (t ≤? now)) [
      | inl q ↦ inl (t, p, q)
      | inr q ↦ inr (unequal (rw (p, q) at h))
    ]
  ]
    where
      unequal : not (a.value ==? c.value) ≡ true → (a.value ==? c.value) ≡ false
      unequal e = ground (arith, e)

  -- An effect further back.
  behind :
      (now : F) (c b : ActiveEffect F) (effs : List (ActiveEffect F)) (found : Bool) (key : Bool)
      → same_key b c ≡ key
      → (((a : ActiveEffect F) × IsIn a effs × (same_key a c ≡ true) × IsStale now c.value a)
          ⊎ (((found || key) ≡ false) × All (λ a. same_key a c ≡ false) effs))
      → ((a : ActiveEffect F) × IsIn a (b ∷ effs) × (same_key a c ≡ true) × IsStale now c.value a)
        ⊎ ((found ≡ false) × All (λ a. same_key a c ≡ false) (b ∷ effs))
  behind now c b effs found key k (inl (a, (i, at), same, stale)) =
      inl (a, (suc i, at), same, stale)
  behind now c b effs found true k (inr (none_yet, rest)) =
      absurd (false≢true (ground (arith, none_yet)))
  behind now c b effs found false k (inr (none_yet, rest)) =
      inr (ground (arith, none_yet), (k, rest))

  search_effects-IsNews :
      (now : F) (c : ActiveEffect F) (found : Bool) (effs : List (ActiveEffect F))
      → search_effects now c found effs ≡ true
      → ((a : ActiveEffect F) × IsIn a effs × (same_key a c ≡ true) × IsStale now c.value a)
        ⊎ ((found ≡ false) × All (λ a. same_key a c ≡ false) effs)
  unfolding search_effects
  search_effects-IsNews now c found [] h = inr (ground (arith, h), tt)
  search_effects-IsNews now c found (a ∷ effs) h = elim (Bool-cases (same_key a c)) [
    | inl k ↦ elim (Bool-cases (would_change now c.value a)) [
      | inl w ↦ inl (a, (0, refl), k, would_change-IsStale now c a w)
      | inr w ↦
          behind now c a effs found true k
            (search_effects-IsNews now c (found || true) effs (rw (k, w) at h))
    ]
    | inr k ↦
        behind now c a effs found false k
          (search_effects-IsNews now c (found || false) effs (rw (k) at h))
  ]

  pub would_apply-IsNews :
      {A : Type 0} (skill : BattleSkill F) (caster target : Entity A F) (now : F)
      (effs : List (SkillEffect F))
      → would_apply skill caster target now effs ≡ true
      → (eff : SkillEffect F) × IsIn eff effs
        × IsNews now skill eff (if eff.target =? "target" then target else caster).active_effects
  unfolding would_apply
  would_apply-IsNews skill caster target now [] h = absurd (false≢true h)
  would_apply-IsNews skill caster target now (eff ∷ effs) h =
      let dst = (if eff.target =? "target" then target else caster) in
      elim (Bool-cases (search_effects now (effect_of skill eff none) false dst.active_effects)) [
        | inl p ↦ (
          eff,
          (0, refl),
          elim (search_effects-IsNews now (effect_of skill eff none) false dst.active_effects p) [
            | inl (a, at, key, stale) ↦ inl (a, at, same_key-HasKey skill eff a key, stale)
            | inr fresh ↦ inr (none-HasKey skill eff dst.active_effects fresh.1)
          ],
        )
        | inr p ↦
            (let (eff', (i, at), is) =
                would_apply-IsNews skill caster target now effs (rw (p) at h) in
              (eff', (suc i, at), is))
      ]
