-- ===== src/Battle/Effects.antt =====
-- Effects on an entity (effect.go, and ApplyEffect, syncEffectsForSource and RefreshStats of
-- player_entity.go and enemy_entity.go, backend/internal/battle).
use milkyway_liluo_idle.Prelude.{
  ◌≡◌, Bool, true, false, ◌&&◌, ◌||◌, not, if◌then◌else◌, Option, none, some, List, [], ◌∷◌, ℤ,
  ◌=?◌, int_eq, string_eq, filter, if_rule,
}
use milkyway_liluo_idle.Float.{Float, IsOrdered, ◌⊕◌, ◌⊗◌, ◌⊘◌, ◌<?◌, ◌≤?◌, ◌==?◌, nought, fmax}
use milkyway_liluo_idle.Float.Order.{lt_irrefl, clamped, not_negative}
use milkyway_liluo_idle.Battle.{
  Entity, BattleSkill, SkillEffect, ActiveEffect, EffectMode, flat, percent_mult, OpType, op_add,
  op_multiply, Modifier, Attributes, max_hp, max_mp, max_sp,
}

abbrev pub mode_beq : EffectMode → EffectMode → Bool
mode_beq flat flat = true
mode_beq percent_mult percent_mult = true
mode_beq flat percent_mult = false
mode_beq percent_mult flat = false

abbrev pub op_of : EffectMode → OpType
op_of flat = op_add
op_of percent_mult = op_multiply

module _ {F : Type 0} where
  -- Whether two effects have the same `effectKey`, a text of these three parts.
  unfoldable pub same_key : ActiveEffect F → ActiveEffect F → Bool
  same_key a b =
      (a.source_skill_id =? b.source_skill_id)
      && (a.attribute =? b.attribute)
      && mode_beq a.mode b.mode

  -- The first effect with the key is replaced; if there is none, the effect is appended.
  unfoldable pub put_effect : ActiveEffect F → List (ActiveEffect F) → List (ActiveEffect F)
  unfolding same_key
  put_effect e [] = e ∷ []
  put_effect e (a ∷ effs) =
      let rest = put_effect e effs in if same_key a e then e ∷ effs else a ∷ rest

  -- The modifiers of the effects of a skill.
  unfoldable pub modifiers_of : ℤ → List (ActiveEffect F) → List (Modifier F)
  modifiers_of source [] = []
  modifiers_of source (e ∷ effs) =
      let rest = modifiers_of source effs in
      if e.source_skill_id =? source
      then record { attr_id = e.attribute; op = op_of e.mode; value = e.value } ∷ rest
      else rest

  -- `ApplyEffect` with `syncEffectsForSource`
  unfoldable pub apply_effect :
      {A : Type 0} → Attributes A F → ActiveEffect F → Entity A F → Entity A F
  unfolding put_effect modifiers_of
  apply_effect attrs e x =
      let effs = put_effect e x.active_effects in
      record x {
        active_effects = effs;
        attr = attrs.add_modifiers e.source_skill_id (modifiers_of e.source_skill_id effs) x.attr;
      }

module _ {F : Type 0} ⦃f : Float F⦄ where
  abbrev pub is_expired : F → ActiveEffect F → Bool
  is_expired now e = elim e.expires_at [ some t ↦ t ≤? now | none ↦ false ]

  unfoldable pub purge : F → List (ActiveEffect F) → List (ActiveEffect F)
  purge now effs = filter (λ e. not (is_expired now e)) effs

  -- `scaleCurrent`
  unfoldable pub scale_current : F → F → F → F
  scale_current cur old_max new_max =
      if new_max ≤? nought
      then nought
      else (let v = new_max ⊗ (cur ⊘ old_max) in
          if v <? nought then nought else if new_max <? v then new_max else v)

  -- One resource in `rescaleResources`.
  unfoldable pub rescaled : F → F → F → F
  unfolding scale_current
  rescaled cur old_max max = scale_current cur (fmax (f.lit 1 6) old_max) (fmax nought max)

  -- `RefreshStats`
  unfoldable pub refresh_stats : {A : Type 0} → Attributes A F → F → Entity A F → Entity A F
  unfolding purge rescaled
  refresh_stats attrs now x = record x {
    active_effects = purge now x.active_effects;
    hp = rescaled x.hp x.cached_max_hp (max_hp attrs x);
    mp = rescaled x.mp x.cached_max_mp (max_mp attrs x);
    sp = rescaled x.sp x.cached_max_sp (max_sp attrs x);
    cached_max_hp = max_hp attrs x;
    cached_max_mp = max_mp attrs x;
    cached_max_sp = max_sp attrs x;
  }

  -- The body of the inner loop of `skillWouldApplyEffect`, once an effect with the key is found.
  abbrev pub would_change : F → F → ActiveEffect F → Bool
  would_change now value e = if is_expired now e then true else not (e.value ==? value)

  abbrev pub effect_of : BattleSkill F → SkillEffect F → Option F → ActiveEffect F
  effect_of skill eff expires = record {
    source_skill_id = skill.id;
    attribute = eff.attribute;
    mode = eff.mode;
    value = eff.value;
    expires_at = expires;
  }

  -- The inner loop: whether an effect with the key changes, or none is found.
  unfoldable pub search_effects : F → ActiveEffect F → Bool → List (ActiveEffect F) → Bool
  unfolding same_key
  search_effects now c found [] = not found
  search_effects now c found (a ∷ effs) =
      let rest = search_effects now c (found || same_key a c) effs in
      if same_key a c && would_change now c.value a then true else rest

  -- `skillWouldApplyEffect`
  unfoldable pub would_apply :
      {A : Type 0} → BattleSkill F → Entity A F → Entity A F → F → List (SkillEffect F) → Bool
  unfolding search_effects
  would_apply skill caster target now [] = false
  would_apply skill caster target now (eff ∷ effs) =
      let rest = would_apply skill caster target now effs in
      let dst = (if eff.target =? "target" then target else caster) in
      if search_effects now (effect_of skill eff none) false dst.active_effects then true else rest

  -- One round of `applySkillEffects`, on the caster and the target.
  unfoldable pub apply_skill_effect :
      {A : Type 0}
      → Attributes A F
      → F
      → BattleSkill F
      → SkillEffect F
      → Entity A F × Entity A F
      → Entity A F × Entity A F
  unfolding apply_effect
  apply_skill_effect attrs now skill eff (caster, target) =
      let e =
        effect_of skill eff (if nought <? eff.duration then some (now ⊕ eff.duration) else none) in
      if eff.target =? "target"
      then (caster, apply_effect attrs e target)
      else (apply_effect attrs e caster, target)

  unfoldable pub apply_skill_effects :
      {A : Type 0}
      → Attributes A F
      → F
      → BattleSkill F
      → List (SkillEffect F)
      → Entity A F × Entity A F
      → Entity A F × Entity A F
  unfolding apply_skill_effect
  apply_skill_effects attrs now skill [] pair = pair
  apply_skill_effects attrs now skill (eff ∷ effs) pair =
      apply_skill_effects attrs now skill effs (apply_skill_effect attrs now skill eff pair)

  scale_current-bounds :
      (o : IsOrdered F) (cur old m : F)
      → let v = scale_current cur old (fmax nought m) in
        ((v <? nought) ≡ false) × ((fmax nought m <? v) ≡ false)
  unfolding scale_current
  scale_current-bounds o cur old m =
      let top = fmax nought m in
      let v = top ⊗ (cur ⊘ old) in
      if_rule (λ (x : F). ((x <? nought) ≡ false) × ((top <? x) ≡ false)) (top ≤? nought)
        (lt_irrefl o nought, not_negative o m) (clamped o v top (not_negative o m))

  -- Over numbers that keep the order, after RefreshStats the hit points, magic points and stamina of
  -- an entity are not below 0 and not above their maxima, whatever the old values and maxima.
  pub refresh_stats-bounds :
      {A : Type 0} (o : IsOrdered F) (attrs : Attributes A F) (now : F) (x : Entity A F)
      → let y = refresh_stats attrs now x in
        (((y.hp <? nought) ≡ false) × ((fmax nought (max_hp attrs y) <? y.hp) ≡ false))
        × (((y.mp <? nought) ≡ false) × ((fmax nought (max_mp attrs y) <? y.mp) ≡ false))
        × (((y.sp <? nought) ≡ false) × ((fmax nought (max_sp attrs y) <? y.sp) ≡ false))
  unfolding refresh_stats rescaled
  refresh_stats-bounds o attrs now x =
      (scale_current-bounds o _ _ _, scale_current-bounds o _ _ _, scale_current-bounds o _ _ _)
