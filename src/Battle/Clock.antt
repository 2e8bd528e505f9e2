-- ===== src/Battle/Clock.antt =====
-- The clock of a battle (backend/internal/battle/session.go): the session, the time of its next event,
-- and the recovery while time passes.
use mathlib.Core.Bool.{false≢true}
use milkyway_liluo_idle.Prelude.{
  ◌≡◌, refl, sym, ◌∙◌, ℕ, Bool, true, false, if◌then◌else◌, Option, none, some, List, [], ◌∷◌, ◌++◌,
  map, ℤ, String, Table, filter, All,
}
use milkyway_liluo_idle.Float.{Float, IsOrdered, ◌⊕◌, ◌⊖◌, ◌⊗◌, ◌<?◌, ◌≤?◌, nought, fmax}
use milkyway_liluo_idle.Battle.Times.{first_time}
use milkyway_liluo_idle.Battle.{Entity, Attributes, clamp, final, max_hp, max_mp, max_sp}
use milkyway_liluo_idle.Battle.Effects.{refresh_stats, refresh_stats-bounds}
use milkyway_liluo_idle.Battle.Targeting.{WaveCombination}

pub record BattleConfig (F : Type 0) : Type 0 where
  -- seconds between waves
  pub interval : F
  pub combination_loop : List String
  pub weak_enemy_combinations : List (WaveCombination F)
  pub strong_enemy_combinations : List (WaveCombination F)
  pub boss_enemy_combinations : List (WaveCombination F)

-- `BattleSession`
pub record Session (A R F : Type 0) : Type 0 where
  pub config : BattleConfig F
  pub time : F
  pub running : Bool
  pub players : List (Entity A F)
  pub enemies : List (Entity A F)
  pub wave_number : ℕ
  pub wave_type : String
  pub next_wave_time : Option F
  pub respawn_times : Table ℤ (Option F)
  pub pending_battle_skill_exp : Table ℤ F
  pub pending_skill_exp : Table ℤ F
  pub hate_map : Table ℤ (Table ℤ F)
  pub rng : R

abbrev pub is_empty {ℓ} : {A : Type ℓ} → List A → Bool
is_empty [] = true
is_empty (x ∷ xs) = false

module _ {F : Type 0} where
  -- The times that are there.
  abbrev pub times_of : Table ℤ (Option F) → List F
  times_of [] = []
  times_of ((id, some t) ∷ m) = t ∷ times_of m
  times_of ((id, none) ∷ m) = times_of m

  abbrev pub time_list : Option F → List F
  time_list none = []
  time_list (some t) = t ∷ []

module _ {A F : Type 0} where
  abbrev pub alive_of : List (Entity A F) → List (Entity A F)
  alive_of = filter (λ e. e.alive)

  -- The candidates of `NextEventTime`: respawns and the next wave, and in a fight of the living the
  -- next actions.
  unfoldable pub candidates : {R : Type 0} → Session A R F → List F
  candidates s =
      let waiting = times_of s.respawn_times ++ time_list s.next_wave_time in
      if is_empty (alive_of s.players)
      then waiting
      else if is_empty (alive_of s.enemies)
      then waiting
      else waiting
        ++ map (λ e. e.next_ready_time) (alive_of s.players)
        ++ map (λ e. e.next_ready_time) (alive_of s.enemies)

module _ {A F : Type 0} ⦃f : Float F⦄ where
  -- `NextEventTime`
  unfoldable pub next_event_time : {R : Type 0} → Session A R F → Option F
  unfolding candidates first_time
  next_event_time s = first_time (candidates s)

  -- `applyNaturalRecovery`
  unfoldable pub apply_natural_recovery : Attributes A F → F → Entity A F → Entity A F
  unfolding clamp
  apply_natural_recovery attrs elapsed e = if elapsed ≤? nought then e else record e {
    hp =
        clamp (e.hp ⊕ final attrs (λ ids. ids.hp_recovery) e ⊗ elapsed) nought
          (fmax nought (max_hp attrs e));
    mp =
        clamp (e.mp ⊕ final attrs (λ ids. ids.mp_recovery) e ⊗ elapsed) nought
          (fmax nought (max_mp attrs e));
    sp =
        clamp (e.sp ⊕ final attrs (λ ids. ids.sp_recovery) e ⊗ elapsed) nought
          (fmax nought (max_sp attrs e));
  }

  unfoldable pub advance_entity : Attributes A F → F → F → Entity A F → Entity A F
  unfolding apply_natural_recovery refresh_stats
  advance_entity attrs elapsed target e =
      if e.alive then refresh_stats attrs target (apply_natural_recovery attrs elapsed e) else e

  -- `advanceTime`
  unfoldable pub advance_time : {R : Type 0} → Attributes A F → F → Session A R F → Session A R F
  unfolding advance_entity
  advance_time attrs target s =
      if target ≤? s.time
      then s
      else (let step = advance_entity attrs (target ⊖ s.time) target in
          record s { time = target; players = map step s.players; enemies = map step s.enemies })

  -- `finishWaveIfNeeded`, and whether the wave was cleared
  unfoldable pub finish_wave_if_needed : {R : Type 0} → Session A R F → Session A R F × Bool
  finish_wave_if_needed s = elim s.next_wave_time [
    | some t ↦ (s, false)
    | none ↦
        (if is_empty (alive_of s.enemies)
          then (
            record s { next_wave_time = some (s.time ⊕ fmax (f.lit 1 1) s.config.interval) },
            true,
          )
          else (s, false))
  ]

  -- The resources of an entity are not below 0 and not above their maxima.
  abbrev pub IsBounded : Attributes A F → Entity A F → Type 0
  IsBounded attrs e =
      (((e.hp <? nought) ≡ false) × ((fmax nought (max_hp attrs e) <? e.hp) ≡ false))
      × (((e.mp <? nought) ≡ false) × ((fmax nought (max_mp attrs e) <? e.mp) ≡ false))
      × (((e.sp <? nought) ≡ false) × ((fmax nought (max_sp attrs e) <? e.sp) ≡ false))

  All-map :
      (P : Entity A F → Type 0) (g : Entity A F → Entity A F) (es : List (Entity A F))
      → ((e : Entity A F) → P (g e))
      → All P (map g es)
  All-map P g [] h = tt
  All-map P g (e ∷ es) h = (h e, All-map P g es h)

  abbrev pub IsBoundedIfAlive : Attributes A F → Entity A F → Type 0
  IsBoundedIfAlive attrs e = e.alive ≡ true → IsBounded attrs e

  IsBounded-if :
      (attrs : Attributes A F) (e y : Entity A F) (b : Bool)
      → e.alive ≡ b
      → IsBounded attrs y
      → IsBoundedIfAlive attrs (if b then y else e)
  IsBounded-if attrs e y true p h q = h
  IsBounded-if attrs e y false p h q = absurd (false≢true (sym p ∙ q))

  advance_entity-IsBounded :
      (o : IsOrdered F) (attrs : Attributes A F) (elapsed target : F) (e : Entity A F)
      → IsBoundedIfAlive attrs (advance_entity attrs elapsed target e)
  unfolding advance_entity
  advance_entity-IsBounded o attrs elapsed target e =
      IsBounded-if attrs e (refresh_stats attrs target (apply_natural_recovery attrs elapsed e))
        e.alive refl (refresh_stats-bounds o attrs target (apply_natural_recovery attrs elapsed e))

  -- Over numbers that keep the order, after advanceTime to a later time that is the clock of the
  -- battle, and every player and enemy that is alive has its resources between 0 and their maxima.
  pub advance_time-IsBounded :
      {R : Type 0} (o : IsOrdered F) (attrs : Attributes A F) (target : F) (s : Session A R F)
      → (target ≤? s.time) ≡ false
      → let s' = advance_time attrs target s in
        (s'.time ≡ target)
        × All (IsBoundedIfAlive attrs) s'.players
        × All (IsBoundedIfAlive attrs) s'.enemies
  unfolding advance_time
  advance_time-IsBounded o attrs target s h =
      let bounded = advance_entity-IsBounded o attrs (target ⊖ s.time) target in
      rw (h) (refl, All-map _ _ s.players bounded, All-map _ _ s.enemies bounded)
