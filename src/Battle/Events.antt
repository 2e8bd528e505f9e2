-- ===== src/Battle/Events.antt =====
-- One event of a battle (AdvanceOneEvent of backend/internal/battle/session.go, with spawnWave of
-- wave.go). Entities are addressed by their place in the session's lists, as Go does by pointers. The
-- logs are left out. An enemy made from the configuration is a parameter.
use milkyway_liluo_idle.Prelude.{
  ℕ, zero, suc, Bool, true, false, if◌then◌else◌, Option, none, some, List, [], ◌∷◌, ◌++◌, ℤ,
  String, Table, get_elem?, lookup, or_zero, ◌=?◌, int_eq, string_eq,
}
use milkyway_liluo_idle.Float.{Float, ◌⊕◌, ◌≤?◌, fmax}
use milkyway_liluo_idle.Battle.{Entity, Attributes, Random, final, max_hp, max_mp, max_sp}
use milkyway_liluo_idle.Battle.Targeting.{
  WaveCombination, pick_weighted_combination, choose_wave_type, choose_enemy_target,
}
use milkyway_liluo_idle.Battle.Clock.{
  Session, BattleConfig, is_empty, alive_of, next_event_time, advance_time, finish_wave_if_needed,
}
use milkyway_liluo_idle.Battle.Experience.{CombatSkills, Tally}
use milkyway_liluo_idle.Battle.Combat.{process_attack}

unfoldable pub set_at {ℓ} : {A : Type ℓ} → ℕ → A → List A → List A
set_at n x [] = []
set_at zero x (y ∷ ys) = x ∷ ys
set_at (suc n) x (y ∷ ys) = y ∷ set_at n x ys

module _ {F : Type 0} ⦃f : Float F⦄ where
  abbrev pub is_due : F → Option F → Bool
  is_due now none = false
  is_due now (some t) = t ≤? now

module _ {A F : Type 0} where
  -- The places of the living, from a place on.
  unfoldable pub living : ℕ → List (Entity A F) → List ℕ
  living n [] = []
  living n (e ∷ es) = let rest = living (suc n) es in if e.alive then n ∷ rest else rest

  -- The entities at places of a list.
  unfoldable pub entities_at : List ℕ → List (Entity A F) → List (Entity A F)
  entities_at [] es = []
  entities_at (n ∷ ns) es =
      let rest = entities_at ns es in elim (get_elem? es n) [ some e ↦ e ∷ rest | none ↦ rest ]

  -- The place of the first entity with an id.
  unfoldable pub place_of : ℤ → List (Entity A F) → ℕ
  place_of id [] = 0
  place_of id (e ∷ es) = let rest = place_of id es in if e.entity_id =? id then 0 else suc rest

module _ {A F : Type 0} ⦃f : Float F⦄ (attrs : Attributes A F) where
  abbrev pub first_action : F → Entity A F → F
  first_action now e = now ⊕ fmax (f.lit 1 1) (final attrs (λ ids. ids.attack_interval) e)

  -- What a respawn sets.
  abbrev pub revive : F → Entity A F → Entity A F
  revive now p = record p {
    alive = true;
    hp = max_hp attrs p;
    mp = max_mp attrs p;
    sp = max_sp attrs p;
    next_ready_time = first_action now p;
  }

  -- The first player with the id, as `playerByID` finds it.
  unfoldable pub revive_by_id : F → ℤ → List (Entity A F) → List (Entity A F)
  revive_by_id now id [] = []
  revive_by_id now id (p ∷ ps) =
      let rest = revive_by_id now id ps in if p.entity_id =? id then revive now p ∷ ps else p ∷ rest

  -- The loop over the respawn timers.
  unfoldable pub respawn :
      F → Table ℤ (Option F) → List (Entity A F) → Table ℤ (Option F) × List (Entity A F)
  unfolding revive_by_id
  respawn now [] ps = ([], ps)
  respawn now ((id, t) ∷ m) ps =
      let rest = respawn now m (if is_due now t then revive_by_id now id ps else ps) in
      ((id, if is_due now t then none else t) ∷ rest.0, rest.1)

  -- The enemies of a group, at full health; a name that is not configured is skipped.
  unfoldable pub spawn :
      (String → ℕ → Option (Entity A F)) → F → ℕ → List String → List (Entity A F)
  spawn make_enemy now n [] = []
  spawn make_enemy now n (name ∷ names) =
      let rest = spawn make_enemy now (suc n) names in
      elim (make_enemy name n) [
        | some e ↦ record e { hp = max_hp attrs e; next_ready_time = first_action now e } ∷ rest
        | none ↦ rest
      ]

  abbrev combinations : BattleConfig F → String → List (WaveCombination F)
  combinations c kind =
      if kind =? "weak"
      then c.weak_enemy_combinations
      else if kind =? "strong"
      then c.strong_enemy_combinations
      else if kind =? "boss"
      then c.boss_enemy_combinations
      else []

  -- `spawnWave`
  unfoldable pub spawn_wave :
      {R : Type 0} → Random R F → (String → ℕ → Option (Entity A F)) → Session A R F → Session A R F
  unfolding choose_wave_type or_zero pick_weighted_combination spawn
  spawn_wave rng make_enemy s =
      let number = suc s.wave_number in
      let kind = or_zero "" (choose_wave_type s.config.combination_loop number) in
      let picked = pick_weighted_combination rng (combinations s.config kind) s.rng in
      record s {
        wave_number = number;
        wave_type = kind;
        next_wave_time = none;
        rng = picked.1;
        enemies =
            s.enemies
            ++ (elim picked.0 [ some c ↦ spawn make_enemy s.time 0 c.enemies | none ↦ [] ]);
      }

module _ {A R F : Type 0} ⦃f : Float F⦄ (attrs : Attributes A F) (rng : Random R F)
    (ids : CombatSkills) where
  abbrev tally_of : Session A R F → Tally R F
  tally_of s = record {
    pending_battle_skill_exp = s.pending_battle_skill_exp;
    pending_skill_exp = s.pending_skill_exp;
    hate_map = s.hate_map;
    respawn_times = s.respawn_times;
    rng = s.rng;
  }

  abbrev with_tally : Tally R F → Session A R F → Session A R F
  with_tally t s = record s {
    pending_battle_skill_exp = t.pending_battle_skill_exp;
    pending_skill_exp = t.pending_skill_exp;
    hate_map = t.hate_map;
    respawn_times = t.respawn_times;
    rng = t.rng;
  }

  -- The attack of a player on an enemy, at their places, if the player is ready.
  unfoldable pub player_attack : ℕ → ℕ → Session A R F → Session A R F
  unfolding process_attack set_at
  player_attack j i s = elim (get_elem? s.players i) [
    | none ↦ s
    | some p ↦ elim (get_elem? s.enemies j) [
      | none ↦ s
      | some e ↦
          (let o = process_attack attrs rng ids s.time s.config.interval p e (tally_of s) in
            if p.next_ready_time ≤? s.time
            then record (with_tally o.tally s) {
              players = set_at i o.attacker s.players;
              enemies = set_at j o.defender s.enemies;
            }
            else s)
    ]
  ]

  unfoldable pub player_attacks : ℕ → List ℕ → Session A R F → Session A R F
  unfolding player_attack
  player_attacks j [] s = s
  player_attacks j (i ∷ is) s = player_attacks j is (player_attack j i s)

  -- The attack of an enemy on the chosen one of the players that were alive before the attacks.
  unfoldable pub enemy_attack : List ℕ → ℕ → Session A R F → Session A R F
  unfolding process_attack set_at choose_enemy_target entities_at place_of or_zero lookup
  enemy_attack is j s = elim (get_elem? s.enemies j) [
    | none ↦ s
    | some e ↦
        (let hate = or_zero [] (lookup e.entity_id s.hate_map) in
          let chosen = choose_enemy_target attrs rng hate (entities_at is s.players) s.rng in
          if e.next_ready_time ≤? s.time
          then elim chosen.0 [
            | none ↦ record s { rng = chosen.1 }
            | some p ↦
                (let o =
                    process_attack attrs rng ids s.time s.config.interval e p
                      (tally_of (record s { rng = chosen.1 })) in
                  record (with_tally o.tally s) {
                    players = set_at (place_of p.entity_id s.players) o.defender s.players;
                    enemies = set_at j o.attacker s.enemies;
                  })
          ]
          else s)
  ]

  unfoldable pub enemy_attacks : List ℕ → List ℕ → Session A R F → Session A R F
  unfolding enemy_attack
  enemy_attacks is [] s = s
  enemy_attacks is (j ∷ js) s = enemy_attacks is js (enemy_attack is j s)

  -- The players attack the first of the living enemies.
  unfoldable pub players_fight : List ℕ → List ℕ → Session A R F → Session A R F
  unfolding player_attacks
  players_fight alive [] s = s
  players_fight alive (j ∷ js) s = player_attacks j alive s

  -- The attacks of an event.
  unfoldable pub fight : List ℕ → Session A R F → Session A R F
  unfolding players_fight enemy_attacks living
  fight alive s =
      let s1 = players_fight alive (living 0 s.enemies) s in
      enemy_attacks (living 0 s1.players) (living 0 s1.enemies) s1

  unfoldable pub finish : Session A R F → Session A R F
  unfolding finish_wave_if_needed
  finish s = if is_empty (alive_of s.players) then s else (finish_wave_if_needed s).0

  -- The parts of an event after the clock has moved, in their order.
  unfoldable pub event_now : (String → ℕ → Option (Entity A F)) → Session A R F → Session A R F
  unfolding respawn spawn_wave fight finish living
  event_now make_enemy s =
      let back = respawn attrs s.time s.respawn_times s.players in
      let s1 = record s { respawn_times = back.0; players = back.1 } in
      let alive = living 0 s1.players in
      if is_empty alive
      then s1
      else finish (
          fight alive
            (if is_due s1.time s1.next_wave_time then spawn_wave attrs rng make_enemy s1 else s1))

  -- `AdvanceOneEvent`
  unfoldable pub advance_one_event :
      (String → ℕ → Option (Entity A F)) → Session A R F → Session A R F
  unfolding next_event_time advance_time event_now
  advance_one_event make_enemy s =
      if s.running
      then elim (next_event_time s) [
        | none ↦ record s { running = false }
        | some t ↦ event_now make_enemy (advance_time attrs t s)
      ]
      else s
