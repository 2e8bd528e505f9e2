-- ===== src/Battle/Tests.antt =====
-- A fight of one player and one enemy, over thousandths, whose attributes do not depend on modifiers.
use milkyway_liluo_idle.Prelude.{
  ℕ, ◌≡◌, ◌⊎◌, refl, true, false, none, some, inl, lookup, arith, [], ◌∷◌, ℤ, pos, negsuc, All,
  if◌then◌else◌, ◌=?◌, int_eq,
}
use milkyway_liluo_idle.Milli.{Milli, milli, whole, milli_float, Milli-IsOrdered}
use milkyway_liluo_idle.Battle.{
  Entity, Team, player, enemy, BattleSkill, ActiveEffect, flat, AttrIds, Attributes, Random,
}
use milkyway_liluo_idle.Battle.Damage.{calc_damage, IsSound, calc_damage-IsSound}
use milkyway_liluo_idle.Battle.Targeting.{IsBelow}
use milkyway_liluo_idle.Float.{◌<?◌, ◌≤?◌}
use milkyway_liluo_idle.Battle.Timing.{IsEventAt, next_event_time-IsEventAt}
use milkyway_liluo_idle.Battle.Choosing.{IsPlanned, IsBasic, IsNoStrike, choose_skill-IsPlanned}
use milkyway_liluo_idle.Battle.Clock.{
  Session, next_event_time, advance_time, IsBoundedIfAlive, advance_time-IsBounded,
}
use milkyway_liluo_idle.Battle.Experience.{CombatSkills, Tally}
use milkyway_liluo_idle.Battle.Choice.{choose_skill}
use milkyway_liluo_idle.Battle.Combat.{process_attack}
use milkyway_liluo_idle.Battle.Outcomes.{IsSettled, process_attack-IsSettled}

abbrev ids : AttrIds
ids = record {
  physical_power = pos 1;
  magic_power = pos 2;
  accuracy = pos 3;
  attack_interval = pos 4;
  defense = pos 5;
  hatred_multiplier = pos 6;
  hp_recovery = pos 7;
  hp = pos 8;
  mp = pos 9;
  sp = pos 10;
  critical = pos 11;
  critical_rate = pos 12;
  block = pos 13;
  block_possibility_multiplier = pos 14;
  block_rate = pos 15;
  evade = pos 16;
  evade_possibility_multiplier = pos 17;
  accuracy_possibility_multiplier = pos 18;
  magic_instance = pos 19;
  final_damage_multiplier = pos 20;
  final_damage_reduce = pos 21;
  hatred = pos 22;
  mp_recovery = pos 23;
  sp_recovery = pos 24;
}

-- Twenty of the hit points, and five of all else.
abbrev pub attributes : Attributes ℕ Milli
attributes = record {
  ids = ids;
  get_final = λ id a. if id =? pos 8 then whole 20 else whole 5;
  add_modifiers = λ source mods a. a;
}

-- A source of halves.
abbrev pub halves : Random ℕ Milli
halves = record { float64 = λ n. (milli (pos 500), n); intn = λ n r. (0, r) }

halves-IsBelow : IsBelow halves
halves-IsBelow n r h = h

abbrev strike : BattleSkill Milli
strike = record {
  id = pos 7;
  damage = some (record { kind = ""; flat = whole 1; multiplier = whole 2 });
  mp_cost = whole 1;
  sp_cost = whole 0;
  cast_time = whole 0;
  cooldown = whole 3;
  effects = [];
  physical_style = "";
}

abbrev shield : ActiveEffect Milli
shield = record {
  source_skill_id = pos 9;
  attribute = pos 5;
  mode = flat;
  value = whole 1;
  expires_at = some (whole 2);
}

abbrev pub fighter : Team → ℤ → Milli → Entity ℕ Milli
fighter team id hp = record {
  entity_id = id;
  team = team;
  alive = true;
  hp = hp;
  mp = whole 5;
  sp = whole 5;
  attr = 0;
  cached_max_hp = whole 20;
  cached_max_mp = whole 5;
  cached_max_sp = whole 5;
  next_ready_time = whole 6;
  last_action_duration = whole 1;
  cooldowns = [];
  active_effects = shield ∷ [];
  skills = (pos 7, strike) ∷ [];
  skill_plan = pos 7 ∷ [];
  basic_skill_id = pos 0;
  last_skill_id = pos 0;
}

abbrev pub hero : Entity ℕ Milli
hero = fighter player (pos 1) (whole 1)

abbrev pub wolf : Entity ℕ Milli
wolf = fighter enemy (negsuc 0) (whole 20)

abbrev pub session : Session ℕ ℕ Milli
session = record {
  config = record {
    interval = whole 10;
    combination_loop = [];
    weak_enemy_combinations = [];
    strong_enemy_combinations = [];
    boss_enemy_combinations = [];
  };
  time = whole 1;
  running = true;
  players = hero ∷ [];
  enemies = wolf ∷ [];
  wave_number = 1;
  wave_type = "weak";
  next_wave_time = none;
  respawn_times = (pos 2, some (whole 4)) ∷ (pos 1, none) ∷ [];
  pending_battle_skill_exp = [];
  pending_skill_exp = [];
  hate_map = [];
  rng = 0;
}

abbrev tally : Tally ℕ Milli
tally = record {
  pending_battle_skill_exp = [];
  pending_skill_exp = [];
  hate_map = [];
  respawn_times = [];
  rng = 0;
}

abbrev pub skills : CombatSkills
skills = record {
  magic = some (pos 1);
  strength = some (pos 2);
  ranging = some (pos 3);
  resilience = some (pos 4);
  defense = none;
}

calc_damage-IsSound_example :
    IsSound attributes halves (calc_damage attributes halves hero wolf strike 0).0
calc_damage-IsSound_example =
    calc_damage-IsSound attributes halves Milli-IsOrdered hero wolf strike 0

numbers : (v : Milli) → (v ≤? v) ≡ true
numbers v = ground arith

next_event_time-IsEventAt_example :
    (t : Milli) × (next_event_time session ≡ some t)
    × IsEventAt session t
    × ((whole 4 <? t) ≡ false)
next_event_time-IsEventAt_example =
    next_event_time-IsEventAt Milli-IsOrdered session (whole 4) (λ v event. numbers v)
      (inl (pos 2, (0, refl)))

advance_time-IsBounded_example :
    let s' = advance_time attributes (whole 4) session in
    (s'.time ≡ whole 4)
    × All (IsBoundedIfAlive attributes) s'.players
    × All (IsBoundedIfAlive attributes) s'.enemies
advance_time-IsBounded_example =
    advance_time-IsBounded Milli-IsOrdered attributes (whole 4) session refl

process_attack-IsSettled_example :
    let o = process_attack attributes halves skills (whole 6) (whole 10) wolf hero tally in
    IsSettled (whole 6) (whole 10) hero o.defender tally.respawn_times o.tally.respawn_times
process_attack-IsSettled_example =
    process_attack-IsSettled attributes halves skills (whole 6) (whole 10) wolf hero tally

choose_skill-IsPlanned_example :
    let skill = choose_skill attributes (whole 6) wolf hero in
    IsPlanned (whole 6) wolf hero skill
    ⊎ (IsBasic wolf skill
        × All (λ id. IsNoStrike (whole 6) wolf (lookup id wolf.skills)) wolf.skill_plan)
choose_skill-IsPlanned_example = choose_skill-IsPlanned attributes (whole 6) wolf hero
