-- ===== src/Battle/EventTests.antt =====
-- An event of a battle of two players, one of them down, at which a player comes back and a wave is due.
use milkyway_liluo_idle.Prelude.{
  ℕ, ◌≡◌, refl, false, some, Option, [], ◌∷◌, pos, All, map, String, IsKeyed, lookup, int_eq,
}
use milkyway_liluo_idle.Milli.{Milli, whole, milli_float}
use milkyway_liluo_idle.Battle.{Entity, player}
use milkyway_liluo_idle.Battle.Clock.{Session, candidates, next_event_time}
use milkyway_liluo_idle.Battle.Events.{respawn, advance_one_event}
use milkyway_liluo_idle.Battle.Respawn.{respawned, IsAhead, respawn-respawned}
use milkyway_liluo_idle.Battle.Passing.{HasAdvanced, advance_one_event-HasAdvanced}
use milkyway_liluo_idle.Battle.Tests.{attributes, halves, fighter, hero, wolf, session, skills}

abbrev downed : Entity ℕ Milli
downed = record (fighter player (pos 2) (whole 0)) { alive = false }

abbrev raid : Session ℕ ℕ Milli
raid = record session {
  players = hero ∷ downed ∷ [];
  enemies = [];
  config = record session.config {
    weak_enemy_combinations = record { weight = whole 1; enemies = "wolf" ∷ [] } ∷ [];
  };
  next_wave_time = some (whole 4);
}

abbrev make_enemy : String → ℕ → Option (Entity ℕ Milli)
make_enemy name n = some wolf

timers-IsKeyed : IsKeyed raid.respawn_times
unfolding IsKeyed lookup
timers-IsKeyed = (refl, (refl, tt))

respawn-respawned_example :
    let done = respawn attributes (whole 4) raid.respawn_times raid.players in
    (done.1 ≡ map (respawned attributes (whole 4) raid.respawn_times) (hero ∷ downed ∷ []))
    × All (λ r. IsAhead attributes (whole 4) r.1) done.0
respawn-respawned_example =
    respawn-respawned attributes (whole 4) raid.respawn_times raid.players timers-IsKeyed
      ((refl, tt), (tt, tt))

advance_one_event-HasAdvanced_example :
    HasAdvanced attributes halves skills raid
      (some (whole 4))
      (advance_one_event attributes halves skills make_enemy raid)
unfolding candidates next_event_time
advance_one_event-HasAdvanced_example =
    advance_one_event-HasAdvanced attributes halves skills make_enemy raid refl
