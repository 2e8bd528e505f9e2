-- ===== src/Battle/Passing.antt =====
-- The clock, the configuration and the number of the wave in an event of a battle
-- (backend/internal/battle/session.go and wave.go).
use milkyway_liluo_idle.Prelude.{
  ℕ, suc, ◌≡◌, refl, ◌∙◌, true, false, if◌then◌else◌, Option, none, some, List, [], ◌∷◌, String,
  Bool-cases, inl, inr, arith,
}
use milkyway_liluo_idle.Float.{Float, ◌≤?◌}
use milkyway_liluo_idle.Battle.{Entity, Attributes, Random}
use milkyway_liluo_idle.Battle.Clock.{
  Session, is_empty, next_event_time, advance_time, finish_wave_if_needed,
}
use milkyway_liluo_idle.Battle.Experience.{CombatSkills}
use milkyway_liluo_idle.Battle.Events.{
  is_due, living, respawn, spawn_wave, player_attack, player_attacks, enemy_attack, enemy_attacks,
  players_fight, fight, finish, event_now, advance_one_event,
}

module _ {A R F : Type 0} ⦃f : Float F⦄ (attrs : Attributes A F) (rng : Random R F)
    (ids : CombatSkills) where
  -- The sessions have the same clock, configuration and number of the wave, and run both or neither.
  abbrev pub IsKept : Session A R F → Session A R F → Type 0
  IsKept s s' =
      (s'.time ≡ s.time)
      × (s'.running ≡ s.running)
      × (s'.config ≡ s.config)
      × (s'.wave_number ≡ s.wave_number)

  trans : (a b c : Session A R F) → IsKept a b → IsKept b c → IsKept a c
  trans a b c p q = (q.0 ∙ p.0, q.1 ∙ p.1, q.2 ∙ p.2, q.3 ∙ p.3)

  player_attack-IsKept :
      (j i : ℕ) (s : Session A R F) → IsKept s (player_attack attrs rng ids j i s)
  unfolding player_attack
  player_attack-IsKept j i s = ground arith

  player_attacks-IsKept :
      (j : ℕ) (is : List ℕ) (s : Session A R F) → IsKept s (player_attacks attrs rng ids j is s)
  unfolding player_attacks
  player_attacks-IsKept j [] s = (refl, refl, refl, refl)
  player_attacks-IsKept j (i ∷ is) s =
      let s1 = player_attack attrs rng ids j i s in
      trans s s1 (player_attacks attrs rng ids j is s1) (player_attack-IsKept j i s)
        (player_attacks-IsKept j is s1)

  enemy_attack-IsKept :
      (is : List ℕ) (j : ℕ) (s : Session A R F) → IsKept s (enemy_attack attrs rng ids is j s)
  unfolding enemy_attack
  enemy_attack-IsKept is j s = ground arith

  enemy_attacks-IsKept :
      (is js : List ℕ) (s : Session A R F) → IsKept s (enemy_attacks attrs rng ids is js s)
  unfolding enemy_attacks
  enemy_attacks-IsKept is [] s = (refl, refl, refl, refl)
  enemy_attacks-IsKept is (j ∷ js) s =
      let s1 = enemy_attack attrs rng ids is j s in
      trans s s1 (enemy_attacks attrs rng ids is js s1) (enemy_attack-IsKept is j s)
        (enemy_attacks-IsKept is js s1)

  finish-IsKept : (s : Session A R F) → IsKept s (finish attrs rng ids s)
  unfolding finish finish_wave_if_needed
  finish-IsKept s = ground arith

  players_fight-IsKept :
      (alive js : List ℕ) (s : Session A R F) → IsKept s (players_fight attrs rng ids alive js s)
  unfolding players_fight
  players_fight-IsKept alive [] s = (refl, refl, refl, refl)
  players_fight-IsKept alive (j ∷ js) s = player_attacks-IsKept j alive s

  fight-IsKept : (alive : List ℕ) (s : Session A R F) → IsKept s (fight attrs rng ids alive s)
  unfolding fight
  fight-IsKept alive s =
      let s1 = players_fight attrs rng ids alive (living 0 s.enemies) s in
      trans s s1 (enemy_attacks attrs rng ids (living 0 s1.players) (living 0 s1.enemies) s1)
        (players_fight-IsKept alive (living 0 s.enemies) s)
        (enemy_attacks-IsKept (living 0 s1.players) (living 0 s1.enemies) s1)

  -- The players once the timers that are due have fired.
  abbrev back : Session A R F → List (Entity A F)
  back s = (respawn attrs s.time s.respawn_times s.players).1

  -- The number of the wave after an event at the time of the clock.
  abbrev pub wave_after : Session A R F → ℕ
  wave_after s =
      if is_empty (living 0 (back s))
      then s.wave_number
      else if is_due s.time s.next_wave_time
      then suc s.wave_number
      else s.wave_number

  -- The clock, the configuration and the run are those of the first session, and the number of the
  -- wave is the one of an event.
  abbrev pub IsStepped : Session A R F → Session A R F → Type 0
  IsStepped s s' =
      (s'.time ≡ s.time)
      × (s'.running ≡ s.running)
      × (s'.config ≡ s.config)
      × (s'.wave_number ≡ wave_after s)

  event_now-IsStepped :
      (make_enemy : String → ℕ → Option (Entity A F)) (s : Session A R F)
      → IsStepped s (event_now attrs rng ids make_enemy s)
  unfolding event_now spawn_wave
  event_now-IsStepped make_enemy s =
      let b = respawn attrs s.time s.respawn_times s.players in
      let s1 = record s { respawn_times = b.0; players = b.1 } in
      let alive = living 0 s1.players in
      let ends = λ (s2 : Session A R F).
        trans s2 (fight attrs rng ids alive s2)
          (finish attrs rng ids (fight attrs rng ids alive s2)) (fight-IsKept alive s2)
          (finish-IsKept (fight attrs rng ids alive s2)) in
      elim (Bool-cases (is_empty alive)) [
        | inl e ↦ rw (e) (refl, refl, refl, refl)
        | inr e ↦ elim (Bool-cases (is_due s.time s.next_wave_time)) [
          | inl d ↦ rw (e, d) (ends (spawn_wave attrs rng make_enemy s1))
          | inr d ↦ rw (e, d) (ends s1)
        ]
      ]

  -- What an event at a time has done to a session, or the stop of a battle without one.
  abbrev pub HasAdvanced : Session A R F → Option F → Session A R F → Type 0
  HasAdvanced s none s' = s' ≡ record s { running = false }
  HasAdvanced s (some t) s' =
      (s'.time ≡ (if t ≤? s.time then s.time else t))
      × (s'.running ≡ true)
      × (s'.config ≡ s.config)
      × (s'.wave_number ≡ wave_after (advance_time attrs t s))

  clock-advance_time :
      (t : F) (s : Session A R F)
      → ((advance_time attrs t s).time ≡ (if t ≤? s.time then s.time else t))
        × ((advance_time attrs t s).running ≡ s.running)
        × ((advance_time attrs t s).config ≡ s.config)
  unfolding advance_time
  clock-advance_time t s = elim (Bool-cases (t ≤? s.time)) [
    | inl e ↦ rw (e) (refl, refl, refl)
    | inr e ↦ rw (e) (refl, refl, refl)
  ]

  next-HasAdvanced :
      (make_enemy : String → ℕ → Option (Entity A F)) (s : Session A R F) (next : Option F)
      → s.running ≡ true
      → HasAdvanced s next (elim next [
        | none ↦ record s { running = false }
        | some t ↦ event_now attrs rng ids make_enemy (advance_time attrs t s)
      ])
  next-HasAdvanced make_enemy s none r = refl
  next-HasAdvanced make_enemy s (some t) r =
      let s1 = advance_time attrs t s in
      let moved = clock-advance_time t s in
      let e = event_now-IsStepped make_enemy s1 in
      (e.0 ∙ moved.0, e.1 ∙ moved.1 ∙ r, e.2 ∙ moved.2, e.3)

  -- AdvanceOneEvent of a battle that runs stops it if there is no next event, and changes nothing
  -- else then; otherwise the battle goes on with the clock at the time of that event, or where it was
  -- if it was later, and the number of the wave rises, by one, just when a wave is due at that time
  -- and a player is alive once those whose timer is due are back.
  pub advance_one_event-HasAdvanced :
      (make_enemy : String → ℕ → Option (Entity A F)) (s : Session A R F)
      → s.running ≡ true
      → HasAdvanced s (next_event_time s) (advance_one_event attrs rng ids make_enemy s)
  unfolding advance_one_event
  advance_one_event-HasAdvanced make_enemy s r =
      simp (r) (next-HasAdvanced make_enemy s (next_event_time s) r)
