-- ===== src/Battle/Delta.antt =====
-- The start of a battle and its advance by a span of time (backend/internal/battle/session.go), on fuel for
-- the number of events.
use milkyway_liluo_idle.Prelude.{
  ℕ, zero, suc, ◌≡◌, refl, sym, subst, ◌∙◌, ap, Bool, true, false, if◌then◌else◌, Option, none,
  some, List, [], String, map, if_rule,
}
use milkyway_liluo_idle.Float.{Float, ◌⊕◌, ◌⊖◌, ◌≤?◌, ◌<?◌, nought, fmax}
use milkyway_liluo_idle.Battle.{Entity, Attributes, Random, final}
use milkyway_liluo_idle.Battle.Clock.{
  BattleConfig, Session, advance_entity, next_event_time, advance_time, candidates,
}
use milkyway_liluo_idle.Battle.Experience.{CombatSkills}
use milkyway_liluo_idle.Battle.Events.{respawn, living, event_now, advance_one_event}

module _ {A F : Type 0} ⦃f : Float F⦄ (attrs : Attributes A F) where
  -- A player is ready after the first interval and that of its attacks.
  abbrev ready_at : F → Entity A F → Entity A F
  ready_at interval p =
      let attack_interval = fmax (f.lit 1 1) (final attrs (λ ids. ids.attack_interval) p) in
      record p {
        next_ready_time = interval ⊕ attack_interval;
        last_action_duration = attack_interval;
      }

module _ {A R F : Type 0} ⦃f : Float F⦄ (attrs : Attributes A F) where
  -- `NewBattleSession`, with the random source
  unfoldable pub new_battle_session : BattleConfig F → List (Entity A F) → R → Session A R F
  new_battle_session config players rng =
      let interval = fmax (f.lit 1 1) config.interval in
      record {
        config = config;
        time = nought;
        running = true;
        players = map (ready_at attrs interval) players;
        enemies = [];
        wave_number = 0;
        wave_type = "";
        next_wave_time = some interval;
        respawn_times = [];
        pending_battle_skill_exp = [];
        pending_skill_exp = [];
        hate_map = [];
        rng = rng;
      }

module _ {A R F : Type 0} ⦃f : Float F⦄ (attrs : Attributes A F) (rng : Random R F)
    (ids : CombatSkills) where
  -- The body of the loop of `AdvanceByDelta`, by the time of the next event: the session at the end of
  -- the span, that behind the event, and what the loop makes of it.
  unfoldable pub go_on :
      Option F → F → Session A R F → Session A R F → Option (Session A R F) → Option (Session A R F)
  go_on none target over s1 again = some over
  go_on (some t) target over s1 again =
      if target <? t then some over else if s1.running then again else some s1

  unfoldable pub advance_until :
      ℕ → (String → ℕ → Option (Entity A F)) → F → Session A R F → Option (Session A R F)
  unfolding go_on
  advance_until zero make_enemy target s = none
  advance_until (suc n) make_enemy target s =
      let s1 = advance_one_event attrs rng ids make_enemy s in
      go_on (next_event_time s) target (advance_time attrs target s) s1
        (advance_until n make_enemy target s1)

  -- `AdvanceByDelta`
  unfoldable pub advance_by_delta :
      ℕ → (String → ℕ → Option (Entity A F)) → F → Session A R F → Option (Session A R F)
  unfolding advance_until
  advance_by_delta n make_enemy delta s =
      let advanced = advance_until n make_enemy (s.time ⊕ delta) s in
      if s.running then advanced else some s

  -- A battle that runs without players, and has a wave ahead.
  record IsDeserted (t : F) (s : Session A R F) : Type 0 where
    runs : s.running ≡ true
    nobody : s.players ≡ []
    timeless : s.respawn_times ≡ []
    ahead : s.next_wave_time ≡ some t

  next_event_time-IsDeserted :
      (t : F) (s : Session A R F) → IsDeserted t s → next_event_time s ≡ some t
  unfolding next_event_time candidates
  next_event_time-IsDeserted t s h = rw (h.nobody, h.timeless, h.ahead) refl

  advance_time-IsDeserted :
      (t u : F) (s : Session A R F) → IsDeserted t s → IsDeserted t (advance_time attrs u s)
  unfolding advance_time
  advance_time-IsDeserted t u s h =
      let step = advance_entity attrs (u ⊖ s.time) u in
      if_rule (IsDeserted t) (u ≤? s.time) h (record {
        runs = h.runs;
        nobody = ap (map step) h.nobody;
        timeless = h.timeless;
        ahead = h.ahead;
      })

  event_now-IsDeserted :
      (make_enemy : String → ℕ → Option (Entity A F)) (t : F) (s : Session A R F)
      → IsDeserted t s
      → IsDeserted t (event_now attrs rng ids make_enemy s)
  unfolding event_now respawn living
  event_now-IsDeserted make_enemy t s h =
      let back : respawn attrs s.time s.respawn_times s.players ≡ ([], []) =
        rw (h.timeless, h.nobody) refl in
      rw (back) (record { runs = h.runs; nobody = refl; timeless = refl; ahead = h.ahead })

  event_of :
      (b : Bool) (o : Option F) (t : F) (x y : Session A R F) (g : F → Session A R F)
      → b ≡ true
      → o ≡ some t
      → (if b then elim o [ none ↦ x | some u ↦ g u ] else y) ≡ g t
  event_of b o t x y g r e = rw (r, e) refl

  advance_one_event_at :
      (make_enemy : String → ℕ → Option (Entity A F)) (t : F) (s : Session A R F)
      → s.running ≡ true
      → next_event_time s ≡ some t
      → advance_one_event attrs rng ids make_enemy s
        ≡ event_now attrs rng ids make_enemy (advance_time attrs t s)
  unfolding advance_one_event
  advance_one_event_at make_enemy t s r e =
      event_of s.running (next_event_time s) t (record s { running = false }) s
        (λ u. event_now attrs rng ids make_enemy (advance_time attrs u s)) r e

  go_on_more :
      (o : Option F) (t target : F) (over s1 : Session A R F) (again : Option (Session A R F))
      → o ≡ some t
      → (target <? t) ≡ false
      → s1.running ≡ true
      → go_on o target over s1 again ≡ again
  unfolding go_on
  go_on_more o t target over s1 again e late r = rw (e, late) (simp (r) refl)

  advance_until-IsDeserted :
      (n : ℕ) (make_enemy : String → ℕ → Option (Entity A F)) (t target : F) (s : Session A R F)
      → IsDeserted t s
      → (target <? t) ≡ false
      → advance_until n make_enemy target s ≡ none
  unfolding advance_until
  advance_until-IsDeserted zero make_enemy t target s h late = refl
  advance_until-IsDeserted (suc n) make_enemy t target s h late =
      let s1 = advance_one_event attrs rng ids make_enemy s in
      let next = next_event_time-IsDeserted t s h in
      let h1 : IsDeserted t s1 =
        subst (IsDeserted t) (sym (advance_one_event_at make_enemy t s h.runs next)) (
          event_now-IsDeserted make_enemy t (advance_time attrs t s)
            (advance_time-IsDeserted t t s h)) in
      go_on_more (next_event_time s) t target (advance_time attrs target s) s1
        (advance_until n make_enemy target s1) next late h1.runs
      ∙ advance_until-IsDeserted n make_enemy t target s1 h1 late

  -- A battle that begins without players never ends a span of time that reaches its first wave: the
  -- event of the wave is due, and stays so.
  pub advance_by_delta-new_battle_session :
      (n : ℕ) (make_enemy : String → ℕ → Option (Entity A F)) (delta : F) (config : BattleConfig F)
      (r : R)
      → ((nought ⊕ delta) <? fmax (f.lit 1 1) config.interval) ≡ false
      → advance_by_delta n make_enemy delta (new_battle_session attrs config [] r) ≡ none
  unfolding advance_by_delta new_battle_session
  advance_by_delta-new_battle_session n make_enemy delta config r late =
      advance_until-IsDeserted n make_enemy (fmax (f.lit 1 1) config.interval) (nought ⊕ delta)
        (new_battle_session attrs config [] r)
        (record { runs = refl; nobody = refl; timeless = refl; ahead = refl }) late
