-- ===== src/Battle/Respawn.antt =====
-- The respawn of players in an event of a battle (backend/internal/battle/session.go).

use milkyway_liluo_idle.Prelude.{
  ◌≡◌, refl, sym, ◌∙◌, ap, subst, Bool, true, false, if◌then◌else◌, Option, none, some, List, [],
  ◌∷◌, map, ℤ, Table, lookup, IsKeyed, All, ◌=?◌, int_eq, eq_of_eq, eq_sym, Bool-cases, inl, inr,
}
use milkyway_liluo_idle.Float.{Float, ◌⊕◌, ◌≤?◌, fmax}
use milkyway_liluo_idle.Battle.{Entity, Attributes, final, max_hp, max_mp, max_sp}
use milkyway_liluo_idle.Battle.Events.{is_due, revive, revive_by_id, respawn}

module _ {A F : Type 0} ⦃f : Float F⦄ (attrs : Attributes A F) where
  -- No two players have the same id.
  abbrev pub AreDistinct : List (Entity A F) → Type 0
  AreDistinct [] = Unit
  AreDistinct (p ∷ ps) = All (λ q. (q.entity_id =? p.entity_id) ≡ false) ps × AreDistinct ps

  -- Whether there is a timer, set to a time that has come.
  abbrev pub is_over : F → Option (Option F) → Bool
  is_over now none = false
  is_over now (some none) = false
  is_over now (some (some t)) = t ≤? now

  -- A timer that is not set, or to a later time.
  abbrev pub IsAhead : F → Option F → Type 0
  IsAhead now none = Unit
  IsAhead now (some t) = (t ≤? now) ≡ false

  is_over-some : (now : F) (t : Option F) → is_over now (some t) ≡ is_due now t
  is_over-some now none = refl
  is_over-some now (some t) = refl

  is_due-IsAhead : (now : F) (t : Option F) → is_due now t ≡ false → IsAhead now t
  is_due-IsAhead now none h = tt
  is_due-IsAhead now (some t) h = h

  -- The player that comes out of a respawn: alive at full health, mana and stamina, with its first
  -- action an attack interval ahead, or a tenth of a second if that is longer, if the timer is over.
  abbrev pub respawned : F → Table ℤ (Option F) → Entity A F → Entity A F
  respawned now m p =
      if is_over now (lookup p.entity_id m)
      then record p {
        alive = true;
        hp = max_hp attrs p;
        mp = max_mp attrs p;
        sp = max_sp attrs p;
        next_ready_time = now ⊕ fmax (f.lit 1 1) (final attrs (λ ids. ids.attack_interval) p);
      }
      else p

  revive_if : F → ℤ → Entity A F → Entity A F
  revive_if now id p = if p.entity_id =? id then revive attrs now p else p

  map-revive_if :
      (now : F) (id : ℤ) (ps : List (Entity A F))
      → All (λ q. (q.entity_id =? id) ≡ false) ps
      → map (revive_if now id) ps ≡ ps
  unfolding revive_if
  map-revive_if now id [] d = refl
  map-revive_if now id (p ∷ ps) d = rw (d.0) (ap (◌∷◌ p) (map-revive_if now id ps d.1))

  revive_by_id-map :
      (now : F) (id : ℤ) (ps : List (Entity A F))
      → AreDistinct ps
      → revive_by_id attrs now id ps ≡ map (revive_if now id) ps
  unfolding revive_by_id revive_if
  revive_by_id-map now id [] d = refl
  revive_by_id-map now id (p ∷ ps) d = elim (Bool-cases (p.entity_id =? id)) [
    | inl e ↦ rw (e) (
        ap (◌∷◌ (revive attrs now p)) (
          sym (
            map-revive_if now id ps (
              subst (λ (i : ℤ). All (λ q. (q.entity_id =? i) ≡ false) ps)
                (eq_of_eq p.entity_id id e) d.0))))
    | inr e ↦ rw (e) (ap (◌∷◌ p) (revive_by_id-map now id ps d.1))
  ]

  revive_if_id : (now : F) (id : ℤ) (p : Entity A F) → (revive_if now id p).entity_id ≡ p.entity_id
  unfolding revive_if
  revive_if_id now id p = elim (Bool-cases (p.entity_id =? id)) [
    | inl e ↦ rw (e) refl
    | inr e ↦ rw (e) refl
  ]

  revive_if-All :
      (now : F) (id i : ℤ) (ps : List (Entity A F))
      → All (λ q. (q.entity_id =? i) ≡ false) ps
      → All (λ q. (q.entity_id =? i) ≡ false) (map (revive_if now id) ps)
  revive_if-All now id i [] d = tt
  revive_if-All now id i (p ∷ ps) d =
      (ap (λ (k : ℤ). k =? i) (revive_if_id now id p) ∙ d.0, revive_if-All now id i ps d.1)

  revive_if-AreDistinct :
      (now : F) (id : ℤ) (ps : List (Entity A F))
      → AreDistinct ps
      → AreDistinct (map (revive_if now id) ps)
  revive_if-AreDistinct now id [] d = tt
  revive_if-AreDistinct now id (p ∷ ps) d = (
    subst (λ (i : ℤ). All (λ q. (q.entity_id =? i) ≡ false) (map (revive_if now id) ps))
        (sym (revive_if_id now id p)) (revive_if-All now id p.entity_id ps d.0),
    revive_if-AreDistinct now id ps d.1,
  )

  -- A timer that is due, before others for other players.
  respawned_due :
      (now : F) (id : ℤ) (t : Option F) (m : Table ℤ (Option F)) (p : Entity A F)
      → is_due now t ≡ true
      → lookup id m ≡ none
      → respawned now m (revive_if now id p) ≡ respawned now ((id, t) ∷ m) p
  unfolding revive_if lookup
  respawned_due now id t m p due l =
      let over = is_over-some now t ∙ due in
      elim (Bool-cases (p.entity_id =? id)) [
        | inl e ↦ rw (e, eq_sym id p.entity_id, e, over, eq_of_eq p.entity_id id e, l) refl
        | inr e ↦ rw (e, eq_sym id p.entity_id, e) refl
      ]

  respawned_not_due :
      (now : F) (id : ℤ) (t : Option F) (m : Table ℤ (Option F)) (p : Entity A F)
      → is_due now t ≡ false
      → lookup id m ≡ none
      → respawned now m p ≡ respawned now ((id, t) ∷ m) p
  unfolding lookup
  respawned_not_due now id t m p due l =
      let over = is_over-some now t ∙ due in
      elim (Bool-cases (p.entity_id =? id)) [
        | inl e ↦ rw (eq_sym id p.entity_id, e, over, eq_of_eq p.entity_id id e, l) refl
        | inr e ↦ rw (eq_sym id p.entity_id, e) refl
      ]

  map_step :
      (g h k : Entity A F → Entity A F) (ps : List (Entity A F))
      → ((p : Entity A F) → g (h p) ≡ k p)
      → map g (map h ps) ≡ map k ps
  map_step g h k [] e i = []
  map_step g h k (p ∷ ps) e i = e p i ∷ map_step g h k ps e i

  map_same :
      (g k : Entity A F → Entity A F) (ps : List (Entity A F))
      → ((p : Entity A F) → g p ≡ k p)
      → map g ps ≡ map k ps
  map_same g k [] e i = []
  map_same g k (p ∷ ps) e i = e p i ∷ map_same g k ps e i

  map_unchanged : (now : F) (ps : List (Entity A F)) → ps ≡ map (respawned now []) ps
  unfolding lookup
  map_unchanged now [] = refl
  map_unchanged now (p ∷ ps) = ap (◌∷◌ p) (map_unchanged now ps)

  -- If no two players and no two timers have the same id, the loop over the respawn timers makes
  -- just the players whose timer is due alive, with full health, mana and stamina and a first action
  -- an attack interval (or a tenth of a second, if it is longer) ahead, whatever the order of the
  -- timers, and leaves no timer that is due.
  pub respawn-respawned :
      (now : F) (m : Table ℤ (Option F)) (ps : List (Entity A F))
      → IsKeyed m
      → AreDistinct ps
      → ((respawn attrs now m ps).1 ≡ map (respawned now m) ps)
        × All (λ r. IsAhead now r.1) (respawn attrs now m ps).0
  unfolding respawn IsKeyed
  respawn-respawned now [] ps k d = (map_unchanged now ps, tt)
  respawn-respawned now ((id, t) ∷ m) ps k d = elim (Bool-cases (is_due now t)) [
    | inl e ↦
        (let keep = revive_if-AreDistinct now id ps d in
          let rest = respawn-respawned now m (map (revive_if now id) ps) k.1 keep in
          rw (e, revive_by_id-map now id ps d)
            (
              rest.0
                  ∙ map_step (respawned now m) (revive_if now id) (respawned now ((id, t) ∷ m)) ps
                      (λ p. respawned_due now id t m p e k.0),
              (tt, rest.1),
            ))
    | inr e ↦
        (let rest = respawn-respawned now m ps k.1 d in
          rw (e) (
            rest.0
                ∙ map_same (respawned now m) (respawned now ((id, t) ∷ m)) ps
                    (λ p. respawned_not_due now id t m p e k.0),
            (is_due-IsAhead now t e, rest.1),
          ))
  ]
