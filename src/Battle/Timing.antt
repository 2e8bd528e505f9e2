-- ===== src/Battle/Timing.antt =====
-- The next event of a battle (NextEventTime of backend/internal/battle/session.go).
use mathlib.Core.Bool.{false≢true}
use milkyway_liluo_idle.Prelude.{
  zero, suc, ◌≡◌, refl, sym, ◌∙◌, ap, subst, true, false, Option, none, some, List, [], ◌∷◌, ◌++◌,
  map, ℤ, Table, Bool-cases, ◌⊎◌, inl, inr,
}
use milkyway_liluo_idle.Float.{Float, IsOrdered, ◌<?◌, ◌≤?◌}
use milkyway_liluo_idle.Battle.{Entity}
use milkyway_liluo_idle.Battle.Targeting.{IsIn}
use milkyway_liluo_idle.Battle.Membership.{IsIn-All, All-IsIn, IsIn-left, IsIn-right, IsIn-append}
use milkyway_liluo_idle.Battle.Times.{first_time, first_time-IsEarliest}
use milkyway_liluo_idle.Battle.Clock.{
  Session, is_empty, times_of, time_list, alive_of, candidates, next_event_time,
}

module _ {F : Type 0} where
  pair : {x y : ℤ × Option F} → ◌≡◌ {A = Option (ℤ × Option F)} (some x) (some y) → x ≡ y
  pair h = cc h

  time_list-IsIn : (o : Option F) (t : F) → IsIn t (time_list o) → o ≡ some t
  time_list-IsIn none t (i, at) = absurd (cc at)
  time_list-IsIn (some u) t (zero, at) = at
  time_list-IsIn (some u) t (suc i, at) = absurd (cc at)

  IsIn-time_list : (o : Option F) (t : F) → o ≡ some t → IsIn t (time_list o)
  IsIn-time_list none t h = absurd (cc h)
  IsIn-time_list (some u) t h = (0, h)

  times_of-IsIn :
      (m : Table ℤ (Option F)) (t : F) → IsIn t (times_of m) → (id : ℤ) × IsIn (id, some t) m
  times_of-IsIn [] t (i, at) = absurd (cc at)
  times_of-IsIn ((id, none) ∷ m) t h = let (k, (i, at)) = times_of-IsIn m t h in (k, (suc i, at))
  times_of-IsIn ((id, some u) ∷ m) t (zero, at) = (id, (0, cc at))
  times_of-IsIn ((id, some u) ∷ m) t (suc i, at) =
      let (k, (j, at')) = times_of-IsIn m t (i, at) in (k, (suc j, at'))

  IsIn-times_of :
      (m : Table ℤ (Option F)) (t : F) (id : ℤ) → IsIn (id, some t) m → IsIn t (times_of m)
  IsIn-times_of [] t id (i, at) = absurd (cc at)
  IsIn-times_of ((k, none) ∷ m) t id (zero, at) =
      let same : none ≡ some t = ap (λ (r : ℤ × Option F). r.1) (pair at) in absurd (cc same)
  IsIn-times_of ((k, none) ∷ m) t id (suc i, at) = IsIn-times_of m t id (i, at)
  IsIn-times_of ((k, some u) ∷ m) t id (zero, at) = (0, ap (λ (r : ℤ × Option F). r.1) (pair at))
  IsIn-times_of ((k, some u) ∷ m) t id (suc i, at) =
      let (j, at') = IsIn-times_of m t id (i, at) in (suc j, at')

module _ {A F : Type 0} where
  -- Somebody of a list is alive.
  abbrev pub HasLiving : List (Entity A F) → Type 0
  HasLiving es = (e : Entity A F) × IsIn e es × (e.alive ≡ true)

  -- A time at which a battle has an event: a respawn timer is set to it, the next wave is, or players
  -- and enemies are alive and it is the next action of one of those alive.
  abbrev pub IsEventAt : {R : Type 0} → Session A R F → F → Type 0
  IsEventAt s t =
      ((id : ℤ) × IsIn (id, some t) s.respawn_times)
      ⊎ (s.next_wave_time ≡ some t)
      ⊎ ((HasLiving s.players × HasLiving s.enemies)
          × (e : Entity A F) × (IsIn e s.players ⊎ IsIn e s.enemies)
          × (e.alive ≡ true)
          × (e.next_ready_time ≡ t))

  -- The next actions of the living.
  abbrev actions : List (Entity A F) → List F
  actions es = map (λ e. e.next_ready_time) (alive_of es)

  first :
      (e : Entity A F) (es : List (Entity A F)) (t : F)
      → e.alive ≡ true
      → (IsIn t (actions es)
          → (x : Entity A F) × IsIn x es × (x.alive ≡ true) × (x.next_ready_time ≡ t))
      → IsIn t (e.next_ready_time ∷ actions es)
      → (x : Entity A F) × IsIn x (e ∷ es) × (x.alive ≡ true) × (x.next_ready_time ≡ t)
  first e es t a rest (zero, at) = (e, (0, refl), a, cc at)
  first e es t a rest (suc i, at) =
      let (x, (j, at'), live, is) = rest (i, at) in (x, (suc j, at'), live, is)

  actions-IsIn :
      (es : List (Entity A F)) (t : F)
      → IsIn t (actions es)
      → (e : Entity A F) × IsIn e es × (e.alive ≡ true) × (e.next_ready_time ≡ t)
  actions-IsIn [] t (i, at) = absurd (cc at)
  actions-IsIn (e ∷ es) t h = elim (Bool-cases e.alive) [
    | inr d ↦
        (let (x, (i, at), live, is) = actions-IsIn es t (rw (d) at h) in (x, (suc i, at), live, is))
    | inl a ↦ first e es t a (actions-IsIn es t) (rw (a) at h)
  ]

  IsIn-actions :
      (es : List (Entity A F)) (e : Entity A F)
      → IsIn e es
      → e.alive ≡ true
      → IsIn e.next_ready_time (actions es)
  IsIn-actions [] e (i, at) a = absurd (cc at)
  IsIn-actions (x ∷ es) e (zero, at) a =
      let same : x ≡ e = cc at in
      rw (ap (λ (y : Entity A F). y.alive) same ∙ a)
        (0, ap (λ (y : Entity A F). some y.next_ready_time) same)
  IsIn-actions (x ∷ es) e (suc i, at) a =
      let (j, at') = IsIn-actions es e (i, at) a in
      elim (Bool-cases x.alive) [ inl l ↦ rw (l) (suc j, at') | inr l ↦ rw (l) (j, at') ]

  living : (es : List (Entity A F)) → is_empty (alive_of es) ≡ false → HasLiving es
  living [] h = absurd (false≢true (sym h))
  living (e ∷ es) h = elim (Bool-cases e.alive) [
    | inl a ↦ (e, (0, refl), a)
    | inr d ↦ (let (x, (i, at), a) = living es (rw (d) at h) in (x, (suc i, at), a))
  ]

  not_empty :
      (es : List (Entity A F)) (e : Entity A F)
      → IsIn e es
      → e.alive ≡ true
      → is_empty (alive_of es) ≡ false
  not_empty [] e (i, at) a = absurd (cc at)
  not_empty (x ∷ es) e (zero, at) a =
      let same : x ≡ e = cc at in rw (ap (λ (y : Entity A F). y.alive) same ∙ a) refl
  not_empty (x ∷ es) e (suc i, at) a = elim (Bool-cases x.alive) [
    | inl l ↦ rw (l) refl
    | inr l ↦ rw (l) (not_empty es e (i, at) a)
  ]

module _ {A R F : Type 0} (s : Session A R F) where
  -- The times of the timers and of the next wave.
  abbrev waiting : List F
  waiting = times_of s.respawn_times ++ time_list s.next_wave_time

  waiting-IsEventAt : (t : F) → IsIn t waiting → IsEventAt s t
  waiting-IsEventAt t h =
      elim (IsIn-append t (times_of s.respawn_times) (time_list s.next_wave_time) h) [
        | inl back ↦ inl (times_of-IsIn s.respawn_times t back)
        | inr wave ↦ inr (inl (time_list-IsIn s.next_wave_time t wave))
      ]

  -- The candidates in a fight.
  abbrev acting : List F
  acting = waiting ++ actions s.players ++ actions s.enemies

  acting-IsEventAt :
      (t : F)
      → is_empty (alive_of s.players) ≡ false
      → is_empty (alive_of s.enemies) ≡ false
      → IsIn t acting
      → IsEventAt s t
  acting-IsEventAt t p e h =
      let fight : HasLiving s.players × HasLiving s.enemies =
        (living s.players p, living s.enemies e) in
      elim (IsIn-append t (waiting ++ actions s.players) (actions s.enemies) h) [
        | inl most ↦ elim (IsIn-append t waiting (actions s.players) most) [
          | inl wait ↦ waiting-IsEventAt t wait
          | inr own ↦
              (let (x, at, live, is) = actions-IsIn s.players t own in
                inr (inr (fight, x, inl at, live, is)))
        ]
        | inr other ↦
            (let (x, at, live, is) = actions-IsIn s.enemies t other in
              inr (inr (fight, x, inr at, live, is)))
      ]

  -- The candidates of NextEventTime are the times of the events.
  candidates-IsEventAt : (t : F) → IsIn t (candidates s) → IsEventAt s t
  unfolding candidates
  candidates-IsEventAt t h = elim (Bool-cases (is_empty (alive_of s.players))) [
    | inl p ↦ waiting-IsEventAt t (rw (p) at h)
    | inr p ↦ elim (Bool-cases (is_empty (alive_of s.enemies))) [
      | inl e ↦ waiting-IsEventAt t (rw (p, e) at h)
      | inr e ↦ (let w = rw (p, e) at h in acting-IsEventAt t p e w)
    ]
  ]

  waiting-candidates : (t : F) → IsIn t waiting → IsIn t (candidates s)
  unfolding candidates
  waiting-candidates t h = elim (Bool-cases (is_empty (alive_of s.players))) [
    | inl p ↦ rw (p) h
    | inr p ↦ elim (Bool-cases (is_empty (alive_of s.enemies))) [
      | inl e ↦ rw (p, e) h
      | inr e ↦
          rw (p, e)
            (IsIn-left t (waiting ++ actions s.players) (actions s.enemies)
              (IsIn-left t waiting (actions s.players) h))
    ]
  ]

  acting-candidates :
      (t : F) → HasLiving s.players → HasLiving s.enemies → IsIn t acting → IsIn t (candidates s)
  unfolding candidates
  acting-candidates t (x, at, live) (y, at', live') h =
      rw (not_empty s.players x at live, not_empty s.enemies y at' live') h

  action-acting :
      (e : Entity A F)
      → IsIn e s.players ⊎ IsIn e s.enemies
      → e.alive ≡ true
      → IsIn e.next_ready_time acting
  action-acting e (inl at) live =
      IsIn-left e.next_ready_time (waiting ++ actions s.players) (actions s.enemies) (
        IsIn-right e.next_ready_time waiting (actions s.players) (IsIn-actions s.players e at live))
  action-acting e (inr at) live =
      IsIn-right e.next_ready_time (waiting ++ actions s.players) (actions s.enemies)
        (IsIn-actions s.enemies e at live)

  IsEventAt-candidates : (t : F) → IsEventAt s t → IsIn t (candidates s)
  IsEventAt-candidates t (inl (id, at)) = waiting-candidates t (
      IsIn-left t (times_of s.respawn_times) (time_list s.next_wave_time)
        (IsIn-times_of s.respawn_times t id at))
  IsEventAt-candidates t (inr (inl wave)) = waiting-candidates t (
      IsIn-right t (times_of s.respawn_times) (time_list s.next_wave_time)
        (IsIn-time_list s.next_wave_time t wave))
  IsEventAt-candidates t (inr (inr (fight, e, at, live, is))) =
      subst (λ (u : F). IsIn u (candidates s)) is
        (acting-candidates e.next_ready_time fight.0 fight.1 (action-acting e at live))

first_of :
    {F : Type 0} ⦃f : Float F⦄ (ts : List F) (u : F)
    → IsIn u ts
    → (t : F) × (first_time ts ≡ some t)
unfolding first_time
first_of [] u (i, at) = absurd (cc at)
first_of (x ∷ ts) u h = (_, refl)

module _ {A R F : Type 0} ⦃f : Float F⦄ where
  -- Over numbers that keep the order, if no event of a battle is at a NaN and one is at `u`, then the
  -- next event is at the time of an event (a respawn, the next wave, or, while players and enemies are
  -- alive, the next action of one of those alive), and `u` is not before it.
  pub next_event_time-IsEventAt :
      (o : IsOrdered F) (s : Session A R F) (u : F)
      → ((v : F) → IsEventAt s v → (v ≤? v) ≡ true)
      → IsEventAt s u
      → (t : F) × (next_event_time s ≡ some t) × IsEventAt s t × ((u <? t) ≡ false)
  unfolding next_event_time
  next_event_time-IsEventAt o s u numbers h =
      let among = IsEventAt-candidates s u h in
      let (t, first) = first_of (candidates s) u among in
      let (here, least) =
        first_time-IsEarliest o (candidates s) t
          (All-IsIn (λ (v : F). (v ≤? v) ≡ true) (candidates s)
            (λ v at. numbers v (candidates-IsEventAt s v at)))
          first in
      (
        t,
        first,
        candidates-IsEventAt s t here,
        IsIn-All (λ (v : F). (v <? t) ≡ false) (candidates s) u among least,
      )
