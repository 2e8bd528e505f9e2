-- ===== src/Session/Lifecycle.antt =====
-- The life of a session: the states and the grace timer (backend/internal/session/lifecycle.go), Close
-- (backend/internal/session/session.go) and SubmitCommand (backend/internal/session/command.go). Each
-- method holds the lock of the timer, so that it is one step; the function of the timer runs in a
-- goroutine of its own, which may wait for the lock while other methods run. It is in the phase
-- `closing` from the first of its two stores to the second, with the lock held.
use milkyway_liluo_idle.Prelude.{
  ℕ, suc, ◌-◌, ◌<◌, ◌≡◌, ◌≢◌, refl, sym, ap, ◌∙◌, ◌⊎◌, inl, inr, Bool, true, false, ltb,
  if◌then◌else◌, arith,
}

-- `sessionState`
pub data Phase : Type 0 where
  active grace closing closed : Phase

-- `graceTimer`: nil, running, or one that has fired
pub data Timer : Type 0 where
  unset ticking fired : Timer

pub record Life : Type 0 where
  pub phase : Phase
  pub timer : Timer
  -- the goroutines of the timer's function that wait for the lock
  pub waiting : ℕ
  -- whether the battle of the session runs
  pub fighting : Bool
  -- whether `done` is closed
  pub done : Bool
  -- the commands in the channel
  pub pending : ℕ
  -- the calls of `onGraceExpire`
  pub expiries : ℕ

-- `New`
abbrev pub new_life : Life
new_life = record {
  phase = active;
  timer = unset;
  waiting = 0;
  fighting = false;
  done = false;
  pending = 0;
  expiries = 0;
}

-- `StartGraceTimer`, whatever the duration
unfoldable pub start_grace_timer : Life → Life
start_grace_timer s = record s { timer = ticking; phase = grace }

-- `StopGraceTimer`
unfoldable pub stop_grace_timer : Life → Life
stop_grace_timer s = record s { timer = unset; phase = active }

-- The timer fires, and starts its function.
unfoldable pub fire : Life → Life
fire s = record s { timer = fired; waiting = suc s.waiting }

-- The timer's function, by the number of those that wait behind it, up to the call of `onGraceExpire`.
unfoldable pub on_timer : ℕ → Life → Life
on_timer left s =
    let s' = record s { waiting = left } in
    let expired =
      if s.fighting then record s' { timer = ticking } else record s' { phase = closing } in
    elim s.phase [ grace ↦ expired | _ ↦ s' ]

-- The rest of it.
unfoldable pub finish_expiry : Life → Life
finish_expiry s = record s { phase = closed; expiries = suc s.expiries }

-- `Close`
unfoldable pub close : Life → Life
close s = record s { timer = unset; phase = closed; done = true; pending = 0 }

-- `SubmitCommand` of a session whose `done` is open, up to the wait for the answer.
unfoldable pub submit : Life → Life
submit s =
    let queued = if ltb s.pending 64 then record s { pending = suc s.pending } else s in
    elim s.phase [ closed ↦ s | _ ↦ queued ]

pub data Step : Life → Life → Type 0 where
  starts : (s : Life) → s.phase ≢ closing → Step s (start_grace_timer s)
  stops : (s : Life) → s.phase ≢ closing → Step s (stop_grace_timer s)
  fires : (s : Life) → s.timer ≡ ticking → Step s (fire s)
  runs : (s : Life) (left : ℕ) → s.phase ≢ closing → s.waiting ≡ suc left → Step s (on_timer left s)
  finishes : (s : Life) → s.phase ≡ closing → Step s (finish_expiry s)
  closes : (s : Life) → s.phase ≢ closing → Step s (close s)
  submits : (s : Life) → s.done ≡ false → Step s (submit s)
  -- the tick takes a command from the channel
  drains : (s : Life) (left : ℕ) → s.pending ≡ suc left → Step s (record s { pending = left })
  -- a battle begins or ends
  fights : (s : Life) (b : Bool) → Step s (record s { fighting = b })

pub data Reaches : Life → Life → Type 0 where
  here : (s : Life) → Reaches s s
  next : (s s' s'' : Life) → Step s s' → Reaches s' s'' → Reaches s s''

-- In the grace period the timer is set, and runs or has started a function that waits.
abbrev pub IsTimed : Timer → ℕ → Type 0
IsTimed t waiting = (t ≢ unset) × ((t ≡ ticking) ⊎ (0 < waiting))

abbrev WaitsIn : Phase → Timer → ℕ → Type 0
WaitsIn p t waiting = p ≡ grace → IsTimed t waiting

ticking-IsTimed : (t : Timer) (waiting : ℕ) → t ≡ ticking → IsTimed t waiting
ticking-IsTimed t waiting e = ((λ u. let w = rw (e) at u in absurd (cc w)), inl e)

-- Only a battle that runs keeps a session in the grace period when its timer fires.
on_timer_ticks :
    (left : ℕ) (s : Life) → (on_timer left s).phase ≡ grace → (on_timer left s).timer ≡ ticking
unfolding on_timer
on_timer_ticks left s h = ground (arith, h)

submit_same :
    (s : Life)
    → ((submit s).phase ≡ s.phase) × ((submit s).timer ≡ s.timer) × ((submit s).waiting ≡ s.waiting)
unfolding submit
submit_same s = ground arith

Step-WaitsIn :
    (s s' : Life)
    → Step s s'
    → WaitsIn s.phase s.timer s.waiting
    → WaitsIn s'.phase s'.timer s'.waiting
unfolding start_grace_timer stop_grace_timer fire finish_expiry close
Step-WaitsIn _ _ (starts s free) h p = ticking-IsTimed ticking s.waiting refl
Step-WaitsIn _ _ (stops s free) h p = absurd (cc p)
Step-WaitsIn _ _ (fires s e) h p = ((λ u. absurd (cc u)), inr (omega arith))
Step-WaitsIn _ _ (runs s left free e) h p = ticking-IsTimed _ _ (on_timer_ticks left s p)
Step-WaitsIn _ _ (finishes s e) h p = absurd (cc p)
Step-WaitsIn _ _ (closes s free) h p = absurd (cc p)
Step-WaitsIn _ _ (submits s e) h p = let (a, b, c) = submit_same s in rw (b, c) (h (sym a ∙ p))
Step-WaitsIn _ _ (drains s left e) h p = h p
Step-WaitsIn _ _ (fights s b) h p = h p

Reaches-WaitsIn :
    (s s' : Life)
    → Reaches s s'
    → WaitsIn s.phase s.timer s.waiting
    → WaitsIn s'.phase s'.timer s'.waiting
Reaches-WaitsIn _ _ (here s) h = h
Reaches-WaitsIn _ _ (next s s' s'' step rest) h =
    Reaches-WaitsIn s' s'' rest (Step-WaitsIn s s' step h)

-- An expiry: the commands in the channel stay, and `done` stays open.
abbrev pub Expires : Life → Type 0
Expires s =
    (s' : Life) × Reaches s s'
    × (s'.phase ≡ closed)
    × (s'.expiries ≡ suc s.expiries)
    × (s'.done ≡ s.done)
    × (s'.pending ≡ s.pending)

on_timer_expires :
    (left : ℕ) (s : Life)
    → s.phase ≡ grace
    → s.fighting ≡ false
    → on_timer left s ≡ record s { waiting = left; phase = closing }
unfolding on_timer
on_timer_expires left s e quiet = rw (e, on_timer, quiet) refl

waiting-Expires :
    (left : ℕ) (s : Life) → s.phase ≡ grace → s.fighting ≡ false → s.waiting ≡ suc left → Expires s
unfolding finish_expiry
waiting-Expires left s e quiet w =
    let s1 = on_timer left s in
    let same = on_timer_expires left s e quiet in
    (
      finish_expiry s1,
      next s s1 (finish_expiry s1) (runs s left (λ c. let u = rw (e) at c in absurd (cc u)) w) (
          next s1 (finish_expiry s1) (finish_expiry s1)
            (finishes s1 (ap (λ (x : Life). x.phase) same)) (here _)),
      refl,
      ap (λ (x : Life). suc x.expiries) same,
      ap (λ (x : Life). x.done) same,
      ap (λ (x : Life). x.pending) same,
    )

-- A session whose timer runs.
ticking-Expires : (s : Life) → s.phase ≡ grace → s.fighting ≡ false → s.timer ≡ ticking → Expires s
unfolding fire
ticking-Expires s e quiet t =
    let (s', way, over, once, same, left) = waiting-Expires s.waiting (fire s) e quiet refl in
    (s', next s (fire s) s' (fires s t) way, over, once, same, left)

-- A session in its grace period, however it got there, has a timer, which runs or has started its
-- function; if its battle does not run, it can expire, with one call of onGraceExpire, and then the
-- commands in its channel are there as before, and `done` is as it was.
pub grace-Expires :
    (s : Life)
    → Reaches new_life s
    → s.phase ≡ grace
    → s.fighting ≡ false
    → IsTimed s.timer s.waiting × Expires s
grace-Expires s way e quiet =
    let timed = Reaches-WaitsIn new_life s way (λ p. absurd (cc p)) e in
    (
      timed,
      elim timed.1 [
        | inl t ↦ ticking-Expires s e quiet t
        | inr w ↦ waiting-Expires (s.waiting - 1) s e quiet (omega arith)
      ],
    )
