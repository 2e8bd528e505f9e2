-- ===== src/Event/FastPath.antt =====
-- The fast path of a tick agrees with settlement (runTick of backend/internal/session/tick.go, with
-- backend/internal/event/settle.go).
use milkyway_liluo_idle.Prelude.{
  ◌≡◌, sym, ap, arith, ◌∙◌, inl, inr, true, false, Bool-cases, List, ◌∷◌, some, ℤ, eq_refl, int_eq,
}
use mathlib.Core.Bool.{false≢true}
use milkyway_liluo_idle.Float.{Float, IsOrdered, IsClock, ◌⊕◌, ◌⊖◌, ◌<?◌, ◌≤?◌, nought}
use milkyway_liluo_idle.GameConfig.{Event, EventType}
use milkyway_liluo_idle.Event.{
  State, entries_of, entries_of-set_entries, entries_of-mark_current_dirty,
}
use milkyway_liluo_idle.Event.Entries.{QueueEntry}
use milkyway_liluo_idle.Event.Settle.{SettlementCtx, GameData, deref_loop_time, check_reqs}
use milkyway_liluo_idle.Event.Loop.{
  again, settle_loop, settle_round, settle_queue, run_head, time_cycles, wait,
}
use milkyway_liluo_idle.Event.Tick.{head_triggers, advance_head}
use milkyway_liluo_idle.Event.Rounds.{settle_round_met, settle_round_no_time}

module _ {S F : Type 0} ⦃f : Float F⦄ (order : IsOrdered F) (clock : IsClock F)
    (ctx : SettlementCtx S F) (game : GameData F) where
  lt_of_not_le : (x y : F) → (x ≤? x) ≡ true → (y ≤? y) ≡ true → (y ≤? x) ≡ false → (x <? y) ≡ true
  lt_of_not_le x y hx hy n = elim (Bool-cases (x <? y)) [
    | inl p ↦ p
    | inr p ↦ absurd (false≢true (sym n ∙ order.le_of_not_lt x y hx hy p))
  ]

  -- No cycle is complete, so that the loop waits.
  settle_loop-wait :
      (id : ℤ) (e : QueueEntry F) (es : List (QueueEntry F)) (ev : Event F) (delta : F)
      (st : State F) (s : S)
      → let lt = deref_loop_time ev.loop_time in
        (lt ≤? lt) ≡ true
        → (lt ≤? nought) ≡ false
        → (nought ≤? delta ⊕ e.progress) ≡ true
        → (lt ≤? delta ⊕ e.progress) ≡ false
        → settle_loop ctx game id e es ev delta st s ≡ (wait id e es delta st, s, delta)
  unfolding settle_loop time_cycles
  settle_loop-wait id e es ev delta st s num positive nonneg short =
      let lt = deref_loop_time ev.loop_time in
      let less = lt_of_not_le (delta ⊕ e.progress) lt (order.number_right _ _ nonneg) num short in
      rw positive (rw (clock.small_quotient (delta ⊕ e.progress) lt nonneg less))

  advance_head_short :
      (e : QueueEntry F) (es : List (QueueEntry F)) (ev : Event F) (delta : F)
      → game.get_event_by_id e.event_id ≡ some ev
      → ev.kind ≡ EventType.loop
      → let lt = deref_loop_time ev.loop_time in
        (lt ≤? nought) ≡ false
        → (lt ≤? delta ⊕ e.progress) ≡ false
        → advance_head game delta (e ∷ es) ≡ record e { progress = e.progress ⊕ delta } ∷ es
  unfolding advance_head
  advance_head_short e es ev delta known kind positive short =
      let short' : (deref_loop_time ev.loop_time ≤? e.progress ⊕ delta) ≡ false =
        rw (clock.add_comm e.progress delta) short in
      ground (arith, short')

  wait-advance_head :
      (id : ℤ) (e : QueueEntry F) (es : List (QueueEntry F)) (ev : Event F) (delta : F)
      (st : State F)
      → game.get_event_by_id e.event_id ≡ some ev
      → ev.kind ≡ EventType.loop
      → let lt = deref_loop_time ev.loop_time in
        (lt ≤? nought) ≡ false
        → (lt ≤? delta ⊕ e.progress) ≡ false
        → entries_of id (wait id e es delta st) ≡ advance_head game delta (e ∷ es)
  unfolding wait
  wait-advance_head id e es ev delta st known kind positive short =
      entries_of-mark_current_dirty id id _
      ∙ (entries_of-set_entries id id _ st
          ∙ ((rw (eq_refl id)) ∙ sym (advance_head_short e es ev delta known kind positive short)))

  -- What it says of a loop that it will not complete.
  quiet_loop :
      (e : QueueEntry F) (es : List (QueueEntry F)) (ev : Event F) (delta : F) (s : S)
      → game.get_event_by_id e.event_id ≡ some ev
      → ev.kind ≡ EventType.loop
      → let lt = deref_loop_time ev.loop_time in
        (lt ≤? nought) ≡ false
        → head_triggers ctx game delta (e ∷ es) s ≡ false
        → (check_reqs ctx ev.requirements s ≡ true) × ((lt ≤? delta ⊕ e.progress) ≡ false)
  unfolding head_triggers
  quiet_loop e es ev delta s known kind positive quiet = ground arith

  -- When the head of a queue is a loop that `WillTrigger` says will not complete, to advance its
  -- progress in memory does to the entries what a settlement would do, and the settlement gives the
  -- player nothing and takes nothing.
  pub settle_queue-advance_head :
      (id : ℤ) (e : QueueEntry F) (es : List (QueueEntry F)) (ev : Event F) (delta : F)
      (st : State F) (s : S)
      → entries_of id st ≡ e ∷ es
      → game.get_event_by_id e.event_id ≡ some ev
      → ev.kind ≡ EventType.loop
      → let lt = deref_loop_time ev.loop_time in
        (lt ≤? lt) ≡ true
        → (lt ≤? nought) ≡ false
        → (nought <? delta) ≡ true
        → (nought ≤? delta ⊕ e.progress) ≡ true
        → head_triggers ctx game delta (e ∷ es) s ≡ false
        → (st' : State F) × (left : F) × (settle_queue ctx game 2 id delta st s
            ≡ some (st', s, left))
          × (entries_of id st' ≡ advance_head game delta (e ∷ es))
  unfolding settle_queue run_head settle_round head_triggers
  settle_queue-advance_head id e es ev delta st s q known kind num positive time nonneg quiet =
      let short = (quiet_loop e es ev delta s known kind positive quiet).1 in
      let waits = settle_loop-wait id e es ev delta st s num positive nonneg short in
      let met = (quiet_loop e es ev delta s known kind positive quiet).0 in
      let first = settle_round_met ctx game id e es ev delta st s q known met time in
      let round : settle_round ctx game id delta st s
          ≡ again (wait id e es delta st) s (delta ⊖ delta) =
        first
        ∙ (ap (λ (k : EventType). run_head ctx game k id e es ev delta st s) kind
            ∙ rw (waits, run_head)) in
      (
        wait id e es delta st,
        delta ⊖ delta,
        rw (round, settle_queue)
            (rw (settle_round_no_time ctx game id _ _ s (clock.nothing_left delta), settle_queue)),
        wait-advance_head id e es ev delta st known kind positive short,
      )
