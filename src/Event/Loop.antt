-- ===== src/Event/Loop.antt =====
-- `settleLoop` and `settleQueue` (backend/internal/event/settle.go). The head of a queue is its entry
-- at index 0, which is what `firstActive` returns.
use milkyway_liluo_idle.Prelude.{
  ℕ, zero, suc, Bool, false, ◌||◌, if◌then◌else◌, ◌=?◌, int_eq, ltb_ℤ, leb_ℤ, List, [], ◌∷◌, Option,
  none, some, ℤ, pos, ◌-ℤ◌,
}
use milkyway_liluo_idle.Float.{Float, ◌⊕◌, ◌⊖◌, ◌⊗◌, ◌⊘◌, ◌<?◌, ◌≤?◌, nought, one}
use milkyway_liluo_idle.GameConfig.{Event, EventType}
use milkyway_liluo_idle.Event.{
  State, entries_of, set_entries, mark_full, mark_current_dirty, consume, record_execution,
}
use milkyway_liluo_idle.Event.Entries.{QueueEntry}
use milkyway_liluo_idle.Event.Swap.{swap_satisfied}
use milkyway_liluo_idle.Event.Settle.{
  SettlementCtx, GameData, cap_target, deref_loop_time, check_reqs, cap_reqs, deduct_reqs,
  reward_loops, settle_instant,
}

module _ {F : Type 0} ⦃f : Float F⦄ where
  unfoldable pub time_cycles : QueueEntry F → F → F → ℤ
  time_cycles e lt delta = f.to_int ((delta ⊕ e.progress) ⊘ lt)

  -- No cycle is complete: the time is added to the progress.
  unfoldable pub wait : ℤ → QueueEntry F → List (QueueEntry F) → F → State F → State F
  wait id e es delta st =
      mark_current_dirty id (set_entries id (record e { progress = e.progress ⊕ delta } ∷ es) st)

  -- An entry that has reached its target leaves the queue.
  unfoldable pub count_target : ℤ → QueueEntry F → List (QueueEntry F) → State F → State F
  count_target id e es st =
      let st' = set_entries id (e ∷ es) st in
      if leb_ℤ e.target_cycles (pos 0) then consume id 0 st' else mark_current_dirty id st'

  -- The queue after `n` cycles: the progress that is left, and the target counted down.
  unfoldable pub count_down : ℤ → QueueEntry F → List (QueueEntry F) → F → ℤ → State F → State F
  unfolding count_target
  count_down id e es left n st =
      if ltb_ℤ (pos 0) e.target_cycles
      then count_target id (record e { progress = left; target_cycles = e.target_cycles -ℤ n }) es
          st
      else mark_current_dirty id (set_entries id (record e { progress = left } ∷ es) st)

module _ {S F : Type 0} ⦃f : Float F⦄ (ctx : SettlementCtx S F) (game : GameData F) where
  -- How many cycles the loop at the head runs, once `time_cycles` fit the time.
  unfoldable pub actual_cycles : QueueEntry F → Event F → S → ℤ → ℤ
  actual_cycles e ev s n = cap_reqs ctx ev.requirements s (cap_target e.target_cycles n)

  unfoldable pub production_factor : Event F → S → F
  production_factor ev s = elim (game.attr_id ev.production_attr_name) [
    | some id ↦ one ⊕ ctx.get_attr id s
    | none ↦ one
  ]

  -- The player after `n` cycles.
  unfoldable pub pay_cycles : QueueEntry F → Event F → ℤ → S → S
  unfolding production_factor
  pay_cycles e ev n s =
      ctx.unlock_event e.event_id (
        reward_loops ctx ev.rewards n (production_factor ev s)
          (deduct_reqs ctx ev.requirements n s))

  unfoldable pub run_cycles :
      ℤ → QueueEntry F → List (QueueEntry F) → Event F → F → F → ℤ → State F → S → State F × S × F
  unfolding pay_cycles count_down
  run_cycles id e es ev lt delta n st s =
      let consumed = f.of_int n ⊗ lt in
      (
        count_down id e es ((delta ⊕ e.progress) ⊖ consumed) n (record_execution e.event_id n st),
        pay_cycles e ev n s,
        consumed,
      )

  -- The state, the player and the time that was used up.
  unfoldable pub settle_loop :
      ℤ → QueueEntry F → List (QueueEntry F) → Event F → F → State F → S → State F × S × F
  unfolding actual_cycles time_cycles wait run_cycles
  settle_loop id e es ev delta st s =
      let lt = deref_loop_time ev.loop_time in
      let n = time_cycles e lt delta in
      let m = actual_cycles e ev s n in
      if lt ≤? nought
      then (consume id 0 st, s, nought)
      else if (n =? pos 0) || (m =? pos 0)
      then (wait id e es delta st, s, delta)
      else run_cycles id e es ev lt delta m st s

-- One round of the loop of `settleQueue`: it returns with the time that is left, or goes on.
pub data Round (S F : Type 0) : Type 0 where
  returns : State F → S → F → Round S F
  again : State F → S → F → Round S F

module _ {S F : Type 0} ⦃f : Float F⦄ (ctx : SettlementCtx S F) (game : GameData F) where
  -- Whether the entry's event is known and its requirements are met.
  unfoldable pub is_satisfied : S → QueueEntry F → Bool
  is_satisfied s e = elim (game.get_event_by_id e.event_id) [
    | some ev ↦ check_reqs ctx ev.requirements s
    | none ↦ false
  ]

  unfoldable pub run_head :
      EventType → ℤ → QueueEntry F → List (QueueEntry F) → Event F → F → State F → S → Round S F
  run_head EventType.loop id e es ev left st s =
      let (st', s', used) = settle_loop ctx game id e es ev left st s in again st' s' (left ⊖ used)
  run_head EventType.instant id e es ev left st s =
      let (st', s') = settle_instant ctx id e ev st s in again st' s' left
  run_head EventType.upgrade id e es ev left st s =
      let (st', s') = settle_instant ctx id e ev st s in again st' s' left
  run_head EventType.other id e es ev left st s = again st s left

  unfoldable pub swap_head : ℤ → List (QueueEntry F) → F → State F → S → Round S F
  unfolding is_satisfied
  swap_head id es left st s = elim (swap_satisfied (is_satisfied s) es) [
    | some swapped ↦ again (mark_full id (set_entries id swapped st)) s left
    | none ↦ returns st s left
  ]

  unfoldable pub settle_head : ℤ → QueueEntry F → List (QueueEntry F) → F → State F → S → Round S F
  unfolding run_head swap_head
  settle_head id e es left st s = elim (game.get_event_by_id e.event_id) [
    | none ↦ again (consume id 0 st) s left
    | some ev ↦
        if check_reqs ctx ev.requirements s
        then run_head ev.kind id e es ev left st s
        else swap_head id (e ∷ es) left st s
  ]

  unfoldable pub settle_round : ℤ → F → State F → S → Round S F
  unfolding settle_head
  settle_round id left st s = elim (entries_of id st) [
    | [] ↦ returns st s left
    | e ∷ es ↦ if nought <? left then settle_head id e es left st s else returns st s left
  ]

  -- `none` says that the fuel ran out.
  unfoldable pub settle_queue : ℕ → ℤ → F → State F → S → Option (State F × S × F)
  unfolding settle_round
  settle_queue zero id left st s = none
  settle_queue (suc fuel) id left st s = elim (settle_round id left st s) [
    | returns st' s' left' ↦ some (st', s', left')
    | again st' s' left' ↦ settle_queue fuel id left' st' s'
  ]
