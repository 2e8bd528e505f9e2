-- ===== src/Event/Tick.antt =====
-- What a tick calls on the event queues: `Settle`, and `WillTrigger` with `AdvanceProgress` where
-- nothing happens (backend/internal/event/settle.go, called by runTick of
-- backend/internal/session/tick.go). A list of queue ids is the order in which Go's `range` visits
-- the map.
use milkyway_liluo_idle.Prelude.{
  ℕ, Bool, true, false, not, ◌&&◌, ◌||◌, if◌then◌else◌, List, [], ◌∷◌, Option, none, some, ℤ, Table,
}
use milkyway_liluo_idle.Float.{Float, ◌⊕◌, ◌⊖◌, ◌≤?◌, nought}
use milkyway_liluo_idle.GameConfig.{Event, EventType}
use milkyway_liluo_idle.Event.{Queue, State}
use milkyway_liluo_idle.Event.Entries.{QueueEntry}
use milkyway_liluo_idle.Event.Settle.{SettlementCtx, GameData, deref_loop_time, check_reqs}
use milkyway_liluo_idle.Event.Loop.{settle_queue}

module _ {F : Type 0} ⦃f : Float F⦄ where
  -- The new progress of a loop, which stays just below one cycle.
  unfoldable pub capped_progress : F → F → F → F
  capped_progress lt progress delta =
      let new = progress ⊕ delta in if lt ≤? new then lt ⊖ f.lit 1 9 else new

  unfoldable pub advance_loop : EventType → F → F → QueueEntry F → QueueEntry F
  unfolding capped_progress
  advance_loop EventType.loop lt delta e =
      if lt ≤? nought then e else record e { progress = capped_progress lt e.progress delta }
  advance_loop _ lt delta e = e

  unfoldable pub advance_entry : GameData F → F → QueueEntry F → QueueEntry F
  unfolding advance_loop
  advance_entry game delta e = elim (game.get_event_by_id e.event_id) [
    | some ev ↦ advance_loop ev.kind (deref_loop_time ev.loop_time) delta e
    | none ↦ e
  ]

  unfoldable pub advance_head : GameData F → F → List (QueueEntry F) → List (QueueEntry F)
  unfolding advance_entry
  advance_head game delta [] = []
  advance_head game delta (e ∷ es) = advance_entry game delta e ∷ es

  unfoldable pub advance_queues : GameData F → F → Table ℤ (Queue F) → Table ℤ (Queue F)
  unfolding advance_head
  advance_queues game delta [] = []
  advance_queues game delta ((id, q) ∷ qs) =
      (id, record q { entries = advance_head game delta q.entries }) ∷ advance_queues game delta qs

  -- `AdvanceProgress` writes through the pointers to the queues, and marks nothing.
  unfoldable pub advance_progress : GameData F → F → State F → State F
  unfolding advance_queues
  advance_progress game delta st = record st { queues = advance_queues game delta st.queues }

-- A hook that runs before or after each settlement.
abbrev pub Hook : Type 0 → Type 0 → Type 0
Hook S F = F → S → S

unfoldable pub run_hooks : {S F : Type 0} → List (Hook S F) → F → S → S
run_hooks [] delta s = s
run_hooks (h ∷ hs) delta s = run_hooks hs delta (h delta s)

module _ {S F : Type 0} ⦃f : Float F⦄ (ctx : SettlementCtx S F) (game : GameData F) where
  unfoldable pub triggers_as : EventType → F → Event F → F → QueueEntry F → S → Bool
  triggers_as EventType.instant lt ev delta e s = true
  triggers_as EventType.upgrade lt ev delta e s = true
  triggers_as EventType.loop lt ev delta e s =
      not (lt ≤? nought) && (not (check_reqs ctx ev.requirements s) || lt ≤? delta ⊕ e.progress)
  triggers_as EventType.other lt ev delta e s = false

  unfoldable pub head_triggers : F → List (QueueEntry F) → S → Bool
  unfolding triggers_as
  head_triggers delta [] s = false
  head_triggers delta (e ∷ es) s = elim (game.get_event_by_id e.event_id) [
    | some ev ↦ triggers_as ev.kind (deref_loop_time ev.loop_time) ev delta e s
    | none ↦ false
  ]

  unfoldable pub any_triggers : F → Table ℤ (Queue F) → S → Bool
  unfolding head_triggers
  any_triggers delta [] s = false
  any_triggers delta ((id, q) ∷ qs) s = head_triggers delta q.entries s || any_triggers delta qs s

  unfoldable pub will_trigger : F → State F → S → Bool
  unfolding any_triggers
  will_trigger delta st s = any_triggers delta st.queues s

  -- The queues share the time: what one of them leaves goes to the next.
  unfoldable pub settle_queues : ℕ → List ℤ → F → State F → S → Option (State F × S)
  settle_queues fuel [] left st s = some (st, s)
  settle_queues fuel (id ∷ ids) left st s =
      if left ≤? nought then some (st, s) else elim (settle_queue ctx game fuel id left st s) [
        | some (st', s', left') ↦ settle_queues fuel ids left' st' s'
        | none ↦ none
      ]

  -- `fuel` bounds the rounds on one queue.
  unfoldable pub settle :
      List (Hook S F) → List (Hook S F) → ℕ → List ℤ → F → State F → S → Option (State F × S)
  unfolding settle_queues run_hooks
  settle before after fuel ids delta st s =
      if delta ≤? nought
      then some (st, s)
      else elim (settle_queues fuel ids delta st (run_hooks before delta s)) [
        | some (st', s') ↦ some (st', run_hooks after delta s')
        | none ↦ none
      ]
