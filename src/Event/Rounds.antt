-- ===== src/Event/Rounds.antt =====
-- What the rounds of `settleQueue` come to (backend/internal/event/settle.go).
use milkyway_liluo_idle.Prelude.{
  ℕ, zero, suc, ◌≤◌, ◌≡◌, refl, ap, ◌∙◌, ◌⊎◌, inl, inr, Bool, true, false, Bool-cases, List, [],
  ◌∷◌, Option, none, some, arith, ℤ, pos, ◌≤ℤ◌, int_eq, All, List-cases, length,
}
use milkyway_liluo_idle.Float.{Float, ◌⊘◌, ◌<?◌, nought}
use milkyway_liluo_idle.Item.{Item}
use milkyway_liluo_idle.GameConfig.{Event, EventType, Requirement, is_consumption}
use milkyway_liluo_idle.Event.{State, entries_of, entries_of-record_execution, entries_of-consume}
use milkyway_liluo_idle.Event.Entries.{QueueEntry, remove_at, renumber}
use milkyway_liluo_idle.Event.Swap.{swap_satisfied-none}
use milkyway_liluo_idle.Event.Settle.{SettlementCtx, GameData, check_reqs, settle_instant}
use milkyway_liluo_idle.Event.Loop.{
  returns, again, is_satisfied, settle_head, settle_round, settle_queue, run_head, swap_head,
}

module _ {S F : Type 0} ⦃f : Float F⦄ (ctx : SettlementCtx S F) (game : GameData F) where
  -- `n` is no more than what the stock of one consumed requirement allows.
  abbrev pub FitsKind : Bool → Option F → Item → S → ℤ → Type 0
  FitsKind true (some v) item s n = n ≤ℤ f.to_int (ctx.get_item_qty item s ⊘ v)
  FitsKind _ _ item s n = Unit {0}

  abbrev pub Fits : S → ℤ → Requirement F → Type 0
  Fits s n req = FitsKind (is_consumption req) req.value req.resolved_item s n

  -- Nothing happens to a queue, and all of the time is left for the next one, if its head is known
  -- and blocked and no entry behind it is satisfied.
  pub settle_queue_blocked :
      (fuel : ℕ) (id : ℤ) (e : QueueEntry F) (es : List (QueueEntry F)) (ev : Event F) (left : F)
      (st : State F) (s : S)
      → entries_of id st ≡ e ∷ es
      → game.get_event_by_id e.event_id ≡ some ev
      → check_reqs ctx ev.requirements s ≡ false
      → All (λ d. is_satisfied ctx game s d ≡ false) es
      → settle_queue ctx game (suc fuel) id left st s ≡ some (st, s, left)
  unfolding settle_queue settle_round
  settle_queue_blocked fuel id e es ev left st s q known blocked none_behind =
      elim (Bool-cases (nought <? left)) [
        | inl p ↦
            rw (q, settle_queue)
              (rw p (
                rw (known, settle_head)
                  (rw blocked (
                    rw (
                      swap_satisfied-none (is_satisfied ctx game s) e es none_behind,
                      swap_head,
                    )))))
        | inr p ↦ rw (q, settle_queue) (rw p)
      ]

  -- One round on a head whose event is known and whose requirements are met.
  pub settle_round_met :
      (id : ℤ) (e : QueueEntry F) (es : List (QueueEntry F)) (ev : Event F) (left : F)
      (st : State F) (s : S)
      → entries_of id st ≡ e ∷ es
      → game.get_event_by_id e.event_id ≡ some ev
      → check_reqs ctx ev.requirements s ≡ true
      → (nought <? left) ≡ true
      → settle_round ctx game id left st s ≡ run_head ctx game ev.kind id e es ev left st s
  unfolding settle_round
  settle_round_met id e es ev left st s q known met time =
      rw (q, settle_round) (rw time (rw (known, settle_head) (rw met)))

  -- With no time left a queue is left as it is.
  pub settle_round_no_time :
      (id : ℤ) (left : F) (st : State F) (s : S)
      → (nought <? left) ≡ false
      → settle_round ctx game id left st s ≡ returns st s left
  unfolding settle_round
  settle_round_no_time id left st s time = elim (List-cases (entries_of id st)) [
    | inl q ↦ rw (q, settle_round)
    | inr (e, es, q) ↦ rw (q, settle_round) (rw time)
  ]

  -- An event of a type that is none of the three is never consumed: the loop goes on for ever.
  pub settle_queue_diverges :
      (fuel : ℕ) (id : ℤ) (e : QueueEntry F) (es : List (QueueEntry F)) (ev : Event F) (left : F)
      (st : State F) (s : S)
      → entries_of id st ≡ e ∷ es
      → game.get_event_by_id e.event_id ≡ some ev
      → ev.kind ≡ EventType.other
      → check_reqs ctx ev.requirements s ≡ true
      → (nought <? left) ≡ true
      → settle_queue ctx game fuel id left st s ≡ none
  unfolding settle_queue run_head
  settle_queue_diverges zero id e es ev left st s q known kind met time = refl
  settle_queue_diverges (suc fuel) id e es ev left st s q known kind met time =
      rw (settle_round_met id e es ev left st s q known met time, settle_queue)
        (rw (kind, run_head)
          (settle_queue_diverges fuel id e es ev left st s q known kind met time))

  -- The event of an entry is known, completes at once and has no requirement.
  abbrev pub IsImmediate : QueueEntry F → Type 0
  IsImmediate e =
      (ev : Event F) × (game.get_event_by_id e.event_id ≡ some ev)
      × ((ev.kind ≡ EventType.instant) ⊎ (ev.kind ≡ EventType.upgrade))
      × (ev.requirements ≡ [])

  renumber-IsImmediate :
      (k : ℕ) (es : List (QueueEntry F)) → All IsImmediate es → All IsImmediate (renumber k es)
  unfolding renumber
  renumber-IsImmediate k [] v = tt
  renumber-IsImmediate k (e ∷ es) v = (v.0, renumber-IsImmediate (suc k) es v.1)

  length-renumber : (k : ℕ) (es : List (QueueEntry F)) → length (renumber k es) ≡ length es
  unfolding renumber
  length-renumber k [] = refl
  length-renumber k (e ∷ es) = ap suc (length-renumber (suc k) es)

  check_reqs_none : (s : S) → check_reqs ctx [] s ≡ true
  unfolding check_reqs
  check_reqs_none s = refl

  run_head_immediate :
      (id : ℤ) (e : QueueEntry F) (es : List (QueueEntry F)) (ev : Event F) (left : F)
      (st : State F) (s : S)
      → (ev.kind ≡ EventType.instant) ⊎ (ev.kind ≡ EventType.upgrade)
      → let (st', s') = settle_instant ctx id e ev st s in
        run_head ctx game ev.kind id e es ev left st s ≡ again st' s' left
  unfolding run_head
  run_head_immediate id e es ev left st s (inl p) = rw p
  run_head_immediate id e es ev left st s (inr p) = rw p

  entries_of-settle_instant :
      (id : ℤ) (e : QueueEntry F) (es : List (QueueEntry F)) (ev : Event F) (st : State F) (s : S)
      → entries_of id st ≡ e ∷ es
      → entries_of id (settle_instant ctx id e ev st s).0 ≡ renumber 0 es
  unfolding settle_instant remove_at
  entries_of-settle_instant id e es ev st s q =
      entries_of-consume id 0 _
      ∙ ap (remove_at 0) (entries_of-record_execution e.event_id (pos 1) id st ∙ q)

  -- An immediate head is taken off the queue, at no cost of time.
  settle_round_immediate :
      (id : ℤ) (e : QueueEntry F) (es : List (QueueEntry F)) (left : F) (st : State F) (s : S)
      → entries_of id st ≡ e ∷ es
      → IsImmediate e
      → (nought <? left) ≡ true
      → (st' : State F) × (s' : S) × (settle_round ctx game id left st s ≡ again st' s' left)
        × (entries_of id st' ≡ renumber 0 es)
  settle_round_immediate id e es left st s q (ev, known, kind, free) time =
      let (st', s') = settle_instant ctx id e ev st s in
      (
        st',
        s',
        settle_round_met id e es ev left st s q known (rw free (check_reqs_none s)) time
            ∙ run_head_immediate id e es ev left st s kind,
        entries_of-settle_instant id e es ev st s q,
      )

  -- A queue of events that complete at once and have no requirement is emptied in one settlement,
  -- which uses no time. As many rounds as entries, and one more, are enough.
  pub settle_queue_immediate :
      (fuel : ℕ) (id : ℤ) (es : List (QueueEntry F)) (left : F) (st : State F) (s : S)
      → entries_of id st ≡ es
      → All IsImmediate es
      → (nought <? left) ≡ true
      → length es ≤ fuel
      → (st' : State F) × (s' : S) × (settle_queue ctx game (suc fuel) id left st s
          ≡ some (st', s', left))
        × (entries_of id st' ≡ [])
  unfolding settle_queue settle_round
  settle_queue_immediate fuel id [] left st s q v time h = (st, s, rw (q, settle_queue), q)
  settle_queue_immediate zero id (e ∷ es) left st s q v time h = absurd (omega arith)
  settle_queue_immediate (suc fuel) id (e ∷ es) left st s q v time h =
      let (st', s', round, rest) = settle_round_immediate id e es left st s q v.0 time in
      let (st'', s'', done, empty) =
        settle_queue_immediate fuel id (renumber 0 es) left st' s' rest
          (renumber-IsImmediate 0 es v.1) time (omega (arith, length-renumber 0 es)) in
      (st'', s'', rw (round, settle_queue) done, empty)
