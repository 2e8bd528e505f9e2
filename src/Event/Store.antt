-- ===== src/Event/Store.antt =====
-- The stored queues: `Flush` and `Load` (backend/internal/event/state.go) with the queries that they
-- run (backend/internal/db/queries/events.sql).
use mathlib.Core.List.{append-nil, append_assoc, map-append}
use native.Mathlib.Nat.{zero-add, add-zero}
use milkyway_liluo_idle.Prelude.{
  ℕ, suc, ◌+◌, ◌≤◌, ◌<◌, ◌≡◌, refl, ap, sym, subst, ◌∙◌, false, not, if◌then◌else◌, leb, ltb, ◌==◌,
  List, [], ◌∷◌, ◌++◌, map, arith, pos, length, filter, filter-append, All, ◌=?◌, int_eq,
}
use milkyway_liluo_idle.Float.{Float, nought}
use milkyway_liluo_idle.Event.Positions.{next_position-CompactFrom}
use milkyway_liluo_idle.Event.Entries.{QueueEntry, CompactFrom, next_position}

-- A row of `player_active_events` has the columns of an entry. The rows of one player and queue are
-- kept in the order of their positions, in which `LoadActiveEvents` returns them.
abbrev pub Rows : Type 0 → Type 0
Rows F = List (QueueEntry F)

module _ {F : Type 0} where
  -- `UpsertActiveEvent`: one row for each position.
  unfoldable pub upsert : QueueEntry F → Rows F → Rows F
  upsert e [] = e ∷ []
  upsert e (r ∷ rs) =
      let rest = upsert e rs in
      if r.position == e.position
      then e ∷ rs
      else if ltb e.position r.position
      then e ∷ r ∷ rs
      else r ∷ rest

  unfoldable pub upsert_all : List (QueueEntry F) → Rows F → Rows F
  unfolding upsert
  upsert_all [] rows = rows
  upsert_all (e ∷ es) rows = upsert_all es (upsert e rows)

  -- The `UPDATE` of `ClearTailPositions` on one row.
  unfoldable pub clear_row : ⦃f : Float F⦄ → ℕ → QueueEntry F → QueueEntry F
  clear_row tail r =
      if leb tail r.position
      then record r { event_id = pos 0; target_cycles = pos 0; progress = nought }
      else r

  -- `Flush` on one dirty queue.
  unfoldable pub flush_queue : ⦃f : Float F⦄ → List (QueueEntry F) → Rows F → Rows F
  unfolding upsert_all clear_row
  flush_queue es rows = map (clear_row (next_position es)) (upsert_all es rows)

  -- `Load` on the rows of one queue: the cleared ones are skipped.
  unfoldable pub load_queue : Rows F → List (QueueEntry F)
  load_queue = filter (λ r. not (r.event_id =? pos 0))

  abbrev pub below : ℕ → Rows F → Rows F
  below k = filter (λ r. ltb r.position k)

  abbrev pub from : ℕ → Rows F → Rows F
  from k = filter (λ r. leb k r.position)

  -- One row for each position at least `k`, in order.
  abbrev pub SortedFrom : ℕ → Rows F → Type 0
  SortedFrom k [] = Unit
  SortedFrom k (r ∷ rs) = (k ≤ r.position) × SortedFrom (suc r.position) rs

  SortedFrom-mono : (j k : ℕ) (rs : Rows F) → j ≤ k → SortedFrom k rs → SortedFrom j rs
  SortedFrom-mono j k [] h s = tt
  SortedFrom-mono j k (r ∷ rs) h s = (omega arith, s.1)

  pub below-SortedFrom : (j k : ℕ) (rs : Rows F) → j ≤ k → SortedFrom k rs → below j rs ≡ []
  below-SortedFrom j k [] h s = refl
  below-SortedFrom j k (r ∷ rs) h s =
      ground (arith, below-SortedFrom j (suc r.position) rs (omega arith) s.1)

  from-SortedFrom : (j k : ℕ) (rs : Rows F) → j ≤ k → SortedFrom k rs → from j rs ≡ rs
  from-SortedFrom j k [] h s = refl
  from-SortedFrom j k (r ∷ rs) h s =
      ground (arith, from-SortedFrom j (suc r.position) rs (omega arith) s.1)

  pub upsert-SortedFrom :
      (k : ℕ) (e : QueueEntry F) (rs : Rows F)
      → k ≤ e.position
      → SortedFrom k rs
      → SortedFrom k (upsert e rs)
  unfolding upsert
  upsert-SortedFrom k e [] h s = (h, tt)
  upsert-SortedFrom k e (r ∷ rs) h s =
      ground (arith, λ (p : r.position < e.position). upsert-SortedFrom (suc r.position) e rs p s.1)

  -- An upsert writes one row, and leaves the rows before and behind it.
  pub below-upsert :
      (k : ℕ) (e : QueueEntry F) (rs : Rows F)
      → SortedFrom k rs
      → below (suc e.position) (upsert e rs) ≡ below e.position rs ++ e ∷ []
  unfolding upsert
  below-upsert k e [] s = ground arith
  below-upsert k e (r ∷ rs) s = ground (
    arith,
    below-upsert (suc r.position) e rs s.1,
    λ (p : suc e.position ≤ suc r.position).
        below-SortedFrom (suc e.position) (suc r.position) rs p s.1,
    λ (p : e.position ≤ suc r.position). below-SortedFrom e.position (suc r.position) rs p s.1,
  )

  from-upsert :
      (j : ℕ) (e : QueueEntry F) (rs : Rows F) → e.position < j → from j (upsert e rs) ≡ from j rs
  unfolding upsert
  from-upsert j e [] h = ground arith
  from-upsert j e (r ∷ rs) h = ground (arith, from-upsert j e rs h)

  below_from : (j k : ℕ) (rs : Rows F) → SortedFrom k rs → below j rs ++ from j rs ≡ rs
  below_from j k [] s = refl
  below_from j k (r ∷ rs) s = ground (
    arith,
    below_from j (suc r.position) rs s.1,
    λ (p : j ≤ suc r.position). below-SortedFrom j (suc r.position) rs p s.1,
    λ (p : j ≤ suc r.position). from-SortedFrom j (suc r.position) rs p s.1,
  )

  -- The entries of a queue whose positions are its indexes overwrite the rows at these positions.
  pub upsert_all-CompactFrom :
      (k : ℕ) (es : List (QueueEntry F)) (rs : Rows F)
      → CompactFrom k es
      → SortedFrom 0 rs
      → upsert_all es rs ≡ below k rs ++ es ++ from (k + length es) rs
  unfolding upsert_all
  upsert_all-CompactFrom k [] rs c s = rw (add-zero, append-nil) (sym (below_from k 0 rs s))
  upsert_all-CompactFrom k (e ∷ es) rs c s =
      let here : below (suc k) (upsert e rs) ≡ below k rs ++ e ∷ [] =
        subst (λ (n : ℕ). below (suc n) (upsert e rs) ≡ below n rs ++ e ∷ []) c.0
          (below-upsert 0 e rs s) in
      let behind : from (suc k + length es) (upsert e rs) ≡ from (k + suc (length es)) rs =
        ap (λ (n : ℕ). from n (upsert e rs)) (omega arith)
        ∙ from-upsert (k + suc (length es)) e rs (omega arith) in
      upsert_all-CompactFrom (suc k) es (upsert e rs) c.1 (upsert-SortedFrom 0 e rs (omega arith) s)
      ∙ simp (here, behind, append_assoc)

  CompactFrom-clear :
      ⦃f : Float F⦄ (tail k : ℕ) (es : List (QueueEntry F))
      → CompactFrom k es
      → k + length es ≤ tail
      → map (clear_row tail) es ≡ es
  unfolding clear_row
  CompactFrom-clear tail k [] c h = refl
  CompactFrom-clear tail k (e ∷ es) c h =
      ground (arith, CompactFrom-clear tail (suc k) es c.1 (omega arith))

  -- No row from the tail on is loaded.
  load_queue-clear :
      ⦃f : Float F⦄ (tail : ℕ) (rs : Rows F) → load_queue (map (clear_row tail) (from tail rs)) ≡ []
  unfolding load_queue clear_row
  load_queue-clear tail [] = refl
  load_queue-clear tail (r ∷ rs) = ground (arith, load_queue-clear tail rs)

  -- An event of the configuration has an id other than 0.
  abbrev pub IsNamed : QueueEntry F → Type 0
  IsNamed e = (e.event_id =? pos 0) ≡ false

  load_queue-All : (es : List (QueueEntry F)) → All IsNamed es → load_queue es ≡ es
  unfolding load_queue
  load_queue-All [] v = refl
  load_queue-All (e ∷ es) v = rw v.0 (ap (◌∷◌ e) (load_queue-All es v.1))

  load_queue-append : (xs ys : Rows F) → load_queue (xs ++ ys) ≡ load_queue xs ++ load_queue ys
  unfolding load_queue
  load_queue-append xs ys = filter-append _ xs ys

  next_position_compact :
      (es : List (QueueEntry F)) → CompactFrom 0 es → next_position es ≡ length es
  unfolding next_position
  next_position_compact [] c = refl
  next_position_compact (e ∷ es) c = next_position-CompactFrom 0 e es c ∙ zero-add _

  -- What `Flush` writes of a queue whose positions are its indexes, `Load` reads back, whatever rows
  -- the table had before.
  pub load-flush :
      ⦃f : Float F⦄ (es : List (QueueEntry F)) (rows : Rows F)
      → CompactFrom 0 es
      → All IsNamed es
      → SortedFrom 0 rows
      → load_queue (flush_queue es rows) ≡ es
  unfolding flush_queue
  load-flush es rows c v s =
      let behind = from (length es) rows in
      let written : upsert_all es rows ≡ es ++ behind =
        upsert_all-CompactFrom 0 es rows c s
        ∙ rw (below-SortedFrom 0 0 rows (omega arith) s, zero-add) in
      rw (next_position_compact es c, written, map-append, load_queue-append)
        (rw (CompactFrom-clear (length es) 0 es c (omega arith), load_queue-clear, append-nil)
          (load_queue-All es v))
