-- ===== src/Event/Reloading.antt =====
-- What `Flush` and `Load` (backend/internal/event/state.go) make of a queue in which the head and another
-- entry have changed places but not positions.

use milkyway_liluo_idle.Prelude.{
  ℕ, suc, ◌+◌, ◌≡◌, refl, ap, subst, ◌∙◌, false, List, [], ◌∷◌, ◌++◌, map, length, sym, ◌==◌, ◌<◌,
  arith, All,
}
use milkyway_liluo_idle.Float.{Float}
use milkyway_liluo_idle.Event.Entries.{QueueEntry, CompactFrom, next_position}
use milkyway_liluo_idle.Event.Store.{
  Rows, SortedFrom, IsNamed, upsert, upsert_all, upsert-SortedFrom, flush_queue, clear_row,
  load_queue, load-flush, below, below-upsert, below-SortedFrom,
}

module _ {F : Type 0} where
  next_position-append :
      (es : List (QueueEntry F)) (e : QueueEntry F) → next_position (es ++ e ∷ []) ≡ e.position + 1
  unfolding next_position
  next_position-append [] e = refl
  next_position-append (d ∷ []) e = refl
  next_position-append (d ∷ c ∷ es) e = next_position-append (c ∷ es) e

  upsert_all-append :
      (es : List (QueueEntry F)) (e : QueueEntry F) (rs : Rows F)
      → upsert_all (es ++ e ∷ []) rs ≡ upsert e (upsert_all es rs)
  unfolding upsert_all
  upsert_all-append [] e rs = refl
  upsert_all-append (d ∷ es) e rs = upsert_all-append es e (upsert d rs)

  upsert_all-SortedFrom :
      (es : List (QueueEntry F)) (rs : Rows F) → SortedFrom 0 rs → SortedFrom 0 (upsert_all es rs)
  unfolding upsert_all
  upsert_all-SortedFrom [] rs s = s
  upsert_all-SortedFrom (e ∷ es) rs s =
      upsert_all-SortedFrom es (upsert e rs) (upsert-SortedFrom 0 e rs (omega arith) s)

  load_queue-clear_below :
      ⦃f : Float F⦄ (tail : ℕ) (rs : Rows F)
      → load_queue (map (clear_row tail) rs) ≡ load_queue (below tail rs)
  unfolding load_queue clear_row
  load_queue-clear_below tail [] = refl
  load_queue-clear_below tail (r ∷ rs) = ground (arith, load_queue-clear_below tail rs)

  load_one : (e : QueueEntry F) → IsNamed e → load_queue (e ∷ []) ≡ e ∷ []
  unfolding load_queue
  load_one e n = rw n

  -- A queue whose last entry has position 0 comes back from the store as that entry alone: `Flush`
  -- clears every row from position 1 on, those that it has just written included.
  load-flush_last :
      ⦃f : Float F⦄ (es : List (QueueEntry F)) (e : QueueEntry F) (rows : Rows F)
      → e.position ≡ 0
      → IsNamed e
      → SortedFrom 0 rows
      → load_queue (flush_queue (es ++ e ∷ []) rows) ≡ e ∷ []
  unfolding flush_queue
  load-flush_last es e rows p n s =
      let one : e.position + 1 ≡ 1 = omega arith in
      let stored = upsert_all es rows in
      let sorted = upsert_all-SortedFrom es rows s in
      let kept : below 1 (upsert e stored) ≡ e ∷ [] =
        subst (λ (k : ℕ). below (suc k) (upsert e stored) ≡ below k stored ++ e ∷ []) p
          (below-upsert 0 e stored sorted)
        ∙ rw (below-SortedFrom 0 0 stored (omega arith) sorted) in
      rw (next_position-append es e, upsert_all-append es e rows, load_queue-clear_below)
        (ap (λ (k : ℕ). load_queue (below k (upsert e stored))) one ∙ rw kept (load_one e n))

  -- The position behind a queue is that behind its end.
  next_position-behind :
      (es : List (QueueEntry F)) (d : QueueEntry F) (ds : List (QueueEntry F))
      → next_position (es ++ d ∷ ds) ≡ next_position (d ∷ ds)
  unfolding next_position
  next_position-behind [] d ds = refl
  next_position-behind (e ∷ []) d ds = refl
  next_position-behind (e ∷ c ∷ es) d ds = next_position-behind (c ∷ es) d ds

  -- Rows at different positions are written in any order.
  upsert_comm :
      (a b : QueueEntry F) (rs : Rows F)
      → (a.position == b.position) ≡ false
      → upsert a (upsert b rs) ≡ upsert b (upsert a rs)
  unfolding upsert
  upsert_comm a b [] h = ground arith
  upsert_comm a b (r ∷ rs) h = ground (arith, upsert_comm a b rs h)

  abbrev AreApart : QueueEntry F → List (QueueEntry F) → Type 0
  AreApart a es = All (λ e. (a.position == e.position) ≡ false) es

  upsert_all-move :
      (a : QueueEntry F) (mid rest : List (QueueEntry F)) (rs : Rows F)
      → AreApart a mid
      → upsert_all (mid ++ a ∷ rest) rs ≡ upsert_all (mid ++ rest) (upsert a rs)
  unfolding upsert_all
  upsert_all-move a [] rest rs h = refl
  upsert_all-move a (m ∷ mid) rest rs h =
      upsert_all-move a mid rest (upsert m rs) h.1
      ∙ ap (upsert_all (mid ++ rest)) (upsert_comm a m rs h.0)

  -- In a queue whose positions are its indexes, the entries before one are apart from it.
  before-AreApart :
      (k : ℕ) (mid rest : List (QueueEntry F)) (a : QueueEntry F)
      → CompactFrom k (mid ++ a ∷ rest)
      → (a.position ≡ k + length mid) × AreApart a mid
  before-AreApart k [] rest a c = (omega arith, tt)
  before-AreApart k (m ∷ mid) rest a c =
      let h = before-AreApart (suc k) mid rest a c.1 in
      (omega (arith, h.0), (ground (arith, h.0), h.1))

  behind-AreApart :
      (k : ℕ) (mid rest : List (QueueEntry F)) (a : QueueEntry F)
      → a.position < k
      → CompactFrom k (mid ++ rest)
      → AreApart a mid
  behind-AreApart k [] rest a h c = tt
  behind-AreApart k (m ∷ mid) rest a h c =
      (ground arith, behind-AreApart (suc k) mid rest a (omega arith) c.1)

  -- A queue after the swap writes the rows that it wrote before.
  upsert_all-swapped :
      (cur next : QueueEntry F) (mid rest : List (QueueEntry F)) (rows : Rows F)
      → CompactFrom 0 (cur ∷ (mid ++ next ∷ rest))
      → upsert_all (next ∷ (mid ++ cur ∷ rest)) rows ≡ upsert_all (cur ∷ (mid ++ next ∷ rest)) rows
  unfolding upsert_all
  upsert_all-swapped cur next mid rest rows c =
      let before = before-AreApart 1 mid rest next c.1 in
      upsert_all-move cur mid rest (upsert next rows)
        (behind-AreApart 1 mid (next ∷ rest) cur (omega arith) c.1)
      ∙ ap (upsert_all (mid ++ rest)) (upsert_comm cur next rows (ground (arith, before.0)))
      ∙ sym (upsert_all-move next mid rest (upsert cur rows) before.1)

  -- What is left of a queue after the swap of `cur` with `next`, a flush and a load.
  abbrev pub reloaded :
      QueueEntry F → List (QueueEntry F) → QueueEntry F → List (QueueEntry F) → List (QueueEntry F)
  reloaded cur mid next [] = cur ∷ []
  reloaded cur mid next (d ∷ ds) = cur ∷ (mid ++ next ∷ d ∷ ds)

  pub load-flush-swapped :
      ⦃f : Float F⦄ (cur next : QueueEntry F) (mid rest : List (QueueEntry F)) (rows : Rows F)
      → CompactFrom 0 (cur ∷ (mid ++ next ∷ rest))
      → All IsNamed (cur ∷ (mid ++ next ∷ rest))
      → SortedFrom 0 rows
      → load_queue (flush_queue (next ∷ (mid ++ cur ∷ rest)) rows) ≡ reloaded cur mid next rest
  unfolding flush_queue next_position
  load-flush-swapped cur next mid [] rows c n s = load-flush_last (next ∷ mid) cur rows c.0 n.0 s
  load-flush-swapped cur next mid (d ∷ ds) rows c n s =
      let same : next_position (next ∷ (mid ++ cur ∷ d ∷ ds))
          ≡ next_position (cur ∷ (mid ++ next ∷ d ∷ ds)) =
        next_position-behind (next ∷ mid) cur (d ∷ ds)
        ∙ sym (next_position-behind (cur ∷ mid) next (d ∷ ds)) in
      let old = cur ∷ (mid ++ next ∷ d ∷ ds) in
      let cleared : flush_queue (next ∷ (mid ++ cur ∷ d ∷ ds)) rows ≡ flush_queue old rows =
        rw (same, upsert_all-swapped cur next mid (d ∷ ds) rows c) refl in
      ap load_queue cleared ∙ load-flush old rows c n s
