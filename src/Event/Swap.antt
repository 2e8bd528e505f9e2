-- ===== src/Event/Swap.antt =====
-- `swapSatisfied` (backend/internal/event/settle.go): the head of a queue changes places with the first
-- entry behind it whose requirements are met. The positions are not reassigned.

use mathlib.Core.Option
use milkyway_liluo_idle.Prelude.{
  ◌≡◌, refl, Bool, true, false, if◌then◌else◌, List, [], ◌∷◌, ◌++◌, Option, none, some, All,
}
use milkyway_liluo_idle.Float.{Float}
use milkyway_liluo_idle.Event.Entries.{QueueEntry, CompactFrom}
use milkyway_liluo_idle.Event.Store.{Rows, SortedFrom, IsNamed, flush_queue, load_queue}
use milkyway_liluo_idle.Event.Reloading.{reloaded, load-flush-swapped}

module _ {F : Type 0} (meets : QueueEntry F → Bool) where
  -- The entry that becomes the head, and the rest with the old head in its place.
  unfoldable pub swap_behind :
      QueueEntry F → List (QueueEntry F) → Option (QueueEntry F × List (QueueEntry F))
  swap_behind cur [] = none
  swap_behind cur (e ∷ es) =
      if meets e
      then some (e, cur ∷ es)
      else Option.map (λ (r : QueueEntry F × List (QueueEntry F)). (r.0, e ∷ r.1))
          (swap_behind cur es)

  unfoldable pub swap_satisfied : List (QueueEntry F) → Option (List (QueueEntry F))
  unfolding swap_behind
  swap_satisfied [] = none
  swap_satisfied (cur ∷ es) =
      Option.map (λ (r : QueueEntry F × List (QueueEntry F)). r.0 ∷ r.1) (swap_behind cur es)

  swap_behind_first :
      (cur next : QueueEntry F) (mid rest : List (QueueEntry F))
      → All (λ e. meets e ≡ false) mid
      → meets next ≡ true
      → swap_behind cur (mid ++ next ∷ rest) ≡ some (next, mid ++ cur ∷ rest)
  unfolding swap_behind
  swap_behind_first cur next [] rest v h = rw h
  swap_behind_first cur next (e ∷ mid) rest v h =
      rw (v.0, swap_behind_first cur next mid rest v.1 h)

  -- The first entry behind the head that can run changes places with it.
  pub swap_satisfied_first :
      (cur next : QueueEntry F) (mid rest : List (QueueEntry F))
      → All (λ e. meets e ≡ false) mid
      → meets next ≡ true
      → swap_satisfied (cur ∷ (mid ++ next ∷ rest)) ≡ some (next ∷ (mid ++ cur ∷ rest))
  unfolding swap_satisfied
  swap_satisfied_first cur next mid rest v h = rw (swap_behind_first cur next mid rest v h)

  swap_behind-none :
      (cur : QueueEntry F) (es : List (QueueEntry F))
      → All (λ e. meets e ≡ false) es
      → swap_behind cur es ≡ none
  unfolding swap_behind
  swap_behind-none cur [] v = refl
  swap_behind-none cur (e ∷ es) v = rw (v.0, swap_behind-none cur es v.1)

  -- If no entry behind the head can run, there is no swap.
  pub swap_satisfied-none :
      (cur : QueueEntry F) (es : List (QueueEntry F))
      → All (λ e. meets e ≡ false) es
      → swap_satisfied (cur ∷ es) ≡ none
  unfolding swap_satisfied
  swap_satisfied-none cur es v = rw (swap_behind-none cur es v)

module _ {F : Type 0} where
  -- In a queue whose positions are its indexes, the swap exchanges the head with the first entry
  -- behind it that can run, and leaves all others where they were. A `Flush` and a `Load` after it bring
  -- back the queue as it was before the swap, or, if the entry that can run is the last, the old head
  -- alone: all other entries are lost.
  pub load-flush-swap_satisfied :
      ⦃f : Float F⦄ (meets : QueueEntry F → Bool) (cur next : QueueEntry F)
      (mid rest : List (QueueEntry F)) (rows : Rows F)
      → CompactFrom 0 (cur ∷ (mid ++ next ∷ rest))
      → All (λ e. meets e ≡ false) mid
      → meets next ≡ true
      → All IsNamed (cur ∷ (mid ++ next ∷ rest))
      → SortedFrom 0 rows
      → let swapped = next ∷ (mid ++ cur ∷ rest) in
        (swap_satisfied meets (cur ∷ (mid ++ next ∷ rest)) ≡ some swapped)
        × (load_queue (flush_queue swapped rows) ≡ reloaded cur mid next rest)
  load-flush-swap_satisfied meets cur next mid rest rows c v h n s = (
    swap_satisfied_first meets cur next mid rest v h,
    load-flush-swapped cur next mid rest rows c n s,
  )
