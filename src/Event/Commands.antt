-- ===== src/Event/Commands.antt =====
-- The commands that edit a player's queues, against lists of jobs that have no positions
-- (backend/internal/event/state.go, called from backend/cmd/server/handlers.go).
use milkyway_liluo_idle.Prelude.{
  ℕ, refl, if_rule, leb, ◌==◌, ◌||◌, List, [], ◌∷◌, ◌++◌, none, some, ℤ, pos, negsuc, length,
  get_elem?, ◌=?◌, int_eq,
}
use milkyway_liluo_idle.Float.{Float}
use milkyway_liluo_idle.Event.{
  State, entries_of, set_entries, mark_full, enqueue, move_at, move_entry, insert_entry, consume,
  remove_entry, clear_queue, entries_of-set_entries, entries_of-mark_full,
}
use milkyway_liluo_idle.Event.Entries.{QueueEntry, CompactFrom, next_position, move, new_entry}
use milkyway_liluo_idle.Event.Positions.{
  renumber-CompactFrom, remove_at-CompactFrom, append-CompactFrom, next_position-CompactFrom,
}

pub data Command : Type 0 where
  enqueues : ℤ → ℤ → ℤ → Command
  moves : ℤ → ℤ → ℤ → Command
  inserts : ℤ → ℤ → ℤ → ℤ → Command
  removes : ℤ → ℤ → Command
  clears : ℤ → Command

module _ {F : Type 0} ⦃f : Float F⦄ where
  unfoldable pub command : Command → State F → State F
  command (enqueues id event target) st = enqueue id event target st
  command (moves id from to) st = move_entry id from to st
  command (inserts id at event target) st = insert_entry id at event target st
  command (removes id at) st = remove_entry id at st
  command (clears id) st = clear_queue id st

  unfoldable pub commands : List Command → State F → State F
  unfolding command
  commands [] st = st
  commands (c ∷ cs) st = commands cs (command c st)

module _ {F : Type 0} where
  -- Every position in every queue is the index of its entry.
  abbrev pub IsCompact : State F → Type 0
  IsCompact st = (id : ℤ) → CompactFrom 0 (entries_of id st)

  set_entries-IsCompact :
      (id : ℤ) (es : List (QueueEntry F)) (st : State F)
      → CompactFrom 0 es
      → IsCompact st
      → IsCompact (mark_full id (set_entries id es st))
  set_entries-IsCompact id es st c v j =
      rw (entries_of-mark_full, entries_of-set_entries) (if_rule (CompactFrom 0) (id =? j) c (v j))

module _ {F : Type 0} ⦃f : Float F⦄ where
  enqueue-CompactFrom :
      (event target : ℤ) (es : List (QueueEntry F))
      → CompactFrom 0 es
      → CompactFrom 0 (es ++ new_entry (next_position es) event target ∷ [])
  unfolding new_entry next_position
  enqueue-CompactFrom event target [] c = (refl, tt)
  enqueue-CompactFrom event target (e ∷ es) c =
      append-CompactFrom 0 (e ∷ es) (new_entry (next_position (e ∷ es)) event target) c
        (next_position-CompactFrom 0 e es c)

  move_at-IsCompact :
      (id : ℤ) (from to : ℕ) (st : State F) → IsCompact st → IsCompact (move_at id from to st)
  unfolding move_at move
  move_at-IsCompact id from to st v =
      if_rule IsCompact (leb (length (entries_of id st)) to || from == to) v
        (elim (get_elem? (entries_of id st) from)
          as (λ o. IsCompact (elim o [
            | some e ↦ mark_full id (set_entries id (move from to e (entries_of id st)) st)
            | none ↦ st
          ])) [ some e ↦ set_entries-IsCompact id _ st (renumber-CompactFrom 0 _) v | none ↦ v ])

  command-IsCompact : (c : Command) (st : State F) → IsCompact st → IsCompact (command c st)
  unfolding command enqueue move_entry insert_entry remove_entry consume clear_queue
  command-IsCompact (enqueues id event target) st v =
      set_entries-IsCompact id _ st (enqueue-CompactFrom event target (entries_of id st) (v id)) v
  command-IsCompact (moves id (pos from) (pos to)) st v = move_at-IsCompact id from to st v
  command-IsCompact (moves id (pos from) (negsuc to)) st v = v
  command-IsCompact (moves id (negsuc from) to) st v = v
  command-IsCompact (inserts id at event target) st v =
      set_entries-IsCompact id _ st (renumber-CompactFrom 0 _) v
  command-IsCompact (removes id (pos n)) st v =
      if_rule IsCompact (leb (length (entries_of id st)) n) v
        (set_entries-IsCompact id _ st (remove_at-CompactFrom n (entries_of id st) (v id)) v)
  command-IsCompact (removes id (negsuc n)) st v = v
  command-IsCompact (clears id) st v =
      elim (entries_of id st)
        as (λ es. IsCompact (elim es [ [] ↦ st | e ∷ r ↦ mark_full id (set_entries id [] st) ])) [
          | [] ↦ v
          | e ∷ r ↦ set_entries-IsCompact id [] st tt v
        ]

  -- Whatever commands a player sends, in every queue the positions stay the indexes of the entries.
  pub commands-IsCompact :
      (cs : List Command) (st : State F) → IsCompact st → IsCompact (commands cs st)
  unfolding commands
  commands-IsCompact [] st v = v
  commands-IsCompact (c ∷ cs) st v = commands-IsCompact cs (command c st) (command-IsCompact c st v)
