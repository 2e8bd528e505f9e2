-- ===== src/Event.antt =====
-- The event queues of a player (backend/internal/event): the state with its queues and dirty marks,
-- and the operations that the player's commands call (state.go, with the marks of bucket.go).
-- The two buckets are those that the attached recorder has for this system in the current
-- namespace; `none` stands for no recorder, no namespace or no provider.
pub mod Entries
pub mod Positions
pub mod Commands
pub mod Jobs
pub mod Store
pub mod Reloading
pub mod Swap
pub mod Settle
pub mod Loop
pub mod Tick
pub mod Rounds
pub mod FastPath
pub mod Tests
use milkyway_liluo_idle.Prelude.{
  ℕ, zero, suc, ◌<◌, Bool, true, false, ◌||◌, if◌then◌else◌, ltb, leb, ◌==◌, Option, none, some,
  List, [], ◌∷◌, ◌++◌, ℤ, pos, negsuc, ◌+ℤ◌, length, get_elem?, Table, lookup, insert, include,
  int_eq, ◌=?◌, lookup-insert, ◌≡◌, ◌∙◌, eq_refl, refl, arith,
}
use milkyway_liluo_idle.Float.{Float}
use Entries.{QueueEntry, renumber, remove_at, next_position, splice, move, new_entry}

pub record Queue (F : Type 0) : Type 0 where
  pub id : ℤ
  pub entries : List (QueueEntry F)

pub record State (F : Type 0) : Type 0 where
  pub queues : Table ℤ (Queue F)
  pub dirty : List ℤ
  -- `execBucket.cycles`
  pub executions : Option (Table ℤ ℤ)
  -- `queueBucket.marks`: true is the scope "full", false is "current"
  pub marks : Option (Table ℤ Bool)

-- `queueBucket.markQueue`: a full mark is never lost.
unfoldable pub mark_queue : ℤ → Bool → Table ℤ Bool → Table ℤ Bool
mark_queue id full marks = elim (lookup id marks) [
  | some existing ↦ insert id (existing || full) marks
  | none ↦ insert id full marks
]

-- `execBucket.addExecution`
unfoldable pub add_execution : ℤ → ℤ → Table ℤ ℤ → Table ℤ ℤ
add_execution id cycles m = elim (lookup id m) [
  | some n ↦ insert id (n +ℤ cycles) m
  | none ↦ insert id cycles m
]

abbrev pub map_option {ℓ} : {A : Type ℓ} → (A → A) → Option A → Option A
map_option g none = none
map_option g (some x) = some (g x)

-- The place of an insertion: the end, if `pos` is out of range.
unfoldable pub insert_index : ℤ → ℕ → ℕ
insert_index (pos n) len = if ltb len n then len else n
insert_index (negsuc n) len = len

module _ {F : Type 0} where
  unfoldable pub record_execution : ℤ → ℤ → State F → State F
  unfolding add_execution
  record_execution event cycles st = record st {
    executions = map_option (add_execution event cycles) st.executions;
  }

  -- `markQueueCurrentDirty`
  unfoldable pub mark_current_dirty : ℤ → State F → State F
  unfolding mark_queue
  mark_current_dirty id st = record st {
    dirty = include id st.dirty;
    marks = map_option (mark_queue id false) st.marks;
  }

  unfoldable pub mark_full : ℤ → State F → State F
  unfolding mark_queue
  mark_full id st = record st {
    dirty = include id st.dirty;
    marks = map_option (mark_queue id true) st.marks;
  }

  -- The entries of a queue; a queue that is not in the map has none.
  unfoldable pub entries_of : ℤ → State F → List (QueueEntry F)
  entries_of id st = elim (lookup id st.queues) [ some q ↦ q.entries | none ↦ [] ]

  -- A write through the pointer to a queue of the map.
  unfoldable pub set_entries : ℤ → List (QueueEntry F) → State F → State F
  set_entries id es st = record st {
    queues = insert id (record { id = id; entries = es }) st.queues;
  }

  unfoldable pub enqueue : ⦃f : Float F⦄ → ℤ → ℤ → ℤ → State F → State F
  enqueue id event target st =
      let es = entries_of id st in
      mark_full id (set_entries id (es ++ new_entry (next_position es) event target ∷ []) st)

  -- `MoveEntry` once its guards on the signs have passed.
  unfoldable pub move_at : ℤ → ℕ → ℕ → State F → State F
  move_at id from to st =
      let es = entries_of id st in
      if leb (length es) to || from == to then st else elim (get_elem? es from) [
        | some e ↦ mark_full id (set_entries id (move from to e es) st)
        | none ↦ st
      ]

  unfoldable pub move_entry : ℤ → ℤ → ℤ → State F → State F
  unfolding move_at
  move_entry id (pos from) (pos to) st = move_at id from to st
  move_entry id (pos from) (negsuc to) st = st
  move_entry id (negsuc from) to st = st

  unfoldable pub insert_entry : ⦃f : Float F⦄ → ℤ → ℤ → ℤ → ℤ → State F → State F
  insert_entry id at event target st =
      let es = entries_of id st in
      let n = insert_index at (length es) in
      mark_full id (set_entries id (renumber 0 (splice n (new_entry 0 event target) es)) st)

  unfoldable pub consume : ℤ → ℕ → State F → State F
  consume id idx st = mark_full id (set_entries id (remove_at idx (entries_of id st)) st)

  unfoldable pub remove_entry : ℤ → ℤ → State F → State F
  unfolding consume
  remove_entry id (pos n) st = if leb (length (entries_of id st)) n then st else consume id n st
  remove_entry id (negsuc n) st = st

  unfoldable pub clear_queue : ℤ → State F → State F
  clear_queue id st = elim (entries_of id st) [
    | [] ↦ st
    | e ∷ es ↦ mark_full id (set_entries id [] st)
  ]

  -- A write to one queue is seen there, and by no other queue.
  pub entries_of-set_entries :
      (id j : ℤ) (es : List (QueueEntry F)) (st : State F)
      → entries_of j (set_entries id es st) ≡ (if id =? j then es else entries_of j st)
  unfolding entries_of set_entries
  entries_of-set_entries id j es st =
      ground (arith, lookup-insert id j (record { id = id; entries = es }) st.queues)

  pub entries_of-mark_full :
      (id j : ℤ) (st : State F) → entries_of j (mark_full id st) ≡ entries_of j st
  unfolding entries_of mark_full
  entries_of-mark_full id j st = refl

  pub entries_of-mark_current_dirty :
      (id j : ℤ) (st : State F) → entries_of j (mark_current_dirty id st) ≡ entries_of j st
  unfolding entries_of mark_current_dirty
  entries_of-mark_current_dirty id j st = refl

  pub entries_of-record_execution :
      (event n j : ℤ) (st : State F) → entries_of j (record_execution event n st) ≡ entries_of j st
  unfolding entries_of record_execution
  entries_of-record_execution event n j st = refl

  pub entries_of-consume :
      (id : ℤ) (idx : ℕ) (st : State F)
      → entries_of id (consume id idx st) ≡ remove_at idx (entries_of id st)
  unfolding consume
  entries_of-consume id idx st =
      entries_of-mark_full id id _ ∙ (entries_of-set_entries id id _ st ∙ rw (eq_refl id))

  unfoldable pub any_entry : Table ℤ (Queue F) → Bool
  any_entry [] = false
  any_entry ((id, q) ∷ qs) = ltb 0 (length q.entries) || any_entry qs

  unfoldable pub has_active : State F → Bool
  unfolding any_entry
  has_active st = any_entry st.queues
