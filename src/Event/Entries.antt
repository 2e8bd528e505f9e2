-- ===== src/Event/Entries.antt =====
-- The entries of one queue: what the methods of `State` do to `Queue.Entries`
-- (backend/internal/event/state.go). Positions are written from slice indexes.
use milkyway_liluo_idle.Prelude.{
  ℕ, suc, ◌+◌, ◌≡◌, if◌then◌else◌, ◌==◌, List, [], ◌∷◌, ◌++◌, ℤ, length, take, drop,
}
use milkyway_liluo_idle.Float.{Float, nought}

-- `TargetCycles` -1 stands for a loop without end.
pub record QueueEntry (F : Type 0) : Type 0 where
  pub position : ℕ
  pub event_id : ℤ
  pub target_cycles : ℤ
  pub progress : F

module _ {F : Type 0} where
  -- The loops that reassign `Position`, from index `k` on.
  unfoldable pub renumber : ℕ → List (QueueEntry F) → List (QueueEntry F)
  renumber k [] = []
  renumber k (e ∷ es) = record e { position = k } ∷ renumber (suc k) es

  -- `consume`: the entries before `idx` are left as they are.
  unfoldable pub remove_at : ℕ → List (QueueEntry F) → List (QueueEntry F)
  unfolding renumber
  remove_at idx es = take idx es ++ renumber idx (drop (suc idx) es)

  -- One past the position of the last entry, or 0: where `Enqueue` puts an event, and where `Flush`
  -- starts to clear.
  unfoldable pub next_position : List (QueueEntry F) → ℕ
  next_position [] = 0
  next_position (e ∷ []) = e.position + 1
  next_position (e ∷ d ∷ es) = next_position (d ∷ es)

  -- The slice expressions by which `MoveEntry` and `InsertEntry` put an entry at `n`.
  unfoldable pub splice : ℕ → QueueEntry F → List (QueueEntry F) → List (QueueEntry F)
  splice n e es = if n == length es then es ++ e ∷ [] else take n es ++ e ∷ drop n es

  unfoldable pub move : ℕ → ℕ → QueueEntry F → List (QueueEntry F) → List (QueueEntry F)
  unfolding renumber splice
  move from to e es = renumber 0 (splice to e (take from es ++ drop (suc from) es))

  unfoldable pub new_entry : ⦃f : Float F⦄ → ℕ → ℤ → ℤ → QueueEntry F
  new_entry p event target = record {
    position = p;
    event_id = event;
    target_cycles = target;
    progress = nought;
  }

  -- Each entry's position is its index.
  abbrev pub CompactFrom : ℕ → List (QueueEntry F) → Type 0
  CompactFrom k [] = Unit
  CompactFrom k (e ∷ es) = (e.position ≡ k) × CompactFrom (suc k) es
