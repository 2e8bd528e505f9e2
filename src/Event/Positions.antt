-- ===== src/Event/Positions.antt =====
-- Positions stay equal to indexes under every operation of a command (backend/internal/event/state.go).
use milkyway_liluo_idle.Prelude.{
  ℕ, zero, suc, ◌+◌, ◌≡◌, refl, List, [], ◌∷◌, ◌++◌, arith, length, take, drop,
}
use native.Mathlib.Nat.{zero-add, add-zero, add-suc, suc-add}
use milkyway_liluo_idle.Event.Entries.{QueueEntry, CompactFrom, renumber, remove_at, next_position}

module _ {F : Type 0} where
  pub renumber-CompactFrom : (k : ℕ) (es : List (QueueEntry F)) → CompactFrom k (renumber k es)
  unfolding renumber
  renumber-CompactFrom k [] = tt
  renumber-CompactFrom k (e ∷ es) = (refl, renumber-CompactFrom (suc k) es)

  take-nil : (n : ℕ) → take {A = QueueEntry F} n [] ≡ []
  take-nil zero = refl
  take-nil (suc n) = refl

  cut-CompactFrom :
      (k idx : ℕ) (es : List (QueueEntry F))
      → CompactFrom k es
      → CompactFrom k (take idx es ++ renumber (k + idx) (drop (suc idx) es))
  unfolding renumber
  cut-CompactFrom k idx [] c = rw take-nil tt
  cut-CompactFrom k zero (e ∷ es) c = rw add-zero (renumber-CompactFrom k es)
  cut-CompactFrom k (suc idx) (e ∷ es) c =
      (c.0, rw (add-suc, ← suc-add) (cut-CompactFrom (suc k) idx es c.1))

  -- A removal closes the gap.
  pub remove_at-CompactFrom :
      (idx : ℕ) (es : List (QueueEntry F)) → CompactFrom 0 es → CompactFrom 0 (remove_at idx es)
  unfolding remove_at
  remove_at-CompactFrom idx es c = rw zero-add at (cut-CompactFrom 0 idx es c)

  pub append-CompactFrom :
      (k : ℕ) (es : List (QueueEntry F)) (e : QueueEntry F)
      → CompactFrom k es
      → e.position ≡ k + length es
      → CompactFrom k (es ++ e ∷ [])
  append-CompactFrom k [] e c p = (omega arith, tt)
  append-CompactFrom k (d ∷ es) e c p = (c.0, append-CompactFrom (suc k) es e c.1 (omega arith))

  pub next_position-CompactFrom :
      (k : ℕ) (e : QueueEntry F) (es : List (QueueEntry F))
      → CompactFrom k (e ∷ es)
      → next_position (e ∷ es) ≡ k + length (e ∷ es)
  unfolding next_position
  next_position-CompactFrom k e [] c = omega arith
  next_position-CompactFrom k e (d ∷ es) c =
      omega (arith, next_position-CompactFrom (suc k) d es c.1)
