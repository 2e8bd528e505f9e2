-- ===== src/Event/Jobs.antt =====
-- What the commands mean: on the jobs of a queue, without positions, each is one list operation
-- (backend/internal/event/state.go).
use mathlib.Core.List.{map-append, append-nil}
use milkyway_liluo_idle.Prelude.{
  ℕ, suc, ◌≤◌, ◌≡◌, refl, ap, sym, ◌∙◌, inl, inr, if_same, if◌then◌else◌, leb, ltb, ◌==◌, List, [],
  ◌∷◌, ◌++◌, map, none, some, arith, ℤ, pos, negsuc, length, take, drop, get_elem?, Bool-cases,
  Option-cases, List-cases, ◌=?◌, int_eq, eq_of_eq, length-map, map-take, map-drop, get_elem?-map,
  take_all, drop_all, reinsert,
}
use milkyway_liluo_idle.Float.{Float, nought}
use milkyway_liluo_idle.Event.{
  State, entries_of, set_entries, mark_full, enqueue, move_at, move_entry, insert_index,
  insert_entry, consume, remove_entry, clear_queue, entries_of-set_entries, entries_of-mark_full,
}
use milkyway_liluo_idle.Event.Entries.{QueueEntry, renumber, remove_at, splice, move, new_entry}
use milkyway_liluo_idle.Event.Commands.{Command, enqueues, moves, inserts, removes, clears, command}

-- An entry without its position.
pub record Job (F : Type 0) : Type 0 where
  pub event_id : ℤ
  pub target_cycles : ℤ
  pub progress : F

module _ {ℓ} {A : Type ℓ} where
  abbrev pub put_at : ℕ → A → List A → List A
  put_at n x xs = take n xs ++ x ∷ drop n xs

  abbrev pub cut_at : ℕ → List A → List A
  cut_at n xs = take n xs ++ drop (suc n) xs

module _ {F : Type 0} where
  abbrev pub job : QueueEntry F → Job F
  job e = record { event_id = e.event_id; target_cycles = e.target_cycles; progress = e.progress }

  abbrev pub jobs : List (QueueEntry F) → List (Job F)
  jobs = map job

  abbrev pub jobs_of : ℤ → State F → List (Job F)
  jobs_of id st = jobs (entries_of id st)

  pub jobs-renumber : (k : ℕ) (es : List (QueueEntry F)) → jobs (renumber k es) ≡ jobs es
  unfolding renumber
  jobs-renumber k [] = refl
  jobs-renumber k (e ∷ es) = ap (◌∷◌ (job e)) (jobs-renumber (suc k) es)

  -- Both branches of the slice expressions put the entry at `n`.
  splice-eq : (n : ℕ) (e : QueueEntry F) (es : List (QueueEntry F)) → splice n e es ≡ put_at n e es
  unfolding splice
  splice-eq n e es = elim (Bool-cases (n == length es)) [
    | inl p ↦ rw (p, take_all n es (ground arith), drop_all n es (ground arith))
    | inr p ↦ rw p
  ]

  pub jobs-splice :
      (n : ℕ) (e : QueueEntry F) (es : List (QueueEntry F))
      → jobs (splice n e es) ≡ put_at n (job e) (jobs es)
  jobs-splice n e es = rw splice-eq (simp (map-append, map-take, map-drop))

  pub jobs-remove_at :
      (n : ℕ) (es : List (QueueEntry F)) → jobs (remove_at n es) ≡ cut_at n (jobs es)
  unfolding remove_at
  jobs-remove_at n es = simp (map-append, jobs-renumber, map-take, map-drop)

  pub jobs-move :
      (from to : ℕ) (e : QueueEntry F) (es : List (QueueEntry F))
      → jobs (move from to e es) ≡ put_at to (job e) (cut_at from (jobs es))
  unfolding move
  jobs-move from to e es = rw (jobs-renumber, jobs-splice) (simp (map-append, map-take, map-drop))

  -- The job that a command adds has made no progress.
  abbrev pub fresh : ⦃f : Float F⦄ → ℤ → ℤ → Job F
  fresh event target = record { event_id = event; target_cycles = target; progress = nought }

-- The queue that a command names.
abbrev pub queue_of : Command → ℤ
queue_of (enqueues id _ _) = id
queue_of (moves id _ _) = id
queue_of (inserts id _ _ _) = id
queue_of (removes id _) = id
queue_of (clears id) = id

module _ {F : Type 0} ⦃f : Float F⦄ where
  -- What a command does to the jobs of its queue.
  unfoldable pub job_command : Command → List (Job F) → List (Job F)
  job_command (enqueues _ event target) js = js ++ fresh event target ∷ []
  job_command (moves _ (pos from) (pos to)) js =
      if leb (length js) to
      then js
      else elim (get_elem? js from) [ some x ↦ put_at to x (cut_at from js) | none ↦ js ]
  job_command (moves _ (pos from) (negsuc to)) js = js
  job_command (moves _ (negsuc from) to) js = js
  job_command (inserts _ (pos n) event target) js =
      if ltb (length js) n then js ++ fresh event target ∷ [] else put_at n (fresh event target) js
  job_command (inserts _ (negsuc n) event target) js = js ++ fresh event target ∷ []
  job_command (removes _ (pos n)) js = cut_at n js
  job_command (removes _ (negsuc n)) js = js
  job_command (clears _) js = []

module _ {F : Type 0} where
  -- The jobs of every queue after a write to one of them.
  abbrev Becomes : ℤ → State F → List (Job F) → State F → Type 0
  Becomes id st js st' = (j : ℤ) → jobs_of j st' ≡ (if id =? j then js else jobs_of j st)

  written :
      (id : ℤ) (es : List (QueueEntry F)) (st : State F) {js : List (Job F)}
      → jobs es ≡ js
      → Becomes id st js (mark_full id (set_entries id es st))
  written id es st e j = elim (Bool-cases (id =? j)) [
    | inl p ↦ rw (entries_of-mark_full, entries_of-set_entries, p) e
    | inr p ↦ rw (entries_of-mark_full, entries_of-set_entries, p)
  ]

  unchanged : (id : ℤ) (st : State F) {js : List (Job F)} → jobs_of id st ≡ js → Becomes id st js st
  unchanged id st e j = elim (Bool-cases (id =? j)) [
    | inl p ↦ rw p (rw (← eq_of_eq id j p) e)
    | inr p ↦ rw p
  ]

  jobs-insert :
      (n : ℕ) (e : QueueEntry F) (es : List (QueueEntry F))
      → jobs (renumber 0 (splice n e es)) ≡ put_at n (job e) (jobs es)
  jobs-insert n e es = rw (jobs-renumber, jobs-splice)

  put_at_end : (x : Job F) (js : List (Job F)) → put_at (length js) x js ≡ js ++ x ∷ []
  put_at_end x js =
      rw (take_all (length js) js (omega arith), drop_all (length js) js (omega arith))

  cut_at_none : (n : ℕ) (js : List (Job F)) → length js ≤ n → js ≡ cut_at n js
  cut_at_none n js h = rw (take_all n js h, drop_all (suc n) js (omega arith)) (sym (append-nil js))

  append_job :
      (e : QueueEntry F) (es : List (QueueEntry F))
      → jobs (renumber 0 (splice (length es) e es)) ≡ jobs es ++ job e ∷ []
  append_job e es =
      jobs-insert (length es) e es ∙ rw (← length-map job es) (put_at_end (job e) (jobs es))

  insert_job :
      (n : ℕ) (e : QueueEntry F) (es : List (QueueEntry F))
      → jobs (renumber 0 (splice (insert_index (pos n) (length es)) e es))
        ≡ (if ltb (length (jobs es)) n then jobs es ++ job e ∷ [] else put_at n (job e) (jobs es))
  unfolding insert_index
  insert_job n e es = rw (length-map job es) (elim (Bool-cases (ltb (length es) n)) [
    | inl p ↦ rw p (append_job e es)
    | inr p ↦ rw p (jobs-insert n e es)
  ])

  insert_job_end :
      (n : ℕ) (e : QueueEntry F) (es : List (QueueEntry F))
      → jobs (renumber 0 (splice (insert_index (negsuc n) (length es)) e es))
        ≡ jobs es ++ job e ∷ []
  unfolding insert_index
  insert_job_end n e es = append_job e es

  reinsert_job :
      (from to : ℕ) (e : QueueEntry F) (es : List (QueueEntry F))
      → from ≡ to
      → get_elem? es from ≡ some e
      → put_at to (job e) (cut_at from (jobs es)) ≡ jobs es
  reinsert_job from to e es s q =
      rw (← s) (reinsert from (job e) (jobs es) (rw (get_elem?-map job es from, q)))

  move_at-Becomes :
      (id : ℤ) (from to : ℕ) (st : State F)
      → Becomes id st
          (if leb (length (jobs_of id st)) to
            then jobs_of id st
            else elim (get_elem? (jobs_of id st) from) [
              | some x ↦ put_at to x (cut_at from (jobs_of id st))
              | none ↦ jobs_of id st
            ])
          (move_at id from to st)
  unfolding move_at
  move_at-Becomes id from to st =
      let es = entries_of id st in
      let same : length (jobs es) ≡ length es = length-map job es in
      rw (same, get_elem?-map job es from)
        (elim (Bool-cases (leb (length es) to)) [
          | inl p ↦ rw p (unchanged id st refl)
          | inr p ↦ elim (Option-cases (get_elem? es from)) [
            | inl q ↦ rw (p, q, if_same) (unchanged id st refl)
            | inr (e, q) ↦ elim (Bool-cases (from == to)) [
              | inl s ↦
                  rw (p, q, s) (unchanged id st (sym (reinsert_job from to e es (ground arith) q)))
              | inr s ↦ rw (p, q, s) (written id _ st (jobs-move from to e es))
            ]
          ]
        ])

  clear_queue-Becomes : (id : ℤ) (st : State F) → Becomes id st [] (clear_queue id st)
  unfolding clear_queue
  clear_queue-Becomes id st = elim (List-cases (entries_of id st)) [
    | inl q ↦ rw (q, clear_queue) (unchanged id st (rw q))
    | inr (e, es, q) ↦ rw (q, clear_queue) (written id [] st refl)
  ]

  -- Every command changes the jobs of its own queue, as `job_command` says, and no other queue.
  pub command-job_command :
      ⦃f : Float F⦄ (c : Command) (st : State F) (j : ℤ)
      → jobs_of j (command c st)
        ≡ (if queue_of c =? j then job_command c (jobs_of (queue_of c) st) else jobs_of j st)
  unfolding command job_command enqueue move_entry insert_entry remove_entry consume new_entry
  command-job_command (enqueues id event target) st = written id _ st (map-append _ _ _)
  command-job_command (moves id (pos from) (pos to)) st = move_at-Becomes id from to st
  command-job_command (moves id (pos from) (negsuc to)) st = unchanged id st refl
  command-job_command (moves id (negsuc from) to) st = unchanged id st refl
  command-job_command (inserts id (pos n) event target) st = written id _ st (insert_job n _ _)
  command-job_command (inserts id (negsuc n) event target) st =
      written id _ st (insert_job_end n _ _)
  command-job_command (removes id (pos n)) st =
      let es = entries_of id st in
      elim (Bool-cases (leb (length es) n)) [
        | inl p ↦
            rw p (unchanged id st (cut_at_none n (jobs es) (rw (length-map job es) (ground arith))))
        | inr p ↦ rw p (written id _ st (jobs-remove_at n es))
      ]
  command-job_command (removes id (negsuc n)) st = unchanged id st refl
  command-job_command (clears id) st = clear_queue-Becomes id st
