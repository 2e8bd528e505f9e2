-- ===== src/Skill.antt =====
-- The skills of a player (backend/internal/skill): the level curve and the state with its operations
-- (state.go), and the bucket that collects the gained experience for the client (bucket.go).
-- `changes` of a state is the bucket that the attached recorder has for the system in the current
-- namespace; `none` stands for no recorder, no namespace or no provider.
pub mod Search
pub mod Levels
pub mod Progress
pub mod Tests
use milkyway_liluo_idle.Prelude.{
  ℕ, zero, suc, ◌+◌, ◌-◌, ◌/◌, Bool, true, false, not, ◌||◌, if◌then◌else◌, ltb, leb, ◌==◌, Option,
  none, some, List, [], ◌∷◌, ℤ, pos, negsuc, Table, lookup, insert, include, length, get_elem?,
  drop, fill, int_eq,
}
use milkyway_liluo_idle.Float.{Float, ◌⊕◌, ◌≤?◌, ◌<?◌, nought, one}

-- `skillSlot`
pub record SkillSlot (F : Type 0) : Type 0 where
  pub level : F
  pub xp : F

-- `skillRec`
pub record SkillRec (F : Type 0) : Type 0 where
  pub xp_delta : F
  pub new_level : F

abbrev pub Bucket : Type 0 → Type 0
Bucket F = Table ℤ (SkillRec F)

pub record State (F : Type 0) : Type 0 where
  pub skills : Table ℤ (SkillSlot F)
  pub dirty : List ℤ
  pub changes : Option (Bucket F)

-- The arguments with which `OnLevelUp` is called.
pub record LevelUp (F : Type 0) : Type 0 where
  pub skill_id : ℤ
  pub old_level : F
  pub new_level : F

-- One round of `sort.Search`, which looks for the first index at which `p` holds.
unfoldable pub narrow : (ℕ → Bool) → ℕ × ℕ → ℕ × ℕ
narrow p (i, j) =
    if ltb i j then (let h = (i + j) / 2 in if p h then (i, h) else (suc h, j)) else (i, j)

-- `sort.Search`; the number of rounds is fuel.
unfoldable pub search_rounds : ℕ → (ℕ → Bool) → ℕ × ℕ → ℕ
unfolding narrow
search_rounds zero p (i, j) = i
search_rounds (suc k) p r = search_rounds k p (narrow p r)

-- A round leaves at most half of the range, so that as many rounds as indexes are enough.
unfoldable pub search : ℕ → (ℕ → Bool) → ℕ
unfolding search_rounds
search n p = search_rounds n p (0, n)

module _ {F : Type 0} ⦃f : Float F⦄ where
  -- `c[i] > xp`
  unfoldable pub exceeds : List F → F → ℕ → Bool
  exceeds c xp i = elim (get_elem? c i) [ some x ↦ xp <? x | none ↦ false ]

  -- `LevelCurve.Level`, as an index of the curve
  unfoldable pub level_index : List F → F → ℕ
  unfolding search exceeds
  level_index [] xp = 0
  level_index (x ∷ c) xp = if xp <? x then 0 else search (length (x ∷ c)) (exceeds (x ∷ c) xp)

  unfoldable pub level : List F → F → F
  unfolding level_index
  level c xp = f.of_int (pos (level_index c xp))

  -- The loop of `nextLevel`, on the curve from index `l` on.
  unfoldable pub walk : F → ℕ → List F → ℕ
  walk xp l [] = l
  walk xp l (x ∷ c) = let rest = walk xp (suc l) c in if xp <? x then l else rest

  unfoldable pub next_index : List F → ℕ → F → ℕ
  unfolding walk
  next_index c l xp = if ltb l (length c) then walk xp l (drop l c) else length c

  -- `nextLevel`; `none` is the panic of an index below 0.
  unfoldable pub next_level : List F → F → F → Option F
  unfolding next_index
  next_level c old total = elim (f.to_int old) [
    | pos l ↦ some (f.of_int (pos (next_index c l total)))
    | negsuc l ↦ none
  ]

  -- `XPForLevel`; `none` is the panic of an index below 0, which an empty curve gives too.
  unfoldable pub xp_at : List F → ℤ → Option F
  xp_at c (pos (suc l)) = get_elem? c (if leb (length c) l then length c - 1 else l)
  xp_at c (pos zero) = none
  xp_at c (negsuc l) = none

  unfoldable pub xp_for_level : List F → F → Option F
  unfolding xp_at
  xp_for_level c l = if l ≤? nought then some nought else xp_at c (f.to_int l)

  -- The slot that `mustSlot` makes.
  abbrev pub new_slot : SkillSlot F
  new_slot = record { level = one; xp = nought }

  -- `mustSlot`
  unfoldable pub slot_or_new : Option (SkillSlot F) → SkillSlot F
  slot_or_new (some slot) = slot
  slot_or_new none = new_slot

  unfoldable pub must_slot : ℤ → State F → SkillSlot F × State F
  unfolding lookup insert slot_or_new
  must_slot id s =
      let slot = slot_or_new (lookup id s.skills) in
      (slot, record s { skills = insert id slot s.skills })

  -- `Bucket.add`
  unfoldable pub bucket_add : ℤ → F → F → Bucket F → Bucket F
  unfolding lookup insert
  bucket_add id delta new_level b = elim (lookup id b) [
    | some r ↦ insert id (record { xp_delta = r.xp_delta ⊕ delta; new_level = new_level }) b
    | none ↦ insert id (record { xp_delta = delta; new_level = new_level }) b
  ]

  -- `MergeInPlace`
  unfoldable pub merge_in_place : Bucket F → Bucket F → Bucket F
  unfolding bucket_add
  merge_in_place b [] = b
  merge_in_place b ((id, r) ∷ other) = merge_in_place (bucket_add id r.xp_delta r.new_level b) other

  unfoldable pub record_xp : ℤ → F → F → Option (Bucket F) → Option (Bucket F)
  unfolding bucket_add
  record_xp id delta new_level none = none
  record_xp id delta new_level (some b) = some (bucket_add id delta new_level b)

  -- What `AddXP` does with the new level: the state, and the call of the hook.
  unfoldable pub set_level : ℤ → F → F → SkillSlot F → State F → F → State F × Option (LevelUp F)
  unfolding insert include record_xp
  set_level id delta total slot s new_level = (
    record {
      skills = insert id (record { level = new_level; xp = total }) s.skills;
      dirty = include id s.dirty;
      changes = record_xp id delta new_level s.changes;
    },
    if slot.level <? new_level
        then some (record { skill_id = id; old_level = slot.level; new_level = new_level })
        else none,
  )

  -- `AddXP`; `none` is a panic.
  unfoldable pub add_xp : List F → ℤ → F → State F → Option (State F × Option (LevelUp F))
  unfolding must_slot next_level set_level
  add_xp c id delta s =
      let found = must_slot id s in
      let total = found.0.xp ⊕ delta in
      elim (next_level c found.0.level total) [
        | some new_level ↦ some (set_level id delta total found.0 found.1 new_level)
        | none ↦ none
      ]

  -- `Get`, which makes the slot that is missing.
  unfoldable pub get : ℤ → State F → F × F × State F
  unfolding must_slot
  get id s = let found = must_slot id s in (found.0.level, found.0.xp, found.1)

  -- `All`
  unfoldable pub all_skills : Table ℤ (SkillSlot F) → Table ℤ (SkillSlot F)
  all_skills [] = []
  all_skills ((id, slot) ∷ skills) =
      let rest = all_skills skills in
      if (nought <? slot.level) || (nought <? slot.xp) then (id, slot) ∷ rest else rest

  -- The loop of `Flush`, on the rows of this player in `player_skills`; `none` is the panic on a
  -- dirty skill that has no slot.
  unfoldable pub write_skills :
      State F → List ℤ → Table ℤ (SkillSlot F) → Option (Table ℤ (SkillSlot F))
  unfolding lookup insert
  write_skills s [] rows = some rows
  write_skills s (id ∷ ids) rows = elim (lookup id s.skills) [
    | some slot ↦ write_skills s ids (insert id slot rows)
    | none ↦ none
  ]

  -- `Flush`
  unfoldable pub flush : State F → Table ℤ (SkillSlot F) → Option (State F × Table ℤ (SkillSlot F))
  unfolding write_skills
  flush s rows = elim (write_skills s s.dirty rows) [
    | some rows' ↦ some (record s { dirty = [] }, rows')
    | none ↦ none
  ]

  -- `Load`
  unfoldable pub load : Table ℤ (SkillSlot F) → State F
  unfolding fill
  load rows = record { skills = fill rows []; dirty = []; changes = none }

  -- Several gains in a row.
  unfoldable pub gain_all : List F → List (ℤ × F) → State F → Option (State F)
  unfolding add_xp
  gain_all c [] s = some s
  gain_all c ((id, xp) ∷ gs) s = elim (add_xp c id xp s) [
    | some r ↦ gain_all c gs r.0
    | none ↦ none
  ]
