-- ===== src/Skill/Progress.antt =====
-- `AddXP` keeps the levels in step with the experience, and `Flush` with `Load` keeps both
-- (backend/internal/skill/state.go).
use mathlib.Core.Bool.{false≢true, true≢false}
use milkyway_liluo_idle.Prelude.{
  ◌≡◌, refl, ap, sym, subst, ◌∙◌, ℕ, ◌≤◌, true, false, ltb, if◌then◌else◌, arith, Bool-cases,
  Option-cases, inl, inr, Option, none, some, List, [], ◌∷◌, length, ℤ, pos, Table, lookup, member,
  IsKeyed, write_rows, lookup-insert, member-include, lookup-fill_empty, lookup-write_rows,
  write_rows-IsKeyed, ◌=?◌, int_eq, eq_refl,
}
use milkyway_liluo_idle.Float.{Float, ◌≤?◌, ◌⊕◌, IsOrdered, IsCounting}
use milkyway_liluo_idle.Skill.{
  SkillSlot, State, LevelUp, level_index, level, next_level, slot_or_new, must_slot, set_level,
  add_xp, gain_all, write_skills, flush, load,
}
use milkyway_liluo_idle.Skill.Levels.{
  IsRising, next_level_max, level_index-IsFirst, level_index_mono,
}

-- `P` of the value, if there is one.
abbrev IfReturned {ℓ} : {A : Type ℓ} → (A → Type 0) → Option A → Type 0
IfReturned P none = Unit
IfReturned P (some x) = P x

module _ {F : Type 0} ⦃f : Float F⦄ where
  -- The level that a skill has at an amount of experience: that of the curve, and at least 1.
  abbrev pub index_of : List F → F → ℕ
  index_of c xp = if ltb 1 (level_index c xp) then level_index c xp else 1

  abbrev pub IsLevelled : List F → SkillSlot F → Type 0
  IsLevelled c slot = slot.level ≡ f.of_int (pos (index_of c slot.xp))

  -- Every skill has the level of its experience.
  abbrev pub AreLevelled : List F → State F → Type 0
  AreLevelled c s = (id : ℤ) → IsLevelled c (slot_or_new (lookup id s.skills))

  next_level-IsLevelled :
      (o : IsOrdered F) (n : IsCounting F) (c : List F) (slot : SkillSlot F) (total : F)
      → IsRising c
      → 1 ≤ length c
      → IsLevelled c slot
      → (slot.xp ≤? total) ≡ true
      → next_level c slot.level total ≡ some (f.of_int (pos (index_of c total)))
  unfolding level
  next_level-IsLevelled o n c slot total r h e g =
      let bound = (level_index-IsFirst o c slot.xp r).1 in
      rw (e) (
        next_level_max o n c (index_of c slot.xp) total r (ground (arith, bound, h))
        ∙ ground (arith, level_index_mono o c slot.xp total r g))

  -- On a rising curve that is not empty and on which 0 experience is at most level 1, if every skill
  -- has the level of its experience, so it is after `AddXP` of an amount that does not lower the sum:
  -- the call does not panic, the skill has the sum and its level, and the hook is called with the old
  -- and the new level just when the level rises.
  pub add_xp-AreLevelled :
      (o : IsOrdered F) (n : IsCounting F) (c : List F) (id : ℤ) (xp : F) (s : State F)
      → IsRising c
      → 1 ≤ length c
      → AreLevelled c s
      → let old = slot_or_new (lookup id s.skills) in
        let total = old.xp ⊕ xp in
        (old.xp ≤? total) ≡ true
        → (s' : State F) × (up : Option (LevelUp F)) × ((add_xp c id xp s ≡ some (s', up))
            × AreLevelled c s'
            × (lookup id s'.skills
                ≡ some (record { level = f.of_int (pos (index_of c total)); xp = total }))
            × (up ≡ (
                if ltb (index_of c old.xp) (index_of c total)
                then some (record {
                  skill_id = id;
                  old_level = old.level;
                  new_level = f.of_int (pos (index_of c total));
                })
                else none)))
  unfolding add_xp must_slot set_level
  add_xp-AreLevelled o n c id xp s r h a g =
      let old = slot_or_new (lookup id s.skills) in
      let total = old.xp ⊕ xp in
      let new_level = f.of_int (pos (index_of c total)) in
      let new_slot : SkillSlot F = record { level = new_level; xp = total } in
      let found = must_slot id s in
      let next = set_level id xp total old found.1 new_level in
      let found_new : lookup id next.0.skills ≡ some new_slot =
        lookup-insert id id new_slot found.1.skills ∙ rw (eq_refl id) refl in
      (
        next.0,
        next.1,
        (
          rw (add_xp, next_level-IsLevelled o n c old total r h (a id) g) refl,
          λ j.
              rw (lookup-insert id j new_slot found.1.skills, lookup-insert id j old s.skills)
                (elim (Bool-cases (id =? j)) [ inl p ↦ rw (p) refl | inr p ↦ rw (p) (a j) ]),
          found_new,
          rw (sym (n.lt-of_int (index_of c old.xp) (index_of c total)), sym (a id)) refl,
        ),
      )

  -- A dirty skill has a slot, and the rows have the slots of the others.
  abbrev pub IsBacked : Table ℤ (SkillSlot F) → State F → Type 0
  IsBacked rows s =
      (id : ℤ)
      → (member id s.dirty ≡ true → (slot : SkillSlot F) × (lookup id s.skills ≡ some slot))
        × (member id s.dirty ≡ false
            → slot_or_new (lookup id rows) ≡ slot_or_new (lookup id s.skills))

  slot_of : State F → ℤ → SkillSlot F
  slot_of s id = slot_or_new (lookup id s.skills)

  write_skills_all :
      (s : State F) (ids : List ℤ) (rows : Table ℤ (SkillSlot F))
      → ((id : ℤ) → member id ids ≡ true → (slot : SkillSlot F) × (lookup id s.skills ≡ some slot))
      → write_skills s ids rows ≡ some (write_rows (slot_of s) ids rows)
  unfolding write_skills write_rows slot_of slot_or_new member
  write_skills_all s [] rows h = refl
  write_skills_all s (id ∷ ids) rows h =
      let here = h id (rw (eq_refl id) refl) in
      rw (write_skills, here.1) (write_skills_all s ids _ (λ j m. h j (ground (arith, m))))

  set_level-IsBacked :
      (id : ℤ) (xp total l : F) (old : SkillSlot F) (rows : Table ℤ (SkillSlot F)) (s : State F)
      → IsBacked rows s
      → IsBacked rows (set_level id xp total old (must_slot id s).1 l).0
  unfolding must_slot set_level
  set_level-IsBacked id xp total l old rows s h j =
      let new : SkillSlot F = record { level = l; xp = total } in
      let kept = slot_or_new (lookup id s.skills) in
      elim (Bool-cases (id =? j)) [
        | inl p ↦
            rw (member-include id j s.dirty, lookup-insert id j new (must_slot id s).1.skills, p)
              (λ m. (new, refl), λ m. absurd (true≢false m))
        | inr p ↦
            rw
              (
                member-include id j s.dirty,
                lookup-insert id j new (must_slot id s).1.skills,
                lookup-insert id j kept s.skills,
                p,
              )
              (h j)
      ]

  add_xp-IsBacked :
      (c : List F) (id : ℤ) (xp : F) (rows : Table ℤ (SkillSlot F)) (s : State F)
      → IsBacked rows s
      → IfReturned (λ r. IsBacked rows r.0) (add_xp c id xp s)
  unfolding add_xp
  add_xp-IsBacked c id xp rows s h =
      let old = slot_or_new (lookup id s.skills) in
      elim (Option-cases (next_level c old.level (old.xp ⊕ xp))) [
        | inl p ↦ rw (add_xp, p) tt
        | inr (l, p) ↦ rw (add_xp, p) (set_level-IsBacked id xp (old.xp ⊕ xp) l old rows s h)
      ]

  gain_all-IsBacked :
      (c : List F) (gs : List (ℤ × F)) (rows : Table ℤ (SkillSlot F)) (s : State F)
      → IsBacked rows s
      → IfReturned (IsBacked rows) (gain_all c gs s)
  unfolding gain_all
  gain_all-IsBacked c [] rows s h = h
  gain_all-IsBacked c ((id, xp) ∷ gs) rows s h = elim (Option-cases (add_xp c id xp s)) [
    | inl p ↦ rw (gain_all, p) tt
    | inr (r, p) ↦
        rw (gain_all, p)
          (gain_all-IsBacked c gs rows r.0 (
            subst (IfReturned (λ (q : State F × Option (LevelUp F)). IsBacked rows q.0)) p
              (add_xp-IsBacked c id xp rows s h)))
  ]

  load-IsBacked : (rows : Table ℤ (SkillSlot F)) → IsKeyed rows → IsBacked rows (load rows)
  unfolding load member
  load-IsBacked rows k id =
      (λ m. absurd (false≢true m), λ m. ap slot_or_new (sym (lookup-fill_empty rows id k)))

  -- If the rows of a player have unique skills, then after loading them and any gains of experience
  -- without a panic, a flush does not panic, and another load brings back every skill.
  pub flush-gain_all :
      (c : List F) (gs : List (ℤ × F)) (rows : Table ℤ (SkillSlot F)) (s : State F)
      → IsKeyed rows
      → gain_all c gs (load rows) ≡ some s
      → (s' : State F) × (rows' : Table ℤ (SkillSlot F)) × ((flush s rows ≡ some (s', rows'))
          × ((id : ℤ)
              → slot_or_new (lookup id (load rows').skills) ≡ slot_or_new (lookup id s.skills)))
  unfolding flush slot_of load slot_or_new
  flush-gain_all c gs rows s k e =
      let back : IsBacked rows s =
        subst (IfReturned (IsBacked rows)) e
          (gain_all-IsBacked c gs rows (load rows) (load-IsBacked rows k)) in
      let rows' = write_rows (slot_of s) s.dirty rows in
      (
        record s { dirty = [] },
        rows',
        (
          rw (flush, write_skills_all s s.dirty rows (λ id. (back id).0)) refl,
          λ id.
              ap slot_or_new
                (lookup-fill_empty rows' id (write_rows-IsKeyed (slot_of s) s.dirty rows k))
              ∙ rw (lookup-write_rows (slot_of s) s.dirty rows id)
                  (elim (Bool-cases (member id s.dirty)) [
                    | inl m ↦ rw (m) refl
                    | inr m ↦ rw (m) ((back id).1 m)
                  ]),
        ),
      )
