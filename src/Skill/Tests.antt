-- ===== src/Skill/Tests.antt =====
-- The skills of a concrete player, over thousandths, with the first levels of the game's curve.
use milkyway_liluo_idle.Prelude.{
  ◌≡◌, refl, suc, ◌<◌, List, [], ◌∷◌, Option, none, some, true, false, arith, ℤ, pos, Table, lookup,
  IsKeyed, if◌then◌else◌, ltb, length, int_eq, if_rule, ◌=?◌,
}
use milkyway_liluo_idle.Float.{◌<?◌, ◌⊕◌}
use milkyway_liluo_idle.Milli.{
  Milli, whole, milli_float, milli_of_int, milli_add, milli_to_int, milli_lit, Milli-IsOrdered,
  Milli-IsCounting,
}
use milkyway_liluo_idle.Skill.{
  State, SkillSlot, LevelUp, level, level_index, next_level, xp_for_level, add_xp, gain_all, load,
  flush, slot_or_new, search, search_rounds, narrow, exceeds,
}
use milkyway_liluo_idle.Skill.Levels.{IsRising, next_level_max, xp_for_level_bracket}
use milkyway_liluo_idle.Skill.Progress.{
  AreLevelled, IsLevelled, index_of, add_xp-AreLevelled, flush-gain_all,
}

abbrev curve : List Milli
curve = whole 80 ∷ whole 300 ∷ whole 700 ∷ []

curve-IsRising : IsRising curve
curve-IsRising = ((refl, (refl, tt)), ((refl, tt), (tt, tt)))

abbrev rows : Table ℤ (SkillSlot Milli)
rows = (pos 4, record { level = whole 1; xp = whole 80 }) ∷ []

rows-IsKeyed : IsKeyed rows
unfolding IsKeyed
rows-IsKeyed = (refl, tt)

next_level_max_example :
    next_level curve (milli_float.of_int (pos 1)) (whole 299)
    ≡ some (
        if ltb 1 (level_index curve (whole 299))
        then level curve (whole 299)
        else milli_float.of_int (pos 1))
next_level_max_example =
    next_level_max Milli-IsOrdered Milli-IsCounting curve 1 (whole 299) curve-IsRising (omega arith)

xp_for_level_bracket_example :
    (0 < level_index curve (whole 299)
      → (y : Milli) × ((xp_for_level curve (level curve (whole 299)) ≡ some y)
          × ((whole 299 <? y) ≡ false)))
    × (level_index curve (whole 299) < length curve
        → (y : Milli) × ((xp_for_level curve
                (milli_float.of_int (pos (suc (level_index curve (whole 299)))))
              ≡ some y)
            × ((whole 299 <? y) ≡ true)))
xp_for_level_bracket_example =
    xp_for_level_bracket Milli-IsOrdered Milli-IsCounting curve (whole 299) curve-IsRising

abbrev player : State Milli
player = record { skills = rows; dirty = []; changes = some [] }

player-AreLevelled : AreLevelled curve player
unfolding lookup slot_or_new milli_of_int level_index search search_rounds narrow exceeds milli_lit
player-AreLevelled id = if_rule (λ o. IsLevelled curve (slot_or_new o)) (pos 4 =? id) refl refl

add_xp-AreLevelled_example :
    let old = slot_or_new (lookup (pos 4) player.skills) in
    let total = old.xp ⊕ whole 300 in
    (s' : State Milli) × (up : Option (LevelUp Milli)) × ((add_xp curve (pos 4) (whole 300) player
        ≡ some (s', up))
      × AreLevelled curve s'
      × (lookup (pos 4) s'.skills
          ≡ some (record { level = milli_float.of_int (pos (index_of curve total)); xp = total }))
      × (up ≡ (
          if ltb (index_of curve old.xp) (index_of curve total)
          then some (record {
            skill_id = pos 4;
            old_level = old.level;
            new_level = milli_float.of_int (pos (index_of curve total));
          })
          else none)))
unfolding milli_add slot_or_new lookup
add_xp-AreLevelled_example =
    add_xp-AreLevelled Milli-IsOrdered Milli-IsCounting curve (pos 4) (whole 300) player
      curve-IsRising (omega arith) player-AreLevelled refl

abbrev after_gains : State Milli
after_gains = record {
  skills = (pos 4, record { level = whole 2; xp = whole 380 }) ∷ [];
  dirty = pos 4 ∷ [];
  changes = none;
}

gains_returned :
    gain_all curve ((pos 4, whole 100) ∷ (pos 4, whole 200) ∷ []) (load rows) ≡ some after_gains
unfolding gain_all load milli_add milli_of_int milli_to_int
gains_returned = refl

flush-gain_all_example :
    (s' : State Milli) × (rows' : Table ℤ (SkillSlot Milli)) × ((flush after_gains rows
        ≡ some (s', rows'))
      × ((id : ℤ)
          → slot_or_new (lookup id (load rows').skills)
            ≡ slot_or_new (lookup id after_gains.skills)))
flush-gain_all_example =
    flush-gain_all curve ((pos 4, whole 100) ∷ (pos 4, whole 200) ∷ []) rows after_gains
      rows-IsKeyed gains_returned
