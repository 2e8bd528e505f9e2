-- ===== src/Session/Requirements.antt =====
-- What an item requires of the slots: positionRequirements (backend/internal/session/session.go).
use milkyway_liluo_idle.Prelude.{
  ◌≡◌, refl, subst, true, if◌then◌else◌, List, [], ◌∷◌, ℤ, pos, ◌+ℤ◌, leb_ℤ, String, Table, lookup,
  insert, or_zero, All, IsKeyed, insert-IsKeyed, Bool-cases, inl, inr, ◌=?◌, string_eq, arith,
  +ℤ_parts, List-cases,
}
use milkyway_liluo_idle.Item.Definition.{ItemDef, PositionReq}
use milkyway_liluo_idle.Session.Slots.{resolve_slot_type, add_reqs, position_requirements}
use milkyway_liluo_idle.Session.{requirements}
use milkyway_liluo_idle.Session.Choosing.{AtLeastOne}

insert-All :
    (P : String × ℤ → Type 0) (k : String) (v : ℤ) (m : Table String ℤ)
    → All P m
    → P (k, v)
    → All P (insert k v m)
unfolding insert
insert-All P k v [] h p = (p, tt)
insert-All P k v ((j, w) ∷ m) h p = elim (Bool-cases (j =? k)) [
  | inl e ↦ rw (e) (p, h.1)
  | inr e ↦ rw (e) (h.0, insert-All P k v m h.1 p)
]

at_least_sum :
    (a v : ℤ) → leb_ℤ (pos 0) a ≡ true → leb_ℤ (pos 1) v ≡ true → leb_ℤ (pos 1) (a +ℤ v) ≡ true
at_least_sum a v h k = ground (arith, h, k, +ℤ_parts a v)

sum_so_far :
    (k : String) (m : Table String ℤ)
    → All AtLeastOne m
    → leb_ℤ (pos 0) (or_zero (pos 0) (lookup k m)) ≡ true
unfolding lookup or_zero
sum_so_far k [] h = ground arith
sum_so_far k ((j, w) ∷ m) h = ground (arith, h.0, sum_so_far k m h.1)

one_or_more : (v : ℤ) → leb_ℤ (pos 1) (if leb_ℤ v (pos 0) then pos 1 else v) ≡ true
one_or_more v = ground arith

add_reqs-AtLeastOne :
    (rs : List PositionReq) (m : Table String ℤ)
    → All AtLeastOne m
    → IsKeyed m
    → All AtLeastOne (add_reqs rs m) × IsKeyed (add_reqs rs m)
unfolding add_reqs
add_reqs-AtLeastOne [] m h k = (h, k)
add_reqs-AtLeastOne (r ∷ rs) m h k =
    add_reqs-AtLeastOne rs _
      (insert-All AtLeastOne r.position _ m h (
        at_least_sum (or_zero (pos 0) (lookup r.position m)) _ (sum_so_far r.position m h)
          (one_or_more r.value)))
      (insert-IsKeyed r.position _ m k)

module _ {F : Type 0} where
  pub requirements-AtLeastOne :
      (d : ItemDef F) (clicked : String)
      → All AtLeastOne (requirements d clicked) × IsKeyed (requirements d clicked)
  unfolding requirements position_requirements IsKeyed lookup
  requirements-AtLeastOne d clicked =
      let typ = resolve_slot_type clicked in
      let both =
        add_reqs-AtLeastOne (if typ =? "tool" then d.tool_position_reqs else d.equip_position_reqs)
          [] tt tt in
      elim (List-cases (position_requirements d typ)) [
        | inl e ↦ rw (e, requirements) ((refl, tt), (refl, tt))
        | inr (r, rs, e) ↦ rw (e, requirements) (subst (λ m. All AtLeastOne m × IsKeyed m) e both)
      ]
