-- ===== src/Session/Bases.antt =====
-- The slots that chooseTargetSlots chooses for one base (backend/internal/session/session.go).
use mathlib.Core.Bool.{false≢true}
use milkyway_liluo_idle.Prelude.{
  ℕ, ◌+◌, ◌≤◌, ◌≡◌, ◌≢◌, ◌⊎◌, refl, sym, subst, ◌∙◌, Bool, true, false, ◌||◌, if◌then◌else◌, List,
  [], ◌∷◌, length, arith, ℤ, pos, negsuc, pos_part, leb_ℤ, String, lookup, member, or_zero, All,
  Bool-cases, inl, inr, ◌=?◌, string_eq, eq_of_eq, eq_refl, eq_sym,
}
use milkyway_liluo_idle.Session.Slots.{
  slot_base, group_slots, pick, Choice, chosen, refused, enough, choose_from, choose_base,
}
use milkyway_liluo_idle.Session.Picking.{
  occurrences, of_base, occurrences-filter-le, Offers, pick-All, length-pick-le,
  occurrences-pick-le, member-pick, lookup-group_slots,
}

pub chosen-injective : {xs ys : List String} → chosen xs ≡ chosen ys → xs ≡ ys
chosen-injective h = cc h

pub Choice-cases :
    (c : Choice) → ((e : String) × (c ≡ refused e)) ⊎ ((out : List String) × (c ≡ chosen out))
Choice-cases (refused e) = inl (e, refl)
Choice-cases (chosen out) = inr (out, refl)

differs : (a b : String) → (a =? b) ≡ false → a ≢ b
differs a b h e = false≢true (sym h ∙ rw (e) (eq_refl b))

-- A slot of the player that is not occupied.
abbrev pub IsFree : List String → List String → String → Type 0
IsFree all_slots occupied sl = (member sl all_slots ≡ true) × (member sl occupied ≡ false)

-- What the choice for one base returns.
pub record IsChoice (all_slots : List String) (clicked : String) (occupied : List String)
    (base : String) (need : ℤ) (out : List String) : Type 0 where
  pub fits : All (λ sl. (slot_base sl ≡ base) × IsFree all_slots occupied sl) out
  pub as_many : length out ≡ pos_part need
  pub distinct : (sl : String) → occurrences sl all_slots ≤ 1 → occurrences sl out ≤ 1
  pub clicks : base ≡ slot_base clicked → member clicked out ≡ true

-- A slot that may be chosen for a base.
abbrev pub Fits : List String → List String → String → String → Type 0
Fits all_slots occupied base sl = (slot_base sl ≡ base) × IsFree all_slots occupied sl

module _ (all_slots : List String) (clicked : String) (occupied : List String)
    (is_slot : member clicked all_slots ≡ true) where
  offered :
      (base : String) (skip : String → Bool) (slots : List String)
      → ((sl : String) → skip sl ≡ false → member sl occupied ≡ false)
      → ((sl : String) → member sl slots ≡ true → member sl all_slots ≡ true)
      → Offers skip (Fits all_slots occupied base) (of_base base slots)
  unfolding member
  offered base skip [] free within = tt
  offered base skip (sl ∷ slots) free within =
      let rest = offered base skip slots free (λ x h. within x (ground (arith, h))) in
      elim (Bool-cases (slot_base sl =? base)) [
        | inl e ↦ rw (e) (
          (λ k. (eq_of_eq (slot_base sl) base e, (within sl (rw (eq_refl sl) refl), free sl k))),
          rest,
        )
        | inr e ↦ rw (e) rest
      ]

  picked :
      (base : String) (need : ℕ) (skip : String → Bool) (cands out : List String)
      → cands ≡ of_base base all_slots
      → ((sl : String) → skip sl ≡ false → member sl occupied ≡ false)
      → All (Fits all_slots occupied base) out
      → ((sl : String) → occurrences sl out + (if skip sl then 0 else 1) ≤ 1)
      → length out ≤ need
      → (base ≡ slot_base clicked → member clicked out ≡ true)
      → (result : List String)
      → enough base (pos need) (pick (pos need) skip cands out) ≡ chosen result
      → IsChoice all_slots clicked occupied base (pos need) result
  picked base need skip cands out e free fits once short clicks result h =
      elim (Bool-cases (leb_ℤ (pos need) (pos (length (pick (pos need) skip cands out))))) [
        | inr p ↦ let w = rw (p) at h in absurd (cc w)
        | inl p ↦
            (let w = rw (p) at h in
              let le : (sl : String) → occurrences sl cands ≤ occurrences sl all_slots =
                λ sl. rw (e) (occurrences-filter-le sl (λ x. slot_base x =? base) all_slots) in
              subst (IsChoice all_slots clicked occupied base (pos need)) (chosen-injective w)
                (record {
                  fits =
                      pick-All (Fits all_slots occupied base) (pos need) skip cands out
                        (subst (Offers skip (Fits all_slots occupied base)) (sym e)
                          (offered base skip all_slots free (λ sl h. h)))
                        fits;
                  as_many = ground (arith, p, length-pick-le need skip cands out short);
                  distinct = λ sl once_there. ground (
                    arith,
                    once sl,
                    occurrences-pick-le sl (pos need) skip cands out,
                    le sl,
                    once_there,
                  );
                  clicks = λ e. member-pick clicked (pos need) skip cands out (clicks e);
                }))
      ]

  choose_from-IsChoice :
      (base : String) (need : ℕ) (cands result : List String)
      → cands ≡ of_base base all_slots
      → 1 ≤ need
      → choose_from cands clicked occupied base (pos need) ≡ chosen result
      → IsChoice all_slots clicked occupied base (pos need) result
  unfolding choose_from occurrences member
  choose_from-IsChoice base need [] result e least h = absurd (cc h)
  choose_from-IsChoice base need (sl ∷ cands) result e least h =
      elim (Bool-cases (base =? slot_base clicked)) [
        | inr p ↦
            (let w = rw (p) at h in
              picked base need (λ x. member x occupied) (sl ∷ cands) [] e (λ x k. k) tt
                (λ x. ground arith) (omega arith)
                (λ q. absurd (differs base (slot_base clicked) p q)) result w)
        | inl p ↦ elim (Bool-cases (member clicked occupied)) [
          | inl q ↦ let w = rw (p, q) at h in absurd (cc w)
          | inr q ↦
              (let w = rw (p, q) at h in
                picked base need (λ x. (x =? clicked) || member x occupied) (sl ∷ cands)
                  (clicked ∷ []) e (λ x k. ground (arith, k))
                  ((sym (eq_of_eq base (slot_base clicked) p), (is_slot, q)), tt)
                  (λ x. ground (arith, eq_sym x clicked)) (omega arith)
                  (λ r. rw (eq_refl clicked) refl) result w)
        ]
      ]

  pub choose_base-IsChoice :
      (base : String) (need : ℤ) (result : List String)
      → leb_ℤ (pos 1) need ≡ true
      → choose_base (group_slots all_slots []) clicked occupied base need ≡ chosen result
      → IsChoice all_slots clicked occupied base need result
  unfolding choose_base lookup or_zero
  choose_base-IsChoice base (negsuc need) result least h = absurd (ground (arith, least))
  choose_base-IsChoice base (pos need) result least h =
      choose_from-IsChoice base need _ result (lookup-group_slots base all_slots [])
        (ground (arith, least)) h
