-- ===== src/Session/Choosing.antt =====
-- The slots that chooseTargetSlots returns (backend/internal/session/session.go).

use milkyway_liluo_idle.Prelude.{
  member-append, ℕ, ◌+◌, ◌≤◌, ◌≡◌, refl, sym, ap, subst, Bool, true, false, ◌||◌, if◌then◌else◌,
  none, some, List, [], ◌∷◌, ◌++◌, length, length-append, filter-append, arith, ℤ, pos, pos_part,
  leb_ℤ, String, Table, lookup, member, or_zero, All, Option-cases, inl, inr, ◌=?◌, string_eq,
  eq_of_eq, eq_refl, IsKeyed,
}
use milkyway_liluo_idle.Session.Bases.{
  chosen-injective, Choice-cases, IsFree, IsChoice, Fits, choose_base-IsChoice,
}
use milkyway_liluo_idle.Session.Slots.{
  slot_base, group_slots, chosen, choose_base, choose_all, choose_target_slots,
}
use milkyway_liluo_idle.Session.Picking.{occurrences, of_base, occurrences-append}

All-append : (P : String → Type 0) (xs ys : List String) → All P xs → All P ys → All P (xs ++ ys)
All-append P [] ys h k = k
All-append P (x ∷ xs) ys h k = (h.0, All-append P xs ys h.1 k)

abbrev pub AtLeastOne : String × ℤ → Type 0
AtLeastOne r = leb_ℤ (pos 1) r.1 ≡ true

abbrev pub needed : Table String ℤ → String → ℕ
needed reqs base = pos_part (or_zero (pos 0) (lookup base reqs))

abbrev pub asks : Table String ℤ → String → Bool
asks reqs base = elim (lookup base reqs) [ none ↦ false | some need ↦ true ]

-- The slots that an item takes.
pub record IsSelection (all_slots : List String) (clicked : String) (occupied : List String)
    (reqs : Table String ℤ) (result : List String) : Type 0 where
  pub free : All (IsFree all_slots occupied) result
  pub as_many : (base : String) → length (of_base base result) ≡ needed reqs base
  pub distinct : (sl : String) → occurrences sl result ≤ 1
  pub clicks : member clicked result ≡ true

-- What the loop adds to the slots that are selected.
pub record HasGrown (all_slots : List String) (clicked : String) (occupied : List String)
    (reqs : Table String ℤ) (selected result : List String) : Type 0 where
  pub fits : All (IsFree all_slots occupied) selected → All (IsFree all_slots occupied) result
  pub as_many :
      (base : String)
      → length (of_base base result) ≡ length (of_base base selected) + needed reqs base
  pub distinct :
      (sl : String)
      → occurrences sl all_slots ≤ 1
      → occurrences sl result
        ≤ occurrences sl selected + (if asks reqs (slot_base sl) then 1 else 0)
  pub clicks :
      (member clicked selected || asks reqs (slot_base clicked)) ≡ true
      → member clicked result ≡ true

module _ (all_slots : List String) (clicked : String) (occupied : List String)
    (is_slot : member clicked all_slots ≡ true) where
  length-of_base :
      (base b : String) (out : List String)
      → All (Fits all_slots occupied base) out
      → length (of_base b out) ≡ (if base =? b then length out else 0)
  length-of_base base b [] h = ground arith
  length-of_base base b (sl ∷ out) h =
      let here : (slot_base sl =? b) ≡ (base =? b) = ap (λ x. x =? b) h.0.0 in
      ground (arith, here, length-of_base base b out h.1)

  occurrences_elsewhere :
      (base x : String) (out : List String)
      → All (Fits all_slots occupied base) out
      → (base =? slot_base x) ≡ false
      → occurrences x out ≡ 0
  unfolding occurrences
  occurrences_elsewhere base x [] h k = refl
  occurrences_elsewhere base x (sl ∷ out) h k =
      let apart : (sl =? x) ≡ true → (base =? slot_base x) ≡ true =
        λ p. rw (sym (eq_of_eq sl x p), h.0.0) (eq_refl base) in
      ground (arith, apart, k, occurrences_elsewhere base x out h.1 k)

  drop_base :
      (base : String) (out : List String)
      → All (Fits all_slots occupied base) out
      → All (IsFree all_slots occupied) out
  drop_base base [] h = tt
  drop_base base (sl ∷ out) h = (h.0.1, drop_base base out h.1)

  joined :
      (base : String) (need : ℤ) (reqs : Table String ℤ) (selected out result : List String)
      → lookup base reqs ≡ none
      → IsChoice all_slots clicked occupied base need out
      → HasGrown all_slots clicked occupied reqs (selected ++ out) result
      → HasGrown all_slots clicked occupied ((base, need) ∷ reqs) selected result
  unfolding lookup or_zero
  joined base need reqs selected out result new here rest =
      let gone : (b : String) → (base =? b) ≡ true → lookup b reqs ≡ none =
        λ b e. subst (λ x. lookup x reqs ≡ none) (eq_of_eq base b e) new in
      let clicked_in : (base =? slot_base clicked) ≡ true → member clicked out ≡ true =
        λ e. here.clicks (eq_of_eq base (slot_base clicked) e) in
      record {
        fits = λ h.
            rest.fits (
              All-append (IsFree all_slots occupied) selected out h (drop_base base out here.fits));
        as_many = λ b. ground (
          arith,
          rest.as_many b,
          filter-append (λ sl. slot_base sl =? b) selected out,
          length-append (of_base b selected) (of_base b out),
          length-of_base base b out here.fits,
          here.as_many,
          gone b,
        );
        distinct = λ sl once. ground (
          arith,
          rest.distinct sl once,
          occurrences-append sl selected out,
          here.distinct sl once,
          occurrences_elsewhere base sl out here.fits,
          gone (slot_base sl),
        );
        clicks =
            λ h. rest.clicks (ground (arith, h, member-append clicked selected out, clicked_in));
      }

  choose_all-HasGrown :
      (reqs : Table String ℤ) (selected result : List String)
      → IsKeyed reqs
      → All AtLeastOne reqs
      → choose_all (group_slots all_slots []) clicked occupied reqs selected ≡ chosen result
      → HasGrown all_slots clicked occupied reqs selected result
  unfolding choose_all lookup or_zero IsKeyed
  choose_all-HasGrown [] selected result keyed least h =
      subst (HasGrown all_slots clicked occupied [] selected) (chosen-injective h) (record {
        fits = λ k. k;
        as_many = λ base. omega arith;
        distinct = λ sl once. omega arith;
        clicks = λ k. ground (arith, k);
      })
  choose_all-HasGrown ((base, need) ∷ reqs) selected result keyed least h =
      elim (Choice-cases (choose_base (group_slots all_slots []) clicked occupied base need)) [
        | inl (text, e) ↦ let w = rw (e, choose_all) at h in absurd (cc w)
        | inr (out, e) ↦
            (let w = rw (e, choose_all) at h in
              let here =
                choose_base-IsChoice all_slots clicked occupied is_slot base need out least.0 e in
              let rest = choose_all-HasGrown reqs (selected ++ out) result keyed.1 least.1 w in
              joined base need reqs selected out result keyed.0 here rest)
      ]

  pub choose_target_slots-HasGrown :
      (reqs : Table String ℤ) (result : List String)
      → IsKeyed reqs
      → All AtLeastOne reqs
      → choose_target_slots all_slots reqs clicked occupied ≡ chosen result
      → HasGrown all_slots clicked occupied reqs [] result × (asks reqs (slot_base clicked) ≡ true)
  unfolding choose_target_slots
  choose_target_slots-HasGrown reqs result keyed least h =
      elim (Option-cases (lookup (slot_base clicked) reqs)) [
        | inl e ↦ let w = rw (e, choose_target_slots) at h in absurd (cc w)
        | inr (need, e) ↦
            (let w = rw (e, choose_target_slots) at h in
              (choose_all-HasGrown reqs [] result keyed least w, rw (e, asks) refl))
      ]

  -- If no slot of the player is listed twice, the clicked one is listed, no base is required twice and
  -- each at least once, then the slots that `chooseTargetSlots` returns are slots of the player that
  -- are not occupied, none of them twice, the clicked one is among them, and each base has as many of
  -- them as it requires.
  pub choose_target_slots-IsSelection :
      (reqs : Table String ℤ) (result : List String)
      → ((sl : String) → occurrences sl all_slots ≤ 1)
      → IsKeyed reqs
      → All AtLeastOne reqs
      → choose_target_slots all_slots reqs clicked occupied ≡ chosen result
      → IsSelection all_slots clicked occupied reqs result
  unfolding member occurrences
  choose_target_slots-IsSelection reqs result distinct keyed least h =
      let (grown, asked) = choose_target_slots-HasGrown reqs result keyed least h in
      record {
        free = grown.fits tt;
        as_many = λ base. omega (arith, grown.as_many base);
        distinct = λ sl. ground (arith, grown.distinct sl (distinct sl));
        clicks = grown.clicks asked;
      }
