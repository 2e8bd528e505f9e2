-- ===== src/Session/Picking.antt =====
-- The loop of chooseTargetSlots over the slots of one base (backend/internal/session/session.go).
use mathlib.Core.List.{append-nil, append_assoc}
use milkyway_liluo_idle.Prelude.{
  ℕ, suc, ◌+◌, ◌≤◌, ◌≡◌, refl, sym, ◌∙◌, Bool, true, false, if◌then◌else◌, List, [], ◌∷◌, ◌++◌,
  length, filter, length-append, arith, ℤ, pos, leb_ℤ, String, Table, lookup, insert, lookup-insert,
  member, member-append, or_zero, All, Bool-cases, inl, inr, ◌=?◌, string_eq, eq_of_eq, if_rule,
}
use milkyway_liluo_idle.Session.Slots.{slot_base, group_slots, pick}

unfoldable pub occurrences : String → List String → ℕ
occurrences sl [] = 0
occurrences sl (x ∷ xs) = let rest = occurrences sl xs in if x =? sl then suc rest else rest

-- The slots of a base.
abbrev pub of_base : String → List String → List String
of_base base slots = filter (λ sl. slot_base sl =? base) slots

pub occurrences-append :
    (sl : String) (xs ys : List String)
    → occurrences sl (xs ++ ys) ≡ occurrences sl xs + occurrences sl ys
unfolding occurrences
occurrences-append sl [] ys = omega arith
occurrences-append sl (x ∷ xs) ys = ground (arith, occurrences-append sl xs ys)

pub occurrences-filter-le :
    (sl : String) (p : String → Bool) (xs : List String)
    → occurrences sl (filter p xs) ≤ occurrences sl xs
unfolding occurrences
occurrences-filter-le sl p [] = omega arith
occurrences-filter-le sl p (x ∷ xs) = ground (arith, occurrences-filter-le sl p xs)

All-snoc :
    (P : String → Type 0) (xs : List String) (x : String) → All P xs → P x → All P (xs ++ (x ∷ []))
All-snoc P [] x h p = (p, tt)
All-snoc P (y ∷ xs) x h p = (h.0, All-snoc P xs x h.1 p)

-- Every slot of a list, if it is not left out, has a property.
abbrev pub Offers : (String → Bool) → (String → Type 0) → List String → Type 0
Offers skip P cands = All (λ sl. skip sl ≡ false → P sl) cands

pub pick-All :
    (P : String → Type 0) (need : ℤ) (skip : String → Bool) (cands out : List String)
    → Offers skip P cands
    → All P out
    → All P (pick need skip cands out)
unfolding pick
pick-All P need skip [] out offers h = h
pick-All P need skip (sl ∷ cands) out offers h =
    if_rule (All P) (leb_ℤ need (pos (length out))) h (elim (Bool-cases (skip sl)) [
      | inl e ↦ rw (e) (pick-All P need skip cands out offers.1 h)
      | inr e ↦ rw (e) (
          pick-All P need skip cands (out ++ (sl ∷ [])) offers.1 (All-snoc P out sl h (offers.0 e)))
    ])

pub length-pick-le :
    (need : ℕ) (skip : String → Bool) (cands out : List String)
    → length out ≤ need
    → length (pick (pos need) skip cands out) ≤ need
unfolding pick
length-pick-le need skip [] out h = h
length-pick-le need skip (sl ∷ cands) out h = ground (
  arith,
  length-pick-le need skip cands out,
  length-pick-le need skip cands (out ++ (sl ∷ [])),
  length-append out (sl ∷ []),
)

pub occurrences-pick-le :
    (x : String) (need : ℤ) (skip : String → Bool) (cands out : List String)
    → occurrences x (pick need skip cands out)
      ≤ occurrences x out + (if skip x then 0 else occurrences x cands)
unfolding pick occurrences
occurrences-pick-le x need skip [] out = ground arith
occurrences-pick-le x need skip (sl ∷ cands) out =
    let here : (sl =? x) ≡ true → skip sl ≡ skip x = λ e. rw (eq_of_eq sl x e) refl in
    ground (
      arith,
      here,
      occurrences-pick-le x need skip cands out,
      occurrences-pick-le x need skip cands (out ++ (sl ∷ [])),
      occurrences-append x out (sl ∷ []),
    )

pub member-pick :
    (x : String) (need : ℤ) (skip : String → Bool) (cands out : List String)
    → member x out ≡ true
    → member x (pick need skip cands out) ≡ true
unfolding pick
member-pick x need skip [] out h = h
member-pick x need skip (sl ∷ cands) out h = ground (
  arith,
  member-pick x need skip cands out,
  member-pick x need skip cands (out ++ (sl ∷ [])),
  member-append x out (sl ∷ []),
)

pub lookup-group_slots :
    (base : String) (slots : List String) (m : Table String (List String))
    → or_zero [] (lookup base (group_slots slots m))
      ≡ or_zero [] (lookup base m) ++ of_base base slots
unfolding group_slots or_zero
lookup-group_slots base [] m = sym (append-nil (or_zero [] (lookup base m)))
lookup-group_slots base (sl ∷ slots) m =
    let mine = or_zero [] (lookup (slot_base sl) m) ++ (sl ∷ []) in
    lookup-group_slots base slots (insert (slot_base sl) mine m)
    ∙ rw (lookup-insert (slot_base sl) base mine m) (elim (Bool-cases (slot_base sl =? base)) [
      | inl e ↦ rw (e, eq_of_eq (slot_base sl) base e, append_assoc) refl
      | inr e ↦ rw (e) refl
    ])
