-- ===== src/Inventory/Changes.antt =====
-- What the recorded changes of the items say of the quantities.
use milkyway_liluo_idle.Prelude.{
  ◌≡◌, refl, sym, ◌∙◌, ap, subst, inl, inr, Option, none, some, List, [], ◌∷◌, arith, Table, lookup,
  insert, or_zero, ◌=?◌, lookup-insert, lookup-delete, eq_of_eq, if◌then◌else◌, Bool-cases, eq_refl,
}
use milkyway_liluo_idle.Float.{Float, IsExact, ◌⊕◌, nought, neg}
use milkyway_liluo_idle.Item.{Item, item_eq}
use milkyway_liluo_idle.Inventory.{
  Change, Bucket, State, add_to_entry, bucket_add, get, add_slot, add_change, record_change, add,
  deduct, add_equip_change, Op, adds, deducts, equips, run, run_all, Reason,
}

module _ {F : Type 0} ⦃f : Float F⦄ where
  unfoldable pub qty_of : Option (Change F) → F
  qty_of (some e) = e.qty
  qty_of none = nought

  -- The change that a bucket reports for an item.
  unfoldable pub delta : Item → Bucket F → F
  unfolding qty_of lookup
  delta it b = qty_of (lookup it b)

module _ {F : Type 0} ⦃f : Float F⦄ (P : F → Type 0) (x : IsExact P) where
  delta-add_to_entry :
      (it j : Item) (q : F) (r : Reason) (o : Option (Change F)) (b : Bucket F)
      → P q
      → P (qty_of o)
      → delta j (add_to_entry it q r o b) ≡ (if it =? j then qty_of o ⊕ q else delta j b)
  unfolding delta add_to_entry qty_of
  delta-add_to_entry it j q r none b p h =
      ground (arith, lookup-insert it j (record { qty = q; reason = r }) b, x.zero_add q p)
  delta-add_to_entry it j q r (some e) b p h = ground (
    arith,
    lookup-insert it j (record e { qty = e.qty ⊕ q }) b,
    lookup-delete it j b,
    x.same_zero e.qty q h p,
  )

  pub delta-bucket_add :
      (it j : Item) (q : F) (r : Reason) (b : Bucket F)
      → P q
      → P (delta it b)
      → delta j (bucket_add it q r b) ≡ (if it =? j then delta it b ⊕ q else delta j b)
  unfolding bucket_add delta qty_of
  delta-bucket_add it j q r b p h = delta-add_to_entry it j q r (lookup it b) b p h

  pub get-add_slot :
      (it j : Item) (q : F) (slots : Table Item F)
      → P q
      → P (or_zero nought (lookup it slots))
      → or_zero nought (lookup j (add_slot it q slots)) ≡ (
          if it =? j then or_zero nought (lookup it slots) ⊕ q else or_zero nought (lookup j slots))
  unfolding add_slot or_zero
  get-add_slot it j q slots p h = ground (
    arith,
    lookup-insert it it (or_zero nought (lookup it slots) ⊕ q) slots,
    lookup-insert it j (or_zero nought (lookup it slots) ⊕ q) slots,
    lookup-delete it j (insert it (or_zero nought (lookup it slots) ⊕ q) slots),
    x.same_zero (or_zero nought (lookup it slots)) q h p,
    eq_refl it,
  )

module _ {F : Type 0} ⦃f : Float F⦄ where
  -- What an operation adds to a quantity.
  abbrev pub amount_of : Op F → F
  amount_of (adds it q) = q
  amount_of (deducts it q) = neg q
  amount_of (equips it q e) = q

  -- The quantities and the reported changes of a state are among the numbers.
  abbrev pub AreIn : (F → Type 0) → State F → Type 0
  AreIn P s = ((it : Item) → P (get it s)) × ((it : Item) → P (delta it (or_zero [] s.changes)))

  -- All amounts, quantities and reported changes are, up to the end of the operations.
  abbrev pub AreInUntil : (F → Type 0) → List (Op F) → State F → Type 0
  AreInUntil P [] s = AreIn P s
  AreInUntil P (o ∷ os) s = AreIn P s × P (amount_of o) × AreInUntil P os (run o s)

  -- The bucket `b` of the state tells how the quantities differ from `base`.
  abbrev pub IsRecorded : (Item → F) → Bucket F → State F → Type 0
  IsRecorded base b s = (s.changes ≡ some b) × ((it : Item) → get it s ≡ base it ⊕ delta it b)

  AreIn-now : (P : F → Type 0) (os : List (Op F)) (s : State F) → AreInUntil P os s → AreIn P s
  AreIn-now P [] s h = h
  AreIn-now P (o ∷ os) s h = h.0

module _ {F : Type 0} ⦃f : Float F⦄ (P : F → Type 0) (x : IsExact P) (base : Item → F)
    (origin : (it : Item) → P (base it)) where
  -- One change of an item.
  add_change-IsRecorded :
      (it : Item) (q : F) (r : Reason) (b : Bucket F) (s : State F)
      → P q
      → AreIn P s
      → AreIn P (add_change it q r s)
      → IsRecorded base b s
      → IsRecorded base (bucket_add it q r b) (add_change it q r s)
  unfolding get add_change record_change or_zero
  add_change-IsRecorded it q r b s p now next h =
      let reported : P (delta it b) =
        subst (λ (c : Option (Bucket F)). P (delta it (or_zero [] c))) h.0 (now.1 it) in
      let got = get-add_slot P x it it q s.slots p (now.0 it) ∙ rw (eq_refl it) refl in
      let told = delta-bucket_add P x it it q r b p reported ∙ rw (eq_refl it) refl in
      let told_in : P (delta it b ⊕ q) = subst P told (
        subst (λ (c : Option (Bucket F)). P (delta it (or_zero [] (record_change it q r c)))) h.0
          (next.1 it)) in
      let got_in : P (base it ⊕ delta it b ⊕ q) =
        subst (λ (y : F). P (y ⊕ q)) (h.1 it) (subst P got (next.0 it)) in
      let exact : base it ⊕ delta it b ⊕ q ≡ base it ⊕ (delta it b ⊕ q) =
        x.add_assoc (base it) (delta it b) q (origin it) reported p (subst P (h.1 it) (now.0 it))
          told_in got_in in
      (
        rw (h.0) refl,
        λ j.
            get-add_slot P x it j q s.slots p (now.0 it)
            ∙ rw (delta-bucket_add P x it j q r b p reported) (elim (Bool-cases (it =? j)) [
              | inl e ↦
                  rw (e, eq_of_eq it j e)
                    (rw (sym (eq_of_eq it j e)) (ap (λ (y : F). y ⊕ q) (h.1 it) ∙ exact))
              | inr e ↦ rw (e) (h.1 j)
            ]),
      )

  run-IsRecorded :
      (o : Op F) (b : Bucket F) (s : State F)
      → P (amount_of o)
      → AreIn P s
      → AreIn P (run o s)
      → IsRecorded base b s
      → (b' : Bucket F) × IsRecorded base b' (run o s)
  unfolding run add deduct add_equip_change
  run-IsRecorded (adds it q) b s p now next h = (_, add_change-IsRecorded it q _ b s p now next h)
  run-IsRecorded (deducts it q) b s p now next h =
      (_, add_change-IsRecorded it (neg q) _ b s p now next h)
  run-IsRecorded (equips it q e) b s p now next h =
      (_, add_change-IsRecorded it q _ b s p now next h)

  run_all-IsRecorded :
      (os : List (Op F)) (b : Bucket F) (s : State F)
      → AreInUntil P os s
      → IsRecorded base b s
      → (b' : Bucket F) × IsRecorded base b' (run_all os s)
  unfolding run_all
  run_all-IsRecorded [] b s i h = (b, h)
  run_all-IsRecorded (o ∷ os) b s i h =
      let (now, p, rest) = i in
      let step = run-IsRecorded o b s p now (AreIn-now P os (run o s) rest) h in
      run_all-IsRecorded os step.0 (run o s) rest step.1

module _ {F : Type 0} ⦃f : Float F⦄ where
  -- For a set of numbers whose sums in the set are not rounded: after any operations with a fresh bucket
  -- attached, if the amounts, and all quantities and reported changes on the way, are in the set, every
  -- quantity is the old one plus the change that the bucket reports.
  pub get-run_all :
      (P : F → Type 0) (x : IsExact P) (os : List (Op F)) (s : State F)
      → AreInUntil P os s
      → s.changes ≡ some []
      → (b : Bucket F) × (((run_all os s).changes ≡ some b)
          × ((it : Item) → get it (run_all os s) ≡ get it s ⊕ delta it b))
  unfolding delta qty_of lookup
  get-run_all P x os s i h =
      let now = AreIn-now P os s i in
      run_all-IsRecorded P x (λ it. get it s) now.0 os [] s i
        (h, λ it. sym (x.add_zero (get it s) (now.0 it)))
