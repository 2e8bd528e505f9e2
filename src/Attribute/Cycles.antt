-- ===== src/Attribute/Cycles.antt =====
-- The detection of cycles (backend/internal/attribute/registry.go, checkCycles).

use milkyway_liluo_idle.Prelude.{
  ℕ, zero, suc, ◌+◌, ◌≡◌, refl, sym, ◌∙◌, if◌then◌else◌, Option, none, some, List, [], ◌∷◌, ℤ,
  insert, lookup-insert, or_zero, All, ◌=?◌, int_eq, eq_of_eq, eq_refl, subst, Bool-cases, inl, inr,
  arith, ◌⊎◌, ◌≢◌,
}
use milkyway_liluo_idle.Attribute.Building.{
  Color, white, gray, black, Colors, color_of, visit_all, dfs, search_all,
}

pub color_of-insert :
    (id x : ℤ) (c : Color) (st : Colors)
    → color_of (insert id c st) x ≡ (if id =? x then c else color_of st x)
unfolding color_of or_zero
color_of-insert id x c st = ground (arith, lookup-insert id x c st)

All-imp : (P Q : ℤ → Type 0) (xs : List ℤ) → ((x : ℤ) → P x → Q x) → All P xs → All Q xs
All-imp P Q [] g h = tt
All-imp P Q (x ∷ xs) g h = (g x h.0, All-imp P Q xs g h.1)

suc-add : (k n : ℕ) → suc k + n ≡ suc (k + n)
suc-add k n = omega arith

add_comm : (m n : ℕ) → m + n ≡ n + m
add_comm m n = omega arith

zero-add : {n : ℕ} → 0 + n ≡ n
zero-add = omega arith

pub Color-cases : (c : Color) → (c ≡ white) ⊎ ((c ≡ gray) ⊎ (c ≡ black))
Color-cases white = inl refl
Color-cases gray = inr (inl refl)
Color-cases black = inr (inr refl)

pub black-ne-gray : black ≢ gray
black-ne-gray h = cc

gray-ne-black : gray ≢ black
gray-ne-black h = cc

-- What a search may give: no fuel, a cycle, or new colours.
Search-cases :
    (o : Option (Option (List ℤ) × Colors))
    → (o ≡ none)
      ⊎ (((c : List ℤ) × (st : Colors) × (o ≡ some (some c, st)))
          ⊎ ((st : Colors) × (o ≡ some (none, st))))
Search-cases none = inl refl
Search-cases (some (some c, st)) = inr (inl (c, st, refl))
Search-cases (some (none, st)) = inr (inr (st, refl))

module _ (deps : ℤ → List ℤ) where
  -- No chain of dependencies from an attribute is as long as the number.
  abbrev pub IsShort : ℕ → ℤ → Type 0
  IsShort zero id = ⊥
  IsShort (suc n) id = All (IsShort n) (deps id)

  IsShort-suc : (n : ℕ) (id : ℤ) → IsShort n id → IsShort (suc n) id
  IsShort-suc zero id h = absurd h
  IsShort-suc (suc n) id h = All-imp (IsShort n) (IsShort (suc n)) (deps id) (IsShort-suc n) h

  IsShort-add : (k n : ℕ) (id : ℤ) → IsShort n id → IsShort (k + n) id
  IsShort-add zero n id h = rw zero-add h
  IsShort-add (suc k) n id h = rw (suc-add k n) (IsShort-suc (k + n) id (IsShort-add k n id h))

  -- Chains of dependencies from an attribute end.
  abbrev pub Ends : ℤ → Type 0
  Ends id = (n : ℕ) × IsShort n id

  common : (ids : List ℤ) → All Ends ids → (n : ℕ) × All (IsShort n) ids
  common [] h = (0, tt)
  common (x ∷ xs) h =
      let (m, first) = h.0 in
      let (n, rest) = common xs h.1 in
      (
        n + m,
        (
          IsShort-add n m x first,
          All-imp (IsShort n) (IsShort (n + m)) xs (λ y e. rw (add_comm n m) (IsShort-add m n y e))
              rest,
        ),
      )

  Ends-deps : (id : ℤ) → All Ends (deps id) → Ends id
  Ends-deps id h = let (n, e) = common (deps id) h in (suc n, e)

  -- What is black has been searched: the chains from it end.
  abbrev IsSafe : Colors → Type 0
  IsSafe st = (x : ℤ) → color_of st x ≡ black → Ends x

  -- Black stays, and gray is what was gray.
  abbrev Follows : Colors → Colors → Type 0
  Follows st st' =
      (x : ℤ)
      → (color_of st x ≡ black → color_of st' x ≡ black)
        × (color_of st' x ≡ gray → color_of st x ≡ gray)

  abbrev AreBlack : Colors → List ℤ → Type 0
  AreBlack st ids = All (λ y. color_of st y ≡ black) ids

  abbrev Clears : (ℤ → Colors → Option (Option (List ℤ) × Colors)) → Type 0
  Clears visit =
      (id : ℤ) (st st' : Colors)
      → color_of st id ≡ white
      → IsSafe st
      → visit id st ≡ some (none, st')
      → IsSafe st' × Follows st st' × (color_of st' id ≡ black)

  visit_all-Clears :
      (visit : ℤ → Colors → Option (Option (List ℤ) × Colors))
      → Clears visit
      → (id : ℤ) (ids : List ℤ) (st st' : Colors) → IsSafe st
      → visit_all visit id ids st ≡ some (none, st')
      → IsSafe st' × Follows st st' × AreBlack st' ids
  unfolding visit_all
  visit_all-Clears visit clears id [] st st' safe h =
      let e : st ≡ st' = cc in
      (
        subst IsSafe e safe,
        (λ x. (
          subst (λ (t : Colors). color_of t x ≡ black) e,
          subst (λ (t : Colors). color_of t x ≡ gray) (sym e),
        )),
        tt,
      )
  visit_all-Clears visit clears id (dep ∷ ids) st st' safe h =
      elim (Color-cases (color_of st dep)) [
        | inl w ↦ elim (Search-cases (visit dep st)) [
          | inl e ↦ (let k = rw (w, visit_all, e) at h in cc)
          | inr (inl (c, t, e)) ↦ (let k = rw (w, visit_all, e) at h in cc)
          | inr (inr (t, e)) ↦
              (let (safe1, keeps1, is) = clears dep st t w safe e in
                let (safe2, keeps2, are) =
                  visit_all-Clears visit clears id ids t st' safe1 (rw (w, visit_all, e) at h) in
                (
                  safe2,
                  (λ x.
                      ((λ k. (keeps2 x).0 ((keeps1 x).0 k)), (λ k. (keeps1 x).1 ((keeps2 x).1 k)))),
                  ((keeps2 dep).0 is, are),
                ))
        ]
        | inr (inl g) ↦ (let k = rw (g, visit_all) at h in cc)
        | inr (inr k) ↦
            (let (safe2, keeps2, are) =
                visit_all-Clears visit clears id ids st st' safe (rw (k, visit_all) at h) in
              (safe2, keeps2, ((keeps2 dep).0 k, are)))
      ]

  gray-IsSafe :
      (id : ℤ) (st : Colors) → color_of st id ≡ white → IsSafe st → IsSafe (insert id gray st)
  gray-IsSafe id st w safe x k = elim (Bool-cases (id =? x)) [
    | inl e ↦ absurd (gray-ne-black (sym (color_of-insert id x gray st ∙ rw (e) refl) ∙ k))
    | inr e ↦ safe x (sym (color_of-insert id x gray st ∙ rw (e) refl) ∙ k)
  ]

  -- From the start of a search of an attribute to its end.
  through :
      (id : ℤ) (st t : Colors)
      → color_of st id ≡ white
      → Follows (insert id gray st) t
      → Follows st (insert id black t)
  through id st t w follows x = elim (Bool-cases (id =? x)) [
    | inl e ↦ (
      (λ k. color_of-insert id x black t ∙ rw (e) refl),
      (λ k.
          let c = sym (color_of-insert id x black t ∙ rw (e) refl) ∙ k in absurd (black-ne-gray c)),
    )
    | inr e ↦ (
      (λ k.
          color_of-insert id x black t
          ∙ rw (e) ((follows x).0 (color_of-insert id x gray st ∙ rw (e) k))),
      (λ k.
          sym (color_of-insert id x gray st ∙ rw (e) refl)
          ∙ (follows x).1 (sym (color_of-insert id x black t ∙ rw (e) refl) ∙ k)),
    )
  ]

  black-IsSafe : (id : ℤ) (st : Colors) → IsSafe st → Ends id → IsSafe (insert id black st)
  black-IsSafe id st safe ends x k = elim (Bool-cases (id =? x)) [
    | inl e ↦ subst Ends (eq_of_eq id x e) ends
    | inr e ↦ safe x (sym (color_of-insert id x black st ∙ rw (e) refl) ∙ k)
  ]

  dfs-Clears : (n : ℕ) → Clears (dfs n deps)
  unfolding dfs
  dfs-Clears zero id st st' w safe h = cc
  dfs-Clears (suc n) id st st' w safe h =
      elim (Search-cases (visit_all (dfs n deps) id (deps id) (insert id gray st))) [
        | inl e ↦ (let k = rw (e, dfs) at h in cc)
        | inr (inl (c, t, e)) ↦ (let k = rw (e, dfs) at h in cc)
        | inr (inr (t, e)) ↦
            (let (safe', keeps, are) =
                visit_all-Clears (dfs n deps) (dfs-Clears n) id (deps id) (insert id gray st) t
                  (gray-IsSafe id st w safe) e in
              let ends =
                Ends-deps id (All-imp (λ y. color_of t y ≡ black) Ends (deps id) safe' are) in
              let k = rw (e, dfs) at h in
              let same : insert id black t ≡ st' = cc in
              subst (λ (u : Colors). IsSafe u × Follows st u × (color_of u id ≡ black)) same
                (
                  black-IsSafe id t safe' ends,
                  through id st t w keeps,
                  color_of-insert id id black t ∙ rw (eq_refl id) refl,
                ))
      ]

  search_all-Ends :
      (n : ℕ) (ids : List ℤ) (st : Colors)
      → IsSafe st
      → ((x : ℤ) → color_of st x ≢ gray)
      → search_all n deps ids st ≡ some none
      → All Ends ids
  unfolding search_all
  search_all-Ends n [] st safe fresh h = tt
  search_all-Ends n (id ∷ ids) st safe fresh h = elim (Color-cases (color_of st id)) [
    | inl w ↦ elim (Search-cases (dfs n deps id st)) [
      | inl e ↦ (let k = rw (w, search_all, e) at h in cc)
      | inr (inl (c, t, e)) ↦ (let k = rw (w, search_all, e) at h in cc)
      | inr (inr (t, e)) ↦
          (let (safe', keeps, is) = dfs-Clears n id st t w safe e in
            (
              safe' id is,
              search_all-Ends n ids t safe' (λ x g. fresh x ((keeps x).1 g))
                  (rw (w, search_all, e) at h),
            ))
    ]
    | inr (inl g) ↦ absurd (fresh id g)
    | inr (inr k) ↦ (safe id k, search_all-Ends n ids st safe fresh (rw (k, search_all) at h))
  ]

  -- If the search from some attributes ends and finds no cycle, the chains of dependencies from each
  -- of them end.
  pub search_all-nil-Ends :
      (n : ℕ) (ids : List ℤ) → search_all n deps ids [] ≡ some none → All Ends ids
  unfolding color_of or_zero
  search_all-nil-Ends n ids h = search_all-Ends n ids [] (λ x k. cc) (λ x k. cc) h
