-- ===== src/Skill/Search.antt =====
-- Go's `sort.Search` on a test that stays true from some index on.
use mathlib.Core.Bool.{false≢true}
use milkyway_liluo_idle.Prelude.{
  ◌≡◌, sym, ◌∙◌, ℕ, zero, suc, ◌+◌, ◌-◌, ◌/◌, ◌≤◌, ◌<◌, Bool, true, false, ltb, ltb→lt, arith,
  Bool-cases, inl, inr,
}
use milkyway_liluo_idle.Skill.{narrow, search_rounds, search}

-- The first index at which the test holds is in the range from `i` to `j`.
abbrev IsAround : ℕ → (ℕ → Bool) → ℕ → ℕ → Type 0
IsAround n p i j =
    (i ≤ j) × (j ≤ n) × ((m : ℕ) → m < i → p m ≡ false) × ((m : ℕ) → j ≤ m → m < n → p m ≡ true)

abbrev pub IsUpward : ℕ → (ℕ → Bool) → Type 0
IsUpward n p = (l m : ℕ) → l ≤ m → m < n → p l ≡ true → p m ≡ true

-- The index `r` is the first one at which the test holds, or `n`.
abbrev pub IsFirst : ℕ → (ℕ → Bool) → ℕ → Type 0
IsFirst n p r = IsAround n p r r

low : (n : ℕ) (p : ℕ → Bool) (h m : ℕ) → IsUpward n p → h < n → p h ≡ false → m ≤ h → p m ≡ false
low n p h m u l q k = elim (Bool-cases (p m)) [
  | inl t ↦ absurd (false≢true (sym q ∙ u m h k l t))
  | inr t ↦ t
]

search_rounds-IsFirst :
    (k n : ℕ) (p : ℕ → Bool) (i j : ℕ)
    → IsUpward n p
    → IsAround n p i j
    → j - i ≤ k
    → IsFirst n p (search_rounds k p (i, j))
unfolding search_rounds narrow
search_rounds-IsFirst zero n p i j u a d =
    (omega arith, omega (arith, a.0, a.1), a.2, λ m l. a.3 m (omega (arith, a.0, d, l)))
search_rounds-IsFirst (suc k) n p i j u a d = elim (Bool-cases (ltb i j)) [
  | inr l ↦ rw (l) (search_rounds-IsFirst k n p i j u a (ground (arith, l, a.0)))
  | inl l ↦
      (let less : i < j = ltb→lt i j l in
        let h = (i + j) / 2 in
        let inside : (i ≤ h) × (h < j) = (omega (arith, less), omega (arith, less)) in
        elim (Bool-cases (p h)) [
          | inl q ↦
              rw (l, q)
                (search_rounds-IsFirst k n p i h u
                  (inside.0, omega (arith, inside.1, a.1), a.2, λ m s t. u h m s t q)
                  (omega (arith, inside.1, d)))
          | inr q ↦
              rw (l, q)
                (search_rounds-IsFirst k n p (suc h) j u
                  (
                    inside.1,
                    a.1,
                    λ m s. low n p h m u (omega (arith, inside.1, a.1)) q (omega (arith, s)),
                    a.3,
                  )
                  (omega (arith, inside.0, d)))
        ])
]

-- `sort.Search` returns the first index at which the test holds, or `n`, if the test stays true from
-- where it first holds.
pub search-IsFirst : (n : ℕ) (p : ℕ → Bool) → IsUpward n p → IsFirst n p (search n p)
unfolding search
search-IsFirst n p u =
    search_rounds-IsFirst n n p 0 n u
      (
        omega arith,
        omega arith,
        λ m l. absurd (omega (arith, l)),
        λ m l k. absurd (omega (arith, l, k)),
      )
      (omega arith)

pub IsFirst-unique : (n : ℕ) (p : ℕ → Bool) (r s : ℕ) → IsFirst n p r → IsFirst n p s → r ≡ s
IsFirst-unique n p r s a b = elim (Bool-cases (ltb r s)) [
  | inl l ↦ absurd (
      false≢true
        (sym (b.2 r (ltb→lt r s l)) ∙ a.3 r (omega arith) (omega (arith, ltb→lt r s l, b.1))))
  | inr l ↦ elim (Bool-cases (ltb s r)) [
    | inl m ↦ absurd (
        false≢true
          (sym (a.2 s (ltb→lt s r m)) ∙ b.3 s (omega arith) (omega (arith, ltb→lt s r m, a.1))))
    | inr m ↦ ground (arith, l, m)
  ]
]
