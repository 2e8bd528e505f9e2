-- ===== src/Prelude/Lists.antt =====
-- Lists measured and indexed by native numbers, under the library's names.
use Prim.Native.Nat.{ℕ, zero, suc, ◌+◌, ◌-◌, ◌≤◌, ◌<◌, min}
use mathlib.Core.Path.{◌≡◌, refl, ap}
use mathlib.Core.Bool.{Bool, true, false}
use mathlib.Core.List.{List, [], ◌∷◌, ◌++◌, map}
use mathlib.Core.Option
use mathlib.Core.Option.{Option, none, some}
use native.Mathlib.Omega.{arith}
use milkyway_liluo_idle.Prelude.Tests.{if◌then◌else◌}

module _ {ℓ} {A : Type ℓ} where
  abbrev pub length : List A → ℕ
  length [] = 0
  length (x ∷ xs) = suc (length xs)

  abbrev pub get_elem? : List A → ℕ → Option A
  get_elem? [] i = none
  get_elem? (x ∷ xs) zero = some x
  get_elem? (x ∷ xs) (suc i) = get_elem? xs i

  abbrev pub take : ℕ → List A → List A
  take zero xs = []
  take (suc n) [] = []
  take (suc n) (x ∷ xs) = x ∷ take n xs

  abbrev pub drop : ℕ → List A → List A
  drop zero xs = xs
  drop (suc n) [] = []
  drop (suc n) (x ∷ xs) = drop n xs

  -- The elements that pass a Boolean test, in order.
  abbrev pub filter : (A → Bool) → List A → List A
  filter p [] = []
  filter p (x ∷ xs) = let rest = filter p xs in if p x then x ∷ rest else rest

  pub length-append : (xs ys : List A) → length (xs ++ ys) ≡ length xs + length ys
  length-append [] ys = omega arith
  length-append (x ∷ xs) ys = omega (arith, length-append xs ys)

  pub take-append-drop : (n : ℕ) (xs : List A) → take n xs ++ drop n xs ≡ xs
  take-append-drop zero xs = refl
  take-append-drop (suc n) [] = refl
  take-append-drop (suc n) (x ∷ xs) = ap (◌∷◌ x) (take-append-drop n xs)

  pub length-take : (n : ℕ) (xs : List A) → length (take n xs) ≡ min n (length xs)
  length-take zero xs = omega arith
  length-take (suc n) [] = omega arith
  length-take (suc n) (x ∷ xs) = omega (arith, length-take n xs)

  pub length-drop : (n : ℕ) (xs : List A) → length (drop n xs) ≡ length xs - n
  length-drop zero xs = omega arith
  length-drop (suc n) [] = omega arith
  length-drop (suc n) (x ∷ xs) = omega (arith, length-drop n xs)

  pub length-filter-le : (p : A → Bool) (xs : List A) → length (filter p xs) ≤ length xs
  length-filter-le p [] = omega arith
  length-filter-le p (x ∷ xs) = ground (arith, length-filter-le p xs)

  -- What an insertion at an index leaves before, at and after it.
  pub take-insert :
      (n : ℕ) (x : A) (xs : List A)
      → n ≤ length xs
      → take n (take n xs ++ x ∷ drop n xs) ≡ take n xs
  take-insert zero x xs h = refl
  take-insert (suc n) x [] h = absurd (omega arith)
  take-insert (suc n) x (y ∷ ys) h = ap (◌∷◌ y) (take-insert n x ys (omega arith))

  pub drop-insert :
      (n : ℕ) (x : A) (xs : List A)
      → n ≤ length xs
      → drop (suc n) (take n xs ++ x ∷ drop n xs) ≡ drop n xs
  drop-insert zero x xs h = refl
  drop-insert (suc n) x [] h = absurd (omega arith)
  drop-insert (suc n) x (y ∷ ys) h = drop-insert n x ys (omega arith)

  pub get_elem?-insert :
      (n : ℕ) (x : A) (xs : List A)
      → n ≤ length xs
      → get_elem? (take n xs ++ x ∷ drop n xs) n ≡ some x
  get_elem?-insert zero x xs h = refl
  get_elem?-insert (suc n) x [] h = absurd (omega arith)
  get_elem?-insert (suc n) x (y ∷ ys) h = get_elem?-insert n x ys (omega arith)

  -- An index in range splits the list at its element.
  pub split_at :
      (n : ℕ) (xs : List A)
      → n < length xs
      → (x : A) × (get_elem? xs n ≡ some x) × (take n xs ++ x ∷ drop (suc n) xs ≡ xs)
  split_at n [] h = absurd (omega arith)
  split_at zero (x ∷ xs) h = (x, refl, refl)
  split_at (suc n) (x ∷ xs) h =
      let (y, found, whole) = split_at n xs (omega arith) in (y, found, ap (◌∷◌ x) whole)

-- A statement for every element, which computes to a tuple.
abbrev pub All {ℓ κ} : {A : Type ℓ} → (A → Type κ) → List A → Type κ
All P [] = Unit
All P (x ∷ xs) = P x × All P xs

pub length-map {ℓ κ} :
    {A : Type ℓ} {B : Type κ} (f : A → B) (xs : List A) → length (map f xs) ≡ length xs
length-map f [] = refl
length-map f (x ∷ xs) = ap suc (length-map f xs)

-- `if` with the same result on both sides.
pub if_same {ℓ} : {A : Type ℓ} (b : Bool) (x : A) → (if b then x else x) ≡ x
if_same true x = refl
if_same false x = refl

-- `map` and the cuts of a list.
module _ {ℓ κ} {A : Type ℓ} {B : Type κ} (f : A → B) where
  pub map-take : (n : ℕ) (xs : List A) → map f (take n xs) ≡ take n (map f xs)
  map-take zero xs = refl
  map-take (suc n) [] = refl
  map-take (suc n) (x ∷ xs) = ap (◌∷◌ (f x)) (map-take n xs)

  pub map-drop : (n : ℕ) (xs : List A) → map f (drop n xs) ≡ drop n (map f xs)
  map-drop zero xs = refl
  map-drop (suc n) [] = refl
  map-drop (suc n) (x ∷ xs) = map-drop n xs

  pub get_elem?-map : (xs : List A) (n : ℕ) → get_elem? (map f xs) n ≡ Option.map f (get_elem? xs n)
  get_elem?-map [] n = refl
  get_elem?-map (x ∷ xs) zero = refl
  get_elem?-map (x ∷ xs) (suc n) = get_elem?-map xs n

module _ {ℓ} {A : Type ℓ} where
  pub take_all : (n : ℕ) (xs : List A) → length xs ≤ n → take n xs ≡ xs
  take_all zero [] h = refl
  take_all zero (x ∷ xs) h = absurd (omega arith)
  take_all (suc n) [] h = refl
  take_all (suc n) (x ∷ xs) h = ap (◌∷◌ x) (take_all n xs (omega arith))

  pub drop_all : (n : ℕ) (xs : List A) → length xs ≤ n → drop n xs ≡ []
  drop_all zero [] h = refl
  drop_all zero (x ∷ xs) h = absurd (omega arith)
  drop_all (suc n) [] h = refl
  drop_all (suc n) (x ∷ xs) h = drop_all n xs (omega arith)

  -- What lies at an index is there exactly when the index is in range.
  pub get_elem?-none : (xs : List A) (n : ℕ) → length xs ≤ n → get_elem? xs n ≡ none
  get_elem?-none [] n h = refl
  get_elem?-none (x ∷ xs) zero h = absurd (omega arith)
  get_elem?-none (x ∷ xs) (suc n) h = get_elem?-none xs n (omega arith)

  -- To take an element out and to put it back at the same index changes nothing.
  pub reinsert :
      (n : ℕ) (x : A) (xs : List A)
      → get_elem? xs n ≡ some x
      → let rest = take n xs ++ drop (suc n) xs in take n rest ++ x ∷ drop n rest ≡ xs
  reinsert n x [] h = cc
  reinsert zero x (y ∷ ys) h = ground arith
  reinsert (suc n) x (y ∷ ys) h = ap (◌∷◌ y) (reinsert n x ys h)

  pub filter-append :
      (p : A → Bool) (xs ys : List A) → filter p (xs ++ ys) ≡ filter p xs ++ filter p ys
  filter-append p [] ys = refl
  filter-append p (x ∷ xs) ys = ground (arith, filter-append p xs ys)

pub All-get_elem? {ℓ κ} :
    {A : Type ℓ} (P : A → Type κ) (xs : List A) (n : ℕ)
    → n < length xs
    → All P xs
    → (x : A) × ((get_elem? xs n ≡ some x) × P x)
All-get_elem? P [] n h a = absurd (omega (arith, h))
All-get_elem? P (x ∷ xs) zero h a = (x, (refl, a.0))
All-get_elem? P (x ∷ xs) (suc n) h a = All-get_elem? P xs n (omega (arith, h)) a.1

pub drop-cons {ℓ} :
    {A : Type ℓ} (n : ℕ) (x : A) (xs ys : List A)
    → drop n xs ≡ x ∷ ys
    → (get_elem? xs n ≡ some x) × (drop (suc n) xs ≡ ys)
drop-cons zero x [] ys h = absurd (cc h)
drop-cons zero x (z ∷ xs) ys h = (cc h, cc h)
drop-cons (suc n) x [] ys h = absurd (cc h)
drop-cons (suc n) x (z ∷ xs) ys h = drop-cons n x xs ys h

pub drop-nil {ℓ} : {A : Type ℓ} (n : ℕ) (xs : List A) → drop n xs ≡ [] → length xs ≤ n
drop-nil zero [] h = omega arith
drop-nil zero (x ∷ xs) h = absurd (cc h)
drop-nil (suc n) [] h = omega arith
drop-nil (suc n) (x ∷ xs) h = omega (arith, drop-nil n xs h)

pub get_elem?-some {ℓ} :
    {A : Type ℓ} (xs : List A) (n : ℕ) (x : A) → get_elem? xs n ≡ some x → n < length xs
get_elem?-some [] n x h = absurd (cc h)
get_elem?-some (y ∷ xs) zero x h = omega arith
get_elem?-some (y ∷ xs) (suc n) x h = omega (arith, get_elem?-some xs n x h)
