-- ===== src/Prelude/Rows.antt =====
-- Database tables with a primary key, as the state packages of a player use them: a loop over the
-- dirty keys that writes a row for each, a loop that deletes rows, and a loop that fills a Go map from
-- the rows that a query returns.
use mathlib.Core.Path.{◌≡◌, refl, ◌∙◌, ap}
use mathlib.Core.Logic.{inl, inr}
use mathlib.Core.Bool.{true}
use mathlib.Core.Option.{Option, none, some}
use mathlib.Core.List.{List, [], ◌∷◌}
use native.Mathlib.Omega.{arith}
use milkyway_liluo_idle.Prelude.Tests.{if◌then◌else◌, Bool-cases}
use milkyway_liluo_idle.Prelude.Keys.{Eq, ◌=?◌, eq_of_eq, eq_sym}
use milkyway_liluo_idle.Prelude.Tables.{Table, lookup, insert, delete, lookup-insert, lookup-delete}
use milkyway_liluo_idle.Prelude.KeySets.{member}

-- A value, or the zero value of a missing key.
unfoldable pub or_zero {ℓ} : {V : Type ℓ} → V → Option V → V
or_zero z none = z
or_zero z (some v) = v

-- The first value that is there.
unfoldable pub first_of {ℓ} : {V : Type ℓ} → Option V → Option V → Option V
first_of none o = o
first_of (some v) o = some v

first_of-none {ℓ} : {V : Type ℓ} (o : Option V) → first_of o none ≡ o
unfolding first_of
first_of-none none = refl
first_of-none (some v) = refl

module _ {ℓ} {K V : Type ℓ} ⦃e : Eq K⦄ where
  -- One upsert for each key, of the value that the state has for it.
  unfoldable pub write_rows : (K → V) → List K → Table K V → Table K V
  unfolding insert
  write_rows g [] rows = rows
  write_rows g (k ∷ ks) rows = write_rows g ks (insert k (g k) rows)

  unfoldable pub delete_rows : List K → Table K V → Table K V
  unfolding delete
  delete_rows [] rows = rows
  delete_rows (k ∷ ks) rows = delete_rows ks (delete k rows)

  -- `for _, r := range rows { m[k] = v }`
  unfoldable pub fill : Table K V → Table K V → Table K V
  unfolding insert
  fill [] m = m
  fill ((k, v) ∷ rows) m = fill rows (insert k v m)

  -- No two rows have the same key.
  unfoldable pub IsKeyed : Table K V → Type ℓ
  unfolding lookup
  IsKeyed [] = Unit
  IsKeyed ((k, v) ∷ rows) = (lookup k rows ≡ none) × IsKeyed rows

  pub lookup-write_rows :
      (g : K → V) (ks : List K) (rows : Table K V) (j : K)
      → lookup j (write_rows g ks rows) ≡ (if member j ks then some (g j) else lookup j rows)
  unfolding write_rows member
  lookup-write_rows g [] rows j = refl
  lookup-write_rows g (k ∷ ks) rows j =
      lookup-write_rows g ks (insert k (g k) rows) j
      ∙ ground (arith, lookup-insert k j (g k) rows, λ (p : (k =? j) ≡ true). ap g (eq_of_eq k j p))

  pub lookup-delete_rows :
      (ks : List K) (rows : Table K V) (j : K)
      → lookup j (delete_rows ks rows) ≡ (if member j ks then none else lookup j rows)
  unfolding delete_rows member
  lookup-delete_rows [] rows j = refl
  lookup-delete_rows (k ∷ ks) rows j =
      lookup-delete_rows ks (delete k rows) j ∙ ground (arith, lookup-delete k j rows)

  lookup_eq : (k j : K) (m : Table K V) → (k =? j) ≡ true → lookup j m ≡ lookup k m
  lookup_eq k j m p = rw (eq_of_eq k j p)

  pub lookup-fill :
      (rows m : Table K V) (j : K)
      → IsKeyed rows
      → lookup j (fill rows m) ≡ first_of (lookup j rows) (lookup j m)
  unfolding fill IsKeyed lookup first_of
  lookup-fill [] m j d = refl
  lookup-fill ((k, v) ∷ rows) m j d =
      lookup-fill rows (insert k v m) j d.1
      ∙ ground (arith, lookup-insert k j v m, λ (p : (k =? j) ≡ true). lookup_eq k j rows p ∙ d.0)

  pub insert-IsKeyed : (k : K) (v : V) (rows : Table K V) → IsKeyed rows → IsKeyed (insert k v rows)
  unfolding IsKeyed insert lookup
  insert-IsKeyed k v [] d = (refl, tt)
  insert-IsKeyed k v ((i, w) ∷ rows) d = elim (Bool-cases (i =? k)) [
    | inl p ↦ rw (p) (lookup_eq i k rows p ∙ d.0, d.1)
    | inr p ↦
        rw (p) (lookup-insert k i v rows ∙ rw (eq_sym k i, p) d.0, insert-IsKeyed k v rows d.1)
  ]

  pub delete-IsKeyed : (k : K) (rows : Table K V) → IsKeyed rows → IsKeyed (delete k rows)
  unfolding IsKeyed delete lookup
  delete-IsKeyed k [] d = d
  delete-IsKeyed k ((i, w) ∷ rows) d = elim (Bool-cases (i =? k)) [
    | inl p ↦ rw (p) (delete-IsKeyed k rows d.1)
    | inr p ↦ rw (p) (lookup-delete k i rows ∙ rw (eq_sym k i, p) d.0, delete-IsKeyed k rows d.1)
  ]

  pub write_rows-IsKeyed :
      (g : K → V) (ks : List K) (rows : Table K V) → IsKeyed rows → IsKeyed (write_rows g ks rows)
  unfolding write_rows
  write_rows-IsKeyed g [] rows d = d
  write_rows-IsKeyed g (k ∷ ks) rows d =
      write_rows-IsKeyed g ks (insert k (g k) rows) (insert-IsKeyed k (g k) rows d)

  pub delete_rows-IsKeyed :
      (ks : List K) (rows : Table K V) → IsKeyed rows → IsKeyed (delete_rows ks rows)
  unfolding delete_rows
  delete_rows-IsKeyed [] rows d = d
  delete_rows-IsKeyed (k ∷ ks) rows d =
      delete_rows-IsKeyed ks (delete k rows) (delete-IsKeyed k rows d)

  -- What a query returns is what the map then has.
  pub lookup-fill_empty :
      (rows : Table K V) (j : K) → IsKeyed rows → lookup j (fill rows []) ≡ lookup j rows
  unfolding lookup
  lookup-fill_empty rows j d = lookup-fill rows [] j d ∙ first_of-none (lookup j rows)
