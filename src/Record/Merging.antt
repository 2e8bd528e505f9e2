-- ===== src/Record/Merging.antt =====
-- How `BuildDiff` (backend/internal/record/registry.go) merges the buckets of each system.
use milkyway_liluo_idle.Prelude.{
  ◌≡◌, refl, sym, ◌∙◌, ap, true, inl, inr, if◌then◌else◌, Option, none, some, List, [], ◌∷◌, String,
  Table, lookup, string_eq, ◌=?◌, arith, Bool-cases, Option-cases, lookup-insert, IsKeyed, All,
  eq_of_eq,
}
use milkyway_liluo_idle.Record.{
  RecordBucket, StateDiff, Namespace, merge_bucket, merge_buckets, merge_namespaces,
}

module _ {B M E : Type 0} (ops : RecordBucket B (StateDiff M) E) where
  -- Folds a bucket into what has been merged of its system.
  abbrev pub fold_in : B → Option B → Option B
  fold_in b none = if ops.is_empty b then none else some b
  fold_in b (some a) = if ops.is_empty b then some a else some (ops.merge_in_place a b)

  -- Folds the bucket of a namespace, if it has one.
  abbrev pub fold_bucket : Option B → Option B → Option B
  fold_bucket none acc = acc
  fold_bucket (some b) acc = fold_in b acc

  -- The buckets of one system, in the order of the namespaces.
  unfoldable pub fold_system : String → List (Namespace B) → Option B → Option B
  unfolding lookup
  fold_system name [] acc = acc
  fold_system name (ns ∷ nss) acc = fold_system name nss (fold_bucket (lookup name ns.buckets) acc)

  lookup-merge_bucket :
      (name j : String) (b : B) (merged : Table String B)
      → lookup j (merge_bucket ops name b merged)
        ≡ (if name =? j then fold_in b (lookup j merged) else lookup j merged)
  unfolding merge_bucket
  lookup-merge_bucket name j b merged =
      let equal : (name =? j) ≡ true → lookup j merged ≡ lookup name merged =
        λ p. sym (ap (λ (i : String). lookup i merged) (eq_of_eq name j p)) in
      elim (Option-cases (lookup name merged)) [
        | inl p ↦ rw (merge_bucket, p) (ground (arith, lookup-insert name j b merged, p, equal))
        | inr (a, p) ↦
            rw (merge_bucket, p)
              (ground (arith, lookup-insert name j (ops.merge_in_place a b) merged, p, equal))
      ]

  lookup-merge_buckets :
      (name : String) (bs merged : Table String B)
      → IsKeyed bs
      → lookup name (merge_buckets ops bs merged)
        ≡ fold_bucket (lookup name bs) (lookup name merged)
  unfolding merge_buckets IsKeyed lookup
  lookup-merge_buckets name [] merged k = refl
  lookup-merge_buckets name ((j, b) ∷ bs) merged k =
      lookup-merge_buckets name bs (merge_bucket ops j b merged) k.1
      ∙ rw (lookup-merge_bucket j name b merged) (elim (Bool-cases (j =? name)) [
        | inl p ↦ rw (p) (rw (sym (eq_of_eq j name p), k.0) refl)
        | inr p ↦ rw (p) refl
      ])

  -- If every namespace has at most one bucket of each system, the merged bucket of a system is that of
  -- its non-empty buckets, folded by MergeInPlace in the order in which their namespaces were closed.
  pub lookup-merge_namespaces :
      (name : String) (nss : List (Namespace B)) (merged : Table String B)
      → All (λ ns. IsKeyed ns.buckets) nss
      → lookup name (merge_namespaces ops nss merged) ≡ fold_system name nss (lookup name merged)
  unfolding merge_namespaces fold_system
  lookup-merge_namespaces name [] merged k = refl
  lookup-merge_namespaces name (ns ∷ nss) merged k =
      lookup-merge_namespaces name nss (merge_buckets ops ns.buckets merged) k.1
      ∙ ap (fold_system name nss) (lookup-merge_buckets name ns.buckets merged k.0)
