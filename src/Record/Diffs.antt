-- ===== src/Record/Diffs.antt =====
-- What `BuildDiff` (backend/internal/record/registry.go) sends.
use mathlib.Core.List.{append-nil, append_assoc}
use milkyway_liluo_idle.Prelude.{
  ◌≡◌, refl, sym, ◌∙◌, ap, inl, inr, Option, none, some, List, [], ◌∷◌, ◌++◌, String, Table, lookup,
  string_eq, Option-cases, IsKeyed, All, ◌⊎◌,
}
use milkyway_liluo_idle.Record.{
  RecordBucket, StateDiff, no_diff, Registry, Recorder, merge_state_diff, merge_namespaces,
  diff_of_order, pop_all, build_diff,
}
use milkyway_liluo_idle.Record.Merging.{fold_system, lookup-merge_namespaces}

module _ {M : Type 0} where
  -- A field of all messages, one after another.
  abbrev pub all_of : (StateDiff M → List M) → List (StateDiff M) → List M
  all_of field [] = []
  all_of field (d ∷ ds) = field d ++ all_of field ds

  -- A diff with messages behind it, field by field.
  abbrev pub followed_by : StateDiff M → List (StateDiff M) → StateDiff M
  followed_by acc ds = record {
    inventory = acc.inventory ++ all_of (λ d. d.inventory) ds;
    attribute = acc.attribute ++ all_of (λ d. d.attribute) ds;
    skill_xp = acc.skill_xp ++ all_of (λ d. d.skill_xp) ds;
    bestiary = acc.bestiary ++ all_of (λ d. d.bestiary) ds;
    event_execution = acc.event_execution ++ all_of (λ d. d.event_execution) ds;
    event_queue = acc.event_queue ++ all_of (λ d. d.event_queue) ds;
    equipment = acc.equipment ++ all_of (λ d. d.equipment) ds;
  }

  followed_by-nothing : (acc : StateDiff M) → followed_by acc [] ≡ acc
  followed_by-nothing acc i = record {
    inventory = append-nil acc.inventory i;
    attribute = append-nil acc.attribute i;
    skill_xp = append-nil acc.skill_xp i;
    bestiary = append-nil acc.bestiary i;
    event_execution = append-nil acc.event_execution i;
    event_queue = append-nil acc.event_queue i;
    equipment = append-nil acc.equipment i;
  }

  followed_by-merge_state_diff :
      (acc d : StateDiff M) (ds : List (StateDiff M))
      → followed_by (merge_state_diff acc d) ds ≡ followed_by acc (d ∷ ds)
  unfolding merge_state_diff
  followed_by-merge_state_diff acc d ds i = record {
    inventory = append_assoc acc.inventory d.inventory (all_of (λ x. x.inventory) ds) i;
    attribute = append_assoc acc.attribute d.attribute (all_of (λ x. x.attribute) ds) i;
    skill_xp = append_assoc acc.skill_xp d.skill_xp (all_of (λ x. x.skill_xp) ds) i;
    bestiary = append_assoc acc.bestiary d.bestiary (all_of (λ x. x.bestiary) ds) i;
    event_execution =
        append_assoc acc.event_execution d.event_execution (all_of (λ x. x.event_execution) ds) i;
    event_queue = append_assoc acc.event_queue d.event_queue (all_of (λ x. x.event_queue) ds) i;
    equipment = append_assoc acc.equipment d.equipment (all_of (λ x. x.equipment) ds) i;
  }

module _ {M E : Type 0} where
  -- A message, if there is one, before others.
  abbrev before : E ⊎ Option (StateDiff M) → E ⊎ List (StateDiff M) → E ⊎ List (StateDiff M)
  before (inl err) rest = inl err
  before (inr none) rest = rest
  before (inr (some d)) (inl err) = inl err
  before (inr (some d)) (inr ds) = inr (d ∷ ds)

  -- The diff of the messages, if there was no error.
  abbrev pub joined : StateDiff M → E ⊎ List (StateDiff M) → E ⊎ StateDiff M
  joined acc (inl err) = inl err
  joined acc (inr ds) = inr (followed_by acc ds)

  joined-before :
      (acc d : StateDiff M) (r : E ⊎ List (StateDiff M))
      → joined (merge_state_diff acc d) r ≡ joined acc (before (inr (some d)) r)
  joined-before acc d (inl err) = refl
  joined-before acc d (inr ds) = ap inr (followed_by-merge_state_diff acc d ds)

module _ {B M E : Type 0} (ops : RecordBucket B (StateDiff M) E) where
  -- The messages of the systems that have a bucket, in their order, or the first error.
  abbrev pub messages : (String → Option B) → List String → E ⊎ List (StateDiff M)
  messages bucket_of [] = inr []
  messages bucket_of (name ∷ names) =
      let rest = messages bucket_of names in
      elim (bucket_of name) [ none ↦ rest | some b ↦ before (ops.serialize_diff b) rest ]

  diff_of_order-serialized :
      (name : String) (names : List String) (merged : Table String B) (acc : StateDiff M) (b : B)
      (r : E ⊎ Option (StateDiff M))
      → lookup name merged ≡ some b
      → ops.serialize_diff b ≡ r
      → ((next : StateDiff M)
          → diff_of_order ops names merged next
            ≡ joined next (messages (λ name. lookup name merged) names))
      → diff_of_order ops (name ∷ names) merged acc
        ≡ joined acc (before r (messages (λ name. lookup name merged) names))
  unfolding diff_of_order
  diff_of_order-serialized name names merged acc b (inl err) p e rest =
      let q : diff_of_order ops (name ∷ names) merged acc ≡ inl err =
        rw (diff_of_order, p, e) refl in
      q
  diff_of_order-serialized name names merged acc b (inr none) p e rest =
      let q : diff_of_order ops (name ∷ names) merged acc ≡ diff_of_order ops names merged acc =
        rw (diff_of_order, p, e) refl in
      q ∙ rest acc
  diff_of_order-serialized name names merged acc b (inr (some d)) p e rest =
      let next = merge_state_diff acc d in
      let q : diff_of_order ops (name ∷ names) merged acc ≡ diff_of_order ops names merged next =
        rw (diff_of_order, p, e) refl in
      q ∙ rest next ∙ joined-before acc d _

  diff_of_order-joined :
      (names : List String) (merged : Table String B) (acc : StateDiff M)
      → diff_of_order ops names merged acc
        ≡ joined acc (messages (λ name. lookup name merged) names)
  unfolding diff_of_order
  diff_of_order-joined [] merged acc = ap inr (sym (followed_by-nothing acc))
  diff_of_order-joined (name ∷ names) merged acc = elim (Option-cases (lookup name merged)) [
    | inl p ↦
        (let q : diff_of_order ops (name ∷ names) merged acc ≡ diff_of_order ops names merged acc =
            rw (diff_of_order, p) refl in
          q ∙ diff_of_order-joined names merged acc ∙ rw (messages, p) refl)
    | inr (b, p) ↦
        diff_of_order-serialized name names merged acc b (ops.serialize_diff b) p refl
          (λ next. diff_of_order-joined names merged next)
        ∙ rw (messages, p) refl
  ]

  -- If every namespace has at most one bucket of each system, BuildDiff drains the recorder, and it
  -- serialises, in the order of registration, for each system its non-empty buckets folded by
  -- MergeInPlace, those of the completed namespaces first in the order in which they were closed and
  -- then those of the open ones from the inner to the outer: its diff has in each field the messages
  -- of the systems that have one, and if a system fails to serialise, the first error is the result.
  pub build_diff-joined :
      (reg : Registry B) (rec : Recorder B)
      → All (λ ns. IsKeyed ns.buckets) (rec.completed ++ rec.stack)
      → (build_diff ops reg rec).0
          ≡ joined no_diff
              (messages (λ name. fold_system ops name (rec.completed ++ rec.stack) none) reg.order)
        × ((build_diff ops reg rec).1 ≡ record rec { stack = []; completed = [] })
  unfolding build_diff pop_all lookup
  build_diff-joined reg rec keyed =
      let nss = rec.completed ++ rec.stack in
      (
        diff_of_order-joined reg.order (merge_namespaces ops nss []) no_diff ∙ (λ i.
            joined no_diff
              (messages (λ name. lookup-merge_namespaces ops name nss [] keyed i) reg.order)),
        refl,
      )
