-- ===== src/Record.antt =====
-- The recording of changes for the client (backend/internal/record): the Recorder with its stack of
-- namespaces (recorder.go), and the Registry of systems that builds a diff of them (registry.go).
-- `B` is the type of the buckets of all systems and `M` that of their messages.
pub mod Merging
pub mod Diffs
pub mod Systems
pub mod Tests
use milkyway_liluo_idle.Prelude.{
  Bool, true, false, if◌then◌else◌, Option, none, some, List, [], ◌∷◌, ◌++◌, String, Table, lookup,
  insert, string_eq, ◌⊎◌, inl, inr,
}

-- `RecordBucket`. Serialising gives a message, no message, or an error.
pub record RecordBucket (B M E : Type 0) : Type 0 where
  pub merge_in_place : B → B → B
  pub serialize_diff : B → E ⊎ Option M
  pub is_empty : B → Bool

-- `SystemProvider`, less the full snapshot
pub record SystemProvider (B : Type 0) : Type 0 where
  pub system_name : String
  pub new_bucket : B

pub record Namespace (B : Type 0) : Type 0 where
  pub name : String
  pub buckets : Table String B

pub record Registry (B : Type 0) : Type 0 where
  pub providers : Table String (SystemProvider B)
  pub order : List String

-- The head of `stack` is the current namespace, the last of the slice in Go.
pub record Recorder (B : Type 0) : Type 0 where
  pub reg : Option (Registry B)
  pub stack : List (Namespace B)
  pub completed : List (Namespace B)

module _ {B : Type 0} where
  -- `Register`; `none` is the panic on a second provider of a name.
  unfoldable pub register : SystemProvider B → Registry B → Option (Registry B)
  unfolding lookup insert
  register p r = elim (lookup p.system_name r.providers) [
    | some q ↦ none
    | none ↦ some (record {
      providers = insert p.system_name p r.providers;
      order = r.order ++ p.system_name ∷ [];
    })
  ]

  unfoldable pub register_all : List (SystemProvider B) → Registry B → Option (Registry B)
  unfolding register
  register_all [] r = some r
  register_all (p ∷ ps) r = elim (register p r) [ some r' ↦ register_all ps r' | none ↦ none ]

  -- `Providers`; a name without a provider is nil.
  unfoldable pub providers_in : List String → Registry B → List (Option (SystemProvider B))
  unfolding lookup
  providers_in [] r = []
  providers_in (name ∷ names) r = lookup name r.providers ∷ providers_in names r

  unfoldable pub push_namespace : String → Recorder B → Recorder B
  push_namespace name r = record r { stack = record { name = name; buckets = [] } ∷ r.stack }

  -- `PopNamespace`; `none` is the panic with no namespace.
  unfoldable pub pop_namespace : Recorder B → Option (Recorder B)
  pop_namespace r = elim r.stack [
    | [] ↦ none
    | ns ∷ rest ↦ some (record r { stack = rest; completed = r.completed ++ ns ∷ [] })
  ]

  -- The provider's new bucket, if there is a registry with the system.
  unfoldable pub make_bucket : String → Option (Registry B) → Option B
  unfolding lookup
  make_bucket name none = none
  make_bucket name (some reg) = elim (lookup name reg.providers) [
    | some p ↦ some p.new_bucket
    | none ↦ none
  ]

  -- `Bucket` in the current namespace: the bucket, and the namespaces with it. The reference that Go
  -- returns is the entry of the namespace.
  unfoldable pub bucket_in :
      String → Option B → Namespace B → List (Namespace B) → Option B × List (Namespace B)
  unfolding lookup insert
  bucket_in name made ns rest = elim (lookup name ns.buckets) [
    | some b ↦ (some b, ns ∷ rest)
    | none ↦ elim made [
      | some b ↦ (some b, record ns { buckets = insert name b ns.buckets } ∷ rest)
      | none ↦ (none, ns ∷ rest)
    ]
  ]

  -- `Bucket`
  unfoldable pub bucket : String → Recorder B → Option B × Recorder B
  unfolding bucket_in make_bucket
  bucket name r = elim r.stack [
    | [] ↦ (none, r)
    | ns ∷ rest ↦
        (let found = bucket_in name (make_bucket name r.reg) ns rest in
          (found.0, record r { stack = found.1 }))
  ]

  -- `PopAll`: the namespaces that are done, then the open ones from the inner to the outer.
  unfoldable pub pop_all : Recorder B → List (Namespace B) × Recorder B
  pop_all r = (r.completed ++ r.stack, record r { stack = []; completed = [] })

-- `pb.StateDiff`, each field a list of messages.
pub record StateDiff (M : Type 0) : Type 0 where
  pub inventory : List M
  pub attribute : List M
  pub skill_xp : List M
  pub bestiary : List M
  pub event_execution : List M
  pub event_queue : List M
  pub equipment : List M

abbrev pub no_diff : {M : Type 0} → StateDiff M
no_diff = record {
  inventory = [];
  attribute = [];
  skill_xp = [];
  bestiary = [];
  event_execution = [];
  event_queue = [];
  equipment = [];
}

-- `mergeStateDiff`
unfoldable pub merge_state_diff : {M : Type 0} → StateDiff M → StateDiff M → StateDiff M
merge_state_diff acc m = record {
  inventory = acc.inventory ++ m.inventory;
  attribute = acc.attribute ++ m.attribute;
  skill_xp = acc.skill_xp ++ m.skill_xp;
  bestiary = acc.bestiary ++ m.bestiary;
  event_execution = acc.event_execution ++ m.event_execution;
  event_queue = acc.event_queue ++ m.event_queue;
  equipment = acc.equipment ++ m.equipment;
}

module _ {B M E : Type 0} (ops : RecordBucket B (StateDiff M) E) where
  -- The body of the inner loop of `BuildDiff`.
  unfoldable pub merge_bucket : String → B → Table String B → Table String B
  unfolding lookup insert
  merge_bucket name b merged = if ops.is_empty b then merged else elim (lookup name merged) [
    | some existing ↦ insert name (ops.merge_in_place existing b) merged
    | none ↦ insert name b merged
  ]

  unfoldable pub merge_buckets : Table String B → Table String B → Table String B
  unfolding merge_bucket
  merge_buckets [] merged = merged
  merge_buckets ((name, b) ∷ bs) merged = merge_buckets bs (merge_bucket name b merged)

  unfoldable pub merge_namespaces : List (Namespace B) → Table String B → Table String B
  unfolding merge_buckets
  merge_namespaces [] merged = merged
  merge_namespaces (ns ∷ nss) merged = merge_namespaces nss (merge_buckets ns.buckets merged)

  -- The loop of `buildDiffProto` over the names in the order of registration.
  unfoldable pub diff_of_order : List String → Table String B → StateDiff M → E ⊎ StateDiff M
  unfolding lookup merge_state_diff
  diff_of_order [] merged acc = inr acc
  diff_of_order (name ∷ names) merged acc = elim (lookup name merged) [
    | none ↦ diff_of_order names merged acc
    | some b ↦ elim (ops.serialize_diff b) [
      | inl err ↦ inl err
      | inr none ↦ diff_of_order names merged acc
      | inr (some msg) ↦ diff_of_order names merged (merge_state_diff acc msg)
    ]
  ]

  -- `BuildDiff`, with the drained recorder.
  unfoldable pub build_diff : Registry B → Recorder B → (E ⊎ StateDiff M) × Recorder B
  unfolding pop_all merge_namespaces diff_of_order
  build_diff reg rec =
      let popped = pop_all rec in
      (diff_of_order reg.order (merge_namespaces popped.0 []) no_diff, popped.1)
