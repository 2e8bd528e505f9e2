-- ===== src/Record/Tests.antt =====
-- A recorder with two systems whose buckets are lists of numbers.
use milkyway_liluo_idle.Prelude.{
  ℕ, ◌≡◌, refl, Bool, true, false, inr, some, none, List, [], ◌∷◌, ◌++◌, String, lookup, All,
  string_eq, IsKeyed,
}
use milkyway_liluo_idle.Record.{
  RecordBucket, StateDiff, no_diff, SystemProvider, Recorder, Namespace, Registry, build_diff,
}
use milkyway_liluo_idle.Record.Merging.{fold_system}
use milkyway_liluo_idle.Record.Diffs.{messages, joined, build_diff-joined}

abbrev is_nil : List ℕ → Bool
is_nil [] = true
is_nil (n ∷ ns) = false

abbrev numbers : RecordBucket (List ℕ) (StateDiff ℕ) String
numbers = record {
  merge_in_place = λ a b. a ++ b;
  serialize_diff = λ b. inr (some (record no_diff { inventory = b }));
  is_empty = is_nil;
}

abbrev system : String → SystemProvider (List ℕ)
system name = record { system_name = name; new_bucket = [] }

abbrev outer : Namespace (List ℕ)
outer = record { name = "tick"; buckets = ("inventory", 1 ∷ []) ∷ ("skill_xp", []) ∷ [] }

abbrev inner : Namespace (List ℕ)
inner = record { name = "event"; buckets = ("skill_xp", 2 ∷ []) ∷ ("inventory", 3 ∷ []) ∷ [] }

-- One namespace is done and one is open.
abbrev recorder : Recorder (List ℕ)
recorder = record {
  reg =
      some
        (record { providers = ("inventory", system "inventory") ∷ []; order = "inventory" ∷ [] });
  stack = outer ∷ [];
  completed = inner ∷ [];
}

abbrev registry : Registry (List ℕ)
registry = record {
  providers = ("inventory", system "inventory") ∷ ("skill_xp", system "skill_xp") ∷ [];
  order = "inventory" ∷ "skill_xp" ∷ [];
}

both-IsKeyed : All (λ ns. IsKeyed ns.buckets) (inner ∷ outer ∷ [])
unfolding IsKeyed lookup
both-IsKeyed = ((refl, (refl, tt)), ((refl, (refl, tt)), tt))

build_diff-joined_example :
    (build_diff numbers registry recorder).0
      ≡ joined no_diff (
          messages numbers
            (λ name. fold_system numbers name (recorder.completed ++ recorder.stack) none)
            registry.order)
    × ((build_diff numbers registry recorder).1 ≡ record recorder { stack = []; completed = [] })
build_diff-joined_example = build_diff-joined numbers registry recorder both-IsKeyed
