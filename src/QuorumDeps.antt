-- ===== src/QuorumDeps.antt =====
-- fantoch_ps/src/protocol/common/graph/deps/quorum.rs: the dependencies that a fast quorum reports,
-- over any type of dependency with an equality. A release build has no `debug_assert!`.
pub mod Reports
mod Tests
use fantoch.Prelude.{
  ℕ, zero, suc, Bool, true, false, ◌&&◌, Option, none, some, List, [], ◌∷◌, PartialEq, ◌==◌,
  u64_partial_eq, if◌then◌else◌, leb, length, add64,
}
use fantoch.Prelude.Maps.{Map, get, insert, keys, values}
use fantoch.Prelude.Sets.{add}
use fantoch.Identifiers.{ProcessId}

pub record QuorumDeps (D : Type 0) : Type 0 where
  pub fast_quorum_size : ℕ
  pub participants : List ProcessId
  pub threshold_deps : Map D ℕ

unfoldable pub new : {D : Type 0} → ℕ → QuorumDeps D
new fast_quorum_size = record {
  fast_quorum_size = fast_quorum_size;
  participants = [];
  threshold_deps = [];
}

unfoldable pub maybe_adjust_fast_quorum_size : {D : Type 0} → ℕ → QuorumDeps D → QuorumDeps D
maybe_adjust_fast_quorum_size fast_quorum_size q = record q { fast_quorum_size = fast_quorum_size }

-- `QuorumDeps::all`
unfoldable pub all_deps : {D : Type 0} → QuorumDeps D → Bool
all_deps q = length q.participants == q.fast_quorum_size

-- `equal_to_union`
unfoldable pub meet_threshold : {D : Type 0} → ℕ → Map D ℕ → Bool
meet_threshold threshold [] = true
meet_threshold threshold ((dep, count) ∷ counts) =
    leb threshold count && meet_threshold threshold counts

unfoldable pub check_threshold : {D : Type 0} → ℕ → QuorumDeps D → List D × Bool
unfolding meet_threshold
check_threshold threshold q = (keys q.threshold_deps, meet_threshold threshold q.threshold_deps)

abbrev pub to_set : List ℕ → List ℕ
to_set [] = []
to_set (count ∷ counts) = add count (to_set counts)

-- `equal_deps_reported`: there is no count, or a single one, that of the whole fast quorum.
unfoldable pub single_count : ℕ → List ℕ → Bool
single_count fast_quorum_size [] = true
single_count fast_quorum_size (count ∷ []) = count == fast_quorum_size
single_count fast_quorum_size (count ∷ other ∷ counts) = false

unfoldable pub check_equal : {D : Type 0} → QuorumDeps D → List D × Bool
unfolding single_count add
check_equal q =
    (keys q.threshold_deps, single_count q.fast_quorum_size (to_set (values q.threshold_deps)))

module _ {D : Type 0} ⦃eq : PartialEq D⦄ where
  abbrev pub reported : D → Map D ℕ → ℕ
  reported dep counts = elim (get dep counts) [ none ↦ 0 | some count ↦ count ]

  unfoldable pub count_deps : List D → Map D ℕ → Map D ℕ
  unfolding add64
  count_deps [] counts = counts
  count_deps (dep ∷ deps) counts =
      count_deps deps (insert dep (add64 (reported dep counts) 1) counts)

  -- `QuorumDeps::add`
  unfoldable pub add_deps : ProcessId → List D → QuorumDeps D → QuorumDeps D
  unfolding count_deps
  add_deps process_id deps q = record q {
    participants = add process_id q.participants;
    threshold_deps = count_deps deps q.threshold_deps;
  }
