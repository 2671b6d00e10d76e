-- ===== src/QuorumClocks.antt =====
-- fantoch_ps/src/protocol/common/table/clocks/quorum.rs: the clocks that a fast quorum reports. A
-- release build has no `debug_assert!`.
pub mod Maximum
mod Tests
use fantoch.Prelude.{
  ℕ, Bool, List, [], ◌∷◌, ◌==◌, u64_partial_eq, if◌then◌else◌, ltb, length, add64,
}
use fantoch.Prelude.Sets.{add}
use fantoch.Identifiers.{ProcessId}

pub record QuorumClocks : Type 0 where
  pub fast_quorum_size : ℕ
  pub participants : List ProcessId
  pub max_clock : ℕ
  pub max_clock_count : ℕ

unfoldable pub new : ℕ → QuorumClocks
new fast_quorum_size = record {
  fast_quorum_size = fast_quorum_size;
  participants = [];
  max_clock = 0;
  max_clock_count = 0;
}

unfoldable pub maybe_adjust_fast_quorum_size : ℕ → QuorumClocks → QuorumClocks
maybe_adjust_fast_quorum_size fast_quorum_size q = record q { fast_quorum_size = fast_quorum_size }

-- `QuorumClocks::add`, with what it returns.
unfoldable pub add_clock : ProcessId → ℕ → QuorumClocks → QuorumClocks × (ℕ × ℕ)
add_clock process_id clock q =
    let participants = add process_id q.participants in
    if ltb q.max_clock clock
    then (
      record q { participants = participants; max_clock = clock; max_clock_count = 1 },
      (clock, 1),
    )
    else (if q.max_clock == clock
        then (
          record q { participants = participants; max_clock_count = add64 q.max_clock_count 1 },
          (q.max_clock, add64 q.max_clock_count 1),
        )
        else (record q { participants = participants }, (q.max_clock, q.max_clock_count)))

-- `QuorumClocks::all`
unfoldable pub all_clocks : QuorumClocks → Bool
all_clocks q = length q.participants == q.fast_quorum_size
