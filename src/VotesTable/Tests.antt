-- ===== src/VotesTable/Tests.antt =====
-- The theorems on stable clocks and on the order of stable commands at three processes, with votes
-- that come in order as the clock.
use fantoch.Prelude.{
  ℕ, ◌≤◌, ◌≡◌, ◌↔◌, refl, List, [], ◌∷◌, ◌++◌, done, ◌>>=◌, All, add64, mul64, range_inclusive,
  arith, u64_partial_eq,
}
use fantoch.Prelude.Maps.{values}
use fantoch.Identifiers.{Dot, process_ids}
use fantoch.Kvs.{read}
use fantoch.Votes.{VoteRange}
use fantoch.VotesTable.{Pending, Ops, VotesTable, new_table, stable_clock, contains_op, insert_op}
use fantoch.VotesTable.InOrder.{Frontiers, add_range, in_order, laws}
use fantoch.VotesTable.Stability.{reaching, stable_clock_iff}
use fantoch.VotesTable.Sorting.{IsSorted}
use fantoch.VotesTable.Order.{
  Event, attached, detached, IsStable, IsWaiting, run_events, attached_ops, voted,
  run_events_in_order,
}

abbrev dot_of : (source sequence : ℕ) → Dot
dot_of source sequence = record { source = source; sequence = sequence }

abbrev pending_of : ℕ → Pending
pending_of client = record {
  rifl = record { source = client; sequence = 1 };
  shard_to_keys = (0, "k" ∷ []) ∷ [];
  shard_key_count = 1;
  missing_stable_shards = 1;
  ops = read ∷ [];
}

abbrev vote : (by start end : ℕ) → VoteRange
vote by start end = record { by = by; start = start; end = end }

-- The command at clock 2 arrives after that at clock 3, and is executed before it.
abbrev events : List Event
events =
    attached (dot_of 1 1) 1 (pending_of 10) (vote 1 1 1 ∷ vote 2 1 1 ∷ [])
    ∷ attached (dot_of 2 1) 3 (pending_of 20) (vote 2 2 3 ∷ [])
    ∷ attached (dot_of 3 1) 2 (pending_of 30) (vote 3 1 1 ∷ [])
    ∷ detached (vote 3 2 2 ∷ [])
    ∷ detached (vote 1 2 3 ∷ [])
    ∷ []

run_events_in_order_example :
    (t : VotesTable Frontiers) × (returned : Ops) × (run_events ⦃ar = in_order⦄ events
        (new_table ⦃ar = in_order⦄ "k" 1 0 3 2)
      ≡ done (t, values returned))
    × (returned ++ t.ops ≡ attached_ops events [])
    × IsSorted (attached_ops events [])
    × All (IsStable ⦃ar = in_order⦄ 2 t.votes_clock) returned
    × All (IsWaiting ⦃ar = in_order⦄ 2 t.votes_clock) t.ops
unfolding voted reaching contains_op insert_op process_ids add_range range_inclusive add64 mul64
run_events_in_order_example =
    run_events_in_order ⦃ar = in_order⦄ laws "k" 1 0 3 2 events (omega arith) (omega arith) refl (
      (
        refl,
        omega arith,
        omega arith,
        omega arith,
        (refl, refl, (refl, refl, tt)),
        omega arith,
        (
          refl,
          omega arith,
          omega arith,
          omega arith,
          (refl, refl, tt),
          omega arith,
          (
            refl,
            omega arith,
            omega arith,
            omega arith,
            (refl, refl, tt),
            omega arith,
            ((refl, refl, tt), omega arith, ((refl, refl, tt), omega arith, tt)),
          ),
        ),
      ))

-- Both commands that wait are returned in the order of their clocks.
executed :
    (run_events ⦃ar = in_order⦄ events (new_table ⦃ar = in_order⦄ "k" 1 0 3 2)
      >>= λ (r : VotesTable Frontiers × List Pending). done r.1)
    ≡ done (pending_of 10 ∷ pending_of 30 ∷ pending_of 20 ∷ [])
unfolding run_events new_table process_ids add_range range_inclusive add64 mul64
executed = refl

abbrev table : VotesTable Frontiers
table = record {
  key = "k";
  process_id = 1;
  n = 3;
  stability_threshold = 2;
  votes_clock = (1, 7) ∷ (2, 3) ∷ (3, 5) ∷ [];
  ops = [];
}

stable_clock_iff_example :
    (stable : ℕ) × (stable_clock ⦃ar = in_order⦄ table ≡ done stable)
    × ((clock : ℕ) → (clock ≤ stable) ↔ (2 ≤ reaching clock (7 ∷ 3 ∷ 5 ∷ [])))
stable_clock_iff_example = stable_clock_iff ⦃ar = in_order⦄ table refl (omega arith) (omega arith)
