-- ===== src/Identifiers.antt =====
-- fantoch/src/id.rs and the process identifiers of fantoch/src/util.rs. A process identifier is a
-- `u8`, a client or shard identifier a `u64`.
pub mod Shards
pub mod Generation
mod Tests
use fantoch.Prelude.{
  ℕ, zero, suc, ◌+◌, ◌-◌, ◌/◌, ◌%◌, List, [], ◌∷◌, ◌++◌, map, Outcome, done, panic, ◌==◌,
  u64_partial_eq, if◌then◌else◌, range_from, range_inclusive, add64, mul64,
}

abbrev pub ProcessId : Type 0
ProcessId = ℕ

abbrev pub ShardId : Type 0
ShardId = ℕ

-- `Id<S>`
pub record Identifier (S : Type 0) : Type 0 where
  pub source : S
  pub sequence : ℕ

abbrev pub Dot : Type 0
Dot = Identifier ProcessId

-- `Id<ClientId>`
abbrev pub Rifl : Type 0
Rifl = Identifier ℕ

pub record IdGen (S : Type 0) : Type 0 where
  pub source : S
  pub last_sequence : ℕ

module _ {S : Type 0} where
  -- `IdGen::new`
  unfoldable pub new_gen : S → IdGen S
  new_gen s = record { source = s; last_sequence = 0 }

  unfoldable pub next_id : IdGen S → IdGen S × Identifier S
  next_id g =
      let sequence = add64 g.last_sequence 1 in
      (record g { last_sequence = sequence }, record { source = g.source; sequence = sequence })

-- `AtomicIdGen::next_id`: the counter is shared between threads, and `fetch_add` is one step of it.
unfoldable pub atomic_next_id : {S : Type 0} → S → ℕ → ℕ × Identifier S
atomic_next_id s previous = (add64 previous 1, record { source = s; sequence = add64 previous 1 })

-- `Dot::target_shard`: the `u8` subtraction wraps around at 0, and a division by 0 panics.
unfoldable pub target_shard : ℕ → Dot → Outcome ShardId
target_shard n d = if n == 0 then panic else done ((d.source + 256 - 1) % 256 / n)

-- The cast to `u8` keeps the low byte.
unfoldable pub process_ids : ShardId → ℕ → List ProcessId
process_ids shard_id n = map (λ i. add64 i (mul64 n shard_id) % 256) (range_inclusive 1 n)

-- The pairs of a process identifier and its shard, for the shards from `shard_id` on.
unfoldable pub shard_process_ids : (shard_id count n : ℕ) → List (ProcessId × ShardId)
shard_process_ids shard_id zero n = []
shard_process_ids shard_id (suc count) n =
    map (λ p. (p, shard_id)) (process_ids shard_id n) ++ shard_process_ids (suc shard_id) count n

unfoldable pub all_process_ids : (shard_count n : ℕ) → List (ProcessId × ShardId)
unfolding shard_process_ids
all_process_ids shard_count n = shard_process_ids 0 shard_count n

-- `util::dots`
unfoldable pub dots : List (ProcessId × ℕ × ℕ) → List Dot
dots [] = []
dots ((p, start, end) ∷ repr) =
    map (λ event. record { source = p; sequence = event }) (range_inclusive start end) ++ dots repr
