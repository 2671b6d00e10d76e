-- ===== src/Commands.antt =====
-- fantoch/src/command.rs: commands, the operations that they hold for each key of each shard, and
-- their execution. `ExecutorResult` is that of fantoch/src/executor/mod.rs. An `Arc` is its content.
use fantoch.Prelude.{
  ℕ, Bool, true, ◌&&◌, none, some, List, [], ◌∷◌, if◌then◌else◌, ◌==◌, u64_partial_eq,
  string_partial_eq, length, Outcome, done, panic, add64,
}
use fantoch.Prelude.Maps.{Map, get, insert, keys, contains_key}
use fantoch.Identifiers.{ShardId, Rifl}
use fantoch.Kvs.{Key, KvOp, read, KvOpResult, KvStore, all_reads}
use fantoch.Kvs

pub record Command : Type 0 where
  pub rifl : Rifl
  pub shard_to_ops : Map ShardId (Map Key (List KvOp))
  pub shard_to_keys : Map ShardId (List Key)

-- A shard gets an entry with its first key.
unfoldable pub keys_by_shard : Map ShardId (Map Key (List KvOp)) → Map ShardId (List Key)
keys_by_shard [] = []
keys_by_shard ((shard_id, []) ∷ shards) = keys_by_shard shards
keys_by_shard ((shard_id, entry ∷ ops) ∷ shards) =
    (shard_id, keys (entry ∷ ops)) ∷ keys_by_shard shards

unfoldable pub new : Rifl → Map ShardId (Map Key (List KvOp)) → Command
unfolding keys_by_shard
new rifl shard_to_ops = record {
  rifl = rifl;
  shard_to_ops = shard_to_ops;
  shard_to_keys = keys_by_shard shard_to_ops;
}

-- `HashMap::from_iter`: of several operations on a key, the last one stays.
unfoldable pub collect : List (Key × KvOp) → Map Key (List KvOp) → Map Key (List KvOp)
collect [] ops = ops
collect ((key, op) ∷ more) ops = collect more (insert key (op ∷ []) ops)

abbrev pub default_shard_id : ShardId
default_shard_id = 0

-- `Command::from`
unfoldable pub from_ops : Rifl → List (Key × KvOp) → Command
unfolding new collect
from_ops rifl iter = new rifl ((default_shard_id, collect iter []) ∷ [])

abbrev pub shard_reads : Map Key (List KvOp) → Bool
shard_reads [] = true
shard_reads ((key, ops) ∷ more) = all_reads ops && shard_reads more

abbrev pub shards_read : Map ShardId (Map Key (List KvOp)) → Bool
shards_read [] = true
shards_read ((shard_id, shard_ops) ∷ more) = shard_reads shard_ops && shards_read more

unfoldable pub read_only : Command → Bool
unfolding all_reads
read_only c = shards_read c.shard_to_ops

abbrev pub sum_lengths : Map ShardId (Map Key (List KvOp)) → ℕ
sum_lengths [] = 0
sum_lengths ((shard_id, shard_ops) ∷ more) = add64 (length shard_ops) (sum_lengths more)

unfoldable pub total_key_count : Command → ℕ
unfolding add64
total_key_count c = sum_lengths c.shard_to_ops

unfoldable pub nfr_allowed : Command → Bool
unfolding read_only total_key_count
nfr_allowed c = read_only c && total_key_count c == 1

unfoldable pub replicated_by : ShardId → Command → Bool
replicated_by shard_id c = contains_key shard_id c.shard_to_ops

unfoldable pub key_count : ShardId → Command → ℕ
key_count shard_id c = elim (get shard_id c.shard_to_ops) [
  | none ↦ 0
  | some shard_ops ↦ length shard_ops
]

-- `Command::iter` and `Command::into_iter`
unfoldable pub iter : ShardId → Command → Map Key (List KvOp)
iter shard_id c = elim (get shard_id c.shard_to_ops) [ none ↦ [] | some shard_ops ↦ shard_ops ]

-- `Command::keys`
unfoldable pub command_keys : ShardId → Command → List Key
unfolding iter
command_keys shard_id c = keys (iter shard_id c)

unfoldable pub shard_count : Command → ℕ
shard_count c = length c.shard_to_ops

pub record ExecutorResult : Type 0 where
  pub rifl : Rifl
  pub key : Key
  pub partial_results : List KvOpResult

unfoldable pub execute_entries :
    Rifl → Map Key (List KvOp) → KvStore → KvStore × List ExecutorResult
execute_entries rifl [] store = (store, [])
execute_entries rifl ((key, ops) ∷ entries) store =
    let (store', partial_results) = Kvs.execute key ops rifl store in
    let (last, results) = execute_entries rifl entries store' in
    (last, record { rifl = rifl; key = key; partial_results = partial_results } ∷ results)

unfoldable pub execute : ShardId → Command → KvStore → KvStore × List ExecutorResult
unfolding execute_entries iter
execute shard_id c store = execute_entries c.rifl (iter shard_id c) store

-- `CommandResultBuilder`
pub record CommandResultBuilder : Type 0 where
  pub rifl : Rifl
  pub key_count : ℕ
  pub results : Map Key (List KvOpResult)

unfoldable pub new_builder : Rifl → ℕ → CommandResultBuilder
new_builder rifl count = record { rifl = rifl; key_count = count; results = [] }

unfoldable pub add_partial :
    Key → List KvOpResult → CommandResultBuilder → Outcome CommandResultBuilder
add_partial key partial_results b =
    if contains_key key b.results
    then panic
    else done (record b { results = insert key partial_results b.results })

unfoldable pub ready : CommandResultBuilder → Bool
ready b = length b.results == b.key_count
