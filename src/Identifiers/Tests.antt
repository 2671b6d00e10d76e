-- ===== src/Identifiers/Tests.antt =====
-- fantoch/src/id.rs, fantoch/src/util.rs: the theorems at sample sizes.
use fantoch.Prelude.{ℕ, ◌≡◌, map, range_from, All, arith}
use fantoch.Identifiers.{ProcessId, ShardId, new_gen, process_ids, all_process_ids}
use fantoch.Identifiers.Generation.{next_ids, next_ids_lem}
use fantoch.Identifiers.Shards.{
  TargetsShard, process_ids-TargetsShard, all_process_ids-TargetsShard,
}

next_ids_example :
    next_ids 3 (new_gen {S = ℕ} 10)
    ≡ map (λ i. record { source = 10; sequence = i }) (range_from 1 3)
next_ids_example = next_ids_lem 10 3 (omega arith)

process_ids_example : All (TargetsShard 5 1) (process_ids 1 5)
process_ids_example = process_ids-TargetsShard 1 5 (omega arith)

all_process_ids_example :
    All (λ (q : ProcessId × ShardId). TargetsShard 3 q.1 q.0) (all_process_ids 2 3)
all_process_ids_example = all_process_ids-TargetsShard 2 3 (omega arith)
