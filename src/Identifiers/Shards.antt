-- ===== src/Identifiers/Shards.antt =====
-- fantoch/src/id.rs, fantoch/src/util.rs: processes and the shards they belong to.
use fantoch.Prelude.{
  ℕ, zero, suc, ◌+◌, ◌-◌, ◌*◌, ◌/◌, ◌%◌, ◌≤◌, ◌<◌, ◌≡◌, List, [], ◌∷◌, map, done, All, All-append,
  range_from, range_inclusive, add64, mul64, arith,
}
use fantoch.Identifiers.{
  ProcessId, ShardId, target_shard, process_ids, shard_process_ids, all_process_ids,
}

-- The dot has a source of shard `s`.
abbrev pub TargetsShard : ℕ → ShardId → ProcessId → Type 0
TargetsShard n s p =
    (sequence : ℕ) → target_shard n (record { source = p; sequence = sequence }) ≡ done s

-- A position in a shard's range of identifiers falls back on that shard.
div_of_shift : (n s i : ℕ) → i < n → (i + n * s) / n ≡ s
div_of_shift n s i h = grind arith

position :
    (n s i : ℕ)
    → 1 ≤ i
    → i ≤ n
    → n * s + n ≤ 255
    → (add64 i (mul64 n s) % 256 + 256 - 1) % 256 ≡ (i - 1) + n * s
unfolding add64 mul64
position n s i lo hi small = omega arith

target_shard_shift :
    (n s i : ℕ) → 1 ≤ i → i ≤ n → n * s + n ≤ 255 → TargetsShard n s (add64 i (mul64 n s) % 256)
unfolding target_shard
target_shard_shift n s i lo hi small sequence =
    rw (position n s i lo hi small) (ground (arith, div_of_shift n s (i - 1) (omega arith)))

ids-TargetsShard :
    (n s start count : ℕ)
    → 1 ≤ start
    → start + count ≤ n + 1
    → n * s + n ≤ 255
    → All (TargetsShard n s) (map (λ i. add64 i (mul64 n s) % 256) (range_from start count))
ids-TargetsShard n s start zero lo hi small = tt
ids-TargetsShard n s start (suc count) lo hi small = (
  target_shard_shift n s start lo (omega arith) small,
  ids-TargetsShard n s (suc start) count (omega arith) (omega arith) small,
)

-- Every process identifier that a shard is given leads back to that shard, while the identifiers
-- fit in a `u8`.
pub process_ids-TargetsShard :
    (s n : ℕ) → n * s + n ≤ 255 → All (TargetsShard n s) (process_ids s n)
unfolding process_ids range_inclusive
process_ids-TargetsShard s n small =
    ids-TargetsShard n s 1 (suc n - 1) (omega arith) (omega arith) small

tag-TargetsShard :
    (n s : ℕ) (ps : List ProcessId)
    → All (TargetsShard n s) ps
    → All (λ (q : ProcessId × ShardId). TargetsShard n q.1 q.0) (map (λ p. (p, s)) ps)
tag-TargetsShard n s [] h = tt
tag-TargetsShard n s (p ∷ ps) h = (h.0, tag-TargetsShard n s ps h.1)

shards-TargetsShard :
    (s count n : ℕ)
    → n * (s + count) ≤ 255
    → All (λ (q : ProcessId × ShardId). TargetsShard n q.1 q.0) (shard_process_ids s count n)
unfolding shard_process_ids
shards-TargetsShard s zero n small = tt
shards-TargetsShard s (suc count) n small =
    All-append _ (map (λ p. (p, s)) (process_ids s n)) (shard_process_ids (suc s) count n)
      (tag-TargetsShard n s (process_ids s n) (process_ids-TargetsShard s n (grind arith)))
      (shards-TargetsShard (suc s) count n (grind arith))

-- `all_process_ids` pairs every identifier with the shard that `target_shard` computes for it,
-- while `n` times the number of shards is at most 255.
pub all_process_ids-TargetsShard :
    (shard_count n : ℕ)
    → n * shard_count ≤ 255
    → All (λ (q : ProcessId × ShardId). TargetsShard n q.1 q.0) (all_process_ids shard_count n)
unfolding all_process_ids
all_process_ids-TargetsShard shard_count n small = shards-TargetsShard 0 shard_count n (grind arith)
