-- ===== src/VotesTable.antt =====
-- fantoch_ps/src/executor/table/mod.rs: the votes seen on each key, and which commands they make
-- stable. The votes are held by the `ARClock` of the external `threshold` crate, an interface here.
pub mod Stability
pub mod Sorting
pub mod Order
pub mod InOrder
mod Tests
use fantoch.Prelude.{
  ℕ, zero, suc, ◌-◌, Bool, true, false, ◌||◌, Option, none, some, List, [], ◌∷◌, map, Outcome, done,
  panic, assert, ◌>>=◌, ◌>>◌, if◌then◌else◌, ◌==◌, u64_partial_eq, string_partial_eq, ltb, leb,
  length, add64, sub64,
}
use fantoch.Prelude.Maps.{Map, get, insert, values}
use fantoch.Identifiers.{ProcessId, ShardId, Dot, Rifl, process_ids}
use fantoch.Kvs.{Key, KvOp}
use fantoch.Votes.{VoteRange}

-- The operations of `ARClock<ProcessId>` that the code calls: `add_range` also returns whether
-- there was a new vote, and `iter` lists each process with the `frontier` of its set.
pub record RangeClock (C : Type 0) : Type 0 where
  pub with_ids : List ProcessId → C
  pub add_range : ProcessId → (start end : ℕ) → C → C × Bool
  pub size : C → ℕ
  pub iter : C → List (ProcessId × ℕ)

-- `Pending` of fantoch_ps/src/executor/table/executor.rs.
pub record Pending : Type 0 where
  pub rifl : Rifl
  pub shard_to_keys : Map ShardId (List Key)
  pub shard_key_count : ℕ
  pub missing_stable_shards : ℕ
  pub ops : List KvOp

-- `Pending::new`
unfoldable pub new_pending : ShardId → Rifl → Map ShardId (List Key) → List KvOp → Outcome Pending
new_pending shard_id rifl shard_to_keys ops = elim (get shard_id shard_to_keys) [
  | none ↦ panic
  | some keys ↦ done (record {
    rifl = rifl;
    shard_to_keys = shard_to_keys;
    shard_key_count = length keys;
    missing_stable_shards = length shard_to_keys;
    ops = ops;
  })
]

unfoldable pub single_key_command : Pending → Bool
single_key_command p = if p.missing_stable_shards == 1 then p.shard_key_count == 1 else false

pub record SortId : Type 0 where
  pub clock : ℕ
  pub dot : Dot

-- `<` on `SortId`, and so on `Dot`: lexicographic.
unfoldable pub before : SortId → SortId → Bool
before a b =
    if ltb a.clock b.clock
    then true
    else if ltb b.clock a.clock
    then false
    else if ltb a.dot.source b.dot.source
    then true
    else if ltb b.dot.source a.dot.source
    then false
    else ltb a.dot.sequence b.dot.sequence

-- `BTreeMap`: entries in increasing order.
abbrev pub Ops : Type 0
Ops = List (SortId × Pending)

unfoldable pub insert_op : SortId → Pending → Ops → Ops
unfolding before
insert_op id pending [] = (id, pending) ∷ []
insert_op id pending (op ∷ ops) =
    let rest = op ∷ insert_op id pending ops in
    if before id op.0
    then (id, pending) ∷ op ∷ ops
    else if before op.0 id
    then rest
    else (id, pending) ∷ ops

unfoldable pub contains_op : SortId → Ops → Bool
unfolding before
contains_op id [] = false
contains_op id (op ∷ ops) =
    let rest = contains_op id ops in
    if before id op.0 then rest else if before op.0 id then rest else true

-- `BTreeMap::split_off`: the entries before the identifier, and those from it on.
unfoldable pub split_off : SortId → Ops → Ops × Ops
unfolding before
split_off id [] = ([], [])
split_off id (op ∷ ops) =
    let (low, high) = split_off id ops in
    if before op.0 id then (op ∷ low, high) else (low, op ∷ high)

-- `sort_unstable` on numbers.
unfoldable pub insert_number : ℕ → List ℕ → List ℕ
insert_number n [] = n ∷ []
insert_number n (m ∷ ms) = let rest = m ∷ insert_number n ms in if leb n m then n ∷ m ∷ ms else rest

unfoldable pub sort : List ℕ → List ℕ
unfolding insert_number
sort [] = []
sort (n ∷ ns) = insert_number n (sort ns)

unfoldable pub nth : ℕ → List ℕ → Option ℕ
nth n [] = none
nth zero (m ∷ ms) = some m
nth (suc n) (m ∷ ms) = nth n ms

-- `frontiers_buffer` is emptied before each use and is no field here.
pub record VotesTable (C : Type 0) : Type 0 where
  pub key : Key
  pub process_id : ProcessId
  pub n : ℕ
  pub stability_threshold : ℕ
  pub votes_clock : C
  pub ops : Ops

module _ {C : Type 0} ⦃ar : RangeClock C⦄ where
  unfoldable pub new_table : Key → ProcessId → ShardId → (n stability_threshold : ℕ) → VotesTable C
  unfolding process_ids
  new_table key process_id shard_id n stability_threshold = record {
    key = key;
    process_id = process_id;
    n = n;
    stability_threshold = stability_threshold;
    votes_clock = ar.with_ids (process_ids shard_id n);
    ops = [];
  }

  -- The loop of `add_detached_votes`.
  unfoldable pub add_ranges : ℕ → List VoteRange → C → Outcome C
  add_ranges n [] clock = done clock
  add_ranges n (vote ∷ votes) clock =
      let (added, new_vote) = ar.add_range vote.by vote.start vote.end clock in
      assert new_vote >> (assert (ar.size added == n) >> add_ranges n votes added)

  unfoldable pub add_detached_votes : List VoteRange → VotesTable C → Outcome (VotesTable C)
  unfolding add_ranges
  add_detached_votes votes t = add_ranges t.n votes t.votes_clock >>= λ votes_clock.
      done (record t { votes_clock = votes_clock })

  unfoldable pub add_attached_votes :
      Dot → ℕ → Pending → List VoteRange → VotesTable C → Outcome (VotesTable C)
  unfolding add_detached_votes insert_op contains_op
  add_attached_votes dot clock pending votes t =
      let sort_id : SortId = record { clock = clock; dot = dot } in
      (if contains_op sort_id t.ops then panic else done tt)
      >> add_detached_votes votes (record t { ops = insert_op sort_id pending t.ops })

  unfoldable pub stable_clock : VotesTable C → Outcome ℕ
  unfolding sort nth
  stable_clock t =
      let clock_size = ar.size t.votes_clock in
      if leb t.stability_threshold clock_size
      then elim (nth (clock_size - t.stability_threshold) (sort (values (ar.iter t.votes_clock)))) [
        | none ↦ panic
        | some frontier ↦ done frontier
      ]
      else panic

  unfoldable pub stable_ops : VotesTable C → Outcome (VotesTable C × List Pending)
  unfolding stable_clock split_off
  stable_ops t = stable_clock t >>= λ stable.
      let next_stable : SortId = record {
        clock = add64 stable 1;
        dot = record { source = 1; sequence = 1 };
      } in
      let (low, high) = split_off next_stable t.ops in done (record t { ops = high }, values low)

pub record MultiVotesTable (C : Type 0) : Type 0 where
  pub process_id : ProcessId
  pub shard_id : ShardId
  pub n : ℕ
  pub stability_threshold : ℕ
  pub tables : Map Key (VotesTable C)

-- `MultiVotesTable::new`
unfoldable pub new_tables :
    {C : Type 0} → ProcessId → ShardId → (n stability_threshold : ℕ) → MultiVotesTable C
new_tables process_id shard_id n stability_threshold = record {
  process_id = process_id;
  shard_id = shard_id;
  n = n;
  stability_threshold = stability_threshold;
  tables = [];
}

module _ {C : Type 0} ⦃ar : RangeClock C⦄ where
  unfoldable pub table_at : Key → MultiVotesTable C → VotesTable C
  unfolding new_table
  table_at key m = elim (get key m.tables) [
    | none ↦ new_table key m.process_id m.shard_id m.n m.stability_threshold
    | some table ↦ table
  ]

  unfoldable pub update_table :
      Key
      → (VotesTable C → Outcome (VotesTable C × List Pending))
      → MultiVotesTable C
      → Outcome (MultiVotesTable C × List Pending)
  unfolding table_at
  update_table key update m = update (table_at key m) >>= λ (r : VotesTable C × List Pending).
      done (record m { tables = insert key r.0 m.tables }, r.1)

  -- `MultiVotesTable::add_attached_votes`
  unfoldable pub attach_at :
      Dot
      → ℕ
      → Key
      → Pending
      → List VoteRange
      → MultiVotesTable C
      → Outcome (MultiVotesTable C × List Pending)
  unfolding update_table add_attached_votes stable_ops
  attach_at dot clock key pending votes m =
      update_table key (λ table. add_attached_votes dot clock pending votes table >>= stable_ops) m

  -- `MultiVotesTable::add_detached_votes`
  unfoldable pub detach_at :
      Key → List VoteRange → MultiVotesTable C → Outcome (MultiVotesTable C × List Pending)
  unfolding update_table add_detached_votes stable_ops
  detach_at key votes m =
      update_table key (λ table. add_detached_votes votes table >>= stable_ops) m
