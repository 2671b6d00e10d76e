-- ===== src/KeyClocks.antt =====
-- fantoch_ps/src/protocol/common/table/clocks/keys/sequential.rs: the clocks that Tempo keeps for
-- each key, and the votes cast when they are bumped.
pub mod Casting
mod Tests
use fantoch.Prelude.{
  ℕ, max, Bool, true, false, ◌&&◌, Option, none, some, List, [], ◌∷◌, Outcome, done, panic, ◌>>=◌,
  if◌then◌else◌, string_partial_eq, ltb, add64,
}
use fantoch.Prelude.Maps.{Map, get, insert, contains_key, keys}
use fantoch.Identifiers.{ProcessId, ShardId}
use fantoch.Kvs.{Key}
use fantoch.Commands.{Command, nfr_allowed, command_keys}
use fantoch.Votes.{Votes, VoteRange, new_range, add_vote}

pub record SequentialKeyClocks : Type 0 where
  pub process_id : ProcessId
  pub shard_id : ShardId
  pub nfr : Bool
  pub clocks : Map Key ℕ

unfoldable pub new : ProcessId → ShardId → Bool → SequentialKeyClocks
new process_id shard_id nfr = record {
  process_id = process_id;
  shard_id = shard_id;
  nfr = nfr;
  clocks = [];
}

unfoldable pub init_keys : List Key → Map Key ℕ → Map Key ℕ
init_keys [] clocks = clocks
init_keys (key ∷ keys) clocks =
    init_keys keys (if contains_key key clocks then clocks else insert key 0 clocks)

unfoldable pub init_clocks : Command → SequentialKeyClocks → SequentialKeyClocks
unfolding init_keys command_keys
init_clocks cmd c = record c { clocks = init_keys (command_keys c.shard_id cmd) c.clocks }

-- The clock of a key, and 0 when it has none.
abbrev pub clock_at : Key → Map Key ℕ → ℕ
clock_at key clocks = elim (get key clocks) [ none ↦ 0 | some current ↦ current ]

unfoldable pub maybe_bump : ProcessId → Key → (current up_to : ℕ) → Votes → Outcome (ℕ × Votes)
maybe_bump id key current up_to votes =
    if ltb current up_to
    then (new_range id (add64 current 1) up_to >>= λ vr.
        add_vote key vr votes >>= λ votes. done (up_to, votes))
    else done (current, votes)

-- The loop of `detached`.
unfoldable pub bump_keys :
    ProcessId → List Key → ℕ → Map Key ℕ → Votes → Outcome (Map Key ℕ × Votes)
unfolding maybe_bump
bump_keys id [] up_to clocks votes = done (clocks, votes)
bump_keys id (key ∷ keys) up_to clocks votes =
    maybe_bump id key (clock_at key clocks) up_to votes >>= λ bumped.
    bump_keys id keys up_to (insert key bumped.0 clocks) bumped.1

unfoldable pub detached :
    Command → ℕ → Votes → SequentialKeyClocks → Outcome (SequentialKeyClocks × Votes)
unfolding bump_keys command_keys
detached cmd up_to votes c =
    bump_keys c.process_id (command_keys c.shard_id cmd) up_to c.clocks votes >>= λ bumped.
    done (record c { clocks = bumped.0 }, bumped.1)

unfoldable pub detached_all :
    ℕ → Votes → SequentialKeyClocks → Outcome (SequentialKeyClocks × Votes)
unfolding bump_keys
detached_all up_to votes c =
    bump_keys c.process_id (keys c.clocks) up_to c.clocks votes >>= λ bumped.
    done (record c { clocks = bumped.0 }, bumped.1)

-- The maximum of the clocks of those keys that have one.
unfoldable pub latest : List Key → Map Key ℕ → Option ℕ
latest [] clocks = none
latest (key ∷ keys) clocks =
    let rest = latest keys clocks in
    elim (get key clocks) [
      | none ↦ rest
      | some current ↦ elim rest [ none ↦ some current | some other ↦ some (max current other) ]
    ]

-- `SequentialKeyClocks::clock`
unfoldable pub clock : Command → SequentialKeyClocks → ℕ
unfolding latest command_keys
clock cmd c = elim (latest (command_keys c.shard_id cmd) c.clocks) [
  | none ↦ 0
  | some current ↦ current
]

unfoldable pub next_clock : Command → SequentialKeyClocks → ℕ
unfolding clock nfr_allowed
next_clock cmd c = if c.nfr && nfr_allowed cmd then clock cmd c else add64 (clock cmd c) 1

unfoldable pub proposal :
    Command → ℕ → SequentialKeyClocks → Outcome (SequentialKeyClocks × (ℕ × Votes))
unfolding detached next_clock
proposal cmd min_clock c =
    let proposed = max min_clock (next_clock cmd c) in
    detached cmd proposed [] c >>= λ result. done (result.0, (proposed, result.1))
