-- ===== src/KeyDeps.antt =====
-- fantoch_ps/src/protocol/common/graph/deps/keys/mod.rs and sequential.rs: the latest commands on
-- each key, from which EPaxos and Atlas compute the dependencies of a new command.
pub mod Loop
pub mod Conflicts
mod Tests
use fantoch.Prelude.{
  ℕ, Bool, true, false, not, ◌&&◌, Option, none, some, List, [], ◌∷◌, Outcome, done, panic, assert,
  ◌>>=◌, ◌>>◌, PartialEq, ◌==◌, u64_partial_eq, string_partial_eq, if◌then◌else◌, ltb,
}
use fantoch.Prelude.Maps.{Map, get, insert, keys, values}
use fantoch.Prelude.Sets.{add}
use fantoch.Prelude.Discreteness.{discrete_partial_eq}
use native.Mathlib.Decide.{ℕ_discrete}
use fantoch.Identifiers.{ShardId, Dot}
use fantoch.Kvs.{Key}
use fantoch.Commands.{Command, read_only, total_key_count, command_keys}

-- The shards of a command, none for a noop.
pub record Dependency : Type 0 where
  pub dot : Dot
  pub shards : Option (List ShardId)

unfoldable pub dependency_discrete : Discrete Dependency
dependency_discrete = hlevel ℕ_discrete

instance abbrev pub dependency_partial_eq : PartialEq Dependency
dependency_partial_eq = discrete_partial_eq dependency_discrete

-- `BTreeSet`: in increasing order.
unfoldable pub insert_sorted : ℕ → List ℕ → List ℕ
insert_sorted x [] = x ∷ []
insert_sorted x (y ∷ ys) =
    let rest = y ∷ insert_sorted x ys in
    if ltb x y then x ∷ y ∷ ys else if x == y then y ∷ ys else rest

unfoldable pub to_sorted : List ℕ → List ℕ
unfolding insert_sorted
to_sorted [] = []
to_sorted (x ∷ xs) = insert_sorted x (to_sorted xs)

-- `Dependency::from_cmd`
unfoldable pub from_cmd : Dot → Command → Dependency
unfolding to_sorted
from_cmd dot cmd = record { dot = dot; shards = some (to_sorted (keys cmd.shard_to_ops)) }

unfoldable pub from_noop : Dot → Dependency
from_noop dot = record { dot = dot; shards = none }

abbrev pub LatestDep : Type 0
LatestDep = Option Dependency

pub record LatestRwDep : Type 0 where
  pub read : LatestDep
  pub write : LatestDep

abbrev pub default_latest : LatestRwDep
default_latest = record { read = none; write = none }

unfoldable pub add_latest : LatestDep → List Dependency → List Dependency
unfolding add
add_latest none deps = deps
add_latest (some dep) deps = add dep deps

unfoldable pub maybe_add_deps :
    (read_only nfr : Bool) → LatestRwDep → List Dependency → List Dependency
unfolding add_latest
maybe_add_deps read_only nfr latest_rw deps =
    let written = add_latest latest_rw.write deps in
    if not read_only && not nfr then add_latest latest_rw.read written else written

pub record SequentialKeyDeps : Type 0 where
  pub shard_id : ShardId
  pub nfr : Bool
  pub latest : Map Key LatestRwDep
  pub latest_noop : LatestDep

unfoldable pub new : ShardId → Bool → SequentialKeyDeps
new shard_id nfr = record { shard_id = shard_id; nfr = nfr; latest = []; latest_noop = none }

abbrev pub or_default : Option LatestRwDep → LatestRwDep
or_default none = default_latest
or_default (some value) = value

unfoldable pub latest_at : Key → Map Key LatestRwDep → LatestRwDep
latest_at key latest = or_default (get key latest)

unfoldable pub set_latest : Bool → Dependency → LatestRwDep → LatestRwDep
set_latest read_only dep latest_rw =
    if read_only
    then record latest_rw { read = some dep }
    else record latest_rw { write = some dep }

-- The loop of `do_add_cmd`.
unfoldable pub add_keys :
    (read_only nfr : Bool)
    → Dependency
    → List Key
    → Map Key LatestRwDep
    → List Dependency
    → Map Key LatestRwDep × List Dependency
unfolding maybe_add_deps set_latest latest_at
add_keys read_only nfr dep [] latest deps = (latest, deps)
add_keys read_only nfr dep (key ∷ keys) latest deps =
    let latest_rw = latest_at key latest in
    add_keys read_only nfr dep keys (insert key (set_latest read_only dep latest_rw) latest)
      (maybe_add_deps read_only nfr latest_rw deps)

unfoldable pub do_add_cmd :
    Dot
    → Command
    → List Dependency
    → SequentialKeyDeps
    → Outcome (SequentialKeyDeps × List Dependency)
unfolding add_keys from_cmd read_only total_key_count command_keys add_latest
do_add_cmd dot cmd deps k =
    assert (if k.nfr && read_only cmd then total_key_count cmd == 1 else true)
    >> (let (latest, deps) =
          add_keys (read_only cmd) k.nfr (from_cmd dot cmd) (command_keys k.shard_id cmd) k.latest
            deps in
        done (record k { latest = latest }, add_latest k.latest_noop deps))

unfoldable pub add_cmd :
    Dot
    → Command
    → Option (List Dependency)
    → SequentialKeyDeps
    → Outcome (SequentialKeyDeps × List Dependency)
unfolding do_add_cmd
add_cmd dot cmd past k = do_add_cmd dot cmd (elim past [ none ↦ [] | some past ↦ past ]) k

-- `do_noop_deps`
unfoldable pub noop_deps : List LatestRwDep → List Dependency → List Dependency
unfolding add_latest
noop_deps [] deps = deps
noop_deps (latest_rw ∷ more) deps =
    noop_deps more (add_latest latest_rw.write (add_latest latest_rw.read deps))

-- `add_noop` and `do_add_noop`
unfoldable pub add_noop : Dot → SequentialKeyDeps → SequentialKeyDeps × List Dependency
unfolding noop_deps from_noop add_latest
add_noop dot k = (
  record k { latest_noop = some (from_noop dot) },
  noop_deps (values k.latest) (add_latest k.latest_noop []),
)
