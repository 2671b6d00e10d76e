-- ===== src/Pending.antt =====
-- fantoch/src/executor/aggregate.rs: pending commands, whose partial results are gathered, and
-- fantoch/src/executor/basic.rs: the executor that applies operations as they come. Its metrics,
-- which it never updates, are left out.
pub mod Gathering
mod Tests
use fantoch.Prelude.{
  ℕ, ◌≡◌, refl, ◌↔◌, Bool, true, false, ◌&&◌, Option, none, some, List, [], ◌∷◌, Outcome, done,
  panic, ◌>>=◌, PartialEq, ◌==◌, u64_partial_eq, if◌then◌else◌, arith,
}
use fantoch.Prelude.Maps.{Map, get, insert, remove}
use fantoch.Identifiers.{ProcessId, ShardId, Rifl}
use fantoch.Kvs.{Key, KvOp, KvOpResult, KvStore}
use fantoch.Kvs
use fantoch.Commands.{
  Command, ExecutorResult, CommandResultBuilder, key_count, new_builder, add_partial, ready,
}

-- `PartialEq` of `Id`, derived.
abbrev pub rifl_equal : Rifl → Rifl → Bool
rifl_equal x y = x.source == y.source && x.sequence == y.sequence

pub rifl_equal_iff : (x y : Rifl) → (rifl_equal x y ≡ true) ↔ (x ≡ y)
rifl_equal_iff x y = ground arith

instance abbrev pub rifl_partial_eq : PartialEq Rifl
rifl_partial_eq = record { equal = rifl_equal; equal_iff = rifl_equal_iff }

pub record CommandResult : Type 0 where
  pub rifl : Rifl
  pub results : Map Key (List KvOpResult)

pub record AggregatePending : Type 0 where
  pub process_id : ProcessId
  pub shard_id : ShardId
  pub pending : Map Rifl CommandResultBuilder

unfoldable pub new : ProcessId → ShardId → AggregatePending
new process_id shard_id = record { process_id = process_id; shard_id = shard_id; pending = [] }

unfoldable pub wait_for : Command → AggregatePending → AggregatePending × Bool
unfolding new_builder key_count
wait_for cmd p = (
  record p {
    pending = insert cmd.rifl (new_builder cmd.rifl (key_count p.shard_id cmd)) p.pending;
  },
  elim (get cmd.rifl p.pending) [ none ↦ true | some previous ↦ false ],
)

unfoldable pub add_executor_result :
    ExecutorResult → AggregatePending → Outcome (AggregatePending × Option CommandResult)
unfolding add_partial ready
add_executor_result r p = elim (get r.rifl p.pending) [
  | none ↦ done (p, none)
  | some builder ↦ add_partial r.key r.partial_results builder >>= λ builder.
      (if ready builder
        then done (
          record p { pending = remove r.rifl p.pending },
          some (record { rifl = builder.rifl; results = builder.results }),
        )
        else done (record p { pending = insert r.rifl builder p.pending }, none))
]

pub record BasicExecutor : Type 0 where
  pub store : KvStore
  pub to_clients : List ExecutorResult

pub record BasicExecutionInfo : Type 0 where
  pub rifl : Rifl
  pub key : Key
  pub ops : List KvOp

unfoldable pub new_basic : BasicExecutor
unfolding Kvs.new
new_basic = record { store = Kvs.new false; to_clients = [] }

-- The vector of results is a stack, its last element in front here.
unfoldable pub basic_handle : BasicExecutionInfo → BasicExecutor → BasicExecutor
unfolding Kvs.execute
basic_handle info e =
    let (store, partial_results) = Kvs.execute info.key info.ops info.rifl e.store in
    record {
      store = store;
      to_clients =
          record { rifl = info.rifl; key = info.key; partial_results = partial_results }
          ∷ e.to_clients;
    }

unfoldable pub basic_to_clients : BasicExecutor → BasicExecutor × Option ExecutorResult
basic_to_clients e = elim e.to_clients [
  | [] ↦ (e, none)
  | last ∷ rest ↦ (record e { to_clients = rest }, some last)
]
