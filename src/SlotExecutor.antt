-- ===== src/SlotExecutor.antt =====
-- fantoch_ps/src/executor/slot.rs: the executor of FPaxos, which executes commands in the order of
-- their slots. The metrics, which it never updates, are left out.
pub mod Order
pub mod Handling
mod Tests
use fantoch.Prelude.{
  ℕ, zero, suc, Bool, true, false, Option, none, some, List, [], ◌∷◌, ◌++◌, Outcome, done, panic,
  assert, ◌>>=◌, ◌>>◌, if◌then◌else◌, ◌==◌, u64_partial_eq, leb, length, add64,
}
use fantoch.Prelude.Maps.{Map, get, insert, remove}
use fantoch.Identifiers.{ShardId}
use fantoch.Config.{Config}
use fantoch.Kvs.{KvStore}
use fantoch.Kvs
use fantoch.Commands.{Command, ExecutorResult}
use fantoch.Commands

abbrev pub Slot : Type 0
Slot = ℕ

pub record SlotExecutor : Type 0 where
  pub shard_id : ShardId
  pub config : Config
  pub store : KvStore
  pub next_slot : Slot
  pub to_execute : Map Slot Command
  pub to_clients : List ExecutorResult

pub record SlotExecutionInfo : Type 0 where
  pub slot : Slot
  pub cmd : Command

unfoldable pub new : ShardId → Config → SlotExecutor
new shard_id config = record {
  shard_id = shard_id;
  config = config;
  store = Kvs.new config.executor_monitor_execution_order;
  next_slot = 1;
  to_execute = [];
  to_clients = [];
}

unfoldable pub execute : Command → SlotExecutor → SlotExecutor
execute cmd e =
    let (store, results) = Commands.execute e.shard_id cmd e.store in
    record e { store = store; to_clients = e.to_clients ++ results }

-- The `while let` loop. Every round takes an entry away, so the number of entries is enough fuel.
unfoldable pub try_next_slot : ℕ → SlotExecutor → SlotExecutor
try_next_slot zero e = e
try_next_slot (suc fuel) e = elim (get e.next_slot e.to_execute) [
  | none ↦ e
  | some cmd ↦
      let e' = execute cmd (record e { to_execute = remove e.next_slot e.to_execute }) in
      try_next_slot fuel (record e' { next_slot = add64 e'.next_slot 1 })
]

unfoldable pub handle : SlotExecutionInfo → SlotExecutor → Outcome SlotExecutor
handle info e =
    if leb e.next_slot info.slot
    then (if e.config.execute_at_commit
        then done (execute info.cmd e)
        else (elim (get info.slot e.to_execute) [
          | some previous ↦ panic
          | none ↦
              let to_execute = insert info.slot info.cmd e.to_execute in
              done (try_next_slot (length to_execute) (record e { to_execute = to_execute }))
        ]))
    else panic

-- `SlotExecutor::to_clients`
unfoldable pub pop_to_clients : SlotExecutor → SlotExecutor × Option ExecutorResult
pop_to_clients e = elim e.to_clients [
  | [] ↦ (e, none)
  | first ∷ rest ↦ (record e { to_clients = rest }, some first)
]
