-- ===== src/TableExecutor.antt =====
-- fantoch_ps/src/executor/table/executor.rs: the executor of Tempo. It runs the commands that the
-- votes tables make stable, and a command on several keys once it is stable at all of its shards.
-- The counts of stable keys, which the executors of a process share behind locks, are part of the
-- state here; the metrics, which it never updates, are left out.
pub mod Queues
pub mod Order
pub mod Composition
mod Tests
use fantoch.Prelude.{
  ℕ, Bool, true, false, Option, none, some, List, [], ◌∷◌, ◌++◌, map, Outcome, done, panic, ◌>>=◌,
  if◌then◌else◌, ◌==◌, u64_partial_eq, string_partial_eq, add64, sub64,
}
use fantoch.Prelude.Maps.{Map, get, insert, remove}
use fantoch.Identifiers.{ProcessId, ShardId, Dot, Rifl}
use fantoch.Config.{Config, tempo_quorum_sizes}
use fantoch.Kvs.{Key, KvOp, KvStore}
use fantoch.Kvs
use fantoch.Commands.{ExecutorResult}
use fantoch.Pending.{rifl_partial_eq}
use fantoch.Votes.{VoteRange}
use fantoch.VotesTable.{
  RangeClock, Pending, new_pending, single_key_command, MultiVotesTable, new_tables, attach_at,
  detach_at,
}

pub data TableExecutionInfo : Type 0 where
  attached_votes :
      Dot
      → ℕ
      → Key
      → Rifl
      → Map ShardId (List Key)
      → List KvOp
      → List VoteRange
      → TableExecutionInfo
  detached_votes : Key → List VoteRange → TableExecutionInfo
  stable_at_shard : Key → Rifl → TableExecutionInfo

-- `MessageKey::key`, which picks the executor that handles the message.
unfoldable pub message_key : TableExecutionInfo → Key
message_key (attached_votes dot clock key rifl shard_to_keys ops votes) = key
message_key (detached_votes key votes) = key
message_key (stable_at_shard key rifl) = key

pub record PendingPerKey : Type 0 where
  pub pending : List Pending
  pub stable_shards_buffered : Map Rifl ℕ

abbrev pub no_pending : PendingPerKey
no_pending = record { pending = []; stable_shards_buffered = [] }

-- What a command that is tried can change: the arguments that
-- `execute_single_or_mark_it_as_stable` takes by `&mut`.
pub record Work : Type 0 where
  pub store : KvStore
  pub to_clients : List ExecutorResult
  pub to_executors : List (ShardId × TableExecutionInfo)
  pub stable_shards_buffered : Map Rifl ℕ
  pub rifl_to_stable_count : Map Rifl ℕ

unfoldable pub do_execute : Key → Pending → Work → Work
unfolding Kvs.execute
do_execute key stable w =
    let (store, partial_results) = Kvs.execute key stable.ops stable.rifl w.store in
    let result : ExecutorResult = record {
      rifl = stable.rifl;
      key = key;
      partial_results = partial_results;
    } in
    record w { store = store; to_clients = w.to_clients ++ (result ∷ []) }

unfoldable pub shard_messages :
    Key → Rifl → ShardId → List Key → List (ShardId × TableExecutionInfo)
shard_messages key rifl shard_id [] = []
shard_messages key rifl shard_id (shard_key ∷ shard_keys) =
    let rest = shard_messages key rifl shard_id shard_keys in
    if shard_key == key then rest else (shard_id, stable_at_shard shard_key rifl) ∷ rest

-- The closure `send_stable_msg`.
unfoldable pub stable_messages :
    Key → Rifl → Map ShardId (List Key) → List (ShardId × TableExecutionInfo)
unfolding shard_messages
stable_messages key rifl [] = []
stable_messages key rifl ((shard_id, shard_keys) ∷ shards) =
    shard_messages key rifl shard_id shard_keys ++ stable_messages key rifl shards

unfoldable pub send_stable_msg : Key → Pending → Work → Work × Pending
unfolding stable_messages sub64
send_stable_msg key pending w = (
  record w {
    to_executors = w.to_executors ++ stable_messages key pending.rifl pending.shard_to_keys;
  },
  record pending { missing_stable_shards = sub64 pending.missing_stable_shards 1 },
)

abbrev pub count_of : Rifl → Map Rifl ℕ → ℕ
count_of rifl counts = elim (get rifl counts) [ none ↦ 0 | some count ↦ count ]

-- The key of the command is stable: the other keys are told once all keys at this shard are.
unfoldable pub mark_as_stable : Key → Pending → Work → Outcome (Work × Pending)
unfolding send_stable_msg add64
mark_as_stable key pending w =
    if pending.shard_key_count == 1
    then done (send_stable_msg key pending w)
    else (let count = add64 (count_of pending.rifl w.rifl_to_stable_count) 1 in
        let counted = insert pending.rifl count w.rifl_to_stable_count in
        if count == pending.shard_key_count
        then (elim (get pending.rifl counted) [
          | none ↦ panic
          | some removed ↦ done (
              send_stable_msg key pending
                (record w { rifl_to_stable_count = remove pending.rifl counted }))
        ])
        else done (record w { rifl_to_stable_count = counted }, pending))

unfoldable pub take_buffered : Work × Pending → Work × Pending
unfolding sub64
take_buffered (w, pending) = elim (get pending.rifl w.stable_shards_buffered) [
  | none ↦ (w, pending)
  | some count ↦ (
    record w { stable_shards_buffered = remove pending.rifl w.stable_shards_buffered },
    record pending { missing_stable_shards = sub64 pending.missing_stable_shards count },
  )
]

unfoldable pub execute_if_stable : Key → Work × Pending → Work × Option Pending
unfolding do_execute
execute_if_stable key (w, pending) =
    if pending.missing_stable_shards == 0
    then (do_execute key pending w, none)
    else (w, some pending)

unfoldable pub execute_single_or_mark_it_as_stable :
    Key → Pending → Work → Outcome (Work × Option Pending)
unfolding single_key_command do_execute mark_as_stable take_buffered execute_if_stable
execute_single_or_mark_it_as_stable key pending w =
    if single_key_command pending
    then done (do_execute key pending w, none)
    else (mark_as_stable key pending w >>= λ marked.
        done (execute_if_stable key (take_buffered marked)))

-- The loops of `handle_stable_msg` and `send_stable_or_execute`: commands are tried in order, until
-- one has to wait. What is left is that one and the commands after it.
unfoldable pub try_all : Key → List Pending → Work → Outcome (Work × List Pending)
unfolding execute_single_or_mark_it_as_stable
try_all key [] w = done (w, [])
try_all key (pending ∷ pendings) w =
    execute_single_or_mark_it_as_stable key pending w >>= λ (tried : Work × Option Pending).
    elim tried.1 [
      | none ↦ try_all key pendings tried.0
      | some waiting ↦ done (tried.0, waiting ∷ pendings)
    ]

-- The message is kept until the command is first in the queue.
unfoldable pub buffer_stable : Rifl → Work → Work
unfolding add64
buffer_stable rifl w = record w {
  stable_shards_buffered =
      insert rifl (add64 (count_of rifl w.stable_shards_buffered) 1) w.stable_shards_buffered;
}

-- `Vec::pop`
unfoldable pub pop {ℓ} : {A : Type ℓ} → List A → List A × Option A
pop [] = ([], none)
pop (x ∷ []) = ([], some x)
pop (x ∷ y ∷ ys) = let (rest, last) = pop (y ∷ ys) in (x ∷ rest, last)

pub record TableExecutor (C : Type 0) : Type 0 where
  pub process_id : ProcessId
  pub shard_id : ShardId
  pub execute_at_commit : Bool
  pub table : MultiVotesTable C
  pub store : KvStore
  pub to_clients : List ExecutorResult
  pub to_executors : List (ShardId × TableExecutionInfo)
  pub pending : Map Key PendingPerKey
  pub rifl_to_stable_count : Map Rifl ℕ

module _ {C : Type 0} where
  unfoldable pub new : ProcessId → ShardId → Config → TableExecutor C
  unfolding tempo_quorum_sizes new_tables Kvs.new
  new process_id shard_id config =
      let (fast_quorum_size, write_quorum_size, stability_threshold) = tempo_quorum_sizes config in
      record {
        process_id = process_id;
        shard_id = shard_id;
        execute_at_commit = config.execute_at_commit;
        table = new_tables process_id shard_id config.n stability_threshold;
        store = Kvs.new config.executor_monitor_execution_order;
        to_clients = [];
        to_executors = [];
        pending = [];
        rifl_to_stable_count = [];
      }

  unfoldable pub pending_at : Key → TableExecutor C → PendingPerKey
  pending_at key e = elim (get key e.pending) [ none ↦ no_pending | some pending ↦ pending ]

  unfoldable pub work_at : Key → TableExecutor C → Work
  unfolding pending_at
  work_at key e = record {
    store = e.store;
    to_clients = e.to_clients;
    to_executors = e.to_executors;
    stable_shards_buffered = (pending_at key e).stable_shards_buffered;
    rifl_to_stable_count = e.rifl_to_stable_count;
  }

  -- What the calls through `&mut` leave in the executor.
  unfoldable pub put_back : Key → Work × List Pending → TableExecutor C → TableExecutor C
  put_back key (w, pendings) e = record e {
    store = w.store;
    to_clients = w.to_clients;
    to_executors = w.to_executors;
    pending =
        insert key
          (record { pending = pendings; stable_shards_buffered = w.stable_shards_buffered })
          e.pending;
    rifl_to_stable_count = w.rifl_to_stable_count;
  }

  -- `send_stable_or_execute`, by what is pending at the key.
  unfoldable pub send_after :
      Key → (pending to_execute : List Pending) → TableExecutor C → Outcome (TableExecutor C)
  unfolding work_at put_back try_all
  send_after key [] to_execute e =
      try_all key to_execute (work_at key e) >>= λ (r : Work × List Pending).
      done (put_back key r e)
  send_after key (first ∷ queue) to_execute e =
      done (put_back key (work_at key e, (first ∷ queue) ++ to_execute) e)

  unfoldable pub send_stable_or_execute :
      Key → List Pending → TableExecutor C → Outcome (TableExecutor C)
  unfolding send_after pending_at
  send_stable_or_execute key to_execute e = send_after key (pending_at key e).pending to_execute e

  -- `handle_stable_msg`, by what is pending at the key.
  unfoldable pub receive_stable :
      Key → Rifl → List Pending → TableExecutor C → Outcome (TableExecutor C)
  unfolding work_at put_back try_all do_execute sub64 buffer_stable
  receive_stable key rifl [] e = done (put_back key (buffer_stable rifl (work_at key e), []) e)
  receive_stable key rifl (first ∷ queue) e =
      let missing = sub64 first.missing_stable_shards 1 in
      let reached : Pending = record first { missing_stable_shards = missing } in
      if first.rifl == rifl
      then (if missing == 0
          then (try_all key queue (do_execute key reached (work_at key e))
              >>= λ (r : Work × List Pending). done (put_back key r e))
          else done (put_back key (work_at key e, reached ∷ queue) e))
      else done (put_back key (buffer_stable rifl (work_at key e), first ∷ queue) e)

  unfoldable pub handle_stable_msg : Key → Rifl → TableExecutor C → Outcome (TableExecutor C)
  unfolding receive_stable pending_at
  handle_stable_msg key rifl e = receive_stable key rifl (pending_at key e).pending e

  -- `TableExecutor::execute`
  unfoldable pub execute_now : Key → Pending → TableExecutor C → TableExecutor C
  unfolding Kvs.execute
  execute_now key stable e =
      let (store, partial_results) = Kvs.execute key stable.ops stable.rifl e.store in
      let result : ExecutorResult = record {
        rifl = stable.rifl;
        key = key;
        partial_results = partial_results;
      } in
      record e { store = store; to_clients = e.to_clients ++ (result ∷ []) }

  -- `TableExecutor::to_executors`
  unfoldable pub pop_to_executors :
      TableExecutor C → TableExecutor C × Option (ShardId × TableExecutionInfo)
  unfolding pop
  pop_to_executors e =
      let (to_executors, last) = pop e.to_executors in
      (record e { to_executors = to_executors }, last)

  -- `TableExecutor::to_clients`
  unfoldable pub pop_to_clients : TableExecutor C → TableExecutor C × Option ExecutorResult
  pop_to_clients e = elim e.to_clients [
    | [] ↦ (e, none)
    | first ∷ rest ↦ (record e { to_clients = rest }, some first)
  ]

module _ {C : Type 0} ⦃ar : RangeClock C⦄ where
  unfoldable pub handle : TableExecutionInfo → TableExecutor C → Outcome (TableExecutor C)
  unfolding new_pending execute_now attach_at detach_at send_stable_or_execute handle_stable_msg
  handle (attached_votes dot clock key rifl shard_to_keys ops votes) e =
      new_pending e.shard_id rifl shard_to_keys ops >>= λ (pending : Pending).
      (if e.execute_at_commit
        then done (execute_now key pending e)
        else (attach_at dot clock key pending votes e.table
            >>= λ (r : MultiVotesTable C × List Pending).
                send_stable_or_execute key r.1 (record e { table = r.0 })))
  handle (detached_votes key votes) e =
      if e.execute_at_commit
      then done e
      else (detach_at key votes e.table >>= λ (r : MultiVotesTable C × List Pending).
          send_stable_or_execute key r.1 (record e { table = r.0 }))
  handle (stable_at_shard key rifl) e = handle_stable_msg key rifl e
