-- ===== src/SlotExecutor/Order.antt =====
-- fantoch_ps/src/executor/slot.rs: arrivals in any order, against commands run in slot order.
use fantoch.Prelude.{
  ℕ, zero, suc, ◌+◌, ◌≤◌, ◌<◌, ◌≡◌, refl, true, false, Option, none, some, List, [], ◌∷◌, ◌++◌,
  Outcome, done, ◌>>=◌, ◌==◌, u64_partial_eq, leb, Bool-cases, length, add64, add64_lem, word,
  arith, Option-cases, inl, inr,
}
use fantoch.Prelude.Maps.{
  Map, get, insert, remove, get-insert, get-remove, length-remove, get-length,
}
use fantoch.Identifiers.{ShardId}
use fantoch.Config.{Config}
use fantoch.Kvs.{KvStore}
use fantoch.Kvs
use fantoch.Commands.{Command, ExecutorResult}
use fantoch.Commands
use fantoch.SlotExecutor.{
  Slot, SlotExecutor, SlotExecutionInfo, new, execute, try_next_slot, handle,
}

unfoldable pub run_slot :
    ShardId → Option Command → KvStore × List ExecutorResult → KvStore × List ExecutorResult
run_slot shard_id none before = before
run_slot shard_id (some cmd) before =
    let (after, results) = Commands.execute shard_id cmd before.0 in (after, before.1 ++ results)

-- The specification: the commands of the slots from 1 to `count`, run in that order.
abbrev pub run_slots : ShardId → Map Slot Command → ℕ → KvStore → KvStore × List ExecutorResult
run_slots shard_id log zero store = (store, [])
run_slots shard_id log (suc count) store =
    run_slot shard_id (get (suc count) log) (run_slots shard_id log count store)

abbrev pub handle_all : List SlotExecutionInfo → SlotExecutor → Outcome SlotExecutor
handle_all [] e = done e
handle_all (info ∷ infos) e = handle info e >>= handle_all infos

-- The commands received, the last one first.
abbrev pub received : List SlotExecutionInfo → Map Slot Command → Map Slot Command
received [] log = log
received (info ∷ infos) log = received infos ((info.slot, info.cmd) ∷ log)

-- Every command comes in a slot of its own, from 1 on and below the last two of a u64.
abbrev pub InOwnSlots : List SlotExecutionInfo → Map Slot Command → Type 0
InOwnSlots [] log = Unit
InOwnSlots (info ∷ infos) log =
    (get info.slot log ≡ none)
    × (1 ≤ info.slot)
    × (info.slot + 2 ≤ word)
    × InOwnSlots infos ((info.slot, info.cmd) ∷ log)

-- The executor has run the first `count` slots of the log and holds the rest.
pub record Follows (log : Map Slot Command) (store : KvStore) (count : ℕ) (e : SlotExecutor)
    : Type 0 where
  pub next : e.next_slot ≡ suc count
  pub later_runs : e.config.execute_at_commit ≡ false
  pub small : (i : ℕ) (cmd : Command) → get i log ≡ some cmd → i + 2 ≤ word
  pub complete : (i : ℕ) → 1 ≤ i → i ≤ count → (cmd : Command) × (get i log ≡ some cmd)
  pub pending : (i : ℕ) → suc count ≤ i → get i e.to_execute ≡ get i log
  pub ran_store : e.store ≡ (run_slots e.shard_id log count store).0
  pub ran_clients : e.to_clients ≡ (run_slots e.shard_id log count store).1

-- One round of the loop.
step : Command → SlotExecutor → SlotExecutor
step cmd e =
    let e' = execute cmd (record e { to_execute = remove e.next_slot e.to_execute }) in
    record e' { next_slot = add64 e'.next_slot 1 }

step-Follows :
    (log : Map Slot Command) (store : KvStore) (count : ℕ) (e : SlotExecutor) (cmd : Command)
    → Follows log store count e
    → get e.next_slot e.to_execute ≡ some cmd
    → Follows log store (suc count) (step cmd e)
unfolding step execute run_slot
step-Follows log store count e cmd f held =
    let there : get (suc count) log ≡ some cmd =
      ground (arith, f.next, f.pending (suc count) (omega arith), held) in
    record {
      next =
          ground
            (arith, f.next, add64_lem (suc count) 1 (omega (arith, f.small (suc count) cmd there)));
      later_runs = f.later_runs;
      small = f.small;
      complete = λ i low high. elim (Bool-cases (leb i count)) [
        | inl old ↦ f.complete i low (ground arith)
        | inr top ↦ let here : i ≡ suc count = ground arith in (cmd, rw here there)
      ];
      pending = λ i above.
          ground (arith, f.next, get-remove e.next_slot i e.to_execute, f.pending i (omega arith));
      ran_store = rw there (rw f.ran_store refl);
      ran_clients = rw there (rw (f.ran_store, f.ran_clients) refl);
    }

-- Enough fuel: the loop stops only at a slot that is missing.
try_next_slot-Follows :
    (log : Map Slot Command) (store : KvStore) (fuel count : ℕ) (e : SlotExecutor)
    → Follows log store count e
    → length e.to_execute ≤ fuel
    → (total : ℕ) × Follows log store total (try_next_slot fuel e) × (get (suc total) log ≡ none)
unfolding try_next_slot step execute
try_next_slot-Follows log store zero count e f enough = (
  count,
  f,
  ground (arith, f.pending (suc count) (omega arith), get-length (suc count) e.to_execute enough),
)
try_next_slot-Follows log store (suc fuel) count e f enough =
    elim (Option-cases (get e.next_slot e.to_execute)) [
      | inl missing ↦
          rw (missing, try_next_slot)
            (count, f, ground (arith, f.next, f.pending (suc count) (omega arith), missing))
      | inr (cmd, held) ↦
          rw (held, try_next_slot)
            (try_next_slot-Follows log store fuel (suc count) (step cmd e)
              (step-Follows log store count e cmd f held)
              (omega (arith, length-remove e.next_slot cmd e.to_execute held)))
    ]

get-cons_other :
    (slot i : Slot) (cmd : Command) (log : Map Slot Command)
    → i < slot
    → get i ((slot, cmd) ∷ log) ≡ get i log
unfolding get
get-cons_other slot i cmd log h = ground arith

run_slots-fresh :
    (shard_id : ShardId) (slot : Slot) (cmd : Command) (log : Map Slot Command) (count : ℕ)
    (store : KvStore)
    → count < slot
    → run_slots shard_id ((slot, cmd) ∷ log) count store ≡ run_slots shard_id log count store
run_slots-fresh shard_id slot cmd log zero store h = refl
run_slots-fresh shard_id slot cmd log (suc count) store h =
    let other = get-cons_other slot (suc count) cmd log (omega arith) in
    let before = run_slots-fresh shard_id slot cmd log count store (omega arith) in
    rw (other, before) refl

-- A command in a slot of its own is taken in: the assertions hold.
pub handle-Follows :
    (log : Map Slot Command) (store : KvStore) (count : ℕ) (e : SlotExecutor)
    (info : SlotExecutionInfo)
    → Follows log store count e
    → get info.slot log ≡ none
    → 1 ≤ info.slot
    → info.slot + 2 ≤ word
    → (e' : SlotExecutor) × (handle info e ≡ done e')
      × (total : ℕ) × Follows ((info.slot, info.cmd) ∷ log) store total e'
      × (get (suc total) ((info.slot, info.cmd) ∷ log) ≡ none)
unfolding handle get
handle-Follows log store count e info f fresh low high =
    let above : suc count ≤ info.slot = elim (Bool-cases (leb info.slot count)) [
      | inl old ↦ absurd (ground (arith, f.complete info.slot low (ground arith), fresh))
      | inr later ↦ ground arith
    ] in
    let absent : get info.slot e.to_execute ≡ none = ground (arith, f.pending info.slot above) in
    let reached : leb e.next_slot info.slot ≡ true = ground (arith, f.next) in
    let to_execute : Map Slot Command = insert info.slot info.cmd e.to_execute in
    let taken : Follows ((info.slot, info.cmd) ∷ log) store count
        (record e { to_execute = to_execute }) =
      record {
        next = f.next;
        later_runs = f.later_runs;
        small = λ i cmd held. elim (Bool-cases (info.slot == i)) [
          | inl same ↦ ground arith
          | inr other ↦ f.small i cmd (ground arith)
        ];
        complete =
            λ i one upto. let (cmd, held) = f.complete i one upto in (cmd, ground (arith, held));
        pending = λ i beyond.
            ground (arith, get-insert info.slot i info.cmd e.to_execute, f.pending i beyond);
        ran_store =
            rw (run_slots-fresh e.shard_id info.slot info.cmd log count store above) f.ran_store;
        ran_clients =
            rw (run_slots-fresh e.shard_id info.slot info.cmd log count store above) f.ran_clients;
      } in
    let (total, follows, missing) =
      try_next_slot-Follows ((info.slot, info.cmd) ∷ log) store (length to_execute) count
        (record e { to_execute = to_execute }) taken (omega arith) in
    (
      try_next_slot (length to_execute) (record e { to_execute = to_execute }),
      ground (arith, reached, f.later_runs, absent),
      total,
      follows,
      missing,
    )

handle_all-Follows :
    (infos : List SlotExecutionInfo) (log : Map Slot Command) (store : KvStore) (count : ℕ)
    (e : SlotExecutor)
    → Follows log store count e
    → get (suc count) log ≡ none
    → InOwnSlots infos log
    → (e' : SlotExecutor) × (handle_all infos e ≡ done e')
      × (total : ℕ) × Follows (received infos log) store total e'
      × (get (suc total) (received infos log) ≡ none)
handle_all-Follows [] log store count e f missing own = (e, refl, count, f, missing)
handle_all-Follows (info ∷ infos) log store count e f missing own =
    let (fresh, low, high, others) = own in
    let (e', returns, total, f', missing') =
      handle-Follows log store count e info f fresh low high in
    let (last, return, upto, follows, gap) =
      handle_all-Follows infos ((info.slot, info.cmd) ∷ log) store total e' f' missing' others in
    (last, rw returns return, upto, follows, gap)

pub new-Follows :
    (shard_id : ShardId) (config : Config)
    → config.execute_at_commit ≡ false
    → Follows [] (Kvs.new config.executor_monitor_execution_order) 0 (new shard_id config)
unfolding new get
new-Follows shard_id config later = record {
  next = refl;
  later_runs = later;
  small = λ i cmd held. absurd (ground arith);
  complete = λ i one upto. absurd (omega arith);
  pending = λ i above. refl;
  ran_store = refl;
  ran_clients = refl;
}

-- When commands arrive in any order, each in a slot of its own from 1 on, a new executor that does
-- not execute at commit takes all of them in without a panic. There is a number `total` of slots
-- such that every slot up to it was received and the next one was not; the store and the results
-- for the clients are those of the commands of these slots in the order of the slots, and the
-- commands received in later slots are still held.
pub handle_all-in_slot_order :
    (shard_id : ShardId) (config : Config) (infos : List SlotExecutionInfo)
    → config.execute_at_commit ≡ false
    → InOwnSlots infos []
    → (e : SlotExecutor) × (handle_all infos (new shard_id config) ≡ done e)
      × (total : ℕ) × Follows
          (received infos [])
          (Kvs.new config.executor_monitor_execution_order)
          total
          e
      × (get (suc total) (received infos []) ≡ none)
unfolding get
handle_all-in_slot_order shard_id config infos later own =
    handle_all-Follows infos [] (Kvs.new config.executor_monitor_execution_order) 0
      (new shard_id config) (new-Follows shard_id config later) refl own
