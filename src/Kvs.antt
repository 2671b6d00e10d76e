-- ===== src/Kvs.antt =====
-- fantoch/src/kvs.rs and fantoch/src/executor/monitor.rs: the key-value store, with the optional
-- monitor of the execution order.
pub mod Refinement
mod Tests
use fantoch.Prelude.{
  ℕ, Bool, true, false, ◌&&◌, Option, none, some, List, [], ◌∷◌, ◌++◌, String, Outcome, done, panic,
  if◌then◌else◌, ◌==◌, string_partial_eq, length,
}
use fantoch.Prelude.Maps.{Map, get, insert, remove, keys, contains_key}
use fantoch.Identifiers.{Rifl}

abbrev pub Key : Type 0
Key = String

abbrev pub Value : Type 0
Value = String

pub data KvOp : Type 0 where
  read : KvOp
  write : Value → KvOp
  delete : KvOp

abbrev pub KvOpResult : Type 0
KvOpResult = Option Value

pub record ExecutionOrderMonitor : Type 0 where
  pub order_per_key : Map Key (List Rifl)

abbrev pub new_monitor : ExecutionOrderMonitor
new_monitor = record { order_per_key = [] }

-- `ExecutionOrderMonitor::add`
unfoldable pub add : Key → Bool → Rifl → ExecutionOrderMonitor → ExecutionOrderMonitor
add key read_only rifl m = if read_only then m else elim (get key m.order_per_key) [
  | some current ↦ record { order_per_key = insert key (current ++ rifl ∷ []) m.order_per_key }
  | none ↦ record { order_per_key = insert key (rifl ∷ []) m.order_per_key }
]

-- `ExecutionOrderMonitor::merge`: the monitors must not share a key.
unfoldable pub merge_orders :
    Map Key (List Rifl) → ExecutionOrderMonitor → Outcome ExecutionOrderMonitor
merge_orders [] m = done m
merge_orders (entry ∷ other) m =
    let rest =
      merge_orders other (record { order_per_key = insert entry.0 entry.1 m.order_per_key }) in
    if contains_key entry.0 m.order_per_key then panic else rest

unfoldable pub get_order : Key → ExecutionOrderMonitor → Option (List Rifl)
get_order key m = get key m.order_per_key

pub record KvStore : Type 0 where
  pub store : Map Key Value
  pub monitor : Option ExecutionOrderMonitor

unfoldable pub new : Bool → KvStore
new monitor_execution_order = record {
  store = [];
  monitor = if monitor_execution_order then some new_monitor else none;
}

unfoldable pub do_execute_op : Key → KvOp → KvStore → KvStore × KvOpResult
do_execute_op key read s = (s, get key s.store)
do_execute_op key (write value) s = (record s { store = insert key value s.store }, none)
do_execute_op key delete s = (record s { store = remove key s.store }, get key s.store)

unfoldable pub do_execute : Key → List KvOp → KvStore → KvStore × List KvOpResult
unfolding do_execute_op
do_execute key [] s = (s, [])
do_execute key (op ∷ ops) s =
    let (s', result) = do_execute_op key op s in
    let (last, results) = do_execute key ops s' in (last, result ∷ results)

abbrev pub is_read : KvOp → Bool
is_read read = true
is_read _ = false

unfoldable pub all_reads : List KvOp → Bool
all_reads [] = true
all_reads (op ∷ ops) = is_read op && all_reads ops

unfoldable pub execute : Key → List KvOp → Rifl → KvStore → KvStore × List KvOpResult
unfolding do_execute all_reads add
execute key ops rifl s = elim s.monitor [
  | none ↦ do_execute key ops s
  | some m ↦ do_execute key ops (record s { monitor = some (add key (all_reads ops) rifl m) })
]
