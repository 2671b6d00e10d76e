-- ===== src/Kvs/Refinement.antt =====
-- fantoch/src/kvs.rs: the store against one optional value for each key.
use fantoch.Prelude.{
  ◌≡◌, refl, Bool, true, false, Option, none, some, List, [], ◌∷◌, ◌++◌, if◌then◌else◌, ◌==◌,
  string_partial_eq, arith, Option-cases, inl, inr,
}
use text.Mathlib.TextEquality.{eq_iff}
use fantoch.Prelude.Maps.{get, get-insert, get-remove}
use fantoch.Identifiers.{Rifl}
use fantoch.Kvs.{
  Key, Value, KvOp, read, write, delete, KvOpResult, KvStore, ExecutionOrderMonitor, do_execute_op,
  do_execute, execute, add, get_order, all_reads,
}

-- The specification: what an operation does to the value of its own key, and its result.
abbrev pub apply : KvOp → Option Value → Option Value × KvOpResult
apply read value = (value, value)
apply (write new_value) value = (some new_value, none)
apply delete value = (none, value)

abbrev pub apply_all : List KvOp → Option Value → Option Value × List KvOpResult
apply_all [] value = (value, [])
apply_all (op ∷ ops) value =
    let (value', result) = apply op value in
    let (last, results) = apply_all ops value' in (last, result ∷ results)

-- The value of every key after an operation on `key`, and the result.
do_execute_op-get :
    (key at : Key) (op : KvOp) (s : KvStore)
    → (get at (do_execute_op key op s).0.store
        ≡ (if key == at then (apply op (get key s.store)).0 else get at s.store))
      × ((do_execute_op key op s).1 ≡ (apply op (get key s.store)).1)
unfolding do_execute_op
do_execute_op-get key at read s = (ground (arith, eq_iff key at), refl)
do_execute_op-get key at (write v) s = (get-insert key at v s.store, refl)
do_execute_op-get key at delete s = (get-remove key at s.store, refl)

do_execute_op-get_self :
    (key : Key) (op : KvOp) (s : KvStore)
    → get key (do_execute_op key op s).0.store ≡ (apply op (get key s.store)).0
do_execute_op-get_self key op s = ground (arith, (do_execute_op-get key key op s).0, eq_iff key key)

do_execute-get :
    (key at : Key) (ops : List KvOp) (s : KvStore)
    → (get at (do_execute key ops s).0.store
        ≡ (if key == at then (apply_all ops (get key s.store)).0 else get at s.store))
      × ((do_execute key ops s).1 ≡ (apply_all ops (get key s.store)).1)
unfolding do_execute
do_execute-get key at [] s = (ground (arith, eq_iff key at), refl)
do_execute-get key at (op ∷ ops) s =
    let s' = (do_execute_op key op s).0 in
    let one = do_execute_op-get key at op s in
    let self = do_execute_op-get_self key op s in
    let rest = do_execute-get key at ops s' in
    (ground (arith, rest.0, one.0, self), ground (arith, rest.1, one.1, self))

with_monitor-get :
    (key at : Key) (ops : List KvOp) (s : KvStore) (m : Option ExecutionOrderMonitor)
    → (get at (do_execute key ops (record s { monitor = m })).0.store
        ≡ (if key == at then (apply_all ops (get key s.store)).0 else get at s.store))
      × ((do_execute key ops (record s { monitor = m })).1 ≡ (apply_all ops (get key s.store)).1)
with_monitor-get key at ops s m = do_execute-get key at ops (record s { monitor = m })

-- Executing operations on a key is, monitored or not, running them in order on the optional value
-- of that key: the results are those of the specification, the key ends with its value, and every
-- other key keeps its own.
pub execute_refines :
    (key at : Key) (ops : List KvOp) (rifl : Rifl) (s : KvStore)
    → (get at (execute key ops rifl s).0.store
        ≡ (if key == at then (apply_all ops (get key s.store)).0 else get at s.store))
      × ((execute key ops rifl s).1 ≡ (apply_all ops (get key s.store)).1)
unfolding execute
execute_refines key at ops rifl s = elim (Option-cases s.monitor) [
  | inl off ↦ rw off (with_monitor-get key at ops s none)
  | inr (m, on) ↦ rw on (with_monitor-get key at ops s (some (add key (all_reads ops) rifl m)))
]

-- The order that a monitor holds for a key, none being the empty one.
abbrev pub order_of : Key → ExecutionOrderMonitor → List Rifl
order_of key m = elim (get_order key m) [ none ↦ [] | some order ↦ order ]

-- The monitor appends a command to the order of its key unless it only reads, and leaves the
-- orders of the other keys as they are.
pub order_of-add :
    (key at : Key) (read_only : Bool) (rifl : Rifl) (m : ExecutionOrderMonitor)
    → order_of at (add key read_only rifl m) ≡ (
        if read_only
        then order_of at m
        else if key == at
        then order_of at m ++ rifl ∷ []
        else order_of at m)
unfolding add get_order
order_of-add key at true rifl m = refl
order_of-add key at false rifl m = elim (Option-cases (get key m.order_per_key)) [
  | inl fresh ↦
      rw fresh (ground (arith, fresh, eq_iff key at, get-insert key at (rifl ∷ []) m.order_per_key))
  | inr (current, held) ↦ rw held (
      ground (arith, held, eq_iff key at, get-insert key at (current ++ rifl ∷ []) m.order_per_key))
]
