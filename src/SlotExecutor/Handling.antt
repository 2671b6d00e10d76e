-- ===== src/SlotExecutor/Handling.antt =====
-- fantoch_ps/src/executor/slot.rs: what a command that was taken in tells of the executor.
use fantoch.Prelude.{
  ℕ, zero, suc, ◌+◌, ◌≤◌, ◌≡◌, refl, ap, sym, ◌∙◌, subst, none, some, ◌∷◌, done, u64_partial_eq,
  leb, Bool-cases, Option-cases, inl, inr, length, word, arith,
}
use fantoch.Prelude.Maps.{Map, get, insert}
use fantoch.Identifiers.{ShardId}
use fantoch.Commands.{Command}
use fantoch.Kvs.{KvStore}
use fantoch.SlotExecutor.{Slot, SlotExecutor, SlotExecutionInfo, execute, try_next_slot, handle}
use fantoch.SlotExecutor.Order.{Follows, handle-Follows, run_slots}

try_next_slot-shard_id :
    (fuel : ℕ) (e : SlotExecutor) → (try_next_slot fuel e).shard_id ≡ e.shard_id
unfolding try_next_slot execute
try_next_slot-shard_id zero e = refl
try_next_slot-shard_id (suc fuel) e = elim (Option-cases (get e.next_slot e.to_execute)) [
  | inl missing ↦ rw (missing, try_next_slot) refl
  | inr (cmd, held) ↦ rw (held, try_next_slot) (try_next_slot-shard_id fuel _)
]

-- The slot was not received before, and the executor goes on with it.
pub handle_done-Follows :
    (log : Map Slot Command) (store : KvStore) (count : ℕ) (e e' : SlotExecutor)
    (info : SlotExecutionInfo)
    → Follows log store count e
    → info.slot + 2 ≤ word
    → handle info e ≡ done e'
    → (total : ℕ) × Follows ((info.slot, info.cmd) ∷ log) store total e'
      × (e'.shard_id ≡ e.shard_id)
      × (get info.slot log ≡ none)
unfolding handle
handle_done-Follows log store count e e' info f high h =
    elim (Bool-cases (leb e.next_slot info.slot)) [
      | inr below ↦ absurd (ground (arith, h, below))
      | inl reached ↦ elim (Option-cases (get info.slot e.to_execute)) [
        | inr (cmd, held) ↦ absurd (ground (arith, h, reached, f.later_runs, held))
        | inl absent ↦
            let above : suc count ≤ info.slot = ground (arith, f.next, reached) in
            let fresh : get info.slot log ≡ none =
              ground (arith, f.pending info.slot above, absent) in
            let (last, returns, total, follows, gap) =
              handle-Follows log store count e info f fresh (omega arith) high in
            let same : last ≡ e' = ground (arith, returns, h) in
            let pending = insert info.slot info.cmd e.to_execute in
            let made : try_next_slot (length pending) (record e { to_execute = pending }) ≡ e' =
              ground (arith, h, reached, f.later_runs, absent) in
            (
              total,
              subst (Follows ((info.slot, info.cmd) ∷ log) store total) same follows,
              ap (λ (x : SlotExecutor). x.shard_id) (sym made)
                  ∙ try_next_slot-shard_id (length pending) _,
              fresh,
            )
      ]
    ]

-- Two executors that follow parts of one log have equal stores after as many slots.
run_slots-common :
    (shard_id : ShardId) (log first second : Map Slot Command) (count : ℕ) (store : KvStore)
    → ((i : Slot) (cmd : Command) → get i first ≡ some cmd → get i log ≡ some cmd)
    → ((i : Slot) (cmd : Command) → get i second ≡ some cmd → get i log ≡ some cmd)
    → ((i : ℕ) → 1 ≤ i → i ≤ count → (cmd : Command) × (get i first ≡ some cmd))
    → ((i : ℕ) → 1 ≤ i → i ≤ count → (cmd : Command) × (get i second ≡ some cmd))
    → run_slots shard_id first count store ≡ run_slots shard_id second count store
run_slots-common shard_id log first second zero store a b c d = refl
run_slots-common shard_id log first second (suc count) store a b c d =
    let before =
      run_slots-common shard_id log first second count store a b
        (λ i low high. c i low (omega arith)) (λ i low high. d i low (omega arith)) in
    let (x, left) = c (suc count) (omega arith) (omega arith) in
    let (y, right) = d (suc count) (omega arith) (omega arith) in
    let equal : get (suc count) first ≡ get (suc count) second =
      ground (arith, left, right, a (suc count) x left, b (suc count) y right) in
    rw (before, equal) refl

pub Follows-common :
    (log first second : Map Slot Command) (store : KvStore) (m n : ℕ) (e e' : SlotExecutor)
    → ((i : Slot) (cmd : Command) → get i first ≡ some cmd → get i log ≡ some cmd)
    → ((i : Slot) (cmd : Command) → get i second ≡ some cmd → get i log ≡ some cmd)
    → Follows first store m e
    → Follows second store n e'
    → e.shard_id ≡ e'.shard_id
    → e.next_slot ≡ e'.next_slot
    → (e.store ≡ e'.store) × (e.to_clients ≡ e'.to_clients)
Follows-common log first second store m n e e' a b f g shards slots =
    let counts : n ≡ m = omega (arith, f.next, g.next, slots) in
    let reached =
      subst (λ k. (i : ℕ) → 1 ≤ i → i ≤ k → (cmd : Command) × (get i second ≡ some cmd)) counts
        g.complete in
    let common = run_slots-common e.shard_id log first second m store a b f.complete reached in
    let at = ap (λ k. run_slots e.shard_id second k store) (sym counts) in
    let moved = ap (λ k. run_slots k second n store) shards in
    let equal = common ∙ at ∙ moved in
    (
      f.ran_store ∙ ap (λ r. r.0) equal ∙ sym g.ran_store,
      f.ran_clients ∙ ap (λ r. r.1) equal ∙ sym g.ran_clients,
    )
