-- ===== src/MultiSynod.antt =====
-- fantoch_ps/src/protocol/common/synod/multi.rs: multi-decree Flexible Paxos, with one leader, an
-- acceptor for all slots and a commander for each slot in flight. Handling a promise is `todo!` in
-- the source, a panic.
pub mod Commanders
pub mod Promises
pub mod Collection
pub mod Submissions
pub mod Values
mod Tests
use fantoch.Prelude.{
  ℕ, ◌+◌, Bool, true, false, Option, none, some, List, [], ◌∷◌, Outcome, done, panic, assert, ◌>>=◌,
  ◌>>◌, if◌then◌else◌, ◌==◌, u64_partial_eq, ltb, leb, length, add64, range_inclusive,
}
use fantoch.Prelude.Maps.{Map, get, insert, remove, contains_key}
use fantoch.Prelude.Sets.{add}
use fantoch.Identifiers.{ProcessId}

abbrev pub Ballot : Type 0
Ballot = ℕ

abbrev pub Slot : Type 0
Slot = ℕ

abbrev pub AcceptedSlots : Type 0 → Type 0
AcceptedSlots V = Map Slot (Ballot × V)

pub data MultiSynodMessage (V : Type 0) : Type 0 where
  chosen : Slot → V → MultiSynodMessage V
  forward_submit : V → MultiSynodMessage V
  spawn_commander : Ballot → Slot → V → MultiSynodMessage V
  prepare : Ballot → MultiSynodMessage V
  accept : Ballot → Slot → V → MultiSynodMessage V
  promise : Ballot → AcceptedSlots V → MultiSynodMessage V
  accepted : Ballot → Slot → MultiSynodMessage V

pub record Leader : Type 0 where
  pub process_id : ProcessId
  pub is_leader : Bool
  pub ballot : Ballot
  pub last_slot : Slot

unfoldable pub new_leader : (process_id initial_leader : ProcessId) → Leader
new_leader process_id initial_leader = record {
  process_id = process_id;
  is_leader = process_id == initial_leader;
  ballot = if process_id == initial_leader then process_id else 0;
  last_slot = 0;
}

unfoldable pub try_submit : Leader → Leader × Option (Ballot × Slot)
unfolding add64
try_submit l =
    if l.is_leader
    then (record l { last_slot = add64 l.last_slot 1 }, some (l.ballot, add64 l.last_slot 1))
    else (l, none)

pub record Commander (V : Type 0) : Type 0 where
  pub f : ℕ
  pub ballot : Ballot
  pub value : V
  pub accepts : List ProcessId

pub record Acceptor (V : Type 0) : Type 0 where
  pub ballot : Ballot
  pub accepted_slots : AcceptedSlots V

pub record MultiSynod (V : Type 0) : Type 0 where
  pub n : ℕ
  pub f : ℕ
  pub leader : Leader
  pub acceptor : Acceptor V
  pub commanders : Map Slot (Commander V)

module _ {V : Type 0} where
  unfoldable pub spawn : ℕ → Ballot → V → Commander V
  spawn f ballot value = record { f = f; ballot = ballot; value = value; accepts = [] }

  unfoldable pub handle_accepted : ProcessId → Ballot → Commander V → Commander V × Bool
  handle_accepted from b c =
      let accepts = add from c.accepts in
      if c.ballot == b
      then (record c { accepts = accepts }, length accepts == c.f + 1)
      else (c, false)

  unfoldable pub destroy : Commander V → Outcome V
  destroy c = assert (length c.accepts == c.f + 1) >> done c.value

  unfoldable pub new_acceptor : ProcessId → Acceptor V
  new_acceptor initial_leader = record { ballot = initial_leader; accepted_slots = [] }

  unfoldable pub handle_prepare : Ballot → Acceptor V → Acceptor V × Option (MultiSynodMessage V)
  handle_prepare b a =
      if ltb a.ballot b
      then (record a { ballot = b }, some (promise b a.accepted_slots))
      else (a, none)

  unfoldable pub handle_accept :
      Ballot → Slot → V → Acceptor V → Acceptor V × Option (MultiSynodMessage V)
  handle_accept b slot value a =
      if leb a.ballot b
      then (
        record a { ballot = b; accepted_slots = insert slot (b, value) a.accepted_slots },
        some (accepted b slot),
      )
      else (a, none)

  -- `Acceptor::gc`: the slots are removed one by one, and those that were there are counted.
  unfoldable pub gc_slots : List Slot → AcceptedSlots V → AcceptedSlots V × ℕ
  gc_slots [] slots = (slots, 0)
  gc_slots (slot ∷ more) slots =
      let (rest, count) = gc_slots more (remove slot slots) in
      (rest, (if contains_key slot slots then count + 1 else count))

  unfoldable pub acceptor_gc : Slot × Slot → Acceptor V → Acceptor V × ℕ
  unfolding gc_slots range_inclusive
  acceptor_gc (start, end) a =
      let (rest, count) = gc_slots (range_inclusive start end) a.accepted_slots in
      (record a { accepted_slots = rest }, count)

  unfoldable pub acceptor_gc_single : Slot → Acceptor V → Acceptor V
  acceptor_gc_single slot a = record a { accepted_slots = remove slot a.accepted_slots }

  unfoldable pub new : (process_id initial_leader : ProcessId) (n f : ℕ) → MultiSynod V
  unfolding new_leader new_acceptor
  new process_id initial_leader n f = record {
    n = n;
    f = f;
    leader = new_leader process_id initial_leader;
    acceptor = new_acceptor initial_leader;
    commanders = [];
  }

  unfoldable pub submit : V → MultiSynod V → MultiSynod V × MultiSynodMessage V
  unfolding try_submit
  submit value s = elim (try_submit s.leader).1 [
    | some (ballot, slot) ↦
        (record s { leader = (try_submit s.leader).0 }, spawn_commander ballot slot value)
    | none ↦ (record s { leader = (try_submit s.leader).0 }, forward_submit value)
  ]

  unfoldable pub handle_spawn_commander :
      Ballot → Slot → V → MultiSynod V → Outcome (MultiSynod V × MultiSynodMessage V)
  unfolding spawn
  handle_spawn_commander ballot slot value s = elim (get slot s.commanders) [
    | some other ↦ panic
    | none ↦ done (
      record s { commanders = insert slot (spawn s.f ballot value) s.commanders },
      accept ballot slot value,
    )
  ]

  unfoldable pub handle_maccepted :
      ProcessId
      → Ballot
      → Slot
      → MultiSynod V
      → Outcome (MultiSynod V × Option (MultiSynodMessage V))
  unfolding handle_accepted destroy
  handle_maccepted from ballot slot s = elim (get slot s.commanders) [
    | none ↦ done (s, none)
    | some commander ↦
        let (updated, enough) = handle_accepted from ballot commander in
        (if enough
          then (destroy updated >>= λ value.
              done (record s { commanders = remove slot s.commanders }, some (chosen slot value)))
          else done (record s { commanders = insert slot updated s.commanders }, none))
  ]

  unfoldable pub handle :
      ProcessId
      → MultiSynodMessage V
      → MultiSynod V
      → Outcome (MultiSynod V × Option (MultiSynodMessage V))
  unfolding handle_spawn_commander handle_maccepted handle_prepare handle_accept
  handle from (spawn_commander b slot value) s =
      handle_spawn_commander b slot value s >>= λ result. done (result.0, some result.1)
  handle from (prepare b) s =
      let (acceptor, reply) = handle_prepare b s.acceptor in
      done (record s { acceptor = acceptor }, reply)
  handle from (accept b slot value) s =
      let (acceptor, reply) = handle_accept b slot value s.acceptor in
      done (record s { acceptor = acceptor }, reply)
  handle from (promise b previous) s = panic
  handle from (accepted b slot) s = handle_maccepted from b slot s
  handle from (chosen slot value) s = panic
  handle from (forward_submit value) s = panic

  unfoldable pub gc : Slot × Slot → MultiSynod V → MultiSynod V × ℕ
  unfolding acceptor_gc
  gc stable s =
      let (acceptor, count) = acceptor_gc stable s.acceptor in
      (record s { acceptor = acceptor }, count)

  unfoldable pub gc_single : Slot → MultiSynod V → MultiSynod V
  unfolding acceptor_gc_single
  gc_single slot s = record s { acceptor = acceptor_gc_single slot s.acceptor }
