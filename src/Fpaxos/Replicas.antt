-- ===== src/Fpaxos/Replicas.antt =====
-- fantoch_ps/src/protocol/fpaxos.rs with fantoch_ps/src/executor/slot.rs: the states that a group of
-- processes reaches.
use fantoch.Prelude.{
  ℕ, suc, ◌+◌, ◌≤◌, ◌≡◌, refl, ap, sym, ◌∙◌, subst, inl, inr, true, false, some, List, [], ◌∷◌,
  ◌++◌, done, >>=-eq-done, ◌==◌, u64_partial_eq, Bool-cases, Option-cases, word, arith,
}
use fantoch.Prelude.Maps.{Map, get}
use fantoch.Identifiers.{ProcessId, ShardId}
use fantoch.Config.{Config, fpaxos_quorum_size}
use fantoch.BaseProcess
use fantoch.GcTrack
use fantoch.MultiSynod
use fantoch.Commands.{Command}
use fantoch.Kvs.{KvStore}
use fantoch.Kvs
use fantoch.Protocol.{to_send, to_forward}
use fantoch.GcTrack.{EventSet}
use fantoch.MultiSynod.{Slot, Leader}
use fantoch.SlotExecutor
use fantoch.SlotExecutor.{SlotExecutor, SlotExecutionInfo}
use fantoch.SlotExecutor.Order.{Follows, new-Follows}
use fantoch.SlotExecutor.Handling.{handle_done-Follows, Follows-common}
use fantoch.Fpaxos.{Message, Fpaxos, new, periodic_events}
use fantoch.Fpaxos.Steps.{
  MessageAgrees, InfoAgrees, Agrees, Extends, Extends-fresh, MessageAgrees-Extends, Agrees-Extends,
  Kept, Progress, HasRoom, handle_submit-Progress, handle_message-Progress, handle_event-Kept,
  discover_processes-Kept, pop_action-Agrees, pop_info-Agrees,
}
use fantoch.Fpaxos.Cluster.{
  Packet, System, update, IsSent, packets, HasSlots, with_process, Step, Starts, Reach, here, next,
}

update_all {ℓ κ} :
    {A : Type ℓ} (P : ProcessId → A → Type κ) (f : ProcessId → A) (p : ProcessId) (a : A)
    → P p a
    → ((q : ProcessId) → 1 ≤ q → (p == q) ≡ false → P q (f q))
    → (q : ProcessId) → 1 ≤ q
    → P q (update f p a q)
update_all P f p a h others q low = elim (Bool-cases (p == q)) [
  | inl same ↦ let here : p ≡ q = ground arith in rw same (subst (λ r. P r a) here h)
  | inr other ↦ rw other (others q low other)
]

-- The one process whose identifier is `leader` leads, and every slot of the log is one of its.
abbrev Leads : ProcessId → Map Slot Command → ProcessId → Leader → Type 0
Leads leader log q l =
    (l.is_leader ≡ (q == leader))
    × (l.is_leader ≡ true → (i : Slot) (cmd : Command) → get i log ≡ some cmd → i ≤ l.last_slot)

abbrev Obeys : {E : Type 0} → ProcessId → Map Slot Command → ProcessId → Fpaxos E → Type 0
Obeys leader log q x = Leads leader log q x.multi_synod.leader × Agrees log x

abbrev Fits : Map Slot Command → Type 0
Fits log = (i : Slot) (cmd : Command) → get i log ≡ some cmd → i + 2 ≤ word

-- The executor has run a part of the log.
abbrev Executes : ShardId → KvStore → Map Slot Command → SlotExecutor → Type 0
Executes shard_id store log e =
    (mine : Map Slot Command) × (count : ℕ) × Follows mine store count e
    × (e.shard_id ≡ shard_id)
    × Extends mine log

Executes-Extends :
    (shard_id : ShardId) (store : KvStore) (log log' : Map Slot Command) (e : SlotExecutor)
    → Extends log log'
    → Executes shard_id store log e
    → Executes shard_id store log' e
Executes-Extends shard_id store log log' e wider (mine, count, f, same, part) =
    (mine, count, f, same, λ i cmd held. wider i cmd (part i cmd held))

first_or_old :
    (slot i : Slot) (cmd c : Command) (log : Map Slot Command) (P : Slot → Type 0)
    → P slot
    → ((j : Slot) (d : Command) → get j log ≡ some d → P j)
    → get i ((slot, cmd) ∷ log) ≡ some c
    → P i
unfolding get
first_or_old slot i cmd c log P first old held = elim (Bool-cases (slot == i)) [
  | inl same ↦ let here : slot ≡ i = ground arith in subst P here first
  | inr other ↦ old i c (ground (arith, held, other))
]

sent_packets :
    (log : Map Slot Command) (p : ProcessId) (targets : List ProcessId) (message : Message)
    (network : List Packet)
    → MessageAgrees log message
    → ((packet : Packet) → IsSent packet network → MessageAgrees log packet.message)
    → (packet : Packet) → IsSent packet (packets p targets message ++ network)
    → MessageAgrees log packet.message
sent_packets log p [] message network agrees old packet there = old packet there
sent_packets log p (target ∷ targets) message network agrees old packet (inl first) =
    subst (λ (x : Packet). MessageAgrees log x.message) (sym first) agrees
sent_packets log p (target ∷ targets) message network agrees old packet (inr later) =
    sent_packets log p targets message network agrees old packet later

part_with :
    (slot i : Slot) (cmd c : Command) (mine log : Map Slot Command)
    → get slot log ≡ some cmd
    → Extends mine log
    → get i ((slot, cmd) ∷ mine) ≡ some c
    → get i log ≡ some c
unfolding get
part_with slot i cmd c mine log there part held = elim (Bool-cases (slot == i)) [
  | inl same ↦
      let here : slot ≡ i = ground arith in
      let equal : some cmd ≡ some c = ground (arith, held, same) in
      subst (λ j. get j log ≡ some cmd) here there ∙ equal
  | inr other ↦ part i c (ground (arith, held, other))
]

module _ {E : Type 0} (leader : ProcessId) (shard_id : ShardId) (store : KvStore) where
  record Invariant (log : Map Slot Command) (s : System E) : Type 0 where
    fits : Fits log
    obeys : (q : ProcessId) → 1 ≤ q → Obeys leader log q (s.processes q)
    sent : (packet : Packet) → IsSent packet s.network → MessageAgrees log packet.message
    executes : (q : ProcessId) → 1 ≤ q → Executes shard_id store log (s.executors q)

  Kept-Invariant :
      (log : Map Slot Command) (s : System E) (p : ProcessId) (x : Fpaxos E)
      → Invariant log s
      → 1 ≤ p
      → Kept log (s.processes p) x
      → Invariant log (with_process s p x)
  Kept-Invariant log s p x inv low (agrees, same) = record {
    fits = inv.fits;
    obeys =
        update_all (Obeys leader log) s.processes p x
          (subst (Leads leader log p) (sym same) (inv.obeys p low).0, agrees)
          (λ q low' other. inv.obeys q low');
    sent = inv.sent;
    executes = inv.executes;
  }

  -- One process changed, and perhaps assigned a slot.
  Progress-Invariant :
      (log : Map Slot Command) (s : System E) (p : ProcessId) (before x : Fpaxos E)
      → Invariant log s
      → 1 ≤ p
      → HasSlots before
      → before.multi_synod.leader ≡ (s.processes p).multi_synod.leader
      → HasRoom log before
      → Progress log before x
      → (log' : Map Slot Command) × Invariant log' (with_process s p x)
  Progress-Invariant log s p before x inv low slots unchanged room (inl (agrees, same)) =
      (log, Kept-Invariant log s p x inv low (agrees, same ∙ unchanged))
  Progress-Invariant log s p before x inv low slots unchanged room
        (inr (cmd, (leads, agrees, same))) =
      let slot = suc before.multi_synod.leader.last_slot in
      let log' = (slot, cmd) ∷ log in
      let wider = Extends-fresh slot cmd log (room.1 leads) in
      let mine : Leads leader log p before.multi_synod.leader =
        subst (Leads leader log p) (sym unchanged) (inv.obeys p low).0 in
      (
        log',
        record {
          fits = λ i c held.
              first_or_old slot i cmd c log (λ k. k + 2 ≤ word) (omega arith) inv.fits held;
          obeys =
              update_all (Obeys leader log') s.processes p x
                (
                  subst (Leads leader log' p) (sym same) (
                    mine.0,
                    λ _ i c held.
                        first_or_old slot i cmd c log (λ k. k ≤ slot) (omega arith)
                          (λ j d old. omega (arith, mine.1 leads j d old)) held,
                  ),
                  agrees,
                )
                (λ q low' other.
                  let theirs = inv.obeys q low' in
                  (
                    (
                      theirs.0.0,
                      λ too. absurd (ground (arith, theirs.0.0, mine.0, too, leads, other)),
                    ),
                    Agrees-Extends log log' (s.processes q) wider theirs.1,
                  ));
          sent = λ packet there.
              MessageAgrees-Extends log log' packet.message wider (inv.sent packet there);
          executes = λ q low'.
              Executes-Extends shard_id store log log' (s.executors q) wider (inv.executes q low');
        },
      )

  HasRoom-of :
      (log : Map Slot Command) (s : System E) (p : ProcessId) (before : Fpaxos E)
      → Invariant log s
      → 1 ≤ p
      → before.multi_synod.leader ≡ (s.processes p).multi_synod.leader
      → HasSlots before
      → HasRoom log before
  HasRoom-of log s p before inv low unchanged slots =
      let mine : Leads leader log p before.multi_synod.leader =
        subst (Leads leader log p) (sym unchanged) (inv.obeys p low).0 in
      (
        slots,
        λ leads. elim (Option-cases (get (suc before.multi_synod.leader.last_slot) log)) [
          | inl free ↦ free
          | inr (cmd, held) ↦ absurd (omega (arith, mine.1 leads _ cmd held))
        ],
      )

  Sent-Invariant :
      (log : Map Slot Command) (s : System E) (p : ProcessId) (targets : List ProcessId)
      (message : Message)
      → Invariant log s
      → MessageAgrees log message
      → Invariant log (record s { network = packets p targets message ++ s.network })
  Sent-Invariant log s p targets message inv agrees = record {
    fits = inv.fits;
    obeys = inv.obeys;
    sent = sent_packets log p targets message s.network agrees inv.sent;
    executes = inv.executes;
  }

  Executed-Invariant :
      (log : Map Slot Command) (s : System E) (p : ProcessId) (info : SlotExecutionInfo)
      (e : SlotExecutor)
      → Invariant log s
      → 1 ≤ p
      → InfoAgrees log info
      → SlotExecutor.handle info (s.executors p) ≡ done e
      → Invariant log (record s { executors = update s.executors p e })
  Executed-Invariant log s p info e inv low agrees h =
      let (mine, count, follows, shard, part) = inv.executes p low in
      let (total, follows', shard', fresh) =
        handle_done-Follows mine store count (s.executors p) e info follows
          (inv.fits info.slot info.cmd agrees) h in
      record {
        fits = inv.fits;
        obeys = inv.obeys;
        sent = inv.sent;
        executes =
            update_all (λ q. Executes shard_id store log) s.executors p e
              (
                (info.slot, info.cmd) ∷ mine,
                total,
                follows',
                shard' ∙ shard,
                λ i c held. part_with info.slot i info.cmd c mine log agrees part held,
              )
              (λ q low' other. inv.executes q low');
      }

module _ {E : Type 0} ⦃set : EventSet E⦄ (leader : ProcessId) (shard_id : ShardId)
    (store : KvStore) where
  Step-Invariant :
      (log : Map Slot Command) {s t : System E}
      → Invariant leader shard_id store log s
      → Step s t
      → (log' : Map Slot Command) × Invariant leader shard_id store log' t
  Step-Invariant log {s} inv (Step.discover p sorted x connected low h) = (
    log,
    Kept-Invariant leader shard_id store log s p x inv low
        (discover_processes-Kept log sorted (s.processes p) x connected (inv.obeys p low).1 h),
  )
  Step-Invariant log {s} inv (Step.submit p cmd x low slots h) =
      let room = HasRoom-of leader shard_id store log s p (s.processes p) inv low refl slots in
      Progress-Invariant leader shard_id store log s p (s.processes p) x inv low slots refl room
        (handle_submit-Progress log cmd (s.processes p) x (inv.obeys p low).1 room h)
  Step-Invariant log {s} inv (Step.deliver p packet x low there slots h) =
      let room = HasRoom-of leader shard_id store log s p (s.processes p) inv low refl slots in
      Progress-Invariant leader shard_id store log s p (s.processes p) x inv low slots refl room (
        handle_message-Progress log packet.source packet.message (s.processes p) x
          (inv.obeys p low).1 room (inv.sent packet there) h)
  Step-Invariant log {s} inv (Step.happen p event x low h) = (
    log,
    Kept-Invariant leader shard_id store log s p x inv low
        (handle_event-Kept log event (s.processes p) x (inv.obeys p low).1 h),
  )
  Step-Invariant log {s} inv (Step.send p targets message x low h) =
      let (agrees, kept) =
        pop_action-Agrees log (s.processes p) x (to_send targets message) (inv.obeys p low).1 h in
      (
        log,
        Sent-Invariant leader shard_id store log (with_process s p x) p targets message
            (Kept-Invariant leader shard_id store log s p x inv low kept) agrees,
      )
  Step-Invariant log {s} inv (Step.forward p message popped x low slots h k) =
      let (agrees, kept) =
        pop_action-Agrees log (s.processes p) popped (to_forward message) (inv.obeys p low).1 h in
      let room = HasRoom-of leader shard_id store log s p popped inv low kept.1 slots in
      Progress-Invariant leader shard_id store log s p popped x inv low slots kept.1 room
        (handle_message-Progress log p message popped x kept.0 room agrees k)
  Step-Invariant log {s} inv (Step.execute p info x e low h k) =
      let (agrees, kept) = pop_info-Agrees log (s.processes p) x info (inv.obeys p low).1 h in
      (
        log,
        Executed-Invariant leader shard_id store log (with_process s p x) p info e
            (Kept-Invariant leader shard_id store log s p x inv low kept) low agrees k,
      )

  Reach-Invariant :
      (log : Map Slot Command) {s t : System E}
      → Invariant leader shard_id store log s
      → Reach s t
      → (log' : Map Slot Command) × Invariant leader shard_id store log' t
  Reach-Invariant log inv here = (log, inv)
  Reach-Invariant log inv (next r step) =
      let (log', inv') = Reach-Invariant log inv r in Step-Invariant log' inv' step

module _ {E : Type 0} ⦃set : EventSet E⦄ where
  new-Obeys :
      (leader p : ProcessId) (shard_id : ShardId) (config : Config) (x : Fpaxos E)
      → config.leader ≡ some leader
      → new p shard_id config ≡ done (x, periodic_events config)
      → Obeys leader [] p x
  unfolding new get MultiSynod.new MultiSynod.new_leader
  new-Obeys leader p shard_id config x known h =
      let (bp, made, k) =
        >>=-eq-done (BaseProcess.new p shard_id config 0 (fpaxos_quorum_size config)) _ h in
      let first : Fpaxos E = record {
        bp = bp;
        leader = leader;
        multi_synod = MultiSynod.new p leader config.n config.f;
        gc_track = GcTrack.new p config.n;
        to_processes = [];
        to_executors = [];
      } in
      let same : first ≡ x = ground (arith, k, known) in
      subst (Obeys leader [] p) same (
        (refl, λ leads i cmd held. absurd (ground arith)),
        record { commanders = λ slot c held. absurd (ground arith); actions = tt; infos = tt },
      )

  Starts-Invariant :
      (leader : ProcessId) (shard_id : ShardId) (config : Config) (s : System E)
      → config.leader ≡ some leader
      → config.execute_at_commit ≡ false
      → Starts shard_id config s
      → Invariant leader shard_id (Kvs.new config.executor_monitor_execution_order) [] s
  unfolding get SlotExecutor.new
  Starts-Invariant leader shard_id config s known later starts = record {
    fits = λ i cmd held. absurd (ground arith);
    obeys =
        λ q low. new-Obeys leader q shard_id config (s.processes q) known (starts.processes q low);
    sent = λ packet there. absurd (subst (IsSent packet) starts.network there);
    executes = λ q low. (
      [],
      0,
      subst (Follows [] (Kvs.new config.executor_monitor_execution_order) 0)
          (sym (starts.executors q low)) (new-Follows shard_id config later),
      ap (λ (e : SlotExecutor). e.shard_id) (starts.executors q low),
      λ i cmd held. held,
    );
  }

  -- In every run of a group of FPaxos processes and their executors, which were created from one
  -- configuration that names the leader and does not execute at commit: two processes that have
  -- executed the same number of slots have equal stores, and have produced equal results. The
  -- network may lose, reorder, duplicate and misdirect packets, and the leader keeps the last three
  -- slots of a u64 free.
  pub replicas_agree :
      (leader : ProcessId) (shard_id : ShardId) (config : Config) (s t : System E) (p q : ProcessId)
      → config.leader ≡ some leader
      → config.execute_at_commit ≡ false
      → Starts shard_id config s
      → Reach s t
      → 1 ≤ p
      → 1 ≤ q
      → (t.executors p).next_slot ≡ (t.executors q).next_slot
      → ((t.executors p).store ≡ (t.executors q).store)
        × ((t.executors p).to_clients ≡ (t.executors q).to_clients)
  replicas_agree leader shard_id config s t p q known later starts reach low low' slots =
      let store = Kvs.new config.executor_monitor_execution_order in
      let (log, inv) =
        Reach-Invariant leader shard_id store []
          (Starts-Invariant leader shard_id config s known later starts) reach in
      let (mine, m, f, shard, part) = inv.executes p low in
      let (theirs, n, g, shard', part') = inv.executes q low' in
      Follows-common log mine theirs store m n (t.executors p) (t.executors q) part part' f g
        (shard ∙ sym shard') slots
