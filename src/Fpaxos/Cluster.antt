-- ===== src/Fpaxos/Cluster.antt =====
-- fantoch_ps/src/protocol/fpaxos.rs with fantoch_ps/src/executor/slot.rs: the processes of a shard,
-- each with its executor, over a network that loses, reorders, duplicates and misdirects packets.
-- Each process is one worker.
use fantoch.Prelude.{
  ◌+◌, ◌≤◌, ◌≡◌, Bool, some, List, [], ◌∷◌, ◌++◌, map, done, ◌==◌, u64_partial_eq, if◌then◌else◌,
  word,
}
use mathlib.Core.Logic.{◌⊎◌}
use fantoch.Identifiers.{ProcessId, ShardId}
use fantoch.Config.{Config}
use fantoch.Commands.{Command}
use fantoch.Protocol.{to_send, to_forward}
use fantoch.GcTrack.{EventSet}
use fantoch.SlotExecutor.{SlotExecutor, SlotExecutionInfo}
use fantoch.SlotExecutor
use fantoch.Fpaxos.{
  Message, PeriodicEvent, Fpaxos, new, periodic_events, discover_processes, handle_submit,
  handle_message, handle_event, pop_action, pop_info,
}

pub record Packet : Type 0 where
  pub source : ProcessId
  pub target : ProcessId
  pub message : Message

pub record System (E : Type 0) : Type 0 where
  pub processes : ProcessId → Fpaxos E
  pub executors : ProcessId → SlotExecutor
  pub network : List Packet

abbrev pub update {ℓ} : {A : Type ℓ} → (ProcessId → A) → ProcessId → A → ProcessId → A
update f p a q = if p == q then a else f q

abbrev pub IsSent : Packet → List Packet → Type 0
IsSent packet [] = ⊥
IsSent packet (sent ∷ network) = (packet ≡ sent) ⊎ IsSent packet network

abbrev pub packets : ProcessId → List ProcessId → Message → List Packet
packets source targets message =
    map (λ target. record { source = source; target = target; message = message }) targets

-- The leader has a slot to give that fits in a u64, with the one after it.
abbrev pub HasSlots : {E : Type 0} → Fpaxos E → Type 0
HasSlots p = p.multi_synod.leader.last_slot + 3 ≤ word

abbrev pub with_process : {E : Type 0} → System E → ProcessId → Fpaxos E → System E
with_process s p process = record s { processes = update s.processes p process }

module _ {E : Type 0} ⦃set : EventSet E⦄ where
  pub data Step (s : System E) : System E → Type 0 where
    discover :
        (p : ProcessId) (sorted : List (ProcessId × ShardId)) (process : Fpaxos E)
        (connected : Bool)
        → 1 ≤ p
        → discover_processes sorted (s.processes p) ≡ done (process, connected)
        → Step s (with_process s p process)
    submit :
        (p : ProcessId) (cmd : Command) (process : Fpaxos E)
        → 1 ≤ p
        → HasSlots (s.processes p)
        → handle_submit cmd (s.processes p) ≡ done process
        → Step s (with_process s p process)
    -- a packet stays in the network, and may reach a process it was not sent to
    deliver :
        (p : ProcessId) (packet : Packet) (process : Fpaxos E)
        → 1 ≤ p
        → IsSent packet s.network
        → HasSlots (s.processes p)
        → handle_message packet.source packet.message (s.processes p) ≡ done process
        → Step s (with_process s p process)
    happen :
        (p : ProcessId) (event : PeriodicEvent) (process : Fpaxos E)
        → 1 ≤ p
        → handle_event event (s.processes p) ≡ done process
        → Step s (with_process s p process)
    send :
        (p : ProcessId) (targets : List ProcessId) (message : Message) (process : Fpaxos E)
        → 1 ≤ p
        → pop_action (s.processes p) ≡ (process, some (to_send targets message))
        → Step s (record s {
          processes = update s.processes p process;
          network = packets p targets message ++ s.network;
        })
    -- a process handles what it forwards to itself at once
    forward :
        (p : ProcessId) (message : Message) (popped process : Fpaxos E)
        → 1 ≤ p
        → HasSlots popped
        → pop_action (s.processes p) ≡ (popped, some (to_forward message))
        → handle_message p message popped ≡ done process
        → Step s (with_process s p process)
    execute :
        (p : ProcessId) (info : SlotExecutionInfo) (process : Fpaxos E) (executor : SlotExecutor)
        → 1 ≤ p
        → pop_info (s.processes p) ≡ (process, some info)
        → SlotExecutor.handle info (s.executors p) ≡ done executor
        → Step s (record s {
          processes = update s.processes p process;
          executors = update s.executors p executor;
        })

  -- Processes that were just created from one configuration.
  pub record Starts (shard_id : ShardId) (config : Config) (s : System E) : Type 0 where
    pub processes :
        (p : ProcessId)
        → 1 ≤ p
        → new p shard_id config ≡ done (s.processes p, periodic_events config)
    pub executors : (p : ProcessId) → 1 ≤ p → s.executors p ≡ SlotExecutor.new shard_id config
    pub network : s.network ≡ []

  pub data Reach (s : System E) : System E → Type 0 where
    here : Reach s s
    next : {t u : System E} → Reach s t → Step t u → Reach s u
