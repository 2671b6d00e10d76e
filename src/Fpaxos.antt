-- ===== src/Fpaxos.antt =====
-- fantoch_ps/src/protocol/fpaxos.rs: the Flexible Paxos protocol with a fixed leader. The vectors of
-- pending actions and of execution infos are stacks, their last element in front here.
pub mod Steps
pub mod Cluster
pub mod Replicas
mod Tests
use fantoch.Prelude.{
  ℕ, Bool, true, false, Option, none, some, List, [], ◌∷◌, Outcome, done, panic, assert, ◌>>=◌,
  ◌>>◌, ◌==◌, u64_partial_eq, if◌then◌else◌,
}
use fantoch.Identifiers.{ProcessId, ShardId, Dot}
use fantoch.Config.{Config, Duration, fpaxos_quorum_size}
use fantoch.Commands.{Command, total_key_count}
use fantoch.Metrics.{command_key_count}
use fantoch.Protocol.{
  Action, to_send, to_forward, leader_worker_index, worker_index_no_shift, worker_index_shift,
}
use fantoch.BaseProcess.{BaseProcess, is_some, expect, discover, collect_metric, count_stable}
use fantoch.BaseProcess
use fantoch.GcTrack.{GcTrack, EventSet, commit_slot, committed_slot, committed_by, stable_slots}
use fantoch.GcTrack
use fantoch.MultiSynod.{
  MultiSynod, MultiSynodMessage, spawn_commander, forward_submit, accept, accepted, chosen, submit,
  handle, gc, gc_single,
}
use fantoch.MultiSynod
use fantoch.SlotExecutor.{SlotExecutionInfo}

pub data Message : Type 0 where
  mforward_submit : (cmd : Command) → Message
  mspawn_commander : (ballot slot : ℕ) (cmd : Command) → Message
  maccept : (ballot slot : ℕ) (cmd : Command) → Message
  maccepted : (ballot slot : ℕ) → Message
  mchosen : (slot : ℕ) (cmd : Command) → Message
  mgarbage_collection : (committed : ℕ) → Message

pub data PeriodicEvent : Type 0 where
  garbage_collection : PeriodicEvent

pub record Fpaxos (E : Type 0) : Type 0 where
  pub bp : BaseProcess
  pub leader : ProcessId
  pub multi_synod : MultiSynod Command
  pub gc_track : GcTrack E
  pub to_processes : List (Action Message)
  pub to_executors : List SlotExecutionInfo

unfoldable pub periodic_events : Config → List (PeriodicEvent × Duration)
periodic_events config = elim config.gc_interval [
  | none ↦ []
  | some interval ↦ (garbage_collection, interval) ∷ []
]

-- `Message::index` and `PeriodicEvent::index`
abbrev pub acceptor_worker_index : ℕ
acceptor_worker_index = 1

unfoldable pub message_index : Message → Outcome (Option (ℕ × ℕ))
unfolding worker_index_no_shift worker_index_shift
message_index (mforward_submit cmd) = worker_index_no_shift leader_worker_index
message_index (maccept ballot slot cmd) = worker_index_no_shift acceptor_worker_index
message_index (mchosen slot cmd) = worker_index_no_shift acceptor_worker_index
message_index (mspawn_commander ballot slot cmd) = done (worker_index_shift slot)
message_index (maccepted ballot slot) = done (worker_index_shift slot)
message_index (mgarbage_collection committed) = worker_index_no_shift acceptor_worker_index

module _ {E : Type 0} ⦃set : EventSet E⦄ where
  unfoldable pub new :
      ProcessId → ShardId → Config → Outcome (Fpaxos E × List (PeriodicEvent × Duration))
  unfolding BaseProcess.new MultiSynod.new GcTrack.new fpaxos_quorum_size periodic_events
  new process_id shard_id config = do
    bp ← BaseProcess.new process_id shard_id config 0 (fpaxos_quorum_size config)
    initial_leader ← expect config.leader
    done (
      record {
        bp = bp;
        leader = initial_leader;
        multi_synod = MultiSynod.new process_id initial_leader config.n config.f;
        gc_track = GcTrack.new process_id config.n;
        to_processes = [];
        to_executors = [];
      },
      periodic_events config,
    )

  abbrev pub push_action : Action Message → Fpaxos E → Fpaxos E
  push_action action p = record p { to_processes = action ∷ p.to_processes }

  -- `discover`
  unfoldable pub discover_processes :
      List (ProcessId × ShardId) → Fpaxos E → Outcome (Fpaxos E × Bool)
  unfolding discover
  discover_processes processes p =
      discover processes p.bp >>= λ found. done (record p { bp = found.0 }, found.1)

  unfoldable pub handle_submit : Command → Fpaxos E → Outcome (Fpaxos E)
  unfolding submit collect_metric
  handle_submit cmd p =
      let (multi_synod, message) = submit cmd p.multi_synod in
      let p' = record p { multi_synod = multi_synod } in
      elim message [
        | spawn_commander ballot slot cmd ↦ done (
            push_action (to_forward (mspawn_commander ballot slot cmd))
              (record p' { bp = collect_metric command_key_count (total_key_count cmd) p.bp }))
        | forward_submit cmd ↦ done (push_action (to_send (p.leader ∷ []) (mforward_submit cmd)) p')
        | _ ↦ panic
      ]

  unfoldable pub handle_mspawn_commander :
      ProcessId → (ballot slot : ℕ) → Command → Fpaxos E → Outcome (Fpaxos E)
  unfolding handle
  handle_mspawn_commander from ballot slot cmd p = do
    assert (from == p.bp.process_id)
    (multi_synod, reply) ← handle from (spawn_commander ballot slot cmd) p.multi_synod
    elim reply [
      | some (accept ballot slot cmd) ↦ expect p.bp.write_quorum >>= λ target. done (
          push_action (to_send target (maccept ballot slot cmd))
            (record p { multi_synod = multi_synod }))
      | _ ↦ panic
    ]

  unfoldable pub handle_maccept :
      ProcessId → (ballot slot : ℕ) → Command → Fpaxos E → Outcome (Fpaxos E)
  unfolding handle
  handle_maccept from ballot slot cmd p = do
    (multi_synod, reply) ← handle from (accept ballot slot cmd) p.multi_synod
    elim reply [
      | some (accepted ballot slot) ↦ done (
          push_action (to_send (from ∷ []) (maccepted ballot slot))
            (record p { multi_synod = multi_synod }))
      | none ↦ done (record p { multi_synod = multi_synod })
      | _ ↦ panic
    ]

  -- The match of `handle_maccepted` on the reply.
  unfoldable pub send_chosen : Option (MultiSynodMessage Command) → Fpaxos E → Outcome (Fpaxos E)
  send_chosen reply p = elim reply [
    | some (chosen slot cmd) ↦
        expect p.bp.all >>= λ target. done (push_action (to_send target (mchosen slot cmd)) p)
    | none ↦ done p
    | _ ↦ panic
  ]

  unfoldable pub handle_maccepted : ProcessId → (ballot slot : ℕ) → Fpaxos E → Outcome (Fpaxos E)
  unfolding handle send_chosen
  handle_maccepted from ballot slot p =
      handle from (accepted ballot slot) p.multi_synod >>= λ result.
      send_chosen result.1 (record p { multi_synod = result.0 })

  unfoldable pub gc_running : Fpaxos E → Bool
  gc_running p = is_some p.bp.config.gc_interval

  unfoldable pub handle_mchosen : (slot : ℕ) → Command → Fpaxos E → Fpaxos E
  unfolding gc_running commit_slot gc_single
  handle_mchosen slot cmd p =
      let p' = record p { to_executors = record { slot = slot; cmd = cmd } ∷ p.to_executors } in
      if gc_running p
      then record p' { gc_track = commit_slot slot p.gc_track }
      else record p' { multi_synod = gc_single slot p.multi_synod }

  unfoldable pub handle_mgc : ProcessId → (committed : ℕ) → Fpaxos E → Fpaxos E
  unfolding committed_by stable_slots gc count_stable
  handle_mgc from committed p =
      let (gc_track, stable) = stable_slots (committed_by from committed p.gc_track) in
      let (multi_synod, stable_count) = gc stable p.multi_synod in
      record p {
        gc_track = gc_track;
        multi_synod = multi_synod;
        bp = count_stable stable_count p.bp;
      }

  unfoldable pub handle_event : PeriodicEvent → Fpaxos E → Outcome (Fpaxos E)
  unfolding committed_slot
  handle_event garbage_collection p = expect p.bp.all_but_me >>= λ target.
      done (push_action (to_send target (mgarbage_collection (committed_slot p.gc_track))) p)

  -- `handle`
  unfoldable pub handle_message : ProcessId → Message → Fpaxos E → Outcome (Fpaxos E)
  unfolding handle_submit handle_mspawn_commander handle_maccept handle_maccepted handle_mchosen
      handle_mgc
  handle_message from (mforward_submit cmd) p = handle_submit cmd p
  handle_message from (mspawn_commander ballot slot cmd) p =
      handle_mspawn_commander from ballot slot cmd p
  handle_message from (maccept ballot slot cmd) p = handle_maccept from ballot slot cmd p
  handle_message from (maccepted ballot slot) p = handle_maccepted from ballot slot p
  handle_message from (mchosen slot cmd) p = done (handle_mchosen slot cmd p)
  handle_message from (mgarbage_collection committed) p = done (handle_mgc from committed p)

  -- `to_processes`
  unfoldable pub pop_action : Fpaxos E → Fpaxos E × Option (Action Message)
  pop_action p = elim p.to_processes [
    | [] ↦ (p, none)
    | action ∷ rest ↦ (record p { to_processes = rest }, some action)
  ]

  -- `to_executors`
  unfoldable pub pop_info : Fpaxos E → Fpaxos E × Option SlotExecutionInfo
  pop_info p = elim p.to_executors [
    | [] ↦ (p, none)
    | info ∷ rest ↦ (record p { to_executors = rest }, some info)
  ]
