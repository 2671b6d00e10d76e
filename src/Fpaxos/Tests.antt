-- ===== src/Fpaxos/Tests.antt =====
-- A run of three FPaxos processes: the leader 1 gets a command, which the processes 1 and 2 accept and
-- execute.
use fantoch.Prelude.{
  string_partial_eq, ℕ, zero, suc, ◌≡◌, refl, length, add64, sub64, Bool, true, ◌++◌, none, some,
  List, [], ◌∷◌, Outcome, done, panic, u64_partial_eq, if◌then◌else◌, inl, inr, arith,
}
use fantoch.Prelude.Maps.{get, insert, remove, contains_key}
use fantoch.Prelude.Sets.{add, contains}
use fantoch.Identifiers.{ProcessId, ShardId}
use fantoch.Config.{Config, default_config, fpaxos_quorum_size, majority_quorum_size}
use fantoch.Kvs
use fantoch.Kvs.{write}
use fantoch.Commands
use fantoch.Commands.{Command, from_ops, total_key_count}
use fantoch.Protocol.{to_send}
use fantoch.BaseProcess
use fantoch.GcTrack.{EventSet, GcTrack}
use fantoch.GcTrack
use fantoch.MultiSynod
use fantoch.SlotExecutor
use fantoch.SlotExecutor.{SlotExecutor}
use fantoch.Fpaxos.{
  Message, mspawn_commander, maccept, maccepted, mchosen, Fpaxos, new, discover_processes,
  handle_submit, handle_message, pop_action, pop_info,
}
use fantoch.Fpaxos.Cluster.{System, update, packets, with_process, Step, Starts, Reach, here, next}
use fantoch.Fpaxos.Replicas.{replicas_agree}

-- The slots up to a number without a gap are counted by a list of all slots.
abbrev frontier_from : ℕ → ℕ → List ℕ → ℕ
frontier_from zero slot events = slot
frontier_from (suc fuel) slot events =
    let more = frontier_from fuel (suc slot) events in
    if contains (suc slot) events then more else slot

abbrev slots : EventSet (List ℕ)
slots = record {
  empty = [];
  add_event = λ slot events. slot ∷ events;
  frontier = λ events. frontier_from (length events) 0 events;
}

abbrev config : Config
config = record (default_config 3 1) { leader = some 1 }

abbrev process : ProcessId → Fpaxos (List ℕ)
process p = record {
  bp = record {
    process_id = p;
    shard_id = 0;
    config = config;
    all = none;
    all_but_me = none;
    majority_quorum = none;
    fast_quorum = none;
    write_quorum = none;
    closest_shard_process = [];
    fast_quorum_size = 0;
    write_quorum_size = fpaxos_quorum_size config;
    dot_gen = record { source = p; last_sequence = 0 };
    metrics = record { collected = []; aggregated = [] };
  };
  leader = 1;
  multi_synod = MultiSynod.new p 1 3 1;
  gc_track = GcTrack.new ⦃set = slots⦄ p 3;
  to_processes = [];
  to_executors = [];
}

abbrev start : System (List ℕ)
start = record { processes = process; executors = λ p. SlotExecutor.new 0 config; network = [] }

start-Starts : Starts ⦃set = slots⦄ 0 config start
unfolding new BaseProcess.new
start-Starts = record {
  processes = λ p low. ground (arith, low);
  executors = λ p low. refl;
  network = refl;
}

-- What the run computes with.
runs : Unit {0}
unfolding new BaseProcess.new discover_processes handle_submit handle_message pop_action pop_info
    SlotExecutor.handle SlotExecutor.try_next_slot SlotExecutor.execute SlotExecutor.new
    Commands.execute Kvs.execute Kvs.new from_ops MultiSynod.new MultiSynod.new_leader
    fpaxos_quorum_size majority_quorum_size insert get remove add contains contains_key add64 sub64
    total_key_count
runs = tt

abbrev or_else : {A : Type 0} → A → Outcome A → A
or_else other (done a) = a
or_else other panic = other

abbrev command : Command
command = from_ops (record { source = 10; sequence = 1 }) (("a", write "x") ∷ [])

abbrev step_of :
    System (List ℕ) → ProcessId → (Fpaxos (List ℕ) → Outcome (Fpaxos (List ℕ))) → System (List ℕ)
step_of s p f = with_process s p (or_else (s.processes p) (f (s.processes p)))

abbrev delivered_to : ProcessId → ProcessId → Message → System (List ℕ) → System (List ℕ)
delivered_to p from message s = step_of s p (handle_message ⦃set = slots⦄ from message)

abbrev sent_by : ProcessId → List ProcessId → Message → System (List ℕ) → System (List ℕ)
sent_by p targets message s = record s {
  processes = update s.processes p (pop_action ⦃set = slots⦄ (s.processes p)).0;
  network = packets p targets message ++ s.network;
}

abbrev executed_by : ProcessId → System (List ℕ) → System (List ℕ)
executed_by p s = record s {
  processes = update s.processes p (pop_info ⦃set = slots⦄ (s.processes p)).0;
  executors = update s.executors p (
      or_else (s.executors p)
        (SlotExecutor.handle (record { slot = 1; cmd = command }) (s.executors p)));
}

abbrev sorted : List (ProcessId × ShardId)
sorted = (1, 0) ∷ (2, 0) ∷ (3, 0) ∷ []

abbrev found : Outcome (Fpaxos (List ℕ) × Bool) → Outcome (Fpaxos (List ℕ))
found (done r) = done r.0
found panic = panic

abbrev s1 : System (List ℕ)
s1 = step_of start 1 (λ x. found (discover_processes ⦃set = slots⦄ sorted x))

abbrev s2 : System (List ℕ)
s2 = step_of s1 1 (handle_submit ⦃set = slots⦄ command)

abbrev s3 : System (List ℕ)
s3 = step_of s2 1 (λ x.
    handle_message ⦃set = slots⦄ 1 (mspawn_commander 1 1 command) (pop_action ⦃set = slots⦄ x).0)

abbrev s4 : System (List ℕ)
s4 = sent_by 1 (1 ∷ 2 ∷ []) (maccept 1 1 command) s3

s3_lem : (s3.processes 1).to_processes ≡ to_send (1 ∷ 2 ∷ []) (maccept 1 1 command) ∷ []
unfolding runs
s3_lem = refl

abbrev s5 : System (List ℕ)
s5 = delivered_to 1 1 (maccept 1 1 command) s4

abbrev s6 : System (List ℕ)
s6 = delivered_to 2 1 (maccept 1 1 command) s5

abbrev s7 : System (List ℕ)
s7 = sent_by 1 (1 ∷ []) (maccepted 1 1) s6

abbrev s8 : System (List ℕ)
s8 = sent_by 2 (1 ∷ []) (maccepted 1 1) s7

abbrev s9 : System (List ℕ)
s9 = delivered_to 1 1 (maccepted 1 1) s8

abbrev s10 : System (List ℕ)
s10 = delivered_to 1 2 (maccepted 1 1) s9

abbrev s11 : System (List ℕ)
s11 = sent_by 1 (1 ∷ 2 ∷ 3 ∷ []) (mchosen 1 command) s10

abbrev s12 : System (List ℕ)
s12 = delivered_to 1 1 (mchosen 1 command) s11

abbrev s13 : System (List ℕ)
s13 = delivered_to 2 1 (mchosen 1 command) s12

abbrev s14 : System (List ℕ)
s14 = executed_by 1 s13

abbrev s15 : System (List ℕ)
s15 = executed_by 2 s14

abbrev RunStep : (s t : System (List ℕ)) → Type 0
RunStep s t = Step ⦃set = slots⦄ s t

step1 : RunStep start s1
unfolding runs
step1 = Step.discover 1 sorted (s1.processes 1) true (omega arith) refl

step2 : RunStep s1 s2
unfolding runs
step2 = Step.submit 1 command (s2.processes 1) (omega arith) (omega arith) refl

step3 : RunStep s2 s3
unfolding runs
step3 =
    Step.forward 1 (mspawn_commander 1 1 command) (pop_action ⦃set = slots⦄ (s2.processes 1)).0
      (s3.processes 1) (omega arith) (omega arith) refl refl

step4 : RunStep s3 s4
unfolding runs
step4 = Step.send 1 (1 ∷ 2 ∷ []) (maccept 1 1 command) (s4.processes 1) (omega arith) refl

step5 : RunStep s4 s5
unfolding runs
step5 =
    Step.deliver 1 (record { source = 1; target = 1; message = maccept 1 1 command })
      (s5.processes 1) (omega arith) (inl refl) (omega arith) refl

step6 : RunStep s5 s6
unfolding runs
step6 =
    Step.deliver 2 (record { source = 1; target = 2; message = maccept 1 1 command })
      (s6.processes 2) (omega arith) (inr (inl refl)) (omega arith) refl

step7 : RunStep s6 s7
unfolding runs
step7 = Step.send 1 (1 ∷ []) (maccepted 1 1) (s7.processes 1) (omega arith) refl

step8 : RunStep s7 s8
unfolding runs
step8 = Step.send 2 (1 ∷ []) (maccepted 1 1) (s8.processes 2) (omega arith) refl

step9 : RunStep s8 s9
unfolding runs
step9 =
    Step.deliver 1 (record { source = 1; target = 1; message = maccepted 1 1 }) (s9.processes 1)
      (omega arith) (inr (inl refl)) (omega arith) refl

step10 : RunStep s9 s10
unfolding runs
step10 =
    Step.deliver 1 (record { source = 2; target = 1; message = maccepted 1 1 }) (s10.processes 1)
      (omega arith) (inl refl) (omega arith) refl

step11 : RunStep s10 s11
unfolding runs
step11 = Step.send 1 (1 ∷ 2 ∷ 3 ∷ []) (mchosen 1 command) (s11.processes 1) (omega arith) refl

step12 : RunStep s11 s12
unfolding runs
step12 =
    Step.deliver 1 (record { source = 1; target = 1; message = mchosen 1 command })
      (s12.processes 1) (omega arith) (inl refl) (omega arith) refl

step13 : RunStep s12 s13
unfolding runs
step13 =
    Step.deliver 2 (record { source = 1; target = 2; message = mchosen 1 command })
      (s13.processes 2) (omega arith) (inr (inl refl)) (omega arith) refl

step14 : RunStep s13 s14
unfolding runs
step14 =
    Step.execute 1 (record { slot = 1; cmd = command }) (s14.processes 1) (s14.executors 1)
      (omega arith) refl refl

step15 : RunStep s14 s15
unfolding runs
step15 =
    Step.execute 2 (record { slot = 1; cmd = command }) (s15.processes 2) (s15.executors 2)
      (omega arith) refl refl

run_of_fifteen : Reach ⦃set = slots⦄ start s15
run_of_fifteen =
    next
      (next
        (next
          (next
            (next
              (next
                (next
                  (next
                    (next
                      (next (next (next (next (next (next here step1) step2) step3) step4) step5)
                        step6)
                      step7)
                    step8)
                  step9)
                step10)
              step11)
            step12)
          step13)
        step14)
      step15

replicas_agree_example :
    ((s15.executors 1).store ≡ (s15.executors 2).store)
    × ((s15.executors 1).to_clients ≡ (s15.executors 2).to_clients)
unfolding runs
replicas_agree_example =
    replicas_agree ⦃set = slots⦄ 1 0 config start s15 1 2 refl refl start-Starts run_of_fifteen
      (omega arith) (omega arith) refl

stored : get "a" (s15.executors 2).store.store ≡ some "x"
unfolding runs
stored = refl
