-- ===== src/Lib.antt =====
-- fantoch: a framework for state-machine replication protocols (FPaxos, EPaxos, Atlas, Caesar and
-- Tempo). This library models the parts of its Rust code that decide what the processes agree on and
-- in which order commands run.
--
-- A process submits commands to a protocol. The protocol gets identifiers and quorum sizes from the
-- shared configuration, computes clocks or slots for a command with key clocks and votes, runs Paxos
-- where it needs consensus, and hands committed commands to an executor, which applies them to the
-- key-value store and returns results to the clients.
--
-- Files and the code that they model:
--   Prelude        shared types: Boolean tests with equality as an interface, lists measured by
--                  native numbers, HashMap as an association list, HashSet as a list without
--                  repetitions, u64 arithmetic with wrap-around written out, `Outcome` for a call
--                  that returns or panics, and counting lemmas for quorums.
--   Config         fantoch/src/config.rs: all fields, setters and quorum sizes; Config/Quorums has
--                  the quorum intersections.
--   Identifiers    fantoch/src/id.rs and the identifier functions of fantoch/src/util.rs;
--                  Identifiers/Shards and Identifiers/Generation have their theorems.
--   Synod          fantoch_ps/src/protocol/common/synod/single.rs: Synod/Defs has the proposer, the
--                  acceptor and the message handlers, Synod/Proposers, Acceptors, Choice and Ballots
--                  their properties one process at a time, and Synod/Cluster a system of n processes
--                  over a network as a step relation, with the invariant that leads to agreement.
--   MultiSynod     fantoch_ps/src/protocol/common/synod/multi.rs: leader, commanders, acceptor and
--                  garbage collection, with a child for the theorems of each.
--   Kvs            fantoch/src/kvs.rs and fantoch/src/executor/monitor.rs: the store, operations and
--                  the execution order monitor; Kvs/Refinement relates them to one optional value
--                  for each key.
--   Commands       fantoch/src/command.rs, and ExecutorResult of fantoch/src/executor/mod.rs.
--   SlotExecutor   fantoch_ps/src/executor/slot.rs; SlotExecutor/Order has its specification.
--   Pending        fantoch/src/executor/aggregate.rs and fantoch/src/executor/basic.rs: gathering of
--                  partial results, and the executor without an order; Pending/Gathering has its
--                  theorem.
--   Votes          fantoch_ps/src/protocol/common/table/votes.rs: vote ranges and their compression.
--   KeyClocks      fantoch_ps/src/protocol/common/table/clocks/keys/sequential.rs: proposals and the
--                  votes that they cast.
--   QuorumClocks   fantoch_ps/src/protocol/common/table/clocks/quorum.rs: the clocks reported by a
--                  fast quorum; QuorumClocks/Maximum has its theorem.
--   VotesTable     fantoch_ps/src/executor/table/mod.rs, and Pending of table/executor.rs: the votes
--                  seen on each key and the commands they make stable; VotesTable/Stability is about
--                  the stable clock, VotesTable/Sorting about the sorted map of commands, and
--                  VotesTable/Order about the commands returned over a run.
--                  VotesTable/InOrder is a clock of votes for the tests.
--   TableExecutor  fantoch_ps/src/executor/table/executor.rs: the executor of Tempo, one for each
--                  process; TableExecutor/Queues is about one request on the queue of a key,
--                  TableExecutor/Order about sequences of them, and TableExecutor/Composition about
--                  the handler with its votes tables.
--   QuorumDeps     fantoch_ps/src/protocol/common/graph/deps/quorum.rs: the dependencies reported by
--                  a fast quorum; QuorumDeps/Reports has its theorem.
--   KeyDeps        fantoch_ps/src/protocol/common/graph/deps/keys/mod.rs and sequential.rs: the latest
--                  commands on each key; KeyDeps/Loop has the lemmas on the loops over keys, and
--                  KeyDeps/Conflicts the dependencies over a run.
--   GcTrack        fantoch_ps/src/protocol/common/synod/gc.rs: which slots all processes have
--                  committed; GcTrack/Stability has its theorem.
--   BaseProcess    fantoch/src/protocol/base.rs: discovery, quorums and new dots.
--   Protocol       the actions and metric kinds of fantoch/src/protocol/mod.rs, and the worker indexes
--                  of fantoch/src/lib.rs.
--   Metrics        fantoch/src/metrics/mod.rs and the counting of fantoch/src/metrics/histogram.rs.
--   Fpaxos         fantoch_ps/src/protocol/fpaxos.rs: all handlers of the protocol; Fpaxos/Steps has
--                  what each handler does to the parts of the state, Fpaxos/Cluster the runs of a group
--                  of processes with their executors, and Fpaxos/Replicas their theorem.
-- Modules called Tests hold runs on concrete inputs.
--
-- State and operations. A struct is a record with the source's field names, an enum a data type with
-- its variants in snake case, and a method a function from the state to the new state and the result.
-- A debug_assert! is not part of a release build. A method that can panic (assert!, expect, panic!, todo!) returns an `Outcome`. Where two methods
-- of one file have the same name, the function is named after its agent (new_acceptor,
-- acceptor_set_if_not_accepted), and a method whose name says too little alone after its object
-- (add_vote, pop_to_clients).
--
-- Bounds and fuel. ProcessId, ShardId, Slot, Ballot, clocks and usize are native numbers; additions
-- that can leave a u64 are written with add64, sub64 and mul64, which wrap around as a release build
-- does, and a theorem that needs a counter to fit says so in a hypothesis. The only fuel is that of
-- SlotExecutor.try_next_slot: a round of its loop removes an entry of the map of pending commands,
-- so the number of entries is enough, and the theorem on slot order does not assume otherwise.
-- The f + 1 of a MultiSynod commander is written without wrap-around, since a Config has f
-- at most n / 2. The capacities given to with_capacity are left out, so BaseProcess and
-- GcTrack do not have the panic that an allocation for zero shards or zero processes would be.
-- Theorems about Synod ballots are for process identifiers 1 to n (IsProcess), those of shard 0.
--
-- What Synod/Cluster assumes of the network: packets may be lost, reordered, duplicated and delivered
-- to any process, but a promise is delivered at most once; only the coordinator skips the prepare
-- phase, and as its first ballot; a value is not set once one was chosen; accepts reach a proposer
-- only while it waits for them. Each is a premise of a step, and says how the protocols use the module.
--
-- External code. The sets of committed events and the clock of votes are types of the threshold crate.
-- GcTrack.EventSet and VotesTable.RangeClock are records of the operations that the code calls, and
-- what a theorem needs of them beyond that is a hypothesis with a name (VotesTable.Order.ClockLaws).
--
-- What Fpaxos/Cluster assumes: one worker for each process, so that a handler runs to its end before
-- the next one starts, and the premises that each step states.
--
-- Not modelled. The iteration order of a HashMap, which is that of the list here. The handlers of the
-- other protocols, the graph and predecessors executors, garbage
-- collection of dots, and the concurrent variants of the key clocks and key dependencies. The
-- asynchronous runtime, simulator, clients, latency data, deployment planner, experiments, plots and
-- binaries, which are input and output, random generation, floating-point statistics and start-up code.
pub mod BaseProcess
pub mod Commands
pub mod Config
pub mod Fpaxos
pub mod GcTrack
pub mod Identifiers
pub mod KeyClocks
pub mod KeyDeps
pub mod Kvs
pub mod Metrics
pub mod MultiSynod
pub mod Pending
pub mod Prelude
pub mod Protocol
pub mod QuorumClocks
pub mod QuorumDeps
pub mod SlotExecutor
pub mod Synod
pub mod TableExecutor
pub mod Votes
pub mod VotesTable
