-- ===== src/Synod.antt =====
-- fantoch_ps/src/protocol/common/synod/single.rs: flexible single-decree Paxos. Phase 1 waits for
-- `n - f` promises, phase 2 for `f + 1` accepts. A function takes the state and returns the new
-- state with its result; a failed assertion, `expect` or `panic!` is the outcome `panic`.
mod Defs
pub mod Acceptors
pub mod Proposers
pub mod Choice
pub mod Ballots
pub mod Cluster
mod Tests
unfoldable pub use Defs.*
