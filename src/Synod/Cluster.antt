-- ===== src/Synod/Cluster.antt =====
-- fantoch_ps/src/protocol/common/synod/single.rs: `n` processes that run `Synod` over a network.
-- Every packet that was sent stays deliverable, to any process, in any order and any number of
-- times, so packets may be lost, reordered, duplicated and misdelivered; only a promise is
-- delivered at most once, as the TCP connections of the runner see to.
pub mod Invariant
pub mod Quorums
pub mod Network
pub mod Slips
pub mod AcceptorSide
pub mod ProposerSide
pub mod Environment
pub mod Deliveries
pub mod Promises
pub mod Agreement
mod Tests
use fantoch.Prelude.{
  ℕ, ◌≡◌, ◌≢◌, ◌⊎◌, Bool, true, false, Option, none, some, List, [], ◌∷◌, Outcome, done, ◌==◌,
  u64_partial_eq, if◌then◌else◌,
}
use fantoch.Prelude.Maps.{Map}
use fantoch.Identifiers.{ProcessId}
use fantoch.Synod.Defs.{
  Ballot, Accepted, Proposer, Synod, SynodMessage, mchosen, mprepare, maccept, mpromise, maccepted,
  new, set_if_not_accepted, new_prepare, skip_prepare, handle,
}
use fantoch.Synod.Ballots.{IsProcess}

abbrev pub In : {A : Type 0} → A → List A → Type 0
In x [] = ⊥
In x (y ∷ ys) = (x ≡ y) ⊎ In x ys

-- The packets that were sent: messages with the process that sent them.
abbrev pub Sent : Type 0 → Type 0
Sent V = List (ProcessId × SynodMessage V)

module _ {V : Type 0} where
  -- What `process` sends: nothing, or one message.
  abbrev pub post : ProcessId → Option (SynodMessage V) → Sent V → Sent V
  post process none sent = sent
  post process (some message) sent = (process, message) ∷ sent

  abbrev pub put : ProcessId → Synod V → (ProcessId → Synod V) → ProcessId → Synod V
  put process s node q = if process == q then s else node q

  abbrev pub is_promise : SynodMessage V → Bool
  is_promise (mpromise b accepted) = true
  is_promise _ = false

-- Accepts reach only a proposer that waits for them: one with a proposal, or one at its first
-- ballot. Callers send a proposal to `f + 1` processes, so none is left over after a decision.
abbrev pub Waits : {V : Type 0} → Proposer V → Type 0
Waits p = (p.proposal ≢ none) ⊎ (p.ballot ≡ p.process_id)

abbrev pub Awaits : {V : Type 0} → SynodMessage V → Proposer V → Type 0
Awaits (maccepted b) p = Waits p
Awaits _ p = Unit

-- `taken` records whose promise for which ballot has been delivered.
pub record Cluster (V : Type 0) : Type 0 where
  pub node : ProcessId → Synod V
  pub sent : Sent V
  pub taken : List (ProcessId × Ballot)

-- The start: each process has its own initial value and generator.
abbrev pub start :
    {V : Type 0} → (n f : ℕ) → (ProcessId → Map ProcessId V → V) → (ProcessId → V) → Cluster V
start n f proposal_gen initial = record {
  node = λ p. new p n f (proposal_gen p) (initial p);
  sent = [];
  taken = [];
}

-- What a process may do. Only the coordinator skips the prepare phase, as its first ballot, with
-- any value; and no process replaces its value after one was chosen.
pub data Step {V : Type 0} (n : ℕ) (coordinator : ProcessId) (c : Cluster V)
    : Cluster V → Type 0 where
  set :
      (p : ProcessId) (v : V)
      → IsProcess n p
      → (c.node p).chosen ≡ false
      → Step n coordinator c (record c { node = put p (set_if_not_accepted v (c.node p)).0 c.node })
  prepare :
      (p : ProcessId) (s : Synod V) (message : SynodMessage V)
      → IsProcess n p
      → new_prepare (c.node p) ≡ done (s, message)
      → Step n coordinator c (record c { node = put p s c.node; sent = (p, message) ∷ c.sent })
  skip :
      (s : Synod V) (b : Ballot) (v : V)
      → IsProcess n coordinator
      → (c.node coordinator).proposer.ballot ≡ 0
      → skip_prepare (c.node coordinator) ≡ done (s, b)
      → Step n coordinator c
          (record c { node = put coordinator s c.node; sent = (coordinator, maccept b v) ∷ c.sent })
  deliver :
      (p from : ProcessId) (message : SynodMessage V) (s : Synod V)
      (reply : Option (SynodMessage V))
      → IsProcess n p
      → In (from, message) c.sent
      → is_promise message ≡ false
      → Awaits message (c.node p).proposer
      → handle from message (c.node p) ≡ done (s, reply)
      → Step n coordinator c (record c { node = put p s c.node; sent = post p reply c.sent })
  deliver_promise :
      (p from : ProcessId) (b : Ballot) (accepted : Accepted V) (s : Synod V)
      (reply : Option (SynodMessage V))
      → IsProcess n p
      → In (from, mpromise b accepted) c.sent
      → ¬ In (from, b) c.taken
      → handle from (mpromise b accepted) (c.node p) ≡ done (s, reply)
      → Step n coordinator c (record {
        node = put p s c.node;
        sent = post p reply c.sent;
        taken = (from, b) ∷ c.taken;
      })

pub data Reach {V : Type 0} (n : ℕ) (coordinator : ProcessId) (c : Cluster V)
    : Cluster V → Type 0 where
  here : Reach n coordinator c c
  next :
      {d e : Cluster V} → Reach n coordinator c d → Step n coordinator d e → Reach n coordinator c e
