-- ===== src/Synod/Cluster/AcceptorSide.antt =====
-- How a process's part of the invariant follows the changes of its acceptor.
use fantoch.Prelude.{ℕ, ◌≤◌, ◌≡◌, refl, true, false, List, u64_partial_eq, arith}
use native.Mathlib.Nat.{le_trans, le_refl}
use fantoch.Identifiers.{ProcessId}
use fantoch.Synod.Defs.{Ballot, Synod, mchosen}
use fantoch.Synod.Cluster.{In, Sent}
use fantoch.Synod.Cluster.Invariant.{NodeOk, Proposed}

module _ {V : Type 0} (n f : ℕ) (coordinator : ProcessId) (sent : Sent V)
    (taken : List (ProcessId × Ballot)) (p : ProcessId) (s : Synod V)
    (ok : NodeOk n f coordinator sent taken p s) where
  pub NodeOk-set :
      (v : V)
      → s.acceptor.ballot ≡ 0
      → s.chosen ≡ false
      → NodeOk n f coordinator sent taken p
          (record s { acceptor = record s.acceptor { accepted = (0, v) } })
  NodeOk-set v first open_ = record {
    is_p = ok.is_p;
    has_n = ok.has_n;
    has_f = ok.has_f;
    owns = ok.owns;
    accepted_low = omega arith;
    accepted_real = λ up. absurd (omega arith);
    chosen_real = λ e. absurd (ground arith);
    votes_low = ok.votes_low;
    votes_seen = λ e b h. omega (arith, ok.votes_low b h);
    promises_low = ok.promises_low;
    promises_held = ok.promises_held;
    promises_distinct = ok.promises_distinct;
    accepts_held = ok.accepts_held;
    accepts_distinct = ok.accepts_distinct;
    proposal_real = ok.proposal_real;
    own_proposals = ok.own_proposals;
    promises_few = ok.promises_few;
    proposed_few = ok.proposed_few;
  }

  pub NodeOk-chosen :
      (v : V) (from : ProcessId)
      → In (from, mchosen v) sent
      → NodeOk n f coordinator sent taken p
          (record s { acceptor = record s.acceptor { accepted = (0, v) }; chosen = true })
  NodeOk-chosen v from h = record {
    is_p = ok.is_p;
    has_n = ok.has_n;
    has_f = ok.has_f;
    owns = ok.owns;
    accepted_low = omega arith;
    accepted_real = λ up. absurd (omega arith);
    chosen_real = λ e. (refl, from, h);
    votes_low = ok.votes_low;
    votes_seen = λ e. absurd (ground arith);
    promises_low = ok.promises_low;
    promises_held = ok.promises_held;
    promises_distinct = ok.promises_distinct;
    accepts_held = ok.accepts_held;
    accepts_distinct = ok.accepts_distinct;
    proposal_real = ok.proposal_real;
    own_proposals = ok.own_proposals;
    promises_few = ok.promises_few;
    proposed_few = ok.proposed_few;
  }

  pub NodeOk-raised :
      (b : Ballot)
      → s.acceptor.ballot ≤ b
      → NodeOk n f coordinator sent taken p
          (record s { acceptor = record s.acceptor { ballot = b } })
  NodeOk-raised b up = record {
    is_p = ok.is_p;
    has_n = ok.has_n;
    has_f = ok.has_f;
    owns = ok.owns;
    accepted_low = le_trans ok.accepted_low up;
    accepted_real = ok.accepted_real;
    chosen_real = ok.chosen_real;
    votes_low = λ b' h. le_trans (ok.votes_low b' h) up;
    votes_seen = ok.votes_seen;
    promises_low = λ b' a h. le_trans (ok.promises_low b' a h) up;
    promises_held = ok.promises_held;
    promises_distinct = ok.promises_distinct;
    accepts_held = ok.accepts_held;
    accepts_distinct = ok.accepts_distinct;
    proposal_real = ok.proposal_real;
    own_proposals = ok.own_proposals;
    promises_few = ok.promises_few;
    proposed_few = ok.proposed_few;
  }

  pub NodeOk-accepted :
      (b : Ballot) (v : V)
      → s.acceptor.ballot ≤ b
      → Proposed sent b v
      → s.chosen ≡ false
      → NodeOk n f coordinator sent taken p
          (record s { acceptor = record { ballot = b; accepted = (b, v) } })
  NodeOk-accepted b v up proposed open_ = record {
    is_p = ok.is_p;
    has_n = ok.has_n;
    has_f = ok.has_f;
    owns = ok.owns;
    accepted_low = le_refl b;
    accepted_real = λ z. proposed;
    chosen_real = λ e. absurd (ground arith);
    votes_low = λ b' h. le_trans (ok.votes_low b' h) up;
    votes_seen = λ e b' h. le_trans (ok.votes_low b' h) up;
    promises_low = λ b' a h. le_trans (ok.promises_low b' a h) up;
    promises_held = ok.promises_held;
    promises_distinct = ok.promises_distinct;
    accepts_held = ok.accepts_held;
    accepts_distinct = ok.accepts_distinct;
    proposal_real = ok.proposal_real;
    own_proposals = ok.own_proposals;
    promises_few = ok.promises_few;
    proposed_few = ok.proposed_few;
  }
