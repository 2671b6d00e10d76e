-- ===== src/Synod/Cluster/ProposerSide.antt =====
-- How a process's part of the invariant follows the changes of its proposer.
use fantoch.Prelude.{
  ℕ, ◌<◌, ◌≡◌, refl, subst, inl, inr, false, none, some, List, [], ◌∷◌, All-map, u64_partial_eq,
  Bool-cases, arith,
}
use fantoch.Prelude.Maps.{keys, insert}
use fantoch.Prelude.Sets.{contains, add, add-IsDistinct}
use fantoch.Identifiers.{ProcessId}
use fantoch.Synod.Defs.{Ballot, Accepted, Synod, mpromise, maccepted}
use fantoch.Synod.Ballots.{IsProcess, prepared}
use fantoch.Synod.Cluster.{In, Sent}
use fantoch.Synod.Cluster.Invariant.{NodeOk, Proposed, Owns}
use fantoch.Synod.Cluster.Quorums.{All-get, get-contains-keys}
use fantoch.Synod.Cluster.Slips.{All-insert, insert-IsDistinct, length-insert-absent, All-add}

module _ {V : Type 0} (n f : ℕ) (coordinator : ProcessId) (sent : Sent V)
    (taken : List (ProcessId × Ballot)) (p : ProcessId) (s : Synod V)
    (ok : NodeOk n f coordinator sent taken p s) where
  pub NodeOk-prepared :
      (b : Ballot)
      → s.proposer.ballot < b
      → Owns n coordinator p b
      → NodeOk n f coordinator sent taken p (record s { proposer = prepared b s.proposer })
  NodeOk-prepared b up owned = record {
    is_p = ok.is_p;
    has_n = ok.has_n;
    has_f = ok.has_f;
    owns = inr owned;
    accepted_low = ok.accepted_low;
    accepted_real = ok.accepted_real;
    chosen_real = ok.chosen_real;
    votes_low = ok.votes_low;
    votes_seen = ok.votes_seen;
    promises_low = ok.promises_low;
    promises_held = tt;
    promises_distinct = tt;
    accepts_held = tt;
    accepts_distinct = tt;
    proposal_real = λ v e. absurd (ground arith);
    own_proposals = λ b' v h. omega (arith, ok.own_proposals b' v h);
    promises_few = omega arith;
    proposed_few = λ v high h. absurd (omega (arith, ok.own_proposals b v h));
  }

  -- The coordinator's first ballot, before anything reached the proposer.
  pub NodeOk-skipped :
      s.proposer.ballot ≡ 0
      → IsProcess n coordinator
      → p ≡ coordinator
      → s.proposer.promises ≡ []
      → s.proposer.accepts ≡ []
      → s.proposer.proposal ≡ none
      → NodeOk n f coordinator sent taken p
          (record s { proposer = record s.proposer { ballot = coordinator } })
  NodeOk-skipped first is_process same no_promises no_accepts no_proposal = record {
    is_p = ok.is_p;
    has_n = ok.has_n;
    has_f = ok.has_f;
    owns = inr (0, ground arith, λ z. same);
    accepted_low = ok.accepted_low;
    accepted_real = ok.accepted_real;
    chosen_real = ok.chosen_real;
    votes_low = ok.votes_low;
    votes_seen = ok.votes_seen;
    promises_low = ok.promises_low;
    promises_held = rw no_promises tt;
    promises_distinct = ok.promises_distinct;
    accepts_held = rw no_accepts tt;
    accepts_distinct = ok.accepts_distinct;
    proposal_real = λ v e. absurd (ground arith);
    own_proposals = λ b' v h. omega (arith, ok.own_proposals b' v h);
    promises_few = rw no_promises (omega arith);
    proposed_few = λ v high h. absurd (omega (arith, is_process.within));
  }

  -- The paper slip is emptied.
  pub NodeOk-reset :
      NodeOk n f coordinator sent taken p
        (record s { proposer = prepared s.proposer.ballot s.proposer })
  NodeOk-reset = record {
    is_p = ok.is_p;
    has_n = ok.has_n;
    has_f = ok.has_f;
    owns = ok.owns;
    accepted_low = ok.accepted_low;
    accepted_real = ok.accepted_real;
    chosen_real = ok.chosen_real;
    votes_low = ok.votes_low;
    votes_seen = ok.votes_seen;
    promises_low = ok.promises_low;
    promises_held = tt;
    promises_distinct = tt;
    accepts_held = tt;
    accepts_distinct = tt;
    proposal_real = λ v e. absurd (ground arith);
    own_proposals = ok.own_proposals;
    promises_few = omega arith;
    proposed_few = λ v high h. omega (arith, ok.proposed_few v high h);
  }

  pub NodeOk-remembered :
      (v : V)
      → Proposed sent s.proposer.ballot v
      → NodeOk n f coordinator sent taken p
          (record s { proposer = record s.proposer { proposal = some v } })
  NodeOk-remembered v proposed = record {
    is_p = ok.is_p;
    has_n = ok.has_n;
    has_f = ok.has_f;
    owns = ok.owns;
    accepted_low = ok.accepted_low;
    accepted_real = ok.accepted_real;
    chosen_real = ok.chosen_real;
    votes_low = ok.votes_low;
    votes_seen = ok.votes_seen;
    promises_low = ok.promises_low;
    promises_held = ok.promises_held;
    promises_distinct = ok.promises_distinct;
    accepts_held = ok.accepts_held;
    accepts_distinct = ok.accepts_distinct;
    proposal_real = λ w e. subst (Proposed sent s.proposer.ballot) (cc) proposed;
    own_proposals = ok.own_proposals;
    promises_few = ok.promises_few;
    proposed_few = ok.proposed_few;
  }

  pub NodeOk-counted :
      (from : ProcessId)
      → In (from, maccepted s.proposer.ballot) sent
      → NodeOk n f coordinator sent taken p
          (record s { proposer = record s.proposer { accepts = add from s.proposer.accepts } })
  NodeOk-counted from h = record {
    is_p = ok.is_p;
    has_n = ok.has_n;
    has_f = ok.has_f;
    owns = ok.owns;
    accepted_low = ok.accepted_low;
    accepted_real = ok.accepted_real;
    chosen_real = ok.chosen_real;
    votes_low = ok.votes_low;
    votes_seen = ok.votes_seen;
    promises_low = ok.promises_low;
    promises_held = ok.promises_held;
    promises_distinct = ok.promises_distinct;
    accepts_held = All-add _ from s.proposer.accepts ok.accepts_held h;
    accepts_distinct = add-IsDistinct from s.proposer.accepts ok.accepts_distinct;
    proposal_real = ok.proposal_real;
    own_proposals = ok.own_proposals;
    promises_few = ok.promises_few;
    proposed_few = ok.proposed_few;
  }

  -- A process whose promise is not delivered yet has no entry.
  pub promise_absent :
      (from : ProcessId)
      → ¬ In (from, s.proposer.ballot) taken
      → contains from (keys s.proposer.promises) ≡ false
  promise_absent from first = elim (Bool-cases (contains from (keys s.proposer.promises))) [
    | inr absent ↦ absent
    | inl present ↦
        let (a, held) = get-contains-keys s.proposer.promises from present in
        absurd (first (All-get _ s.proposer.promises from a ok.promises_held held).1)
  ]

  -- A promise for the current ballot is delivered for the first time and kept.
  pub NodeOk-gathered :
      (from : ProcessId) (a : Accepted V)
      → In (from, mpromise s.proposer.ballot a) sent
      → ¬ In (from, s.proposer.ballot) taken
      → NodeOk n f coordinator sent ((from, s.proposer.ballot) ∷ taken) p (record s {
        proposer = record s.proposer { promises = insert from a s.proposer.promises };
      })
  NodeOk-gathered from a h first = record {
    is_p = ok.is_p;
    has_n = ok.has_n;
    has_f = ok.has_f;
    owns = ok.owns;
    accepted_low = ok.accepted_low;
    accepted_real = ok.accepted_real;
    chosen_real = ok.chosen_real;
    votes_low = ok.votes_low;
    votes_seen = ok.votes_seen;
    promises_low = ok.promises_low;
    promises_held =
        All-insert _ s.proposer.promises from a
          (All-map _ _ (λ x h'. (h'.0, inr h'.1)) s.proposer.promises ok.promises_held)
          (h, inl refl);
    promises_distinct = insert-IsDistinct from a s.proposer.promises ok.promises_distinct;
    accepts_held = ok.accepts_held;
    accepts_distinct = ok.accepts_distinct;
    proposal_real = ok.proposal_real;
    own_proposals = ok.own_proposals;
    promises_few = ground (
      arith,
      length-insert-absent from a s.proposer.promises (promise_absent from first),
      ok.promises_few,
    );
    proposed_few = λ v high h'. ground (
      arith,
      length-insert-absent from a s.proposer.promises (promise_absent from first),
      ok.proposed_few v high h',
    );
  }
