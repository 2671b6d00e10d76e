-- ===== src/Synod/Defs.antt =====
-- fantoch_ps/src/protocol/common/synod/single.rs: the three agents and their messages.
use fantoch.Prelude.{
  ℕ, ◌/◌, Bool, true, false, Option, none, some, List, [], ◌∷◌, map, Outcome, done, panic, assert,
  ◌>>=◌, ◌>>◌, ltb, leb, ◌==◌, u64_partial_eq, if◌then◌else◌, add64, sub64, mul64, length,
}
use fantoch.Prelude.Maps.{Map, get, insert}
use fantoch.Prelude.Sets.{add}
use fantoch.Identifiers.{ProcessId}

abbrev pub Ballot : Type 0
Ballot = ℕ

-- The ballot in which the value was accepted, 0 if it was not, and the value.
abbrev pub Accepted : Type 0 → Type 0
Accepted V = Ballot × V

pub data SynodMessage (V : Type 0) : Type 0 where
  mchosen : V → SynodMessage V
  mprepare : Ballot → SynodMessage V
  maccept : Ballot → V → SynodMessage V
  mpromise : Ballot → Accepted V → SynodMessage V
  maccepted : Ballot → SynodMessage V

pub record Acceptor (V : Type 0) : Type 0 where
  pub ballot : Ballot
  pub accepted : Accepted V

pub record Proposer (V : Type 0) : Type 0 where
  pub process_id : ProcessId
  pub n : ℕ
  pub f : ℕ
  pub ballot : Ballot
  pub proposal_gen : Map ProcessId V → V
  pub promises : Map ProcessId (Accepted V)
  pub accepts : List ProcessId
  pub proposal : Option V

pub record Synod (V : Type 0) : Type 0 where
  pub proposer : Proposer V
  pub acceptor : Acceptor V
  pub chosen : Bool

module _ {V : Type 0} where
  -- `Acceptor`
  unfoldable pub new_acceptor : V → Acceptor V
  new_acceptor initial_value = record { ballot = 0; accepted = (0, initial_value) }

  unfoldable pub acceptor_set_if_not_accepted : V → Acceptor V → Acceptor V × Bool
  acceptor_set_if_not_accepted value a =
      if a.ballot == 0 then (record a { accepted = (0, value) }, true) else (a, false)

  unfoldable pub set_value : V → Acceptor V → Acceptor V
  set_value value a = record a { accepted = (0, value) }

  unfoldable pub handle_prepare : Ballot → Acceptor V → Acceptor V × Option (SynodMessage V)
  handle_prepare b a =
      if ltb a.ballot b then (record a { ballot = b }, some (mpromise b a.accepted)) else (a, none)

  unfoldable pub handle_accept : Ballot → V → Acceptor V → Acceptor V × Option (SynodMessage V)
  handle_accept b value a =
      if leb a.ballot b
      then (record { ballot = b; accepted = (b, value) }, some (maccepted b))
      else (a, none)

  -- `Proposer`
  unfoldable pub new_proposer : ProcessId → (n f : ℕ) → (Map ProcessId V → V) → Proposer V
  new_proposer process_id n f proposal_gen = record {
    process_id = process_id;
    n = n;
    f = f;
    ballot = 0;
    proposal_gen = proposal_gen;
    promises = [];
    accepts = [];
    proposal = none;
  }

  -- The division panics when there are no processes.
  unfoldable pub next_ballot : Acceptor V → Proposer V → Outcome (Proposer V)
  next_ballot a p =
      if p.n == 0
      then panic
      else (let next_round = add64 (a.ballot / p.n) 1 in
          done (record p { ballot = add64 p.process_id (mul64 p.n next_round) }))

  -- The returned paper-slip state is that of `p` itself.
  unfoldable pub reset_state : Proposer V → Proposer V
  reset_state p = record p { promises = []; accepts = []; proposal = none }

  unfoldable pub proposer_new_prepare :
      Acceptor V → Proposer V → Outcome (Proposer V × SynodMessage V)
  unfolding next_ballot reset_state
  proposer_new_prepare a p = do
    assert (leb p.ballot a.ballot)
    p' ← next_ballot a p
    assert (ltb a.ballot p'.ballot)
    done (reset_state p', mprepare p'.ballot)

  unfoldable pub proposer_skip_prepare : Acceptor V → Proposer V → Outcome (Proposer V × Ballot)
  proposer_skip_prepare a p = do
    assert (a.ballot == 0)
    done (record p { ballot = p.process_id }, p.process_id)

  -- `max_by_key` on the ballots: of several with the highest ballot, the last in iteration order.
  unfoldable pub highest : Map ProcessId (Accepted V) → Option (Ballot × ProcessId)
  highest [] = none
  highest ((from, accepted) ∷ promises) = elim (highest promises) [
    | none ↦ some (accepted.0, from)
    | some best ↦ if ltb best.0 accepted.0 then some (accepted.0, from) else some best
  ]

  -- The values that are reported, by process.
  abbrev pub reported : Map ProcessId (Accepted V) → Map ProcessId V
  reported promises = map (λ (entry : ProcessId × Accepted V). (entry.0, entry.1.1)) promises

  -- The proposal that the promises call for; both `expect`s are panics.
  unfoldable pub choose_proposal : (Map ProcessId V → V) → Map ProcessId (Accepted V) → Outcome V
  unfolding highest get
  choose_proposal proposal_gen promises = elim (highest promises) [
    | none ↦ panic
    | some best ↦
        if best.0 == 0
        then done (proposal_gen (reported promises))
        else elim (get best.1 promises) [ none ↦ panic | some accepted ↦ done accepted.1 ]
  ]

  unfoldable pub handle_promise :
      ProcessId → Ballot → Accepted V → Proposer V → Outcome (Proposer V × Option (SynodMessage V))
  unfolding reset_state
  handle_promise from b accepted p =
      let promises = insert from accepted p.promises in
      if p.ballot == b
      then (if length promises == sub64 p.n p.f
          then (do
            proposal ← choose_proposal p.proposal_gen promises
            done (record (reset_state p) { proposal = some proposal }, some (maccept b proposal)))
          else done (record p { promises = promises }, none))
      else done (p, none)

  -- The value to announce: the proposal, or at the first ballot, which needs no prepare, the value
  -- that the local acceptor accepted at it.
  unfoldable pub accepted_proposal : Option V → ProcessId → Acceptor V → Outcome V
  accepted_proposal (some proposal) process_id a = done proposal
  accepted_proposal none process_id a =
      if a.accepted.0 == process_id then done a.accepted.1 else panic

  unfoldable pub handle_accepted :
      ProcessId → Ballot → Acceptor V → Proposer V → Outcome (Proposer V × Option (SynodMessage V))
  unfolding reset_state accepted_proposal
  handle_accepted from b a p =
      let accepts = add from p.accepts in
      if p.ballot == b
      then (if length accepts == add64 p.f 1
          then (do
            proposal ← accepted_proposal p.proposal p.process_id a
            done (reset_state p, some (mchosen proposal)))
          else done (record p { accepts = accepts }, none))
      else done (p, none)

  -- `Synod`
  unfoldable pub new : ProcessId → (n f : ℕ) → (Map ProcessId V → V) → V → Synod V
  unfolding new_proposer new_acceptor
  new process_id n f proposal_gen initial_value = record {
    proposer = new_proposer process_id n f proposal_gen;
    acceptor = new_acceptor initial_value;
    chosen = false;
  }

  unfoldable pub set_if_not_accepted : V → Synod V → Synod V × Bool
  unfolding acceptor_set_if_not_accepted
  set_if_not_accepted value s =
      let (acceptor, changed) = acceptor_set_if_not_accepted value s.acceptor in
      (record s { acceptor = acceptor }, changed)

  unfoldable pub value : Synod V → V
  value s = s.acceptor.accepted.1

  unfoldable pub new_prepare : Synod V → Outcome (Synod V × SynodMessage V)
  new_prepare s = do
    (proposer, message) ← proposer_new_prepare s.acceptor s.proposer
    done (record s { proposer = proposer }, message)

  unfoldable pub skip_prepare : Synod V → Outcome (Synod V × Ballot)
  skip_prepare s = do
    (proposer, ballot) ← proposer_skip_prepare s.acceptor s.proposer
    done (record s { proposer = proposer }, ballot)

  -- What a message to the acceptor gets as a reply: `MChosen` once a value is chosen.
  unfoldable pub unless_chosen :
      (Acceptor V → Acceptor V × Option (SynodMessage V))
      → Synod V
      → Synod V × Option (SynodMessage V)
  unless_chosen handler s =
      if s.chosen
      then (s, some (mchosen s.acceptor.accepted.1))
      else (let (acceptor, reply) = handler s.acceptor in (record s { acceptor = acceptor }, reply))

  unfoldable pub handle :
      ProcessId → SynodMessage V → Synod V → Outcome (Synod V × Option (SynodMessage V))
  unfolding set_value unless_chosen
  handle from (mchosen v) s =
      done (record s { acceptor = set_value v s.acceptor; chosen = true }, none)
  handle from (mprepare b) s = done (unless_chosen (handle_prepare b) s)
  handle from (maccept b v) s = done (unless_chosen (handle_accept b v) s)
  handle from (mpromise b previous) s = do
    (proposer, reply) ← handle_promise from b previous s.proposer
    done (record s { proposer = proposer }, reply)
  handle from (maccepted b) s = do
    (proposer, reply) ← handle_accepted from b s.acceptor s.proposer
    done (record s { proposer = proposer }, reply)
