-- ===== src/Synod/Proposers.antt =====
-- fantoch_ps/src/protocol/common/synod/single.rs: what the proposer does on each branch.
use fantoch.Prelude.{
  ◌≡◌, ◌≢◌, refl, Bool-cases, inl, inr, Option, none, some, [], Outcome, done, panic,
  u64_partial_eq, nat_beq, arith, length, add64, sub64,
}
use fantoch.Prelude.Maps.{insert}
use fantoch.Prelude.Sets.{add}
use fantoch.Identifiers.{ProcessId}
use fantoch.Synod.Defs.{
  Ballot, Accepted, Acceptor, Proposer, SynodMessage, mchosen, maccept, handle_promise,
  handle_accepted, choose_proposal, accepted_proposal,
}

module _ {V : Type 0} where
  -- The three ways in which a promise is taken: about another ballot, one of too few, or the one
  -- that completes phase 1.
  pub data PromiseCase (from : ProcessId) (b : Ballot) (accepted : Accepted V) (p p' : Proposer V)
      (reply : Option (SynodMessage V)) : Type 0 where
    ignored : p.ballot ≢ b → p' ≡ p → reply ≡ none → PromiseCase from b accepted p p' reply
    gathered :
        p.ballot ≡ b
        → length (insert from accepted p.promises) ≢ sub64 p.n p.f
        → p' ≡ record p { promises = insert from accepted p.promises }
        → reply ≡ none
        → PromiseCase from b accepted p p' reply
    proposed :
        (v : V)
        → p.ballot ≡ b
        → length (insert from accepted p.promises) ≡ sub64 p.n p.f
        → choose_proposal p.proposal_gen (insert from accepted p.promises) ≡ done v
        → p' ≡ record p { promises = []; accepts = []; proposal = some v }
        → reply ≡ some (maccept b v)
        → PromiseCase from b accepted p p' reply

  pub handle_promise_cases :
      (from : ProcessId) (b : Ballot) (accepted : Accepted V) (p p' : Proposer V)
      (reply : Option (SynodMessage V))
      → handle_promise from b accepted p ≡ done (p', reply)
      → PromiseCase from b accepted p p' reply
  unfolding handle_promise
  handle_promise_cases from b accepted p p' reply h =
      let promises = insert from accepted p.promises in
      elim (Bool-cases (nat_beq p.ballot b)) [
        | inr other ↦ ignored (ground arith) (ground arith) (ground arith)
        | inl same ↦ elim (Bool-cases (nat_beq (length promises) (sub64 p.n p.f))) [
          | inr few ↦ gathered (ground arith) (ground arith) (ground arith) (ground arith)
          | inl enough ↦
              chosen (choose_proposal p.proposal_gen promises) refl (ground arith) (ground arith) h
        ]
      ]
    where
      chosen :
          (c : Outcome V)
          → choose_proposal p.proposal_gen (insert from accepted p.promises) ≡ c
          → p.ballot ≡ b
          → length (insert from accepted p.promises) ≡ sub64 p.n p.f
          → handle_promise from b accepted p ≡ done (p', reply)
          → PromiseCase from b accepted p p' reply
      chosen panic e same enough h = absurd (ground arith)
      chosen (done v) e same enough h = proposed v same enough e (ground arith) (ground arith)

  -- The three ways in which an accept is taken.
  pub data AcceptCase (from : ProcessId) (b : Ballot) (a : Acceptor V) (p p' : Proposer V)
      (reply : Option (SynodMessage V)) : Type 0 where
    ignored : p.ballot ≢ b → p' ≡ p → reply ≡ none → AcceptCase from b a p p' reply
    gathered :
        p.ballot ≡ b
        → length (add from p.accepts) ≢ add64 p.f 1
        → p' ≡ record p { accepts = add from p.accepts }
        → reply ≡ none
        → AcceptCase from b a p p' reply
    decided :
        (v : V)
        → p.ballot ≡ b
        → length (add from p.accepts) ≡ add64 p.f 1
        → accepted_proposal p.proposal p.process_id a ≡ done v
        → p' ≡ record p { promises = []; accepts = []; proposal = none }
        → reply ≡ some (mchosen v)
        → AcceptCase from b a p p' reply

  pub handle_accepted_cases :
      (from : ProcessId) (b : Ballot) (a : Acceptor V) (p p' : Proposer V)
      (reply : Option (SynodMessage V))
      → handle_accepted from b a p ≡ done (p', reply)
      → AcceptCase from b a p p' reply
  unfolding handle_accepted
  handle_accepted_cases from b a p p' reply h = elim (Bool-cases (nat_beq p.ballot b)) [
    | inr other ↦ ignored (ground arith) (ground arith) (ground arith)
    | inl same ↦ elim (Bool-cases (nat_beq (length (add from p.accepts)) (add64 p.f 1))) [
      | inr few ↦ gathered (ground arith) (ground arith) (ground arith) (ground arith)
      | inl enough ↦
          chosen (accepted_proposal p.proposal p.process_id a) refl (ground arith) (ground arith) h
    ]
  ]
    where
      chosen :
          (c : Outcome V)
          → accepted_proposal p.proposal p.process_id a ≡ c
          → p.ballot ≡ b
          → length (add from p.accepts) ≡ add64 p.f 1
          → handle_accepted from b a p ≡ done (p', reply)
          → AcceptCase from b a p p' reply
      chosen panic e same enough h = absurd (ground arith)
      chosen (done v) e same enough h = decided v same enough e (ground arith) (ground arith)
