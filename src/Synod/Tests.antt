-- ===== src/Synod/Tests.antt =====
-- fantoch_ps/src/protocol/common/synod/single.rs: the flow of the program's own test, and the
-- theorems at its states. The generator multiplies the values that the promises report.
use fantoch.Prelude.{
  ℕ, suc, ◌*◌, ◌≤◌, ◌<◌, ◌≡◌, refl, none, some, [], ◌∷◌, done, add64, sub64, mul64, All, arith,
}
use fantoch.Prelude.Maps.{Map, get, insert}
use fantoch.Prelude.Sets.{add, contains}
use fantoch.Identifiers.{ProcessId}
use fantoch.Synod.{
  mpromise, mchosen, Ballot, Accepted, Synod, SynodMessage, mprepare, maccept, maccepted, new,
  new_prepare, proposer_new_prepare, handle, handle_prepare, handle_accept, handle_promise,
  handle_accepted, choose_proposal, skip_prepare, proposer_skip_prepare,
}
use fantoch.Synod.Acceptors.{run, AcceptsFrom, HoldsFrom, promise_kept, ballot-le-handle}
use fantoch.Synod.Choice.{Calls, choose_proposal-Calls, choose_proposal_total}
use fantoch.Synod.Ballots.{IsRound, rounds_disjoint, new_prepare_lem, prepared}

abbrev product : Map ProcessId ℕ → ℕ
product [] = 1
product ((from, v) ∷ values) = v * product values

abbrev synod : ProcessId → ℕ → Synod ℕ
unfolding new
synod p v = new p 5 1 product v

runs : Unit {0}
unfolding new new_prepare proposer_new_prepare handle handle_prepare handle_accept handle_promise
    handle_accepted choose_proposal skip_prepare proposer_skip_prepare run add64 sub64 mul64 insert
    get add contains synod
runs = tt

-- Process 5 with value 11 after it has promised ballot 6.
abbrev promised : Synod ℕ
unfolding synod
promised = record (synod 5 11) { acceptor = record { ballot = 6; accepted = (0, 11) } }

promise_kept_example :
    All (AcceptsFrom {V = ℕ} 6) (none ∷ some (maccepted 7) ∷ [])
    × (6 ≤ 7)
    × HoldsFrom {V = ℕ} 6 ((2, maccept 2 9) ∷ (2, maccept 7 4) ∷ []) (0, 11) (7, 4)
unfolding runs
promise_kept_example =
    promise_kept 1 6 (0, 11) (synod 5 11) promised
      (record promised { acceptor = record { ballot = 7; accepted = (7, 4) } })
      ((2, maccept 2 9) ∷ (2, maccept 7 4) ∷ []) (none ∷ some (maccepted 7) ∷ []) refl refl

ballot-le-handle_example : (6 ≤ 7) × AcceptsFrom {V = ℕ} 6 (some (maccepted 7))
unfolding runs
ballot-le-handle_example =
    ballot-le-handle 2 (maccept 7 4) promised
      (record promised { acceptor = record { ballot = 7; accepted = (7, 4) } }) (some (maccepted 7))
      refl

abbrev reports : Map ProcessId (Accepted ℕ)
reports = (1, (0, 2)) ∷ (2, (6, 3)) ∷ (3, (8, 5)) ∷ (4, (6, 3)) ∷ []

choose_proposal-Calls_example : Calls product reports 5
unfolding runs
choose_proposal-Calls_example =
    choose_proposal-Calls product reports 5 (refl, (refl, (refl, (refl, tt)))) refl

choose_proposal_total_example : (v : ℕ) × (choose_proposal product reports ≡ done v)
unfolding runs
choose_proposal_total_example =
    choose_proposal_total product reports (refl, (refl, (refl, (refl, tt)))) (λ e. ground arith)

rounds_disjoint_example : (◌≡◌ {A = ℕ} 2 2) × (◌≡◌ {A = ℕ} 3 3)
rounds_disjoint_example =
    rounds_disjoint 5 2 2 3 3 17 (omega arith) (omega arith) (omega arith) (omega arith)

new_prepare_example :
    (b : Ballot) × (round : ℕ) × IsRound 5 1 (suc round) b
    × (0 < b)
    × (6 < b)
    × (record (synod 1 2) {
      acceptor = record { ballot = 6; accepted = (0, 2) };
      proposer = prepared 11 (synod 1 2).proposer;
    }
        ≡ record (synod 1 2) {
          acceptor = record { ballot = 6; accepted = (0, 2) };
          proposer = prepared b (synod 1 2).proposer;
        })
    × (let m : SynodMessage ℕ = mprepare 11 in m ≡ mprepare b)
unfolding runs
new_prepare_example =
    new_prepare_lem (record (synod 1 2) { acceptor = record { ballot = 6; accepted = (0, 2) } })
      (record (synod 1 2) {
        acceptor = record { ballot = 6; accepted = (0, 2) };
        proposer = prepared 11 (synod 1 2).proposer;
      })
      (mprepare 11) (omega arith) refl

-- The coordinator of 5 processes accepts its own unprepared proposal 2, then prepares ballot 6 and
-- decides 1155 with the accepts of 2 and 3. The accepts of 4 and 5 for ballot 6 come late: with no
-- proposal left, the proposer announces the value that its acceptor accepted at the first ballot.
late_accepts :
    run
      ((1, maccept 1 2)
        ∷ (2, mpromise 6 (0, 3))
        ∷ (3, mpromise 6 (0, 5))
        ∷ (4, mpromise 6 (0, 7))
        ∷ (5, mpromise 6 (0, 11))
        ∷ (2, maccepted 6)
        ∷ (3, maccepted 6)
        ∷ (4, maccepted 6)
        ∷ (5, maccepted 6)
        ∷ [])
      (record (synod 1 2) { proposer = record (synod 1 2).proposer { ballot = 6 } })
    ≡ done (
      record (synod 1 2) {
        proposer = record (synod 1 2).proposer { ballot = 6 };
        acceptor = record { ballot = 1; accepted = (1, 2) };
      },
      some (maccepted 1)
          ∷ none
          ∷ none
          ∷ none
          ∷ some (maccept 6 1155)
          ∷ none
          ∷ some (mchosen 1155)
          ∷ none
          ∷ some (mchosen 2)
          ∷ [],
    )
unfolding runs
late_accepts = refl
