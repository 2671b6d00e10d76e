-- ===== src/Synod/Cluster/Tests.antt =====
-- A run of three processes: the first skips the prepare phase with the value 7, which the first two
-- accept; a later prepare of the third is answered with the chosen value.
use fantoch.Prelude.{
  ℕ, ◌≤◌, ◌≡◌, refl, inl, inr, none, some, [], ◌∷◌, Outcome, done, panic, add64, sub64, mul64,
  arith,
}
use fantoch.Prelude.Maps.{Map, get, insert}
use fantoch.Prelude.Sets.{add, contains}
use fantoch.Identifiers.{ProcessId}
use fantoch.Synod.Defs.{
  Synod, SynodMessage, mchosen, mprepare, maccept, maccepted, new, new_prepare,
  proposer_new_prepare, skip_prepare, proposer_skip_prepare, handle, handle_prepare, handle_accept,
  handle_promise, handle_accepted, choose_proposal,
}
use fantoch.Synod.Ballots.{IsProcess}
use fantoch.Synod.Cluster.{Cluster, Step, Reach, start, put, post}
use fantoch.Synod.Cluster.Agreement.{agreement}

runs : Unit {0}
unfolding new new_prepare proposer_new_prepare skip_prepare proposer_skip_prepare handle
    handle_prepare handle_accept handle_promise handle_accepted choose_proposal add64 sub64 mul64
    insert get add contains
runs = tt

abbrev state : {V A : Type 0} → Synod V → Outcome (Synod V × A) → Synod V
state s (done r) = r.0
state s panic = s

abbrev reply : {V A : Type 0} → A → Outcome (Synod V × A) → A
reply a (done r) = r.1
reply a panic = a

abbrev zero_gen : ProcessId → Map ProcessId ℕ → ℕ
zero_gen p values = 0

abbrev c0 : Cluster ℕ
c0 = start 3 1 zero_gen (λ p. p)

abbrev delivered_to : ProcessId → ProcessId → SynodMessage ℕ → Cluster ℕ → Cluster ℕ
delivered_to p from message c =
    let o = handle from message (c.node p) in
    record c { node = put p (state (c.node p) o) c.node; sent = post p (reply none o) c.sent }

abbrev c1 : Cluster ℕ
c1 = record c0 {
  node = put 1 (state (c0.node 1) (skip_prepare (c0.node 1))) c0.node;
  sent = (1, maccept 1 7) ∷ [];
}

abbrev c2 : Cluster ℕ
c2 = delivered_to 1 1 (maccept 1 7) c1

abbrev c3 : Cluster ℕ
c3 = delivered_to 2 1 (maccept 1 7) c2

abbrev c4 : Cluster ℕ
c4 = delivered_to 1 1 (maccepted 1) c3

abbrev c5 : Cluster ℕ
c5 = delivered_to 1 2 (maccepted 1) c4

abbrev c6 : Cluster ℕ
c6 = delivered_to 2 1 (mchosen 7) c5

abbrev c7 : Cluster ℕ
c7 =
    let o = new_prepare (c6.node 3) in
    record c6 { node = put 3 (state (c6.node 3) o) c6.node; sent = (3, mprepare 6) ∷ c6.sent }

abbrev c8 : Cluster ℕ
c8 = delivered_to 2 3 (mprepare 6) c7

sent_last :
    c8.sent
    ≡ (2, mchosen 7)
      ∷ (3, mprepare 6)
      ∷ (1, mchosen 7)
      ∷ (2, maccepted 1)
      ∷ (1, maccepted 1)
      ∷ (1, maccept 1 7)
      ∷ []
unfolding runs
sent_last = refl

process : (p : ProcessId) → 1 ≤ p → p ≤ 3 → IsProcess 3 p
process p low high = record { positive = low; within = high; small = omega arith }

step1 : Step 3 1 c0 c1
unfolding runs
step1 =
    Step.skip (state (c0.node 1) (skip_prepare (c0.node 1))) 1 7
      (process 1 (omega arith) (omega arith)) refl refl

first_ok : IsProcess 3 1
first_ok = process 1 (omega arith) (omega arith)

second_ok : IsProcess 3 2
second_ok = process 2 (omega arith) (omega arith)

step2 : Step 3 1 c1 c2
unfolding runs
step2 =
    Step.deliver 1 1 (maccept 1 7) (c2.node 1) (some (maccepted 1)) first_ok (inl refl) refl tt refl

step3 : Step 3 1 c2 c3
unfolding runs
step3 =
    Step.deliver 2 1 (maccept 1 7) (c3.node 2) (some (maccepted 1)) second_ok (inr (inl refl)) refl
      tt refl

step4 : Step 3 1 c3 c4
unfolding runs
step4 =
    Step.deliver 1 1 (maccepted 1) (c4.node 1) none first_ok (inr (inl refl)) refl (inr refl) refl

step5 : Step 3 1 c4 c5
unfolding runs
step5 =
    Step.deliver 1 2 (maccepted 1) (c5.node 1) (some (mchosen 7)) first_ok (inl refl) refl
      (inr refl) refl

step6 : Step 3 1 c5 c6
unfolding runs
step6 = Step.deliver 2 1 (mchosen 7) (c6.node 2) none second_ok (inl refl) refl tt refl

step7 : Step 3 1 c6 c7
unfolding runs
step7 = Step.prepare 3 (c7.node 3) (mprepare 6) (process 3 (omega arith) (omega arith)) refl

step8 : Step 3 1 c7 c8
unfolding runs
step8 =
    Step.deliver 2 3 (mprepare 6) (c8.node 2) (some (mchosen 7)) second_ok (inl refl) refl tt refl

run_of_eight : Reach 3 1 c0 c8
run_of_eight =
    Reach.next
      (Reach.next
        (Reach.next
          (Reach.next
            (Reach.next (Reach.next (Reach.next (Reach.next Reach.here step1) step2) step3) step4)
            step5)
          step6)
        step7)
      step8

agreement_example : ◌≡◌ {A = ℕ} 7 7
unfolding runs
agreement_example =
    agreement 3 1 1 zero_gen (λ p. p) c8 1 2 7 7 (omega arith) run_of_eight (inr (inr (inl refl)))
      (inl refl)
