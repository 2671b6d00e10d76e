-- ===== src/Synod/Cluster/Agreement.antt =====
-- Agreement: what a reachable cluster announces as chosen is one value.
use fantoch.Prelude.{
  ◌*◌, refl, ℕ, zero, suc, ◌+◌, ◌≤◌, ◌<◌, ◌≡◌, sym, inl, inr, some, All, All-map, nat_beq,
  Bool-cases, arith, subst, u64_partial_eq, nat_beq_iff,
}
use native.Mathlib.Decide.{dec_le}
use fantoch.Prelude.Maps.{Map, keys, get}
use fantoch.Prelude.Counting.{quorums_meet}
use fantoch.Identifiers.{ProcessId}
use fantoch.Synod.Defs.{Ballot, Accepted, mchosen, maccept, mpromise, maccepted, new}
use fantoch.Synod.Ballots.{IsProcess}
use fantoch.Synod.Cluster.{In, Cluster, Step, Reach, start}
use fantoch.Synod.Cluster.Environment.{Inv-set, Inv-prepare, Inv-skip}
use fantoch.Synod.Cluster.Deliveries.{After-deliver}
use fantoch.Synod.Cluster.Promises.{Taken-deliver}
use fantoch.Synod.Cluster.Invariant.{Inv, ChosenAt, Backing, Proposed}
use fantoch.Synod.Cluster.Quorums.{
  All-get, All-contains, get-contains-keys, length-keys, keys-InRange, InRange-of_IsProcess,
  Owns-small, Owns-pos,
}

module _ {V : Type 0} (n f : ℕ) (coordinator : ProcessId) (c : Cluster V)
    (inv : Inv n f coordinator c) (bound : f + 1 ≤ n) where
  -- A process took part in both phases: its accept at the lower ballot shows in its promise.
  shared_report :
      (v w : V) (b : Ballot) (chosen : ChosenAt f c.sent v) (backing : Backing n f c.sent b w)
      → chosen.ballot < b
      → (a : ProcessId) × (accepted : Accepted V) × (get a backing.promises ≡ some accepted)
        × (chosen.ballot ≤ accepted.0)
  shared_report v w b chosen backing less =
      let ids : All (λ (entry : ProcessId × Accepted V). IsProcess n entry.0) backing.promises =
        All-map _ _ (λ entry s. (inv.packets entry.0 (mpromise b entry.1) s).0) backing.promises
          backing.promised in
      let voters : All (IsProcess n) chosen.accepts =
        All-map _ _ (λ a s. (inv.packets a (maccepted chosen.ballot) s).0) chosen.accepts
          chosen.accepted in
      let (a, promised, voted) =
        quorums_meet n (keys backing.promises) chosen.accepts backing.distinct chosen.distinct
          (keys-InRange n backing.promises ids) (InRange-of_IsProcess n chosen.accepts voters)
          (omega (arith, length-keys backing.promises, backing.enough, chosen.enough)) in
      let (accepted, held) = get-contains-keys backing.promises a promised in
      let sent = All-get _ backing.promises a accepted backing.promised held in
      let vote = All-contains _ chosen.accepts a chosen.accepted voted in
      (a, accepted, held, (inv.packets a (mpromise b accepted) sent).1.3 chosen.ballot vote less)

  agree_below :
      (v : V) (chosen : ChosenAt f c.sent v) (k : ℕ) (b : Ballot) (w : V)
      → Proposed c.sent b w
      → chosen.ballot ≤ b
      → b < k
      → v ≡ w
  agree_below v chosen zero b w proposed le less = absurd (omega arith)
  agree_below v chosen (suc k) b w (p, sent) le less = elim (Bool-cases (nat_beq chosen.ballot b)) [
    | inl same ↦
        let e : chosen.ballot ≡ b = (nat_beq_iff chosen.ballot b).0 same in
        let (q, first) = chosen.proposed in
        inv.one_value q p b v w (subst (λ (x : Ballot). In (q, maccept x v) c.sent) e first) sent
    | inr other ↦
        let above : chosen.ballot < b = ground arith in
        let (q, first) = chosen.proposed in
        let (ok, (owned, kind)) = inv.packets q (maccept chosen.ballot v) first in
        let (ok', (owned', kind')) = inv.packets p (maccept b w) sent in
        elim kind' [
          | inl small ↦
              let e = Owns-small n coordinator p b ok' owned' small in
              let e' = Owns-small n coordinator q chosen.ballot ok owned (omega arith) in
              absurd (omega arith)
          | inr backing ↦
              let (a, accepted, held, seen) = shared_report v w b chosen backing above in
              let positive = Owns-pos n coordinator q chosen.ballot ok owned in
              elim backing.calls [
                | inl nothing ↦
                    absurd (omega (arith, All-get _ backing.promises a accepted nothing held))
                | inr (top, from, up, reported, most) ↦
                    let promise =
                      All-get _ backing.promises from (top, w) backing.promised reported in
                    let report = inv.packets from (mpromise b (top, w)) promise in
                    let limit = All-get _ backing.promises a accepted most held in
                    agree_below v chosen k top w (report.1.2 up) (omega arith)
                      (omega (arith, report.1.1))
              ]
        ]
  ]

  pub chosen_agree :
      (p q : ProcessId) (v w : V) → In (p, mchosen v) c.sent → In (q, mchosen w) c.sent → v ≡ w
  chosen_agree p q v w hv hw =
      let a = (inv.packets p (mchosen v) hv).1 in
      let b = (inv.packets q (mchosen w) hw).1 in
      elim (dec_le a.ballot b.ballot) [
        | yes le ↦ agree_below v a (suc b.ballot) b.ballot w b.proposed le (omega arith)
        | no more ↦
            sym (agree_below w b (suc a.ballot) a.ballot v a.proposed (omega arith) (omega arith))
      ]

module _ {V : Type 0} (n f : ℕ) (coordinator : ProcessId) where
  start-Inv :
      (proposal_gen : ProcessId → Map ProcessId V → V) (initial : ProcessId → V)
      → Inv n f coordinator (start n f proposal_gen initial)
  unfolding new
  start-Inv proposal_gen initial = record {
    nodes = λ p. record {
      is_p = refl;
      has_n = refl;
      has_f = refl;
      owns = inl refl;
      accepted_low = omega arith;
      accepted_real = λ up. absurd (omega arith);
      chosen_real = λ e. absurd (ground arith);
      votes_low = λ b h. absurd h;
      votes_seen = λ e b h. absurd h;
      promises_low = λ b a h. absurd h;
      promises_held = tt;
      promises_distinct = tt;
      accepts_held = tt;
      accepts_distinct = tt;
      proposal_real = λ v e. absurd (ground arith);
      own_proposals = λ b v h. absurd h;
      promises_few = omega arith;
      proposed_few = λ v up h. absurd h;
    };
    packets = λ p m h. absurd h;
    one_value = λ p q b v w h h'. absurd h;
    taken_once = tt;
  }

  Step-Inv :
      (few : 2 * f < n) {c d : Cluster V}
      → Inv n f coordinator c
      → Step n coordinator c d
      → Inv n f coordinator d
  Step-Inv few {c} inv (Step.set p v ok open_) = Inv-set n f coordinator c inv p v open_
  Step-Inv few {c} inv (Step.prepare p s m ok e) = Inv-prepare n f coordinator c inv p s m ok e
  Step-Inv few {c} inv (Step.skip s b v ok first e) =
      Inv-skip n f coordinator c inv s b v ok first e
  Step-Inv few {c} inv (Step.deliver p from m s reply ok sent plain waits e) =
      After-deliver n f coordinator c inv p ok (omega arith) from m s reply sent plain waits e
  Step-Inv few {c} inv (Step.deliver_promise p from b a s reply ok sent first e) =
      Taken-deliver n f coordinator c inv p ok few from b a sent first s reply e

  Reach-Inv :
      (few : 2 * f < n) {c d : Cluster V}
      → Inv n f coordinator c
      → Reach n coordinator c d
      → Inv n f coordinator d
  Reach-Inv few inv Reach.here = inv
  Reach-Inv few inv (Reach.next reach step) = Step-Inv few (Reach-Inv few inv reach) step

-- Agreement of the single-decree Paxos: in every run of `n` processes with `2 * f < n`, over a
-- network that loses, reorders, duplicates and misdelivers packets but delivers a promise at most
-- once, where only the coordinator skips the prepare phase, as its first ballot, values are not
-- set after one was chosen, and accepts reach a proposer only while it waits for them, any two
-- values that processes announce as chosen are the same.
pub agreement :
    {V : Type 0} (n f : ℕ) (coordinator : ProcessId)
    (proposal_gen : ProcessId → Map ProcessId V → V) (initial : ProcessId → V) (c : Cluster V)
    (p q : ProcessId) (v w : V)
    → 2 * f < n
    → Reach n coordinator (start n f proposal_gen initial) c
    → In (p, mchosen v) c.sent
    → In (q, mchosen w) c.sent
    → v ≡ w
agreement n f coordinator proposal_gen initial c p q v w few reach hv hw =
    chosen_agree n f coordinator c
      (Reach-Inv n f coordinator few (start-Inv n f coordinator proposal_gen initial) reach)
      (omega arith) p q v w hv hw
