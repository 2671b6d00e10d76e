-- ===== src/Synod/Cluster/Promises.antt =====
-- The delivery of a promise keeps the invariant of a cluster: a proposer proposes at most one
-- value at a ballot, since the promises that are left over after a proposal are too few for
-- another one.
use fantoch.Prelude.{
  ℕ, ◌-◌, ◌*◌, ◌≤◌, ◌<◌, ◌≡◌, refl, sym, ◌∙◌, subst, inl, inr, true, Option, none, some, List, [],
  ◌∷◌, length, All, All-map, done, Bool-cases, nat_beq, nat_beq_iff, arith, u64_partial_eq,
  if◌then◌else◌, ◌==◌, sub64, sub64_lem,
}
use fantoch.Prelude.Maps.{Map, insert}
use fantoch.Prelude.Sets.{IsDistinct, contains}
use fantoch.Prelude.Counting.{InRange, pigeonhole}
use fantoch.Identifiers.{ProcessId}
use fantoch.Synod.Defs.{
  Ballot, Accepted, Proposer, Synod, SynodMessage, maccept, mpromise, handle, choose_proposal,
}
use fantoch.Synod.Acceptors.{handle-mpromise}
use fantoch.Synod.Proposers.{PromiseCase}
use fantoch.Synod.Choice.{choose_proposal-Calls}
use fantoch.Synod.Ballots.{IsProcess, rounds_disjoint, prepared}
use fantoch.Synod.Cluster.{In, Cluster, put, post}
use fantoch.Synod.Cluster.Invariant.{Inv, NodeOk, Owns, Backing, delivered, TakenOk}
use fantoch.Synod.Cluster.Network.{NodeOk-post, Inv-quiet, Inv-post, Inv-take}
use fantoch.Synod.Cluster.Slips.{length-insert-absent}
use fantoch.Synod.Cluster.ProposerSide.{
  NodeOk-reset, NodeOk-remembered, NodeOk-gathered, promise_absent,
}

-- The processes whose promise for `b` was delivered.
abbrev takers : Ballot → List (ProcessId × Ballot) → List ProcessId
takers b [] = []
takers b (entry ∷ taken) = if entry.1 == b then entry.0 ∷ takers b taken else takers b taken

length-takers :
    (b : Ballot) (taken : List (ProcessId × Ballot)) → length (takers b taken) ≡ delivered b taken
length-takers b [] = refl
length-takers b (entry ∷ taken) = ground (arith, length-takers b taken)

takers-In :
    (b z : ℕ) (taken : List (ProcessId × Ballot))
    → contains z (takers b taken) ≡ true
    → In (z, b) taken
unfolding contains
takers-In b z [] h = absurd (ground arith)
takers-In b z ((x, b') ∷ taken) h = elim (Bool-cases (nat_beq b' b)) [
  | inr other ↦ inr (takers-In b z taken (rw other at h))
  | inl same ↦
      let eb = (nat_beq_iff b' b).0 same in
      let h' = rw same at h in
      elim (Bool-cases (nat_beq x z)) [
        | inl this ↦ let ex = (nat_beq_iff x z).0 this in inl (cc)
        | inr later ↦ inr (takers-In b z taken (rw later at h'))
      ]
]

takers-IsDistinct :
    (n : ℕ) (b : Ballot) (taken : List (ProcessId × Ballot))
    → TakenOk n taken
    → IsDistinct (takers b taken) × InRange n (takers b taken)
takers-IsDistinct n b [] h = (tt, tt)
takers-IsDistinct n b ((x, b') ∷ taken) (is_process, once, rest) =
    let (distinct, range) = takers-IsDistinct n b taken rest in
    elim (Bool-cases (nat_beq b' b)) [
      | inr other ↦ rw other (distinct, range)
      | inl same ↦
          let eb = (nat_beq_iff b' b).0 same in
          rw same (
            (
              elim (Bool-cases (contains x (takers b taken))) [
                | inr absent ↦ absent
                | inl present ↦ absurd (
                    once (
                      subst (λ (z : Ballot). In (x, z) taken) (sym eb)
                        (takers-In b x taken present)))
              ],
              distinct,
            ),
            ((is_process.positive, is_process.within), range),
          )
    ]

-- No more promises for a ballot are delivered than there are processes.
delivered-le :
    (n : ℕ) (b : Ballot) (taken : List (ProcessId × Ballot))
    → TakenOk n taken
    → delivered b taken ≤ n
delivered-le n b taken h =
    let (distinct, range) = takers-IsDistinct n b taken h in
    omega (arith, length-takers b taken, pigeonhole n (takers b taken) distinct range)

module _ {V : Type 0} (n f : ℕ) (coordinator : ProcessId) (c : Cluster V)
    (inv : Inv n f coordinator c) (p : ProcessId) (is_process : IsProcess n p) (few : 2 * f < n)
    (from : ProcessId) (b : Ballot) (a : Accepted V) (sent : In (from, mpromise b a) c.sent)
    (first : ¬ In (from, b) c.taken) where
  -- The cluster after the promise was taken, `p` moved to a state and sent a reply.
  abbrev pub Taken : Synod V × Option (SynodMessage V) → Type 0
  Taken z =
      Inv n f coordinator
        (record { node = put p z.0 c.node; sent = post p z.1 c.sent; taken = (from, b) ∷ c.taken })

  abbrev taken_cluster : Cluster V
  taken_cluster = record c { taken = (from, b) ∷ c.taken }

  taken-Inv : Inv n f coordinator taken_cluster
  taken-Inv = Inv-take n f coordinator c inv from b (inv.packets from (mpromise b a) sent).0 first

  high : n < b
  high = (inv.packets from (mpromise b a) sent).1.0

  module _ (same : (c.node p).proposer.ballot ≡ b) where
    abbrev all_promises : Map ProcessId (Accepted V)
    all_promises = insert from a (c.node p).proposer.promises

    abbrev gathered_node : Synod V
    gathered_node = record (c.node p) {
      proposer = record (c.node p).proposer { promises = all_promises };
    }

    first_here : ¬ In (from, (c.node p).proposer.ballot) c.taken
    first_here = subst (λ (z : Ballot). ¬ In (from, z) c.taken) (sym same) first

    gathered_ok : NodeOk n f coordinator c.sent ((from, b) ∷ c.taken) p gathered_node
    gathered_ok =
        subst (λ (z : Ballot). NodeOk n f coordinator c.sent ((from, z) ∷ c.taken) p gathered_node)
          same
          (NodeOk-gathered n f coordinator c.sent c.taken p (c.node p) (inv.nodes p) from a
            (subst (λ (z : Ballot). In (from, mpromise z a) c.sent) (sym same) sent) first_here)

    owned : Owns n coordinator p b
    owned = elim (inv.nodes p).owns [
      | inl none_yet ↦ absurd (omega (arith, high))
      | inr o ↦ subst (Owns n coordinator p) same o
    ]

    module _ (v : V)
        (enough : length all_promises ≡ sub64 (c.node p).proposer.n (c.node p).proposer.f)
        (choice : choose_proposal (c.node p).proposer.proposal_gen all_promises ≡ done v) where
      quorum : length all_promises ≡ n - f
      quorum =
          let ok = inv.nodes p in
          enough
          ∙ sub64_lem _ _ (omega (arith, ok.has_n, ok.has_f))
              (omega (arith, ok.has_n, is_process.small))
          ∙ omega (arith, ok.has_n, ok.has_f)

      backing : Backing n f c.sent b v
      backing = record {
        promises = all_promises;
        distinct = gathered_ok.promises_distinct;
        enough = quorum;
        promised =
            subst
              (λ (z : Ballot).
                All (λ (e : ProcessId × Accepted V). In (e.0, mpromise z e.1) c.sent) all_promises)
              same (All-map _ _ (λ e h. h.0) all_promises gathered_ok.promises_held);
        calls = elim (choose_proposal-Calls _ all_promises v gathered_ok.promises_distinct choice) [
          | inl generated ↦ inl generated.0
          | inr reported ↦ inr reported
        ];
      }

      -- No proposal at this ballot was sent before.
      nothing_proposed : (q : ProcessId) (w : V) → ¬ In (q, maccept b w) c.sent
      nothing_proposed q w h =
          let ok = inv.nodes p in
          let (is_process', ((r, er, z), kind)) = inv.packets q (maccept b w) h in
          let (t, et, z') = owned in
          let mine : q ≡ p = (rounds_disjoint n q p r t b is_process' is_process er et).0 in
          let own : In (p, maccept (c.node p).proposer.ballot w) c.sent =
            subst (λ (x : Ballot). In (p, maccept x w) c.sent) (sym same)
              (subst (λ (x : ProcessId). In (x, maccept b w) c.sent) mine h) in
          let spent = ok.proposed_few w (omega (arith, high)) own in
          let grown =
            length-insert-absent from a (c.node p).proposer.promises
              (promise_absent n f coordinator c.sent c.taken p (c.node p) ok from first_here) in
          let most = delivered-le n b ((from, b) ∷ c.taken) taken-Inv.taken_once in
          ground (arith, spent, grown, most, quorum, same, few)

      Taken-proposed : Taken (
        record (c.node p) {
          proposer = record (c.node p).proposer { promises = []; accepts = []; proposal = some v };
        },
        some (maccept b v),
      )
      Taken-proposed =
          let reset : Synod V = record (c.node p) {
            proposer = prepared (c.node p).proposer.ballot (c.node p).proposer;
          } in
          let reset_ok =
            NodeOk-reset n f coordinator c.sent ((from, b) ∷ c.taken) p gathered_node gathered_ok in
          let posted =
            NodeOk-post n f coordinator c.sent ((from, b) ∷ c.taken) p reset (p, maccept b v)
              (record {
                vote = λ b' e. cc;
                promise = λ b' a' e. cc;
                proposal = λ b' w e.
                    let at : b' ≡ b = cc in
                    (omega arith, λ up now. omega (arith, gathered_ok.promises_few, quorum));
              })
              reset_ok in
          Inv-post n f coordinator taken_cluster taken-Inv p _ (maccept b v) is_process
            (NodeOk-remembered n f coordinator ((p, maccept b v) ∷ c.sent) ((from, b) ∷ c.taken) p
              reset posted v
              (
                p,
                subst (λ (x : Ballot). In (p, maccept x v) ((p, maccept b v) ∷ c.sent)) (sym same)
                    (inl refl),
              ))
            (owned, inr backing) (λ q b' b'' a' e. cc)
            (λ q b' w u e h.
              let at : b' ≡ b = cc in
              absurd
                (nothing_proposed q u (subst (λ (x : Ballot). In (q, maccept x u) c.sent) at h)))

  Taken-case :
      (p' : Proposer V) (reply : Option (SynodMessage V))
      → PromiseCase from b a (c.node p).proposer p' reply
      → Taken (record (c.node p) { proposer = p' }, reply)
  Taken-case p' reply (PromiseCase.ignored other e r) =
      subst Taken {x = (c.node p, none)} (cc)
        (Inv-quiet n f coordinator taken_cluster taken-Inv p (c.node p) (taken-Inv.nodes p))
  Taken-case p' reply (PromiseCase.gathered same short e r) =
      subst Taken {x = (gathered_node same, none)} (cc) (
        Inv-quiet n f coordinator taken_cluster taken-Inv p (gathered_node same) (gathered_ok same))
  Taken-case p' reply (PromiseCase.proposed v same enough choice e r) =
      subst Taken
        {x = (
          record (c.node p) {
            proposer = record (c.node p).proposer {
              promises = [];
              accepts = [];
              proposal = some v;
            };
          },
          some (maccept b v),
        )}
        (cc) (Taken-proposed same v enough choice)

  pub Taken-deliver :
      (s : Synod V) (reply : Option (SynodMessage V))
      → handle from (mpromise b a) (c.node p) ≡ done (s, reply)
      → Taken (s, reply)
  Taken-deliver s reply h =
      let (p', kind, e) = handle-mpromise from b a (c.node p) s reply h in
      subst Taken {x = (record (c.node p) { proposer = p' }, reply)} (cc) (Taken-case p' reply kind)
