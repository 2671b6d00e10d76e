-- ===== src/Synod/Cluster/Deliveries.antt =====
-- The delivery of a packet that is no promise keeps the invariant of a cluster.
use fantoch.Prelude.{
  ℕ, ◌+◌, ◌≤◌, ◌<◌, ◌≡◌, sym, ◌∙◌, ap, subst, ◌⊎◌, inl, inr, true, false, Option, none, some, done,
  Bool-cases, Option-cases, arith, u64_partial_eq, ltb, leb, add64_lem,
}
use fantoch.Prelude.Sets.{add}
use fantoch.Identifiers.{ProcessId}
use fantoch.Synod.Defs.{
  Ballot, Proposer, Synod, SynodMessage, mchosen, mprepare, maccept, mpromise, maccepted, handle,
  handle_prepare, handle_accept, accepted_proposal,
}
use fantoch.Synod.Acceptors.{handle-maccepted}
use fantoch.Synod.Proposers.{AcceptCase}
use fantoch.Synod.Ballots.{IsProcess, prepared}
use fantoch.Synod.Cluster.{In, Cluster, put, post, is_promise, Awaits, Waits}
use fantoch.Synod.Cluster.Invariant.{Inv, NodeOk, Proposed, ChosenAt}
use fantoch.Synod.Cluster.Network.{NodeOk-post, Inv-quiet, Inv-post}
use fantoch.Synod.Cluster.AcceptorSide.{NodeOk-chosen, NodeOk-raised, NodeOk-accepted}
use fantoch.Synod.Cluster.ProposerSide.{NodeOk-reset, NodeOk-counted}

module _ {V : Type 0} where
  -- The three answers to a prepare: the chosen value, a promise, or none.
  prepare_cases :
      (from : ProcessId) (b : Ballot) (s s' : Synod V) (reply : Option (SynodMessage V))
      → handle from (mprepare b) s ≡ done (s', reply)
      → (s.chosen ≡ true) × (s' ≡ s) × (reply ≡ some (mchosen s.acceptor.accepted.1))
        ⊎ (s.chosen ≡ false)
          × (s.acceptor.ballot < b)
          × (s' ≡ record s { acceptor = record s.acceptor { ballot = b } })
          × (reply ≡ some (mpromise b s.acceptor.accepted))
        ⊎ (s' ≡ s) × (reply ≡ none)
  unfolding handle handle_prepare
  prepare_cases from b s s' reply h = elim (Bool-cases s.chosen) [
    | inl chosen ↦ inl (chosen, ground arith, ground arith)
    | inr open_ ↦ elim (Bool-cases (ltb s.acceptor.ballot b)) [
      | inl up ↦ inr (inl (open_, ground arith, ground arith, ground arith))
      | inr low ↦ inr (inr (ground arith, ground arith))
    ]
  ]

  -- The three answers to a proposal: the chosen value, an accept, or none.
  accept_cases :
      (from : ProcessId) (b : Ballot) (v : V) (s s' : Synod V) (reply : Option (SynodMessage V))
      → handle from (maccept b v) s ≡ done (s', reply)
      → (s.chosen ≡ true) × (s' ≡ s) × (reply ≡ some (mchosen s.acceptor.accepted.1))
        ⊎ (s.chosen ≡ false)
          × (s.acceptor.ballot ≤ b)
          × (s' ≡ record s { acceptor = record { ballot = b; accepted = (b, v) } })
          × (reply ≡ some (maccepted b))
        ⊎ (s' ≡ s) × (reply ≡ none)
  unfolding handle handle_accept
  accept_cases from b v s s' reply h = elim (Bool-cases s.chosen) [
    | inl chosen ↦ inl (chosen, ground arith, ground arith)
    | inr open_ ↦ elim (Bool-cases (leb s.acceptor.ballot b)) [
      | inl up ↦ inr (inl (open_, ground arith, ground arith, ground arith))
      | inr low ↦ inr (inr (ground arith, ground arith))
    ]
  ]

  mchosen_case :
      (from : ProcessId) (v : V) (s s' : Synod V) (reply : Option (SynodMessage V))
      → handle from (mchosen v) s ≡ done (s', reply)
      → (s' ≡ record s { acceptor = record s.acceptor { accepted = (0, v) }; chosen = true })
        × (reply ≡ none)
  unfolding handle
  mchosen_case from v s s' reply h = (ground arith, ground arith)

module _ {V : Type 0} (n f : ℕ) (coordinator : ProcessId) (c : Cluster V)
    (inv : Inv n f coordinator c) (p : ProcessId) (is_process : IsProcess n p)
    (bound : f + 1 ≤ n) where
  -- The cluster after `p` moved to a state and sent a reply.
  abbrev pub After : Synod V × Option (SynodMessage V) → Type 0
  After z = Inv n f coordinator (record c { node = put p z.0 c.node; sent = post p z.1 c.sent })

  pub After-same : After (c.node p, none)
  After-same = Inv-quiet n f coordinator c inv p (c.node p) (inv.nodes p)

  -- A chosen value may be announced again, and by anyone who knows it.
  pub After-mchosen :
      (s : Synod V) (v : V)
      → NodeOk n f coordinator c.sent c.taken p s
      → ChosenAt f c.sent v
      → After (s, some (mchosen v))
  After-mchosen s v ok chosen =
      Inv-post n f coordinator c inv p s (mchosen v) is_process
        (NodeOk-post n f coordinator c.sent c.taken p s (p, mchosen v)
          (record { vote = λ b h. cc; promise = λ b a h. cc; proposal = λ b w h. cc }) ok)
        chosen (λ q b' b a h. cc) (λ q b w u h. cc)

  After-announce :
      (c.node p).chosen ≡ true → After (c.node p, some (mchosen (c.node p).acceptor.accepted.1))
  After-announce e =
      let (z, from, h) = (inv.nodes p).chosen_real e in
      After-mchosen (c.node p) (c.node p).acceptor.accepted.1 (inv.nodes p)
        (inv.packets from (mchosen (c.node p).acceptor.accepted.1) h).1

  After-promise :
      (from : ProcessId) (b : Ballot)
      → In (from, mprepare b) c.sent
      → (c.node p).chosen ≡ false
      → (c.node p).acceptor.ballot < b
      → After (
        record (c.node p) { acceptor = record (c.node p).acceptor { ballot = b } },
        some (mpromise b (c.node p).acceptor.accepted),
      )
  After-promise from b h open_ up =
      let ok = inv.nodes p in
      let raised = NodeOk-raised n f coordinator c.sent c.taken p (c.node p) ok b (omega arith) in
      Inv-post n f coordinator c inv p _ (mpromise b (c.node p).acceptor.accepted) is_process
        (NodeOk-post n f coordinator c.sent c.taken p _ (p, mpromise b (c.node p).acceptor.accepted)
          (record {
            vote = λ b' e. cc;
            promise = λ b' a e. let same : b' ≡ b = cc in omega arith;
            proposal = λ b' w e. cc;
          })
          raised)
        (
          (inv.packets from (mprepare b) h).1,
          omega (arith, ok.accepted_low),
          ok.accepted_real,
          λ b' vote less. ok.votes_seen open_ b' vote,
        )
        (λ q b' b'' a e. cc) (λ q b' w u e. cc)

  After-accept :
      (from : ProcessId) (b : Ballot) (v : V)
      → In (from, maccept b v) c.sent
      → (c.node p).chosen ≡ false
      → (c.node p).acceptor.ballot ≤ b
      → After (
        record (c.node p) { acceptor = record { ballot = b; accepted = (b, v) } },
        some (maccepted b),
      )
  After-accept from b v h open_ up =
      let ok = inv.nodes p in
      let voted =
        NodeOk-accepted n f coordinator c.sent c.taken p (c.node p) ok b v up (from, h) open_ in
      Inv-post n f coordinator c inv p _ (maccepted b) is_process
        (NodeOk-post n f coordinator c.sent c.taken p _ (p, maccepted b)
          (record {
            vote = λ b' e. let same : b' ≡ b = cc in (omega arith, λ z. omega arith);
            promise = λ b' a e. cc;
            proposal = λ b' w e. cc;
          })
          voted)
        (v, (from, h))
        (λ q b' b'' a e old. elim old [
          | inl e' ↦ cc
          | inr before ↦
              let same : b' ≡ b = cc in
              let mine : q ≡ p = cc in
              omega (
                arith,
                ok.promises_low b'' a
                    (subst (λ (z : ProcessId). In (z, mpromise b'' a) c.sent) mine before),
              )
        ])
        (λ q b' w u e. cc)

  -- The value that a quorum of accepts makes chosen was proposed at their ballot.
  decided_value :
      (v : V)
      → Waits (c.node p).proposer
      → accepted_proposal
          (c.node p).proposer.proposal
          (c.node p).proposer.process_id
          (c.node p).acceptor
        ≡ done v
      → Proposed c.sent (c.node p).proposer.ballot v
  unfolding accepted_proposal
  decided_value v waits e =
      let ok = inv.nodes p in
      let a = (c.node p).acceptor in
      elim (Option-cases (c.node p).proposer.proposal) [
        | inr (w, given) ↦
            let same : w ≡ v = ground arith in ok.proposal_real v (given ∙ ap some same)
        | inl nothing ↦ elim waits [
          | inl pending ↦ absurd (pending nothing)
          | inr first ↦
              let at_first : a.accepted.0 ≡ (c.node p).proposer.process_id = ground arith in
              let same : a.accepted.1 ≡ v = ground arith in
              let ballot : a.accepted.0 ≡ (c.node p).proposer.ballot = at_first ∙ sym first in
              let positive : 0 < a.accepted.0 = omega (arith, ok.is_p, is_process.positive) in
              subst (λ (z : Ballot). Proposed c.sent z v) ballot
                (subst (Proposed c.sent a.accepted.0) same (ok.accepted_real positive))
        ]
      ]

  After-accepted :
      (from : ProcessId) (b : Ballot) (p' : Proposer V) (reply : Option (SynodMessage V))
      → In (from, maccepted b) c.sent
      → Waits (c.node p).proposer
      → AcceptCase from b (c.node p).acceptor (c.node p).proposer p' reply
      → After (record (c.node p) { proposer = p' }, reply)
  After-accepted from b p' reply h waits (AcceptCase.ignored other e r) =
      subst After {x = (c.node p, none)} (cc) After-same
  After-accepted from b p' reply h waits (AcceptCase.gathered same few e r) =
      let h' = subst (λ (z : Ballot). In (from, maccepted z) c.sent) (sym same) h in
      let counted : Synod V = record (c.node p) {
        proposer = record (c.node p).proposer { accepts = add from (c.node p).proposer.accepts };
      } in
      subst After {x = (counted, none)} (cc) (
        Inv-quiet n f coordinator c inv p counted
          (NodeOk-counted n f coordinator c.sent c.taken p (c.node p) (inv.nodes p) from h'))
  After-accepted from b p' reply h waits (AcceptCase.decided v same enough value e r) =
      let ok = inv.nodes p in
      let h' = subst (λ (z : Ballot). In (from, maccepted z) c.sent) (sym same) h in
      let reset : Synod V = record (c.node p) {
        proposer = prepared (c.node p).proposer.ballot (c.node p).proposer;
      } in
      let counted = NodeOk-counted n f coordinator c.sent c.taken p (c.node p) ok from h' in
      subst After {x = (reset, some (mchosen v))} (cc) (
        After-mchosen reset v (NodeOk-reset n f coordinator c.sent c.taken p (c.node p) ok)
          (record {
            ballot = (c.node p).proposer.ballot;
            proposed = decided_value v waits value;
            accepts = add from (c.node p).proposer.accepts;
            distinct = counted.accepts_distinct;
            enough =
                enough
                ∙ add64_lem _ 1 (omega (arith, ok.has_f, is_process.small))
                ∙ ap (λ x. x + 1) ok.has_f;
            accepted = counted.accepts_held;
          }))

  pub After-deliver :
      (from : ProcessId) (message : SynodMessage V) (s : Synod V) (reply : Option (SynodMessage V))
      → In (from, message) c.sent
      → is_promise message ≡ false
      → Awaits message (c.node p).proposer
      → handle from message (c.node p) ≡ done (s, reply)
      → After (s, reply)
  After-deliver from (mchosen v) s reply sent plain waits h =
      let (e, r) = mchosen_case from v (c.node p) s reply h in
      let chosen : Synod V = record (c.node p) {
        acceptor = record (c.node p).acceptor { accepted = (0, v) };
        chosen = true;
      } in
      subst After {x = (chosen, none)} (cc) (
        Inv-quiet n f coordinator c inv p chosen
          (NodeOk-chosen n f coordinator c.sent c.taken p (c.node p) (inv.nodes p) v from sent))
  After-deliver from (mprepare b) s reply sent plain waits h =
      elim (prepare_cases from b (c.node p) s reply h) [
        | inl (chosen, e, r) ↦
            subst After {x = (c.node p, some (mchosen (c.node p).acceptor.accepted.1))} (cc)
              (After-announce chosen)
        | inr (inl (open_, up, e, r)) ↦
            subst After
              {x = (
                record (c.node p) { acceptor = record (c.node p).acceptor { ballot = b } },
                some (mpromise b (c.node p).acceptor.accepted),
              )}
              (cc) (After-promise from b sent open_ up)
        | inr (inr (e, r)) ↦ subst After {x = (c.node p, none)} (cc) After-same
      ]
  After-deliver from (maccept b v) s reply sent plain waits h =
      elim (accept_cases from b v (c.node p) s reply h) [
        | inl (chosen, e, r) ↦
            subst After {x = (c.node p, some (mchosen (c.node p).acceptor.accepted.1))} (cc)
              (After-announce chosen)
        | inr (inl (open_, up, e, r)) ↦
            subst After
              {x = (
                record (c.node p) { acceptor = record { ballot = b; accepted = (b, v) } },
                some (maccepted b),
              )}
              (cc) (After-accept from b v sent open_ up)
        | inr (inr (e, r)) ↦ subst After {x = (c.node p, none)} (cc) After-same
      ]
  After-deliver from (mpromise b a) s reply sent plain waits h = cc
  After-deliver from (maccepted b) s reply sent plain waits h =
      let (p', kind, e) = handle-maccepted from b (c.node p) s reply h in
      subst After {x = (record (c.node p) { proposer = p' }, reply)} (cc)
        (After-accepted from b p' reply sent waits kind)
