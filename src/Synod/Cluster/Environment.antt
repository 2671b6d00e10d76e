-- ===== src/Synod/Cluster/Environment.antt =====
-- The steps that the callers of `Synod` take keep the invariant of a cluster.
use fantoch.Prelude.{
  ℕ, suc, ◌+◌, ◌*◌, ◌≤◌, ◌<◌, ◌≡◌, refl, ◌∙◌, subst, inl, inr, false, none, List, [], ◌∷◌, All,
  done, Bool-cases, Option-cases, nat_beq, nat_beq_iff, arith, u64_partial_eq,
}
use fantoch.Identifiers.{ProcessId}
use fantoch.Synod.Defs.{
  Ballot, Synod, SynodMessage, mprepare, maccept, mpromise, maccepted, set_if_not_accepted,
  acceptor_set_if_not_accepted, new_prepare, skip_prepare, proposer_skip_prepare,
}
use fantoch.Synod.Ballots.{IsProcess, IsRound, new_prepare_lem}
use fantoch.Synod.Cluster.{In, Cluster, put}
use fantoch.Synod.Cluster.Invariant.{Inv, Proposed, Owns}
use fantoch.Synod.Cluster.Network.{NodeOk-post, Inv-quiet, Inv-post}
use fantoch.Synod.Cluster.Quorums.{Owns-pos, round_zero}
use fantoch.Synod.Cluster.AcceptorSide.{NodeOk-set}
use fantoch.Synod.Cluster.ProposerSide.{NodeOk-prepared, NodeOk-skipped}

All-empty {ℓ} :
    {A : Type 0} (P : A → Type ℓ) (xs : List A) → ((x : A) → P x → ⊥) → All P xs → xs ≡ []
All-empty P [] impossible h = refl
All-empty P (x ∷ xs) impossible h = absurd (impossible x h.0)

above_first_round : (n p r b : ℕ) → 1 ≤ p → b ≡ p + n * suc r → n < b
above_first_round n p r b h e = grind arith

module _ {V : Type 0} where
  skip_prepare_cases :
      (s s' : Synod V) (b : Ballot)
      → skip_prepare s ≡ done (s', b)
      → (s' ≡ record s { proposer = record s.proposer { ballot = s.proposer.process_id } })
        × (b ≡ s.proposer.process_id)
        × (s.acceptor.ballot ≡ 0)
  unfolding skip_prepare proposer_skip_prepare
  skip_prepare_cases s s' b h = (ground arith, ground arith, ground arith)

module _ {V : Type 0} (n f : ℕ) (coordinator : ProcessId) (c : Cluster V)
    (inv : Inv n f coordinator c) where
  pub Inv-set :
      (p : ProcessId) (v : V)
      → (c.node p).chosen ≡ false
      → Inv n f coordinator (record c { node = put p (set_if_not_accepted v (c.node p)).0 c.node })
  unfolding set_if_not_accepted acceptor_set_if_not_accepted
  Inv-set p v open_ = elim (Bool-cases (nat_beq (c.node p).acceptor.ballot 0)) [
    | inl first ↦ rw first (
        Inv-quiet n f coordinator c inv p _ (
          NodeOk-set n f coordinator c.sent c.taken p (c.node p) (inv.nodes p) v
            ((nat_beq_iff _ 0).0 first) open_))
    | inr later ↦ rw later (Inv-quiet n f coordinator c inv p _ (inv.nodes p))
  ]

  pub Inv-prepare :
      (p : ProcessId) (s : Synod V) (message : SynodMessage V)
      → IsProcess n p
      → new_prepare (c.node p) ≡ done (s, message)
      → Inv n f coordinator (record c { node = put p s c.node; sent = (p, message) ∷ c.sent })
  Inv-prepare p s message is_process h =
      let ok = inv.nodes p in
      let own : IsProcess (c.node p).proposer.n (c.node p).proposer.process_id =
        rw (ok.has_n, ok.is_p) is_process in
      let (b, round, is_round, up, up', e, m) = new_prepare_lem (c.node p) s message own h in
      let is_round' : IsRound n p (suc round) b =
        subst (λ (z : ℕ). IsRound z p (suc round) b) ok.has_n
          (subst (λ (z : ℕ). IsRound (c.node p).proposer.n z (suc round) b) ok.is_p is_round) in
      subst
        (λ (z : Synod V × SynodMessage V).
          Inv n f coordinator (record c { node = put p z.0 c.node; sent = (p, z.1) ∷ c.sent }))
        (cc)
        (Inv-post n f coordinator c inv p _ (mprepare b) is_process
          (NodeOk-post n f coordinator c.sent c.taken p _ (p, mprepare b)
            (record { vote = λ b' h'. cc; promise = λ b' a h'. cc; proposal = λ b' v h'. cc })
            (NodeOk-prepared n f coordinator c.sent c.taken p (c.node p) ok b up
              (suc round, is_round', λ z. cc)))
          (above_first_round n p round b is_process.positive is_round') (λ q b' b'' a h'. cc)
          (λ q b' v w h'. cc))

  -- Nothing has reached a proposer that is in no ballot.
  no_promises : (p : ProcessId) → (c.node p).proposer.ballot ≡ 0 → (c.node p).proposer.promises ≡ []
  no_promises p first =
      All-empty _ (c.node p).proposer.promises
        (λ entry h.
          omega
            (arith, (inv.packets entry.0 (mpromise (c.node p).proposer.ballot entry.1) h.0).1.0))
        (inv.nodes p).promises_held

  Proposed-pos : (b : Ballot) (v : V) → Proposed c.sent b v → 0 < b
  Proposed-pos b v (q, h) =
      let (is_process, (owned, kind)) = inv.packets q (maccept b v) h in
      Owns-pos n coordinator q b is_process owned

  no_accepts : (p : ProcessId) → (c.node p).proposer.ballot ≡ 0 → (c.node p).proposer.accepts ≡ []
  no_accepts p first =
      All-empty _ (c.node p).proposer.accepts
        (λ a h.
          let (v, proposed) = (inv.packets a (maccepted (c.node p).proposer.ballot) h).1 in
          omega (arith, Proposed-pos (c.node p).proposer.ballot v proposed))
        (inv.nodes p).accepts_held

  no_proposal :
      (p : ProcessId) → (c.node p).proposer.ballot ≡ 0 → (c.node p).proposer.proposal ≡ none
  no_proposal p first = elim (Option-cases (c.node p).proposer.proposal) [
    | inl nothing ↦ nothing
    | inr (v, e) ↦
        absurd (
          omega
            (arith, Proposed-pos (c.node p).proposer.ballot v ((inv.nodes p).proposal_real v e)))
  ]

  -- No other proposal has the coordinator's first ballot.
  first_alone :
      (q : ProcessId) (w : V)
      → IsProcess n coordinator
      → (c.node coordinator).proposer.ballot ≡ 0
      → ¬ In (q, maccept coordinator w) c.sent
  first_alone q w is_process first h =
      let (is_process', ((round, e, alone), kind)) = inv.packets q (maccept coordinator w) h in
      let same =
        alone (round_zero n q round coordinator is_process'.positive e is_process.within) in
      let own = subst (λ (z : ProcessId). In (z, maccept coordinator w) c.sent) same h in
      omega (arith, is_process.positive, (inv.nodes coordinator).own_proposals coordinator w own)

  pub Inv-skip :
      (s : Synod V) (b : Ballot) (v : V)
      → IsProcess n coordinator
      → (c.node coordinator).proposer.ballot ≡ 0
      → skip_prepare (c.node coordinator) ≡ done (s, b)
      → Inv n f coordinator
          (record c { node = put coordinator s c.node; sent = (coordinator, maccept b v) ∷ c.sent })
  Inv-skip s b v is_process first h =
      let ok = inv.nodes coordinator in
      let (e, eb, low) = skip_prepare_cases (c.node coordinator) s b h in
      let is_first : b ≡ coordinator = eb ∙ ok.is_p in
      let owned : Owns n coordinator coordinator coordinator = (0, omega arith, λ z. refl) in
      subst
        (λ (z : Synod V × Ballot). Inv n f coordinator (record c {
          node = put coordinator z.0 c.node;
          sent = (coordinator, maccept z.1 v) ∷ c.sent;
        }))
        (cc)
        (Inv-post n f coordinator c inv coordinator
          (record (c.node coordinator) {
            proposer = record (c.node coordinator).proposer { ballot = coordinator };
          })
          (maccept coordinator v) is_process
          (NodeOk-post n f coordinator c.sent c.taken coordinator _
            (coordinator, maccept coordinator v)
            (record {
              vote = λ b' h'. cc;
              promise = λ b' a h'. cc;
              proposal = λ b' w h'.
                  let same : b' ≡ coordinator = cc in
                  (omega arith, λ high. absurd (omega (arith, is_process.within)));
            })
            (NodeOk-skipped n f coordinator c.sent c.taken coordinator (c.node coordinator) ok first
              is_process refl (no_promises coordinator first) (no_accepts coordinator first)
              (no_proposal coordinator first)))
          (owned, inl is_process.within) (λ q b' b'' a h'. cc)
          (λ q b' w u h' h''.
            let same : b' ≡ coordinator = cc in
            absurd (
              first_alone q u is_process first
                (subst (λ (z : Ballot). In (q, maccept z u) c.sent) same h''))))
