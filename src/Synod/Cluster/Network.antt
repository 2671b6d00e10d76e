-- ===== src/Synod/Cluster/Network.antt =====
-- What a new packet, or the delivery of a promise, changes for the invariant of a cluster.
use fantoch.Prelude.{
  ℕ, ◌+◌, ◌-◌, ◌≤◌, ◌<◌, ◌≡◌, ◌≢◌, refl, sym, subst, inl, inr, false, List, ◌∷◌, length, All-map,
  u64_partial_eq, Bool-cases, nat_beq, nat_beq_iff, arith,
}
use native.Mathlib.Nat.{le_trans}
use fantoch.Identifiers.{ProcessId}
use fantoch.Synod.Defs.{
  Ballot, Accepted, Synod, SynodMessage, mchosen, mprepare, maccept, mpromise, maccepted,
}
use fantoch.Synod.Ballots.{IsProcess}
use fantoch.Synod.Cluster.{In, Sent, Cluster, put}
use fantoch.Synod.Cluster.Invariant.{Inv, NodeOk, PacketOk, ChosenAt, Backing, delivered}

delivered_mono :
    (b : Ballot) (entry : ProcessId × Ballot) (taken : List (ProcessId × Ballot))
    → delivered b taken ≤ delivered b (entry ∷ taken)
delivered_mono b entry taken = ground arith

module _ {V : Type 0} where
  -- What the packet `packet` may not say about process `q` in state `s`.
  pub record Fits (n f : ℕ) (taken : List (ProcessId × Ballot)) (q : ProcessId) (s : Synod V)
      (packet : ProcessId × SynodMessage V) : Type 0 where
    pub vote :
        (b : Ballot)
        → (q, maccepted b) ≡ packet
        → (b ≤ s.acceptor.ballot) × (s.chosen ≡ false → b ≤ s.acceptor.accepted.0)
    pub promise : (b : Ballot) (a : Accepted V) → (q, mpromise b a) ≡ packet → b ≤ s.acceptor.ballot
    pub proposal :
        (b : Ballot) (v : V)
        → (q, maccept b v) ≡ packet
        → (b ≤ s.proposer.ballot)
          × (n < b
              → s.proposer.ballot ≡ b
              → length s.proposer.promises + (n - f) ≤ delivered s.proposer.ballot taken)

  pub NodeOk-post :
      (n f : ℕ) (coordinator : ProcessId) (sent : Sent V) (taken : List (ProcessId × Ballot))
      (q : ProcessId) (s : Synod V) (packet : ProcessId × SynodMessage V)
      → Fits n f taken q s packet
      → NodeOk n f coordinator sent taken q s
      → NodeOk n f coordinator (packet ∷ sent) taken q s
  NodeOk-post n f coordinator sent taken q s packet fits ok = record {
    is_p = ok.is_p;
    has_n = ok.has_n;
    has_f = ok.has_f;
    owns = ok.owns;
    accepted_low = ok.accepted_low;
    accepted_real = λ up. let (p, h) = ok.accepted_real up in (p, inr h);
    chosen_real = λ e. let (z, p, h) = ok.chosen_real e in (z, p, inr h);
    votes_low = λ b h. elim h [ inl e ↦ (fits.vote b e).0 | inr h' ↦ ok.votes_low b h' ];
    votes_seen = λ e b h. elim h [ inl e' ↦ (fits.vote b e').1 e | inr h' ↦ ok.votes_seen e b h' ];
    promises_low = λ b a h. elim h [ inl e ↦ fits.promise b a e | inr h' ↦ ok.promises_low b a h' ];
    promises_held = All-map _ _ (λ entry h. (inr h.0, h.1)) s.proposer.promises ok.promises_held;
    promises_distinct = ok.promises_distinct;
    accepts_held = All-map _ _ (λ a h. inr h) s.proposer.accepts ok.accepts_held;
    accepts_distinct = ok.accepts_distinct;
    proposal_real = λ v e. let (p, h) = ok.proposal_real v e in (p, inr h);
    own_proposals =
        λ b v h. elim h [ inl e ↦ (fits.proposal b v e).0 | inr h' ↦ ok.own_proposals b v h' ];
    promises_few = ok.promises_few;
    proposed_few = λ v up h. elim h [
      | inl e ↦ (fits.proposal s.proposer.ballot v e).1 up refl
      | inr h' ↦ ok.proposed_few v up h'
    ];
  }

  -- A packet of another process says nothing about `q`.
  pub Fits-other :
      (n f : ℕ) (taken : List (ProcessId × Ballot)) (q p : ProcessId) (s : Synod V)
      (message : SynodMessage V)
      → p ≢ q
      → Fits n f taken q s (p, message)
  Fits-other n f taken q p s message other = record {
    vote = λ b e. absurd (other (cc));
    promise = λ b a e. absurd (other (cc));
    proposal = λ b v e. absurd (other (cc));
  }

  pub NodeOk-take :
      (n f : ℕ) (coordinator : ProcessId) (sent : Sent V) (taken : List (ProcessId × Ballot))
      (q : ProcessId) (s : Synod V) (entry : ProcessId × Ballot)
      → NodeOk n f coordinator sent taken q s
      → NodeOk n f coordinator sent (entry ∷ taken) q s
  NodeOk-take n f coordinator sent taken q s entry ok = record {
    is_p = ok.is_p;
    has_n = ok.has_n;
    has_f = ok.has_f;
    owns = ok.owns;
    accepted_low = ok.accepted_low;
    accepted_real = ok.accepted_real;
    chosen_real = ok.chosen_real;
    votes_low = ok.votes_low;
    votes_seen = ok.votes_seen;
    promises_low = ok.promises_low;
    promises_held = All-map _ _ (λ x h. (h.0, inr h.1)) s.proposer.promises ok.promises_held;
    promises_distinct = ok.promises_distinct;
    accepts_held = ok.accepts_held;
    accepts_distinct = ok.accepts_distinct;
    proposal_real = ok.proposal_real;
    own_proposals = ok.own_proposals;
    promises_few = le_trans ok.promises_few (delivered_mono s.proposer.ballot entry taken);
    proposed_few =
        λ v up h. le_trans (ok.proposed_few v up h) (delivered_mono s.proposer.ballot entry taken);
  }

  -- A vote comes after every promise of its process.
  abbrev pub VoteLate : Sent V → ProcessId × SynodMessage V → Type 0
  VoteLate sent packet =
      (p : ProcessId) (b' b : Ballot) (a : Accepted V)
      → (p, maccepted b') ≡ packet
      → In (p, mpromise b a) sent
      → b ≤ b'

  Backing-post :
      (n f : ℕ) (sent : Sent V) (packet : ProcessId × SynodMessage V) (b : Ballot) (v : V)
      → Backing n f sent b v
      → Backing n f (packet ∷ sent) b v
  Backing-post n f sent packet b v backing = record {
    promises = backing.promises;
    distinct = backing.distinct;
    enough = backing.enough;
    promised = All-map _ _ (λ entry h. inr h) backing.promises backing.promised;
    calls = backing.calls;
  }

  ChosenAt-post :
      (f : ℕ) (sent : Sent V) (packet : ProcessId × SynodMessage V) (v : V)
      → ChosenAt f sent v
      → ChosenAt f (packet ∷ sent) v
  ChosenAt-post f sent packet v chosen = record {
    ballot = chosen.ballot;
    proposed = let (p, h) = chosen.proposed in (p, inr h);
    accepts = chosen.accepts;
    distinct = chosen.distinct;
    enough = chosen.enough;
    accepted = All-map _ _ (λ a h. inr h) chosen.accepts chosen.accepted;
  }

  PacketOk-post :
      (n f : ℕ) (coordinator : ProcessId) (sent : Sent V) (packet : ProcessId × SynodMessage V)
      (p : ProcessId) (message : SynodMessage V)
      → VoteLate (packet ∷ sent) packet
      → In (p, message) (packet ∷ sent)
      → PacketOk n f coordinator sent p message
      → PacketOk n f coordinator (packet ∷ sent) p message
  PacketOk-post n f coordinator sent packet p (mprepare b) late h ok = ok
  PacketOk-post n f coordinator sent packet p (maccept b v) late h (owned, kind) = (
    owned,
    elim kind [
      | inl small ↦ inl small
      | inr backing ↦ inr (Backing-post n f sent packet b v backing)
    ],
  )
  PacketOk-post n f coordinator sent packet p (mpromise b a) late h (up, less, real, votes) = (
    up,
    less,
    (λ z. let (q, h') = real z in (q, inr h')),
    λ b' vote below. elim vote [
      | inl e ↦ absurd (omega (arith, late p b' b a e h))
      | inr old ↦ votes b' old below
    ],
  )
  PacketOk-post n f coordinator sent packet p (maccepted b) late h (v, proposed) =
      (v, (proposed.0, inr proposed.1))
  PacketOk-post n f coordinator sent packet p (mchosen v) late h ok =
      ChosenAt-post f sent packet v ok

module _ {V : Type 0} (n f : ℕ) (coordinator : ProcessId) (c : Cluster V)
    (inv : Inv n f coordinator c) where
  -- Process `p` moves to state `s` and sends nothing.
  pub Inv-quiet :
      (p : ProcessId) (s : Synod V)
      → NodeOk n f coordinator c.sent c.taken p s
      → Inv n f coordinator (record c { node = put p s c.node })
  Inv-quiet p s ok = record {
    nodes = λ q. elim (Bool-cases (nat_beq p q)) [
      | inl same ↦ rw same (
          subst (λ (z : ProcessId). NodeOk n f coordinator c.sent c.taken z s)
            ((nat_beq_iff p q).0 same) ok)
      | inr other ↦ rw other (inv.nodes q)
    ];
    packets = inv.packets;
    one_value = inv.one_value;
    taken_once = inv.taken_once;
  }

  -- Process `p` moves to state `s` and sends `message`.
  pub Inv-post :
      (p : ProcessId) (s : Synod V) (message : SynodMessage V)
      → IsProcess n p
      → NodeOk n f coordinator ((p, message) ∷ c.sent) c.taken p s
      → PacketOk n f coordinator c.sent p message
      → VoteLate ((p, message) ∷ c.sent) (p, message)
      → ((q : ProcessId) (b : Ballot) (v w : V)
          → maccept b v ≡ message
          → In (q, maccept b w) c.sent
          → v ≡ w)
      → Inv n f coordinator (record c { node = put p s c.node; sent = (p, message) ∷ c.sent })
  Inv-post p s message is_process ok packet late same_value = record {
    nodes = λ q. elim (Bool-cases (nat_beq p q)) [
      | inl same ↦ rw same (
          subst (λ (z : ProcessId). NodeOk n f coordinator ((p, message) ∷ c.sent) c.taken z s)
            ((nat_beq_iff p q).0 same) ok)
      | inr other ↦ rw other (
          NodeOk-post n f coordinator c.sent c.taken q (c.node q) (p, message)
            (Fits-other n f c.taken q p (c.node q) message (ground arith)) (inv.nodes q))
    ];
    packets = λ q m h. elim h [
      | inl e ↦ (
        subst (λ (z : ProcessId × SynodMessage V). IsProcess n z.0) (sym e) is_process,
        PacketOk-post n f coordinator c.sent (p, message) q m late (inl e)
            (subst (λ (z : ProcessId × SynodMessage V). PacketOk n f coordinator c.sent z.0 z.1)
              (sym e) packet),
      )
      | inr h' ↦
          let (z, fine) = inv.packets q m h' in
          (z, PacketOk-post n f coordinator c.sent (p, message) q m late (inr h') fine)
    ];
    one_value = λ q r b v w hv hw. elim hv [
      | inl ev ↦ elim hw [ inl ew ↦ cc | inr hw' ↦ same_value r b v w (cc) hw' ]
      | inr hv' ↦ elim hw [
        | inl ew ↦ sym (same_value q b w v (cc) hv')
        | inr hw' ↦ inv.one_value q r b v w hv' hw'
      ]
    ];
    taken_once = inv.taken_once;
  }

  -- The promise of `from` for ballot `b` is delivered for the first time.
  pub Inv-take :
      (from : ProcessId) (b : Ballot)
      → IsProcess n from
      → ¬ In (from, b) c.taken
      → Inv n f coordinator (record c { taken = (from, b) ∷ c.taken })
  Inv-take from b is_process first = record {
    nodes = λ q. NodeOk-take n f coordinator c.sent c.taken q (c.node q) (from, b) (inv.nodes q);
    packets = inv.packets;
    one_value = inv.one_value;
    taken_once = (is_process, first, inv.taken_once);
  }
