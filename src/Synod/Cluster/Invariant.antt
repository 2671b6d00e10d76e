-- ===== src/Synod/Cluster/Invariant.antt =====
-- The invariant of a cluster of `Synod` processes.
use fantoch.Prelude.{
  ℕ, suc, ◌+◌, ◌-◌, ◌≤◌, ◌<◌, ◌≡◌, ◌⊎◌, true, false, some, List, [], ◌∷◌, length, All, ◌==◌,
  u64_partial_eq, if◌then◌else◌,
}
use fantoch.Prelude.Maps.{Map, keys, get}
use fantoch.Prelude.Sets.{IsDistinct}
use fantoch.Identifiers.{ProcessId}
use fantoch.Synod.Defs.{
  Ballot, Accepted, Synod, SynodMessage, mchosen, mprepare, maccept, mpromise, maccepted,
}
use fantoch.Synod.Ballots.{IsProcess, IsRound}
use fantoch.Synod.Choice.{AtMost}
use fantoch.Synod.Cluster.{In, Sent, Cluster}

-- How many promises for ballot `b` were delivered.
abbrev pub delivered : Ballot → List (ProcessId × Ballot) → ℕ
delivered b [] = 0
delivered b (entry ∷ taken) = if entry.1 == b then suc (delivered b taken) else delivered b taken

-- Ballot `b` belongs to `p`; round 0 is the coordinator's alone.
abbrev pub Owns : ℕ → ProcessId → ProcessId → Ballot → Type 0
Owns n coordinator p b = (round : ℕ) × IsRound n p round b × (round ≡ 0 → p ≡ coordinator)

-- Each delivered promise came from a process, and no promise was delivered twice.
abbrev pub TakenOk : ℕ → List (ProcessId × Ballot) → Type 0
TakenOk n [] = Unit
TakenOk n (entry ∷ taken) = IsProcess n entry.0 × (¬ In entry taken) × TakenOk n taken

module _ {V : Type 0} where
  -- Value `v` was proposed at ballot `b`.
  abbrev pub Proposed : Sent V → Ballot → V → Type 0
  Proposed sent b v = (p : ProcessId) × In (p, maccept b v) sent

  -- `n - f` promises for `b` back the proposal of `v`: none reports an accepted value, or `v` has
  -- the highest ballot that is reported.
  pub record Backing (n f : ℕ) (sent : Sent V) (b : Ballot) (v : V) : Type 0 where
    pub promises : Map ProcessId (Accepted V)
    pub distinct : IsDistinct (keys promises)
    pub enough : length promises ≡ n - f
    pub promised :
        All (λ (entry : ProcessId × Accepted V). In (entry.0, mpromise b entry.1) sent) promises
    pub calls :
        AtMost 0 promises
        ⊎ ((top : Ballot) × (from : ProcessId) × (0 < top)
            × (get from promises ≡ some (top, v))
            × AtMost top promises)

  -- `f + 1` processes accepted `v` at one ballot.
  pub record ChosenAt (f : ℕ) (sent : Sent V) (v : V) : Type 0 where
    pub ballot : Ballot
    pub proposed : Proposed sent ballot v
    pub accepts : List ProcessId
    pub distinct : IsDistinct accepts
    pub enough : length accepts ≡ f + 1
    pub accepted : All (λ a. In (a, maccepted ballot) sent) accepts

  -- What holds of a packet that process `p` sent.
  abbrev pub PacketOk :
      (n f : ℕ) (coordinator : ProcessId) → Sent V → ProcessId → SynodMessage V → Type 0
  PacketOk n f coordinator sent p (mprepare b) = n < b
  PacketOk n f coordinator sent p (maccept b v) =
      Owns n coordinator p b × ((b ≤ n) ⊎ Backing n f sent b v)
  PacketOk n f coordinator sent p (mpromise b accepted) =
      (n < b)
      × (accepted.0 < b)
      × (0 < accepted.0 → Proposed sent accepted.0 accepted.1)
      × ((b' : Ballot) → In (p, maccepted b') sent → b' < b → b' ≤ accepted.0)
  PacketOk n f coordinator sent p (maccepted b) = (v : V) × Proposed sent b v
  PacketOk n f coordinator sent p (mchosen v) = ChosenAt f sent v

  -- What holds of the state `s` of process `p`.
  pub record NodeOk (n f : ℕ) (coordinator : ProcessId) (sent : Sent V)
      (taken : List (ProcessId × Ballot)) (p : ProcessId) (s : Synod V) : Type 0 where
    pub is_p : s.proposer.process_id ≡ p
    pub has_n : s.proposer.n ≡ n
    pub has_f : s.proposer.f ≡ f
    pub owns : (s.proposer.ballot ≡ 0) ⊎ Owns n coordinator p s.proposer.ballot
    pub accepted_low : s.acceptor.accepted.0 ≤ s.acceptor.ballot
    pub accepted_real :
        0 < s.acceptor.accepted.0 → Proposed sent s.acceptor.accepted.0 s.acceptor.accepted.1
    pub chosen_real :
        s.chosen ≡ true
        → (s.acceptor.accepted.0 ≡ 0)
          × (from : ProcessId) × In (from, mchosen s.acceptor.accepted.1) sent
    pub votes_low : (b : Ballot) → In (p, maccepted b) sent → b ≤ s.acceptor.ballot
    pub votes_seen :
        s.chosen ≡ false → (b : Ballot) → In (p, maccepted b) sent → b ≤ s.acceptor.accepted.0
    pub promises_low :
        (b : Ballot) (a : Accepted V) → In (p, mpromise b a) sent → b ≤ s.acceptor.ballot
    pub promises_held :
        All
          (λ (entry : ProcessId × Accepted V).
            In (entry.0, mpromise s.proposer.ballot entry.1) sent
            × In (entry.0, s.proposer.ballot) taken)
          s.proposer.promises
    pub promises_distinct : IsDistinct (keys s.proposer.promises)
    pub accepts_held : All (λ a. In (a, maccepted s.proposer.ballot) sent) s.proposer.accepts
    pub accepts_distinct : IsDistinct s.proposer.accepts
    pub proposal_real : (v : V) → s.proposer.proposal ≡ some v → Proposed sent s.proposer.ballot v
    pub own_proposals : (b : Ballot) (v : V) → In (p, maccept b v) sent → b ≤ s.proposer.ballot
    pub promises_few : length s.proposer.promises ≤ delivered s.proposer.ballot taken
    pub proposed_few :
        (v : V)
        → n < s.proposer.ballot
        → In (p, maccept s.proposer.ballot v) sent
        → length s.proposer.promises + (n - f) ≤ delivered s.proposer.ballot taken

  pub record Inv (n f : ℕ) (coordinator : ProcessId) (c : Cluster V) : Type 0 where
    pub nodes : (p : ProcessId) → NodeOk n f coordinator c.sent c.taken p (c.node p)
    pub packets :
        (p : ProcessId) (message : SynodMessage V)
        → In (p, message) c.sent
        → IsProcess n p × PacketOk n f coordinator c.sent p message
    pub one_value :
        (p q : ProcessId) (b : Ballot) (v w : V)
        → In (p, maccept b v) c.sent
        → In (q, maccept b w) c.sent
        → v ≡ w
    pub taken_once : TakenOk n c.taken
