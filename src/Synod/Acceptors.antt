-- ===== src/Synod/Acceptors.antt =====
-- fantoch_ps/src/protocol/common/synod/single.rs: what the acceptor inside a `Synod` keeps to.
use fantoch.Prelude.{
  ◌≤◌, ◌≡◌, ◌⊎◌, inl, inr, leb, Bool-cases, ap, sym, ◌∙◌, Option, none, some, List, [], ◌∷◌,
  Outcome, done, ◌>>=◌, >>=-eq-done, arith, All, subst,
}
use fantoch.Identifiers.{ProcessId}
use native.Mathlib.Nat.{le_refl}
use fantoch.Synod.Proposers.{PromiseCase, AcceptCase, handle_promise_cases, handle_accepted_cases}
use fantoch.Synod.Defs.{
  Ballot, Accepted, Acceptor, Synod, SynodMessage, mchosen, mprepare, maccept, mpromise, maccepted,
  Proposer, handle, handle_promise, handle_accepted, handle_prepare, handle_accept, set_value,
}

module _ {V : Type 0} where
  -- The replies that a process gives to a sequence of messages, and its final state.
  unfoldable pub run :
      List (ProcessId × SynodMessage V)
      → Synod V
      → Outcome (Synod V × List (Option (SynodMessage V)))
  unfolding handle
  run [] s = done (s, [])
  run ((from, message) ∷ messages) s = do
    (s', reply) ← handle from message s
    (last, replies) ← run messages s'
    done (last, reply ∷ replies)

  -- A reply that accepts a proposal accepts none below `b`.
  abbrev pub AcceptsFrom : Ballot → Option (SynodMessage V) → Type 0
  AcceptsFrom b (some (maccepted b')) = b ≤ b'
  AcceptsFrom b _ = Unit

  -- What a reply of the proposer is: none, a proposal, or the announcement of a chosen value.
  PromiseCase-AcceptsFrom :
      (from : ProcessId) (b c : Ballot) (accepted : Accepted V) (p p' : Proposer V)
      (reply : Option (SynodMessage V))
      → PromiseCase from b accepted p p' reply
      → AcceptsFrom c reply
  PromiseCase-AcceptsFrom from b c accepted p p' reply (PromiseCase.ignored _ _ e) = rw e tt
  PromiseCase-AcceptsFrom from b c accepted p p' reply (PromiseCase.gathered _ _ _ e) = rw e tt
  PromiseCase-AcceptsFrom from b c accepted p p' reply (PromiseCase.proposed v _ _ _ _ e) = rw e tt

  AcceptCase-AcceptsFrom :
      (from : ProcessId) (b c : Ballot) (a : Acceptor V) (p p' : Proposer V)
      (reply : Option (SynodMessage V))
      → AcceptCase from b a p p' reply
      → AcceptsFrom c reply
  AcceptCase-AcceptsFrom from b c a p p' reply (AcceptCase.ignored _ _ e) = rw e tt
  AcceptCase-AcceptsFrom from b c a p p' reply (AcceptCase.gathered _ _ _ e) = rw e tt
  AcceptCase-AcceptsFrom from b c a p p' reply (AcceptCase.decided v _ _ _ _ e) = rw e tt

  -- A message to the proposer changes the proposer alone.
  pub handle-mpromise :
      (from : ProcessId) (b : Ballot) (previous : Accepted V) (s s' : Synod V)
      (reply : Option (SynodMessage V))
      → handle from (mpromise b previous) s ≡ done (s', reply)
      → (p' : Proposer V) × PromiseCase from b previous s.proposer p' reply
        × (s' ≡ record s { proposer = p' })
  unfolding handle
  handle-mpromise from b previous s s' reply h =
      let finish : Proposer V × Option (SynodMessage V)
          → Outcome (Synod V × Option (SynodMessage V)) =
        λ r. done (record s { proposer = r.0 }, r.1) in
      let (r, e, k) = >>=-eq-done (handle_promise from b previous s.proposer) finish h in
      let same : r.1 ≡ reply = cc in
      (r.0, rw same at (handle_promise_cases from b previous s.proposer r.0 r.1 e), cc)

  pub handle-maccepted :
      (from : ProcessId) (b : Ballot) (s s' : Synod V) (reply : Option (SynodMessage V))
      → handle from (maccepted b) s ≡ done (s', reply)
      → (p' : Proposer V) × AcceptCase from b s.acceptor s.proposer p' reply
        × (s' ≡ record s { proposer = p' })
  unfolding handle
  handle-maccepted from b s s' reply h =
      let finish : Proposer V × Option (SynodMessage V)
          → Outcome (Synod V × Option (SynodMessage V)) =
        λ r. done (record s { proposer = r.0 }, r.1) in
      let (r, e, k) = >>=-eq-done (handle_accepted from b s.acceptor s.proposer) finish h in
      let same : r.1 ≡ reply = cc in
      (r.0, rw same at (handle_accepted_cases from b s.acceptor s.proposer r.0 r.1 e), cc)

  -- A message never lowers the ballot of the acceptor, and a proposal that it makes the acceptor
  -- accept has at least the ballot the acceptor was in.
  pub ballot-le-handle :
      (from : ProcessId) (message : SynodMessage V) (s s' : Synod V)
      (reply : Option (SynodMessage V))
      → handle from message s ≡ done (s', reply)
      → (s.acceptor.ballot ≤ s'.acceptor.ballot) × AcceptsFrom s.acceptor.ballot reply
  unfolding handle handle_prepare handle_accept
  ballot-le-handle from (mchosen v) s s' reply h = ground arith
  ballot-le-handle from (mprepare b) s s' reply h = ground arith
  ballot-le-handle from (maccept b v) s s' reply h = ground arith
  ballot-le-handle from (mpromise b previous) s s' reply h =
      let (p', c, e) = handle-mpromise from b previous s s' reply h in
      (rw e (le_refl _), PromiseCase-AcceptsFrom from b _ previous s.proposer p' reply c)
  ballot-le-handle from (maccepted b) s s' reply h =
      let (p', c, e) = handle-maccepted from b s s' reply h in
      (rw e (le_refl _), AcceptCase-AcceptsFrom from b _ s.acceptor s.proposer p' reply c)

  AcceptsFrom-mono :
      (b c : Ballot) (reply : Option (SynodMessage V))
      → b ≤ c
      → AcceptsFrom c reply
      → AcceptsFrom b reply
  AcceptsFrom-mono b c none h a = tt
  AcceptsFrom-mono b c (some (mchosen v)) h a = tt
  AcceptsFrom-mono b c (some (mprepare _)) h a = tt
  AcceptsFrom-mono b c (some (maccept _ _)) h a = tt
  AcceptsFrom-mono b c (some (mpromise _ _)) h a = tt
  AcceptsFrom-mono b c (some (maccepted _)) h a = omega arith

  run-AcceptsFrom :
      (b : Ballot) (messages : List (ProcessId × SynodMessage V)) (s last : Synod V)
      (replies : List (Option (SynodMessage V)))
      → b ≤ s.acceptor.ballot
      → run messages s ≡ done (last, replies)
      → All (AcceptsFrom b) replies × (b ≤ last.acceptor.ballot)
  unfolding run
  run-AcceptsFrom b [] s last replies low h =
      let same : s ≡ last = cc in
      let no_reply : [] ≡ replies = cc in
      (
        subst (All (AcceptsFrom b)) no_reply tt,
        subst (λ (x : Synod V). b ≤ x.acceptor.ballot) same low,
      )
  run-AcceptsFrom b ((from, message) ∷ messages) s last replies low h =
      let after : Synod V × Option (SynodMessage V)
          → Outcome (Synod V × List (Option (SynodMessage V))) =
        λ r. run messages r.0 >>= λ q. done (q.0, r.1 ∷ q.1) in
      let (r, e, k) = >>=-eq-done (handle from message s) after h in
      let (q, e', k') = >>=-eq-done (run messages r.0) (λ q. done (q.0, r.1 ∷ q.1)) k in
      let (up, ok) = ballot-le-handle from message s r.0 r.1 e in
      let (rest, top) = run-AcceptsFrom b messages r.0 q.0 q.1 (omega arith) e' in
      let same : q.0 ≡ last = cc in
      let joined : r.1 ∷ q.1 ≡ replies = cc in
      (
        subst (All (AcceptsFrom b)) joined (AcceptsFrom-mono b _ r.1 low ok, rest),
        subst (λ (x : Synod V). b ≤ x.acceptor.ballot) same top,
      )

  abbrev pub AnnouncedBy : SynodMessage V → Accepted V → Type 0
  AnnouncedBy (mchosen v) accepted = accepted ≡ (0, v)
  AnnouncedBy _ accepted = ⊥

  -- The value comes from one of the messages, which announces it as chosen.
  abbrev pub Announces : List (ProcessId × SynodMessage V) → Accepted V → Type 0
  Announces [] accepted = ⊥
  Announces ((from, message) ∷ messages) accepted =
      AnnouncedBy message accepted ⊎ Announces messages accepted

  -- What the acceptor has accepted is what it had, or was accepted at `b` or above, or is announced
  -- as chosen by a message.
  abbrev pub HoldsFrom :
      Ballot → List (ProcessId × SynodMessage V) → (before after : Accepted V) → Type 0
  HoldsFrom b messages before after = (after ≡ before) ⊎ ((b ≤ after.0) ⊎ Announces messages after)

  handle-HoldsFrom :
      (from : ProcessId) (message : SynodMessage V) (s s' : Synod V)
      (reply : Option (SynodMessage V))
      → handle from message s ≡ done (s', reply)
      → HoldsFrom s.acceptor.ballot ((from, message) ∷ []) s.acceptor.accepted s'.acceptor.accepted
  unfolding handle handle_prepare handle_accept set_value
  handle-HoldsFrom from (mchosen v) s s' reply h = inr (inr (inl cc))
  handle-HoldsFrom from (mprepare b) s s' reply h = inl (ground (arith, h))
  handle-HoldsFrom from (maccept b v) s s' reply h = elim (Bool-cases s.chosen) [
    | inl over ↦ inl (ground (arith, h, over))
    | inr undecided ↦ elim (Bool-cases (leb s.acceptor.ballot b)) [
      | inl joins ↦ inr (inl (ground (arith, h, undecided, joins)))
      | inr refuses ↦ inl (ground (arith, h, undecided, refuses))
    ]
  ]
  handle-HoldsFrom from (mpromise b previous) s s' reply h =
      let (p', c, e) = handle-mpromise from b previous s s' reply h in
      inl (ap (λ (x : Synod V). x.acceptor.accepted) e)
  handle-HoldsFrom from (maccepted b) s s' reply h =
      let (p', c, e) = handle-maccepted from b s s' reply h in
      inl (ap (λ (x : Synod V). x.acceptor.accepted) e)

  HoldsFrom-step :
      (b ballot : Ballot) (from : ProcessId) (message : SynodMessage V)
      (messages : List (ProcessId × SynodMessage V)) (before between after : Accepted V)
      → b ≤ ballot
      → HoldsFrom ballot ((from, message) ∷ []) before between
      → HoldsFrom b messages between after
      → HoldsFrom b ((from, message) ∷ messages) before after
  HoldsFrom-step b ballot from message messages before between after low first (inr (inl at)) =
      inr (inl at)
  HoldsFrom-step b ballot from message messages before between after low first (inr (inr said)) =
      inr (inr (inr said))
  HoldsFrom-step b ballot from message messages before between after low (inl old) (inl same) =
      inl (same ∙ old)
  HoldsFrom-step b ballot from message messages before between after low (inr (inl at)) (inl same) =
      inr (inl (omega (arith, low, at, ap (λ (a : Accepted V). a.0) same)))
  HoldsFrom-step b ballot from message messages before between after low (inr (inr (inl said)))
        (inl same) =
      inr (inr (inl (subst (AnnouncedBy message) (sym same) said)))
  HoldsFrom-step b ballot from message messages before between after low (inr (inr (inr nothing)))
        (inl same) =
      absurd nothing

  run-HoldsFrom :
      (b : Ballot) (messages : List (ProcessId × SynodMessage V)) (s last : Synod V)
      (replies : List (Option (SynodMessage V)))
      → b ≤ s.acceptor.ballot
      → run messages s ≡ done (last, replies)
      → HoldsFrom b messages s.acceptor.accepted last.acceptor.accepted
  unfolding run
  run-HoldsFrom b [] s last replies low h =
      let same : s ≡ last = cc in inl (ap (λ (x : Synod V). x.acceptor.accepted) (sym same))
  run-HoldsFrom b ((from, message) ∷ messages) s last replies low h =
      let after : Synod V × Option (SynodMessage V)
          → Outcome (Synod V × List (Option (SynodMessage V))) =
        λ r. run messages r.0 >>= λ q. done (q.0, r.1 ∷ q.1) in
      let (r, e, k) = >>=-eq-done (handle from message s) after h in
      let (q, e', k') = >>=-eq-done (run messages r.0) (λ q. done (q.0, r.1 ∷ q.1)) k in
      let (up, ok) = ballot-le-handle from message s r.0 r.1 e in
      let same : q.0 ≡ last = cc in
      HoldsFrom-step b s.acceptor.ballot from message messages s.acceptor.accepted
        r.0.acceptor.accepted last.acceptor.accepted low (handle-HoldsFrom from message s r.0 r.1 e)
        (subst (λ (x : Synod V). HoldsFrom b messages r.0.acceptor.accepted x.acceptor.accepted)
          same (run-HoldsFrom b messages r.0 q.0 q.1 (omega arith) e'))

  -- A promise is kept: once a process has answered a prepare with a promise for ballot `b`,
  -- whatever messages it handles afterwards, none of its replies accepts a proposal of a ballot
  -- below `b`, its ballot stays at `b` or above, and what its acceptor holds in the end is what the
  -- promise reported, or was accepted at `b` or above, or was announced as chosen by one of the
  -- messages.
  pub promise_kept :
      (from : ProcessId) (b : Ballot) (accepted : Accepted V) (s s' last : Synod V)
      (messages : List (ProcessId × SynodMessage V)) (replies : List (Option (SynodMessage V)))
      → handle from (mprepare b) s ≡ done (s', some (mpromise b accepted))
      → run messages s' ≡ done (last, replies)
      → All (AcceptsFrom b) replies
        × (b ≤ last.acceptor.ballot)
        × HoldsFrom b messages accepted last.acceptor.accepted
  unfolding handle handle_prepare
  promise_kept from b accepted s s' last messages replies h k =
      let reported : s'.acceptor.accepted ≡ accepted = ground (arith, h) in
      let low : b ≤ s'.acceptor.ballot = ground (arith, h) in
      let (accepts, top) = run-AcceptsFrom b messages s' last replies low k in
      (
        accepts,
        top,
        subst (λ (a : Accepted V). HoldsFrom b messages a last.acceptor.accepted) reported
            (run-HoldsFrom b messages s' last replies low k),
      )
