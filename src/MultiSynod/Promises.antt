-- ===== src/MultiSynod/Promises.antt =====
-- fantoch_ps/src/protocol/common/synod/multi.rs: what the acceptor promises.
use fantoch.Prelude.{
  ◌≤◌, ◌≡◌, ◌⊎◌, leb, Bool-cases, ◌==◌, ap, sym, ◌∙◌, Option, none, some, List, [], ◌∷◌, Outcome,
  done, ◌>>=◌, >>=-eq-done, All, u64_partial_eq, Option-cases, inl, inr, arith, subst,
}
use native.Mathlib.Nat.{le_refl}
use fantoch.Prelude.Maps.{get, insert, get-insert}
use fantoch.Identifiers.{ProcessId}
use fantoch.MultiSynod.{
  Ballot, Slot, AcceptedSlots, Acceptor, MultiSynod, MultiSynodMessage, chosen, forward_submit,
  spawn_commander, prepare, accept, promise, accepted, handle_prepare, handle_accept, handle,
  handle_accepted, handle_maccepted, handle_spawn_commander, destroy,
}

module _ {V : Type 0} where
  -- The reply accepts nothing below a ballot.
  abbrev pub AcceptsFrom : Ballot → Option (MultiSynodMessage V) → Type 0
  AcceptsFrom b (some (accepted b' slot)) = b ≤ b'
  AcceptsFrom b _ = Unit

  unfoldable pub handle_all :
      List (ProcessId × MultiSynodMessage V)
      → MultiSynod V
      → Outcome (MultiSynod V × List (Option (MultiSynodMessage V)))
  handle_all [] s = done (s, [])
  handle_all ((from, m) ∷ ms) s = do
    (s', reply) ← handle from m s
    (last, replies) ← handle_all ms s'
    done (last, reply ∷ replies)

  handle_maccepted-acceptor :
      (from : ProcessId) (b : Ballot) (slot : Slot) (s s' : MultiSynod V)
      (out : Option (MultiSynodMessage V))
      → handle_maccepted from b slot s ≡ done (s', out)
      → (s.acceptor ≡ s'.acceptor) × AcceptsFrom s.acceptor.ballot out
  unfolding handle_maccepted handle_accepted destroy
  handle_maccepted-acceptor from b slot s s' out h = elim (Option-cases (get slot s.commanders)) [
    | inl vacant ↦ ground (arith, h, vacant)
    | inr (c, held) ↦ ground (arith, h, held)
  ]

  handle_mono :
      (from : ProcessId) (m : MultiSynodMessage V) (s s' : MultiSynod V)
      (out : Option (MultiSynodMessage V))
      → handle from m s ≡ done (s', out)
      → (s.acceptor.ballot ≤ s'.acceptor.ballot) × AcceptsFrom s.acceptor.ballot out
  unfolding handle handle_prepare handle_accept handle_spawn_commander
  handle_mono from (spawn_commander b slot v) s s' out h =
      elim (Option-cases (get slot s.commanders)) [
        | inl vacant ↦ ground (arith, h, vacant)
        | inr (c, held) ↦ ground (arith, h, held)
      ]
  handle_mono from (prepare b) s s' out h = ground arith
  handle_mono from (accept b slot v) s s' out h = ground arith
  handle_mono from (accepted b slot) s s' out h =
      let (same, ok) = handle_maccepted-acceptor from b slot s s' out h in (rw same (le_refl _), ok)
  handle_mono from (promise b slots) s s' out h = absurd (ground arith)
  handle_mono from (chosen slot v) s s' out h = absurd (ground arith)
  handle_mono from (forward_submit v) s s' out h = absurd (ground arith)

  AcceptsFrom-mono :
      (b c : Ballot) (out : Option (MultiSynodMessage V))
      → b ≤ c
      → AcceptsFrom c out
      → AcceptsFrom b out
  AcceptsFrom-mono b c none h a = tt
  AcceptsFrom-mono b c (some (chosen _ _)) h a = tt
  AcceptsFrom-mono b c (some (forward_submit _)) h a = tt
  AcceptsFrom-mono b c (some (spawn_commander _ _ _)) h a = tt
  AcceptsFrom-mono b c (some (prepare _)) h a = tt
  AcceptsFrom-mono b c (some (accept _ _ _)) h a = tt
  AcceptsFrom-mono b c (some (promise _ _)) h a = tt
  AcceptsFrom-mono b c (some (accepted _ _)) h a = omega arith

  handle_all-AcceptsFrom :
      (b : Ballot) (ms : List (ProcessId × MultiSynodMessage V)) (s last : MultiSynod V)
      (outs : List (Option (MultiSynodMessage V)))
      → b ≤ s.acceptor.ballot
      → handle_all ms s ≡ done (last, outs)
      → All (AcceptsFrom b) outs × (b ≤ last.acceptor.ballot)
  unfolding handle_all
  handle_all-AcceptsFrom b [] s last outs low h =
      let same : s ≡ last = cc in
      let no_reply : [] ≡ outs = cc in
      (
        subst (All (AcceptsFrom b)) no_reply tt,
        subst (λ (x : MultiSynod V). b ≤ x.acceptor.ballot) same low,
      )
  handle_all-AcceptsFrom b ((from, m) ∷ ms) s last outs low h =
      let (first, e, k) = >>=-eq-done (handle from m s) _ h in
      let (rest, e', k') = >>=-eq-done (handle_all ms first.0) _ k in
      let (up, ok) = handle_mono from m s first.0 first.1 e in
      let (later, top) = handle_all-AcceptsFrom b ms first.0 rest.0 rest.1 (omega arith) e' in
      let same : rest.0 ≡ last = cc in
      let joined : first.1 ∷ rest.1 ≡ outs = cc in
      (
        subst (All (AcceptsFrom b)) joined (AcceptsFrom-mono b _ first.1 low ok, later),
        subst (λ (x : MultiSynod V). b ≤ x.acceptor.ballot) same top,
      )

  -- What is accepted for a slot is what was, or was accepted at `b` or above.
  abbrev pub HoldsFrom : Ballot → (before after : AcceptedSlots V) → Slot → Type 0
  HoldsFrom b before after slot =
      (get slot after ≡ get slot before)
      ⊎ ((entry : Ballot × V) × (get slot after ≡ some entry) × (b ≤ entry.0))

  handle-HoldsFrom :
      (from : ProcessId) (m : MultiSynodMessage V) (s s' : MultiSynod V)
      (out : Option (MultiSynodMessage V)) (slot : Slot)
      → handle from m s ≡ done (s', out)
      → HoldsFrom s.acceptor.ballot s.acceptor.accepted_slots s'.acceptor.accepted_slots slot
  unfolding handle handle_prepare handle_accept handle_spawn_commander
  handle-HoldsFrom from (spawn_commander b at v) s s' out slot h =
      elim (Option-cases (get at s.commanders)) [
        | inl vacant ↦ inl (ground (arith, h, vacant))
        | inr (c, held) ↦ inl (ground (arith, h, held))
      ]
  handle-HoldsFrom from (prepare b) s s' out slot h = inl (ground (arith, h))
  handle-HoldsFrom from (accept b at v) s s' out slot h =
      elim (Bool-cases (leb s.acceptor.ballot b)) [
        | inr refuses ↦ inl (ground (arith, h, refuses))
        | inl joins ↦
            let stored : s'.acceptor.accepted_slots ≡ insert at (b, v) s.acceptor.accepted_slots =
              ground (arith, h, joins) in
            let held =
              ap (λ (slots : AcceptedSlots V). get slot slots) stored
              ∙ get-insert at slot (b, v) s.acceptor.accepted_slots in
            elim (Bool-cases (at == slot)) [
              | inl same ↦ inr ((b, v), ground (arith, held, same), ground (arith, joins))
              | inr other ↦ inl (ground (arith, held, other))
            ]
      ]
  handle-HoldsFrom from (accepted b at) s s' out slot h =
      let (same, ok) = handle_maccepted-acceptor from b at s s' out h in
      inl (ap (λ (a : Acceptor V). get slot a.accepted_slots) (sym same))
  handle-HoldsFrom from (promise b slots) s s' out slot h = absurd (ground arith)
  handle-HoldsFrom from (chosen at v) s s' out slot h = absurd (ground arith)
  handle-HoldsFrom from (forward_submit v) s s' out slot h = absurd (ground arith)

  HoldsFrom-trans :
      (b ballot : Ballot) (before between after : AcceptedSlots V) (slot : Slot)
      → b ≤ ballot
      → HoldsFrom ballot before between slot
      → HoldsFrom b between after slot
      → HoldsFrom b before after slot
  HoldsFrom-trans b ballot before between after slot low first (inr held) = inr held
  HoldsFrom-trans b ballot before between after slot low (inl old) (inl same) = inl (same ∙ old)
  HoldsFrom-trans b ballot before between after slot low (inr (entry, there, at)) (inl same) =
      inr (entry, same ∙ there, omega arith)

  handle_all-HoldsFrom :
      (b : Ballot) (ms : List (ProcessId × MultiSynodMessage V)) (s last : MultiSynod V)
      (outs : List (Option (MultiSynodMessage V))) (slot : Slot)
      → b ≤ s.acceptor.ballot
      → handle_all ms s ≡ done (last, outs)
      → HoldsFrom b s.acceptor.accepted_slots last.acceptor.accepted_slots slot
  unfolding handle_all
  handle_all-HoldsFrom b [] s last outs slot low h =
      let same : s ≡ last = cc in
      inl (ap (λ (x : MultiSynod V). get slot x.acceptor.accepted_slots) (sym same))
  handle_all-HoldsFrom b ((from, m) ∷ ms) s last outs slot low h =
      let (first, e, k) = >>=-eq-done (handle from m s) _ h in
      let (rest, e', k') = >>=-eq-done (handle_all ms first.0) _ k in
      let (up, ok) = handle_mono from m s first.0 first.1 e in
      let same : rest.0 ≡ last = cc in
      HoldsFrom-trans b s.acceptor.ballot s.acceptor.accepted_slots first.0.acceptor.accepted_slots
        last.acceptor.accepted_slots slot low (handle-HoldsFrom from m s first.0 first.1 slot e)
        (subst
          (λ (x : MultiSynod V).
            HoldsFrom b first.0.acceptor.accepted_slots x.acceptor.accepted_slots slot)
          same (handle_all-HoldsFrom b ms first.0 rest.0 rest.1 slot (omega arith) e'))

  -- In multi-decree Paxos too a promise is kept: once a process has answered a prepare of ballot
  -- `b`, then whatever messages it handles afterwards, none of its replies accepts a proposal of a
  -- ballot below `b`, its ballot stays at `b` or above, and what its acceptor holds for a slot in
  -- the end is what the promise reported for it, or was accepted at `b` or above.
  pub multi_promise_kept :
      (from : ProcessId) (b : Ballot) (slots : AcceptedSlots V) (s s' last : MultiSynod V)
      (ms : List (ProcessId × MultiSynodMessage V)) (outs : List (Option (MultiSynodMessage V)))
      → handle from (prepare b) s ≡ done (s', some (promise b slots))
      → handle_all ms s' ≡ done (last, outs)
      → All (AcceptsFrom b) outs
        × (b ≤ last.acceptor.ballot)
        × ((slot : Slot) → HoldsFrom b slots last.acceptor.accepted_slots slot)
  unfolding handle handle_prepare
  multi_promise_kept from b slots s s' last ms outs h k =
      let reported : s'.acceptor.accepted_slots ≡ slots = ground (arith, h) in
      let low : b ≤ s'.acceptor.ballot = ground (arith, h) in
      let (accepts, top) = handle_all-AcceptsFrom b ms s' last outs low k in
      (
        accepts,
        top,
        λ slot.
            subst (λ (held : AcceptedSlots V). HoldsFrom b held last.acceptor.accepted_slots slot)
              reported (handle_all-HoldsFrom b ms s' last outs slot low k),
      )
