-- ===== src/MultiSynod/Commanders.antt =====
-- fantoch_ps/src/protocol/common/synod/multi.rs: commanders and the accepts that they count.
use fantoch.Prelude.{
  ◌+◌, ◌≤◌, ◌≡◌, refl, true, false, Option, none, some, List, [], ◌∷◌, Outcome, done, ◌>>=◌,
  if◌then◌else◌, ◌==◌, u64_partial_eq, ltb, Bool-cases, inl, inr, length, arith,
}
use fantoch.Prelude.Maps.{get, insert, remove, get-insert, get-remove}
use fantoch.Prelude.Sets.{add, length-add}
use fantoch.Identifiers.{ProcessId}
use fantoch.MultiSynod.{
  Ballot, Slot, MultiSynod, MultiSynodMessage, Commander, chosen, accepted, spawn, destroy,
  handle_accepted, handle_maccepted, handle_spawn_commander, handle,
}

-- The processes of `froms`, each once, on top of `accepts`.
abbrev pub gather : List ProcessId → List ProcessId → List ProcessId
gather [] accepts = accepts
gather (from ∷ froms) accepts = gather froms (add from accepts)

gather_le : (froms accepts : List ProcessId) → length accepts ≤ length (gather froms accepts)
gather_le [] accepts = omega arith
gather_le (from ∷ froms) accepts =
    ground (arith, gather_le froms (add from accepts), length-add from accepts)

module _ {V : Type 0} where
  abbrev cons :
      Option (MultiSynodMessage V) → List (MultiSynodMessage V) → List (MultiSynodMessage V)
  cons none ms = ms
  cons (some m) ms = m ∷ ms

  -- Every commander waits for f + 1 accepts and still lacks one.
  abbrev pub Waiting : MultiSynod V → Type 0
  Waiting s =
      (slot : Slot) (c : Commander V)
      → get slot s.commanders ≡ some c
      → (c.f ≡ s.f) × (length c.accepts ≤ s.f)

  -- Accepts of one ballot and slot, handled one after the other; the replies in order.
  abbrev pub handle_accepts :
      Ballot
      → Slot
      → List ProcessId
      → MultiSynod V
      → Outcome (MultiSynod V × List (MultiSynodMessage V))
  handle_accepts b slot [] s = done (s, [])
  handle_accepts b slot (from ∷ froms) s = handle from (accepted b slot) s >>= λ first.
      handle_accepts b slot froms first.0 >>= λ rest. done (rest.0, cons first.1 rest.1)

  handle_accepts-cons :
      (b : Ballot) (slot : Slot) (from : ProcessId) (froms : List ProcessId)
      (s s' last : MultiSynod V) (first : Option (MultiSynodMessage V))
      (rest : List (MultiSynodMessage V))
      → handle_maccepted from b slot s ≡ done (s', first)
      → handle_accepts b slot froms s' ≡ done (last, rest)
      → handle_accepts b slot (from ∷ froms) s ≡ done (last, cons first rest)
  unfolding handle
  handle_accepts-cons b slot from froms s s' last first rest h k = ground (arith, h, k)

  -- An accept for a slot without a commander is ignored.
  handle_accepts-vacant :
      (b : Ballot) (slot : Slot) (froms : List ProcessId) (s : MultiSynod V)
      → get slot s.commanders ≡ none
      → handle_accepts b slot froms s ≡ done (s, [])
  unfolding handle_maccepted
  handle_accepts-vacant b slot [] s h = refl
  handle_accepts-vacant b slot (from ∷ froms) s h =
      handle_accepts-cons b slot from froms s s s none [] (ground (arith, h))
        (handle_accepts-vacant b slot froms s h)

  handle_maccepted-enough :
      (from : ProcessId) (slot : Slot) (c : Commander V) (s : MultiSynod V)
      → get slot s.commanders ≡ some c
      → length (add from c.accepts) ≡ c.f + 1
      → handle_maccepted from c.ballot slot s
        ≡ done (record s { commanders = remove slot s.commanders }, some (chosen slot c.value))
  unfolding handle_maccepted handle_accepted destroy
  handle_maccepted-enough from slot c s held enough = ground (arith, held, enough)

  handle_maccepted-more :
      (from : ProcessId) (slot : Slot) (c : Commander V) (s : MultiSynod V)
      → get slot s.commanders ≡ some c
      → (length (add from c.accepts) == c.f + 1) ≡ false
      → handle_maccepted from c.ballot slot s
        ≡ done (
          record s {
            commanders = insert slot (record c { accepts = add from c.accepts }) s.commanders;
          },
          none,
        )
  unfolding handle_maccepted handle_accepted destroy
  handle_maccepted-more from slot c s held enough = ground (arith, held, enough)

  handle_accepts-gather :
      (slot : Slot) (froms : List ProcessId) (c : Commander V) (s : MultiSynod V)
      → get slot s.commanders ≡ some c
      → length c.accepts ≤ c.f
      → (last : MultiSynod V) × (handle_accepts c.ballot slot froms s
          ≡ done (
            last,
            (if ltb c.f (length (gather froms c.accepts)) then chosen slot c.value ∷ [] else []),
          ))
  handle_accepts-gather slot [] c s held short = (s, ground (arith, short))
  handle_accepts-gather slot (from ∷ froms) c s held short =
      elim (Bool-cases (length (add from c.accepts) == c.f + 1)) [
        | inl enough ↦
            let s' = record s { commanders = remove slot s.commanders } in
            let gone : get slot s'.commanders ≡ none =
              ground (arith, get-remove slot slot s.commanders) in
            let announced =
              handle_accepts-cons c.ballot slot from froms s s' s' (some (chosen slot c.value)) []
                (handle_maccepted-enough from slot c s held (ground (arith, enough)))
                (handle_accepts-vacant c.ballot slot froms s' gone) in
            let over : ltb c.f (length (gather froms (add from c.accepts))) ≡ true =
              ground (arith, gather_le froms (add from c.accepts), enough) in
            (s', rw over announced)
        | inr more ↦
            let c' = record c { accepts = add from c.accepts } in
            let s' = record s { commanders = insert slot c' s.commanders } in
            let here : get slot s'.commanders ≡ some c' =
              ground (arith, get-insert slot slot c' s.commanders) in
            let (last, rest) =
              handle_accepts-gather slot froms c' s' here
                (ground (arith, length-add from c.accepts, more, short)) in
            (
              last,
              handle_accepts-cons c.ballot slot from froms s s' last none _
                  (handle_maccepted-more from slot c s held more) rest,
            )
      ]

  -- When a commander is spawned for a free slot and accepts of its ballot and slot then arrive, in
  -- any order and any number of times, nothing panics, and what is announced is the value at the
  -- slot, once, if f + 1 distinct processes are among the senders, and nothing otherwise.
  pub handle_accepts-chosen :
      (b : Ballot) (slot : Slot) (value : V) (froms : List ProcessId) (s : MultiSynod V)
      → get slot s.commanders ≡ none
      → (last : MultiSynod V) × ((handle_spawn_commander b slot value s >>= λ spawned.
            handle_accepts b slot froms spawned.0)
          ≡ done
              (last, (if ltb s.f (length (gather froms [])) then chosen slot value ∷ [] else [])))
  unfolding handle_spawn_commander spawn
  handle_accepts-chosen b slot value froms s free =
      let c = spawn s.f b value in
      let s' = record s { commanders = insert slot c s.commanders } in
      let here : get slot s'.commanders ≡ some c =
        ground (arith, get-insert slot slot c s.commanders) in
      let (last, rest) = handle_accepts-gather slot froms c s' here (omega arith) in
      (last, rw (free, handle_spawn_commander) rest)
