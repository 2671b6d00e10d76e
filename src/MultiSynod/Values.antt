-- ===== src/MultiSynod/Values.antt =====
-- fantoch_ps/src/protocol/common/synod/multi.rs: where the values of commanders and of the messages
-- that leave them come from.
use fantoch.Prelude.{
  ◌+◌, ◌≡◌, refl, ap, sym, subst, inl, inr, Option, none, some, done, ◌==◌, u64_partial_eq,
  Bool-cases, Option-cases, length, arith,
}
use fantoch.Prelude.Maps.{Map, get, insert, remove, get-insert, get-remove}
use fantoch.Prelude.Sets.{add}
use fantoch.Identifiers.{ProcessId}
use fantoch.MultiSynod.{
  Ballot, Slot, MultiSynod, MultiSynodMessage, Commander, chosen, handle_maccepted, handle_accepted,
  destroy,
}

module _ {V : Type 0} where
  -- Every commander of the second map watches a value that one of the first map watches.
  abbrev pub SameValues : Map Slot (Commander V) → Map Slot (Commander V) → Type 0
  SameValues before after =
      (slot : Slot) (c' : Commander V)
      → get slot after ≡ some c'
      → (c : Commander V) × (get slot before ≡ some c) × (c'.value ≡ c.value)

  -- What an accept makes of the commanders: nothing, or the announcement of a watched value.
  pub data AcceptedCase (slot : Slot) (s s' : MultiSynod V) (out : Option (MultiSynodMessage V))
      : Type 0 where
    silent :
        s'.leader ≡ s.leader
        → SameValues s.commanders s'.commanders
        → out ≡ none
        → AcceptedCase slot s s' out
    announced :
        (c : Commander V)
        → s'.leader ≡ s.leader
        → SameValues s.commanders s'.commanders
        → get slot s.commanders ≡ some c
        → out ≡ some (chosen slot c.value)
        → AcceptedCase slot s s' out

  SameValues-remove : (slot : Slot) (m : Map Slot (Commander V)) → SameValues m (remove slot m)
  SameValues-remove slot m i c' h = (c', ground (arith, h, get-remove slot i m), refl)

  SameValues-insert :
      (slot : Slot) (c new : Commander V) (m : Map Slot (Commander V))
      → get slot m ≡ some c
      → new.value ≡ c.value
      → SameValues m (insert slot new m)
  SameValues-insert slot c new m held same i c' h = elim (Bool-cases (slot == i)) [
    | inl here ↦
        let at : slot ≡ i = ground arith in
        let found : some new ≡ some c' = ground (arith, h, get-insert slot i new m, here) in
        (c, subst (λ j. get j m ≡ some c) at held, ground (arith, found, same))
    | inr other ↦ (c', ground (arith, h, other, get-insert slot i new m), refl)
  ]

  pub accepted_cases :
      (from : ProcessId) (b : Ballot) (slot : Slot) (s s' : MultiSynod V)
      (out : Option (MultiSynodMessage V))
      → handle_maccepted from b slot s ≡ done (s', out)
      → AcceptedCase slot s s' out
  unfolding handle_maccepted handle_accepted destroy
  accepted_cases from b slot s s' out h = elim (Option-cases (get slot s.commanders)) [
    | inl vacant ↦
        let same : s ≡ s' = ground (arith, h, vacant) in
        AcceptedCase.silent (ap (λ (x : MultiSynod V). x.leader) (sym same))
          (subst (λ (x : MultiSynod V). SameValues s.commanders x.commanders) same
            (λ i c' e. (c', e, refl)))
          (ground (arith, h, vacant))
    | inr (c, held) ↦ elim (Bool-cases (c.ballot == b)) [
      | inl current ↦
          let c' = record c { accepts = add from c.accepts } in
          elim (Bool-cases (length c'.accepts == c.f + 1)) [
            | inl enough ↦
                let same : record s { commanders = remove slot s.commanders } ≡ s' =
                  ground (arith, h, held, current, enough) in
                AcceptedCase.announced c (ap (λ (x : MultiSynod V). x.leader) (sym same))
                  (subst (λ (x : MultiSynod V). SameValues s.commanders x.commanders) same
                    (SameValues-remove slot s.commanders))
                  held (ground (arith, h, held, current, enough))
            | inr more ↦
                let same : record s { commanders = insert slot c' s.commanders } ≡ s' =
                  ground (arith, h, held, current, more) in
                AcceptedCase.silent (ap (λ (x : MultiSynod V). x.leader) (sym same))
                  (subst (λ (x : MultiSynod V). SameValues s.commanders x.commanders) same
                    (SameValues-insert slot c c' s.commanders held refl))
                  (ground (arith, h, held, current, more))
          ]
      | inr old ↦
          let same : record s { commanders = insert slot c s.commanders } ≡ s' =
            ground (arith, h, held, old) in
          AcceptedCase.silent (ap (λ (x : MultiSynod V). x.leader) (sym same))
            (subst (λ (x : MultiSynod V). SameValues s.commanders x.commanders) same
              (SameValues-insert slot c c s.commanders held refl))
            (ground (arith, h, held, old))
    ]
  ]
