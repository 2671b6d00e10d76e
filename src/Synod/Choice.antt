-- ===== src/Synod/Choice.antt =====
-- fantoch_ps/src/protocol/common/synod/single.rs: the proposal that a set of promises calls for.
use fantoch.Prelude.{
  ◌≤◌, ◌<◌, ◌≡◌, ◌∙◌, sym, subst, ◌≢◌, refl, true, Bool-cases, ◌⊎◌, inl, inr, none, some, [], ◌∷◌,
  done, u64_partial_eq, nat_beq, nat_beq_iff, arith, All, All-map, ltb, ltb→lt, Option-cases,
}
use native.Mathlib.Nat.{le_refl}
use fantoch.Prelude.Maps.{Map, keys, get}
use fantoch.Prelude.Sets.{contains, IsDistinct}
use fantoch.Identifiers.{ProcessId}
use fantoch.Synod.Defs.{Ballot, Accepted, highest, reported, choose_proposal}

module _ {V : Type 0} where
  -- Every reported ballot is at most `b`.
  abbrev pub AtMost : Ballot → Map ProcessId (Accepted V) → Type 0
  AtMost b promises = All (λ (entry : ProcessId × Accepted V). entry.1.0 ≤ b) promises

  -- The value `v` is the one to propose: a generated one if nothing was accepted before, and
  -- otherwise one that was accepted at the highest ballot reported.
  abbrev pub Calls : (Map ProcessId V → V) → Map ProcessId (Accepted V) → V → Type 0
  Calls proposal_gen promises v =
      AtMost 0 promises × (v ≡ proposal_gen (reported promises))
      ⊎ ((b : Ballot) × (from : ProcessId) × (0 < b)
          × (get from promises ≡ some (b, v))
          × AtMost b promises)

  get-contains :
      (k : ProcessId) (ps : Map ProcessId (Accepted V)) (a : Accepted V)
      → get k ps ≡ some a
      → contains k (keys ps) ≡ true
  unfolding get contains
  get-contains k [] a h = ground arith
  get-contains k ((j, x) ∷ ps) a h = ground (arith, get-contains k ps a)

  pub highest-none :
      (promises : Map ProcessId (Accepted V)) → highest promises ≡ none → promises ≡ []
  unfolding highest
  highest-none [] h = refl
  highest-none ((from, (b, v)) ∷ promises) h = absurd (ground arith)

  -- `best` names a promise with the highest ballot.
  abbrev pub Tops : Map ProcessId (Accepted V) → Ballot × ProcessId → Type 0
  Tops promises best = AtMost best.0 promises × (v : V) × (get best.1 promises ≡ some (best.0, v))

  pub highest_lem :
      (promises : Map ProcessId (Accepted V)) (best : Ballot × ProcessId)
      → IsDistinct (keys promises)
      → highest promises ≡ some best
      → Tops promises best
  unfolding highest get
  highest_lem [] best d h = absurd (ground arith)
  highest_lem ((from, (b, v)) ∷ promises) best d h = elim (Option-cases (highest promises)) [
    | inl empty ↦
        let first : best ≡ (b, from) = ground arith in
        subst (Tops ((from, (b, v)) ∷ promises)) (sym first)
          ((le_refl b, rw (highest-none promises empty) tt), v, ground arith)
    | inr (top, found) ↦
        let (below, w, held) = highest_lem promises top d.1 found in
        elim (Bool-cases (ltb top.0 b)) [
          | inl above ↦
              let first : best ≡ (b, from) = ground arith in
              subst (Tops ((from, (b, v)) ∷ promises)) (sym first) (
                (
                  le_refl b,
                  All-map _ _ (λ entry le. omega (arith, ltb→lt top.0 b above)) promises below,
                ),
                v,
                ground arith,
              )
          | inr kept ↦
              let rest : best ≡ top = ground arith in
              subst (Tops ((from, (b, v)) ∷ promises)) (sym rest) (
                (ground arith, below),
                w,
                ground (arith, get-contains top.1 promises (top.0, w), held, d.0),
              )
        ]
  ]

  -- Phase 1 proposes what Paxos asks for: when the proposer computes a proposal from promises of
  -- distinct processes, then either no promise reports an accepted value and the proposal comes
  -- from the generator, or the proposal was accepted at a positive ballot that one promise reports
  -- and that no promise exceeds.
  pub choose_proposal-Calls :
      (proposal_gen : Map ProcessId V → V) (promises : Map ProcessId (Accepted V)) (v : V)
      → IsDistinct (keys promises)
      → choose_proposal proposal_gen promises ≡ done v
      → Calls proposal_gen promises v
  unfolding choose_proposal
  choose_proposal-Calls proposal_gen promises v d h = elim (Option-cases (highest promises)) [
    | inl empty ↦ absurd (ground arith)
    | inr (best, found) ↦
        let (top, w, held) = highest_lem promises best d found in
        elim (Bool-cases (nat_beq best.0 0)) [
          | inl zero ↦ inl (rw (← (nat_beq_iff best.0 0).0 zero) top, ground arith)
          | inr positive ↦ inr (best.0, best.1, ground arith, held ∙ ground arith, top)
        ]
  ]

  -- The two `expect`s never fire: from at least one promise a proposal is computed.
  pub choose_proposal_total :
      (proposal_gen : Map ProcessId V → V) (promises : Map ProcessId (Accepted V))
      → IsDistinct (keys promises)
      → promises ≢ []
      → (v : V) × (choose_proposal proposal_gen promises ≡ done v)
  unfolding choose_proposal
  choose_proposal_total proposal_gen promises d some_promise =
      elim (Option-cases (highest promises)) [
        | inl empty ↦ absurd (some_promise (highest-none promises empty))
        | inr (best, found) ↦
            let (top, w, held) = highest_lem promises best d found in
            elim (Bool-cases (nat_beq best.0 0)) [
              | inl zero ↦ (proposal_gen (reported promises), ground arith)
              | inr positive ↦ (w, ground (arith, held))
            ]
      ]
