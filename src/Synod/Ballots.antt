-- ===== src/Synod/Ballots.antt =====
-- fantoch_ps/src/protocol/common/synod/single.rs: the ballots that processes use.
use fantoch.Prelude.{
  ℕ, suc, ◌+◌, ◌*◌, ◌/◌, ◌%◌, ap, sym, ◌∙◌, ◌≤◌, ◌<◌, ◌≡◌, refl, none, [], done, arith, word, add64,
  mul64,
}
use native.Mathlib.Numerals.{add-one}
use fantoch.Identifiers.{ProcessId}
use fantoch.Synod.Defs.{
  Ballot, Proposer, Synod, SynodMessage, mprepare, proposer_new_prepare, new_prepare,
}

-- Ballot `b` is the one of round `round` of process `p` among `n`.
abbrev pub IsRound : (n : ℕ) (p : ProcessId) (round : ℕ) (b : Ballot) → Type 0
IsRound n p round b = b ≡ p + n * round

-- The program's identifiers: from 1 on, in a `u8`.
pub record IsProcess (n : ℕ) (p : ProcessId) : Type 0 where
  pub positive : 1 ≤ p
  pub within : p ≤ n
  pub small : n ≤ 255

times_lt : (n r t : ℕ) → r < t → n * r + n ≤ n * t
times_lt n r t h = grind arith

-- Two processes never own the same ballot, whatever their rounds.
pub rounds_disjoint :
    (n : ℕ) (p q : ProcessId) (r t : ℕ) (b : Ballot)
    → IsProcess n p
    → IsProcess n q
    → IsRound n p r b
    → IsRound n q t b
    → (p ≡ q) × (r ≡ t)
rounds_disjoint n p q r t b hp hq hr ht =
    let same : r ≡ t = grind (arith, times_lt n r t, times_lt n t r) in
    (grind (arith, ap (λ (x : ℕ). n * x) same), same)

wide : (n q : ℕ) → n * (q + 1) ≡ n * q + n
wide n q = omega arith

le_times : (n q : ℕ) → 1 ≤ n → q ≤ n * q
le_times n q h = grind arith

-- The sum wraps around only to a number that the assertion on the new ballot refuses.
round_fits :
    (n p a q b : ℕ)
    → 1 ≤ n
    → p ≤ n
    → n ≤ 255
    → n * q ≤ a
    → add64 p (mul64 n (add64 q 1)) ≡ b
    → a < b
    → b ≡ p + n * (q + 1)
unfolding add64 mul64
round_fits n p a q b h1 hp hn hq e h =
    let below : b < word = omega arith in
    let next : (q + 1) % word ≡ q + 1 = omega (arith, le_times n q h1) in
    let e' : (p + n * (q + 1) % word) % word ≡ b = rw next at e in omega (arith, wide n q)

div_times : (a n : ℕ) → n * (a / n) ≤ a
div_times a n = grind arith

module _ {V : Type 0} where
  -- The proposer after a new prepare.
  abbrev pub prepared : Ballot → Proposer V → Proposer V
  prepared b p = record p { ballot = b; promises = []; accepts = []; proposal = none }

  pub new_prepare_cases :
      (s s' : Synod V) (message : SynodMessage V)
      → new_prepare s ≡ done (s', message)
      → (b : Ballot) × (s' ≡ record s { proposer = prepared b s.proposer })
        × (message ≡ mprepare b)
        × (s.proposer.ballot ≤ s.acceptor.ballot)
        × (s.acceptor.ballot < b)
        × (b
            ≡ add64 s.proposer.process_id
                (mul64 s.proposer.n (add64 (s.acceptor.ballot / s.proposer.n) 1)))
  unfolding new_prepare proposer_new_prepare
  new_prepare_cases s s' message h = (
    add64 s.proposer.process_id (mul64 s.proposer.n (add64 (s.acceptor.ballot / s.proposer.n) 1)),
    ground arith,
    ground arith,
    ground arith,
    ground arith,
    refl,
  )

  -- A new prepare that is not a panic uses a ballot of this process in a round from 1 on, above
  -- every ballot that its acceptor and its proposer were in, and starts phase 1 afresh. The `u64`
  -- never wraps around unnoticed.
  pub new_prepare_lem :
      (s s' : Synod V) (message : SynodMessage V)
      → IsProcess s.proposer.n s.proposer.process_id
      → new_prepare s ≡ done (s', message)
      → (b : Ballot) × (round : ℕ) × IsRound s.proposer.n s.proposer.process_id (suc round) b
        × (s.proposer.ballot < b)
        × (s.acceptor.ballot < b)
        × (s' ≡ record s { proposer = prepared b s.proposer })
        × (message ≡ mprepare b)
  new_prepare_lem s s' message ok h =
      let (b, e, m, seen, above, formula) = new_prepare_cases s s' message h in
      let n = s.proposer.n in
      let q = s.acceptor.ballot / n in
      let fits : b ≡ s.proposer.process_id + n * (q + 1) =
        round_fits n s.proposer.process_id s.acceptor.ballot q b (omega arith) ok.within ok.small
          (div_times s.acceptor.ballot n) (sym formula) above in
      (b, q, fits ∙ ap (λ x. s.proposer.process_id + n * x) (add-one q), omega arith, above, e, m)
