-- ===== src/KeyClocks/Casting.antt =====
-- fantoch_ps/src/protocol/common/table/clocks/keys/sequential.rs: the votes that proposals cast.
use fantoch.Prelude.{
  ℕ, max, ◌+◌, ◌≤◌, ◌<◌, ◌≡◌, refl, sym, subst, u64_partial_eq, ◌∙◌, ap, Bool, true, List, [], ◌∷◌,
  ◌++◌, Outcome, done, ◌>>=◌, if◌then◌else◌, ◌==◌, string_partial_eq, leb, ltb, Bool-cases, inl,
  inr, add64, add64_lem, word, All, ◌&&◌, Option, none, some, range_inclusive, range_inclusive-past,
  arith,
}
use text.Mathlib.TextEquality.{eq_iff}
use mathlib.Core.List.{append_assoc, append-nil}
use fantoch.Prelude.Maps.{Map, get, insert, get-insert}
use fantoch.Prelude.Sets.{contains}
use fantoch.Identifiers.{ProcessId, ShardId}
use fantoch.Kvs.{Key}
use fantoch.Commands.{Command, command_keys, nfr_allowed, read_only, total_key_count}
use fantoch.Votes.{Votes, VoteRange, new_range, add_vote, votes_of}
use fantoch.Votes.Coverage.{VotesBy, votes_at, add_vote-votes_at, range_inclusive-append}
use fantoch.KeyClocks.{
  SequentialKeyClocks, new, clock_at, maybe_bump, bump_keys, detached, next_clock, proposal, latest,
  clock,
}

-- The votes of a key went from the old clocks to the new ones, no vote missing and none twice.
abbrev pub Cast : (clocks clocks' : Map Key ℕ) (votes votes' : Votes) → Key → Type 0
Cast clocks clocks' votes votes' at =
    (clock_at at clocks ≤ clock_at at clocks')
    × (votes_at at votes'
        ≡ votes_at at votes ++ range_inclusive (clock_at at clocks + 1) (clock_at at clocks'))

clock_at-insert :
    (key at : Key) (current : ℕ) (clocks : Map Key ℕ)
    → clock_at at (insert key current clocks) ≡ (if key == at then current else clock_at at clocks)
clock_at-insert key at current clocks = ground (arith, get-insert key at current clocks)

unchanged_lem :
    (at : Key) (current : ℕ) (votes : Votes)
    → votes_at at votes ≡ votes_at at votes ++ range_inclusive (current + 1) current
unchanged_lem at current votes =
    rw (range_inclusive-past current) (sym (append-nil (votes_at at votes)))

Cast-insert :
    (key : Key) (current : ℕ) (clocks : Map Key ℕ) (votes votes' : Votes)
    → clock_at key clocks ≤ current
    → ((at : Key)
        → votes_at at votes' ≡ (
            if key == at
            then votes_at at votes ++ range_inclusive (clock_at key clocks + 1) current
            else votes_at at votes))
    → (at : Key) → Cast clocks (insert key current clocks) votes votes' at
Cast-insert key current clocks votes votes' up all at = elim (Bool-cases (key == at)) [
  | inl same ↦
      let here : key ≡ at = (eq_iff key at).0 same in
      let before : clock_at key clocks ≡ clock_at at clocks = ap (λ k. clock_at k clocks) here in
      rw (clock_at-insert key at current clocks, same)
        (
          omega (arith, before),
          rw (all at, same)
              (ap (λ low. votes_at at votes ++ range_inclusive (low + 1) current) before),
        )
  | inr other ↦
      rw (clock_at-insert key at current clocks, other)
        (omega arith, rw (all at, other) (unchanged_lem at (clock_at at clocks) votes))
]

maybe_bump-lower :
    (id : ProcessId) (key : Key) (current up_to : ℕ) (votes votes' : Votes)
    → ltb current up_to ≡ true
    → up_to < word
    → add_vote key (record { by = id; start = current + 1; end = up_to }) votes ≡ done votes'
    → maybe_bump id key current up_to votes ≡ done (up_to, votes')
unfolding maybe_bump new_range
maybe_bump-lower id key current up_to votes votes' lower small added =
    let next : add64 current 1 ≡ current + 1 = add64_lem current 1 (ground arith) in
    let fits : leb (current + 1) up_to ≡ true = ground arith in rw (lower, next, fits, added) refl

-- A key that is bumped, or that is there already.
bump_key-Cast :
    (id : ProcessId) (key : Key) (up_to : ℕ) (clocks : Map Key ℕ) (votes : Votes)
    → VotesBy id votes
    → up_to < word
    → (bumped : ℕ × Votes) × (maybe_bump id key (clock_at key clocks) up_to votes ≡ done bumped)
      × VotesBy id bumped.1
      × (bumped.0 ≡ max (clock_at key clocks) up_to)
      × ((at : Key) → Cast clocks (insert key bumped.0 clocks) votes bumped.1 at)
unfolding maybe_bump new_range votes_of
bump_key-Cast id key up_to clocks votes by small =
    elim (Bool-cases (ltb (clock_at key clocks) up_to)) [
      | inl lower ↦
          let vote : VoteRange = record { by = id; start = clock_at key clocks + 1; end = up_to } in
          let (votes', added, by', all) =
            add_vote-votes_at id key vote votes by (refl, ground arith, small) (omega arith) in
          (
            (up_to, votes'),
            maybe_bump-lower id key (clock_at key clocks) up_to votes votes' lower small added,
            by',
            ground arith,
            Cast-insert key up_to clocks votes votes' (ground arith) all,
          )
      | inr there ↦ (
        (clock_at key clocks, votes),
        rw there refl,
        by,
        ground arith,
        Cast-insert key (clock_at key clocks) clocks votes votes (omega arith) (λ at.
            elim (Bool-cases (key == at)) [
              | inl same ↦ rw same (unchanged_lem at (clock_at key clocks) votes)
              | inr other ↦ rw other refl
            ]),
      )
    ]

Cast-trans :
    (at : Key) (a b c : Map Key ℕ) (v w x : Votes)
    → Cast a b v w at
    → Cast b c w x at
    → Cast a c v x at
Cast-trans at a b c v w x (up, first) (up', second) =
    let joined =
      range_inclusive-append (clock_at at a + 1) (clock_at at b) (clock_at at c) (omega arith)
        (omega arith) in
    (
      omega arith,
      second
          ∙ ap (λ vs. vs ++ range_inclusive (clock_at at b + 1) (clock_at at c)) first
          ∙ append_assoc (votes_at at v) _ _
          ∙ ap (λ vs. votes_at at v ++ vs) joined,
    )

bump_values :
    (key at : Key) (keys : List Key) (up_to current : ℕ) (clocks last : Map Key ℕ)
    → current ≡ max (clock_at key clocks) up_to
    → clock_at at last ≡ (
        if contains at keys
        then max (clock_at at (insert key current clocks)) up_to
        else clock_at at (insert key current clocks))
    → clock_at at last
      ≡ (if contains at (key ∷ keys) then max (clock_at at clocks) up_to else clock_at at clocks)
unfolding contains
bump_values key at keys up_to current clocks last value values =
    let inserted = clock_at-insert key at current clocks in
    elim (Bool-cases (key == at)) [
      | inl same ↦
          let here : key ≡ at = (eq_iff key at).0 same in
          let held : clock_at key clocks ≡ clock_at at clocks = ap (λ k. clock_at k clocks) here in
          ground (arith, same, held, value, values, inserted)
      | inr other ↦ ground (arith, other, values, inserted)
    ]

bump_keys-Cast :
    (id : ProcessId) (keys : List Key) (up_to : ℕ) (clocks : Map Key ℕ) (votes : Votes)
    → VotesBy id votes
    → up_to < word
    → (bumped : Map Key ℕ × Votes) × (bump_keys id keys up_to clocks votes ≡ done bumped)
      × VotesBy id bumped.1
      × ((at : Key)
          → clock_at at bumped.0
            ≡ (if contains at keys then max (clock_at at clocks) up_to else clock_at at clocks))
      × ((at : Key) → Cast clocks bumped.0 votes bumped.1 at)
unfolding bump_keys contains
bump_keys-Cast id [] up_to clocks votes by small = (
  (clocks, votes),
  refl,
  by,
  (λ at. refl),
  λ at. (omega arith, unchanged_lem at (clock_at at clocks) votes),
)
bump_keys-Cast id (key ∷ keys) up_to clocks votes by small =
    let (first, bumps, by', value, cast) = bump_key-Cast id key up_to clocks votes by small in
    let (last, bumps', by'', values, casts) =
      bump_keys-Cast id keys up_to (insert key first.0 clocks) first.1 by' small in
    (
      last,
      rw bumps bumps',
      by'',
      (λ at. bump_values key at keys up_to first.0 clocks last.0 value (values at)),
      λ at.
          Cast-trans at clocks (insert key first.0 clocks) last.0 votes first.1 last.1 (cast at)
            (casts at),
    )

no_votes_lem : (id : ProcessId) → VotesBy id []
unfolding get
no_votes_lem id key = tt

-- A proposal at the next clock of the command.
proposal_at_next_clock :
    (cmd : Command) (min_clock : ℕ) (c : SequentialKeyClocks)
    → max min_clock (next_clock cmd c) < word
    → (c' : SequentialKeyClocks) × (votes : Votes) × (proposal cmd min_clock c
        ≡ done (c', (max min_clock (next_clock cmd c), votes)))
      × ((at : Key)
          → (clock_at at c'.clocks ≡ (
              if contains at (command_keys c.shard_id cmd)
              then max (clock_at at c.clocks) (max min_clock (next_clock cmd c))
              else clock_at at c.clocks))
            × (votes_at at votes
                ≡ range_inclusive (clock_at at c.clocks + 1) (clock_at at c'.clocks)))
unfolding proposal detached get
proposal_at_next_clock cmd min_clock c small =
    let proposed = max min_clock (next_clock cmd c) in
    let (bumped, bumps, by, values, casts) =
      bump_keys-Cast c.process_id (command_keys c.shard_id cmd) proposed c.clocks []
        (no_votes_lem c.process_id) small in
    (record c { clocks = bumped.0 }, bumped.1, rw bumps refl, λ at. (values at, (casts at).1))

-- Proposals one after the other, with the votes of each.
abbrev pub propose_all :
    List (Command × ℕ) → SequentialKeyClocks → Outcome (SequentialKeyClocks × List Votes)
propose_all [] c = done (c, [])
propose_all ((cmd, min_clock) ∷ more) c = proposal cmd min_clock c >>= λ first.
    propose_all more first.0 >>= λ rest. done (rest.0, first.1.1 ∷ rest.1)

-- The votes cast on a key by several proposals, in order.
abbrev pub cast_at : Key → List Votes → List ℕ
cast_at at [] = []
cast_at at (votes ∷ more) = votes_at at votes ++ cast_at at more

abbrev Small : SequentialKeyClocks → Type 0
Small c = (at : Key) → clock_at at c.clocks < word

unwrap : Option ℕ → ℕ
unwrap o = elim o [ none ↦ 0 | some current ↦ current ]

latest-Small :
    (keys : List Key) (clocks : Map Key ℕ)
    → ((at : Key) → clock_at at clocks < word)
    → unwrap (latest keys clocks) < word
unfolding latest unwrap
latest-Small [] clocks h = omega arith
latest-Small (key ∷ keys) clocks h = ground (arith, h key, latest-Small keys clocks h)

-- What a proposal does when the command calls for the clock `next`.
abbrev ProposedAt : Command → ℕ → SequentialKeyClocks → ℕ → Type 0
ProposedAt cmd min_clock c next =
    (c' : SequentialKeyClocks) × (votes : Votes) × (proposal cmd min_clock c
      ≡ done (c', (max min_clock next, votes)))
    × ((at : Key)
        → (clock_at at c'.clocks ≡ (
            if contains at (command_keys c.shard_id cmd)
            then max (clock_at at c.clocks) (max min_clock next)
            else clock_at at c.clocks))
          × (votes_at at votes
              ≡ range_inclusive (clock_at at c.clocks + 1) (clock_at at c'.clocks)))

-- The greatest clock of the keys, 0 for none.
abbrev pub greatest : List Key → Map Key ℕ → ℕ
greatest [] clocks = 0
greatest (key ∷ keys) clocks = max (clock_at key clocks) (greatest keys clocks)

latest-eq-greatest :
    (keys : List Key) (clocks : Map Key ℕ) → unwrap (latest keys clocks) ≡ greatest keys clocks
unfolding latest unwrap
latest-eq-greatest [] clocks = refl
latest-eq-greatest (key ∷ keys) clocks = ground (arith, latest-eq-greatest keys clocks)

-- The clock above those of the keys of the command, or the greatest of them for a command that only
-- reads a single key while reads need not be ordered.
abbrev pub clock_above : Command → SequentialKeyClocks → ℕ
clock_above cmd c =
    let top = greatest (command_keys c.shard_id cmd) c.clocks in
    if c.nfr && (read_only cmd && total_key_count cmd == 1) then top else add64 top 1

next_clock-eq-clock_above :
    (cmd : Command) (c : SequentialKeyClocks) → next_clock cmd c ≡ clock_above cmd c
unfolding next_clock clock unwrap nfr_allowed
next_clock-eq-clock_above cmd c =
    ap
      (λ (top : ℕ).
        if c.nfr && (read_only cmd && total_key_count cmd == 1) then top else add64 top 1)
      (latest-eq-greatest (command_keys c.shard_id cmd) c.clocks)

-- A proposal, while its clock fits in a u64, is made without a panic. Its clock is the greatest of
-- `min_clock` and of one above the greatest clock of the command's keys (0 past the end of a u64),
-- or of that greatest clock itself when reads need not be ordered and the command only reads a
-- single key. Each key of the command ends at the proposal's clock, unless it was above, and every other key keeps its clock.
-- The votes of the proposal on a key are those after the old clock of that key, up to its new one.
pub proposal_lem :
    (cmd : Command) (min_clock : ℕ) (c : SequentialKeyClocks)
    → max min_clock (clock_above cmd c) < word
    → (c' : SequentialKeyClocks) × (votes : Votes) × (proposal cmd min_clock c
        ≡ done (c', (max min_clock (clock_above cmd c), votes)))
      × ((at : Key)
          → (clock_at at c'.clocks ≡ (
              if contains at (command_keys c.shard_id cmd)
              then max (clock_at at c.clocks) (max min_clock (clock_above cmd c))
              else clock_at at c.clocks))
            × (votes_at at votes
                ≡ range_inclusive (clock_at at c.clocks + 1) (clock_at at c'.clocks)))
proposal_lem cmd min_clock c small =
    subst (λ (k : ℕ). ProposedAt cmd min_clock c k) (next_clock-eq-clock_above cmd c)
      (proposal_at_next_clock cmd min_clock c
        (subst (λ (k : ℕ). max min_clock k < word) (sym (next_clock-eq-clock_above cmd c)) small))

next_clock-Small : (cmd : Command) (c : SequentialKeyClocks) → Small c → next_clock cmd c < word
unfolding next_clock clock unwrap add64
next_clock-Small cmd c h = elim (Bool-cases (c.nfr && nfr_allowed cmd)) [
  | inl still ↦ rw still (latest-Small (command_keys c.shard_id cmd) c.clocks h)
  | inr bump ↦ rw bump (omega arith)
]

propose_all-cast :
    (proposals : List (Command × ℕ)) (c : SequentialKeyClocks)
    → Small c
    → All (λ p. p.1 < word) proposals
    → (last : SequentialKeyClocks) × (votes : List Votes) × (propose_all proposals c
        ≡ done (last, votes))
      × ((at : Key)
          → (clock_at at c.clocks ≤ clock_at at last.clocks)
            × (cast_at at votes
                ≡ range_inclusive (clock_at at c.clocks + 1) (clock_at at last.clocks)))
propose_all-cast [] c small h =
    (c, [], refl, λ at. (omega arith, sym (range_inclusive-past (clock_at at c.clocks))))
propose_all-cast ((cmd, min_clock) ∷ more) c small h =
    let next = next_clock-Small cmd c small in
    let (c', votes, proposed, each) =
      proposal_at_next_clock cmd min_clock c (omega (arith, h.0, next)) in
    let small' : Small c' = λ at. ground (arith, (each at).0, h.0, next, small at) in
    let (last, rest, returns, casts) = propose_all-cast more c' small' h.1 in
    (
      last,
      votes ∷ rest,
      rw proposed (rw returns refl),
      λ at.
          let up : clock_at at c.clocks ≤ clock_at at c'.clocks = ground (arith, (each at).0) in
          (
            omega (arith, up, (casts at).0),
            rw ((each at).1, (casts at).1)
                (range_inclusive-append (clock_at at c.clocks + 1) (clock_at at c'.clocks)
                  (clock_at at last.clocks) (omega arith) (casts at).0),
          ),
    )

-- However many proposals a new process makes, none panics, and the votes that it casts on a key
-- are 1, 2, 3, ... up to its final clock for the key, in order: no vote is missing, and none is
-- cast twice.
pub propose_all-new :
    (process_id : ProcessId) (shard_id : ShardId) (nfr : Bool) (proposals : List (Command × ℕ))
    → All (λ p. p.1 < word) proposals
    → (last : SequentialKeyClocks) × (votes : List Votes) × (propose_all proposals
          (new process_id shard_id nfr)
        ≡ done (last, votes))
      × ((at : Key) → cast_at at votes ≡ range_inclusive 1 (clock_at at last.clocks))
unfolding new get
propose_all-new process_id shard_id nfr proposals h =
    let (last, votes, returns, casts) =
      propose_all-cast proposals (new process_id shard_id nfr) (λ at. omega arith) h in
    (last, votes, returns, λ at. (casts at).1)
