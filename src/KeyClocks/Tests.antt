-- ===== src/KeyClocks/Tests.antt =====
-- The theorems on the clocks of keys at concrete inputs.
use fantoch.Prelude.{
  max, ◌+◌, ◌≡◌, refl, false, List, [], ◌∷◌, ◌++◌, done, if◌then◌else◌, string_partial_eq,
  range_inclusive, add64, arith,
}
use fantoch.Prelude.Maps.{get}
use fantoch.Prelude.Sets.{contains}
use fantoch.Identifiers.{Rifl}
use fantoch.Kvs.{Key, read, write}
use fantoch.Commands.{Command, from_ops, command_keys}
use fantoch.Votes.{Votes, VoteRange, votes_of, add_vote}
use fantoch.Votes.Coverage.{VotesBy, votes_at, add_vote-votes_at}
use fantoch.KeyClocks.{SequentialKeyClocks, new, clock_at, proposal}
use fantoch.KeyClocks.Casting.{propose_all, cast_at, clock_above, proposal_lem, propose_all-new}

abbrev rifl : Rifl
rifl = record { source = 1; sequence = 1 }

abbrev first : Command
first = from_ops rifl (("a", write "x") ∷ [])

abbrev both : Command
both = from_ops rifl (("a", write "x") ∷ ("b", read) ∷ [])

abbrev clocks : SequentialKeyClocks
clocks = new 1 0 false

propose_all-new_example :
    (last : SequentialKeyClocks) × (votes : List Votes) × (propose_all
        ((first, 0) ∷ (both, 4) ∷ (first, 2) ∷ [])
        (new 1 0 false)
      ≡ done (last, votes))
    × ((at : Key) → cast_at at votes ≡ range_inclusive 1 (clock_at at last.clocks))
propose_all-new_example =
    propose_all-new 1 0 false ((first, 0) ∷ (both, 4) ∷ (first, 2) ∷ [])
      (omega arith, (omega arith, (omega arith, tt)))

proposal_example :
    (c' : SequentialKeyClocks) × (votes : Votes) × (proposal both 4 clocks
      ≡ done (c', (max 4 (clock_above both clocks), votes)))
    × ((at : Key)
        → (clock_at at c'.clocks ≡ (
            if contains at (command_keys clocks.shard_id both)
            then max (clock_at at clocks.clocks) (max 4 (clock_above both clocks))
            else clock_at at clocks.clocks))
          × (votes_at at votes
              ≡ range_inclusive (clock_at at clocks.clocks + 1) (clock_at at c'.clocks)))
unfolding new get add64
proposal_example = proposal_lem both 4 clocks (omega arith)

abbrev range : VoteRange
range = record { by = 1; start = 3; end = 5 }

abbrev before : Votes
before = ("a", record { by = 1; start = 1; end = 2 } ∷ []) ∷ []

no_other_voter : VotesBy 1 before
unfolding get
no_other_voter key = ground (arith, range)

add_vote_example :
    (votes' : Votes) × (add_vote "a" range before ≡ done votes')
    × VotesBy 1 votes'
    × ((at : Key)
        → votes_at at votes' ≡ (
            if string_partial_eq.equal "a" at
            then votes_at at before ++ votes_of range
            else votes_at at before))
add_vote_example =
    add_vote-votes_at 1 "a" range before no_other_voter (refl, omega arith, omega arith)
      (omega arith)
