-- ===== src/Votes.antt =====
-- fantoch_ps/src/protocol/common/table/votes.rs: ranges of votes, and the votes on each key.
pub mod Coverage
use fantoch.Prelude.{
  ℕ, zero, suc, ◌+◌, Bool, true, false, Option, none, some, List, [], ◌∷◌, ◌++◌, Outcome, done,
  panic, assert, ◌>>=◌, ◌>>◌, if◌then◌else◌, ◌==◌, u64_partial_eq, string_partial_eq, leb, length,
  add64, range_inclusive,
}
use fantoch.Prelude.Maps.{Map, get, insert, remove, contains_key}
use fantoch.Identifiers.{ProcessId}
use fantoch.Kvs.{Key}

pub record VoteRange : Type 0 where
  pub by : ProcessId
  pub start : ℕ
  pub end : ℕ

unfoldable pub new_range : ProcessId → (start end : ℕ) → Outcome VoteRange
new_range by start end =
    assert (leb start end) >> done (record { by = by; start = start; end = end })

-- `VoteRange::try_compress`: the range after it, and the other range if it was not taken in.
unfoldable pub try_compress : VoteRange → VoteRange → Outcome (VoteRange × Option VoteRange)
unfolding add64
try_compress r other =
    assert (r.by == other.by)
    >> done (
        if add64 r.end 1 == other.start
        then (record r { end = other.end }, none)
        else (r, some other))

-- `VoteRange::votes`
unfoldable pub votes_of : VoteRange → List ℕ
unfolding range_inclusive
votes_of r = range_inclusive r.start r.end

abbrev pub Votes : Type 0
Votes = Map Key (List VoteRange)

-- The new vote range is compressed into the last one, or pushed after it.
unfoldable pub push_vote : List VoteRange → VoteRange → Outcome (List VoteRange)
unfolding try_compress
push_vote [] vote = done (vote ∷ [])
push_vote (last ∷ []) vote = try_compress last vote >>= λ result.
    done (elim result.1 [ none ↦ result.0 ∷ [] | some other ↦ result.0 ∷ other ∷ [] ])
push_vote (r ∷ next ∷ rs) vote = push_vote (next ∷ rs) vote >>= λ rest. done (r ∷ rest)

abbrev pub current_votes : Key → Votes → List VoteRange
current_votes key votes = elim (get key votes) [ none ↦ [] | some current ↦ current ]

-- `Votes::add`
unfoldable pub add_vote : Key → VoteRange → Votes → Outcome Votes
unfolding push_vote
add_vote key vote votes =
    push_vote (current_votes key votes) vote >>= λ current. done (insert key current votes)

-- `Votes::set`
unfoldable pub set_votes : Key → List VoteRange → Votes → Outcome Votes
set_votes key key_votes votes =
    if contains_key key votes then panic else done (insert key key_votes votes)

-- `Votes::merge`
unfoldable pub merge_votes : (votes remote_votes : Votes) → Votes
merge_votes votes [] = votes
merge_votes votes ((key, key_votes) ∷ remote_votes) =
    merge_votes (insert key (current_votes key votes ++ key_votes) votes) remote_votes
