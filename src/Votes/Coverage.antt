-- ===== src/Votes/Coverage.antt =====
-- fantoch_ps/src/protocol/common/table/votes.rs: the votes that ranges stand for.
use fantoch.Prelude.{
  ℕ, zero, suc, ◌+◌, ◌-◌, ◌≤◌, ◌<◌, ◌≡◌, refl, true, List, [], ◌∷◌, ◌++◌, done, All, if◌then◌else◌,
  ◌==◌, u64_partial_eq, string_partial_eq, Bool-cases, inl, inr, add64, word, ap, sym, ◌∙◌,
  range_from, range_inclusive, arith,
}
use mathlib.Core.List.{append_assoc, append-nil}
use text.Mathlib.TextEquality.{eq_iff}
use fantoch.Prelude.Maps.{insert, get-insert}
use fantoch.Identifiers.{ProcessId}
use fantoch.Kvs.{Key}
use fantoch.Votes.{VoteRange, Votes, try_compress, votes_of, push_vote, current_votes, add_vote}

-- All votes of a list of ranges, in order.
abbrev pub all_votes : List VoteRange → List ℕ
all_votes [] = []
all_votes (r ∷ rs) = votes_of r ++ all_votes rs

abbrev pub votes_at : Key → Votes → List ℕ
votes_at key votes = all_votes (current_votes key votes)

-- Ranges of one voter, none empty, in a u64.
abbrev pub RangeBy : ProcessId → VoteRange → Type 0
RangeBy id r = (r.by ≡ id) × (r.start ≤ r.end) × (r.end < word)

abbrev pub VotesBy : ProcessId → Votes → Type 0
VotesBy id votes = (key : Key) → All (RangeBy id) (current_votes key votes)

range_from-append :
    (start a b : ℕ) → range_from start a ++ range_from (start + a) b ≡ range_from start (a + b)
range_from-append start zero b =
    let shift : start + 0 ≡ start = omega arith in
    let count : 0 + b ≡ b = omega arith in rw (shift, count) refl
range_from-append start (suc a) b =
    let shift : start + suc a ≡ suc start + a = omega arith in
    let count : suc a + b ≡ suc (a + b) = omega arith in
    rw (shift, count) (ap (λ xs. start ∷ xs) (range_from-append (suc start) a b))

range_from-split :
    (start a b next count : ℕ)
    → next ≡ start + a
    → count ≡ a + b
    → range_from start a ++ range_from next b ≡ range_from start count
range_from-split start a b next count e f = rw (e, f) (range_from-append start a b)

pub range_inclusive-append :
    (start mid end : ℕ)
    → start ≤ mid + 1
    → mid ≤ end
    → range_inclusive start mid ++ range_inclusive (mid + 1) end ≡ range_inclusive start end
unfolding range_inclusive
range_inclusive-append start mid end h k =
    range_from-split start (suc mid - start) (suc end - (mid + 1)) (mid + 1) (suc end - start)
      (omega arith) (omega arith)

joins-start :
    (last vote : VoteRange)
    → last.end < word
    → 1 ≤ vote.start
    → (add64 last.end 1 == vote.start) ≡ true
    → vote.start ≡ last.end + 1
unfolding add64
joins-start last vote h low joins = ground arith

pub push_vote-all_votes :
    (id : ProcessId) (rs : List VoteRange) (vote : VoteRange)
    → All (RangeBy id) rs
    → RangeBy id vote
    → 1 ≤ vote.start
    → (rs' : List VoteRange) × (push_vote rs vote ≡ done rs')
      × All (RangeBy id) rs'
      × (all_votes rs' ≡ all_votes rs ++ votes_of vote)
unfolding push_vote try_compress votes_of
push_vote-all_votes id [] vote h v low = (vote ∷ [], refl, (v, tt), append-nil (votes_of vote))
push_vote-all_votes id (last ∷ []) vote (k, _) v low =
    elim (Bool-cases (add64 last.end 1 == vote.start)) [
      | inl joins ↦
          let start = joins-start last vote k.2 low joins in
          let together =
            range_inclusive-append last.start last.end vote.end (omega arith) (omega arith) in
          (
            record last { end = vote.end } ∷ [],
            ground (arith, joins, k, v),
            ((k.0, omega arith, v.2), tt),
            rw
                (
                  append-nil (range_inclusive last.start vote.end),
                  append-nil (range_inclusive last.start last.end),
                  start,
                )
                (sym together),
          )
      | inr apart ↦ (
        last ∷ vote ∷ [],
        ground (arith, apart, k, v),
        (k, (v, tt)),
        rw (append-nil (votes_of vote), append-nil (votes_of last)) refl,
      )
    ]
push_vote-all_votes id (r ∷ next ∷ rs) vote h v low =
    let (rest, pushed, by, all) = push_vote-all_votes id (next ∷ rs) vote h.1 v low in
    (
      r ∷ rest,
      rw pushed refl,
      (h.0, by),
      rw all (sym (append_assoc (votes_of r) (all_votes (next ∷ rs)) (votes_of vote))),
    )

current_votes-insert :
    (key at : Key) (ranges : List VoteRange) (votes : Votes)
    → current_votes at (insert key ranges votes)
      ≡ (if key == at then ranges else current_votes at votes)
current_votes-insert key at ranges votes = ground (arith, get-insert key at ranges votes)

-- Adding a vote range of the same voter never panics: it appends the votes of the range to those of
-- its key, whether it is compressed or not, and leaves the votes on the other keys as they are.
pub add_vote-votes_at :
    (id : ProcessId) (key : Key) (vote : VoteRange) (votes : Votes)
    → VotesBy id votes
    → RangeBy id vote
    → 1 ≤ vote.start
    → (votes' : Votes) × (add_vote key vote votes ≡ done votes')
      × VotesBy id votes'
      × ((at : Key)
          → votes_at at votes'
            ≡ (if key == at then votes_at at votes ++ votes_of vote else votes_at at votes))
unfolding add_vote
add_vote-votes_at id key vote votes h v low =
    let (ranges, pushed, by, all) =
      push_vote-all_votes id (current_votes key votes) vote (h key) v low in
    (
      insert key ranges votes,
      rw pushed refl,
      (λ at. elim (Bool-cases (key == at)) [
        | inl same ↦ rw (current_votes-insert key at ranges votes) (rw same by)
        | inr other ↦ rw (current_votes-insert key at ranges votes) (rw other (h at))
      ]),
      λ at. elim (Bool-cases (key == at)) [
        | inl same ↦
            let here : key ≡ at = (eq_iff key at).0 same in
            rw (current_votes-insert key at ranges votes)
              (rw same (all ∙ ap (λ k. votes_at k votes ++ votes_of vote) here))
        | inr other ↦ rw (current_votes-insert key at ranges votes) (rw other refl)
      ],
    )
