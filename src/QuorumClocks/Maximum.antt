-- ===== src/QuorumClocks/Maximum.antt =====
-- fantoch_ps/src/protocol/common/table/clocks/quorum.rs: the maximum of the reported clocks, and
-- how often it was reported.
use fantoch.Prelude.{
  ℕ, max, ◌+◌, ◌≤◌, ◌<◌, ◌≡◌, refl, ap, ◌∙◌, List, [], ◌∷◌, ◌==◌, u64_partial_eq, if◌then◌else◌,
  ltb, Bool-cases, inl, inr, length, add64_lem, word, arith,
}
use fantoch.Prelude.Sets.{add}
use fantoch.Identifiers.{ProcessId}
use fantoch.QuorumClocks.{QuorumClocks, new, add_clock, all_clocks}

abbrev pub add_all : List (ProcessId × ℕ) → QuorumClocks → QuorumClocks
add_all [] q = q
add_all ((process_id, clock) ∷ reports) q = add_all reports (add_clock process_id clock q).0

abbrev pub maximum : List (ProcessId × ℕ) → ℕ
maximum [] = 0
maximum ((process_id, clock) ∷ reports) = max clock (maximum reports)

-- How many processes report a clock.
abbrev pub occurrences : ℕ → List (ProcessId × ℕ) → ℕ
occurrences at [] = 0
occurrences at ((process_id, clock) ∷ reports) =
    (if clock == at then 1 else 0) + occurrences at reports

-- The processes that report, each once.
abbrev pub reporters : List (ProcessId × ℕ) → List ProcessId → List ProcessId
reporters [] processes = processes
reporters ((process_id, clock) ∷ reports) processes = reporters reports (add process_id processes)

-- How the count goes on from an earlier maximum.
Counted : List (ProcessId × ℕ) → (q q' : QuorumClocks) → Type 0
Counted reports q q' =
    (q'.max_clock ≡ max q.max_clock (maximum reports))
    × (q'.max_clock_count
        ≡ (if q.max_clock == q'.max_clock then q.max_clock_count else 0)
          + occurrences q'.max_clock reports)
    × (q'.participants ≡ reporters reports q.participants)
    × (q'.fast_quorum_size ≡ q.fast_quorum_size)

add_clock-Counted :
    (process_id : ProcessId) (clock : ℕ) (q : QuorumClocks)
    → q.max_clock_count + 1 < word
    → Counted ((process_id, clock) ∷ []) q (add_clock process_id clock q).0
unfolding Counted add_clock
add_clock-Counted process_id clock q h =
    let added = add64_lem q.max_clock_count 1 h in
    elim (Bool-cases (ltb q.max_clock clock)) [
      | inl higher ↦ rw higher (ground (arith, higher), ground (arith, higher), refl, refl)
      | inr not_higher ↦ elim (Bool-cases (q.max_clock == clock)) [
        | inl same ↦
            rw (not_higher, same) (ground (arith, same), ground (arith, same, added), refl, refl)
        | inr lower ↦
            rw (not_higher, lower)
              (ground (arith, not_higher), ground (arith, not_higher, lower), refl, refl)
      ]
    ]

-- The count over all reports, from that over the first one and that over the others.
count_lem :
    (m clock m' top k k' rest : ℕ)
    → m' ≡ max m clock
    → m' ≤ top
    → k' ≡ (if m == m' then k else 0) + (if clock == m' then 1 else 0)
    → (if m' == top then k' else 0) + rest
      ≡ (if m == top then k else 0) + ((if clock == top then 1 else 0) + rest)
count_lem m clock m' top k k' rest e h count = ground arith

add_all-Counted :
    (reports : List (ProcessId × ℕ)) (q : QuorumClocks)
    → q.max_clock_count + length reports < word
    → 1 + length reports < word
    → Counted reports q (add_all reports q)
unfolding Counted
add_all-Counted [] q h k = (omega arith, ground arith, refl, refl)
add_all-Counted ((process_id, clock) ∷ reports) q h k =
    let q' = (add_clock process_id clock q).0 in
    let last = add_all reports q' in
    let (top, count, processes, size) = add_clock-Counted process_id clock q (omega arith) in
    let small : q'.max_clock_count + length reports < word = ground (arith, count, h, k) in
    let (top', count', processes', size') = add_all-Counted reports q' small (omega arith) in
    (
      omega (arith, top, top'),
      omega (
        arith,
        count',
        count_lem q.max_clock clock q'.max_clock last.max_clock q.max_clock_count q'.max_clock_count
            (occurrences last.max_clock reports) (omega (arith, top)) (omega (arith, top'))
            (omega (arith, count)),
      ),
      processes' ∙ ap (reporters reports) processes,
      size' ∙ size,
    )

-- From a new state, while the number of reports stays in a u64: after reports of any clocks, in
-- any order, the maximum clock is the greatest one reported, the count is the number of reports of
-- exactly that clock, and the fast quorum is complete when as many distinct processes reported as
-- it has members.
pub add_all-new :
    (fast_quorum_size : ℕ) (reports : List (ProcessId × ℕ))
    → 1 + length reports < word
    → ((add_all reports (new fast_quorum_size)).max_clock ≡ maximum reports)
      × ((add_all reports (new fast_quorum_size)).max_clock_count
          ≡ occurrences (maximum reports) reports)
      × (all_clocks (add_all reports (new fast_quorum_size))
          ≡ (length (reporters reports []) == fast_quorum_size))
unfolding new all_clocks Counted
add_all-new fast_quorum_size reports h =
    let (top, count, processes, size) =
      add_all-Counted reports (new fast_quorum_size) (omega arith) h in
    (omega (arith, top), ground (arith, top, count), rw (processes, size) refl)
