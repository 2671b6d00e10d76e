-- ===== src/QuorumClocks/Tests.antt =====
-- The theorem on quorum clocks at concrete reports.
use fantoch.Prelude.{ℕ, ◌≡◌, List, [], ◌∷◌, u64_partial_eq, length, arith}
use fantoch.QuorumClocks.{new, all_clocks}
use fantoch.QuorumClocks.Maximum.{add_all, maximum, occurrences, reporters, add_all-new}

abbrev reports : List (ℕ × ℕ)
reports = (1, 10) ∷ (2, 12) ∷ (3, 12) ∷ []

add_all-new_example :
    ((add_all reports (new 3)).max_clock ≡ maximum reports)
    × ((add_all reports (new 3)).max_clock_count ≡ occurrences (maximum reports) reports)
    × (all_clocks (add_all reports (new 3))
        ≡ u64_partial_eq.equal (length (reporters reports [])) 3)
add_all-new_example = add_all-new 3 reports (omega arith)
