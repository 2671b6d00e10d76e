-- ===== src/QuorumDeps/Tests.antt =====
-- The theorem on quorum dependencies at concrete reports.
use fantoch.Prelude.{ℕ, ◌≤◌, ◌≡◌, ◌↔◌, refl, true, List, [], ◌∷◌, length, u64_partial_eq, arith}
use fantoch.Prelude.Sets.{contains}
use fantoch.QuorumDeps.{new, check_threshold}
use fantoch.QuorumDeps.Reports.{add_all, reporters, check_threshold_iff}

-- The dependency 10 is reported by all three processes, and 20 by one of them.
abbrev reports : List (ℕ × List ℕ)
reports = (1, 10 ∷ []) ∷ (2, 10 ∷ 20 ∷ []) ∷ (3, 10 ∷ []) ∷ []

check_threshold_example :
    ((check_threshold 2 (add_all reports (new 3))).1 ≡ true)
    ↔ ((dep : ℕ) → 1 ≤ length (reporters dep reports) → 2 ≤ length (reporters dep reports))
unfolding contains
check_threshold_example =
    check_threshold_iff 3 2 reports (refl, (refl, (refl, tt)))
      ((refl, tt), ((refl, (refl, tt)), ((refl, tt), tt))) (omega arith)
