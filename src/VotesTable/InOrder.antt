-- ===== src/VotesTable/InOrder.antt =====
-- A clock of votes for the tests, in place of the external one: votes come in order.
use fantoch.Prelude.{
  ℕ, suc, ◌+◌, ◌≡◌, refl, Bool, true, List, [], ◌∷◌, map, if◌then◌else◌, if-cases, leb, ◌==◌,
  u64_partial_eq, length, max, arith,
}
use fantoch.Identifiers.{ProcessId}
use fantoch.VotesTable.{RangeClock}
use fantoch.VotesTable.Order.{Grows, ClockLaws}

abbrev pub Frontiers : Type 0
Frontiers = List (ProcessId × ℕ)

-- A range that starts after the frontier leaves a gap, and is dropped here.
abbrev pub raised : (start end frontier : ℕ) → ℕ
raised start end frontier = if leb start (frontier + 1) then max frontier end else frontier

unfoldable pub add_range : ProcessId → (start end : ℕ) → Frontiers → Frontiers × Bool
add_range p start end [] = ((p, raised start end 0) ∷ [], true)
add_range p start end (entry ∷ entries) =
    let (rest, new) = add_range p start end entries in
    if entry.0 == p
    then ((entry.0, raised start end entry.1) ∷ entries, leb (entry.1 + 1) end)
    else (entry ∷ rest, new)

abbrev pub in_order : RangeClock Frontiers
in_order = record {
  with_ids = map (λ p. (p, 0));
  add_range = add_range;
  size = length;
  iter = λ entries. entries;
}

Grows-refl : (entries : Frontiers) → Grows entries entries
Grows-refl [] = tt
Grows-refl ((p, f) ∷ entries) = (refl, omega arith, Grows-refl entries)

add_range-Grows :
    (p : ProcessId) (start end : ℕ) (entries : Frontiers)
    → length (add_range p start end entries).0 ≡ length entries
    → Grows entries (add_range p start end entries).0
unfolding add_range
add_range-Grows p start end [] same = absurd (omega (arith, same))
add_range-Grows p start end ((q, f) ∷ entries) same =
    if-cases
      (λ (r : Frontiers × Bool). length r.0 ≡ suc (length entries) → Grows ((q, f) ∷ entries) r.0)
      (q == p) _ _ (λ _ _. (refl, ground arith, Grows-refl entries))
      (λ _ longer. (refl, omega arith, add_range-Grows p start end entries (omega (arith, longer))))
      same

pub laws : ClockLaws in_order
laws = record { size-iter = λ c. refl; add_range-Grows = add_range-Grows }
