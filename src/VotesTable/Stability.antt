-- ===== src/VotesTable/Stability.antt =====
-- fantoch_ps/src/executor/table/mod.rs: a clock is stable once a threshold of processes has voted up
-- to it.
use fantoch.Prelude.{
  ℕ, zero, suc, ◌+◌, ◌-◌, ◌≤◌, ◌<◌, ◌≡◌, ◌↔◌, refl, ap, true, some, List, [], ◌∷◌, done,
  if◌then◌else◌, leb, if-cases, length, All, All-map, arith,
}
use fantoch.Prelude.Maps.{values}
use fantoch.VotesTable.{RangeClock, VotesTable, insert_number, sort, nth, stable_clock}

-- How many processes have voted for every clock up to this one.
unfoldable pub reaching : ℕ → List ℕ → ℕ
reaching clock [] = 0
reaching clock (frontier ∷ frontiers) =
    (if leb clock frontier then 1 else 0) + reaching clock frontiers

reaching-insert_number :
    (clock n : ℕ) (ns : List ℕ) → reaching clock (insert_number n ns) ≡ reaching clock (n ∷ ns)
unfolding reaching insert_number
reaching-insert_number clock n [] = refl
reaching-insert_number clock n (m ∷ ms) = ground (arith, reaching-insert_number clock n ms)

reaching-sort : (clock : ℕ) (ns : List ℕ) → reaching clock (sort ns) ≡ reaching clock ns
unfolding reaching sort
reaching-sort clock [] = refl
reaching-sort clock (n ∷ ns) =
    omega (arith, reaching-insert_number clock n (sort ns), reaching-sort clock ns)

length-insert_number : (n : ℕ) (ns : List ℕ) → length (insert_number n ns) ≡ suc (length ns)
unfolding insert_number
length-insert_number n [] = refl
length-insert_number n (m ∷ ms) = ground (arith, length-insert_number n ms)

length-sort : (ns : List ℕ) → length (sort ns) ≡ length ns
unfolding sort
length-sort [] = refl
length-sort (n ∷ ns) = omega (arith, length-insert_number n (sort ns), length-sort ns)

abbrev IsSorted : List ℕ → Type 0
IsSorted [] = Unit
IsSorted (n ∷ ns) = All (λ m. n ≤ m) ns × IsSorted ns

All-insert_number :
    (n m : ℕ) (ns : List ℕ) → n ≤ m → All (λ k. n ≤ k) ns → All (λ k. n ≤ k) (insert_number m ns)
unfolding insert_number
All-insert_number n m [] h a = (h, tt)
All-insert_number n m (k ∷ ks) h a =
    if-cases (All (λ k. n ≤ k)) (leb m k) (m ∷ k ∷ ks) (k ∷ insert_number m ks) (λ _. (h, a))
      (λ _. (a.0, All-insert_number n m ks h a.1))

insert_number-IsSorted : (n : ℕ) (ns : List ℕ) → IsSorted ns → IsSorted (insert_number n ns)
unfolding insert_number
insert_number-IsSorted n [] sorted = (tt, tt)
insert_number-IsSorted n (m ∷ ms) sorted =
    if-cases IsSorted (leb n m) (n ∷ m ∷ ms) (m ∷ insert_number n ms)
      (λ below.
        let le : n ≤ m = ground (arith, below) in
        ((le, All-map (λ k. m ≤ k) (λ k. n ≤ k) (λ k h. omega arith) ms sorted.0), sorted))
      (λ above. (
        All-insert_number m n ms (ground (arith, above)) sorted.0,
        insert_number-IsSorted n ms sorted.1,
      ))

sort-IsSorted : (ns : List ℕ) → IsSorted (sort ns)
unfolding sort
sort-IsSorted [] = tt
sort-IsSorted (n ∷ ns) = insert_number-IsSorted n (sort ns) (sort-IsSorted ns)

reaching-bounded : (clock : ℕ) (ns : List ℕ) → reaching clock ns ≤ length ns
unfolding reaching
reaching-bounded clock [] = omega arith
reaching-bounded clock (n ∷ ns) = ground (arith, reaching-bounded clock ns)

reaching-all :
    (clock n : ℕ) (ns : List ℕ) → clock ≤ n → All (λ m. n ≤ m) ns → reaching clock ns ≡ length ns
unfolding reaching
reaching-all clock n [] h a = refl
reaching-all clock n (m ∷ ms) h a = ground (arith, reaching-all clock n ms h a.1, a.0)

nth-All : (n i s : ℕ) (ns : List ℕ) → All (λ m. n ≤ m) ns → nth i ns ≡ some s → n ≤ s
unfolding nth
nth-All n i s [] a h = absurd (ground arith)
nth-All n zero s (m ∷ ms) a h = ground (arith, a.0, h)
nth-All n (suc i) s (m ∷ ms) a h = nth-All n i s ms a.1 h

nth-reaching :
    (clock i s : ℕ) (ns : List ℕ)
    → IsSorted ns
    → nth i ns ≡ some s
    → (clock ≤ s) ↔ (length ns ≤ i + reaching clock ns)
unfolding nth reaching
nth-reaching clock i s [] sorted h = absurd (ground arith)
nth-reaching clock zero s (m ∷ ms) sorted h =
    ground (arith, h, reaching-bounded clock ms, reaching-all clock m ms)
nth-reaching clock (suc i) s (m ∷ ms) sorted h =
    let ih = nth-reaching clock i s ms sorted.1 h in
    let above = nth-All m i s ms sorted.0 h in ground (arith, ih.0, ih.1, above)

nth-some : (i : ℕ) (ns : List ℕ) → i < length ns → (s : ℕ) × (nth i ns ≡ some s)
unfolding nth
nth-some i [] h = absurd (omega arith)
nth-some zero (m ∷ ms) h = (m, refl)
nth-some (suc i) (m ∷ ms) h = nth-some i ms (omega arith)

length-values : {A : Type 0} (m : List (A × ℕ)) → length (values m) ≡ length m
length-values [] = refl
length-values (entry ∷ m) = ap suc (length-values m)

module _ {C : Type 0} ⦃ar : RangeClock C⦄ where
  -- For a stability threshold from 1 on and at most the number of processes in the clock of votes,
  -- the stable clock is computed without a panic, and a clock is at or below it exactly when the
  -- votes of that many processes have their frontier at the clock or above.
  pub stable_clock_iff :
      (t : VotesTable C)
      → ar.size t.votes_clock ≡ length (ar.iter t.votes_clock)
      → 1 ≤ t.stability_threshold
      → t.stability_threshold ≤ ar.size t.votes_clock
      → (stable : ℕ) × (stable_clock t ≡ done stable)
        × ((clock : ℕ)
            → (clock ≤ stable)
              ↔ (t.stability_threshold ≤ reaching clock (values (ar.iter t.votes_clock))))
  unfolding stable_clock
  stable_clock_iff t sized low high =
      let ns = values (ar.iter t.votes_clock) in
      let i = ar.size t.votes_clock - t.stability_threshold in
      let long : length (sort ns) ≡ ar.size t.votes_clock =
        omega (arith, length-sort ns, length-values (ar.iter t.votes_clock), sized) in
      let (stable, found) = nth-some i (sort ns) (omega (arith, long)) in
      let fits : leb t.stability_threshold (ar.size t.votes_clock) ≡ true = ground (arith, high) in
      (
        stable,
        ground (arith, fits, found),
        λ clock.
            (let iff = nth-reaching clock i stable (sort ns) (sort-IsSorted ns) found in
              let same = reaching-sort clock ns in
              (
                λ le. omega (arith, iff.0 le, same, long),
                λ many. iff.1 (omega (arith, many, same, long)),
              )),
      )
