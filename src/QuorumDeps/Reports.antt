-- ===== src/QuorumDeps/Reports.antt =====
-- fantoch_ps/src/protocol/common/graph/deps/quorum.rs: how often a dependency is reported.
use fantoch.Prelude.{
  u64_partial_eq, ℕ, ◌+◌, ◌≤◌, ◌<◌, ◌≡◌, ◌↔◌, refl, ap, subst, true, false, List, [], ◌∷◌,
  PartialEq, ◌==◌, if◌then◌else◌, Bool-cases, inl, inr, length, add64, add64_lem, word, All, arith,
}
use fantoch.Prelude.Maps.{
  Map, get, insert, DistinctKeys, insert-DistinctKeys, contains_key, get-insert,
  contains_key-insert,
}
use fantoch.Prelude.Sets.{contains, add, contains-add, length-add, IsDistinct}
use fantoch.Identifiers.{ProcessId}
use fantoch.QuorumDeps.{
  QuorumDeps, new, reported, count_deps, add_deps, meet_threshold, check_threshold,
}

module _ {D : Type 0} ⦃eq : PartialEq D⦄ where
  abbrev pub add_all : List (ProcessId × List D) → QuorumDeps D → QuorumDeps D
  add_all [] q = q
  add_all ((process_id, deps) ∷ reports) q = add_all reports (add_deps process_id deps q)

  -- How many reports have a dependency.
  abbrev pub occurrences : D → List (ProcessId × List D) → ℕ
  occurrences dep [] = 0
  occurrences dep ((process_id, deps) ∷ reports) =
      (if contains dep deps then 1 else 0) + occurrences dep reports

  abbrev pub AreSets : List (ProcessId × List D) → Type 0
  AreSets reports = All (λ r. IsDistinct r.1) reports

  reported-insert :
      (dep at : D) (count : ℕ) (counts : Map D ℕ)
      → reported at (insert dep count counts) ≡ (if dep == at then count else reported at counts)
  reported-insert dep at count counts = ground (arith, get-insert dep at count counts)

  reported-one :
      (dep at : D) (counts : Map D ℕ)
      → reported dep counts + 1 < word
      → reported at (insert dep (add64 (reported dep counts) 1) counts)
        ≡ reported at counts + (if dep == at then 1 else 0)
  reported-one dep at counts h =
      let added = add64_lem (reported dep counts) 1 h in
      let inserted = reported-insert dep at (add64 (reported dep counts) 1) counts in
      elim (Bool-cases (dep == at)) [
        | inl same ↦
            let here = ap (λ d. reported d counts) ((eq.equal_iff dep at).0 same) in
            ground (arith, inserted, same, added, here)
        | inr other ↦ ground (arith, inserted, other)
      ]

  reported-count_deps :
      (deps : List D) (counts : Map D ℕ) (at : D)
      → IsDistinct deps
      → ((dep : D) → reported dep counts + length deps < word)
      → reported at (count_deps deps counts)
        ≡ reported at counts + (if contains at deps then 1 else 0)
  unfolding count_deps contains
  reported-count_deps [] counts at d h = omega arith
  reported-count_deps (dep ∷ deps) counts at d h =
      let counts' = insert dep (add64 (reported dep counts) 1) counts in
      let one = reported-one dep at counts (omega (arith, h dep)) in
      let more =
        reported-count_deps deps counts' at d.1
          (λ next. ground (arith, reported-one dep next counts (omega (arith, h dep)), h next)) in
      elim (Bool-cases (dep == at)) [
        | inl same ↦
            let here : dep ≡ at = (eq.equal_iff dep at).0 same in
            let once : contains at deps ≡ false = subst (λ d. contains d deps ≡ false) here d.0 in
            ground (arith, one, more, same, once)
        | inr other ↦ ground (arith, one, more, other)
      ]

  abbrev pub total : List (ProcessId × List D) → ℕ
  total [] = 0
  total ((process_id, deps) ∷ reports) = length deps + total reports

  contains-length : (dep : D) (deps : List D) → (if contains dep deps then 1 else 0) ≤ length deps
  unfolding contains
  contains-length dep [] = omega arith
  contains-length dep (d ∷ deps) = ground (arith)

  reported-add_all :
      (reports : List (ProcessId × List D)) (q : QuorumDeps D) (at : D)
      → AreSets reports
      → ((dep : D) → reported dep q.threshold_deps + total reports < word)
      → reported at (add_all reports q).threshold_deps
        ≡ reported at q.threshold_deps + occurrences at reports
  unfolding add_deps
  reported-add_all [] q at d h = omega arith
  reported-add_all ((process_id, deps) ∷ reports) q at d h =
      let first = λ (next : D).
        reported-count_deps deps q.threshold_deps next d.0 (λ dep. omega (arith, h dep)) in
      let rest =
        reported-add_all reports (add_deps process_id deps q) at d.1
          (λ dep. omega (arith, first dep, h dep, contains-length dep deps)) in
      omega (arith, first at, rest)

  -- No key twice, and no count of zero.
  abbrev Proper : Map D ℕ → Type 0
  Proper counts =
      DistinctKeys counts × ((dep : D) → contains_key dep counts ≡ true → 1 ≤ reported dep counts)

  count_deps-Proper :
      (deps : List D) (counts : Map D ℕ)
      → ((dep : D) → reported dep counts + length deps < word)
      → Proper counts
      → Proper (count_deps deps counts)
  unfolding count_deps
  count_deps-Proper [] counts h p = p
  count_deps-Proper (dep ∷ deps) counts h p =
      let counts' = insert dep (add64 (reported dep counts) 1) counts in
      count_deps-Proper deps counts'
        (λ next. ground (arith, reported-one dep next counts (omega (arith, h dep)), h next))
        (
          insert-DistinctKeys dep _ counts p.0,
          λ at there. ground (
            arith,
            reported-one dep at counts (omega (arith, h dep)),
            there,
            contains_key-insert dep at (add64 (reported dep counts) 1) counts,
            p.1 at,
          ),
        )

  add_all-Proper :
      (reports : List (ProcessId × List D)) (q : QuorumDeps D)
      → AreSets reports
      → ((dep : D) → reported dep q.threshold_deps + total reports < word)
      → Proper q.threshold_deps
      → Proper (add_all reports q).threshold_deps
  unfolding add_deps
  add_all-Proper [] q d h p = p
  add_all-Proper ((process_id, deps) ∷ reports) q d h p =
      add_all-Proper reports (add_deps process_id deps q) d.1
        (λ dep. omega (
          arith,
          reported-count_deps deps q.threshold_deps dep d.0 (λ other. omega (arith, h other)),
          h dep,
          contains-length dep deps,
        ))
        (count_deps-Proper deps q.threshold_deps (λ dep. omega (arith, h dep)) p)

  meet_threshold_sound :
      (threshold : ℕ) (counts : Map D ℕ) (dep : D)
      → meet_threshold threshold counts ≡ true
      → contains_key dep counts ≡ true
      → threshold ≤ reported dep counts
  unfolding meet_threshold contains_key get
  meet_threshold_sound threshold [] dep met there = absurd (ground arith)
  meet_threshold_sound threshold ((other, count) ∷ counts) dep met there =
      ground (arith, met, there, meet_threshold_sound threshold counts dep)

  reported-tail :
      (first at : D) (count : ℕ) (counts : Map D ℕ)
      → contains_key first counts ≡ false
      → contains_key at counts ≡ true
      → (contains_key at ((first, count) ∷ counts) ≡ true)
        × (reported at ((first, count) ∷ counts) ≡ reported at counts)
  unfolding contains_key get
  reported-tail first at count counts absent there = elim (Bool-cases (first == at)) [
    | inl same ↦
        let here : first ≡ at = (eq.equal_iff first at).0 same in
        let gone : contains_key at counts ≡ false =
          subst (λ d. contains_key d counts ≡ false) here absent in
        absurd (ground (arith, gone, there))
    | inr other ↦ (ground (arith, other, there), ground (arith, other))
  ]

  first_count :
      (first : D) (count : ℕ) (counts : Map D ℕ) (threshold : ℕ)
      → (first == first) ≡ true
      → (contains_key first ((first, count) ∷ counts) ≡ true
          → threshold ≤ reported first ((first, count) ∷ counts))
      → threshold ≤ count
  unfolding contains_key get
  first_count first count counts threshold same h = ground (arith, same, h)

  reported_contains :
      (dep : D) (counts : Map D ℕ) → 1 ≤ reported dep counts → contains_key dep counts ≡ true
  unfolding contains_key get
  reported_contains dep [] h = absurd (omega arith)
  reported_contains dep ((other, count) ∷ counts) h =
      ground (arith, h, reported_contains dep counts)

  meet_threshold_complete :
      (threshold : ℕ) (counts : Map D ℕ)
      → DistinctKeys counts
      → ((dep : D) → contains_key dep counts ≡ true → threshold ≤ reported dep counts)
      → meet_threshold threshold counts ≡ true
  unfolding meet_threshold
  meet_threshold_complete threshold [] d h = refl
  meet_threshold_complete threshold ((first, count) ∷ counts) d h =
      let same : (first == first) ≡ true = (eq.equal_iff first first).1 refl in
      let low : threshold ≤ count = first_count first count counts threshold same (h first) in
      let rest = meet_threshold_complete threshold counts d.1 (λ dep there.
        let (held, tail) = reported-tail first dep count counts d.0 there in
        omega (arith, tail, h dep held)) in
      ground (arith, low, rest)

  -- The threshold and the numbers of reports.
  check_threshold-occurrences :
      (fast_quorum_size threshold : ℕ) (reports : List (ProcessId × List D))
      → AreSets reports
      → total reports < word
      → ((check_threshold threshold (add_all reports (new fast_quorum_size))).1 ≡ true)
        ↔ ((dep : D) → 1 ≤ occurrences dep reports → threshold ≤ occurrences dep reports)
  unfolding check_threshold new get contains_key
  check_threshold-occurrences fast_quorum_size threshold reports d small =
      let q = add_all reports (new fast_quorum_size) in
      let counted =
        λ (dep : D). reported-add_all reports (new fast_quorum_size) dep d (λ dep'. omega arith) in
      let proper =
        add_all-Proper reports (new fast_quorum_size) d (λ dep'. omega arith)
          (tt, λ dep there. absurd (ground arith)) in
      (
        (λ met dep some_report. omega (
          arith,
          counted dep,
          meet_threshold_sound threshold q.threshold_deps dep met
              (reported_contains dep q.threshold_deps (omega (arith, counted dep))),
        )),
        λ each. meet_threshold_complete threshold q.threshold_deps proper.0 (λ dep there.
            omega (arith, counted dep, each dep (omega (arith, counted dep, proper.1 dep there)))),
      )

  -- The processes that report a dependency, each once.
  abbrev pub reporters : D → List (ProcessId × List D) → List ProcessId
  reporters dep [] = []
  reporters dep ((process_id, deps) ∷ reports) =
      if contains dep deps then add process_id (reporters dep reports) else reporters dep reports

  abbrev pub processes : List (ProcessId × List D) → List ProcessId
  processes [] = []
  processes ((process_id, deps) ∷ reports) = process_id ∷ processes reports

  contains-reporters :
      (dep : D) (p : ProcessId) (reports : List (ProcessId × List D))
      → contains p (processes reports) ≡ false
      → contains p (reporters dep reports) ≡ false
  unfolding contains
  contains-reporters dep p [] absent = refl
  contains-reporters dep p ((q, deps) ∷ reports) absent =
      ground
        (arith, absent, contains-add q p (reporters dep reports), contains-reporters dep p reports)

  length-reporters :
      (dep : D) (reports : List (ProcessId × List D))
      → IsDistinct (processes reports)
      → length (reporters dep reports) ≡ occurrences dep reports
  length-reporters dep [] d = refl
  length-reporters dep ((p, deps) ∷ reports) d = ground (
    arith,
    length-add p (reporters dep reports),
    contains-reporters dep p reports d.0,
    length-reporters dep reports d.1,
  )

  -- When each process reports once, a threshold is met for the union of the reported dependencies
  -- exactly when each dependency that some process reported was reported by that many processes,
  -- where no report repeats a dependency and the number of all reported dependencies fits in a u64.
  pub check_threshold_iff :
      (fast_quorum_size threshold : ℕ) (reports : List (ProcessId × List D))
      → IsDistinct (processes reports)
      → AreSets reports
      → total reports < word
      → ((check_threshold threshold (add_all reports (new fast_quorum_size))).1 ≡ true) ↔ (
          (dep : D)
          → 1 ≤ length (reporters dep reports)
          → threshold ≤ length (reporters dep reports))
  check_threshold_iff fast_quorum_size threshold reports once sets small =
      let iff = check_threshold-occurrences fast_quorum_size threshold reports sets small in
      (
        (λ met dep some_process.
            let same = length-reporters dep reports once in
            omega (arith, same, iff.0 met dep (omega (arith, same, some_process)))),
        λ each. iff.1 (λ dep some_report.
            let same = length-reporters dep reports once in
            omega (arith, same, each dep (omega (arith, same, some_report)))),
      )
