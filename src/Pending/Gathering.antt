-- ===== src/Pending/Gathering.antt =====
-- fantoch/src/executor/aggregate.rs: the gathering of the partial results of a command.
use fantoch.Prelude.{
  ◌+◌, ◌≤◌, ◌≡◌, refl, true, false, none, some, List, [], ◌∷◌, Outcome, done, ◌>>=◌, ◌==◌,
  u64_partial_eq, string_partial_eq, length, arith,
}
use fantoch.Prelude.Maps.{
  Map, get, insert, remove, contains_key, get-insert, get-remove, length-insert,
}
use fantoch.Identifiers.{Rifl}
use fantoch.Kvs.{Key, KvOpResult}
use fantoch.Commands.{CommandResultBuilder, add_partial, ready}
use fantoch.Pending.{AggregatePending, CommandResult, rifl_partial_eq, add_executor_result}

-- Partial results of one command, handled one after the other; the results returned, in order.
abbrev pub add_all :
    Rifl
    → List (Key × List KvOpResult)
    → AggregatePending
    → Outcome (AggregatePending × List CommandResult)
add_all rifl [] p = done (p, [])
add_all rifl ((key, results) ∷ more) p =
    add_executor_result (record { rifl = rifl; key = key; partial_results = results }) p
    >>= λ first. add_all rifl more first.0 >>= λ rest.
        done (rest.0, (elim first.1 [ none ↦ rest.1 | some result ↦ result ∷ rest.1 ]))

abbrev pub insert_all :
    List (Key × List KvOpResult) → Map Key (List KvOpResult) → Map Key (List KvOpResult)
insert_all [] m = m
insert_all ((key, results) ∷ more) m = insert_all more (insert key results m)

-- No key comes twice, nor is it in the map.
abbrev pub FreshKeys : List (Key × List KvOpResult) → Map Key (List KvOpResult) → Type 0
FreshKeys [] m = Unit
FreshKeys ((key, results) ∷ more) m =
    (contains_key key m ≡ false) × FreshKeys more (insert key results m)

waits_lem :
    (rifl : Rifl) (key : Key) (results : List KvOpResult) (b : CommandResultBuilder)
    (p : AggregatePending)
    → get rifl p.pending ≡ some b
    → contains_key key b.results ≡ false
    → (length (insert key results b.results) == b.key_count) ≡ false
    → add_executor_result (record { rifl = rifl; key = key; partial_results = results }) p
      ≡ done (
        record p {
          pending = insert rifl (record b { results = insert key results b.results }) p.pending;
        },
        none,
      )
unfolding add_executor_result add_partial ready
waits_lem rifl key results b p held fresh short = ground (arith, held, fresh, short)

completes_lem :
    (rifl : Rifl) (key : Key) (results : List KvOpResult) (b : CommandResultBuilder)
    (p : AggregatePending)
    → get rifl p.pending ≡ some b
    → contains_key key b.results ≡ false
    → (length (insert key results b.results) == b.key_count) ≡ true
    → add_executor_result (record { rifl = rifl; key = key; partial_results = results }) p
      ≡ done (
        record p { pending = remove rifl p.pending },
        some (record { rifl = b.rifl; results = insert key results b.results }),
      )
unfolding add_executor_result add_partial ready
completes_lem rifl key results b p held fresh full = ground (arith, held, fresh, full)

-- While a command is pending: when the partial results that it still waits for, at least one,
-- arrive in any order, each for a key of its own, nothing panics, the result of the command is
-- returned once, with all partial results, and the command is no longer pending.
pub add_all_complete :
    (rifl : Rifl) (more : List (Key × List KvOpResult)) (b : CommandResultBuilder)
    (p : AggregatePending)
    → get rifl p.pending ≡ some b
    → FreshKeys more b.results
    → 1 ≤ length more
    → length b.results + length more ≡ b.key_count
    → (last : AggregatePending) × (add_all rifl more p
        ≡ done (last, record { rifl = b.rifl; results = insert_all more b.results } ∷ []))
      × (get rifl last.pending ≡ none)
add_all_complete rifl [] b p held fresh some_more count = absurd (omega arith)
add_all_complete rifl ((key, results) ∷ []) b p held fresh some_more count =
    let size = length-insert key results b.results in
    let full : (length (insert key results b.results) == b.key_count) ≡ true =
      ground (arith, size, fresh.0, count) in
    (
      record p { pending = remove rifl p.pending },
      rw (completes_lem rifl key results b p held fresh.0 full) refl,
      ground (arith, get-remove rifl rifl p.pending, rifl_partial_eq.equal_iff rifl rifl),
    )
add_all_complete rifl ((key, results) ∷ next ∷ more) b p held fresh some_more count =
    let size = length-insert key results b.results in
    let b' = record b { results = insert key results b.results } in
    let short : (length b'.results == b.key_count) ≡ false = ground (arith, size, fresh.0, count) in
    let p' = record p { pending = insert rifl b' p.pending } in
    let held' : get rifl p'.pending ≡ some b' =
      ground (arith, get-insert rifl rifl b' p.pending, rifl_partial_eq.equal_iff rifl rifl) in
    let (last, returns, gone) =
      add_all_complete rifl (next ∷ more) b' p' held' fresh.1 (omega arith)
        (ground (arith, size, fresh.0, count)) in
    (last, rw (waits_lem rifl key results b p held fresh.0 short) (rw returns refl), gone)
