-- ===== src/VotesTable/Order.antt =====
-- fantoch_ps/src/executor/table/mod.rs: the commands on a key become stable in the order of their
-- clocks and dots.
use fantoch.Prelude.{
  ℕ, ◌+◌, ◌-◌, ◌≤◌, ◌<◌, ◌≡◌, ◌↔◌, refl, ap, sym, ◌∙◌, subst, Bool, true, false, List, [], ◌∷◌,
  ◌++◌, Outcome, done, panic, ◌>>=◌, ◌>>◌, if◌then◌else◌, length, All, All-map, All-append, add64,
  add64_lem, word, arith, u64_partial_eq,
}
use fantoch.Prelude.Maps.{values}
use fantoch.Identifiers.{Dot, ProcessId, ShardId, process_ids}
use fantoch.Kvs.{Key}
use fantoch.Votes.{VoteRange}
use fantoch.VotesTable.{
  RangeClock, SortId, before, Pending, Ops, insert_op, contains_op, split_off, VotesTable,
  new_table, add_ranges, add_detached_votes, add_attached_votes, stable_clock, stable_ops,
}
use fantoch.VotesTable.Stability.{reaching, stable_clock_iff}
use fantoch.VotesTable.Sorting.{
  IsSorted, All-insert_op, IsSorted-append, insert_op-IsSorted, insert_op-append,
  contains_op-append, split_off-IsCut,
}

pub data Event : Type 0 where
  attached : Dot → ℕ → Pending → List VoteRange → Event
  detached : List VoteRange → Event

-- The same processes, and no frontier is lower.
abbrev pub Grows : List (ProcessId × ℕ) → List (ProcessId × ℕ) → Type 0
Grows [] [] = Unit
Grows [] (entry ∷ now) = ⊥
Grows (entry ∷ old) [] = ⊥
Grows ((p, f) ∷ old) ((q, g) ∷ now) = (p ≡ q) × (f ≤ g) × Grows old now

reaching-Grows :
    (clock : ℕ) (old now : List (ProcessId × ℕ))
    → Grows old now
    → reaching clock (values old) ≤ reaching clock (values now)
unfolding reaching
reaching-Grows clock [] [] g = omega arith
reaching-Grows clock [] (entry ∷ now) g = absurd g
reaching-Grows clock (entry ∷ old) [] g = absurd g
reaching-Grows clock ((p, f) ∷ old) ((q, h) ∷ now) g =
    ground (arith, g.1, reaching-Grows clock old now g.2)

reaching-antitone : (low high : ℕ) (ns : List ℕ) → low ≤ high → reaching high ns ≤ reaching low ns
unfolding reaching
reaching-antitone low high [] h = omega arith
reaching-antitone low high (n ∷ ns) h = ground (arith, h, reaching-antitone low high ns h)

abbrev pub id_of : Dot → ℕ → SortId
id_of dot clock = record { clock = clock; dot = dot }

-- What was attached, in the order of the clocks and dots.
unfoldable pub attached_ops : List Event → Ops → Ops
unfolding insert_op
attached_ops [] all = all
attached_ops (attached dot clock pending votes ∷ events) all =
    attached_ops events (insert_op (id_of dot clock) pending all)
attached_ops (detached votes ∷ events) all = attached_ops events all

-- What the `threshold` crate documents: a clock has as many members as it lists, and adding a range
-- to a member only adds votes.
pub record ClockLaws {C : Type 0} (ar : RangeClock C) : Type 0 where
  pub size-iter : (c : C) → ar.size c ≡ length (ar.iter c)
  pub add_range-Grows :
      (p : ProcessId) (start end : ℕ) (c : C)
      → ar.size (ar.add_range p start end c).0 ≡ ar.size c
      → Grows (ar.iter c) (ar.iter (ar.add_range p start end c).0)

module _ {C : Type 0} ⦃ar : RangeClock C⦄ where
  unfoldable pub add_event : Event → VotesTable C → Outcome (VotesTable C)
  unfolding add_attached_votes add_detached_votes
  add_event (attached dot clock pending votes) t = add_attached_votes dot clock pending votes t
  add_event (detached votes) t = add_detached_votes votes t

  -- What `MultiVotesTable` does on a key, with all that was returned.
  unfoldable pub run_events : List Event → VotesTable C → Outcome (VotesTable C × List Pending)
  unfolding add_event stable_ops
  run_events [] t = done (t, [])
  run_events (event ∷ events) t = (add_event event t >>= stable_ops) >>= λ first.
      run_events events first.0 >>= λ rest. done (rest.0, first.1 ++ rest.1)

  unfoldable pub voted : List VoteRange → C → C
  voted [] c = c
  voted (vote ∷ votes) c = voted votes (ar.add_range vote.by vote.start vote.end c).0

  -- Each range has a new vote, of one of the `n` processes.
  abbrev pub AreNew : ℕ → List VoteRange → C → Type 0
  AreNew n [] c = Unit
  AreNew n (vote ∷ votes) c =
      let added = ar.add_range vote.by vote.start vote.end c in
      (added.1 ≡ true) × (ar.size added.0 ≡ n) × AreNew n votes added.0

  abbrev pub votes_for : ℕ → C → ℕ
  votes_for clock c = reaching clock (values (ar.iter c))

  -- The events that a table can be given: new votes, which leave the last clock of a `u64` unstable,
  -- and commands that differ in clock or dot, each at a clock that is not stable yet.
  abbrev pub IsFeed : (n threshold : ℕ) → Ops → C → List Event → Type 0
  IsFeed n threshold all c [] = Unit
  IsFeed n threshold all c (attached dot clock pending votes ∷ events) =
      (contains_op (id_of dot clock) all ≡ false)
      × (1 ≤ dot.source)
      × (1 ≤ dot.sequence)
      × (votes_for clock c < threshold)
      × AreNew n votes c
      × (votes_for (word - 1) (voted votes c) < threshold)
      × IsFeed n threshold (insert_op (id_of dot clock) pending all) (voted votes c) events
  IsFeed n threshold all c (detached votes ∷ events) =
      AreNew n votes c
      × (votes_for (word - 1) (voted votes c) < threshold)
      × IsFeed n threshold all (voted votes c) events

  add_ranges-AreNew :
      (n : ℕ) (votes : List VoteRange) (c : C)
      → AreNew n votes c
      → add_ranges n votes c ≡ done (voted votes c)
  unfolding add_ranges voted
  add_ranges-AreNew n [] c h = refl
  add_ranges-AreNew n (vote ∷ votes) c h = ground (
    arith,
    h.0,
    h.1,
    add_ranges-AreNew n votes (ar.add_range vote.by vote.start vote.end c).0 h.2,
  )

  voted_lem :
      (laws : ClockLaws ar) (n : ℕ) (votes : List VoteRange) (c : C)
      → ar.size c ≡ n
      → AreNew n votes c
      → (ar.size (voted votes c) ≡ n)
        × ((clock : ℕ) → votes_for clock c ≤ votes_for clock (voted votes c))
  unfolding voted
  voted_lem laws n [] c s h = (s, λ clock. omega arith)
  voted_lem laws n (vote ∷ votes) c s h =
      let added = (ar.add_range vote.by vote.start vote.end c).0 in
      let grows = laws.add_range-Grows vote.by vote.start vote.end c (h.1 ∙ sym s) in
      let (size, more) = voted_lem laws n votes added h.1 h.2 in
      (
        size,
        λ clock. omega (arith, reaching-Grows clock (ar.iter c) (ar.iter added) grows, more clock),
      )

abbrev next_to : ℕ → SortId
next_to stable = record { clock = stable + 1; dot = record { source = 1; sequence = 1 } }

-- Identifiers of dots start at 1.
abbrev HasDot : SortId × Pending → Type 0
HasDot op = (1 ≤ op.0.dot.source) × (1 ≤ op.0.dot.sequence)

before-next :
    (stable : ℕ) (ops : Ops)
    → All HasDot ops
    → All (λ (op : SortId × Pending). before op.0 (next_to stable) ≡ true) ops
    → All (λ (op : SortId × Pending). op.0.clock ≤ stable) ops
unfolding before
before-next stable [] d a = tt
before-next stable (op ∷ ops) d a =
    (ground (arith, d.0.0, d.0.1, a.0), before-next stable ops d.1 a.1)

not_before-next :
    (stable : ℕ) (op : SortId × Pending)
    → before op.0 (next_to stable) ≡ false
    → stable < op.0.clock
unfolding before
not_before-next stable op h = ground (arith, h)

All-right : (P : SortId × Pending → Type 0) (front ops : Ops) → All P (front ++ ops) → All P ops
All-right P [] ops a = a
All-right P (op ∷ front) ops a = All-right P front ops a.1

All-left : (P : SortId × Pending → Type 0) (front ops : Ops) → All P (front ++ ops) → All P front
All-left P [] ops a = tt
All-left P (op ∷ front) ops a = (a.0, All-left P front ops a.1)

append_assoc : (a b c : Ops) → (a ++ b) ++ c ≡ a ++ (b ++ c)
append_assoc [] b c = refl
append_assoc (op ∷ a) b c = ap (λ (rest : Ops). op ∷ rest) (append_assoc a b c)

append-nil : (a : Ops) → a ++ [] ≡ a
append-nil [] = refl
append-nil (op ∷ a) = ap (λ (rest : Ops). op ∷ rest) (append-nil a)

pub values-append : (a b : Ops) → values (a ++ b) ≡ values a ++ values b
values-append [] b = refl
values-append (op ∷ a) b = ap (λ (rest : List Pending). op.1 ∷ rest) (values-append a b)

module _ {C : Type 0} ⦃ar : RangeClock C⦄ where
  abbrev pub IsStable : ℕ → C → SortId × Pending → Type 0
  IsStable threshold c op = threshold ≤ votes_for op.0.clock c

  abbrev pub IsWaiting : ℕ → C → SortId × Pending → Type 0
  IsWaiting threshold c op = votes_for op.0.clock c < threshold

  -- A table that was given `all` and has returned `front`, before and after its stable commands are
  -- taken out.
  record IsFilled (n threshold : ℕ) (all front : Ops) (t : VotesTable C) : Type 0 where
    members : t.n ≡ n
    size : ar.size t.votes_clock ≡ n
    needed : t.stability_threshold ≡ threshold
    parts : front ++ t.ops ≡ all
    sorted : IsSorted all
    dots : All HasDot all
    returned : All (IsStable threshold t.votes_clock) front

  record IsSettled (n threshold : ℕ) (all front : Ops) (t : VotesTable C) : Type 0 where
    filled : IsFilled n threshold all front t
    waiting : All (IsWaiting threshold t.votes_clock) t.ops

  stable_ops-split_off :
      (t : VotesTable C) (stable : ℕ)
      → stable_clock t ≡ done stable
      → stable + 1 < word
      → stable_ops t
        ≡ done (
          record t { ops = (split_off (next_to stable) t.ops).1 },
          values (split_off (next_to stable) t.ops).0,
        )
  unfolding stable_ops
  stable_ops-split_off t stable computed fits =
      let parts_at = λ (clock : ℕ).
        split_off (record { clock = clock; dot = record { source = 1; sequence = 1 } }) t.ops in
      let result_at : ℕ → VotesTable C × List Pending =
        λ clock. (record t { ops = (parts_at clock).1 }, values (parts_at clock).0) in
      ap (λ (m : Outcome ℕ). m >>= λ s. done (result_at (add64 s 1))) computed
      ∙ ap (λ (clock : ℕ). done (result_at clock)) (add64_lem stable 1 fits)

  settle :
      (n threshold : ℕ) (all front : Ops) (t : VotesTable C) (stable : ℕ)
      → ((clock : ℕ) → (clock ≤ stable) ↔ (threshold ≤ votes_for clock t.votes_clock))
      → IsFilled n threshold all front t
      → IsSettled n threshold all
          (front ++ (split_off (next_to stable) t.ops).0)
          (record t { ops = (split_off (next_to stable) t.ops).1 })
  settle n threshold all front t stable iff filled =
      let low = (split_off (next_to stable) t.ops).0 in
      let high = (split_off (next_to stable) t.ops).1 in
      let back = IsSorted-append front t.ops (subst IsSorted (sym filled.parts) filled.sorted) in
      let dots = All-right HasDot front t.ops (subst (All HasDot) (sym filled.parts) filled.dots) in
      let (joined, lower, higher) = split_off-IsCut (next_to stable) t.ops back in
      let low_dots = All-left HasDot low high (subst (All HasDot) (sym joined) dots) in
      let now =
        All-map (λ (op : SortId × Pending). op.0.clock ≤ stable) (IsStable threshold t.votes_clock)
          (λ op. (iff op.0.clock).0) low (before-next stable low low_dots lower) in
      record {
        filled = record {
          members = filled.members;
          size = filled.size;
          needed = filled.needed;
          parts =
              append_assoc front low high
              ∙ ap (λ (rest : Ops). front ++ rest) joined
              ∙ filled.parts;
          sorted = filled.sorted;
          dots = filled.dots;
          returned = All-append (IsStable threshold t.votes_clock) front low filled.returned now;
        };
        waiting =
            All-map (λ (op : SortId × Pending). before op.0 (next_to stable) ≡ false)
              (IsWaiting threshold t.votes_clock)
              (λ op h.
                let later = not_before-next stable op h in
                ground (arith, later, (iff op.0.clock).1))
              high higher;
      }

  stable_ops-IsSettled :
      (laws : ClockLaws ar) (n threshold : ℕ) (all front : Ops) (t : VotesTable C)
      → 1 ≤ threshold
      → threshold ≤ n
      → votes_for (word - 1) t.votes_clock < threshold
      → IsFilled n threshold all front t
      → (low : Ops) × (high : Ops) × (stable_ops t ≡ done (record t { ops = high }, values low))
        × IsSettled n threshold all (front ++ low) (record t { ops = high })
  stable_ops-IsSettled laws n threshold all front t least most bound filled =
      let (stable, computed, iff) =
        stable_clock_iff t (laws.size-iter t.votes_clock) (omega (arith, filled.needed))
          (omega (arith, filled.needed, filled.size)) in
      let last = (iff (word - 1)).0 in
      let fits : stable + 1 < word = ground (arith, last, bound, filled.needed) in
      (
        _,
        _,
        stable_ops-split_off t stable computed fits,
        settle n threshold all front t stable
            (subst (λ k. (clock : ℕ) → (clock ≤ stable) ↔ (k ≤ votes_for clock t.votes_clock))
              filled.needed iff)
            filled,
      )

  add_detached-IsFilled :
      (laws : ClockLaws ar) (n threshold : ℕ) (all front : Ops) (t : VotesTable C)
      (votes : List VoteRange)
      → AreNew n votes t.votes_clock
      → IsFilled n threshold all front t
      → (add_detached_votes votes t ≡ done (record t { votes_clock = voted votes t.votes_clock }))
        × IsFilled n threshold all front (record t { votes_clock = voted votes t.votes_clock })
  unfolding add_detached_votes
  add_detached-IsFilled laws n threshold all front t votes new filled =
      let (size, more) = voted_lem laws n votes t.votes_clock filled.size new in
      let added = add_ranges-AreNew n votes t.votes_clock new in
      let here =
        subst (λ k. add_ranges k votes t.votes_clock ≡ done (voted votes t.votes_clock))
          (sym filled.members) added in
      (
        ap (λ (m : Outcome C). m >>= λ c. done (record t { votes_clock = c })) here,
        record {
          members = filled.members;
          size = size;
          needed = filled.needed;
          parts = filled.parts;
          sorted = filled.sorted;
          dots = filled.dots;
          returned =
              All-map (IsStable threshold t.votes_clock)
                (IsStable threshold (voted votes t.votes_clock))
                (λ op h. let grown = more op.0.clock in omega (arith, grown, h)) front
                filled.returned;
        },
      )

  stable-before :
      (threshold : ℕ) (c : C) (op : SortId × Pending) (dot : Dot) (clock : ℕ)
      → IsStable threshold c op
      → votes_for clock c < threshold
      → before op.0 (id_of dot clock) ≡ true
  unfolding before
  stable-before threshold c op dot clock stable waiting =
      let antitone = reaching-antitone clock op.0.clock (values (ar.iter c)) in
      ground (arith, antitone, stable, waiting)

  -- A command at a clock that is not stable goes after all that was returned.
  insert_op-IsFilled :
      (n threshold : ℕ) (all front : Ops) (t : VotesTable C) (dot : Dot) (clock : ℕ)
      (pending : Pending)
      → contains_op (id_of dot clock) all ≡ false
      → 1 ≤ dot.source
      → 1 ≤ dot.sequence
      → votes_for clock t.votes_clock < threshold
      → IsFilled n threshold all front t
      → (contains_op (id_of dot clock) t.ops ≡ false)
        × IsFilled n threshold
            (insert_op (id_of dot clock) pending all)
            front
            (record t { ops = insert_op (id_of dot clock) pending t.ops })
  insert_op-IsFilled n threshold all front t dot clock pending absent source sequence waiting
        filled =
      let id = id_of dot clock in
      let first =
        All-map (IsStable threshold t.votes_clock)
          (λ (op : SortId × Pending). before op.0 id ≡ true)
          (λ op stable. stable-before threshold t.votes_clock op dot clock stable waiting) front
          filled.returned in
      (
        contains_op-append id front t.ops
            (subst (λ (ops : Ops). contains_op id ops ≡ false) (sym filled.parts) absent),
        record {
          members = filled.members;
          size = filled.size;
          needed = filled.needed;
          parts =
              sym (insert_op-append id pending front t.ops first)
              ∙ ap (insert_op id pending) filled.parts;
          sorted = insert_op-IsSorted id pending all absent filled.sorted;
          dots = All-insert_op HasDot id pending all (source, sequence) filled.dots;
          returned = filled.returned;
        },
      )

  add_attached-done :
      (dot : Dot) (clock : ℕ) (pending : Pending) (votes : List VoteRange) (t t' : VotesTable C)
      → contains_op (id_of dot clock) t.ops ≡ false
      → add_detached_votes votes (record t { ops = insert_op (id_of dot clock) pending t.ops })
        ≡ done t'
      → add_attached_votes dot clock pending votes t ≡ done t'
  unfolding add_attached_votes
  add_attached-done dot clock pending votes t t' absent rest =
      ap
        (λ (b : Bool).
          (if b then panic else done tt)
          >> add_detached_votes votes
              (record t { ops = insert_op (id_of dot clock) pending t.ops }))
        absent
      ∙ rest

  -- What a run ends in, from a table that has returned `front`.
  abbrev EndsIn : (n threshold : ℕ) → Ops → Ops → List Event → VotesTable C → Type 0
  EndsIn n threshold all front events t =
      (t' : VotesTable C) × (more : Ops) × (run_events events t ≡ done (t', values more))
      × IsSettled n threshold (attached_ops events all) (front ++ more) t'

  run_events-step :
      (n threshold : ℕ) (all front low : Ops) (t added next : VotesTable C) (event : Event)
      (events : List Event)
      → add_event event t ≡ done added
      → stable_ops added ≡ done (next, values low)
      → EndsIn n threshold all (front ++ low) events next
      → (t' : VotesTable C) × (more : Ops) × (run_events (event ∷ events) t
          ≡ done (t', values more))
        × IsSettled n threshold (attached_ops events all) (front ++ more) t'
  unfolding run_events
  run_events-step n threshold all front low t added next event events adds settles
        (t', more, runs, settled) =
      let continue = λ (first : VotesTable C × List Pending).
        run_events events first.0 >>= λ (rest : VotesTable C × List Pending).
        done (rest.0, first.1 ++ rest.1) in
      (
        t',
        low ++ more,
        ap (λ (m : Outcome (VotesTable C)). (m >>= stable_ops) >>= continue) adds
            ∙ ap (λ (m : Outcome (VotesTable C × List Pending)). m >>= continue) settles
            ∙ ap
                (λ (m : Outcome (VotesTable C × List Pending)).
                  m >>= λ rest. done (rest.0, values low ++ rest.1))
                runs
            ∙ ap (λ (out : List Pending). done (t', out)) (sym (values-append low more)),
        subst (λ (f : Ops). IsSettled n threshold (attached_ops events all) f t')
            (append_assoc front low more) settled,
      )

  run_events-EndsIn :
      (laws : ClockLaws ar) (n threshold : ℕ) (all front : Ops) (t : VotesTable C)
      (events : List Event)
      → 1 ≤ threshold
      → threshold ≤ n
      → IsFeed n threshold all t.votes_clock events
      → IsSettled n threshold all front t
      → EndsIn n threshold all front events t
  unfolding attached_ops add_event run_events
  run_events-EndsIn laws n threshold all front t [] least most feed settled = (
    t,
    [],
    refl,
    subst (λ (f : Ops). IsSettled n threshold all f t) (sym (append-nil front)) settled,
  )
  run_events-EndsIn laws n threshold all front t (attached dot clock pending votes ∷ events) least
        most feed settled =
      let (absent, source, sequence, waiting, new, bound, later) = feed in
      let (kept, inserted) =
        insert_op-IsFilled n threshold all front t dot clock pending absent source sequence waiting
          settled.filled in
      let all' = insert_op (id_of dot clock) pending all in
      let t1 : VotesTable C = record t { ops = insert_op (id_of dot clock) pending t.ops } in
      let (adds, filled) =
        add_detached-IsFilled laws n threshold all' front t1 votes new inserted in
      let t2 : VotesTable C = record t1 { votes_clock = voted votes t.votes_clock } in
      let (low, high, settles, after) =
        stable_ops-IsSettled laws n threshold all' front t2 least most bound filled in
      let t3 : VotesTable C = record t2 { ops = high } in
      run_events-step n threshold all' front low t t2 t3 (attached dot clock pending votes) events
        (add_attached-done dot clock pending votes t t2 kept adds) settles
        (run_events-EndsIn laws n threshold all' (front ++ low) t3 events least most later after)
  run_events-EndsIn laws n threshold all front t (detached votes ∷ events) least most feed settled =
      let (new, bound, later) = feed in
      let (adds, filled) =
        add_detached-IsFilled laws n threshold all front t votes new settled.filled in
      let t2 : VotesTable C = record t { votes_clock = voted votes t.votes_clock } in
      let (low, high, settles, after) =
        stable_ops-IsSettled laws n threshold all front t2 least most bound filled in
      let t3 : VotesTable C = record t2 { ops = high } in
      run_events-step n threshold all front low t t2 t3 (detached votes) events adds settles
        (run_events-EndsIn laws n threshold all (front ++ low) t3 events least most later after)

  -- A new table of votes with a stability threshold from 1 on and at most n that gets commands, each
  -- with its own clock and dot and at a clock that is not stable yet, and new votes of its
  -- processes, never panics. What it has returned and what it still holds are the commands in the
  -- order of their clocks and dots; it has returned exactly those at a clock that a threshold of the
  -- processes has voted up to. The external clock of votes has one entry for each process, and
  -- adding votes takes none away.
  pub run_events_in_order :
      (laws : ClockLaws ar) (key : Key) (process_id : ProcessId) (shard_id : ShardId)
      (n threshold : ℕ) (events : List Event)
      → 1 ≤ threshold
      → threshold ≤ n
      → ar.size (ar.with_ids (process_ids shard_id n)) ≡ n
      → IsFeed n threshold [] (ar.with_ids (process_ids shard_id n)) events
      → (t : VotesTable C) × (returned : Ops) × (run_events events
            (new_table key process_id shard_id n threshold)
          ≡ done (t, values returned))
        × (returned ++ t.ops ≡ attached_ops events [])
        × IsSorted (attached_ops events [])
        × All (IsStable threshold t.votes_clock) returned
        × All (IsWaiting threshold t.votes_clock) t.ops
  unfolding new_table
  run_events_in_order laws key process_id shard_id n threshold events least most sized feed =
      let start : VotesTable C = new_table key process_id shard_id n threshold in
      let (t, returned, runs, settled) =
        run_events-EndsIn laws n threshold [] [] start events least most feed (record {
          filled = record {
            members = refl;
            size = sized;
            needed = refl;
            parts = refl;
            sorted = tt;
            dots = tt;
            returned = tt;
          };
          waiting = tt;
        }) in
      (
        t, returned, runs, settled.filled.parts, settled.filled.sorted, settled.filled.returned,
        settled.waiting,
      )
