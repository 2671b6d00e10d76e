-- ===== src/GcTrack/Stability.antt =====
-- fantoch_ps/src/protocol/common/synod/gc.rs: which slots are stable.
use fantoch.Prelude.{
  ℕ, suc, min, ◌-◌, ◌+◌, ◌≤◌, ◌<◌, ◌≡◌, ◌↔◌, refl, ap, sym, subst, ◌∙◌, Bool, true, false, Option,
  none, some, List, [], ◌∷◌, ◌==◌, u64_partial_eq, Bool-cases, Option-cases, inl, inr, All,
  if◌then◌else◌, length, sub64, sub64_lem, word, arith,
}
use fantoch.Prelude.Maps.{
  Map, get, insert, keys, values, contains_key, get-insert, contains_key-insert, contains_key-get,
  get-contains_key, DistinctKeys, insert-DistinctKeys, values_lem,
}
use fantoch.Prelude.Sets.{contains, IsDistinct}
use fantoch.Prelude.Counting.{subset-length}
use fantoch.Identifiers.{ProcessId}
use fantoch.GcTrack.{
  EventSet, GcTrack, new, intersect, commit_slot, committed_by, stable_slots, committed_slot,
}

intersect_iff :
    (slot stable : ℕ) (clocks : List ℕ)
    → (slot ≤ intersect stable clocks) ↔ ((slot ≤ stable) × All (λ c. slot ≤ c) clocks)
unfolding intersect
intersect_iff slot stable [] = ((λ h. (h, tt)), λ h. h.0)
intersect_iff slot stable (clock ∷ clocks) =
    let rest = intersect_iff slot (min stable clock) clocks in
    (
      (λ h. let (low, all) = rest.0 h in (omega (arith, low), (omega (arith, low), all))),
      λ h. rest.1 (omega (arith, h.0, h.1.0), h.1.1),
    )

-- What happens to a track: another process reports its committed slots, a slot is committed, or
-- the stable slots are asked for.
pub data Event : Type 0 where
  reported : ProcessId → ℕ → Event
  committed : ℕ → Event
  asked : Event

abbrev pub last_of : Option ℕ → Option ℕ → Option ℕ
last_of earlier none = earlier
last_of earlier (some later) = some later

-- The last clock that a process reported.
abbrev pub last_report : ProcessId → List Event → Option ℕ
last_report p [] = none
last_report p (reported from clock ∷ events) =
    last_of (if from == p then some clock else none) (last_report p events)
last_report p (committed slot ∷ events) = last_report p events
last_report p (asked ∷ events) = last_report p events

-- The process that an event comes from, if another one, is among these.
abbrev pub IsFrom : List ProcessId → Event → Type 0
IsFrom others (reported from clock) = contains from others ≡ true
IsFrom others (committed slot) = Unit
IsFrom others asked = Unit

abbrev pub HasReported : ℕ → List Event → ProcessId → Type 0
HasReported slot events p = (clock : ℕ) × (last_report p events ≡ some clock) × (slot ≤ clock)

contains-keys : (p : ProcessId) (m : Map ProcessId ℕ) → contains p (keys m) ≡ contains_key p m
unfolding contains contains_key
contains-keys p [] = refl
contains-keys p ((q, clock) ∷ m) = ground (arith, contains-keys p m)

keys-IsDistinct : (m : Map ProcessId ℕ) → DistinctKeys m → IsDistinct (keys m)
keys-IsDistinct [] d = tt
keys-IsDistinct ((p, clock) ∷ m) d = (contains-keys p m ∙ d.0, keys-IsDistinct m d.1)

length-keys : (m : Map ProcessId ℕ) → length (keys m) ≡ length m
length-keys [] = refl
length-keys (entry ∷ m) = ap suc (length-keys m)

-- Every one of `others` has an entry once there are as many entries, all of them for `others`.
all_filed :
    (others : List ProcessId) (m : Map ProcessId ℕ)
    → DistinctKeys m
    → ((p : ProcessId) → contains_key p m ≡ true → contains p others ≡ true)
    → length m ≡ length others
    → (p : ProcessId) → contains p others ≡ true
    → contains_key p m ≡ true
unfolding contains
all_filed others m d within full p there = elim (Bool-cases (contains_key p m)) [
  | inl held ↦ held
  | inr missing ↦
      let longer =
        subset-length (p ∷ keys m) others (contains-keys p m ∙ missing, keys-IsDistinct m d)
          (λ z h. elim (Bool-cases (p == z)) [
            | inl same ↦
                subst (λ k. contains k others ≡ true) ((u64_partial_eq.equal_iff p z).0 same) there
            | inr apart ↦ within z (sym (contains-keys z m) ∙ ground (arith, h, apart))
          ]) in
      absurd (omega (arith, longer, length-keys m, full))
]

filed_all :
    (others : List ProcessId) (m : Map ProcessId ℕ)
    → DistinctKeys m
    → IsDistinct others
    → ((p : ProcessId) → contains_key p m ≡ true → contains p others ≡ true)
    → ((p : ProcessId) → contains p others ≡ true → contains_key p m ≡ true)
    → length m ≡ length others
filed_all others m d distinct within filed =
    let up =
      subset-length (keys m) others (keys-IsDistinct m d)
        (λ z h. within z (sym (contains-keys z m) ∙ h)) in
    let down = subset-length others (keys m) distinct (λ z h. contains-keys z m ∙ filed z h) in
    omega (arith, up, down, length-keys m)

last_of_assoc : (a b c : Option ℕ) → last_of (last_of a b) c ≡ last_of a (last_of b c)
last_of_assoc a b none = refl
last_of_assoc a b (some c) = refl

last_of-none : (o : Option ℕ) → last_of none o ≡ o
last_of-none none = refl
last_of-none (some clock) = refl

filed_within :
    (others : List ProcessId) (q : ProcessId) (clock : ℕ) (m : Map ProcessId ℕ)
    → ((p : ProcessId) → contains_key p m ≡ true → contains p others ≡ true)
    → contains q others ≡ true
    → (p : ProcessId) → contains_key p (insert q clock m) ≡ true
    → contains p others ≡ true
filed_within others q clock m within there p h =
    let inserted = contains_key-insert q p clock m in
    elim (Bool-cases (q == p)) [
      | inl same ↦
          subst (λ k. contains k others ≡ true) ((u64_partial_eq.equal_iff q p).0 same) there
      | inr apart ↦ within p (ground (arith, inserted, h, apart))
    ]

last_of-if :
    (b : Bool) (clock : ℕ) (earlier : Option ℕ)
    → (if b then some clock else earlier) ≡ last_of earlier (if b then some clock else none)
last_of-if true clock earlier = refl
last_of-if false clock earlier = refl

filed_last :
    (q p : ProcessId) (clock : ℕ) (m : Map ProcessId ℕ)
    → get p (insert q clock m) ≡ last_of (get p m) (if q == p then some clock else none)
filed_last q p clock m = get-insert q p clock m ∙ last_of-if (q == p) clock (get p m)

module _ {E : Type 0} ⦃set : EventSet E⦄ where
  -- The end of the range that `stable` returns, by what is filed.
  stable_slots_filed :
      (t : GcTrack E) (slot : ℕ)
      → 1 ≤ slot
      → 1 ≤ t.n
      → t.n < word
      → (slot ≤ (stable_slots t).1.1) ↔ (
          (length t.all_but_me ≡ t.n - 1)
          × (slot ≤ committed_slot t)
          × All (λ clock. slot ≤ clock) (values t.all_but_me))
  unfolding stable_slots committed_slot
  stable_slots_filed t slot low some_process small =
      let others = sub64_lem t.n 1 some_process small in
      let both = intersect_iff slot (set.frontier t.committed_set) (values t.all_but_me) in
      elim (Bool-cases (length t.all_but_me == sub64 t.n 1)) [
        | inl heard ↦ rw heard (
          (λ h. (ground (arith, heard, others), (both.0 h).0, (both.0 h).1)),
          λ h. both.1 (h.1, h.2),
        )
        | inr missing ↦ rw missing (
          (λ h. absurd (omega (arith, h, low))),
          λ h. absurd (ground (arith, missing, others, h.0)),
        )
      ]

  abbrev pub feed : List Event → GcTrack E → GcTrack E
  feed [] t = t
  feed (reported from clock ∷ events) t = feed events (committed_by from clock t)
  feed (committed slot ∷ events) t = feed events (commit_slot slot t)
  feed (asked ∷ events) t = feed events (stable_slots t).0

  -- The own committed slots.
  abbrev pub commits : List Event → E → E
  commits [] e = e
  commits (committed slot ∷ events) e = commits events (set.add_event slot e)
  commits (reported from clock ∷ events) e = commits events e
  commits (asked ∷ events) e = commits events e

  record IsFiled (others : List ProcessId) (events : List Event) (t last : GcTrack E) : Type 0 where
    count : last.n ≡ t.n
    own : last.committed_set ≡ commits events t.committed_set
    distinct : DistinctKeys last.all_but_me
    within : (p : ProcessId) → contains_key p last.all_but_me ≡ true → contains p others ≡ true
    reports :
        (p : ProcessId)
        → get p last.all_but_me ≡ last_of (get p t.all_but_me) (last_report p events)

  feed-IsFiled :
      (others : List ProcessId) (events : List Event) (t : GcTrack E)
      → DistinctKeys t.all_but_me
      → ((p : ProcessId) → contains_key p t.all_but_me ≡ true → contains p others ≡ true)
      → All (IsFrom others) events
      → IsFiled others events t (feed events t)
  unfolding committed_by commit_slot stable_slots
  feed-IsFiled others [] t distinct within from = record {
    count = refl;
    own = refl;
    distinct = distinct;
    within = within;
    reports = λ p. refl;
  }
  feed-IsFiled others (reported q clock ∷ events) t distinct within from =
      let t' = committed_by q clock t in
      let rest =
        feed-IsFiled others events t' (insert-DistinctKeys q clock t.all_but_me distinct)
          (λ p there. filed_within others q clock t.all_but_me within from.0 p there) from.1 in
      record {
        count = rest.count;
        own = rest.own;
        distinct = rest.distinct;
        within = rest.within;
        reports = λ p.
            rest.reports p
            ∙ ap (λ (earlier : Option ℕ). last_of earlier (last_report p events))
                (filed_last q p clock t.all_but_me)
            ∙ last_of_assoc (get p t.all_but_me) (if q == p then some clock else none)
                (last_report p events);
      }
  feed-IsFiled others (committed slot ∷ events) t distinct within from =
      let rest = feed-IsFiled others events (commit_slot slot t) distinct within from.1 in
      record {
        count = rest.count;
        own = rest.own;
        distinct = rest.distinct;
        within = rest.within;
        reports = rest.reports;
      }
  feed-IsFiled others (asked ∷ events) t distinct within from =
      let rest = feed-IsFiled others events (stable_slots t).0 distinct within from.1 in
      record {
        count = rest.count;
        own = rest.own;
        distinct = rest.distinct;
        within = rest.within;
        reports = rest.reports;
      }

-- In any sequence of reports, commits and calls of `stable` on a new track of n processes, where
-- the reports come from `others`, n - 1 distinct processes: a slot from 1 on is up to the end of
-- the range that `stable` returns next exactly when each of the others has reported, its last
-- report reaches the slot, and so does the frontier of the slots that the process itself committed.
pub stable_slots_iff :
    {E : Type 0} (set : EventSet E) (process_id : ProcessId) (others : List ProcessId) (n : ℕ)
    (events : List Event) (slot : ℕ)
    → 1 ≤ slot
    → length others + 1 ≡ n
    → n < word
    → IsDistinct others
    → All (IsFrom others) events
    → (slot
        ≤ (stable_slots ⦃set = set⦄ (feed ⦃set = set⦄ events (new ⦃set = set⦄ process_id n))).1.1)
      ↔ ((slot ≤ set.frontier (commits ⦃set = set⦄ events set.empty))
          × ((p : ProcessId) → contains p others ≡ true → HasReported slot events p))
unfolding new get contains_key committed_slot
stable_slots_iff {E} set process_id others n events slot low sized small distinct from =
    let filed =
      feed-IsFiled ⦃set = set⦄ others events (new ⦃set = set⦄ process_id n) tt
        (λ p there. absurd (ground arith)) from in
    let last = feed ⦃set = set⦄ events (new ⦃set = set⦄ process_id n) in
    let m = last.all_but_me in
    let heard : (p : ProcessId) → get p m ≡ last_report p events =
      λ p. filed.reports p ∙ last_of-none (last_report p events) in
    let size : last.n ≡ n = filed.count in
    let by_entries =
      stable_slots_filed ⦃set = set⦄ last slot low (omega (arith, size, sized))
        (omega (arith, size, small)) in
    let each = values_lem (λ (clock : ℕ). slot ≤ clock) m filed.distinct in
    (
      (λ stable.
          let (full, own, all) = by_entries.0 stable in
          let held =
            all_filed others m filed.distinct filed.within (omega (arith, full, size, sized)) in
          (
            subst (λ (e : E). slot ≤ set.frontier e) filed.own own,
            λ p there. elim (Option-cases (get p m)) [
              | inl missing ↦ absurd (ground (arith, held p there, contains_key-get p m missing))
              | inr (clock, found) ↦ (clock, sym (heard p) ∙ found, each.0 all p clock found)
            ],
          )),
      λ both.
          let count = filed_all others m filed.distinct distinct filed.within (λ p there.
            let (clock, said, reaches) = both.1 p there in
            get-contains_key p m clock (heard p ∙ said)) in
          by_entries.1 (
            omega (arith, count, size, sized),
            subst (λ (e : E). slot ≤ set.frontier e) (sym filed.own) both.0,
            each.1 (λ p clock found.
                let (last_clock, said, reaches) =
                  both.1 p (filed.within p (get-contains_key p m clock found)) in
                let same : some last_clock ≡ some clock = sym said ∙ (sym (heard p) ∙ found) in
                ground (arith, same, reaches)),
          ),
    )
