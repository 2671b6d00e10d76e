-- ===== src/MultiSynod/Collection.antt =====
-- fantoch_ps/src/protocol/common/synod/multi.rs: garbage collection of the accepted slots.
use fantoch.Prelude.{
  ℕ, zero, suc, ◌+◌, ◌-◌, ◌<◌, ◌≡◌, refl, ◌&&◌, none, if◌then◌else◌, u64_partial_eq, leb, ltb,
  range_from, range_inclusive, arith,
}
use fantoch.Prelude.Maps.{get, remove, contains_key, get-remove, contains_key-remove}
use fantoch.MultiSynod.{AcceptedSlots, MultiSynod, gc_slots, acceptor_gc, gc}

module _ {V : Type 0} where
  -- How many of `count` slots from `start` hold an accepted value.
  abbrev pub held_from : (start count : ℕ) → AcceptedSlots V → ℕ
  held_from start zero slots = 0
  held_from start (suc count) slots =
      (if contains_key start slots then 1 else 0) + held_from (suc start) count slots

  held_from-remove :
      (start count below : ℕ) (slots : AcceptedSlots V)
      → below < start
      → held_from start count (remove below slots) ≡ held_from start count slots
  held_from-remove start zero below slots h = refl
  held_from-remove start (suc count) below slots h = ground (
    arith,
    contains_key-remove below start slots,
    held_from-remove (suc start) count below slots (omega arith),
  )

  gc_slots-range :
      (start count at : ℕ) (slots : AcceptedSlots V)
      → (get at (gc_slots (range_from start count) slots).0
          ≡ (if leb start at && ltb at (start + count) then none else get at slots))
        × ((gc_slots (range_from start count) slots).1 ≡ held_from start count slots)
  unfolding gc_slots
  gc_slots-range start zero at slots = (ground arith, refl)
  gc_slots-range start (suc count) at slots =
      let (rest, counted) = gc_slots-range (suc start) count at (remove start slots) in
      (
        ground (arith, rest, get-remove start at slots),
        ground (arith, counted, held_from-remove (suc start) count start slots (omega arith)),
      )

  -- Collecting the stable slots from `start` to `end` forgets what was accepted in exactly these
  -- slots, keeps every other slot and the ballot, and returns how many of them held a value.
  pub gc_lem :
      (start end at : ℕ) (s : MultiSynod V)
      → (get at (gc (start, end) s).0.acceptor.accepted_slots
          ≡ (if leb start at && leb at end then none else get at s.acceptor.accepted_slots))
        × ((gc (start, end) s).1 ≡ held_from start (suc end - start) s.acceptor.accepted_slots)
        × ((gc (start, end) s).0.acceptor.ballot ≡ s.acceptor.ballot)
  unfolding gc acceptor_gc range_inclusive
  gc_lem start end at s =
      let (removed, counted) =
        gc_slots-range start (suc end - start) at s.acceptor.accepted_slots in
      (ground (arith, removed), counted, refl)
