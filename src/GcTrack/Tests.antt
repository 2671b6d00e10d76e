-- ===== src/GcTrack/Tests.antt =====
-- The theorem on stable slots, with the slots committed without a gap as the set.
use fantoch.Prelude.{
  ℕ, suc, add64, sub64, ◌≤◌, ◌≡◌, refl, ◌↔◌, true, List, [], ◌∷◌, arith, if◌then◌else◌, ◌==◌,
  u64_partial_eq,
}
use fantoch.Prelude.Sets.{contains}
use fantoch.Identifiers.{ProcessId}
use fantoch.GcTrack.{EventSet, GcTrack, new, stable_slots}
use fantoch.GcTrack.Stability.{
  Event, reported, committed, asked, feed, commits, HasReported, stable_slots_iff,
}

-- Events that come in order.
abbrev in_order : EventSet ℕ
in_order = record {
  empty = 0;
  add_event = λ slot last. if slot == suc last then slot else last;
  frontier = λ last. last;
}

abbrev track : GcTrack ℕ
track = record {
  process_id = 1;
  n = 3;
  committed_set = 4;
  all_but_me = (2, 3) ∷ (3, 5) ∷ [];
  previous_stable = 1;
}

-- Process 2 reports twice, and process 3 once.
abbrev events : List Event
events =
    committed 1
    ∷ reported 2 1
    ∷ committed 2
    ∷ asked
    ∷ reported 3 5
    ∷ committed 3
    ∷ reported 2 4
    ∷ []

stable_slots_iff_example :
    (3
      ≤ (stable_slots ⦃set = in_order⦄
          (feed ⦃set = in_order⦄ events (new ⦃set = in_order⦄ 1 3))).1.1)
    ↔ ((3 ≤ commits ⦃set = in_order⦄ events 0)
        × ((p : ProcessId) → contains p (2 ∷ 3 ∷ []) ≡ true → HasReported 3 events p))
unfolding contains
stable_slots_iff_example =
    stable_slots_iff in_order 1 (2 ∷ 3 ∷ []) 3 events 3 (omega arith) refl (omega arith)
      (refl, (refl, tt)) (tt, (refl, (tt, (tt, (refl, (tt, (refl, tt)))))))

-- Process 2 reports 3, and then an older report of it arrives: slot 3 is stable again later.
stable_again :
    (stable_slots ⦃set = in_order⦄
      (record track { all_but_me = (2, 2) ∷ (3, 5) ∷ []; previous_stable = 3 })).1
    ≡ (4, 2)
unfolding stable_slots add64 sub64
stable_again = refl
