-- ===== src/MultiSynod/Tests.antt =====
-- Runs of multi-decree Paxos, and its theorems at concrete inputs.
use fantoch.Prelude.{
  ℕ, suc, ◌-◌, ◌≤◌, ◌≡◌, refl, true, ◌&&◌, none, some, List, [], ◌∷◌, map, done, ◌>>=◌, All,
  if◌then◌else◌, u64_partial_eq, leb, ltb, length, arith,
}
use fantoch.Prelude.Maps.{get, insert}
use fantoch.MultiSynod.{
  MultiSynod, Slot, chosen, forward_submit, accept, accepted, new, handle, handle_prepare,
  handle_accept, handle_spawn_commander, gc,
}
use fantoch.MultiSynod.Commanders.{handle_accepts, gather, handle_accepts-chosen}
use fantoch.MultiSynod.Promises.{AcceptsFrom, HoldsFrom, handle_all, multi_promise_kept}
use fantoch.MultiSynod.Collection.{held_from, gc_lem}
use fantoch.MultiSynod.Submissions.{submit_all, commanders_from, submit_all-new}

abbrev leader : MultiSynod ℕ
leader = new 1 1 3 1

-- Two processes are enough with f = 1; the repeated accept of process 2 does not count.
handle_accepts-chosen_example :
    (last : MultiSynod ℕ) × ((handle_spawn_commander 1 1 10 leader >>= λ spawned.
    handle_accepts 1 1 (2 ∷ 2 ∷ 1 ∷ 3 ∷ []) spawned.0)
      ≡ done (
        last,
        (if ltb leader.f (length (gather (2 ∷ 2 ∷ 1 ∷ 3 ∷ []) [])) then chosen 1 10 ∷ [] else []),
      ))
unfolding new get
handle_accepts-chosen_example = handle_accepts-chosen 1 1 10 (2 ∷ 2 ∷ 1 ∷ 3 ∷ []) leader refl

abbrev promised : MultiSynod ℕ
promised = record leader { acceptor = record { ballot = 5; accepted_slots = [] } }

-- After a promise for ballot 5, an accept of ballot 4 is ignored and one of ballot 6 is not.
multi_promise_kept_example :
    All (AcceptsFrom {V = ℕ} 5) (none ∷ some (accepted 6 1) ∷ [])
    × (5 ≤ 6)
    × ((slot : Slot) → HoldsFrom {V = ℕ} 5 [] ((1, (6, 11)) ∷ []) slot)
unfolding new handle handle_prepare handle_all handle_accept insert
multi_promise_kept_example =
    multi_promise_kept 2 5 [] leader promised
      (record promised { acceptor = record { ballot = 6; accepted_slots = (1, (6, 11)) ∷ [] } })
      ((2, accept 4 1 10) ∷ (2, accept 6 1 11) ∷ []) (none ∷ some (accepted 6 1) ∷ []) refl refl

abbrev collected : MultiSynod ℕ
collected = record leader {
  acceptor = record {
    ballot = 1;
    accepted_slots = (1, (1, 10)) ∷ (3, (1, 30)) ∷ (4, (1, 40)) ∷ [];
  };
}

gc_example :
    (get 4 (gc (1, 3) collected).0.acceptor.accepted_slots
      ≡ (if leb 1 4 && leb 4 3 then none else get 4 collected.acceptor.accepted_slots))
    × ((gc (1, 3) collected).1 ≡ held_from 1 (suc 3 - 1) collected.acceptor.accepted_slots)
    × ((gc (1, 3) collected).0.acceptor.ballot ≡ collected.acceptor.ballot)
gc_example = gc_lem 1 3 4 collected

abbrev commands : List ℕ
commands = 7 ∷ 8 ∷ []

submit_all-new_example :
    submit_all commands leader
    ≡ (if true then commanders_from 1 0 commands else map forward_submit commands)
submit_all-new_example = submit_all-new 1 1 3 1 commands (omega arith)
