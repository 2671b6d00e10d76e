-- ===== src/GcTrack.antt =====
-- fantoch_ps/src/protocol/common/synod/gc.rs: which slots every process has committed. The set of
-- committed slots is the `AboveExSet` of the external `threshold` crate, an interface here.
pub mod Stability
mod Tests
use fantoch.Prelude.{
  ℕ, min, List, [], ◌∷◌, ◌==◌, u64_partial_eq, if◌then◌else◌, length, add64, sub64,
}
use fantoch.Prelude.Maps.{Map, insert, values}
use fantoch.Identifiers.{ProcessId}

-- The operations of `AboveExSet` that the code calls.
pub record EventSet (E : Type 0) : Type 0 where
  pub empty : E
  pub add_event : ℕ → E → E
  pub frontier : E → ℕ

pub record GcTrack (E : Type 0) : Type 0 where
  pub process_id : ProcessId
  pub n : ℕ
  pub committed_set : E
  pub all_but_me : Map ProcessId ℕ
  pub previous_stable : ℕ

unfoldable pub intersect : ℕ → List ℕ → ℕ
intersect stable [] = stable
intersect stable (clock ∷ clocks) = intersect (min stable clock) clocks

module _ {E : Type 0} ⦃set : EventSet E⦄ where
  unfoldable pub new : ProcessId → ℕ → GcTrack E
  new process_id n = record {
    process_id = process_id;
    n = n;
    committed_set = set.empty;
    all_but_me = [];
    previous_stable = 0;
  }

  -- `GCTrack::commit`
  unfoldable pub commit_slot : ℕ → GcTrack E → GcTrack E
  commit_slot slot t = record t { committed_set = set.add_event slot t.committed_set }

  -- `GCTrack::committed`
  unfoldable pub committed_slot : GcTrack E → ℕ
  committed_slot t = set.frontier t.committed_set

  unfoldable pub committed_by : ProcessId → ℕ → GcTrack E → GcTrack E
  committed_by from committed t = record t { all_but_me = insert from committed t.all_but_me }

  unfoldable pub stable_slot : GcTrack E → ℕ
  unfolding intersect
  stable_slot t =
      if length t.all_but_me == sub64 t.n 1
      then intersect (set.frontier t.committed_set) (values t.all_but_me)
      else 0

  -- `GCTrack::stable`
  unfoldable pub stable_slots : GcTrack E → GcTrack E × (ℕ × ℕ)
  unfolding stable_slot
  stable_slots t =
      let new_stable = stable_slot t in
      (record t { previous_stable = new_stable }, (add64 t.previous_stable 1, new_stable))
