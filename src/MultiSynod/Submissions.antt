-- ===== src/MultiSynod/Submissions.antt =====
-- fantoch_ps/src/protocol/common/synod/multi.rs: the slots that a leader gives to the commands
-- submitted to it.
use fantoch.Prelude.{
  ℕ, suc, ◌+◌, ◌<◌, ◌≡◌, refl, true, false, List, [], ◌∷◌, map, if◌then◌else◌, ◌==◌, u64_partial_eq,
  length, Bool-cases, inl, inr, add64_lem, word, arith,
}
use fantoch.Identifiers.{ProcessId}
use fantoch.MultiSynod.{
  Ballot, Slot, MultiSynod, MultiSynodMessage, spawn_commander, forward_submit, new_leader, new,
  try_submit, submit,
}

module _ {V : Type 0} where
  abbrev pub submit_all : List V → MultiSynod V → List (MultiSynodMessage V)
  submit_all [] s = []
  submit_all (value ∷ values) s =
      let (s', message) = submit value s in message ∷ submit_all values s'

  -- Commanders for the slots after `last`, one for each value.
  abbrev pub commanders_from : Ballot → Slot → List V → List (MultiSynodMessage V)
  commanders_from ballot last [] = []
  commanders_from ballot last (value ∷ values) =
      spawn_commander ballot (suc last) value ∷ commanders_from ballot (suc last) values

  submit-leader :
      (value : V) (s : MultiSynod V)
      → s.leader.is_leader ≡ true
      → s.leader.last_slot + 1 < word
      → submit value s ≡ (
        record s { leader = record s.leader { last_slot = suc s.leader.last_slot } },
        spawn_commander s.leader.ballot (suc s.leader.last_slot) value,
      )
  unfolding submit try_submit
  submit-leader value s h small = ground (arith, h, add64_lem s.leader.last_slot 1 small)

  submit-other :
      (value : V) (s : MultiSynod V)
      → s.leader.is_leader ≡ false
      → submit value s ≡ (s, forward_submit value)
  unfolding submit try_submit
  submit-other value s h = ground (arith, h)

  submit_all-leader :
      (values : List V) (s : MultiSynod V)
      → s.leader.is_leader ≡ true
      → s.leader.last_slot + length values < word
      → submit_all values s ≡ commanders_from s.leader.ballot s.leader.last_slot values
  submit_all-leader [] s h small = refl
  submit_all-leader (value ∷ values) s h small = rw (submit-leader value s h (omega arith)) (
      rw
        (submit_all-leader values
          (record s { leader = record s.leader { last_slot = suc s.leader.last_slot } }) h
          (omega arith))
        refl)

  submit_all-other :
      (values : List V) (s : MultiSynod V)
      → s.leader.is_leader ≡ false
      → submit_all values s ≡ map forward_submit values
  submit_all-other [] s h = refl
  submit_all-other (value ∷ values) s h =
      rw (submit-other value s h) (rw (submit_all-other values s h) refl)

  -- A new process that is the initial leader turns the values submitted to it into commanders of
  -- its first ballot, which is its identifier, for the slots 1, 2, 3, ... in order, while they fit
  -- in a u64; any other process forwards all of them.
  pub submit_all-new :
      (process_id initial_leader : ProcessId) (n f : ℕ) (values : List V)
      → length values < word
      → submit_all values (new process_id initial_leader n f) ≡ (
          if process_id == initial_leader
          then commanders_from process_id 0 values
          else map forward_submit values)
  unfolding new new_leader
  submit_all-new process_id initial_leader n f values small =
      elim (Bool-cases (process_id == initial_leader)) [
        | inl leader ↦ ground (
          arith,
          leader,
          submit_all-leader values (new process_id initial_leader n f) leader (omega arith),
        )
        | inr other ↦
            ground (arith, other, submit_all-other values (new process_id initial_leader n f) other)
      ]
