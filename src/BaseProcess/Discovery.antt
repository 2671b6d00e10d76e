-- ===== src/BaseProcess/Discovery.antt =====
-- fantoch/src/protocol/base.rs: the quorums that a process finds.
use fantoch.Prelude.{
  ℕ, zero, suc, min, ◌≡◌, refl, ap, false, ◌&&◌, none, some, List, [], ◌∷◌, done, ◌==◌,
  u64_partial_eq, if◌then◌else◌, leb, Bool-cases, inl, inr, length, take, arith,
}
use fantoch.Prelude.Maps.{Map, insert, contains_key}
use fantoch.Prelude.Sets.{contains, IsDistinct}
use fantoch.Identifiers.{ProcessId, ShardId}
use fantoch.Config.{majority_quorum_size}
use fantoch.BaseProcess.{
  BaseProcess, select_processes, to_process_set, without_me, quorum_of, is_some, discover,
}

-- The processes of a shard, in order.
abbrev pub own : ShardId → List (ProcessId × ShardId) → List ProcessId
own mine [] = []
own mine ((p, shard_id) ∷ others) =
    let rest = own mine others in if mine == shard_id then p ∷ rest else rest

-- No other shard has two processes.
abbrev pub OneEach : ShardId → List (ProcessId × ShardId) → Map ShardId ProcessId → Type 0
OneEach mine [] closest = Unit
OneEach mine ((p, shard_id) ∷ others) closest =
    if mine == shard_id
    then OneEach mine others closest
    else (contains_key shard_id closest ≡ false) × OneEach mine others (insert shard_id p closest)

select_processes-own :
    (mine : ShardId) (processes : List (ProcessId × ShardId)) (closest : Map ShardId ProcessId)
    → OneEach mine processes closest
    → (closest' : Map ShardId ProcessId) × (select_processes mine processes closest
        ≡ done (own mine processes, closest'))
unfolding select_processes
select_processes-own mine [] closest h = (closest, refl)
select_processes-own mine ((p, shard_id) ∷ others) closest h =
    elim (Bool-cases (mine == shard_id)) [
      | inl same ↦
          let (closest', rest) = select_processes-own mine others closest (rw same at h) in
          (closest', rw same (rw rest refl))
      | inr other ↦
          let (free, later) =
            (let k : (contains_key shard_id closest ≡ false)
                  × OneEach mine others (insert shard_id p closest) =
                rw other at h in
              k) in
          let (closest', rest) =
            select_processes-own mine others (insert shard_id p closest) later in
          (closest', rw (other, free) rest)
    ]

contains-take :
    (p : ProcessId) (xs : List ProcessId) (n : ℕ)
    → contains p xs ≡ false
    → contains p (take xs n) ≡ false
unfolding contains
contains-take p [] n h = refl
contains-take p (x ∷ xs) zero h = refl
contains-take p (x ∷ xs) (suc n) h = ground (arith, contains-take p xs n)

take-IsDistinct : (xs : List ProcessId) (n : ℕ) → IsDistinct xs → IsDistinct (take xs n)
take-IsDistinct [] n h = tt
take-IsDistinct (x ∷ xs) zero h = tt
take-IsDistinct (x ∷ xs) (suc n) h = (contains-take x xs n h.0, take-IsDistinct xs n h.1)

length-take : (xs : List ProcessId) (n : ℕ) → length (take xs n) ≡ min n (length xs)
length-take [] n = omega arith
length-take (x ∷ xs) zero = omega arith
length-take (x ∷ xs) (suc n) = omega (arith, length-take xs n)

to_process_set-eq : (xs : List ProcessId) → IsDistinct xs → to_process_set xs ≡ xs
unfolding to_process_set
to_process_set-eq [] h = refl
to_process_set-eq (x ∷ xs) h = rw (to_process_set-eq xs h.1) (rw h.0 refl)

quorum_of-eq :
    (size : ℕ) (xs : List ProcessId)
    → IsDistinct xs
    → quorum_of size xs ≡ (if leb size (length xs) then some (take xs size) else none)
unfolding quorum_of
quorum_of-eq size xs h =
    rw (to_process_set-eq (take xs size) (take-IsDistinct xs size h))
      (ground (arith, length-take xs size))

is_some-quorum_of :
    (size : ℕ) (xs : List ProcessId)
    → IsDistinct xs
    → is_some (quorum_of size xs) ≡ leb size (length xs)
is_some-quorum_of size xs h = rw (quorum_of-eq size xs h) (ground arith)

discover_returns :
    (processes : List (ProcessId × ShardId)) (bp : BaseProcess) (xs : List ProcessId)
    (closest : Map ShardId ProcessId)
    → select_processes bp.shard_id processes [] ≡ done (xs, closest)
    → IsDistinct xs
    → discover processes bp
      ≡ done (
        record bp {
          closest_shard_process = closest;
          all = some (to_process_set xs);
          all_but_me = some (to_process_set (without_me bp.process_id xs));
          majority_quorum = quorum_of (majority_quorum_size bp.config) xs;
          fast_quorum = quorum_of bp.fast_quorum_size xs;
          write_quorum = quorum_of bp.write_quorum_size xs;
        },
        leb (majority_quorum_size bp.config) (length xs)
            && leb bp.fast_quorum_size (length xs)
            && leb bp.write_quorum_size (length xs),
      )
unfolding discover
discover_returns processes bp xs closest selected distinct = rw (selected) (
    rw
      (
        is_some-quorum_of (majority_quorum_size bp.config) xs distinct,
        is_some-quorum_of bp.fast_quorum_size xs distinct,
        is_some-quorum_of bp.write_quorum_size xs distinct,
      )
      refl)

-- When no process of the shard is listed twice, and no other shard has two processes, discovery
-- never panics. The majority, fast and write quorums are the first processes of the shard in the
-- order given, as many as the quorum has, or none when the shard has fewer. The process is
-- connected exactly when the shard has enough processes for all three.
pub discover_lem :
    (processes : List (ProcessId × ShardId)) (bp : BaseProcess)
    → OneEach bp.shard_id processes []
    → IsDistinct (own bp.shard_id processes)
    → (bp' : BaseProcess) × (discover processes bp
        ≡ done (
          bp',
          leb (majority_quorum_size bp.config) (length (own bp.shard_id processes))
              && leb bp.fast_quorum_size (length (own bp.shard_id processes))
              && leb bp.write_quorum_size (length (own bp.shard_id processes)),
        ))
      × (bp'.all ≡ some (own bp.shard_id processes))
      × (bp'.fast_quorum ≡ (
          if leb bp.fast_quorum_size (length (own bp.shard_id processes))
          then some (take (own bp.shard_id processes) bp.fast_quorum_size)
          else none))
      × (bp'.write_quorum ≡ (
          if leb bp.write_quorum_size (length (own bp.shard_id processes))
          then some (take (own bp.shard_id processes) bp.write_quorum_size)
          else none))
      × (bp'.majority_quorum ≡ (
          if leb (majority_quorum_size bp.config) (length (own bp.shard_id processes))
          then some (take (own bp.shard_id processes) (majority_quorum_size bp.config))
          else none))
discover_lem processes bp one distinct =
    let xs = own bp.shard_id processes in
    let (closest, selected) = select_processes-own bp.shard_id processes [] one in
    let majority = quorum_of-eq (majority_quorum_size bp.config) xs distinct in
    let fast = quorum_of-eq bp.fast_quorum_size xs distinct in
    let write = quorum_of-eq bp.write_quorum_size xs distinct in
    (
      record bp {
        closest_shard_process = closest;
        all = some (to_process_set xs);
        all_but_me = some (to_process_set (without_me bp.process_id xs));
        majority_quorum = quorum_of (majority_quorum_size bp.config) xs;
        fast_quorum = quorum_of bp.fast_quorum_size xs;
        write_quorum = quorum_of bp.write_quorum_size xs;
      },
      discover_returns processes bp xs closest selected distinct,
      ap some (to_process_set-eq xs distinct),
      fast,
      write,
      majority,
    )
