-- ===== src/BaseProcess/Tests.antt =====
-- The theorem on discovery at a process with another shard beside its own.
use fantoch.Prelude.{
  ◌≡◌, refl, ◌&&◌, none, some, List, [], ◌∷◌, done, if◌then◌else◌, leb, length, take,
}
use fantoch.Prelude.Maps.{contains_key}
use fantoch.Prelude.Sets.{contains}
use fantoch.Identifiers.{ProcessId, ShardId}
use fantoch.Config.{default_config, majority_quorum_size}
use fantoch.BaseProcess.{BaseProcess, discover}
use fantoch.BaseProcess.Discovery.{own, discover_lem}

abbrev base : BaseProcess
base = record {
  process_id = 2;
  shard_id = 0;
  config = default_config 3 1;
  all = none;
  all_but_me = none;
  majority_quorum = none;
  fast_quorum = none;
  write_quorum = none;
  closest_shard_process = [];
  fast_quorum_size = 3;
  write_quorum_size = 2;
  dot_gen = record { source = 2; last_sequence = 0 };
  metrics = record { collected = []; aggregated = [] };
}

abbrev sorted : List (ProcessId × ShardId)
sorted = (2, 0) ∷ (5, 1) ∷ (1, 0) ∷ (3, 0) ∷ []

discover_example :
    (bp' : BaseProcess) × (discover sorted base
      ≡ done (
        bp',
        leb (majority_quorum_size base.config) (length (own 0 sorted))
            && leb 3 (length (own 0 sorted))
            && leb 2 (length (own 0 sorted)),
      ))
    × (bp'.all ≡ some (own 0 sorted))
    × (bp'.fast_quorum
        ≡ (if leb 3 (length (own 0 sorted)) then some (take (own 0 sorted) 3) else none))
    × (bp'.write_quorum
        ≡ (if leb 2 (length (own 0 sorted)) then some (take (own 0 sorted) 2) else none))
    × (bp'.majority_quorum ≡ (
        if leb (majority_quorum_size base.config) (length (own 0 sorted))
        then some (take (own 0 sorted) (majority_quorum_size base.config))
        else none))
unfolding contains contains_key
discover_example = discover_lem sorted base (refl, tt) (refl, (refl, (refl, tt)))
