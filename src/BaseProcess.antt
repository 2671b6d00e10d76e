-- ===== src/BaseProcess.antt =====
-- fantoch/src/protocol/base.rs: what the processes of all protocols share.
pub mod Discovery
mod Tests
use fantoch.Prelude.{
  ℕ, zero, suc, Bool, true, false, not, ◌&&◌, Option, none, some, List, [], ◌∷◌, ◌++◌, Outcome,
  done, panic, assert, ◌>>=◌, ◌>>◌, ◌==◌, u64_partial_eq, if◌then◌else◌, length, take,
}
use fantoch.Prelude.Maps.{Map, get, insert, contains_key}
use fantoch.Prelude.Sets.{add}
use fantoch.Identifiers.{ProcessId, ShardId, Dot, IdGen, new_gen, next_id}
use fantoch.Config.{Config, majority_quorum_size}
use fantoch.Commands.{Command, nfr_allowed}
use fantoch.Metrics
use fantoch.Metrics.{
  ProtocolMetrics, ProtocolMetricsKind, kind_partial_eq, aggregate, collect_value, fast_path,
  slow_path, fast_path_reads, slow_path_reads, stable,
}

pub record BaseProcess : Type 0 where
  pub process_id : ProcessId
  pub shard_id : ShardId
  pub config : Config
  pub all : Option (List ProcessId)
  pub all_but_me : Option (List ProcessId)
  pub majority_quorum : Option (List ProcessId)
  pub fast_quorum : Option (List ProcessId)
  pub write_quorum : Option (List ProcessId)
  pub closest_shard_process : Map ShardId ProcessId
  pub fast_quorum_size : ℕ
  pub write_quorum_size : ℕ
  pub dot_gen : IdGen ProcessId
  pub metrics : ProtocolMetrics

unfoldable pub new :
    ProcessId → ShardId → Config → (fast_quorum_size write_quorum_size : ℕ) → Outcome BaseProcess
unfolding new_gen
new process_id shard_id config fast_quorum_size write_quorum_size =
    assert (not (process_id == 0))
    >> done (record {
      process_id = process_id;
      shard_id = shard_id;
      config = config;
      all = none;
      all_but_me = none;
      majority_quorum = none;
      fast_quorum = none;
      write_quorum = none;
      closest_shard_process = [];
      fast_quorum_size = fast_quorum_size;
      write_quorum_size = write_quorum_size;
      dot_gen = new_gen process_id;
      metrics = Metrics.new;
    })

-- The loop of `discover`: the processes of this shard, in order, and the closest process of each
-- other shard; a second process of another shard is a panic.
unfoldable pub select_processes :
    ShardId
    → List (ProcessId × ShardId)
    → Map ShardId ProcessId
    → Outcome (List ProcessId × Map ShardId ProcessId)
select_processes mine [] closest = done ([], closest)
select_processes mine ((process_id, shard_id) ∷ others) closest =
    let kept = select_processes mine others closest in
    let closer = select_processes mine others (insert shard_id process_id closest) in
    (if mine == shard_id
      then (kept >>= λ rest. done (process_id ∷ rest.0, rest.1))
      else if contains_key shard_id closest
      then panic
      else closer)

-- `collect` and `HashSet::from_iter`
unfoldable pub to_process_set : List ProcessId → List ProcessId
unfolding add
to_process_set [] = []
to_process_set (p ∷ processes) = add p (to_process_set processes)

unfoldable pub without_me : ProcessId → List ProcessId → List ProcessId
without_me me [] = []
without_me me (p ∷ processes) =
    let rest = without_me me processes in if p == me then rest else p ∷ rest

-- A quorum of the first `size` processes, if there are as many.
unfoldable pub quorum_of : ℕ → List ProcessId → Option (List ProcessId)
unfolding to_process_set
quorum_of size processes =
    let quorum = to_process_set (take processes size) in
    if length quorum == size then some quorum else none

abbrev pub is_some {ℓ} : {A : Type ℓ} → Option A → Bool
is_some none = false
is_some (some a) = true

unfoldable pub discover : List (ProcessId × ShardId) → BaseProcess → Outcome (BaseProcess × Bool)
unfolding select_processes to_process_set without_me quorum_of
discover all_processes bp = select_processes bp.shard_id all_processes [] >>= λ selected.
    let majority = quorum_of (majority_quorum_size bp.config) selected.0 in
    let fast = quorum_of bp.fast_quorum_size selected.0 in
    let write = quorum_of bp.write_quorum_size selected.0 in
    done (
      record bp {
        closest_shard_process = selected.1;
        all = some (to_process_set selected.0);
        all_but_me = some (to_process_set (without_me bp.process_id selected.0));
        majority_quorum = majority;
        fast_quorum = fast;
        write_quorum = write;
      },
      is_some majority && is_some fast && is_some write,
    )

unfoldable pub next_dot : BaseProcess → BaseProcess × Dot
unfolding next_id
next_dot bp = let (dot_gen, dot) = next_id bp.dot_gen in (record bp { dot_gen = dot_gen }, dot)

-- `expect`
abbrev pub expect {ℓ} : {A : Type ℓ} → Option A → Outcome A
expect none = panic
expect (some a) = done a

unfoldable pub closest_process : ShardId → BaseProcess → Outcome ProcessId
closest_process shard_id bp = expect (get shard_id bp.closest_shard_process)

unfoldable pub maybe_adjust_fast_quorum : Command → BaseProcess → Outcome (List ProcessId)
unfolding nfr_allowed
maybe_adjust_fast_quorum cmd bp =
    if bp.config.nfr && nfr_allowed cmd then expect bp.majority_quorum else expect bp.fast_quorum

unfoldable pub path : (fast_path read_only : Bool) → BaseProcess → BaseProcess
path true read_only bp =
    let metrics = aggregate fast_path 1 bp.metrics in
    record bp { metrics = if read_only then aggregate fast_path_reads 1 metrics else metrics }
path false read_only bp =
    let metrics = aggregate slow_path 1 bp.metrics in
    record bp { metrics = if read_only then aggregate slow_path_reads 1 metrics else metrics }

-- `BaseProcess::stable`
unfoldable pub count_stable : ℕ → BaseProcess → BaseProcess
count_stable len bp = record bp { metrics = aggregate stable len bp.metrics }

unfoldable pub collect_metric : ProtocolMetricsKind → ℕ → BaseProcess → BaseProcess
collect_metric kind value bp = record bp { metrics = collect_value kind value bp.metrics }
