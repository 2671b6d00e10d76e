-- ===== src/Metrics.antt =====
-- fantoch/src/metrics/mod.rs, the recording part of fantoch/src/metrics/histogram.rs, and the kinds of
-- protocol metrics of fantoch/src/protocol/mod.rs. A histogram is the count of each of its values.
use fantoch.Prelude.{ℕ, none, some, [], PartialEq, u64_partial_eq, add64}
use fantoch.Prelude.Maps.{Map, get, insert}
use fantoch.Prelude.Discreteness.{discrete_partial_eq}

pub record Metrics (K : Type 0) : Type 0 where
  pub collected : Map K (Map ℕ ℕ)
  pub aggregated : Map K ℕ

abbrev pub new : {K : Type 0} → Metrics K
new = record { collected = []; aggregated = [] }

-- `Histogram::increment`
unfoldable pub increment : ℕ → Map ℕ ℕ → Map ℕ ℕ
unfolding add64
increment value values =
    insert value (elim (get value values) [ none ↦ add64 0 1 | some count ↦ add64 count 1 ]) values

module _ {K : Type 0} ⦃eq : PartialEq K⦄ where
  -- `Metrics::collect`
  unfoldable pub collect_value : K → ℕ → Metrics K → Metrics K
  unfolding increment
  collect_value kind value m =
      let stats : Map ℕ ℕ = elim (get kind m.collected) [ none ↦ [] | some current ↦ current ] in
      record m { collected = insert kind (increment value stats) m.collected }

  unfoldable pub aggregate : K → ℕ → Metrics K → Metrics K
  unfolding add64
  aggregate kind by m =
      let current : ℕ = elim (get kind m.aggregated) [ none ↦ 0 | some current ↦ current ] in
      record m { aggregated = insert kind (add64 current by) m.aggregated }

pub data ProtocolMetricsKind : Type 0 where
  fast_path : ProtocolMetricsKind
  slow_path : ProtocolMetricsKind
  fast_path_reads : ProtocolMetricsKind
  slow_path_reads : ProtocolMetricsKind
  stable : ProtocolMetricsKind
  commit_latency : ProtocolMetricsKind
  wait_condition_delay : ProtocolMetricsKind
  committed_deps_len : ProtocolMetricsKind
  command_key_count : ProtocolMetricsKind

pub ProtocolMetricsKind-discrete : Discrete ProtocolMetricsKind
ProtocolMetricsKind-discrete = hlevel

instance abbrev pub kind_partial_eq : PartialEq ProtocolMetricsKind
kind_partial_eq = discrete_partial_eq ProtocolMetricsKind-discrete

abbrev pub ProtocolMetrics : Type 0
ProtocolMetrics = Metrics ProtocolMetricsKind
