-- ===== src/Config.antt =====
-- fantoch/src/config.rs: the configuration and the quorum sizes of each protocol.
pub mod Quorums
mod Tests
use fantoch.Prelude.{
  ℕ, ◌*◌, ◌/◌, Bool, true, false, Option, none, some, Outcome, done, panic, ltb, leb, if◌then◌else◌,
  add64, sub64, mul64,
}

-- `std::time::Duration`, in nanoseconds.
abbrev pub Duration : Type 0
Duration = ℕ

abbrev pub from_millis : ℕ → Duration
from_millis t = t * 1_000_000

pub record Config : Type 0 where
  pub n : ℕ
  pub f : ℕ
  pub shard_count : ℕ
  pub execute_at_commit : Bool
  pub executor_cleanup_interval : Duration
  pub executor_executed_notification_interval : Duration
  pub executor_monitor_pending_interval : Option Duration
  pub executor_monitor_execution_order : Bool
  pub gc_interval : Option Duration
  pub leader : Option ℕ
  pub nfr : Bool
  pub tempo_tiny_quorums : Bool
  pub tempo_clock_bump_interval : Option Duration
  pub tempo_detached_send_interval : Option Duration
  pub caesar_wait_condition : Bool
  pub skip_fast_ack : Bool

abbrev pub default_config : ℕ → ℕ → Config
default_config n f = record {
  n = n;
  f = f;
  shard_count = 1;
  execute_at_commit = false;
  executor_cleanup_interval = from_millis 5;
  executor_executed_notification_interval = from_millis 50;
  executor_monitor_pending_interval = none;
  executor_monitor_execution_order = false;
  gc_interval = none;
  leader = none;
  nfr = false;
  tempo_tiny_quorums = false;
  tempo_clock_bump_interval = none;
  tempo_detached_send_interval = none;
  caesar_wait_condition = true;
  skip_fast_ack = false;
}

-- `Config::new` panics when `f` is more than a minority.
unfoldable pub new : ℕ → ℕ → Outcome Config
new n f = if ltb (n / 2) f then panic else done (default_config n f)

unfoldable pub set_shard_count : ℕ → Config → Outcome Config
set_shard_count k c = if leb 1 k then done (record c { shard_count = k }) else panic

unfoldable pub set_execute_at_commit : Bool → Config → Config
set_execute_at_commit b c = record c { execute_at_commit = b }

unfoldable pub set_executor_cleanup_interval : Duration → Config → Config
set_executor_cleanup_interval d c = record c { executor_cleanup_interval = d }

unfoldable pub set_executor_monitor_pending_interval : Option Duration → Config → Config
set_executor_monitor_pending_interval d c = record c { executor_monitor_pending_interval = d }

unfoldable pub set_executor_monitor_execution_order : Bool → Config → Config
set_executor_monitor_execution_order b c = record c { executor_monitor_execution_order = b }

unfoldable pub set_executor_executed_notification_interval : Duration → Config → Config
set_executor_executed_notification_interval d c = record c {
  executor_executed_notification_interval = d;
}

unfoldable pub set_gc_interval : Option Duration → Config → Config
set_gc_interval d c = record c { gc_interval = d }

unfoldable pub set_leader : Option ℕ → Config → Config
set_leader p c = record c { leader = p }

unfoldable pub set_nfr : Bool → Config → Config
set_nfr b c = record c { nfr = b }

unfoldable pub set_tempo_tiny_quorums : Bool → Config → Config
set_tempo_tiny_quorums b c = record c { tempo_tiny_quorums = b }

unfoldable pub set_tempo_clock_bump_interval : Option Duration → Config → Config
set_tempo_clock_bump_interval d c = record c { tempo_clock_bump_interval = d }

unfoldable pub set_tempo_detached_send_interval : Option Duration → Config → Config
set_tempo_detached_send_interval d c = record c { tempo_detached_send_interval = d }

unfoldable pub set_caesar_wait_condition : Bool → Config → Config
set_caesar_wait_condition b c = record c { caesar_wait_condition = b }

unfoldable pub set_skip_fast_ack : Bool → Config → Config
set_skip_fast_ack b c = record c { skip_fast_ack = b }

unfoldable pub majority_quorum_size : Config → ℕ
unfolding add64
majority_quorum_size c = add64 (c.n / 2) 1

unfoldable pub basic_quorum_size : Config → ℕ
unfolding add64
basic_quorum_size c = add64 c.f 1

unfoldable pub fpaxos_quorum_size : Config → ℕ
unfolding add64
fpaxos_quorum_size c = add64 c.f 1

-- Fast and write quorum sizes.
unfoldable pub atlas_quorum_sizes : Config → ℕ × ℕ
unfolding add64
atlas_quorum_sizes c = (add64 (c.n / 2) c.f, add64 c.f 1)

-- `f` of the configuration is ignored: EPaxos tolerates a minority.
unfoldable pub epaxos_quorum_sizes : Config → ℕ × ℕ
unfolding add64
epaxos_quorum_sizes c = let f = c.n / 2 in (add64 f (add64 f 1 / 2), add64 f 1)

unfoldable pub caesar_quorum_sizes : Config → ℕ × ℕ
unfolding add64 mul64
caesar_quorum_sizes c = (add64 (mul64 3 c.n / 4) 1, add64 (c.n / 2) 1)

-- Fast quorum size, write quorum size and stability threshold, in this order.
unfoldable pub tempo_quorum_sizes : Config → ℕ × ℕ × ℕ
unfolding add64 mul64 sub64
tempo_quorum_sizes c =
    let minority = c.n / 2 in
    let write_quorum_size = add64 c.f 1 in
    if c.tempo_tiny_quorums
    then (mul64 2 c.f, write_quorum_size, sub64 c.n c.f)
    else (add64 minority c.f, write_quorum_size, add64 minority 1)
