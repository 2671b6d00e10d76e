-- ===== src/TableExecutor/Tests.antt =====
-- The theorems on the queues of keys at a command on two keys, followed by another on one of them.
use fantoch.Prelude.{
  ℕ, ◌≡◌, refl, ◌==◌, true, false, none, some, List, [], ◌∷◌, ◌++◌, done, ◌>>=◌, string_partial_eq,
  u64_partial_eq, add64, sub64, mul64, range_inclusive, if◌then◌else◌, arith,
}
use fantoch.Prelude.Maps.{get, insert, remove, values}
use fantoch.Identifiers.{Rifl, process_ids}
use fantoch.Config.{Config, default_config, tempo_quorum_sizes}
use fantoch.Kvs.{Key, read, write}
use fantoch.Kvs
use fantoch.VotesTable.{Pending, new_pending, table_at, contains_op, insert_op}
use fantoch.VotesTable.Stability.{reaching}
use fantoch.VotesTable.Sorting.{IsSorted}
use fantoch.VotesTable.Order.{IsFeed, attached_ops, attached, detached, voted}
use fantoch.VotesTable.InOrder.{Frontiers, add_range, in_order, laws}
use fantoch.TableExecutor.{
  TableExecutor, TableExecutionInfo, attached_votes, detached_votes, stable_at_shard, new,
}
use fantoch.TableExecutor.Composition.{events_at, handle_all, handle_all_in_order}
use fantoch.TableExecutor.Queues.{
  Request, ready, stable, serve, queue, effects, commands, serve-ServedBy, ServedBy,
}
use fantoch.TableExecutor.Order.{
  Entry, at_key, run_entries, arrivals, serve_all, serve_all_in_order,
}

abbrev rifl_of : ℕ → Rifl
rifl_of client = record { source = client; sequence = 1 }

abbrev both_keys : Pending
both_keys = record {
  rifl = rifl_of 10;
  shard_to_keys = (0, "a" ∷ "b" ∷ []) ∷ [];
  shard_key_count = 2;
  missing_stable_shards = 1;
  ops = write "x" ∷ [];
}

abbrev one_key : Pending
one_key = record {
  rifl = rifl_of 20;
  shard_to_keys = (0, "a" ∷ []) ∷ [];
  shard_key_count = 1;
  missing_stable_shards = 1;
  ops = read ∷ [];
}

abbrev requests : List (Key × Request)
requests =
    ("a", ready (both_keys ∷ []))
    ∷ ("a", ready (one_key ∷ []))
    ∷ ("b", ready (both_keys ∷ []))
    ∷ ("a", stable (rifl_of 10))
    ∷ []

abbrev config : Config
config = default_config 3 1

abbrev executor : TableExecutor Unit
executor = new 1 0 config

serve_all_in_order_example :
    (e : TableExecutor Unit) × (executed : List Entry) × (serve_all requests executor ≡ done e)
    × ((key : Key) → at_key key executed ++ queue key e ≡ at_key key (arrivals requests))
    × (effects e ≡ run_entries executed (Kvs.new config.executor_monitor_execution_order, []))
serve_all_in_order_example = serve_all_in_order 1 0 config requests

serve_example :
    ServedBy "a" (commands (one_key ∷ [])) executor (serve "a" (ready (one_key ∷ [])) executor)
serve_example = serve-ServedBy "a" (ready (one_key ∷ [])) executor

-- The command on both keys runs on `b`, and then on `a`, before the other one.
executed_in_order :
    (serve_all requests executor >>= λ (e : TableExecutor Unit). done e.to_clients)
    ≡ done (
        record { rifl = rifl_of 10; key = "b"; partial_results = none ∷ [] }
        ∷ record { rifl = rifl_of 10; key = "a"; partial_results = none ∷ [] }
        ∷ record { rifl = rifl_of 20; key = "a"; partial_results = some "x" ∷ [] }
        ∷ [])
unfolding serve_all new get insert remove
executed_in_order = refl

-- A command on `k` that the votes of two processes make stable, and the message of another key.
abbrev infos : List TableExecutionInfo
infos =
    attached_votes (record { source = 1; sequence = 1 }) 1 "k" (rifl_of 10) ((0, "k" ∷ []) ∷ [])
      (read ∷ [])
      (record { by = 1; start = 1; end = 1 } ∷ record { by = 2; start = 1; end = 1 } ∷ [])
    ∷ stable_at_shard "k" (rifl_of 30)
    ∷ detached_votes "k" (record { by = 3; start = 1; end = 4 } ∷ [])
    ∷ []

abbrev pending_read : ℕ → Pending
pending_read client = record {
  rifl = rifl_of client;
  shard_to_keys = (0, "k" ∷ []) ∷ [];
  shard_key_count = 1;
  missing_stable_shards = 1;
  ops = read ∷ [];
}

abbrev FeedAt : Key → Type 0
FeedAt key =
    IsFeed ⦃ar = in_order⦄ 3 2 [] (in_order.with_ids (process_ids 0 3)) (events_at key 0 infos)

feeds : (key : Key) → FeedAt key
unfolding events_at get contains_op insert_op voted reaching add_range process_ids range_inclusive
    add64 mul64
feeds key =
    elim ("k" == key)
      as (λ b. IsFeed ⦃ar = in_order⦄ 3 2 [] (in_order.with_ids (process_ids 0 3)) (
        (if b
          then attached (record { source = 1; sequence = 1 }) 1 (pending_read 10)
              (record { by = 1; start = 1; end = 1 } ∷ record { by = 2; start = 1; end = 1 } ∷ [])
            ∷ []
          else [])
        ++ ((if b then detached (record { by = 3; start = 1; end = 4 } ∷ []) ∷ [] else [])
            ++ []))) [
              | true ↦ (
                refl,
                omega arith,
                omega arith,
                omega arith,
                (refl, refl, (refl, refl, tt)),
                omega arith,
                ((refl, refl, tt), omega arith, tt),
              )
              | false ↦ tt
            ]

handle_all_in_order_example :
    (e : TableExecutor Frontiers) × (executed : List Entry) × (handle_all ⦃ar = in_order⦄ infos
        (new 1 0 config)
      ≡ done e)
    × ((key : Key)
        → (at_key key executed
              ++ (queue key e ++ commands (values (table_at ⦃ar = in_order⦄ key e.table).ops))
            ≡ commands (values (attached_ops (events_at key 0 infos) [])))
          × IsSorted (attached_ops (events_at key 0 infos) []))
    × (effects e ≡ run_entries executed (Kvs.new config.executor_monitor_execution_order, []))
unfolding tempo_quorum_sizes process_ids range_inclusive add64 mul64 sub64 new_pending get
handle_all_in_order_example =
    handle_all_in_order ⦃ar = in_order⦄ laws 1 0 config infos refl (omega arith) (omega arith) refl
      ((_, refl), (tt, (tt, tt))) feeds
