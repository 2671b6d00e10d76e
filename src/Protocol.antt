-- ===== src/Protocol.antt =====
-- The actions of fantoch/src/protocol/mod.rs and the worker indexes of fantoch/src/lib.rs
-- (`load_balance`).
use fantoch.Prelude.{ℕ, Option, some, List, Outcome, done, assert, ◌>>◌, ltb}
use fantoch.Identifiers.{ProcessId, Dot}

pub data Action (M : Type 0) : Type 0 where
  to_send : (target : List ProcessId) (msg : M) → Action M
  to_forward : (msg : M) → Action M

abbrev pub leader_worker_index : ℕ
leader_worker_index = 0

abbrev pub gc_worker_index : ℕ
gc_worker_index = 0

abbrev pub workers_indexes_reserved : ℕ
workers_indexes_reserved = 2

unfoldable pub worker_index_no_shift : ℕ → Outcome (Option (ℕ × ℕ))
worker_index_no_shift index = assert (ltb index workers_indexes_reserved) >> done (some (0, index))

unfoldable pub worker_index_shift : ℕ → Option (ℕ × ℕ)
worker_index_shift index = some (workers_indexes_reserved, index)

unfoldable pub worker_dot_index_shift : Dot → Option (ℕ × ℕ)
unfolding worker_index_shift
worker_dot_index_shift dot = worker_index_shift dot.sequence
