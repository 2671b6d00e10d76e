-- ===== src/SlotExecutor/Tests.antt =====
-- Runs of the slot executor, and its theorems at concrete inputs.
use fantoch.Prelude.{ℕ, suc, ◌≡◌, refl, none, List, [], ◌∷◌, done, arith, u64_partial_eq}
use fantoch.Prelude.Maps.{get}
use fantoch.Identifiers.{Rifl}
use fantoch.Config.{Config, default_config}
use fantoch.Kvs.{write, read}
use fantoch.Kvs
use fantoch.Commands.{Command}
use fantoch.Commands
use fantoch.SlotExecutor.{SlotExecutor, SlotExecutionInfo, new}
use fantoch.SlotExecutor.Order.{handle_all, received, Follows, handle_all-in_slot_order}

abbrev config : Config
config = default_config 3 1

abbrev rifl : ℕ → Rifl
rifl sequence = record { source = 1; sequence = sequence }

abbrev command : ℕ → Command
command sequence = Commands.from_ops (rifl sequence) (("a", write "x") ∷ [])

-- The slots 2, 4 and 1 arrive: 1 and 2 are executed, and 4 waits for 3.
abbrev infos : List SlotExecutionInfo
infos =
    record { slot = 2; cmd = command 20 }
    ∷ record { slot = 4; cmd = command 40 }
    ∷ record { slot = 1; cmd = command 10 }
    ∷ []

handle_all-in_slot_order_example :
    (e : SlotExecutor) × (handle_all infos (new 0 config) ≡ done e)
    × (total : ℕ) × Follows
        (received infos [])
        (Kvs.new config.executor_monitor_execution_order)
        total
        e
    × (get (suc total) (received infos []) ≡ none)
unfolding get
handle_all-in_slot_order_example = handle_all-in_slot_order 0 config infos refl (
  refl,
  omega arith,
  omega arith,
  (refl, omega arith, omega arith, (refl, omega arith, omega arith, tt)),
)
