-- ===== src/Kvs/Tests.antt =====
-- The theorems on the key-value store at concrete inputs.
use fantoch.Prelude.{
  ◌≡◌, refl, false, none, some, List, [], ◌∷◌, ◌++◌, if◌then◌else◌, string_partial_eq,
}
use fantoch.Prelude.Maps.{get, insert}
use fantoch.Identifiers.{Rifl}
use fantoch.Kvs.{KvOp, read, write, delete, KvStore, ExecutionOrderMonitor, execute, add}
use fantoch.Kvs.Refinement.{apply_all, order_of, execute_refines, order_of-add}

abbrev rifl : Rifl
rifl = record { source = 7; sequence = 1 }

abbrev ops : List KvOp
ops = read ∷ write "2" ∷ read ∷ delete ∷ write "3" ∷ []

abbrev monitor : ExecutionOrderMonitor
monitor = record { order_per_key = ("a", rifl ∷ []) ∷ [] }

abbrev store : KvStore
store = record { store = ("a", "1") ∷ ("b", "9") ∷ []; monitor = some monitor }

execute_refines_example :
    (get "b" (execute "a" ops rifl store).0.store ≡ (
      if string_partial_eq.equal "a" "b"
      then (apply_all ops (get "a" store.store)).0
      else get "b" store.store))
    × ((execute "a" ops rifl store).1 ≡ (apply_all ops (get "a" store.store)).1)
execute_refines_example = execute_refines "a" "b" ops rifl store

order_of-add_example : order_of "a" (add "a" false rifl monitor) ≡ (
    if false
    then order_of "a" monitor
    else if string_partial_eq.equal "a" "a"
    then order_of "a" monitor ++ rifl ∷ []
    else order_of "a" monitor)
order_of-add_example = order_of-add "a" "a" false rifl monitor

results : (execute "a" ops rifl store).1 ≡ some "1" ∷ none ∷ some "2" ∷ some "2" ∷ none ∷ []
unfolding execute get insert
results = refl
