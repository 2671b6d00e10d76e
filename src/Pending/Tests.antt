-- ===== src/Pending/Tests.antt =====
-- The theorem on pending commands at a command with two keys.
use fantoch.Prelude.{◌≡◌, refl, none, some, List, [], ◌∷◌, done, string_partial_eq, arith}
use fantoch.Prelude.Maps.{get, contains_key, insert}
use fantoch.Identifiers.{Rifl}
use fantoch.Kvs.{Key, KvOpResult}
use fantoch.Commands.{CommandResultBuilder}
use fantoch.Pending.{AggregatePending, rifl_partial_eq}
use fantoch.Pending.Gathering.{add_all, insert_all, add_all_complete}

abbrev rifl : Rifl
rifl = record { source = 10; sequence = 1 }

abbrev builder : CommandResultBuilder
builder = record { rifl = rifl; key_count = 2; results = [] }

abbrev pending : AggregatePending
pending = record { process_id = 1; shard_id = 0; pending = (rifl, builder) ∷ [] }

abbrev partials : List (Key × List KvOpResult)
partials = ("b", some "2" ∷ []) ∷ ("a", none ∷ []) ∷ []

add_all_complete_example :
    (last : AggregatePending) × (add_all rifl partials pending
      ≡ done (last, record { rifl = rifl; results = insert_all partials [] } ∷ []))
    × (get rifl last.pending ≡ none)
unfolding get contains_key insert
add_all_complete_example =
    add_all_complete rifl partials builder pending refl (refl, (refl, tt)) (omega arith) refl
