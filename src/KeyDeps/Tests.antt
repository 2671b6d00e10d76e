-- ===== src/KeyDeps/Tests.antt =====
-- The theorem on conflicts at a run with two writes, two reads and a noop, and what a write does
-- not depend on.
use fantoch.Prelude.{
  ℕ, ◌≡◌, refl, false, none, some, List, [], ◌∷◌, Outcome, done, ◌>>=◌, string_partial_eq,
}
use fantoch.Prelude.Sets.{contains}
use fantoch.Prelude.Maps.{get, insert}
use native.Mathlib.Decide.{ℕ_discrete}
use fantoch.Identifiers.{Dot}
use fantoch.Kvs.{KvOp, read, write}
use fantoch.Commands.{Command, from_ops}
use fantoch.KeyDeps.{Dependency, dependency_discrete, SequentialKeyDeps, new, add_cmd, add_noop}
use fantoch.KeyDeps.Conflicts.{Added, fresh, command, noop, IsOrdered, conflicts-IsOrdered}

abbrev dot_of : ℕ → Dot
dot_of n = record { source = 1; sequence = n }

abbrev cmd_of : ℕ → KvOp → Command
unfolding from_ops
cmd_of n op = from_ops (record { source = 1; sequence = n }) (("a", op) ∷ [])

abbrev dep_of : ℕ → Dependency
dep_of n = record { dot = dot_of n; shards = some (0 ∷ []) }

abbrev noop_dep : ℕ → Dependency
noop_dep n = record { dot = dot_of n; shards = none }

abbrev history : List Added
history =
    record { dot = dot_of 5; cmd = some (cmd_of 5 read); deps = noop_dep 4 ∷ dep_of 3 ∷ [] }
    ∷ record { dot = dot_of 4; cmd = none; deps = dep_of 3 ∷ dep_of 2 ∷ [] }
    ∷ record { dot = dot_of 3; cmd = some (cmd_of 3 (write "y")); deps = dep_of 2 ∷ dep_of 1 ∷ [] }
    ∷ record { dot = dot_of 2; cmd = some (cmd_of 2 read); deps = dep_of 1 ∷ [] }
    ∷ record { dot = dot_of 1; cmd = some (cmd_of 1 (write "x")); deps = [] }
    ∷ []

conflicts-IsOrdered_example : IsOrdered 0 history
unfolding add_cmd add_noop new get cmd_of insert contains dependency_discrete ℕ_discrete
conflicts-IsOrdered_example = conflicts-IsOrdered {shard_id = 0} {nfr = false} (
    command (dot_of 5) (cmd_of 5 read) none (noop_dep 4 ∷ dep_of 3 ∷ [])
      (noop (dot_of 4) (
        command (dot_of 3) (cmd_of 3 (write "y")) none (dep_of 2 ∷ dep_of 1 ∷ [])
          (command (dot_of 2) (cmd_of 2 read) none (dep_of 1 ∷ [])
            (command (dot_of 1) (cmd_of 1 (write "x")) none [] fresh refl) refl)
          refl))
      refl)

-- A read, another read, and a write: the write depends on the second read only.
abbrev two_reads : Outcome (List Dependency)
unfolding add_cmd new
two_reads =
    add_cmd (dot_of 1) (cmd_of 1 read) none (new 0 false)
    >>= λ (first : SequentialKeyDeps × List Dependency).
        add_cmd (dot_of 2) (cmd_of 2 read) none first.0
        >>= λ (second : SequentialKeyDeps × List Dependency).
            add_cmd (dot_of 3) (cmd_of 3 (write "y")) none second.0
            >>= λ (third : SequentialKeyDeps × List Dependency). done third.1

first_read_lost : two_reads ≡ done (dep_of 2 ∷ [])
unfolding two_reads get cmd_of insert contains
first_read_lost = refl
