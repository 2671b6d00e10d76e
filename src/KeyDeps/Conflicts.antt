-- ===== src/KeyDeps/Conflicts.antt =====
-- fantoch_ps/src/protocol/common/graph/deps/keys/sequential.rs: whatever conflicts with a write or
-- a noop that was added before reaches it through the dependencies that were returned.
use fantoch.Prelude.{
  ◌≡◌, refl, ap, sym, subst, Bool, true, false, not, ◌&&◌, Option, none, some, List, [], ◌∷◌, done,
  assert, ◌>>◌, ◌⊎◌, ◌==◌, u64_partial_eq, string_partial_eq, if◌then◌else◌, if-cases, inl, inr,
  arith,
}
use fantoch.Prelude.Maps.{Map, values}
use fantoch.Prelude.Sets.{contains}
use mathlib.Core.List.{Memᴰ}
use mathlib.Core.List.Memᴰ.{head, tail}
use fantoch.Identifiers.{ShardId, Dot}
use fantoch.Kvs.{Key}
use fantoch.Commands.{Command, read_only, command_keys, total_key_count}
use fantoch.KeyDeps.{
  Dependency, dependency_partial_eq, LatestDep, LatestRwDep, SequentialKeyDeps, new, latest_at,
  from_cmd, from_noop, add_latest, add_keys, do_add_cmd, add_cmd, add_noop,
}
use fantoch.KeyDeps.Loop.{
  Collects, add_latest-Grows, add_latest-Collects, add_keys-Collects, add_keys-write,
  Collects-Grows, noop_deps-Collects, noop_deps-Grows,
}

-- What was added, a command or a noop (`none`), and the dependencies that were returned.
pub record Added : Type 0 where
  pub dot : Dot
  pub cmd : Option Command
  pub deps : List Dependency

-- The calls that were made since `new`, the latest first.
pub data Run (shard_id : ShardId) (nfr : Bool) : List Added → SequentialKeyDeps → Type 0 where
  fresh : Run shard_id nfr [] (new shard_id nfr)
  command :
      {h : List Added} {k k' : SequentialKeyDeps} (dot : Dot) (cmd : Command)
      (past : Option (List Dependency)) (deps : List Dependency)
      → Run shard_id nfr h k
      → add_cmd dot cmd past k ≡ done (k', deps)
      → Run shard_id nfr (record { dot = dot; cmd = some cmd; deps = deps } ∷ h) k'
  noop :
      {h : List Added} {k : SequentialKeyDeps} (dot : Dot)
      → Run shard_id nfr h k
      → Run shard_id nfr
          (record { dot = dot; cmd = none; deps = (add_noop dot k).1 } ∷ h)
          (add_noop dot k).0

-- A command depends on those it was told, and on what these depend on.
pub data DependsOn (h : List Added) : Dot → Dot → Type 0 where
  directly :
      (a : Added) (dep : Dependency) (from to : Dot)
      → Memᴰ a h
      → contains dep a.deps ≡ true
      → a.dot ≡ from
      → dep.dot ≡ to
      → DependsOn h from to
  through : {a b c : Dot} → DependsOn h a b → DependsOn h b c → DependsOn h a c

abbrev pub Touches : ShardId → Key → Option Command → Type 0
Touches shard_id key none = Unit
Touches shard_id key (some cmd) = contains key (command_keys shard_id cmd) ≡ true

abbrev pub Writes : ShardId → Key → Option Command → Type 0
Writes shard_id key none = ⊥
Writes shard_id key (some cmd) =
    (contains key (command_keys shard_id cmd) ≡ true) × (read_only cmd ≡ false)

abbrev pub IsNoop : Option Command → Type 0
IsNoop none = Unit
IsNoop (some cmd) = ⊥

-- Each entry reaches the earlier noops, and the earlier writes of the keys it touches; a noop
-- touches all.
abbrev pub IsOrdered : ShardId → List Added → Type 0
IsOrdered shard_id [] = Unit
IsOrdered shard_id (later ∷ h) =
    ((earlier : Added)
      → Memᴰ earlier h
      → IsNoop earlier.cmd
        ⊎ ((key : Key) × Writes shard_id key earlier.cmd × Touches shard_id key later.cmd)
      → DependsOn (later ∷ h) later.dot earlier.dot)
    × IsOrdered shard_id h

-- A dependency leads to an earlier entry.
abbrev pub Reaches : List Added → LatestDep → Dot → Type 0
Reaches h none to = ⊥
Reaches h (some dep) to = (dep.dot ≡ to) ⊎ DependsOn h dep.dot to

pub record IsCovering (shard_id : ShardId) (h : List Added) (k : SequentialKeyDeps) : Type 0 where
  shard : k.shard_id ≡ shard_id
  writes :
      (key : Key) (earlier : Added)
      → Memᴰ earlier h
      → Writes shard_id key earlier.cmd
      → Reaches h (latest_at key k.latest).write earlier.dot
  noops :
      (earlier : Added) → Memᴰ earlier h → IsNoop earlier.cmd → Reaches h k.latest_noop earlier.dot

DependsOn-weaken :
    {h : List Added} (added : Added) {a b : Dot} → DependsOn h a b → DependsOn (added ∷ h) a b
DependsOn-weaken added (directly a dep from to m c f t) = directly a dep from to (tail m) c f t
DependsOn-weaken added (through p q) = through (DependsOn-weaken added p) (DependsOn-weaken added q)

Reaches-weaken :
    (added : Added) (h : List Added) (latest : LatestDep) (to : Dot)
    → Reaches h latest to
    → Reaches (added ∷ h) latest to
Reaches-weaken added h none to r = r
Reaches-weaken added h (some dep) to (inl e) = inl e
Reaches-weaken added h (some dep) to (inr d) = inr (DependsOn-weaken added d)

-- What a collected dependency reaches, the added entry reaches.
Collects-DependsOn :
    (added : Added) (h : List Added) (latest : LatestDep) (to : Dot)
    → Reaches h latest to
    → Collects latest added.deps
    → DependsOn (added ∷ h) added.dot to
Collects-DependsOn added h none to r c = absurd r
Collects-DependsOn added h (some dep) to (inl e) c =
    directly added dep added.dot to (head refl) c refl e
Collects-DependsOn added h (some dep) to (inr d) c =
    through (directly added dep added.dot dep.dot (head refl) c refl refl)
      (DependsOn-weaken added d)

module _ (shard_id : ShardId) (h : List Added) (k : SequentialKeyDeps)
    (cov : IsCovering shard_id h k) where
  module _ (dot : Dot) (cmd : Command) (past : List Dependency) where
    abbrev looped : Map Key LatestRwDep × List Dependency
    looped =
        add_keys (read_only cmd) k.nfr (from_cmd dot cmd) (command_keys k.shard_id cmd) k.latest
          past

    abbrev entry_of : Added
    entry_of = record { dot = dot; cmd = some cmd; deps = add_latest k.latest_noop looped.1 }

    after_write :
        (key : Key) (earlier : Added)
        → Memᴰ earlier h
        → Writes shard_id key earlier.cmd
        → contains key (command_keys k.shard_id cmd) ≡ true
        → DependsOn (entry_of ∷ h) dot earlier.dot
    after_write key earlier m w t =
        Collects-DependsOn entry_of h (latest_at key k.latest).write earlier.dot
          (cov.writes key earlier m w)
          (Collects-Grows (latest_at key k.latest).write looped.1 entry_of.deps
            (add_latest-Grows k.latest_noop looped.1)
            (add_keys-Collects (read_only cmd) k.nfr (from_cmd dot cmd)
              (command_keys k.shard_id cmd) k.latest past key t))

    after_noop :
        (earlier : Added)
        → Memᴰ earlier h
        → IsNoop earlier.cmd
        → DependsOn (entry_of ∷ h) dot earlier.dot
    after_noop earlier m n =
        Collects-DependsOn entry_of h k.latest_noop earlier.dot (cov.noops earlier m n)
          (add_latest-Collects k.latest_noop looped.1)

    touched :
        (key : Key)
        → contains key (command_keys shard_id cmd) ≡ true
        → contains key (command_keys k.shard_id cmd) ≡ true
    touched key t = subst (λ s. contains key (command_keys s cmd) ≡ true) (sym cov.shard) t

    command-write :
        (key : Key) (earlier : Added) (m : Memᴰ earlier h)
        → Writes shard_id key earlier.cmd
        → Reaches (entry_of ∷ h) (latest_at key looped.0).write earlier.dot
    unfolding from_cmd
    command-write key earlier m w =
        let written =
          add_keys-write (read_only cmd) k.nfr (from_cmd dot cmd) (command_keys k.shard_id cmd)
            k.latest past key in
        subst (λ l. Reaches (entry_of ∷ h) l earlier.dot) (sym written)
          (if-cases (λ l. Reaches (entry_of ∷ h) l earlier.dot)
            (contains key (command_keys k.shard_id cmd) && not (read_only cmd))
            (some (from_cmd dot cmd)) (latest_at key k.latest).write
            (λ both. inr (after_write key earlier m w (ground (arith, both))))
            (λ _.
              Reaches-weaken entry_of h (latest_at key k.latest).write earlier.dot
                (cov.writes key earlier m w)))

    own-write :
        (key : Key)
        → Writes shard_id key (some cmd)
        → Reaches (entry_of ∷ h) (latest_at key looped.0).write dot
    unfolding from_cmd
    own-write key (t, w) =
        let written =
          add_keys-write (read_only cmd) k.nfr (from_cmd dot cmd) (command_keys k.shard_id cmd)
            k.latest past key in
        subst (λ l. Reaches (entry_of ∷ h) l dot) (sym written)
          (if-cases (λ l. Reaches (entry_of ∷ h) l dot)
            (contains key (command_keys k.shard_id cmd) && not (read_only cmd))
            (some (from_cmd dot cmd)) (latest_at key k.latest).write (λ _. inl refl)
            (λ not_both. absurd (ground (arith, not_both, touched key t, w))))

    command-IsCovering : IsCovering shard_id (entry_of ∷ h) (record k { latest = looped.0 })
    command-IsCovering = record { shard = cov.shard; writes = writes; noops = noops }
      where
        writes :
            (key : Key) (earlier : Added)
            → Memᴰ earlier (entry_of ∷ h)
            → Writes shard_id key earlier.cmd
            → Reaches (entry_of ∷ h) (latest_at key looped.0).write earlier.dot
        writes key earlier (head e) w =
            subst (λ (a : Added). Reaches (entry_of ∷ h) (latest_at key looped.0).write a.dot)
              (sym e) (own-write key (subst (λ (a : Added). Writes shard_id key a.cmd) e w))
        writes key earlier (tail m) w = command-write key earlier m w

        noops :
            (earlier : Added)
            → Memᴰ earlier (entry_of ∷ h)
            → IsNoop earlier.cmd
            → Reaches (entry_of ∷ h) k.latest_noop earlier.dot
        noops earlier (head e) n = absurd (subst (λ (a : Added). IsNoop a.cmd) e n)
        noops earlier (tail m) n =
            Reaches-weaken entry_of h k.latest_noop earlier.dot (cov.noops earlier m n)

  module _ (dot : Dot) where
    abbrev noop_of : Added
    noop_of = record { dot = dot; cmd = none; deps = (add_noop dot k).1 }

    noop-after_write :
        (key : Key) (earlier : Added)
        → Memᴰ earlier h
        → Writes shard_id key earlier.cmd
        → DependsOn (noop_of ∷ h) dot earlier.dot
    unfolding add_noop
    noop-after_write key earlier m w =
        Collects-DependsOn noop_of h (latest_at key k.latest).write earlier.dot
          (cov.writes key earlier m w)
          (noop_deps-Collects k.latest (add_latest k.latest_noop []) key)

    noop-after_noop :
        (earlier : Added)
        → Memᴰ earlier h
        → IsNoop earlier.cmd
        → DependsOn (noop_of ∷ h) dot earlier.dot
    unfolding add_noop
    noop-after_noop earlier m n =
        let start = add_latest k.latest_noop [] in
        Collects-DependsOn noop_of h k.latest_noop earlier.dot (cov.noops earlier m n) (
          Collects-Grows k.latest_noop start noop_of.deps (noop_deps-Grows (values k.latest) start)
            (add_latest-Collects k.latest_noop []))

    noop-IsCovering : IsCovering shard_id (noop_of ∷ h) (add_noop dot k).0
    unfolding add_noop from_noop
    noop-IsCovering = record { shard = cov.shard; writes = writes; noops = noops }
      where
        writes :
            (key : Key) (earlier : Added)
            → Memᴰ earlier (noop_of ∷ h)
            → Writes shard_id key earlier.cmd
            → Reaches (noop_of ∷ h) (latest_at key k.latest).write earlier.dot
        writes key earlier (head e) w =
            absurd (subst (λ (a : Added). Writes shard_id key a.cmd) e w)
        writes key earlier (tail m) w =
            Reaches-weaken noop_of h (latest_at key k.latest).write earlier.dot
              (cov.writes key earlier m w)

        noops :
            (earlier : Added)
            → Memᴰ earlier (noop_of ∷ h)
            → IsNoop earlier.cmd
            → (dot ≡ earlier.dot) ⊎ DependsOn (noop_of ∷ h) dot earlier.dot
        noops earlier (head e) n = inl (sym (ap (λ (a : Added). a.dot) e))
        noops earlier (tail m) n = inr (noop-after_noop earlier m n)

done-of-assert {ℓ} : {A : Type ℓ} (b : Bool) (a c : A) → assert b >> done a ≡ done c → a ≡ c
done-of-assert true a c h = cc
done-of-assert false a c h = absurd (ground arith)

-- `add_cmd` that returned has run its loop from the past that it was given.
add_cmd-done :
    (dot : Dot) (cmd : Command) (past : Option (List Dependency)) (k k' : SequentialKeyDeps)
    (deps : List Dependency)
    → add_cmd dot cmd past k ≡ done (k', deps)
    → (start : List Dependency) × (let after =
          add_keys
            (read_only cmd)
            k.nfr
            (from_cmd dot cmd)
            (command_keys k.shard_id cmd)
            k.latest
            start in
        ◌≡◌ {A = SequentialKeyDeps × List Dependency}
          (record k { latest = after.0 }, add_latest k.latest_noop after.1)
          (k', deps))
unfolding add_cmd do_add_cmd
add_cmd-done dot cmd past k k' deps returned = (
  elim past [ none ↦ [] | some past ↦ past ],
  done-of-assert (if k.nfr && read_only cmd then total_key_count cmd == 1 else true) _ _ returned,
)

pub Run-IsCovering :
    {shard_id : ShardId} {nfr : Bool} {h : List Added} {k : SequentialKeyDeps}
    → Run shard_id nfr h k
    → IsCovering shard_id h k
unfolding new
Run-IsCovering fresh = record {
  shard = refl;
  writes = λ key earlier m w. elim m [ ];
  noops = λ earlier m n. elim m [ ];
}
Run-IsCovering {shard_id} {nfr} (command {h} {k} {k'} dot cmd past deps run returned) =
    let (start, same) = add_cmd-done dot cmd past k k' deps returned in
    subst
      (λ (r : SequentialKeyDeps × List Dependency).
        IsCovering shard_id (record { dot = dot; cmd = some cmd; deps = r.1 } ∷ h) r.0)
      same (command-IsCovering shard_id h k (Run-IsCovering run) dot cmd start)
Run-IsCovering {shard_id} (noop {h} {k} dot run) =
    noop-IsCovering shard_id h k (Run-IsCovering run) dot

-- In every run of `add_cmd` and `add_noop`, what is added depends, through the dependencies that
-- were returned, on every noop added before; and so does what touches a key (a noop touches every
-- key) on every earlier command that is not read-only and has the key on this shard.
pub conflicts-IsOrdered :
    {shard_id : ShardId} {nfr : Bool} {h : List Added} {k : SequentialKeyDeps}
    → Run shard_id nfr h k
    → IsOrdered shard_id h
conflicts-IsOrdered fresh = tt
conflicts-IsOrdered {shard_id} (command {h} {k} {k'} dot cmd past deps run returned) =
    let (start, same) = add_cmd-done dot cmd past k k' deps returned in
    let cov = Run-IsCovering run in
    subst
      (λ (r : SequentialKeyDeps × List Dependency).
        IsOrdered shard_id (record { dot = dot; cmd = some cmd; deps = r.1 } ∷ h))
      same (ordered cov start, conflicts-IsOrdered run)
  where
    ordered :
        (cov : IsCovering shard_id h k) (start : List Dependency) (earlier : Added)
        → Memᴰ earlier h
        → IsNoop earlier.cmd
          ⊎ ((key : Key) × Writes shard_id key earlier.cmd × Touches shard_id key (some cmd))
        → DependsOn (entry_of shard_id h k cov dot cmd start ∷ h) dot earlier.dot
    ordered cov start earlier m (inl n) = after_noop shard_id h k cov dot cmd start earlier m n
    ordered cov start earlier m (inr (key, w, t)) =
        after_write shard_id h k cov dot cmd start key earlier m w
          (touched shard_id h k cov dot cmd start key t)
conflicts-IsOrdered {shard_id} (noop {h} {k} dot run) =
    (ordered (Run-IsCovering run), conflicts-IsOrdered run)
  where
    ordered :
        (cov : IsCovering shard_id h k) (earlier : Added)
        → Memᴰ earlier h
        → IsNoop earlier.cmd
          ⊎ ((key : Key) × Writes shard_id key earlier.cmd × Touches shard_id key none)
        → DependsOn (noop_of shard_id h k cov dot ∷ h) dot earlier.dot
    ordered cov earlier m (inl n) = noop-after_noop shard_id h k cov dot earlier m n
    ordered cov earlier m (inr (key, w, t)) = noop-after_write shard_id h k cov dot key earlier m w
