-- ===== src/KeyDeps/Loop.antt =====
-- fantoch_ps/src/protocol/common/graph/deps/keys/sequential.rs: what the loops over keys collect.
use fantoch.Prelude.{
  ◌≡◌, refl, ap, subst, Bool, true, false, not, ◌&&◌, none, some, List, [], ◌∷◌, ◌==◌,
  string_partial_eq, if◌then◌else◌, Bool-cases, inl, inr, arith,
}
use fantoch.Prelude.Maps.{Map, get, insert, values, get-insert}
use fantoch.Prelude.Sets.{contains, contains-add}
use fantoch.Kvs.{Key}
use fantoch.KeyDeps.{
  Dependency, dependency_partial_eq, LatestDep, LatestRwDep, or_default, latest_at, add_latest,
  maybe_add_deps, set_latest, add_keys, noop_deps,
}

-- A dependency that is among the latest ones is among those collected.
abbrev pub Collects : LatestDep → List Dependency → Type 0
Collects none deps = Unit
Collects (some dep) deps = contains dep deps ≡ true

-- Nothing is taken away.
abbrev pub Grows : (deps deps' : List Dependency) → Type 0
Grows deps deps' = (dep : Dependency) → contains dep deps ≡ true → contains dep deps' ≡ true

pub add_latest-Grows :
    (latest : LatestDep) (deps : List Dependency) → Grows deps (add_latest latest deps)
unfolding add_latest
add_latest-Grows none deps dep h = h
add_latest-Grows (some new) deps dep h = ground (arith, h, contains-add new dep deps)

pub add_latest-Collects :
    (latest : LatestDep) (deps : List Dependency) → Collects latest (add_latest latest deps)
unfolding add_latest
add_latest-Collects none deps = tt
add_latest-Collects (some new) deps =
    ground (arith, contains-add new new deps, dependency_partial_eq.equal_iff new new)

pub Collects-Grows :
    (latest : LatestDep) (deps deps' : List Dependency)
    → Grows deps deps'
    → Collects latest deps
    → Collects latest deps'
Collects-Grows none deps deps' g c = tt
Collects-Grows (some dep) deps deps' g c = g dep c

maybe_add_deps-Grows :
    (read_only nfr : Bool) (latest_rw : LatestRwDep) (deps : List Dependency)
    → Grows deps (maybe_add_deps read_only nfr latest_rw deps)
unfolding maybe_add_deps
maybe_add_deps-Grows read_only nfr latest_rw deps dep h =
    let written = add_latest-Grows latest_rw.write deps dep h in
    elim (Bool-cases (not read_only && not nfr)) [
      | inl both ↦
          rw both (add_latest-Grows latest_rw.read (add_latest latest_rw.write deps) dep written)
      | inr one ↦ rw one written
    ]

maybe_add_deps-Collects :
    (read_only nfr : Bool) (latest_rw : LatestRwDep) (deps : List Dependency)
    → Collects latest_rw.write (maybe_add_deps read_only nfr latest_rw deps)
unfolding maybe_add_deps
maybe_add_deps-Collects read_only nfr latest_rw deps =
    let written = add_latest-Collects latest_rw.write deps in
    elim (Bool-cases (not read_only && not nfr)) [
      | inl both ↦ rw both (
          Collects-Grows latest_rw.write (add_latest latest_rw.write deps) _
            (add_latest-Grows latest_rw.read (add_latest latest_rw.write deps)) written)
      | inr one ↦ rw one written
    ]

latest_at-insert :
    (key at : Key) (new : LatestRwDep) (latest : Map Key LatestRwDep)
    → latest_at at (insert key new latest) ≡ (if key == at then new else latest_at at latest)
unfolding latest_at
latest_at-insert key at new latest = ground (arith, get-insert key at new latest)

pub add_keys-Grows :
    (read_only nfr : Bool) (dep : Dependency) (keys : List Key) (latest : Map Key LatestRwDep)
    (deps : List Dependency)
    → Grows deps (add_keys read_only nfr dep keys latest deps).1
unfolding add_keys
add_keys-Grows read_only nfr dep [] latest deps other h = h
add_keys-Grows read_only nfr dep (key ∷ keys) latest deps other h =
    add_keys-Grows read_only nfr dep keys _ _ other
      (maybe_add_deps-Grows read_only nfr (latest_at key latest) deps other h)

-- The latest write of each key of the command is collected.
pub add_keys-Collects :
    (read_only nfr : Bool) (dep : Dependency) (keys : List Key) (latest : Map Key LatestRwDep)
    (deps : List Dependency) (at : Key)
    → contains at keys ≡ true
    → Collects (latest_at at latest).write (add_keys read_only nfr dep keys latest deps).1
unfolding add_keys contains
add_keys-Collects read_only nfr dep [] latest deps at there = absurd (ground arith)
add_keys-Collects read_only nfr dep (key ∷ keys) latest deps at there =
    let rw_key = latest_at key latest in
    let deps' = maybe_add_deps read_only nfr rw_key deps in
    let latest' = insert key (set_latest read_only dep rw_key) latest in
    elim (Bool-cases (key == at)) [
      | inl same ↦
          let here = (string_partial_eq.equal_iff key at).0 same in
          subst
            (λ k.
              Collects (latest_at k latest).write (add_keys read_only nfr dep keys latest' deps').1)
            here
            (Collects-Grows rw_key.write deps' _
              (add_keys-Grows read_only nfr dep keys latest' deps')
              (maybe_add_deps-Collects read_only nfr rw_key deps))
      | inr other ↦
          let kept : latest_at at latest' ≡ latest_at at latest =
            ground
              (arith, latest_at-insert key at (set_latest read_only dep rw_key) latest, other) in
          let later : contains at keys ≡ true = ground (arith, there, other) in
          subst
            (λ (l : LatestRwDep).
              Collects l.write (add_keys read_only nfr dep keys latest' deps').1)
            kept (add_keys-Collects read_only nfr dep keys latest' deps' at later)
    ]

set_latest-write :
    (read_only : Bool) (dep : Dependency) (latest_rw : LatestRwDep)
    → (set_latest read_only dep latest_rw).write ≡ (if read_only then latest_rw.write else some dep)
unfolding set_latest
set_latest-write true dep latest_rw = refl
set_latest-write false dep latest_rw = refl

write-insert :
    (read_only : Bool) (dep : Dependency) (key at : Key) (latest : Map Key LatestRwDep)
    → (latest_at at (insert key (set_latest read_only dep (latest_at key latest)) latest)).write
      ≡ (if key == at && not read_only then some dep else (latest_at at latest).write)
write-insert read_only dep key at latest =
    let new = set_latest read_only dep (latest_at key latest) in
    let inserted = ap (λ (l : LatestRwDep). l.write) (latest_at-insert key at new latest) in
    let set = set_latest-write read_only dep (latest_at key latest) in
    elim (Bool-cases (key == at)) [
      | inl same ↦ ground (arith, inserted, set, same, (string_partial_eq.equal_iff key at).0 same)
      | inr other ↦ ground (arith, inserted, other)
    ]

-- The latest write of a key afterwards.
pub add_keys-write :
    (read_only nfr : Bool) (dep : Dependency) (keys : List Key) (latest : Map Key LatestRwDep)
    (deps : List Dependency) (at : Key)
    → (latest_at at (add_keys read_only nfr dep keys latest deps).0).write
      ≡ (if contains at keys && not read_only then some dep else (latest_at at latest).write)
unfolding add_keys contains
add_keys-write read_only nfr dep [] latest deps at = refl
add_keys-write read_only nfr dep (key ∷ keys) latest deps at =
    let rw_key = latest_at key latest in
    let new = set_latest read_only dep rw_key in
    let rest =
      add_keys-write read_only nfr dep keys (insert key new latest)
        (maybe_add_deps read_only nfr rw_key deps) at in
    ground (arith, rest, write-insert read_only dep key at latest)

pub noop_deps-Grows :
    (all : List LatestRwDep) (deps : List Dependency) → Grows deps (noop_deps all deps)
unfolding noop_deps
noop_deps-Grows [] deps dep h = h
noop_deps-Grows (latest_rw ∷ more) deps dep h =
    noop_deps-Grows more _ dep
      (add_latest-Grows latest_rw.write _ dep (add_latest-Grows latest_rw.read deps dep h))

-- A noop collects the latest write of each key.
pub noop_deps-Collects :
    (latest : Map Key LatestRwDep) (deps : List Dependency) (at : Key)
    → Collects (latest_at at latest).write (noop_deps (values latest) deps)
unfolding noop_deps get latest_at
noop_deps-Collects [] deps at = tt
noop_deps-Collects ((key, latest_rw) ∷ more) deps at =
    let deps' = add_latest latest_rw.write (add_latest latest_rw.read deps) in
    elim (key == at)
      as (λ b.
        Collects (or_default (if b then some latest_rw else get at more)).write
          (noop_deps (values more) deps')) [
            | true ↦
                Collects-Grows latest_rw.write deps' _ (noop_deps-Grows (values more) deps')
                  (add_latest-Collects latest_rw.write (add_latest latest_rw.read deps))
            | false ↦ noop_deps-Collects more deps' at
          ]
