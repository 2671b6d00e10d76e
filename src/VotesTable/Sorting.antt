-- ===== src/VotesTable/Sorting.antt =====
-- fantoch_ps/src/executor/table/mod.rs: the sorted map of commands by clock and dot.
use fantoch.Prelude.{
  ◌≡◌, refl, ap, sym, subst, true, false, [], ◌∷◌, ◌++◌, if-cases, All, All-map, arith,
}
use fantoch.VotesTable.{SortId, before, Pending, Ops, insert_op, contains_op, split_off}

before_trans : (a b c : SortId) → before a b ≡ true → before b c ≡ true → before a c ≡ true
unfolding before
before_trans a b c h k = ground (arith, h, k)

before-not : (a b : SortId) → before a b ≡ true → before b a ≡ false
unfolding before
before-not a b h = ground (arith, h)

-- Each entry is before all that follow it.
abbrev pub IsSorted : Ops → Type 0
IsSorted [] = Unit
IsSorted (op ∷ ops) =
    All (λ (other : SortId × Pending). before op.0 other.0 ≡ true) ops × IsSorted ops

pub IsSorted-append : (front ops : Ops) → IsSorted (front ++ ops) → IsSorted ops
IsSorted-append [] ops sorted = sorted
IsSorted-append (op ∷ front) ops sorted = IsSorted-append front ops sorted.1

pub All-insert_op :
    (P : SortId × Pending → Type 0) (id : SortId) (pending : Pending) (ops : Ops)
    → P (id, pending)
    → All P ops
    → All P (insert_op id pending ops)
unfolding insert_op
All-insert_op P id pending [] h a = (h, tt)
All-insert_op P id pending (op ∷ ops) h a =
    if-cases (All P) (before id op.0) _ _ (λ _. (h, a))
      (λ _.
        if-cases (All P) (before op.0 id) _ _ (λ _. (a.0, All-insert_op P id pending ops h a.1))
          (λ _. (h, a.1)))

pub insert_op-IsSorted :
    (id : SortId) (pending : Pending) (ops : Ops)
    → contains_op id ops ≡ false
    → IsSorted ops
    → IsSorted (insert_op id pending ops)
unfolding insert_op contains_op
insert_op-IsSorted id pending [] absent sorted = (tt, tt)
insert_op-IsSorted id pending (op ∷ ops) absent sorted =
    if-cases IsSorted (before id op.0) _ _
      (λ first. (
        (
          first,
          All-map (λ (other : SortId × Pending). before op.0 other.0 ≡ true)
              (λ other. before id other.0 ≡ true) (λ other. before_trans id op.0 other.0 first) ops
              sorted.0,
        ),
        sorted,
      ))
      (λ not_first.
        if-cases IsSorted (before op.0 id) _ _
          (λ later. (
            All-insert_op (λ other. before op.0 other.0 ≡ true) id pending ops later sorted.0,
            insert_op-IsSorted id pending ops (ground (arith, absent, not_first, later)) sorted.1,
          ))
          (λ same. absurd (ground (arith, absent, not_first, same))))

-- What is after every entry of the front is put into the rest.
pub insert_op-append :
    (id : SortId) (pending : Pending) (front ops : Ops)
    → All (λ (op : SortId × Pending). before op.0 id ≡ true) front
    → insert_op id pending (front ++ ops) ≡ front ++ insert_op id pending ops
unfolding insert_op
insert_op-append id pending [] ops a = refl
insert_op-append id pending (op ∷ front) ops a =
    ground (arith, a.0, before-not op.0 id a.0, insert_op-append id pending front ops a.1)

pub contains_op-append :
    (id : SortId) (front ops : Ops)
    → contains_op id (front ++ ops) ≡ false
    → contains_op id ops ≡ false
unfolding contains_op
contains_op-append id [] ops h = h
contains_op-append id (op ∷ front) ops h = contains_op-append id front ops (ground (arith, h))

split_off-none :
    (id : SortId) (ops : Ops)
    → All (λ (op : SortId × Pending). before op.0 id ≡ false) ops
    → split_off id ops ≡ ([], ops)
unfolding split_off
split_off-none id [] a = refl
split_off-none id (op ∷ ops) a = ground (arith, a.0, split_off-none id ops a.1)

not-before : (a b id : SortId) → before a id ≡ false → before a b ≡ true → before b id ≡ false
unfolding before
not-before a b id h k = ground (arith, h, k)

-- The map in two parts, the first one before the identifier.
abbrev pub IsCut : SortId → Ops → Ops × Ops → Type 0
IsCut id ops (low, high) =
    (low ++ high ≡ ops)
    × All (λ (op : SortId × Pending). before op.0 id ≡ true) low
    × All (λ (op : SortId × Pending). before op.0 id ≡ false) high

pub split_off-IsCut : (id : SortId) (ops : Ops) → IsSorted ops → IsCut id ops (split_off id ops)
unfolding split_off
split_off-IsCut id [] sorted = (refl, tt, tt)
split_off-IsCut id (op ∷ ops) sorted =
    let (joined, low, high) = split_off-IsCut id ops sorted.1 in
    if-cases (IsCut id (op ∷ ops)) (before op.0 id) _ _
      (λ first. (ap (λ (rest : Ops). op ∷ rest) joined, (first, low), high))
      (λ not_first.
        let above =
          All-map (λ (other : SortId × Pending). before op.0 other.0 ≡ true)
            (λ other. before other.0 id ≡ false) (λ other. not-before op.0 other.0 id not_first) ops
            sorted.0 in
        subst (λ (parts : Ops × Ops). IsCut id (op ∷ ops) (parts.0, op ∷ parts.1))
          (sym (split_off-none id ops above)) (refl, tt, (not_first, above)))
