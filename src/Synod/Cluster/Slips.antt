-- ===== src/Synod/Cluster/Slips.antt =====
-- Maps and sets of process identifiers that grow by an entry.
use fantoch.Prelude.{
  ℕ, ◌+◌, ◌≡◌, refl, inl, inr, true, false, List, [], ◌∷◌, length, All, u64_partial_eq,
  if◌then◌else◌, Bool-cases, nat_beq, nat_beq_iff, arith,
}
use fantoch.Prelude.Maps.{Map, keys, insert}
use fantoch.Prelude.Sets.{IsDistinct, contains, add}
use fantoch.Identifiers.{ProcessId}

module _ {A : Type 0} where
  pub All-insert :
      (P : ProcessId × A → Type 0) (m : Map ProcessId A) (k : ProcessId) (a : A)
      → All P m
      → P (k, a)
      → All P (insert k a m)
  unfolding insert
  All-insert P [] k a h new = (new, tt)
  All-insert P (entry ∷ m) k a h new = elim (Bool-cases (nat_beq entry.0 k)) [
    | inl same ↦ rw same (new, h.1)
    | inr other ↦ rw other (h.0, All-insert P m k a h.1 new)
  ]

  contains-keys-insert :
      (z k : ProcessId) (a : A) (m : Map ProcessId A)
      → contains z (keys (insert k a m)) ≡ (if nat_beq k z then true else contains z (keys m))
  unfolding insert contains
  contains-keys-insert z k a [] = refl
  contains-keys-insert z k a ((j, x) ∷ m) = ground (arith, contains-keys-insert z k a m)

  pub insert-IsDistinct :
      (k : ProcessId) (a : A) (m : Map ProcessId A)
      → IsDistinct (keys m)
      → IsDistinct (keys (insert k a m))
  unfolding insert contains
  insert-IsDistinct k a [] h = (refl, tt)
  insert-IsDistinct k a ((j, x) ∷ m) h = elim (Bool-cases (nat_beq j k)) [
    | inl same ↦ let e : j ≡ k = (nat_beq_iff j k).0 same in rw same (rw e at (h.0), h.1)
    | inr other ↦
        rw other (ground (arith, contains-keys-insert j k a m, h.0), insert-IsDistinct k a m h.1)
  ]

  pub length-insert-absent :
      (k : ProcessId) (a : A) (m : Map ProcessId A)
      → contains k (keys m) ≡ false
      → length (insert k a m) ≡ length m + 1
  unfolding insert contains
  length-insert-absent k a [] h = omega arith
  length-insert-absent k a ((j, x) ∷ m) h = ground (arith, length-insert-absent k a m)

pub All-add : (P : ℕ → Type 0) (x : ℕ) (xs : List ℕ) → All P xs → P x → All P (add x xs)
unfolding add
All-add P x xs h new = elim (Bool-cases (contains x xs)) [
  | inl old ↦ rw old h
  | inr absent ↦ rw absent (new, h)
]
