-- ===== src/Synod/Cluster/Quorums.antt =====
-- Reading facts about members off the sets and maps of promises and accepts.
use fantoch.Prelude.{
  ℕ, zero, suc, ◌+◌, ◌*◌, ◌≤◌, ◌<◌, ◌≡◌, refl, subst, inl, inr, true, some, List, [], ◌∷◌, length,
  All, u64_partial_eq, Bool-cases, nat_beq, nat_beq_iff, arith,
}
use fantoch.Prelude.Maps.{Map, keys, get}
use fantoch.Prelude.Sets.{contains}
use fantoch.Prelude.Counting.{InRange}
use fantoch.Identifiers.{ProcessId}
use fantoch.Synod.Ballots.{IsProcess}
use fantoch.Synod.Cluster.Invariant.{Owns}

module _ {A : Type 0} where
  pub All-get :
      (P : ProcessId × A → Type 0) (m : Map ProcessId A) (k : ProcessId) (a : A)
      → All P m
      → get k m ≡ some a
      → P (k, a)
  unfolding get
  All-get P [] k a h e = absurd (ground arith)
  All-get P ((j, x) ∷ m) k a h e = elim (Bool-cases (nat_beq j k)) [
    | inl same ↦
        let key : j ≡ k = (nat_beq_iff j k).0 same in
        let val : x ≡ a = ground arith in
        subst (λ (z : ProcessId). P (z, a)) key (subst (λ (z : A). P (j, z)) val h.0)
    | inr other ↦ All-get P m k a h.1 (rw other at e)
  ]

  pub get-contains-keys :
      (m : Map ProcessId A) (k : ProcessId)
      → contains k (keys m) ≡ true
      → (a : A) × (get k m ≡ some a)
  unfolding get contains
  get-contains-keys [] k h = absurd (ground arith)
  get-contains-keys ((j, x) ∷ m) k h = elim (Bool-cases (nat_beq j k)) [
    | inl same ↦ (x, rw same)
    | inr other ↦ rw other (get-contains-keys m k (rw other at h))
  ]

  pub length-keys : (m : Map ProcessId A) → length (keys m) ≡ length m
  length-keys [] = refl
  length-keys ((j, x) ∷ m) = omega (arith, length-keys m)

  pub keys-InRange :
      (n : ℕ) (m : Map ProcessId A)
      → All (λ (entry : ProcessId × A). IsProcess n entry.0) m
      → InRange n (keys m)
  keys-InRange n [] h = tt
  keys-InRange n ((j, x) ∷ m) h = ((h.0.positive, h.0.within), keys-InRange n m h.1)

pub All-contains : (P : ℕ → Type 0) (xs : List ℕ) (x : ℕ) → All P xs → contains x xs ≡ true → P x
unfolding contains
All-contains P [] x h e = absurd (ground arith)
All-contains P (y ∷ xs) x h e = elim (Bool-cases (nat_beq y x)) [
  | inl same ↦ subst P ((nat_beq_iff y x).0 same) h.0
  | inr other ↦ All-contains P xs x h.1 (rw other at e)
]

pub InRange-of_IsProcess : (n : ℕ) (xs : List ℕ) → All (IsProcess n) xs → InRange n xs
InRange-of_IsProcess n [] h = tt
InRange-of_IsProcess n (x ∷ xs) h = ((h.0.positive, h.0.within), InRange-of_IsProcess n xs h.1)

pub round_zero : (n p r b : ℕ) → 1 ≤ p → b ≡ p + n * r → b ≤ n → r ≡ 0
round_zero n p zero b h e le = refl
round_zero n p (suc r) b h e le = absurd (grind arith)

-- The one ballot up to `n` is the coordinator's first.
pub Owns-small :
    (n : ℕ) (coordinator p : ProcessId) (b : ℕ)
    → IsProcess n p
    → Owns n coordinator p b
    → b ≤ n
    → b ≡ coordinator
Owns-small n coordinator p b ok (r, e, first) le =
    let none_before : r ≡ 0 = round_zero n p r b ok.positive e le in
    let same = first none_before in let e' : b ≡ p + n * 0 = rw none_before at e in omega arith

pub Owns-pos :
    (n : ℕ) (coordinator p : ProcessId) (b : ℕ) → IsProcess n p → Owns n coordinator p b → 0 < b
Owns-pos n coordinator p b ok (r, e, first) = omega (arith, ok.positive)
