-- ===== src/Prelude/Counting.antt =====
-- Sets of process identifiers from 1 to `n`: a set has at most `n` members, and two sets with more
-- than `n` members between them share one.
use fantoch.Prelude.Tests.{◌==◌, u64_partial_eq, nat_beq, nat_beq_iff, if◌then◌else◌, Bool-cases}
use fantoch.Prelude.Lists.{length, All, All-append, length-append}
use fantoch.Prelude.Sets.{contains, IsDistinct}
use Prim.Native.Nat.{ℕ, zero, suc, ◌+◌, ◌≤◌, ◌<◌}
use mathlib.Core.Path.{◌≡◌, refl}
use mathlib.Core.Logic.{◌⊎◌, inl, inr}
use mathlib.Core.Bool.{true, false}
use mathlib.Core.List.{List, [], ◌∷◌, ◌++◌}
use native.Mathlib.Omega.{arith}

abbrev pub InRange : ℕ → List ℕ → Type 0
InRange n xs = All (λ x. (1 ≤ x) × (x ≤ n)) xs

without : ℕ → List ℕ → List ℕ
without x [] = []
without x (y ∷ ys) = let rest = without x ys in if y == x then rest else y ∷ rest

contains-without :
    (x z : ℕ) (ys : List ℕ) → contains z ys ≡ false → contains z (without x ys) ≡ false
unfolding without contains
contains-without x z [] h = refl
contains-without x z (y ∷ ys) h = ground (arith, contains-without x z ys)

without-IsDistinct : (x : ℕ) (ys : List ℕ) → IsDistinct ys → IsDistinct (without x ys)
unfolding without
without-IsDistinct x [] h = tt
without-IsDistinct x (y ∷ ys) h = elim (Bool-cases (nat_beq y x)) [
  | inl same ↦ rw same (without-IsDistinct x ys h.1)
  | inr other ↦ rw other (contains-without x y ys h.0, without-IsDistinct x ys h.1)
]

length-without-absent :
    (x : ℕ) (ys : List ℕ) → contains x ys ≡ false → length ys ≤ length (without x ys)
unfolding without contains
length-without-absent x [] h = omega arith
length-without-absent x (y ∷ ys) h = ground (arith, length-without-absent x ys)

length-without : (x : ℕ) (ys : List ℕ) → IsDistinct ys → length ys ≤ length (without x ys) + 1
unfolding without
length-without x [] h = omega arith
length-without x (y ∷ ys) h = elim (Bool-cases (nat_beq y x)) [
  | inl same ↦
      let e : y ≡ x = (nat_beq_iff y x).0 same in
      rw same (omega (arith, length-without-absent x ys (rw e at (h.0))))
  | inr other ↦ rw other (omega (arith, length-without x ys h.1))
]

without-InRange : (n : ℕ) (ys : List ℕ) → InRange (suc n) ys → InRange n (without (suc n) ys)
unfolding without
without-InRange n [] h = tt
without-InRange n (y ∷ ys) h = elim (Bool-cases (nat_beq y (suc n))) [
  | inl same ↦ rw same (without-InRange n ys h.1)
  | inr other ↦ rw other ((h.0.0, ground arith), without-InRange n ys h.1)
]

pub pigeonhole : (n : ℕ) (xs : List ℕ) → IsDistinct xs → InRange n xs → length xs ≤ n
pigeonhole zero [] d h = omega arith
pigeonhole zero (x ∷ xs) d h = absurd (omega arith)
pigeonhole (suc n) xs d h = omega (
  arith,
  length-without (suc n) xs d,
  pigeonhole n (without (suc n) xs) (without-IsDistinct (suc n) xs d) (without-InRange n xs h),
)

-- A member of both sets, or none.
pub shared_or_disjoint :
    (xs ys : List ℕ)
    → ((x : ℕ) × (contains x xs ≡ true) × (contains x ys ≡ true))
      ⊎ All (λ x. contains x ys ≡ false) xs
unfolding contains
shared_or_disjoint [] ys = inr tt
shared_or_disjoint (x ∷ xs) ys = elim (Bool-cases (contains x ys)) [
  | inl both ↦ inl (x, ground (arith, nat_beq_iff x x), both)
  | inr absent ↦ elim (shared_or_disjoint xs ys) [
    | inl (z, a, b) ↦ inl (z, ground (arith, a), b)
    | inr rest ↦ inr (absent, rest)
  ]
]

contains-append :
    (z : ℕ) (xs ys : List ℕ)
    → contains z xs ≡ false
    → contains z ys ≡ false
    → contains z (xs ++ ys) ≡ false
unfolding contains
contains-append z [] ys a b = b
contains-append z (x ∷ xs) ys a b = ground (arith, contains-append z xs ys)

append-IsDistinct :
    (xs ys : List ℕ)
    → IsDistinct xs
    → IsDistinct ys
    → All (λ x. contains x ys ≡ false) xs
    → IsDistinct (xs ++ ys)
append-IsDistinct [] ys a b d = b
append-IsDistinct (x ∷ xs) ys a b d =
    (contains-append x xs ys a.0 d.0, append-IsDistinct xs ys a.1 b d.1)

pub quorums_meet :
    (n : ℕ) (xs ys : List ℕ)
    → IsDistinct xs
    → IsDistinct ys
    → InRange n xs
    → InRange n ys
    → n < length xs + length ys
    → (x : ℕ) × (contains x xs ≡ true) × (contains x ys ≡ true)
quorums_meet n xs ys dx dy rx ry more = elim (shared_or_disjoint xs ys) [
  | inl found ↦ found
  | inr disjoint ↦ absurd (
      omega (
        arith,
        length-append xs ys,
        pigeonhole n (xs ++ ys) (append-IsDistinct xs ys dx dy disjoint) (All-append _ xs ys rx ry),
      ))
]

contains-without_other :
    (x z : ℕ) (ys : List ℕ)
    → nat_beq x z ≡ false
    → contains z ys ≡ true
    → contains z (without x ys) ≡ true
unfolding without contains
contains-without_other x z [] apart there = absurd (ground arith)
contains-without_other x z (y ∷ ys) apart there =
    ground (arith, apart, there, contains-without_other x z ys apart)

length-without_less : (x : ℕ) (ys : List ℕ) → length (without x ys) ≤ length ys
unfolding without
length-without_less x [] = omega arith
length-without_less x (y ∷ ys) = ground (arith, length-without_less x ys)

length-without_present :
    (x : ℕ) (ys : List ℕ) → contains x ys ≡ true → length (without x ys) + 1 ≤ length ys
unfolding without contains
length-without_present x [] there = absurd (ground arith)
length-without_present x (y ∷ ys) there =
    ground (arith, there, length-without_present x ys, length-without_less x ys)

-- A set is not longer than a list that has all its members.
pub subset-length :
    (xs ys : List ℕ)
    → IsDistinct xs
    → ((z : ℕ) → contains z xs ≡ true → contains z ys ≡ true)
    → length xs ≤ length ys
unfolding contains
subset-length [] ys d within = omega arith
subset-length (x ∷ xs) ys d within =
    let here : contains x ys ≡ true = within x (ground arith) in
    let rest = subset-length xs (without x ys) d.1 (λ z there.
      let apart : nat_beq x z ≡ false = elim (Bool-cases (nat_beq x z)) [
        | inl same ↦
            let e : x ≡ z = (nat_beq_iff x z).0 same in
            absurd (ground (arith, rw e at (d.0), there))
        | inr differs ↦ differs
      ] in
      contains-without_other x z ys apart (within z (ground (arith, there)))) in
    omega (arith, rest, length-without_present x ys here)
