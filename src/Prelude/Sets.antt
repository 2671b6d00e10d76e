-- ===== src/Prelude/Sets.antt =====
-- `HashSet` as a list without repetitions.
use Prim.Native.Nat.{◌+◌}
use mathlib.Core.Path.{◌≡◌}
use mathlib.Core.Logic.{inl, inr}
use mathlib.Core.Bool.{Bool, true, false}
use mathlib.Core.List.{List, [], ◌∷◌}
use native.Mathlib.Omega.{arith}
use fantoch.Prelude.Tests.{PartialEq, ◌==◌, if◌then◌else◌, Bool-cases}
use fantoch.Prelude.Lists.{length}

module _ {ℓ} {A : Type ℓ} ⦃eq : PartialEq A⦄ where
  unfoldable pub contains : A → List A → Bool
  contains a [] = false
  contains a (x ∷ xs) = if x == a then true else contains a xs

  unfoldable pub add : A → List A → List A
  add a xs = if contains a xs then xs else a ∷ xs

  -- No element stands twice.
  abbrev pub IsDistinct : List A → Type 0
  IsDistinct [] = Unit
  IsDistinct (x ∷ xs) = (contains x xs ≡ false) × IsDistinct xs

  pub contains-add :
      (a b : A) (xs : List A) → contains b (add a xs) ≡ (if a == b then true else contains b xs)
  unfolding contains add
  contains-add a b xs = ground (arith, eq.equal_iff a b)

  pub length-add :
      (a : A) (xs : List A)
      → length (add a xs) ≡ (if contains a xs then length xs else length xs + 1)
  unfolding add
  length-add a xs = ground arith

  pub add-IsDistinct : (a : A) (xs : List A) → IsDistinct xs → IsDistinct (add a xs)
  unfolding add
  add-IsDistinct a xs h = elim (Bool-cases (contains a xs)) [
    | inl old ↦ rw old h
    | inr new ↦ rw new (new, h)
  ]
