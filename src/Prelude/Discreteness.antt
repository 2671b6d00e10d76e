-- ===== src/Prelude/Discreteness.antt =====
-- The derived `PartialEq` of a type whose equality is decided.
use mathlib.Core.Path.{◌≡◌, refl}
use mathlib.Core.Logic.{◌↔◌}
use mathlib.Core.Bool.{Bool, true, false}
use native.Mathlib.Omega.{arith}
use fantoch.Prelude.Tests.{PartialEq}

abbrev pub decided {ℓ} : {P : Type ℓ} → Dec P → Bool
decided (yes p) = true
decided (no p) = false

pub decided_iff {ℓ} : {P : Type ℓ} (d : Dec P) → (decided d ≡ true) ↔ P
decided_iff (yes p) = ((λ h. p), λ q. refl)
decided_iff (no p) = ((λ h. absurd (ground arith)), λ q. absurd (p q))

abbrev pub discrete_partial_eq {ℓ} : {K : Type ℓ} → Discrete K → PartialEq K
discrete_partial_eq d = record {
  equal = λ x y. decided (d x y);
  equal_iff = λ x y. decided_iff (d x y);
}
