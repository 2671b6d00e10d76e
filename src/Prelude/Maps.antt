-- ===== src/Prelude/Maps.antt =====
-- `HashMap` as an association list. The iteration order, which a hash map leaves open, is that of
-- the list.
use Prim.Native.Nat.{◌+◌, ◌≤◌, ◌<◌}
use mathlib.Core.Path.{◌≡◌, refl, subst}
use mathlib.Core.Logic.{◌↔◌, inl, inr}
use mathlib.Core.Bool.{Bool, true, false}
use mathlib.Core.Option.{Option, none, some}
use mathlib.Core.List.{List, [], ◌∷◌}
use native.Mathlib.Omega.{arith}
use fantoch.Prelude.Tests.{PartialEq, ◌==◌, if◌then◌else◌, Bool-cases}
use fantoch.Prelude.Lists.{length, All}

abbrev pub Map {ℓ κ} : Type ℓ → Type κ → Type (ℓ ⊔ κ)
Map K V = List (K × V)

module _ {ℓ κ} {K : Type ℓ} {V : Type κ} where
  abbrev pub keys : Map K V → List K
  keys [] = []
  keys ((k, v) ∷ m) = k ∷ keys m

  abbrev pub values : Map K V → List V
  values [] = []
  values ((k, v) ∷ m) = v ∷ values m

some_inj {κ} : {V : Type κ} (a b : V) → some a ≡ some b → a ≡ b
some_inj a b h = cc

module _ {ℓ κ} {K : Type ℓ} {V : Type κ} ⦃eq : PartialEq K⦄ where
  unfoldable pub get : K → Map K V → Option V
  get key [] = none
  get key (entry ∷ m) = if entry.0 == key then some entry.1 else get key m

  unfoldable pub contains_key : K → Map K V → Bool
  contains_key k [] = false
  contains_key k ((j, v) ∷ m) = if j == k then true else contains_key k m

  -- An entry under the key is replaced.
  unfoldable pub insert : K → V → Map K V → Map K V
  insert key new [] = (key, new) ∷ []
  insert key new (entry ∷ m) = if entry.0 == key then (key, new) ∷ m else entry ∷ insert key new m

  unfoldable pub remove : K → Map K V → Map K V
  remove k [] = []
  remove k ((j, v) ∷ m) = let rest = remove k m in if j == k then rest else (j, v) ∷ rest

  pub get-insert :
      (key at : K) (new : V) (m : Map K V)
      → get at (insert key new m) ≡ (if key == at then some new else get at m)
  unfolding insert get
  get-insert key at new [] = refl
  get-insert key at new ((other, old) ∷ m) = ground (
    arith,
    get-insert key at new m,
    eq.equal_iff other key,
    eq.equal_iff other at,
    eq.equal_iff key at,
  )

  pub get-remove :
      (key at : K) (m : Map K V) → get at (remove key m) ≡ (if key == at then none else get at m)
  unfolding remove get
  get-remove key at [] = ground arith
  get-remove key at ((other, old) ∷ m) = ground (
    arith,
    get-remove key at m,
    eq.equal_iff other key,
    eq.equal_iff other at,
    eq.equal_iff key at,
  )

  pub length-insert :
      (k : K) (v : V) (m : Map K V)
      → length (insert k v m) ≡ (if contains_key k m then length m else length m + 1)
  unfolding insert contains_key
  length-insert k v [] = omega arith
  length-insert k v ((i, w) ∷ m) = ground (arith, length-insert k v m)

  pub contains_key-remove :
      (k at : K) (m : Map K V)
      → contains_key at (remove k m) ≡ (if k == at then false else contains_key at m)
  unfolding remove contains_key
  contains_key-remove k at [] = ground arith
  contains_key-remove k at ((i, w) ∷ m) =
      ground
        (arith, contains_key-remove k at m, eq.equal_iff i k, eq.equal_iff i at, eq.equal_iff k at)

  pub contains_key-insert :
      (k at : K) (v : V) (m : Map K V)
      → contains_key at (insert k v m) ≡ (if k == at then true else contains_key at m)
  unfolding insert contains_key
  contains_key-insert k at v [] = refl
  contains_key-insert k at v ((i, w) ∷ m) =
      ground (
        arith,
        contains_key-insert k at v m,
        eq.equal_iff i k,
        eq.equal_iff i at,
        eq.equal_iff k at,
      )

  pub length-remove_le : (k : K) (m : Map K V) → length (remove k m) ≤ length m
  unfolding remove
  length-remove_le k [] = omega arith
  length-remove_le k ((i, w) ∷ m) = ground (arith, length-remove_le k m)

  pub length-remove :
      (k : K) (v : V) (m : Map K V) → get k m ≡ some v → length (remove k m) < length m
  unfolding remove get
  length-remove k v [] h = absurd (ground arith)
  length-remove k v ((i, w) ∷ m) h = ground (arith, length-remove k v m, length-remove_le k m)

  pub get-length : (k : K) (m : Map K V) → length m ≤ 0 → get k m ≡ none
  unfolding get
  get-length k [] h = refl
  get-length k ((i, w) ∷ m) h = absurd (omega arith)

  pub contains_key-get : (k : K) (m : Map K V) → get k m ≡ none → contains_key k m ≡ false
  unfolding get contains_key
  contains_key-get k [] h = refl
  contains_key-get k ((i, w) ∷ m) h = ground (arith, contains_key-get k m)

  -- No key twice.
  abbrev pub DistinctKeys : Map K V → Type 0
  DistinctKeys [] = Unit
  DistinctKeys ((key, value) ∷ m) = (contains_key key m ≡ false) × DistinctKeys m

  pub insert-DistinctKeys :
      (key : K) (new : V) (m : Map K V) → DistinctKeys m → DistinctKeys (insert key new m)
  unfolding insert contains_key
  insert-DistinctKeys key new [] d = (refl, tt)
  insert-DistinctKeys key new ((other, old) ∷ m) d = elim (Bool-cases (other == key)) [
    | inl same ↦
        let here : other ≡ key = (eq.equal_iff other key).0 same in
        rw same (subst (λ k. contains_key k m ≡ false) here d.0, d.1)
    | inr apart ↦ rw apart (
      ground (
        arith,
        contains_key-insert key other new m,
        d.0,
        apart,
        eq.equal_iff key other,
        eq.equal_iff other key,
      ),
      insert-DistinctKeys key new m d.1,
    )
  ]

  pub get-contains_key :
      (key : K) (m : Map K V) (value : V) → get key m ≡ some value → contains_key key m ≡ true
  unfolding contains_key get
  get-contains_key key [] value found = absurd (ground arith)
  get-contains_key key ((other, old) ∷ m) value found =
      ground (arith, found, get-contains_key key m value)

  -- The values of a map are those that its keys have.
  pub values_lem {μ} :
      (P : V → Type μ) (m : Map K V)
      → DistinctKeys m
      → All P (values m) ↔ ((key : K) (value : V) → get key m ≡ some value → P value)
  unfolding get
  values_lem P [] d = ((λ all key value found. absurd (ground arith)), λ each. tt)
  values_lem P ((first, old) ∷ m) d =
      let rest = values_lem P m d.1 in
      (
        (λ all key value found. elim (Bool-cases (first == key)) [
          | inl same ↦
              let here : some old ≡ some value =
                subst (λ b. (if b then some old else get key m) ≡ some value) same found in
              subst P (some_inj old value here) all.0
          | inr apart ↦
              rest.0 all.1 key value
                (subst (λ b. (if b then some old else get key m) ≡ some value) apart found)
        ]),
        λ each. (
          each first old (rw ((eq.equal_iff first first).1 refl) refl),
          rest.1 (λ key value found. each key value (elim (Bool-cases (first == key)) [
            | inl same ↦
                let here : first ≡ key = (eq.equal_iff first key).0 same in
                let gone : contains_key key m ≡ false =
                  subst (λ k. contains_key k m ≡ false) here d.0 in
                absurd (ground (arith, gone, get-contains_key key m value found))
            | inr apart ↦ rw apart found
          ])),
        ),
      )
