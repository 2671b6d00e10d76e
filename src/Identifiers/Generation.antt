-- ===== src/Identifiers/Generation.antt =====
-- fantoch/src/id.rs: what a generator of identifiers hands out.
use fantoch.Prelude.{
  ℕ, zero, suc, ◌+◌, ◌<◌, ◌≡◌, refl, List, [], ◌∷◌, map, range_from, add64, add64_lem, word, arith,
}
use fantoch.Identifiers.{Identifier, IdGen, new_gen, next_id}

module _ {S : Type 0} where
  -- The identifiers of `count` calls in a row.
  unfoldable pub next_ids : ℕ → IdGen S → List (Identifier S)
  next_ids zero g = []
  next_ids (suc count) g = let (g', i) = next_id g in i ∷ next_ids count g'

  next_ids-from :
      (count : ℕ) (s : S) (last : ℕ)
      → last + count < word
      → next_ids count (record { source = s; last_sequence = last })
        ≡ map (λ i. record { source = s; sequence = i }) (range_from (suc last) count)
  unfolding next_ids next_id
  next_ids-from zero s last h = refl
  next_ids-from (suc count) s last h =
      let e : add64 last 1 ≡ suc last = omega (arith, add64_lem last 1) in
      rw (e, next_ids-from count s (suc last) (omega arith))

-- A new generator hands out its source with the sequences 1, 2, 3, ... in order, as long as the
-- counter stays in a `u64`, so no identifier comes twice.
pub next_ids_lem :
    {S : Type 0} (s : S) (count : ℕ)
    → count < word
    → next_ids count (new_gen s)
      ≡ map (λ i. record { source = s; sequence = i }) (range_from 1 count)
unfolding new_gen
next_ids_lem s count h = next_ids-from count s 0 (omega arith)
