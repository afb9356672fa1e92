-- ===== src/Ledger/Chunks.antt =====
-- packages/core/src/belief_ledger_core/store.py: `_chunks`, and the batches of a cursor. The fuel
-- is the number of values, since each chunk takes one at least.
use belief_ledger_pramana.Prelude.{
  ℕ, zero, suc, ◌-◌, ◌≤◌, ◌≡◌, refl, ap, ◌∙◌, List, [], ◌∷◌, ◌++◌, length, All, arith,
}

module _ {A : Type 0} where
  -- `values[:n]` and `values[n:]`
  abbrev pub take : ℕ → List A → List A
  take zero xs = []
  take (suc n) [] = []
  take (suc n) (x ∷ xs) = x ∷ take n xs

  abbrev pub drop : ℕ → List A → List A
  drop zero xs = xs
  drop (suc n) [] = []
  drop (suc n) (x ∷ xs) = drop n xs

  -- The iteration from one offset on.
  unfoldable pub chunks_from : ℕ → ℕ → List A → List (List A)
  chunks_from zero size xs = []
  chunks_from (suc fuel) size [] = []
  chunks_from (suc fuel) size (x ∷ xs) =
      take size (x ∷ xs) ∷ chunks_from fuel size (drop size (x ∷ xs))

  unfoldable pub chunks : ℕ → List A → List (List A)
  unfolding chunks_from
  chunks size xs = chunks_from (length xs) size xs

  abbrev pub concat : List (List A) → List A
  concat [] = []
  concat (xs ∷ xss) = xs ++ concat xss

  pub take-drop : (n : ℕ) (xs : List A) → take n xs ++ drop n xs ≡ xs
  take-drop zero xs = refl
  take-drop (suc n) [] = refl
  take-drop (suc n) (x ∷ xs) = ap (◌∷◌ x) (take-drop n xs)

  length-take : (n : ℕ) (xs : List A) → length (take n xs) ≤ n
  length-take zero xs = omega arith
  length-take (suc n) [] = omega arith
  length-take (suc n) (x ∷ xs) = omega (arith, length-take n xs)

  length-drop : (n : ℕ) (xs : List A) → length (drop (suc n) xs) ≤ length xs - 1
  length-drop n [] = omega arith
  length-drop zero (x ∷ xs) = omega arith
  length-drop (suc n) (x ∷ xs) = omega (arith, length-drop n xs)

  chunks_from-concat :
      (fuel size : ℕ) (xs : List A)
      → length xs ≤ fuel
      → concat (chunks_from fuel (suc size) xs) ≡ xs
  unfolding chunks_from
  chunks_from-concat zero size [] h = refl
  chunks_from-concat zero size (x ∷ xs) h = absurd (omega arith)
  chunks_from-concat (suc fuel) size [] h = refl
  chunks_from-concat (suc fuel) size (x ∷ xs) h =
      ap (take (suc size) (x ∷ xs) ++◌) (
        chunks_from-concat fuel size (drop (suc size) (x ∷ xs))
          (omega (arith, length-drop size (x ∷ xs))))
      ∙ take-drop (suc size) (x ∷ xs)

  chunks_from-bounded :
      (fuel size : ℕ) (xs : List A)
      → All (λ c. (1 ≤ length c) × (length c ≤ suc size)) (chunks_from fuel (suc size) xs)
  unfolding chunks_from
  chunks_from-bounded zero size xs = _
  chunks_from-bounded (suc fuel) size [] = _
  chunks_from-bounded (suc fuel) size (x ∷ xs) = (
    (omega arith, length-take (suc size) (x ∷ xs)),
    chunks_from-bounded fuel size (drop (suc size) (x ∷ xs)),
  )

  -- At a positive size the chunks, one after the other, are the values, and each chunk has at least
  -- one value and at most `size`.
  pub concat-chunks :
      (size : ℕ) (xs : List A)
      → 1 ≤ size
      → (concat (chunks size xs) ≡ xs)
        × All (λ c. (1 ≤ length c) × (length c ≤ size)) (chunks size xs)
  unfolding chunks
  concat-chunks zero xs h = absurd (omega arith)
  concat-chunks (suc size) xs h = (
    chunks_from-concat (length xs) size xs (omega arith),
    chunks_from-bounded (length xs) size xs,
  )
