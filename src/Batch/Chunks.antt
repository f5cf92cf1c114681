-- ===== src/Batch/Chunks.antt =====
-- `chunkArray` of src/modules/shared/batch-processing.service.ts.
use mathlib.Core.Option
use law_cast_backend.Base.{
  ℕ, zero, suc, ◌<◌, ◌≤◌, ◌≡◌, refl, ap, List, [], ◌∷◌, ◌++◌, Option, none, some, length, take,
  drop, concat, All, arith, length-drop, length-take, take-append-drop, ◌∙◌,
}

module _ {ℓ} {A : Type ℓ} where
  -- The loop over `i`, as a recursion on what is left from index `i`. `none` means that the fuel ran
  -- out while there were items left.
  pub chunk_from : ℕ → ℕ → List A → Option (List (List A))
  chunk_from fuel size [] = some []
  chunk_from zero size (x ∷ xs) = none
  chunk_from (suc fuel) size (x ∷ xs) =
      Option.map (◌∷◌ (take size (x ∷ xs))) (chunk_from fuel size (drop size (x ∷ xs)))

  -- A round takes at least one item if the size is positive, so the length is fuel enough.
  unfoldable pub chunk_array : List A → ℕ → Option (List (List A))
  unfolding chunk_from
  chunk_array xs size = chunk_from (length xs) size xs

  abbrev pub IsChunk : ℕ → List A → Type 0
  IsChunk size chunk = (0 < length chunk) × (length chunk ≤ size)

  chunk_from_lem :
      (fuel size : ℕ) (xs : List A)
      → 0 < size
      → length xs ≤ fuel
      → (chunks : List (List A)) × (chunk_from fuel size xs ≡ some chunks)
        × (concat chunks ≡ xs)
        × All (IsChunk size) chunks
  unfolding chunk_from
  chunk_from_lem fuel size [] pos enough = ([], refl, refl, tt)
  chunk_from_lem zero size (x ∷ xs) pos enough = absurd (omega arith)
  chunk_from_lem (suc fuel) size (x ∷ xs) pos enough =
      let (rest, e, joined, sized) =
        chunk_from_lem fuel size (drop size (x ∷ xs)) pos
          (omega (arith, length-drop size (x ∷ xs))) in
      (
        take size (x ∷ xs) ∷ rest,
        ap (Option.map (◌∷◌ (take size (x ∷ xs)))) e,
        ap (◌++◌ (take size (x ∷ xs))) joined ∙ take-append-drop size (x ∷ xs),
        (
          (omega (arith, length-take size (x ∷ xs)), omega (arith, length-take size (x ∷ xs))),
          sized,
        ),
      )

  -- With a positive size the loop ends, the chunks in order are the items, and each chunk has
  -- between one item and `size` items.
  pub chunk_array_partition :
      (xs : List A) (size : ℕ)
      → 0 < size
      → (chunks : List (List A)) × (chunk_array xs size ≡ some chunks)
        × (concat chunks ≡ xs)
        × All (IsChunk size) chunks
  unfolding chunk_array
  chunk_array_partition xs size pos = chunk_from_lem (length xs) size xs pos (omega arith)

  -- With size 0 the loop over a list that has an item never ends: every fuel runs out.
  pub chunk_from_zero : (fuel : ℕ) (x : A) (xs : List A) → chunk_from fuel 0 (x ∷ xs) ≡ none
  unfolding chunk_from
  chunk_from_zero zero x xs = refl
  chunk_from_zero (suc fuel) x xs = ap (Option.map (◌∷◌ [])) (chunk_from_zero fuel x xs)
