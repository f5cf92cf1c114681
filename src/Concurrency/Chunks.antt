-- ===== src/Concurrency/Chunks.antt =====
-- `processInConcurrencyChunks` of src/utils/concurrency.utils.ts.
pub mod Order
use law_cast_backend.Base.{
  ℕ, zero, suc, ◌+◌, ◌≤◌, ◌<◌, ◌≡◌, refl, max, min, List, [], ◌∷◌, ◌++◌, Option, none, some, Bool,
  leb, if◌then◌else◌, length, take, drop, arith, map,
}
use law_cast_backend.Promises.{Result, ok, err, Settled, all}

-- One round of the loop, once the chunk's `Promise.all` has settled.
after_chunk :
    {E R : Type 0}
    → ℕ
    → Result E (List R)
    → (List R → Option (Settled E (List R)))
    → Option (Settled E (List R))
after_chunk ms (err e) rest = some (record { after = ms; outcome = err e })
after_chunk ms (ok results) rest = elim (rest results) [
  | none ↦ none
  | some s ↦ some (record s { after = ms + s.after })
]

module _ {E T R : Type 0} (processor : T → ℕ → Settled E R) where
  -- `chunk.map((item, offset) => processor(item, i + offset))`.
  abbrev pub launch : ℕ → List T → List (Settled E R)
  launch i [] = []
  launch i (x ∷ xs) = processor x i ∷ launch (suc i) xs

  -- The loop from index `i`, over the items that are left; `aggregated` holds what came before.
  chunks_from : ℕ → ℕ → ℕ → List T → List R → Option (Settled E (List R))
  chunks_from zero limit i items aggregated = none
  chunks_from (suc fuel) limit i [] aggregated =
      some (record { after = 0; outcome = ok aggregated })
  chunks_from (suc fuel) limit i (x ∷ xs) aggregated =
      let chunk = all (launch i (take limit (x ∷ xs))) in
      after_chunk chunk.after chunk.outcome
        λ results. chunks_from fuel limit (i + limit) (drop limit (x ∷ xs)) (aggregated ++ results)

  unfoldable pub process_in_concurrency_chunks : List T → ℕ → Option (Settled E (List R))
  unfolding chunks_from after_chunk
  process_in_concurrency_chunks items concurrency =
      chunks_from (suc (length items)) (max 1 concurrency) 0 items []
