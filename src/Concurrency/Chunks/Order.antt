-- ===== src/Concurrency/Chunks/Order.antt =====
-- What `processInConcurrencyChunks` returns, whatever the chunk size is.
use law_cast_backend.Base.{
  ℕ, zero, suc, ◌+◌, ◌<◌, ◌≡◌, refl, sym, ap, ◌∙◌, max, List, [], ◌∷◌, ◌++◌, Option, none, some,
  length, take, drop, length-drop, arith, append_assoc, append-nil,
}
use law_cast_backend.Promises.{Result, ok, err, Settled, all}
use law_cast_backend.Concurrency.Chunks.{
  after_chunk, launch, chunks_from, process_in_concurrency_chunks,
}

abbrev pub ok_value : {E A : Type 0} → Result E A → Option A
ok_value (ok a) = some a
ok_value (err e) = none

-- The values of a list, if every one of its promises resolves.
abbrev pub collect : {E A : Type 0} → List (Settled E A) → Option (List A)
collect [] = some []
collect (p ∷ ps) = elim (ok_value p.outcome) [
  | none ↦ none
  | some a ↦ elim (collect ps) [ none ↦ none | some vs ↦ some (a ∷ vs) ]
]

-- A list put before the values, if there are values.
abbrev onto : {A : Type 0} → List A → Option (List A) → Option (List A)
onto vs none = none
onto vs (some ws) = some (vs ++ ws)

module _ {E A : Type 0} where
  ok_value-all : (ps : List (Settled E A)) → ok_value (all ps).outcome ≡ collect ps
  ok_value-all [] = refl
  ok_value-all (p ∷ ps) = ground (arith, ok_value-all ps)

  collect-append :
      (ps qs : List (Settled E A))
      → collect (ps ++ qs) ≡ elim (collect ps) [ none ↦ none | some vs ↦ onto vs (collect qs) ]
  collect-append [] qs = ground arith
  collect-append (p ∷ ps) qs = ground (arith, collect-append ps qs)

after_chunk_lem :
    {E R : Type 0} (ms : ℕ) (chunk : Result E (List R))
    (rest : List R → Option (Settled E (List R))) (spec : List R → Option (List R))
    → ((rs : List R)
        → (s : Settled E (List R)) × (rest rs ≡ some s) × (ok_value s.outcome ≡ spec rs))
    → (s : Settled E (List R)) × (after_chunk ms chunk rest ≡ some s)
      × (ok_value s.outcome ≡ elim (ok_value chunk) [ none ↦ none | some rs ↦ spec rs ])
unfolding after_chunk
after_chunk_lem ms (err e) rest spec h = (_, refl, refl)
after_chunk_lem ms (ok rs) rest spec h =
    let (s, e, v) = h rs in (record s { after = ms + s.after }, rw (e, after_chunk), v)

onto-nil : {A : Type 0} (o : Option (List A)) → onto [] o ≡ o
onto-nil none = refl
onto-nil (some vs) = refl

onto-append :
    {A : Type 0} (xs : List A) (o p : Option (List A))
    → elim o [ none ↦ none | some ys ↦ onto (xs ++ ys) p ]
      ≡ onto xs (elim o [ none ↦ none | some ys ↦ onto ys p ])
onto-append xs none p = refl
onto-append xs (some ys) none = refl
onto-append xs (some ys) (some zs) = ap some (append_assoc xs ys zs)

module _ {E T R : Type 0} (processor : T → ℕ → Settled E R) where
  launch-split :
      (limit i : ℕ) (xs : List T)
      → launch processor i xs
        ≡ launch processor i (take limit xs) ++ launch processor (i + limit) (drop limit xs)
  launch-split zero i xs = ap (λ k. launch processor k xs) (omega arith)
  launch-split (suc limit) i [] = refl
  launch-split (suc limit) i (x ∷ xs) = ap (◌∷◌ (processor x i)) (
      launch-split limit (suc i) xs
      ∙ ap (λ k. launch processor (suc i) (take limit xs) ++ launch processor k (drop limit xs))
          (omega arith))

  abbrev Collected : ℕ → ℕ → ℕ → List T → List R → Type 0
  Collected fuel limit i items aggregated =
      (s : Settled E (List R)) × (chunks_from processor fuel limit i items aggregated ≡ some s)
      × (ok_value s.outcome ≡ onto aggregated (collect (launch processor i items)))

  collect-launch :
      (limit i : ℕ) (items : List T) (aggregated : List R)
      → elim (ok_value (all (launch processor i (take limit items))).outcome) [
        | none ↦ none
        | some rs ↦
            onto (aggregated ++ rs) (collect (launch processor (i + limit) (drop limit items)))
      ]
        ≡ onto aggregated (collect (launch processor i items))
  collect-launch limit i items aggregated =
      rw
        (
          ok_value-all (launch processor i (take limit items)),
          launch-split limit i items,
          collect-append (launch processor i (take limit items)),
        )
        (onto-append aggregated (collect (launch processor i (take limit items)))
          (collect (launch processor (i + limit) (drop limit items))))

  chunks_from_lem :
      (fuel limit i : ℕ) (items : List T) (aggregated : List R)
      → 0 < limit
      → length items < fuel
      → Collected fuel limit i items aggregated
  unfolding chunks_from
  chunks_from_lem zero limit i items aggregated pos enough = absurd (omega arith)
  chunks_from_lem (suc fuel) limit i [] aggregated pos enough =
      (_, refl, ap some (sym (append-nil aggregated)))
  chunks_from_lem (suc fuel) limit i (x ∷ xs) aggregated pos enough =
      let (s, e, v) =
        after_chunk_lem _ (all (launch processor i (take limit (x ∷ xs)))).outcome _
          (λ rs.
            onto (aggregated ++ rs) (collect (launch processor (i + limit) (drop limit (x ∷ xs)))))
          (λ rs.
            chunks_from_lem fuel limit (i + limit) (drop limit (x ∷ xs)) (aggregated ++ rs) pos
              (omega (arith, length-drop limit (x ∷ xs)))) in
      (s, e, v ∙ collect-launch limit i (x ∷ xs) aggregated)

  -- For every concurrency the call settles. It resolves exactly when every item's promise resolves,
  -- and then with the items' values in the order of the items, each computed at its own index.
  pub process_collects :
      (items : List T) (concurrency : ℕ)
      → (s : Settled E (List R)) × (process_in_concurrency_chunks processor items concurrency
          ≡ some s)
        × (ok_value s.outcome ≡ collect (launch processor 0 items))
  unfolding process_in_concurrency_chunks
  process_collects items concurrency =
      let (s, e, v) =
        chunks_from_lem (suc (length items)) (max 1 concurrency) 0 items [] (omega arith)
          (omega arith) in
      (s, e, v ∙ onto-nil (collect (launch processor 0 items)))
