-- ===== src/Webhooks/Interleaved.antt =====
-- A round of `cleanupOldInactiveWebhooks` of src/modules/webhook/webhook.service.ts at its two waits for
-- the database: other calls come between the query and the deletion.
use law_cast_backend.Base.{
  ℕ, ◌≤◌, ◌≡◌, refl, sym, ap, ◌∙◌, List, [], ◌∷◌, Option, Bool, true, false, not, ◌==◌, keep, map,
  length, take, Bool-cases, inl, inr, arith,
}
use law_cast_backend.Base.Filters.{has, has-take, take_all}
use law_cast_backend.Change.Text.{Text}
use law_cast_backend.Webhooks.{Webhook, Table, Location, delete_ids}
use law_cast_backend.Webhooks.Cleanup.{cleanup_batch_size, is_old}
use law_cast_backend.Webhooks.Cleanup.Batches.{IsOrder, id_of}
use law_cast_backend.Webhooks.Registry.{Call, handle_all, handle_all-kept}
use law_cast_backend.Webhooks.Rows.{keep-IsValid}
use law_cast_backend.Webhooks.Urls.{IsValid}

-- What the query of a round gives: ids of at most a batch of the rows that `old` selects.
unfoldable pub selected : (List Webhook → List Webhook) → (Webhook → Bool) → List Webhook → List ℕ
selected order old rows = map id_of (take cleanup_batch_size (order (keep old rows)))

-- A round between whose query and deletion other calls are served.
unfoldable pub cleanup_round :
    (Text → Option Location) → (List Webhook → List Webhook) → ℕ → ℕ → List Call → Table → Table
unfolding selected delete_ids handle_all
cleanup_round parse order now days between t =
    let ids = selected order (is_old now days) t.rows in
    let t' = handle_all parse order t between in record t' { rows = delete_ids ids t'.rows }

abbrev pub of_id : ℕ → List Webhook → List Webhook
of_id k rows = keep (λ r. r.id == k) rows

-- Whether an old inactive row has the id.
abbrev pub is_old_id : (Webhook → Bool) → ℕ → List Webhook → Bool
is_old_id old k rows = has k (map id_of (keep old rows))

same_has : (j k : ℕ) (ids : List ℕ) → (j == k) ≡ true → has j ids ≡ has k ids
same_has j k ids h = let same : j ≡ k = ground (arith, h) in ap (λ i. has i ids) same

spared :
    (k : ℕ) (ids : List ℕ) (rows : List Webhook)
    → has k ids ≡ false
    → of_id k (delete_ids ids rows) ≡ of_id k rows
unfolding delete_ids
spared k ids [] h = refl
spared k ids (r ∷ rows) h = ground (arith, h, spared k ids rows h, same_has r.id k ids)

deleted :
    (k : ℕ) (ids : List ℕ) (rows : List Webhook)
    → has k ids ≡ true
    → of_id k (delete_ids ids rows) ≡ []
unfolding delete_ids
deleted k ids [] h = refl
deleted k ids (r ∷ rows) h = ground (arith, h, deleted k ids rows h, same_has r.id k ids)

module _ (order : List Webhook → List Webhook) (fair : IsOrder order) (old : Webhook → Bool) where
  selected_only :
      (k : ℕ) (rows : List Webhook)
      → is_old_id old k rows ≡ false
      → has k (selected order old rows) ≡ false
  unfolding selected
  selected_only k rows h = elim (Bool-cases (has k (selected order old rows))) [
    | inr none ↦ none
    | inl found ↦
        let there : is_old_id old k rows ≡ true =
          sym (fair.same_ids (keep old rows) k)
          ∙ has-take id_of cleanup_batch_size k (order (keep old rows)) found in
        absurd (cc (h, there))
  ]

  selected_all :
      (k : ℕ) (rows : List Webhook)
      → is_old_id old k rows ≡ true
      → length (keep old rows) ≤ cleanup_batch_size
      → has k (selected order old rows) ≡ true
  unfolding selected
  selected_all k rows h few =
      ap (λ xs. has k (map id_of xs))
        (take_all cleanup_batch_size (order (keep old rows))
          (omega (arith, fair.same_length (keep old rows))))
      ∙ fair.same_ids (keep old rows) k
      ∙ h

-- Whatever calls are served between the query of a cleanup round and its deletion, ids and urls stay
-- unique, and the rows of an id that was not that of an old inactive row at the query are left just as
-- those calls leave them.
pub cleanup_round_spares :
    (parse : Text → Option Location) (order : List Webhook → List Webhook) (now days : ℕ)
    (between : List Call) (t : Table) (k : ℕ)
    → IsOrder order
    → IsValid t
    → is_old_id (is_old now days) k t.rows ≡ false
    → IsValid (cleanup_round parse order now days between t)
      × (of_id k (cleanup_round parse order now days between t).rows
          ≡ of_id k (handle_all parse order t between).rows)
unfolding cleanup_round delete_ids
cleanup_round_spares parse order now days between t k fair v young =
    let old = is_old now days in
    let t' = handle_all parse order t between in
    let ids = selected order old t.rows in
    (
      keep-IsValid t' (λ r. not (has r.id ids)) (handle_all-kept parse order fair t between v),
      spared k ids t'.rows (selected_only order fair old k t.rows young),
    )

-- When the query finds no more rows than a batch holds, each webhook whose id it finds is gone after
-- the round, also when it was activated in between.
cleanup_round_deletes :
    (parse : Text → Option Location) (order : List Webhook → List Webhook) (now days : ℕ)
    (between : List Call) (t : Table) (k : ℕ)
    → IsOrder order
    → is_old_id (is_old now days) k t.rows ≡ true
    → length (keep (is_old now days) t.rows) ≤ cleanup_batch_size
    → of_id k (cleanup_round parse order now days between t).rows ≡ []
unfolding cleanup_round
cleanup_round_deletes parse order now days between t k fair found few =
    let old = is_old now days in
    deleted k (selected order old t.rows) (handle_all parse order t between).rows
      (selected_all order fair old k t.rows found few)
