-- ===== src/Webhooks/Cleanup/Batches.antt =====
-- About `cleanupOldInactiveWebhooks` of src/modules/webhook/webhook.service.ts: the deletion in rounds
-- against a deletion of all old rows at once.
use law_cast_backend.Base.{
  ℕ, zero, suc, ◌+◌, ◌<◌, ◌≡◌, ◌≢◌, refl, ==_iff, sym, ap, ◌∙◌, List, [], ◌∷◌, Option, some, Bool,
  true, not, ◌==◌, if_elim, keep, map, length, length-take, take, All, arith,
}
use law_cast_backend.Base.Filters.{
  pair_path, has, Distinct, All-imp, keep_congr, keep-All, keep-keep, length-keep-not, none_kept,
  take_all, has-take, has-keep, has-keep_lem, Distinct-keep, length-keep-lt,
}
use law_cast_backend.Webhooks.{Webhook, delete_ids}
use law_cast_backend.Webhooks.Cleanup.{
  cleanup_from, cleanup_old_inactive_webhooks, cleanup_batch_size, is_old,
}

abbrev pub id_of : Webhook → ℕ
id_of r = r.id

-- The key of the first of some rows.
first_key : (rows : List Webhook) → length rows ≢ 0 → (k : ℕ) × (has k (map id_of rows) ≡ true)
first_key [] n = absurd (n refl)
first_key (r ∷ rows) n = (r.id, ground arith)

-- An order lists the same rows: as many, with the same ids.
pub record IsOrder (order : List Webhook → List Webhook) : Type 0 where
  pub same_length : (rows : List Webhook) → length (order rows) ≡ length rows
  pub same_ids :
      (rows : List Webhook) (k : ℕ) → has k (map id_of (order rows)) ≡ has k (map id_of rows)

module _ (order : List Webhook → List Webhook) (fair : IsOrder order) (size : ℕ)
    (old : Webhook → Bool) where
  abbrev found : List Webhook → List Webhook
  found rows = take size (order (keep old rows))

  abbrev is_found : List Webhook → Webhook → Bool
  is_found rows r = has r.id (map id_of (found rows))

  -- Only old rows are found.
  found_old :
      (rows : List Webhook)
      → Distinct id_of rows
      → All (λ r. is_found rows r ≡ true → old r ≡ true) rows
  found_old rows d =
      All-imp _ _ rows
        (λ r h k.
          sym h
          ∙ sym (fair.same_ids (keep old rows) r.id)
          ∙ has-take id_of size r.id (order (keep old rows)) k)
        (has-keep_lem id_of old rows d)

  rest_new :
      (rows : List Webhook)
      → Distinct id_of rows
      → keep (λ r. not (old r)) (delete_ids (map id_of (found rows)) rows)
        ≡ keep (λ r. not (old r)) rows
  unfolding delete_ids
  rest_new rows d =
      keep-keep (λ r. not (old r)) (λ r. not (is_found rows r)) rows
        (All-imp _ _ rows (λ r h k. ground (arith, h)) (found_old rows d))

  -- A round that is not full finds all old rows.
  short_round :
      (rows : List Webhook)
      → Distinct id_of rows
      → length (found rows) < size
      → delete_ids (map id_of (found rows)) rows ≡ keep (λ r. not (old r)) rows
  unfolding delete_ids
  short_round rows d short =
      let whole : found rows ≡ order (keep old rows) =
        take_all size (order (keep old rows))
          (omega (arith, length-take size (order (keep old rows)))) in
      keep_congr (λ r. not (is_found rows r)) (λ r. not (old r)) rows
        (All-imp _ _ rows
          (λ r h.
            ap not
              (ap (λ xs. has r.id (map id_of xs)) whole ∙ fair.same_ids (keep old rows) r.id ∙ h))
          (has-keep_lem id_of old rows d))

  abbrev left : List Webhook → List Webhook
  left rows = delete_ids (map id_of (found rows)) rows

  left-length-lt :
      (rows : List Webhook) → length (found rows) ≢ 0 → length (left rows) < length rows
  unfolding delete_ids
  left-length-lt rows n =
      let (k, h) = first_key (found rows) n in
      length-keep-lt id_of (map id_of (found rows)) k rows
        (has-keep id_of old k rows
          (sym (fair.same_ids (keep old rows) k) ∙ has-take id_of size k (order (keep old rows)) h))
        h

  found_none :
      (rows : List Webhook)
      → 0 < size
      → length (found rows) ≡ 0
      → rows ≡ keep (λ r. not (old r)) rows × (length (keep old rows) ≡ 0)
  found_none rows pos e =
      let none_old : length (keep old rows) ≡ 0 =
        omega (arith, length-take size (order (keep old rows)), fair.same_length (keep old rows)) in
      (
        sym (
            keep-All (λ r. not (old r)) rows
              (All-imp _ _ rows (λ r h. ap not h) (none_kept old rows none_old))),
        none_old,
      )

  left-Distinct : (rows : List Webhook) → Distinct id_of rows → Distinct id_of (left rows)
  unfolding delete_ids
  left-Distinct rows d = Distinct-keep id_of (λ r. not (is_found rows r)) rows d

  cleanup_from_lem :
      (fuel : ℕ) (rows : List Webhook) (total : ℕ)
      → length rows < fuel
      → 0 < size
      → Distinct id_of rows
      → cleanup_from fuel size order old rows total
        ≡ some (keep (λ r. not (old r)) rows, total + length (keep old rows))
  unfolding cleanup_from
  cleanup_from_lem zero rows total f pos d = absurd (omega arith)
  cleanup_from_lem (suc fuel) rows total f pos d =
      let goal : Option (List Webhook × ℕ) =
        some (keep (λ r. not (old r)) rows, total + length (keep old rows)) in
      let counts = length-keep-not old rows in
      let left_counts = length-keep-not old (left rows) in
      let same = ap length (rest_new rows d) in
      if_elim (λ x. x ≡ goal) (length (found rows) == 0) _ _
        (λ h.
          let e = found_none rows pos (omega (arith, (==_iff _ _).0 h)) in ground (arith, e.0, e.1))
        (λ h.
          let fewer = left-length-lt rows (λ e. ground (arith, e, h)) in
          if_elim (λ x. x ≡ goal) (length (found rows) == size) _ _
            (λ k.
              cleanup_from_lem fuel (left rows) _ (omega (arith, fewer)) pos (left-Distinct rows d)
              ∙ ap some
                  (pair_path (rest_new rows d) (omega (arith, counts, left_counts, same, fewer))))
            (λ k.
              let e =
                short_round rows d (ground (arith, k, length-take size (order (keep old rows)))) in
              ap some (pair_path e (omega (arith, counts, ap length e)))))

-- With distinct ids, and whatever order the database reads the rows in, the deletion of old inactive
-- webhooks ends within its fuel; what is left and what is counted are those of a deletion of all old
-- inactive rows at once.
pub cleanup_old_inactive_webhooks_lem :
    (order : List Webhook → List Webhook) (now days : ℕ) (rows : List Webhook)
    → IsOrder order
    → Distinct id_of rows
    → cleanup_old_inactive_webhooks order now rows days
      ≡ some (keep (λ r. not (is_old now days r)) rows, length (keep (is_old now days) rows))
unfolding cleanup_old_inactive_webhooks
cleanup_old_inactive_webhooks_lem order now days rows fair d =
    cleanup_from_lem order fair cleanup_batch_size (is_old now days) (suc (length rows)) rows 0
      (omega arith) (omega arith) d
    ∙ ap some (pair_path refl (omega arith))
