-- ===== src/Webhooks/Removal.antt =====
-- About `removeFailedWebhooks` of src/modules/webhook/webhook.service.ts: the deletion in batches of
-- ids against one deletion.
use law_cast_backend.Base.{
  ℕ, zero, suc, ◌+◌, ◌-◌, ◌<◌, ◌≤◌, ◌≡◌, refl, sym, ap, ◌∙◌, List, [], ◌∷◌, ◌++◌, some, not, length,
  length-drop, length-keep-le, take, drop, take-append-drop, arith,
}
use law_cast_backend.Base.Filters.{
  pair_path, has, has-append, All-always, keep_congr, keep-All, keep-keep_and,
}
use law_cast_backend.Webhooks.{
  Webhook, delete_ids, remove_from, remove_failed_webhooks, remove_batch_size,
}

delete_ids-append :
    (xs ys : List ℕ) (rows : List Webhook)
    → delete_ids ys (delete_ids xs rows) ≡ delete_ids (xs ++ ys) rows
unfolding delete_ids
delete_ids-append xs ys rows =
    keep-keep_and (λ r. not (has r.id ys)) (λ r. not (has r.id xs)) rows
    ∙ keep_congr _ _ rows (All-always _ rows (λ r. ground (arith, has-append r.id xs ys)))

delete_ids-nil : (rows : List Webhook) → delete_ids [] rows ≡ rows
unfolding delete_ids
delete_ids-nil rows = keep-All _ rows (All-always _ rows (λ r. refl))

delete_ids-length-le :
    (ids : List ℕ) (rows : List Webhook) → length (delete_ids ids rows) ≤ length rows
unfolding delete_ids
delete_ids-length-le ids rows = length-keep-le (λ r. not (has r.id ids)) rows

remove_from_lem :
    (fuel size : ℕ) (ids : List ℕ) (rows : List Webhook) (total : ℕ)
    → length ids ≤ fuel
    → 0 < size
    → remove_from fuel size ids rows total
      ≡ some (delete_ids ids rows, total + (length rows - length (delete_ids ids rows)))
unfolding remove_from
remove_from_lem fuel size [] rows total f pos =
    ap some
      (pair_path (sym (delete_ids-nil rows)) (ground (arith, ap length (delete_ids-nil rows))))
remove_from_lem zero size (i ∷ ids) rows total f pos = absurd (omega arith)
remove_from_lem (suc fuel) size (i ∷ ids) rows total f pos =
    let now = take size (i ∷ ids) in
    let later = drop size (i ∷ ids) in
    let left = delete_ids now rows in
    let e =
      delete_ids-append now later rows
      ∙ ap (λ k. delete_ids k rows) (take-append-drop size (i ∷ ids)) in
    remove_from_lem fuel size later left (total + (length rows - length left))
      (omega (arith, length-drop size (i ∷ ids))) pos
    ∙ ap some (
        pair_path e (
          omega
            (arith, ap length e, delete_ids-length-le now rows, delete_ids-length-le later left)))

-- Deleting in batches of 500 ids ends, and leaves and counts what one deletion of all the ids does.
pub remove_failed_webhooks_lem :
    (ids : List ℕ) (rows : List Webhook)
    → remove_failed_webhooks ids rows
      ≡ some (delete_ids ids rows, length rows - length (delete_ids ids rows))
unfolding remove_failed_webhooks
remove_failed_webhooks_lem ids rows =
    remove_from_lem (length ids) remove_batch_size ids rows 0 (omega arith) (omega arith)
    ∙ ap some (pair_path refl (omega arith))
