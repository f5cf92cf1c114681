-- ===== src/Webhooks/Registry.antt =====
-- About the table of webhooks under sequences of calls of src/modules/webhook/webhook.service.ts and
-- src/modules/webhook/webhook-cleanup.service.ts.
use law_cast_backend.Base.{
  ℕ, ◌-◌, length, inl, inr, Option-cases, refl, List, [], ◌∷◌, Option, none, some, false, ◌==◌,
  if_elim, find_by, map,
}
use law_cast_backend.Promises.{Result, ok, err}
use law_cast_backend.Change.Text.{Text, text_eq}
use law_cast_backend.Webhooks.{
  Webhook, Table, Location, find_url, activated, deactivated, create_normalized, create, remove,
  find_one, HttpError, normalize_webhook_url, delete_ids, remove_failed_webhooks,
}
use law_cast_backend.Webhooks.Bulk.{create_bulk, create_each, BulkResult, counted, unique_urls}
use law_cast_backend.Webhooks.Cleanup.{CleanupJob, Cleanup, run_job}
use law_cast_backend.Webhooks.Cleanup.Batches.{IsOrder}
use law_cast_backend.Webhooks.Cleanup.Safety.{run_job_lem}
use law_cast_backend.Webhooks.Removal.{remove_failed_webhooks_lem}
use law_cast_backend.Webhooks.Rows.{save-IsValid, keep-IsValid, insert-IsValid}
use law_cast_backend.Webhooks.Urls.{IsValid}

abbrev pub or_same : Table → Result HttpError Table → Table
or_same t (ok t') = t'
or_same t (err e) = t

abbrev pub or_rows : List Webhook → Option (List Webhook × ℕ) → List Webhook
or_rows rows none = rows
or_rows rows (some left) = left.0

abbrev pub or_left : List Webhook → Option Cleanup → List Webhook
or_left rows none = rows
or_left rows (some c) = c.rows

-- The calls that write to the table; those with a time have the clock's.
pub data Call : Type 0 where
  creates : Text → ℕ → Call
  creates_bulk : List Text → ℕ → Call
  removes : ℕ → ℕ → Call
  removes_failed : List ℕ → Call
  cleans : CleanupJob → ℕ → Call

module _ (parse : Text → Option Location) (order : List Webhook → List Webhook) where
  unfoldable pub handle : Table → Call → Table
  unfolding create create_bulk remove remove_failed_webhooks run_job
  handle t (creates url now) = (create parse t url now).0
  handle t (creates_bulk urls now) = (create_bulk parse t urls now).0
  handle t (removes id now) = or_same t (remove t id now)
  handle t (removes_failed ids) = record t {
    rows = or_rows t.rows (remove_failed_webhooks ids t.rows);
  }
  handle t (cleans job now) = record t {
    rows = or_left t.rows (run_job order now job (record { is_running = false; rows = t.rows }));
  }

  unfoldable pub handle_all : Table → List Call → Table
  unfolding handle
  handle_all t [] = t
  handle_all t (c ∷ cs) = handle_all (handle t c) cs

abbrev pub no_webhooks : Table
no_webhooks = record { rows = []; next_id = 1 }

pub create_normalized-IsValid :
    (t : Table) (url : Text) (now : ℕ) → IsValid t → IsValid (create_normalized t url now).0
unfolding create_normalized find_url
create_normalized-IsValid t url now v = elim (Option-cases (find_url url t.rows)) [
  | inl h ↦ rw (h, create_normalized) (insert-IsValid t url now h v)
  | inr found ↦
      let (r, h) = found in
      rw (h, create_normalized)
        (if_elim (λ (x : Table × Webhook). IsValid x.0) r.is_active _ _ (λ k. v)
          (λ k.
            save-IsValid t (activated now r) r (λ q. text_eq q.url url) h
              (record { same_id = refl; same_url = refl }) v))
]

remove-IsValid : (t : Table) (id now : ℕ) → IsValid t → IsValid (or_same t (remove t id now))
unfolding remove find_one
remove-IsValid t id now v = elim (Option-cases (find_by (λ q. q.id == id) t.rows)) [
  | inl h ↦ rw (h, find_one, remove) v
  | inr found ↦
      let (r, h) = found in
      rw (h, find_one, remove)
        (if_elim IsValid r.is_active _ _
          (λ k.
            save-IsValid t (deactivated now r) r (λ q. q.id == id) h
              (record { same_id = refl; same_url = refl }) v)
          (λ k. v))
]

create_each-IsValid :
    (t : Table) (urls : List Text) (now : ℕ) (b : BulkResult)
    → IsValid t
    → IsValid (create_each t urls now b).0
unfolding create_each
create_each-IsValid t [] now b v = v
create_each-IsValid t (url ∷ urls) now b v =
    create_each-IsValid (create_normalized t url now).0 urls now (counted t url b)
      (create_normalized-IsValid t url now v)

module _ (parse : Text → Option Location) (order : List Webhook → List Webhook)
    (fair : IsOrder order) where
  handle-IsValid : (t : Table) (c : Call) → IsValid t → IsValid (handle parse order t c)
  unfolding handle create create_bulk delete_ids
  handle-IsValid t (creates url now) v =
      create_normalized-IsValid t (normalize_webhook_url parse url) now v
  handle-IsValid t (creates_bulk urls now) v =
      create_each-IsValid t (unique_urls [] (map (normalize_webhook_url parse) urls)) now
        (record {
          created = 0;
          reactivated = 0;
          duplicates =
              length urls - length (unique_urls [] (map (normalize_webhook_url parse) urls));
        })
        v
  handle-IsValid t (removes id now) v = remove-IsValid t id now v
  handle-IsValid t (removes_failed ids) v =
      rw (remove_failed_webhooks_lem ids t.rows) (keep-IsValid t _ v)
  handle-IsValid t (cleans job now) v =
      rw (run_job_lem order now job (record { is_running = false; rows = t.rows }) fair v.ids)
        (keep-IsValid t _ v)

  pub handle_all-kept :
      (t : Table) (cs : List Call) → IsValid t → IsValid (handle_all parse order t cs)
  unfolding handle_all
  handle_all-kept t [] v = v
  handle_all-kept t (c ∷ cs) v = handle_all-kept (handle parse order t c) cs (handle-IsValid t c v)

  -- Whatever order the database reads rows in, every sequence of calls that starts from no webhooks
  -- leaves a table in which no two rows have the same id or the same url, and every id is below the
  -- next one to be given.
  pub handle_all-IsValid : (cs : List Call) → IsValid (handle_all parse order no_webhooks cs)
  handle_all-IsValid cs =
      handle_all-kept no_webhooks cs (record { ids = tt; below = tt; urls = tt })
