-- ===== src/Webhooks/Tests.antt =====
-- Runs of src/modules/webhook at concrete inputs.
use law_cast_backend.Base.{
  ℕ, ◌+◌, ◌≡◌, ◌≤◌, refl, List, [], ◌∷◌, Option, none, some, Bool, true, false, not, keep, All,
  length, map, arith, ◌*◌,
}
use law_cast_backend.Change.Text.{Text, codes, text_eq}
use law_cast_backend.Webhooks.{
  Webhook, Table, Location, create, find_by_url, remove_failed_webhooks, delete_ids,
  normalize_webhook_url,
}
use law_cast_backend.Webhooks.Bulk.{create_bulk}
use law_cast_backend.Webhooks.Bulk.Counts.{create_bulk_lem, is_registered}
use law_cast_backend.Webhooks.Cleanup.{
  run_job, Cleanup, run_system_optimization, cleanup_old_inactive_webhooks, is_old, day,
  intelligent_webhook_cleanup,
}
use law_cast_backend.Webhooks.Cleanup.Batches.{IsOrder, cleanup_old_inactive_webhooks_lem}
use law_cast_backend.Webhooks.Cleanup.Safety.{run_job_lem, unswept}
use law_cast_backend.Webhooks.Create.{find_by_url-create, active_count}
use law_cast_backend.Webhooks.Interleaved.{cleanup_round, of_id, cleanup_round_spares}
use law_cast_backend.Webhooks.Registry.{
  handle_all, handle_all-IsValid, creates, removes, removes_failed, creates_bulk, cleans, Call,
  no_webhooks,
}
use law_cast_backend.Webhooks.Urls.{IsValid}

-- A parser that knows two urls of one webhook and nothing else.
abbrev parse : Text → Option Location
parse [] = none
parse (c ∷ s) = some (record {
  protocol = codes "https:";
  hostname = codes "DiscordApp.com";
  pathname = codes "/api/";
})

normalize_run : normalize_webhook_url parse (codes "x") ≡ codes "https://discord.com/api"
unfolding normalize_webhook_url
normalize_run = refl

abbrev hook : ℕ → Text → Bool → ℕ → Webhook
hook id url is_active time = record {
  id = id;
  url = url;
  is_active = is_active;
  created_at = 0;
  updated_at = time;
}

abbrev rows : List Webhook
rows =
    hook 1 (codes "a") true 0
    ∷ hook 2 (codes "b") false 0
    ∷ hook 3 (codes "c") false (19 * day)
    ∷ []

abbrev table : Table
table = record { rows = rows; next_id = 4 }

table-IsValid : IsValid table
unfolding text_eq
table-IsValid = record {
  ids = (refl, (refl, (refl, tt)));
  below = (omega arith, (omega arith, (omega arith, tt)));
  urls = (refl, (refl, (refl, tt)));
}

abbrev as_stored : List Webhook → List Webhook
as_stored rows = rows

as_stored-IsOrder : IsOrder as_stored
as_stored-IsOrder = record { same_length = λ rows. refl; same_ids = λ rows k. refl }

find_by_url-create_example :
    (find_by_url parse (create parse table (codes "x") 5).0 (codes "x")
      ≡ some (create parse table (codes "x") 5).1)
    × ((create parse table (codes "x") 5).1.is_active ≡ true)
find_by_url-create_example = find_by_url-create parse table (codes "x") 5 table-IsValid

create_bulk_lem_example :
    let (t', b) = create_bulk parse table (codes "x" ∷ [] ∷ codes "y" ∷ []) 5 in
    (length t'.rows ≡ length table.rows + b.created)
    × (active_count t'.rows ≡ active_count table.rows + b.created + b.reactivated)
    × (b.created + b.reactivated + b.duplicates ≤ 3)
    × All
        (λ u. is_registered (normalize_webhook_url parse u) t'.rows ≡ true)
        (codes "x" ∷ [] ∷ codes "y" ∷ [])
create_bulk_lem_example =
    create_bulk_lem parse table (codes "x" ∷ [] ∷ codes "y" ∷ []) 5 table-IsValid

abbrev calls : List Call
calls =
    creates (codes "x") 0
    ∷ creates_bulk (codes "y" ∷ [] ∷ []) 1
    ∷ removes 1 2
    ∷ cleans run_system_optimization 3
    ∷ removes_failed (2 ∷ [])
    ∷ []

handle_all-IsValid_example : IsValid (handle_all parse as_stored no_webhooks calls)
handle_all-IsValid_example = handle_all-IsValid parse as_stored as_stored-IsOrder calls

cleanup_old_inactive_webhooks_lem_example :
    cleanup_old_inactive_webhooks as_stored (20 * day) rows 14
    ≡ some
        (keep (λ r. not (is_old (20 * day) 14 r)) rows, length (keep (is_old (20 * day) 14) rows))
cleanup_old_inactive_webhooks_lem_example =
    cleanup_old_inactive_webhooks_lem as_stored (20 * day) 14 rows as_stored-IsOrder
      table-IsValid.ids

abbrev idle : Cleanup
idle = record { is_running = false; rows = rows }

run_job_lem_example :
    run_job as_stored (40 * day) intelligent_webhook_cleanup idle
    ≡ some
        (record { is_running = false; rows = unswept intelligent_webhook_cleanup (40 * day) rows })
run_job_lem_example =
    run_job_lem as_stored (40 * day) intelligent_webhook_cleanup idle as_stored-IsOrder
      table-IsValid.ids

-- No row is older than 30 days, so that a row of 19 days stays although the efficiency is not low.
unswept_run :
    (length (
        unswept intelligent_webhook_cleanup (20 * day) (
          hook 1 (codes "a") true 0
          ∷ hook 4 (codes "d") true 0
          ∷ hook 5 (codes "e") true 0
          ∷ hook 3 (codes "c") false day
          ∷ []))
      ≡ 4)
unfolding law_cast_backend.Webhooks.Cleanup.get_detailed_stats
unswept_run = refl

-- The second row is inactive and old at the query, and is activated before the deletion.
abbrev registered : Table
registered = record table {
  rows =
      hook 1 (codes "a") true 0
      ∷ hook 2 (codes "https://discord.com/api") false 0
      ∷ hook 3 (codes "c") false (19 * day)
      ∷ [];
}

abbrev reactivation : List Call
reactivation = creates (codes "x") (40 * day) ∷ removes 1 (40 * day) ∷ []

reactivated_run :
    (map (λ r. r.is_active) (of_id 2 (handle_all parse as_stored registered reactivation).rows)
      ≡ true ∷ [])
    × (of_id 2 (cleanup_round parse as_stored (40 * day) 30 reactivation registered).rows ≡ [])
unfolding handle_all cleanup_round
reactivated_run = (refl, refl)

cleanup_round_spares_example :
    IsValid (cleanup_round parse as_stored (40 * day) 30 reactivation table)
    × (of_id 1 (cleanup_round parse as_stored (40 * day) 30 reactivation table).rows
        ≡ of_id 1 (handle_all parse as_stored table reactivation).rows)
cleanup_round_spares_example =
    cleanup_round_spares parse as_stored (40 * day) 30 reactivation table 1 as_stored-IsOrder
      table-IsValid refl
