-- ===== src/Webhooks/Cleanup.antt =====
-- The cleanups of inactive webhooks: `cleanupInactiveWebhooks`, `cleanupOldInactiveWebhooks` and
-- `getDetailedStats` of src/modules/webhook/webhook.service.ts, and the jobs of
-- src/modules/webhook/webhook-cleanup.service.ts that call them. The order in which the database
-- lists rows without an ORDER BY is a parameter. The clock is in milliseconds and stands still over a
-- job. A percentage is compared without rounding; the thresholds are such that the program's
-- division rounds to the same answers. A job that waits for the database keeps the lock, which is
-- free again at its end; logs are left out.
pub mod Batches
pub mod Safety
use law_cast_backend.Base.{
  ℕ, zero, suc, ◌+◌, ◌-◌, ◌*◌, List, [], ◌∷◌, ◌++◌, Option, none, some, Bool, true, false, not, ltb,
  leb, ◌==◌, ◌&&◌, if◌then◌else◌, keep, map, length, take,
}
use law_cast_backend.Webhooks.{Webhook, delete_ids}

abbrev pub day : ℕ
day = 86400000

-- `isActive = false AND updatedAt < cutoff`, the cutoff being `days` days before `now`.
abbrev pub is_old : ℕ → ℕ → Webhook → Bool
is_old now days r = not r.is_active && ltb (r.updated_at + days * day) now

abbrev pub is_recent : ℕ → ℕ → Webhook → Bool
is_recent now days r = not r.is_active && ltb now (r.updated_at + days * day)

pub cleanup_inactive_webhooks : List Webhook → List Webhook × ℕ
cleanup_inactive_webhooks rows =
    let left = keep (λ r. not (not r.is_active)) rows in (left, length rows - length left)

-- The rounds of `cleanupOldInactiveWebhooks` for the rows that `old` selects: ids are read, at most
-- `size` of them, and deleted, until a round reads fewer. None is given when the fuel ends first.
unfoldable pub cleanup_from :
    ℕ
    → ℕ
    → (List Webhook → List Webhook)
    → (Webhook → Bool)
    → List Webhook
    → ℕ
    → Option (List Webhook × ℕ)
unfolding delete_ids
cleanup_from zero size order old rows total = none
cleanup_from (suc fuel) size order old rows total =
    let found = take size (order (keep old rows)) in
    let left = delete_ids (map (λ r. r.id) found) rows in
    let deleted = length rows - length left in
    let again = cleanup_from fuel size order old left (total + deleted) in
    if length found == 0
    then some (rows, total)
    else if length found == size
    then again
    else some (left, total + deleted)

abbrev pub cleanup_batch_size : ℕ
cleanup_batch_size = 1000

unfoldable pub cleanup_old_inactive_webhooks :
    (List Webhook → List Webhook) → ℕ → List Webhook → ℕ → Option (List Webhook × ℕ)
unfolding cleanup_from
cleanup_old_inactive_webhooks order now rows days =
    cleanup_from (suc (length rows)) cleanup_batch_size order (is_old now days) rows 0

pub record Stats : Type 0 where
  pub total : ℕ
  pub active : ℕ
  pub inactive : ℕ
  pub old_inactive : ℕ
  pub recent_inactive : ℕ

unfoldable pub get_detailed_stats : ℕ → List Webhook → Stats
get_detailed_stats now rows = record {
  total = length rows;
  active = length (keep (λ r. r.is_active) rows);
  inactive = length (keep (λ r. not r.is_active) rows);
  old_inactive = length (keep (is_old now 30) rows);
  recent_inactive = length (keep (is_recent now 7) rows);
}

-- `efficiency < percent`; a table without rows has an efficiency of 100.
abbrev pub is_below : Stats → ℕ → Bool
is_below s percent =
    if s.total == 0 then ltb 100 percent else ltb (s.active * 100) (percent * s.total)

pub data Health : Type 0 where
  excellent good fair poor critical : Health

unfoldable pub health_of : Stats → Health
health_of s =
    if not (is_below s 90)
    then excellent
    else if not (is_below s 80)
    then good
    else if not (is_below s 60)
    then fair
    else if not (is_below s 40)
    then poor
    else critical

-- The service's lock and the table.
pub record Cleanup : Type 0 where
  pub is_running : Bool
  pub rows : List Webhook

module _ (order : List Webhook → List Webhook) (now : ℕ) where
  -- A call of `cleanupOldInactiveWebhooks` under its condition.
  unfoldable pub clean_old_if : Bool → ℕ → List Webhook → Option (List Webhook)
  unfolding cleanup_old_inactive_webhooks
  clean_old_if test days rows = elim (cleanup_old_inactive_webhooks order now rows days) [
    | none ↦ if test then none else some rows
    | some r ↦ some (if test then r.0 else rows)
  ]

  unfoldable pub clean_all_if : Bool → List Webhook → List Webhook
  unfolding cleanup_inactive_webhooks
  clean_all_if test rows = if test then (cleanup_inactive_webhooks rows).0 else rows

  -- The decisions are those of the statistics from before the first deletion.
  unfoldable pub intelligent_rows : List Webhook → Option (List Webhook)
  unfolding get_detailed_stats clean_old_if clean_all_if
  intelligent_rows rows =
      let stats = get_detailed_stats now rows in
      elim (clean_old_if (ltb 0 stats.old_inactive) 14 rows) [
        | none ↦ none
        | some rows' ↦ elim (clean_old_if (is_below stats 70) 7 rows') [
          | none ↦ none
          | some rows'' ↦ some (clean_all_if (is_below stats 50) rows'')
        ]
      ]

  unfoldable pub optimized_rows : List Webhook → Option (List Webhook)
  unfolding get_detailed_stats clean_all_if
  optimized_rows rows =
      let stats = get_detailed_stats now rows in
      some (clean_all_if (is_below stats 80 && ltb 0 stats.inactive) rows)

  unfoldable pub monitored_rows : List Webhook → Option (List Webhook)
  unfolding get_detailed_stats clean_old_if clean_all_if
  monitored_rows rows =
      let stats = get_detailed_stats now rows in
      let urgent = is_below stats 30 && ltb 100 stats.total in
      if urgent
      then some (clean_all_if true rows)
      else clean_old_if (ltb 50 stats.old_inactive) 3 rows

  -- The health is that of the statistics from before the deletion.
  unfoldable pub perform_self_diagnostics : List Webhook → Option (List Webhook × Health)
  unfolding get_detailed_stats clean_old_if health_of
  perform_self_diagnostics rows =
      let stats = get_detailed_stats now rows in
      elim (clean_old_if (is_below stats 40) 1 rows) [
        | none ↦ none
        | some left ↦ some (left, health_of stats)
      ]

pub data CleanupJob : Type 0 where
  intelligent_webhook_cleanup run_system_optimization run_system_monitoring : CleanupJob

unfoldable pub rows_after :
    (List Webhook → List Webhook) → ℕ → CleanupJob → List Webhook → Option (List Webhook)
unfolding intelligent_rows optimized_rows monitored_rows
rows_after order now intelligent_webhook_cleanup rows = intelligent_rows order now rows
rows_after order now run_system_optimization rows = optimized_rows order now rows
rows_after order now run_system_monitoring rows = monitored_rows order now rows

-- A job that finds the lock taken is skipped; otherwise the `finally` block frees the lock.
unfoldable pub run_job : (List Webhook → List Webhook) → ℕ → CleanupJob → Cleanup → Option Cleanup
unfolding rows_after
run_job order now job c = if c.is_running then some c else elim (rows_after order now job c.rows) [
  | none ↦ none
  | some rows ↦ some (record { is_running = false; rows = rows })
]
