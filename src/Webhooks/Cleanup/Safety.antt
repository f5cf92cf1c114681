-- ===== src/Webhooks/Cleanup/Safety.antt =====
-- About the jobs of src/modules/webhook/webhook-cleanup.service.ts: each against one pass over the
-- table that the statistics decide.
use law_cast_backend.Base.{
  ℕ, ◌≡◌, inl, inr, Bool-cases, refl, sym, ap, ◌∙◌, List, some, Bool, true, false, not, ◌&&◌, ◌||◌,
  ltb, if◌then◌else◌, if_elim, keep,
}
use law_cast_backend.Base.Filters.{
  Distinct, All-always, keep_congr, keep-All, keep-keep_and, Distinct-keep,
}
use law_cast_backend.Webhooks.{Webhook}
use law_cast_backend.Webhooks.Cleanup.{
  is_old, is_below, Stats, get_detailed_stats, clean_old_if, clean_all_if,
  cleanup_inactive_webhooks, intelligent_rows, optimized_rows, monitored_rows, CleanupJob,
  intelligent_webhook_cleanup, run_system_optimization, run_system_monitoring, rows_after, run_job,
  Cleanup,
}
use law_cast_backend.Webhooks.Cleanup.Batches.{IsOrder, id_of, cleanup_old_inactive_webhooks_lem}

-- Whether a job deletes a webhook, given the statistics that it starts from.
abbrev pub is_swept : CleanupJob → ℕ → Stats → Webhook → Bool
is_swept intelligent_webhook_cleanup now s r =
    (is_below s 50 && not r.is_active)
    || (is_below s 70 && is_old now 7 r)
    || (ltb 0 s.old_inactive && is_old now 14 r)
is_swept run_system_optimization now s r = (is_below s 80 && ltb 0 s.inactive) && not r.is_active
is_swept run_system_monitoring now s r =
    if is_below s 30 && ltb 100 s.total
    then not r.is_active
    else ltb 50 s.old_inactive && is_old now 3 r

abbrev pub unswept : CleanupJob → ℕ → List Webhook → List Webhook
unswept job now rows = keep (λ r. not (is_swept job now (get_detailed_stats now rows) r)) rows

nor3 : (x y z : Bool) → (not x && (not y && not z)) ≡ not (x || y || z)
nor3 true y z = refl
nor3 false true z = refl
nor3 false false z = refl

keep_same :
    (p q : Webhook → Bool) (rows : List Webhook)
    → ((r : Webhook) → p r ≡ q r)
    → keep p rows ≡ keep q rows
keep_same p q rows h = keep_congr p q rows (All-always _ rows h)

clean_all_if_lem :
    (order : List Webhook → List Webhook) (now : ℕ) (test : Bool) (rows : List Webhook)
    → clean_all_if order now test rows ≡ keep (λ r. not (test && not r.is_active)) rows
unfolding clean_all_if cleanup_inactive_webhooks
clean_all_if_lem order now true rows = refl
clean_all_if_lem order now false rows =
    sym (keep-All (λ r. true) rows (All-always _ rows (λ r. refl)))

module _ (order : List Webhook → List Webhook) (now : ℕ) (fair : IsOrder order) where
  clean_old_if_lem :
      (test : Bool) (days : ℕ) (rows : List Webhook)
      → Distinct id_of rows
      → clean_old_if order now test days rows
        ≡ some (keep (λ r. not (test && is_old now days r)) rows)
  unfolding clean_old_if
  clean_old_if_lem true days rows d =
      rw (cleanup_old_inactive_webhooks_lem order now days rows fair d, clean_old_if) refl
  clean_old_if_lem false days rows d =
      rw (cleanup_old_inactive_webhooks_lem order now days rows fair d, clean_old_if)
        (ap some (sym (keep-All (λ r. true) rows (All-always _ rows (λ r. refl)))))

  intelligent_lem :
      (rows : List Webhook)
      → Distinct id_of rows
      → intelligent_rows order now rows ≡ some (unswept intelligent_webhook_cleanup now rows)
  unfolding intelligent_rows
  intelligent_lem rows d =
      let s = get_detailed_stats now rows in
      let a : Webhook → Bool = λ r. not (ltb 0 s.old_inactive && is_old now 14 r) in
      let b : Webhook → Bool = λ r. not (is_below s 70 && is_old now 7 r) in
      let c : Webhook → Bool = λ r. not (is_below s 50 && not r.is_active) in
      rw
        (
          clean_old_if_lem (ltb 0 s.old_inactive) 14 rows d,
          clean_old_if_lem (is_below s 70) 7 (keep a rows) (Distinct-keep id_of a rows d),
          clean_all_if_lem order now (is_below s 50) (keep b (keep a rows)),
          intelligent_rows,
        )
        (ap some (
          ap (keep c) (keep-keep_and b a rows)
          ∙ keep-keep_and c (λ r. b r && a r) rows
          ∙ keep_same _ _ rows (λ r.
            nor3 (is_below s 50 && not r.is_active) (is_below s 70 && is_old now 7 r)
              (ltb 0 s.old_inactive && is_old now 14 r))))

  optimized_lem :
      (rows : List Webhook)
      → optimized_rows order now rows ≡ some (unswept run_system_optimization now rows)
  unfolding optimized_rows
  optimized_lem rows =
      let s = get_detailed_stats now rows in
      ap some (clean_all_if_lem order now (is_below s 80 && ltb 0 s.inactive) rows)

  monitored_lem :
      (rows : List Webhook)
      → Distinct id_of rows
      → monitored_rows order now rows ≡ some (unswept run_system_monitoring now rows)
  unfolding monitored_rows
  monitored_lem rows d =
      let s = get_detailed_stats now rows in
      if_elim (λ x. x ≡ some (unswept run_system_monitoring now rows))
        (is_below s 30 && ltb 100 s.total) _ _
        (λ h. ap some (clean_all_if_lem order now true rows ∙ keep_same _ _ rows (λ r. rw h refl)))
        (λ h.
          clean_old_if_lem (ltb 50 s.old_inactive) 3 rows d
          ∙ ap some (keep_same _ _ rows (λ r. rw h refl)))

  rows_after_lem :
      (job : CleanupJob) (rows : List Webhook)
      → Distinct id_of rows
      → rows_after order now job rows ≡ some (unswept job now rows)
  unfolding rows_after
  rows_after_lem intelligent_webhook_cleanup rows d = intelligent_lem rows d
  rows_after_lem run_system_optimization rows d = optimized_lem rows
  rows_after_lem run_system_monitoring rows d = monitored_lem rows d

-- With distinct ids, and whatever order the database reads the rows in, a cleanup job ends; when the
-- lock is free it leaves the rows that one pass leaves, which takes out what the job's rule selects
-- by the statistics from before, with the lock free; when the lock is taken it changes nothing.
pub run_job_lem :
    (order : List Webhook → List Webhook) (now : ℕ) (job : CleanupJob) (c : Cleanup)
    → IsOrder order
    → Distinct id_of c.rows
    → run_job order now job c
      ≡ some
          (if c.is_running then c else record { is_running = false; rows = unswept job now c.rows })
unfolding run_job
run_job_lem order now job c fair d = elim (Bool-cases c.is_running) [
  | inl h ↦ rw h refl
  | inr h ↦ rw (h, rows_after_lem order now fair job c.rows d) refl
]
