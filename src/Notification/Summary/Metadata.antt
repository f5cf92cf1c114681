-- ===== src/Notification/Summary/Metadata.antt =====
-- About the metadata that a notification batch of
-- src/modules/notification/notification-batch.service.ts leaves in the history of
-- src/modules/shared/batch-processing.service.ts.
use law_cast_backend.Base.{
  ℕ, ◌+◌, ◌<◌, ◌≡◌, inl, inr, Bool-cases, Option-cases, refl, sym, ap, subst, ◌∙◌, List, [], ◌∷◌,
  Option, none, some, Bool, true, false, not, if◌then◌else◌, map, length, length-map, any, All,
  arith, String, str_eq, eq_iff,
}
use law_cast_backend.Promises.{Result, ok, err}
use law_cast_backend.Batch.Jobs.{Error, Job, BatchJobResult}
use law_cast_backend.Batch.Jobs.Retry.{IsFresh}
use law_cast_backend.Batch.Jobs.Order.{Reports, ReportsAll}
use law_cast_backend.Batch.Service.{
  Service, BatchProcessingOptions, BatchRunRecord, update_metadata, update_recent_job_metadata,
  merge,
}
use law_cast_backend.Batch.Service.History.{
  execute_batch_completes, effective_concurrency, RunReports,
}
use law_cast_backend.Notification.Plan.{
  Message, NotificationJobResult, execute_notification_batch, notification_jobs,
}
use law_cast_backend.Notification.Summary.{
  Sums, summarize, entries, after_batch, process_notification_batch,
}

abbrev pub has_failed : {A : Type 0} → List (BatchJobResult A) → Bool
has_failed rows = any (λ r. not r.success) rows

abbrev is_some : {A : Type 0} → Option A → Bool
is_some none = false
is_some (some a) = true

-- A row has data exactly when its job succeeded.
abbrev HasData : {A : Type 0} → BatchJobResult A → Type 0
HasData r = is_some r.result ≡ r.success

Reports-HasData : {A : Type 0} (r : BatchJobResult A) (o : Result Error A) → Reports r o → HasData r
Reports-HasData r (ok a) h = rw (h.0, h.1) refl
Reports-HasData r (err e) h = rw (h.0, h.1) refl

ReportsAll-HasData :
    {A : Type 0} (timeout retries : ℕ) (jobs : List (Job A)) (rows : List (BatchJobResult A))
    → ReportsAll timeout retries jobs rows
    → All HasData rows
ReportsAll-HasData timeout retries [] [] h = tt
ReportsAll-HasData timeout retries [] (r ∷ rows) h = absurd h
ReportsAll-HasData timeout retries (j ∷ jobs) [] h = absurd h
ReportsAll-HasData timeout retries (j ∷ jobs) (r ∷ rows) h =
    (Reports-HasData r _ h.0, ReportsAll-HasData timeout retries jobs rows h.1)

update_head :
    (r : BatchRunRecord) (rest : List BatchRunRecord) (es : List (String × String))
    → update_metadata r.id es (r ∷ rest) ≡ record r { metadata = merge r.metadata es } ∷ rest
unfolding update_metadata
update_head r rest es = rw ((eq_iff r.id r.id).1 refl) refl

module _ {N : Type 0} where
  -- A number of the rows, added up; a row without data adds nothing.
  abbrev total : (NotificationJobResult N → ℕ) → List (BatchJobResult (NotificationJobResult N)) → ℕ
  total f [] = 0
  total f (r ∷ rows) = elim r.result as (λ _. ℕ) [ none ↦ 0 | some d ↦ f d ] + total f rows

  abbrev pub sums_of : List (BatchJobResult (NotificationJobResult N)) → Sums
  sums_of rows = record {
    total_webhooks = total (λ d. d.total_webhooks) rows;
    deactivated = total (λ d. d.deactivated) rows;
    temporary_failures = total (λ d. d.temporary_failures) rows;
    total_push_subscriptions = total (λ d. d.total_push_subscriptions) rows;
    web_push_success_count = total (λ d. d.web_push_success_count) rows;
    web_push_dispatch_failures = total (λ d. d.web_push_failed_count) rows;
    web_push_deactivated = total (λ d. d.web_push_deactivated_count) rows;
  }

  summarize_lem :
      (rows : List (BatchJobResult (NotificationJobResult N)))
      → All HasData rows
      → summarize rows ≡ (if has_failed rows then none else some (sums_of rows))
  unfolding summarize
  summarize_lem [] h = refl
  summarize_lem (r ∷ rows) h = elim (Option-cases r.result) [
    | inl e ↦ let bad : r.success ≡ false = sym h.0 ∙ ap is_some e in rw (e, bad) refl
    | inr found ↦
        let (d, e) = found in
        let good : r.success ≡ true = sym h.0 ∙ ap is_some e in
        elim (Bool-cases (has_failed rows)) [
          | inl k ↦ rw (e, good, summarize_lem rows h.1, k) refl
          | inr k ↦ rw (e, good, summarize_lem rows h.1, k) refl
        ]
  ]

  -- What a run's record becomes once its rows are summed up.
  abbrev pub summed :
      (ℕ → String)
      → BatchRunRecord
      → List (BatchJobResult (NotificationJobResult N))
      → BatchRunRecord
  summed show r rows =
      if has_failed rows
      then r
      else record r { metadata = merge r.metadata (entries show (sums_of rows)) }

  after_batch_lem :
      (show : ℕ → String) (s : Service) (rows : List (BatchJobResult (NotificationJobResult N)))
      (r : BatchRunRecord) (rest : List BatchRunRecord)
      → All HasData rows
      → s.recent_job_history ≡ r ∷ rest
      → (after_batch show r.id s (ok rows)).recent_job_history ≡ summed show r rows ∷ rest
  unfolding after_batch update_recent_job_metadata update_metadata
  after_batch_lem show s rows r rest h e = elim (Bool-cases (has_failed rows)) [
    | inl k ↦ rw (summarize_lem rows h, k, after_batch) e
    | inr k ↦
        rw (summarize_lem rows h, k, after_batch)
          (ap (update_metadata r.id (entries show (sums_of rows))) e
            ∙ update_head r rest (entries show (sums_of rows)))
  ]

  -- While the service is up and the webhooks can be loaded, a notification batch with a positive
  -- concurrency and an id that is not in use settles: the batch service runs its jobs and heads its
  -- history with a record of them. When every job succeeded, the record's metadata are then merged
  -- with the sums of the rows; when some job failed, the record stays without them.
  pub process_notification_batch_lem :
      (show : ℕ → String) (settles : Message N → Job (NotificationJobResult N)) (s : Service)
      (notices : List N) (options : BatchProcessingOptions) (id : String) (now : ℕ)
      → s.is_shutting_down ≡ false
      → IsFresh s.timers
      → 0 < effective_concurrency options
      → any (str_eq id) s.job_queue ≡ false
      → (s' : Service) × (rows : List (BatchJobResult (NotificationJobResult N)))
        × (r : BatchRunRecord) × (rest : List BatchRunRecord) × (final : Service)
        × (process_notification_batch show id settles false s notices options now ≡ some final)
        × (final.recent_job_history ≡ summed show r rows ∷ rest)
        × RunReports (map settles (notification_jobs notices)) options rows
        × (s'.recent_job_history ≡ r ∷ rest)
        × (r.id ≡ id)
        × (r.success_count + r.failed_count ≡ length (notification_jobs notices))
        × (execute_notification_batch settles false s notices options id now ≡ some (s', ok rows))
  unfolding process_notification_batch execute_notification_batch
  process_notification_batch_lem show settles s notices options id now up fresh pos new =
      let jobs = map settles (notification_jobs notices) in
      let (s', rows, r, rest, ran, reports, _, head, _, named, _, counts, _) =
        execute_batch_completes s jobs options id now up fresh pos new in
      let filled = ReportsAll-HasData _ _ jobs rows reports in
      (
        s',
        rows,
        r,
        rest,
        after_batch show id s' (ok rows),
        rw (ran, process_notification_batch) refl,
        subst
            (λ i. (after_batch show i s' (ok rows)).recent_job_history ≡ summed show r rows ∷ rest)
            named (after_batch_lem show s' rows r rest filled head),
        reports,
        head,
        named,
        omega (arith, counts, length-map settles (notification_jobs notices)),
        ran,
      )
