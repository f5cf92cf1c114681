-- ===== src/Batch/Service/History.antt =====
-- What a batch run leaves in the service: the history and the registry.
use mathlib.Core.Option
use law_cast_backend.Base.{
  ℕ, zero, suc, ◌+◌, ◌<◌, ◌≤◌, ◌≡◌, refl, ap, ◌∙◌, subst, List, [], ◌∷◌, ◌++◌, Option, none, some,
  false, arith, ltb, length, take, length-take, length-keep-le, String, str_eq, eq_iff, any,
  Bool-cases, Option-cases, inl, inr,
}
use law_cast_backend.Promises.{ok}
use law_cast_backend.Batch.Chunks.{chunk_array_partition}
use law_cast_backend.Batch.Jobs.{Job, Timers, BatchJobResult}
use law_cast_backend.Batch.Jobs.Retry.{IsFresh}
use law_cast_backend.Batch.Jobs.Order.{
  ReportsAll, process_batch-ReportsAll, process_batches-ReportsAll,
}
use law_cast_backend.Batch.Service.{
  BatchRunRecord, Service, BatchProcessingOptions, max_history, default_concurrency,
  default_timeout, default_retry_count, default_retry_delay, completed_record,
  add_to_recent_history, register, unregister, finish_batch, successes, splits, run_batch,
  run_record, execute_batch,
}

history_le :
    (h : List BatchRunRecord) (r : BatchRunRecord)
    → length (add_to_recent_history h r) ≤ max_history
unfolding add_to_recent_history
history_le h r = elim (Bool-cases (ltb max_history (length (r ∷ h)))) [
  | inl e ↦ rw (e, add_to_recent_history) (omega (arith, length-take max_history (r ∷ h)))
  | inr e ↦ rw (e, add_to_recent_history) (ground arith)
]

history_head :
    (h : List BatchRunRecord) (r : BatchRunRecord)
    → (rest : List BatchRunRecord) × (add_to_recent_history h r ≡ r ∷ rest)
unfolding add_to_recent_history
history_head h r = elim (Bool-cases (ltb max_history (length (r ∷ h)))) [
  | inl e ↦ (take 9 h, rw (e, add_to_recent_history) refl)
  | inr e ↦ (h, rw (e, add_to_recent_history) refl)
]

-- An id that is not registered leaves no trace when it is registered and taken off.
unregister_absent :
    (id : String) (ids : List String) → any (str_eq id) ids ≡ false → unregister id ids ≡ ids
unfolding unregister
unregister_absent id [] h = refl
unregister_absent id (k ∷ ids) h = ground (arith, unregister_absent id ids)

unregister_last :
    (id : String) (ids : List String) → unregister id (ids ++ id ∷ []) ≡ unregister id ids
unfolding unregister
unregister_last id [] = ground (arith, eq_iff id id)
unregister_last id (k ∷ ids) = ground (arith, unregister_last id ids)

unregister-register :
    (id : String) (ids : List String)
    → any (str_eq id) ids ≡ false
    → unregister id (register id ids) ≡ ids
unfolding register
unregister-register id ids h = rw h (unregister_last id ids ∙ unregister_absent id ids h)

-- The concurrency that a run uses.
abbrev pub effective_concurrency : BatchProcessingOptions → ℕ
effective_concurrency options = Option.get_or options.concurrency default_concurrency

module _ {A : Type 0} where
  ReportsAll-length :
      (timeout retries : ℕ) (jobs : List (Job A)) (rows : List (BatchJobResult A))
      → ReportsAll timeout retries jobs rows
      → length rows ≡ length jobs
  ReportsAll-length timeout retries [] [] h = refl
  ReportsAll-length timeout retries [] (r ∷ rows) h = absurd h
  ReportsAll-length timeout retries (j ∷ jobs) [] h = absurd h
  ReportsAll-length timeout retries (j ∷ jobs) (r ∷ rows) h =
      ap suc (ReportsAll-length timeout retries jobs rows h.1)

  abbrev pub RunReports : List (Job A) → BatchProcessingOptions → List (BatchJobResult A) → Type 0
  RunReports jobs options rows =
      ReportsAll (Option.get_or options.timeout default_timeout)
        (Option.get_or options.retry_count default_retry_count) jobs rows

  splits-pos : (size : Option ℕ) (jobs : List (Job A)) (n : ℕ) → splits size jobs ≡ some n → 0 < n
  splits-pos none jobs n h = cc
  splits-pos (some zero) jobs n h = cc
  splits-pos (some (suc k)) jobs n h = ground arith

  run_batch_lem :
      (t : Timers) (jobs : List (Job A)) (options : BatchProcessingOptions)
      → IsFresh t
      → 0 < effective_concurrency options
      → (t' : Timers) × (rows : List (BatchJobResult A)) × (elapsed : ℕ) × (run_batch t jobs options
          ≡ some (t', rows, elapsed))
        × IsFresh t'
        × RunReports jobs options rows
  unfolding run_batch
  run_batch_lem t jobs options h pos = elim (Option-cases (splits options.batch_size jobs)) [
    | inl e ↦
        let (t', rows, elapsed, eq, fresh, all) =
          process_batch-ReportsAll (Option.get_or options.timeout default_timeout)
            (Option.get_or options.retry_count default_retry_count)
            (Option.get_or options.retry_delay default_retry_delay) t jobs
            (effective_concurrency options) h pos in
        (t', rows, elapsed, rw (e, run_batch) eq, fresh, all)
    | inr (size, e) ↦
        let (chunks, cut, joined, sized) =
          chunk_array_partition jobs size (splits-pos options.batch_size jobs size e) in
        let (t', rows, elapsed, eq, fresh, all) =
          process_batches-ReportsAll (Option.get_or options.timeout default_timeout)
            (Option.get_or options.retry_count default_retry_count)
            (Option.get_or options.retry_delay default_retry_delay) t chunks
            (effective_concurrency options) h pos in
        (
          t',
          rows,
          elapsed,
          rw (e, run_batch) (rw (cut, run_batch) eq),
          fresh,
          subst (λ js. RunReports js options rows) joined all,
        )
  ]

  successes-le : (rows : List (BatchJobResult A)) → successes rows ≤ length rows
  successes-le rows = length-keep-le (λ r. r.success) rows

  -- While the service is up, a call with a positive concurrency and an id that is not in use returns:
  -- one row for each job, in order. Afterwards the registry is what it was, the history is no longer
  -- than its limit, and its newest record has the run's id, counts every job once, as a success or as
  -- a failure, and counts as successes the rows that are flagged so.
  pub execute_batch_completes :
      (s : Service) (jobs : List (Job A)) (options : BatchProcessingOptions) (id : String) (now : ℕ)
      → s.is_shutting_down ≡ false
      → IsFresh s.timers
      → 0 < effective_concurrency options
      → any (str_eq id) s.job_queue ≡ false
      → (s' : Service) × (rows : List (BatchJobResult A)) × (r : BatchRunRecord) × (rest : List
          BatchRunRecord)
        × (execute_batch s jobs options id now ≡ some (s', ok rows))
        × RunReports jobs options rows
        × (s'.job_queue ≡ s.job_queue)
        × (s'.recent_job_history ≡ r ∷ rest)
        × (length s'.recent_job_history ≤ max_history)
        × (r.id ≡ id)
        × (r.total_jobs ≡ length jobs)
        × (r.success_count + r.failed_count ≡ length jobs)
        × (r.success_count ≡ successes rows)
  unfolding execute_batch
  execute_batch_completes s jobs options id now up fresh pos new =
      let (t, rows, elapsed, eq, fresh', all) = run_batch_lem s.timers jobs options fresh pos in
      let r = completed_record (run_record id now (length jobs) options.metadata) rows elapsed in
      let (rest, e) = history_head s.recent_job_history r in
      let s' =
        finish_batch (record s { job_queue = register id s.job_queue; timers = t })
          (run_record id now (length jobs) options.metadata) rows elapsed in
      (
        s',
        rows,
        r,
        rest,
        rw (up, execute_batch) (rw (eq, execute_batch) refl),
        all,
        unregister-register id s.job_queue new,
        e,
        history_le s.recent_job_history r,
        refl,
        refl,
        omega (arith, ReportsAll-length _ _ jobs rows all, successes-le rows),
        refl,
      )
