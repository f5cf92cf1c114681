-- ===== src/Batch/Tests.antt =====
-- Runs of src/modules/shared/batch-processing.service.ts at concrete inputs.
use law_cast_backend.Base.{
  ℕ, zero, suc, ◌+◌, ◌≤◌, ◌≡◌, refl, List, [], ◌∷◌, none, some, false, arith, length,
}
use law_cast_backend.Promises.{ok, err}
use law_cast_backend.Batch.Jobs.{
  job_error, no_attempts, shutting_down, Job, Timers, BatchJobResult, execute_job_with_retry,
  process_batch,
}
use law_cast_backend.Batch.Jobs.Retry.{IsFresh, execute_job_with_retry_lem, first_success, attempts}
use law_cast_backend.Batch.Jobs.Order.{ReportsAll, process_batch-ReportsAll}
use law_cast_backend.Batch.Service.{
  successes, Service, BatchProcessingOptions, BatchRunRecord, begin_batch, execute_batch,
  graceful_shutdown, force_shutdown, max_history,
}
use law_cast_backend.Batch.Service.History.{execute_batch_completes, RunReports}
use law_cast_backend.Batch.Service.Shutdown.{begins, run, shutdown_refuses}

-- The first attempt hangs, the second fails after 5 ms, the third gives 7.
abbrev flaky : Job ℕ
flaky zero = none
flaky (suc zero) = none
flaky (suc (suc zero)) = some (record { after = 5; outcome = err (job_error "refused") })
flaky (suc (suc (suc n))) = some (record { after = 2; outcome = ok 7 })

abbrev idle : Timers
idle = record { active = 3 ∷ []; next = 9 }

flaky_run : (execute_job_with_retry flaky 3 100 50 idle).1 ≡ record { after = 257; outcome = ok 7 }
unfolding execute_job_with_retry
flaky_run = refl

execute_job_with_retry_lem_example :
    let (t', s) = execute_job_with_retry flaky 3 100 50 idle in
    (s.outcome ≡ first_success no_attempts (attempts flaky 50 4 1))
    × (t'.active ≡ 3 ∷ [])
    × (s.after ≤ 500)
execute_job_with_retry_lem_example =
    execute_job_with_retry_lem flaky 3 100 50 idle (omega arith, tt)

abbrev two_jobs : List (Job ℕ)
two_jobs = flaky ∷ (λ n. none) ∷ []

process_batch-ReportsAll_example :
    (t' : Timers) × (results : List (BatchJobResult ℕ)) × (elapsed : ℕ) × (process_batch 50 3 100
        idle two_jobs 1
      ≡ some (t', results, elapsed))
    × IsFresh t'
    × ReportsAll 50 3 two_jobs results
process_batch-ReportsAll_example =
    process_batch-ReportsAll 50 3 100 idle two_jobs 1 (omega arith, tt) (omega arith)

abbrev service : Service
service = record {
  job_queue = "notice_1" ∷ [];
  timers = idle;
  is_shutting_down = false;
  recent_job_history = [];
}

abbrev options : BatchProcessingOptions
options = record {
  concurrency = some 2;
  timeout = none;
  retry_count = some 2;
  retry_delay = none;
  batch_size = some 1;
  metadata = [];
}

execute_batch_completes_example :
    (s' : Service) × (rows : List (BatchJobResult ℕ)) × (r : BatchRunRecord) × (rest : List
      BatchRunRecord)
    × (execute_batch service two_jobs options "change_2" 1000 ≡ some (s', ok rows))
    × RunReports two_jobs options rows
    × (s'.job_queue ≡ service.job_queue)
    × (s'.recent_job_history ≡ r ∷ rest)
    × (length s'.recent_job_history ≤ max_history)
    × (r.id ≡ "change_2")
    × (r.total_jobs ≡ 2)
    × (r.success_count + r.failed_count ≡ 2)
    × (r.success_count ≡ successes rows)
execute_batch_completes_example =
    execute_batch_completes service two_jobs options "change_2" 1000 refl (omega arith, tt)
      (omega arith) refl

shutdown_refuses_example :
    (begin_batch (run (graceful_shutdown service none).0 (begins "a" ∷ [])) "b" ≡ err shutting_down)
    × (begin_batch (run (force_shutdown service) (begins "a" ∷ [])) "b" ≡ err shutting_down)
    × (length (run (graceful_shutdown service none).0 (begins "a" ∷ [])).job_queue ≤ 1)
    × ((run (force_shutdown service) (begins "a" ∷ [])).job_queue ≡ [])
shutdown_refuses_example = shutdown_refuses service none (begins "a" ∷ []) "b"
