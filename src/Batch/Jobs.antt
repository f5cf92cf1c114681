-- ===== src/Batch/Jobs.antt =====
-- `runJobWithTimeout`, `delay`, `executeJobWithRetry` and `processBatch` of
-- src/modules/shared/batch-processing.service.ts. A job is how each of its attempts settles; the
-- first attempt has number 1. The jobs of a chunk run side by side, so each is measured from its
-- own start, and the chunk lasts as long as the slowest.
pub mod Retry
pub mod Order
use mathlib.Core.Option
use law_cast_backend.Base.{
  ℕ, zero, suc, ◌+◌, max, List, [], ◌∷◌, ◌++◌, Option, none, some, Bool, true, false, leb, ◌==◌,
  not, if◌then◌else◌, keep, map, String,
}
use law_cast_backend.Promises.{Result, ok, err, Settled, Promise, race_timer}
use law_cast_backend.Batch.Chunks.{chunk_array}

pub data Error : Type 0 where
  job_error : String → Error
  timed_out : ℕ → Error
  no_attempts execution_failed shutting_down shutdown_timed_out : Error

abbrev pub Job : Type 0 → Type 0
Job A = ℕ → Promise Error A

-- The handles in `activeTimeouts`; `next` is the next handle that `setTimeout` gives out.
pub record Timers : Type 0 where
  pub active : List ℕ
  pub next : ℕ

pub set_timeout : Timers → Timers
set_timeout t = record { active = t.next ∷ t.active; next = suc t.next }

pub delete_timeout : ℕ → Timers → Timers
delete_timeout id t = record t { active = keep (λ k. not (k == id)) t.active }

-- `delay`, once its timer has fired.
pub delay : Timers → Timers
unfolding set_timeout delete_timeout
delay t = delete_timeout t.next (set_timeout t)

pub record BatchJobResult (A : Type 0) : Type 0 where
  pub success : Bool
  pub result : Option A
  pub error : Option Error
  pub duration : ℕ

module _ {A : Type 0} where
  -- The row for a job that took `ms` milliseconds.
  pub job_result : ℕ → Result Error A → BatchJobResult A
  job_result ms (ok v) = record { success = true; result = some v; error = none; duration = ms }
  job_result ms (err e) = record { success = false; result = none; error = some e; duration = ms }

  -- The timer is set before the job starts, and deleted however the race ends.
  pub run_job_with_timeout : Timers → ℕ → Promise Error A → Timers × Settled Error A
  unfolding set_timeout delete_timeout
  run_job_with_timeout t timeout run =
      (delete_timeout t.next (set_timeout t), race_timer timeout (timed_out timeout) run)

  module _ (job : Job A) (retry_count retry_delay timeout : ℕ) where
    -- The loop with `left` rounds to go: the attempt's number, `lastError`, the timers, and the time
    -- since the first attempt began.
    pub retry_from : ℕ → ℕ → Option Error → Timers → ℕ → Timers × Settled Error A
    unfolding run_job_with_timeout delay
    retry_from zero attempt last t elapsed =
        (t, record { after = elapsed; outcome = err (Option.get_or last no_attempts) })
    retry_from (suc left) attempt last t elapsed =
        let (t', s) = run_job_with_timeout t timeout (job attempt) in
        let again = leb attempt retry_count in
        elim s.outcome [
          | ok v ↦ (t', record { after = elapsed + s.after; outcome = ok v })
          | err e ↦
              retry_from left (suc attempt) (some e) (if again then delay t' else t')
                (elapsed + s.after + (if again then retry_delay else 0))
        ]

    unfoldable pub execute_job_with_retry : Timers → Timers × Settled Error A
    unfolding retry_from
    execute_job_with_retry t = retry_from (retry_count + 1) 1 none t 0

    -- The promise of one job of a chunk: a job that fails is a value too.
    pub chunk_promise : Timers → Timers × Settled Error (BatchJobResult A)
    unfolding execute_job_with_retry job_result
    chunk_promise t =
        let (t', s) = execute_job_with_retry t in
        (t', record { after = s.after; outcome = ok (job_result s.after s.outcome) })

  -- What is pushed for a promise of `Promise.allSettled`.
  pub settled_result : Result Error (BatchJobResult A) → BatchJobResult A
  settled_result (ok r) = r
  settled_result (err e) = record {
    success = false;
    result = none;
    error = some execution_failed;
    duration = 0;
  }

  module _ (timeout retry_count retry_delay : ℕ) where
    -- The jobs of a chunk: the results in the order of the jobs, and the time of the slowest.
    pub run_chunk : Timers → List (Job A) → Timers × List (BatchJobResult A) × ℕ
    unfolding chunk_promise settled_result
    run_chunk t [] = (t, [], 0)
    run_chunk t (job ∷ jobs) =
        let (t', s) = chunk_promise job retry_count retry_delay timeout t in
        let (t'', results, slowest) = run_chunk t' jobs in
        (t'', settled_result s.outcome ∷ results, max s.after slowest)

    pub run_chunks : Timers → List (List (Job A)) → Timers × List (BatchJobResult A) × ℕ
    unfolding run_chunk
    run_chunks t [] = (t, [], 0)
    run_chunks t (chunk ∷ chunks) =
        let (t', results, elapsed) = run_chunk t chunk in
        let (t'', more, later) = run_chunks t' chunks in (t'', results ++ more, elapsed + later)

    -- `none` means that the call never returns.
    unfoldable pub process_batch :
        Timers → List (Job A) → ℕ → Option (Timers × List (BatchJobResult A) × ℕ)
    unfolding run_chunks
    process_batch t jobs concurrency = Option.map (run_chunks t) (chunk_array jobs concurrency)

    -- The batches of a run, one after the other.
    pub process_batches :
        Timers → List (List (Job A)) → ℕ → Option (Timers × List (BatchJobResult A) × ℕ)
    unfolding process_batch
    process_batches t [] concurrency = some (t, [], 0)
    process_batches t (batch ∷ batches) concurrency = elim (process_batch t batch concurrency) [
      | none ↦ none
      | some (t', results, elapsed) ↦ elim (process_batches t' batches concurrency) [
        | none ↦ none
        | some (t'', more, later) ↦ some (t'', results ++ more, elapsed + later)
      ]
    ]
