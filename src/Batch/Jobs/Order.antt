-- ===== src/Batch/Jobs/Order.antt =====
-- About the results of `process_batch` and the order of its jobs.
use mathlib.Core.Option
use law_cast_backend.Base.{
  ℕ, ◌+◌, ◌<◌, ◌≡◌, refl, List, [], ◌∷◌, ◌++◌, Option, none, some, ap, concat, subst,
}
use law_cast_backend.Promises.{Result, ok, err, is_ok}
use law_cast_backend.Batch.Chunks.{chunk_array_partition}
use law_cast_backend.Batch.Jobs.Retry.{
  first_success, attempts, IsFresh, execute_job_with_retry_lem, execute_job_with_retry-IsFresh,
}
use law_cast_backend.Batch.Jobs.{
  Error, no_attempts, Job, Timers, BatchJobResult, job_result, chunk_promise, settled_result,
  run_chunk, run_chunks, process_batch, process_batches,
}

abbrev ok_of : {A : Type 0} → Result Error A → Option A
ok_of (ok a) = some a
ok_of (err e) = none

abbrev err_of : {A : Type 0} → Result Error A → Option Error
err_of (ok a) = none
err_of (err e) = some e

-- A result row says what the outcome was: a flag, and the value or the error.
abbrev pub Reports : {A : Type 0} → BatchJobResult A → Result Error A → Type 0
Reports r o = (r.success ≡ is_ok o) × (r.result ≡ ok_of o) × (r.error ≡ err_of o)

-- The rows of a list of jobs, one for each job in order.
abbrev pub ReportsAll : {A : Type 0} → ℕ → ℕ → List (Job A) → List (BatchJobResult A) → Type 0
ReportsAll timeout retries [] [] = Unit
ReportsAll timeout retries [] (r ∷ rs) = ⊥
ReportsAll timeout retries (j ∷ js) [] = ⊥
ReportsAll timeout retries (j ∷ js) (r ∷ rs) =
    Reports r (first_success no_attempts (attempts j timeout (retries + 1) 1))
    × ReportsAll timeout retries js rs

module _ {A : Type 0} (timeout retry_count retry_delay : ℕ) where
  ReportsAll-append :
      (js ks : List (Job A)) (rs ss : List (BatchJobResult A))
      → ReportsAll timeout retry_count js rs
      → ReportsAll timeout retry_count ks ss
      → ReportsAll timeout retry_count (js ++ ks) (rs ++ ss)
  ReportsAll-append [] ks [] ss h k = k
  ReportsAll-append [] ks (r ∷ rs) ss h k = absurd h
  ReportsAll-append (j ∷ js) ks [] ss h k = absurd h
  ReportsAll-append (j ∷ js) ks (r ∷ rs) ss h k = (h.0, ReportsAll-append js ks rs ss h.1 k)

  job_result-Reports : (ms : ℕ) (o : Result Error A) → Reports (job_result ms o) o
  unfolding job_result
  job_result-Reports ms (ok v) = (refl, refl, refl)
  job_result-Reports ms (err e) = (refl, refl, refl)

  chunk_promise-Reports :
      (job : Job A) (t : Timers)
      → IsFresh t
      → Reports
          (settled_result (chunk_promise job retry_count retry_delay timeout t).1.outcome)
          (first_success no_attempts (attempts job timeout (retry_count + 1) 1))
  unfolding chunk_promise settled_result
  chunk_promise-Reports job t h =
      subst
        (Reports (settled_result (chunk_promise job retry_count retry_delay timeout t).1.outcome))
        (execute_job_with_retry_lem job retry_count retry_delay timeout t h).0
        (job_result-Reports _ _)

  chunk_promise-IsFresh :
      (job : Job A) (t : Timers)
      → IsFresh t
      → IsFresh (chunk_promise job retry_count retry_delay timeout t).0
  unfolding chunk_promise
  chunk_promise-IsFresh job t h =
      execute_job_with_retry-IsFresh job retry_count retry_delay timeout t h

  run_chunk-ReportsAll :
      (jobs : List (Job A)) (t : Timers)
      → IsFresh t
      → let (t', results, slowest) = run_chunk timeout retry_count retry_delay t jobs in
        IsFresh t' × ReportsAll timeout retry_count jobs results
  unfolding run_chunk
  run_chunk-ReportsAll [] t h = (h, tt)
  run_chunk-ReportsAll (job ∷ jobs) t h =
      let (fresh, rest) = run_chunk-ReportsAll jobs _ (chunk_promise-IsFresh job t h) in
      (fresh, (chunk_promise-Reports job t h, rest))

  run_chunks-ReportsAll :
      (chunks : List (List (Job A))) (t : Timers)
      → IsFresh t
      → let (t', results, elapsed) = run_chunks timeout retry_count retry_delay t chunks in
        IsFresh t' × ReportsAll timeout retry_count (concat chunks) results
  unfolding run_chunks
  run_chunks-ReportsAll [] t h = (h, tt)
  run_chunks-ReportsAll (chunk ∷ chunks) t h =
      let (fresh, here) = run_chunk-ReportsAll chunk t h in
      let (fresh', rest) = run_chunks-ReportsAll chunks _ fresh in
      (fresh', ReportsAll-append chunk (concat chunks) _ _ here rest)

  -- With a positive concurrency `process_batch` returns, and there is one row for each job, in the
  -- order of the jobs: its flag, value and error are those of the job's first successful attempt, or
  -- of its last attempt if none succeeds.
  pub process_batch-ReportsAll :
      (t : Timers) (jobs : List (Job A)) (concurrency : ℕ)
      → IsFresh t
      → 0 < concurrency
      → (t' : Timers) × (results : List (BatchJobResult A)) × (elapsed : ℕ) × (process_batch timeout
            retry_count retry_delay t jobs concurrency
          ≡ some (t', results, elapsed))
        × IsFresh t'
        × ReportsAll timeout retry_count jobs results
  unfolding process_batch
  process_batch-ReportsAll t jobs concurrency h pos =
      let (chunks, e, joined, sized) = chunk_array_partition jobs concurrency pos in
      let (fresh, rows) = run_chunks-ReportsAll chunks t h in
      let (t', results, elapsed) = run_chunks timeout retry_count retry_delay t chunks in
      (
        t',
        results,
        elapsed,
        ap (Option.map (run_chunks timeout retry_count retry_delay t)) e,
        fresh,
        subst (λ js. ReportsAll timeout retry_count js results) joined rows,
      )

  -- So do batches that are run one after the other, whatever their sizes.
  pub process_batches-ReportsAll :
      (t : Timers) (batches : List (List (Job A))) (concurrency : ℕ)
      → IsFresh t
      → 0 < concurrency
      → (t' : Timers) × (results : List (BatchJobResult A)) × (elapsed : ℕ) × (process_batches
            timeout retry_count retry_delay t batches concurrency
          ≡ some (t', results, elapsed))
        × IsFresh t'
        × ReportsAll timeout retry_count (concat batches) results
  unfolding process_batches
  process_batches-ReportsAll t [] concurrency h pos = (t, [], 0, refl, h, tt)
  process_batches-ReportsAll t (batch ∷ batches) concurrency h pos =
      let (t', results, elapsed, e, fresh, here) =
        process_batch-ReportsAll t batch concurrency h pos in
      let (t'', more, later, e', fresh', rest) =
        process_batches-ReportsAll t' batches concurrency fresh pos in
      (
        t'',
        results ++ more,
        elapsed + later,
        rw (e, process_batches) (rw (e', process_batches) refl),
        fresh',
        ReportsAll-append batch (concat batches) results more here rest,
      )
