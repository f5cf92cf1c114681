-- ===== src/Batch/Service.antt =====
-- The state of `BatchProcessingService` in src/modules/shared/batch-processing.service.ts and the
-- calls that change it. `executeBatch` is cut at its one `await`: `begin_batch` up to it, and
-- `finish_batch` after it; other calls may come between them. Times are milliseconds, and the random
-- part of a run's id is an argument.
pub mod History
pub mod Shutdown
use mathlib.Core.Option
use law_cast_backend.Base.Maps.{put_entry}
use law_cast_backend.Base.{
  ℕ, zero, suc, ◌+◌, ◌-◌, List, [], ◌∷◌, ◌++◌, Option, none, some, Bool, true, false, not, ltb, leb,
  ◌==◌, ◌&&◌, if◌then◌else◌, keep, length, take, String, str_eq, any,
}
use law_cast_backend.Promises.{Result, ok, err}
use law_cast_backend.Batch.Chunks.{chunk_array}
use law_cast_backend.Batch.Jobs.{
  Error, shutting_down, shutdown_timed_out, Job, Timers, BatchJobResult, process_batch,
  process_batches,
}

pub data Status : Type 0 where
  running completed failed : Status

pub record BatchRunRecord : Type 0 where
  pub id : String
  pub started_at : ℕ
  pub completed_at : Option ℕ
  pub total_jobs : ℕ
  pub success_count : ℕ
  pub failed_count : ℕ
  pub duration : Option ℕ
  pub status : Status
  pub metadata : List (String × String)

pub record Service : Type 0 where
  pub job_queue : List String
  pub timers : Timers
  pub is_shutting_down : Bool
  pub recent_job_history : List BatchRunRecord

pub record BatchProcessingOptions : Type 0 where
  pub concurrency : Option ℕ
  pub timeout : Option ℕ
  pub retry_count : Option ℕ
  pub retry_delay : Option ℕ
  pub batch_size : Option ℕ
  pub metadata : List (String × String)

abbrev pub max_history : ℕ
max_history = 10

abbrev pub shutdown_timeout : ℕ
shutdown_timeout = 25000

-- `BATCH` of src/config/app.config.ts.
abbrev pub default_concurrency : ℕ
default_concurrency = 10

abbrev pub default_timeout : ℕ
default_timeout = 30000

abbrev pub default_retry_count : ℕ
default_retry_count = 3

abbrev pub default_retry_delay : ℕ
default_retry_delay = 1000

-- `unshift`, and the cut to `MAX_HISTORY`.
pub add_to_recent_history : List BatchRunRecord → BatchRunRecord → List BatchRunRecord
add_to_recent_history history r =
    let grown = r ∷ history in
    if ltb max_history (length grown) then take max_history grown else grown

abbrev pub merge : List (String × String) → List (String × String) → List (String × String)
merge old [] = old
merge old ((k, v) ∷ more) = merge (put_entry old k v) more

-- The first record with the id gets the new entries, which win over its own.
unfoldable pub update_metadata :
    String → List (String × String) → List BatchRunRecord → List BatchRunRecord
update_metadata id entries [] = []
update_metadata id entries (r ∷ rs) =
    if str_eq r.id id
    then record r { metadata = merge r.metadata entries } ∷ rs
    else r ∷ update_metadata id entries rs

unfoldable pub update_recent_job_metadata : Service → String → List (String × String) → Service
unfolding update_metadata
update_recent_job_metadata s id entries = record s {
  recent_job_history = update_metadata id entries s.recent_job_history;
}

-- `Map.set` keeps the place of a key that is there.
pub register : String → List String → List String
register id ids = if any (str_eq id) ids then ids else ids ++ id ∷ []

pub unregister : String → List String → List String
unregister id ids = keep (λ k. not (str_eq id k)) ids

abbrev pub run_record : String → ℕ → ℕ → List (String × String) → BatchRunRecord
run_record id now jobs metadata = record {
  id = id;
  started_at = now;
  completed_at = none;
  total_jobs = jobs;
  success_count = 0;
  failed_count = 0;
  duration = none;
  status = running;
  metadata = metadata;
}

-- `executeBatch` up to `await promise`.
pub begin_batch : Service → String → Result Error Service
unfolding register
begin_batch s id =
    if s.is_shutting_down
    then err shutting_down
    else ok (record s { job_queue = register id s.job_queue })

abbrev pub successes : {A : Type 0} → List (BatchJobResult A) → ℕ
successes rows = length (keep (λ r. r.success) rows)

abbrev completed_record :
    {A : Type 0} → BatchRunRecord → List (BatchJobResult A) → ℕ → BatchRunRecord
completed_record r rows elapsed = record r {
  completed_at = some (r.started_at + elapsed);
  success_count = successes rows;
  failed_count = length rows - successes rows;
  duration = some elapsed;
  status = completed;
}

-- `executeBatch` after its promise resolved with `rows`, `elapsed` milliseconds later.
pub finish_batch : {A : Type 0} → Service → BatchRunRecord → List (BatchJobResult A) → ℕ → Service
unfolding add_to_recent_history unregister
finish_batch s r rows elapsed = record s {
  job_queue = unregister r.id s.job_queue;
  recent_job_history = add_to_recent_history s.recent_job_history (completed_record r rows elapsed);
}

module _ {A : Type 0} where
  -- `batchSize && jobs.length > batchSize`: a size of 0 counts as none.
  abbrev splits : Option ℕ → List (Job A) → Option ℕ
  splits none jobs = none
  splits (some zero) jobs = none
  splits (some (suc n)) jobs = if ltb (suc n) (length jobs) then some (suc n) else none

  pub run_batch :
      Timers → List (Job A) → BatchProcessingOptions → Option (Timers × List (BatchJobResult A) × ℕ)
  run_batch t jobs options =
      let concurrency = Option.get_or options.concurrency default_concurrency in
      let timeout = Option.get_or options.timeout default_timeout in
      let retry_count = Option.get_or options.retry_count default_retry_count in
      let retry_delay = Option.get_or options.retry_delay default_retry_delay in
      elim (splits options.batch_size jobs) [
        | none ↦ process_batch timeout retry_count retry_delay t jobs concurrency
        | some size ↦ elim (chunk_array jobs size) [
          | none ↦ none
          | some batches ↦ process_batches timeout retry_count retry_delay t batches concurrency
        ]
      ]

  -- The whole call, with nothing else between its parts; `none` means that it never returns.
  pub execute_batch :
      Service
      → List (Job A)
      → BatchProcessingOptions
      → String
      → ℕ
      → Option (Service × Result Error (List (BatchJobResult A)))
  unfolding run_batch begin_batch finish_batch
  execute_batch s jobs options id now = elim (begin_batch s id) [
    | err e ↦ some (s, err e)
    | ok s' ↦ elim (run_batch s'.timers jobs options) [
      | none ↦ none
      | some (t, rows, elapsed) ↦ some (
        finish_batch (record s' { timers = t }) (run_record id now (length jobs) options.metadata)
            rows elapsed,
        ok rows,
      )
    ]
  ]

pub clear_all_timeouts : Service → Service
clear_all_timeouts s = record s { timers = record { active = []; next = s.timers.next } }

-- `gracefulShutdown`: `remaining` is the time after which every running batch has settled, if ever.
pub graceful_shutdown : Service → Option ℕ → Service × Result Error (Unit {0})
unfolding clear_all_timeouts
graceful_shutdown s remaining =
    let flagged = record s { is_shutting_down = true } in
    elim s.job_queue [
      | [] ↦ (clear_all_timeouts flagged, ok tt)
      | _ ∷ _ ↦ elim remaining [
        | none ↦ (clear_all_timeouts flagged, err shutdown_timed_out)
        | some ms ↦ (
          clear_all_timeouts flagged,
          if leb ms shutdown_timeout then ok tt else err shutdown_timed_out,
        )
      ]
    ]

pub force_shutdown : Service → Service
unfolding clear_all_timeouts
force_shutdown s = record (clear_all_timeouts (record s { is_shutting_down = true })) {
  job_queue = [];
}
