-- ===== src/Batch/Service/Shutdown.antt =====
-- Calls of the service in any order, and what a shutdown changes for the calls after it.
use law_cast_backend.Base.{
  ℕ, ◌≤◌, ◌≡◌, refl, List, [], ◌∷◌, Option, true, arith, length, String, length-keep-le,
}
use native.Mathlib.Nat.{le_trans}
use law_cast_backend.Promises.{Result, ok, err}
use law_cast_backend.Batch.Jobs.{Error, shutting_down, BatchJobResult}
use law_cast_backend.Batch.Service.{
  BatchRunRecord, Service, begin_batch, finish_batch, update_recent_job_metadata, graceful_shutdown,
  force_shutdown, unregister,
}

-- One uninterrupted part of a call.
pub data Call : Type 0 where
  begins : String → Call
  finishes : BatchRunRecord → List (BatchJobResult ℕ) → ℕ → Call
  updates : String → List (String × String) → Call
  gracefully : Option ℕ → Call
  forcibly : Call

-- A batch that is refused leaves the service as it was.
pub after : Service → Result Error Service → Service
after s (ok s') = s'
after s (err e) = s

pub step : Service → Call → Service
unfolding after
step s (begins id) = after s (begin_batch s id)
step s (finishes r rows elapsed) = finish_batch s r rows elapsed
step s (updates id entries) = update_recent_job_metadata s id entries
step s (gracefully remaining) = (graceful_shutdown s remaining).0
step s forcibly = force_shutdown s

pub run : Service → List Call → Service
run s [] = s
run s (c ∷ cs) = run (step s c) cs

-- The flag is set, and no more batches run than before.
abbrev Closing : Service → Service → Type 0
Closing s t = (t.is_shutting_down ≡ true) × (length t.job_queue ≤ length s.job_queue)

graceful-Closing :
    (s : Service) (remaining : Option ℕ) → Closing s (graceful_shutdown s remaining).0
unfolding graceful_shutdown
graceful-Closing s remaining = ground arith

step-Closing : (s : Service) (c : Call) → s.is_shutting_down ≡ true → Closing s (step s c)
unfolding step begin_batch
step-Closing s (begins id) h = ground arith
step-Closing s (finishes r rows elapsed) h =
    (unfold finish_batch in h, unfold finish_batch unregister in length-keep-le _ s.job_queue)
step-Closing s (updates id entries) h = unfold update_recent_job_metadata in (h, omega arith)
step-Closing s (gracefully remaining) h = graceful-Closing s remaining
step-Closing s forcibly h = unfold force_shutdown in (refl, omega arith)

run-Closing : (s : Service) (cs : List Call) → s.is_shutting_down ≡ true → Closing s (run s cs)
unfolding run
run-Closing s [] h = (h, omega arith)
run-Closing s (c ∷ cs) h =
    let (flag, le) = step-Closing s c h in
    let (flag', le') = run-Closing (step s c) cs flag in (flag', le_trans le' le)

begin_batch_refused :
    (s : Service) (id : String) → s.is_shutting_down ≡ true → begin_batch s id ≡ err shutting_down
unfolding begin_batch
begin_batch_refused s id h = ground arith

length-zero {ℓ} : {A : Type ℓ} (xs : List A) → length xs ≤ 0 → xs ≡ []
length-zero [] h = refl
length-zero (x ∷ xs) h = absurd (omega arith)

-- After a graceful or a forced shutdown, whatever calls come, every new batch is refused and no
-- more batches are registered than were at the shutdown; a forced shutdown leaves none.
pub shutdown_refuses :
    (s : Service) (remaining : Option ℕ) (cs : List Call) (id : String)
    → (begin_batch (run (graceful_shutdown s remaining).0 cs) id ≡ err shutting_down)
      × (begin_batch (run (force_shutdown s) cs) id ≡ err shutting_down)
      × (length (run (graceful_shutdown s remaining).0 cs).job_queue ≤ length s.job_queue)
      × ((run (force_shutdown s) cs).job_queue ≡ [])
shutdown_refuses s remaining cs id =
    let (flag, le) = graceful-Closing s remaining in
    let (flag', le') = run-Closing (graceful_shutdown s remaining).0 cs flag in
    let (forced, none_left) = run-Closing (force_shutdown s) cs (unfold force_shutdown in refl) in
    (
      begin_batch_refused _ id flag',
      begin_batch_refused _ id forced,
      le_trans le' le,
      length-zero _ (unfold force_shutdown in none_left),
    )
