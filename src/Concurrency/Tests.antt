-- ===== src/Concurrency/Tests.antt =====
-- Runs of src/utils/concurrency.utils.ts at concrete inputs.
use law_cast_backend.Base.{
  ℕ, ◌+◌, ◌*◌, ◌≡◌, refl, sym, subst, ◌≤◌, List, [], ◌∷◌, some, get_elem?, arith, zero, suc,
}
use law_cast_backend.Promises.{Result, ok, Settled}
use law_cast_backend.Concurrency.Chunks.{process_in_concurrency_chunks, launch}
use law_cast_backend.Concurrency.Chunks.Order.{process_collects, ok_value, collect}
use law_cast_backend.Concurrency.Pool.{ready, busy, done, Pool, start, mapped, step, run}
use law_cast_backend.Concurrency.Pool.Results.{run_complete, AllDone}
use law_cast_backend.Concurrency.Pool.Progress.{Schedule, over, resume, Schedule-length-le}

abbrev slow_double : ℕ → ℕ → Settled ℕ ℕ
slow_double x i = record { after = x; outcome = ok (2 * x + i) }

three_in_chunks_of_two :
    process_in_concurrency_chunks slow_double (5 ∷ 7 ∷ 1 ∷ []) 2
    ≡ some (record { after = 8; outcome = ok (10 ∷ 15 ∷ 4 ∷ []) })
unfolding process_in_concurrency_chunks
three_in_chunks_of_two = refl

process_collects_example :
    (s : Settled ℕ (List ℕ)) × (process_in_concurrency_chunks slow_double (5 ∷ 7 ∷ 1 ∷ []) 2
      ≡ some s)
    × (ok_value s.outcome ≡ collect (launch slow_double 0 (5 ∷ 7 ∷ 1 ∷ [])))
process_collects_example = process_collects slow_double (5 ∷ 7 ∷ 1 ∷ []) 2

abbrev double : ℕ → ℕ → Result ℕ ℕ
double x i = ok (2 * x + i)

-- Worker 1 overtakes worker 0, which returns last.
abbrev order : List ℕ
order = 0 ∷ 1 ∷ 1 ∷ 1 ∷ 1 ∷ 1 ∷ 0 ∷ 0 ∷ []

abbrev finished : Pool ℕ ℕ
finished = record {
  next_index = 5;
  results = some 10 ∷ some 15 ∷ some 4 ∷ [];
  workers = done ∷ done ∷ [];
}

overtaking : run (5 ∷ 7 ∷ 1 ∷ []) double (start (5 ∷ 7 ∷ 1 ∷ []) double 2) order ≡ finished
unfolding run start step
overtaking = refl

AllDone-finished : AllDone finished
AllDone-finished zero s e = ground arith
AllDone-finished (suc zero) s e = ground arith
AllDone-finished (suc (suc w)) s e = cc

run_complete_example :
    (v : ℕ) × (get_elem?
        (run (5 ∷ 7 ∷ 1 ∷ []) double (start (5 ∷ 7 ∷ 1 ∷ []) double 2) order).results
        1
      ≡ some (some v))
    × (mapped (5 ∷ 7 ∷ 1 ∷ []) double 1 ≡ some (ok v))
run_complete_example =
    (run_complete (5 ∷ 7 ∷ 1 ∷ []) double 2 order
        (subst (AllDone) (sym overtaking) AllDone-finished)).1
      1 (omega arith)

Schedule-one : Schedule (5 ∷ []) double (start (5 ∷ []) double 4) (0 ∷ 0 ∷ [])
unfolding start step
Schedule-one = resume ready refl tt (resume (busy 0) refl tt over)

Schedule-length-le_example : 2 ≤ 3
Schedule-length-le_example = Schedule-length-le (5 ∷ []) double 4 (0 ∷ 0 ∷ []) Schedule-one
