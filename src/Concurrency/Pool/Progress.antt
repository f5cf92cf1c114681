-- ===== src/Concurrency/Pool/Progress.antt =====
-- About the number of steps that the workers of `mapConcurrently` make.
use law_cast_backend.Base.{
  ℕ, zero, suc, ◌+◌, ◌-◌, ◌*◌, ◌<◌, ◌≤◌, ◌≡◌, refl, max, min, List, [], ◌∷◌, some, length,
  get_elem?, get_elem?-lt, inl, inr, set, replicate, leb, arith, Bool-cases,
}
use law_cast_backend.Promises.{Result, ok, err}
use law_cast_backend.Concurrency.Pool.{
  Worker, ready, busy, done, failed, Pool, start, mapped, fetch, settle, step, run,
}
use law_cast_backend.Concurrency.Pool.Results.{Inv, step-Inv, start-Inv}

-- The steps that a worker has still to make for what it holds.
weight : {E : Type 0} → Worker E → ℕ
weight ready = 1
weight (busy i) = 2
weight done = 0
weight (failed e) = 0

total : {E : Type 0} → List (Worker E) → ℕ
unfolding weight
total [] = 0
total (w ∷ ws) = weight w + total ws

abbrev pub IsLive : {E : Type 0} → Worker E → Type 0
IsLive ready = Unit
IsLive (busy i) = Unit
IsLive done = ⊥
IsLive (failed e) = ⊥

module _ {E : Type 0} where
  total-set :
      (ws : List (Worker E)) (w : ℕ) (new : Worker E) {old : Worker E}
      → get_elem? ws w ≡ some old
      → total (set ws w new) + weight old ≡ total ws + weight new
  unfolding total
  total-set [] w new h = cc
  total-set (x ∷ ws) zero new h = ground arith
  total-set (x ∷ ws) (suc w) new h = omega (arith, total-set ws w new h)

total-replicate : (E : Type 0) (n : ℕ) → total (replicate {A = Worker E} n ready) ≡ n
unfolding total
total-replicate E zero = refl
total-replicate E (suc n) = omega (arith, total-replicate E n)

module _ {E T R : Type 0} (items : List T) (mapper : T → ℕ → Result E R) where
  pub measure : Pool E R → ℕ
  unfolding total
  measure p = 2 * (length items - p.next_index) + total p.workers

  measure-start :
      (concurrency : ℕ)
      → measure (start items mapper concurrency)
        ≡ 2 * length items + min (max 1 concurrency) (length items)
  unfolding measure start
  measure-start concurrency =
      omega (arith, total-replicate E (min (max 1 concurrency) (length items)))

  fetch-measure :
      (p : Pool E R) (w : ℕ)
      → get_elem? p.workers w ≡ some ready
      → measure (fetch items mapper p w) < measure p
  unfolding measure fetch
  fetch-measure p w e = elim (Bool-cases (leb (length items) p.next_index)) [
    | inl past ↦ rw past (ground (arith, total-set p.workers w done e))
    | inr there ↦ rw there (ground (arith, total-set p.workers w (busy p.next_index) e))
  ]

  settle-measure :
      (p : Pool E R) (w idx : ℕ) (r : Result E R)
      → get_elem? p.workers w ≡ some (busy idx)
      → mapped items mapper idx ≡ some r
      → measure (settle items mapper p w idx) < measure p
  unfolding measure settle
  settle-measure p w idx (ok v) e m = rw (m, settle) (ground (arith, total-set p.workers w ready e))
  settle-measure p w idx (err x) e m =
      rw (m, settle) (ground (arith, total-set p.workers w (failed x) e))

  step-measure :
      (p : Pool E R) (w : ℕ) (s : Worker E)
      → Inv items mapper p
      → get_elem? p.workers w ≡ some s
      → IsLive s
      → measure (step items mapper p w) < measure p
  unfolding step
  step-measure p w ready v e l = rw (e, step) (fetch-measure p w e)
  step-measure p w (busy idx) v e l =
      let (x, there) = get_elem?-lt items idx (v.placed w (busy idx) e).1 in
      rw (e, step) (settle-measure p w idx (mapper x idx) e (rw (there, mapped) refl))
  step-measure p w done v e l = absurd l
  step-measure p w (failed x) v e l = absurd l

  -- A sequence of resumptions, each of a worker that has something to do.
  pub data Schedule : Pool E R → List ℕ → Type 0 where
    over : {p : Pool E R} → Schedule p []
    resume :
        {p : Pool E R} {w : ℕ} {ws : List ℕ} (s : Worker E)
        → get_elem? p.workers w ≡ some s
        → IsLive s
        → Schedule (step items mapper p w) ws
        → Schedule p (w ∷ ws)

  Schedule-measure :
      {p : Pool E R} {ws : List ℕ}
      → Inv items mapper p
      → Schedule p ws
      → length ws + measure (run items mapper p ws) ≤ measure p
  unfolding run
  Schedule-measure v over = omega arith
  Schedule-measure {p} v (resume {w} s e l rest) =
      omega (arith, Schedule-measure (step-Inv items mapper p w v) rest, step-measure p w s v e l)

  -- The pool makes at most two steps for each item and one for each worker, so it always ends.
  pub Schedule-length-le :
      (concurrency : ℕ) (ws : List ℕ)
      → Schedule (start items mapper concurrency) ws
      → length ws ≤ 2 * length items + min (max 1 concurrency) (length items)
  Schedule-length-le concurrency ws h =
      omega
        (arith, Schedule-measure (start-Inv items mapper concurrency) h, measure-start concurrency)
