-- ===== src/Batch/Jobs/Retry.antt =====
-- How one job of a batch ends: its outcome, its time and the timers that are left.
use mathlib.Core.Option
use native.Mathlib.Nat.{le_trans}
use law_cast_backend.Base.{
  ℕ, zero, suc, ◌+◌, ◌-◌, ◌*◌, sym, subst, true, false, ◌≤◌, ◌<◌, ◌≡◌, refl, List, [], ◌∷◌, Option,
  none, some, Bool, arith, leb, ◌==◌, not, keep, if◌then◌else◌, All, Bool-cases, inl, inr, ◌∙◌, ap,
}
use law_cast_backend.Promises.{Result, ok, err, Promise, race_timer, Result-cases}
use law_cast_backend.Batch.Jobs.{
  Error, timed_out, no_attempts, Job, Timers, set_timeout, delete_timeout, delay, retry_from,
  execute_job_with_retry,
}

-- Every handle that is active was given out before.
abbrev pub IsFresh : Timers → Type 0
IsFresh t = All (λ k. k < t.next) t.active

keep_others : (n : ℕ) (ks : List ℕ) → All (λ k. k < n) ks → keep (λ k. not (k == n)) ks ≡ ks
keep_others n [] h = refl
keep_others n (k ∷ ks) h = ground (arith, keep_others n ks h.1)

pred_cancel : (n d : ℕ) → (suc n - 1) * d ≡ n * d
pred_cancel n d = ap (λ k. k * d) (omega arith)

pred_cancel' : (n d : ℕ) → (n + 1 - 1) * d ≡ n * d
pred_cancel' n d = ap (λ k. k * d) (omega arith)

pause_bound :
    (left attempt retry_count retry_delay : ℕ)
    → attempt + suc left ≡ retry_count + 2
    → (if leb attempt retry_count then retry_delay else 0) + (left - 1) * retry_delay
      ≤ (suc left - 1) * retry_delay
pause_bound zero attempt retry_count retry_delay h = ground arith
pause_bound (suc left) attempt retry_count retry_delay h =
    elim (Bool-cases (leb attempt retry_count)) [
      | inl e ↦
          rw e (omega (arith, pred_cancel left retry_delay, pred_cancel (suc left) retry_delay))
      | inr e ↦
          rw e (omega (arith, pred_cancel left retry_delay, pred_cancel (suc left) retry_delay))
    ]

abbrev Kept : Timers → Timers → Type 0
Kept t t' = (t'.active ≡ t.active) × (t.next ≤ t'.next)

Kept-trans : {t u v : Timers} → Kept t u → Kept u v → Kept t v
Kept-trans (a, m) (b, n) = (b ∙ a, omega arith)

All-lt_mono : (m n : ℕ) (ks : List ℕ) → m ≤ n → All (λ k. k < m) ks → All (λ k. k < n) ks
All-lt_mono m n [] le h = tt
All-lt_mono m n (k ∷ ks) le h = (omega arith, All-lt_mono m n ks le h.1)

Kept-IsFresh : {t t' : Timers} → Kept t t' → IsFresh t → IsFresh t'
Kept-IsFresh {t} {t'} (same, le) h =
    subst (All (λ k. k < t'.next)) (sym same) (All-lt_mono t.next t'.next t.active le h)

used-Kept : (t : Timers) → IsFresh t → Kept t (delete_timeout t.next (set_timeout t))
unfolding delete_timeout set_timeout
used-Kept t h = (ground (arith, keep_others t.next t.active h), omega arith)

pause-Kept :
    (again : Bool) (t : Timers)
    → IsFresh t
    → let t' = delete_timeout t.next (set_timeout t) in Kept t (if again then delay t' else t')
unfolding delay
pause-Kept true t h = let k = used-Kept t h in Kept-trans k (used-Kept _ (Kept-IsFresh k h))
pause-Kept false t h = used-Kept t h

module _ {A : Type 0} (job : Job A) (timeout : ℕ) where
  -- What attempts `a`, `a + 1`, … would each come to within the time limit.
  abbrev pub attempts : ℕ → ℕ → List (Result Error A)
  attempts zero a = []
  attempts (suc n) a = (race_timer timeout (timed_out timeout) (job a)).outcome ∷ attempts n (suc a)

-- The first success of a list of outcomes, or else its last error.
abbrev pub first_success : {A : Type 0} → Error → List (Result Error A) → Result Error A
first_success last [] = err last
first_success last (ok v ∷ rest) = ok v
first_success last (err e ∷ rest) = first_success e rest

module _ {A : Type 0} (job : Job A) (retry_count retry_delay timeout : ℕ) where
  retry_from-outcome :
      (left attempt : ℕ) (last : Option Error) (t : Timers) (elapsed : ℕ)
      → (retry_from job retry_count retry_delay timeout left attempt last t elapsed).1.outcome
        ≡ first_success (Option.get_or last no_attempts) (attempts job timeout left attempt)
  unfolding retry_from
  retry_from-outcome zero attempt last t elapsed = refl
  retry_from-outcome (suc left) attempt last t elapsed =
      elim (Result-cases (race_timer timeout (timed_out timeout) (job attempt)).outcome) [
        | inl (v, e) ↦ rw (e, retry_from) refl
        | inr (x, e) ↦ rw (e, retry_from) (retry_from-outcome left (suc attempt) (some x) _ _)
      ]

  retry_from-Kept :
      (left attempt : ℕ) (last : Option Error) (t : Timers) (elapsed : ℕ)
      → IsFresh t
      → Kept t (retry_from job retry_count retry_delay timeout left attempt last t elapsed).0
  unfolding retry_from
  retry_from-Kept zero attempt last t elapsed h = (refl, omega arith)
  retry_from-Kept (suc left) attempt last t elapsed h =
      elim (Result-cases (race_timer timeout (timed_out timeout) (job attempt)).outcome) [
        | inl (v, e) ↦ rw (e, retry_from) (used-Kept t h)
        | inr (x, e) ↦
            let k = pause-Kept (leb attempt retry_count) t h in
            rw (e, retry_from)
              (Kept-trans k (retry_from-Kept left (suc attempt) (some x) _ _ (Kept-IsFresh k h)))
      ]

  race_timer-after :
      (run : Promise Error A) → (race_timer timeout (timed_out timeout) run).after ≤ timeout
  race_timer-after none = omega arith
  race_timer-after (some p) = ground arith

  retry_from-after :
      (left attempt : ℕ) (last : Option Error) (t : Timers) (elapsed : ℕ)
      → attempt + left ≡ retry_count + 2
      → (retry_from job retry_count retry_delay timeout left attempt last t elapsed).1.after
        ≤ elapsed + left * timeout + (left - 1) * retry_delay
  unfolding retry_from
  retry_from-after zero attempt last t elapsed h = omega arith
  retry_from-after (suc left) attempt last t elapsed h =
      elim (Result-cases (race_timer timeout (timed_out timeout) (job attempt)).outcome) [
        | inl (v, e) ↦ rw (e, retry_from) (omega (arith, race_timer-after (job attempt)))
        | inr (x, e) ↦
            rw (e, retry_from)
              (le_trans (retry_from-after left (suc attempt) (some x) _ _ (omega arith)) (
                omega (
                  arith,
                  race_timer-after (job attempt),
                  pause_bound left attempt retry_count retry_delay h,
                )))
      ]

pub execute_job_with_retry-IsFresh :
    {A : Type 0} (job : Job A) (retry_count retry_delay timeout : ℕ) (t : Timers)
    → IsFresh t
    → IsFresh (execute_job_with_retry job retry_count retry_delay timeout t).0
unfolding execute_job_with_retry
execute_job_with_retry-IsFresh job retry_count retry_delay timeout t h =
    Kept-IsFresh
      (retry_from-Kept job retry_count retry_delay timeout (retry_count + 1) 1 none t 0 h) h

-- After `execute_job_with_retry` the job's outcome is that of its first successful attempt among
-- the `retry_count + 1` attempts, each cut off at the time limit, or else the last attempt's error.
-- The timers that were active are active again, and no others. The time is at most that of
-- `retry_count + 1` time limits and `retry_count` pauses.
pub execute_job_with_retry_lem :
    {A : Type 0} (job : Job A) (retry_count retry_delay timeout : ℕ) (t : Timers)
    → IsFresh t
    → let (t', s) = execute_job_with_retry job retry_count retry_delay timeout t in
      (s.outcome ≡ first_success no_attempts (attempts job timeout (retry_count + 1) 1))
      × (t'.active ≡ t.active)
      × (s.after ≤ (retry_count + 1) * timeout + retry_count * retry_delay)
unfolding execute_job_with_retry
execute_job_with_retry_lem job retry_count retry_delay timeout t h = (
  retry_from-outcome job retry_count retry_delay timeout (retry_count + 1) 1 none t 0,
  (retry_from-Kept job retry_count retry_delay timeout (retry_count + 1) 1 none t 0 h).0,
  le_trans
      (retry_from-after job retry_count retry_delay timeout (retry_count + 1) 1 none t 0
        (omega arith))
      (omega (arith, pred_cancel' retry_count retry_delay)),
)
