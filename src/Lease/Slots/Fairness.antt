-- ===== src/Lease/Slots/Fairness.antt =====
-- About the slots and the waiters in sequences of steps.
use law_cast_backend.Base.{
  ℕ, suc, ◌+◌, ◌-◌, ◌<◌, ◌≤◌, ◌≡◌, refl, ap, List, [], ◌∷◌, ◌++◌, true, arith, ltb, length, if_elim,
  length-append,
}
use law_cast_backend.Lease.Slots.{
  Slots, browser_lease_manager_service, refused, wait_while_up, granted_to, queued,
  wait_for_lease_slot, remove_first, resume, release_lease, wake_next, begin_shutdown, Step, enters,
  goes_on, gives_back, shuts_down, Steps, none_yet, then_step,
}

-- There are no more leases than slots; if anyone waits, each free slot has a resolved waiter on its
-- way; and after the shutdown nobody waits.
pub record IsFair (s : Slots) : Type 0 where
  pub bounded : s.active_leases ≤ s.max_concurrent_leases
  pub awake :
      0 < length s.lease_wait_queue → s.max_concurrent_leases ≤ s.active_leases + length s.resolved
  pub drained : s.shutting_down ≡ true → length s.lease_wait_queue ≡ 0

wait_for_lease_slot-IsFair :
    (s : Slots) (task : ℕ)
    → s.active_leases ≤ s.max_concurrent_leases
    → (0 < length s.lease_wait_queue
        → s.max_concurrent_leases ≤ s.active_leases + suc (length s.resolved))
    → (s.shutting_down ≡ true → length s.lease_wait_queue ≡ 0)
    → IsFair (wait_for_lease_slot s task).0
unfolding wait_for_lease_slot
wait_for_lease_slot-IsFair s task bounded awake drained =
    if_elim (λ r. IsFair r.0) s.shutting_down (s, refused) (wait_while_up s task)
      (λ down.
        let nobody : length s.lease_wait_queue ≡ 0 = drained down in
        record { bounded = bounded; awake = λ h. absurd (omega arith); drained = drained })
      (λ up.
        if_elim (λ r. IsFair r.0) (ltb s.active_leases s.max_concurrent_leases) (granted_to s)
          (queued s task)
          (λ room. record {
            bounded = ground arith;
            awake = λ h. omega (arith, awake h);
            drained = drained;
          })
          (λ full. record {
            bounded = bounded;
            awake = λ h. ground arith;
            drained = λ down. absurd (cc (down, up));
          }))

length-remove_first :
    (task : ℕ) (before after : List ℕ)
    → suc (length (remove_first task (before ++ task ∷ after))) ≡ length (before ++ task ∷ after)
length-remove_first task [] after = ground arith
length-remove_first task (t ∷ before) after = ground (arith, length-remove_first task before after)

-- One lease less and one resolved waiter more keep the slots fair.
wake_next-IsFair :
    (s : Slots) (queue : List ℕ)
    → s.lease_wait_queue ≡ queue
    → s.active_leases ≤ s.max_concurrent_leases
    → (0 < length queue → s.max_concurrent_leases ≤ suc (s.active_leases + length s.resolved))
    → (s.shutting_down ≡ true → length queue ≡ 0)
    → IsFair (wake_next s queue)
unfolding wake_next
wake_next-IsFair s [] same bounded awake drained =
    let nobody : length s.lease_wait_queue ≡ 0 = ap length same in
    record { bounded = bounded; awake = λ h. absurd (omega arith); drained = λ down. nobody }
wake_next-IsFair s (next ∷ rest) same bounded awake drained =
    let one_more = length-append s.resolved (next ∷ []) in
    record {
      bounded = bounded;
      awake = λ h. omega (arith, one_more, awake (omega arith));
      drained = λ down. absurd (omega (arith, drained down));
    }

release_lease-IsFair : (s : Slots) → 0 < s.active_leases → IsFair s → IsFair (release_lease s)
unfolding release_lease
release_lease-IsFair s some_active fair =
    let le = fair.bounded in
    wake_next-IsFair (record s { active_leases = s.active_leases - 1 }) s.lease_wait_queue refl
      (omega arith) (λ h. omega (arith, fair.awake h)) fair.drained

begin_shutdown-IsFair : (s : Slots) → IsFair s → IsFair (begin_shutdown s)
unfolding begin_shutdown
begin_shutdown-IsFair s fair = record {
  bounded = fair.bounded;
  awake = λ h. absurd (omega arith);
  drained = λ down. refl;
}

Step-IsFair : (s t : Slots) → Step s t → IsFair s → IsFair t
unfolding resume
Step-IsFair _ _ (enters s task) fair =
    wait_for_lease_slot-IsFair s task fair.bounded (λ h. omega (arith, fair.awake h)) fair.drained
Step-IsFair _ _ (goes_on s task before after here) fair =
    let count : suc (length (remove_first task s.resolved)) ≡ length s.resolved =
      (rw here (length-remove_first task before after)) in
    wait_for_lease_slot-IsFair (record s { resolved = remove_first task s.resolved }) task
      fair.bounded (λ h. omega (arith, fair.awake h, count)) fair.drained
Step-IsFair _ _ (gives_back s some_active) fair = release_lease-IsFair s some_active fair
Step-IsFair _ _ (shuts_down s) fair = begin_shutdown-IsFair s fair

Steps-IsFair_from : (s t : Slots) → Steps s t → IsFair s → IsFair t
Steps-IsFair_from _ _ (none_yet s) fair = fair
Steps-IsFair_from _ _ (then_step s u t before last) fair =
    Step-IsFair u t last (Steps-IsFair_from s u before fair)

-- In every run from the start there are at most as many leases as slots; while anyone waits, the
-- slots are all taken or have as many resolved waiters on their way; and after the shutdown nobody
-- waits.
pub Steps-IsFair :
    (browser_max_concurrency : ℕ) (s : Slots)
    → Steps (browser_lease_manager_service browser_max_concurrency) s
    → IsFair s
Steps-IsFair n s run =
    Steps-IsFair_from (browser_lease_manager_service n) s run
      (record { bounded = omega arith; awake = λ h. absurd (omega arith); drained = λ down. refl })
