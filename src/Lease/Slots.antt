-- ===== src/Lease/Slots.antt =====
-- `waitForLeaseSlot`, `releaseLease` and `wakeLeaseWaiters`. A waiter is a task's number. A waiter
-- whose promise is resolved has left the queue but runs only later, in `resume`: until then others
-- may take the slot. Logging and the clock that it reads are left out.
pub mod Fairness
use law_cast_backend.Base.{
  ℕ, zero, suc, ◌+◌, ◌-◌, ◌<◌, ◌≡◌, max, List, [], ◌∷◌, ◌++◌, Option, none, some, Bool, true, false,
  not, ltb, ◌==◌, if◌then◌else◌,
}

pub record Slots : Type 0 where
  pub max_concurrent_leases : ℕ
  pub active_leases : ℕ
  pub lease_wait_queue : List ℕ
  pub resolved : List ℕ
  pub shutting_down : Bool

abbrev pub browser_lease_manager_service : ℕ → Slots
browser_lease_manager_service browser_max_concurrency = record {
  max_concurrent_leases = max 1 browser_max_concurrency;
  active_leases = 0;
  lease_wait_queue = [];
  resolved = [];
  shutting_down = false;
}

-- What a call has come to: it throws, it has its lease, or it waits.
pub data Entry : Type 0 where
  refused granted waiting : Entry

abbrev pub granted_to : Slots → Slots × Entry
granted_to s = (record s { active_leases = s.active_leases + 1 }, granted)

abbrev pub queued : Slots → ℕ → Slots × Entry
queued s task = (record s { lease_wait_queue = s.lease_wait_queue ++ task ∷ [] }, waiting)

abbrev pub wait_while_up : Slots → ℕ → Slots × Entry
wait_while_up s task =
    if ltb s.active_leases s.max_concurrent_leases then granted_to s else queued s task

-- A round of the loop in `waitForLeaseSlot`, up to its `await` or its end.
unfoldable pub wait_for_lease_slot : Slots → ℕ → Slots × Entry
wait_for_lease_slot s task = if s.shutting_down then (s, refused) else wait_while_up s task

abbrev remove_first : ℕ → List ℕ → List ℕ
remove_first task [] = []
remove_first task (t ∷ ts) = if t == task then ts else t ∷ remove_first task ts

-- A waiter goes on after its `await`.
unfoldable pub resume : Slots → ℕ → Slots × Entry
unfolding wait_for_lease_slot
resume s task = wait_for_lease_slot (record s { resolved = remove_first task s.resolved }) task

-- The first of the queue, if any, is resolved.
unfoldable pub wake_next : Slots → List ℕ → Slots
wake_next s [] = s
wake_next s (next ∷ rest) = record s { lease_wait_queue = rest; resolved = s.resolved ++ next ∷ [] }

unfoldable pub release_lease : Slots → Slots
unfolding wake_next
release_lease s = wake_next (record s { active_leases = s.active_leases - 1 }) s.lease_wait_queue

-- `shuttingDown = true` and `wakeLeaseWaiters()` of `onApplicationShutdown`.
unfoldable pub begin_shutdown : Slots → Slots
begin_shutdown s = record s {
  shutting_down = true;
  lease_wait_queue = [];
  resolved = s.resolved ++ s.lease_wait_queue;
}

-- What can happen: a call enters, a resolved waiter goes on, a task that holds a lease gives it
-- back, the application shuts down.
pub data Step : Slots → Slots → Type 0 where
  enters : (s : Slots) (task : ℕ) → Step s (wait_for_lease_slot s task).0
  goes_on :
      (s : Slots) (task : ℕ) (before after : List ℕ)
      → s.resolved ≡ before ++ task ∷ after
      → Step s (resume s task).0
  gives_back : (s : Slots) → 0 < s.active_leases → Step s (release_lease s)
  shuts_down : (s : Slots) → Step s (begin_shutdown s)

pub data Steps : Slots → Slots → Type 0 where
  none_yet : (s : Slots) → Steps s s
  then_step : (s t u : Slots) → Steps s t → Step t u → Steps s u
