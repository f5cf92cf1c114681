-- ===== src/Lease/Tests.antt =====
-- Runs of src/modules/crawling/browser-lease-manager.service.ts at concrete inputs.
use law_cast_backend.Base.{ℕ, ◌<◌, ◌≤◌, ◌≡◌, refl, List, [], ◌∷◌, arith, All, some}
use law_cast_backend.Lease.Slots.{
  Slots, browser_lease_manager_service, wait_for_lease_slot, release_lease, enters, none_yet,
  then_step,
}
use law_cast_backend.Lease.Slots.Fairness.{IsFair, Steps-IsFair}
use law_cast_backend.Lease.Tree.{ProcessSnapshotRow, collect_session_tree_pids}
use law_cast_backend.Lease.Tree.Closure.{
  IsClosed, collect_session_tree_pids-IsClosed, collect_session_tree_pids_least,
}
use law_cast_backend.Lease.Ownership.{
  Owners, open_lease, claim_session, adopt_observed, is_claimed_by_other_lease, is_open, no_owners,
  pids_of,
}
use law_cast_backend.Lease.Ownership
use law_cast_backend.Lease.Ownership.Exclusive.{IsExclusive}
use law_cast_backend.Lease.Ownership.Runs.{Steps-IsExclusive}

-- One slot: the first task takes it, the second waits, the first gives it back.
abbrev start : Slots
start = browser_lease_manager_service 1

abbrev one_waits : Slots
one_waits = (wait_for_lease_slot (wait_for_lease_slot start 1).0 2).0

waits_run : (one_waits.active_leases ≡ 1) × (one_waits.lease_wait_queue ≡ 2 ∷ [])
unfolding wait_for_lease_slot
waits_run = (refl, refl)

handed_over_run : (release_lease one_waits).resolved ≡ 2 ∷ []
unfolding wait_for_lease_slot release_lease
handed_over_run = refl

Steps-IsFair_example : IsFair (wait_for_lease_slot (wait_for_lease_slot start 1).0 2).0
Steps-IsFair_example = Steps-IsFair 1 (wait_for_lease_slot (wait_for_lease_slot start 1).0 2).0 (
    then_step start (wait_for_lease_slot start 1).0 one_waits
      (then_step start start (wait_for_lease_slot start 1).0 (none_yet start) (enters start 1))
      (enters (wait_for_lease_slot start 1).0 2))

abbrev process : ℕ → ℕ → ProcessSnapshotRow
process pid ppid = record { pid = pid; ppid = ppid; stat = "S"; command = "chrome" }

-- Below 10 are 11 and 12, below 12 is 13; 20 is another browser.
abbrev rows : List ProcessSnapshotRow
rows = process 13 12 ∷ process 11 10 ∷ process 12 10 ∷ process 20 1 ∷ []

tree_run : collect_session_tree_pids 10 rows ≡ 10 ∷ 11 ∷ 12 ∷ 13 ∷ []
unfolding collect_session_tree_pids
tree_run = refl

collect_session_tree_pids-IsClosed_example : IsClosed rows (collect_session_tree_pids 10 rows)
collect_session_tree_pids-IsClosed_example = collect_session_tree_pids-IsClosed 10 rows

-- Every pid of this tree lies from 10 to 19.
collect_session_tree_pids_least_example :
    All (λ pid. (10 ≤ pid) × (pid < 20)) (collect_session_tree_pids 10 rows)
collect_session_tree_pids_least_example =
    collect_session_tree_pids_least (λ pid. (10 ≤ pid) × (pid < 20)) 10 rows
      (omega arith, omega arith)
      (
        (λ (l, r). (omega arith, omega arith)),
        (
          (λ (l, r). (omega arith, omega arith)),
          ((λ (l, r). (omega arith, omega arith)), ((λ (l, r). absurd (omega arith)), tt)),
        ),
      )

-- Two leases are open; the first closes its browser, whose tree is 10 to 13.
abbrev two_open : Owners
two_open = open_lease (open_lease no_owners)

abbrev claimed_first : Owners
claimed_first = claim_session two_open 1 10

abbrev adopted : Owners
adopted = adopt_observed claimed_first 1 (some 10) [] rows

adopted_run : pids_of 1 adopted.active_lease_pids ≡ 10 ∷ 13 ∷ 11 ∷ 12 ∷ []
unfolding adopt_observed claim_session open_lease collect_session_tree_pids
adopted_run = refl

-- Then the second lease claims a pid of that tree, and it alone is disputed.
abbrev reused : Owners
reused = claim_session adopted 2 11

Steps-IsExclusive_example : IsExclusive (11 ∷ []) reused.active_lease_pids
unfolding is_claimed_by_other_lease open_lease claim_session adopt_observed
    collect_session_tree_pids
Steps-IsExclusive_example = Steps-IsExclusive reused (
    Ownership.then_step no_owners adopted reused
      (Ownership.then_step no_owners claimed_first adopted
        (Ownership.then_step no_owners two_open claimed_first
          (Ownership.then_step no_owners (open_lease no_owners) two_open
            (Ownership.then_step no_owners no_owners (open_lease no_owners)
              (Ownership.none_yet no_owners) (Ownership.opens no_owners))
            (Ownership.opens (open_lease no_owners)))
          (Ownership.claims two_open 1 10))
        (Ownership.adopts claimed_first 1 (some 10) [] rows))
      (Ownership.claims adopted 2 11))
