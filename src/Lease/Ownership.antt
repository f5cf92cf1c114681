-- ===== src/Lease/Ownership.antt =====
-- Which lease owns which processes: `activeLeasePids`, `trackedBrowserPids` and the parts of
-- `runWithLease` and `closeBrowserSession` that change them, each up to its next `await`. What `ps`
-- and `kill` answer is a parameter. A `Set` is a list in the order of insertion.
pub mod Exclusive
pub mod Runs
use law_cast_backend.Base.{
  ℕ, zero, suc, ◌+◌, ◌≡◌, List, [], ◌∷◌, ◌++◌, Option, none, some, Bool, true, false, not, leb,
  ◌==◌, ◌&&◌, ◌||◌, if◌then◌else◌, length, keep,
}
use law_cast_backend.Lease.Tree.{ProcessSnapshotRow, has, collect_session_tree_pids}

pub record Lease : Type 0 where
  pub id : ℕ
  pub pids : List ℕ

pub record Owners : Type 0 where
  pub active_lease_pids : List Lease
  pub tracked_browser_pids : List ℕ
  pub lease_seq : ℕ

-- `set.add(pid)` and `set.delete(pid)`.
unfoldable pub add_pid : ℕ → List ℕ → List ℕ
unfolding has
add_pid pid pids = if has pid pids then pids else pids ++ pid ∷ []

unfoldable pub delete_pid : ℕ → List ℕ → List ℕ
delete_pid pid [] = []
delete_pid pid (p ∷ ps) = let rest = delete_pid pid ps in if p == pid then rest else p ∷ rest

unfoldable pub is_claimed_by_other_lease : ℕ → ℕ → List Lease → Bool
unfolding has
is_claimed_by_other_lease pid lease_id [] = false
is_claimed_by_other_lease pid lease_id (l ∷ ls) =
    (not (l.id == lease_id) && has pid l.pids) || is_claimed_by_other_lease pid lease_id ls

-- `ownedPids.add(pid)` on the set that the map holds for the lease.
unfoldable pub own : ℕ → ℕ → List Lease → List Lease
unfolding add_pid
own lease_id pid [] = []
own lease_id pid (l ∷ ls) =
    (if l.id == lease_id then record l { pids = add_pid pid l.pids } else l) ∷ own lease_id pid ls

unfoldable pub disown : ℕ → ℕ → List Lease → List Lease
unfolding delete_pid
disown lease_id pid [] = []
disown lease_id pid (l ∷ ls) =
    (if l.id == lease_id then record l { pids = delete_pid pid l.pids } else l)
    ∷ disown lease_id pid ls

unfoldable pub forget : ℕ → List Lease → List Lease
forget lease_id [] = []
forget lease_id (l ∷ ls) =
    let rest = forget lease_id ls in if l.id == lease_id then rest else l ∷ rest

-- The rows of the browser's tree that no other lease claims.
unfoldable pub adopt_tree : ℕ → List ℕ → List ProcessSnapshotRow → List Lease → List Lease
unfolding is_claimed_by_other_lease own has
adopt_tree lease_id tree [] ls = ls
adopt_tree lease_id tree (row ∷ rows) ls = adopt_tree lease_id tree rows (
    if has row.pid tree && not (is_claimed_by_other_lease row.pid lease_id ls)
    then own lease_id row.pid ls
    else ls)

-- The rows that were not there when the lease began.
unfoldable pub adopt_strays : ℕ → List ℕ → List ProcessSnapshotRow → List Lease → List Lease
unfolding own has
adopt_strays lease_id start_pids [] ls = ls
adopt_strays lease_id start_pids (row ∷ rows) ls =
    adopt_strays lease_id start_pids rows
      (if has row.pid start_pids then ls else own lease_id row.pid ls)

-- What a close adopts from the processes that it observes, by whether the session has a pid.
unfoldable pub adopt : ℕ → Option ℕ → List ℕ → List ProcessSnapshotRow → List Lease → List Lease
unfolding adopt_tree adopt_strays collect_session_tree_pids
adopt lease_id (some session_pid) start_pids rows ls =
    adopt_tree lease_id (collect_session_tree_pids session_pid rows) rows ls
adopt lease_id none start_pids rows ls =
    if leb (length ls) 1 then adopt_strays lease_id start_pids rows ls else ls

unfoldable pub is_open : ℕ → List Lease → Bool
is_open lease_id [] = false
is_open lease_id (l ∷ ls) = (l.id == lease_id) || is_open lease_id ls

unfoldable pub pids_of : ℕ → List Lease → List ℕ
pids_of lease_id [] = []
pids_of lease_id (l ∷ ls) = if l.id == lease_id then l.pids else pids_of lease_id ls

unfoldable pub add_pids : List ℕ → List ℕ → List ℕ
unfolding add_pid
add_pids [] pids = pids
add_pids (p ∷ ps) pids = add_pids ps (add_pid p pids)

-- `++this.leaseSeq` and the new entry of the map.
unfoldable pub open_lease : Owners → Owners
open_lease s = record s {
  lease_seq = s.lease_seq + 1;
  active_lease_pids = s.active_lease_pids ++ record { id = s.lease_seq + 1; pids = [] } ∷ [];
}

-- The beginning of `closeBrowserSession`: the lease owns the session's own process.
unfoldable pub claim_session : Owners → ℕ → ℕ → Owners
unfolding own
claim_session s lease_id session_pid = record s {
  active_lease_pids = own lease_id session_pid s.active_lease_pids;
}

-- Once the processes are observed, up to the call of `closeBrowser`.
unfoldable pub adopt_observed : Owners → ℕ → Option ℕ → List ℕ → List ProcessSnapshotRow → Owners
unfolding adopt pids_of add_pids
adopt_observed s lease_id session_pid start_pids rows =
    let leases = adopt lease_id session_pid start_pids rows s.active_lease_pids in
    record s {
      active_lease_pids = leases;
      tracked_browser_pids = add_pids (pids_of lease_id leases) s.tracked_browser_pids;
    }

-- `release(pid)`.
unfoldable pub release : Owners → ℕ → ℕ → Owners
unfolding disown delete_pid
release s lease_id pid = record s {
  active_lease_pids = disown lease_id pid s.active_lease_pids;
  tracked_browser_pids = delete_pid pid s.tracked_browser_pids;
}

-- What was observed of a pid after `closeBrowser`: it is gone, a zombie, dead, or alive; a process
-- that is alive is killed, and may be alive even then.
pub data Observed : Type 0 where
  gone zombie dead killed survived : Observed

-- A round of the loop over the owned pids.
unfoldable pub sweep : Owners → ℕ → ℕ → Observed → Owners
unfolding release
sweep s lease_id pid survived = s
sweep s lease_id pid gone = release s lease_id pid
sweep s lease_id pid zombie = release s lease_id pid
sweep s lease_id pid dead = release s lease_id pid
sweep s lease_id pid killed = release s lease_id pid

-- `this.activeLeasePids.delete(leaseId)` in the last `finally` block.
unfoldable pub end_lease : Owners → ℕ → Owners
unfolding forget
end_lease s lease_id = record s { active_lease_pids = forget lease_id s.active_lease_pids }

abbrev pub no_owners : Owners
no_owners = record { active_lease_pids = []; tracked_browser_pids = []; lease_seq = 0 }

-- What can happen: any lease claims any pid as its session's, and closes with any processes in sight.
pub data Step : Owners → Owners → Type 0 where
  opens : (s : Owners) → Step s (open_lease s)
  claims : (s : Owners) (lease_id session_pid : ℕ) → Step s (claim_session s lease_id session_pid)
  adopts :
      (s : Owners) (lease_id : ℕ) (session_pid : Option ℕ) (start_pids : List ℕ)
      (rows : List ProcessSnapshotRow)
      → Step s (adopt_observed s lease_id session_pid start_pids rows)
  sweeps : (s : Owners) (lease_id pid : ℕ) (seen : Observed) → Step s (sweep s lease_id pid seen)
  ends : (s : Owners) (lease_id : ℕ) → Step s (end_lease s lease_id)

pub data Steps : Owners → Owners → Type 0 where
  none_yet : (s : Owners) → Steps s s
  then_step : (s t u : Owners) → Steps s t → Step t u → Steps s u

-- The pids that a session claimed while another lease had them: what a step adds to them, and all
-- those of a run.
abbrev pub dispute : (s t : Owners) → Step s t → List ℕ → List ℕ
dispute _ _ (opens s) pids = pids
dispute _ _ (claims s lease_id session_pid) pids =
    if is_claimed_by_other_lease session_pid lease_id s.active_lease_pids
    then session_pid ∷ pids
    else pids
dispute _ _ (adopts s lease_id session_pid start_pids rows) pids = pids
dispute _ _ (sweeps s lease_id pid seen) pids = pids
dispute _ _ (ends s lease_id) pids = pids

abbrev pub disputed_pids : (s t : Owners) → Steps s t → List ℕ
disputed_pids _ _ (none_yet s) = []
disputed_pids _ _ (then_step s t u before last) = dispute t u last (disputed_pids s t before)
