-- ===== src/Lease/Ownership/Runs.antt =====
-- About sequences of steps of the lease manager and the pids of its leases.
use law_cast_backend.Base.{
  ℕ, ◌+◌, ◌≡◌, refl, List, [], ◌∷◌, ◌++◌, Option, none, some, true, false, arith, leb, ◌==◌,
  if◌then◌else◌, length, if_elim,
}
use law_cast_backend.Lease.Tree.{ProcessSnapshotRow, has, collect_session_tree_pids}
use law_cast_backend.Lease.Ownership.{
  Lease, Owners, delete_pid, is_claimed_by_other_lease, own, disown, forget, adopt_strays, adopt,
  open_lease, claim_session, adopt_observed, release, sweep, Observed, gone, zombie, dead, killed,
  survived, end_lease, no_owners, Step, opens, claims, adopts, sweeps, ends, Steps, none_yet,
  then_step, dispute, disputed_pids,
}
use law_cast_backend.Lease.Ownership.Exclusive.{
  owns, IsExclusive, own-IsExclusive, adopt_tree-IsExclusive, alone-IsExclusive,
  length-adopt_strays,
}

-- Whoever owns or claims a pid afterwards did so before.
shrink-IsExclusive :
    (disputed : List ℕ) (ls ks : List Lease)
    → ((id p : ℕ) → owns id p ks ≡ true → owns id p ls ≡ true)
    → ((id p : ℕ)
        → is_claimed_by_other_lease p id ls ≡ false
        → is_claimed_by_other_lease p id ks ≡ false)
    → IsExclusive disputed ls
    → IsExclusive disputed ks
shrink-IsExclusive disputed ls ks fewer free e id p undisputed mine =
    free id p (e id p undisputed (fewer id p mine))

-- More disputed pids leave less to hold.
more-IsExclusive :
    (disputed : List ℕ) (pid : ℕ) (ls : List Lease)
    → IsExclusive disputed ls
    → IsExclusive (pid ∷ disputed) ls
unfolding has
more-IsExclusive disputed pid ls e id p undisputed mine = e id p (ground (arith, undisputed)) mine

has-delete_pid :
    (p pid : ℕ) (pids : List ℕ)
    → has p (delete_pid pid pids) ≡ (if pid == p then false else has p pids)
unfolding has delete_pid
has-delete_pid p pid [] = ground arith
has-delete_pid p pid (q ∷ qs) = ground (arith, has-delete_pid p pid qs)

owns-disown :
    (lease_id pid : ℕ) (ls : List Lease) (id p : ℕ)
    → owns id p (disown lease_id pid ls) ≡ true
    → owns id p ls ≡ true
unfolding owns disown
owns-disown lease_id pid [] id p h = h
owns-disown lease_id pid (l ∷ ls) id p h =
    ground (arith, owns-disown lease_id pid ls id p, has-delete_pid p pid l.pids)

claimed-disown :
    (lease_id pid : ℕ) (ls : List Lease) (id p : ℕ)
    → is_claimed_by_other_lease p id ls ≡ false
    → is_claimed_by_other_lease p id (disown lease_id pid ls) ≡ false
unfolding is_claimed_by_other_lease disown
claimed-disown lease_id pid [] id p h = h
claimed-disown lease_id pid (l ∷ ls) id p h =
    ground (arith, claimed-disown lease_id pid ls id p, has-delete_pid p pid l.pids)

owns-forget :
    (lease_id : ℕ) (ls : List Lease) (id p : ℕ)
    → owns id p (forget lease_id ls) ≡ true
    → owns id p ls ≡ true
unfolding owns forget
owns-forget lease_id [] id p h = h
owns-forget lease_id (l ∷ ls) id p h = ground (arith, owns-forget lease_id ls id p)

claimed-forget :
    (lease_id : ℕ) (ls : List Lease) (id p : ℕ)
    → is_claimed_by_other_lease p id ls ≡ false
    → is_claimed_by_other_lease p id (forget lease_id ls) ≡ false
unfolding is_claimed_by_other_lease forget
claimed-forget lease_id [] id p h = h
claimed-forget lease_id (l ∷ ls) id p h = ground (arith, claimed-forget lease_id ls id p)

owns-fresh :
    (new : ℕ) (ls : List Lease) (id p : ℕ)
    → owns id p (ls ++ record { id = new; pids = [] } ∷ []) ≡ true
    → owns id p ls ≡ true
unfolding owns has
owns-fresh new [] id p h = ground arith
owns-fresh new (l ∷ ls) id p h = ground (arith, owns-fresh new ls id p)

claimed-fresh :
    (new : ℕ) (ls : List Lease) (id p : ℕ)
    → is_claimed_by_other_lease p id ls ≡ false
    → is_claimed_by_other_lease p id (ls ++ record { id = new; pids = [] } ∷ []) ≡ false
unfolding is_claimed_by_other_lease has
claimed-fresh new [] id p h = ground arith
claimed-fresh new (l ∷ ls) id p h = ground (arith, claimed-fresh new ls id p)

adopt-IsExclusive :
    (disputed : List ℕ) (lease_id : ℕ) (session_pid : Option ℕ) (start_pids : List ℕ)
    (rows : List ProcessSnapshotRow) (ls : List Lease)
    → IsExclusive disputed ls
    → IsExclusive disputed (adopt lease_id session_pid start_pids rows ls)
unfolding adopt
adopt-IsExclusive disputed lease_id (some session_pid) start_pids rows ls e =
    adopt_tree-IsExclusive disputed lease_id (collect_session_tree_pids session_pid rows) rows ls e
adopt-IsExclusive disputed lease_id none start_pids rows ls e =
    if_elim (IsExclusive disputed) (leb (length ls) 1) (adopt_strays lease_id start_pids rows ls) ls
      (λ one.
        alone-IsExclusive disputed (adopt_strays lease_id start_pids rows ls)
          (ground (arith, length-adopt_strays lease_id start_pids rows ls)))
      (λ many. e)

release-IsExclusive :
    (disputed : List ℕ) (s : Owners) (lease_id pid : ℕ)
    → IsExclusive disputed s.active_lease_pids
    → IsExclusive disputed (release s lease_id pid).active_lease_pids
unfolding release
release-IsExclusive disputed s lease_id pid e =
    shrink-IsExclusive disputed s.active_lease_pids (disown lease_id pid s.active_lease_pids)
      (owns-disown lease_id pid s.active_lease_pids)
      (claimed-disown lease_id pid s.active_lease_pids) e

sweep-IsExclusive :
    (disputed : List ℕ) (s : Owners) (lease_id pid : ℕ) (seen : Observed)
    → IsExclusive disputed s.active_lease_pids
    → IsExclusive disputed (sweep s lease_id pid seen).active_lease_pids
unfolding sweep
sweep-IsExclusive disputed s lease_id pid survived e = e
sweep-IsExclusive disputed s lease_id pid gone e = release-IsExclusive disputed s lease_id pid e
sweep-IsExclusive disputed s lease_id pid zombie e = release-IsExclusive disputed s lease_id pid e
sweep-IsExclusive disputed s lease_id pid dead e = release-IsExclusive disputed s lease_id pid e
sweep-IsExclusive disputed s lease_id pid killed e = release-IsExclusive disputed s lease_id pid e

-- A claim of a pid that another lease has makes it a disputed one.
claim-IsExclusive :
    (disputed : List ℕ) (lease_id pid : ℕ) (ls : List Lease)
    → IsExclusive disputed ls
    → IsExclusive
        (if is_claimed_by_other_lease pid lease_id ls then pid ∷ disputed else disputed)
        (own lease_id pid ls)
unfolding has
claim-IsExclusive disputed lease_id pid ls e =
    if_elim (λ ds. IsExclusive ds (own lease_id pid ls)) (is_claimed_by_other_lease pid lease_id ls)
      (pid ∷ disputed) disputed
      (λ taken.
        own-IsExclusive (pid ∷ disputed) lease_id pid ls
          (λ undisputed. absurd (ground (arith, undisputed))) (more-IsExclusive disputed pid ls e))
      (λ free. own-IsExclusive disputed lease_id pid ls (λ _. free) e)

Step-IsExclusive :
    (disputed : List ℕ) (s t : Owners) (step : Step s t)
    → IsExclusive disputed s.active_lease_pids
    → IsExclusive (dispute s t step disputed) t.active_lease_pids
unfolding open_lease claim_session adopt_observed end_lease
Step-IsExclusive ds _ _ (opens s) e =
    shrink-IsExclusive ds s.active_lease_pids _ (owns-fresh (s.lease_seq + 1) s.active_lease_pids)
      (claimed-fresh (s.lease_seq + 1) s.active_lease_pids) e
Step-IsExclusive ds _ _ (claims s lease_id session_pid) e =
    claim-IsExclusive ds lease_id session_pid s.active_lease_pids e
Step-IsExclusive ds _ _ (adopts s lease_id session_pid start_pids rows) e =
    adopt-IsExclusive ds lease_id session_pid start_pids rows s.active_lease_pids e
Step-IsExclusive ds _ _ (sweeps s lease_id pid seen) e = sweep-IsExclusive ds s lease_id pid seen e
Step-IsExclusive ds _ _ (ends s lease_id) e =
    shrink-IsExclusive ds s.active_lease_pids (forget lease_id s.active_lease_pids)
      (owns-forget lease_id s.active_lease_pids) (claimed-forget lease_id s.active_lease_pids) e

-- In every run from the start, whatever sessions claim which pids and whatever processes a close
-- sees, a pid that a lease owns is claimed by no other lease, unless some session claimed it as its
-- own pid in this run while another lease had it.
pub Steps-IsExclusive :
    (s : Owners) (run : Steps no_owners s)
    → IsExclusive (disputed_pids no_owners s run) s.active_lease_pids
unfolding is_claimed_by_other_lease
Steps-IsExclusive s run = from_start no_owners s run (λ id p _ h. refl)
  where
    from_start :
        (s t : Owners) (run : Steps s t)
        → IsExclusive [] s.active_lease_pids
        → IsExclusive (disputed_pids s t run) t.active_lease_pids
    from_start _ _ (none_yet s) e = e
    from_start _ _ (then_step s u t before last) e =
        Step-IsExclusive (disputed_pids s u before) u t last (from_start s u before e)
