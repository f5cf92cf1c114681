-- ===== src/Lease/Tree/Measure.antt =====
-- About the walk over the rows of `ps`: the measure of what it has still to do.
use law_cast_backend.Base.{
  ℕ, ◌+◌, ◌<◌, ◌≤◌, ◌≡◌, refl, ◌∙◌, inl, inr, List, [], ◌∷◌, ◌++◌, true, false, not, arith, ◌==◌,
  ◌&&◌, if◌then◌else◌, length, if_elim, Bool-cases,
}
use law_cast_backend.Lease.Tree.{ProcessSnapshotRow, has, Walk, visit_row, visit_children}

pub has-append : (pid : ℕ) (ps qs : List ℕ) → has pid ps ≡ true → has pid (ps ++ qs) ≡ true
unfolding has
has-append pid [] qs h = absurd (cc h)
has-append pid (p ∷ ps) qs h = ground (arith, has-append pid ps qs)

-- How many rows are not owned yet.
abbrev pub fresh : List ℕ → List ProcessSnapshotRow → ℕ
fresh owned [] = 0
fresh owned (r ∷ rs) = (if has r.pid owned then 0 else 1) + fresh owned rs

pub has-snoc :
    (pid new : ℕ) (ps : List ℕ)
    → has pid (ps ++ new ∷ []) ≡ (if new == pid then true else has pid ps)
unfolding has
has-snoc pid new [] = refl
has-snoc pid new (p ∷ ps) = ground (arith, has-snoc pid new ps)

pub same_first : (new : ℕ) (ps : List ℕ) → (if new == new then true else has new ps) ≡ true
same_first new ps = ground arith

fresh-snoc :
    (new : ℕ) (owned : List ℕ) (rows : List ProcessSnapshotRow)
    → fresh (owned ++ new ∷ []) rows ≤ fresh owned rows
fresh-snoc new owned [] = omega arith
fresh-snoc new owned (r ∷ rs) = ground (arith, fresh-snoc new owned rs, has-snoc r.pid new owned)

abbrev pub pids : List ProcessSnapshotRow → List ℕ
pids [] = []
pids (r ∷ rs) = r.pid ∷ pids rs

fresh-lt :
    (new : ℕ) (owned : List ℕ) (rows : List ProcessSnapshotRow)
    → has new owned ≡ false
    → has new (pids rows) ≡ true
    → fresh (owned ++ new ∷ []) rows < fresh owned rows
unfolding has
fresh-lt new owned [] free here = absurd (cc here)
fresh-lt new owned (r ∷ rs) free here = elim (Bool-cases (r.pid == new)) [
  | inl hit ↦
      let same : r.pid ≡ new = ground arith in
      let before : has r.pid owned ≡ false = (rw same free) in
      let now : has r.pid (owned ++ new ∷ []) ≡ true =
        rw same (has-snoc new new owned ∙ same_first new owned) in
      let le = fresh-snoc new owned rs in rw (before, now) (omega arith)
  | inr miss ↦ ground (arith, fresh-lt new owned rs, has-snoc r.pid new owned)
]

abbrev pub measure : List ProcessSnapshotRow → Walk → ℕ
measure rows w = length w.stack + fresh w.owned rows

visit_row-measure :
    (rows : List ProcessSnapshotRow) (current : ℕ) (row : ProcessSnapshotRow) (w : Walk)
    → has row.pid (pids rows) ≡ true
    → measure rows (visit_row current row w) ≤ measure rows w
unfolding visit_row
visit_row-measure rows current row w here =
    if_elim (λ v. measure rows v ≤ measure rows w)
      ((row.ppid == current) && not (has row.pid w.owned))
      (record { owned = w.owned ++ row.pid ∷ []; stack = row.pid ∷ w.stack }) w
      (λ taken. omega (arith, fresh-lt row.pid w.owned rows (ground arith) here))
      (λ left. omega arith)

pub visit_children-measure :
    (rows : List ProcessSnapshotRow) (current : ℕ) (todo : List ProcessSnapshotRow) (w : Walk)
    → ((pid : ℕ) → has pid (pids todo) ≡ true → has pid (pids rows) ≡ true)
    → measure rows (visit_children current todo w) ≤ measure rows w
unfolding visit_children has
visit_children-measure rows current [] w among = omega arith
visit_children-measure rows current (row ∷ todo) w among =
    let first = visit_row-measure rows current row w (among row.pid (ground arith)) in
    let rest =
      visit_children-measure rows current todo (visit_row current row w)
        (λ pid h. among pid (ground arith)) in
    omega arith
