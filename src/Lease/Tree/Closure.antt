-- ===== src/Lease/Tree/Closure.antt =====
-- About `collect_session_tree_pids`: which processes the walk finds.
use law_cast_backend.Base.{
  ℕ, zero, suc, ◌≤◌, ◌≡◌, refl, sym, ◌∙◌, ◌⊎◌, inl, inr, List, [], ◌∷◌, ◌++◌, true, not, arith,
  ◌==◌, ◌&&◌, length, All, All-append, if_elim, subst, Bool-cases,
}
use law_cast_backend.Lease.Tree.Measure.{
  has-append, has-snoc, same_first, visit_children-measure, fresh, measure,
}
use law_cast_backend.Lease.Tree.{
  ProcessSnapshotRow, has, Walk, visit_row, visit_children, pop_and_visit, walk,
  collect_session_tree_pids,
}

has-cons :
    (p current : ℕ) (stack : List ℕ)
    → has p (current ∷ stack) ≡ true
    → (p ≡ current) ⊎ (has p stack ≡ true)
unfolding has
has-cons p current stack h = elim (Bool-cases (current == p)) [
  | inl hit ↦ inl (ground arith)
  | inr miss ↦ inr (rw miss at h)
]

-- What a step of the walk does to the owned pids and the stack.
record IsGrown (v w : Walk) : Type 0 where
  owned_stays : (p : ℕ) → has p v.owned ≡ true → has p w.owned ≡ true
  stack_stays : (p : ℕ) → has p v.stack ≡ true → has p w.stack ≡ true
  new_waits : (p : ℕ) → has p w.owned ≡ true → (has p v.owned ≡ true) ⊎ (has p w.stack ≡ true)

IsGrown-refl : (w : Walk) → IsGrown w w
IsGrown-refl w = record { owned_stays = λ p h. h; stack_stays = λ p h. h; new_waits = λ p h. inl h }

IsGrown-trans : (u v w : Walk) → IsGrown u v → IsGrown v w → IsGrown u w
IsGrown-trans u v w f g = record {
  owned_stays = λ p h. g.owned_stays p (f.owned_stays p h);
  stack_stays = λ p h. g.stack_stays p (f.stack_stays p h);
  new_waits = λ p h. elim (g.new_waits p h) [
    | inr waits ↦ inr waits
    | inl old ↦ elim (f.new_waits p old) [
      | inl older ↦ inl older
      | inr waits ↦ inr (g.stack_stays p waits)
    ]
  ];
}

push-IsGrown :
    (pid : ℕ) (w : Walk) → IsGrown w (record { owned = w.owned ++ pid ∷ []; stack = pid ∷ w.stack })
unfolding has
push-IsGrown pid w = record {
  owned_stays = λ p h. has-append p w.owned (pid ∷ []) h;
  stack_stays = λ p h. ground arith;
  new_waits = λ p h. elim (Bool-cases (pid == p)) [
    | inl hit ↦ inr (rw hit refl)
    | inr miss ↦
        let same : has p (w.owned ++ pid ∷ []) ≡ has p w.owned =
          (rw miss at (has-snoc p pid w.owned)) in
        inl (sym same ∙ h)
  ];
}

visit_row-IsGrown :
    (current : ℕ) (row : ProcessSnapshotRow) (w : Walk) → IsGrown w (visit_row current row w)
unfolding visit_row
visit_row-IsGrown current row w =
    if_elim (IsGrown w) ((row.ppid == current) && not (has row.pid w.owned))
      (record { owned = w.owned ++ row.pid ∷ []; stack = row.pid ∷ w.stack }) w
      (λ taken. push-IsGrown row.pid w) (λ left. IsGrown-refl w)

visit_row-child :
    (current : ℕ) (row : ProcessSnapshotRow) (w : Walk)
    → row.ppid ≡ current
    → has row.pid (visit_row current row w).owned ≡ true
unfolding visit_row
visit_row-child current row w child =
    if_elim (λ v. has row.pid v.owned ≡ true) ((row.ppid == current) && not (has row.pid w.owned))
      (record { owned = w.owned ++ row.pid ∷ []; stack = row.pid ∷ w.stack }) w
      (λ taken. has-snoc row.pid row.pid w.owned ∙ same_first row.pid w.owned)
      (λ left. ground arith)

visit_children-IsGrown :
    (current : ℕ) (rows : List ProcessSnapshotRow) (w : Walk)
    → IsGrown w (visit_children current rows w)
unfolding visit_children
visit_children-IsGrown current [] w = IsGrown-refl w
visit_children-IsGrown current (row ∷ rows) w =
    IsGrown-trans w (visit_row current row w) _ (visit_row-IsGrown current row w)
      (visit_children-IsGrown current rows (visit_row current row w))

-- Every child of `current` is owned afterwards.
visit_children-children :
    (current : ℕ) (rows : List ProcessSnapshotRow) (w : Walk)
    → All
        (λ row. row.ppid ≡ current → has row.pid (visit_children current rows w).owned ≡ true)
        rows
unfolding visit_children
visit_children-children current [] w = tt
visit_children-children current (row ∷ rows) w =
    let w' = visit_row current row w in
    (
      λ child.
          (visit_children-IsGrown current rows w').owned_stays row.pid
            (visit_row-child current row w child),
      visit_children-children current rows w',
    )

-- A child of an owned process is owned, unless the walk is still to come to its parent.
abbrev Pending : Walk → ProcessSnapshotRow → Type 0
Pending w row =
    has row.ppid w.owned ≡ true → (has row.pid w.owned ≡ true) ⊎ (has row.ppid w.stack ≡ true)

All-zip {ℓ κ} :
    {A : Type ℓ} (P Q R : A → Type κ) (xs : List A)
    → ((x : A) → P x → Q x → R x)
    → All P xs
    → All Q xs
    → All R xs
All-zip P Q R [] f h k = tt
All-zip P Q R (x ∷ xs) f (h, hs) (k, ks) = (f x h k, All-zip P Q R xs f hs ks)

visit-Pending :
    (rows : List ProcessSnapshotRow) (owned : List ℕ) (current : ℕ) (stack : List ℕ)
    → All (Pending (record { owned = owned; stack = current ∷ stack })) rows
    → All (Pending (pop_and_visit rows owned (current ∷ stack))) rows
unfolding pop_and_visit
visit-Pending rows owned current stack pending =
    let v : Walk = record { owned = owned; stack = stack } in
    let w = visit_children current rows v in
    let grown = visit_children-IsGrown current rows v in
    All-zip (Pending (record { owned = owned; stack = current ∷ stack }))
      (λ row. row.ppid ≡ current → has row.pid w.owned ≡ true) (Pending w) rows
      (λ row before child parent. elim (grown.new_waits row.ppid parent) [
        | inr waits ↦ inr waits
        | inl old ↦ elim (before old) [
          | inl owned_before ↦ inl (grown.owned_stays row.pid owned_before)
          | inr waited ↦ elim (has-cons row.ppid current stack waited) [
            | inl here ↦ inl (child here)
            | inr waits ↦ inr (grown.stack_stays row.ppid waits)
          ]
        ]
      ])
      pending (visit_children-children current rows v)

-- A set that holds every child of what it holds.
abbrev pub IsClosed : List ProcessSnapshotRow → List ℕ → Type 0
IsClosed rows owned = All (λ row. has row.ppid owned ≡ true → has row.pid owned ≡ true) rows

at_rest :
    (owned : List ℕ) (rows : List ProcessSnapshotRow)
    → All (Pending (record { owned = owned; stack = [] })) rows
    → IsClosed rows owned
unfolding has
at_rest owned [] h = tt
at_rest owned (row ∷ rows) (h, hs) = (
  λ parent. elim (h parent) [ inl done ↦ done | inr waits ↦ absurd (cc waits) ],
  at_rest owned rows hs,
)

walk-rest :
    (fuel : ℕ) (rows : List ProcessSnapshotRow) (owned : List ℕ)
    → walk fuel rows (record { owned = owned; stack = [] }) ≡ record { owned = owned; stack = [] }
unfolding walk
walk-rest zero rows owned = refl
walk-rest (suc fuel) rows owned = walk-rest fuel rows owned

walk-IsClosed :
    (fuel : ℕ) (rows : List ProcessSnapshotRow) (owned stack : List ℕ)
    → measure rows (record { owned = owned; stack = stack }) ≤ fuel
    → All (Pending (record { owned = owned; stack = stack })) rows
    → IsClosed rows (walk fuel rows (record { owned = owned; stack = stack })).owned
unfolding walk
walk-IsClosed fuel rows owned [] enough pending =
    rw (walk-rest fuel rows owned) (at_rest owned rows pending)
walk-IsClosed zero rows owned (current ∷ stack) enough pending = absurd (omega arith)
walk-IsClosed (suc fuel) rows owned (current ∷ stack) enough pending =
    let w = pop_and_visit rows owned (current ∷ stack) in
    let less : measure rows w ≤ measure rows (record { owned = owned; stack = stack }) =
      visit_children-measure rows current rows (record { owned = owned; stack = stack })
        (λ pid h. h) in
    walk-IsClosed fuel rows w.owned w.stack (omega arith)
      (visit-Pending rows owned current stack pending)

length-fresh : (owned : List ℕ) (rows : List ProcessSnapshotRow) → fresh owned rows ≤ length rows
length-fresh owned [] = omega arith
length-fresh owned (row ∷ rows) = ground (arith, length-fresh owned rows)

begin-Pending :
    (session_pid : ℕ) (rows : List ProcessSnapshotRow)
    → All (Pending (record { owned = session_pid ∷ []; stack = session_pid ∷ [] })) rows
begin-Pending session_pid [] = tt
begin-Pending session_pid (row ∷ rows) = (λ parent. inr parent, begin-Pending session_pid rows)

-- Whatever the rows are, a row whose parent is among the collected pids has its pid among them.
pub collect_session_tree_pids-IsClosed :
    (session_pid : ℕ) (rows : List ProcessSnapshotRow)
    → IsClosed rows (collect_session_tree_pids session_pid rows)
unfolding collect_session_tree_pids
collect_session_tree_pids-IsClosed session_pid rows =
    let le = length-fresh (session_pid ∷ []) rows in
    walk-IsClosed (suc (length rows)) rows (session_pid ∷ []) (session_pid ∷ []) (omega arith)
      (begin-Pending session_pid rows)

module _ (P : ℕ → Type 0) where
  abbrev Holds : Walk → Type 0
  Holds w = All P w.owned × All P w.stack

  visit_row-Holds :
      (current : ℕ) (row : ProcessSnapshotRow) (w : Walk)
      → P current
      → (P row.ppid → P row.pid)
      → Holds w
      → Holds (visit_row current row w)
  unfolding visit_row
  visit_row-Holds current row w here step (owned, stack) =
      if_elim Holds ((row.ppid == current) && not (has row.pid w.owned))
        (record { owned = w.owned ++ row.pid ∷ []; stack = row.pid ∷ w.stack }) w
        (λ taken.
          let child : row.ppid ≡ current = ground arith in
          let holds : P row.pid = step (subst P (sym child) here) in
          (All-append P w.owned (row.pid ∷ []) owned (holds, tt), (holds, stack)))
        (λ left. (owned, stack))

  visit_children-Holds :
      (current : ℕ) (rows : List ProcessSnapshotRow) (w : Walk)
      → P current
      → All (λ row. P row.ppid → P row.pid) rows
      → Holds w
      → Holds (visit_children current rows w)
  unfolding visit_children
  visit_children-Holds current [] w here steps holds = holds
  visit_children-Holds current (row ∷ rows) w here (step, steps) holds =
      visit_children-Holds current rows (visit_row current row w) here steps
        (visit_row-Holds current row w here step holds)

  walk-Holds :
      (fuel : ℕ) (rows : List ProcessSnapshotRow) (owned stack : List ℕ)
      → All (λ row. P row.ppid → P row.pid) rows
      → All P owned
      → All P stack
      → All P (walk fuel rows (record { owned = owned; stack = stack })).owned
  unfolding walk pop_and_visit
  walk-Holds zero rows owned stack steps o s = o
  walk-Holds (suc fuel) rows owned [] steps o s = walk-Holds fuel rows owned [] steps o s
  walk-Holds (suc fuel) rows owned (current ∷ stack) steps o (here, s) =
      let v : Walk = record { owned = owned; stack = stack } in
      let (o', s') = visit_children-Holds current rows v here steps (o, s) in
      walk-Holds fuel rows (visit_children current rows v).owned
        (visit_children current rows v).stack steps o' s'

  -- What holds of the browser and passes along every row from the parent to the process holds of all
  -- the collected pids.
  pub collect_session_tree_pids_least :
      (session_pid : ℕ) (rows : List ProcessSnapshotRow)
      → P session_pid
      → All (λ row. P row.ppid → P row.pid) rows
      → All P (collect_session_tree_pids session_pid rows)
  unfolding collect_session_tree_pids
  collect_session_tree_pids_least session_pid rows here steps =
      walk-Holds (suc (length rows)) rows (session_pid ∷ []) (session_pid ∷ []) steps (here, tt)
        (here, tt)
