-- ===== src/Lease/Tree.antt =====
-- `collectSessionTreePids`: the processes below a browser, by a walk over the rows of `ps`. The `Set`
-- of owned pids is a list in the order of insertion and the stack a list with its top first.
pub mod Measure
pub mod Closure
use law_cast_backend.Base.{
  ℕ, zero, suc, ◌+◌, List, [], ◌∷◌, ◌++◌, Bool, true, false, not, ◌==◌, ◌&&◌, if◌then◌else◌, length,
  any, String,
}

pub record ProcessSnapshotRow : Type 0 where
  pub pid : ℕ
  pub ppid : ℕ
  pub stat : String
  pub command : String

unfoldable pub has : ℕ → List ℕ → Bool
has pid [] = false
has pid (p ∷ ps) = if p == pid then true else has pid ps

-- The set of owned pids and the stack.
pub record Walk : Type 0 where
  pub owned : List ℕ
  pub stack : List ℕ

-- One round of the loop over the children of `current`: they are the rows with this parent.
unfoldable pub visit_row : ℕ → ProcessSnapshotRow → Walk → Walk
unfolding has
visit_row current row w =
    if (row.ppid == current) && not (has row.pid w.owned)
    then record { owned = w.owned ++ row.pid ∷ []; stack = row.pid ∷ w.stack }
    else w

unfoldable pub visit_children : ℕ → List ProcessSnapshotRow → Walk → Walk
unfolding visit_row
visit_children current [] w = w
visit_children current (row ∷ rows) w = visit_children current rows (visit_row current row w)

-- One round of the `while` loop.
unfoldable pub pop_and_visit : List ProcessSnapshotRow → List ℕ → List ℕ → Walk
unfolding visit_children
pop_and_visit rows owned [] = record { owned = owned; stack = [] }
pop_and_visit rows owned (current ∷ stack) =
    visit_children current rows (record { owned = owned; stack = stack })

-- The `while` loop, with fuel; a round with an empty stack changes nothing.
unfoldable pub walk : ℕ → List ProcessSnapshotRow → Walk → Walk
unfolding pop_and_visit
walk zero rows w = w
walk (suc fuel) rows w = walk fuel rows (pop_and_visit rows w.owned w.stack)

unfoldable pub collect_session_tree_pids : ℕ → List ProcessSnapshotRow → List ℕ
unfolding walk
collect_session_tree_pids session_pid rows =
    (walk (suc (length rows)) rows
      (record { owned = session_pid ∷ []; stack = session_pid ∷ [] })).owned
