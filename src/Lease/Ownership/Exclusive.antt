-- ===== src/Lease/Ownership/Exclusive.antt =====
-- About pids that two leases could own, and what a close adopts.
use law_cast_backend.Base.{
  ℕ, ◌≤◌, ◌≡◌, refl, ◌∙◌, ◌⊎◌, inl, inr, List, [], ◌∷◌, Bool, true, false, not, arith, ◌==◌, ◌&&◌,
  ◌||◌, if◌then◌else◌, length, Bool-cases, if_elim,
}
use law_cast_backend.Lease.Tree.{ProcessSnapshotRow, has}
use law_cast_backend.Lease.Tree.Measure.{has-snoc}
use law_cast_backend.Lease.Ownership.{
  Lease, add_pid, is_claimed_by_other_lease, own, adopt_tree, adopt_strays,
}

unfoldable pub owns : ℕ → ℕ → List Lease → Bool
owns lease_id pid [] = false
owns lease_id pid (l ∷ ls) = ((l.id == lease_id) && has pid l.pids) || owns lease_id pid ls

-- A pid of one lease is claimed by no other, unless it is one of the disputed pids.
abbrev pub IsExclusive : List ℕ → List Lease → Type 0
IsExclusive disputed ls =
    (lease_id pid : ℕ)
    → has pid disputed ≡ false
    → owns lease_id pid ls ≡ true
    → is_claimed_by_other_lease pid lease_id ls ≡ false

has-add_pid :
    (p pid : ℕ) (pids : List ℕ) → has p (add_pid pid pids) ≡ (if pid == p then true else has p pids)
unfolding add_pid
has-add_pid p pid pids = elim (Bool-cases (has pid pids)) [
  | inr fresh ↦ rw fresh (has-snoc p pid pids)
  | inl there ↦ rw there (elim (Bool-cases (pid == p)) [
    | inl hit ↦
        let same : pid ≡ p = ground arith in
        let here : has p pids ≡ true = (rw same at there) in rw hit here
    | inr miss ↦ rw miss refl
  ])
]

owns-own :
    (id p lease_id pid : ℕ) (ls : List Lease)
    → owns id p (own lease_id pid ls) ≡ true
    → (owns id p ls ≡ true) ⊎ (((id == lease_id) ≡ true) × ((pid == p) ≡ true))
unfolding owns own
owns-own id p lease_id pid [] h = absurd (cc h)
owns-own id p lease_id pid (l ∷ ls) h =
    ground (arith, owns-own id p lease_id pid ls, has-add_pid p pid l.pids)

claimed-own :
    (id p lease_id pid : ℕ) (ls : List Lease)
    → is_claimed_by_other_lease p id (own lease_id pid ls) ≡ true
    → (is_claimed_by_other_lease p id ls ≡ true)
      ⊎ (((id == lease_id) ≡ false) × ((pid == p) ≡ true))
unfolding is_claimed_by_other_lease own
claimed-own id p lease_id pid [] h = absurd (cc h)
claimed-own id p lease_id pid (l ∷ ls) h =
    ground (arith, claimed-own id p lease_id pid ls, has-add_pid p pid l.pids)

owns-claimed :
    (id lease_id p : ℕ) (ls : List Lease)
    → owns id p ls ≡ true
    → (id == lease_id) ≡ false
    → is_claimed_by_other_lease p lease_id ls ≡ true
unfolding owns is_claimed_by_other_lease
owns-claimed id lease_id p [] h other = absurd (cc h)
owns-claimed id lease_id p (l ∷ ls) h other = ground (arith, owns-claimed id lease_id p ls)

pub own-IsExclusive :
    (disputed : List ℕ) (lease_id pid : ℕ) (ls : List Lease)
    → (has pid disputed ≡ false → is_claimed_by_other_lease pid lease_id ls ≡ false)
    → IsExclusive disputed ls
    → IsExclusive disputed (own lease_id pid ls)
own-IsExclusive disputed lease_id pid ls free exclusive id p undisputed mine =
    elim (Bool-cases (is_claimed_by_other_lease p id (own lease_id pid ls))) [
      | inr fine ↦ fine
      | inl claimed ↦ absurd (clash claimed)
    ]
  where
    new_and_old : (pid == p) ≡ true → is_claimed_by_other_lease p lease_id ls ≡ false
    new_and_old hit = let same : pid ≡ p = ground arith in (rw same at free) undisputed

    clash : is_claimed_by_other_lease p id (own lease_id pid ls) ≡ true → ⊥
    clash claimed = elim (owns-own id p lease_id pid ls mine) [
      | inl before ↦ elim (claimed-own id p lease_id pid ls claimed) [
        | inl claimed_before ↦ cc (exclusive id p undisputed before, claimed_before)
        | inr (other, hit) ↦ cc (owns-claimed id lease_id p ls before other, new_and_old hit)
      ]
      | inr (own_lease, hit) ↦ elim (claimed-own id p lease_id pid ls claimed) [
        | inr (other, _) ↦ cc (own_lease, other)
        | inl claimed_before ↦
            let same : id ≡ lease_id = ground arith in
            let there : is_claimed_by_other_lease p lease_id ls ≡ true =
              (rw same at claimed_before) in
            cc (there, new_and_old hit)
      ]
    ]

pub adopt_tree-IsExclusive :
    (disputed : List ℕ) (lease_id : ℕ) (tree : List ℕ) (rows : List ProcessSnapshotRow)
    (ls : List Lease)
    → IsExclusive disputed ls
    → IsExclusive disputed (adopt_tree lease_id tree rows ls)
unfolding adopt_tree
adopt_tree-IsExclusive disputed lease_id tree [] ls e = e
adopt_tree-IsExclusive disputed lease_id tree (row ∷ rows) ls e =
    adopt_tree-IsExclusive disputed lease_id tree rows _ (
      if_elim (IsExclusive disputed)
        (has row.pid tree && not (is_claimed_by_other_lease row.pid lease_id ls))
        (own lease_id row.pid ls) ls
        (λ taken. own-IsExclusive disputed lease_id row.pid ls (λ _. ground arith) e) (λ left. e))

-- With a single lease, nobody else claims anything.
pub alone-IsExclusive :
    (disputed : List ℕ) (ls : List Lease) → length ls ≤ 1 → IsExclusive disputed ls
unfolding owns is_claimed_by_other_lease
alone-IsExclusive disputed [] one id p undisputed mine = refl
alone-IsExclusive disputed (l ∷ []) one id p undisputed mine = ground arith
alone-IsExclusive disputed (l ∷ k ∷ ls) one id p undisputed mine = absurd (omega arith)

length-own : (lease_id pid : ℕ) (ls : List Lease) → length (own lease_id pid ls) ≡ length ls
unfolding own
length-own lease_id pid [] = refl
length-own lease_id pid (l ∷ ls) = ground (arith, length-own lease_id pid ls)

pub length-adopt_strays :
    (lease_id : ℕ) (start_pids : List ℕ) (rows : List ProcessSnapshotRow) (ls : List Lease)
    → length (adopt_strays lease_id start_pids rows ls) ≡ length ls
unfolding adopt_strays
length-adopt_strays lease_id start_pids [] ls = refl
length-adopt_strays lease_id start_pids (row ∷ rows) ls =
    length-adopt_strays lease_id start_pids rows _
    ∙ if_elim (λ ks. length ks ≡ length ls) (has row.pid start_pids) ls (own lease_id row.pid ls)
        (λ _. refl) (λ _. length-own lease_id row.pid ls)
