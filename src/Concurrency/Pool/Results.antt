-- ===== src/Concurrency/Pool/Results.antt =====
-- What the workers of `mapConcurrently` have written, whatever order they are resumed in.
use law_cast_backend.Base.{
  ℕ, ◌<◌, ◌≤◌, ◌≡◌, refl, inl, inr, max, min, List, [], ◌∷◌, none, some, length, get_elem?, set,
  leb, arith, ap, subst, Bool-cases, Option-cases, get_elem?-set, length-set, ==_iff, get_elem?-lt,
  get_elem?-replicate, length-replicate, ◌∙◌, ◌==◌, if◌then◌else◌,
}
use law_cast_backend.Promises.{Result, ok, err}
use law_cast_backend.Concurrency.Pool.{
  Worker, ready, busy, done, failed, Pool, start, mapped, fetch, settle, step, run,
}

-- Every worker has returned.
abbrev pub AllDone : {E R : Type 0} → Pool E R → Type 0
AllDone p = (w : ℕ) (s : Worker _) → get_elem? p.workers w ≡ some s → s ≡ done

module _ {E T R : Type 0} (items : List T) (mapper : T → ℕ → Result E R) where
  -- An index is written with its own value, not yet handed out, or with a worker.
  pub data Covered (p : Pool E R) (i : ℕ) : Type 0 where
    written :
        (v : R)
        → get_elem? p.results i ≡ some (some v)
        → mapped items mapper i ≡ some (ok v)
        → Covered p i
    later : p.next_index ≤ i → Covered p i
    held : (w : ℕ) → get_elem? p.workers w ≡ some (busy i) → Covered p i
    lost : (w : ℕ) (e : E) → get_elem? p.workers w ≡ some (failed e) → Covered p i

  -- What is known of a worker from where it stands.
  abbrev pub Placed : Pool E R → Worker E → Type 0
  Placed p ready = Unit
  Placed p (busy i) = (i < p.next_index) × (i < length items)
  Placed p done = length items ≤ p.next_index
  Placed p (failed e) = Unit

  pub record Inv (p : Pool E R) : Type 0 where
    pub covered : (i : ℕ) → i < length items → Covered p i
    pub placed : (w : ℕ) (s : Worker E) → get_elem? p.workers w ≡ some s → Placed p s
    pub sized : length p.results ≡ length items

  fetch-Covered :
      (p : Pool E R) (w i : ℕ)
      → get_elem? p.workers w ≡ some ready
      → i < length items
      → Covered p i
      → Covered (fetch items mapper p w) i
  unfolding fetch
  fetch-Covered p w i e h (written v a b) = written v a b
  fetch-Covered p w i e h (later l) = elim (Bool-cases (p.next_index == i)) [
    | inl here ↦ held w (ground (arith, get_elem?-set p.workers w w (busy i) e))
    | inr past ↦ later (ground arith)
  ]
  fetch-Covered p w i e h (held w' b) = held w' (
      ground (
        arith,
        get_elem?-set p.workers w w'
            (if leb (length items) p.next_index then done else busy p.next_index) e,
      ))
  fetch-Covered p w i e h (lost w' x b) = lost w' x (
      ground (
        arith,
        get_elem?-set p.workers w w'
            (if leb (length items) p.next_index then done else busy p.next_index) e,
      ))

  Placed-mono :
      (p q : Pool E R) (s : Worker E) → p.next_index ≤ q.next_index → Placed p s → Placed q s
  Placed-mono p q ready h k = tt
  Placed-mono p q (busy i) h k = omega arith
  Placed-mono p q done h k = omega arith
  Placed-mono p q (failed e) h k = tt

  -- A pool that differs at one worker, and hands out no index twice.
  set-Placed :
      (p q : Pool E R) (w : ℕ) {old : Worker E} (new : Worker E)
      → get_elem? p.workers w ≡ some old
      → q.workers ≡ set p.workers w new
      → p.next_index ≤ q.next_index
      → Placed q new
      → ((w' : ℕ) (s : Worker E) → get_elem? p.workers w' ≡ some s → Placed p s)
      → (w' : ℕ) (s : Worker E) → get_elem? q.workers w' ≡ some s
      → Placed q s
  set-Placed p q w new e same le here all w' s h = elim (Bool-cases (w == w')) [
    | inl hit ↦
        let here' : new ≡ s = ground (arith, get_elem?-set p.workers w w' new e) in
        subst (Placed q) here' here
    | inr miss ↦
        Placed-mono p q s le (all w' s (ground (arith, get_elem?-set p.workers w w' new e)))
  ]

  fetched :
      (p : Pool E R) (w : ℕ)
      → Placed
          (fetch items mapper p w)
          (if leb (length items) p.next_index then done else busy p.next_index)
  unfolding fetch
  fetched p w = elim (Bool-cases (leb (length items) p.next_index)) [
    | inl past ↦ rw past (ground arith)
    | inr there ↦ rw there (ground arith, ground arith)
  ]

  fetch-Inv :
      (p : Pool E R) (w : ℕ)
      → Inv p
      → get_elem? p.workers w ≡ some ready
      → Inv (fetch items mapper p w)
  fetch-Inv p w v e = record {
    covered = λ i h. fetch-Covered p w i e h (v.covered i h);
    placed =
        set-Placed p (fetch items mapper p w) w
          (if leb (length items) p.next_index then done else busy p.next_index) e
          (unfold fetch in refl) (unfold fetch in omega arith) (fetched p w) v.placed;
    sized = unfold fetch in v.sized;
  }

  module _ (p : Pool E R) (w idx : ℕ) (e : get_elem? p.workers w ≡ some (busy idx)) where
    abbrev resolved : R → Pool E R
    resolved u = record p { results = set p.results idx (some u); workers = set p.workers w ready }

    abbrev rejected : E → Pool E R
    rejected x = record p { workers = set p.workers w (failed x) }

    resolved-here :
        (u : R) (i : ℕ)
        → mapped items mapper idx ≡ some (ok u)
        → idx < length p.results
        → idx ≡ i
        → Covered (resolved u) i
    resolved-here u i m lt same =
        let (old, there) = get_elem?-lt p.results idx lt in
        subst (Covered (resolved u)) same
          (written u (ground (arith, get_elem?-set p.results idx idx (some u) there)) m)

    resolved-Covered :
        (u : R) (i : ℕ)
        → mapped items mapper idx ≡ some (ok u)
        → idx < length p.results
        → Covered p i
        → Covered (resolved u) i
    resolved-Covered u i m lt (written v a b) = elim (Bool-cases (idx == i)) [
      | inl hit ↦ resolved-here u i m lt ((==_iff idx i).0 hit)
      | inr miss ↦
          let (old, there) = get_elem?-lt p.results idx lt in
          written v (ground (arith, get_elem?-set p.results idx i (some u) there)) b
    ]
    resolved-Covered u i m lt (later l) = later l
    resolved-Covered u i m lt (held w' b) = elim (Bool-cases (w == w')) [
      | inl hit ↦ resolved-here u i m lt (ground (arith, b, hit))
      | inr miss ↦ held w' (ground (arith, get_elem?-set p.workers w w' ready e))
    ]
    resolved-Covered u i m lt (lost w' x b) =
        lost w' x (ground (arith, get_elem?-set p.workers w w' ready e))

    rejected-Covered : (x : E) (i : ℕ) → Covered p i → Covered (rejected x) i
    rejected-Covered x i (written v a b) = written v a b
    rejected-Covered x i (later l) = later l
    rejected-Covered x i (held w' b) = elim (Bool-cases (w == w')) [
      | inl hit ↦ lost w x (ground (arith, get_elem?-set p.workers w w (failed x) e))
      | inr miss ↦ held w' (ground (arith, get_elem?-set p.workers w w' (failed x) e))
    ]
    rejected-Covered x i (lost w' y b) =
        lost w' y (ground (arith, get_elem?-set p.workers w w' (failed x) e))

    settled-Inv :
        (r : Result E R)
        → Inv p
        → mapped items mapper idx ≡ some r
        → Inv (elim r [ ok v ↦ resolved v | err x ↦ rejected x ])
    settled-Inv (ok u) v m = record {
      covered = λ i h.
          resolved-Covered u i m (omega (arith, v.placed w (busy idx) e, v.sized)) (v.covered i h);
      placed = set-Placed p (resolved u) w ready e refl (omega arith) tt v.placed;
      sized = length-set p.results idx (some u) ∙ v.sized;
    }
    settled-Inv (err x) v m = record {
      covered = λ i h. rejected-Covered x i (v.covered i h);
      placed = set-Placed p (rejected x) w (failed x) e refl (omega arith) tt v.placed;
      sized = v.sized;
    }

    settle-Inv : Inv p → Inv (settle items mapper p w idx)
    unfolding settle
    settle-Inv v = elim (Option-cases (mapped items mapper idx)) [
      | inl m ↦ rw (m, settle) v
      | inr (r, m) ↦ rw (m, settle) (settled-Inv r v m)
    ]

  pub step-Inv : (p : Pool E R) (w : ℕ) → Inv p → Inv (step items mapper p w)
  unfolding step
  step-Inv p w v = elim (Option-cases (get_elem? p.workers w)) [
    | inl e ↦ rw (e, step) v
    | inr (s, e) ↦ rw (e, step) (resume s e)
  ]
    where
      resume :
          (s : Worker E)
          → get_elem? p.workers w ≡ some s
          → Inv (elim s [
            | ready ↦ fetch items mapper p w
            | busy idx ↦ settle items mapper p w idx
            | done ↦ p
            | failed x ↦ p
          ])
      resume ready e = fetch-Inv p w v e
      resume (busy idx) e = settle-Inv p w idx e v
      resume done e = v
      resume (failed x) e = v

  run-Inv : (p : Pool E R) (ws : List ℕ) → Inv p → Inv (run items mapper p ws)
  unfolding run
  run-Inv p [] v = v
  run-Inv p (w ∷ ws) v = run-Inv (step items mapper p w) ws (step-Inv p w v)

  pub start-Inv : (concurrency : ℕ) → Inv (start items mapper concurrency)
  unfolding start
  start-Inv concurrency = record {
    covered = λ i h. later (omega arith);
    placed = λ w s h.
        subst (Placed (start items mapper concurrency)) (get_elem?-replicate _ w ready h) tt;
    sized = length-replicate (length items) none;
  }

  pub start-crew :
      (concurrency : ℕ)
      → length (start items mapper concurrency).workers ≡ min (max 1 concurrency) (length items)
  unfolding start
  start-crew concurrency = length-replicate _ ready

  step-crew : (p : Pool E R) (w : ℕ) → length (step items mapper p w).workers ≡ length p.workers
  unfolding step fetch settle
  step-crew p w = grind (arith, length-set)

  -- The crew keeps its size: a worker is never added or lost.
  pub run-crew :
      (p : Pool E R) (ws : List ℕ) → length (run items mapper p ws).workers ≡ length p.workers
  unfolding run
  run-crew p [] = refl
  run-crew p (w ∷ ws) = run-crew (step items mapper p w) ws ∙ step-crew p w

  done_complete :
      (p : Pool E R)
      → Inv p
      → 0 < length p.workers
      → AllDone p
      → (i : ℕ) → i < length items
      → Covered p i
      → (v : R) × (get_elem? p.results i ≡ some (some v)) × (mapped items mapper i ≡ some (ok v))
  done_complete p inv crew all i h (written v a b) = (v, a, b)
  done_complete p inv crew all i h (later l) =
      let (s, there) = get_elem?-lt p.workers 0 crew in
      let past = inv.placed 0 done (there ∙ ap some (all 0 s there)) in absurd (omega arith)
  done_complete p inv crew all i h (held w b) = absurd (cc (all w (busy i) b))
  done_complete p inv crew all i h (lost w e b) = absurd (cc (all w (failed e) b))

  -- In whatever order the workers are resumed, once all of them have returned every item's slot
  -- holds the value that the mapper gave for that item at its own index, and there is a slot for
  -- each item.
  pub run_complete :
      (concurrency : ℕ) (ws : List ℕ)
      → AllDone (run items mapper (start items mapper concurrency) ws)
      → let p = run items mapper (start items mapper concurrency) ws in
        (length p.results ≡ length items)
        × ((i : ℕ)
            → i < length items
            → (v : R) × (get_elem? p.results i ≡ some (some v))
              × (mapped items mapper i ≡ some (ok v)))
  run_complete concurrency ws all =
      let p = run items mapper (start items mapper concurrency) ws in
      let inv = run-Inv (start items mapper concurrency) ws (start-Inv concurrency) in
      (inv.sized, λ i h. done_complete p inv (crew i h) all i h (inv.covered i h))
    where
      crew :
          (i : ℕ)
          → i < length items
          → 0 < length (run items mapper (start items mapper concurrency) ws).workers
      crew i h = omega (arith, run-crew (start items mapper concurrency) ws, start-crew concurrency)
