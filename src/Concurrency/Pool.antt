-- ===== src/Concurrency/Pool.antt =====
-- `mapConcurrently` of src/utils/concurrency.utils.ts.
pub mod Results
pub mod Progress
use law_cast_backend.Base.{
  ℕ, suc, ◌+◌, max, min, List, [], ◌∷◌, Option, none, some, Bool, leb, if◌then◌else◌, length,
  get_elem?, set, replicate,
}
use law_cast_backend.Promises.{Result, ok, err}

-- Where a worker stands: before `nextIndex++`, awaiting the mapper, returned, or rejected.
pub data Worker (E : Type 0) : Type 0 where
  ready : Worker E
  busy : ℕ → Worker E
  done : Worker E
  failed : E → Worker E

pub record Pool (E R : Type 0) : Type 0 where
  pub next_index : ℕ
  pub results : List (Option R)
  pub workers : List (Worker E)

module _ {E T R : Type 0} (items : List T) (mapper : T → ℕ → Result E R) where
  -- `new Array(items.length)` and `min(max(1, concurrency), items.length)` workers.
  unfoldable pub start : ℕ → Pool E R
  start concurrency = record {
    next_index = 0;
    results = replicate (length items) none;
    workers = replicate (min (max 1 concurrency) (length items)) ready;
  }

  -- What the mapper gives for the item at an index.
  abbrev pub mapped : ℕ → Option (Result E R)
  mapped i = elim (get_elem? items i) [ none ↦ none | some x ↦ some (mapper x i) ]

  -- `idx = nextIndex++; if (idx >= items.length) return;` and the call of the mapper.
  fetch : Pool E R → ℕ → Pool E R
  fetch p w = record p {
    next_index = suc p.next_index;
    workers = set p.workers w (if leb (length items) p.next_index then done else busy p.next_index);
  }

  -- `results[idx] = await …`: the mapper has settled.
  settle : Pool E R → ℕ → ℕ → Pool E R
  settle p w idx = elim (mapped idx) [
    | none ↦ p
    | some r ↦ elim r [
      | ok v ↦ record p { results = set p.results idx (some v); workers = set p.workers w ready }
      | err e ↦ record p { workers = set p.workers w (failed e) }
    ]
  ]

  -- The event loop resumes worker `w`.
  unfoldable pub step : Pool E R → ℕ → Pool E R
  unfolding fetch settle
  step p w = elim (get_elem? p.workers w) [
    | none ↦ p
    | some s ↦ elim s [ ready ↦ fetch p w | busy idx ↦ settle p w idx | done ↦ p | failed e ↦ p ]
  ]

  unfoldable pub run : Pool E R → List ℕ → Pool E R
  run p [] = p
  run p (w ∷ ws) = run (step p w) ws
