-- ===== src/Cache/Lifetime.antt =====
-- About the state of the service of src/modules/cache/cache.service.ts over its calls.
use law_cast_backend.Base.{
  ℕ, ◌≤◌, inl, inr, Option-cases, subst, ap, List, [], ◌∷◌, ◌++◌, Option, none, some, Bool, true,
  false, ◌||◌, if◌then◌else◌, if_elim, arith, length, length-map, length-take,
}
use law_cast_backend.Promises.{Result}
use law_cast_backend.Cache.{
  CachedNotice, CacheService, Faults, CacheError, update_cache, get_recent_notices, clear_cache,
  write_cache, merge_notices, existing_notices, max_size, sanitize_notice, load_snapshot,
}
use law_cast_backend.Cache.Order.{Descends, descending, Descends-descending, Descends-take}
use law_cast_backend.Cache.Contents.{nums, nums-merge_notices, nums-sanitize_notice}

-- The calls that change the state; `updates` has the time of the clock.
pub data Call (A : Type 0) : Type 0 where
  updates : Faults → List (CachedNotice A) → ℕ → Call A
  reads_recent : Bool → ℕ → Call A
  clears : Faults → Call A

module _ {A : Type 0} where
  unfoldable pub handle : CacheService A → Call A → CacheService A
  unfolding update_cache get_recent_notices clear_cache
  handle c (updates f notices now) = (update_cache f c notices now).0
  handle c (reads_recent fails limit) = (get_recent_notices fails c limit).0
  handle c (clears f) = (clear_cache f c).0

  unfoldable pub handle_all : CacheService A → List (Call A) → CacheService A
  unfolding handle
  handle_all c [] = c
  handle_all c (x ∷ xs) = handle_all (handle c x) xs

  abbrev pub empty_cache : CacheService A
  empty_cache = record {
    recent_notices_snapshot = none;
    recent_notices = none;
    last_updated = none;
  }

  -- Numbers in descending order, so each once, and at most as many as the cache holds.
  abbrev pub IsBounded : Option (List (CachedNotice A)) → Type 0
  IsBounded none = Unit
  IsBounded (some ns) = Descends (nums ns) × (length ns ≤ max_size)

  pub record IsValid (c : CacheService A) : Type 0 where
    pub snapshot : IsBounded c.recent_notices_snapshot
    pub stored : IsBounded c.recent_notices

  IsBounded-merge_notices :
      (notices existing : List (CachedNotice A)) → IsBounded (some (merge_notices notices existing))
  IsBounded-merge_notices notices existing = (
    rw (nums-merge_notices notices existing) (
        Descends-take max_size (descending (nums notices ++ nums existing))
          (Descends-descending (nums notices ++ nums existing))),
    omega (
      arith,
      ap length (nums-merge_notices notices existing),
      length-map (λ (n : CachedNotice A). n.num) (merge_notices notices existing),
      length-take max_size (descending (nums notices ++ nums existing)),
    ),
  )

  IsBounded-if :
      (b : Bool) (x y : Option (List (CachedNotice A)))
      → IsBounded x
      → IsBounded y
      → IsBounded (if b then x else y)
  IsBounded-if b x y h k = if_elim IsBounded b x y (λ _. h) (λ _. k)

  write-IsValid :
      (f : Faults) (c : CacheService A) (notices existing : List (CachedNotice A)) (now : ℕ)
      → IsValid c
      → IsValid (write_cache f c (merge_notices notices existing) now)
  unfolding write_cache
  write-IsValid f c notices existing now v = record {
    snapshot = v.snapshot;
    stored = IsBounded-if f.writes_notices _ _ v.stored (IsBounded-merge_notices notices existing);
  }

  update-IsValid :
      (f : Faults) (c : CacheService A) (notices : List (CachedNotice A)) (now : ℕ)
      → IsValid c
      → IsValid (update_cache f c notices now).0
  unfolding update_cache
  update-IsValid f c notices now v =
      elim (Option-cases (existing_notices f.reads c.recent_notices_snapshot c.recent_notices)) [
        | inl h ↦ rw (h, update_cache) v
        | inr found ↦
            let (ns, h) = found in
            let w = write-IsValid f c notices ns now v in
            rw (h, update_cache)
              (if_elim (λ (x : CacheService A × Result CacheError (Unit {0})). IsValid x.0)
                (f.writes_notices || f.writes_time) _ _ (λ _. w)
                (λ _. record { snapshot = IsBounded-merge_notices notices ns; stored = w.stored }))
      ]

  load_snapshot-IsBounded :
      (fails : Bool) (snapshot stored : Option (List (CachedNotice A)))
      → IsBounded snapshot
      → IsBounded stored
      → IsBounded (load_snapshot fails snapshot stored)
  unfolding load_snapshot
  load_snapshot-IsBounded fails (some ns) stored h k = h
  load_snapshot-IsBounded true none stored h k = tt
  load_snapshot-IsBounded false none none h k = (tt, omega arith)
  load_snapshot-IsBounded false none (some ns) h k =
      (rw (nums-sanitize_notice ns) k.0, omega (arith, length-map sanitize_notice ns, k.1))

  read-IsValid :
      (fails : Bool) (c : CacheService A) (limit : ℕ)
      → IsValid c
      → IsValid (get_recent_notices fails c limit).0
  unfolding get_recent_notices
  read-IsValid fails c limit v =
      let b =
        load_snapshot-IsBounded fails c.recent_notices_snapshot c.recent_notices v.snapshot
          v.stored in
      elim (Option-cases (load_snapshot fails c.recent_notices_snapshot c.recent_notices)) [
        | inl h ↦ rw (h, get_recent_notices) v
        | inr found ↦
            let (ns, h) = found in
            rw (h, get_recent_notices)
              (record { snapshot = subst IsBounded h b; stored = v.stored })
      ]

  clear-IsValid : (f : Faults) (c : CacheService A) → IsValid c → IsValid (clear_cache f c).0
  unfolding clear_cache
  clear-IsValid f c v =
      if_elim (λ (x : CacheService A × Result CacheError (Unit {0})). IsValid x.0)
        (f.writes_notices || f.writes_time || f.deletes_keywords) _ _
        (λ _. record {
          snapshot = v.snapshot;
          stored = IsBounded-if f.writes_notices _ _ v.stored tt;
        })
        (λ _. record { snapshot = tt; stored = IsBounded-if f.writes_notices _ _ v.stored tt })

  handle-IsValid : (c : CacheService A) (x : Call A) → IsValid c → IsValid (handle c x)
  unfolding handle
  handle-IsValid c (updates f notices now) v = update-IsValid f c notices now v
  handle-IsValid c (reads_recent fails limit) v = read-IsValid fails c limit v
  handle-IsValid c (clears f) v = clear-IsValid f c v

  handle_all-kept :
      (c : CacheService A) (xs : List (Call A)) → IsValid c → IsValid (handle_all c xs)
  unfolding handle_all
  handle_all-kept c [] v = v
  handle_all-kept c (x ∷ xs) v = handle_all-kept (handle c x) xs (handle-IsValid c x v)

  -- Whatever Redis answers, after every sequence of calls that starts from an empty cache the
  -- snapshot and what Redis holds have each number once, in descending order, and at most 5000.
  pub handle_all-IsBounded :
      (xs : List (Call A))
      → IsBounded (handle_all empty_cache xs).recent_notices_snapshot
        × IsBounded (handle_all empty_cache xs).recent_notices
  handle_all-IsBounded xs =
      let v = handle_all-kept empty_cache xs (record { snapshot = tt; stored = tt }) in
      (v.snapshot, v.stored)
