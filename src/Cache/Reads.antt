-- ===== src/Cache/Reads.antt =====
-- About an update of src/modules/cache/cache.service.ts followed by its reads.
use mathlib.Core.Option
use law_cast_backend.Base.{
  ℕ, zero, suc, min, ◌≡◌, ◌⊎◌, inl, inr, List-cases, Bool-cases, refl, sym, subst, ap, ◌∙◌, List,
  [], ◌∷◌, ◌++◌, Option, none, some, Bool, true, false, not, ◌||◌, ◌==◌, if_elim, keep, map, arith,
  take, map-take, All-take,
}
use law_cast_backend.Base.Filters.{has, keep_congr, keep-All, All-always}
use law_cast_backend.Promises.{ok, err}
use law_cast_backend.Cache.{
  CachedNotice, CacheService, Faults, CacheError, update_cache, get_recent_notices, write_cache,
  merge_notices, max_size, sanitize_notice, cached_or_none, find_new_notices, known_nums, is_new,
  load_snapshot, normalize_notice_num, existing_notices,
}
use law_cast_backend.Cache.Order.{descending}
use law_cast_backend.Cache.Entries.{entry, without_comments, map-found, merge_notices-found}
use law_cast_backend.Cache.Contents.{nums, nums-merge_notices, nums-sanitize_notice}

zero_or : (n : ℕ) → (n ≡ 0) ⊎ ((k : ℕ) × (n ≡ suc k))
zero_or zero = inl refl
zero_or (suc n) = inr (n, refl)

module _ {A : Type 0} where
  -- What `updateCache` merges with: the snapshot, or else what Redis holds.
  abbrev pub known :
      Option (List (CachedNotice A)) → Option (List (CachedNotice A)) → List (CachedNotice A)
  known (some ns) stored = ns
  known none stored = cached_or_none stored

  existing_known :
      (fails : Bool) (snapshot stored : Option (List (CachedNotice A)))
      → ((existing_notices fails snapshot stored ≡ none) × (fails ≡ true))
        ⊎ (existing_notices fails snapshot stored ≡ some (known snapshot stored))
  unfolding existing_notices
  existing_known fails (some ns) stored = inr refl
  existing_known true none stored = inl (refl, refl)
  existing_known false none stored = inr refl

  -- The numbers that the cache is to hold after an update.
  abbrev pub nums_after : CacheService A → List (CachedNotice A) → List ℕ
  nums_after c notices =
      take max_size
        (descending (nums notices ++ nums (known c.recent_notices_snapshot c.recent_notices)))

  -- The numbers that `findNewNotices` takes as known are the positive ones.
  has-known_nums :
      (k : ℕ) (ns : List (CachedNotice A)) → has (suc k) (known_nums ns) ≡ has (suc k) (nums ns)
  unfolding known_nums normalize_notice_num
  has-known_nums k [] = refl
  has-known_nums k (n ∷ ns) = elim (zero_or n.num) [
    | inl h ↦ rw (h, known_nums) (ground (arith, has-known_nums k ns))
    | inr found ↦ let (j, h) = found in rw (h, known_nums) (ground (arith, has-known_nums k ns))
  ]

  is_new_lem :
      (ns : List (CachedNotice A)) (k : ℕ)
      → is_new (known_nums (map sanitize_notice ns)) k ≡ (k == 0 || not (has k (nums ns)))
  unfolding is_new normalize_notice_num
  is_new_lem ns zero = refl
  is_new_lem ns (suc k) =
      rw (has-known_nums k (map sanitize_notice ns)) (rw (nums-sanitize_notice ns) (ground arith))

  abbrev after_success : CacheService A → List (CachedNotice A) → ℕ → CacheService A
  after_success c notices now =
      let merged = merge_notices notices (known c.recent_notices_snapshot c.recent_notices) in
      record {
        recent_notices_snapshot = some merged;
        recent_notices = some merged;
        last_updated = some now;
      }

  succeeded :
      (f : Faults) (c : CacheService A) (notices : List (CachedNotice A)) (now : ℕ)
      → (update_cache f c notices now).1 ≡ ok tt
      → (update_cache f c notices now).0 ≡ after_success c notices now
  unfolding update_cache write_cache
  succeeded f c notices now h =
      elim (existing_known f.reads c.recent_notices_snapshot c.recent_notices) [
        | inl k ↦ absurd (ground (arith, h, k.0))
        | inr k ↦ ground (arith, h, k)
      ]

  -- An update that fails does so because Redis failed, leaves the snapshot as it was, and leaves
  -- in Redis either what was there or the whole merged list.
  pub update_cache_fails :
      (f : Faults) (c : CacheService A) (notices : List (CachedNotice A)) (now : ℕ) (e : CacheError)
      → (update_cache f c notices now).1 ≡ err e
      → let c' = (update_cache f c notices now).0 in
        ((f.reads || f.writes_notices || f.writes_time) ≡ true)
        × (c'.recent_notices_snapshot ≡ c.recent_notices_snapshot)
        × ((c'.recent_notices ≡ c.recent_notices)
            ⊎ (c'.recent_notices
                ≡ some (merge_notices notices (known c.recent_notices_snapshot c.recent_notices))))
  unfolding update_cache write_cache
  update_cache_fails f c notices now e h =
      let stored : Option (List (CachedNotice A)) =
        some (merge_notices notices (known c.recent_notices_snapshot c.recent_notices)) in
      elim (existing_known f.reads c.recent_notices_snapshot c.recent_notices) [
        | inl k ↦ rw (k.0, update_cache) (ground (arith, k.1), refl, inl refl)
        | inr k ↦ elim (Bool-cases (f.writes_notices || f.writes_time)) [
          | inl w ↦
              rw (k, update_cache, w)
                (
                  ground (arith, w),
                  refl,
                  if_elim
                      (λ (x : Option (List (CachedNotice A))).
                        (x ≡ c.recent_notices) ⊎ (x ≡ stored))
                      f.writes_notices c.recent_notices stored (λ _. inl refl) (λ _. inr refl),
                )
          | inr w ↦ absurd (ground (arith, h, k, w))
        ]
      ]

  module _ {B : Type 0} (num : B → ℕ) where
    find_new_notices_lem :
        (c : CacheService A) (crawled : List B)
        → find_new_notices num false c crawled
          ≡ ok (
              keep
                (λ item.
                  num item == 0 || not (has (num item) (nums (cached_or_none c.recent_notices))))
                crawled)
    unfolding find_new_notices
    find_new_notices_lem c crawled = elim (List-cases (cached_or_none c.recent_notices)) [
      | inl h ↦
          rw h (ap ok (sym (keep-All _ crawled (All-always _ crawled (λ item. ground arith)))))
      | inr found ↦
          let (n, ns, h) = found in
          rw h (
            ap ok (
              keep_congr _ _ crawled
                (All-always _ crawled (λ item. is_new_lem (n ∷ ns) (num item)))))
    ]

    -- After an update that succeeds, and whether Redis answers the reads or not: a read of recent
    -- notices gives, for the first of the greatest numbers that came or were there, the notice of
    -- each number whole, without its count of comments: the first of the notices of that number,
    -- those that came before those that were there, with the summaries that the later ones give it.
    -- And of crawled notices those are new that have no positive number or one that is not among the
    -- kept.
    pub update_then_read :
        (f : Faults) (c : CacheService A) (notices : List (CachedNotice A)) (now : ℕ)
        → (update_cache f c notices now).1 ≡ ok tt
        → (fails : Bool) (limit : ℕ) (crawled : List B)
        → let c' = (update_cache f c notices now).0 in
          let read = (get_recent_notices fails c' limit).1 in
          let all = notices ++ known c.recent_notices_snapshot c.recent_notices in
          let numbers = take (min limit max_size) (nums_after c notices) in
          (nums read ≡ numbers)
          × (map some read ≡ map (λ k. Option.map without_comments (entry all k)) numbers)
          × (find_new_notices num false c' crawled
              ≡ ok (
                  keep
                    (λ item. num item == 0 || not (has (num item) (nums_after c notices)))
                    crawled))
    unfolding update_cache write_cache get_recent_notices load_snapshot sanitize_notice
    update_then_read f c notices now success fails limit crawled =
        let existing = known c.recent_notices_snapshot c.recent_notices in
        let merged = merge_notices notices existing in
        let now_cached = after_success c notices now in
        let same = nums-merge_notices notices existing in
        let numbers =
          map-take (λ (n : CachedNotice A). n.num) (min limit max_size) merged
          ∙ ap (take (min limit max_size)) same in
        rw (succeeded f c notices now success) (
          nums-sanitize_notice (take (min limit max_size) merged) ∙ numbers,
          map-found (entry (notices ++ existing)) without_comments
                (take (min limit max_size) merged)
                (All-take _ (min limit max_size) merged (merge_notices-found notices existing))
              ∙ ap (map (λ k. Option.map without_comments (entry (notices ++ existing) k))) numbers,
          subst
              (λ ks.
                find_new_notices num false now_cached crawled
                ≡ ok (keep (λ item. num item == 0 || not (has (num item) ks)) crawled))
              same (find_new_notices_lem now_cached crawled),
        )
