-- ===== src/Cache/Contents.antt =====
-- About `updateCache` of src/modules/cache/cache.service.ts: which notices it keeps, and which
-- summaries.
use law_cast_backend.Base.{
  ℕ, ◌<◌, ◌≡◌, refl, sym, ap, ◌∙◌, List, [], ◌∷◌, ◌++◌, false, ◌||◌, ltb, ◌==◌, if_elim, map, arith,
  take, map-append, map-take,
}
use law_cast_backend.Base.Filters.{has, has-append, Distinct}
use law_cast_backend.Cache.{
  CachedNotice, place, sort_notices, upgrade, add_notice, dedupe, merge_notices, sanitize_notice,
  max_size,
}
use law_cast_backend.Cache.Order.{
  IsBelow, Descends, descending, has-descending, Descends-descending, Descends-ext,
}

abbrev pub nums : {A : Type 0} → List (CachedNotice A) → List ℕ
nums ns = map (λ n. n.num) ns

module _ {A : Type 0} where
  has-place :
      (k : ℕ) (n : CachedNotice A) (ms : List (CachedNotice A))
      → has k (nums (place n ms)) ≡ (k == n.num || has k (nums ms))
  unfolding place
  has-place k n [] = refl
  has-place k n (m ∷ ms) = ground (arith, has-place k n ms)

  has-sort_notices :
      (k : ℕ) (ns : List (CachedNotice A)) → has k (nums (sort_notices ns)) ≡ has k (nums ns)
  unfolding sort_notices
  has-sort_notices k [] = refl
  has-sort_notices k (n ∷ ns) =
      has-place k n (sort_notices ns) ∙ ap (◌||◌ (k == n.num)) (has-sort_notices k ns)

  IsBelow-place :
      (m : ℕ) (n : CachedNotice A) (ms : List (CachedNotice A))
      → n.num < m
      → IsBelow m (nums ms)
      → IsBelow m (nums (place n ms))
  unfolding place
  IsBelow-place m n [] h b = h
  IsBelow-place m n (x ∷ ms) h b = ground (arith, h, b)

  Descends-place :
      (n : CachedNotice A) (ms : List (CachedNotice A))
      → has n.num (nums ms) ≡ false
      → Descends (nums ms)
      → Descends (nums (place n ms))
  unfolding place
  Descends-place n [] h d = (tt, tt)
  Descends-place n (m ∷ ms) h d =
      if_elim (λ (xs : List (CachedNotice A)). Descends (nums xs)) (ltb n.num m.num) _ _
        (λ k. (
          IsBelow-place m.num n ms (ground (arith, k)) d.0,
          Descends-place n ms (ground (arith, h)) d.1,
        ))
        (λ k. (ground (arith, h, k), d))

  Descends-sort_notices :
      (ns : List (CachedNotice A)) → Distinct (λ n. n.num) ns → Descends (nums (sort_notices ns))
  unfolding sort_notices
  Descends-sort_notices [] d = tt
  Descends-sort_notices (n ∷ ns) d =
      Descends-place n (sort_notices ns) (has-sort_notices n.num ns ∙ d.0)
        (Descends-sort_notices ns d.1)

  pub upgrade_num : (m n : CachedNotice A) → (upgrade m n).num ≡ m.num
  unfolding upgrade
  upgrade_num m n = ground arith

  has-add_notice :
      (k : ℕ) (ms : List (CachedNotice A)) (n : CachedNotice A)
      → has k (nums (add_notice ms n)) ≡ (k == n.num || has k (nums ms))
  unfolding add_notice
  has-add_notice k [] n = refl
  has-add_notice k (m ∷ ms) n = ground (arith, has-add_notice k ms n, upgrade_num m n)

  Distinct-add_notice :
      (ms : List (CachedNotice A)) (n : CachedNotice A)
      → Distinct (λ n. n.num) ms
      → Distinct (λ n. n.num) (add_notice ms n)
  unfolding add_notice
  Distinct-add_notice [] n d = (refl, tt)
  Distinct-add_notice (m ∷ ms) n d =
      ground (arith, Distinct-add_notice ms n d.1, has-add_notice m.num ms n, upgrade_num m n)

  has-dedupe :
      (k : ℕ) (seen ns : List (CachedNotice A))
      → has k (nums (dedupe seen ns)) ≡ (has k (nums ns) || has k (nums seen))
  unfolding dedupe
  has-dedupe k seen [] = refl
  has-dedupe k seen (n ∷ ns) =
      ground (arith, has-dedupe k (add_notice seen n) ns, has-add_notice k seen n)

  Distinct-dedupe :
      (seen ns : List (CachedNotice A))
      → Distinct (λ n. n.num) seen
      → Distinct (λ n. n.num) (dedupe seen ns)
  unfolding dedupe
  Distinct-dedupe seen [] d = d
  Distinct-dedupe seen (n ∷ ns) d =
      Distinct-dedupe (add_notice seen n) ns (Distinct-add_notice seen n d)

  pub nums-sanitize_notice : (ns : List (CachedNotice A)) → nums (map sanitize_notice ns) ≡ nums ns
  unfolding sanitize_notice
  nums-sanitize_notice [] = refl
  nums-sanitize_notice (n ∷ ns) = ap (◌∷◌ n.num) (nums-sanitize_notice ns)

  -- The merged notices before the cut.
  abbrev pub all_merged : List (CachedNotice A) → List (CachedNotice A) → List (CachedNotice A)
  all_merged notices existing =
      sort_notices
        (dedupe [] (sort_notices (map sanitize_notice notices) ++ map sanitize_notice existing))

  has-all_merged :
      (k : ℕ) (notices existing : List (CachedNotice A))
      → has k (nums (all_merged notices existing)) ≡ has k (nums notices ++ nums existing)
  has-all_merged k notices existing =
      let xs = sort_notices (map sanitize_notice notices) in
      let ys = map sanitize_notice existing in
      ground (
        arith,
        has-sort_notices k (dedupe [] (xs ++ ys)),
        has-dedupe k [] (xs ++ ys),
        ap (has k) (map-append (λ (n : CachedNotice A). n.num) xs ys),
        has-append k (nums xs) (nums ys),
        has-sort_notices k (map sanitize_notice notices),
        ap (has k) (nums-sanitize_notice notices),
        ap (has k) (nums-sanitize_notice existing),
        has-append k (nums notices) (nums existing),
      )

  pub Descends-all_merged :
      (notices existing : List (CachedNotice A)) → Descends (nums (all_merged notices existing))
  Descends-all_merged notices existing = Descends-sort_notices _ (Distinct-dedupe [] _ tt)

  -- The numbers in the cache after a merge are the greatest of those that came and those that were
  -- there, each once, in descending order, and at most as many as the cache holds.
  pub nums-merge_notices :
      (notices existing : List (CachedNotice A))
      → nums (merge_notices notices existing)
        ≡ take max_size (descending (nums notices ++ nums existing))
  unfolding merge_notices
  nums-merge_notices notices existing =
      map-take (λ (n : CachedNotice A). n.num) max_size (all_merged notices existing)
      ∙ ap (take max_size) (
          Descends-ext _ _ (Descends-all_merged notices existing)
            (Descends-descending (nums notices ++ nums existing))
            (λ k.
              has-all_merged k notices existing
              ∙ sym (has-descending k (nums notices ++ nums existing))))
