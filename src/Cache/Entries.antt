-- ===== src/Cache/Entries.antt =====
-- About the notice that `updateCache` of src/modules/cache/cache.service.ts leaves under a number.
use mathlib.Core.Option
use law_cast_backend.Base.{
  ℕ, ◌≡◌, refl, sym, ap, ◌∙◌, List, [], ◌∷◌, ◌++◌, Option, none, some, false, ◌==◌, if◌then◌else◌,
  if_elim, keep, map, All, All-take, map-append, arith,
}
use law_cast_backend.Base.Filters.{Distinct, All-imp, All-both, others_differ}
use law_cast_backend.Cache.{
  CachedNotice, place, sort_notices, upgrade, add_notice, dedupe, merge_notices, sanitize_notice,
  max_size,
}
use law_cast_backend.Cache.Contents.{nums, all_merged, Descends-all_merged, upgrade_num}
use law_cast_backend.Cache.Summaries.{Descends-Distinct}

module _ {A : Type 0} where
  abbrev pub of_number : ℕ → List (CachedNotice A) → List (CachedNotice A)
  of_number k ns = keep (λ n. n.num == k) ns

  abbrev pub first : List (CachedNotice A) → Option (CachedNotice A)
  first [] = none
  first (n ∷ ns) = some n

  -- Notices of one number, the first with what each later one gives it.
  abbrev pub upgraded : Option (CachedNotice A) → CachedNotice A → Option (CachedNotice A)
  upgraded none n = some n
  upgraded (some m) n = some (upgrade m n)

  abbrev pub merged : Option (CachedNotice A) → List (CachedNotice A) → Option (CachedNotice A)
  merged o [] = o
  merged o (n ∷ ns) = merged (upgraded o n) ns

  first-add_notice :
      (k : ℕ) (ms : List (CachedNotice A)) (n : CachedNotice A)
      → first (of_number k (add_notice ms n))
        ≡ (if n.num == k then upgraded (first (of_number k ms)) n else first (of_number k ms))
  unfolding add_notice
  first-add_notice k [] n = ground arith
  first-add_notice k (m ∷ ms) n = ground (arith, first-add_notice k ms n, upgrade_num m n)

  first-dedupe :
      (k : ℕ) (seen ns : List (CachedNotice A))
      → first (of_number k (dedupe seen ns)) ≡ merged (first (of_number k seen)) (of_number k ns)
  unfolding dedupe
  first-dedupe k seen [] = refl
  first-dedupe k seen (n ∷ ns) =
      first-dedupe k (add_notice seen n) ns
      ∙ ap (λ o. merged o (of_number k ns)) (first-add_notice k seen n)
      ∙ if_elim
          (λ (b : Option (CachedNotice A)).
            merged b (of_number k ns) ≡ merged (first (of_number k seen)) (of_number k (n ∷ ns)))
          (n.num == k) _ _ (λ h. rw h refl) (λ h. rw h refl)

  -- The sort is stable.
  of_number-place :
      (k : ℕ) (n : CachedNotice A) (ms : List (CachedNotice A))
      → of_number k (place n ms) ≡ of_number k (n ∷ ms)
  unfolding place
  of_number-place k n [] = refl
  of_number-place k n (m ∷ ms) = ground (arith, of_number-place k n ms)

  of_number-sort_notices :
      (k : ℕ) (ns : List (CachedNotice A)) → of_number k (sort_notices ns) ≡ of_number k ns
  unfolding sort_notices
  of_number-sort_notices k [] = refl
  of_number-sort_notices k (n ∷ ns) =
      of_number-place k n (sort_notices ns) ∙ ground (arith, of_number-sort_notices k ns)

  of_number-append :
      (k : ℕ) (xs ys : List (CachedNotice A))
      → of_number k (xs ++ ys) ≡ of_number k xs ++ of_number k ys
  of_number-append k [] ys = refl
  of_number-append k (x ∷ xs) ys = ground (arith, of_number-append k xs ys)

  abbrev pub without_comments : CachedNotice A → CachedNotice A
  without_comments n = record {
    num = n.num;
    base = n.base;
    num_comments = none;
    ai_summary = n.ai_summary;
    ai_summary_status = n.ai_summary_status;
    proposal_reason = n.proposal_reason;
  }

  of_number-sanitized :
      (k : ℕ) (ns : List (CachedNotice A))
      → of_number k (map sanitize_notice ns) ≡ map without_comments (of_number k ns)
  unfolding sanitize_notice
  of_number-sanitized k [] = refl
  of_number-sanitized k (n ∷ ns) = ground (arith, of_number-sanitized k ns)

  -- What stands under a number in what came and what was there.
  abbrev pub entry : List (CachedNotice A) → ℕ → Option (CachedNotice A)
  entry ns k = merged none (map without_comments (of_number k ns))

  first-all_merged :
      (k : ℕ) (notices existing : List (CachedNotice A))
      → first (of_number k (all_merged notices existing)) ≡ entry (notices ++ existing) k
  first-all_merged k notices existing =
      let xs = sort_notices (map sanitize_notice notices) in
      let ys = map sanitize_notice existing in
      let came : of_number k xs ≡ map without_comments (of_number k notices) =
        of_number-sort_notices k (map sanitize_notice notices) ∙ of_number-sanitized k notices in
      let all : of_number k (xs ++ ys) ≡ map without_comments (of_number k (notices ++ existing)) =
        of_number-append k xs ys
        ∙ ap (λ zs. zs ++ of_number k ys) came
        ∙ ap (λ zs. map without_comments (of_number k notices) ++ zs)
            (of_number-sanitized k existing)
        ∙ sym (map-append without_comments (of_number k notices) (of_number k existing))
        ∙ ap (map without_comments) (sym (of_number-append k notices existing)) in
      ap first (of_number-sort_notices k (dedupe [] (xs ++ ys)))
      ∙ first-dedupe k [] (xs ++ ys)
      ∙ ap (merged none) all

  Distinct-found :
      (ns : List (CachedNotice A))
      → Distinct (λ n. n.num) ns
      → All (λ n. first (of_number n.num ns) ≡ some n) ns
  Distinct-found [] d = tt
  Distinct-found (n ∷ ns) d = (
    ground arith,
    All-both (λ m. (m.num == n.num) ≡ false) (λ m. first (of_number m.num ns) ≡ some m)
        (λ m. first (of_number m.num (n ∷ ns)) ≡ some m) ns (λ m other h. ground (arith, other, h))
        (others_differ (λ m. m.num) n.num ns d.0) (Distinct-found ns d.1),
  )

  pub map-found :
      (f : ℕ → Option (CachedNotice A)) (g : CachedNotice A → CachedNotice A)
      (ns : List (CachedNotice A))
      → All (λ n. f n.num ≡ some n) ns
      → map some (map g ns) ≡ map (λ k. Option.map g (f k)) (nums ns)
  map-found f g [] h = refl
  map-found f g (n ∷ ns) h = rw h.0 (ap (◌∷◌ (some (g n))) (map-found f g ns h.1))

  -- Every notice of a merge is the one that its number has.
  pub merge_notices-found :
      (notices existing : List (CachedNotice A))
      → All (λ n. entry (notices ++ existing) n.num ≡ some n) (merge_notices notices existing)
  unfolding merge_notices
  merge_notices-found notices existing = All-take _ max_size (all_merged notices existing) (
      All-imp _ _ (all_merged notices existing)
        (λ n h. sym (first-all_merged n.num notices existing) ∙ h)
        (Distinct-found (all_merged notices existing)
          (Descends-Distinct _ (Descends-all_merged notices existing))))
