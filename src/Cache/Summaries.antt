-- ===== src/Cache/Summaries.antt =====
-- About the summaries that `updateCache` of src/modules/cache/cache.service.ts keeps.
use law_cast_backend.Base.{
  ℕ, ◌≡◌, refl, sym, ◌∙◌, List, [], ◌∷◌, ◌++◌, Option, none, some, Bool, true, false, not, ◌&&◌,
  ◌||◌, ltb, ◌==◌, if◌then◌else◌, if_elim, keep, map, All, All-take, All-append, arith,
}
use law_cast_backend.Base.Filters.{has, Distinct, has-keep_lem, All-imp}
use law_cast_backend.Change.Text.{Text}
use law_cast_backend.Cache.{
  CachedNotice, has_text, has_summary, is_ready, place, sort_notices, upgrade, add_notice, dedupe,
  merge_notices, sanitize_notice, max_size,
}
use law_cast_backend.Cache.Order.{Descends, has_head}
use law_cast_backend.Cache.Contents.{nums, all_merged, Descends-all_merged, upgrade_num}

-- A summary that is there and empty.
abbrev pub is_blank : Option Text → Bool
is_blank none = false
is_blank (some []) = true
is_blank (some (c ∷ s)) = false

abbrev kept_summary : Option Text → Option Text → Bool → Option Text
kept_summary a b r =
    if not (has_text a) && has_text b
    then b
    else if r
    then (elim b [ none ↦ a | some s ↦ some s ])
    else a

kept_summary_lem :
    (a b : Option Text) (r : Bool)
    → is_blank a ≡ false
    → is_blank b ≡ false
    → (has_text (kept_summary a b r) ≡ (has_text a || has_text b))
      × (is_blank (kept_summary a b r) ≡ false)
kept_summary_lem none none true h k = (refl, refl)
kept_summary_lem none none false h k = (refl, refl)
kept_summary_lem none (some []) r h k = absurd cc
kept_summary_lem none (some (c ∷ s)) r h k = (refl, refl)
kept_summary_lem (some []) b r h k = absurd cc
kept_summary_lem (some (c ∷ s)) none true h k = (refl, refl)
kept_summary_lem (some (c ∷ s)) none false h k = (refl, refl)
kept_summary_lem (some (c ∷ s)) (some []) r h k = absurd cc
kept_summary_lem (some (c ∷ s)) (some (d ∷ t)) true h k = (refl, refl)
kept_summary_lem (some (c ∷ s)) (some (d ∷ t)) false h k = (refl, refl)

module _ {A : Type 0} where
  -- Whether one of the notices of a number has a summary.
  abbrev pub is_summarized : ℕ → List (CachedNotice A) → Bool
  is_summarized k ns = has k (nums (keep has_summary ns))

  abbrev pub HasNoBlank : List (CachedNotice A) → Type 0
  HasNoBlank ns = All (λ n. is_blank n.ai_summary ≡ false) ns

  upgrade_summary :
      (m n : CachedNotice A)
      → is_blank m.ai_summary ≡ false
      → is_blank n.ai_summary ≡ false
      → (has_summary (upgrade m n) ≡ (has_summary m || has_summary n))
        × (is_blank (upgrade m n).ai_summary ≡ false)
  unfolding upgrade
  upgrade_summary m n h k =
      let r = not (is_ready m.ai_summary_status) && is_ready n.ai_summary_status in
      let kept : (upgrade m n).ai_summary ≡ kept_summary m.ai_summary n.ai_summary r =
        ground arith in
      rw kept (kept_summary_lem m.ai_summary n.ai_summary r h k)

  is_summarized-place :
      (k : ℕ) (n : CachedNotice A) (ms : List (CachedNotice A))
      → is_summarized k (place n ms) ≡ is_summarized k (n ∷ ms)
  unfolding place
  is_summarized-place k n [] = refl
  is_summarized-place k n (m ∷ ms) = ground (arith, is_summarized-place k n ms)

  HasNoBlank-place :
      (n : CachedNotice A) (ms : List (CachedNotice A))
      → HasNoBlank (n ∷ ms)
      → HasNoBlank (place n ms)
  unfolding place
  HasNoBlank-place n [] h = h
  HasNoBlank-place n (m ∷ ms) h =
      if_elim HasNoBlank (ltb n.num m.num) _ _ (λ k. (h.1.0, HasNoBlank-place n ms (h.0, h.1.1)))
        (λ k. h)

  is_summarized-sort_notices :
      (k : ℕ) (ns : List (CachedNotice A)) → is_summarized k (sort_notices ns) ≡ is_summarized k ns
  unfolding sort_notices
  is_summarized-sort_notices k [] = refl
  is_summarized-sort_notices k (n ∷ ns) =
      ground (arith, is_summarized-place k n (sort_notices ns), is_summarized-sort_notices k ns)

  HasNoBlank-sort_notices :
      (ns : List (CachedNotice A)) → HasNoBlank ns → HasNoBlank (sort_notices ns)
  unfolding sort_notices
  HasNoBlank-sort_notices [] h = tt
  HasNoBlank-sort_notices (n ∷ ns) h =
      HasNoBlank-place n (sort_notices ns) (h.0, HasNoBlank-sort_notices ns h.1)

  is_summarized-add_notice :
      (k : ℕ) (ms : List (CachedNotice A)) (n : CachedNotice A)
      → HasNoBlank ms
      → is_blank n.ai_summary ≡ false
      → (is_summarized k (add_notice ms n) ≡ is_summarized k (n ∷ ms))
        × HasNoBlank (add_notice ms n)
  unfolding add_notice
  is_summarized-add_notice k [] n h b = (refl, (b, tt))
  is_summarized-add_notice k (m ∷ ms) n h b =
      let (e, c) = upgrade_summary m n h.0 b in
      let (rest, blanks) = is_summarized-add_notice k ms n h.1 b in
      if_elim
        (λ (xs : List (CachedNotice A)).
          (is_summarized k xs ≡ is_summarized k (n ∷ m ∷ ms)) × HasNoBlank xs)
        (m.num == n.num) _ _ (λ q. (ground (arith, q, e, upgrade_num m n), (c, h.1)))
        (λ q. (ground (arith, rest), (h.0, blanks)))

  is_summarized-append :
      (k : ℕ) (xs ys : List (CachedNotice A))
      → is_summarized k (xs ++ ys) ≡ (is_summarized k xs || is_summarized k ys)
  is_summarized-append k [] ys = refl
  is_summarized-append k (x ∷ xs) ys = ground (arith, is_summarized-append k xs ys)

  is_summarized-dedupe :
      (k : ℕ) (seen ns : List (CachedNotice A))
      → HasNoBlank seen
      → HasNoBlank ns
      → is_summarized k (dedupe seen ns) ≡ (is_summarized k ns || is_summarized k seen)
  unfolding dedupe
  is_summarized-dedupe k seen [] h g = refl
  is_summarized-dedupe k seen (n ∷ ns) h g =
      let (e, h') = is_summarized-add_notice k seen n h g.0 in
      ground (arith, e, is_summarized-dedupe k (add_notice seen n) ns h' g.1)

  sanitized_summaries :
      (k : ℕ) (ns : List (CachedNotice A))
      → is_summarized k (map sanitize_notice ns) ≡ is_summarized k ns
  unfolding sanitize_notice
  sanitized_summaries k [] = refl
  sanitized_summaries k (n ∷ ns) = ground (arith, sanitized_summaries k ns)

  sanitized_blanks :
      (ns : List (CachedNotice A)) → HasNoBlank ns → HasNoBlank (map sanitize_notice ns)
  unfolding sanitize_notice
  sanitized_blanks [] h = tt
  sanitized_blanks (n ∷ ns) h = (h.0, sanitized_blanks ns h.1)

  pub Descends-Distinct :
      (ns : List (CachedNotice A)) → Descends (nums ns) → Distinct (λ n. n.num) ns
  Descends-Distinct [] d = tt
  Descends-Distinct (n ∷ ns) d = (has_head n.num (nums ns) d.0 d.1, Descends-Distinct ns d.1)

  -- When no summary is an empty text, a notice in the cache has a summary after a merge exactly when
  -- one of the notices of its number had one, among those that came and those that were there.
  pub merge_notices_summaries :
      (notices existing : List (CachedNotice A))
      → HasNoBlank notices
      → HasNoBlank existing
      → All
          (λ n. has_summary n ≡ (is_summarized n.num notices || is_summarized n.num existing))
          (merge_notices notices existing)
  unfolding merge_notices
  merge_notices_summaries notices existing h g =
      let xs = sort_notices (map sanitize_notice notices) in
      let ys = map sanitize_notice existing in
      All-take _ max_size (all_merged notices existing) (
        All-imp _ _ (all_merged notices existing)
          (λ n e.
            sym e
            ∙ ground (
              arith,
              is_summarized-sort_notices n.num (dedupe [] (xs ++ ys)),
              is_summarized-dedupe n.num [] (xs ++ ys) tt (
                  All-append _ xs ys (HasNoBlank-sort_notices _ (sanitized_blanks notices h))
                    (sanitized_blanks existing g)),
              is_summarized-append n.num xs ys,
              is_summarized-sort_notices n.num (map sanitize_notice notices),
              sanitized_summaries n.num notices,
              sanitized_summaries n.num existing,
            ))
          (has-keep_lem (λ n. n.num) has_summary (all_merged notices existing)
            (Descends-Distinct _ (Descends-all_merged notices existing))))
