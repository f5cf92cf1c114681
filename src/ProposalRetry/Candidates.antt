-- ===== src/ProposalRetry/Candidates.antt =====
-- About the candidates of `drainQueue` of
-- src/modules/crawling/utils/crawling-scheduler-proposal-retry.ts: whose reason came, and whose summary
-- was written.
use mathlib.Core.Path.{ap₂}
use law_cast_backend.Base.{
  ℕ, ◌≡◌, inl, inr, Bool-cases, Option-cases, List-cases, refl, sym, ap, ◌∙◌, List, [], ◌∷◌, some,
  Bool, true, false, not, ◌&&◌, ◌==◌, ==_iff, keep, map, All, arith,
}
use law_cast_backend.Base.Filters.{has, All-imp, keep_congr}
use law_cast_backend.Promises.{Result, ok, err, is_ok, Result-cases}
use law_cast_backend.Change.Text.{Text}
use law_cast_backend.Cache.{CachedNotice}
use law_cast_backend.ProposalRetry.{RetryItem}
use law_cast_backend.ProposalRetry.Drain.{
  Env, collect, remove_persisted, persisted, is_persisted, is_expired, is_wanted, with_summary,
  FetchError,
}

abbrev is_full : Text → Bool
is_full [] = false
is_full (c ∷ s) = true

abbrev text_of : Result FetchError Text → Text
text_of (ok s) = s
text_of (err e) = []

module _ {A : Type 0} (env : Env A) where
  abbrev pub reason_of : RetryItem A → Text
  reason_of i = text_of (env.fetch_reason i.notice.num i.bill_no)

  abbrev pub has_reason : RetryItem A → Bool
  has_reason i = is_full (reason_of i)

  abbrev pub IsFetched : RetryItem A → Type 0
  IsFetched i = is_ok (env.fetch_reason i.notice.num i.bill_no) ≡ true

  abbrev pub candidate : RetryItem A → RetryItem A × CachedNotice A
  candidate i = (i, with_summary env i.notice (reason_of i))

  pub collect_lem :
      (is : List (RetryItem A))
      → All IsFetched is
      → collect env is ≡ ok (map candidate (keep has_reason is))
  unfolding collect
  collect_lem [] h = refl
  collect_lem (i ∷ is) h = elim (Result-cases (env.fetch_reason i.notice.num i.bill_no)) [
    | inr failed ↦ let (e, k) = failed in absurd (ground (arith, h.0, ap is_ok k))
    | inl found ↦
        let (reason, k) = found in
        elim (List-cases reason) [
          | inl empty ↦ rw (k ∙ ap ok empty, collect_lem is h.1, collect) refl
          | inr full ↦
              let (c, cs, filled) = full in
              let e : reason_of i ≡ c ∷ cs = ap text_of (k ∙ ap ok filled) in
              rw (k ∙ ap ok filled, collect_lem is h.1, collect)
                (ap {B = Result FetchError (List (RetryItem A × CachedNotice A))}
                  (λ t. ok ((i, with_summary env i.notice t) ∷ map candidate (keep has_reason is)))
                  (sym e))
        ]
  ]

  -- The items of a number are written or not together.
  has-keep_num :
      (p : ℕ → Bool) (k : ℕ) (is : List (RetryItem A))
      → has k (map (λ i. i.notice.num) (keep (λ i. p i.notice.num) is))
        ≡ (has k (map (λ i. i.notice.num) is) && p k)
  has-keep_num p k [] = refl
  has-keep_num p k (i ∷ is) = elim (Bool-cases (k == i.notice.num)) [
    | inl e ↦ ground (arith, has-keep_num p k is, e, ap p ((==_iff k i.notice.num).0 e))
    | inr e ↦ ground (arith, has-keep_num p k is, e)
  ]

  -- What becomes of an item.
  abbrev pub is_evicted : RetryItem A → Bool
  is_evicted i = is_wanted env i && is_expired env i

  abbrev pub tried : RetryItem A → Bool
  tried i = is_wanted env i && not (is_expired env i) && has_reason i

  abbrev pub is_resolved : RetryItem A → Bool
  is_resolved i = tried i && is_persisted env i.notice.num

  abbrev pub is_kept : RetryItem A → Bool
  is_kept i = tried i && not (is_persisted env i.notice.num)

  with_summary_num : (n : CachedNotice A) (reason : Text) → (with_summary env n reason).num ≡ n.num
  unfolding with_summary
  with_summary_num n reason =
      elim (Option-cases (env.generate_summary (record n { proposal_reason = some reason }))) [
        | inl h ↦ rw (h, with_summary) refl
        | inr found ↦ let (r, h) = found in rw (h, with_summary) refl
      ]

  pub items_back : (xs : List (RetryItem A)) → map (λ c. c.0) (map candidate xs) ≡ xs
  items_back [] = refl
  items_back (x ∷ xs) = ap (◌∷◌ x) (items_back xs)

  nums_back :
      (xs : List (RetryItem A)) → map (λ c. c.1.num) (map candidate xs) ≡ map (λ i. i.notice.num) xs
  nums_back [] = refl
  nums_back (x ∷ xs) = ap₂ ◌∷◌ (with_summary_num x.notice (reason_of x)) (nums_back xs)

  pub resolved_nums :
      (xs : List (RetryItem A))
      → map (λ n. n.num) (map (λ c. c.1) (map candidate xs)) ≡ map (λ i. i.notice.num) xs
  resolved_nums [] = refl
  resolved_nums (x ∷ xs) = ap₂ ◌∷◌ (with_summary_num x.notice (reason_of x)) (resolved_nums xs)

  abbrev pub is_written : RetryItem A → Bool
  is_written i = is_persisted env i.notice.num

  pub persisted-map :
      (xs : List (RetryItem A))
      → persisted env (map candidate xs) ≡ map candidate (keep is_written xs)
  persisted-map [] = refl
  persisted-map (x ∷ xs) =
      ground
        (arith, persisted-map xs, ap (is_persisted env) (with_summary_num x.notice (reason_of x)))

  own_nums :
      (xs : List (RetryItem A)) → All (λ i. has i.notice.num (map (λ i. i.notice.num) xs) ≡ true) xs
  own_nums [] = tt
  own_nums (x ∷ xs) = (
    ground (arith, ==_iff x.notice.num x.notice.num),
    All-imp _ _ xs (λ i h. ground (arith, h)) (own_nums xs),
  )

  pub left_over :
      (xs : List (RetryItem A))
      → remove_persisted env (map candidate (keep is_written xs)) xs
        ≡ keep (λ i. not (is_written i)) xs
  unfolding remove_persisted
  left_over xs = keep_congr _ _ xs (
      All-imp _ _ xs
        (λ i h. ap not (
          ap (has i.notice.num) (nums_back (keep is_written xs))
          ∙ has-keep_num (is_persisted env) i.notice.num xs
          ∙ ap (λ b. b && is_written i) h))
        (own_nums xs))
