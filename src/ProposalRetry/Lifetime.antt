-- ===== src/ProposalRetry/Lifetime.antt =====
-- About sequences of calls of src/modules/crawling/utils/crawling-scheduler-proposal-retry.ts.
use law_cast_backend.Base.{
  ℕ, ◌≡◌, inl, inr, List-cases, refl, sym, ap, List, [], ◌∷◌, Option, none, Bool, not, if_elim,
  keep, map, arith, length-map, subst,
}
use law_cast_backend.Promises.{Result, ok, err, Result-cases}
use law_cast_backend.Change.Text.{Text}
use law_cast_backend.Cache.{CachedNotice}
use law_cast_backend.ProposalRetry.{RetryItem, RetryState, Iso, get_queue, enqueue, without_summary}
use law_cast_backend.ProposalRetry.Bounds.{
  Shrinks, Shrinks-refl, Shrinks-trans, Shrinks-skip, Shrinks-same, keep-Shrinks, item_nums,
  IsBounded, Fits, get-Fits, set-IsBounded, same_nums_Fits, enqueue-IsBounded,
}
use law_cast_backend.ProposalRetry.Drain.{
  Env, collect, prune, normalize_queue_bill_nos, remove_persisted, persisted, save_queue,
  drain_queue, is_expired, notify, reversed, FetchError,
}

-- The calls; the flags of `enqueues` and `drains` say whether the read and the write of Redis fail.
pub data Call (A : Type 0) : Type 1 where
  enqueues : Bool → Bool → CachedNotice A → Option Text → ℕ → Call A
  drains : Env A → Bool → Bool → Call A

module _ {A : Type 0} (iso : Iso) where
  unfoldable pub handle : RetryState A → Call A → RetryState A
  unfolding enqueue drain_queue
  handle s (enqueues read_fails write_fails n bill now) =
      enqueue iso read_fails write_fails s n bill now
  handle s (drains env read_fails write_fails) =
      (drain_queue env iso read_fails write_fails s).state

  unfoldable pub handle_all : RetryState A → List (Call A) → RetryState A
  unfolding handle
  handle_all s [] = s
  handle_all s (c ∷ cs) = handle_all (handle s c) cs

abbrev pub no_items : {A : Type 0} → RetryState A
no_items = record { stored = none; sent = [] }

-- The items of the candidates.
abbrev pub items_of : {A : Type 0} → List (RetryItem A × CachedNotice A) → List (RetryItem A)
items_of candidates = map (λ c. c.0) candidates

module _ {A : Type 0} (env : Env A) where
  -- What a collection leaves of the items.
  abbrev Collected :
      List (RetryItem A) → Result FetchError (List (RetryItem A × CachedNotice A)) → Type 0
  Collected is (ok cs) = Shrinks (item_nums (items_of cs)) (item_nums is)
  Collected is (err e) = Unit

  collect-Collected : (is : List (RetryItem A)) → Collected is (collect env is)
  unfolding collect
  collect-Collected [] = Shrinks-refl []
  collect-Collected (i ∷ is) = elim (Result-cases (env.fetch_reason i.notice.num i.bill_no)) [
    | inr failed ↦ let (e, h) = failed in rw (h, collect) tt
    | inl found ↦
        let (reason, h) = found in
        elim (Result-cases (collect env is)) [
          | inr failed ↦ let (e, k) = failed in rw (h, k, collect) tt
          | inl more ↦
              let (rest, k) = more in
              let ih : Collected is (ok rest) = subst (Collected is) k (collect-Collected is) in
              elim (List-cases reason) [
                | inl empty ↦ rw (h, k, empty, collect) (Shrinks-skip i.notice.num _ _ ih)
                | inr full ↦
                    let (c, cs, filled) = full in
                    rw (h, k, filled, collect) (Shrinks-same i.notice.num _ _ ih)
              ]
        ]
  ]

  normalized_nums :
      (queue : List (RetryItem A))
      → item_nums (normalize_queue_bill_nos env queue) ≡ item_nums queue
  unfolding normalize_queue_bill_nos
  normalized_nums [] = refl
  normalized_nums (i ∷ is) = ap (◌∷◌ i.notice.num) (normalized_nums is)

  notify_stored :
      (ns : List (CachedNotice A)) (s : RetryState A) → (notify env ns s).stored ≡ s.stored
  notify_stored [] s = refl
  notify_stored (n ∷ ns) s = refl

  save-IsBounded :
      (iso : Iso) (read_fails write_fails : Bool) (s : RetryState A)
      (before after : List (RetryItem A))
      → IsBounded s.stored
      → Fits after
      → IsBounded (save_queue env iso read_fails write_fails s before after).stored
  unfolding save_queue
  save-IsBounded iso read_fails write_fails s before after b f =
      if_elim (λ (x : RetryState A). IsBounded x.stored) _ _ _
        (λ _. set-IsBounded iso write_fails s after b f) (λ _. b)

  shrunk_Fits :
      (xs ys : List (RetryItem A)) → Shrinks (item_nums xs) (item_nums ys) → Fits ys → Fits xs
  shrunk_Fits xs ys h f = (
    omega (
      arith,
      f.0,
      h.shorter,
      length-map (λ (i : RetryItem A). i.notice.num) xs,
      length-map (λ (i : RetryItem A). i.notice.num) ys,
    ),
    h.separate f.1,
  )

  drain-IsBounded :
      (iso : Iso) (read_fails write_fails : Bool) (s : RetryState A)
      → IsBounded s.stored
      → IsBounded (drain_queue env iso read_fails write_fails s).state.stored
  unfolding drain_queue prune remove_persisted
  drain-IsBounded iso read_fails write_fails s b =
      let queue = get_queue iso read_fails s in
      let items = normalize_queue_bill_nos env queue in
      let eligible = keep (λ (i : RetryItem A). env.is_eligible i.notice.num) items in
      let wanted = prune env items in
      let fresh = keep (λ i. not (is_expired env i)) wanted in
      let pruned : Shrinks (item_nums fresh) (item_nums items) =
        Shrinks-trans _ _ _ (keep-Shrinks _ wanted)
          (Shrinks-trans _ _ _ (keep-Shrinks _ eligible) (keep-Shrinks _ items)) in
      let fits = same_nums_Fits items queue (normalized_nums queue) (get-Fits iso read_fails s b) in
      let sent = map (λ i. without_summary i.notice) (reversed (keep (is_expired env) wanted)) in
      let b' = subst IsBounded (sym (notify_stored sent s)) b in
      elim (Result-cases (collect env fresh)) [
        | inr failed ↦ let (e, h) = failed in rw (h, drain_queue) b'
        | inl found ↦
            let (cs, h) = found in
            let ih : Collected fresh (ok cs) =
              subst (Collected fresh) h (collect-Collected fresh) in
            let left = remove_persisted env (persisted env cs) (items_of cs) in
            let few =
              Shrinks-trans _ _ _ (keep-Shrinks _ (items_of cs)) (Shrinks-trans _ _ _ ih pruned) in
            rw (h, drain_queue)
              (subst IsBounded (sym (notify_stored (map (λ c. c.1) (persisted env cs)) _)) (
                save-IsBounded iso read_fails write_fails (notify env sent s) queue left b'
                  (shrunk_Fits left items few fits)))
      ]

module _ {A : Type 0} (iso : Iso) where
  handle_all-kept :
      (s : RetryState A) (cs : List (Call A))
      → IsBounded s.stored
      → IsBounded (handle_all iso s cs).stored
  unfolding handle_all handle
  handle_all-kept s [] b = b
  handle_all-kept s (enqueues r w n bill now ∷ cs) b =
      handle_all-kept (enqueue iso r w s n bill now) cs (enqueue-IsBounded iso r w s n bill now b)
  handle_all-kept s (drains env r w ∷ cs) b =
      handle_all-kept (drain_queue env iso r w s).state cs (drain-IsBounded env iso r w s b)

  -- Whatever Redis, the archive and the crawler answer, after every sequence of calls of the queue
  -- that starts from no items, each of them run to its end, Redis holds at most 5000 records, and
  -- no two of the same notice.
  pub handle_all-IsSmall : (cs : List (Call A)) → IsBounded (handle_all iso no_items cs).stored
  handle_all-IsSmall cs = handle_all-kept no_items cs tt
