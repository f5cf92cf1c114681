-- ===== src/ProposalRetry/OnePass.antt =====
-- About `drainQueue` of
-- src/modules/crawling/utils/crawling-scheduler-proposal-retry.ts: what becomes of each item.
use mathlib.Core.Path.{ap₂}
use law_cast_backend.Base.{
  ◌+◌, ◌≡◌, refl, sym, ap, ◌∙◌, List, [], ◌∷◌, ◌++◌, Bool, true, false, not, ◌&&◌, if◌then◌else◌,
  if_elim, keep, map, All, arith, length, subst,
}
use law_cast_backend.Base.Filters.{All-always, keep_congr, keep-keep_and}
use law_cast_backend.Cache.{CachedNotice}
use law_cast_backend.ProposalRetry.{
  RetryItem, RetryState, Iso, get_queue, set_queue, without_summary,
}
use law_cast_backend.ProposalRetry.Drain.{
  Env, prune, normalize_queue_bill_nos, remove_persisted, persisted, save_queue, drain_queue,
  is_expired, is_wanted, notify, reversed,
}
use law_cast_backend.ProposalRetry.Candidates.{
  has_reason, IsFetched, candidate, collect_lem, is_evicted, tried, is_resolved, is_kept,
  persisted-map, items_back, left_over, resolved_nums, is_written,
}

module _ {A : Type 0} (env : Env A) where
  abbrev unexpired : List (RetryItem A) → List (RetryItem A)
  unexpired items = keep (λ i. not (is_expired env i)) (prune env items)

  prune_lem : (items : List (RetryItem A)) → prune env items ≡ keep (is_wanted env) items
  unfolding prune
  prune_lem items =
      keep-keep_and _ _ items
      ∙ keep_congr (λ i. not (env.is_source_deleted i.notice.num) && env.is_eligible i.notice.num)
          (is_wanted env) items (All-always _ items (λ i. ground arith))

  keep_after :
      (p q r : RetryItem A → Bool) (xs ys : List (RetryItem A))
      → ys ≡ keep q xs
      → ((i : RetryItem A) → (p i && q i) ≡ r i)
      → keep p ys ≡ keep r xs
  keep_after p q r xs ys e h =
      ap (keep p) e ∙ keep-keep_and p q xs ∙ keep_congr _ _ xs (All-always _ xs h)

  unexpired_lem :
      (items : List (RetryItem A))
      → unexpired items ≡ keep (λ i. is_wanted env i && not (is_expired env i)) items
  unexpired_lem items =
      keep_after _ _ _ items (prune env items) (prune_lem items) (λ i. ground arith)

  tried_lem :
      (items : List (RetryItem A))
      → keep (has_reason env) (unexpired items) ≡ keep (tried env) items
  tried_lem items =
      keep_after _ _ _ items (unexpired items) (unexpired_lem items) (λ i. ground arith)

  notify_stored_same :
      (ns : List (CachedNotice A)) (s : RetryState A) → (notify env ns s).stored ≡ s.stored
  notify_stored_same [] s = refl
  notify_stored_same (n ∷ ns) s = refl

  if_stored :
      (b : Bool) (x y x' y' : RetryState A)
      → x.stored ≡ x'.stored
      → y.stored ≡ y'.stored
      → (if b then x else y).stored ≡ (if b then x' else y').stored
  if_stored true x y x' y' h k = h
  if_stored false x y x' y' h k = k

  set_stored :
      (iso : Iso) (fails : Bool) (s t : RetryState A) (queue : List (RetryItem A))
      → s.stored ≡ t.stored
      → ((set_queue iso fails s queue).stored ≡ (set_queue iso fails t queue).stored)
        × ((set_queue iso fails s queue).sent ≡ s.sent)
  unfolding set_queue
  set_stored iso true s t queue h = (h, refl)
  set_stored iso false s t [] h = (refl, refl)
  set_stored iso false s t (i ∷ is) h = (refl, refl)

  -- A save after some sends.
  save_notified :
      (iso : Iso) (read_fails write_fails : Bool) (ns : List (CachedNotice A)) (s : RetryState A)
      (before after : List (RetryItem A))
      → ((save_queue env iso read_fails write_fails (notify env ns s) before after).stored
          ≡ (save_queue env iso read_fails write_fails s before after).stored)
        × ((save_queue env iso read_fails write_fails (notify env ns s) before after).sent
            ≡ (notify env ns s).sent)
  unfolding save_queue
  save_notified iso read_fails write_fails ns s before after =
      let (e, f) = set_stored iso write_fails (notify env ns s) s after (notify_stored_same ns s) in
      (
        if_stored _ _ _ _ _ e (notify_stored_same ns s),
        if_elim (λ (x : RetryState A). x.sent ≡ (notify env ns s).sent) _ _ _ (λ _. f) (λ _. refl),
      )

  notify_sent :
      (ns : List (CachedNotice A)) (s t : RetryState A)
      → s.sent ≡ t.sent
      → (notify env ns s).sent ≡ (notify env ns t).sent
  notify_sent [] s t h = h
  notify_sent (n ∷ ns) s t h = ap (λ x. x ++ (n ∷ ns) ∷ []) h

  abbrev pub is_dropped : RetryItem A → Bool
  is_dropped i = is_wanted env i && not (is_expired env i) && not ((has_reason env) i)

  fates :
      (items : List (RetryItem A))
      → length (keep (λ i. not (is_wanted env i)) items)
          + length (keep (is_evicted env) items)
          + length (keep is_dropped items)
          + length (keep (is_resolved env) items)
          + length (keep (is_kept env) items)
        ≡ length items
  fates [] = refl
  fates (i ∷ is) = ground (arith, fates is)

  kept_lem :
      (items : List (RetryItem A))
      → let cs = map (candidate env) (keep (has_reason env) (unexpired items)) in
        remove_persisted env (persisted env cs) (map (λ c. c.0) cs) ≡ keep (is_kept env) items
  kept_lem items =
      let tri = keep (has_reason env) (unexpired items) in
      ap₂ (remove_persisted env) ((persisted-map env) tri) ((items_back env) tri)
      ∙ (left_over env) tri
      ∙ keep_after _ _ _ items tri (tried_lem items) (λ i. ground arith)

  resolved_lem :
      (items : List (RetryItem A))
      → let cs = map (candidate env) (keep (has_reason env) (unexpired items)) in
        map (λ n. n.num) (map (λ c. c.1) (persisted env cs))
        ≡ map (λ i. i.notice.num) (keep (is_resolved env) items)
  resolved_lem items =
      let tri = keep (has_reason env) (unexpired items) in
      ap
        (λ cs.
          map (λ (n : CachedNotice A). n.num) (map (λ (c : RetryItem A × CachedNotice A). c.1) cs))
        ((persisted-map env) tri)
      ∙ (resolved_nums env) (keep (is_written env) tri)
      ∙ ap (map (λ (i : RetryItem A). i.notice.num))
          (keep_after _ _ _ items tri (tried_lem items) (λ i. ground arith))

  -- When no fetch of a reason throws, a drain is one pass over the queue. An item that the archive
  -- does not want is pruned, an expired one is evicted with a fallback notification, one without a
  -- reason is dropped, one whose summary was written is resolved and notified, and any other is
  -- kept; each item has one of these fates, and what is saved are the kept ones in their order.
  pub drain_queue_lem :
      (iso : Iso) (read_fails write_fails : Bool) (s : RetryState A)
      → let queue = get_queue iso read_fails s in
        let items = normalize_queue_bill_nos env queue in
        let d = drain_queue env iso read_fails write_fails s in
        All (IsFetched env) (keep (λ i. is_wanted env i && not (is_expired env i)) items)
        → (d.state.stored
            ≡ (save_queue env iso read_fails write_fails s queue (keep (is_kept env) items)).stored)
          × (map (λ n. n.num) d.resolved ≡ map (λ i. i.notice.num) (keep (is_resolved env) items))
          × (d.state.sent
              ≡ (notify env d.resolved (
                  notify env
                    (map (λ i. without_summary i.notice) (reversed (keep (is_evicted env) items)))
                    s)).sent)
          × (length (keep (λ i. not (is_wanted env i)) items)
                + length (keep (is_evicted env) items)
                + length (keep is_dropped items)
                + length (keep (is_resolved env) items)
                + length (keep (is_kept env) items)
              ≡ length items)
  unfolding drain_queue
  drain_queue_lem iso read_fails write_fails s h =
      let queue = get_queue iso read_fails s in
      let items = normalize_queue_bill_nos env queue in
      let fresh = unexpired items in
      let tri = keep (has_reason env) fresh in
      let c = (collect_lem env) fresh (subst (All (IsFetched env)) (sym (unexpired_lem items)) h) in
      let ended = λ (i : RetryItem A). without_summary i.notice in
      let evicted = map ended (reversed (keep (is_expired env) (prune env items))) in
      let left =
        remove_persisted env (persisted env (map (candidate env) tri))
          (map (λ (x : RetryItem A × CachedNotice A). x.0) (map (candidate env) tri)) in
      let resolved =
        map (λ (x : RetryItem A × CachedNotice A). x.1) (persisted env (map (candidate env) tri)) in
      let saved = save_notified iso read_fails write_fails evicted s queue left in
      rw (c, drain_queue)
        (
          notify_stored_same resolved _
              ∙ saved.0
              ∙ ap (λ l. (save_queue env iso read_fails write_fails s queue l).stored)
                  (kept_lem items),
          resolved_lem items,
          notify_sent resolved _ _ (
              saved.1
              ∙ ap (λ x. (notify env (map ended (reversed x)) s).sent)
                  (keep_after _ _ _ items (prune env items) (prune_lem items) (λ i. ground arith))),
          fates items,
        )
