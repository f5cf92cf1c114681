-- ===== src/ProposalRetry/Bounds.antt =====
-- About the length of the queue of
-- src/modules/crawling/utils/crawling-scheduler-proposal-retry.ts and the notices in it.
use law_cast_backend.Base.{
  ℕ, ◌<◌, ◌≤◌, ◌≡◌, inl, inr, Option-cases, refl, sym, ap, ◌∙◌, List, [], ◌∷◌, ◌++◌, Option, none,
  some, Bool, true, false, ==_iff, leb, if_elim, keep, map, arith, length, length-map,
  length-append, subst, map-append,
}
use law_cast_backend.Base.Filters.{has, has-append}
use law_cast_backend.Change.Text.{Text}
use law_cast_backend.Cache.{CachedNotice}
use law_cast_backend.ProposalRetry.{
  RetryItem, RetryQueueRecord, RetryState, Iso, to_queue_record, from_queue_record, restore,
  get_queue, set_queue, refresh_bill_no, enqueue, max_queue_size, is_queued, same_bill_no,
  requested_bill_no,
}

abbrev pub Separate : List ℕ → Type 0
Separate [] = Unit
Separate (k ∷ ks) = (has k ks ≡ false) × Separate ks

-- What taking out numbers does to a list of them.
pub record Shrinks (xs ys : List ℕ) : Type 0 where
  pub shorter : length xs ≤ length ys
  pub within : (k : ℕ) → has k xs ≡ true → has k ys ≡ true
  pub separate : Separate ys → Separate xs

pub Shrinks-refl : (xs : List ℕ) → Shrinks xs xs
Shrinks-refl xs = record { shorter = omega arith; within = λ k h. h; separate = λ d. d }

pub Shrinks-trans : (xs ys zs : List ℕ) → Shrinks xs ys → Shrinks ys zs → Shrinks xs zs
Shrinks-trans xs ys zs h g = record {
  shorter = omega (arith, h.shorter, g.shorter);
  within = λ k m. g.within k (h.within k m);
  separate = λ d. h.separate (g.separate d);
}

pub Shrinks-skip : (y : ℕ) (xs ys : List ℕ) → Shrinks xs ys → Shrinks xs (y ∷ ys)
Shrinks-skip y xs ys h = record {
  shorter = omega (arith, h.shorter);
  within = λ k m. ground (arith, h.within k m);
  separate = λ d. h.separate d.1;
}

pub Shrinks-same : (x : ℕ) (xs ys : List ℕ) → Shrinks xs ys → Shrinks (x ∷ xs) (x ∷ ys)
Shrinks-same x xs ys h = record {
  shorter = omega (arith, h.shorter);
  within = λ k m. ground (arith, m, h.within k);
  separate = λ d. (ground (arith, d.0, h.within x), h.separate d.1);
}

Separate-snoc : (xs : List ℕ) (n : ℕ) → has n xs ≡ false → Separate xs → Separate (xs ++ n ∷ [])
Separate-snoc [] n h d = (refl, tt)
Separate-snoc (x ∷ xs) n h d = (
  has-append x xs (n ∷ []) ∙ ground (arith, d.0, h, ==_iff x n, ==_iff n x),
  Separate-snoc xs n (ground (arith, h)) d.1,
)

module _ {A : Type 0} where
  abbrev pub item_nums : List (RetryItem A) → List ℕ
  item_nums queue = map (λ i. i.notice.num) queue

  abbrev pub record_nums : List (RetryQueueRecord A) → List ℕ
  record_nums rows = map (λ r. r.notice.num) rows

  pub keep-Shrinks :
      (p : RetryItem A → Bool) (queue : List (RetryItem A))
      → Shrinks (item_nums (keep p queue)) (item_nums queue)
  keep-Shrinks p [] = Shrinks-refl []
  keep-Shrinks p (i ∷ is) =
      if_elim (λ (xs : List (RetryItem A)). Shrinks (item_nums xs) (item_nums (i ∷ is))) (p i) _ _
        (λ h. Shrinks-same i.notice.num _ _ (keep-Shrinks p is))
        (λ h. Shrinks-skip i.notice.num _ _ (keep-Shrinks p is))

  restore-Shrinks :
      (iso : Iso) (rows : List (RetryQueueRecord A))
      → Shrinks (item_nums (restore iso rows)) (record_nums rows)
  unfolding restore from_queue_record
  restore-Shrinks iso [] = Shrinks-refl []
  restore-Shrinks iso (r ∷ rows) = elim (Option-cases (iso.parse_date r.queued_at_iso)) [
    | inl h ↦
        rw (h, from_queue_record, restore)
          (Shrinks-skip r.notice.num _ _ (restore-Shrinks iso rows))
    | inr found ↦
        let (t, h) = found in
        rw (h, from_queue_record, restore)
          (Shrinks-same r.notice.num _ _ (restore-Shrinks iso rows))
  ]

  records_nums :
      (iso : Iso) (queue : List (RetryItem A))
      → record_nums (map (to_queue_record iso) queue) ≡ item_nums queue
  unfolding to_queue_record
  records_nums iso [] = refl
  records_nums iso (i ∷ is) = ap (◌∷◌ i.notice.num) (records_nums iso is)

  refresh_nums :
      (iso : Iso) (num : ℕ) (bill : Text) (queue : List (RetryItem A))
      → item_nums (refresh_bill_no iso num bill queue) ≡ item_nums queue
  unfolding refresh_bill_no
  refresh_nums iso num bill [] = refl
  refresh_nums iso num bill (i ∷ is) = ground (arith, refresh_nums iso num bill is)

  -- At most as many records as the queue may hold, each for another notice.
  abbrev pub IsBounded : Option (List (RetryQueueRecord A)) → Type 0
  IsBounded none = Unit
  IsBounded (some rows) = (length rows ≤ max_queue_size) × Separate (record_nums rows)

  abbrev pub Fits : List (RetryItem A) → Type 0
  Fits queue = (length queue ≤ max_queue_size) × Separate (item_nums queue)

  stored-Fits :
      (iso : Iso) (stored : Option (List (RetryQueueRecord A)))
      → IsBounded stored
      → Fits (elim stored [ none ↦ [] | some rows ↦ restore iso rows ])
  stored-Fits iso none b = (omega arith, tt)
  stored-Fits iso (some rows) b =
      let h = restore-Shrinks iso rows in
      (
        omega (
          arith,
          h.shorter,
          b.0,
          length-map (λ (i : RetryItem A). i.notice.num) (restore iso rows),
          length-map (λ (r : RetryQueueRecord A). r.notice.num) rows,
        ),
        h.separate b.1,
      )

  pub get-Fits :
      (iso : Iso) (fails : Bool) (s : RetryState A)
      → IsBounded s.stored
      → Fits (get_queue iso fails s)
  unfolding get_queue
  get-Fits iso fails s b =
      if_elim Fits fails _ _ (λ _. (omega arith, tt)) (λ _. stored-Fits iso s.stored b)

  pub set-IsBounded :
      (iso : Iso) (fails : Bool) (s : RetryState A) (queue : List (RetryItem A))
      → IsBounded s.stored
      → Fits queue
      → IsBounded (set_queue iso fails s queue).stored
  unfolding set_queue
  set-IsBounded iso fails s [] b f =
      if_elim (λ (x : RetryState A). IsBounded x.stored) fails _ _ (λ _. b) (λ _. tt)
  set-IsBounded iso fails s (i ∷ is) b f =
      if_elim (λ (x : RetryState A). IsBounded x.stored) fails _ _ (λ _. b)
        (λ _. (
          omega (arith, length-map (to_queue_record iso) (i ∷ is), f.0),
          subst Separate (sym (records_nums iso (i ∷ is))) f.1,
        ))

  not_queued :
      (iso : Iso) (num : ℕ) (queue : List (RetryItem A))
      → is_queued iso num queue ≡ false
      → has num (item_nums queue) ≡ false
  not_queued iso num [] h = refl
  not_queued iso num (i ∷ is) h = ground (arith, h, not_queued iso num is)

  pub same_nums_Fits :
      (xs ys : List (RetryItem A)) → item_nums xs ≡ item_nums ys → Fits ys → Fits xs
  same_nums_Fits xs ys e f = (
    omega (
      arith,
      f.0,
      ap length e,
      length-map (λ (i : RetryItem A). i.notice.num) xs,
      length-map (λ (i : RetryItem A). i.notice.num) ys,
    ),
    subst Separate (sym e) f.1,
  )

  snoc-Fits :
      (queue : List (RetryItem A)) (i : RetryItem A)
      → length queue < max_queue_size
      → has i.notice.num (item_nums queue) ≡ false
      → Fits queue
      → Fits (queue ++ i ∷ [])
  snoc-Fits queue i room h f = (
    omega (arith, length-append queue (i ∷ [])),
    subst Separate (sym (map-append (λ (x : RetryItem A). x.notice.num) queue (i ∷ [])))
        (Separate-snoc (item_nums queue) i.notice.num h f.1),
  )

  pub enqueue-IsBounded :
      (iso : Iso) (read_fails write_fails : Bool) (s : RetryState A) (n : CachedNotice A)
      (bill : Option Text) (now : ℕ)
      → IsBounded s.stored
      → IsBounded (enqueue iso read_fails write_fails s n bill now).stored
  unfolding enqueue
  enqueue-IsBounded iso read_fails write_fails s n bill now b =
      let queue = get_queue iso read_fails s in
      let name = requested_bill_no bill n.num in
      let f = get-Fits iso read_fails s b in
      if_elim (λ (x : RetryState A). IsBounded x.stored) (leb max_queue_size (length queue)) _ _
        (λ _. b)
        (λ room.
          if_elim (λ (x : RetryState A). IsBounded x.stored) (is_queued iso n.num queue) _ _
            (λ _.
              if_elim (λ (x : RetryState A). IsBounded x.stored) (same_bill_no iso n.num name queue)
                _ _ (λ _. b)
                (λ _.
                  set-IsBounded iso write_fails s (refresh_bill_no iso n.num name queue) b
                    (same_nums_Fits _ queue (refresh_nums iso n.num name queue) f)))
            (λ k.
              set-IsBounded iso write_fails s _ b
                (snoc-Fits queue _ (ground (arith, room)) (not_queued iso n.num queue k) f)))
