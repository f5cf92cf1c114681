-- ===== src/ProposalRetry/Storage.antt =====
-- About `getQueue` and `setQueue` of
-- src/modules/crawling/utils/crawling-scheduler-proposal-retry.ts.
use law_cast_backend.Base.{ℕ, ◌≡◌, refl, ap, List, [], ◌∷◌, some, false, map}
use law_cast_backend.ProposalRetry.{
  RetryItem, RetryState, Iso, get_queue, set_queue, restore, to_queue_record, from_queue_record,
}

-- Reading a text of a time gives the time.
abbrev pub ReadsBack : Iso → Type 0
ReadsBack iso = (t : ℕ) → iso.parse_date (iso.to_iso_string t) ≡ some t

module _ {A : Type 0} where
  restore-map :
      (iso : Iso)
      → ReadsBack iso
      → (queue : List (RetryItem A)) → restore iso (map (to_queue_record iso) queue) ≡ queue
  unfolding restore from_queue_record to_queue_record
  restore-map iso r [] = refl
  restore-map iso r (i ∷ is) =
      rw (r i.queued_at, from_queue_record, restore) (ap (◌∷◌ i) (restore-map iso r is))

  -- When times read back from their text and Redis does not fail, a queue that was written is read
  -- back as it was, the empty one included.
  pub get_queue-set_queue :
      (iso : Iso) (s : RetryState A) (queue : List (RetryItem A))
      → ReadsBack iso
      → get_queue iso false (set_queue iso false s queue) ≡ queue
  unfolding get_queue set_queue
  get_queue-set_queue iso s [] r = refl
  get_queue-set_queue iso s (i ∷ is) r = restore-map iso r (i ∷ is)
