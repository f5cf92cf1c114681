-- ===== src/ProposalRetry/Drain.antt =====
-- `drainQueue` of src/modules/crawling/utils/crawling-scheduler-proposal-retry.ts, with
-- `normalizeAttemptedSummaryStatus` of ai-summary-status.utils.ts beside it. What the archive, the
-- crawler and the summaries answer is a record of functions. The delays between two fetches are left
-- out. The update of the cache with the resolved notices is that of Cache.
use law_cast_backend.Base.{
  ℕ, ◌+◌, ◌*◌, List, [], ◌∷◌, ◌++◌, Option, none, some, Bool, true, false, not, leb, ltb, ◌==◌,
  ◌&&◌, ◌||◌, if◌then◌else◌, keep, find_by, map, length, any,
}
use law_cast_backend.Base.Filters.{has}
use law_cast_backend.Promises.{Result, ok, err}
use law_cast_backend.Change.Text.{Text, trim, decimal, text_eq}
use law_cast_backend.Cache.{
  CachedNotice, CacheService, Faults, AiSummaryStatus, unavailable, not_requested, ready,
  not_supported, get_recent_notices, update_cache, max_size,
}
use law_cast_backend.ProposalRetry.{
  RetryItem, RetryState, Iso, get_queue, set_queue, without_summary,
}

-- `NSM_REASON_RETRY_MAX_ATTEMPTS` and `NSM_REASON_RETRY_MAX_AGE_MS` of src/config/app.config.ts.
abbrev pub max_attempts : ℕ
max_attempts = 5

abbrev pub max_age_ms : ℕ
max_age_ms = 24 * 60 * 60 * 1000

pub data FetchError : Type 0 where
  fetch_failed : FetchError

-- The bulk write of summaries: not there, refused, or done for some notices.
pub data BulkWrite : Type 0 where
  not_offered refused : BulkWrite
  wrote : (ℕ → Bool) → BulkWrite

pub record Env (A : Type 0) : Type 0 where
  pub archived_bill_no : ℕ → Option Text
  pub is_eligible : ℕ → Bool
  pub is_source_deleted : ℕ → Bool
  pub fetch_reason : ℕ → Text → Result FetchError Text
  pub generate_summary : CachedNotice A → Option (Option Text × AiSummaryStatus)
  pub is_ai_enabled : Bool
  pub bulk_write : BulkWrite
  pub single_write : ℕ → Bool
  pub now : ℕ

abbrev is_digits : Text → Bool
is_digits [] = true
is_digits (c ∷ s) = leb 48 c && leb c 57 && is_digits s

-- `normalizeBillNo`.
unfoldable pub normalize_bill_no : Option Text → Option Text
unfolding trim
normalize_bill_no none = none
normalize_bill_no (some s) = elim (trim s) [
  | [] ↦ none
  | c ∷ t ↦ if is_digits (c ∷ t) then some (c ∷ t) else none
]

-- The number that `normalizeQueueBillNos` gives to an item.
unfoldable pub next_bill_no : Option Text → Text → ℕ → Text
unfolding normalize_bill_no decimal
next_bill_no archived queued num = elim (normalize_bill_no archived) [
  | some s ↦ s
  | none ↦ elim (normalize_bill_no (some queued)) [ some s ↦ s | none ↦ decimal num ]
]

unfoldable pub normalize_attempted_summary_status : AiSummaryStatus → Bool → AiSummaryStatus
normalize_attempted_summary_status not_requested true = unavailable
normalize_attempted_summary_status not_requested false = not_requested
normalize_attempted_summary_status ready enabled = ready
normalize_attempted_summary_status unavailable enabled = unavailable
normalize_attempted_summary_status not_supported enabled = not_supported

-- A list that was filled from the back.
abbrev pub reversed {ℓ} : {X : Type ℓ} → List X → List X
reversed [] = []
reversed (x ∷ xs) = reversed xs ++ x ∷ []

module _ {A : Type 0} (env : Env A) where
  abbrev pub normalize_item : RetryItem A → RetryItem A
  normalize_item i = record i {
    bill_no = next_bill_no (env.archived_bill_no i.notice.num) i.bill_no i.notice.num;
  }

  unfoldable pub normalize_queue_bill_nos : List (RetryItem A) → List (RetryItem A)
  unfolding next_bill_no
  normalize_queue_bill_nos queue = map normalize_item queue

  unfoldable pub any_renamed : List (RetryItem A) → Bool
  unfolding next_bill_no text_eq
  any_renamed queue = any (λ i. not (text_eq i.bill_no (normalize_item i).bill_no)) queue

  abbrev pub is_expired : RetryItem A → Bool
  is_expired i = leb max_attempts i.retry_count || ltb (i.queued_at + max_age_ms) env.now

  -- The items that the archive still wants a reason for.
  abbrev pub is_wanted : RetryItem A → Bool
  is_wanted i = env.is_eligible i.notice.num && not (env.is_source_deleted i.notice.num)

  -- The two prunings, one after the other.
  unfoldable pub prune : List (RetryItem A) → List (RetryItem A)
  prune queue =
      keep (λ i. not (env.is_source_deleted i.notice.num))
        (keep (λ i. env.is_eligible i.notice.num) queue)

  unfoldable pub with_summary : CachedNotice A → Text → CachedNotice A
  unfolding normalize_attempted_summary_status
  with_summary n reason =
      let enriched : CachedNotice A = record n { proposal_reason = some reason } in
      elim (env.generate_summary enriched) [
        | none ↦ record enriched { ai_summary = none; ai_summary_status = some unavailable }
        | some r ↦ record enriched {
          ai_summary = r.0;
          ai_summary_status = some (normalize_attempted_summary_status r.1 env.is_ai_enabled);
        }
      ]

  -- The loop over the queue: an item whose reason is empty is dropped; a fetch that throws ends the
  -- whole call.
  unfoldable pub collect :
      List (RetryItem A) → Result FetchError (List (RetryItem A × CachedNotice A))
  unfolding with_summary
  collect [] = ok []
  collect (i ∷ is) = elim (env.fetch_reason i.notice.num i.bill_no) [
    | err e ↦ err e
    | ok reason ↦ elim (collect is) [
      | err e ↦ err e
      | ok rest ↦ elim reason [
        | [] ↦ ok rest
        | c ∷ s ↦ ok ((i, with_summary i.notice (c ∷ s)) ∷ rest)
      ]
    ]
  ]

  -- The notices whose summary was written, one by one when there is no answer of the bulk write.
  abbrev pub is_persisted : ℕ → Bool
  is_persisted num = elim env.bulk_write [ wrote written ↦ written num | _ ↦ env.single_write num ]

  abbrev pub persisted : List (RetryItem A × CachedNotice A) → List (RetryItem A × CachedNotice A)
  persisted candidates = keep (λ c. is_persisted c.1.num) candidates

  unfoldable pub remove_persisted :
      List (RetryItem A × CachedNotice A) → List (RetryItem A) → List (RetryItem A)
  remove_persisted done queue = keep (λ i. not (has i.notice.num (map (λ c. c.1.num) done))) queue

  pub record Drained : Type 0 where
    pub state : RetryState A
    pub resolved : List (CachedNotice A)

  abbrev pub notify : List (CachedNotice A) → RetryState A → RetryState A
  notify [] s = s
  notify (n ∷ ns) s = record s { sent = s.sent ++ (n ∷ ns) ∷ [] }

  module _ (iso : Iso) (read_fails write_fails : Bool) where
    -- The queue is written only when an item was renamed or taken out.
    unfoldable pub save_queue :
        RetryState A → List (RetryItem A) → List (RetryItem A) → RetryState A
    unfolding any_renamed set_queue
    save_queue s before after =
        if any_renamed before || not (length after == length before)
        then set_queue iso write_fails s after
        else s

    unfoldable pub drain_queue : RetryState A → Drained
    unfolding save_queue get_queue normalize_queue_bill_nos prune collect remove_persisted
    drain_queue s =
        let queue = get_queue iso read_fails s in
        let wanted = prune (normalize_queue_bill_nos queue) in
        let fresh = keep (λ i. not (is_expired i)) wanted in
        let evicted = reversed (keep is_expired wanted) in
        let s' = notify (map (λ i. without_summary i.notice) evicted) s in
        elim (collect fresh) [
          | err e ↦ record { state = s'; resolved = [] }
          | ok candidates ↦
              let done = persisted candidates in
              let left = remove_persisted done (map (λ c. c.0) candidates) in
              let resolved = map (λ c. c.1) done in
              record { state = notify resolved (save_queue s' queue left); resolved = resolved }
        ]

  -- The notices to merge into the cache: those that are there, renewed, and the others.
  unfoldable pub renewed : List (CachedNotice A) → CachedNotice A → CachedNotice A
  renewed resolved n = elim (find_by (λ r. r.num == n.num) (reversed resolved)) [
    | none ↦ n
    | some r ↦ r
  ]

  unfoldable pub merge_resolved :
      Faults → CacheService A → List (CachedNotice A) → ℕ → CacheService A
  unfolding renewed get_recent_notices update_cache
  merge_resolved f c [] time = c
  merge_resolved f c (r ∷ rs) time =
      let (c', notices) = get_recent_notices f.reads c max_size in
      let merged =
        map (renewed (r ∷ rs)) notices
        ++ keep (λ n. not (has n.num (map (λ m. m.num) notices))) (r ∷ rs) in
      (update_cache f c' merged time).0
