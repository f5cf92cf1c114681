-- ===== src/ProposalRetry.antt =====
-- The queue of bills whose proposal reason is still missing
-- (src/modules/crawling/utils/crawling-scheduler-proposal-retry.ts). The queue lives in Redis; a read
-- that fails gives none, and a write that fails leaves what was there. The text form of a time and
-- its reading are parameters. Here: the records, `enqueue`, `getQueue` and `setQueue`.
pub mod Drain
pub mod Bounds
pub mod Candidates
pub mod Lifetime
pub mod OnePass
pub mod Storage
mod Tests
use mathlib.Core.Option
use law_cast_backend.Base.{
  ℕ, zero, suc, ◌+◌, List, [], ◌∷◌, ◌++◌, Option, none, some, Bool, true, false, not, leb, ltb,
  ◌==◌, ◌&&◌, if◌then◌else◌, keep, find_by, map, length, any,
}
use law_cast_backend.Change.Text.{Text, trim, decimal, text_eq}
use law_cast_backend.Cache.{CachedNotice, not_supported}

-- `PROPOSAL_REASON_RETRY_QUEUE.MAX_SIZE` of src/config/app.config.ts.
abbrev pub max_queue_size : ℕ
max_queue_size = 5000

pub record RetryItem (A : Type 0) : Type 0 where
  pub notice : CachedNotice A
  pub bill_no : Text
  pub retry_count : ℕ
  pub queued_at : ℕ

pub record RetryQueueRecord (A : Type 0) : Type 0 where
  pub notice : CachedNotice A
  pub bill_no : Text
  pub retry_count : ℕ
  pub queued_at_iso : Text

-- Times as text, and back; the reading gives none where the source's gives an invalid date.
pub record Iso : Type 0 where
  pub to_iso_string : ℕ → Text
  pub parse_date : Text → Option ℕ

-- The value under the queue's key, and the calls of `sendNotifications`, oldest first.
pub record RetryState (A : Type 0) : Type 0 where
  pub stored : Option (List (RetryQueueRecord A))
  pub sent : List (List (CachedNotice A))

-- `billNo?.trim() || num.toString()`.
unfoldable pub requested_bill_no : Option Text → ℕ → Text
unfolding trim decimal
requested_bill_no none num = decimal num
requested_bill_no (some s) num = elim (trim s) [ [] ↦ decimal num | c ∷ t ↦ c ∷ t ]

module _ {A : Type 0} where
  -- The notice of a fallback notification.
  abbrev pub without_summary : CachedNotice A → CachedNotice A
  without_summary n = record n { ai_summary = none; ai_summary_status = some not_supported }

  module _ (iso : Iso) where
    unfoldable pub to_queue_record : RetryItem A → RetryQueueRecord A
    to_queue_record item = record {
      notice = item.notice;
      bill_no = item.bill_no;
      retry_count = item.retry_count;
      queued_at_iso = iso.to_iso_string item.queued_at;
    }

    unfoldable pub from_queue_record : RetryQueueRecord A → Option (RetryItem A)
    from_queue_record row = elim (iso.parse_date row.queued_at_iso) [
      | none ↦ none
      | some at ↦ some (record {
        notice = row.notice;
        bill_no = row.bill_no;
        retry_count = row.retry_count;
        queued_at = at;
      })
    ]

    unfoldable pub restore : List (RetryQueueRecord A) → List (RetryItem A)
    unfolding from_queue_record
    restore [] = []
    restore (row ∷ rows) = elim (from_queue_record row) [
      | none ↦ restore rows
      | some item ↦ item ∷ restore rows
    ]

    unfoldable pub get_queue : Bool → RetryState A → List (RetryItem A)
    unfolding restore
    get_queue fails s = if fails then [] else elim s.stored [ none ↦ [] | some rows ↦ restore rows ]

    -- A queue that is empty is deleted.
    unfoldable pub set_queue : Bool → RetryState A → List (RetryItem A) → RetryState A
    unfolding to_queue_record
    set_queue fails s queue = if fails then s else elim queue [
      | [] ↦ record s { stored = none }
      | i ∷ is ↦ record s { stored = some (map to_queue_record (i ∷ is)) }
    ]

    abbrev pub is_queued : ℕ → List (RetryItem A) → Bool
    is_queued num queue = any (λ i. i.notice.num == num) queue

    -- The first item of a notice gets the number, if it has another.
    unfoldable pub refresh_bill_no : ℕ → Text → List (RetryItem A) → List (RetryItem A)
    refresh_bill_no num bill_no [] = []
    refresh_bill_no num bill_no (i ∷ is) =
        let rest = refresh_bill_no num bill_no is in
        if i.notice.num == num then record i { bill_no = bill_no } ∷ is else i ∷ rest

    unfoldable pub same_bill_no : ℕ → Text → List (RetryItem A) → Bool
    unfolding text_eq
    same_bill_no num bill_no queue = elim (find_by (λ i. i.notice.num == num) queue) [
      | none ↦ false
      | some i ↦ text_eq i.bill_no bill_no
    ]

    -- The flags say whether the read and the write of Redis fail.
    unfoldable pub enqueue :
        Bool → Bool → RetryState A → CachedNotice A → Option Text → ℕ → RetryState A
    unfolding get_queue set_queue requested_bill_no refresh_bill_no same_bill_no
    enqueue read_fails write_fails s n bill_no now =
        let queue = get_queue read_fails s in
        let bill = requested_bill_no bill_no n.num in
        if leb max_queue_size (length queue)
        then record s { sent = s.sent ++ (without_summary n ∷ []) ∷ [] }
        else if is_queued n.num queue
        then (if same_bill_no n.num bill queue
            then s
            else set_queue write_fails s (refresh_bill_no n.num bill queue))
        else set_queue write_fails s
            (queue ++ record { notice = n; bill_no = bill; retry_count = 0; queued_at = now } ∷ [])
