-- ===== src/ProposalRetry/Tests.antt =====
-- Runs of src/modules/crawling/utils/crawling-scheduler-proposal-retry.ts at concrete inputs.
use law_cast_backend.Base.{
  ℕ, ◌+◌, ◌≡◌, refl, List, [], ◌∷◌, Option, none, some, true, false, not, ◌==◌, if◌then◌else◌, keep,
  map, length, String,
}
use law_cast_backend.Promises.{Result, ok}
use law_cast_backend.Change.Text.{Text, codes, is_space}
use law_cast_backend.Cache.{CachedNotice, ready}
use law_cast_backend.ProposalRetry.{
  RetryItem, RetryState, Iso, get_queue, set_queue, without_summary,
}
use law_cast_backend.ProposalRetry.Drain.{
  Env, FetchError, wrote, normalize_queue_bill_nos, drain_queue, save_queue, is_wanted, notify,
  reversed, max_age_ms,
}
use law_cast_backend.ProposalRetry.Candidates.{is_evicted, is_resolved, is_kept}
use law_cast_backend.ProposalRetry.Lifetime.{
  Call, enqueues, drains, handle_all, handle_all-IsSmall, no_items,
}
use law_cast_backend.ProposalRetry.Bounds.{IsBounded}
use law_cast_backend.ProposalRetry.OnePass.{drain_queue_lem, is_dropped}
use law_cast_backend.ProposalRetry.Storage.{get_queue-set_queue}

-- A time as a text of one character.
abbrev parse_one : Text → Option ℕ
parse_one [] = none
parse_one (c ∷ s) = some c

abbrev plain_iso : Iso
plain_iso = record { to_iso_string = λ t. t ∷ []; parse_date = parse_one }

abbrev bill : ℕ → CachedNotice String
bill num = record {
  num = num;
  base = "a bill";
  num_comments = none;
  ai_summary = none;
  ai_summary_status = none;
  proposal_reason = none;
}

abbrev item : ℕ → ℕ → RetryItem String
item num queued_at = record {
  notice = bill num;
  bill_no = codes "22";
  retry_count = 0;
  queued_at = queued_at;
}

abbrev reason : ℕ → Text → Result FetchError Text
reason num bill_no = ok (if num == 3 then [] else codes "why")

-- Bill 1 has moved on, bill 2 is too old, bill 3 has no reason, and the summary of bill 4 is written.
abbrev env : Env String
env = record {
  archived_bill_no = λ num. none;
  is_eligible = λ num. not (num == 1);
  is_source_deleted = λ num. false;
  fetch_reason = reason;
  generate_summary = λ n. some (some (codes "short"), ready);
  is_ai_enabled = true;
  bulk_write = wrote (λ num. num == 4);
  single_write = λ num. false;
  now = max_age_ms + 5;
}

abbrev queue : List (RetryItem String)
queue = item 1 9 ∷ item 2 0 ∷ item 3 9 ∷ item 4 9 ∷ item 5 9 ∷ []

abbrev state : RetryState String
state = set_queue plain_iso false no_items queue

get_queue-set_queue_example : get_queue plain_iso false state ≡ queue
get_queue-set_queue_example = get_queue-set_queue plain_iso no_items queue (λ t. refl)

drain_run :
    let d = drain_queue env plain_iso false false state in
    (map (λ i. i.notice.num) (get_queue plain_iso false d.state) ≡ 5 ∷ [])
    × (map (map (λ n. n.num)) d.state.sent ≡ (2 ∷ []) ∷ (4 ∷ []) ∷ [])
unfolding drain_queue is_space
drain_run = (refl, refl)

drain_queue_lem_example :
    let items = normalize_queue_bill_nos env (get_queue plain_iso false state) in
    let d = drain_queue env plain_iso false false state in
    (d.state.stored
      ≡ (save_queue env plain_iso false false state
          (get_queue plain_iso false state)
          (keep (is_kept env) items)).stored)
    × (map (λ n. n.num) d.resolved ≡ map (λ i. i.notice.num) (keep (is_resolved env) items))
    × (d.state.sent
        ≡ (notify env d.resolved (
            notify env
              (map (λ i. without_summary i.notice) (reversed (keep (is_evicted env) items)))
              state)).sent)
    × (length (keep (λ i. not (is_wanted env i)) items)
          + length (keep (is_evicted env) items)
          + length (keep (is_dropped env) items)
          + length (keep (is_resolved env) items)
          + length (keep (is_kept env) items)
        ≡ length items)
unfolding get_queue set_queue normalize_queue_bill_nos
drain_queue_lem_example = drain_queue_lem env plain_iso false false state (refl, (refl, (refl, tt)))

abbrev calls : List (Call String)
calls =
    enqueues false false (bill 7) none 9
    ∷ enqueues false true (bill 8) (some (codes " 22 ")) 4
    ∷ drains env false false
    ∷ []

handle_all-IsSmall_example : IsBounded (handle_all plain_iso no_items calls).stored
handle_all-IsSmall_example = handle_all-IsSmall plain_iso calls

enqueue_run : length (get_queue plain_iso false (handle_all plain_iso no_items calls)) ≡ 1
unfolding get_queue handle_all is_space
enqueue_run = refl
