-- ===== src/Change/Tests.antt =====
-- Runs of src/modules/change-tracking at concrete inputs.
use law_cast_backend.Base.{
  ℕ, zero, suc, ◌≡◌, ◌≢◌, ◌↔◌, refl, ap, Bool, List, [], ◌∷◌, ◌++◌, Option, none, some, true, false,
  arith, All, concat, subst, sym, append-nil, keep, map, length, String,
}
use law_cast_backend.Promises.{ok}
use law_cast_backend.Change.Text.{Text, codes, is_space, text_eq}
use law_cast_backend.Change.Value.{
  number, text, null, object, Fields, field, end, precedes, canonical_stringify,
}
use law_cast_backend.Change.Value.Keys.{swap, canonical_stringify-Reordered}
use law_cast_backend.Change.Diff.{archive_is_done_sync, compute_diff, default_tracked_fields}
use law_cast_backend.Change.Diff.Canonical.{canonicalize_subject, canonicalize_proposal_date}
use law_cast_backend.Change.Diff.Tracked.{compute_diff_lem, differs, IsTrue}
use law_cast_backend.Change.Event.{updated, Event, DetailRow, BuildInput, build_diff_event}
use law_cast_backend.Change.Append.{
  Store, AppendInput, Attempt, latest, create_change_event_entity, find_latest_duplicate_event,
  DbError, height_conflict, append_change_event_with_details_core,
}
use law_cast_backend.Change.Append.Linked.{IsLinked, WellFormed, append-WellFormed}
use law_cast_backend.Change.Append.Outcomes.{
  Extends, append-Extends, append_succeeds, quiet, with_next_row, next_row as row_after,
}
use law_cast_backend.Change.Audit.{verify_chain, verify_notice_chain, at_start}
use law_cast_backend.Change.Audit.Integrity.{verify_chain_iff, AreRebuilt}
use law_cast_backend.Change.Audit.AllChains.{run_scheduled_chain_audit_internal}
use law_cast_backend.Change.Audit.Coverage.{run_scheduled_chain_audit_internal_lem}
use law_cast_backend.Change.Audit.Before.{with_before, verify_chain_blind_to_before}
use law_cast_backend.Change.Audit.Tampering.{with_hash, verify_chain_tampered}
use law_cast_backend.Change.Audit.Order.{WellFormed-audit, has_no_link_issue}
use law_cast_backend.Change.Notify.{
  DispatchInput, Call, dispatches, begins_collection, ends_collection, flush_ends, handle_all,
  change_tracking_service,
}
use law_cast_backend.Change.Notify.Delivery.{
  all_payloads, accepted, is_served, handle_all_delivers, handle_all-is_served,
}

subject_run : canonicalize_subject (codes "형법 일부개정법률안 (홍길동의원 등 12인)") ≡ codes "형법 일부개정법률안"
unfolding canonicalize_subject is_space
subject_run = refl

date_run : canonicalize_proposal_date (codes "2024. 3. 5.") ≡ codes "2024-03-05"
unfolding canonicalize_proposal_date is_space
date_run = refl

-- A hash that keeps its argument.
abbrev plain_hash : Text → Text
plain_hash s = s

abbrev before : Fields
before = field "num" (number 7) (field "subject" (text (codes "Bill")) end)

abbrev after : Fields
after = field "num" (number 7) (field "subject" (text (codes "Act")) end)

abbrev swapped : Fields
swapped = field "subject" (text (codes "Bill")) (field "num" (number 7) end)

canonical_stringify-Reordered_example :
    canonical_stringify (object before) ≡ canonical_stringify (object swapped)
canonical_stringify-Reordered_example =
    canonical_stringify-Reordered
      (swap "num" "subject" (number 7) (text (codes "Bill")) end (λ e. cc))

compute_diff_lem_example :
    let d = compute_diff plain_hash (some before) after ("num" ∷ "subject" ∷ []) 2 in
    let differ = keep (differs plain_hash (some before) after 2) ("num" ∷ "subject" ∷ []) in
    (map (λ x. x.field_path) d.details ≡ differ)
    × All (IsTrue plain_hash (some before) after 2) d.details
    × (d.changed_field_count ≡ length differ)
    × ((d.changed ≡ false) ↔ (differ ≡ []))
compute_diff_lem_example =
    compute_diff_lem plain_hash (some before) after 2 ("num" ∷ "subject" ∷ [])

diff_run :
    map
      (λ x. x.field_path)
      (compute_diff plain_hash (some before) after default_tracked_fields 2).details
    ≡ "subject" ∷ []
unfolding compute_diff is_space text_eq
diff_run = refl

abbrev empty_store : Store
empty_store = record { events = []; details = []; next_id = 1 }

abbrev build_input : Option Fields → Fields → BuildInput
build_input old new = record {
  notice_num = 7;
  before_snapshot = old;
  after_snapshot = new;
  detected_at = codes "2024-03-05T00:00:00.000Z";
  source = some archive_is_done_sync;
  tracked_fields = default_tracked_fields;
  hash_algo = codes "sha256";
  canon_version = 2;
  preferred_event_type = none;
}

abbrev append_input : BuildInput → AppendInput
append_input input =
    let built = build_diff_event plain_hash input in
    record {
      notice_num = input.notice_num;
      event_type = built.event_type;
      event_hash = built.event_hash;
      detected_at = input.detected_at;
      source = input.source;
      changed_field_count = built.diff.changed_field_count;
      diff_summary_json = some built.diff.diff_summary_json;
      hash_algo = input.hash_algo;
      canon_version = input.canon_version;
      details = built.diff.details;
      max_retries = none;
    }

-- What the archive holds of a notice.
abbrev nulls : Fields
nulls = field "proposerCategory" null (
    field "committee" null (
      field "billNumber" null (
        field "proposer" null (
          field "proposalDate" null (
            field "contentCommittee" null (
              field "referralDate" null (
                field "noticePeriod" null (
                  field "proposalSession" null (
                    field "isDone" null
                      (field "lifecycleStatus" null (field "sourceDeletedAt" null end)))))))))))

abbrev snapshot : String → Fields
snapshot subject = field "num" (number 7) (
    field "contentId" null
      (field "subject" (text (codes subject)) (field "proposalReason" (text []) nulls)))

abbrev genesis : AppendInput
genesis = append_input (build_input none (snapshot "Bill"))

-- The first of three attempts fails: somebody else took the height.
abbrev first_fails : ℕ → Option DbError
first_fails zero = none
first_fails (suc zero) = none
first_fails (suc (suc k)) = some height_conflict

abbrev busy : ℕ → Attempt
busy k = record { others = λ s. []; other_details = λ s. []; fault = first_fails k }

append-WellFormed_example :
    WellFormed (append_change_event_with_details_core empty_store genesis busy).0.events
append-WellFormed_example =
    append-WellFormed empty_store genesis busy
      (λ k s w. subst WellFormed (sym (append-nil s.events)) w) (λ notice. tt)

append-Extends_example :
    Extends empty_store (append_change_event_with_details_core empty_store genesis busy).0
append-Extends_example = append-Extends empty_store genesis busy

append_succeeds_example :
    append_change_event_with_details_core empty_store genesis (λ k. quiet)
    ≡ (with_next_row empty_store genesis, ok (row_after empty_store genesis))
unfolding find_latest_duplicate_event
append_succeeds_example = append_succeeds empty_store genesis refl refl

-- The chain of two events that the service itself writes.
abbrev change : AppendInput
change = append_input (build_input (some (snapshot "Bill")) (snapshot "Act"))

abbrev store : Store
store =
    (append_change_event_with_details_core
      (append_change_event_with_details_core empty_store genesis busy).0 change busy).0

length_run : length store.events ≡ 2
unfolding append_change_event_with_details_core build_diff_event is_space text_eq precedes
length_run = refl

abbrev row : Event
row = row_after empty_store genesis

abbrev next_row : Event
next_row = row_after (with_next_row empty_store genesis) change

abbrev rows : List DetailRow
rows = (with_next_row (with_next_row empty_store genesis) change).details

audit_run : (verify_chain plain_hash 7 (row ∷ next_row ∷ []) rows).issues ≡ []
unfolding verify_chain build_diff_event create_change_event_entity latest is_space text_eq precedes
audit_run = refl

verify_chain_iff_example : ((verify_chain plain_hash 7 (row ∷ next_row ∷ []) rows).issues ≡ []) ↔ (
    IsLinked 0 none (row ∷ next_row ∷ [])
    × AreRebuilt plain_hash 7 rows at_start (row ∷ next_row ∷ []))
unfolding create_change_event_entity
verify_chain_iff_example =
    verify_chain_iff plain_hash 7 (row ∷ next_row ∷ []) rows (omega arith, (omega arith, tt))

verify_chain_blind_to_before_example :
    (verify_chain plain_hash 7
      (row ∷ next_row ∷ [])
      (map (with_before plain_hash (λ r. some (codes "forged"))) rows)).issues
    ≡ []
verify_chain_blind_to_before_example =
    verify_chain_blind_to_before plain_hash (λ r. some (codes "forged")) 7 (row ∷ next_row ∷ [])
      rows (omega arith, (omega arith, tt)) audit_run

WellFormed-audit_example :
    has_no_link_issue
      (verify_notice_chain plain_hash
        (append_change_event_with_details_core empty_store genesis busy).0
        7).issues
    ≡ true
WellFormed-audit_example =
    WellFormed-audit plain_hash (append_change_event_with_details_core empty_store genesis busy).0 7
      append-WellFormed_example

abbrev notice_change : DispatchInput
notice_change = record {
  event = record row { event_type = updated };
  subject = codes "Act";
  changed_fields = "subject" ∷ [];
  change_details = none;
}

abbrev calls : List Call
calls =
    dispatches notice_change
    ∷ begins_collection
    ∷ dispatches notice_change
    ∷ ends_collection
    ∷ dispatches notice_change
    ∷ flush_ends
    ∷ []

calls_run :
    let q = handle_all change_tracking_service calls in
    (length q.queued ≡ 1) × (q.flush_timer ≡ true) × (length (concat q.dispatched) ≡ 2)
unfolding handle_all text_eq create_change_event_entity
calls_run = (refl, refl, refl)

handle_all_delivers_example :
    all_payloads (handle_all change_tracking_service calls)
    ≡ all_payloads change_tracking_service ++ accepted change_tracking_service calls
handle_all_delivers_example = handle_all_delivers change_tracking_service calls

handle_all-is_served_example : is_served (handle_all change_tracking_service calls) ≡ true
handle_all-is_served_example = handle_all-is_served calls

abbrev is_empty : Text → Bool
is_empty [] = true
is_empty (c ∷ s) = false

-- The hash of the second event is erased.
verify_chain_tampered_example :
    (verify_chain plain_hash 7 ((row ∷ []) ++ with_hash next_row [] ∷ []) rows).issues ≢ []
unfolding verify_chain build_diff_event create_change_event_entity latest is_space text_eq precedes
verify_chain_tampered_example =
    verify_chain_tampered plain_hash 7 (row ∷ []) [] next_row [] rows
      (omega arith, (omega arith, tt)) refl
      (λ e. let differ : true ≡ false = ap is_empty e in cc (differ))

abbrev clean_store : Store
clean_store = record { events = row ∷ next_row ∷ []; details = rows; next_id = 3 }

run_scheduled_chain_audit_internal_lem_example :
    All
      (λ e. (verify_notice_chain plain_hash clean_store e.notice_num).issues ≡ [])
      clean_store.events
unfolding run_scheduled_chain_audit_internal build_diff_event create_change_event_entity latest
    is_space text_eq precedes
run_scheduled_chain_audit_internal_lem_example =
    run_scheduled_chain_audit_internal_lem plain_hash clean_store refl
