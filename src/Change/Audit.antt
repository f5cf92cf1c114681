-- ===== src/Change/Audit.antt =====
-- The audit of the change chains (src/modules/change-tracking/change-tracking-chain-audit.utils.ts):
-- each event is built again from the details of the events so far and compared with the stored one.
-- An issue's message is left out, since it repeats the code and the fields.
pub mod State
pub mod Legacy
pub mod AllChains
pub mod Coverage
pub mod Integrity
pub mod Order
pub mod Before
pub mod Tampering
use law_cast_backend.Change.Audit.State.{
  ensure_tracked_state_fields, apply_details_to_tracked_state,
}
use law_cast_backend.Change.Audit.Legacy.{is_legacy_canonical_hash_compatible}
use law_cast_backend.Base.{
  ℕ, zero, suc, ◌+◌, ◌*◌, ◌-◌, List, [], ◌∷◌, ◌++◌, Option, none, some, Bool, true, false, not, ltb,
  leb, ◌==◌, ◌&&◌, ◌||◌, if◌then◌else◌, length, map, any, keep, String, str_eq,
}
use law_cast_backend.Change.Text.{Text, codes, text_eq, same_text, trim_start}
use law_cast_backend.Change.Value.{
  Value, null, bool, number, text, object, array, Items, nil, cons, Fields, end, field,
  canonical_stringify,
}
use law_cast_backend.Change.Diff.{
  Source, Detail, Diff, hash_comparable, is_archive_upsert, get_tracked_fields_for_change_event,
}
use law_cast_backend.Change.Diff.Canonical.{
  some_digits, set_field, canonicalize_change_snapshot_for_source,
}
use law_cast_backend.Change.Event.{
  EventType, Event, DetailRow, BuildInput, BuildOutput, same_type, same_change, build_diff_event,
}
use law_cast_backend.Change.Append.{Store, details_of}

pub data ErrorCode : Type 0 where
  event_height_gap prev_hash_mismatch event_hash_mismatch event_type_mismatch : ErrorCode
  changed_field_count_mismatch diff_summary_mismatch : ErrorCode
  detail_before_hash_mismatch detail_after_hash_mismatch : ErrorCode

pub record Issue : Type 0 where
  pub notice_num : ℕ
  pub event_id : ℕ
  pub event_height : ℕ
  pub code : ErrorCode

pub record Report : Type 0 where
  pub notice_num : ℕ
  pub event_count : ℕ
  pub latest_event_hash : Option Text
  pub issues : List Issue

-- `order: { eventHeight: 'ASC', id: 'ASC' }`.
unfoldable pub put_in_order : Event → List Event → List Event
put_in_order e [] = e ∷ []
put_in_order e (f ∷ es) =
    if ltb e.event_height f.event_height || ((e.event_height == f.event_height) && leb e.id f.id)
    then e ∷ f ∷ es
    else f ∷ put_in_order e es

unfoldable pub events_of : ℕ → List Event → List Event
unfolding put_in_order
events_of notice [] = []
events_of notice (e ∷ es) =
    if e.notice_num == notice then put_in_order e (events_of notice es) else events_of notice es

-- Whether the chain was written while contentId was tracked and versions did not exist.
abbrev is_pre_versioned : List DetailRow → Event → Bool
is_pre_versioned rows e =
    leb e.canon_version 1
    && is_archive_upsert e.source
    && any (λ d. str_eq d.field_path "contentId") (details_of e.id rows)

unfoldable pub has_pre_versioned_archive_upsert : List Event → List DetailRow → Bool
unfolding details_of
has_pre_versioned_archive_upsert events rows = any (is_pre_versioned rows) events

-- What the loop carries from event to event.
pub record Progress : Type 0 where
  pub index : ℕ
  pub previous_hash : Option Text
  pub current_state : Fields

abbrev pub at_start : Progress
at_start = record { index = 0; previous_hash = none; current_state = end }

unfoldable pub when : Bool → Issue → List Issue
when true issue = issue ∷ []
when false issue = []

abbrev pub issue_at : ℕ → Event → ErrorCode → Issue
issue_at notice e code = record {
  notice_num = notice;
  event_id = e.id;
  event_height = e.event_height;
  code = code;
}

module _ (sha256_hex : Text → Text) where
  abbrev tracked : Bool → Event → List String
  tracked has_pre e =
      get_tracked_fields_for_change_event e.source e.canon_version
        (has_pre && is_archive_upsert e.source && leb e.canon_version 1)

  abbrev ensured : Bool → Progress → Event → Fields
  ensured has_pre p e =
      ensure_tracked_state_fields p.current_state (tracked has_pre e) e.canon_version

  unfoldable pub next_state : Bool → Progress → Event → List Detail → Fields
  unfolding ensure_tracked_state_fields apply_details_to_tracked_state
      get_tracked_fields_for_change_event
  next_state has_pre p e details = apply_details_to_tracked_state (ensured has_pre p e) details

  -- `deps.buildDiffEvent({ ... })` on the states before and after the event.
  unfoldable pub rebuild : Bool → ℕ → Progress → Event → List Detail → BuildOutput
  unfolding next_state build_diff_event canonicalize_change_snapshot_for_source
  rebuild has_pre notice p e details = build_diff_event sha256_hex (record {
    notice_num = notice;
    before_snapshot =
        if p.index == 0
        then none
        else some (
            canonicalize_change_snapshot_for_source e.source e.canon_version (ensured has_pre p e));
    after_snapshot =
        canonicalize_change_snapshot_for_source e.source e.canon_version
          (next_state has_pre p e details);
    detected_at = e.detected_at;
    source = e.source;
    tracked_fields = tracked has_pre e;
    hash_algo = e.hash_algo;
    canon_version = e.canon_version;
    preferred_event_type = none;
  })

  -- The issues of the details of an event.
  unfoldable pub detail_issues : (ErrorCode → Issue) → List Detail → List Issue
  unfolding when text_eq
  detail_issues issue [] = []
  detail_issues issue (d ∷ ds) =
      when (not (same_text d.before_hash (hash_comparable sha256_hex d.before_value)))
        (issue detail_before_hash_mismatch)
      ++ (when (not (same_text d.after_hash (hash_comparable sha256_hex d.after_value)))
            (issue detail_after_hash_mismatch)
          ++ detail_issues issue ds)

  -- The issues of an event against what was rebuilt.
  unfoldable pub event_issues : ℕ → Progress → Event → List Detail → BuildOutput → List Issue
  unfolding when detail_issues is_legacy_canonical_hash_compatible text_eq same_type
  event_issues notice p e details rebuilt =
      let hash_ok = text_eq e.event_hash rebuilt.event_hash in
      let legacy =
        leb e.canon_version 1
        && not hash_ok
        && is_legacy_canonical_hash_compatible e rebuilt details in
      let expected_prev = if e.event_height == 1 then none else p.previous_hash in
      let issue = issue_at notice e in
      when (not (e.event_height == p.index + 1)) (issue event_height_gap)
      ++ (when (not (same_text e.prev_event_hash expected_prev) && not legacy)
            (issue prev_hash_mismatch)
          ++ (when (not hash_ok && not legacy) (issue event_hash_mismatch)
              ++ (when (not (same_type e.event_type rebuilt.event_type)) (issue event_type_mismatch)
                  ++ (when (not (e.changed_field_count == rebuilt.diff.changed_field_count))
                        (issue changed_field_count_mismatch)
                      ++ (when
                            (not
                              (same_text e.diff_summary_json (some rebuilt.diff.diff_summary_json)))
                            (issue diff_summary_mismatch)
                          ++ detail_issues issue details)))))

  abbrev pub advance : Bool → Progress → Event → List Detail → Progress
  advance has_pre p e details = record {
    index = p.index + 1;
    previous_hash = some e.event_hash;
    current_state = next_state has_pre p e details;
  }

  -- The loop over the events.
  unfoldable pub verify_from : Bool → ℕ → List DetailRow → Progress → List Event → List Issue
  unfolding event_issues rebuild details_of
  verify_from has_pre notice rows p [] = []
  verify_from has_pre notice rows p (e ∷ es) =
      let details = details_of e.id rows in
      event_issues notice p e details (rebuild has_pre notice p e details)
      ++ verify_from has_pre notice rows (advance has_pre p e details) es

  abbrev last_hash : Option Text → List Event → Option Text
  last_hash previous [] = previous
  last_hash previous (e ∷ es) = last_hash (some e.event_hash) es

  -- The report on a chain whose events are given in order.
  unfoldable pub verify_chain : ℕ → List Event → List DetailRow → Report
  unfolding verify_from has_pre_versioned_archive_upsert
  verify_chain notice events rows = record {
    notice_num = notice;
    event_count = length events;
    latest_event_hash = last_hash none events;
    issues = verify_from (has_pre_versioned_archive_upsert events rows) notice rows at_start events;
  }

  unfoldable pub verify_notice_chain : Store → ℕ → Report
  unfolding verify_chain events_of
  verify_notice_chain s notice = verify_chain notice (events_of notice s.events) s.details
